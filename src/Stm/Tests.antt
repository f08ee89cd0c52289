-- ===== src/Stm/Tests.antt =====
-- rts/STM.c: transactions and threads that run.
use ghc_xapp_fix.Prelude.{
  ◌↔◌, ℕ, ◌+◌, ◌≡◌, ◌⊎◌, refl, true, false, Option, none, some, [], ◌∷◌, if◌then◌else◌, update,
  arith, inl,
}
use ghc_xapp_fix.Stm.Trec.{
  is_waiting, TrecEntry, TrecChunk, Trec, trec_active, trec_condemned, entries, new_trec, flatten,
  find_entry, set_new, set_in_chunks, add_to_chunks, merge_update_into, merge_read_into,
  merge_updates, merge_reads, acquire_entries, validate_and_acquire_ownership, find_outside,
  get_entry_for,
}
use ghc_xapp_fix.Stm.World.{
  atomic_invariant, World, unpark_tso, unpark_watcher, unpark_all, unpark_waiters_on, build_entries,
  build_chunks, build_watch_queue_entries_for_trec,
}
use ghc_xapp_fix.Stm.Ops.{
  queue_touched, queue_watchers, stm_start_transaction, stm_read_tvar, stm_write_tvar,
  commit_entries, lock_invariants, rehook_invariants, commit_locked, stm_commit_transaction,
  stm_commit_nested_transaction, stm_abort_transaction, stm_wait, stm_validate_nest_of_transactions,
  is_queued, stm_get_invariants_to_check,
}
use ghc_xapp_fix.Stm.Process.{
  Process, finish, read, write, start_nested, commit_nested, abort_nested, run, atomic, IsShallow,
}
use ghc_xapp_fix.Stm.Entries.{Agrees}
use ghc_xapp_fix.Stm.Serial.{run-atomic}
use ghc_xapp_fix.Stm.Alone.{run-alone}
use ghc_xapp_fix.Stm.Watch.{On}
use ghc_xapp_fix.Stm.Wake.{is_ready, commit-wakes}
use ghc_xapp_fix.Stm.Sleep.{Sleepers, Reach, start, later, waits_on, commits, asleep-Agrees}
use ghc_xapp_fix.Stm.Round.{wait-abort}
use ghc_xapp_fix.Stm.Chunks.{IsChunked, steps-IsChunked}
use ghc_xapp_fix.Stm.Forget.{abort-forgets}
use ghc_xapp_fix.Stm.Check.{
  IsValidNest, Touches, stm_validate_nest-IsValidNest, get_invariants-queues,
}

-- each variable holds its own address, and nobody waits
abbrev quiet_world : World
quiet_world = record {
  current_value = λ x. x;
  watch_queue = λ _. [];
  next_address = 100;
  last_execution = λ _. none;
  blocked_on_stm = λ _. false;
  run_queue = [];
}

-- another thread keeps writing the variable 7
abbrev worlds : ℕ → World
worlds i = record quiet_world { current_value = update (λ x. x) 7 i }

-- reads one variable, writes another in a nested transaction, and a third in one that aborts
abbrev transfer : Process
transfer = read 1 (λ v. start_nested (
    write 2 (v + 5)
      (commit_nested (start_nested (write 3 9 (abort_nested (read 2 (λ u. finish u []))))))))

abbrev world_of : Option (ℕ × World) → World
world_of none = quiet_world
world_of (some (r, w)) = w

abbrev store_of : Option (ℕ × (ℕ → ℕ)) → ℕ → ℕ
store_of none = λ x. x
store_of (some (r, σ)) = σ

abbrev after_transfer : World
after_transfer = world_of (run worlds transfer 0 (stm_start_transaction []))

after_transfer-values : (after_transfer.current_value 2 ≡ 6) × (after_transfer.current_value 3 ≡ 3)
unfolding run stm_read_tvar get_entry_for find_outside find_entry flatten add_to_chunks
    stm_write_tvar set_in_chunks set_new stm_commit_nested_transaction
    validate_and_acquire_ownership acquire_entries merge_updates merge_update_into
    stm_abort_transaction merge_reads merge_read_into stm_commit_transaction commit_locked
    lock_invariants rehook_invariants commit_entries unpark_waiters_on unpark_all
after_transfer-values = (refl, refl)

run-atomic_example :
    (j : ℕ) × (atomic transfer ((worlds j).current_value ∷ [])
      ≡ some (6, after_transfer.current_value))
unfolding run IsShallow stm_read_tvar get_entry_for find_outside find_entry flatten add_to_chunks
    stm_write_tvar set_in_chunks set_new stm_commit_nested_transaction
    validate_and_acquire_ownership acquire_entries merge_updates merge_update_into
    stm_abort_transaction merge_reads merge_read_into stm_commit_transaction commit_locked
    lock_invariants rehook_invariants commit_entries unpark_waiters_on unpark_all
run-atomic_example = run-atomic worlds transfer 6 after_transfer (λ v. (refl, λ u. tt)) refl

abbrev transferred : ℕ → ℕ
transferred = store_of (atomic transfer (quiet_world.current_value ∷ []))

run-alone_example :
    (w' : World) × (run (λ _. quiet_world) transfer 0 (stm_start_transaction []) ≡ some (6, w'))
    × (w'.current_value ≡ transferred)
unfolding IsShallow atomic
run-alone_example =
    run-alone quiet_world transfer 6 transferred (λ inv. tt) (λ v. (refl, λ u. tt)) refl

-- the record of a transaction that has read the variable 2, and one that writes the variable `x`
abbrev reader : Trec
reader = record {
  state = trec_active;
  chunks = (record { tvar = 2; expected_value = 2; new_value = 2 } ∷ []) ∷ [];
  invariants_to_check = [];
}

abbrev writer : ℕ → Trec
writer x = record {
  state = trec_active;
  chunks = (record { tvar = x; expected_value = x; new_value = 50 } ∷ []) ∷ [];
  invariants_to_check = [];
}

-- the thread 5 waits on `reader`
abbrev waiting_world : World
waiting_world = (stm_wait quiet_world 5 reader).1.0

abbrev woken_world : World
woken_world = (stm_commit_transaction waiting_world (writer 2)).1

commit-wakes_example :
    (woken_world.blocked_on_stm 5 ≡ false) × (is_ready 5 woken_world.run_queue ≡ true)
unfolding stm_wait build_watch_queue_entries_for_trec build_chunks build_entries
    validate_and_acquire_ownership acquire_entries flatten find_entry On stm_commit_transaction
    commit_locked lock_invariants rehook_invariants
commit-wakes_example =
    commit-wakes waiting_world woken_world (writer 2)
      (record { tvar = 2; expected_value = 2; new_value = 50 }) 2 5 100 refl (inl (refl, refl)) refl
      refl

abbrev nobody_waits : Sleepers
nobody_waits = record { world = quiet_world; waits = λ _. none }

abbrev one_waits : Sleepers
one_waits = record {
  world = waiting_world;
  waits = update (λ _. none) 5 (some (stm_wait quiet_world 5 reader).1.1);
}

-- the thread 5 waits, and another thread writes the variable 3
abbrev sleepers : Sleepers
sleepers = record {
  world = (stm_commit_transaction waiting_world (writer 3)).1;
  waits = update (λ _. none) 5 (some (stm_wait quiet_world 5 reader).1.1);
}

asleep-Agrees_example :
    (t : Trec) × (sleepers.waits 5 ≡ some t) × Agrees sleepers.world.current_value (entries t)
unfolding stm_wait build_watch_queue_entries_for_trec build_chunks build_entries
    validate_and_acquire_ownership acquire_entries flatten find_entry stm_commit_transaction
    commit_locked lock_invariants rehook_invariants commit_entries unpark_waiters_on unpark_all
    unpark_watcher unpark_tso
asleep-Agrees_example =
    let begun : Reach nobody_waits = start (λ x. refl) (λ i. refl) (λ i. refl) in
    let waited : Reach one_waits = later begun (waits_on 5 reader refl refl) in
    asleep-Agrees sleepers 5 (later waited (commits (writer 3))) refl

wait-abort_example :
    (stm_abort_transaction waiting_world (stm_wait quiet_world 5 reader).1.1 []).0.watch_queue 2
    ≡ []
unfolding stm_wait build_watch_queue_entries_for_trec build_chunks build_entries
    validate_and_acquire_ownership acquire_entries flatten
wait-abort_example =
    wait-abort quiet_world waiting_world reader (stm_wait quiet_world 5 reader).1.1 5 2 refl

abbrev item : TrecEntry
item = record { tvar = 1; expected_value = 1; new_value = 1 }

-- a chunk that is full
abbrev sixteen : TrecChunk
sixteen =
    item ∷ item ∷ item ∷ item ∷ item ∷ item ∷ item ∷ item ∷ item ∷ item ∷ item ∷ item ∷ item ∷ item
    ∷ item ∷ item ∷ []

abbrev full_trec : Trec
full_trec = record { state = trec_active; chunks = sixteen ∷ []; invariants_to_check = [] }

steps-IsChunked_example :
    IsChunked (stm_read_tvar (λ x. x) full_trec [] 2).1
    × IsChunked (stm_write_tvar (λ x. x) full_trec [] 2 9)
    × IsChunked (merge_updates full_trec sixteen)
    × IsChunked (merge_reads full_trec sixteen)
steps-IsChunked_example = steps-IsChunked (λ x. x) full_trec [] 2 9 sixteen (omega arith, tt)

-- a transaction that has written 50 to the variable 3, and one nested in it
abbrev inner_trec : Trec
inner_trec = new_trec (writer 3 ∷ [])

abort-forgets_example :
    ((stm_read_tvar (λ x. x) inner_trec (writer 3 ∷ []) 3).0 ≡ 50)
    × ((et' : Trec) × ((stm_abort_transaction quiet_world
            (stm_read_tvar
              (λ x. x)
              (new_trec (inner_trec ∷ writer 3 ∷ []))
              (inner_trec ∷ writer 3 ∷ [])
              3).1
            (inner_trec ∷ writer 3 ∷ [])).1
          ≡ et' ∷ writer 3 ∷ [])
        × ((stm_read_tvar (λ x. x) et' (writer 3 ∷ []) 3).0 ≡ 3))
unfolding flatten find_entry find_outside
abort-forgets_example =
    abort-forgets (λ x. x) quiet_world inner_trec (writer 3 ∷ []) 3
      (record { tvar = 3; expected_value = 3; new_value = 50 }) refl refl

-- The variable 7 has changed, which the outer transaction has written.
stm_validate_nest-IsValidNest_example :
    (IsValidNest (worlds 9).current_value (reader ∷ writer 7 ∷ [])
      × (stm_validate_nest_of_transactions (worlds 9).current_value reader (writer 7 ∷ [])
          ≡ (true, reader)))
    ⊎ ((IsValidNest (worlds 9).current_value (reader ∷ writer 7 ∷ []) → ⊥)
        × (stm_validate_nest_of_transactions (worlds 9).current_value reader (writer 7 ∷ []) ≡ (
          false,
          if is_waiting reader.state then reader else record reader { state = trec_condemned },
        )))
stm_validate_nest-IsValidNest_example =
    stm_validate_nest-IsValidNest (worlds 9).current_value reader (writer 7 ∷ [])

-- the invariant 70 is hooked on the variable 2, and none is queued
abbrev hooked_world : World
hooked_world = record quiet_world {
  watch_queue = update (λ _. []) 2 (record { address = 50; closure = atomic_invariant 70 } ∷ []);
}

queues_hooked :
    is_queued 70 (stm_get_invariants_to_check hooked_world (writer 2)).invariants_to_check ≡ true
unfolding stm_get_invariants_to_check queue_touched queue_watchers flatten is_queued
queues_hooked = refl

get_invariants-queues_example :
    (is_queued 70 (stm_get_invariants_to_check hooked_world (writer 2)).invariants_to_check ≡ true)
    ↔ ((is_queued 70 (writer 2).invariants_to_check ≡ true)
        ⊎ Touches hooked_world 70 (entries (writer 2)))
get_invariants-queues_example = get_invariants-queues hooked_world (writer 2) 70
