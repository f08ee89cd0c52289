-- ===== src/Stm/Ops.antt =====
-- rts/STM.c: the operations that the primitives of transactions call.
use ghc_xapp_fix.Prelude.{
  ℕ, suc, Bool, true, false, not, ◌&&◌, ◌||◌, Option, none, some, List, [], ◌∷◌, ◌==◌,
  if◌then◌else◌, is_nil, update,
}
use ghc_xapp_fix.Stm.Trec.{
  TrecEntry, InvariantCheck, Trec, trec_condemned, trec_waiting, config_use_read_phase,
  is_condemned, is_waiting, entries, new_trec, set_entry, get_new_entry, merge_reads, merge_updates,
  entry_is_update, validate_and_acquire_ownership, Found, not_found, found_here, found_outside,
  get_entry_for,
}
use ghc_xapp_fix.Stm.World.{
  Watcher, tso, atomic_invariant, TvarWatchQueue, World, park_tso, unpark_waiters_on,
  build_watch_queue_entries_for_trec, remove_watch_queue_entries_for_trec, disconnect_invariant,
  connect_invariant_to_trec,
}

-- A nest of records after an operation on it, and the world.
abbrev pub stm_start_transaction : List Trec → List Trec
stm_start_transaction outer = new_trec outer ∷ outer

abbrev pub read_found : (ℕ → ℕ) → Trec → ℕ → Found → ℕ × Trec
read_found current_value t tvar (found_here e) = (e.new_value, t)
read_found current_value t tvar (found_outside e) = (
  e.new_value,
  get_new_entry t
      (record { tvar = tvar; expected_value = e.expected_value; new_value = e.new_value }),
)
read_found current_value t tvar not_found = (
  current_value tvar,
  get_new_entry t
      (record { tvar = tvar; expected_value = current_value tvar; new_value = current_value tvar }),
)

unfoldable pub stm_read_tvar : (ℕ → ℕ) → Trec → List Trec → ℕ → ℕ × Trec
stm_read_tvar current_value t outer tvar =
    read_found current_value t tvar (get_entry_for t outer tvar)

abbrev pub write_found : (ℕ → ℕ) → Trec → ℕ → ℕ → Found → Trec
write_found current_value t tvar new_value (found_here e) = set_entry t tvar new_value
write_found current_value t tvar new_value (found_outside e) =
    get_new_entry t
      (record { tvar = tvar; expected_value = e.expected_value; new_value = new_value })
write_found current_value t tvar new_value not_found =
    get_new_entry t
      (record { tvar = tvar; expected_value = current_value tvar; new_value = new_value })

unfoldable pub stm_write_tvar : (ℕ → ℕ) → Trec → List Trec → ℕ → ℕ → Trec
stm_write_tvar current_value t outer tvar new_value =
    write_found current_value t tvar new_value (get_entry_for t outer tvar)

-- A new variable without watchers, at an address that is in use by nothing.
unfoldable pub stm_new_tvar : World → ℕ → ℕ × World
stm_new_tvar w new_value = (
  w.next_address,
  record w {
    current_value = update w.current_value w.next_address new_value;
    watch_queue = update w.watch_queue w.next_address [];
    next_address = suc w.next_address;
  },
)

-- the result of a commit that was valid
unfoldable pub commit_entries : World → List TrecEntry → Bool → World
commit_entries w [] use_read_phase = w
commit_entries w (e ∷ es) use_read_phase =
    let u = unpark_waiters_on w e.tvar in
    commit_entries
      (if not use_read_phase || not (e.new_value == e.expected_value)
        then record u { current_value = update u.current_value e.tvar e.new_value }
        else w)
      es use_read_phase

-- The loop that locks the invariants merges what they read into the record.
abbrev pub executed : Option (List TrecEntry) → List TrecEntry
executed none = []
executed (some es) = es

unfoldable pub lock_invariants : World → Trec → List InvariantCheck → Trec
lock_invariants w t [] = t
lock_invariants w t (q ∷ qs) =
    lock_invariants w (merge_reads t (executed (w.last_execution q.invariant))) qs

unfoldable pub rehook_invariants : World → List TrecEntry → List InvariantCheck → World
rehook_invariants w outer [] = w
rehook_invariants w outer (q ∷ qs) =
    rehook_invariants
      (connect_invariant_to_trec (disconnect_invariant w q.invariant) q.invariant outer
        q.my_execution)
      outer qs

unfoldable pub commit_locked : World → Trec → Bool × World
commit_locked w t =
    let touched_invariants = not (is_nil t.invariants_to_check) in
    let use_read_phase = config_use_read_phase && not touched_invariants in
    let w' =
      commit_entries (rehook_invariants w (entries t) t.invariants_to_check) (entries t)
        use_read_phase in
    if validate_and_acquire_ownership w.current_value t (not use_read_phase)
    then (true, w')
    else (false, w)

unfoldable pub stm_commit_transaction : World → Trec → Bool × World
stm_commit_transaction w t = commit_locked w (lock_invariants w t t.invariants_to_check)

-- the enclosing record, if the commit succeeds
unfoldable pub stm_commit_nested_transaction : (ℕ → ℕ) → Trec → Trec → Bool × Trec
stm_commit_nested_transaction current_value t et =
    let et' = merge_updates et (entries t) in
    if validate_and_acquire_ownership current_value t (not config_use_read_phase)
    then (true, et')
    else (false, et)

-- the enclosing records, and the world
unfoldable pub stm_abort_transaction : World → Trec → List Trec → World × List Trec
stm_abort_transaction w t [] =
    ((if is_waiting t.state then remove_watch_queue_entries_for_trec w t else w), [])
stm_abort_transaction w t (et ∷ outer) = (w, merge_reads et (entries t) ∷ outer)

unfoldable pub stm_condemn_transaction : World → Trec → World × Trec
stm_condemn_transaction w t = (
  (if is_waiting t.state then remove_watch_queue_entries_for_trec w t else w),
  record t { state = trec_condemned },
)

unfoldable pub validate_nest : (ℕ → ℕ) → List Trec → Bool
validate_nest current_value [] = true
validate_nest current_value (t ∷ outer) =
    let rest = validate_nest current_value outer in
    validate_and_acquire_ownership current_value t true && rest

unfoldable pub stm_validate_nest_of_transactions : (ℕ → ℕ) → Trec → List Trec → Bool × Trec
stm_validate_nest_of_transactions current_value t outer =
    let result = validate_nest current_value (t ∷ outer) in
    (
      result,
      if not result && not (is_waiting t.state) then record t { state = trec_condemned } else t,
    )

-- the record and the world, if the thread is to sleep
unfoldable pub stm_wait : World → ℕ → Trec → Bool × (World × Trec)
stm_wait w thread t =
    let r = build_watch_queue_entries_for_trec w thread t in
    if validate_and_acquire_ownership w.current_value t true
    then (true, (park_tso (r.0) thread, record (r.1) { state = trec_waiting }))
    else (false, (w, t))

unfoldable pub stm_re_wait : World → ℕ → Trec → Bool × World
stm_re_wait w thread t =
    if validate_and_acquire_ownership w.current_value t true
    then (true, park_tso w thread)
    else (false, if is_condemned t.state then w else remove_watch_queue_entries_for_trec w t)

-- A new invariant, at an address that is in use by nothing; it has not run.
unfoldable pub stm_add_invariant_to_check : World → Trec → World × Trec
stm_add_invariant_to_check w t = (
  record w {
    last_execution = update w.last_execution w.next_address none;
    next_address = suc w.next_address;
  },
  record t {
    invariants_to_check =
        record { invariant = w.next_address; my_execution = [] } ∷ t.invariants_to_check;
  },
)

unfoldable pub is_queued : ℕ → List InvariantCheck → Bool
is_queued inv [] = false
is_queued inv (q ∷ qs) = q.invariant == inv || is_queued inv qs

abbrev pub queue_invariant : List InvariantCheck → ℕ → List InvariantCheck
queue_invariant cs inv =
    if is_queued inv cs then cs else record { invariant = inv; my_execution = [] } ∷ cs

abbrev pub queue_watcher : List InvariantCheck → Watcher → List InvariantCheck
queue_watcher cs (tso thread) = cs
queue_watcher cs (atomic_invariant inv) = queue_invariant cs inv

unfoldable pub queue_watchers : List InvariantCheck → List TvarWatchQueue → List InvariantCheck
queue_watchers cs [] = cs
queue_watchers cs (q ∷ qs) = queue_watchers (queue_watcher cs q.closure) qs

unfoldable pub queue_touched : World → List InvariantCheck → List TrecEntry → List InvariantCheck
queue_touched w cs [] = cs
queue_touched w cs (e ∷ es) =
    queue_touched w (if entry_is_update e then queue_watchers cs (w.watch_queue e.tvar) else cs) es

unfoldable pub stm_get_invariants_to_check : World → Trec → Trec
stm_get_invariants_to_check w t = record t {
  invariants_to_check = queue_touched w t.invariants_to_check (entries t);
}
