-- ===== src/Stm/World.antt =====
-- rts/STM.c: the variables with their watch queues, the threads that wait on them, and the invariants
-- that are hooked on them.
use ghc_xapp_fix.Prelude.{
  ℕ, suc, Bool, true, false, Option, none, some, List, [], ◌∷◌, ◌++◌, ◌==◌, if◌then◌else◌, update,
}
use ghc_xapp_fix.Stm.Trec.{TrecEntry, Trec, flatten, find_entry}

-- `StgTSO` or `StgAtomicInvariant`
pub data Watcher : Type 0 where
  tso : ℕ → Watcher
  atomic_invariant : ℕ → Watcher

-- An entry of a watch queue. The links to the next and the previous one are the places in the list.
pub record TvarWatchQueue : Type 0 where
  pub address : ℕ
  pub closure : Watcher

-- `first_watch_queue_entry` is given by the queue that begins there. `next_address` is above every
-- address in use. `blocked_on_stm` is `why_blocked == BlockedOnSTM`.
pub record World : Type 0 where
  pub current_value : ℕ → ℕ
  pub watch_queue : ℕ → List TvarWatchQueue
  pub next_address : ℕ
  pub last_execution : ℕ → Option (List TrecEntry)
  pub blocked_on_stm : ℕ → Bool
  pub run_queue : List ℕ

abbrev pub same_watcher : Watcher → Watcher → Bool
same_watcher (tso a) (tso b) = a == b
same_watcher (atomic_invariant a) (atomic_invariant b) = a == b
same_watcher _ _ = false

abbrev pub park_tso : World → ℕ → World
park_tso w thread = record w { blocked_on_stm = update w.blocked_on_stm thread true }

-- the thread runs again, behind the threads that are ready
abbrev pub try_wakeup_thread : World → ℕ → World
try_wakeup_thread w thread = record w {
  blocked_on_stm = update w.blocked_on_stm thread false;
  run_queue = w.run_queue ++ (thread ∷ []);
}

unfoldable pub unpark_tso : World → ℕ → World
unpark_tso w thread = if w.blocked_on_stm thread then try_wakeup_thread w thread else w

unfoldable pub unpark_watcher : World → Watcher → World
unpark_watcher w (tso thread) = unpark_tso w thread
unpark_watcher w (atomic_invariant _) = w

-- from the last entry of the queue to the first
unfoldable pub unpark_all : World → List TvarWatchQueue → World
unpark_all w [] = w
unpark_all w (q ∷ qs) = unpark_watcher (unpark_all w qs) q.closure

unfoldable pub unpark_waiters_on : World → ℕ → World
unpark_waiters_on w tvar = unpark_all w (w.watch_queue tvar)

-- a new entry in front of the queue
abbrev pub link_watcher : World → ℕ → Watcher → World
link_watcher w tvar c = record w {
  watch_queue =
      update w.watch_queue tvar
        (record { address = w.next_address; closure = c } ∷ w.watch_queue tvar);
  next_address = suc w.next_address;
}

-- The entries get the addresses of their queue entries as `new_value`.
unfoldable pub build_entries : World → Watcher → List TrecEntry → World × List TrecEntry
build_entries w c [] = (w, [])
build_entries w c (e ∷ es) =
    let r = build_entries (link_watcher w e.tvar c) c es in
    (r.0, record e { new_value = w.next_address } ∷ r.1)

unfoldable pub build_chunks :
    World → Watcher → List (List TrecEntry) → World × List (List TrecEntry)
build_chunks w c [] = (w, [])
build_chunks w c (chunk ∷ cs) =
    let r = build_entries w c chunk in let s = build_chunks r.0 c cs in (s.0, r.1 ∷ s.1)

unfoldable pub build_watch_queue_entries_for_trec : World → ℕ → Trec → World × Trec
build_watch_queue_entries_for_trec w thread t =
    let r = build_chunks w (tso thread) t.chunks in (r.0, record t { chunks = r.1 })

-- the queue without the entry at an address
unfoldable pub unlink_address : ℕ → List TvarWatchQueue → List TvarWatchQueue
unlink_address a [] = []
unlink_address a (q ∷ qs) = if q.address == a then qs else q ∷ unlink_address a qs

unfoldable pub remove_entries : World → List TrecEntry → World
remove_entries w [] = w
remove_entries w (e ∷ es) =
    remove_entries
      (record w {
        watch_queue =
            update w.watch_queue e.tvar (unlink_address e.new_value (w.watch_queue e.tvar));
      })
      es

abbrev pub remove_watch_queue_entries_for_trec : World → Trec → World
remove_watch_queue_entries_for_trec w t = remove_entries w (flatten t.chunks)

-- the queue without the first entry of a watcher
unfoldable pub unlink_watcher : Watcher → List TvarWatchQueue → List TvarWatchQueue
unlink_watcher c [] = []
unlink_watcher c (q ∷ qs) = if same_watcher q.closure c then qs else q ∷ unlink_watcher c qs

unfoldable pub disconnect_entries : World → ℕ → List TrecEntry → World
disconnect_entries w inv [] = w
disconnect_entries w inv (e ∷ es) =
    disconnect_entries
      (record w {
        watch_queue =
            update w.watch_queue e.tvar
              (unlink_watcher (atomic_invariant inv) (w.watch_queue e.tvar));
      })
      inv es

-- nothing is unhooked for an invariant that never ran
abbrev pub disconnect_last : World → ℕ → Option (List TrecEntry) → World
disconnect_last w inv none = w
disconnect_last w inv (some es) =
    let w' = disconnect_entries w inv es in
    record w' { last_execution = update w'.last_execution inv none }

unfoldable pub disconnect_invariant : World → ℕ → World
disconnect_invariant w inv = disconnect_last w inv (w.last_execution inv)

-- the entry with the value that the commit leaves in its variable
abbrev pub after_commit : Option TrecEntry → TrecEntry → TrecEntry
after_commit none e = e
after_commit (some entry) e = record e {
  expected_value = entry.new_value;
  new_value = entry.new_value;
}

unfoldable pub connect_entries :
    World → ℕ → List TrecEntry → List TrecEntry → World × List TrecEntry
connect_entries w inv outer [] = (w, [])
connect_entries w inv outer (e ∷ es) =
    let r = connect_entries (link_watcher w e.tvar (atomic_invariant inv)) inv outer es in
    (r.0, after_commit (find_entry e.tvar outer) e ∷ r.1)

-- `outer` holds the entries of `my_execution -> enclosing_trec`
unfoldable pub connect_invariant_to_trec : World → ℕ → List TrecEntry → List TrecEntry → World
connect_invariant_to_trec w inv outer my_execution =
    let r = connect_entries w inv outer my_execution in
    record (r.0) { last_execution = update w.last_execution inv (some r.1) }
