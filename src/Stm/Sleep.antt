-- ===== src/Stm/Sleep.antt =====
-- rts/STM.c: threads that sleep until a variable changes that their transaction has read.
mod Aware
use mathlib.Core.Option
use ghc_xapp_fix.Prelude.{ℕ, ◌≡◌, true, false, Option, none, some, [], update, arith}
use ghc_xapp_fix.Stm.Trec.{Trec, trec_waiting, entries}
use ghc_xapp_fix.Stm.World.{tso, World}
use ghc_xapp_fix.Stm.Ops.{
  stm_commit_transaction, stm_wait, stm_re_wait, stm_abort_transaction, stm_condemn_transaction,
}
use ghc_xapp_fix.Stm.Entries.{Agrees}
use ghc_xapp_fix.Stm.Sleep.Aware.{
  IsAware, wait-IsAware, re_wait-IsAware, gives_up-IsAware, remove-IsAware, commit-IsAware,
}

-- `waits` gives the records on which the threads wait, `tso -> trec` in the state `TREC_WAITING`.
pub record Sleepers : Type 0 where
  pub world : World
  pub waits : ℕ → Option Trec

-- What a call of the module does to the threads that wait. A thread calls only while it is awake.
pub data Step (s : Sleepers) : Sleepers → Type 0 where
  waits_on :
      (i : ℕ) (t : Trec)
      → s.waits i ≡ none
      → (stm_wait s.world i t).0 ≡ true
      → Step s (record {
        world = (stm_wait s.world i t).1.0;
        waits = update s.waits i (some (stm_wait s.world i t).1.1);
      })
  waits_again :
      (i : ℕ) (t : Trec)
      → s.waits i ≡ some t
      → (stm_re_wait s.world i t).0 ≡ true
      → Step s (record s { world = (stm_re_wait s.world i t).1 })
  goes_on :
      (i : ℕ) (t : Trec)
      → s.waits i ≡ some t
      → t.state ≡ trec_waiting
      → s.world.blocked_on_stm i ≡ false
      → (stm_re_wait s.world i t).0 ≡ false
      → Step s (record { world = (stm_re_wait s.world i t).1; waits = update s.waits i none })
  aborts :
      (i : ℕ) (t : Trec)
      → s.waits i ≡ some t
      → t.state ≡ trec_waiting
      → s.world.blocked_on_stm i ≡ false
      → Step s
          (record { world = (stm_abort_transaction s.world t []).0; waits = update s.waits i none })
  is_condemned_by :
      (i : ℕ) (t : Trec)
      → s.waits i ≡ some t
      → t.state ≡ trec_waiting
      → s.world.blocked_on_stm i ≡ false
      → Step s
          (record { world = (stm_condemn_transaction s.world t).0; waits = update s.waits i none })
  commits : (t : Trec) → Step s (record s { world = (stm_commit_transaction s.world t).1 })

-- Every step keeps the queues and the sleepers right: each waiting thread is in the queue of each
-- variable of its record, and what a sleeping one expects of a variable is its value.
pub Step-IsAware :
    (s s' : Sleepers) → Step s s' → IsAware s.world s.waits → IsAware s'.world s'.waits
unfolding stm_abort_transaction stm_condemn_transaction
Step-IsAware s s' (waits_on i t free h) v = wait-IsAware s.world s.waits i t h v
Step-IsAware s s' (waits_again i t here h) v = re_wait-IsAware s.world s.waits i t here h v
Step-IsAware s s' (goes_on i t here waiting awake h) v =
    gives_up-IsAware s.world s.waits i t here waiting awake h v
Step-IsAware s s' (aborts i t here waiting awake) v =
    rw waiting (remove-IsAware s.world s.waits i t here awake v)
Step-IsAware s s' (is_condemned_by i t here waiting awake) v =
    rw waiting (remove-IsAware s.world s.waits i t here awake v)
Step-IsAware s s' (commits t) v = commit-IsAware s.world s.waits t v

-- What the threads do from the start of the program, at which no queue has an entry and nobody waits.
pub data Reach : Sleepers → Type 0 where
  start :
      {s : Sleepers}
      → ((x : ℕ) → s.world.watch_queue x ≡ [])
      → ((i : ℕ) → s.waits i ≡ none)
      → ((i : ℕ) → s.world.blocked_on_stm i ≡ false)
      → Reach s
  later : {s s' : Sleepers} → Reach s → Step s s' → Reach s'

Reach-IsAware : (s : Sleepers) → Reach s → IsAware s.world s.waits
Reach-IsAware s (start empty nobody awake) = record {
  owned = ((λ a. tso 0), (λ x. rw (empty x) tt));
  watched = λ i t h. absurd (ground (arith, nobody i, h));
  asleep = λ i h. absurd (ground (arith, awake i, h));
}
Reach-IsAware s' (later {s} r m) = Step-IsAware s s' m (Reach-IsAware s r)

-- No wake-up is lost: after any sequence of waits, repeated waits, ends of waits and commits, by
-- any threads in any order, a thread that sleeps waits on a record whose every entry expects the
-- value that its variable has.
pub asleep-Agrees :
    (s : Sleepers) (i : ℕ)
    → Reach s
    → s.world.blocked_on_stm i ≡ true
    → (t : Trec) × (s.waits i ≡ some t) × Agrees s.world.current_value (entries t)
asleep-Agrees s i r h = (Reach-IsAware s r).asleep i h
