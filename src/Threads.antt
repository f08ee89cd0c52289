-- ===== src/Threads.antt =====
-- rts/Schedule.h, rts/Schedule.c, rts/Threads.c: the queues of threads. A thread is its address,
-- and `none` stands for END_TSO_QUEUE. The queues run through the fields `_link` and, for the run
-- queue, `block_info.prev` of the threads. `none` as a result is a wild access.
pub mod Lists
pub mod RunQueue
pub mod Remove
pub mod Client
pub mod Unlink
mod Tests
use mathlib.Core.Option
use ghc_xapp_fix.Prelude.{
  ℕ, zero, suc, Bool, true, false, Option, none, some, ◌==◌, if◌then◌else◌, update, ◌>>=◌,
}

-- the run queue of a capability, and the links of all threads
pub record Capability : Type 0 where
  pub run_queue_hd : Option ℕ
  pub run_queue_tl : Option ℕ
  pub link : ℕ → Option ℕ
  pub prev : ℕ → Option ℕ

-- the branches of `appendToRunQueue` on the head
abbrev pub append_behind : Capability → ℕ → Option ℕ → Option Capability
append_behind cap tso none = some (record cap {
  run_queue_hd = some tso;
  run_queue_tl = some tso;
  prev = update cap.prev tso none;
})
append_behind cap tso (some _) = do
  tl ← cap.run_queue_tl
  some (record cap {
    run_queue_tl = some tso;
    link = update cap.link tl (some tso);
    prev = update cap.prev tso (some tl);
  })

unfoldable pub append_to_run_queue : Capability → ℕ → Option Capability
append_to_run_queue cap tso = append_behind cap tso cap.run_queue_hd

-- `setTSOPrev(cap, t, p)`, unless `t` is END_TSO_QUEUE
abbrev pub set_prev : (ℕ → Option ℕ) → Option ℕ → Option ℕ → ℕ → Option ℕ
set_prev prev none p = prev
set_prev prev (some t) p = update prev t p

-- `setTSOLink(cap, p, t)`, unless `p` is END_TSO_QUEUE
abbrev pub set_link : (ℕ → Option ℕ) → Option ℕ → Option ℕ → ℕ → Option ℕ
set_link link none t = link
set_link link (some p) t = update link p t

abbrev pub or_else : Option ℕ → Option ℕ → Option ℕ
or_else none b = b
or_else (some a) b = some a

-- the second if `t` is END_TSO_QUEUE, and the third otherwise
abbrev pub at_end : Option ℕ → Option ℕ → Option ℕ → Option ℕ
at_end none a b = a
at_end (some t) a b = b

unfoldable pub push_on_run_queue : Capability → ℕ → Capability
push_on_run_queue cap tso = record {
  run_queue_hd = some tso;
  run_queue_tl = or_else cap.run_queue_tl (some tso);
  link = update cap.link tso cap.run_queue_hd;
  prev = set_prev (update cap.prev tso none) cap.run_queue_hd (some tso);
}

unfoldable pub pop_run_queue : Capability → Option (ℕ × Capability)
pop_run_queue cap = do
  t ← cap.run_queue_hd
  some (
    t,
    record {
      run_queue_hd = cap.link t;
      run_queue_tl = at_end (cap.link t) none cap.run_queue_tl;
      link = update cap.link t none;
      prev = set_prev cap.prev (cap.link t) none;
    },
  )

unfoldable pub remove_from_run_queue : Capability → ℕ → Capability
remove_from_run_queue cap tso =
    let link = set_link cap.link (cap.prev tso) (cap.link tso) in
    record {
      run_queue_hd = at_end (cap.prev tso) (cap.link tso) cap.run_queue_hd;
      run_queue_tl = at_end (link tso) (cap.prev tso) cap.run_queue_tl;
      link = update link tso none;
      prev = update (set_prev cap.prev (link tso) (cap.prev tso)) tso none;
    }

-- What `removeThreadFromQueue` and `removeThreadFromDeQueue` leave behind, and return; or `barf`.
pub data Removal : Type 0 where
  removed : (link : ℕ → Option ℕ) → (head tail : Option ℕ) → (flag : Bool) → Removal
  barf : Removal

-- the outcome where the thread `t` is found behind `prev`
abbrev pub take_out : (ℕ → Option ℕ) → Option ℕ → Option ℕ → Option ℕ → ℕ → Removal
take_out link head tail none t = removed (update link t none) (link t) tail true
take_out link head tail (some p) t =
    removed (update (update link p (link t)) t none) head tail false

-- The loop of `removeThreadFromQueue`, with fuel; the tail does not take part.
unfoldable pub remove_loop :
    (ℕ → Option ℕ) → Option ℕ → ℕ → ℕ → Option ℕ → Option ℕ → Option Removal
remove_loop link head tso zero prev t = none
remove_loop link head tso (suc fuel) prev none = some barf
remove_loop link head tso (suc fuel) prev (some t) =
    let rest = remove_loop link head tso fuel (some t) (link t) in
    if t == tso then some (take_out link head none prev t) else rest

unfoldable pub remove_thread_from_queue : (ℕ → Option ℕ) → ℕ → Option ℕ → ℕ → Option Removal
remove_thread_from_queue link fuel head tso = remove_loop link head tso fuel none head

-- what `removeThreadFromDeQueue` does to the tail: it moves back to `prev`
abbrev pub is_thread : Option ℕ → ℕ → Bool
is_thread none t = false
is_thread (some a) t = a == t

abbrev pub move_tail : Option ℕ → Option ℕ → ℕ → Removal → Removal
move_tail tail prev t barf = barf
move_tail tail prev t (removed link head _ flag) =
    if is_thread tail t then removed link head prev true else removed link head tail flag

unfoldable pub remove_de_loop :
    (ℕ → Option ℕ) → Option ℕ → Option ℕ → ℕ → ℕ → Option ℕ → Option ℕ → Option Removal
remove_de_loop link head tail tso zero prev t = none
remove_de_loop link head tail tso (suc fuel) prev none = some barf
remove_de_loop link head tail tso (suc fuel) prev (some t) =
    let rest = remove_de_loop link head tail tso fuel (some t) (link t) in
    if t == tso then some (move_tail tail prev t (take_out link head tail prev t)) else rest

unfoldable pub remove_thread_from_de_queue :
    (ℕ → Option ℕ) → ℕ → Option ℕ → Option ℕ → ℕ → Option Removal
remove_thread_from_de_queue link fuel head tail tso =
    remove_de_loop link head tail tso fuel none head
