-- ===== src/WsDeque/OwnerSteps/Base.antt =====
-- rts/WSDeque.c: what a step of the owner keeps and changes, and the ends of its list.
use ghc_xapp_fix.Prelude.{ℕ, suc, ◌+◌, ◌-◌, ◌≤◌, ◌<◌, ◌≡◌, some, [], ◌∷◌, ◌++◌, arith}
use ghc_xapp_fix.WsDeque.{WsDeque, Owner, Event, pushed, Outcome}
use ghc_xapp_fix.WsDeque.Words.{slots, slots-snoc}
use ghc_xapp_fix.WsDeque.Spec.{apply}
use ghc_xapp_fix.WsDeque.Valid.{end_of, element, contents, IsValid}

-- The end moves up only where an element goes in.
abbrev pub grows_by : Event → ℕ
grows_by (pushed x) = 1
grows_by _ = 0

-- A step of the owner: the deque stays valid, its list changes as the event says, `top` does not
-- fall, and what a thief saw at `top` stays there as long as `top` does.
pub record Steps (q : WsDeque) (p : Owner) (r : Outcome Owner) : Type 0 where
  pub valid : IsValid r.deque r.pc
  pub effect : apply q.modulo_size r.event (contents q p) ≡ some (contents r.deque r.pc)
  pub size : r.deque.size ≡ q.size
  pub modulo : r.deque.modulo_size ≡ q.modulo_size
  pub rises : q.top ≤ r.deque.top
  pub grows : end_of r.deque r.pc ≤ end_of q p + grows_by r.event
  pub stays :
      r.deque.top ≡ q.top
      → q.top < end_of q p
      → (q.top < end_of r.deque r.pc) × (element r.deque q.top ≡ element q q.top)

-- the list is empty
pub contents-nil : (q : WsDeque) (p : Owner) → end_of q p ≤ q.top → contents q p ≡ []
unfolding contents slots
contents-nil q p h = let e : end_of q p - q.top ≡ 0 = omega arith in rw e

-- the list ends in the element at `b`
pub contents-snoc :
    (q : WsDeque) (p : Owner) (b : ℕ)
    → end_of q p ≡ b + 1
    → q.top ≤ b
    → contents q p ≡ slots (element q) q.top (b - q.top) ++ element q b ∷ []
unfolding contents
contents-snoc q p b e h =
    let n : end_of q p - q.top ≡ suc (b - q.top) = omega arith in
    let last : q.top + (b - q.top) ≡ b = omega arith in
    rw (n, slots-snoc (element q) q.top (b - q.top), last)

pub slots-nil : (f : ℕ → ℕ) (a : ℕ) {n : ℕ} → n ≡ 0 → slots f a n ≡ []
unfolding slots
slots-nil f a h = rw h
