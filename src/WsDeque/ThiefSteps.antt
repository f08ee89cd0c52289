-- ===== src/WsDeque/ThiefSteps.antt =====
-- rts/WSDeque.c: the steps of `stealWSDeque_` and `stealWSDeque`.
use ghc_xapp_fix.Prelude.{
  ℕ, suc, ◌-◌, ◌^◌, ◌≤◌, ◌<◌, ◌≡◌, refl, false, some, List, ◌∷◌, arith, leb, ◌==◌, inl, inr,
  Bool-cases,
}
use ghc_xapp_fix.WsDeque.{
  signed, add_word, WsDeque, Owner, idle, Thief, away, stealing, got_top, got_bottom, got_element,
  failed, looking, Event, silent, stolen, Outcome, outcome, thief_step,
}
use ghc_xapp_fix.WsDeque.Words.{slots}
use ghc_xapp_fix.WsDeque.Spec.{apply, put_in}
use ghc_xapp_fix.WsDeque.Valid.{end_of, element, contents, ThiefFits, IsValid}

-- A step of a thief, with the owner at `o`: the deque stays valid, and its list changes as the event
-- says; only `top` may change, and by one.
pub record Robs (q : WsDeque) (o : Owner) (r : Outcome Thief) : Type 0 where
  pub valid : IsValid r.deque o
  pub effect : apply q.modulo_size r.event (contents q o) ≡ some (contents r.deque o)
  pub only : (r.deque ≡ record q { top = r.deque.top })
  pub quiet : (log : List Event) → put_in (r.event ∷ log) ≡ put_in log
  pub rises : q.top ≤ r.deque.top
  pub ends : end_of r.deque o ≡ end_of q o
  pub fits : ThiefFits r.deque (end_of r.deque o) r.pc

module _ (q : WsDeque) where
  -- A thief that finds `bottom` above its `top` knows that the deque was not empty.
  end_above :
      (o : Owner) (t : ℕ)
      → IsValid q o
      → end_of q o < 2 ^ 62
      → t ≤ q.top
      → leb (signed q.bottom) (signed t) ≡ false
      → q.top ≡ t
      → t < end_of q o
  end_above idle t v small le above e = ground arith
  end_above o t v small le above e = ground arith

  -- the deque after a successful cas of `top`
  take_top :
      (o : Owner)
      → IsValid q o
      → end_of q o < 2 ^ 62
      → q.top < end_of q o
      → IsValid (record q { top = add_word q.top 1 }) o
  take_top idle v small lt = ground arith
  take_top o v small lt = ground arith

  end_of-top : (o : Owner) (t : ℕ) → end_of (record q { top = t }) o ≡ end_of q o
  end_of-top idle t = refl
  end_of-top o t = refl

  -- the list after a successful cas of `top`
  take_top-effect :
      (o : Owner) (x : ℕ)
      → q.top < end_of q o
      → end_of q o < 2 ^ 62
      → element q q.top ≡ x
      → apply q.modulo_size (stolen x) (contents q o)
        ≡ some (contents (record q { top = add_word q.top 1 }) o)
  unfolding contents apply slots
  take_top-effect o x lt small e =
      let n : end_of q o - q.top ≡ suc (end_of q o - suc q.top) = omega arith in
      let t : add_word q.top 1 ≡ suc q.top = omega arith in
      rw (end_of-top o (add_word q.top 1), n, t) (ground arith)

  -- a step that only reads
  looks :
      (o : Owner) (p : Thief)
      → IsValid q o
      → ThiefFits q (end_of q o) p
      → Robs q o (outcome q p silent)
  unfolding apply put_in
  looks o p v f = record {
    valid = v;
    effect = refl;
    only = refl;
    quiet = λ log. refl;
    rises = omega arith;
    ends = refl;
    fits = f;
  }

  -- Every step of a thief whose locals fit the deque, at a valid deque that ends below 2 ^ 62 and
  -- wherever the owner stands, keeps the deque valid, changes its list as the event of the step
  -- says, writes `top` at most, never lowers it, and leaves locals that fit the deque again.
  pub thief_step-Robs :
      (o : Owner) (p : Thief)
      → IsValid q o
      → end_of q o < 2 ^ 62
      → ThiefFits q (end_of q o) p
      → Robs q o (thief_step q p)
  unfolding thief_step put_in
  thief_step-Robs o away v small f = looks o away v tt
  thief_step-Robs o stealing v small f = looks o (got_top q.top) v (omega arith)
  thief_step-Robs o (got_top t) v small f = elim (Bool-cases (leb (signed q.bottom) (signed t))) [
    | inl low ↦ rw low (looks o failed v tt)
    | inr high ↦ rw high (looks o (got_bottom t) v (f, end_above o t v small f high))
  ]
  thief_step-Robs o (got_bottom t) v small f =
      looks o (got_element t _) v (f.0, λ e. (f.1 e, rw (v.shape.mask t)))
  thief_step-Robs o (got_element t x) v small f = elim (Bool-cases (q.top == t)) [
    | inl won ↦
        let e : q.top ≡ t = ground arith in
        let (lt, held) = f.1 e in
        rw (won, ← e)
          (record {
            valid = take_top o v small (omega arith);
            effect = take_top-effect o x (omega arith) small (rw e held);
            only = refl;
            quiet = λ log. refl;
            rises = omega arith;
            ends = end_of-top o (add_word q.top 1);
            fits = tt;
          })
    | inr lost ↦ rw lost (looks o failed v tt)
  ]
  thief_step-Robs o failed v small f = looks o (looking q.top) v tt
  thief_step-Robs o (looking t) v small f = elim (Bool-cases (leb (signed q.bottom) (signed t))) [
    | inl low ↦ rw low (looks o away v tt)
    | inr high ↦ rw high (looks o stealing v tt)
  ]
