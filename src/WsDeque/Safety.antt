-- ===== src/WsDeque/Safety.antt =====
-- rts/WSDeque.c: an owner and any number of thieves, in any interleaving of their steps.
use mathlib.Core.Path.{subst}
use ghc_xapp_fix.Prelude.{
  ℕ, ◌+◌, ◌-◌, ◌^◌, ◌≤◌, ◌<◌, ◌≡◌, refl, ap, sym, ◌∙◌, some, List, [], ◌∷◌, length, arith, ◌==◌,
  inl, inr, Bool-cases, update,
}
use ghc_xapp_fix.WsDeque.{
  WsDeque, Owner, idle, pop_start, push_start, Thief, away, stealing, got_top, got_bottom,
  got_element, failed, Event, pushed, System, after_owner, after_thief, owner_step, thief_step,
}
use ghc_xapp_fix.WsDeque.Spec.{apply, replay, put_in}
use ghc_xapp_fix.WsDeque.Words.{slots}
use ghc_xapp_fix.WsDeque.Valid.{end_of, element, contents, OwnerFits, ThiefFits, IsValid, Inv}
use ghc_xapp_fix.WsDeque.OwnerSteps.{owner_step-Steps}
use ghc_xapp_fix.WsDeque.OwnerSteps.Base.{grows_by}
use ghc_xapp_fix.WsDeque.ThiefSteps.{thief_step-Robs}

-- The owner may begin an operation where it is idle, and a thief a theft; a thief that called
-- `stealWSDeque_` gives up after a failure.
pub data Step (s : System) : System → Type 0 where
  begin_pop : s.owner ≡ idle → Step s (record s { owner = pop_start })
  begin_push : (elem : ℕ) → s.owner ≡ idle → Step s (record s { owner = push_start elem })
  begin_steal :
      (i : ℕ) → s.thieves i ≡ away → Step s (record s { thieves = update s.thieves i stealing })
  give_up : (i : ℕ) → s.thieves i ≡ failed → Step s (record s { thieves = update s.thieves i away })
  own : Step s (after_owner s)
  rob : (i : ℕ) → Step s (after_thief s i)

-- a deque from `newWSDeque`, and nobody at work on it
abbrev pub init : WsDeque → System
init q = record { deque = q; owner = idle; thieves = λ _. away; log = [] }

pub data Reach (q : WsDeque) : System → Type 0 where
  start : Reach q (init q)
  later : {s t : System} → Reach q s → Step s t → Reach q t

-- What a thief saw holds after a step of another thread.
ThiefFits-keeps :
    (q q' : WsDeque) (e e' : ℕ) (p : Thief)
    → q.top ≤ q'.top
    → (q'.top ≡ q.top → q.top < e → (q.top < e') × (element q' q.top ≡ element q q.top))
    → ThiefFits q e p
    → ThiefFits q' e' p
ThiefFits-keeps q q' e e' away rises stays f = tt
ThiefFits-keeps q q' e e' (got_top t) rises stays f = omega arith
ThiefFits-keeps q q' e e' (got_bottom t) rises stays f = ground (arith, f.1)
ThiefFits-keeps q q' e e' (got_element t x) rises stays f = ground (arith, f.1)
ThiefFits-keeps q q' e e' p rises stays f = tt

replay-cons :
    (k k' : ℕ) (e : Event) (log : List Event) {c c' : List ℕ}
    → k' ≡ k
    → replay k log ≡ some c
    → apply k e c ≡ some c'
    → replay k' (e ∷ log) ≡ some c'
unfolding replay
replay-cons k k' e log {c' = c'} same past now =
    subst (λ k. replay k (e ∷ log) ≡ some c') (sym same) (rw (past, replay) now)

put_in-cons :
    (e : Event) (log : List Event) → length (put_in (e ∷ log)) ≡ grows_by e + length (put_in log)
unfolding put_in
put_in-cons (pushed x) log = omega arith
put_in-cons e log = omega arith

own-Inv : (s : System) → Inv s → end_of s.deque s.owner < 2 ^ 62 → Inv (after_owner s)
own-Inv s inv small =
    let r = owner_step s.deque s.owner in
    let st = owner_step-Steps s.deque s.owner inv.valid small in
    record {
      valid = st.valid;
      thieves = λ i.
          ThiefFits-keeps s.deque r.deque (end_of s.deque s.owner) (end_of r.deque r.pc)
            (s.thieves i) st.rises st.stays (inv.thieves i);
      counted = omega (arith, put_in-cons r.event s.log, inv.counted, st.grows);
      history = replay-cons _ _ r.event s.log st.modulo inv.history st.effect;
    }

rob-Inv : (s : System) (i : ℕ) → Inv s → end_of s.deque s.owner < 2 ^ 62 → Inv (after_thief s i)
rob-Inv s i inv small =
    let r = thief_step s.deque (s.thieves i) in
    let st = thief_step-Robs s.deque s.owner (s.thieves i) inv.valid small (inv.thieves i) in
    let kept : (j : ℕ) → ThiefFits r.deque (end_of r.deque s.owner) (s.thieves j) = λ j.
      ThiefFits-keeps s.deque r.deque (end_of s.deque s.owner) (end_of r.deque s.owner)
        (s.thieves j) st.rises (λ e l. (omega (arith, st.ends), rw st.only)) (inv.thieves j) in
    record {
      valid = st.valid;
      thieves = λ j. elim (Bool-cases (i == j)) [ inl e ↦ rw e st.fits | inr e ↦ rw e (kept j) ];
      counted = rw (st.ends, st.quiet) inv.counted;
      history =
          replay-cons _ _ r.event s.log (ap (λ d. d.modulo_size) st.only) inv.history st.effect;
    }

-- a thread that begins, or gives up, leaves the deque alone
begin-Inv :
    (s : System) (i : ℕ) (p : Thief)
    → ThiefFits s.deque (end_of s.deque s.owner) p
    → Inv s
    → Inv (record s { thieves = update s.thieves i p })
begin-Inv s i p f inv = record {
  valid = inv.valid;
  thieves = λ j. elim (Bool-cases (i == j)) [ inl e ↦ rw e f | inr e ↦ rw e (inv.thieves j) ];
  counted = inv.counted;
  history = inv.history;
}

start_op-Inv :
    (s : System) (p : Owner)
    → end_of s.deque p ≡ s.deque.bottom
    → OwnerFits s.deque p
    → contents s.deque p ≡ contents s.deque idle
    → s.owner ≡ idle
    → Inv s
    → Inv (record s { owner = p })
start_op-Inv s p ends f same e inv =
    let v : IsValid s.deque idle = rw e at inv.valid in
    record {
      valid = record {
        shape = v.shape;
        ordered = rw ends v.ordered;
        room = rw ends v.room;
        bound = v.bound;
        owner = f;
      };
      thieves = rw ends (rw e at inv.thieves);
      counted = rw ends (rw e at inv.counted);
      history = rw same (rw e at inv.history);
    }

-- the number of elements that ever went in
abbrev pub pushes : System → ℕ
pushes s = length (put_in s.log)

-- what is known of every reachable state
pub record Sound (q : WsDeque) (s : System) : Type 0 where
  pub inv : Inv s
  pub same : s.deque.modulo_size ≡ q.modulo_size

Step-pushes : {s t : System} → Step s t → pushes s ≤ pushes t
Step-pushes (begin_pop e) = omega arith
Step-pushes (begin_push x e) = omega arith
Step-pushes (begin_steal i e) = omega arith
Step-pushes (give_up i e) = omega arith
Step-pushes {s} own = omega (arith, put_in-cons (owner_step s.deque s.owner).event s.log)
Step-pushes {s} (rob i) = omega (arith, put_in-cons (thief_step s.deque (s.thieves i)).event s.log)

Step-Sound : (q : WsDeque) {s t : System} → Step s t → Sound q s → pushes s < 2 ^ 62 → Sound q t
unfolding contents
Step-Sound q {s} (begin_pop e) sd few = record {
  inv = start_op-Inv s pop_start refl tt refl e sd.inv;
  same = sd.same;
}
Step-Sound q {s} (begin_push x e) sd few = record {
  inv = start_op-Inv s (push_start x) refl tt refl e sd.inv;
  same = sd.same;
}
Step-Sound q {s} (begin_steal i e) sd few = record {
  inv = begin-Inv s i stealing tt sd.inv;
  same = sd.same;
}
Step-Sound q {s} (give_up i e) sd few = record {
  inv = begin-Inv s i away tt sd.inv;
  same = sd.same;
}
Step-Sound q {s} own sd few =
    let small : end_of s.deque s.owner < 2 ^ 62 = let c = sd.inv.counted in omega arith in
    record {
      inv = own-Inv s sd.inv small;
      same = (owner_step-Steps s.deque s.owner sd.inv.valid small).modulo ∙ sd.same;
    }
Step-Sound q {s} (rob i) sd few =
    let small : end_of s.deque s.owner < 2 ^ 62 = let c = sd.inv.counted in omega arith in
    let st = thief_step-Robs s.deque s.owner (s.thieves i) sd.inv.valid small (sd.inv.thieves i) in
    record { inv = rob-Inv s i sd.inv small; same = ap (λ d. d.modulo_size) st.only ∙ sd.same }

-- a deque that was just made
pub record IsNew (q : WsDeque) : Type 0 where
  pub valid : IsValid q idle
  pub top : q.top ≡ 0
  pub bottom : q.bottom ≡ 0

init-Inv : (q : WsDeque) → IsNew q → Inv (init q)
unfolding replay contents slots put_in
init-Inv q new = record {
  valid = new.valid;
  thieves = λ i. tt;
  counted = omega (arith, new.bottom);
  history = let e : q.bottom - q.top ≡ 0 = omega (arith, new.bottom) in rw e;
}

pub Reach-Sound : (q : WsDeque) {s : System} → IsNew q → Reach q s → pushes s < 2 ^ 62 → Sound q s
Reach-Sound q new start few = record { inv = init-Inv q new; same = refl }
Reach-Sound q new (later r st) few =
    let before = Step-pushes st in Step-Sound q st (Reach-Sound q new r (omega arith)) (omega arith)
