-- ===== src/WsDeque/Linear.antt =====
-- rts/WSDeque.c: every run is a run of a list that is changed in one place at a time, and so no
-- element is lost or taken twice.
use mathlib.Core.Option
use ghc_xapp_fix.Prelude.{
  ℕ, ◌+◌, ◌^◌, ◌<◌, ◌≡◌, refl, Option, none, some, List, [], ◌∷◌, ◌++◌, length, arith, ltb, leb,
  ◌==◌, inl, inr, Bool-cases, if◌then◌else◌,
}
use ghc_xapp_fix.WsDeque.{WsDeque, System, Event, silent, pushed, refused, popped, nothing, stolen}
use ghc_xapp_fix.WsDeque.Spec.{remove_last, apply, replay, put_in, taken_out}
use ghc_xapp_fix.WsDeque.Valid.{contents}
use ghc_xapp_fix.WsDeque.Safety.{Reach, IsNew, pushes, Reach-Sound}

-- how often a number occurs
pub count : ℕ → List ℕ → ℕ
count a [] = 0
count a (x ∷ xs) = (if x == a then 1 else 0) + count a xs

count-snoc : (a x : ℕ) (c : List ℕ) → count a (c ++ x ∷ []) ≡ count a (x ∷ c)
unfolding count
count-snoc a x [] = refl
count-snoc a x (y ∷ c) = omega (arith, count-snoc a x c)

-- an outcome of taking `x` out of `c`
abbrev Took : ℕ → List ℕ → Option (List ℕ) → Type 0
Took x c none = Unit
Took x c (some c') = (a : ℕ) → count a c ≡ count a (x ∷ c')

Took-cons :
    (x y : ℕ) (c : List ℕ) (r : Option (List ℕ))
    → Took x c r
    → Took x (y ∷ c) (Option.map (λ r. y ∷ r) r)
unfolding count
Took-cons x y c none h = tt
Took-cons x y c (some c') h = λ a. omega (arith, h a)

remove_last-Took : (x : ℕ) (c : List ℕ) → Took x c (remove_last x c)
unfolding remove_last count
remove_last-Took x [] = tt
remove_last-Took x (y ∷ []) = elim (Bool-cases (y == x)) [
  | inl e ↦ rw e (λ a. ground arith)
  | inr e ↦ rw e tt
]
remove_last-Took x (y ∷ z ∷ c) = Took-cons x y (z ∷ c) _ (remove_last-Took x (z ∷ c))

-- what an event does to the counts
abbrev Balanced : Event → List ℕ → Option (List ℕ) → Type 0
Balanced e c none = Unit
Balanced e c (some c') =
    (a : ℕ) → count a c + count a (put_in (e ∷ [])) ≡ count a c' + count a (taken_out (e ∷ []))

Took-Balanced : (x : ℕ) (c : List ℕ) (r : Option (List ℕ)) → Took x c r → Balanced (popped x) c r
unfolding count put_in taken_out
Took-Balanced x c none h = tt
Took-Balanced x c (some c') h = λ a. omega (arith, h a)

apply-Balanced : (room : ℕ) (e : Event) (c : List ℕ) → Balanced e c (apply room e c)
unfolding apply count put_in taken_out
apply-Balanced room silent c = λ a. refl
apply-Balanced room (pushed x) c = elim (Bool-cases (ltb (length c) room)) [
  | inl h ↦ rw h (λ a. omega (arith, count-snoc a x c))
  | inr h ↦ rw h tt
]
apply-Balanced room refused c = elim (Bool-cases (leb room (length c))) [
  | inl h ↦ rw h (λ a. refl)
  | inr h ↦ rw h tt
]
apply-Balanced room (popped x) c = Took-Balanced x c _ (remove_last-Took x c)
apply-Balanced room nothing [] = λ a. refl
apply-Balanced room nothing (y ∷ c) = tt
apply-Balanced room (stolen x) [] = tt
apply-Balanced room (stolen x) (y ∷ c) = elim (Bool-cases (y == x)) [
  | inl h ↦ rw h (λ a. ground arith)
  | inr h ↦ rw h tt
]

put_in-one :
    (a : ℕ) (e : Event) (log : List Event)
    → count a (put_in (e ∷ log)) ≡ count a (put_in (e ∷ [])) + count a (put_in log)
unfolding count put_in
put_in-one a (pushed x) log = omega arith
put_in-one a e log = omega arith

taken_out-one :
    (a : ℕ) (e : Event) (log : List Event)
    → count a (taken_out (e ∷ log)) ≡ count a (taken_out (e ∷ [])) + count a (taken_out log)
unfolding count taken_out
taken_out-one a (popped x) log = omega arith
taken_out-one a (stolen x) log = omega arith
taken_out-one a e log = omega arith

-- what went in is what came out and what is left
abbrev Counted : List Event → Option (List ℕ) → Type 0
Counted log none = Unit
Counted log (some c) = (a : ℕ) → count a (put_in log) ≡ count a (taken_out log) + count a c

Counted-cons :
    (e : Event) (log : List Event) (c : List ℕ) (r : Option (List ℕ))
    → Counted log (some c)
    → Balanced e c r
    → Counted (e ∷ log) r
Counted-cons e log c none h b = tt
Counted-cons e log c (some c') h b =
    λ a. omega (arith, h a, b a, put_in-one a e log, taken_out-one a e log)

replay-Counted : (room : ℕ) (log : List Event) → Counted log (replay room log)
unfolding replay count put_in taken_out
replay-Counted room [] = λ a. refl
replay-Counted room (e ∷ log) = later (replay room log) (replay-Counted room log)
  where
    later :
        (r : Option (List ℕ))
        → Counted log r
        → Counted (e ∷ log) (elim r [ none ↦ none | some c ↦ apply room e c ])
    later none h = tt
    later (some c) h = Counted-cons e log c _ h (apply-Balanced room e c)

-- From a new deque, whatever the owner and the thieves do in whatever order, and if fewer than 2 ^
-- 62 elements were pushed: the events so far, replayed on a list, are legal and lead to the
-- elements between `top` and the end. So pushes append, `popWSDeque` takes the last element, a
-- thief takes the first, `popWSDeque` returns `NULL` only at the empty list, and `pushWSDeque`
-- refuses only a full one.
pub log-contents :
    (q : WsDeque) (s : System)
    → IsNew q
    → Reach q s
    → pushes s < 2 ^ 62
    → replay q.modulo_size s.log ≡ some (contents s.deque s.owner)
log-contents q s new r few = let sd = Reach-Sound q new r few in rw (← sd.same) sd.inv.history

-- No element is lost, and none is handed out twice: in every state that is reached from a new deque
-- with fewer than 2 ^ 62 pushes, each value went in as often as the owner and the thieves took it out
-- and it still lies between `top` and the end.
pub put_in-taken_out :
    (q : WsDeque) (s : System)
    → IsNew q
    → Reach q s
    → pushes s < 2 ^ 62
    → (a : ℕ)
    → count a (put_in s.log) ≡ count a (taken_out s.log) + count a (contents s.deque s.owner)
put_in-taken_out q s new r few =
    let c : Counted s.log (replay q.modulo_size s.log) = replay-Counted q.modulo_size s.log in
    rw (log-contents q s new r few) at c
