-- ===== src/WsDeque/Spec.antt =====
-- The deque that rts/WSDeque.c promises: a list, which the owner extends and shortens at its end,
-- and from whose front others take.
use ghc_xapp_fix.Prelude.{
  ℕ, ◌≡◌, Option, none, some, List, [], ◌∷◌, ◌++◌, arith, ltb, leb, ◌==◌, if◌then◌else◌, length,
}
use mathlib.Core.Option
use ghc_xapp_fix.WsDeque.{Event, silent, pushed, refused, popped, nothing, stolen}

-- the list without its last item, if that is `x`
unfoldable pub remove_last : ℕ → List ℕ → Option (List ℕ)
remove_last x [] = none
remove_last x (y ∷ []) = if y == x then some [] else none
remove_last x (y ∷ z ∷ c) = Option.map (λ r. y ∷ r) (remove_last x (z ∷ c))

pub remove_last-snoc : (x : ℕ) (c : List ℕ) → remove_last x (c ++ x ∷ []) ≡ some c
unfolding remove_last
remove_last-snoc x [] = ground arith
remove_last-snoc x (y ∷ []) = ground arith
remove_last-snoc x (y ∷ z ∷ c) = rw (remove_last-snoc x (z ∷ c))

-- One event of a deque with room for `room` elements; `none` if it cannot happen at this list.
unfoldable pub apply : ℕ → Event → List ℕ → Option (List ℕ)
apply room silent c = some c
apply room (pushed x) c = if ltb (length c) room then some (c ++ x ∷ []) else none
apply room refused c = if leb room (length c) then some c else none
apply room (popped x) c = remove_last x c
apply room nothing [] = some []
apply room nothing (y ∷ c) = none
apply room (stolen x) [] = none
apply room (stolen x) (y ∷ c) = if y == x then some c else none

-- the events so far, the newest first, from the empty deque
unfoldable pub replay : ℕ → List Event → Option (List ℕ)
replay room [] = some []
replay room (e ∷ log) = elim (replay room log) [ none ↦ none | some c ↦ apply room e c ]

-- the elements that went in, and those that came out, in any order
unfoldable pub put_in : List Event → List ℕ
put_in [] = []
put_in (pushed x ∷ log) = x ∷ put_in log
put_in (e ∷ log) = put_in log

unfoldable pub taken_out : List Event → List ℕ
taken_out [] = []
taken_out (popped x ∷ log) = x ∷ taken_out log
taken_out (stolen x ∷ log) = x ∷ taken_out log
taken_out (e ∷ log) = taken_out log
