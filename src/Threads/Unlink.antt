-- ===== src/Threads/Unlink.antt =====
-- rts/Threads.c: `removeThreadFromQueue` and `removeThreadFromDeQueue`.
use mathlib.Core.Path.{subst}
use ghc_xapp_fix.Prelude.{
  ℕ, zero, suc, ◌<◌, ◌≡◌, ◌⊎◌, refl, ap, sym, ◌∙◌, Bool, true, false, ◌||◌, Option, none, some,
  List, [], ◌∷◌, ◌++◌, ◌==◌, arith, update, inl, inr, length, length-append, is_nil, Bool-cases,
  ==_iff,
}
use ghc_xapp_fix.Threads.{
  removed, barf, take_out, remove_loop, remove_thread_from_queue, move_tail, remove_de_loop,
  remove_thread_from_de_queue,
}
use ghc_xapp_fix.Threads.Lists.{
  In, AreDistinct, Chain, last_of, AreDistinct-remove, last_of-append, last_of-some, new_head,
  new_links, Chain-remove, update_self,
}

abbrev pub is_none : Option ℕ → Bool
is_none none = true
is_none (some a) = false

take_out_lem :
    (link : ℕ → Option ℕ) (head tail p : Option ℕ) (t : ℕ)
    → take_out link head tail p t
      ≡ removed (new_links link p t) (new_head link head p t) tail (is_none p)
take_out_lem link head tail none t = refl
take_out_lem link head tail (some b) t = refl

module _ (link : ℕ → Option ℕ) (head tail : Option ℕ) (t : ℕ) where
  loop-found :
      (fuel : ℕ) (prev q : Option ℕ) (xs ys : List ℕ)
      → length xs < fuel
      → Chain link q (xs ++ t ∷ ys) none
      → (In t xs → ⊥)
      → remove_loop link head t fuel prev q ≡ some (take_out link head none (last_of prev xs) t)
  unfolding remove_loop
  loop-found zero prev q xs ys h c n = absurd (omega arith)
  loop-found (suc fuel) prev q [] ys h c n =
      ap (remove_loop link head t (suc fuel) prev) c.0 ∙ rw ((==_iff t t).1 refl) refl
  loop-found (suc fuel) prev q (x ∷ xs) ys h c n =
      let other : (x == t) ≡ false = ground (arith, n (inl _)) in
      ap (remove_loop link head t (suc fuel) prev) c.0
      ∙ rw other (loop-found fuel (some x) (link x) xs ys (omega arith) c.1 (λ i. n (inr i)))

  loop-missing :
      (fuel : ℕ) (prev q : Option ℕ) (xs : List ℕ)
      → length xs < fuel
      → Chain link q xs none
      → (In t xs → ⊥)
      → remove_loop link head t fuel prev q ≡ some barf
  unfolding remove_loop
  loop-missing zero prev q xs h c n = absurd (omega arith)
  loop-missing (suc fuel) prev q [] h c n = ap (remove_loop link head t (suc fuel) prev) c
  loop-missing (suc fuel) prev q (x ∷ xs) h c n =
      let other : (x == t) ≡ false = ground (arith, n (inl _)) in
      ap (remove_loop link head t (suc fuel) prev) c.0
      ∙ rw other (loop-missing fuel (some x) (link x) xs (omega arith) c.1 (λ i. n (inr i)))

  de_loop-found :
      (fuel : ℕ) (prev q : Option ℕ) (xs ys : List ℕ)
      → length xs < fuel
      → Chain link q (xs ++ t ∷ ys) none
      → (In t xs → ⊥)
      → remove_de_loop link head tail t fuel prev q
        ≡ some (move_tail tail (last_of prev xs) t (take_out link head tail (last_of prev xs) t))
  unfolding remove_de_loop
  de_loop-found zero prev q xs ys h c n = absurd (omega arith)
  de_loop-found (suc fuel) prev q [] ys h c n =
      ap (remove_de_loop link head tail t (suc fuel) prev) c.0 ∙ rw ((==_iff t t).1 refl) refl
  de_loop-found (suc fuel) prev q (x ∷ xs) ys h c n =
      let other : (x == t) ≡ false = ground (arith, n (inl _)) in
      ap (remove_de_loop link head tail t (suc fuel) prev) c.0
      ∙ rw other (de_loop-found fuel (some x) (link x) xs ys (omega arith) c.1 (λ i. n (inr i)))

In-cases :
    (t : ℕ) (l : List ℕ) → ((xs : List ℕ) × (ys : List ℕ) × (l ≡ xs ++ t ∷ ys)) ⊎ (In t l → ⊥)
In-cases t [] = inr (λ h. h)
In-cases t (y ∷ l) = elim (Bool-cases (t == y)) [
  | inl e ↦ inl ([], l, ap (λ x. x ∷ l) (sym ((==_iff t y).0 e)))
  | inr e ↦ elim (In-cases t l) [
    | inl (xs, ys, s) ↦ inl (y ∷ xs, ys, ap (λ l. y ∷ l) s)
    | inr n ↦ inr (λ h. elim h [ inl z ↦ ground (arith, e, z) | inr i ↦ n i ])
  ]
]

is_none-last_of : (xs : List ℕ) → is_none (last_of none xs) ≡ is_nil xs
is_none-last_of [] = refl
is_none-last_of (x ∷ xs) = let (b, e, i) = last_of-some x xs in ap is_none e

new_links_self : (link : ℕ → Option ℕ) (p : Option ℕ) (t : ℕ) → new_links link p t t ≡ none
new_links_self link none t = update_self link t none
new_links_self link (some b) t = update_self (update link b (link t)) t none

shorter : (t : ℕ) (xs ys : List ℕ) (fuel : ℕ) → length (xs ++ t ∷ ys) < fuel → length xs < fuel
shorter t xs ys fuel h = omega (arith, length-append xs (t ∷ ys))

-- On a queue of different threads, with fuel for each of them, `removeThreadFromQueue` takes the
-- thread out, clears its link, and returns whether it was the first; or it fails with `barf`, and
-- the thread is not in the queue.
pub remove_thread-Chain :
    (link : ℕ → Option ℕ) (head : Option ℕ) (t fuel : ℕ) (l : List ℕ)
    → Chain link head l none
    → AreDistinct l
    → length l < fuel
    → ((xs : List ℕ) × (ys : List ℕ) × (link' : ℕ → Option ℕ) × (head' : Option ℕ) × (l
          ≡ xs ++ t ∷ ys)
        × (remove_thread_from_queue link fuel head t ≡ some (removed link' head' none (is_nil xs)))
        × Chain link' head' (xs ++ ys) none
        × (link' t ≡ none))
      ⊎ ((In t l → ⊥) × (remove_thread_from_queue link fuel head t ≡ some barf))
unfolding remove_thread_from_queue
remove_thread-Chain link head t fuel l c d h = elim (In-cases t l) [
  | inr n ↦ inr (n, loop-missing link head none t fuel none head l h c n)
  | inl (xs, ys, split) ↦
      let c' = subst (λ l. Chain link head l none) split c in
      let d' = subst AreDistinct split d in
      let p = last_of none xs in
      let out = (AreDistinct-remove t xs ys d').1 in
      let enough = shorter t xs ys fuel (subst (λ l. length l < fuel) split h) in
      let found = loop-found link head none t fuel none head xs ys enough c' out in
      inl (
        xs,
        ys,
        new_links link p t,
        new_head link head p t,
        split,
        found
            ∙ ap some (
                take_out_lem link head none p t
                ∙ ap (removed (new_links link p t) (new_head link head p t) none)
                    (is_none-last_of xs)),
        Chain-remove link head none p t xs ys c' d' refl,
        new_links_self link p t,
      )
]

or_true : (b : Bool) → b || true ≡ true
or_true true = refl
or_true false = refl

or_false : (b : Bool) → b || false ≡ b
or_false true = refl
or_false false = refl

move_tail_lem :
    (L : ℕ → Option ℕ) (H tail : Option ℕ) (t : ℕ) (xs ys : List ℕ)
    → AreDistinct (xs ++ t ∷ ys)
    → tail ≡ last_of none (xs ++ t ∷ ys)
    → move_tail tail (last_of none xs) t (removed L H tail (is_nil xs))
      ≡ removed L H (last_of none (xs ++ ys)) (is_nil xs || is_nil ys)
move_tail_lem L H tail t xs [] d e =
    let is : tail ≡ some t = e ∙ last_of-append none xs (t ∷ []) in
    let flag : true ≡ is_nil xs || true = sym (or_true (is_nil xs)) in
    ap (λ o. move_tail o (last_of none xs) t (removed L H tail (is_nil xs))) is
    ∙ rw ((==_iff t t).1 refl) (
        ap (removed L H (last_of none xs)) flag
        ∙ ap (λ o. removed L H o (is_nil xs || true)) (sym (last_of-append none xs [])))
move_tail_lem L H tail t xs (y ∷ ys) d e =
    let (b, e', i) = last_of-some y ys in
    let last : last_of none (xs ++ t ∷ y ∷ ys) ≡ some b =
      last_of-append none xs (t ∷ y ∷ ys) ∙ e' in
    let last' : last_of none (xs ++ y ∷ ys) ≡ some b = last_of-append none xs (y ∷ ys) ∙ e' in
    let out = (AreDistinct-remove t xs (y ∷ ys) d).2 in
    let ne : (b == t) ≡ false = elim (Bool-cases (b == t)) [
      | inl z ↦ absurd (out (subst (λ w. In w (y ∷ ys)) ((==_iff b t).0 z) i))
      | inr z ↦ z
    ] in
    ap (λ o. move_tail o (last_of none xs) t (removed L H tail (is_nil xs))) (e ∙ last)
    ∙ rw ne (
        ap (λ o. removed L H o (is_nil xs)) (sym last')
        ∙ ap (removed L H (last_of none (xs ++ y ∷ ys))) (sym (or_false (is_nil xs))))

-- `removeThreadFromDeQueue`, on a queue with a tail, also sets the tail right, and returns whether
-- the head or the tail has changed.
pub remove_thread-tail :
    (link : ℕ → Option ℕ) (head tail : Option ℕ) (t fuel : ℕ) (xs ys : List ℕ)
    → Chain link head (xs ++ t ∷ ys) none
    → tail ≡ last_of none (xs ++ t ∷ ys)
    → AreDistinct (xs ++ t ∷ ys)
    → length (xs ++ t ∷ ys) < fuel
    → (link' : ℕ → Option ℕ) × (head' : Option ℕ) × (remove_thread_from_de_queue link fuel head tail
          t
        ≡ some (removed link' head' (last_of none (xs ++ ys)) (is_nil xs || is_nil ys)))
      × Chain link' head' (xs ++ ys) none
      × (link' t ≡ none)
unfolding remove_thread_from_de_queue
remove_thread-tail link head tail t fuel xs ys c e d h =
    let p = last_of none xs in
    let out = (AreDistinct-remove t xs ys d).1 in
    let found =
      de_loop-found link head tail t fuel none head xs ys (shorter t xs ys fuel h) c out in
    let L = new_links link p t in
    let H = new_head link head p t in
    let took : take_out link head tail p t ≡ removed L H tail (is_nil xs) =
      take_out_lem link head tail p t ∙ ap (removed L H tail) (is_none-last_of xs) in
    (
      L,
      H,
      found ∙ ap some (ap (move_tail tail p t) took ∙ move_tail_lem L H tail t xs ys d e),
      Chain-remove link head none p t xs ys c d refl,
      new_links_self link p t,
    )
