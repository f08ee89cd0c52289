-- ===== src/Prelude/Lists.antt =====
-- Lists measured and indexed by native numbers, under the library's names, and functions as arrays.
use Prim.Native.Nat.{ℕ, zero, suc, ◌+◌, ◌≤◌, ◌<◌}
use mathlib.Core.Path.{◌≡◌, refl, ap}
use mathlib.Core.Logic.{◌≢◌, inl, inr}
use native.Mathlib.Decide.{ℕ_discrete}
use mathlib.Core.Bool.{Bool, true, false, ◌&&◌}
use mathlib.Core.List.{List, [], ◌∷◌, ◌++◌}
use native.Mathlib.Omega.{arith}
use ghc_xapp_fix.Prelude.Tests.{◌==◌, if◌then◌else◌, Bool-cases, ==_iff}

module _ {ℓ} {A : Type ℓ} where
  abbrev pub length : List A → ℕ
  length [] = 0
  length (x ∷ xs) = suc (length xs)

  pub length-append : (xs ys : List A) → length (xs ++ ys) ≡ length xs + length ys
  length-append [] ys = omega arith
  length-append (x ∷ xs) ys = omega (arith, length-append xs ys)

  abbrev pub take : ℕ → List A → List A
  take zero xs = []
  take (suc n) [] = []
  take (suc n) (x ∷ xs) = x ∷ take n xs

  abbrev pub is_nil : List A → Bool
  is_nil [] = true
  is_nil (_ ∷ _) = false

  -- every item satisfies `P`
  abbrev pub All {κ} : (A → Type κ) → List A → Type κ
  All P [] = Unit
  All P (x ∷ xs) = P x × All P xs

  -- an array of any length, as a function of the index
  abbrev pub update : (ℕ → A) → ℕ → A → ℕ → A
  update f i a j = if i == j then a else f j

-- texts as lists of bytes
abbrev pub starts_with : List ℕ → List ℕ → Bool
starts_with [] ys = true
starts_with (x ∷ xs) [] = false
starts_with (x ∷ xs) (y ∷ ys) = x == y && starts_with xs ys

abbrev pub same_text : List ℕ → List ℕ → Bool
same_text [] [] = true
same_text [] (y ∷ ys) = false
same_text (x ∷ xs) [] = false
same_text (x ∷ xs) (y ∷ ys) = x == y && same_text xs ys

pub same_text-eq : (xs ys : List ℕ) → same_text xs ys ≡ true → xs ≡ ys
same_text-eq [] [] h = refl
same_text-eq [] (y ∷ ys) h = absurd (ground (arith, h))
same_text-eq (x ∷ xs) [] h = absurd (ground (arith, h))
same_text-eq (x ∷ xs) (y ∷ ys) h = elim (Bool-cases (x == y)) [
  | inl e ↦ rw ((==_iff x y).0 e) (ap (λ l. y ∷ l) (same_text-eq xs ys (rw e at h)))
  | inr e ↦ absurd (ground (arith, rw e at h))
]

pub same_text_refl : (xs : List ℕ) → same_text xs xs ≡ true
same_text_refl [] = refl
same_text_refl (x ∷ xs) = rw ((==_iff x x).1 refl) (same_text_refl xs)

-- `f 0 + … + f (n - 1)`
unfoldable pub sum_to : ℕ → (ℕ → ℕ) → ℕ
sum_to zero f = 0
sum_to (suc n) f = sum_to n f + f n

pub sum_to_same : (n : ℕ) (f g : ℕ → ℕ) → ((j : ℕ) → j < n → g j ≡ f j) → sum_to n g ≡ sum_to n f
unfolding sum_to
sum_to_same zero f g h = refl
sum_to_same (suc n) f g h =
    omega (arith, sum_to_same n f g (λ j l. h j (omega arith)), h n (omega arith))

-- a change at one index
pub sum_to_change :
    (n i : ℕ) (f g : ℕ → ℕ)
    → i < n
    → ((j : ℕ) → j < n → j ≢ i → g j ≡ f j)
    → sum_to n g + f i ≡ sum_to n f + g i
unfolding sum_to
sum_to_change zero i f g l h = absurd (omega arith)
sum_to_change (suc n) i f g l h = elim (ℕ_discrete n i) [
  | yes e ↦
      let same = sum_to_same n f g (λ j lt. h j (omega arith) (omega arith)) in
      rw (← e) (omega (arith, same))
  | no ne ↦
      omega (
        arith,
        sum_to_change n i f g (omega arith) (λ j lt. h j (omega arith)),
        h n (omega arith) ne,
      )
]

pub sum_to-zero : (n : ℕ) (f : ℕ → ℕ) → ((j : ℕ) → j < n → f j ≡ 0) → sum_to n f ≡ 0
unfolding sum_to
sum_to-zero zero f h = refl
sum_to-zero (suc n) f h =
    omega (arith, sum_to-zero n f (λ j l. h j (omega arith)), h n (omega arith))

-- all but one term vanish
pub sum_to_only :
    (n i : ℕ) (f : ℕ → ℕ) → i < n → ((j : ℕ) → j < n → j ≢ i → f j ≡ 0) → sum_to n f ≡ f i
sum_to_only n i f l h =
    let zeros = sum_to-zero n (λ _. 0) (λ _ _. refl) in
    omega (arith, sum_to_change n i (λ _. 0) f l h, zeros)

pub le-sum_to : (n i : ℕ) (f : ℕ → ℕ) → i < n → f i ≤ sum_to n f
unfolding sum_to
le-sum_to zero i f h = absurd (omega arith)
le-sum_to (suc n) i f h = elim (ℕ_discrete n i) [
  | yes e ↦ rw (← e) (omega arith)
  | no ne ↦ omega (arith, le-sum_to n i f (omega arith))
]
