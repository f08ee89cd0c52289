-- ===== src/WsDeque/Words.antt =====
-- rts/WSDeque.c: indices modulo the size of the array, and the part of the array between two indices.
use native.Mathlib.Nat.{div-add-mod, add-zero}
use native.Mathlib.Decide.{dec_lt}
use ghc_xapp_fix.Prelude.{
  ℕ, zero, suc, ◌+◌, ◌/◌, ◌%◌, ◌≤◌, ◌<◌, ◌≡◌, ◌≢◌, refl, ap, List, [], ◌∷◌, ◌++◌, arith, length,
}

-- Two indices less than `n` apart are in different places of an array of `n`.
pub mod_apart : (i b n : ℕ) → i < b → b < i + n → i % n ≢ b % n
mod_apart i b n lt near e =
    let di = div-add-mod i n in
    let db = div-add-mod b n in
    elim (dec_lt (i / n) (b / n)) [ yes h ↦ grind arith | no h ↦ grind arith ]

-- `f a`, …, `f (a + n - 1)`
unfoldable pub slots : (ℕ → ℕ) → ℕ → ℕ → List ℕ
slots f a zero = []
slots f a (suc n) = f a ∷ slots f (suc a) n

pub slots-snoc : (f : ℕ → ℕ) (a n : ℕ) → slots f a (suc n) ≡ slots f a n ++ f (a + n) ∷ []
unfolding slots
slots-snoc f a zero = rw add-zero
slots-snoc f a (suc n) =
    let e : suc a + n ≡ a + suc n = omega arith in rw (slots-snoc f (suc a) n, e)

pub slots-same :
    (f g : ℕ → ℕ) (a n : ℕ) → ((i : ℕ) → a ≤ i → i < a + n → f i ≡ g i) → slots f a n ≡ slots g a n
unfolding slots
slots-same f g a zero h = refl
slots-same f g a (suc n) h = rw (
  h a (omega arith) (omega arith),
  slots-same f g (suc a) n (λ i l u. h i (omega arith) (omega arith)),
)

pub length-slots : (f : ℕ → ℕ) (a n : ℕ) → length (slots f a n) ≡ n
unfolding slots
length-slots f a zero = refl
length-slots f a (suc n) = ap suc (length-slots f (suc a) n)
