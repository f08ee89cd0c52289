-- ===== src/Prelude/Words.antt =====
-- Machine words as native numbers, and the masks of a power of two.
use Prim.Native.Nat.{
  ℕ, zero, suc, ◌+◌, ◌*◌, ◌-◌, ◌^◌, ◌/◌, ◌%◌, ◌≤◌, ◌<◌, min, max, bit_and, bit_or, digits, bitwise,
  bit_and-bitwise, bit_or-bitwise,
}
use mathlib.Core.Path.{◌≡◌, refl, sym, ap, ◌∙◌}
use mathlib.Core.Logic.{◌⊎◌, inl, inr}
use native.Mathlib.Decide.{dec_lt}
use native.Mathlib.Nat.{
  mod-lt, mod-eq_of_lt, mod-eq-sub-mod, mod-mod_of_dvd, dvd-mul_right, div-add-mod',
  add-mul-mod_self_right, mod-one, pow-suc,
}
use native.Mathlib.Omega.{arith}

-- Induction on the binary digits of a number, the least one first.
by_digits_upto {ℓ} :
    (P : ℕ → Type ℓ) → P 0 → ((a : ℕ) → P (suc a / 2) → P (suc a)) → (bound a : ℕ) → a ≤ bound → P a
by_digits_upto P base step bound zero h = base
by_digits_upto P base step zero (suc a) h = absurd (omega arith)
by_digits_upto P base step (suc bound) (suc a) h =
    step a (by_digits_upto P base step bound (suc a / 2) (omega arith))

by_digits {ℓ} : (P : ℕ → Type ℓ) → P 0 → ((a : ℕ) → P (suc a / 2) → P (suc a)) → (a : ℕ) → P a
by_digits P base step a = by_digits_upto P base step a a (omega arith)

-- an operation on the digits, with `rest` of the second number where the first one has run out
module _ (rest : ℕ → ℕ) (op : ℕ → ℕ → ℕ) where
  -- Any count of digits to go serves that is not below the first number.
  digits-bitwise :
      (bound count a b : ℕ)
      → count ≤ bound
      → a ≤ count
      → digits rest op count a b ≡ bitwise rest op a b
  digits-bitwise bound zero zero b k l = refl
  digits-bitwise bound (suc count) zero b k l = refl
  digits-bitwise bound zero (suc a) b k l = absurd (omega arith)
  digits-bitwise zero (suc count) (suc a) b k l = absurd (omega arith)
  digits-bitwise (suc bound) (suc count) (suc a) b k l =
      let half = digits-bitwise bound count (suc a / 2) (b / 2) (omega arith) (omega arith) in
      let same = digits-bitwise bound a (suc a / 2) (b / 2) (omega arith) (omega arith) in
      ap (λ (t : ℕ). t * 2 + op (suc a % 2) (b % 2)) (half ∙ sym same)

  bitwise-suc :
      (a b : ℕ)
      → bitwise rest op (suc a) b ≡ bitwise rest op (suc a / 2) (b / 2) * 2 + op (suc a % 2) (b % 2)
  bitwise-suc a b =
      ap (λ (t : ℕ). t * 2 + op (suc a % 2) (b % 2))
        (digits-bitwise a a (suc a / 2) (b / 2) (omega arith) (omega arith))

-- `bit_and` and `bit_or`, digit by digit
pub bit_and_step : (a b : ℕ) → bit_and a b ≡ bit_and (a / 2) (b / 2) * 2 + min (a % 2) (b % 2)
bit_and_step zero b = omega (arith, bit_and-bitwise 0 b, bit_and-bitwise 0 (b / 2))
bit_and_step (suc a) b =
    bit_and-bitwise (suc a) b
    ∙ bitwise-suc _ min a b
    ∙ ap (λ (t : ℕ). t * 2 + min (suc a % 2) (b % 2)) (sym (bit_and-bitwise (suc a / 2) (b / 2)))

bit_or_step :
    (a b : ℕ) → bit_or (suc a) b ≡ bit_or (suc a / 2) (b / 2) * 2 + max (suc a % 2) (b % 2)
bit_or_step a b =
    bit_or-bitwise (suc a) b
    ∙ bitwise-suc _ max a b
    ∙ ap (λ (t : ℕ). t * 2 + max (suc a % 2) (b % 2)) (sym (bit_or-bitwise (suc a / 2) (b / 2)))

and_zero : (a : ℕ) → bit_and a 0 ≡ 0
and_zero = by_digits _ (bit_and-bitwise 0 0) (λ a h. omega (arith, h, bit_and_step (suc a) 0))

or_zero : (a : ℕ) → bit_or a 0 ≡ a
or_zero = by_digits _ (bit_or-bitwise 0 0) (λ a h. omega (arith, h, bit_or_step a 0))

or_one : (a : ℕ) → a % 2 ≡ 0 → bit_or a 1 ≡ a + 1
or_one zero h = bit_or-bitwise 0 1
or_one (suc a) h = omega (arith, bit_or_step a 1, or_zero (suc a / 2))

-- `m << 1 | 1`
pub bit_or-shift_one : (m : ℕ) → bit_or (m * 2) 1 ≡ m * 2 + 1
bit_or-shift_one m = or_one (m * 2) (omega arith) ∙ omega arith

-- `mask` selects the residue modulo `n`.
abbrev pub IsMask : ℕ → ℕ → Type 0
IsMask mask n = (a : ℕ) → bit_and a mask ≡ a % n

pub mod_double : (a n : ℕ) → 0 < n → (a / 2) % n * 2 + a % 2 ≡ a % (n * 2)
mod_double a n h =
    let e : a ≡ (a / 2 % n * 2 + a % 2) + (a / 2 / n) * (n * 2) =
      grind (arith, div-add-mod' (a / 2) n) in
    let small : a / 2 % n * 2 + a % 2 < n * 2 = omega (arith, mod-lt (a / 2) h) in
    sym (
      ap (λ (t : ℕ). t % (n * 2)) e
      ∙ add-mul-mod_self_right _ (a / 2 / n) (n * 2)
      ∙ mod-eq_of_lt small)

-- One more bit in the mask doubles the modulus.
pub IsMask-double : (mask n : ℕ) → 0 < n → IsMask mask n → IsMask (bit_or (mask * 2) 1) (n * 2)
IsMask-double mask n h m a =
    let e : (mask * 2 + 1) / 2 ≡ mask = omega arith in
    rw (bit_or-shift_one mask)
      (bit_and_step a (mask * 2 + 1) ∙ rw (e, m (a / 2)) (omega (arith, mod_double a n h)))

-- the residue modulo the double is one of two
pub mod_double_cases : (a n : ℕ) → 0 < n → (a % (n * 2) ≡ a % n) ⊎ (a % (n * 2) ≡ a % n + n)
mod_double_cases a n h =
    let r : a % (n * 2) % n ≡ a % n = mod-mod_of_dvd n a (dvd-mul_right n 2) in
    let lt : a % (n * 2) < n * 2 = mod-lt a (omega arith) in
    elim (dec_lt (a % (n * 2)) n) [
      | yes p ↦ inl (sym (mod-eq_of_lt p) ∙ r)
      | no p ↦
          let s : a % (n * 2) - n ≡ a % n =
            sym (mod-eq_of_lt (omega arith)) ∙ sym (mod-eq-sub-mod (omega arith)) ∙ r in
          inr (omega arith)
    ]

pow-pos : (k : ℕ) → 0 < 2 ^ k
pow-pos zero = omega arith
pow-pos (suc k) = rw pow-suc (omega (arith, pow-pos k))

-- `2 ^ k - 1` is the mask of `2 ^ k`.
pub IsMask-pow : (k : ℕ) → IsMask (2 ^ k - 1) (2 ^ k)
IsMask-pow zero a = omega (arith, and_zero a, mod-one a)
IsMask-pow (suc k) a =
    let e : 2 ^ suc k - 1 ≡ (2 ^ k - 1) * 2 + 1 = rw pow-suc (omega (arith, pow-pos k)) in
    rw (e, pow-suc, ← bit_or-shift_one (2 ^ k - 1))
      (IsMask-double (2 ^ k - 1) (2 ^ k) (pow-pos k) (IsMask-pow k) a)
