-- ===== src/Hpc/Numbers.antt =====
-- rts/Hpc.c: numbers that are written and read.
use ghc_xapp_fix.Prelude.{
  ℕ, zero, suc, ◌+◌, ◌-◌, ◌*◌, ◌/◌, ◌%◌, ◌^◌, ◌<◌, ◌≡◌, refl, ap, ◌∙◌, true, false, List, [], ◌∷◌,
  ◌++◌, ltb, All, arith, Bool-cases, inl, inr, ltb→lt,
}
use ghc_xapp_fix.Hpc.{isdigit, word_loop, expect_word64, decimal_loop, decimal}
use native.Mathlib.Nat.{pow-suc, mod-eq_of_lt}

-- the number after the digits of a list
unfoldable word_after : ℕ → List ℕ → ℕ
word_after tmp [] = tmp
word_after tmp (x ∷ xs) = word_after ((tmp * 10 + (x - 48)) % 2 ^ 64) xs

word_after-append :
    (tmp : ℕ) (xs ys : List ℕ) → word_after tmp (xs ++ ys) ≡ word_after (word_after tmp xs) ys
unfolding word_after
word_after-append tmp [] ys = refl
word_after-append tmp (x ∷ xs) ys = word_after-append ((tmp * 10 + (x - 48)) % 2 ^ 64) xs ys

abbrev pub AreDigits : List ℕ → Type 0
AreDigits = All (λ x. isdigit x ≡ true)

AreDigits-append : (xs ys : List ℕ) → AreDigits xs → AreDigits ys → AreDigits (xs ++ ys)
AreDigits-append [] ys a b = b
AreDigits-append (x ∷ xs) ys a b = (a.0, AreDigits-append xs ys a.1 b)

digit-IsDigit : (n : ℕ) → n < 10 → isdigit (48 + n) ≡ true
digit-IsDigit n h = ground arith

pub decimal_loop-AreDigits : (rounds n : ℕ) → AreDigits (decimal_loop rounds n)
unfolding decimal_loop
decimal_loop-AreDigits zero n = tt
decimal_loop-AreDigits (suc rounds) n = elim (Bool-cases (ltb n 10)) [
  | inl e ↦ rw e (digit-IsDigit n (ltb→lt _ _ e), tt)
  | inr e ↦ rw e (
      AreDigits-append (decimal_loop rounds (n / 10)) _ (decimal_loop-AreDigits rounds (n / 10))
        (digit-IsDigit (n % 10) (omega arith), tt))
]

digits_sum : (n : ℕ) → n / 10 * 10 + (48 + n % 10 - 48) ≡ n
digits_sum n = omega arith

digit_sum : (n : ℕ) → 0 * 10 + (48 + n - 48) ≡ n
digit_sum n = omega arith

tenth : (n p : ℕ) → n < p * 10 → n / 10 < p
tenth n p h = omega (arith, h)

tenth_lt : (n w : ℕ) → n < w → n / 10 < w
tenth_lt n w h = omega (arith, h)

last_digit : (n w : ℕ) → n < w → (n / 10 * 10 + (48 + n % 10 - 48)) % w ≡ n
last_digit n w h = ap (λ k. k % w) (digits_sum n) ∙ mod-eq_of_lt h

first_digit : (n w : ℕ) → n < w → (0 * 10 + (48 + n - 48)) % w ≡ n
first_digit n w h = ap (λ k. k % w) (digit_sum n) ∙ mod-eq_of_lt h

word_after-decimal_loop :
    (rounds n : ℕ) → n < 10 ^ rounds → n < 2 ^ 64 → word_after 0 (decimal_loop rounds n) ≡ n
unfolding word_after decimal_loop
word_after-decimal_loop zero n h w = omega (arith, h)
word_after-decimal_loop (suc rounds) n h w = elim (Bool-cases (ltb n 10)) [
  | inl e ↦ rw e (first_digit n (2 ^ 64) w)
  | inr e ↦
      let front =
        word_after-decimal_loop rounds (n / 10)
          (tenth n (10 ^ rounds) (rw (pow-suc 10 rounds) at h)) (tenth_lt n (2 ^ 64) w) in
      rw (e, word_after-append 0 (decimal_loop rounds (n / 10)) ((48 + n % 10) ∷ []), front)
        (last_digit n (2 ^ 64) w)
]

word_loop-digits :
    (tmp : ℕ) (xs ys : List ℕ)
    → AreDigits xs
    → word_loop tmp (xs ++ ys) ≡ word_loop (word_after tmp xs) ys
unfolding word_loop word_after
word_loop-digits tmp [] ys d = refl
word_loop-digits tmp (x ∷ xs) ys d =
    rw d.0 (word_loop-digits ((tmp * 10 + (x - 48)) % 2 ^ 64) xs ys d.1)

-- what stops the loop over the digits
abbrev pub StopsDigits : List ℕ → Type 0
StopsDigits [] = Unit
StopsDigits (x ∷ xs) = isdigit x ≡ false

word_loop-stop : (tmp : ℕ) (ys : List ℕ) → StopsDigits ys → word_loop tmp ys ≡ (tmp, ys)
unfolding word_loop
word_loop-stop tmp [] s = refl
word_loop-stop tmp (y ∷ ys) s = rw s refl

shorter_than : (n : ℕ) → n < 2 ^ 64 → n < 10 ^ 20
shorter_than n h = omega (arith, h)

-- A word of 64 bits that is written in decimal, before something that is no digit, is read as it was.
pub expect_word64-decimal :
    (n : ℕ) (ys : List ℕ) → n < 2 ^ 64 → StopsDigits ys → expect_word64 (decimal n ++ ys) ≡ (n, ys)
expect_word64-decimal n ys h s =
    word_loop-digits 0 (decimal n) ys (decimal_loop-AreDigits 20 n)
    ∙ ap (λ k. word_loop k ys) (word_after-decimal_loop 20 n (shorter_than n h) h)
    ∙ word_loop-stop n ys s
