-- ===== src/Hash/Keys.antt =====
-- rts/Hash.c: the two kinds of keys, words and strings, and the numbers that they hash to.
use ghc_xapp_fix.Prelude.{
  ℕ, ◌+◌, ◌*◌, ◌/◌, ◌%◌, ◌^◌, ◌<◌, ◌≡◌, ◌↔◌, ◌∙◌, Bool, List, [], ◌∷◌, arith, ◌==◌, ==_iff, All,
}
use ghc_xapp_fix.Hash.{KeyOps}

-- `hashWord` strips the zero bits of an aligned address, `sizeof(StgWord)` being 8; `compareWord`
-- is equality.
unfoldable pub word_ops : KeyOps ℕ
word_ops = record { raw = λ key. key / 8; compare = ◌==◌; compare_iff = ==_iff }

-- a large prime
abbrev pub str_modulus : ℕ
str_modulus = 1048583

-- The loop of `hashStr`, over the characters of the key before its final 0. A `char` counts as its
-- value: the model is of ASCII keys, for which the signedness of `char` makes no difference.
pub hash_str_loop : ℕ → List ℕ → ℕ
hash_str_loop h [] = h
hash_str_loop h (c ∷ s) = hash_str_loop ((h * 128 + c) % str_modulus) s

-- `compareStr` tests the result of `strcmp` for 0, which holds of equal strings only.
pub str_ops :
    (strcmp_zero : List ℕ → List ℕ → Bool)
    → ((a b : List ℕ) → (strcmp_zero a b ≡ Bool.true) ↔ (a ≡ b))
    → KeyOps (List ℕ)
unfolding hash_str_loop
str_ops strcmp_zero law = record { raw = hash_str_loop 0; compare = strcmp_zero; compare_iff = law }

-- the string as a number in base 128, its first character the highest digit
pub base_128 : ℕ → List ℕ → ℕ
base_128 acc [] = acc
base_128 acc (c ∷ s) = base_128 (acc * 128 + c) s

base_128-mod :
    (s : List ℕ) (a b : ℕ)
    → a % str_modulus ≡ b % str_modulus
    → base_128 a s % str_modulus ≡ base_128 b s % str_modulus
unfolding base_128
base_128-mod [] a b h = h
base_128-mod (c ∷ s) a b h = base_128-mod s (a * 128 + c) (b * 128 + c) (omega arith)

hash_str_loop-base_128 :
    (s : List ℕ) (h : ℕ) → h < str_modulus → hash_str_loop h s ≡ base_128 h s % str_modulus
unfolding hash_str_loop base_128
hash_str_loop-base_128 [] h l = omega arith
hash_str_loop-base_128 (c ∷ s) h l =
    hash_str_loop-base_128 s ((h * 128 + c) % str_modulus) (omega arith)
    ∙ base_128-mod s ((h * 128 + c) % str_modulus) (h * 128 + c) (omega arith)

-- the values of `h` before each reduction
pub str_steps : ℕ → List ℕ → List ℕ
str_steps h [] = []
str_steps h (c ∷ s) = (h * 128 + c) ∷ str_steps ((h * 128 + c) % str_modulus) s

str_steps-lt :
    (s : List ℕ) (h : ℕ)
    → h < str_modulus
    → All (λ c. c < 128) s
    → All (λ n. n < 2 ^ 31) (str_steps h s)
unfolding str_steps
str_steps-lt [] h l ascii = tt
str_steps-lt (c ∷ s) h l ascii = (omega arith, str_steps-lt s _ (omega arith) ascii.1)

-- Of an ASCII string, `hashStr` computes the value in base 128 modulo the prime, and no value that
-- its loop computes overflows an `int`.
pub hash_str-base_128 :
    (s : List ℕ)
    → All (λ c. c < 128) s
    → (hash_str_loop 0 s ≡ base_128 0 s % str_modulus) × All (λ n. n < 2 ^ 31) (str_steps 0 s)
hash_str-base_128 s ascii =
    (hash_str_loop-base_128 s 0 (omega arith), str_steps-lt s 0 (omega arith) ascii)
