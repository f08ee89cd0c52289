-- ===== src/Hpc/Text.antt =====
-- rts/Hpc.c: `readTix` on what `writeTix` has written.
use ghc_xapp_fix.Prelude.{
  ℕ, zero, suc, ◌+◌, ◌/◌, ◌%◌, ◌^◌, ◌≤◌, ◌<◌, ◌≡◌, refl, ap, ◌∙◌, true, false, List, [], ◌∷◌, ◌++◌,
  length, length-append, is_nil, ltb, ◌==◌, All, arith, Bool-cases, inl, inr, ==_iff,
}
use ghc_xapp_fix.Hpc.{
  Outcome, done, failed, wild, ◌>>=◌, HpcModuleInfo, space, quote, comma, left_bracket,
  right_bracket, tix, tix_module, expect, expect_all, ws, string_room, string_loop, c_string,
  expect_string, isdigit, skip_comma, read_ticks, read_counts, read_module, store_ticks,
  read_modules, read_tix, decimal_loop, decimal, write_ticks, write_counts, write_module,
  write_modules, write_tix,
}
use ghc_xapp_fix.Hpc.Numbers.{AreDigits, decimal_loop-AreDigits, expect_word64-decimal}
use native.Mathlib.Nat.{mod-eq_of_lt}

-- a byte of a name: neither a quote nor zero
abbrev pub IsPlain : ℕ → Type 0
IsPlain c = (c == quote ≡ false) × (c == 0 ≡ false)

-- What the format can hold: the widths of the fields, and names that fit the buffer of the reader.
pub record IsPrintable (m : HpcModuleInfo) : Type 0 where
  pub plain : All IsPlain m.mod_name
  pub fits : length m.mod_name ≤ string_room
  pub hash : m.hash_no < 2 ^ 32
  pub count : length m.tix_arr < 2 ^ 32
  pub ticks : All (λ x. x < 2 ^ 64) m.tix_arr

expect_all-append : (cs ys : List ℕ) → expect_all cs (cs ++ ys) ≡ done ys
unfolding expect_all expect
expect_all-append [] ys = refl
expect_all-append (c ∷ cs) ys = rw ((==_iff c c).1 refl) (expect_all-append cs ys)

string_loop-name :
    (name ys : List ℕ) (room : ℕ)
    → All IsPlain name
    → length name ≤ room
    → string_loop room (name ++ (quote ∷ ys)) ≡ done (name, quote ∷ ys)
unfolding string_loop
string_loop-name [] ys zero p h = refl
string_loop-name [] ys (suc room) p h = refl
string_loop-name (c ∷ cs) ys zero p h = absurd (omega (arith, h))
string_loop-name (c ∷ cs) ys (suc room) p h =
    rw (p.0.0, string_loop-name cs ys room p.1 (omega (arith, h))) refl

string_loop-overflow :
    (name ys : List ℕ) (room : ℕ)
    → All IsPlain name
    → room < length name
    → string_loop room (name ++ ys) ≡ wild
unfolding string_loop
string_loop-overflow [] ys room p h = absurd (omega (arith, h))
string_loop-overflow (c ∷ cs) ys zero p h = rw p.0.0 refl
string_loop-overflow (c ∷ cs) ys (suc room) p h =
    rw (p.0.0, string_loop-overflow cs ys room p.1 (omega (arith, h))) refl

string_loop-end : (name : List ℕ) (room : ℕ) → All IsPlain name → string_loop room name ≡ wild
unfolding string_loop
string_loop-end [] room p = refl
string_loop-end (c ∷ cs) zero p = rw p.0.0 refl
string_loop-end (c ∷ cs) (suc room) p = rw (p.0.0, string_loop-end cs room p.1) refl

c_string-name : (name : List ℕ) → All IsPlain name → c_string name ≡ name
unfolding c_string
c_string-name [] p = refl
c_string-name (c ∷ cs) p = rw p.0.1 (ap (λ l. c ∷ l) (c_string-name cs p.1))

expect_string-name :
    (name ys : List ℕ)
    → All IsPlain name
    → length name ≤ string_room
    → expect_string (quote ∷ (name ++ (quote ∷ ys))) ≡ done (name, ys)
unfolding expect_string expect
expect_string-name name ys p h =
    rw (string_loop-name name ys string_room p h) (ap (λ s. done (s, ys)) (c_string-name name p))

-- A name in the file that has more than 255 bytes before a quote is written past the end of the buffer
-- of `expectString`, and so is one, `cut`, that the end of the file cuts off.
pub expect_string-overflow :
    (name ys cut : List ℕ)
    → All IsPlain name
    → string_room < length name
    → All IsPlain cut
    → (expect_string (quote ∷ (name ++ ys)) ≡ wild) × (expect_string (quote ∷ cut) ≡ wild)
unfolding expect_string expect
expect_string-overflow name ys cut p h q = (
  rw (string_loop-overflow name ys string_room p h) refl,
  rw (string_loop-end cut string_room q) refl,
)

is_nil-append : (xs : List ℕ) (y : ℕ) → is_nil (xs ++ (y ∷ [])) ≡ false
is_nil-append [] y = refl
is_nil-append (x ∷ xs) y = refl

is_nil-decimal : (n : ℕ) → is_nil (decimal n) ≡ false
unfolding decimal_loop
is_nil-decimal n = elim (Bool-cases (ltb n 10)) [
  | inl e ↦ rw e refl
  | inr e ↦ rw e (is_nil-append (decimal_loop 19 (n / 10)) (48 + n % 10))
]

digit_no_space : (x : ℕ) → isdigit x ≡ true → x == space ≡ false
digit_no_space x h = ground (arith, h)

ws-digits : (xs ys : List ℕ) → AreDigits xs → is_nil xs ≡ false → ws (xs ++ ys) ≡ xs ++ ys
unfolding ws
ws-digits [] ys d n = absurd (ground (arith, n))
ws-digits (x ∷ xs) ys d n = rw (digit_no_space x d.0) refl

ws-decimal : (n : ℕ) (ys : List ℕ) → ws (decimal n ++ ys) ≡ decimal n ++ ys
ws-decimal n ys = ws-digits (decimal n) ys (decimal_loop-AreDigits 20 n) (is_nil-decimal n)

ws-write_ticks :
    (xs after : List ℕ)
    → ws (write_ticks xs (right_bracket ∷ after)) ≡ write_ticks xs (right_bracket ∷ after)
unfolding write_ticks ws
ws-write_ticks [] after = refl
ws-write_ticks (x ∷ []) after = ws-decimal x (right_bracket ∷ after)
ws-write_ticks (x ∷ y ∷ ys) after = ws-decimal x _

read_ticks-write :
    (xs after : List ℕ)
    → All (λ x. x < 2 ^ 64) xs
    → read_ticks (length xs) (write_ticks xs (right_bracket ∷ after)) ≡ (xs, right_bracket ∷ after)
unfolding read_ticks write_ticks ws skip_comma
read_ticks-write [] after h = refl
read_ticks-write (x ∷ []) after h =
    rw (expect_word64-decimal x (right_bracket ∷ after) h.0 refl) refl
read_ticks-write (x ∷ y ∷ ys) after h =
    rw (expect_word64-decimal x (comma ∷ write_ticks (y ∷ ys) (right_bracket ∷ after)) h.0 refl) (
      ap (λ r. (x ∷ r.0, r.1))
        (ap (read_ticks (length (y ∷ ys))) (ws-write_ticks (y ∷ ys) after)
          ∙ read_ticks-write (y ∷ ys) after h.1))

word32 : (n : ℕ) → n < 2 ^ 32 → n < 2 ^ 64
word32 n h = omega (arith, h)

read_counts-write :
    (m : HpcModuleInfo) (after : List ℕ)
    → IsPrintable m
    → read_counts (m.mod_name, space ∷ write_counts m after) ≡ done (m, ws after)
unfolding read_counts ws expect
read_counts-write m after p =
    let ticks = write_ticks m.tix_arr (right_bracket ∷ after) in
    let tail = space ∷ (decimal (length m.tix_arr) ++ (space ∷ left_bracket ∷ ticks)) in
    rw
      (
        ws-decimal m.hash_no tail,
        expect_word64-decimal m.hash_no tail (word32 _ p.hash) refl,
        ws-decimal (length m.tix_arr) (space ∷ left_bracket ∷ ticks),
        expect_word64-decimal (length m.tix_arr) (space ∷ left_bracket ∷ ticks) (word32 _ p.count)
            refl,
        mod-eq_of_lt p.count,
        mod-eq_of_lt p.hash,
        ws-write_ticks m.tix_arr after,
        read_ticks-write m.tix_arr after p.ticks,
      )
      refl

-- the text of a module without the space in front of it
abbrev module_text : HpcModuleInfo → List ℕ → List ℕ
module_text m after =
    tix_module ++ (space ∷ quote ∷ (m.mod_name ++ (quote ∷ space ∷ write_counts m after)))

read_module-write :
    (m : HpcModuleInfo) (after : List ℕ)
    → IsPrintable m
    → read_module (module_text m after) ≡ done (m, ws after)
unfolding read_module ws
read_module-write m after p =
    rw
      (
        expect_all-append tix_module
            (space ∷ quote ∷ (m.mod_name ++ (quote ∷ space ∷ write_counts m after))),
        expect_string-name m.mod_name (space ∷ write_counts m after) p.plain p.fits,
      )
      (read_counts-write m after p)

-- the modules of a file, one after the other
unfoldable pub store_all : List HpcModuleInfo → List HpcModuleInfo → Outcome (List HpcModuleInfo)
store_all [] table = done table
store_all (m ∷ ms) table = store_ticks m table >>= store_all ms

-- what ends the list
abbrev end_text : List ℕ
end_text = right_bracket ∷ 10 ∷ []

bind_cong :
    (o : Outcome (List HpcModuleInfo)) (f g : List HpcModuleInfo → Outcome (List HpcModuleInfo))
    → ((t : List HpcModuleInfo) → f t ≡ g t)
    → (o >>= f) ≡ (o >>= g)
bind_cong (done t) f g h = h t
bind_cong failed f g h = refl
bind_cong wild f g h = refl

read_modules-write :
    (ms table : List HpcModuleInfo) (fuel : ℕ)
    → length ms < fuel
    → All IsPrintable ms
    → read_modules fuel table (ws (write_modules ms end_text)) ≡ store_all ms table
unfolding read_modules write_modules write_module store_all ws skip_comma
read_modules-write ms table zero h p = absurd (omega (arith, h))
read_modules-write [] table (suc fuel) h p = refl
read_modules-write (m ∷ []) table (suc fuel) h p =
    rw (read_module-write m end_text p.0) (
      bind_cong (store_ticks m table) _ _ (λ t. read_modules-write [] t fuel (omega (arith, h)) tt))
read_modules-write (m ∷ n ∷ ms) table (suc fuel) h p =
    rw (read_module-write m (comma ∷ write_modules (n ∷ ms) end_text) p.0) (
      bind_cong (store_ticks m table) _ _
        (λ t. read_modules-write (n ∷ ms) t fuel (omega (arith, h)) p.1))

length-write_ticks : (xs after : List ℕ) → length after ≤ length (write_ticks xs after)
unfolding write_ticks
length-write_ticks [] after = omega arith
length-write_ticks (x ∷ []) after = omega (arith, length-append (decimal x) after)
length-write_ticks (x ∷ y ∷ ys) after =
    let rest = write_ticks (y ∷ ys) after in
    omega (arith, length-write_ticks (y ∷ ys) after, length-append (decimal x) (comma ∷ rest))

length-write_counts :
    (m : HpcModuleInfo) (after : List ℕ) → length after ≤ length (write_counts m after)
length-write_counts m after =
    let ticks = write_ticks m.tix_arr (right_bracket ∷ after) in
    let tail = decimal (length m.tix_arr) ++ (space ∷ left_bracket ∷ ticks) in
    omega (
      arith,
      length-write_ticks m.tix_arr (right_bracket ∷ after),
      length-append (decimal m.hash_no) (space ∷ tail),
      length-append (decimal (length m.tix_arr)) (space ∷ left_bracket ∷ ticks),
    )

length-write_modules :
    (ms : List HpcModuleInfo) (after : List ℕ) → length ms ≤ length (write_modules ms after)
unfolding write_modules write_module
length-write_modules [] after = omega arith
length-write_modules (m ∷ []) after = omega arith
length-write_modules (m ∷ n ∷ ms) after = omega (
  arith,
  length-write_modules (n ∷ ms) after,
  length-write_counts m (comma ∷ write_modules (n ∷ ms) after),
  length-append m.mod_name (quote ∷ space ∷ write_counts m (comma ∷ write_modules (n ∷ ms) after)),
)

-- What `readTix` does to a table with a file that `writeTix` has written of the modules `ms` is what
-- the copying of each of these modules into the table does, one after the other, failures and wild
-- accesses included: all names, hash numbers and counts are read as they were written. The names have
-- at most 255 bytes, without quotes and zeros, and the numbers fit their fields.
pub read_tix-write_tix :
    (ms table : List HpcModuleInfo)
    → All IsPrintable ms
    → read_tix table (write_tix ms) ≡ store_all ms table
unfolding read_tix write_tix expect ws
read_tix-write_tix ms table p =
    rw (expect_all-append tix (space ∷ left_bracket ∷ write_modules ms end_text))
      (read_modules-write ms table _ (omega (arith, length-write_modules ms end_text)) p)
