-- ===== src/Hpc.antt =====
-- rts/Hpc.c: the files in which the coverage counts of a program are kept from one run to the next.
-- A file is the list of its bytes from the current one on (`tix_ch` is the first, and EOF after the
-- last). The table of the registered modules is the list `modules`, searched by name; what the
-- library `rts/Hash.c` does for it stands in the module `Hash`.
pub mod Numbers
pub mod Text
pub mod Reread
mod Tests
use ghc_xapp_fix.Prelude.{
  ℕ, zero, suc, ◌+◌, ◌-◌, ◌*◌, ◌/◌, ◌%◌, ◌^◌, Bool, true, false, ◌&&◌, List, [], ◌∷◌, ◌++◌, length,
  ltb, leb, ◌==◌, if◌then◌else◌, same_text, Option, none, some,
}

-- A result; `failed` is the exit with a message, and `wild` an access outside of an array, or through
-- a null pointer.
pub data Outcome (A : Type 0) : Type 0 where
  done : A → Outcome A
  failed : Outcome A
  wild : Outcome A

infixl 20 ◌>>=◌
abbrev pub ◌>>=◌ : {A B : Type 0} → Outcome A → (A → Outcome B) → Outcome B
done a >>= f = f a
failed >>= f = failed
wild >>= f = wild

-- `tickCount` is the length of `tix_arr`.
pub record HpcModuleInfo : Type 0 where
  pub mod_name : List ℕ
  pub hash_no : ℕ
  pub tix_arr : List ℕ

-- the bytes that the format uses
abbrev pub space : ℕ
space = 32

abbrev pub quote : ℕ
quote = 34

abbrev pub comma : ℕ
comma = 44

abbrev pub left_bracket : ℕ
left_bracket = 91

abbrev pub right_bracket : ℕ
right_bracket = 93

-- `Tix`
abbrev pub tix : List ℕ
tix = 84 ∷ 105 ∷ 120 ∷ []

-- `TixModule`
abbrev pub tix_module : List ℕ
tix_module = 84 ∷ 105 ∷ 120 ∷ 77 ∷ 111 ∷ 100 ∷ 117 ∷ 108 ∷ 101 ∷ []

unfoldable pub expect : ℕ → List ℕ → Outcome (List ℕ)
expect c [] = failed
expect c (x ∷ xs) = if x == c then done xs else failed

-- a call of `expect` for each byte
unfoldable pub expect_all : List ℕ → List ℕ → Outcome (List ℕ)
expect_all [] input = done input
expect_all (c ∷ cs) input = expect c input >>= expect_all cs

unfoldable pub ws : List ℕ → List ℕ
ws [] = []
ws (x ∷ xs) = if x == space then ws xs else x ∷ xs

-- the buffer has room for 255 bytes and the zero at the end
abbrev pub string_room : ℕ
string_room = 255

abbrev pub with_byte : ℕ → List ℕ × List ℕ → Outcome (List ℕ × List ℕ)
with_byte x r = done (x ∷ r.0, r.1)

-- The loop of `expectString`; at the end of the file it goes on until the buffer is full.
unfoldable pub string_loop : ℕ → List ℕ → Outcome (List ℕ × List ℕ)
string_loop room [] = wild
string_loop zero (x ∷ xs) = if x == quote then done ([], x ∷ xs) else wild
string_loop (suc room) (x ∷ xs) =
    let rest = string_loop room xs >>= with_byte x in if x == quote then done ([], x ∷ xs) else rest

-- `strcpy`
unfoldable pub c_string : List ℕ → List ℕ
c_string [] = []
c_string (x ∷ xs) = if x == 0 then [] else x ∷ c_string xs

abbrev pub string_end : List ℕ × List ℕ → Outcome (List ℕ × List ℕ)
string_end r = expect quote (r.1) >>= (λ input. done (c_string (r.0), input))

unfoldable pub expect_string : List ℕ → Outcome (List ℕ × List ℕ)
expect_string input = expect quote input >>= string_loop string_room >>= string_end

abbrev pub isdigit : ℕ → Bool
isdigit c = leb 48 c && leb c 57

unfoldable pub word_loop : ℕ → List ℕ → ℕ × List ℕ
word_loop tmp [] = (tmp, [])
word_loop tmp (x ∷ xs) =
    let rest = word_loop ((tmp * 10 + (x - 48)) % 2 ^ 64) xs in
    if isdigit x then rest else (tmp, x ∷ xs)

abbrev pub expect_word64 : List ℕ → ℕ × List ℕ
expect_word64 = word_loop 0

-- a comma, where there is one
unfoldable pub skip_comma : List ℕ → List ℕ
skip_comma [] = []
skip_comma (x ∷ xs) = if x == comma then ws xs else x ∷ xs

unfoldable pub read_ticks : ℕ → List ℕ → List ℕ × List ℕ
read_ticks zero input = ([], input)
read_ticks (suc n) input =
    let w = expect_word64 input in
    let rest = read_ticks n (skip_comma (ws (w.1))) in (w.0 ∷ rest.0, rest.1)

-- what follows the name of a module
unfoldable pub read_counts : List ℕ × List ℕ → Outcome (HpcModuleInfo × List ℕ)
read_counts (name, input) =
    let hash = expect_word64 (ws input) in
    let count = expect_word64 (ws (hash.1)) in
    expect left_bracket (ws (count.1)) >>= (λ start.
      let ticks = read_ticks (count.0 % 2 ^ 32) (ws start) in
      expect right_bracket (ticks.1) >>= (λ end.
        done (record { mod_name = name; hash_no = hash.0 % 2 ^ 32; tix_arr = ticks.0 }, ws end)))

abbrev pub string_after : List ℕ → Outcome (List ℕ × List ℕ)
string_after input = expect_string (ws input)

unfoldable pub read_module : List ℕ → Outcome (HpcModuleInfo × List ℕ)
read_module input = expect_all tix_module input >>= string_after >>= read_counts

abbrev pub with_tick : ℕ → List ℕ → Outcome (List ℕ)
with_tick x xs = done (x ∷ xs)

-- the counts of the file, copied into the array of the module
unfoldable pub copy_ticks : List ℕ → List ℕ → Outcome (List ℕ)
copy_ticks [] old = done old
copy_ticks (x ∷ xs) [] = wild
copy_ticks (x ∷ xs) (y ∷ ys) = copy_ticks xs ys >>= with_tick x

abbrev pub with_ticks : HpcModuleInfo → List HpcModuleInfo → List ℕ → Outcome (List HpcModuleInfo)
with_ticks m ms ticks = done (record m { tix_arr = ticks } ∷ ms)

abbrev pub with_module : HpcModuleInfo → List HpcModuleInfo → Outcome (List HpcModuleInfo)
with_module m ms = done (m ∷ ms)

-- The lookup, and what is done with the module that it finds. It is not the result of the lookup that
-- is compared with `NULL`, so a module that is not in the table leads to an access through it.
unfoldable pub store_ticks : HpcModuleInfo → List HpcModuleInfo → Outcome (List HpcModuleInfo)
store_ticks tmp [] = wild
store_ticks tmp (m ∷ ms) =
    let rest = store_ticks tmp ms >>= with_module m in
    if same_text m.mod_name tmp.mod_name
    then (if tmp.hash_no == m.hash_no
        then copy_ticks tmp.tix_arr m.tix_arr >>= with_ticks m ms
        else failed)
    else rest

-- the loop of `readTix`; each round reads a module, or fails
unfoldable pub read_modules : ℕ → List HpcModuleInfo → List ℕ → Outcome (List HpcModuleInfo)
read_modules zero table input = failed
read_modules (suc fuel) table [] = failed
read_modules (suc fuel) table (x ∷ xs) =
    let next = read_module (x ∷ xs) >>= (λ r.
      store_ticks (r.0) table >>= (λ table'. read_modules fuel table' (skip_comma (r.1)))) in
    if x == right_bracket then done table else next

abbrev pub list_start : List ℕ → Outcome (List ℕ)
list_start input = expect left_bracket (ws input)

unfoldable pub read_tix : List HpcModuleInfo → List ℕ → Outcome (List HpcModuleInfo)
read_tix table input =
    expect_all tix (ws input)
    >>= list_start
    >>= (λ start. read_modules (suc (length input)) table (ws start))

-- the decimal digits of a number below 10 ^ rounds
unfoldable pub decimal_loop : ℕ → ℕ → List ℕ
decimal_loop zero n = []
decimal_loop (suc rounds) n =
    let front = decimal_loop rounds (n / 10) in
    if ltb n 10 then (48 + n) ∷ [] else front ++ ((48 + n % 10) ∷ [])

-- `%u` and `FMT_Word64`: a word of 64 bits has at most 20 digits
abbrev pub decimal : ℕ → List ℕ
decimal = decimal_loop 20

-- The writers put their text in front of `after`, what is written next.
unfoldable pub write_ticks : List ℕ → List ℕ → List ℕ
write_ticks [] after = after
write_ticks (x ∷ []) after = decimal x ++ after
write_ticks (x ∷ y ∷ ys) after = decimal x ++ (comma ∷ write_ticks (y ∷ ys) after)

abbrev pub write_counts : HpcModuleInfo → List ℕ → List ℕ
write_counts m after =
    decimal m.hash_no
    ++ (space
        ∷ (decimal (length m.tix_arr)
            ++ (space ∷ left_bracket ∷ write_ticks m.tix_arr (right_bracket ∷ after))))

unfoldable pub write_module : HpcModuleInfo → List ℕ → List ℕ
write_module m after =
    space ∷ (tix_module ++ (space ∷ quote ∷ (m.mod_name ++ (quote ∷ space ∷ write_counts m after))))

unfoldable pub write_modules : List HpcModuleInfo → List ℕ → List ℕ
write_modules [] after = after
write_modules (m ∷ []) after = write_module m after
write_modules (m ∷ n ∷ ms) after = write_module m (comma ∷ write_modules (n ∷ ms) after)

unfoldable pub write_tix : List HpcModuleInfo → List ℕ
write_tix ms = tix ++ (space ∷ left_bracket ∷ write_modules ms (right_bracket ∷ 10 ∷ []))

unfoldable pub find_module : List ℕ → List HpcModuleInfo → Option HpcModuleInfo
find_module name [] = none
find_module name (m ∷ ms) = if same_text m.mod_name name then some m else find_module name ms

unfoldable pub zeros : ℕ → List ℕ
zeros zero = []
zeros (suc n) = 0 ∷ zeros n

-- The array of a new module is cleared, and that of a known one gets its counts from the file.
abbrev pub found_module :
    List ℕ → ℕ → ℕ → List HpcModuleInfo → Option HpcModuleInfo → Outcome (List HpcModuleInfo)
found_module name count hash table none =
    done (record { mod_name = name; hash_no = hash; tix_arr = zeros count } ∷ table)
found_module name count hash table (some m) =
    if length m.tix_arr == count then (if m.hash_no == hash then done table else failed) else failed

unfoldable pub hs_hpc_module : List ℕ → ℕ → ℕ → List HpcModuleInfo → Outcome (List HpcModuleInfo)
hs_hpc_module name count hash table = found_module name count hash table (find_module name table)
