-- ===== src/Retainer.antt =====
-- rts/RetainerSet.c, rts/RetainerSet.h: the sets of retainers, each of which exists once. A retainer
-- is its address, and so a number.
pub mod Member
pub mod Elements
pub mod Chains
pub mod Unique
mod Tests
use mathlib.Core.Option
use ghc_xapp_fix.Prelude.{
  ℕ, zero, suc, ◌+◌, ◌-◌, ◌/◌, ◌%◌, ◌^◌, Bool, true, false, ◌&&◌, Option, none, some, List, [], ◌∷◌,
  ltb, ◌==◌, if◌then◌else◌, update, length, same_text,
}

-- `element` with its `num`, and the fields that are read. The set stands at an address of the
-- arena, which the number `id` stands for here: each set that is made gets another one.
pub record RetainerSet : Type 0 where
  pub hash_key : ℕ
  pub id : ℕ
  pub element : List ℕ

-- a pointer to a set, `&rs_MANY` apart
pub data SetPointer : Type 0 where
  rs_many : SetPointer
  set : RetainerSet → SetPointer

abbrev pub hash_table_size : ℕ
hash_table_size = 255

abbrev pub binary_search_threshold : ℕ
binary_search_threshold = 8

-- `hashTable`, its chains as lists, and `nextId`
pub record AllSets : Type 0 where
  pub hash_table : ℕ → List RetainerSet
  pub next_id : ℕ

-- The old table, if there is one, is given up.
pub initialize_all_retainer_set : AllSets
initialize_all_retainer_set = record { hash_table = λ _. []; next_id = 2 }

abbrev pub hash : ℕ → ℕ
hash hk = hk % hash_table_size

-- the loop of `isMember` for small sets
unfoldable pub member_scan : ℕ → List ℕ → Bool
member_scan r [] = false
member_scan r (ri ∷ rest) =
    let later = member_scan r rest in if r == ri then true else (if ltb r ri then false else later)

-- a read of `element[i]`
abbrev pub element_at : List ℕ → ℕ → Option ℕ
element_at [] i = none
element_at (x ∷ xs) zero = some x
element_at (x ∷ xs) (suc i) = element_at xs i

-- The loop of `isMember` for large sets, with fuel. `right` is one more than in C, where it may be
-- -1; `none` is a read outside the array, a sum of the two beyond an `int`, or too little fuel.
unfoldable pub member_search : ℕ → ℕ → List ℕ → ℕ → ℕ → Option Bool
member_search r zero element left right = none
member_search r (suc fuel) element left right =
    let i = (left + right - 1) / 2 in
    let lower = member_search r fuel element left i in
    let upper = member_search r fuel element (i + 1) right in
    if ltb left right
    then (if ltb (left + right - 1) (2 ^ 31)
        then elim (element_at element i) [
          | none ↦ none
          | some ri ↦ if r == ri then some true else (if ltb r ri then lower else upper)
        ]
        else none)
    else some false

unfoldable pub is_member : ℕ → SetPointer → Option Bool
is_member r rs_many = some true
is_member r (set rs) =
    if ltb (length rs.element) binary_search_threshold
    then some (member_scan r rs.element)
    else member_search r (length rs.element + 1) rs.element 0 (length rs.element)

-- the test of `singleton` on a set of the chain
unfoldable pub is_singleton : ℕ → List ℕ → Bool
is_singleton r [] = false
is_singleton r (e ∷ []) = e == r
is_singleton r (e ∷ e' ∷ rest) = false

-- the first set of a chain that passes a test
unfoldable pub find_set : (List ℕ → Bool) → List RetainerSet → Option RetainerSet
find_set test [] = none
find_set test (rs ∷ link) =
    let later = find_set test link in if test rs.element then some rs else later

-- a new set at the head of its chain
abbrev pub new_set : AllSets → ℕ → List ℕ → SetPointer × AllSets
new_set s hk element =
    let rs : RetainerSet = record { hash_key = hk; id = s.next_id; element = element } in
    (
      set rs,
      record {
        hash_table = update s.hash_table (hash hk) (rs ∷ s.hash_table (hash hk));
        next_id = s.next_id + 1;
      },
    )

abbrev pub found_or_new : AllSets → ℕ → List ℕ → Option RetainerSet → SetPointer × AllSets
found_or_new s hk element none = new_set s hk element
found_or_new s hk element (some rs) = (set rs, s)

unfoldable pub singleton : AllSets → ℕ → SetPointer × AllSets
singleton s r =
    found_or_new s (r % 2 ^ 64) (r ∷ [])
      (find_set (is_singleton r) (s.hash_table (hash (r % 2 ^ 64))))

-- the number `nl` of elements before `r`
unfoldable pub count_less : ℕ → List ℕ → ℕ
count_less r [] = 0
count_less r (e ∷ rest) = let n = count_less r rest in if ltb r e then 0 else suc n

-- The test of `addElement` on a set of a chain: the sizes, the first `nl` elements, `r`, and the rest.
unfoldable pub same_around : ℕ → ℕ → List ℕ → List ℕ → Bool
same_around nl r rs [] = false
same_around zero r rs (e ∷ nrs) = r == e && same_text rs nrs
same_around (suc nl) r [] (e ∷ nrs) = false
same_around (suc nl) r (x ∷ rs) (e ∷ nrs) = x == e && same_around nl r rs nrs

unfoldable pub is_augmented : ℕ → ℕ → List ℕ → List ℕ → Bool
is_augmented nl r rs nrs = length rs + 1 == length nrs && same_around nl r rs nrs

-- the three copies that fill a new set
unfoldable pub augment : ℕ → ℕ → List ℕ → List ℕ
augment zero r rs = r ∷ rs
augment (suc nl) r [] = r ∷ []
augment (suc nl) r (x ∷ rs) = x ∷ augment nl r rs

-- `max` is `RtsFlags.ProfFlags.maxRetainerSetSize`; a key is a word.
abbrev pub hash_key_add_element : ℕ → RetainerSet → ℕ
hash_key_add_element r rs = (r + rs.hash_key) % 2 ^ 64

unfoldable pub add_element : ℕ → AllSets → ℕ → SetPointer → SetPointer × AllSets
add_element max s r rs_many = (rs_many, s)
add_element max s r (set rs) =
    let nl = count_less r rs.element in
    let hk = hash_key_add_element r rs in
    if length rs.element == max
    then (rs_many, s)
    else found_or_new s hk (augment nl r rs.element)
        (find_set (is_augmented nl r rs.element) (s.hash_table (hash hk)))
