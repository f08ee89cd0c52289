-- ===== src/Retainer/Unique.antt =====
-- rts/RetainerSet.c: `singleton` and `addElement` make each set once.
use mathlib.Core.Path.{subst}
use ghc_xapp_fix.Prelude.{
  ℕ, ◌+◌, ◌%◌, ◌^◌, ◌≤◌, ◌<◌, ◌≡◌, ◌≢◌, ◌↔◌, ◌⊎◌, refl, ap, sym, ◌∙◌, Bool, true, false, Option,
  none, some, List, [], ◌∷◌, ◌==◌, if◌then◌else◌, length, arith, inl, inr, Bool-cases, ==_iff,
}
use ghc_xapp_fix.Retainer.{
  RetainerSet, SetPointer, rs_many, set, AllSets, initialize_all_retainer_set, hash, find_set,
  found_or_new, singleton, is_singleton, count_less, is_augmented, augment, hash_key_add_element,
  add_element,
}
use ghc_xapp_fix.Retainer.Member.{IsSorted, has}
use ghc_xapp_fix.Retainer.Elements.{
  insert, augment-insert, is_augmented-insert, is_singleton-eq, length-insert, insert-IsSorted,
  insert_comm, has-insert, key, key-insert,
}
use ghc_xapp_fix.Retainer.Chains.{
  InChain, Exists, IsValid, Keeps, Finds, find_set-Finds, made, made-Exists, made-Keeps,
  made-IsValid,
}

-- a set with the elements `e`, in a valid table to which no set was lost
pub record Has (s : AllSets) (e : List ℕ) (r : SetPointer × AllSets) : Type 0 where
  pub rs : RetainerSet
  pub pointer : r.0 ≡ set rs
  pub valid : IsValid r.1
  pub exists : Exists r.1 rs
  pub elements : rs.element ≡ e
  pub keeps : Keeps s r.1

-- the end of `singleton` and of `addElement`, for a test that only the elements `e` pass
found-Has :
    (s : AllSets) (test : List ℕ → Bool) (e : List ℕ)
    → IsValid s
    → IsSorted e
    → ((xs : List ℕ) → (test xs ≡ true) ↔ (xs ≡ e))
    → (o : Option RetainerSet) → find_set test (s.hash_table (hash (key e))) ≡ o
    → Has s e (found_or_new s (key e) e o)
found-Has s test e v sorted iff none run =
    let f : Finds test (s.hash_table (hash (key e))) none =
      subst (Finds test (s.hash_table (hash (key e)))) run
        (find_set-Finds test (s.hash_table (hash (key e)))) in
    let fresh : (rs : RetainerSet) → Exists s rs → rs.element ≢ e = λ rs h same.
      let k : rs.hash_key ≡ key e = v.keyed rs h ∙ ap key same in
      let yes_it : test rs.element ≡ true = (iff rs.element).1 same in
      ground (arith, yes_it, f rs (subst (λ k. InChain rs (s.hash_table (hash k))) k h)) in
    record {
      rs = made s e v sorted fresh;
      pointer = refl;
      valid = made-IsValid s e v sorted fresh;
      exists = made-Exists s e v sorted fresh;
      elements = refl;
      keeps = made-Keeps s e v sorted fresh;
    }
found-Has s test e v sorted iff (some rs) run =
    let f : Finds test (s.hash_table (hash (key e))) (some rs) =
      subst (Finds test (s.hash_table (hash (key e)))) run
        (find_set-Finds test (s.hash_table (hash (key e)))) in
    record {
      rs = rs;
      pointer = refl;
      valid = v;
      exists = subst (λ b. InChain rs (s.hash_table b)) (sym (v.home (hash (key e)) rs f.0)) f.0;
      elements = (iff rs.element).0 f.1;
      keeps = λ x h. h;
    }

search-Has :
    (s : AllSets) (test : List ℕ → Bool) (hk : ℕ) (e0 e : List ℕ)
    → IsValid s
    → IsSorted e
    → ((xs : List ℕ) → (test xs ≡ true) ↔ (xs ≡ e))
    → hk ≡ key e
    → e0 ≡ e
    → Has s e (found_or_new s hk e0 (find_set test (s.hash_table (hash hk))))
search-Has s test hk e0 e v sorted iff k same =
    subst (λ hk. Has s e (found_or_new s hk e0 (find_set test (s.hash_table (hash hk))))) (sym k)
      (subst
        (λ e0. Has s e (found_or_new s (key e) e0 (find_set test (s.hash_table (hash (key e))))))
        (sym same)
        (found-Has s test e v sorted iff (find_set test (s.hash_table (hash (key e)))) refl))

pub singleton-Has : (s : AllSets) (r : ℕ) → IsValid s → Has s (r ∷ []) (singleton s r)
unfolding singleton key
singleton-Has s r v =
    search-Has s (is_singleton r) (r % 2 ^ 64) (r ∷ []) (r ∷ []) v (tt, tt) (is_singleton-eq r)
      (omega arith) refl

pub add_element-Has :
    (max : ℕ) (s : AllSets) (r : ℕ) (rs : RetainerSet)
    → IsValid s
    → Exists s rs
    → has r rs.element ≡ false
    → length rs.element ≢ max
    → Has s (insert r rs.element) (add_element max s r (set rs))
unfolding add_element
add_element-Has max s r rs v h n small =
    let other : (length rs.element == max) ≡ false = ground (arith, small) in
    let k : hash_key_add_element r rs ≡ key (insert r rs.element) =
      ap (λ k. (r + k) % 2 ^ 64) (v.keyed rs h) ∙ sym (key-insert r rs.element) in
    subst
      (λ b. Has s (insert r rs.element) (
        if b
        then (rs_many, s)
        else found_or_new s (hash_key_add_element r rs)
            (augment (count_less r rs.element) r rs.element)
            (find_set (is_augmented (count_less r rs.element) r rs.element)
              (s.hash_table (hash (hash_key_add_element r rs))))))
      (sym other)
      (search-Has s (is_augmented (count_less r rs.element) r rs.element)
        (hash_key_add_element r rs) (augment (count_less r rs.element) r rs.element)
        (insert r rs.element) v (insert-IsSorted r rs.element (v.sorted rs h) n)
        (is_augmented-insert r rs.element) k (augment-insert r rs.element))

add_element-many :
    (max : ℕ) (s : AllSets) (r : ℕ) (rs : RetainerSet)
    → length rs.element ≡ max
    → add_element max s r (set rs) ≡ (rs_many, s)
unfolding add_element
add_element-many max s r rs e = rw ((==_iff (length rs.element) max).1 e) refl

pub start-IsValid : IsValid initialize_all_retainer_set
unfolding initialize_all_retainer_set
start-IsValid = record {
  home = λ b rs h. absurd h;
  keyed = λ rs h. absurd h;
  sorted = λ rs h. absurd h;
  below = λ rs h. absurd h;
  once = λ a b h k e. absurd h;
  identity = λ a b h k e. absurd h;
}

-- For a set of a valid table that is not larger than `maxRetainerSetSize`, as the assertion in
-- `addElement` has it, and a retainer that it does not have: if the set is full, `addElement` gives
-- `rs_MANY` and leaves the table; otherwise it gives a set of the table with one element more,
-- which is not larger than `maxRetainerSetSize` either, and the table stays valid, with all the
-- sets it had.
pub add_element-Adds :
    (max : ℕ) (s : AllSets) (r : ℕ) (rs : RetainerSet)
    → IsValid s
    → Exists s rs
    → has r rs.element ≡ false
    → length rs.element ≤ max
    → ((length rs.element ≡ max) × (add_element max s r (set rs) ≡ (rs_many, s)))
      ⊎ ((length (insert r rs.element) ≤ max)
          × Has s (insert r rs.element) (add_element max s r (set rs)))
add_element-Adds max s r rs v h n le = elim (Bool-cases (length rs.element == max)) [
  | inl e ↦
      let full = (==_iff (length rs.element) max).0 e in
      inl (full, add_element-many max s r rs full)
  | inr e ↦
      let small : length rs.element ≢ max = λ z. ground (arith, e, z) in
      inr (
        omega (arith, le, small, length-insert r rs.element),
        add_element-Has max s r rs v h n small,
      )
]

order_end :
    (max : ℕ) (s : AllSets) (q r : ℕ) (rs a b c d : RetainerSet)
    → (add_element max s r (set rs)).0 ≡ set a
    → (add_element max (add_element max s r (set rs)).1 q (set a)).0 ≡ set b
    → (let t = (add_element max (add_element max s r (set rs)).1 q (set a)).1 in
        ((add_element max t q (set rs)).0 ≡ set c)
        × ((add_element max (add_element max t q (set rs)).1 r (set c)).0 ≡ set d))
    → b ≡ d
    → (let x = add_element max s r (set rs) in
        let y = add_element max x.1 q x.0 in
        let z = add_element max y.1 q (set rs) in let w = add_element max z.1 r z.0 in y.0 ≡ w.0)
order_end max s q r rs a b c d pa pb (pc, pd) same =
    let x = add_element max s r (set rs) in
    let y = λ (p : SetPointer). add_element max x.1 q p in
    let z = λ (p : SetPointer). add_element max (y p).1 q (set rs) in
    ap (λ p. (y p).0) pa
    ∙ pb
    ∙ ap set same
    ∙ sym pd
    ∙ ap (λ p. (add_element max (z (set a)).1 r p).0) (sym pc)
    ∙ ap (λ p. (add_element max (z p).1 r (z p).0).0) (sym pa)

-- From a set of a valid table that has neither of two different retainers, and room for both: the
-- set to which the first is added and then the second, and the one to which later the second is
-- added and then the first, are one and the same.
pub add_element-order :
    (max : ℕ) (s : AllSets) (r q : ℕ) (rs : RetainerSet)
    → IsValid s
    → Exists s rs
    → has r rs.element ≡ false
    → has q rs.element ≡ false
    → r ≢ q
    → length rs.element + 1 < max
    → (let a = add_element max s r (set rs) in
        let b = add_element max a.1 q a.0 in
        let c = add_element max b.1 q (set rs) in
        let d = add_element max c.1 r c.0 in (b.0 ≡ d.0) × (b.0 ≢ rs_many))
add_element-order max s r q rs v h nr nq ne room =
    let a = add_element-Has max s r rs v h nr (λ z. omega (arith, z, room)) in
    let q-a : has q a.rs.element ≡ false =
      ap (has q) a.elements ∙ has-insert q r rs.element (λ z. ne (sym z)) ∙ nq in
    let room_a : length a.rs.element ≢ max =
      λ z. omega (arith, ap length a.elements, length-insert r rs.element, z, room) in
    let s1 = (add_element max s r (set rs)).1 in
    let b = add_element-Has max s1 q a.rs a.valid a.exists q-a room_a in
    let s2 = (add_element max s1 q (set a.rs)).1 in
    let c =
      add_element-Has max s2 q rs b.valid (b.keeps rs (a.keeps rs h)) nq
        (λ z. omega (arith, z, room)) in
    let r-c : has r c.rs.element ≡ false =
      ap (has r) c.elements ∙ has-insert r q rs.element ne ∙ nr in
    let room_c : length c.rs.element ≢ max =
      λ z. omega (arith, ap length c.elements, length-insert q rs.element, z, room) in
    let s3 = (add_element max s2 q (set rs)).1 in
    let d = add_element-Has max s3 r c.rs c.valid c.exists r-c room_c in
    let same : b.rs ≡ d.rs =
      d.valid.once b.rs d.rs (d.keeps b.rs (c.keeps b.rs b.exists)) d.exists (
        b.elements
        ∙ ap (insert q) a.elements
        ∙ sym (insert_comm r q rs.element ne)
        ∙ ap (insert r) (sym c.elements)
        ∙ sym d.elements) in
    let first : (add_element max s1 q (add_element max s r (set rs)).0).0 ≡ set b.rs =
      ap (λ p. (add_element max s1 q p).0) a.pointer ∙ b.pointer in
    (
      order_end max s q r rs a.rs b.rs c.rs d.rs a.pointer b.pointer (c.pointer, d.pointer) same,
      λ z. ground (arith, sym first ∙ z),
    )
