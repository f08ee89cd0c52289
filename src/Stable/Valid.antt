-- ===== src/Stable/Valid.antt =====
-- rts/Stable.c: when a table of stable names is valid, and how it starts and grows.
use mathlib.Core.Path.{subst}
use ghc_xapp_fix.Prelude.{
  ℕ, zero, suc, ◌+◌, ◌-◌, ◌*◌, ◌%◌, ◌^◌, ◌≤◌, ◌<◌, ◌≡◌, ◌≢◌, ◌⊎◌, refl, ap, sym, ◌∙◌, false, Option,
  none, some, List, [], ◌∷◌, ◌==◌, ltb, if◌then◌else◌, update, All, arith, inl, inr, Bool-cases,
  ==_iff,
}
use ghc_xapp_fix.Stable.Table.{AddressTable}
use ghc_xapp_fix.Stable.{
  Pointer, null, object, entry, SnEntry, pointer_to, link_entries, StableTable,
  init_stable_ptr_table, enlarge_stable_ptr_table,
}

-- the free list: the entries `l`, each pointing to the next
abbrev pub Links : (ℕ → SnEntry) → Option ℕ → List ℕ → Type 0
Links table p [] = p ≡ none
Links table p (i ∷ l) =
    (p ≡ some i)
    × All (λ j. j ≢ i) l
    × ((q : Option ℕ) × ((table i).addr ≡ pointer_to q) × Links table q l)

abbrev pub Inside : ℕ → ℕ → Type 0
Inside size i = (0 < i) × (i < size)

pub pointer_to-ne-object : (q : Option ℕ) (a : ℕ) → pointer_to q ≡ object a → ⊥
pointer_to-ne-object none a h = ground (arith, h)
pointer_to-ne-object (some i) a h = ground (arith, h)

abbrev pub SameAddr : (ℕ → SnEntry) → (ℕ → SnEntry) → ℕ → Type 0
SameAddr t t' i = (t' i).addr ≡ (t i).addr

-- The list depends on the links of the entries that are in it.
pub Links-same :
    (t t' : ℕ → SnEntry) (p : Option ℕ) (l : List ℕ)
    → All (SameAddr t t') l
    → Links t p l
    → Links t' p l
Links-same t t' p [] same k = k
Links-same t t' p (i ∷ l) same k =
    (k.0, k.1, (k.2.0, same.0 ∙ k.2.1, Links-same t t' k.2.0 l same.1 k.2.2))

-- No entry of the list names an object.
pub Links-ne-object :
    (t : ℕ → SnEntry) (p : Option ℕ) (l : List ℕ) (i a : ℕ)
    → (t i).addr ≡ object a
    → Links t p l
    → All (λ j. j ≢ i) l
Links-ne-object t p [] i a o k = tt
Links-ne-object t p (j ∷ l) i a o k = (
  λ z. pointer_to-ne-object k.2.0 a (sym k.2.1 ∙ ap (λ j. (t j).addr) z ∙ o),
  Links-ne-object t k.2.0 l i a o k.2.2,
)

pub All-map {ℓ κ} :
    {P : ℕ → Type ℓ} {Q : ℕ → Type κ} (l : List ℕ) → ((i : ℕ) → P i → Q i) → All P l → All Q l
All-map [] f h = tt
All-map (x ∷ l) f h = (f x h.0, All-map l f h.1)

pub update_self : (t : ℕ → SnEntry) (i : ℕ) (e : SnEntry) → update t i e i ≡ e
update_self t i e = rw ((==_iff i i).1 refl) refl

pub update_other : (t : ℕ → SnEntry) (i j : ℕ) (e : SnEntry) → i ≢ j → update t i e j ≡ t j
update_other t i j e ne = elim (Bool-cases (i == j)) [
  | inl h ↦ absurd (ne ((==_iff i j).0 h))
  | inr h ↦ rw h refl
]

-- The entries before and after stay.
pub link_entries_outside :
    (n base i : ℕ) (t : ℕ → SnEntry) (free : Pointer)
    → (i < base) ⊎ (base + n ≤ i)
    → link_entries t base n free i ≡ t i
unfolding link_entries
link_entries_outside zero base i t free h = refl
link_entries_outside (suc n) base i t free h =
    link_entries_outside n base i _ (entry (base + n)) (ground arith)
    ∙ update_other t (base + n) i _ (ground arith)

pub link_entries_inside :
    (n base i : ℕ) (t : ℕ → SnEntry) (free : Pointer)
    → base ≤ i
    → i < base + n
    → (link_entries t base n free i).addr ≡ (if i + 1 == base + n then free else entry (i + 1))
unfolding link_entries
link_entries_inside zero base i t free h l = absurd (omega arith)
link_entries_inside (suc n) base i t free h l = elim (Bool-cases (i == base + n)) [
  | inl e ↦
      let here : i ≡ base + n = (==_iff i (base + n)).0 e in
      ap (λ (e : SnEntry). e.addr)
        (link_entries_outside n base i _ (entry (base + n)) (inr (omega arith))
          ∙ ap (update t (base + n) _) here
          ∙ update_self t (base + n) _)
      ∙ rw ((==_iff (i + 1) (base + suc n)).1 (omega arith)) refl
  | inr e ↦
      let ne : i ≢ base + n = λ h. ground (arith, e, h) in
      link_entries_inside n base i _ (entry (base + n)) h (omega arith) ∙ ground (arith, ne)
]

pub entries_from : ℕ → ℕ → List ℕ
entries_from base zero = []
entries_from base (suc n) = base ∷ entries_from (base + 1) n

pub entries_from-bounds :
    (n base : ℕ) → All (λ i. (base ≤ i) × (i < base + n)) (entries_from base n)
unfolding entries_from
entries_from-bounds zero base = tt
entries_from-bounds (suc n) base = (
  (omega arith, omega arith),
  All-map (entries_from (base + 1) n) (λ i h. (omega (arith, h.0), omega (arith, h.1)))
      (entries_from-bounds n (base + 1)),
)

entries_from-Links :
    (t : ℕ → SnEntry) (n base : ℕ)
    → ((i : ℕ)
        → base ≤ i
        → i < base + suc n
        → (t i).addr ≡ (if i + 1 == base + suc n then null else entry (i + 1)))
    → Links t (some base) (entries_from base (suc n))
unfolding entries_from
entries_from-Links t zero base h = (
  refl,
  tt,
  (
    none,
    h base (omega arith) (omega arith) ∙ rw ((==_iff (base + 1) (base + 1)).1 refl) refl,
    refl,
  ),
)
entries_from-Links t (suc n) base h = (
  refl,
  All-map (entries_from (base + 1) (suc n)) (λ i b e. omega (arith, b.0, e))
      (entries_from-bounds (suc n) (base + 1)),
  (
    some (base + 1),
    h base (omega arith) (omega arith) ∙ ground arith,
    entries_from-Links t n (base + 1) (λ i a b. h i (omega arith) (omega arith) ∙ ground arith),
  ),
)

-- a run of new entries makes a free list
pub new_entries-Links :
    (t : ℕ → SnEntry) (n base : ℕ)
    → Links (link_entries t base (suc n) null) (some base) (entries_from base (suc n))
new_entries-Links t n base =
    entries_from-Links (link_entries t base (suc n) null) n base
      (λ i a b. link_entries_inside (suc n) base i t null a b)

new_entries-ne-object :
    (t : ℕ → SnEntry) (n base i a : ℕ)
    → base ≤ i
    → i < base + n
    → (link_entries t base n null i).addr ≡ object a
    → ⊥
new_entries-ne-object t n base i a l u h = elim (Bool-cases (i + 1 == base + n)) [
  | inl e ↦
      pointer_to-ne-object none a (sym (link_entries_inside n base i t null l u ∙ rw e refl) ∙ h)
  | inr e ↦
      pointer_to-ne-object (some (i + 1)) a
        (sym (link_entries_inside n base i t null l u ∙ rw e refl) ∙ h)
]

module _ (T : AddressTable) where
  open T use {Table, view, alloc, alloc_view, alloc_valid}

  -- Names and objects belong together: the hash table gives the entry of each object that has one.
  pub record IsValid (s : StableTable T) : Type 0 where
    pub h : Table
    pub hash_is : s.hash ≡ some h
    pub hash_valid : T.IsValid h
    pub size : 1 < s.spt_size
    pub names :
        (a : ℕ) → view h a ≢ 0 → (view h a < s.spt_size) × ((s.table (view h a)).addr ≡ object a)
    pub named : (i a : ℕ) → 0 < i → i < s.spt_size → (s.table i).addr ≡ object a → view h a ≡ i
    pub free : List ℕ
    pub links : Links s.table s.stable_ptr_free free
    pub inside : All (Inside s.spt_size) free

  pub init-IsValid :
      (s : StableTable T) → (0 < s.spt_size → IsValid s) → IsValid (init_stable_ptr_table T s)
  unfolding init_stable_ptr_table
  init-IsValid s v = elim (Bool-cases (ltb 0 s.spt_size)) [
    | inl e ↦ rw e (v (ground (arith, e)))
    | inr e ↦ rw e (record {
      h = alloc;
      hash_is = refl;
      hash_valid = alloc_valid;
      size = omega arith;
      names = λ a ne. absurd (ne (alloc_view a));
      named = λ i a p l o.
          absurd (new_entries-ne-object s.table 63 1 i a (omega arith) (omega arith) o);
      free = entries_from 1 63;
      links = new_entries-Links s.table 62 1;
      inside =
          All-map (entries_from 1 63) (λ i h. (omega (arith, h.0), omega (arith, h.1)))
            (entries_from-bounds 63 1);
    })
  ]

  -- the table with twice as many entries, where the size does not wrap
  abbrev pub enlarged : StableTable T → StableTable T
  enlarged s = record s {
    spt_size = s.spt_size * 2;
    table = link_entries s.table s.spt_size s.spt_size null;
    stable_ptr_free = some s.spt_size;
  }

  pub enlarge-run :
      (s : StableTable T) → s.spt_size < 2 ^ 31 → enlarge_stable_ptr_table T s ≡ some (enlarged s)
  unfolding enlarge_stable_ptr_table
  enlarge-run s h =
      let size : s.spt_size * 2 % 2 ^ 32 ≡ s.spt_size * 2 = omega (arith, h) in
      let fits : ltb (s.spt_size * 2) (s.spt_size + s.spt_size) ≡ false = ground arith in
      rw (size, fits) refl

  pub enlarge-IsValid : (s : StableTable T) → IsValid s → IsValid (enlarged s)
  enlarge-IsValid s v =
      let n = s.spt_size in
      let same = λ (i : ℕ) (l : i < n). link_entries_outside n n i s.table null (inl l) in
      record {
        h = v.h;
        hash_is = v.hash_is;
        hash_valid = v.hash_valid;
        size = omega (arith, v.size);
        names = λ a ne.
            let k = v.names a ne in
            (omega (arith, k.0), ap (λ (e : SnEntry). e.addr) (same (view v.h a) k.0) ∙ k.1);
        named = λ i a p l o. elim (Bool-cases (ltb i n)) [
          | inl e ↦
              let lt : i < n = ground (arith, e) in
              v.named i a p lt (sym (ap (λ (e : SnEntry). e.addr) (same i lt)) ∙ o)
          | inr e ↦
              absurd (new_entries-ne-object s.table n n i a (ground (arith, e)) (omega arith) o)
        ];
        free = entries_from n n;
        links =
            let e : suc (n - 1) ≡ n = omega (arith, v.size) in
            subst (λ m. Links (link_entries s.table n m null) (some n) (entries_from n m)) e
              (new_entries-Links s.table (n - 1) n);
        inside =
            All-map (entries_from n n) (λ i h. (omega (arith, h.0, v.size), omega (arith, h.1)))
              (entries_from-bounds n n);
      }

  -- What is not a link may change.
  pub SameAddr-IsValid :
      (s : StableTable T) (t : ℕ → SnEntry)
      → ((i : ℕ) → SameAddr s.table t i)
      → IsValid s
      → IsValid (record s { table = t })
  SameAddr-IsValid s t same v = record {
    h = v.h;
    hash_is = v.hash_is;
    hash_valid = v.hash_valid;
    size = v.size;
    names = λ a ne. let k = v.names a ne in (k.0, same (view v.h a) ∙ k.1);
    named = λ i a p l o. v.named i a p l (sym (same i) ∙ o);
    free = v.free;
    links =
        Links-same s.table t s.stable_ptr_free v.free (All-map v.free (λ i b. same i) v.inside)
          v.links;
    inside = v.inside;
  }
