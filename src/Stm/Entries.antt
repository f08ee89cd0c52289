-- ===== src/Stm/Entries.antt =====
-- rts/STM.c: lists of entries with at most one for a variable, and the store seen through them.
use ghc_xapp_fix.Prelude.{
  ℕ, ◌+◌, ◌≤◌, ◌≡◌, refl, ap, sym, fun_ext, Bool, true, false, Option, none, some, List, [], ◌∷◌,
  ◌++◌, length, ltb, ◌==◌, if◌then◌else◌, All, update, arith, Bool-cases, inl, inr, ==_iff, ◌↔◌,
}
use mathlib.Core.List.{append_assoc}
use mathlib.Core.Option
use ghc_xapp_fix.Stm.Trec.{
  TrecEntry, TrecChunk, trec_chunk_num_entries, flatten, holds, find_entry, set_new, set_in_chunks,
  add_to_chunks,
}

-- 1 at an entry for `x`
abbrev pub is_for : ℕ → TrecEntry → ℕ
is_for x e = if e.tvar == x then 1 else 0

unfoldable pub count : ℕ → List TrecEntry → ℕ
count x [] = 0
count x (e ∷ es) = is_for x e + count x es

abbrev pub IsUnique : List TrecEntry → Type 0
IsUnique es = (x : ℕ) → count x es ≤ 1

-- the entries expect the values of `σ`
abbrev pub Agrees : (ℕ → ℕ) → List TrecEntry → Type 0
Agrees σ = All (λ e. e.expected_value ≡ σ e.tvar)

-- the value of a variable, where the entries come before the store
abbrev pub seen : Option TrecEntry → ℕ → ℕ
seen none v = v
seen (some e) v = e.new_value

abbrev pub over : List TrecEntry → (ℕ → ℕ) → ℕ → ℕ
over es σ x = seen (find_entry x es) (σ x)

pub update_same : (f : ℕ → ℕ) (i a : ℕ) → f i ≡ a → update f i a ≡ f
update_same f i a e = fun_ext (λ j. elim (Bool-cases (i == j)) [
  | inl s ↦ rw s (rw (← (==_iff i j).0 s) (sym e))
  | inr d ↦ rw d refl
])

pub count-append : (x : ℕ) (us vs : List TrecEntry) → count x (us ++ vs) ≡ count x us + count x vs
unfolding count
count-append x [] vs = omega arith
count-append x (a ∷ us) vs = omega (arith, count-append x us vs)

pub none→count : (x : ℕ) (es : List TrecEntry) → find_entry x es ≡ none → count x es ≡ 0
unfolding count find_entry
none→count x [] h = refl
none→count x (e ∷ es) h = ground (arith, none→count x es)

pub count→none : (x : ℕ) (es : List TrecEntry) → count x es ≡ 0 → find_entry x es ≡ none
unfolding count find_entry
count→none x [] h = refl
count→none x (e ∷ es) h = ground (arith, count→none x es)

-- what all entries satisfy holds of the one that is found
pub find_entry-All {κ} :
    (P : TrecEntry → Type κ) (x : ℕ) (es : List TrecEntry) (e : TrecEntry)
    → All P es
    → find_entry x es ≡ some e
    → (e.tvar ≡ x) × P e
unfolding find_entry
find_entry-All P x [] e a h = absurd (ground (arith, h))
find_entry-All P x (e0 ∷ es) e a h = elim (Bool-cases (e0.tvar == x)) [
  | inl s ↦
      let same : e0 ≡ e = Option.some_inj.0 (rw s at h) in rw (← same) ((==_iff e0.tvar x).0 s, a.0)
  | inr d ↦ find_entry-All P x es e a.1 (rw d at h)
]

-- An entry for a variable that had none.
find_entry-insert :
    (x : ℕ) (ne : TrecEntry) (us vs : List TrecEntry)
    → count ne.tvar (us ++ vs) ≡ 0
    → find_entry x (us ++ (ne ∷ vs)) ≡ (if ne.tvar == x then some ne else find_entry x (us ++ vs))
unfolding find_entry count
find_entry-insert x ne [] vs h = refl
find_entry-insert x ne (a ∷ us) vs h = ground (arith, find_entry-insert x ne us vs)

All-insert {κ} :
    (P : TrecEntry → Type κ) (ne : TrecEntry) (us vs : List TrecEntry)
    → All P (us ++ (ne ∷ vs)) ↔ (P ne × All P (us ++ vs))
All-insert P ne [] vs = ((λ h. h), (λ h. h))
All-insert P ne (a ∷ us) vs =
    let r = All-insert P ne us vs in
    ((λ h. let s = r.0 h.1 in (s.0, (h.0, s.1))), (λ h. (h.1.0, r.1 (h.0, h.1.1))))

-- `get_new_entry` puts the entry somewhere among the others.
record Inserted (ne : TrecEntry) (es es' : List TrecEntry) : Type 0 where
  us : List TrecEntry
  vs : List TrecEntry
  before : es ≡ us ++ vs
  after : es' ≡ us ++ (ne ∷ vs)

add_to_chunks-Inserted :
    (ne : TrecEntry) (cs : List TrecChunk)
    → Inserted ne (flatten cs) (flatten (add_to_chunks ne cs))
unfolding flatten add_to_chunks
add_to_chunks-Inserted ne [] = record { us = []; vs = []; before = refl; after = refl }
add_to_chunks-Inserted ne (c ∷ cs) = elim (Bool-cases (ltb (length c) trec_chunk_num_entries)) [
  | inl e ↦ record {
    us = c;
    vs = flatten cs;
    before = refl;
    after = rw e (append_assoc c (ne ∷ []) (flatten cs));
  }
  | inr e ↦ record { us = []; vs = c ++ flatten cs; before = refl; after = rw e refl }
]

pub count-add :
    (x : ℕ) (ne : TrecEntry) (cs : List TrecChunk)
    → count x (flatten (add_to_chunks ne cs)) ≡ is_for x ne + count x (flatten cs)
unfolding count
count-add x ne cs =
    let i = add_to_chunks-Inserted ne cs in
    rw (i.before, i.after, count-append x i.us i.vs, count-append x i.us (ne ∷ i.vs)) (omega arith)

pub All-add {κ} :
    (P : TrecEntry → Type κ) (ne : TrecEntry) (cs : List TrecChunk)
    → All P (flatten (add_to_chunks ne cs)) ↔ (P ne × All P (flatten cs))
All-add P ne cs =
    let i = add_to_chunks-Inserted ne cs in rw (i.before, i.after) (All-insert P ne i.us i.vs)

pub over-add :
    (σ : ℕ → ℕ) (ne : TrecEntry) (cs : List TrecChunk)
    → find_entry ne.tvar (flatten cs) ≡ none
    → over (flatten (add_to_chunks ne cs)) σ ≡ update (over (flatten cs) σ) ne.tvar ne.new_value
over-add σ ne cs h = fun_ext (λ x.
    let i = add_to_chunks-Inserted ne cs in
    let free = none→count ne.tvar (flatten cs) h in
    let at_x = find_entry-insert x ne i.us i.vs (rw i.before at free) in
    elim (Bool-cases (ne.tvar == x)) [
      | inl e ↦ rw (i.after, at_x, e) refl
      | inr e ↦ rw (i.after, at_x, e, i.before) refl
    ])

cons_if :
    (b : Bool) (e : TrecEntry) (t u v : List TrecEntry)
    → t ≡ (if b then u else v)
    → e ∷ t ≡ (if b then e ∷ u else e ∷ v)
cons_if true e t u v h = ap (λ l. e ∷ l) h
cons_if false e t u v h = ap (λ l. e ∷ l) h

set_new-append :
    (x v : ℕ) (us vs : List TrecEntry)
    → set_new x v (us ++ vs)
      ≡ (if holds (find_entry x us) then set_new x v us ++ vs else us ++ set_new x v vs)
unfolding set_new find_entry
set_new-append x v [] vs = refl
set_new-append x v (e ∷ us) vs = elim (Bool-cases (e.tvar == x)) [
  | inl h ↦ rw h refl
  | inr h ↦ rw h (cons_if (holds (find_entry x us)) e _ _ _ (set_new-append x v us vs))
]

set_in_chunks-flatten :
    (x v : ℕ) (cs : List TrecChunk) → flatten (set_in_chunks x v cs) ≡ set_new x v (flatten cs)
unfolding flatten set_in_chunks set_new
set_in_chunks-flatten x v [] = refl
set_in_chunks-flatten x v (c ∷ cs) = elim (Bool-cases (holds (find_entry x c))) [
  | inl h ↦ rw (h, set_new-append x v c (flatten cs), h) refl
  | inr h ↦ rw (h, set_new-append x v c (flatten cs), h, set_in_chunks-flatten x v cs) refl
]

count-set_new : (y x v : ℕ) (es : List TrecEntry) → count y (set_new x v es) ≡ count y es
unfolding count set_new
count-set_new y x v [] = refl
count-set_new y x v (e ∷ es) = ground (arith, count-set_new y x v es)

Agrees-set_new :
    (σ : ℕ → ℕ) (x v : ℕ) (es : List TrecEntry) → Agrees σ (set_new x v es) ↔ Agrees σ es
unfolding set_new
Agrees-set_new σ x v [] = ((λ h. h), (λ h. h))
Agrees-set_new σ x v (e ∷ es) =
    let r = Agrees-set_new σ x v es in
    elim (Bool-cases (e.tvar == x)) [
      | inl h ↦ rw h ((λ a. a), (λ a. a))
      | inr h ↦ rw h ((λ a. (a.0, r.0 a.1)), (λ a. (a.0, r.1 a.1)))
    ]

abbrev set_found : ℕ → Option TrecEntry → Option TrecEntry
set_found v none = none
set_found v (some e) = some (record e { new_value = v })

find_entry-set_new :
    (y x v : ℕ) (es : List TrecEntry)
    → find_entry y (set_new x v es)
      ≡ (if x == y then set_found v (find_entry y es) else find_entry y es)
unfolding find_entry set_new
find_entry-set_new y x v [] = ground arith
find_entry-set_new y x v (e ∷ es) = ground (arith, find_entry-set_new y x v es)

pub count-set :
    (y x v : ℕ) (cs : List TrecChunk)
    → count y (flatten (set_in_chunks x v cs)) ≡ count y (flatten cs)
count-set y x v cs = rw (set_in_chunks-flatten x v cs) (count-set_new y x v (flatten cs))

pub Agrees-set :
    (σ : ℕ → ℕ) (x v : ℕ) (cs : List TrecChunk)
    → Agrees σ (flatten (set_in_chunks x v cs)) ↔ Agrees σ (flatten cs)
Agrees-set σ x v cs = rw (set_in_chunks-flatten x v cs) (Agrees-set_new σ x v (flatten cs))

pub over-set :
    (σ : ℕ → ℕ) (x v : ℕ) (cs : List TrecChunk) (e : TrecEntry)
    → find_entry x (flatten cs) ≡ some e
    → over (flatten (set_in_chunks x v cs)) σ ≡ update (over (flatten cs) σ) x v
over-set σ x v cs e h = fun_ext (λ y.
    let found = find_entry-set_new y x v (flatten cs) in
    elim (Bool-cases (x == y)) [
      | inl same ↦ rw (set_in_chunks-flatten x v cs, found, same, ← (==_iff x y).0 same, h) refl
      | inr other ↦ rw (set_in_chunks-flatten x v cs, found, other) refl
    ])

-- The first of distinct entries, and the others.
pub over-cons :
    (σ : ℕ → ℕ) (e : TrecEntry) (es : List TrecEntry)
    → count e.tvar es ≡ 0
    → over es (update σ e.tvar e.new_value) ≡ over (e ∷ es) σ
unfolding find_entry
over-cons σ e es h = fun_ext (λ y. elim (Bool-cases (e.tvar == y)) [
  | inl same ↦
      let free = rw ((==_iff e.tvar y).0 same) at (count→none e.tvar es h) in rw (same, free) refl
  | inr other ↦ rw other refl
])

pub IsUnique-rest :
    (e : TrecEntry) (es : List TrecEntry) → IsUnique (e ∷ es) → IsUnique es × (count e.tvar es ≡ 0)
unfolding count
IsUnique-rest e es u = ((λ x. omega (arith, u x)), ground (arith, u e.tvar))
