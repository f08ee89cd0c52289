-- ===== src/Stm/Merge.antt =====
-- rts/STM.c: `merge_update_into` and `merge_read_into`, and their loops, on coherent records.
use ghc_xapp_fix.Prelude.{
  ℕ, ◌≡◌, ◌↔◌, refl, ap, sym, ◌∙◌, none, some, List, [], ◌∷◌, ◌==◌, update, arith, inl, inr,
  Bool-cases, Option-cases, ==_iff,
}
use ghc_xapp_fix.Stm.Trec.{
  TrecEntry, Trec, entries, find_entry, get_new_entry, merge_expected, merge_update_into,
  merge_read_into, merge_updates, merge_reads,
}
use ghc_xapp_fix.Stm.Entries.{
  IsUnique, Agrees, over, none→count, count-add, All-add, over-add, find_entry-All, update_same,
  count-set, Agrees-set, over-set, over-cons, IsUnique-rest,
}
use ghc_xapp_fix.Stm.Nest.{over-none}

-- an entry that the record `t` may hold
abbrev pub Expects : (ℕ → ℕ) → TrecEntry → Type 0
Expects σ e = e.expected_value ≡ σ e.tvar

-- `t'` expects what `t` and the entries `es` do.
pub record Merges (t : Trec) (es : List TrecEntry) (t' : Trec) : Type 0 where
  pub unique : IsUnique (entries t) → IsUnique (entries t')
  pub agrees : (ρ : ℕ → ℕ) → Agrees ρ (entries t') ↔ (Agrees ρ (entries t) × Agrees ρ es)
  pub state : t'.state ≡ t.state

pub Merges-none : (t : Trec) → Merges t [] t
Merges-none t = record { unique = λ u. u; agrees = λ ρ. ((λ a. (a, tt)), (λ a. a.0)); state = refl }

pub Merges-both :
    (t t' t'' : Trec) (e : TrecEntry) (es : List TrecEntry)
    → Merges t (e ∷ []) t'
    → Merges t' es t''
    → Merges t (e ∷ es) t''
Merges-both t t' t'' e es m n = record {
  unique = λ u. n.unique (m.unique u);
  agrees = λ ρ. (
    (λ a. let b = (n.agrees ρ).0 a in let c = (m.agrees ρ).0 b.0 in (c.0, (c.1.0, b.1))),
    (λ a. (n.agrees ρ).1 ((m.agrees ρ).1 (a.0, (a.1.0, tt)), a.1.1)),
  );
  state = n.state ∙ m.state;
}

Merges-add :
    (t : Trec) (ne : TrecEntry)
    → find_entry ne.tvar (entries t) ≡ none
    → Merges t (ne ∷ []) (get_new_entry t ne)
Merges-add t ne h = record {
  unique = λ u y. ground (arith, u y, count-add y ne t.chunks, none→count ne.tvar (entries t) h);
  agrees = λ ρ.
      let r = All-add (Expects ρ) ne t.chunks in
      ((λ a. let b = r.0 a in (b.1, (b.0, tt))), (λ a. r.1 (a.1.0, a.0)));
  state = refl;
}

-- an entry for the same variable is there
found-Expects :
    (τ ρ : ℕ → ℕ) (es : List TrecEntry) (ne e : TrecEntry)
    → Agrees τ es
    → Expects τ ne
    → find_entry ne.tvar es ≡ some e
    → (e.expected_value ≡ ne.expected_value) × (Agrees ρ es → Expects ρ ne)
found-Expects τ ρ es ne e a x h =
    let r = find_entry-All (Expects τ) ne.tvar es e a h in
    let same : e.expected_value ≡ ne.expected_value = r.1 ∙ ap τ r.0 ∙ sym x in
    (same, λ b. sym same ∙ (find_entry-All (Expects ρ) ne.tvar es e b h).1 ∙ ap ρ r.0)

merge_expected-same :
    (expected : ℕ) (e : TrecEntry) (t : Trec)
    → e.expected_value ≡ expected
    → merge_expected expected e t ≡ t
merge_expected-same expected e t h = rw ((==_iff e.expected_value expected).1 h) refl

module _ (τ : ℕ → ℕ) (t : Trec) where
  pub merge_update-Merges :
      (e : TrecEntry)
      → Agrees τ (entries t)
      → Expects τ e
      → Merges t (e ∷ []) (merge_update_into t e)
        × ((σ : ℕ → ℕ)
            → over (entries (merge_update_into t e)) σ
              ≡ update (over (entries t) σ) e.tvar e.new_value)
  unfolding merge_update_into
  merge_update-Merges e a x = elim (Option-cases (find_entry e.tvar (entries t))) [
    | inl h ↦ rw h (Merges-add t e h, λ σ. over-add σ e t.chunks h)
    | inr (e', h) ↦
        let same = found-Expects τ τ (entries t) e e' a x h in
        rw (h, merge_expected-same e.expected_value e' t same.0)
          (
            record {
              unique = λ u y. rw (count-set y e.tvar e.new_value t.chunks) (u y);
              agrees = λ ρ.
                  let r = Agrees-set ρ e.tvar e.new_value t.chunks in
                  (
                    (λ b. (r.0 b, ((found-Expects τ ρ (entries t) e e' a x h).1 (r.0 b), tt))),
                    (λ b. r.1 b.0),
                  );
              state = refl;
            },
            λ σ. over-set σ e.tvar e.new_value t.chunks e' h,
          )
  ]

  pub merge_read-Merges :
      (e : TrecEntry)
      → Agrees τ (entries t)
      → Expects τ e
      → Merges t (e ∷ []) (merge_read_into t e.tvar e.expected_value)
        × ((σ : ℕ → ℕ)
            → Expects σ e
            → over (entries (merge_read_into t e.tvar e.expected_value)) σ ≡ over (entries t) σ)
  unfolding merge_read_into
  merge_read-Merges e a x = elim (Option-cases (find_entry e.tvar (entries t))) [
    | inl h ↦
        let ne = record e { new_value = e.expected_value } in
        let m = Merges-add t ne h in
        rw h (
          record { unique = m.unique; agrees = m.agrees; state = m.state },
          λ σ y.
              over-add σ ne t.chunks h
              ∙ update_same _ e.tvar e.expected_value (over-none σ e.tvar (entries t) h ∙ sym y),
        )
    | inr (e', h) ↦
        let same = found-Expects τ τ (entries t) e e' a x h in
        rw (h, merge_expected-same e.expected_value e' t same.0)
          (
            record {
              unique = λ u. u;
              agrees = λ ρ.
                  ((λ b. (b, ((found-Expects τ ρ (entries t) e e' a x h).1 b, tt))), (λ b. b.0));
              state = refl;
            },
            λ σ y. refl,
          )
  ]

-- the commit of a nested record
pub merge_updates-Merges :
    (τ : ℕ → ℕ) (t : Trec) (es : List TrecEntry)
    → Agrees τ (entries t)
    → Agrees τ es
    → Merges t es (merge_updates t es)
unfolding merge_updates
merge_updates-Merges τ t [] a b = Merges-none t
merge_updates-Merges τ t (e ∷ es) a b =
    let m = (merge_update-Merges τ t e a b.0).0 in
    Merges-both t _ _ e es m
      (merge_updates-Merges τ (merge_update_into t e) es ((m.agrees τ).1 (a, (b.0, tt))) b.1)

pub merge_updates-over :
    (τ : ℕ → ℕ) (t : Trec) (es : List TrecEntry) (σ : ℕ → ℕ)
    → Agrees τ (entries t)
    → Agrees τ es
    → IsUnique es
    → over (entries (merge_updates t es)) σ ≡ over es (over (entries t) σ)
unfolding merge_updates find_entry
merge_updates-over τ t [] σ a b u = refl
merge_updates-over τ t (e ∷ es) σ a b u =
    let m = merge_update-Merges τ t e a b.0 in
    let rest = IsUnique-rest e es u in
    merge_updates-over τ (merge_update_into t e) es σ ((m.0.agrees τ).1 (a, (b.0, tt))) b.1 rest.0
    ∙ ap (over es) (m.1 σ)
    ∙ over-cons (over (entries t) σ) e es rest.1

-- the abort of a nested record
pub merge_reads-Merges :
    (τ : ℕ → ℕ) (t : Trec) (es : List TrecEntry)
    → Agrees τ (entries t)
    → Agrees τ es
    → Merges t es (merge_reads t es)
unfolding merge_reads
merge_reads-Merges τ t [] a b = Merges-none t
merge_reads-Merges τ t (e ∷ es) a b =
    let m = (merge_read-Merges τ t e a b.0).0 in
    Merges-both t _ _ e es m (
      merge_reads-Merges τ (merge_read_into t e.tvar e.expected_value) es
        ((m.agrees τ).1 (a, (b.0, tt))) b.1)

pub merge_reads-over :
    (τ : ℕ → ℕ) (t : Trec) (es : List TrecEntry) (σ : ℕ → ℕ)
    → Agrees τ (entries t)
    → Agrees τ es
    → Agrees σ es
    → over (entries (merge_reads t es)) σ ≡ over (entries t) σ
unfolding merge_reads
merge_reads-over τ t [] σ a b c = refl
merge_reads-over τ t (e ∷ es) σ a b c =
    let m = merge_read-Merges τ t e a b.0 in
    merge_reads-over τ (merge_read_into t e.tvar e.expected_value) es σ
      ((m.0.agrees τ).1 (a, (b.0, tt))) b.1 c.1
    ∙ m.1 σ c.0

-- Reads that are merged, of whatever kind they are, add nothing to what is written.
merge_read-later :
    (ρ : ℕ → ℕ) (t : Trec) (x v : ℕ)
    → Agrees ρ (entries (merge_read_into t x v))
    → Agrees ρ (entries t) × (over (entries (merge_read_into t x v)) ρ ≡ over (entries t) ρ)
unfolding merge_read_into
merge_read-later ρ t x v a = elim (Option-cases (find_entry x (entries t))) [
  | inl h ↦
      let ne : TrecEntry = record { tvar = x; expected_value = v; new_value = v } in
      let r = (All-add (Expects ρ) ne t.chunks).0 (rw h at a) in
      (
        r.1,
        rw h (over-add ρ ne t.chunks h ∙ update_same _ x v (over-none ρ x (entries t) h ∙ sym r.0)),
      )
  | inr (e, h) ↦ elim (Bool-cases (e.expected_value == v)) [
    | inl same ↦ rw (h, same) (rw (h, same) at a, refl)
    | inr other ↦ rw (h, other) (rw (h, other) at a, refl)
  ]
]

merge_read-IsUnique :
    (t : Trec) (x v : ℕ) → IsUnique (entries t) → IsUnique (entries (merge_read_into t x v))
unfolding merge_read_into
merge_read-IsUnique t x v u = elim (Option-cases (find_entry x (entries t))) [
  | inl h ↦
      let ne : TrecEntry = record { tvar = x; expected_value = v; new_value = v } in
      rw h ((Merges-add t ne h).unique u)
  | inr (e, h) ↦ elim (Bool-cases (e.expected_value == v)) [
    | inl same ↦ rw (h, same) u
    | inr other ↦ rw (h, other) u
  ]
]

-- What a sequence of such merges makes of `t`.
pub record Reads (t t' : Trec) : Type 0 where
  pub unique : IsUnique (entries t) → IsUnique (entries t')
  pub later :
      (ρ : ℕ → ℕ)
      → Agrees ρ (entries t')
      → Agrees ρ (entries t) × (over (entries t') ρ ≡ over (entries t) ρ)

pub Reads-refl : (t : Trec) → Reads t t
Reads-refl t = record { unique = λ u. u; later = λ ρ a. (a, refl) }

pub Reads-trans : (t t' t'' : Trec) → Reads t t' → Reads t' t'' → Reads t t''
Reads-trans t t' t'' r s = record {
  unique = λ u. s.unique (r.unique u);
  later = λ ρ a. let b = s.later ρ a in let c = r.later ρ b.0 in (c.0, b.1 ∙ c.1);
}

pub merge_reads-Reads : (t : Trec) (es : List TrecEntry) → Reads t (merge_reads t es)
unfolding merge_reads
merge_reads-Reads t [] = Reads-refl t
merge_reads-Reads t (e ∷ es) =
    let next = merge_read_into t e.tvar e.expected_value in
    Reads-trans t next _
      (record {
        unique = merge_read-IsUnique t e.tvar e.expected_value;
        later = λ ρ. merge_read-later ρ t e.tvar e.expected_value;
      })
      (merge_reads-Reads next es)
