-- ===== src/Stm/Nest.antt =====
-- rts/STM.c: the store that a nest of records shows, and the entries that the operations add to it.
use mathlib.Core.Option
use ghc_xapp_fix.Prelude.{
  ℕ, ◌≡◌, refl, ap, sym, ◌∙◌, Option, none, some, List, [], ◌∷◌, ◌==◌, All, update, arith,
  Bool-cases, inl, inr, Option-cases, ◌⊎◌,
}
use ghc_xapp_fix.Stm.Trec.{
  TrecEntry, Trec, entries, find_entry, find_outside, get_new_entry, set_entry, get_entry_for,
}
use ghc_xapp_fix.Stm.Ops.{stm_read_tvar, stm_write_tvar}
use ghc_xapp_fix.Stm.Entries.{
  IsUnique, Agrees, seen, over, none→count, count-add, All-add, over-add, find_entry-All,
  update_same, count-set, Agrees-set, over-set,
}

-- the stores that the records of a nest see, the innermost first
unfoldable pub overlay : List Trec → (ℕ → ℕ) → ℕ → ℕ
overlay [] σ = σ
overlay (t ∷ outer) σ = over (entries t) (overlay outer σ)

unfoldable pub overlays : List Trec → (ℕ → ℕ) → List (ℕ → ℕ)
overlays [] σ = []
overlays (t ∷ outer) σ = overlay (t ∷ outer) σ ∷ overlays outer σ

abbrev pub IsUniqueNest : List Trec → Type 0
IsUniqueNest = All (λ t. IsUnique (entries t))

abbrev pub AgreesNest : (ℕ → ℕ) → List Trec → Type 0
AgreesNest σ = All (λ t. Agrees σ (entries t))

-- Entries for one variable expect the same.
abbrev pub IsCoherent : List Trec → Type 0
IsCoherent nest = (τ : ℕ → ℕ) × AgreesNest τ nest

pub overlay-seen :
    (σ : ℕ → ℕ) (x : ℕ) (nest : List Trec) → overlay nest σ x ≡ seen (find_outside x nest) (σ x)
unfolding overlay find_outside
overlay-seen σ x [] = refl
overlay-seen σ x (t ∷ outer) = elim (Option-cases (find_entry x (entries t))) [
  | inl h ↦ rw h (overlay-seen σ x outer)
  | inr (e, h) ↦ rw h refl
]

pub find_outside-Agrees :
    (σ : ℕ → ℕ) (x : ℕ) (nest : List Trec) (e : TrecEntry)
    → AgreesNest σ nest
    → find_outside x nest ≡ some e
    → e.expected_value ≡ σ x
unfolding find_outside
find_outside-Agrees σ x [] e a h = absurd (ground (arith, h))
find_outside-Agrees σ x (t ∷ outer) e a h = elim (Option-cases (find_entry x (entries t))) [
  | inl n ↦ find_outside-Agrees σ x outer e a.1 (rw n at h)
  | inr (e', s) ↦
      let same : e' ≡ e = Option.some_inj.0 (rw s at h) in
      let r = find_entry-All (λ e. e.expected_value ≡ σ e.tvar) x (entries t) e' a.0 s in
      rw (← same) (r.1 ∙ ap σ r.0)
]

Agrees-update :
    (σ : ℕ → ℕ) (x v : ℕ) (es : List TrecEntry)
    → find_entry x es ≡ none
    → Agrees σ es
    → Agrees (update σ x v) es
unfolding find_entry
Agrees-update σ x v [] h a = tt
Agrees-update σ x v (e ∷ es) h a = elim (Bool-cases (e.tvar == x)) [
  | inl s ↦ absurd (ground (arith, s, h))
  | inr d ↦ (ground (arith, d, a.0), Agrees-update σ x v es (rw d at h) a.1)
]

AgreesNest-update :
    (σ : ℕ → ℕ) (x v : ℕ) (nest : List Trec)
    → find_outside x nest ≡ none
    → AgreesNest σ nest
    → AgreesNest (update σ x v) nest
unfolding find_outside
AgreesNest-update σ x v [] h a = tt
AgreesNest-update σ x v (t ∷ outer) h a = elim (Option-cases (find_entry x (entries t))) [
  | inl n ↦ (Agrees-update σ x v (entries t) n a.0, AgreesNest-update σ x v outer (rw n at h) a.1)
  | inr (e, s) ↦ absurd (ground (arith, s, h))
]

-- what a new entry expects of `x`
abbrev pub expected_of : Option TrecEntry → ℕ → ℕ
expected_of none v = v
expected_of (some e) v = e.expected_value

-- the entry that a first access to `x` adds, where `σ` holds the values
abbrev pub fresh : (ℕ → ℕ) → List Trec → ℕ → ℕ → TrecEntry
fresh σ outer x v = record {
  tvar = x;
  expected_value = expected_of (find_outside x outer) (σ x);
  new_value = v;
}

-- An access finds an entry in the innermost record, or adds one.
pub read-cases :
    (σ : ℕ → ℕ) (t : Trec) (outer : List Trec) (x : ℕ)
    → ((e : TrecEntry) × (find_entry x (entries t) ≡ some e)
        × (stm_read_tvar σ t outer x ≡ (e.new_value, t)))
      ⊎ ((find_entry x (entries t) ≡ none)
          × (stm_read_tvar σ t outer x ≡ (
            seen (find_outside x outer) (σ x),
            get_new_entry t (fresh σ outer x (seen (find_outside x outer) (σ x))),
          )))
unfolding stm_read_tvar get_entry_for
read-cases σ t outer x = elim (Option-cases (find_entry x (entries t))) [
  | inl h ↦ inr (
    h,
    elim (Option-cases (find_outside x outer)) [
      | inl n ↦ rw (h, n) refl
      | inr (e, s) ↦ rw (h, s) refl
    ],
  )
  | inr (e, h) ↦ inl (e, h, rw h refl)
]

pub write-cases :
    (σ : ℕ → ℕ) (t : Trec) (outer : List Trec) (x v : ℕ)
    → ((e : TrecEntry) × (find_entry x (entries t) ≡ some e)
        × (stm_write_tvar σ t outer x v ≡ set_entry t x v))
      ⊎ ((find_entry x (entries t) ≡ none)
          × (stm_write_tvar σ t outer x v ≡ get_new_entry t (fresh σ outer x v)))
unfolding stm_write_tvar get_entry_for
write-cases σ t outer x v = elim (Option-cases (find_entry x (entries t))) [
  | inl h ↦ inr (
    h,
    elim (Option-cases (find_outside x outer)) [
      | inl n ↦ rw (h, n) refl
      | inr (e, s) ↦ rw (h, s) refl
    ],
  )
  | inr (e, h) ↦ inl (e, h, rw h refl)
]

module _ (σ : ℕ → ℕ) (t : Trec) (outer : List Trec) (x v : ℕ) where
  -- the record after the first access
  abbrev added : Trec
  added = get_new_entry t (fresh σ outer x v)

  pub fresh-IsUnique :
      find_entry x (entries t) ≡ none → IsUnique (entries t) → IsUnique (entries added)
  fresh-IsUnique h u y =
      ground (arith, u y, count-add y (fresh σ outer x v) t.chunks, none→count x (entries t) h)

  pub fresh-IsCoherent :
      find_entry x (entries t) ≡ none → IsCoherent (t ∷ outer) → IsCoherent (added ∷ outer)
  fresh-IsCoherent h (τ, a) = elim (Option-cases (find_outside x outer)) [
    | inl n ↦
        let here =
          (All-add _ (fresh σ outer x v) t.chunks).1
            (rw n (ground arith), Agrees-update τ x (σ x) (entries t) h a.0) in
        (update τ x (σ x), (here, AgreesNest-update τ x (σ x) outer n a.1))
    | inr (e, s) ↦
        let here =
          (All-add _ (fresh σ outer x v) t.chunks).1
            (rw s (find_outside-Agrees τ x outer e a.1 s), a.0) in
        (τ, (here, a.1))
  ]

  -- with the values that the access saw, the entry agrees
  pub fresh-AgreesNest : AgreesNest σ (t ∷ outer) → AgreesNest σ (added ∷ outer)
  fresh-AgreesNest a = (
    (All-add _ (fresh σ outer x v) t.chunks).1 (
      elim (Option-cases (find_outside x outer)) [
        | inl n ↦ rw n refl
        | inr (e, s) ↦ rw s (find_outside-Agrees σ x outer e a.1 s)
      ],
      a.0,
    ),
    a.1,
  )

  -- with values that agree, the access saw what the nest shows
  pub fresh-later :
      (ρ : ℕ → ℕ)
      → AgreesNest ρ (added ∷ outer)
      → AgreesNest ρ (t ∷ outer)
        × (seen (find_outside x outer) (σ x) ≡ seen (find_outside x outer) (ρ x))
  fresh-later ρ a =
      let r = (All-add _ (fresh σ outer x v) t.chunks).0 a.0 in
      (
        (r.1, a.1),
        elim (Option-cases (find_outside x outer)) [
          | inl n ↦ rw n (rw n at r.0)
          | inr (e, s) ↦ rw s refl
        ],
      )

  pub fresh-overlay :
      (ρ : ℕ → ℕ)
      → find_entry x (entries t) ≡ none
      → overlay (added ∷ outer) ρ ≡ update (overlay (t ∷ outer) ρ) x v
  unfolding overlay
  fresh-overlay ρ h = over-add (overlay outer ρ) (fresh σ outer x v) t.chunks h

-- What an access to the record `t` leaves, where the store showed `σ`: what the new record shows of
-- any store that it agrees with is `effect` of what the old one shows.
pub record Moves (σ : ℕ → ℕ) (t : Trec) (outer : List Trec) (effect : (ℕ → ℕ) → ℕ → ℕ) (t' : Trec)
    : Type 0 where
  pub unique : IsUnique (entries t) → IsUnique (entries t')
  pub coherent : IsCoherent (t ∷ outer) → IsCoherent (t' ∷ outer)
  pub now : AgreesNest σ (t ∷ outer) → AgreesNest σ (t' ∷ outer)
  pub before : (ρ : ℕ → ℕ) → AgreesNest ρ (t' ∷ outer) → AgreesNest ρ (t ∷ outer)
  pub shows :
      (ρ : ℕ → ℕ)
      → AgreesNest ρ (t' ∷ outer)
      → overlay (t' ∷ outer) ρ ≡ effect (overlay (t ∷ outer) ρ)
  pub state : t'.state ≡ t.state

abbrev pub unchanged : (ℕ → ℕ) → ℕ → ℕ
unchanged s = s

pub over-none :
    (σ : ℕ → ℕ) (x : ℕ) (es : List TrecEntry) → find_entry x es ≡ none → over es σ x ≡ σ x
over-none σ x es h = rw h refl

pub read-Moves :
    (σ : ℕ → ℕ) (t : Trec) (outer : List Trec) (x : ℕ)
    → Moves σ t outer unchanged (stm_read_tvar σ t outer x).1
unfolding overlay
read-Moves σ t outer x = elim (read-cases σ t outer x) [
  | inl (e, h, s) ↦ rw s (record {
    unique = λ u. u;
    coherent = λ c. c;
    now = λ a. a;
    before = λ ρ a. a;
    shows = λ ρ a. refl;
    state = refl;
  })
  | inr (h, s) ↦
      let v = seen (find_outside x outer) (σ x) in
      rw s (record {
        unique = fresh-IsUnique σ t outer x v h;
        coherent = fresh-IsCoherent σ t outer x v h;
        now = fresh-AgreesNest σ t outer x v;
        before = λ ρ a. (fresh-later σ t outer x v ρ a).0;
        shows = λ ρ a.
            fresh-overlay σ t outer x v ρ h
            ∙ update_same _ x v (
                over-none (overlay outer ρ) x (entries t) h
                ∙ overlay-seen ρ x outer
                ∙ sym (fresh-later σ t outer x v ρ a).1);
        state = refl;
      })
]

-- The value that is read is what the nest shows of any store that agrees afterwards.
pub read-value :
    (σ : ℕ → ℕ) (t : Trec) (outer : List Trec) (x : ℕ) (ρ : ℕ → ℕ)
    → AgreesNest ρ ((stm_read_tvar σ t outer x).1 ∷ outer)
    → (stm_read_tvar σ t outer x).0 ≡ overlay (t ∷ outer) ρ x
unfolding overlay
read-value σ t outer x ρ a = elim (read-cases σ t outer x) [
  | inl (e, h, s) ↦ rw (s, h) refl
  | inr (h, s) ↦
      let v = seen (find_outside x outer) (σ x) in
      let later = fresh-later σ t outer x v ρ (rw s at a) in
      rw (s, h) (later.1 ∙ sym (overlay-seen ρ x outer))
]

pub write-Moves :
    (σ : ℕ → ℕ) (t : Trec) (outer : List Trec) (x v : ℕ)
    → Moves σ t outer (λ s. update s x v) (stm_write_tvar σ t outer x v)
unfolding overlay
write-Moves σ t outer x v = elim (write-cases σ t outer x v) [
  | inl (e, h, s) ↦ rw s (record {
    unique = λ u y. rw (count-set y x v t.chunks) (u y);
    coherent = λ (τ, a). (τ, ((Agrees-set τ x v t.chunks).1 a.0, a.1));
    now = λ a. ((Agrees-set σ x v t.chunks).1 a.0, a.1);
    before = λ ρ a. ((Agrees-set ρ x v t.chunks).0 a.0, a.1);
    shows = λ ρ a. over-set (overlay outer ρ) x v t.chunks e h;
    state = refl;
  })
  | inr (h, s) ↦ rw s (record {
    unique = fresh-IsUnique σ t outer x v h;
    coherent = fresh-IsCoherent σ t outer x v h;
    now = fresh-AgreesNest σ t outer x v;
    before = λ ρ a. (fresh-later σ t outer x v ρ a).0;
    shows = λ ρ a. fresh-overlay σ t outer x v ρ h;
    state = refl;
  })
]
