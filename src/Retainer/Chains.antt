-- ===== src/Retainer/Chains.antt =====
-- rts/RetainerSet.c: the chains of sets, when they are valid, and a new set in them.
use mathlib.Core.Path.{subst}
use ghc_xapp_fix.Prelude.{
  ℕ, ◌<◌, ◌≡◌, ◌≢◌, ◌⊎◌, refl, ap, sym, ◌∙◌, Bool, true, false, Option, none, some, List, [], ◌∷◌,
  ◌==◌, arith, inl, inr, Bool-cases, Option-cases, ==_iff,
}
use ghc_xapp_fix.Retainer.{RetainerSet, AllSets, hash, find_set, new_set}
use ghc_xapp_fix.Retainer.Member.{IsSorted}
use ghc_xapp_fix.Retainer.Elements.{key}

abbrev pub InChain : RetainerSet → List RetainerSet → Type 0
InChain rs [] = ⊥
InChain rs (x ∷ link) = (rs ≡ x) ⊎ InChain rs link

-- the set is one of all sets
abbrev pub Exists : AllSets → RetainerSet → Type 0
Exists s rs = InChain rs (s.hash_table (hash rs.hash_key))

-- Each set stands in the chain of its key, its elements are in order, and two sets with the same
-- elements, or with the same identity, are one.
pub record IsValid (s : AllSets) : Type 0 where
  pub home : (b : ℕ) (rs : RetainerSet) → InChain rs (s.hash_table b) → hash rs.hash_key ≡ b
  pub keyed : (rs : RetainerSet) → Exists s rs → rs.hash_key ≡ key rs.element
  pub sorted : (rs : RetainerSet) → Exists s rs → IsSorted rs.element
  pub below : (rs : RetainerSet) → Exists s rs → rs.id < s.next_id
  pub once :
      (rs rs' : RetainerSet) → Exists s rs → Exists s rs' → rs.element ≡ rs'.element → rs ≡ rs'
  pub identity : (rs rs' : RetainerSet) → Exists s rs → Exists s rs' → rs.id ≡ rs'.id → rs ≡ rs'

abbrev pub Keeps : AllSets → AllSets → Type 0
Keeps s s' = (rs : RetainerSet) → Exists s rs → Exists s' rs

-- what a search of a chain finds
abbrev pub Finds : (List ℕ → Bool) → List RetainerSet → Option RetainerSet → Type 0
Finds test c none = (rs : RetainerSet) → InChain rs c → test rs.element ≡ false
Finds test c (some rs) = InChain rs c × (test rs.element ≡ true)

pub find_set-Finds : (test : List ℕ → Bool) (c : List RetainerSet) → Finds test c (find_set test c)
unfolding find_set
find_set-Finds test [] = λ rs h. absurd h
find_set-Finds test (x ∷ link) = elim (Bool-cases (test x.element)) [
  | inl e ↦ rw e (inl refl, e)
  | inr e ↦ rw e (elim (Option-cases (find_set test link)) [
    | inl o ↦
        let f : Finds test link none = subst (Finds test link) o (find_set-Finds test link) in
        subst (Finds test (x ∷ link)) (sym o) (λ rs h. elim h [
          | inl z ↦ ap (λ (rs : RetainerSet). test rs.element) z ∙ e
          | inr i ↦ f rs i
        ])
    | inr (rs, o) ↦
        let f : Finds test link (some rs) = subst (Finds test link) o (find_set-Finds test link) in
        subst (Finds test (x ∷ link)) (sym o) (inr f.0, f.1)
  ])
]

-- the table with a new set
module _ (s : AllSets) (e : List ℕ) (v : IsValid s) (sorted : IsSorted e)
    (fresh : (rs : RetainerSet) → Exists s rs → rs.element ≢ e) where
  abbrev pub made : RetainerSet
  made = record { hash_key = key e; id = s.next_id; element = e }

  abbrev pub s' : AllSets
  s' = (new_set s (key e) e).1

  in_old_or_new :
      (b : ℕ) (rs : RetainerSet)
      → InChain rs (s'.hash_table b)
      → (rs ≡ made) ⊎ InChain rs (s.hash_table b)
  in_old_or_new b rs h = elim (Bool-cases (hash (key e) == b)) [
    | inl z ↦ elim (rw z at h) [
      | inl i ↦ inl i
      | inr i ↦ inr (subst (λ b. InChain rs (s.hash_table b)) ((==_iff (hash (key e)) b).0 z) i)
    ]
    | inr z ↦ inr (rw z at h)
  ]

  pub made-Exists : Exists s' made
  made-Exists = rw ((==_iff (hash (key e)) (hash (key e))).1 refl) (inl refl)

  pub made-Keeps : Keeps s s'
  made-Keeps rs h = elim (Bool-cases (hash (key e) == hash rs.hash_key)) [
    | inl z ↦ rw z (
        inr (
          subst (λ b. InChain rs (s.hash_table b))
            (sym ((==_iff (hash (key e)) (hash rs.hash_key)).0 z)) h))
    | inr z ↦ rw z h
  ]

  cases : (rs : RetainerSet) → Exists s' rs → (rs ≡ made) ⊎ Exists s rs
  cases rs h = in_old_or_new (hash rs.hash_key) rs h

  pub made-IsValid : IsValid s'
  made-IsValid = record {
    home = λ b rs h. elim (Bool-cases (hash (key e) == b)) [
      | inl z ↦
          let same : hash (key e) ≡ b = (==_iff (hash (key e)) b).0 z in
          elim (in_old_or_new b rs h) [
            | inl i ↦ ap (λ (rs : RetainerSet). hash rs.hash_key) i ∙ same
            | inr i ↦ v.home b rs i
          ]
      | inr z ↦ v.home b rs (rw z at h)
    ];
    keyed = λ rs h. elim (cases rs h) [
      | inl i ↦
          ap (λ (rs : RetainerSet). rs.hash_key) i
          ∙ ap (λ (rs : RetainerSet). key rs.element) (sym i)
      | inr i ↦ v.keyed rs i
    ];
    sorted = λ rs h. elim (cases rs h) [
      | inl i ↦ subst (λ (rs : RetainerSet). IsSorted rs.element) (sym i) sorted
      | inr i ↦ v.sorted rs i
    ];
    below = λ rs h. elim (cases rs h) [
      | inl i ↦ omega (arith, ap (λ (rs : RetainerSet). rs.id) i)
      | inr i ↦ omega (arith, v.below rs i)
    ];
    once = λ a b h k same. elim (cases a h) [
      | inl i ↦ elim (cases b k) [
        | inl j ↦ i ∙ sym j
        | inr j ↦ absurd (fresh b j (sym same ∙ ap (λ (rs : RetainerSet). rs.element) i))
      ]
      | inr i ↦ elim (cases b k) [
        | inl j ↦ absurd (fresh a i (same ∙ ap (λ (rs : RetainerSet). rs.element) j))
        | inr j ↦ v.once a b i j same
      ]
    ];
    identity = λ a b h k same. elim (cases a h) [
      | inl i ↦ elim (cases b k) [
        | inl j ↦ i ∙ sym j
        | inr j ↦ absurd (omega (arith, v.below b j, same, ap (λ (rs : RetainerSet). rs.id) i))
      ]
      | inr i ↦ elim (cases b k) [
        | inl j ↦ absurd (omega (arith, v.below a i, same, ap (λ (rs : RetainerSet). rs.id) j))
        | inr j ↦ v.identity a b i j same
      ]
    ];
  }
