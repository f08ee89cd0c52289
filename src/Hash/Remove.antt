-- ===== src/Hash/Remove.antt =====
-- rts/Hash.c: `removeHashTable` takes one matching cell out and puts it on the free list.
use mathlib.Core.Option
use ghc_xapp_fix.Prelude.{
  ◌>>=◌, ℕ, ◌+◌, ◌-◌, ◌≡◌, ◌≢◌, refl, ap, ◌∙◌, fun_ext, Bool, true, false, ◌&&◌, ◌||◌, none, some,
  Option, [], ◌∷◌, arith, ◌==◌, ◌⊎◌, inl, inr, Option-cases, Bool-cases, ==_iff, if◌then◌else◌,
}
use ghc_xapp_fix.Hash.{
  KeyOps, Cell, Chain, HashTable, hash, unlink, free_cell, remove_hash_table, lookup_hash_table,
}
use ghc_xapp_fix.Hash.Cells.{weigh, has_key, value_at}
use ghc_xapp_fix.Hash.Valid.{
  IsValid, IsUnique, chain_of, total, at_addr, view, count, hash-lt, total-home, total-On-zero,
}
use ghc_xapp_fix.Hash.Replace.{replaced, replaced-total, replaced-IsValid, set_cell-replaced}
use ghc_xapp_fix.Hash.Lookup.{lookup-view}

module _ {K : Type 0} (ops : KeyOps K) where
  -- the test of the loop of `removeHashTable`
  abbrev pub matches : K → ℕ → Cell K → Bool
  matches key value hl = ops.compare hl.key key && (value == 0 || hl.value == value)

  -- 1 at a cell that the call looks for
  abbrev pub is_match : K → ℕ → Cell K → ℕ
  is_match key value hl = if matches key value hl then 1 else 0

  -- what `unlink` finds, and what is left of the chain
  abbrev Unlinked : K → ℕ → Chain K → Option (Cell K × Chain K) → Type 0
  Unlinked key value c none = weigh (is_match key value) c ≡ 0
  Unlinked key value c (some (hl, c')) =
      (matches key value hl ≡ true) × ((w : Cell K → ℕ) → weigh w c ≡ w hl + weigh w c')

  Unlinked-cons :
      (key : K) (value : ℕ) (x : Cell K) (rest : Chain K) (r : Option (Cell K × Chain K))
      → matches key value x ≡ false
      → Unlinked key value rest r
      → Unlinked key value (x ∷ rest) (Option.map (λ r. (r.0, x ∷ r.1)) r)
  unfolding weigh
  Unlinked-cons key value x rest none e h = ground arith
  Unlinked-cons key value x rest (some (hl, c')) e h = (h.0, λ w. omega (arith, h.1 w))

  unlink-Unlinked :
      (key : K) (value : ℕ) (c : Chain K) → Unlinked key value c (unlink ops key value c)
  unfolding unlink weigh
  unlink-Unlinked key value [] = refl
  unlink-Unlinked key value (x ∷ rest) = elim (Bool-cases (matches key value x)) [
    | inl e ↦ rw e (e, λ w. refl)
    | inr e ↦ rw e (Unlinked-cons key value x rest _ e (unlink-Unlinked key value rest))
  ]

  -- The outcome of a call: no cell matches, and nothing happens; or the data of one matching cell
  -- is returned, the cell leaves the table, and its memory goes to the free list.
  pub record Removes (t : HashTable K) (key : K) (value : ℕ) (r : ℕ × HashTable K) : Type 0 where
    pub cell : Cell K
    pub found : matches key value cell ≡ true
    pub returns : r.0 ≡ cell.value
    pub valid : IsValid ops r.1
    pub cells : (w : Cell K → ℕ) → total w r.1 + w cell ≡ total w t
    pub counts : r.1.kcount ≡ t.kcount - 1
    pub free : r.1.free_list ≡ cell.addr ∷ t.free_list

  abbrev pub Misses : HashTable K → K → ℕ → ℕ × HashTable K → Type 0
  Misses t key value r = (r ≡ (0, t)) × (value ≡ 0) × (total (is_match key value) t ≡ 0)

  -- No cell matches, and the assertion fails.
  abbrev pub Asserts : HashTable K → K → ℕ → Type 0
  Asserts t key value =
      (value ≢ 0) × (total (is_match key value) t ≡ 0) × (remove_hash_table ops t key value ≡ none)

  remove-cases :
      (t : HashTable K) (key : K) (value : ℕ)
      → IsValid ops t
      → Asserts t key value
        ⊎ ((r : ℕ × HashTable K) × (remove_hash_table ops t key value ≡ some r)
            × (Misses t key value r ⊎ Removes t key value r))
  unfolding remove_hash_table free_cell count
  remove-cases t key value v =
      let b = hash ops t key in
      let lt = hash-lt ops t key v.shape in
      let c = chain_of t.dir b in
      let u : Unlinked key value c (unlink ops key value c) = unlink-Unlinked key value c in
      elim (Option-cases (unlink ops key value c)) [
        | inl e ↦
            let u' : Unlinked key value c none = rw e at u in
            let absent = total-home ops t key (is_match key value) v (λ hl f. rw f) ∙ u' in
            elim (Bool-cases (value == 0)) [
              | inl z ↦ inr (
                (0, t),
                rw (v.rows b lt, ◌>>=◌, e, z) refl,
                inl (refl, (==_iff value 0).0 z, absent),
              )
              | inr z ↦
                  inl ((λ w. ground (arith, z, w)), absent, rw (v.rows b lt, ◌>>=◌, e, z) refl)
            ]
        | inr ((hl, rest), e) ↦
            let u' : Unlinked key value c (some (hl, rest)) = rw e at u in
            inr (
              (hl.value, replaced t b rest (t.kcount - 1) (hl.addr ∷ t.free_list) t.chunks),
              rw (v.rows b lt, ◌>>=◌, e, set_cell-replaced ops t v b lt rest),
              inr (record {
                cell = hl;
                found = u'.0;
                returns = refl;
                valid =
                    replaced-IsValid ops t v b lt rest _ _ _
                      (λ q ne. omega (arith, v.home q b lt ne, u'.1 (has_key ops q)))
                      (λ a. omega (arith, v.apart a, u'.1 (at_addr a)));
                cells = λ w. omega (
                  arith,
                  u'.1 w,
                  replaced-total ops t v b lt rest w (t.kcount - 1) (hl.addr ∷ t.free_list)
                      t.chunks,
                );
                counts = refl;
                free = refl;
              }),
            )
      ]

  -- the outcome for a key alone
  pub remove_key :
      (t : HashTable K) (key : K)
      → IsValid ops t
      → (r : ℕ × HashTable K) × (remove_hash_table ops t key 0 ≡ some r)
        × (Misses t key 0 r ⊎ Removes t key 0 r)
  remove_key t key v = elim (remove-cases t key 0 v) [
    | inl (ne, _, _) ↦ absurd (ne refl)
    | inr r ↦ r
  ]

  absent_reads :
      (t : HashTable K) (key q : K)
      → total (has_key ops key) t ≡ 0
      → ops.compare key q ≡ true
      → view ops t q ≡ 0
  unfolding view
  absent_reads t key q h e =
      total-On-zero ops t q (value_at ops q) (λ hl f. rw f) (rw (← (ops.compare_iff key q).0 e) h)

  pub outcome-IsValid :
      (t : HashTable K) (key : K) (r : ℕ × HashTable K)
      → IsValid ops t
      → Misses t key 0 r ⊎ Removes t key 0 r
      → IsValid ops r.1
  outcome-IsValid t key r v (inl (e, _, _)) = rw e v
  outcome-IsValid t key r v (inr m) = m.valid

  -- what lookups see of the outcome
  pub outcome-reads :
      (t : HashTable K) (key : K) (r : ℕ × HashTable K)
      → IsUnique ops t
      → Misses t key 0 r ⊎ Removes t key 0 r
      → IsUnique ops r.1
        × (view ops t key ≡ r.0)
        × ((q : K) → view ops r.1 q ≡ (if ops.compare key q then 0 else view ops t q))
  unfolding view
  outcome-reads t key r u (inl (e, _, none_at)) =
      let any : is_match key 0 ≡ has_key ops key = fun_ext (λ hl. ground arith) in
      let none_at' : total (has_key ops key) t ≡ 0 = rw (← any) none_at in
      rw e (
        u,
        absent_reads t key key none_at' ((ops.compare_iff key key).1 refl),
        λ q. ground (arith, absent_reads t key q none_at'),
      )
  outcome-reads t key r u (inr m) =
      let e : m.cell.key ≡ key = (ops.compare_iff m.cell.key key).0 (ground arith) in
      let same : (q : K) → ops.compare m.cell.key q ≡ ops.compare key q =
        λ q. ap (λ k. ops.compare k q) e in
      let gone : (q : K) → ops.compare key q ≡ true → view ops r.1 q ≡ 0 = λ q h.
        total-On-zero ops r.1 q (value_at ops q) (λ hl f. rw f)
          (ground (arith, m.cells (has_key ops q), u q, same q)) in
      let self : ops.compare key key ≡ true = (ops.compare_iff key key).1 refl in
      (
        λ q. omega (arith, m.cells (has_key ops q), u q),
        ground (arith, m.cells (value_at ops key), gone key, same key),
        λ q. ground (arith, m.cells (value_at ops q), gone q, same q),
      )

  -- Removal by key alone (`data` is `NULL`), in a valid table where no key occurs twice: it makes no
  -- wild access, returns what a lookup of the key would have given, and afterwards a lookup of the
  -- key gives `NULL`, and a lookup of any other key what it gave before.
  pub lookup-remove :
      (t : HashTable K) (key q : K)
      → IsValid ops t
      → IsUnique ops t
      → (r : ℕ × HashTable K) × (remove_hash_table ops t key 0 ≡ some r)
        × (lookup_hash_table ops t key ≡ some r.0)
        × (lookup_hash_table ops r.1 q
            ≡ (if ops.compare key q then some 0 else lookup_hash_table ops t q))
  lookup-remove t key q v u =
      let (r, run, outcome) = remove_key t key v in
      let (u', got, after) = outcome-reads t key r u outcome in
      let valid : IsValid ops r.1 = outcome-IsValid t key r v outcome in
      (
        r,
        run,
        lookup-view ops t key v u ∙ ap some got,
        ground (arith, lookup-view ops r.1 q valid u', lookup-view ops t q v u, after q),
      )
