-- ===== src/Hash/Overwrite.antt =====
-- rts/Hash.c: keys that are stored twice, which `insertHashTable` allows ("sometimes it's useful to be
-- able to overwrite entries"), when `expand` splits their bucket ("paying no attention to the original
-- order").
use ghc_xapp_fix.Prelude.{
  ℕ, ◌+◌, ◌*◌, ◌<◌, ◌≡◌, ◌≢◌, refl, ap, sym, ◌∙◌, true, some, [], ◌∷◌, arith, ◌⊎◌, inl, inr,
  if◌then◌else◌,
}
use ghc_xapp_fix.Hash.{
  KeyOps, Chain, Directory, HashTable, allocated, cell_at, dir_size, segment_size, hash,
  split_chain, expand, find, lookup_hash_table,
}
use ghc_xapp_fix.Hash.Cells.{compare-hash}
use ghc_xapp_fix.Hash.Valid.{IsValid, chain_of, hash-lt}
use ghc_xapp_fix.Hash.Expand.{
  new_segment, expanded, counters, expand-expanded, expanded-IsValid, chain_of-split_dir,
  hash-expanded, hash-counters,
}

module _ {K : Type 0} (ops : KeyOps K) where
  -- the data of the last cell with the key, or `value`
  pub find_last : K → Chain K → ℕ → ℕ
  find_last q [] value = value
  find_last q (hl ∷ rest) value =
      find_last q rest (if ops.compare hl.key q then hl.value else value)

  split_chain-find_new :
      (t : HashTable K) (n : ℕ) (q : K) (c old new : Chain K)
      → hash ops t q ≡ n
      → find ops q (split_chain ops t n c old new).1 ≡ find_last q c (find ops q new)
  unfolding split_chain find find_last
  split_chain-find_new t n q [] old new e = refl
  split_chain-find_new t n q (hl ∷ rest) old new e = ground (
    arith,
    compare-hash ops t hl.key q,
    split_chain-find_new t n q rest old (hl ∷ new) e,
    split_chain-find_new t n q rest (hl ∷ old) new e,
  )

  split_chain-find_old :
      (t : HashTable K) (n : ℕ) (q : K) (c old new : Chain K)
      → hash ops t q ≢ n
      → find ops q (split_chain ops t n c old new).0 ≡ find_last q c (find ops q old)
  unfolding split_chain find find_last
  split_chain-find_old t n q [] old new e = refl
  split_chain-find_old t n q (hl ∷ rest) old new e = ground (
    arith,
    compare-hash ops t hl.key q,
    split_chain-find_old t n q rest old (hl ∷ new) e,
    split_chain-find_old t n q rest (hl ∷ old) new e,
  )

  module _ (t : HashTable K) (v : IsValid ops t) (room : t.max + t.split < dir_size * segment_size)
      (dir : Directory K) (there : allocated dir (t.max + t.split) ≡ true)
      (same : (b : ℕ) → b < t.max + t.split → cell_at dir b ≡ cell_at t.dir b) where
    abbrev after : HashTable K
    after = expanded ops t v room dir there same

    find-split_dir :
        (q : K) (b : ℕ)
        → hash ops after q ≡ b
        → (b ≡ t.split) ⊎ (b ≡ t.max + t.split)
        → find ops q (chain_of after.dir b) ≡ find_last q (chain_of t.dir t.split) 0
    unfolding find
    find-split_dir q b e where_to =
        let n = t.max + t.split in
        let c = chain_of t.dir t.split in
        let u = counters ops t v room dir there same in
        let large = v.shape.large in
        let e' : hash ops u q ≡ b = sym (hash-expanded ops t v room dir there same q) ∙ e in
        rw (chain_of-split_dir ops t v room dir there same b (ground (arith, v.shape.split_lt)))
          (ground (arith, split_chain-find_new u n q c [] [], split_chain-find_old u n q c [] []))

    find-after :
        (q : K)
        → hash ops t q ≡ t.split
        → find ops q (chain_of after.dir (hash ops after q))
          ≡ find_last q (chain_of t.dir t.split) 0
    find-after q e =
        find-split_dir q _ refl (elim ((hash-counters ops t v room dir there same q).1 e) [
          | inl stays ↦ inl (hash-expanded ops t v room dir there same q ∙ stays)
          | inr moves ↦ inr (hash-expanded ops t v room dir there same q ∙ moves)
        ])

  -- In a valid table that can grow, let a key hash to the bucket that `expand` splits next.
  -- Before, a lookup of the key gives the data of the first cell with the key in its bucket; after
  -- `expand`, the data of the cell that was the last: of a key that was inserted again, the oldest
  -- data.
  pub expand-find_last :
      (t : HashTable K) (q : K)
      → IsValid ops t
      → t.max + t.split < dir_size * segment_size
      → hash ops t q ≡ t.split
      → (t' : HashTable K) × (expand ops t ≡ some t')
        × (lookup_hash_table ops t q ≡ some (find ops q (chain_of t.dir t.split)))
        × (lookup_hash_table ops t' q ≡ some (find_last q (chain_of t.dir t.split) 0))
  unfolding lookup_hash_table
  expand-find_last t q v room e =
      let (dir, run, there, same) = new_segment ops t v room in
      let t' = expanded ops t v room dir there same in
      let v' = expanded-IsValid ops t v room dir there same in
      (
        t',
        expand-expanded ops t v room dir there same run,
        rw (e, v.rows t.split (rw e at (hash-lt ops t q v.shape))),
        rw (v'.rows _ (hash-lt ops t' q v'.shape))
            (ap some (find-after t v room dir there same q e)),
      )
