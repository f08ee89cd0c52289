-- ===== src/Hash/Cells.antt =====
-- rts/Hash.c: what the loops over one chain of cells do. A chain is measured by weights on its cells.
use ghc_xapp_fix.Prelude.{
  ℕ, ◌+◌, ◌≤◌, ◌≡◌, ◌≢◌, refl, ap, true, false, [], ◌∷◌, arith, if◌then◌else◌,
}
use ghc_xapp_fix.Hash.{KeyOps, Cell, Chain, HashTable, hash, split_chain, find}

-- the sum of a weight over a chain
unfoldable pub weigh : {K : Type 0} → (Cell K → ℕ) → Chain K → ℕ
weigh w [] = 0
weigh w (hl ∷ rest) = w hl + weigh w rest

module _ {K : Type 0} (ops : KeyOps K) where
  -- 1 at a cell with the key
  abbrev pub has_key : K → Cell K → ℕ
  has_key q hl = if ops.compare hl.key q then 1 else 0

  -- the data of a cell with the key
  abbrev pub value_at : K → Cell K → ℕ
  value_at q hl = if ops.compare hl.key q then hl.value else 0

  -- a weight that is zero where the key is not `q`
  abbrev pub On : K → (Cell K → ℕ) → Type 0
  On q w = (hl : Cell K) → ops.compare hl.key q ≡ false → w hl ≡ 0

  pub On-zero :
      (q : K) (w : Cell K → ℕ) (c : Chain K) → On q w → weigh (has_key q) c ≡ 0 → weigh w c ≡ 0
  unfolding weigh
  On-zero q w [] on h = refl
  On-zero q w (hl ∷ rest) on h = ground (arith, on hl, On-zero q w rest on)

  -- With at most one cell for the key, `find` gives the sum of the data at the key.
  pub find-weigh :
      (q : K) (c : Chain K) → weigh (has_key q) c ≤ 1 → find ops q c ≡ weigh (value_at q) c
  unfolding weigh find
  find-weigh q [] h = refl
  find-weigh q (hl ∷ rest) h =
      ground (arith, find-weigh q rest, On-zero q (value_at q) rest (λ hl e. rw e))

  pub compare-hash :
      (t : HashTable K) (a q : K) → ops.compare a q ≡ true → hash ops t a ≡ hash ops t q
  unfolding hash
  compare-hash t a q e = ap (hash ops t) ((ops.compare_iff a q).0 e)

  -- The split loses and adds nothing.
  pub split_chain-weigh :
      (t : HashTable K) (n : ℕ) (w : Cell K → ℕ) (c old new : Chain K)
      → let r = split_chain ops t n c old new in
        weigh w r.0 + weigh w r.1 ≡ weigh w c + weigh w old + weigh w new
  unfolding weigh split_chain
  split_chain-weigh t n w [] old new = omega arith
  split_chain-weigh t n w (hl ∷ rest) old new = ground (
    arith,
    split_chain-weigh t n w rest old (hl ∷ new),
    split_chain-weigh t n w rest (hl ∷ old) new,
  )

  -- Cells whose key hashes to the new bucket leave the old one.
  pub split_chain-old :
      (t : HashTable K) (n : ℕ) (q : K) (w : Cell K → ℕ)
      → On q w
      → (c old new : Chain K) → hash ops t q ≡ n
      → weigh w (split_chain ops t n c old new).0 ≡ weigh w old
  unfolding weigh split_chain
  split_chain-old t n q w on [] old new e = refl
  split_chain-old t n q w on (hl ∷ rest) old new e = ground (
    arith,
    on hl,
    compare-hash t hl.key q,
    split_chain-old t n q w on rest old (hl ∷ new),
    split_chain-old t n q w on rest (hl ∷ old) new,
  )

  pub split_chain-new :
      (t : HashTable K) (n : ℕ) (q : K) (w : Cell K → ℕ)
      → On q w
      → (c old new : Chain K) → hash ops t q ≢ n
      → weigh w (split_chain ops t n c old new).1 ≡ weigh w new
  unfolding weigh split_chain
  split_chain-new t n q w on [] old new e = refl
  split_chain-new t n q w on (hl ∷ rest) old new e = ground (
    arith,
    on hl,
    compare-hash t hl.key q,
    split_chain-new t n q w on rest old (hl ∷ new),
    split_chain-new t n q w on rest (hl ∷ old) new,
  )
