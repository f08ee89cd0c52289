-- ===== src/Hash/Valid.antt =====
-- rts/Hash.c: what holds of a table between two calls, and where keys hash to.
use native.Mathlib.Nat.{mod-lt}
use ghc_xapp_fix.Prelude.{
  ℕ, ◌+◌, ◌*◌, ◌≤◌, ◌<◌, ◌≡◌, ◌≢◌, sym, none, some, List, [], ◌∷◌, arith, ◌==◌, ◌⊎◌, inl, inr,
  Bool-cases, if◌then◌else◌, sum_to, sum_to_only, sum_to-zero, le-sum_to,
}
use ghc_xapp_fix.Prelude.Words.{IsMask, IsMask-double, mod_double_cases}
use ghc_xapp_fix.Hash.{
  KeyOps, Cell, Chain, Directory, HashTable, dir_size, segment_size, bucket_of, hash, cell_at,
  advance,
}
use ghc_xapp_fix.Hash.Cells.{weigh, has_key, value_at, On, On-zero}

-- the numbers of the table: masks of two powers of two, and `max + split` buckets
pub record IsShaped {K : Type 0} (t : HashTable K) : Type 0 where
  pub mask1 : IsMask t.mask1 t.max
  pub mask2 : IsMask t.mask2 (t.max * 2)
  pub split_lt : t.split < t.max
  pub large : segment_size ≤ t.max
  pub small : t.max + t.split ≤ dir_size * segment_size
  pub buckets : t.bcount ≡ t.max + t.split

module _ {K : Type 0} where
  -- the chain of a bucket, empty where there is none
  unfoldable pub chain_of : Directory K → ℕ → Chain K
  chain_of dir b = elim (cell_at dir b) [ none ↦ [] | some c ↦ c ]

  -- the sum of a weight over all the cells in the table
  unfoldable pub total : (Cell K → ℕ) → HashTable K → ℕ
  total w t = sum_to (t.max + t.split) (λ b. weigh w (chain_of t.dir b))

  -- 1 at the cell with the address
  abbrev pub at_addr : ℕ → Cell K → ℕ
  at_addr a hl = if hl.addr == a then 1 else 0

  pub chain_of-eq :
      (dir : Directory K) (b : ℕ) {c : Chain K} → cell_at dir b ≡ some c → chain_of dir b ≡ c
  unfolding chain_of
  chain_of-eq dir b h = rw (h, chain_of)

-- how often a number occurs in a list
unfoldable pub count : ℕ → List ℕ → ℕ
count a [] = 0
count a (x ∷ xs) = (if x == a then 1 else 0) + count a xs

module _ {K : Type 0} (ops : KeyOps K) where
  pub record IsValid (t : HashTable K) : Type 0 where
    pub shape : IsShaped t
    pub rows : (b : ℕ) → b < t.max + t.split → cell_at t.dir b ≡ some (chain_of t.dir b)
    pub home :
        (q : K) (b : ℕ)
        → b < t.max + t.split
        → hash ops t q ≢ b
        → weigh (has_key ops q) (chain_of t.dir b) ≡ 0
    pub apart : (a : ℕ) → total (at_addr a) t + count a t.free_list ≤ 1

  -- `kcount` is the number of cells in the table.
  abbrev pub IsCounted : HashTable K → Type 0
  IsCounted t = t.kcount ≡ total (λ _. 1) t

  -- No key is stored twice.
  abbrev pub IsUnique : HashTable K → Type 0
  IsUnique t = (q : K) → total (has_key ops q) t ≤ 1

  -- the abstract table: the data of a key, `NULL` where it is absent
  unfoldable pub view : HashTable K → K → ℕ
  view t q = total (value_at ops q) t

  -- In a table whose masks and counters fit together, every key hashes to a bucket in use.
  pub hash-lt : (t : HashTable K) (q : K) → IsShaped t → hash ops t q < t.max + t.split
  unfolding hash bucket_of
  hash-lt t q s =
      let h = ops.raw q in
      ground (
        arith,
        s.mask1 h,
        s.mask2 h,
        mod-lt h {m = t.max} (omega arith),
        mod_double_cases h t.max (omega arith),
      )

  pub advance-IsShaped :
      (t : HashTable K)
      → IsShaped t
      → t.max + t.split < dir_size * segment_size
      → IsShaped (advance t) × ((advance t).max + (advance t).split ≡ t.max + t.split + 1)
  unfolding advance
  advance-IsShaped t s h = elim (Bool-cases (t.split + 1 == t.max)) [
    | inl e ↦ rw e (
      record {
        mask1 = s.mask2;
        mask2 = IsMask-double t.mask2 (t.max * 2) (omega arith) s.mask2;
        split_lt = omega arith;
        large = omega arith;
        small = ground arith;
        buckets = ground arith;
      },
      ground arith,
    )
    | inr e ↦ rw e (
      record {
        mask1 = s.mask1;
        mask2 = s.mask2;
        split_lt = ground arith;
        large = s.large;
        small = omega arith;
        buckets = omega arith;
      },
      omega arith,
    )
  ]

  -- After a split every key stays where it was, but for those of the bucket that is split: they stay
  -- or go to the new bucket.
  pub hash-advance :
      (t : HashTable K) (q : K)
      → IsShaped t
      → (hash ops t q ≢ t.split → hash ops (advance t) q ≡ hash ops t q)
        × (hash ops t q ≡ t.split
            → (hash ops (advance t) q ≡ t.split) ⊎ (hash ops (advance t) q ≡ t.max + t.split))
  unfolding hash bucket_of advance
  hash-advance t q s =
      let h = ops.raw q in
      ground (
        arith,
        s.mask1 h,
        s.mask2 h,
        mod-lt h {m = t.max} (omega arith),
        mod_double_cases h t.max (omega arith),
      )

  -- What is weighed at one key stands in its home bucket.
  pub total-home :
      (t : HashTable K) (q : K) (w : Cell K → ℕ)
      → IsValid t
      → On ops q w
      → total w t ≡ weigh w (chain_of t.dir (hash ops t q))
  unfolding total
  total-home t q w v on =
      sum_to_only (t.max + t.split) (hash ops t q) _ (hash-lt t q v.shape)
        (λ b l ne. On-zero ops q w _ on (v.home q b l (λ e. ne (sym e))))

  -- Where a key is absent, nothing is weighed at it.
  pub total-On-zero :
      (t : HashTable K) (q : K) (w : Cell K → ℕ)
      → On ops q w
      → total (has_key ops q) t ≡ 0
      → total w t ≡ 0
  unfolding total
  total-On-zero t q w on h = sum_to-zero (t.max + t.split) _ (λ b l. On-zero ops q w _ on (
      omega
        (arith, le-sum_to (t.max + t.split) b (λ b. weigh (has_key ops q) (chain_of t.dir b)) l)))
