-- ===== src/Hash/Replace.antt =====
-- rts/Hash.c: the write of one bucket's chain, which insertion and removal share.
use ghc_xapp_fix.Prelude.{
  ℕ, ◌+◌, ◌≤◌, ◌<◌, ◌≡◌, ◌≢◌, refl, ◌∙◌, some, List, arith, ◌==◌, if◌then◌else◌, sum_to_change,
}
use ghc_xapp_fix.Hash.{KeyOps, Cell, Chain, HashTable, bucket_of, hash, cell_at, put_cell, set_cell}
use ghc_xapp_fix.Hash.Cells.{weigh, has_key}
use ghc_xapp_fix.Hash.Directory.{cell_at-allocated, cell_at-put, set_cell-put}
use ghc_xapp_fix.Hash.Valid.{IsValid, chain_of, total, at_addr, count}

-- `t` with the chain `c` in bucket `b`, and another free list and list of chunks
abbrev pub replaced : {K : Type 0} → HashTable K → ℕ → Chain K → ℕ → List ℕ → List ℕ → HashTable K
replaced t b c kcount free chunks = record t {
  kcount = kcount;
  dir = put_cell t.dir b c;
  free_list = free;
  chunks = chunks;
}

module _ {K : Type 0} (ops : KeyOps K) (t : HashTable K) (v : IsValid ops t) (b : ℕ)
    (lt : b < t.max + t.split) (c : Chain K) where
  pub set_cell-replaced : set_cell t.dir b c ≡ some (put_cell t.dir b c)
  set_cell-replaced = set_cell-put t.dir b c (cell_at-allocated t.dir b (v.rows b lt))

  cell_at-replaced :
      (j : ℕ) → cell_at (put_cell t.dir b c) j ≡ (if b == j then some c else cell_at t.dir j)
  cell_at-replaced j = cell_at-put t.dir b c j (cell_at-allocated t.dir b (v.rows b lt))

  chain_of-replaced :
      (j : ℕ) → chain_of (put_cell t.dir b c) j ≡ (if b == j then c else chain_of t.dir j)
  unfolding chain_of
  chain_of-replaced j = ground (arith, cell_at-replaced j)

  pub replaced-total :
      (w : Cell K → ℕ) (kcount : ℕ) (free chunks : List ℕ)
      → total w (replaced t b c kcount free chunks) + weigh w (chain_of t.dir b)
        ≡ total w t + weigh w c
  unfolding total
  replaced-total w kcount free chunks = ground (
    arith,
    sum_to_change (t.max + t.split) b (λ j. weigh w (chain_of t.dir j))
        (λ j. weigh w (chain_of (put_cell t.dir b c) j)) lt
        (λ j l ne. ground (arith, chain_of-replaced j)),
    chain_of-replaced b,
  )

  hash-replaced :
      (q : K) (kcount : ℕ) (free chunks : List ℕ)
      → hash ops (replaced t b c kcount free chunks) q ≡ hash ops t q
  unfolding hash bucket_of
  hash-replaced q kcount free chunks = refl

  pub replaced-IsValid :
      (kcount : ℕ) (free chunks : List ℕ)
      → ((q : K) → hash ops t q ≢ b → weigh (has_key ops q) c ≡ 0)
      → ((a : ℕ)
          → count a free + total (at_addr a) t + weigh (at_addr a) c
            ≤ 1 + weigh (at_addr a) (chain_of t.dir b))
      → IsValid ops (replaced t b c kcount free chunks)
  unfolding chain_of
  replaced-IsValid kcount free chunks home apart = record {
    shape = record {
      mask1 = v.shape.mask1;
      mask2 = v.shape.mask2;
      split_lt = v.shape.split_lt;
      large = v.shape.large;
      small = v.shape.small;
      buckets = v.shape.buckets;
    };
    rows = λ j l. ground (arith, cell_at-replaced j, v.rows j);
    home = λ q j l ne.
        let ne' : hash ops t q ≢ j = λ e. ne (hash-replaced q kcount free chunks ∙ e) in
        rw (chain_of-replaced j) (ground (arith, home q, v.home q j l ne'));
    apart = λ a. omega (arith, replaced-total (at_addr a) kcount free chunks, apart a);
  }
