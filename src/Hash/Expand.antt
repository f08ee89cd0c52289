-- ===== src/Hash/Expand.antt =====
-- rts/Hash.c: `expand` splits one bucket, keeps the table valid, and loses no cell.
use ghc_xapp_fix.Prelude.{
  ℕ, ◌+◌, ◌-◌, ◌*◌, ◌/◌, ◌%◌, ◌<◌, ◌≡◌, ◌≢◌, refl, ◌∙◌, true, false, some, [], arith, leb, ◌==◌,
  ◌⊎◌, inl, inr, Bool-cases, if◌then◌else◌, sum_to, sum_to_change,
}
use ghc_xapp_fix.Hash.{
  KeyOps, Cell, Chain, Directory, HashTable, dir_size, segment_size, bucket_of, hash, cell_at,
  put_cell, allocated, alloc_segment, advance, split_chain, expand,
}
use ghc_xapp_fix.Hash.Cells.{
  weigh, has_key, On, split_chain-weigh, split_chain-old, split_chain-new,
}
use ghc_xapp_fix.Hash.Directory.{
  cell_at-allocated, allocated_congr, cell_at-put, allocated-put, set_cell-put, alloc_segment_lem,
}
use ghc_xapp_fix.Hash.Valid.{
  IsShaped, IsValid, chain_of, total, at_addr, advance-IsShaped, hash-advance,
}

module _ {K : Type 0} (ops : KeyOps K) where
  pub IsShaped-dir :
      (t : HashTable K) (d : Directory K) → IsShaped t → IsShaped (record t { dir = d })
  IsShaped-dir t d s = record {
    mask1 = s.mask1;
    mask2 = s.mask2;
    split_lt = s.split_lt;
    large = s.large;
    small = s.small;
    buckets = s.buckets;
  }

  advance-kcount : (t : HashTable K) → (advance t).kcount ≡ t.kcount
  unfolding advance
  advance-kcount t = ground arith

  advance-free_list : (t : HashTable K) → (advance t).free_list ≡ t.free_list
  unfolding advance
  advance-free_list t = ground arith

  advance-chunks : (t : HashTable K) → (advance t).chunks ≡ t.chunks
  unfolding advance
  advance-chunks t = ground arith

  -- The segment of the new bucket is there before the split.
  pub new_segment :
      (t : HashTable K)
      → IsValid ops t
      → t.max + t.split < dir_size * segment_size
      → (dir : Directory K) × ((if (t.max + t.split) % segment_size == 0
            then alloc_segment t.dir ((t.max + t.split) / segment_size)
            else some t.dir)
          ≡ some dir)
        × (allocated dir (t.max + t.split) ≡ true)
        × ((b : ℕ) → b < t.max + t.split → cell_at dir b ≡ cell_at t.dir b)
  new_segment t v h =
      let n = t.max + t.split in
      elim (Bool-cases (n % segment_size == 0)) [
        | inl e ↦
            let (dir, run, there, same) = alloc_segment_lem t.dir n h in
            (dir, rw e run, there, λ b l. same b (ground arith))
        | inr e ↦
            let last =
              cell_at-allocated t.dir (n - 1) (v.rows (n - 1) (omega (arith, v.shape.large))) in
            (t.dir, rw e, allocated_congr t.dir n (n - 1) (ground arith) ∙ last, λ b l. refl)
      ]

  -- `t` with the segment of the new bucket in `dir`
  module _ (t : HashTable K) (v : IsValid ops t) (room : t.max + t.split < dir_size * segment_size)
      (dir : Directory K) (there : allocated dir (t.max + t.split) ≡ true)
      (same : (b : ℕ) → b < t.max + t.split → cell_at dir b ≡ cell_at t.dir b) where
    abbrev pub counters : HashTable K
    counters = advance (record t { dir = dir })

    abbrev pub halves : Chain K × Chain K
    halves = split_chain ops counters (t.max + t.split) (chain_of t.dir t.split) [] []

    abbrev pub split_dir : Directory K
    split_dir = put_cell (put_cell dir t.split halves.0) (t.max + t.split) halves.1

    abbrev pub expanded : HashTable K
    expanded = record counters { dir = split_dir }

    split_row : cell_at dir t.split ≡ some (chain_of t.dir t.split)
    split_row =
        let s = v.shape in
        same t.split (omega (arith, s.split_lt)) ∙ v.rows t.split (omega (arith, s.split_lt))

    pub counters-IsShaped :
        IsShaped counters × (counters.max + counters.split ≡ t.max + t.split + 1)
    counters-IsShaped =
        advance-IsShaped ops (record t { dir = dir }) (IsShaped-dir t dir v.shape) room

    cell_at-split_dir :
        (b : ℕ)
        → cell_at split_dir b ≡ (
            if t.max + t.split == b
            then some halves.1
            else if t.split == b
            then some halves.0
            else cell_at dir b)
    cell_at-split_dir b = ground (
      arith,
      cell_at-put dir t.split halves.0 b (cell_at-allocated dir t.split split_row),
      cell_at-put (put_cell dir t.split halves.0) (t.max + t.split) halves.1 b
          (allocated-put dir t.split halves.0 (t.max + t.split) ∙ there),
    )

    pub expand-expanded :
        ((if (t.max + t.split) % segment_size == 0
            then alloc_segment t.dir ((t.max + t.split) / segment_size)
            else some t.dir)
          ≡ some dir)
        → expand ops t ≡ some expanded
    unfolding expand
    expand-expanded run =
        let below : leb (dir_size * segment_size) (t.split + t.max) ≡ false = ground arith in
        rw (
          below,
          run,
          split_row,
          set_cell-put dir t.split halves.0 (cell_at-allocated dir t.split split_row),
          set_cell-put (put_cell dir t.split halves.0) (t.max + t.split) halves.1
              (allocated-put dir t.split halves.0 (t.max + t.split) ∙ there),
        )

    pub chain_of-split_dir :
        (b : ℕ)
        → b < t.max + t.split + 1
        → chain_of split_dir b ≡ (
            if t.max + t.split == b
            then halves.1
            else if t.split == b
            then halves.0
            else chain_of t.dir b)
    unfolding chain_of
    chain_of-split_dir b l = ground (arith, cell_at-split_dir b, same b)

    expanded-total : (w : Cell K → ℕ) → total w expanded ≡ total w t
    unfolding total sum_to weigh
    expanded-total w =
        let n = t.max + t.split in
        let lt : t.split < n = omega (arith, v.shape.split_lt, v.shape.large) in
        let change =
          sum_to_change n t.split (λ b. weigh w (chain_of t.dir b))
            (λ b. weigh w (chain_of split_dir b)) lt
            (λ j l ne. ground (arith, chain_of-split_dir j)) in
        rw counters-IsShaped.1 (
          ground (
            arith,
            change,
            chain_of-split_dir n,
            chain_of-split_dir t.split,
            split_chain-weigh ops counters n w (chain_of t.dir t.split) [] [],
          ))

    pub hash-expanded : (q : K) → hash ops expanded q ≡ hash ops counters q
    unfolding hash bucket_of
    hash-expanded q = refl

    pub hash-counters :
        (q : K)
        → (hash ops t q ≢ t.split → hash ops counters q ≡ hash ops t q)
          × (hash ops t q ≡ t.split
              → (hash ops counters q ≡ t.split) ⊎ (hash ops counters q ≡ t.max + t.split))
    unfolding hash bucket_of
    hash-counters q = hash-advance ops (record t { dir = dir }) q (IsShaped-dir t dir v.shape)

    expanded-home :
        (q : K) (b : ℕ)
        → b < t.max + t.split + 1
        → hash ops counters q ≢ b
        → weigh (has_key ops q) (chain_of split_dir b) ≡ 0
    unfolding weigh
    expanded-home q b l ne =
        let n = t.max + t.split in
        let c = chain_of t.dir t.split in
        let on : On ops q (has_key ops q) = λ hl e. rw e in
        rw (chain_of-split_dir b l) (
          ground (
            arith,
            hash-counters q,
            v.home q b,
            v.home q t.split,
            v.shape.split_lt,
            v.shape.large,
            split_chain-weigh ops counters n (has_key ops q) c [] [],
            split_chain-old ops counters n q (has_key ops q) on c [] [],
            split_chain-new ops counters n q (has_key ops q) on c [] [],
          ))

    pub expanded-IsValid : IsValid ops expanded
    unfolding chain_of
    expanded-IsValid = record {
      shape = IsShaped-dir counters split_dir counters-IsShaped.0;
      rows = λ b l. ground (arith, cell_at-split_dir b, same b, v.rows b, counters-IsShaped.1);
      home = λ q b l ne.
          expanded-home q b (omega (arith, counters-IsShaped.1)) (λ e. ne (hash-expanded q ∙ e));
      apart = λ a.
          rw (expanded-total (at_addr a), advance-free_list (record t { dir = dir })) (v.apart a);
    }

  -- The outcome of a call of `expand`: the same cells in a valid table.
  pub record Expands (t t' : HashTable K) : Type 0 where
    pub valid : IsValid ops t'
    pub cells : (w : Cell K → ℕ) → total w t' ≡ total w t
    pub counts : t'.kcount ≡ t.kcount
    pub free : t'.free_list ≡ t.free_list
    pub chunks : t'.chunks ≡ t.chunks

  -- `expand` of a valid table makes no wild access and gives a valid table with the same cells,
  -- each as often; the number of keys, the free list and the chunks stay as they were.
  pub expand-Expands :
      (t : HashTable K)
      → IsValid ops t
      → (t' : HashTable K) × (expand ops t ≡ some t') × Expands t t'
  unfolding expand
  expand-Expands t v = elim (Bool-cases (leb (dir_size * segment_size) (t.split + t.max))) [
    | inl full ↦ (
      t,
      rw full,
      record { valid = v; cells = λ w. refl; counts = refl; free = refl; chunks = refl },
    )
    | inr room ↦
        let lt : t.max + t.split < dir_size * segment_size = ground arith in
        let (dir, run, there, same) = new_segment t v lt in
        (
          expanded t v lt dir there same,
          expand-expanded t v lt dir there same run,
          record {
            valid = expanded-IsValid t v lt dir there same;
            cells = expanded-total t v lt dir there same;
            counts = advance-kcount (record t { dir = dir });
            free = advance-free_list (record t { dir = dir });
            chunks = advance-chunks (record t { dir = dir });
          },
        )
  ]
