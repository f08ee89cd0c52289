-- ===== src/Hash/Insert.antt =====
-- rts/Hash.c: `insertHashTable` adds one cell, whose memory no other cell uses.
use ghc_xapp_fix.Prelude.{
  ℕ, zero, suc, ◌+◌, ◌-◌, ◌*◌, ◌≤◌, ◌<◌, ◌≡◌, refl, ap, true, some, List, [], ◌∷◌, arith, leb, ◌==◌,
  Bool-cases, inl, inr, if◌then◌else◌,
}
use ghc_xapp_fix.Hash.{
  KeyOps, Cell, HashTable, bucket_of, hash, cell_size, chunk_cells, cells_from, alloc_cell, expand,
  insert_hash_table, lookup_hash_table, put_cell, set_cell, max_load,
}
use ghc_xapp_fix.Hash.Cells.{weigh, has_key, value_at, compare-hash}
use ghc_xapp_fix.Hash.Valid.{
  IsValid, IsUnique, IsCounted, chain_of, total, at_addr, view, count, total-On-zero, hash-lt,
}
use ghc_xapp_fix.Hash.Expand.{Expands, expand-Expands}
use ghc_xapp_fix.Hash.Replace.{replaced, replaced-total, replaced-IsValid, set_cell-replaced}
use ghc_xapp_fix.Hash.Lookup.{lookup-view}

count-cells_from_below : (n a b : ℕ) → a < b → count a (cells_from b n) ≡ 0
unfolding count cells_from
count-cells_from_below zero a b h = refl
count-cells_from_below (suc n) a b h = ground (arith, count-cells_from_below n a (b + cell_size))

-- The cells of a chunk are distinct.
count-cells_from : (n a b : ℕ) → count a (cells_from b n) ≤ 1
unfolding count cells_from
count-cells_from zero a b = omega arith
count-cells_from (suc n) a b =
    ground (arith, count-cells_from n a (b + cell_size), count-cells_from_below n a (b + cell_size))

cells_from-suc : (n b : ℕ) → cells_from b (suc n) ≡ b ∷ cells_from (b + cell_size) n
unfolding cells_from
cells_from-suc n b = refl

module _ {K : Type 0} (ops : KeyOps K) where
  -- What `malloc` promises: no cell of the table lies in the new chunk.
  abbrev pub IsFresh : HashTable K → ℕ → Type 0
  IsFresh t chunk =
      (a : ℕ)
      → 0 < count a (cells_from chunk chunk_cells)
      → total (at_addr a) t + count a t.free_list ≡ 0

  alloc_cell-cons :
      (t : HashTable K) (chunk hl : ℕ) (rest : List ℕ)
      → t.free_list ≡ hl ∷ rest
      → alloc_cell t chunk ≡ (hl, record t { free_list = rest })
  unfolding alloc_cell
  alloc_cell-cons t chunk hl rest e = rw (e, alloc_cell)

  alloc_cell-nil :
      (t : HashTable K) (chunk : ℕ)
      → t.free_list ≡ []
      → alloc_cell t chunk ≡ (
        chunk,
        record t {
          free_list = cells_from (chunk + cell_size) (chunk_cells - 1);
          chunks = chunk ∷ t.chunks;
        },
      )
  unfolding alloc_cell
  alloc_cell-nil t chunk e = rw (e, alloc_cell)

  -- A cell that was handed out is not in use, and not free any more; nothing else changes.
  record Allocates (t : HashTable K) (r : ℕ × HashTable K) : Type 0 where
    free : List ℕ
    chunks : List ℕ
    same : r.1 ≡ record t { free_list = free; chunks = chunks }
    apart : (a : ℕ) → total (at_addr a) t + count a free + (if r.0 == a then 1 else 0) ≤ 1

  alloc_cell-Allocates :
      (t : HashTable K) (chunk : ℕ)
      → ((a : ℕ) → total (at_addr a) t + count a t.free_list ≤ 1)
      → IsFresh t chunk
      → (free : List ℕ) → t.free_list ≡ free
      → Allocates t (alloc_cell t chunk)
  unfolding count
  alloc_cell-Allocates t chunk apart fresh [] e = rw (alloc_cell-nil t chunk e) (record {
    free = _;
    chunks = _;
    same = refl;
    apart = λ a.
        let split = ap (count a) (cells_from-suc (chunk_cells - 1) chunk) in
        ground
          (arith, split, count-cells_from chunk_cells a chunk, fresh a, apart a, ap (count a) e);
  })
  alloc_cell-Allocates t chunk apart fresh (hl ∷ rest) e =
      rw (alloc_cell-cons t chunk hl rest e) (record {
        free = _;
        chunks = _;
        same = refl;
        apart = λ a. omega (arith, apart a, ap (count a) e);
      })

  -- the new cell
  abbrev pub new_cell : ℕ → K → ℕ → Cell K
  new_cell hl key value = record { addr = hl; key = key; value = value }

  -- The outcome of an insertion: a valid table with one more cell, and one more key counted.
  pub record Inserts (t : HashTable K) (key : K) (value : ℕ) (t' : HashTable K) : Type 0 where
    pub addr : ℕ
    pub valid : IsValid ops t'
    pub cells : (w : Cell K → ℕ) → total w t' ≡ total w t + w (new_cell addr key value)
    pub counts : t'.kcount ≡ t.kcount + 1

  IsValid-kcount : (t : HashTable K) (k : ℕ) → IsValid ops t → IsValid ops (record t { kcount = k })
  unfolding total hash bucket_of
  IsValid-kcount t k v = record {
    shape = record {
      mask1 = v.shape.mask1;
      mask2 = v.shape.mask2;
      split_lt = v.shape.split_lt;
      large = v.shape.large;
      small = v.shape.small;
      buckets = v.shape.buckets;
    };
    rows = v.rows;
    home = v.home;
    apart = v.apart;
  }

  total-kcount :
      (t : HashTable K) (k : ℕ) (w : Cell K → ℕ) → total w (record t { kcount = k }) ≡ total w t
  unfolding total
  total-kcount t k w = refl

  -- the expansion, where the load is too high
  grow-Expands :
      (t : HashTable K)
      → IsValid ops t
      → let counted = record t { kcount = t.kcount + 1 } in
        (t' : HashTable K) × ((if leb (max_load * t.bcount) (t.kcount + 1)
            then expand ops counted
            else some counted)
          ≡ some t')
        × Expands ops counted t'
  grow-Expands t v =
      let counted = record t { kcount = t.kcount + 1 } in
      let v' = IsValid-kcount t (t.kcount + 1) v in
      elim (Bool-cases (leb (max_load * t.bcount) (t.kcount + 1))) [
        | inl high ↦ rw high (expand-Expands ops counted v')
        | inr low ↦ (
          counted,
          rw low,
          record { valid = v'; cells = λ w. refl; counts = refl; free = refl; chunks = refl },
        )
      ]

  -- the new cell at the head of its bucket
  link_cell :
      (t : HashTable K) (key : K) (value hl : ℕ) (free chunks : List ℕ)
      → IsValid ops t
      → ((a : ℕ) → total (at_addr a) t + count a free + (if hl == a then 1 else 0) ≤ 1)
      → let b = hash ops t key in
        let c = new_cell hl key value ∷ chain_of t.dir b in
        IsValid ops (replaced t b c t.kcount free chunks)
        × ((w : Cell K → ℕ)
            → total w (replaced t b c t.kcount free chunks) ≡ total w t + w (new_cell hl key value))
        × (set_cell t.dir b c ≡ some (put_cell t.dir b c))
  unfolding weigh
  link_cell t key value hl free chunks v apart =
      let b = hash ops t key in
      let c = new_cell hl key value ∷ chain_of t.dir b in
      let lt = hash-lt ops t key v.shape in
      (
        replaced-IsValid ops t v b lt c t.kcount free chunks
            (λ q ne. ground (arith, compare-hash ops t key q, v.home q b))
            (λ a. omega (arith, apart a)),
        λ w. omega (arith, replaced-total ops t v b lt c w t.kcount free chunks),
        set_cell-replaced ops t v b lt c,
      )

  -- An insertion into a valid table, where `malloc` gives a chunk that overlaps no cell of the
  -- table, makes no wild access: it gives a valid table that holds one more cell, with the key and
  -- the data, and counts one more key.
  pub insert-Inserts :
      (t : HashTable K) (key : K) (value chunk : ℕ)
      → IsValid ops t
      → IsFresh t chunk
      → (t' : HashTable K) × (insert_hash_table ops t key value chunk ≡ some t')
        × Inserts t key value t'
  unfolding insert_hash_table
  insert-Inserts t key value chunk v fresh =
      let (u, grown, e) = grow-Expands t v in
      let a =
        alloc_cell-Allocates u chunk e.valid.apart
          (λ a h. omega (
            arith,
            fresh a h,
            e.cells (at_addr a),
            ap (count a) e.free,
            total-kcount t (t.kcount + 1) (at_addr a),
          ))
          u.free_list refl in
      let r = alloc_cell u chunk in
      let (valid, cells, run) = link_cell u key value r.0 a.free a.chunks e.valid a.apart in
      let row = e.valid.rows (hash ops u key) (hash-lt ops u key e.valid.shape) in
      (
        replaced u (hash ops u key) (new_cell r.0 key value ∷ chain_of u.dir (hash ops u key))
            u.kcount a.free a.chunks,
        rw (grown, a.same, row, run),
        record {
          addr = r.0;
          valid = valid;
          cells = λ w. omega (arith, cells w, e.cells w, total-kcount t (t.kcount + 1) w);
          counts = e.counts;
        },
      )

  -- Insertion keeps the count of keys right.
  pub Inserts-IsCounted :
      (t t' : HashTable K) (key : K) (value : ℕ)
      → Inserts t key value t'
      → IsCounted ops t
      → IsCounted ops t'
  Inserts-IsCounted t t' key value i c = omega (arith, i.counts, i.cells (λ _. 1))

  -- An insertion of a key that is absent keeps keys unique, and changes the abstract table at the key only.
  pub Inserts-view :
      (t t' : HashTable K) (key q : K) (value : ℕ)
      → Inserts t key value t'
      → total (has_key ops key) t ≡ 0
      → IsUnique ops t
      → (total (has_key ops q) t' ≤ 1)
        × (view ops t' q ≡ (if ops.compare key q then value else view ops t q))
  unfolding view
  Inserts-view t t' key q value i absent u =
      let none_at : ops.compare key q ≡ true → total (has_key ops q) t ≡ 0 =
        λ e. rw (← (ops.compare_iff key q).0 e) absent in
      let none_there : ops.compare key q ≡ true → total (value_at ops q) t ≡ 0 =
        λ e. total-On-zero ops t q (value_at ops q) (λ hl f. rw f) (none_at e) in
      (
        ground (arith, i.cells (has_key ops q), none_at, u q),
        ground (arith, i.cells (value_at ops q), none_there),
      )

  -- In a valid table in which no key occurs twice, with a chunk from `malloc` that overlaps no
  -- cell of the table: after the insertion of an absent key, a lookup of the key gives the new
  -- data, and a lookup of any other key what it gave before, whether or not the table was expanded
  -- on the way.
  pub lookup-insert :
      (t : HashTable K) (key q : K) (value chunk : ℕ)
      → IsValid ops t
      → IsUnique ops t
      → IsFresh t chunk
      → total (has_key ops key) t ≡ 0
      → (t' : HashTable K) × (insert_hash_table ops t key value chunk ≡ some t')
        × (lookup_hash_table ops t' q
            ≡ (if ops.compare key q then some value else lookup_hash_table ops t q))
  lookup-insert t key q value chunk v u fresh absent =
      let (t', run, i) = insert-Inserts t key value chunk v fresh in
      let u' : IsUnique ops t' = λ q. (Inserts-view t t' key q value i absent u).0 in
      let e = (Inserts-view t t' key q value i absent u).1 in
      (t', run, ground (arith, lookup-view ops t' q i.valid u', lookup-view ops t q v u, e))
