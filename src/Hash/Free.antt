-- ===== src/Hash/Free.antt =====
-- rts/Hash.c: `freeHashTable` passes every datum to the callback once, and frees all memory.
use mathlib.Core.Path.{subst}
use ghc_xapp_fix.Prelude.{
  ℕ, zero, suc, ◌+◌, ◌*◌, ◌-◌, ◌/◌, ◌%◌, ◌<◌, ◌≡◌, refl, Option, some, List, [], ◌∷◌, ◌++◌, map,
  arith, ◌==◌, if◌then◌else◌, sum_to,
}
use ghc_xapp_fix.Hash.{
  KeyOps, Cell, Chain, Directory, HashTable, segment_size, cell_at, Freed, free_buckets,
  free_segments, free_hash_table,
}
use ghc_xapp_fix.Hash.Cells.{weigh}
use ghc_xapp_fix.Hash.Valid.{IsValid, chain_of, total, count}

-- 1 at a cell with the datum
abbrev pub has_value : {K : Type 0} → ℕ → Cell K → ℕ
has_value x hl = if hl.value == x then 1 else 0

-- the segments `n - 1`, …, 0
pub segments_below : ℕ → List ℕ
segments_below zero = []
segments_below (suc n) = n ∷ segments_below n

sum_to-add : (a n : ℕ) (f : ℕ → ℕ) → sum_to (a + n) f ≡ sum_to a f + sum_to n (λ j. f (a + j))
unfolding sum_to
sum_to-add a zero f = let e : a + 0 ≡ a = omega arith in rw e (omega arith)
sum_to-add a (suc n) f =
    let e : a + suc n ≡ suc (a + n) = omega arith in rw e (omega (arith, sum_to-add a n f))

count-append : (x : ℕ) (xs ys : List ℕ) → count x (xs ++ ys) ≡ count x xs + count x ys
unfolding count
count-append x [] ys = omega arith
count-append x (y ∷ xs) ys = omega (arith, count-append x xs ys)

module _ {K : Type 0} where
  count-values : (x : ℕ) (c : Chain K) → count x (map (λ hl. hl.value) c) ≡ weigh (has_value x) c
  unfolding count weigh
  count-values x [] = refl
  count-values x (hl ∷ rest) = omega (arith, count-values x rest)

  -- `dir` holds a chain in each bucket below `n`
  abbrev Rows : Directory K → ℕ → Type 0
  Rows dir n = (b : ℕ) → b < n → cell_at dir b ≡ some (chain_of dir b)

  free_buckets_lem :
      (dir : Directory K) (segment n : ℕ)
      → Rows dir (segment * segment_size + n)
      → (values : List ℕ) × (free_buckets dir segment n ≡ some values)
        × ((x : ℕ)
            → count x values
              ≡ sum_to n (λ j. weigh (has_value x) (chain_of dir (segment * segment_size + j))))
  unfolding free_buckets sum_to count
  free_buckets_lem dir segment zero rows = ([], refl, λ x. refl)
  free_buckets_lem dir segment (suc n) rows =
      let (values, run, sums) = free_buckets_lem dir segment n (λ b l. rows b (omega arith)) in
      (
        map (λ hl. hl.value) (chain_of dir (segment * segment_size + n)) ++ values,
        rw (rows (segment * segment_size + n) (omega arith), run),
        λ x.
            rw count-append
              (omega (arith, sums x, count-values x (chain_of dir (segment * segment_size + n)))),
      )

  -- the values of the buckets below `m`, from the segments below `n`
  record FreedBelow (dir : Directory K) (m n : ℕ) (out : Option (List ℕ × List ℕ)) : Type 0 where
    values : List ℕ
    run : out ≡ some (values, segments_below n)
    sums : (x : ℕ) → count x values ≡ sum_to m (λ b. weigh (has_value x) (chain_of dir b))

  free_last :
      (dir : Directory K) (segment n : ℕ)
      → Rows dir (segment * segment_size + n)
      → FreedBelow dir (segment * segment_size) segment (free_segments dir segment segment_size)
      → FreedBelow dir
          (segment * segment_size + n)
          (suc segment)
          (free_segments dir (suc segment) n)
  unfolding free_segments segments_below
  free_last dir segment n rows rest =
      let (values, run, sums) = free_buckets_lem dir segment n rows in
      record {
        values = values ++ rest.values;
        run = rw (run, rest.run);
        sums = λ x.
            rw (count-append, sum_to-add (segment * segment_size) n)
              (omega (arith, sums x, rest.sums x));
      }

  free_whole :
      (dir : Directory K) (segment : ℕ)
      → Rows dir (segment * segment_size)
      → FreedBelow dir (segment * segment_size) segment (free_segments dir segment segment_size)
  unfolding free_segments segments_below sum_to count
  free_whole dir zero rows = record { values = []; run = refl; sums = λ x. refl }
  free_whole dir (suc segment) rows =
      let e : segment * segment_size + segment_size ≡ suc segment * segment_size = omega arith in
      rw (← e) (
        free_last dir segment segment_size (λ b l. rows b (omega arith))
          (free_whole dir segment (λ b l. rows b (omega arith))))

  free_all :
      (dir : Directory K) (segment n m : ℕ)
      → segment * segment_size + n ≡ m
      → Rows dir m
      → FreedBelow dir m (suc segment) (free_segments dir (suc segment) n)
  free_all dir segment n m e rows =
      subst (λ m. FreedBelow dir m (suc segment) (free_segments dir (suc segment) n)) e
        (free_last dir segment n (λ b l. rows b (omega arith))
          (free_whole dir segment (λ b l. rows b (omega arith))))

module _ {K : Type 0} (ops : KeyOps K) where
  -- `freeHashTable` of a valid table reads no unwritten bucket; it calls `freeDataFun` on each datum
  -- as often as the table holds it; and it frees every segment in use, the last one first, and
  -- every chunk.
  pub free-values :
      (t : HashTable K)
      → IsValid ops t
      → (r : Freed) × (free_hash_table t ≡ some r)
        × ((x : ℕ) → count x r.values ≡ total (has_value x) t)
        × (r.segments ≡ segments_below (suc ((t.max + t.split - 1) / segment_size)))
        × (r.chunks ≡ t.chunks)
  unfolding free_hash_table total
  free-values t v =
      let last = t.max + t.split - 1 in
      let s = v.shape in
      let f =
        free_all t.dir (last / segment_size) (last % segment_size + 1) (t.max + t.split)
          (omega (arith, s.large)) v.rows in
      (record { values = f.values; segments = _; chunks = t.chunks }, rw f.run, f.sums, refl, refl)
