-- ===== src/Hash.antt =====
-- rts/Hash.c: linear hash tables (Larson). The table grows by one bucket at a time: `expand` splits
-- the bucket `split`, and once all buckets below `max` are split, `max` doubles.
-- A chain of cells is a list, and each cell keeps its address, so that the free list of cells and
-- the cells in use can be told apart. `none` is a fault: an access through a segment that was not
-- allocated, outside the directory, or to a bucket that was never written.
-- The `int` fields stay below 2 ^ 31 (`max + split` is at most 2 ^ 20), so no wrap is written.
pub mod Cells
pub mod Directory
pub mod Valid
pub mod Expand
pub mod Replace
pub mod Lookup
pub mod Insert
pub mod Remove
pub mod Free
pub mod Overwrite
pub mod Start
pub mod Keys
mod Tests
use Prim.Native.Nat.{bit_and, bit_or}
use mathlib.Core.Option
use ghc_xapp_fix.Prelude.{
  ℕ, zero, suc, ◌+◌, ◌-◌, ◌*◌, ◌/◌, ◌%◌, ◌≡◌, ◌↔◌, Bool, true, false, ◌&&◌, ◌||◌, Option, none,
  some, List, [], ◌∷◌, ◌++◌, map, ltb, leb, ◌==◌, if◌then◌else◌, update, ◌>>=◌,
}

-- `HashFunction` and `CompareFunction`: every hash function of the runtime takes a number from the
-- key and masks it (`bucket_of`); a comparison is an equality test.
pub record KeyOps (K : Type 0) : Type 0 where
  pub raw : K → ℕ
  pub compare : K → K → Bool
  pub compare_iff : (a b : K) → (compare a b ≡ true) ↔ (a ≡ b)

abbrev pub segment_size : ℕ
segment_size = 1024

abbrev pub dir_size : ℕ
dir_size = 1024

abbrev pub max_load : ℕ
max_load = 5

-- `sizeof(HashList)` and the number of cells in a chunk of 1024 words, on a 64-bit machine
abbrev pub cell_size : ℕ
cell_size = 24

abbrev pub chunk_cells : ℕ
chunk_cells = 1024 * 8 / cell_size

-- `HashList`, with its address; a `void *` is a number, and `NULL` is 0
pub record Cell (K : Type 0) : Type 0 where
  pub addr : ℕ
  pub key : K
  pub value : ℕ

abbrev pub Chain : Type 0 → Type 0
Chain K = List (Cell K)

-- `HashList **dir[HDIRSIZE]`: a segment that was not allocated, and a bucket of a new segment that
-- was not written yet, are `none`
abbrev pub Directory : Type 0 → Type 0
Directory K = ℕ → Option (ℕ → Option (Chain K))

pub record HashTable (K : Type 0) : Type 0 where
  pub split : ℕ
  pub max : ℕ
  pub mask1 : ℕ
  pub mask2 : ℕ
  pub kcount : ℕ
  pub bcount : ℕ
  pub dir : Directory K
  pub free_list : List ℕ
  pub chunks : List ℕ

abbrev pub is_some : {A : Type 0} → Option A → Bool
is_some none = false
is_some (some _) = true

-- the free cells from address `a` on
pub cells_from : ℕ → ℕ → List ℕ
cells_from a zero = []
cells_from a (suc n) = a ∷ cells_from (a + cell_size) n

module _ {K : Type 0} where
  -- the masking that ends `hashWord` and `hashStr`
  unfoldable pub bucket_of : HashTable K → ℕ → ℕ
  bucket_of t h =
      let bucket = bit_and h t.mask1 in if ltb bucket t.split then bit_and h t.mask2 else bucket

  pub allocated : Directory K → ℕ → Bool
  allocated dir b = ltb (b / segment_size) dir_size && is_some (dir (b / segment_size))

  -- `table->dir[b / HSEGSIZE][b % HSEGSIZE]`, read and written
  unfoldable pub cell_at : Directory K → ℕ → Option (Chain K)
  cell_at dir b =
      if ltb (b / segment_size) dir_size
      then elim (dir (b / segment_size)) [ none ↦ none | some seg ↦ seg (b % segment_size) ]
      else none

  pub put_cell : Directory K → ℕ → Chain K → Directory K
  put_cell dir b c =
      update dir (b / segment_size)
        (Option.map (λ seg. update seg (b % segment_size) (some c)) (dir (b / segment_size)))

  pub set_cell : Directory K → ℕ → Chain K → Option (Directory K)
  set_cell dir b c = if allocated dir b then some (put_cell dir b c) else none

  pub alloc_segment : Directory K → ℕ → Option (Directory K)
  alloc_segment dir segment =
      if ltb segment dir_size then some (update dir segment (some (λ _. none))) else none

  -- the counters of `expand`, and `bcount++`
  pub advance : HashTable K → HashTable K
  advance t =
      if t.split + 1 == t.max
      then record t {
        split = 0;
        max = t.max * 2;
        mask1 = t.mask2;
        mask2 = bit_or (t.mask2 * 2) 1;
        bcount = t.bcount + 1;
      }
      else record t { split = t.split + 1; bcount = t.bcount + 1 }

  -- `chunk` is the block that `malloc` returns, where it is called
  pub alloc_cell : HashTable K → ℕ → ℕ × HashTable K
  unfolding cells_from
  alloc_cell t chunk = elim t.free_list [
    | hl ∷ rest ↦ (hl, record t { free_list = rest })
    | [] ↦ (
      chunk,
      record t {
        free_list = cells_from (chunk + cell_size) (chunk_cells - 1);
        chunks = chunk ∷ t.chunks;
      },
    )
  ]

  pub free_cell : HashTable K → ℕ → HashTable K
  free_cell t hl = record t { free_list = hl ∷ t.free_list }

  -- the loop that writes `NULL` to each bucket of the first segment
  pub clear_buckets : ℕ → (ℕ → Option (Chain K)) → ℕ → Option (Chain K)
  clear_buckets zero seg = seg
  clear_buckets (suc n) seg = update (clear_buckets n seg) n (some [])

  pub alloc_hash_table : HashTable K
  alloc_hash_table = record {
    split = 0;
    max = segment_size;
    mask1 = segment_size - 1;
    mask2 = 2 * segment_size - 1;
    kcount = 0;
    bcount = segment_size;
    dir = update (λ _. none) 0 (some (clear_buckets segment_size (λ _. none)));
    free_list = [];
    chunks = [];
  }

module _ {K : Type 0} (ops : KeyOps K) where
  -- `table->hash(table, key)`
  unfoldable pub hash : HashTable K → K → ℕ
  unfolding bucket_of
  hash t key = bucket_of t (ops.raw key)

  -- the loop of `expand` over the chain of the bucket that is split
  pub split_chain : HashTable K → ℕ → Chain K → Chain K → Chain K → Chain K × Chain K
  split_chain t newbucket [] old new = (old, new)
  split_chain t newbucket (hl ∷ rest) old new =
      split_chain t newbucket rest (if hash t hl.key == newbucket then old else hl ∷ old)
        (if hash t hl.key == newbucket then hl ∷ new else new)

  pub expand : HashTable K → Option (HashTable K)
  expand t = if leb (dir_size * segment_size) (t.split + t.max) then some t else do
    let newbucket = t.max + t.split
    dir ←
        if newbucket % segment_size == 0
        then alloc_segment t.dir (newbucket / segment_size)
        else some t.dir
    let t' = advance (record t { dir = dir })
    chain ← cell_at dir t.split
    let (old, new) = split_chain t' newbucket chain [] []
    dir' ← set_cell dir t.split old
    dir'' ← set_cell dir' newbucket new
    some (record t' { dir = dir'' })

  -- the data of the first cell with the key, or `NULL`
  pub find : K → Chain K → ℕ
  find key [] = 0
  find key (hl ∷ rest) = if ops.compare hl.key key then hl.value else find key rest

  pub lookup_hash_table : HashTable K → K → Option ℕ
  lookup_hash_table t key = do chain ← cell_at t.dir (hash t key); some (find key chain)

  pub insert_hash_table : HashTable K → K → ℕ → ℕ → Option (HashTable K)
  insert_hash_table t key value chunk = do
    let counted = record t { kcount = t.kcount + 1 }
    t' ← if leb (max_load * t.bcount) (t.kcount + 1) then expand counted else some counted
    let bucket = hash t' key
    let (hl, t'') = alloc_cell t' chunk
    chain ← cell_at t''.dir bucket
    dir ← set_cell t''.dir bucket (record { addr = hl; key = key; value = value } ∷ chain)
    some (record t'' { dir = dir })

  -- the first cell with the key (and the data, unless that is `NULL`), and the chain without it
  pub unlink : K → ℕ → Chain K → Option (Cell K × Chain K)
  unlink key value [] = none
  unlink key value (hl ∷ rest) =
      if ops.compare hl.key key && (value == 0 || hl.value == value)
      then some (hl, rest)
      else Option.map (λ r. (r.0, hl ∷ r.1)) (unlink key value rest)

  -- `none` is also the assertion at the end, where it fails. A table that counts its cells in
  -- `kcount` counts one at least when a cell is found.
  pub remove_hash_table : HashTable K → K → ℕ → Option (ℕ × HashTable K)
  remove_hash_table t key value = do
    let bucket = hash t key
    chain ← cell_at t.dir bucket
    elim (unlink key value chain) [
      | none ↦ if value == 0 then some (0, t) else none
      | some (hl, rest) ↦ do
        dir ← set_cell t.dir bucket rest
        some (hl.value, free_cell (record t { dir = dir; kcount = t.kcount - 1 }) hl.addr)
    ]

-- The calls that `freeHashTable` makes: `freeDataFun` on each datum, in order, and `stgFree` on the
-- segments and on the chunks.
pub record Freed : Type 0 where
  pub values : List ℕ
  pub segments : List ℕ
  pub chunks : List ℕ

module _ {K : Type 0} where
  -- the loop over the buckets of one segment, from the last one down
  pub free_buckets : Directory K → ℕ → ℕ → Option (List ℕ)
  free_buckets dir segment zero = some []
  free_buckets dir segment (suc index) = do
    chain ← cell_at dir (segment * segment_size + index)
    rest ← free_buckets dir segment index
    some (map (λ hl. hl.value) chain ++ rest)

  -- the loop over the segments; `n` of them are left, and `count` buckets of the last
  pub free_segments : Directory K → ℕ → ℕ → Option (List ℕ × List ℕ)
  free_segments dir zero count = some ([], [])
  free_segments dir (suc segment) count = do
    values ← free_buckets dir segment count
    rest ← free_segments dir segment segment_size
    some (values ++ rest.0, segment ∷ rest.1)

  pub free_hash_table : HashTable K → Option Freed
  free_hash_table t = do
    let last = t.max + t.split - 1
    r ← free_segments t.dir (suc (last / segment_size)) (last % segment_size + 1)
    some (record { values = r.0; segments = r.1; chunks = t.chunks })
