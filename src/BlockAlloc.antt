-- ===== src/BlockAlloc.antt =====
-- rts/sm/BlockAlloc.c and includes/rts/storage/Block.h: the free list of megablock groups. A group is
-- known by the number of its first megablock (its address divided by `MBLOCK_SIZE`), and the chain of
-- the `link` fields is a list. On a 64-bit machine a megablock holds 256 blocks, of which the first 4
-- hold the descriptors.
pub mod Mega
pub mod Fit
pub mod Return
pub mod Buckets
mod Tests
use ghc_xapp_fix.Prelude.{
  ℕ, zero, suc, ◌+◌, ◌-◌, ◌*◌, ◌/◌, ◌%◌, ◌^◌, Option, none, some, List, [], ◌∷◌, ltb, leb, ◌==◌,
  if◌then◌else◌,
}

-- the head of a megablock group, with its field `blocks`
pub record MegaGroup : Type 0 where
  pub mblock : ℕ
  pub blocks : ℕ

abbrev pub blocks_per_mblock : ℕ
blocks_per_mblock = 252

-- `MBLOCK_SIZE / BLOCK_SIZE`
abbrev pub mblock_blocks : ℕ
mblock_blocks = 256

-- Wherever the macro is used, its value goes to the field `blocks` or to a `nat`, of 32 bits each.
abbrev pub mblock_group_blocks : ℕ → ℕ
mblock_group_blocks n = (blocks_per_mblock + (n - 1) * mblock_blocks) % 2 ^ 32

-- of at least `blocks_per_mblock` blocks
abbrev pub blocks_to_mblocks : ℕ → ℕ
blocks_to_mblocks n = 1 + (n - blocks_per_mblock + (mblock_blocks - 1)) / mblock_blocks

-- the megablock after the group
abbrev pub end_of : MegaGroup → ℕ
end_of g = g.mblock + blocks_to_mblocks g.blocks

-- `p` with its successor `q` taken in
abbrev pub merge : MegaGroup → MegaGroup → MegaGroup
merge p q = record p {
  blocks = mblock_group_blocks (blocks_to_mblocks p.blocks + blocks_to_mblocks q.blocks);
}

-- `coalesce_mblocks`: the list from `p` on, `rest` being its link
pub coalesce_mblocks : MegaGroup → List MegaGroup → List MegaGroup
coalesce_mblocks p [] = p ∷ []
coalesce_mblocks p (q ∷ rest) = if q.mblock == end_of p then merge p q ∷ rest else p ∷ q ∷ rest

-- `free_mega_group` where `prev` is found: the list from `prev` on
pub free_after : MegaGroup → MegaGroup → List MegaGroup → List MegaGroup
free_after prev mg rest =
    if mg.mblock == end_of prev
    then coalesce_mblocks (merge prev mg) rest
    else prev ∷ coalesce_mblocks mg rest

-- the search for the place, from `prev` on
pub free_from : MegaGroup → MegaGroup → List MegaGroup → List MegaGroup
free_from prev mg [] = free_after prev mg []
free_from prev mg (bd ∷ rest) =
    if ltb bd.mblock mg.mblock then prev ∷ free_from bd mg rest else free_after prev mg (bd ∷ rest)

pub free_mega_group : MegaGroup → List MegaGroup → List MegaGroup
free_mega_group mg [] = coalesce_mblocks mg []
free_mega_group mg (bd ∷ rest) =
    if ltb bd.mblock mg.mblock then free_from bd mg rest else coalesce_mblocks mg (bd ∷ rest)

-- The loop of `alloc_mega_group`: a group of just `n` blocks, with what is left of the list, or the
-- best of the larger ones.
pub data MegaSearch : Type 0 where
  exact_fit : MegaGroup → List MegaGroup → MegaSearch
  best_fit : Option MegaGroup → MegaSearch

abbrev pub better : MegaGroup → Option MegaGroup → Option MegaGroup
better bd none = some bd
better bd (some best) = if ltb bd.blocks best.blocks then some bd else some best

-- `bd` stays in the list
abbrev pub pass_by : MegaGroup → MegaSearch → MegaSearch
pass_by bd (exact_fit g rest) = exact_fit g (bd ∷ rest)
pass_by bd (best_fit best) = best_fit best

pub search_fit : ℕ → Option MegaGroup → List MegaGroup → MegaSearch
search_fit n best [] = best_fit best
search_fit n best (bd ∷ rest) =
    let passed = search_fit n best rest in
    let kept = search_fit n (better bd best) rest in
    if bd.blocks == n
    then exact_fit bd rest
    else pass_by bd (if ltb n bd.blocks then kept else passed)

-- `best` loses its last megablocks; a group is known by its address
pub shrink : MegaGroup → ℕ → List MegaGroup → List MegaGroup
shrink best left [] = []
shrink best left (bd ∷ rest) =
    if bd.mblock == best.mblock
    then record bd { blocks = mblock_group_blocks left } ∷ rest
    else bd ∷ shrink best left rest

abbrev pub take_fit : ℕ → ℕ → List MegaGroup → MegaSearch → MegaGroup × List MegaGroup
take_fit mblocks fresh l (exact_fit bd rest) = (bd, rest)
take_fit mblocks fresh l (best_fit (some best)) =
    let left = blocks_to_mblocks best.blocks - mblocks in
    (
      record { mblock = best.mblock + left; blocks = mblock_group_blocks mblocks },
      shrink best left l,
    )
take_fit mblocks fresh l (best_fit none) =
    (record { mblock = fresh; blocks = mblock_group_blocks mblocks }, l)

-- `fresh` is where `getMBlocks` finds new megablocks
pub alloc_mega_group : ℕ → ℕ → List MegaGroup → MegaGroup × List MegaGroup
alloc_mega_group mblocks fresh l =
    take_fit mblocks fresh l (search_fit (mblock_group_blocks mblocks) none l)

-- `freeMBlocks`: the groups that are given back, of as many whole megablocks as `blocks` is for
abbrev pub mblocks_at : ℕ → ℕ → MegaGroup
mblocks_at mblock n = record { mblock = mblock; blocks = mblock_group_blocks n }

pub return_memory_to_os : ℕ → List MegaGroup → List MegaGroup × List MegaGroup
return_memory_to_os n [] = ([], [])
return_memory_to_os n (bd ∷ rest) =
    let size = blocks_to_mblocks bd.blocks in
    let next = return_memory_to_os (n - size) rest in
    if n == 0
    then (bd ∷ rest, [])
    else (if ltb n size
        then (
          record bd { blocks = mblock_group_blocks (size - n) } ∷ rest,
          mblocks_at (bd.mblock + (size - n)) n ∷ [],
        )
        else (next.0, mblocks_at bd.mblock size ∷ next.1))

-- The counts are of type `nat`.
pub count_blocks : List MegaGroup → ℕ
count_blocks [] = 0
count_blocks (bd ∷ rest) = (bd.blocks + count_blocks rest) % 2 ^ 32

pub count_allocd_blocks : List MegaGroup → ℕ
count_allocd_blocks [] = 0
count_allocd_blocks (bd ∷ rest) =
    let n = bd.blocks + count_allocd_blocks rest in
    if ltb blocks_per_mblock bd.blocks
    then (n - (mblock_blocks - blocks_per_mblock) * (bd.blocks / mblock_blocks)) % 2 ^ 32
    else n % 2 ^ 32

-- The bucket of the free lists in which a group of `n` blocks is, and the first in which each group
-- is large enough.
abbrev pub max_free_list : ℕ
max_free_list = 9

pub log_2_ceil_loop : ℕ → ℕ → ℕ → ℕ → ℕ
log_2_ceil_loop n zero i x = max_free_list
log_2_ceil_loop n (suc rounds) i x =
    let next = log_2_ceil_loop n rounds (suc i) (x * 2) in if leb n x then i else next

pub log_2_ceil : ℕ → ℕ
log_2_ceil n = log_2_ceil_loop n max_free_list 0 1

pub log_2_loop : ℕ → ℕ → ℕ → ℕ
log_2_loop zero i x = max_free_list
log_2_loop (suc rounds) i x =
    let next = log_2_loop rounds (suc i) (x / 2) in if x / 2 == 0 then i else next

pub log_2 : ℕ → ℕ
log_2 n = log_2_loop max_free_list 0 n
