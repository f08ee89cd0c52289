-- ===== src/BlockAlloc/Return.antt =====
-- rts/sm/BlockAlloc.c: `returnMemoryToOS`, and the counts of blocks.
use Prim.Native.Nat.{min}
use ghc_xapp_fix.Prelude.{
  ap, ◌∙◌, ltb→lt, ℕ, suc, ◌+◌, ◌-◌, ◌*◌, ◌%◌, ◌^◌, ◌<◌, ◌≡◌, refl, List, [], ◌∷◌, ltb, leb, ◌==◌,
  ◌&&◌, inl, inr, if◌then◌else◌, All, arith, Bool-cases, ==_iff,
}
use ghc_xapp_fix.BlockAlloc.{
  MegaGroup, blocks_per_mblock, mblock_group_blocks, blocks_to_mblocks, end_of, mblocks_at,
  return_memory_to_os, count_allocd_blocks,
}
use ghc_xapp_fix.BlockAlloc.Mega.{
  IsWhole, IsWhole-small, mblocks, IsApart, cover, IsApart-less, group_round, ltb-false,
}
use ghc_xapp_fix.BlockAlloc.Fit.{shrink_first, end_split}

-- What a call for `n` megablocks leaves of the list `l`, and what it gives back.
pub record Returns (lo n : ℕ) (l : List MegaGroup) (r : List MegaGroup × List MegaGroup)
    : Type 0 where
  pub apart : IsApart lo (r.0)
  pub same : (a : ℕ) → cover a l ≡ cover a (r.0) + cover a (r.1)
  pub amount : mblocks (r.1) ≡ min n (mblocks l)

return_none : (lo : ℕ) (l : List MegaGroup) → IsApart lo l → Returns lo 0 l (l, [])
unfolding cover mblocks
return_none lo l a = record { apart = a; same = λ x. omega arith; amount = omega arith }

abbrev upto : ℕ → ℕ → ℕ → ℕ
upto s a e = if leb s a && ltb a e then 1 else 0

return_part :
    (lo n : ℕ) (g : MegaGroup) (l : List MegaGroup)
    → IsApart lo (g ∷ l)
    → 0 < n
    → n < blocks_to_mblocks g.blocks
    → Returns lo n (g ∷ l) (
      record g { blocks = mblock_group_blocks (blocks_to_mblocks g.blocks - n) } ∷ l,
      mblocks_at (g.mblock + (blocks_to_mblocks g.blocks - n)) n ∷ [],
    )
unfolding mblocks cover IsApart
return_part lo n g l a h lt =
    let size = blocks_to_mblocks g.blocks in
    let left = size - n in
    let r = shrink_first g left l lo a (omega (arith, lt)) (omega (arith, h, lt)) in
    let round = group_round n h (omega (arith, lt, IsWhole-small g a.1)) in
    let e : g.mblock + left + blocks_to_mblocks (mblock_group_blocks n) ≡ end_of g =
      ap (λ k. g.mblock + left + k) round ∙ end_split g.mblock size n lt in
    record {
      apart = r.0;
      same = λ x. omega (arith, r.1 x, ap (upto (g.mblock + left) x) e);
      amount = omega (arith, round, lt);
    }

return_memory_to_os-Returns :
    (l : List MegaGroup) (lo n : ℕ) → IsApart lo l → Returns lo n l (return_memory_to_os n l)
unfolding return_memory_to_os IsApart cover mblocks
return_memory_to_os-Returns [] lo n a = record {
  apart = tt;
  same = λ x. refl;
  amount = omega arith;
}
return_memory_to_os-Returns (g ∷ l) lo n a = elim (Bool-cases (n == 0)) [
  | inl z ↦ rw (z, (==_iff n 0).0 z) (return_none lo (g ∷ l) a)
  | inr nz ↦ elim (Bool-cases (ltb n (blocks_to_mblocks g.blocks))) [
    | inl lt ↦ rw (nz, lt) (return_part lo n g l a (ground (arith, nz)) (ltb→lt _ _ lt))
    | inr ge ↦
        let r =
          return_memory_to_os-Returns l (suc (end_of g)) (n - blocks_to_mblocks g.blocks) a.2 in
        let round = group_round (blocks_to_mblocks g.blocks) (omega arith) (IsWhole-small g a.1) in
        rw (nz, ge)
          (record {
            apart = IsApart-less _ lo (suc (end_of g)) (omega (arith, a.0)) r.apart;
            same = λ x. omega (arith, r.same x, ap (λ k. upto g.mblock x (g.mblock + k)) round);
            amount = omega (arith, r.amount, round, ltb-false _ _ ge);
          })
  ]
]

-- A call of `returnMemoryToOS` for `n` megablocks, where the free list is sorted by address with gaps,
-- keeps it so; it gives back `n` megablocks, or all that are free if these are fewer; and each
-- megablock of the old list is either in the new one or given back.
pub return-Returns :
    (n : ℕ) (l : List MegaGroup) → IsApart 0 l → Returns 0 n l (return_memory_to_os n l)
return-Returns n l a = return_memory_to_os-Returns l 0 n a

-- `countAllocdBlocks` of a list of whole megablock groups leaves out the blocks of the descriptors:
-- it gives `BLOCKS_PER_MBLOCK` for each megablock, in 32 bits.
count_allocd-whole :
    (l : List MegaGroup)
    → All IsWhole l
    → count_allocd_blocks l ≡ (blocks_per_mblock * mblocks l) % 2 ^ 32
unfolding count_allocd_blocks mblocks
count_allocd-whole [] w = refl
count_allocd-whole (g ∷ l) w = elim (Bool-cases (ltb blocks_per_mblock g.blocks)) [
  | inl e ↦ rw e (omega (arith, ltb→lt _ _ e, count_allocd-whole l w.1, w.0))
  | inr e ↦ rw e (omega (arith, ltb-false _ _ e, count_allocd-whole l w.1, w.0))
]
