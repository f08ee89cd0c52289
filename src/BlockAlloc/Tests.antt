-- ===== src/BlockAlloc/Tests.antt =====
-- rts/sm/BlockAlloc.c: groups that are freed between others.
use ghc_xapp_fix.Prelude.{ℕ, ◌≡◌, refl, inl, inr, List, [], ◌∷◌, arith}
use ghc_xapp_fix.BlockAlloc.{
  MegaGroup, alloc_mega_group, search_fit, shrink, return_memory_to_os, mblock_group_blocks,
  free_mega_group, free_from, free_after, coalesce_mblocks,
}
use ghc_xapp_fix.BlockAlloc.Fit.{Allocs, alloc_mega_group-Allocs}
use ghc_xapp_fix.BlockAlloc.Return.{Returns, return-Returns}
use ghc_xapp_fix.BlockAlloc.Mega.{mblocks, IsApart, Frees, free_mega_group-Frees}

abbrev group : ℕ → ℕ → MegaGroup
group mblock n = record { mblock = mblock; blocks = mblock_group_blocks n }

-- megablocks 2 and 3, and 6
abbrev holes : List MegaGroup
holes = group 2 2 ∷ group 6 1 ∷ []

holes-IsApart : IsApart 0 holes
unfolding IsApart
holes-IsApart = (omega arith, refl, (omega arith, refl, tt))

-- Freeing megablocks 4 and 5 closes the gap.
closes_gap : free_mega_group (group 4 2) holes ≡ group 2 5 ∷ []
unfolding free_mega_group free_from free_after coalesce_mblocks
closes_gap = refl

free_mega_group-Frees_example : Frees 0 (group 4 2) holes (free_mega_group (group 4 2) holes)
unfolding mblocks
free_mega_group-Frees_example =
    free_mega_group-Frees (group 4 2) holes refl holes-IsApart
      (inl (omega arith), (inr (omega arith), tt)) (omega arith)

-- The smallest group that is large enough loses its end, and the rest stays.
best_taken :
    alloc_mega_group 2 90 (group 0 9 ∷ group 20 4 ∷ group 40 1 ∷ [])
    ≡ (group 22 2, group 0 9 ∷ group 20 2 ∷ group 40 1 ∷ [])
unfolding alloc_mega_group search_fit shrink
best_taken = refl

alloc_mega_group-Allocs_example : Allocs 1 90 holes (alloc_mega_group 1 90 holes)
alloc_mega_group-Allocs_example =
    alloc_mega_group-Allocs 1 90 holes (omega arith) (omega arith) holes-IsApart

return-Returns_example : Returns 0 1 holes (return_memory_to_os 1 holes)
return-Returns_example = return-Returns 1 holes holes-IsApart
