-- ===== src/BlockAlloc/Mega.antt =====
-- rts/sm/BlockAlloc.c: `free_mega_group` keeps its list sorted and coalesced.
use mathlib.Core.Path.{subst}
use ghc_xapp_fix.Prelude.{
  ap, sym, ◌∙◌, ==_iff, false, ltb→lt, ℕ, suc, ◌+◌, ◌*◌, ◌^◌, ◌≤◌, ◌<◌, ◌≡◌, refl, List, [], ◌∷◌,
  ◌⊎◌, inl, inr, ◌&&◌, ltb, leb, ◌==◌, if◌then◌else◌, All, arith, Bool-cases,
}
use ghc_xapp_fix.BlockAlloc.{
  MegaGroup, mblock_group_blocks, blocks_to_mblocks, end_of, merge, coalesce_mblocks, free_after,
  free_from, free_mega_group,
}

-- The groups are whole, none starts below `lo`, and between two of them there is a gap.
abbrev pub IsWhole : MegaGroup → Type 0
IsWhole g = g.blocks ≡ mblock_group_blocks (blocks_to_mblocks g.blocks)

-- the megablocks of the groups of a list
unfoldable pub mblocks : List MegaGroup → ℕ
mblocks [] = 0
mblocks (g ∷ l) = blocks_to_mblocks g.blocks + mblocks l

-- as many megablocks as the field `blocks` of one group can stand for
abbrev pub max_mblocks : ℕ
max_mblocks = 2 ^ 24

unfoldable pub IsApart : ℕ → List MegaGroup → Type 0
IsApart lo [] = Unit
IsApart lo (g ∷ l) = (lo ≤ g.mblock) × IsWhole g × IsApart (suc (end_of g)) l

-- how often the groups cover megablock `a`
abbrev pub covers : ℕ → MegaGroup → ℕ
covers a g = if leb g.mblock a && ltb a (end_of g) then 1 else 0

unfoldable pub cover : ℕ → List MegaGroup → ℕ
cover a [] = 0
cover a (g ∷ l) = covers a g + cover a l

-- no group of the list meets `mg`
abbrev pub Misses : MegaGroup → List MegaGroup → Type 0
Misses mg l = All (λ g. (end_of g ≤ mg.mblock) ⊎ (end_of mg ≤ g.mblock)) l

-- `r` holds what `l` holds and `mg`
pub record Frees (lo : ℕ) (mg : MegaGroup) (l r : List MegaGroup) : Type 0 where
  pub apart : IsApart lo r
  pub same : (a : ℕ) → cover a r ≡ covers a mg + cover a l

pub IsApart-less : (l : List MegaGroup) (lo hi : ℕ) → lo ≤ hi → IsApart hi l → IsApart lo l
unfolding IsApart
IsApart-less [] lo hi h a = tt
IsApart-less (g ∷ l) lo hi h a = (omega (arith, a.0), a.1, a.2)

joined : (s n m t : ℕ) → t ≡ s + n → s + (n + m) ≡ t + m
joined s n m t e = omega arith

apart_lt : (a b : ℕ) → b ≤ a → (a == b) ≡ false → suc b ≤ a
apart_lt a b h e = ground arith

-- the size of a group does not wrap
pub group_blocks : (n : ℕ) → 0 < n → n ≤ max_mblocks → mblock_group_blocks n + 4 ≡ n * 256
group_blocks n h small = omega arith

pub group_round : (n : ℕ) → 0 < n → n ≤ max_mblocks → blocks_to_mblocks (mblock_group_blocks n) ≡ n
group_round n h small = omega (arith, group_blocks n h small)

pub IsWhole-small : (g : MegaGroup) → IsWhole g → blocks_to_mblocks g.blocks ≤ max_mblocks
IsWhole-small g w = omega arith

-- two groups that fit into one
abbrev Fits : MegaGroup → MegaGroup → Type 0
Fits p q = blocks_to_mblocks p.blocks + blocks_to_mblocks q.blocks ≤ max_mblocks

merge_size :
    (p q : MegaGroup)
    → Fits p q
    → blocks_to_mblocks (merge p q).blocks ≡ blocks_to_mblocks p.blocks + blocks_to_mblocks q.blocks
merge_size p q f = group_round _ (omega arith) f

merge-IsWhole : (p q : MegaGroup) → Fits p q → IsWhole (merge p q)
merge-IsWhole p q f = ap mblock_group_blocks (sym (merge_size p q f))

-- the merged group ends where `q` does
end_of-merge : (p q : MegaGroup) → Fits p q → q.mblock ≡ end_of p → end_of (merge p q) ≡ end_of q
end_of-merge p q f e = ap (λ n. p.mblock + n) (merge_size p q f) ∙ joined _ _ _ _ e

-- an interval in two parts
pub covers_parts :
    (a s m e : ℕ)
    → s ≤ m
    → m ≤ e
    → (if leb s a && ltb a e then 1 else 0)
      ≡ (if leb s a && ltb a m then 1 else 0) + (if leb m a && ltb a e then 1 else 0)
covers_parts a s m e h h' = ground arith

covers-merge :
    (a : ℕ) (p q : MegaGroup)
    → Fits p q
    → q.mblock ≡ end_of p
    → covers a (merge p q) ≡ covers a p + covers a q
covers-merge a p q f e =
    ap (λ k. if leb p.mblock a && ltb a k then 1 else 0) (end_of-merge p q f e)
    ∙ covers_parts a p.mblock (end_of p) (end_of q) (omega arith) (omega (arith, e))
    ∙ ap (λ k. covers a p + (if leb k a && ltb a (end_of q) then 1 else 0)) (sym e)

coalesce_mblocks-Frees :
    (lo : ℕ) (p : MegaGroup) (l : List MegaGroup)
    → lo ≤ p.mblock
    → IsWhole p
    → IsApart (end_of p) l
    → blocks_to_mblocks p.blocks + mblocks l ≤ max_mblocks
    → Frees lo p l (coalesce_mblocks p l)
unfolding coalesce_mblocks IsApart cover mblocks
coalesce_mblocks-Frees lo p [] h w a small = record { apart = (h, w, tt); same = λ m. refl }
coalesce_mblocks-Frees lo p (q ∷ l) h w a small = elim (Bool-cases (q.mblock == end_of p)) [
  | inl e ↦
      let e' = (==_iff q.mblock (end_of p)).0 e in
      let f : Fits p q = omega (arith, small) in
      rw e (record {
        apart = (
          h,
          merge-IsWhole p q f,
          subst (λ k. IsApart (suc k) l) (sym (end_of-merge p q f e')) a.2,
        );
        same = λ m. omega (arith, covers-merge m p q f e');
      })
  | inr e ↦
      let gap : suc (end_of p) ≤ q.mblock = apart_lt q.mblock (end_of p) a.0 e in
      rw e (record { apart = (h, w, (gap, a.1, a.2)); same = λ m. refl })
]

-- The group is freed after `prev`.
free_after-Frees :
    (lo : ℕ) (prev mg : MegaGroup) (l : List MegaGroup)
    → lo ≤ prev.mblock
    → IsWhole prev
    → IsWhole mg
    → end_of prev ≤ mg.mblock
    → IsApart (end_of mg) l
    → blocks_to_mblocks mg.blocks + mblocks (prev ∷ l) ≤ max_mblocks
    → Frees lo mg (prev ∷ l) (free_after prev mg l)
unfolding free_after IsApart cover mblocks
free_after-Frees lo prev mg l h w w' le a small = elim (Bool-cases (mg.mblock == end_of prev)) [
  | inl e ↦
      let e' = (==_iff mg.mblock (end_of prev)).0 e in
      let f : Fits prev mg = omega (arith, small) in
      let m =
        coalesce_mblocks-Frees lo (merge prev mg) l h (merge-IsWhole prev mg f)
          (subst (λ k. IsApart k l) (sym (end_of-merge prev mg f e')) a)
          (omega (arith, merge_size prev mg f, small)) in
      rw e (record {
        apart = m.apart;
        same = λ x. omega (arith, m.same x, covers-merge x prev mg f e');
      })
  | inr e ↦
      let gap : suc (end_of prev) ≤ mg.mblock = apart_lt mg.mblock (end_of prev) le e in
      let m = coalesce_mblocks-Frees (suc (end_of prev)) mg l gap w' a (omega (arith, small)) in
      rw e (record { apart = (h, w, m.apart); same = λ x. omega (arith, m.same x) })
]

-- a group that meets `mg` nowhere lies before it or after it
lies_before :
    (mg g : MegaGroup)
    → (end_of g ≤ mg.mblock) ⊎ (end_of mg ≤ g.mblock)
    → g.mblock < mg.mblock
    → end_of g ≤ mg.mblock
lies_before mg g (inl h) lt = h
lies_before mg g (inr h) lt = absurd (omega (arith, h, lt))

lies_after :
    (mg g : MegaGroup)
    → (end_of g ≤ mg.mblock) ⊎ (end_of mg ≤ g.mblock)
    → mg.mblock ≤ g.mblock
    → end_of mg ≤ g.mblock
lies_after mg g (inl h) le = absurd (omega (arith, h, le))
lies_after mg g (inr h) le = h

pub ltb-false : (a b : ℕ) → ltb a b ≡ false → b ≤ a
ltb-false a b h = ground arith

free_from-Frees :
    (lo : ℕ) (prev mg : MegaGroup) (l : List MegaGroup)
    → lo ≤ prev.mblock
    → IsWhole prev
    → IsWhole mg
    → end_of prev ≤ mg.mblock
    → IsApart (suc (end_of prev)) l
    → Misses mg l
    → blocks_to_mblocks mg.blocks + mblocks (prev ∷ l) ≤ max_mblocks
    → Frees lo mg (prev ∷ l) (free_from prev mg l)
unfolding free_from IsApart cover mblocks
free_from-Frees lo prev mg [] h w w' le a away small =
    free_after-Frees lo prev mg [] h w w' le tt small
free_from-Frees lo prev mg (bd ∷ l) h w w' le a away small =
    elim (Bool-cases (ltb bd.mblock mg.mblock)) [
      | inl e ↦
          let before = lies_before mg bd away.0 (ltb→lt _ _ e) in
          let m =
            free_from-Frees (suc (end_of prev)) bd mg l a.0 a.1 w' before a.2 away.1
              (omega (arith, small)) in
          rw e (record { apart = (h, w, m.apart); same = λ x. omega (arith, m.same x) })
      | inr e ↦
          let after = lies_after mg bd away.0 (ltb-false _ _ e) in
          rw e (free_after-Frees lo prev mg (bd ∷ l) h w w' le (after, a.1, a.2) small)
    ]

-- If the free list of megablock groups is sorted by address, with a gap between any two groups, a
-- whole group that meets none of them is freed, and all of them together are at most 2 ^ 24
-- megablocks, then the list is sorted with gaps again, and covers each megablock of the group and
-- of the old list, as often as these did together.
pub free_mega_group-Frees :
    (mg : MegaGroup) (l : List MegaGroup)
    → IsWhole mg
    → IsApart 0 l
    → Misses mg l
    → blocks_to_mblocks mg.blocks + mblocks l ≤ max_mblocks
    → Frees 0 mg l (free_mega_group mg l)
unfolding free_mega_group IsApart
free_mega_group-Frees mg [] w a away small = coalesce_mblocks-Frees 0 mg [] (omega arith) w tt small
free_mega_group-Frees mg (bd ∷ l) w a away small = elim (Bool-cases (ltb bd.mblock mg.mblock)) [
  | inl e ↦
      let before = lies_before mg bd away.0 (ltb→lt _ _ e) in
      rw e (free_from-Frees 0 bd mg l a.0 a.1 w before a.2 away.1 small)
  | inr e ↦
      let after = lies_after mg bd away.0 (ltb-false _ _ e) in
      rw e (coalesce_mblocks-Frees 0 mg (bd ∷ l) (omega arith) w (after, a.1, a.2) small)
]
