-- ===== src/BlockAlloc/Fit.antt =====
-- rts/sm/BlockAlloc.c: `alloc_mega_group` takes the best fit.
use mathlib.Core.Option
use mathlib.Core.Path.{subst}
use ghc_xapp_fix.Prelude.{
  ap, sym, ◌∙◌, ==_iff, ltb→lt, ℕ, suc, ◌+◌, ◌-◌, ◌≤◌, ◌<◌, ◌≡◌, refl, Option, none, some, List, [],
  ◌∷◌, ◌⊎◌, inl, inr, ◌&&◌, ltb, leb, ◌==◌, if◌then◌else◌, All, arith, Bool-cases,
}
use ghc_xapp_fix.BlockAlloc.{
  MegaGroup, mblock_group_blocks, blocks_to_mblocks, end_of, MegaSearch, exact_fit, best_fit,
  better, pass_by, search_fit, shrink, take_fit, alloc_mega_group,
}
use ghc_xapp_fix.BlockAlloc.Mega.{
  IsWhole, max_mblocks, group_blocks, IsWhole-small, IsApart, covers, cover, IsApart-less,
  covers_parts, group_round,
}

abbrev On : MegaGroup → List MegaGroup → Type 0
On b [] = ⊥
On b (g ∷ l) = (g ≡ b) ⊎ On b l

-- nothing larger than what was found before
abbrev AtMost : Option MegaGroup → MegaGroup → Type 0
AtMost none b = Unit
AtMost (some c) b = b.blocks ≤ c.blocks

-- The outcome of the search through `l`, where `best` was found before.
abbrev Searched : ℕ → ℕ → Option MegaGroup → List MegaGroup → MegaSearch → Type 0
Searched n lo best l (exact_fit g rest) =
    (g.blocks ≡ n) × IsApart lo rest × ((a : ℕ) → cover a l ≡ covers a g + cover a rest)
Searched n lo best l (best_fit none) = (best ≡ none) × All (λ g. g.blocks < n) l
Searched n lo best l (best_fit (some b)) =
    ((best ≡ some b) ⊎ (On b l × (n < b.blocks)))
    × AtMost best b
    × All (λ g. (g.blocks < n) ⊎ (b.blocks ≤ g.blocks)) l

AtMost-refl : (b : MegaGroup) → AtMost (some b) b
AtMost-refl b = omega arith

AtMost-some : (best : Option MegaGroup) (b : MegaGroup) → best ≡ some b → AtMost best b
AtMost-some best b e = rw e (AtMost-refl b)

Searched-pass :
    (n lo : ℕ) (best : Option MegaGroup) (bd : MegaGroup) (l : List MegaGroup) (r : MegaSearch)
    → lo ≤ bd.mblock
    → IsWhole bd
    → bd.blocks < n
    → Searched n (suc (end_of bd)) best l r
    → Searched n lo best (bd ∷ l) (pass_by bd r)
unfolding IsApart cover
Searched-pass n lo best bd l (exact_fit g rest) h w lt s =
    (s.0, (h, w, s.1), λ a. omega (arith, s.2 a))
Searched-pass n lo best bd l (best_fit none) h w lt s = (s.0, (lt, s.1))
Searched-pass n lo best bd l (best_fit (some b)) h w lt s =
    (elim s.0 [ inl e ↦ inl e | inr o ↦ inr (inr o.0, o.1) ], s.1, (inl lt, s.2))

AtMost-trans :
    (best : Option MegaGroup) (b c : MegaGroup)
    → AtMost best b
    → c.blocks ≤ b.blocks
    → AtMost best c
AtMost-trans none b c h le = tt
AtMost-trans (some d) b c h le = omega arith

-- `bd` is kept as the best, or a smaller one that came before
better_cases :
    (bd : MegaGroup) (best : Option MegaGroup)
    → ((better bd best ≡ some bd) × AtMost best bd)
      ⊎ ((c : MegaGroup) × (best ≡ some c) × (better bd best ≡ some c) × (c.blocks ≤ bd.blocks))
better_cases bd none = inl (refl, tt)
better_cases bd (some c) = elim (Bool-cases (ltb bd.blocks c.blocks)) [
  | inl e ↦ inl (rw e refl, ground (arith, e))
  | inr e ↦ inr (c, refl, rw e refl, ground (arith, e))
]

Searched-keep :
    (n lo : ℕ) (best : Option MegaGroup) (bd : MegaGroup) (l : List MegaGroup) (r : MegaSearch)
    → lo ≤ bd.mblock
    → IsWhole bd
    → n < bd.blocks
    → Searched n (suc (end_of bd)) (better bd best) l r
    → Searched n lo best (bd ∷ l) (pass_by bd r)
unfolding IsApart cover
Searched-keep n lo best bd l (exact_fit g rest) h w lt s =
    (s.0, (h, w, s.1), λ a. omega (arith, s.2 a))
Searched-keep n lo best bd l (best_fit none) h w lt s = elim (better_cases bd best) [
  | inl e ↦ absurd (ground (arith, e.0, s.0))
  | inr c ↦ absurd (ground (arith, c.2, s.0))
]
Searched-keep n lo best bd l (best_fit (some b)) h w lt s = elim (better_cases bd best) [
  | inl (e, below) ↦
      let le : b.blocks ≤ bd.blocks = rw e at s.1 in
      (
        elim s.0 [
          | inl x ↦
              let same : bd ≡ b = Option.some_inj.0 (sym e ∙ x) in
              inr (inl same, subst (λ g. n < g.blocks) same lt)
          | inr o ↦ inr (inr o.0, o.1)
        ],
        AtMost-trans best bd b below le,
        (inr le, s.2),
      )
  | inr (c, e, e', le) ↦
      let le' : b.blocks ≤ c.blocks = rw e' at s.1 in
      (
        elim s.0 [ inl x ↦ inl (e ∙ sym e' ∙ x) | inr o ↦ inr (inr o.0, o.1) ],
        rw e le',
        (inr (omega (arith, le, le')), s.2),
      )
]

search_fit-Searched :
    (n : ℕ) (l : List MegaGroup) (lo : ℕ) (best : Option MegaGroup)
    → IsApart lo l
    → Searched n lo best l (search_fit n best l)
unfolding search_fit IsApart cover
search_fit-Searched n [] lo none a = (refl, tt)
search_fit-Searched n [] lo (some b) a = (inl refl, AtMost-refl b, tt)
search_fit-Searched n (bd ∷ l) lo best a = elim (Bool-cases (bd.blocks == n)) [
  | inl e ↦ rw e (
    (==_iff bd.blocks n).0 e,
    IsApart-less l lo (suc (end_of bd)) (omega (arith, a.0)) a.2,
    λ m. refl,
  )
  | inr e ↦ elim (Bool-cases (ltb n bd.blocks)) [
    | inl g ↦
        rw (e, g)
          (Searched-keep n lo best bd l _ a.0 a.1 (ltb→lt _ _ g)
            (search_fit-Searched n l (suc (end_of bd)) (better bd best) a.2))
    | inr g ↦
        rw (e, g)
          (Searched-pass n lo best bd l _ a.0 a.1 (ground (arith, e, g))
            (search_fit-Searched n l (suc (end_of bd)) best a.2))
  ]
]

-- a group further on in the list
On-after :
    (b : MegaGroup) (l : List MegaGroup) (lo : ℕ)
    → IsApart lo l
    → On b l
    → (lo ≤ b.mblock) × IsWhole b
unfolding IsApart
On-after b [] lo a o = absurd o
On-after b (g ∷ l) lo a (inl e) = subst (λ h. (lo ≤ h.mblock) × IsWhole h) e (a.0, a.1)
On-after b (g ∷ l) lo a (inr o) =
    let r = On-after b l (suc (end_of g)) a.2 o in (omega (arith, a.0, r.0), r.1)

-- the megablocks of `g` from number `left` on
abbrev pub the_end : MegaGroup → ℕ → ℕ → ℕ
the_end g left a = if leb (g.mblock + left) a && ltb a (end_of g) then 1 else 0

pub shrink_first :
    (g : MegaGroup) (left : ℕ) (l : List MegaGroup) (lo : ℕ)
    → IsApart lo (g ∷ l)
    → 0 < left
    → left < blocks_to_mblocks g.blocks
    → IsApart lo (record g { blocks = mblock_group_blocks left } ∷ l)
      × ((a : ℕ)
          → cover a (g ∷ l)
            ≡ the_end g left a + cover a (record g { blocks = mblock_group_blocks left } ∷ l))
unfolding IsApart cover
shrink_first g left l lo p h lt =
    let round = group_round left h (omega (arith, lt, IsWhole-small g p.1)) in
    (
      (
        p.0,
        ap mblock_group_blocks (sym round),
        IsApart-less l _ (suc (end_of g)) (omega (arith, round, lt)) p.2,
      ),
      λ a.
          let parts =
            covers_parts a g.mblock (g.mblock + left) (end_of g) (omega arith)
              (omega (arith, lt)) in
          rw round (omega (arith, parts)),
    )

-- The group `b` gives up its end.
shrink-cover :
    (b : MegaGroup) (left : ℕ) (l : List MegaGroup) (lo : ℕ)
    → IsApart lo l
    → On b l
    → 0 < left
    → left < blocks_to_mblocks b.blocks
    → IsApart lo (shrink b left l)
      × ((a : ℕ) → cover a l ≡ the_end b left a + cover a (shrink b left l))
unfolding shrink IsApart cover
shrink-cover b left [] lo p o h lt = absurd o
shrink-cover b left (g ∷ l) lo p o h lt = elim (Bool-cases (g.mblock == b.mblock)) [
  | inr d ↦ elim o [
    | inl e ↦ absurd (ground (arith, d, ap (λ k. k.mblock) e))
    | inr o' ↦
        let r = shrink-cover b left l (suc (end_of g)) p.2 o' h lt in
        rw d ((p.0, p.1, r.0), λ a. omega (arith, r.1 a))
  ]
  | inl s ↦ elim o [
    | inr o' ↦ absurd (omega (arith, (==_iff g.mblock b.mblock).0 s, (On-after b l _ p.2 o').0))
    | inl e ↦
        let lt' = subst (λ k. left < blocks_to_mblocks k.blocks) (sym e) lt in
        let r = shrink_first g left l lo p h lt' in
        rw s (
          r.0,
          λ a.
              r.1 a
              ∙ ap
                  (λ k.
                    the_end k left a + cover a (record g { blocks = mblock_group_blocks left } ∷ l))
                  e,
        )
  ]
]

-- What `alloc_mega_group` does with the free list `l`, where `getMBlocks` would give `fresh`.
pub record Allocs (mblocks fresh : ℕ) (l : List MegaGroup) (r : MegaGroup × List MegaGroup)
    : Type 0 where
  pub blocks : (r.0).blocks ≡ mblock_group_blocks mblocks
  pub size : blocks_to_mblocks (r.0).blocks ≡ mblocks
  pub apart : IsApart 0 (r.1)
  pub taken :
      (((r.0).mblock ≡ fresh) × (r.1 ≡ l) × All (λ g. g.blocks < mblock_group_blocks mblocks) l)
      ⊎ ((a : ℕ) → cover a l ≡ covers a (r.0) + cover a (r.1))

-- a whole group of more blocks has more megablocks
more_mblocks :
    (m : ℕ) (g : MegaGroup)
    → 0 < m
    → m ≤ max_mblocks
    → IsWhole g
    → mblock_group_blocks m < g.blocks
    → m < blocks_to_mblocks g.blocks
more_mblocks m g h small w lt = omega (arith, w, lt, group_blocks m h small)

pub end_split : (s l m : ℕ) → m < l → s + (l - m) + m ≡ s + l
end_split s l m h = omega arith

take_fit-Allocs :
    (m fresh : ℕ) (l : List MegaGroup) (r : MegaSearch)
    → 0 < m
    → m ≤ max_mblocks
    → IsApart 0 l
    → Searched (mblock_group_blocks m) 0 none l r
    → Allocs m fresh l (take_fit m fresh l r)
take_fit-Allocs m fresh l (exact_fit g rest) h small a s = record {
  blocks = s.0;
  size = ap blocks_to_mblocks s.0 ∙ group_round m h small;
  apart = s.1;
  taken = inr s.2;
}
take_fit-Allocs m fresh l (best_fit none) h small a s = record {
  blocks = refl;
  size = group_round m h small;
  apart = a;
  taken = inl (refl, refl, s.1);
}
take_fit-Allocs m fresh l (best_fit (some b)) h small a s = elim s.0 [
  | inl e ↦ absurd (ground (arith, e))
  | inr (o, lt) ↦
      let size = blocks_to_mblocks b.blocks in
      let more = more_mblocks m b h small (On-after b l 0 a o).1 lt in
      let r = shrink-cover b (size - m) l 0 a o (omega (arith, more)) (omega (arith, more, h)) in
      let e : b.mblock + (size - m) + blocks_to_mblocks (mblock_group_blocks m) ≡ end_of b =
        ap (λ k. b.mblock + (size - m) + k) (group_round m h small)
        ∙ end_split b.mblock size m more in
      record {
        blocks = refl;
        size = group_round m h small;
        apart = r.0;
        taken = inr (λ x.
            r.1 x
            ∙ ap
                (λ k.
                  (if leb (b.mblock + (size - m)) x && ltb x k then 1 else 0)
                  + cover x (shrink b (size - m) l))
                (sym e));
      }
]

-- A call of `alloc_mega_group` for at least one and at most 2 ^ 24 megablocks, where the free list is sorted by address with a
-- gap between any two groups, gives a group of just so many megablocks and leaves the list sorted
-- with gaps. Either no free group is large enough, the list stays, and the group is the new one from
-- `getMBlocks`; or each megablock is covered by the list before as often as by the group and the list
-- after.
pub alloc_mega_group-Allocs :
    (mblocks fresh : ℕ) (l : List MegaGroup)
    → 0 < mblocks
    → mblocks ≤ max_mblocks
    → IsApart 0 l
    → Allocs mblocks fresh l (alloc_mega_group mblocks fresh l)
unfolding alloc_mega_group
alloc_mega_group-Allocs mblocks fresh l h small a =
    take_fit-Allocs mblocks fresh l _ h small a
      (search_fit-Searched (mblock_group_blocks mblocks) l 0 none a)
