-- ===== src/BlockAlloc/Buckets.antt =====
-- rts/sm/BlockAlloc.c: the buckets of the free lists.
use ghc_xapp_fix.Prelude.{
  ℕ, zero, suc, ◌+◌, ◌*◌, ◌/◌, ◌^◌, ◌≤◌, ◌<◌, ◌≡◌, refl, leb, ◌==◌, inl, inr, arith, Bool-cases,
  leb→le,
}
use ghc_xapp_fix.BlockAlloc.{
  blocks_per_mblock, max_free_list, log_2_ceil_loop, log_2_ceil, log_2_loop, log_2,
}
use native.Mathlib.Nat.{pow-suc, pow-le-pow_right}

-- the loop from the round `i` on, which looks for the `d` with 2 ^ d ≤ x < 2 ^ (d + 1)
log_2_loop-fits :
    (rounds i x : ℕ)
    → 0 < x
    → x < 2 ^ rounds
    → (d : ℕ) × (log_2_loop rounds i x ≡ i + d) × (2 ^ d ≤ x) × (x < 2 ^ d * 2) × (d < rounds)
unfolding log_2_loop
log_2_loop-fits zero i x h lt = absurd (omega (arith, lt))
log_2_loop-fits (suc rounds) i x h lt = elim (Bool-cases (x / 2 == 0)) [
  | inl e ↦
      let small : x < 2 = ground (arith, e) in
      rw e (0, omega arith, omega (arith, h), omega (arith, small), omega arith)
  | inr d ↦
      let big : 0 < x / 2 = ground (arith, d) in
      let lt' : x < 2 ^ rounds * 2 = rw pow-suc at lt in
      let r = log_2_loop-fits rounds (suc i) (x / 2) big (omega (arith, lt')) in
      rw d (
        suc (r.0),
        omega (arith, r.1),
        rw (pow-suc 2 (r.0)) (omega (arith, r.2)),
        rw (pow-suc 2 (r.0)) (omega (arith, r.3)),
        omega (arith, r.4),
      )
]

-- the loop from the round `i` on
log_2_ceil_loop-fits :
    (rounds i n : ℕ)
    → rounds + i ≡ max_free_list
    → n ≤ 2 ^ max_free_list
    → n ≤ 2 ^ log_2_ceil_loop n rounds i (2 ^ i)
unfolding log_2_ceil_loop
log_2_ceil_loop-fits zero i n e h = h
log_2_ceil_loop-fits (suc rounds) i n e h = elim (Bool-cases (leb n (2 ^ i))) [
  | inl b ↦ rw b (leb→le _ _ b)
  | inr d ↦ rw (d, ← pow-suc 2 i) (log_2_ceil_loop-fits rounds (suc i) n (omega (arith, e)) h)
]

-- A group of `s` blocks, fewer than a megablock has, belongs to a bucket of its own, `log_2 s`, which
-- holds the groups of 2 ^ `log_2 s` up to 2 ^ (`log_2 s` + 1) - 1 blocks; and if this is one of the
-- buckets from `log_2_ceil n` on, then the group is large enough for a request of `n` blocks.
pub log_2-fits :
    (s n : ℕ)
    → 0 < s
    → s < blocks_per_mblock
    → n < blocks_per_mblock
    → log_2_ceil n ≤ log_2 s
    → (log_2 s < max_free_list) × (2 ^ log_2 s ≤ s) × (s < 2 ^ log_2 s * 2) × (n ≤ s)
unfolding log_2 log_2_ceil
log_2-fits s n h lt lt' le =
    let r = log_2_loop-fits max_free_list 0 s h (omega (arith, lt)) in
    let e : log_2_loop max_free_list 0 s ≡ r.0 = omega (arith, r.1) in
    let low : 2 ^ log_2_loop max_free_list 0 s ≤ s = rw e r.2 in
    let two : 0 < 2 = omega arith in
    let up = log_2_ceil_loop-fits max_free_list 0 n refl (omega (arith, lt')) in
    (rw e r.4, low, rw e r.3, omega (arith, up, pow-le-pow_right two le, low))
