-- ===== src/Hash/Directory.antt =====
-- rts/Hash.c: reads and writes of buckets through the directory of segments.
use ghc_xapp_fix.Prelude.{
  ℕ, ◌*◌, ◌/◌, ◌<◌, ◌≡◌, true, none, some, arith, ◌==◌, if◌then◌else◌, update,
}
use ghc_xapp_fix.Hash.{
  Chain, Directory, segment_size, dir_size, allocated, cell_at, put_cell, set_cell, alloc_segment,
}

module _ {K : Type 0} where
  -- a bucket that was read lies in a segment that is allocated
  pub cell_at-allocated :
      (dir : Directory K) (b : ℕ) {c : Chain K} → cell_at dir b ≡ some c → allocated dir b ≡ true
  unfolding cell_at allocated
  cell_at-allocated dir b h = ground arith

  pub allocated_congr :
      (dir : Directory K) (a b : ℕ)
      → a / segment_size ≡ b / segment_size
      → allocated dir a ≡ allocated dir b
  unfolding allocated
  allocated_congr dir a b h = rw h

  pub cell_at-put :
      (dir : Directory K) (b : ℕ) (c : Chain K) (j : ℕ)
      → allocated dir b ≡ true
      → cell_at (put_cell dir b c) j ≡ (if b == j then some c else cell_at dir j)
  unfolding cell_at put_cell allocated
  cell_at-put dir b c j h = ground arith

  pub allocated-put :
      (dir : Directory K) (b : ℕ) (c : Chain K) (j : ℕ)
      → allocated (put_cell dir b c) j ≡ allocated dir j
  unfolding put_cell allocated
  allocated-put dir b c j = ground arith

  pub set_cell-put :
      (dir : Directory K) (b : ℕ) (c : Chain K)
      → allocated dir b ≡ true
      → set_cell dir b c ≡ some (put_cell dir b c)
  unfolding set_cell
  set_cell-put dir b c h = rw h

  -- A new segment is within the directory, its buckets are unwritten, and no other changes.
  pub alloc_segment_lem :
      (dir : Directory K) (b : ℕ)
      → b < dir_size * segment_size
      → (dir' : Directory K) × (alloc_segment dir (b / segment_size) ≡ some dir')
        × (allocated dir' b ≡ true)
        × ((j : ℕ) → j / segment_size < b / segment_size → cell_at dir' j ≡ cell_at dir j)
  unfolding alloc_segment allocated cell_at
  alloc_segment_lem dir b h = (
    update dir (b / segment_size) (some (λ _. none)),
    ground arith,
    ground arith,
    λ j l. ground arith,
  )
