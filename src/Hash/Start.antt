-- ===== src/Hash/Start.antt =====
-- rts/Hash.c: a table from `allocHashTable_` is valid and empty.
use ghc_xapp_fix.Prelude.{
  ℕ, zero, suc, ◌+◌, ◌%◌, ◌<◌, ◌≡◌, refl, ◌∙◌, sym, ap, Option, none, some, [], arith, ltb,
  if◌then◌else◌, sum_to-zero,
}
use ghc_xapp_fix.Prelude.Words.{IsMask-pow}
use ghc_xapp_fix.Hash.{
  KeyOps, Cell, Chain, HashTable, segment_size, cell_at, clear_buckets, alloc_hash_table,
  lookup_hash_table,
}
use ghc_xapp_fix.Hash.Cells.{weigh, has_key, value_at}
use ghc_xapp_fix.Hash.Valid.{
  IsShaped, IsValid, IsUnique, IsCounted, chain_of, chain_of-eq, total, at_addr, count, view,
}
use ghc_xapp_fix.Hash.Lookup.{lookup-view}

module _ {K : Type 0} where
  clear_buckets_lem :
      (n : ℕ) (seg : ℕ → Option (Chain K)) (j : ℕ)
      → clear_buckets n seg j ≡ (if ltb j n then some [] else seg j)
  unfolding clear_buckets
  clear_buckets_lem zero seg j = ground arith
  clear_buckets_lem (suc n) seg j = ground (arith, clear_buckets_lem n seg j)

module _ {K : Type 0} (ops : KeyOps K) where
  abbrev pub start : HashTable K
  start = alloc_hash_table

  start_row : (b : ℕ) → b < segment_size → cell_at start.dir b ≡ some []
  unfolding alloc_hash_table cell_at
  start_row b h =
      ground (arith, clear_buckets_lem {K = K} segment_size (λ _. none) (b % segment_size))

  start_chain : (b : ℕ) → b < segment_size → chain_of start.dir b ≡ []
  start_chain b h = chain_of-eq start.dir b (start_row b h)

  pub total-start : (w : Cell K → ℕ) → total w start ≡ 0
  unfolding total weigh alloc_hash_table
  total-start w = sum_to-zero _ _ (λ b h. rw (start_chain b h))

  start-IsShaped : IsShaped start
  unfolding alloc_hash_table
  start-IsShaped = record {
    mask1 = IsMask-pow 10;
    mask2 = IsMask-pow 11;
    split_lt = omega arith;
    large = omega arith;
    small = omega arith;
    buckets = refl;
  }

  start_width : start.max + start.split ≡ segment_size
  unfolding alloc_hash_table
  start_width = refl

  pub start_free : start.free_list ≡ []
  unfolding alloc_hash_table
  start_free = refl

  start_kcount : start.kcount ≡ 0
  unfolding alloc_hash_table
  start_kcount = refl

  -- A new table is valid, counts the keys it holds, and holds no key twice.
  pub start-IsValid : IsValid ops start × IsCounted ops start × IsUnique ops start
  unfolding weigh count
  start-IsValid = (
    record {
      shape = start-IsShaped;
      rows = λ b h. let l = rw start_width at h in start_row b l ∙ ap some (sym (start_chain b l));
      home = λ q b h ne. rw (start_chain b (rw start_width at h));
      apart = λ a. rw (total-start (at_addr a), start_free) (omega arith);
    },
    start_kcount ∙ sym (total-start (λ _. 1)),
    λ q. rw (total-start (has_key ops q)) (omega arith),
  )

  -- Every lookup in a new table gives `NULL`.
  pub lookup-start : (q : K) → lookup_hash_table ops start q ≡ some 0
  unfolding view
  lookup-start q =
      lookup-view ops start q start-IsValid.0 start-IsValid.2
      ∙ ap some (total-start (value_at ops q))
