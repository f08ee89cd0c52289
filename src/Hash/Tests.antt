-- ===== src/Hash/Tests.antt =====
-- rts/Hash.c: runs on concrete tables of words, and the theorems at these tables.
use ghc_xapp_fix.Prelude.{
  ℕ, suc, ◌+◌, ◌-◌, ◌*◌, ◌/◌, ◌<◌, ◌≡◌, refl, Option, none, some, arith, if◌then◌else◌,
}
use ghc_xapp_fix.Hash.{
  HashTable, Freed, hash, bucket_of, cell_at, set_cell, put_cell, allocated, alloc_cell,
  clear_buckets, alloc_hash_table, find, expand, lookup_hash_table, insert_hash_table,
  remove_hash_table, free_hash_table, segment_size, dir_size,
}
use ghc_xapp_fix.Hash.Valid.{IsUnique, total, count, chain_of}
use ghc_xapp_fix.Hash.Cells.{has_key}
use ghc_xapp_fix.Hash.Keys.{word_ops}
use ghc_xapp_fix.Hash.Start.{start, total-start, start_free, start-IsValid}
use ghc_xapp_fix.Hash.Expand.{Expands, expand-Expands}
use ghc_xapp_fix.Hash.Insert.{IsFresh, Inserts, insert-Inserts, Inserts-view, lookup-insert}
use ghc_xapp_fix.Hash.Remove.{lookup-remove}
use ghc_xapp_fix.Hash.Free.{has_value, segments_below, free-values}
use ghc_xapp_fix.Hash.Overwrite.{find_last, expand-find_last}

abbrev empty : HashTable ℕ
empty = start word_ops

abbrev from_some : Option (HashTable ℕ) → HashTable ℕ
from_some none = empty
from_some (some t) = t

-- key 0 with datum 5
abbrev one : HashTable ℕ
one = from_some (insert_hash_table word_ops empty 0 5 4096)

-- Every chunk is fresh to the empty table.
empty-IsFresh : (chunk : ℕ) → IsFresh word_ops empty chunk
unfolding count
empty-IsFresh chunk a h = rw (total-start word_ops, start_free word_ops)

one-Inserts : Inserts word_ops empty 0 5 one
one-Inserts =
    let (t, run, i) =
      insert-Inserts word_ops empty 0 5 4096 (start-IsValid word_ops).0 (empty-IsFresh 4096) in
    rw run i

one-IsUnique : IsUnique word_ops one
one-IsUnique q =
    (Inserts-view word_ops empty one 0 q 5 one-Inserts (total-start word_ops (has_key word_ops 0))
      (start-IsValid word_ops).2).0

one_lookup : lookup_hash_table word_ops one 0 ≡ some 5
unfolding lookup_hash_table insert_hash_table hash bucket_of cell_at set_cell put_cell allocated
    alloc_cell alloc_hash_table clear_buckets find word_ops
one_lookup = refl

one_home : hash word_ops one 0 ≡ one.split
unfolding insert_hash_table hash bucket_of cell_at set_cell put_cell allocated alloc_cell
    alloc_hash_table clear_buckets word_ops
one_home = refl

one_room : one.max + one.split < dir_size * segment_size
unfolding insert_hash_table hash bucket_of cell_at set_cell put_cell allocated alloc_cell
    alloc_hash_table clear_buckets word_ops
one_room = omega arith

expand-Expands_example : (t : HashTable ℕ) × (expand word_ops one ≡ some t) × Expands word_ops one t
expand-Expands_example = expand-Expands word_ops one one-Inserts.valid

expand-find_last_example :
    (t : HashTable ℕ) × (expand word_ops one ≡ some t)
    × (lookup_hash_table word_ops one 0 ≡ some (find word_ops 0 (chain_of one.dir one.split)))
    × (lookup_hash_table word_ops t 0 ≡ some (find_last word_ops 0 (chain_of one.dir one.split) 0))
expand-find_last_example = expand-find_last word_ops one 0 one-Inserts.valid one_room one_home

insert-Inserts_example :
    (t : HashTable ℕ) × (insert_hash_table word_ops empty 0 5 4096 ≡ some t)
    × Inserts word_ops empty 0 5 t
insert-Inserts_example =
    insert-Inserts word_ops empty 0 5 4096 (start-IsValid word_ops).0 (empty-IsFresh 4096)

lookup-insert_example :
    (t : HashTable ℕ) × (insert_hash_table word_ops empty 8 7 4096 ≡ some t)
    × (lookup_hash_table word_ops t 16
        ≡ (if word_ops.compare 8 16 then some 7 else lookup_hash_table word_ops empty 16))
lookup-insert_example =
    lookup-insert word_ops empty 8 16 7 4096 (start-IsValid word_ops).0 (start-IsValid word_ops).2
      (empty-IsFresh 4096) (total-start word_ops (has_key word_ops 8))

lookup-remove_example :
    (r : ℕ × HashTable ℕ) × (remove_hash_table word_ops one 0 0 ≡ some r)
    × (lookup_hash_table word_ops one 0 ≡ some r.0)
    × (lookup_hash_table word_ops r.1 0
        ≡ (if word_ops.compare 0 0 then some 0 else lookup_hash_table word_ops one 0))
lookup-remove_example = lookup-remove word_ops one 0 0 one-Inserts.valid one-IsUnique

free-values_example :
    (r : Freed) × (free_hash_table one ≡ some r)
    × ((x : ℕ) → count x r.values ≡ total (has_value x) one)
    × (r.segments ≡ segments_below (suc ((one.max + one.split - 1) / segment_size)))
    × (r.chunks ≡ one.chunks)
free-values_example = free-values word_ops one one-Inserts.valid
