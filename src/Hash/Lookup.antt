-- ===== src/Hash/Lookup.antt =====
-- rts/Hash.c: `lookupHashTable` reads the abstract table.
use ghc_xapp_fix.Prelude.{◌≡◌, sym, ◌∙◌, ap, some}
use ghc_xapp_fix.Hash.{KeyOps, HashTable, lookup_hash_table}
use ghc_xapp_fix.Hash.Cells.{has_key, value_at, find-weigh}
use ghc_xapp_fix.Hash.Valid.{IsValid, IsUnique, view, hash-lt, total-home}

module _ {K : Type 0} (ops : KeyOps K) where
  -- In a valid table in which no key occurs twice, a lookup makes no wild access, and returns the
  -- data of the key, `NULL` if it is absent.
  pub lookup-view :
      (t : HashTable K) (q : K)
      → IsValid ops t
      → IsUnique ops t
      → lookup_hash_table ops t q ≡ some (view ops t q)
  unfolding lookup_hash_table view
  lookup-view t q v u = rw (v.rows _ (hash-lt ops t q v.shape)) (
      ap some (
        find-weigh ops q _ (rw (← total-home ops t q (has_key ops q) v (λ hl e. rw e)) (u q))
        ∙ sym (total-home ops t q (value_at ops q) v (λ hl e. rw e))))
