-- ===== src/Stable/Hashed.antt =====
-- rts/Stable.c with rts/Hash.c: the hash tables are what the stable names need.
use mathlib.Core.Option
use ghc_xapp_fix.Prelude.{
  ℕ, ◌≡◌, ◌≢◌, ◌⊎◌, refl, sym, ◌∙◌, fun_ext, true, Option, some, ◌==◌, if◌then◌else◌, arith, inl,
  inr, Bool-cases, ==_iff,
}
use ghc_xapp_fix.Hash.{
  HashTable, lookup_hash_table, insert_hash_table, remove_hash_table, free_hash_table,
}
use ghc_xapp_fix.Hash.Cells.{has_key, value_at}
use ghc_xapp_fix.Hash.Keys.{word_ops}
use ghc_xapp_fix.Hash.Valid
use ghc_xapp_fix.Hash.Valid.{IsUnique, view, total}
use ghc_xapp_fix.Hash.Start.{start, start-IsValid, total-start}
use ghc_xapp_fix.Hash.Lookup.{lookup-view}
use ghc_xapp_fix.Hash.Insert.{IsFresh, insert-Inserts, Inserts-view}
use ghc_xapp_fix.Hash.Remove.{is_match, Misses, Removes, remove_key, outcome-IsValid, outcome-reads}
use ghc_xapp_fix.Hash.Free.{free-values}
use ghc_xapp_fix.Stable.Table.{AddressTable}

-- A table that holds no key twice, and no `NULL`.
abbrev pub IsNames : HashTable ℕ → Type 0
IsNames t =
    Valid.IsValid word_ops t
    × IsUnique word_ops t
    × ((q : ℕ) → view word_ops t q ≡ 0 → total (has_key word_ops q) t ≡ 0)

start-IsNames : IsNames (start word_ops)
start-IsNames = (
  (start-IsValid word_ops).0,
  (start-IsValid word_ops).2,
  λ q _. total-start word_ops (has_key word_ops q),
)

insert-IsNames :
    (t : HashTable ℕ) (key value chunk : ℕ)
    → IsFresh word_ops t chunk
    → IsNames t
    → view word_ops t key ≡ 0
    → value ≢ 0
    → (t' : HashTable ℕ) × (insert_hash_table word_ops t key value chunk ≡ some t')
      × IsNames t'
      × ((q : ℕ) → view word_ops t' q ≡ (if key == q then value else view word_ops t q))
unfolding word_ops
insert-IsNames t key value chunk fresh n absent ne =
    let (t', run, i) = insert-Inserts word_ops t key value chunk n.0 fresh in
    let none_at = n.2 key absent in
    let reads = λ (q : ℕ). Inserts-view word_ops t t' key q value i none_at n.1 in
    (
      t',
      run,
      (
        i.valid,
        λ q. (reads q).0,
        λ q z. ground (arith, i.cells (has_key word_ops q), (reads q).1, n.2 q, ne, z),
      ),
      λ q. (reads q).1,
    )

removed_absent :
    (t : HashTable ℕ) (key q : ℕ) (r : ℕ × HashTable ℕ)
    → IsNames t
    → Misses word_ops t key 0 r ⊎ Removes word_ops t key 0 r
    → (if key == q then 0 else view word_ops t q) ≡ 0
    → total (has_key word_ops q) r.1 ≡ 0
unfolding word_ops
removed_absent t key q r n (inl (e, _, none_at)) z =
    let any : is_match word_ops key 0 ≡ has_key word_ops key = fun_ext (λ hl. ground arith) in
    let none_at' : total (has_key word_ops key) t ≡ 0 = rw (← any) none_at in
    rw e (elim (Bool-cases (key == q)) [
      | inl h ↦ rw (← (==_iff key q).0 h) none_at'
      | inr h ↦ n.2 q (rw h at z)
    ])
removed_absent t key q r n (inr m) z =
    let e : m.cell.key ≡ key = (==_iff m.cell.key key).0 (ground (arith, m.found)) in
    elim (Bool-cases (key == q)) [
      | inl h ↦
          let self : (m.cell.key == q) ≡ true = rw e h in
          ground (arith, m.cells (has_key word_ops q), n.1 q, self)
      | inr h ↦ omega (arith, m.cells (has_key word_ops q), n.2 q (rw h at z))
    ]

remove-IsNames :
    (t : HashTable ℕ) (key : ℕ)
    → IsNames t
    → (r : ℕ × HashTable ℕ) × (remove_hash_table word_ops t key 0 ≡ some r)
      × IsNames r.1
      × ((q : ℕ) → view word_ops r.1 q ≡ (if key == q then 0 else view word_ops t q))
unfolding word_ops
remove-IsNames t key n =
    let (r, run, outcome) = remove_key word_ops t key n.0 in
    let (unique, got, reads) = outcome-reads word_ops t key r n.1 outcome in
    (
      r,
      run,
      (
        outcome-IsValid word_ops t key r n.0 outcome,
        unique,
        λ q z. removed_absent t key q r n outcome (sym (reads q) ∙ z),
      ),
      reads,
    )

-- `malloc` gives each table a chunk that overlaps none of its cells.
module _ (malloc : HashTable ℕ → ℕ)
    (fresh : (t : HashTable ℕ) → IsFresh word_ops t (malloc t)) where
  hash_insert : HashTable ℕ → ℕ → ℕ → Option (HashTable ℕ)
  hash_insert t key value = insert_hash_table word_ops t key value (malloc t)

  hash_remove : HashTable ℕ → ℕ → Option (HashTable ℕ)
  hash_remove t key = Option.map (λ r. r.1) (remove_hash_table word_ops t key 0)

  hash_free : HashTable ℕ → Option (Unit {0})
  hash_free t = Option.map (λ _. tt) (free_hash_table t)

  hash_remove-IsNames :
      (t : HashTable ℕ) (key : ℕ)
      → IsNames t
      → (t' : HashTable ℕ) × (hash_remove t key ≡ some t')
        × IsNames t'
        × ((q : ℕ) → view word_ops t' q ≡ (if key == q then 0 else view word_ops t q))
  unfolding hash_remove
  hash_remove-IsNames t key n =
      let (r, run, names, reads) = remove-IsNames t key n in (r.1, rw run refl, names, reads)

  hash_free_valid : (t : HashTable ℕ) → IsNames t → hash_free t ≡ some tt
  unfolding hash_free
  hash_free_valid t n = rw (free-values word_ops t n.0).1 refl

  hash_insert-IsNames :
      (t : HashTable ℕ) (key value : ℕ)
      → IsNames t
      → view word_ops t key ≡ 0
      → value ≢ 0
      → (t' : HashTable ℕ) × (hash_insert t key value ≡ some t')
        × IsNames t'
        × ((q : ℕ) → view word_ops t' q ≡ (if key == q then value else view word_ops t q))
  unfolding hash_insert
  hash_insert-IsNames t key value n absent ne =
      insert-IsNames t key value (malloc t) (fresh t) n absent ne

  view_start : (q : ℕ) → view word_ops (start word_ops) q ≡ 0
  unfolding view
  view_start q = total-start word_ops (value_at word_ops q)

  -- The hash table of the runtime serves as the table of addresses.
  pub hash_tables : AddressTable
  hash_tables = record {
    Table = HashTable ℕ;
    IsValid = IsNames;
    view = view word_ops;
    alloc = start word_ops;
    lookup = lookup_hash_table word_ops;
    insert = hash_insert;
    remove = hash_remove;
    free = hash_free;
    alloc_valid = start-IsNames;
    alloc_view = view_start;
    lookup_view = λ t q n. lookup-view word_ops t q n.0 n.1;
    insert_view = hash_insert-IsNames;
    remove_view = hash_remove-IsNames;
    free_valid = hash_free_valid;
  }
