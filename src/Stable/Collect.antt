-- ===== src/Stable/Collect.antt =====
-- rts/Stable.c: `gcStablePtrTable` and `updateStablePtrTable`, which a garbage collection calls.
pub mod Branches
pub mod Rehash
pub mod Stale
pub mod After
pub mod Sweep
pub mod Moved
pub mod Survive
use mathlib.Core.Option
use ghc_xapp_fix.Prelude.{
  ℕ, zero, suc, ◌+◌, ◌-◌, not, Bool, true, false, Option, none, some, ◌==◌, if◌then◌else◌, update,
  ◌>>=◌,
}
use ghc_xapp_fix.Stable.Table.{AddressTable}
use ghc_xapp_fix.Stable.{
  Pointer, null, object, entry, SnEntry, StableTable, free_stable_name, entry_at,
  mark_stable_ptr_table,
}

-- what `isAlive` returns, where 0 is `NULL`
abbrev pub to_object : ℕ → Pointer
to_object a = if a == 0 then null else object a

abbrev pub gc_sn_obj : (ℕ → ℕ) → SnEntry → SnEntry
gc_sn_obj alive e = record e { sn_obj = if e.sn_obj == 0 then 0 else alive e.sn_obj }

module _ (T : AddressTable) where
  open T use {
    Table, view, alloc, insert, remove, free, alloc_view, alloc_valid, insert_view, remove_view,
    free_valid,
  }

  -- the body of the loop of `gcStablePtrTable`, where `e` is the entry with its new `sn_obj`
  abbrev pub gc_addr : (ℕ → ℕ) → StableTable T → ℕ → SnEntry → Pointer → Option (StableTable T)
  gc_addr alive s i e null = some (record s { table = update s.table i e })
  gc_addr alive s i e (entry j) = some (record s { table = update s.table i e })
  gc_addr alive s i e (object a) =
      if e.ref == 0
      then (if e.sn_obj == 0
          then free_stable_name T (record s { table = update s.table i e }) i
          else some
              (record s { table = update s.table i (record e { addr = to_object (alive a) }) }))
      else some (record s { table = update s.table i e })

  unfoldable pub gc_entry : (ℕ → ℕ) → StableTable T → ℕ → Option (StableTable T)
  gc_entry alive s i = do e ← entry_at T s i; gc_addr alive s i (gc_sn_obj alive e) e.addr

  unfoldable pub gc_entries : (ℕ → ℕ) → ℕ → ℕ → StableTable T → Option (StableTable T)
  gc_entries alive zero i s = some s
  gc_entries alive (suc n) i s = do s' ← gc_entry alive s i; gc_entries alive n (i + 1) s'

  unfoldable pub gc_stable_ptr_table : (ℕ → ℕ) → StableTable T → Option (StableTable T)
  gc_stable_ptr_table alive s = gc_entries alive (s.spt_size - 1) 1 s

  -- the calls that `updateStablePtrTable` makes for an entry
  unfoldable pub insert_name : StableTable T → ℕ → ℕ → Option (StableTable T)
  insert_name s a i = do h ← s.hash; h' ← insert h a i; some (record s { hash = some h' })

  unfoldable pub remove_name : StableTable T → ℕ → Option (StableTable T)
  remove_name s a = do h ← s.hash; h' ← remove h a; some (record s { hash = some h' })

  unfoldable pub move_name : StableTable T → ℕ → ℕ → ℕ → Option (StableTable T)
  move_name s old a i = do s' ← remove_name s old; insert_name s' a i

  -- its branch for an entry whose object is gone
  unfoldable pub drop_name : StableTable T → ℕ → SnEntry → Option (StableTable T)
  drop_name s i e = do
    s' ← remove_name s e.old
    some (record s' { table = update s.table i (record e { old = 0 }) })

  abbrev pub update_addr : Bool → StableTable T → ℕ → SnEntry → Pointer → Option (StableTable T)
  update_addr full s i e null = if not (e.old == 0) then drop_name s i e else some s
  update_addr full s i e (entry j) = some s
  update_addr full s i e (object a) =
      if full
      then insert_name s a i
      else (if not (a == e.old) then move_name s e.old a i else some s)

  unfoldable pub update_entry : Bool → StableTable T → ℕ → Option (StableTable T)
  update_entry full s i = do e ← entry_at T s i; update_addr full s i e e.addr

  unfoldable pub update_entries : Bool → ℕ → ℕ → StableTable T → Option (StableTable T)
  update_entries full zero i s = some s
  update_entries full (suc n) i s = do s' ← update_entry full s i; update_entries full n (i + 1) s'

  abbrev pub new_hash : Option Table → Option (Option Table)
  new_hash none = some none
  new_hash (some h) = do _ ← free h; some (some alloc)

  unfoldable pub update_stable_ptr_table : Bool → StableTable T → Option (StableTable T)
  update_stable_ptr_table full s = do
    h ← if full then new_hash s.hash else some s.hash
    update_entries full (s.spt_size - 1) 1 (record s { hash = h })

  -- The calls that a major collection makes, where `moves` gives the new address of each object, and
  -- 0 for those that die.
  unfoldable pub collect : (ℕ → ℕ) → StableTable T → Option (StableTable T)
  collect moves s = do
    s' ← gc_stable_ptr_table moves (mark_stable_ptr_table T moves s)
    update_stable_ptr_table true s'
