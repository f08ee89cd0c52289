-- ===== src/Stable/Collect/Branches.antt =====
-- rts/Stable.c: what `updateStablePtrTable` does with one entry.
use ghc_xapp_fix.Prelude.{
  ℕ, ◌<◌, ◌≡◌, ◌⊎◌, not, refl, ap, Bool, true, some, ◌==◌, ltb, if◌then◌else◌, update, inl, inr,
  lt→ltb,
}
use ghc_xapp_fix.Stable.Table.{AddressTable}
use ghc_xapp_fix.Stable.{Pointer, null, object, entry, SnEntry, StableTable}
use ghc_xapp_fix.Stable.Collect.{
  update_addr, update_entry, drop_name, remove_name, insert_name, move_name,
}

pub Pointer-cases :
    (p : Pointer) → (p ≡ null) ⊎ ((a : ℕ) × (p ≡ object a)) ⊎ ((i : ℕ) × (p ≡ entry i))
Pointer-cases null = inl refl
Pointer-cases (object a) = inr (inl (a, refl))
Pointer-cases (entry i) = inr (inr (i, refl))

module _ (T : AddressTable) where
  open T use {Table, remove}

  module _ (full : Bool) (s : StableTable T) (k : ℕ) (lt : k < s.spt_size) where
    within : ltb k s.spt_size ≡ true
    within = lt→ltb k s.spt_size lt

    pub update_entry-null :
        (s.table k).addr ≡ null
        → update_entry T full s k
          ≡ (if not ((s.table k).old == 0) then drop_name T s k (s.table k) else some s)
    unfolding update_entry
    update_entry-null o = rw within (ap (update_addr T full s k (s.table k)) o)

    pub update_entry-entry : (j : ℕ) → (s.table k).addr ≡ entry j → update_entry T full s k ≡ some s
    unfolding update_entry
    update_entry-entry j o = rw within (ap (update_addr T full s k (s.table k)) o)

    pub update_entry-object :
        (a : ℕ)
        → (s.table k).addr ≡ object a
        → update_entry T full s k ≡ (
            if full
            then insert_name T s a k
            else (if not (a == (s.table k).old) then move_name T s (s.table k).old a k else some s))
    unfolding update_entry
    update_entry-object a o = rw within (ap (update_addr T full s k (s.table k)) o)

  pub drop_name-run :
      (s : StableTable T) (k : ℕ) (e : SnEntry) (h h' : Table)
      → s.hash ≡ some h
      → remove h e.old ≡ some h'
      → drop_name T s k e
        ≡ some (record s { table = update s.table k (record e { old = 0 }); hash = some h' })
  unfolding drop_name remove_name
  drop_name-run s k e h h' hash_is run = rw (hash_is, run) refl
