-- ===== src/Stable/Collect/Stale.antt =====
-- rts/Stable.c: an address that `updateStablePtrTable` finds in a free entry.
use mathlib.Core.Path.{subst}
use ghc_xapp_fix.Prelude.{
  ℕ, zero, suc, ◌+◌, ◌-◌, ◌≤◌, ◌<◌, ◌≡◌, ◌≢◌, refl, ap, sym, ◌∙◌, false, none, some, ◌==◌, update,
  arith, inl, inr, Bool-cases, ==_iff,
}
use ghc_xapp_fix.Stable.Table.{AddressTable}
use ghc_xapp_fix.Stable.{null, object, SnEntry, StableTable}
use ghc_xapp_fix.Stable.Valid.{Inside, pointer_to-ne-object, update_other, IsValid}
use ghc_xapp_fix.Stable.Names.{Names}
use ghc_xapp_fix.Stable.Pointers.{IsNameless}
use ghc_xapp_fix.Stable.Collect.{update_entry, update_entries, update_stable_ptr_table}
use ghc_xapp_fix.Stable.Collect.Branches.{
  Pointer-cases, update_entry-null, update_entry-entry, update_entry-object, drop_name-run,
}

-- an entry on which the loop of a minor collection does nothing
abbrev pub IsQuiet : SnEntry → Type 0
IsQuiet e = (e.addr ≡ null → e.old ≡ 0) × ((a : ℕ) → e.addr ≡ object a → a ≡ e.old)

module _ (T : AddressTable) where
  open T use {Table, view, remove_view}

  quiet_entry :
      (s : StableTable T) (k : ℕ)
      → k < s.spt_size
      → IsQuiet (s.table k)
      → update_entry T false s k ≡ some s
  quiet_entry s k lt q = elim (Pointer-cases (s.table k).addr) [
    | inl o ↦ update_entry-null T false s k lt o ∙ rw ((==_iff (s.table k).old 0).1 (q.0 o)) refl
    | inr (inl (a, o)) ↦
        update_entry-object T false s k lt a o ∙ rw ((==_iff a (s.table k).old).1 (q.1 a o)) refl
    | inr (inr (i, o)) ↦ update_entry-entry T false s k lt i o
  ]

  quiet_entries :
      (n k : ℕ) (s : StableTable T)
      → k + n ≤ s.spt_size
      → ((m : ℕ) → k ≤ m → m < k + n → IsQuiet (s.table m))
      → update_entries T false n k s ≡ some s
  unfolding update_entries
  quiet_entries zero k s le q = refl
  quiet_entries (suc n) k s le q =
      rw (quiet_entry s k (omega arith) (q k (omega arith) (omega arith)))
        (quiet_entries n (k + 1) s (omega arith) (λ m a b. q m (omega arith) (omega arith)))

  -- one entry of the loop removes its old address
  one_drops :
      (n k i : ℕ) (s s' : StableTable T)
      → k + n ≤ s.spt_size
      → k ≤ i
      → i < k + n
      → ((m : ℕ) → k ≤ m → m < k + n → i ≢ m → IsQuiet (s.table m))
      → update_entry T false s i ≡ some s'
      → s'.spt_size ≡ s.spt_size
      → ((m : ℕ) → i ≢ m → s'.table m ≡ s.table m)
      → update_entries T false n k s ≡ some s'
  unfolding update_entries
  one_drops zero k i s s' le a b q run size same = absurd (omega arith)
  one_drops (suc n) k i s s' le a b q run size same = elim (Bool-cases (k == i)) [
    | inl e ↦
        let here : k ≡ i = (==_iff k i).0 e in
        let run' : update_entry T false s k ≡ some s' = ap (update_entry T false s) here ∙ run in
        rw run' (
          quiet_entries n (k + 1) s' (omega (arith, size)) (λ m c d.
            let ne : i ≢ m = omega (arith, here, c) in
            subst IsQuiet (sym (same m ne)) (q m (omega arith) (omega arith) ne)))
    | inr e ↦
        let ne : i ≢ k = λ z. ground (arith, e, z) in
        rw (quiet_entry s k (omega arith) (q k (omega arith) (omega arith) ne)) (
          one_drops n (k + 1) i s s' (omega arith) (omega (arith, ne)) (omega arith)
            (λ m c d. q m (omega arith) (omega arith)) run size same)
  ]

  -- After a minor collection that moves no object, in a valid table: if an entry with no address,
  -- such as the last of the free list, still has in `old` the address of an object that another
  -- entry names, and the other entries with no address have `NULL` there, `updateStablePtrTable`
  -- takes the name of that object out of the hash table, while the entry goes on naming it.
  pub update-forgets :
      (s : StableTable T) (i j b : ℕ)
      → IsValid T s
      → Inside s.spt_size i
      → (s.table i).addr ≡ null
      → (s.table i).old ≡ b
      → b ≢ 0
      → Names T s j b
      → ((m : ℕ) → i ≢ m → IsQuiet (s.table m))
      → (s' : StableTable T) × (update_stable_ptr_table T false s ≡ some s')
        × IsNameless T s' b
        × Names T s' j b
  unfolding update_stable_ptr_table
  update-forgets s i j b v inside o old ne n quiet =
      let e = s.table i in
      let (h', run, valid, eq) = remove_view v.h e.old v.hash_valid in
      let s' : StableTable T = record s {
        table = update s.table i (record e { old = 0 });
        hash = some h';
      } in
      let other = λ (m : ℕ) (d : i ≢ m). update_other s.table i m (record e { old = 0 }) d in
      let nonzero : (e.old == 0) ≡ false = ground (arith, old, ne) in
      let drops : update_entry T false s i ≡ some s' =
        update_entry-null T false s i inside.1 o
        ∙ rw nonzero (drop_name-run T s i e v.h h' v.hash_is run) in
      let apart : i ≢ j =
        λ z. pointer_to-ne-object none b (sym o ∙ ap (λ k. (s.table k).addr) z ∙ n.addr) in
      (
        s',
        one_drops (s.spt_size - 1) 1 i s s' (omega (arith, v.size)) (omega (arith, inside.0))
            (omega (arith, inside.1)) (λ m a l. quiet m) drops refl other,
        (h', refl, eq b ∙ rw ((==_iff e.old b).1 old) refl),
        record {
          pos = n.pos;
          lt = n.lt;
          addr = ap (λ (x : SnEntry). x.addr) (other j apart) ∙ n.addr;
        },
      )
