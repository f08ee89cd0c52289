-- ===== src/Stable/Tests.antt =====
-- rts/Stable.c: concrete tables, over a plain function as the table of addresses.
use ghc_xapp_fix.Prelude.{
  ℕ, ◌+◌, ◌<◌, ◌≡◌, ◌≢◌, ◌⊎◌, refl, ap, sym, false, Option, none, some, ◌==◌, [], ◌∷◌, update,
  arith, inl, inr, Bool-cases, ==_iff,
}
use ghc_xapp_fix.Stable.Table.{AddressTable}
use ghc_xapp_fix.Stable.{null, object, SnEntry, StableTable}
use ghc_xapp_fix.Stable.Valid.{IsValid}
use ghc_xapp_fix.Stable.Names.{Names}
use ghc_xapp_fix.Stable.Pointers.{IsNameless}
use ghc_xapp_fix.Stable.Collect.{collect, update_stable_ptr_table}
use ghc_xapp_fix.Stable.Collect.Moved.{Moves}
use ghc_xapp_fix.Stable.Collect.Survive.{collect-Names}
use ghc_xapp_fix.Stable.Collect.Stale.{IsQuiet, update-forgets}

abbrev plain : AddressTable
plain = record {
  Table = ℕ → ℕ;
  IsValid = λ _. Unit {0};
  view = λ t q. t q;
  alloc = λ _. 0;
  lookup = λ t q. some (t q);
  insert = λ t key value. some (update t key value);
  remove = λ t key. some (update t key 0);
  free = λ _. some tt;
  alloc_valid = tt;
  alloc_view = λ q. refl;
  lookup_view = λ t q v. refl;
  insert_view = λ t key value v absent ne. (update t key value, refl, tt, λ q. refl);
  remove_view = λ t key v. (update t key 0, refl, tt, λ q. refl);
  free_valid = λ t v. refl;
}

abbrev blank : SnEntry
blank = record { addr = null; old = 0; ref = 0; sn_obj = 0 }

-- no table yet
abbrev no_table : StableTable plain
no_table = record { spt_size = 0; table = λ _. blank; stable_ptr_free = none; hash = none }

-- the closure at 24 is an indirection to the one at 40
abbrev heap : ℕ → Option ℕ
heap = update (λ _. none) 24 (some 41)

-- a table of two entries: the first names the object at 40, the second is free
abbrev small_table : ℕ → StableTable plain
small_table old = record {
  spt_size = 3;
  table =
      update (update (λ _. blank) 1 (record { addr = object 40; old = 40; ref = 1; sn_obj = 0 })) 2
        (record { addr = null; old = old; ref = 0; sn_obj = 0 });
  stable_ptr_free = some 2;
  hash = some (update (λ _. 0) 40 1);
}

small-Names : (old : ℕ) → Names plain (small_table old) 1 40
small-Names old = record { pos = omega arith; lt = omega arith; addr = refl }

small-named :
    (old i a : ℕ) → 0 < i → i < 3 → ((small_table old).table i).addr ≡ object a → (i ≡ 1) × (a ≡ 40)
small-named old i a p l o = ground arith

small-IsValid : (old : ℕ) → IsValid plain (small_table old)
small-IsValid old = record {
  h = update (λ _. 0) 40 1;
  hash_is = refl;
  hash_valid = tt;
  size = omega arith;
  names = λ a ne. elim (Bool-cases (40 == a)) [
    | inl e ↦ rw e (omega arith, ap object ((==_iff 40 a).0 e))
    | inr e ↦ absurd (ne (rw e refl))
  ];
  named =
      λ i a p l o. let n = small-named old i a p l o in rw ((==_iff 40 a).1 (sym n.1)) (sym n.0);
  free = 2 ∷ [];
  links = (refl, tt, (none, refl, refl));
  inside = ((omega arith, omega arith), tt);
}

small-Moves : Moves plain (λ a. a + 100) (small_table 0)
small-Moves = record {
  apart = λ a b ne h. omega (arith, h);
  roots = λ i a b o ne. omega arith;
  elsewhere = λ i a b p o h. absurd (omega (arith, (small-named 0 i b p.0 p.1 o).1, h));
  stale = λ i a p plain ne h. ground (arith, p, plain 40, h);
}

collect-Names_example :
    (s' : StableTable plain) × (collect plain (λ a. a + 100) (small_table 0) ≡ some s')
    × IsValid plain s'
    × ((sn a : ℕ)
        → Names plain (small_table 0) sn a
        → a + 100 ≢ 0
        → (((small_table 0).table sn).ref ≢ 0)
          ⊎ ((((small_table 0).table sn).sn_obj ≢ 0)
              × (((small_table 0).table sn).sn_obj + 100 ≢ 0))
        → Names plain s' sn (a + 100))
    × ((sn c : ℕ)
        → Names plain s' sn c
        → (a : ℕ) × Names plain (small_table 0) sn a × (c ≡ a + 100) × (c ≢ 0))
collect-Names_example =
    collect-Names plain (λ a. a + 100) (small_table 0) (small-IsValid 0) small-Moves

small-IsQuiet : (m : ℕ) → 2 ≢ m → IsQuiet ((small_table 40).table m)
small-IsQuiet m ne = (λ o. ground (arith, ne, o), λ a o. ground (arith, ne, o))

-- The free entry was last used for an object at 40, where another object is now.
update-forgets_example :
    (s' : StableTable plain) × (update_stable_ptr_table plain false (small_table 40) ≡ some s')
    × IsNameless plain s' 40
    × Names plain s' 1 40
update-forgets_example =
    update-forgets plain (small_table 40) 2 1 40 (small-IsValid 40) (omega arith, omega arith) refl
      refl (omega arith) (small-Names 40) small-IsQuiet
