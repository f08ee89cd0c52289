-- ===== src/Stable/Pointers.antt =====
-- rts/Stable.c: `getStablePtr`, `freeStablePtr` and `deRefStablePtr`.
use ghc_xapp_fix.Prelude.{
  ℕ, ◌+◌, ◌-◌, ◌%◌, ◌^◌, ◌<◌, ◌≡◌, ◌≢◌, ◌⊎◌, refl, ap, sym, ◌∙◌, Option, some, ◌∷◌, ◌==◌, update,
  arith, inl, inr, Bool-cases, ==_iff, lt→ltb,
}
use ghc_xapp_fix.Stable.Table.{AddressTable}
use ghc_xapp_fix.Stable.{
  SnEntry, pointer_to, StableTable, free_stable_name, get_stable_ptr, init_stable_ptr_table,
}
use ghc_xapp_fix.Stable.Valid.{
  pointer_to-ne-object, Links-same, Links-ne-object, update_self, update_other, IsValid, All-map,
  SameAddr, SameAddr-IsValid,
}
use ghc_xapp_fix.Stable.Names.{object_inj, Takes, Names}

-- a count of references, a word, with one less
abbrev pub less_one : ℕ → ℕ
less_one ref = (ref + 2 ^ 64 - 1) % 2 ^ 64

module _ (T : AddressTable) where
  open T use {Table, view, remove_view}

  -- the object `a` has no name
  abbrev pub IsNameless : StableTable T → ℕ → Type 0
  IsNameless s a = (h : Table) × (s.hash ≡ some h) × (view h a ≡ 0)

  abbrev pub SameElsewhere : StableTable T → StableTable T → ℕ → Type 0
  SameElsewhere s s' i = (j : ℕ) → i ≢ j → s'.table j ≡ s.table j

  -- The entry goes to the front of the free list, and the object loses its name.
  pub free_stable_name-IsValid :
      (s : StableTable T) (i a : ℕ)
      → IsValid T s
      → Names T s i a
      → (s' : StableTable T) × (free_stable_name T s i ≡ some s')
        × IsValid T s'
        × IsNameless s' a
        × (s'.stable_ptr_free ≡ some i)
        × SameElsewhere s s' i
  unfolding free_stable_name
  free_stable_name-IsValid s i a v n =
      let (h', run, valid, eq) = remove_view v.h a v.hash_valid in
      let e' : SnEntry = record (s.table i) { addr = pointer_to s.stable_ptr_free } in
      let t' = update s.table i e' in
      let here : t' i ≡ e' = update_self s.table i e' in
      let other = λ (j : ℕ) (ne : i ≢ j). update_other s.table i j e' ne in
      let apart = Links-ne-object s.table s.stable_ptr_free v.free i a n.addr v.links in
      (
        record s { table = t'; stable_ptr_free = some i; hash = some h' },
        rw (lt→ltb i s.spt_size n.lt, n.addr, v.hash_is, run) refl,
        record {
          h = h';
          hash_is = refl;
          hash_valid = valid;
          size = v.size;
          names = λ c ne. elim (Bool-cases (a == c)) [
            | inl g ↦ absurd (ne (eq c ∙ rw g refl))
            | inr g ↦
                let w : view h' c ≡ view v.h c = eq c ∙ rw g refl in
                let k = v.names c (rw w at ne) in
                let d : i ≢ view v.h c = λ z.
                  ground
                    (arith, g, object_inj a c (sym n.addr ∙ ap (λ j. (s.table j).addr) z ∙ k.1)) in
                rw w (k.0, ap (λ (x : SnEntry). x.addr) (other (view v.h c) d) ∙ k.1)
          ];
          named = λ j c p lt o. elim (Bool-cases (i == j)) [
            | inl g ↦
                let z : i ≡ j = (==_iff i j).0 g in
                absurd (
                  pointer_to-ne-object s.stable_ptr_free c
                    (sym (ap (λ (x : SnEntry). x.addr) here) ∙ ap (λ j. (t' j).addr) z ∙ o))
            | inr g ↦
                let ne : i ≢ j = λ z. ground (arith, g, z) in
                let w = v.named j c p lt (sym (ap (λ (x : SnEntry). x.addr) (other j ne)) ∙ o) in
                elim (Bool-cases (a == c)) [
                  | inl f ↦
                      let z : a ≡ c = (==_iff a c).0 f in
                      absurd (ne (sym (v.named i a n.pos n.lt n.addr) ∙ ap (view v.h) z ∙ w))
                  | inr f ↦ eq c ∙ rw f w
                ]
          ];
          free = i ∷ v.free;
          links = (
            refl,
            apart,
            (
              s.stable_ptr_free,
              ap (λ (x : SnEntry). x.addr) here,
              Links-same s.table t' s.stable_ptr_free v.free
                  (All-map v.free (λ j ne. ap (λ (x : SnEntry). x.addr) (other j (λ z. ne (sym z))))
                    apart)
                  v.links,
            ),
          );
          inside = ((n.pos, n.lt), v.inside);
        },
        (h', refl, eq a ∙ rw ((==_iff a a).1 refl) refl),
        refl,
        other,
      )

  -- another count of references at one entry
  abbrev pub with_ref : StableTable T → ℕ → ℕ → StableTable T
  with_ref s i ref = record s { table = update s.table i (record (s.table i) { ref = ref }) }

  with_ref-same : (s : StableTable T) (i ref j : ℕ) → SameAddr s.table (with_ref s i ref).table j
  with_ref-same s i ref j = elim (Bool-cases (i == j)) [
    | inl h ↦ rw h (ap (λ j. (s.table j).addr) ((==_iff i j).0 h))
    | inr h ↦ rw h refl
  ]

  pub with_ref-IsValid :
      (s : StableTable T) (i ref : ℕ) → IsValid T s → IsValid T (with_ref s i ref)
  with_ref-IsValid s i ref v =
      SameAddr-IsValid T s (with_ref s i ref).table (with_ref-same s i ref) v

  pub with_ref-Names :
      (s : StableTable T) (i ref j a : ℕ) → Names T s j a → Names T (with_ref s i ref) j a
  with_ref-Names s i ref j a n = record {
    pos = n.pos;
    lt = n.lt;
    addr = with_ref-same s i ref j ∙ n.addr;
  }

  -- what a call of `getStablePtr` leaves behind
  record Gets (heap : ℕ → Option ℕ) (fuel : ℕ) (s : StableTable T) (p a : ℕ) : Type 0 where
    looked : ℕ × StableTable T
    takes : Takes T (init_stable_ptr_table T s) a looked
    run :
        get_stable_ptr T heap fuel s p
        ≡ some (looked.0, with_ref looked.1 looked.0 (((looked.1.table looked.0).ref + 1) % 2 ^ 64))

  -- The entry `sn` is in use, apart from the name of its object.
  abbrev pub IsHeld : StableTable T → ℕ → Type 0
  IsHeld s sn = (0 < (s.table sn).ref) ⊎ ((s.table sn).sn_obj ≢ 0)
