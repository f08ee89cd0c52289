-- ===== src/Stable/Collect/Rehash.antt =====
-- rts/Stable.c: `updateStablePtrTable` in a major collection builds the hash table again.
use mathlib.Core.Path.{subst}
use ghc_xapp_fix.Prelude.{
  ℕ, zero, suc, ◌+◌, ◌-◌, ◌≤◌, ◌<◌, ◌≡◌, ◌≢◌, refl, ap, sym, ◌∙◌, true, none, some, List, ◌==◌,
  update, All, arith, inl, inr, Bool-cases, ==_iff,
}
use ghc_xapp_fix.Stable.Table.{AddressTable}
use ghc_xapp_fix.Stable.{null, object, SnEntry, StableTable}
use ghc_xapp_fix.Stable.Valid.{
  Links, Inside, pointer_to-ne-object, Links-same, update_other, IsValid, All-map, SameAddr,
}
use ghc_xapp_fix.Stable.Names.{object_inj}
use ghc_xapp_fix.Stable.Collect.{update_entry, update_entries, update_stable_ptr_table, insert_name}
use ghc_xapp_fix.Stable.Collect.Branches.{
  Pointer-cases, update_entry-null, update_entry-entry, update_entry-object, drop_name-run,
}

module _ (T : AddressTable) where
  open T use {
    Table, view, alloc, insert, remove, free, alloc_view, alloc_valid, insert_view, remove_view,
    free_valid,
  }

  -- No two entries name one object, and an object that is alive is not where one was that is gone.
  pub record IsApart (s : StableTable T) : Type 0 where
    pub distinct :
        (i j a : ℕ)
        → Inside s.spt_size i
        → Inside s.spt_size j
        → (s.table i).addr ≡ object a
        → (s.table j).addr ≡ object a
        → i ≡ j
    pub gone :
        (i j : ℕ)
        → Inside s.spt_size i
        → Inside s.spt_size j
        → (s.table i).addr ≡ null
        → (s.table i).old ≢ 0
        → (s.table j).addr ≢ object (s.table i).old

  -- the loop before the entry `k`
  record Progress (s0 : StableTable T) (k : ℕ) (s : StableTable T) : Type 0 where
    h : Table
    hash_is : s.hash ≡ some h
    hash_valid : T.IsValid h
    size : s.spt_size ≡ s0.spt_size
    free : s.stable_ptr_free ≡ s0.stable_ptr_free
    same : (j : ℕ) → SameAddr s0.table s.table j
    later : (j : ℕ) → k ≤ j → s.table j ≡ s0.table j
    names : (a : ℕ) → view h a ≢ 0 → (view h a < k) × ((s0.table (view h a)).addr ≡ object a)
    named : (j a : ℕ) → 0 < j → j < k → (s0.table j).addr ≡ object a → view h a ≡ j

  step-null :
      (s0 s : StableTable T) (k : ℕ)
      → IsApart s0
      → 0 < k
      → k < s0.spt_size
      → Progress s0 k s
      → (s0.table k).addr ≡ null
      → (s' : StableTable T) × (update_entry T true s k ≡ some s') × Progress s0 (k + 1) s'
  step-null s0 s k apart pos lt p o =
      let e = s.table k in
      let here : e.addr ≡ null = p.same k ∙ o in
      let old_is : (s0.table k).old ≡ e.old =
        ap (λ (x : SnEntry). x.old) (sym (p.later k (omega arith))) in
      let branch = update_entry-null T true s k (omega (arith, lt, p.size)) here in
      let no_name : (j a : ℕ) → j < k + 1 → (s0.table j).addr ≡ object a → j < k = λ j a l x.
        elim (Bool-cases (j == k)) [
          | inl d ↦ absurd (
              pointer_to-ne-object none a
                (sym o ∙ ap (λ j. (s0.table j).addr) (sym ((==_iff j k).0 d)) ∙ x))
          | inr d ↦ ground (arith, d, l)
        ] in
      elim (Bool-cases (e.old == 0)) [
        | inl z ↦ (
          s,
          branch ∙ rw z refl,
          record {
            h = p.h;
            hash_is = p.hash_is;
            hash_valid = p.hash_valid;
            size = p.size;
            free = p.free;
            same = p.same;
            later = λ j l. p.later j (omega (arith, l));
            names = λ a ne. let n = p.names a ne in (omega (arith, n.0), n.1);
            named = λ j a q l x. p.named j a q (no_name j a l x) x;
          },
        )
        | inr z ↦
            let ne0 : e.old ≢ 0 = λ w. ground (arith, z, w) in
            let (h', run, valid, eq) = remove_view p.h e.old p.hash_valid in
            let absent : view p.h e.old ≡ 0 = elim (Bool-cases (view p.h e.old == 0)) [
              | inl w ↦ (==_iff (view p.h e.old) 0).0 w
              | inr w ↦
                  let ne : view p.h e.old ≢ 0 = λ u. ground (arith, w, u) in
                  let n = p.names e.old ne in
                  absurd (
                    apart.gone k (view p.h e.old) (pos, lt)
                      (omega (arith, ne), omega (arith, n.0, lt)) o (λ w. ne0 (sym old_is ∙ w))
                      (n.1 ∙ ap object (sym old_is)))
            ] in
            let stays : (q : ℕ) → view h' q ≡ view p.h q = λ q. elim (Bool-cases (e.old == q)) [
              | inl w ↦ eq q ∙ rw w (sym absent ∙ ap (view p.h) ((==_iff e.old q).0 w))
              | inr w ↦ eq q ∙ rw w refl
            ] in
            (
              record s { table = update s.table k (record e { old = 0 }); hash = some h' },
              branch ∙ rw z (drop_name-run T s k e p.h h' p.hash_is run),
              record {
                h = h';
                hash_is = refl;
                hash_valid = valid;
                size = p.size;
                free = p.free;
                same = λ j. elim (Bool-cases (k == j)) [
                  | inl w ↦ rw w (p.same k ∙ ap (λ j. (s0.table j).addr) ((==_iff k j).0 w))
                  | inr w ↦ rw w (p.same j)
                ];
                later = λ j l.
                    update_other s.table k j (record e { old = 0 }) (λ w. omega (arith, l, w))
                    ∙ p.later j (omega (arith, l));
                names = λ a ne.
                    let n = p.names a (rw (stays a) at ne) in
                    rw (stays a) (omega (arith, n.0), n.1);
                named = λ j a q l x. stays a ∙ p.named j a q (no_name j a l x) x;
              },
            )
      ]

  step-object :
      (s0 s : StableTable T) (k a : ℕ)
      → IsApart s0
      → 0 < k
      → k < s0.spt_size
      → Progress s0 k s
      → (s0.table k).addr ≡ object a
      → (s' : StableTable T) × (update_entry T true s k ≡ some s') × Progress s0 (k + 1) s'
  unfolding insert_name
  step-object s0 s k a apart pos lt p o =
      let absent : view p.h a ≡ 0 = elim (Bool-cases (view p.h a == 0)) [
        | inl w ↦ (==_iff (view p.h a) 0).0 w
        | inr w ↦
            let n = p.names a (λ u. ground (arith, w, u)) in
            let same =
              apart.distinct k (view p.h a) a (pos, lt) (ground (arith, w), omega (arith, n.0, lt))
                o n.1 in
            absurd (omega (arith, same, n.0))
      ] in
      let (h', run, valid, eq) =
        insert_view p.h a k p.hash_valid absent (λ z. omega (arith, z, pos)) in
      (
        record s { hash = some h' },
        update_entry-object T true s k (omega (arith, lt, p.size)) a (p.same k ∙ o)
            ∙ rw (p.hash_is, run) refl,
        record {
          h = h';
          hash_is = refl;
          hash_valid = valid;
          size = p.size;
          free = p.free;
          same = p.same;
          later = λ j l. p.later j (omega (arith, l));
          names = λ c ne. elim (Bool-cases (a == c)) [
            | inl g ↦
                let w : view h' c ≡ k = eq c ∙ rw g refl in
                rw w (omega arith, o ∙ ap object ((==_iff a c).0 g))
            | inr g ↦
                let w : view h' c ≡ view p.h c = eq c ∙ rw g refl in
                let n = p.names c (rw w at ne) in rw w (omega (arith, n.0), n.1)
          ];
          named = λ j c q l x. elim (Bool-cases (a == c)) [
            | inl g ↦
                let r : k ≡ j =
                  apart.distinct k j c (pos, lt) (q, omega (arith, l, lt))
                    (o ∙ ap object ((==_iff a c).0 g)) x in
                eq c ∙ rw g r
            | inr g ↦
                let d : j ≢ k = λ z.
                  ground
                    (arith, g, object_inj a c (sym o ∙ ap (λ j. (s0.table j).addr) (sym z) ∙ x)) in
                eq c ∙ rw g (p.named j c q (omega (arith, l, d)) x)
          ];
        },
      )

  step :
      (s0 s : StableTable T) (k : ℕ)
      → IsApart s0
      → 0 < k
      → k < s0.spt_size
      → Progress s0 k s
      → (s' : StableTable T) × (update_entry T true s k ≡ some s') × Progress s0 (k + 1) s'
  step s0 s k apart pos lt p = elim (Pointer-cases (s0.table k).addr) [
    | inl o ↦ step-null s0 s k apart pos lt p o
    | inr (inl (a, o)) ↦ step-object s0 s k a apart pos lt p o
    | inr (inr (i, o)) ↦
        let other : (j a : ℕ) → j < k + 1 → (s0.table j).addr ≡ object a → j < k = λ j a l x.
          elim (Bool-cases (j == k)) [
            | inl d ↦ absurd (
                pointer_to-ne-object (some i) a
                  (sym o ∙ ap (λ j. (s0.table j).addr) (sym ((==_iff j k).0 d)) ∙ x))
            | inr d ↦ ground (arith, d, l)
          ] in
        (
          s,
          update_entry-entry T true s k (omega (arith, lt, p.size)) i (p.same k ∙ o),
          record {
            h = p.h;
            hash_is = p.hash_is;
            hash_valid = p.hash_valid;
            size = p.size;
            free = p.free;
            same = p.same;
            later = λ j l. p.later j (omega (arith, l));
            names = λ a ne. let n = p.names a ne in (omega (arith, n.0), n.1);
            named = λ j a q l x. p.named j a q (other j a l x) x;
          },
        )
  ]

  steps :
      (s0 : StableTable T) (n k : ℕ) (s : StableTable T)
      → IsApart s0
      → 0 < k
      → k + n ≤ s0.spt_size
      → Progress s0 k s
      → (s' : StableTable T) × (update_entries T true n k s ≡ some s') × Progress s0 (k + n) s'
  unfolding update_entries
  steps s0 zero k s apart pos le p =
      let e : k ≡ k + 0 = omega arith in (s, refl, subst (λ m. Progress s0 m s) e p)
  steps s0 (suc n) k s apart pos le p =
      let (s', run, p') = step s0 s k apart pos (omega arith) p in
      let (s'', runs, p'') = steps s0 n (k + 1) s' apart (omega arith) (omega arith) p' in
      let e : k + 1 + n ≡ k + suc n = omega arith in
      (s'', rw run runs, subst (λ m. Progress s0 m s'') e p'')

  -- `updateStablePtrTable` in a major collection, whatever the old hash table holds: where no two
  -- entries name one object, and no object is alive at the old address of one that is gone, it
  -- makes no wild access, and leaves a valid table of that size with the same addresses.
  pub update-IsValid :
      (s : StableTable T) (h : Table) (l : List ℕ)
      → s.hash ≡ some h
      → T.IsValid h
      → 1 < s.spt_size
      → Links s.table s.stable_ptr_free l
      → All (Inside s.spt_size) l
      → IsApart s
      → (s' : StableTable T) × (update_stable_ptr_table T true s ≡ some s')
        × IsValid T s'
        × (s'.spt_size ≡ s.spt_size)
        × ((i : ℕ) → SameAddr s.table s'.table i)
  unfolding update_stable_ptr_table
  update-IsValid s h l hash_is valid size links inside apart =
      let s0 = record s { hash = some alloc } in
      let apart0 : IsApart s0 = record { distinct = apart.distinct; gone = apart.gone } in
      let (s', run, p) =
        steps s0 (s.spt_size - 1) 1 s0 apart0 (omega arith) (omega (arith, size)) (record {
          h = alloc;
          hash_is = refl;
          hash_valid = alloc_valid;
          size = refl;
          free = refl;
          same = λ j. refl;
          later = λ j k. refl;
          names = λ a ne. absurd (ne (alloc_view a));
          named = λ j a q k x. absurd (omega (arith, q, k));
        }) in
      (
        s',
        rw (hash_is, free_valid h valid) run,
        record {
          h = p.h;
          hash_is = p.hash_is;
          hash_valid = p.hash_valid;
          size = omega (arith, size, p.size);
          names = λ a ne.
              let n = p.names a ne in (omega (arith, n.0, p.size, size), p.same (view p.h a) ∙ n.1);
          named = λ i a q k x. p.named i a q (omega (arith, k, p.size)) (sym (p.same i) ∙ x);
          free = l;
          links =
              Links-same s.table s'.table s'.stable_ptr_free l (All-map l (λ i b. p.same i) inside)
                (rw p.free links);
          inside = All-map l (λ i b. (b.0, omega (arith, b.1, p.size))) inside;
        },
        p.size,
        p.same,
      )
