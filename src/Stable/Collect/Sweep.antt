-- ===== src/Stable/Collect/Sweep.antt =====
-- rts/Stable.c: the loop of `gcStablePtrTable`.
use mathlib.Core.Path.{subst}
use ghc_xapp_fix.Prelude.{
  ℕ, zero, suc, ◌+◌, ◌≤◌, ◌<◌, ◌≡◌, ◌≢◌, refl, ap, sym, ◌∙◌, fun_ext, true, Option, none, some,
  List, [], ◌∷◌, ◌==◌, ltb, update, All, arith, inl, inr, Bool-cases, ==_iff, lt→ltb,
}
use ghc_xapp_fix.Stable.Table.{AddressTable}
use ghc_xapp_fix.Stable.{
  Pointer, null, object, entry, SnEntry, pointer_to, StableTable, free_stable_name,
}
use ghc_xapp_fix.Stable.Valid.{
  Links, Inside, pointer_to-ne-object, Links-same, Links-ne-object, update_self, update_other,
  All-map, SameAddr,
}
use ghc_xapp_fix.Stable.Collect.{to_object, gc_addr, gc_sn_obj, gc_entry, gc_entries}
use ghc_xapp_fix.Stable.Collect.Branches.{Pointer-cases}
use ghc_xapp_fix.Stable.Collect.After.{After, same-After, moved-After, freed-After}

module _ (T : AddressTable) where
  open T use {Table, remove_view}

  -- the loop before the entry `k`, on the table `m`
  pub record Gone (alive : ℕ → ℕ) (m : StableTable T) (k : ℕ) (s : StableTable T) : Type 0 where
    pub h : Table
    pub hash_is : s.hash ≡ some h
    pub hash_valid : T.IsValid h
    pub size : s.spt_size ≡ m.spt_size
    pub free : List ℕ
    pub links : Links s.table s.stable_ptr_free free
    pub inside : All (Inside m.spt_size) free
    pub later : (j : ℕ) → k ≤ j → s.table j ≡ m.table j
    pub done : (j : ℕ) → 0 < j → j < k → After alive (m.table j) (s.table j)

  -- a step that changes one entry, and perhaps the free list and the hash table
  changed_step :
      (alive : ℕ → ℕ) (m s : StableTable T) (k : ℕ) (e : SnEntry) (h : Table) (q : Option ℕ)
      (free : List ℕ)
      → 0 < k
      → Gone alive m k s
      → T.IsValid h
      → Links (update s.table k e) q free
      → All (Inside m.spt_size) free
      → After alive (m.table k) e
      → Gone alive m
          (k + 1)
          (record s { table = update s.table k e; stable_ptr_free = q; hash = some h })
  changed_step alive m s k e h q free pos g v links inside after = record {
    h = h;
    hash_is = refl;
    hash_valid = v;
    size = g.size;
    free = free;
    links = links;
    inside = inside;
    later =
        λ j l. update_other s.table k j e (λ z. omega (arith, l, z)) ∙ g.later j (omega (arith, l));
    done = λ j p l. elim (Bool-cases (k == j)) [
      | inl z ↦
          let same : k ≡ j = (==_iff k j).0 z in
          subst (λ j. After alive (m.table j) (update s.table k e j)) same
            (subst (After alive (m.table k)) (sym (update_self s.table k e)) after)
      | inr z ↦
          let ne : k ≢ j = λ w. ground (arith, z, w) in
          subst (After alive (m.table j)) (sym (update_other s.table k j e ne))
            (g.done j p (omega (arith, l, ne)))
    ];
  }

  -- the same, where the links of the free list are left alone
  quiet_step :
      (alive : ℕ → ℕ) (m s : StableTable T) (k : ℕ) (e : SnEntry)
      → 0 < k
      → (g : Gone alive m k s) → All (SameAddr s.table (update s.table k e)) g.free
      → After alive (m.table k) e
      → Gone alive m (k + 1) (record s { table = update s.table k e })
  quiet_step alive m s k e pos g same after =
      subst (λ h. Gone alive m (k + 1) (record s { table = update s.table k e; hash = h }))
        (sym g.hash_is)
        (changed_step alive m s k e g.h s.stable_ptr_free g.free pos g g.hash_valid
          (Links-same s.table (update s.table k e) s.stable_ptr_free g.free same g.links) g.inside
          after)

  same_everywhere :
      (t : ℕ → SnEntry) (k : ℕ) (e : SnEntry) (l : List ℕ)
      → e.addr ≡ (t k).addr
      → All (SameAddr t (update t k e)) l
  same_everywhere t k e [] h = tt
  same_everywhere t k e (j ∷ l) h = (
    elim (Bool-cases (k == j)) [
      | inl z ↦ rw z (h ∙ ap (λ j. (t j).addr) ((==_iff k j).0 z))
      | inr z ↦ rw z refl
    ],
    same_everywhere t k e l h,
  )

  same_apart :
      (t : ℕ → SnEntry) (k : ℕ) (e : SnEntry) (l : List ℕ)
      → All (λ j. j ≢ k) l
      → All (SameAddr t (update t k e)) l
  same_apart t k e l h =
      All-map l (λ j ne. ap (λ (x : SnEntry). x.addr) (update_other t k j e (λ z. ne (sym z)))) h

  update_twice :
      (t : ℕ → SnEntry) (k : ℕ) (e e' : SnEntry) → update (update t k e) k e' ≡ update t k e'
  update_twice t k e e' =
      fun_ext (λ j. elim (Bool-cases (k == j)) [ inl z ↦ rw z refl | inr z ↦ rw z refl ])

  free_stable_name-run :
      (s : StableTable T) (k a : ℕ) (e : SnEntry) (h h' : Table)
      → k < s.spt_size
      → e.addr ≡ object a
      → s.hash ≡ some h
      → T.remove h a ≡ some h'
      → free_stable_name T (record s { table = update s.table k e }) k
        ≡ some (record s {
          table = update s.table k (record e { addr = pointer_to s.stable_ptr_free });
          stable_ptr_free = some k;
          hash = some h';
        })
  unfolding free_stable_name
  free_stable_name-run s k a e h h' lt o hash_is run =
      let u = update s.table k e in
      let here : u k ≡ e = update_self s.table k e in
      let o' : (u k).addr ≡ object a = ap (λ (x : SnEntry). x.addr) here ∙ o in
      rw (lt→ltb k s.spt_size lt, o', hash_is, run)
        (ap (λ t. some (record s { table = t; stable_ptr_free = some k; hash = some h' }))
          (ap (λ (x : SnEntry). update u k (record x { addr = pointer_to s.stable_ptr_free })) here
            ∙ update_twice s.table k e (record e { addr = pointer_to s.stable_ptr_free })))

  gc_frees :
      (alive : ℕ → ℕ) (m s : StableTable T) (k a : ℕ)
      → 0 < k
      → k < m.spt_size
      → (g : Gone alive m k s) → (s.table k).addr ≡ object a
      → (s.table k).ref ≡ 0
      → (gc_sn_obj alive (s.table k)).sn_obj ≡ 0
      → (s' : StableTable T) × (free_stable_name T
            (record s { table = update s.table k (gc_sn_obj alive (s.table k)) })
            k
          ≡ some s')
        × Gone alive m (k + 1) s'
  gc_frees alive m s k a pos lt g o z n =
      let e' = gc_sn_obj alive (s.table k) in
      let (h', run, valid, _) = remove_view g.h a g.hash_valid in
      let e'' : SnEntry = record e' { addr = pointer_to s.stable_ptr_free } in
      let apart = Links-ne-object s.table s.stable_ptr_free g.free k a o g.links in
      (
        _,
        free_stable_name-run s k a e' g.h h' (omega (arith, lt, g.size)) o g.hash_is run,
        changed_step alive m s k e'' h' (some k) (k ∷ g.free) pos g valid
            (
              refl,
              apart,
              (
                s.stable_ptr_free,
                ap (λ (x : SnEntry). x.addr) (update_self s.table k e''),
                Links-same s.table (update s.table k e'') s.stable_ptr_free g.free
                    (same_apart s.table k e'' g.free apart) g.links,
              ),
            )
            ((pos, lt), g.inside)
            (subst (λ x. After alive x e'') (g.later k (omega arith))
              (freed-After alive (s.table k) s.stable_ptr_free z n)),
      )

  gc_step :
      (alive : ℕ → ℕ) (m s : StableTable T) (k : ℕ)
      → 0 < k
      → k < m.spt_size
      → Gone alive m k s
      → (s' : StableTable T) × (gc_entry T alive s k ≡ some s') × Gone alive m (k + 1) s'
  unfolding gc_entry
  gc_step alive m s k pos lt g =
      let e = s.table k in
      let at : e ≡ m.table k = g.later k (omega arith) in
      let e' = gc_sn_obj alive e in
      let within : ltb k s.spt_size ≡ true = lt→ltb k s.spt_size (omega (arith, lt, g.size)) in
      let go = λ (p : Pointer) (o : e.addr ≡ p). ap (gc_addr T alive s k e') o in
      let plain = λ (r : (a : ℕ) → e.addr ≡ object a → e.ref ≢ 0).
        quiet_step alive m s k e' pos g (same_everywhere s.table k e' g.free refl)
          (subst (λ x. After alive x e') at (same-After alive e r)) in
      elim (Pointer-cases e.addr) [
        | inl o ↦ (
          _,
          rw within (go null o),
          plain (λ a p. absurd (pointer_to-ne-object none a (sym o ∙ p))),
        )
        | inr (inr (i, o)) ↦ (
          _,
          rw within (go (entry i) o),
          plain (λ a p. absurd (pointer_to-ne-object (some i) a (sym o ∙ p))),
        )
        | inr (inl (a, o)) ↦
            let apart = Links-ne-object s.table s.stable_ptr_free g.free k a o g.links in
            elim (Bool-cases (e.ref == 0)) [
              | inr r ↦ (
                _,
                rw within (go (object a) o ∙ rw r refl),
                plain (λ b p z. ground (arith, r, z)),
              )
              | inl r ↦
                  let z : e.ref ≡ 0 = (==_iff e.ref 0).0 r in
                  elim (Bool-cases (e'.sn_obj == 0)) [
                    | inr n ↦ (
                      _,
                      rw within (go (object a) o ∙ rw (r, n) refl),
                      quiet_step alive m s k (record e' { addr = to_object (alive a) }) pos g
                          (same_apart s.table k _ g.free apart)
                          (subst (λ x. After alive x (record e' { addr = to_object (alive a) })) at
                            (moved-After alive e a o z)),
                    )
                    | inl n ↦
                        let (s', run, g') =
                          gc_frees alive m s k a pos lt g o z ((==_iff e'.sn_obj 0).0 n) in
                        (s', rw within (go (object a) o ∙ rw (r, n) run), g')
                  ]
            ]
      ]

  pub gc_steps :
      (alive : ℕ → ℕ) (m : StableTable T) (n k : ℕ) (s : StableTable T)
      → 0 < k
      → k + n ≤ m.spt_size
      → Gone alive m k s
      → (s' : StableTable T) × (gc_entries T alive n k s ≡ some s') × Gone alive m (k + n) s'
  unfolding gc_entries
  gc_steps alive m zero k s pos le g =
      let e : k ≡ k + 0 = omega arith in (s, refl, subst (λ k. Gone alive m k s) e g)
  gc_steps alive m (suc n) k s pos le g =
      let (s', run, g') = gc_step alive m s k pos (omega arith) g in
      let (s'', runs, g'') = gc_steps alive m n (k + 1) s' (omega arith) (omega arith) g' in
      let e : k + 1 + n ≡ k + suc n = omega arith in
      (s'', rw run runs, subst (λ k. Gone alive m k s'') e g'')
