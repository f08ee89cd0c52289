-- ===== src/Stable/Collect/Moved.antt =====
-- rts/Stable.c: an entry of the table before and after objects are marked and dead ones dropped.
use mathlib.Core.Path.{subst}
use ghc_xapp_fix.Prelude.{
  ℕ, zero, suc, ◌-◌, ◌≤◌, ◌<◌, ◌≡◌, ◌≢◌, ◌⊎◌, refl, ap, sym, ◌∙◌, Option, none, some, List, [], ◌∷◌,
  ◌==◌, update, All, arith, inl, inr, Bool-cases, ==_iff,
}
use ghc_xapp_fix.Stable.Table.{AddressTable}
use ghc_xapp_fix.Stable.{
  Pointer, null, object, entry, SnEntry, pointer_to, StableTable, mark_addr, mark_entry, each_entry,
  mark_stable_ptr_table,
}
use ghc_xapp_fix.Stable.Valid.{
  Links, Inside, pointer_to-ne-object, update_self, update_other, SameAddr,
}
use ghc_xapp_fix.Stable.Names.{object_inj}
use ghc_xapp_fix.Stable.Collect.Branches.{Pointer-cases}
use ghc_xapp_fix.Stable.Collect.After.{After}

each_entry_outside :
    (f : SnEntry → SnEntry) (n i : ℕ) (t : ℕ → SnEntry) → n < i → each_entry f n t i ≡ t i
unfolding each_entry
each_entry_outside f zero i t l = refl
each_entry_outside f (suc n) i t l =
    update_other (each_entry f n t) (suc n) i (f (each_entry f n t (suc n)))
      (λ z. omega (arith, l, z))
    ∙ each_entry_outside f n i t (omega arith)

each_entry_inside :
    (f : SnEntry → SnEntry) (n i : ℕ) (t : ℕ → SnEntry)
    → 0 < i
    → i ≤ n
    → each_entry f n t i ≡ f (t i)
unfolding each_entry
each_entry_inside f zero i t p l = absurd (omega arith)
each_entry_inside f (suc n) i t p l = elim (Bool-cases (suc n == i)) [
  | inl e ↦
      let z : suc n ≡ i = (==_iff (suc n) i).0 e in
      ap (update (each_entry f n t) (suc n) (f (each_entry f n t (suc n)))) (sym z)
      ∙ update_self (each_entry f n t) (suc n) (f (each_entry f n t (suc n)))
      ∙ ap f (each_entry_outside f n (suc n) t (omega arith) ∙ ap t z)
  | inr e ↦
      let ne : suc n ≢ i = λ z. ground (arith, e, z) in
      update_other (each_entry f n t) (suc n) i (f (each_entry f n t (suc n))) ne
      ∙ each_entry_inside f n i t p (omega (arith, ne))
]

mark_link : (moves : ℕ → ℕ) (e : SnEntry) (q : Option ℕ) → mark_addr moves e (pointer_to q) ≡ e
mark_link moves e none = refl
mark_link moves e (some i) = refl

module _ (T : AddressTable) where
  open T use {Table, remove_view}

  -- What a collection does with objects: different ones stay apart, roots stay alive, and none is
  -- moved to where an entry has another one, or to an address that an entry without one still has.
  pub record Moves (moves : ℕ → ℕ) (s : StableTable T) : Type 0 where
    pub apart : (a b : ℕ) → moves a ≢ 0 → moves a ≡ moves b → a ≡ b
    pub roots :
        (i a : ℕ)
        → Inside s.spt_size i
        → (s.table i).addr ≡ object a
        → (s.table i).ref ≢ 0
        → moves a ≢ 0
    pub elsewhere :
        (i a b : ℕ) → Inside s.spt_size i → (s.table i).addr ≡ object b → moves a ≡ b → a ≡ b
    pub stale :
        (i a : ℕ)
        → Inside s.spt_size i
        → ((b : ℕ) → (s.table i).addr ≢ object b)
        → moves a ≢ 0
        → moves a ≢ (s.table i).old

  marked_at :
      (moves : ℕ → ℕ) (s : StableTable T) (i : ℕ)
      → Inside s.spt_size i
      → (mark_stable_ptr_table T moves s).table i ≡ mark_entry moves (s.table i)
  unfolding mark_stable_ptr_table
  marked_at moves s i b =
      each_entry_inside (mark_entry moves) (s.spt_size - 1) i s.table b.0 (omega (arith, b.1))

  pub keep_marked :
      (moves : ℕ → ℕ) (s : StableTable T) (l : List ℕ)
      → Links s.table s.stable_ptr_free l
      → All (Inside s.spt_size) l
      → All (SameAddr s.table (mark_stable_ptr_table T moves s).table) l
  keep_marked moves s l k b = go l s.stable_ptr_free k b
    where
      go :
          (l : List ℕ) (p : Option ℕ)
          → Links s.table p l
          → All (Inside s.spt_size) l
          → All (SameAddr s.table (mark_stable_ptr_table T moves s).table) l
      go [] p k b = tt
      go (i ∷ l) p k b = (
        ap (λ (e : SnEntry). e.addr)
            (marked_at moves s i b.0
              ∙ ap (mark_addr moves (s.table i)) k.2.1
              ∙ mark_link moves (s.table i) k.2.0),
        go l k.2.0 k.2.2 b.1,
      )

  -- an entry that names an object, after it is marked and the loop of `gcStablePtrTable`
  module _ (moves : ℕ → ℕ) (s s' : StableTable T) (i : ℕ) (b : Inside s.spt_size i)
      (after : After moves ((mark_stable_ptr_table T moves s).table i) (s'.table i)) where
    entry_is :
        (p : Pointer)
        → (s.table i).addr ≡ p
        → (mark_stable_ptr_table T moves s).table i ≡ mark_addr moves (s.table i) p
    entry_is p o = marked_at moves s i b ∙ ap (mark_addr moves (s.table i)) o

    was :
        (p : Pointer)
        → (s.table i).addr ≡ p
        → After moves (mark_addr moves (s.table i) p) (s'.table i)
    was p o = subst (λ e. After moves e (s'.table i)) (entry_is p o) after

    pub origin :
        Moves moves s
        → (c : ℕ) → (s'.table i).addr ≡ object c
        → (a : ℕ) × ((s.table i).addr ≡ object a) × (c ≡ moves a) × (c ≢ 0)
    origin m c o = elim (Pointer-cases (s.table i).addr) [
      | inl p ↦
          let (a, q, _) = (was null p).from c o in absurd (pointer_to-ne-object none a (sym p ∙ q))
      | inr (inr (j, p)) ↦
          let (a, q, _) = (was (entry j) p).from c o in
          absurd (pointer_to-ne-object (some j) a (sym p ∙ q))
      | inr (inl (a, p)) ↦
          let (x, q, outcome) = (was (object a) p).from c o in
          elim (Bool-cases ((s.table i).ref == 0)) [
            | inl z ↦
                let same : a ≡ x = object_inj a x (rw z at q) in
                elim outcome [
                  | inl (ne, _) ↦ absurd (ne ((==_iff (s.table i).ref 0).0 z))
                  | inr (_, e, ne) ↦ (a, p, e ∙ ap moves (sym same), ne)
                ]
            | inr z ↦
                let same : moves a ≡ x = object_inj (moves a) x (rw z at q) in
                let ref : (s.table i).ref ≢ 0 = λ w. ground (arith, z, w) in
                elim outcome [
                  | inl (_, e) ↦
                      let is : c ≡ moves a = e ∙ sym same in
                      (a, p, is, λ w. m.roots i a b p ref (sym is ∙ w))
                  | inr (w, _, _) ↦ absurd (ref w)
                ]
          ]
    ]

    -- only the object that the entry names can be now at the old address of the entry
    pub old_is :
        Moves moves s
        → (a : ℕ) → moves a ≢ 0
        → moves a ≡ (s'.table i).old
        → (s.table i).addr ≡ object a
    old_is m a ne z = elim (Pointer-cases (s.table i).addr) [
      | inl p ↦
          let plain =
            λ (c : ℕ) (q : (s.table i).addr ≡ object c). pointer_to-ne-object none c (sym p ∙ q) in
          absurd (m.stale i a b plain ne (z ∙ (was null p).old))
      | inr (inr (j, p)) ↦
          let plain = λ (c : ℕ) (q : (s.table i).addr ≡ object c).
            pointer_to-ne-object (some j) c (sym p ∙ q) in
          absurd (m.stale i a b plain ne (z ∙ (was (entry j) p).old))
      | inr (inl (c, p)) ↦ p ∙ ap object (sym (m.elsewhere i a c b p (z ∙ (was (object c) p).old)))
    ]

    pub survives :
        (a : ℕ)
        → (s.table i).addr ≡ object a
        → moves a ≢ 0
        → ((s.table i).ref ≢ 0) ⊎ (((s.table i).sn_obj ≢ 0) × (moves (s.table i).sn_obj ≢ 0))
        → (s'.table i).addr ≡ object (moves a)
    survives a p ne held = elim (Bool-cases ((s.table i).ref == 0)) [
      | inr z ↦
          let ref : (s.table i).ref ≢ 0 = λ w. ground (arith, z, w) in
          (was (object a) p).root (moves a) (rw z refl) ref
      | inl z ↦
          let ref : (s.table i).ref ≡ 0 = (==_iff (s.table i).ref 0).0 z in
          elim held [
            | inl w ↦ absurd (w ref)
            | inr (sn, alive) ↦
                (was (object a) p).held a (rw z refl) ref (ground (arith, sn, alive)) ne
          ]
    ]
