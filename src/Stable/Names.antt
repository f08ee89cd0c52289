-- ===== src/Stable/Names.antt =====
-- rts/Stable.c: `lookupStableName`.
use mathlib.Core.Option
use ghc_xapp_fix.Prelude.{
  ℕ, zero, suc, ◌*◌, ◌^◌, ◌≤◌, ◌<◌, ◌≡◌, ◌≢◌, refl, ap, sym, ◌∙◌, Option, none, some, List, [], ◌∷◌,
  ◌==◌, ltb, update, All, arith, inl, inr, Bool-cases, Option-cases, ==_iff, lt→ltb,
}
use ghc_xapp_fix.Stable.Table.{AddressTable}
use ghc_xapp_fix.Stable.{
  null, object, SnEntry, pointer_to, next_free, untag, remove_indirections, StableTable,
  enlarge_if_none, with_free, new_name, lookup_stable_name_, init_stable_ptr_table,
}
use ghc_xapp_fix.Stable.Valid.{
  Links, Inside, pointer_to-ne-object, Links-same, update_self, update_other, IsValid, enlarged,
  enlarge-run, enlarge-IsValid, All-map, link_entries_outside,
}

pub object_inj : (a b : ℕ) → object a ≡ object b → a ≡ b
object_inj a b h = ground (arith, h)

next_free-pointer_to : (q : Option ℕ) → next_free (pointer_to q) ≡ some q
next_free-pointer_to none = refl
next_free-pointer_to (some i) = refl

-- the object that the address `p` leads to, through indirections
abbrev pub LeadsTo : (ℕ → Option ℕ) → ℕ → ℕ → ℕ → Type 0
LeadsTo heap fuel p a = remove_indirections heap fuel (untag p) ≡ some a

-- Where indirections do not run in circles, the loop ends at a closure that is none.
indirections_end :
    (heap : ℕ → Option ℕ) (rank : ℕ → ℕ)
    → ((q p : ℕ) → heap q ≡ some p → rank (untag p) < rank q)
    → (fuel q : ℕ) → rank q < fuel
    → (a : ℕ) × (remove_indirections heap fuel q ≡ some a) × (heap a ≡ none)
unfolding remove_indirections
indirections_end heap rank falls zero q h = absurd (omega arith)
indirections_end heap rank falls (suc fuel) q h = elim (Option-cases (heap q)) [
  | inl e ↦ (q, rw (e, remove_indirections) refl, e)
  | inr (p, e) ↦
      let (a, run, last) =
        indirections_end heap rank falls fuel (untag p) (omega (arith, falls q p e, h)) in
      (a, rw (e, remove_indirections) run, last)
]

module _ (T : AddressTable) where
  open T use {Table, view, lookup_view, insert_view}

  -- The entries that name objects stay.
  pub record Keeps (s s' : StableTable T) : Type 0 where
    pub size : s.spt_size ≤ s'.spt_size
    pub kept : (i a : ℕ) → i < s.spt_size → (s.table i).addr ≡ object a → s'.table i ≡ s.table i

  pub Keeps-refl : (s : StableTable T) → Keeps s s
  Keeps-refl s = record { size = omega arith; kept = λ i a l o. refl }

  pub Keeps-trans : (s t u : StableTable T) → Keeps s t → Keeps t u → Keeps s u
  Keeps-trans s t u k l = record {
    size = omega (arith, k.size, l.size);
    kept = λ i a b o.
        let e = k.kept i a b o in
        l.kept i a (omega (arith, b, k.size)) (ap (λ (x : SnEntry). x.addr) e ∙ o) ∙ e;
  }

  -- the name `sn` of the object `a`
  pub record Names (s : StableTable T) (sn a : ℕ) : Type 0 where
    pub pos : 0 < sn
    pub lt : sn < s.spt_size
    pub addr : (s.table sn).addr ≡ object a

  record HasFree (s s' : StableTable T) : Type 0 where
    valid : IsValid T s'
    keeps : Keeps s s'
    grown : s'.spt_size ≤ s.spt_size * 2
    first : ℕ
    is_first : s'.stable_ptr_free ≡ some first

  with_free-HasFree :
      (s : StableTable T) (o : Option ℕ)
      → s.stable_ptr_free ≡ o
      → IsValid T s
      → s.spt_size < 2 ^ 31
      → (s' : StableTable T) × (with_free T s ≡ some s') × HasFree s s'
  with_free-HasFree s none e v b = (
    enlarged T s,
    ap (enlarge_if_none T s) e ∙ enlarge-run T s b,
    record {
      valid = enlarge-IsValid T s v;
      keeps = record {
        size = omega arith;
        kept = λ i a l o. link_entries_outside s.spt_size s.spt_size i s.table null (inl l);
      };
      grown = omega arith;
      first = s.spt_size;
      is_first = refl;
    },
  )
  with_free-HasFree s (some f) e v b = (
    s,
    ap (enlarge_if_none T s) e,
    record { valid = v; keeps = Keeps-refl s; grown = omega arith; first = f; is_first = e },
  )

  abbrev pub Takes : StableTable T → ℕ → ℕ × StableTable T → Type 0
  Takes s a r = IsValid T r.1 × Names r.1 r.0 a × Keeps s r.1

  new_name-Takes :
      (s : StableTable T) (v : IsValid T s) (a f : ℕ) (free : List ℕ)
      → s.stable_ptr_free ≡ some f
      → Links s.table s.stable_ptr_free free
      → All (Inside s.spt_size) free
      → view v.h a ≡ 0
      → (r : ℕ × StableTable T) × (new_name T s v.h a ≡ some r)
        × Takes s a r
        × (r.1.spt_size ≡ s.spt_size)
  unfolding new_name
  new_name-Takes s v a f [] e k b absent = absurd (ground (arith, e, k))
  new_name-Takes s v a f (i ∷ l) e k b absent =
      let same : i ≡ f = Option.some_inj.0 (sym k.0 ∙ e) in
      let q = k.2.0 in
      let was : (s.table i).addr ≡ pointer_to q = k.2.1 in
      let (h', run, valid, eq) =
        insert_view v.h a i v.hash_valid absent (λ (z : i ≡ 0). omega (arith, z, b.0.0)) in
      let e' : SnEntry = record (s.table i) { addr = object a; ref = 0; sn_obj = 0 } in
      let t' = update s.table i e' in
      let here : t' i ≡ e' = update_self s.table i e' in
      let old_ne = λ (j c : ℕ) (o : (s.table j).addr ≡ object c) (z : i ≡ j).
        pointer_to-ne-object q c (sym was ∙ ap (λ j. (s.table j).addr) z ∙ o) in
      (
        (i, record s { table = t'; stable_ptr_free = q; hash = some h' }),
        rw (k.0, lt→ltb i s.spt_size b.0.1, was, next_free-pointer_to q, run) refl,
        (
          record {
            h = h';
            hash_is = refl;
            hash_valid = valid;
            size = v.size;
            names = λ c ne. elim (Bool-cases (a == c)) [
              | inl h ↦
                  let z : a ≡ c = (==_iff a c).0 h in
                  let w : view h' c ≡ i = eq c ∙ rw h refl in
                  rw w (b.0.1, ap (λ (x : SnEntry). x.addr) here ∙ ap object z)
              | inr h ↦
                  let w : view h' c ≡ view v.h c = eq c ∙ rw h refl in
                  let n = v.names c (rw w at ne) in
                  rw w (
                    n.0,
                    ap (λ (x : SnEntry). x.addr)
                          (update_other s.table i (view v.h c) e' (old_ne (view v.h c) c n.1))
                        ∙ n.1,
                  )
            ];
            named = λ j c p lt o. elim (Bool-cases (i == j)) [
              | inl h ↦
                  let z : i ≡ j = (==_iff i j).0 h in
                  let c_is : a ≡ c =
                    object_inj a c
                      (sym (ap (λ (x : SnEntry). x.addr) here) ∙ ap (λ j. (t' j).addr) z ∙ o) in
                  eq c ∙ rw ((==_iff a c).1 c_is) z
              | inr h ↦
                  let ne : i ≢ j = λ z. ground (arith, h, z) in
                  let o' : (s.table j).addr ≡ object c =
                    sym (ap (λ (x : SnEntry). x.addr) (update_other s.table i j e' ne)) ∙ o in
                  let w = v.named j c p lt o' in
                  elim (Bool-cases (a == c)) [
                    | inl g ↦
                        let z : a ≡ c = (==_iff a c).0 g in
                        absurd (omega (arith, p, w, ap (view v.h) z, absent))
                    | inr g ↦ eq c ∙ rw g w
                  ]
            ];
            free = l;
            links =
                Links-same s.table t' q l
                  (All-map l
                    (λ j ne.
                      ap (λ (x : SnEntry). x.addr) (update_other s.table i j e' (λ z. ne (sym z))))
                    k.1)
                  k.2.2;
            inside = b.1;
          },
          record { pos = b.0.0; lt = b.0.1; addr = ap (λ (x : SnEntry). x.addr) here },
          record {
            size = omega arith;
            kept = λ j c lt o. update_other s.table i j e' (old_ne j c o);
          },
        ),
        refl,
      )

  -- A lookup of an address that leads to the object `a`, in a valid table of less than 2 ^ 31
  -- entries, gives a name of `a`, keeps the table valid, and keeps the entries that name objects.
  pub lookup_-Takes :
      (heap : ℕ → Option ℕ) (fuel : ℕ) (s : StableTable T) (p a : ℕ)
      → IsValid T s
      → s.spt_size < 2 ^ 31
      → LeadsTo heap fuel p a
      → (r : ℕ × StableTable T) × (lookup_stable_name_ T heap fuel s p ≡ some r)
        × Takes s a r
        × (r.1.spt_size ≤ s.spt_size * 2)
  unfolding lookup_stable_name_
  lookup_-Takes heap fuel s p a v b leads =
      let (s', start, f) = with_free-HasFree s s.stable_ptr_free refl v b in
      let found = lookup_view f.valid.h a f.valid.hash_valid in
      elim (Bool-cases (view f.valid.h a == 0)) [
        | inl e ↦
            let z : view f.valid.h a ≡ 0 = (==_iff _ 0).0 e in
            let (r, run, takes, size) =
              new_name-Takes s' f.valid a f.first f.valid.free f.is_first f.valid.links
                f.valid.inside z in
            (
              r,
              rw (start, leads, f.valid.hash_is, found, e) run,
              (takes.0, takes.1, Keeps-trans s s' r.1 f.keeps takes.2),
              omega (arith, size, f.grown),
            )
        | inr e ↦
            let ne : view f.valid.h a ≢ 0 = λ z. ground (arith, e, z) in
            let n = f.valid.names a ne in
            (
              (view f.valid.h a, s'),
              rw (start, leads, f.valid.hash_is, found, e) refl,
              (f.valid, record { pos = omega (arith, ne); lt = n.0; addr = n.1 }, f.keeps),
              f.grown,
            )
      ]

  pub init_done : (s : StableTable T) → 0 < s.spt_size → init_stable_ptr_table T s ≡ s
  unfolding init_stable_ptr_table
  init_done s h = rw (lt→ltb 0 s.spt_size h) refl

  pub init-size :
      (s : StableTable T) (n : ℕ)
      → s.spt_size < n
      → 64 < n
      → (init_stable_ptr_table T s).spt_size < n
  unfolding init_stable_ptr_table
  init-size s n h l = elim (Bool-cases (ltb 0 s.spt_size)) [ inl e ↦ rw e h | inr e ↦ rw e l ]

  -- the name of an object is determined
  pub Names-unique :
      (s : StableTable T) (sn sm a : ℕ) → IsValid T s → Names s sn a → Names s sm a → sn ≡ sm
  Names-unique s sn sm a v n m =
      sym (v.named sn a n.pos n.lt n.addr) ∙ v.named sm a m.pos m.lt m.addr
