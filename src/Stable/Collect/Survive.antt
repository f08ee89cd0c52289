-- ===== src/Stable/Collect/Survive.antt =====
-- rts/Stable.c: the names that live on through a major collection.
use ghc_xapp_fix.Prelude.{ℕ, ◌-◌, ◌≡◌, ◌≢◌, ◌⊎◌, refl, ap, sym, ◌∙◌, none, some, All, arith}
use ghc_xapp_fix.Stable.Table.{AddressTable}
use ghc_xapp_fix.Stable.{object, StableTable, mark_stable_ptr_table}
use ghc_xapp_fix.Stable.Valid.{Inside, pointer_to-ne-object, Links-same, IsValid, All-map, SameAddr}
use ghc_xapp_fix.Stable.Names.{Names}
use ghc_xapp_fix.Stable.Collect.{gc_stable_ptr_table, collect}
use ghc_xapp_fix.Stable.Collect.Rehash.{IsApart, update-IsValid}
use ghc_xapp_fix.Stable.Collect.After.{After}
use ghc_xapp_fix.Stable.Collect.Sweep.{gc_steps}
use ghc_xapp_fix.Stable.Collect.Moved.{Moves, keep_marked, origin, old_is, survives}

module _ (T : AddressTable) where
  open T use {Table, remove_view}

  -- after the loop, the entries are apart
  gone-IsApart :
      (moves : ℕ → ℕ) (s u : StableTable T)
      → IsValid T s
      → Moves T moves s
      → u.spt_size ≡ s.spt_size
      → ((i : ℕ)
          → Inside s.spt_size i
          → After moves ((mark_stable_ptr_table T moves s).table i) (u.table i))
      → IsApart T u
  gone-IsApart moves s u v m size done =
      let within : (i : ℕ) → Inside u.spt_size i → Inside s.spt_size i =
        λ i b. (b.0, omega (arith, b.1, size)) in
      let named = λ (i a : ℕ) (b : Inside u.spt_size i). v.named i a b.0 (within i b).1 in
      let came = λ (i c : ℕ) (b : Inside u.spt_size i).
        origin T moves s u i (within i b) (done i (within i b)) m c in
      record {
        distinct = λ i j c p q x y.
            let (a, o, e, ne) = came i c p x in
            let (a', o', e', _) = came j c q y in
            let z : a ≡ a' = m.apart a a' (λ w. ne (e ∙ w)) (sym e ∙ e') in
            sym (named i a p o) ∙ ap (T.view v.h) z ∙ named j a' q o';
        gone = λ i j p q x ne y.
            let (a, o, e, live) = came j (u.table i).old q y in
            let o' =
              old_is T moves s u i (within i p) (done i (within i p)) m a (λ w. live (e ∙ w))
                (sym e) in
            let z : j ≡ i = sym (named j a q o) ∙ named i a p o' in
            pointer_to-ne-object none (u.table i).old
              (sym x ∙ ap (λ i. (u.table i).addr) (sym z) ∙ y);
      }

  -- A major collection of a valid table, in which `moves` gives where objects go: if it keeps
  -- different objects apart, keeps the targets of stable pointers, and moves none to where an
  -- entry has another one or to the old address of an entry without one, then it makes no wild
  -- access and leaves a valid table. A name of an object that is alive still names it if the entry
  -- has a stable pointer, or a StableName object that is alive. Every name afterwards is one of an
  -- object that it named before.
  pub collect-Names :
      (moves : ℕ → ℕ) (s : StableTable T)
      → IsValid T s
      → Moves T moves s
      → (s' : StableTable T) × (collect T moves s ≡ some s')
        × IsValid T s'
        × ((sn a : ℕ)
            → Names T s sn a
            → moves a ≢ 0
            → ((s.table sn).ref ≢ 0) ⊎ (((s.table sn).sn_obj ≢ 0) × (moves (s.table sn).sn_obj ≢ 0))
            → Names T s' sn (moves a))
        × ((sn c : ℕ) → Names T s' sn c → (a : ℕ) × Names T s sn a × (c ≡ moves a) × (c ≢ 0))
  unfolding collect gc_stable_ptr_table mark_stable_ptr_table
  collect-Names moves s v m =
      let t = mark_stable_ptr_table T moves s in
      let same : All (SameAddr s.table t.table) v.free =
        keep_marked T moves s v.free v.links v.inside in
      let (u, run, g) =
        gc_steps T moves t (s.spt_size - 1) 1 t (omega arith) (omega (arith, v.size)) (record {
          h = v.h;
          hash_is = v.hash_is;
          hash_valid = v.hash_valid;
          size = refl;
          free = v.free;
          links = Links-same s.table t.table s.stable_ptr_free v.free same v.links;
          inside = v.inside;
          later = λ j l. refl;
          done = λ j p l. absurd (omega (arith, p, l));
        }) in
      let done = λ (i : ℕ) (b : Inside s.spt_size i). g.done i b.0 (omega (arith, b.1)) in
      let apart = gone-IsApart moves s u v m g.size done in
      let (s', runs, valid, sizes, addrs) =
        update-IsValid T u g.h g.free g.hash_is g.hash_valid (omega (arith, v.size, g.size)) g.links
          (All-map g.free (λ i b. (b.0, omega (arith, b.1, g.size))) g.inside) apart in
      (
        s',
        rw run runs,
        valid,
        λ sn a n ne held.
            let b : Inside s.spt_size sn = (n.pos, n.lt) in
            let o : (s'.table sn).addr ≡ object (moves a) =
              addrs sn ∙ survives T moves s u sn b (done sn b) a n.addr ne held in
            record { pos = n.pos; lt = omega (arith, n.lt, g.size, sizes); addr = o },
        λ sn c n.
            let b : Inside s.spt_size sn = (n.pos, omega (arith, n.lt, g.size, sizes)) in
            let (a, o, e, ne) = origin T moves s u sn b (done sn b) m c (sym (addrs sn) ∙ n.addr) in
            (a, record { pos = b.0; lt = b.1; addr = o }, e, ne),
      )
