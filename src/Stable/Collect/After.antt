-- ===== src/Stable/Collect/After.antt =====
-- rts/Stable.c: what the loop of `gcStablePtrTable` makes of one entry.
use ghc_xapp_fix.Prelude.{
  ℕ, ◌≡◌, ◌≢◌, ◌⊎◌, refl, ap, sym, ◌∙◌, Option, ◌==◌, arith, inl, inr, Bool-cases, ==_iff,
}
use ghc_xapp_fix.Stable.{object, SnEntry, pointer_to}
use ghc_xapp_fix.Stable.Valid.{pointer_to-ne-object}
use ghc_xapp_fix.Stable.Names.{object_inj}
use ghc_xapp_fix.Stable.Collect.{to_object, gc_sn_obj}

-- What `gcStablePtrTable` makes of an entry `e`: an address stays if the entry is a root, and
-- otherwise leads to where the object is now.
pub record After (alive : ℕ → ℕ) (e e' : SnEntry) : Type 0 where
  pub old : e'.old ≡ e.old
  pub from :
      (b : ℕ)
      → e'.addr ≡ object b
      → (a : ℕ) × (e.addr ≡ object a)
        × (((e.ref ≢ 0) × (b ≡ a)) ⊎ ((e.ref ≡ 0) × (b ≡ alive a) × (b ≢ 0)))
  pub root : (a : ℕ) → e.addr ≡ object a → e.ref ≢ 0 → e'.addr ≡ object a
  pub held :
      (a : ℕ)
      → e.addr ≡ object a
      → e.ref ≡ 0
      → (gc_sn_obj alive e).sn_obj ≢ 0
      → alive a ≢ 0
      → e'.addr ≡ object (alive a)

to_object-some : (a : ℕ) → a ≢ 0 → to_object a ≡ object a
to_object-some a ne = elim (Bool-cases (a == 0)) [
  | inl e ↦ absurd (ne ((==_iff a 0).0 e))
  | inr e ↦ rw e refl
]

to_object-from : (a b : ℕ) → to_object a ≡ object b → (b ≡ a) × (b ≢ 0)
to_object-from a b h = ground (arith, h)

-- an entry that keeps its address
pub same-After :
    (alive : ℕ → ℕ) (e : SnEntry)
    → ((a : ℕ) → e.addr ≡ object a → e.ref ≢ 0)
    → After alive e (gc_sn_obj alive e)
same-After alive e r = record {
  old = refl;
  from = λ b o. (b, o, inl (r b o, refl));
  root = λ a o ne. o;
  held = λ a o z. absurd (r a o z);
}

pub moved-After :
    (alive : ℕ → ℕ) (e : SnEntry) (a : ℕ)
    → e.addr ≡ object a
    → e.ref ≡ 0
    → After alive e (record (gc_sn_obj alive e) { addr = to_object (alive a) })
moved-After alive e a o z = record {
  old = refl;
  from = λ b k. let r = to_object-from (alive a) b k in (a, o, inr (z, r.0, r.1));
  root = λ c p ne. absurd (ne z);
  held = λ c p w sn ne.
      let same : a ≡ c = object_inj a c (sym o ∙ p) in
      ap (λ a. to_object (alive a)) same ∙ to_object-some (alive c) ne;
}

pub freed-After :
    (alive : ℕ → ℕ) (e : SnEntry) (q : Option ℕ)
    → e.ref ≡ 0
    → (gc_sn_obj alive e).sn_obj ≡ 0
    → After alive e (record (gc_sn_obj alive e) { addr = pointer_to q })
freed-After alive e q z sn = record {
  old = refl;
  from = λ b k. absurd (pointer_to-ne-object q b k);
  root = λ c p ne. absurd (ne z);
  held = λ c p w ne. absurd (ne sn);
}
