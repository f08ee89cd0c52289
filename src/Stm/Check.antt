-- ===== src/Stm/Check.antt =====
-- rts/STM.c: `stmValidateNestOfTransactions`, and the invariants that a transaction has to check.
use mathlib.Core.Path.{subst}
use ghc_xapp_fix.Prelude.{
  ℕ, ◌≡◌, ◌↔◌, ◌⊎◌, refl, ap, Bool, true, false, ◌&&◌, ◌||◌, List, [], ◌∷◌, ◌==◌, if◌then◌else◌,
  All, arith, inl, inr, Bool-cases, ==_iff,
}
use ghc_xapp_fix.Stm.Trec.{
  TrecEntry, InvariantCheck, Trec, trec_condemned, entries, is_condemned, is_waiting,
  entry_is_update, validate_and_acquire_ownership,
}
use ghc_xapp_fix.Stm.World.{Watcher, tso, atomic_invariant, TvarWatchQueue, World}
use ghc_xapp_fix.Stm.Ops.{
  validate_nest, stm_validate_nest_of_transactions, is_queued, queue_invariant, queue_watcher,
  queue_watchers, queue_touched, stm_get_invariants_to_check,
}
use ghc_xapp_fix.Stm.Nest.{AgreesNest}
use ghc_xapp_fix.Stm.Commit.{validate-Agrees}
use ghc_xapp_fix.Stm.Watch.{On}

-- No record of the nest is condemned, and all entries expect the values of the store.
abbrev pub IsValidNest : (ℕ → ℕ) → List Trec → Type 0
IsValidNest σ nest = All (λ t. is_condemned t.state ≡ false) nest × AgreesNest σ nest

both_true : (a b : Bool) → a && b ≡ true → (a ≡ true) × (b ≡ true)
both_true true b h = (refl, h)
both_true false b h = absurd (ground (arith, h))

validate_nest-IsValidNest :
    (σ : ℕ → ℕ) (nest : List Trec) → (validate_nest σ nest ≡ true) ↔ IsValidNest σ nest
unfolding validate_nest
validate_nest-IsValidNest σ [] = ((λ _. (tt, tt)), (λ _. refl))
validate_nest-IsValidNest σ (t ∷ outer) =
    let here = validate-Agrees σ t in
    let rest = validate_nest-IsValidNest σ outer in
    (
      (λ h.
          let b = both_true (validate_and_acquire_ownership σ t true) (validate_nest σ outer) h in
          let x = here.0 b.0 in let y = rest.0 b.1 in ((x.0, y.0), (x.1, y.1))),
      (λ v. rw (here.1 (v.0.0, v.1.0), rest.1 (v.0.1, v.1.1)) refl),
    )

-- A call of `stmValidateNestOfTransactions` either accepts a nest in which no record is condemned and
-- all entries expect the values that the variables have, and leaves the innermost record as it is; or
-- it refuses one of which this is not so, and condemns the innermost record unless that waits.
pub stm_validate_nest-IsValidNest :
    (σ : ℕ → ℕ) (t : Trec) (outer : List Trec)
    → (IsValidNest σ (t ∷ outer) × (stm_validate_nest_of_transactions σ t outer ≡ (true, t)))
      ⊎ ((IsValidNest σ (t ∷ outer) → ⊥)
          × (stm_validate_nest_of_transactions σ t outer
              ≡ (false, if is_waiting t.state then t else record t { state = trec_condemned })))
unfolding stm_validate_nest_of_transactions
stm_validate_nest-IsValidNest σ t outer =
    let r = validate_nest-IsValidNest σ (t ∷ outer) in
    elim (Bool-cases (validate_nest σ (t ∷ outer))) [
      | inl e ↦ inl (r.0 e, rw e refl)
      | inr e ↦ inr (
        (λ v. ground (arith, e, r.1 v)),
        elim (Bool-cases (is_waiting t.state)) [ inl w ↦ rw (e, w) refl | inr w ↦ rw (e, w) refl ],
      )
    ]

-- the invariant `inv` is hooked on a variable that one of the entries updates
unfoldable pub Touches : World → ℕ → List TrecEntry → Type 0
Touches w inv [] = ⊥
Touches w inv (e ∷ es) =
    ((entry_is_update e ≡ true) × ((a : ℕ) × On a (atomic_invariant inv) (w.watch_queue e.tvar)))
    ⊎ Touches w inv es

or_true : (a b : Bool) → (a || b ≡ true) ↔ ((a ≡ true) ⊎ (b ≡ true))
or_true true b = ((λ h. inl refl), (λ h. refl))
or_true false b = (inr, (λ h. elim h [ inl x ↦ absurd (ground (arith, x)) | inr x ↦ x ]))

queue_invariant-is_queued :
    (i j : ℕ) (cs : List InvariantCheck)
    → (is_queued i (queue_invariant cs j) ≡ true) ↔ ((is_queued i cs ≡ true) ⊎ (j ≡ i))
unfolding is_queued
queue_invariant-is_queued i j cs = elim (Bool-cases (is_queued j cs)) [
  | inl e ↦ rw e (inl, (λ h. elim h [ inl x ↦ x | inr z ↦ subst (λ k. is_queued k cs ≡ true) z e ]))
  | inr e ↦
      let o = or_true (j == i) (is_queued i cs) in
      rw e (
        (λ h. elim (o.0 h) [ inl z ↦ inr ((==_iff j i).0 z) | inr x ↦ inl x ]),
        (λ h. elim h [ inl x ↦ o.1 (inr x) | inr z ↦ o.1 (inl ((==_iff j i).1 z)) ]),
      )
]

queue_watcher-is_queued :
    (i : ℕ) (c : Watcher) (cs : List InvariantCheck)
    → (is_queued i (queue_watcher cs c) ≡ true)
      ↔ ((is_queued i cs ≡ true) ⊎ (c ≡ atomic_invariant i))
queue_watcher-is_queued i (tso thread) cs =
    (inl, (λ h. elim h [ inl x ↦ x | inr z ↦ absurd (ground (arith, z)) ]))
queue_watcher-is_queued i (atomic_invariant inv) cs =
    let q = queue_invariant-is_queued i inv cs in
    (
      (λ h. elim (q.0 h) [ inl x ↦ inl x | inr z ↦ inr (ap atomic_invariant z) ]),
      (λ h. elim h [ inl x ↦ q.1 (inl x) | inr z ↦ q.1 (inr (ground (arith, z))) ]),
    )

queue_watchers-is_queued :
    (i : ℕ) (qs : List TvarWatchQueue) (cs : List InvariantCheck)
    → (is_queued i (queue_watchers cs qs) ≡ true)
      ↔ ((is_queued i cs ≡ true) ⊎ ((a : ℕ) × On a (atomic_invariant i) qs))
unfolding queue_watchers On
queue_watchers-is_queued i [] cs = (inl, (λ h. elim h [ inl x ↦ x | inr (a, o) ↦ absurd o ]))
queue_watchers-is_queued i (q ∷ qs) cs =
    let rest = queue_watchers-is_queued i qs (queue_watcher cs q.closure) in
    let here = queue_watcher-is_queued i q.closure cs in
    (
      (λ h. elim (rest.0 h) [
        | inr (a, o) ↦ inr (a, inr o)
        | inl x ↦ elim (here.0 x) [ inl y ↦ inl y | inr z ↦ inr (q.address, inl (refl, z)) ]
      ]),
      (λ h. elim h [
        | inl x ↦ rest.1 (inl (here.1 (inl x)))
        | inr (a, inl (_, z)) ↦ rest.1 (inl (here.1 (inr z)))
        | inr (a, inr o) ↦ rest.1 (inr (a, o))
      ]),
    )

queue_touched-is_queued :
    (w : World) (i : ℕ) (es : List TrecEntry) (cs : List InvariantCheck)
    → (is_queued i (queue_touched w cs es) ≡ true) ↔ ((is_queued i cs ≡ true) ⊎ Touches w i es)
unfolding queue_touched Touches
queue_touched-is_queued w i [] cs = (inl, (λ h. elim h [ inl x ↦ x | inr o ↦ absurd o ]))
queue_touched-is_queued w i (e ∷ es) cs = elim (Bool-cases (entry_is_update e)) [
  | inl u ↦
      let rest = queue_touched-is_queued w i es (queue_watchers cs (w.watch_queue e.tvar)) in
      let here = queue_watchers-is_queued i (w.watch_queue e.tvar) cs in
      (
        (λ h. elim (rest.0 (rw u at h)) [
          | inr o ↦ inr (inr o)
          | inl x ↦ elim (here.0 x) [ inl y ↦ inl y | inr o ↦ inr (inl (u, o)) ]
        ]),
        (λ h. rw u (elim h [
          | inl x ↦ rest.1 (inl (here.1 (inl x)))
          | inr (inl (_, o)) ↦ rest.1 (inl (here.1 (inr o)))
          | inr (inr o) ↦ rest.1 (inr o)
        ])),
      )
  | inr u ↦
      let rest = queue_touched-is_queued w i es cs in
      (
        (λ h. elim (rest.0 (rw u at h)) [ inl x ↦ inl x | inr o ↦ inr (inr o) ]),
        (λ h. rw u (elim h [
          | inl x ↦ rest.1 (inl x)
          | inr (inl (y, _)) ↦ absurd (ground (arith, u, y))
          | inr (inr o) ↦ rest.1 (inr o)
        ])),
      )
]

-- After a call of `stmGetInvariantsToCheck`, an invariant is queued for a check exactly if it was
-- queued before, or is hooked on a variable that an entry of the record updates.
pub get_invariants-queues :
    (w : World) (t : Trec) (inv : ℕ)
    → (is_queued inv (stm_get_invariants_to_check w t).invariants_to_check ≡ true)
      ↔ ((is_queued inv t.invariants_to_check ≡ true) ⊎ Touches w inv (entries t))
unfolding stm_get_invariants_to_check
get_invariants-queues w t inv = queue_touched-is_queued w inv (entries t) t.invariants_to_check
