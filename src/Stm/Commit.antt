-- ===== src/Stm/Commit.antt =====
-- rts/STM.c: what validation checks, and what a commit writes.
use ghc_xapp_fix.Prelude.{
  ℕ, ◌≡◌, ◌↔◌, refl, ap, sym, ◌∙◌, true, false, List, [], ◌∷◌, ◌==◌, update, arith, inl, inr,
  Bool-cases, Option-cases, ==_iff,
}
use ghc_xapp_fix.Stm.Trec.{
  TrecEntry, InvariantCheck, Trec, entries, find_entry, is_condemned, acquire_entries,
  validate_and_acquire_ownership, merge_reads,
}
use ghc_xapp_fix.Stm.World.{
  Watcher, tso, atomic_invariant, TvarWatchQueue, World, unpark_tso, unpark_watcher, unpark_all,
  unpark_waiters_on, disconnect_entries, disconnect_invariant, connect_entries,
  connect_invariant_to_trec, link_watcher,
}
use ghc_xapp_fix.Stm.Ops.{
  commit_entries, lock_invariants, rehook_invariants, commit_locked, stm_commit_transaction,
  executed,
}
use ghc_xapp_fix.Stm.Entries.{IsUnique, Agrees, over, over-cons, IsUnique-rest}
use ghc_xapp_fix.Stm.Merge.{Reads, Reads-refl, Reads-trans, merge_reads-Reads}

pub acquire_entries-Agrees :
    (σ : ℕ → ℕ) (es : List TrecEntry) → (acquire_entries σ true es ≡ true) ↔ Agrees σ es
unfolding acquire_entries
acquire_entries-Agrees σ [] = ((λ _. tt), (λ _. refl))
acquire_entries-Agrees σ (e ∷ es) =
    let r = acquire_entries-Agrees σ es in
    elim (Bool-cases (σ e.tvar == e.expected_value)) [
      | inl s ↦
          rw s ((λ h. (sym ((==_iff (σ e.tvar) e.expected_value).0 s), r.0 h)), (λ a. r.1 a.1))
      | inr d ↦ rw d ((λ h. absurd (ground (arith, h))), (λ a. absurd (ground (arith, d, a.0))))
    ]

-- Validation accepts the records that are not condemned and expect the values of the store.
pub validate-Agrees :
    (σ : ℕ → ℕ) (t : Trec)
    → (validate_and_acquire_ownership σ t true ≡ true)
      ↔ ((is_condemned t.state ≡ false) × Agrees σ (entries t))
unfolding validate_and_acquire_ownership
validate-Agrees σ t =
    let r = acquire_entries-Agrees σ (entries t) in
    elim (Bool-cases (is_condemned t.state)) [
      | inl c ↦ rw c ((λ h. absurd (ground (arith, h))), (λ h. absurd (ground (arith, h.0))))
      | inr n ↦ rw n ((λ h. (refl, r.0 h)), (λ h. r.1 h.1))
    ]

unpark_tso-current_value :
    (w : World) (thread : ℕ) → (unpark_tso w thread).current_value ≡ w.current_value
unfolding unpark_tso
unpark_tso-current_value w thread = elim (Bool-cases (w.blocked_on_stm thread)) [
  | inl b ↦ rw b refl
  | inr n ↦ rw n refl
]

unpark_watcher-current_value :
    (w : World) (c : Watcher) → (unpark_watcher w c).current_value ≡ w.current_value
unfolding unpark_watcher
unpark_watcher-current_value w (tso thread) = unpark_tso-current_value w thread
unpark_watcher-current_value w (atomic_invariant i) = refl

unpark_all-current_value :
    (w : World) (qs : List TvarWatchQueue) → (unpark_all w qs).current_value ≡ w.current_value
unfolding unpark_all
unpark_all-current_value w [] = refl
unpark_all-current_value w (q ∷ qs) =
    unpark_watcher-current_value (unpark_all w qs) q.closure ∙ unpark_all-current_value w qs

pub unpark_waiters_on-current_value :
    (w : World) (x : ℕ) → (unpark_waiters_on w x).current_value ≡ w.current_value
unfolding unpark_waiters_on
unpark_waiters_on-current_value w x = unpark_all-current_value w (w.watch_queue x)

over-nil : (σ : ℕ → ℕ) → σ ≡ over [] σ
unfolding find_entry
over-nil σ = refl

-- the updates of a commit
pub commit_entries-over :
    (es : List TrecEntry) (w : World)
    → IsUnique es
    → (commit_entries w es false).current_value ≡ over es w.current_value
unfolding commit_entries
commit_entries-over [] w u = over-nil w.current_value
commit_entries-over (e ∷ es) w u =
    let rest = IsUnique-rest e es u in
    commit_entries-over es _ rest.0
    ∙ ap (λ s. over es (update s e.tvar e.new_value)) (unpark_waiters_on-current_value w e.tvar)
    ∙ over-cons w.current_value e es rest.1

disconnect_entries-current_value :
    (inv : ℕ) (es : List TrecEntry) (w : World)
    → (disconnect_entries w inv es).current_value ≡ w.current_value
unfolding disconnect_entries
disconnect_entries-current_value inv [] w = refl
disconnect_entries-current_value inv (e ∷ es) w = disconnect_entries-current_value inv es _

disconnect_invariant-current_value :
    (w : World) (inv : ℕ) → (disconnect_invariant w inv).current_value ≡ w.current_value
unfolding disconnect_invariant
disconnect_invariant-current_value w inv = elim (Option-cases (w.last_execution inv)) [
  | inl n ↦ rw n refl
  | inr (es, h) ↦ rw h (disconnect_entries-current_value inv es w)
]

connect_entries-current_value :
    (w : World) (inv : ℕ) (outer es : List TrecEntry)
    → (connect_entries w inv outer es).0.current_value ≡ w.current_value
unfolding connect_entries
connect_entries-current_value w inv outer [] = refl
connect_entries-current_value w inv outer (e ∷ es) =
    connect_entries-current_value (link_watcher w e.tvar (atomic_invariant inv)) inv outer es

connect_invariant-current_value :
    (w : World) (inv : ℕ) (outer es : List TrecEntry)
    → (connect_invariant_to_trec w inv outer es).current_value ≡ w.current_value
unfolding connect_invariant_to_trec
connect_invariant-current_value w inv outer es = connect_entries-current_value w inv outer es

pub rehook_invariants-current_value :
    (outer : List TrecEntry) (qs : List InvariantCheck) (w : World)
    → (rehook_invariants w outer qs).current_value ≡ w.current_value
unfolding rehook_invariants
rehook_invariants-current_value outer [] w = refl
rehook_invariants-current_value outer (q ∷ qs) w =
    rehook_invariants-current_value outer qs _
    ∙ connect_invariant-current_value (disconnect_invariant w q.invariant) q.invariant outer
        q.my_execution
    ∙ disconnect_invariant-current_value w q.invariant

pub lock_invariants-Reads :
    (w : World) (t : Trec) (qs : List InvariantCheck) → Reads t (lock_invariants w t qs)
unfolding lock_invariants
lock_invariants-Reads w t [] = Reads-refl t
lock_invariants-Reads w t (q ∷ qs) =
    let next = merge_reads t (executed (w.last_execution q.invariant)) in
    Reads-trans t next _ (merge_reads-Reads t (executed (w.last_execution q.invariant)))
      (lock_invariants-Reads w next qs)

-- A commit that succeeds was made with a record that agrees with the store, and writes what the
-- record shows.
pub commit-writes :
    (w w' : World) (t : Trec)
    → IsUnique (entries t)
    → stm_commit_transaction w t ≡ (true, w')
    → Agrees w.current_value (entries t) × (w'.current_value ≡ over (entries t) w.current_value)
unfolding stm_commit_transaction commit_locked
commit-writes w w' t u h =
    let t' = lock_invariants w t t.invariants_to_check in
    let r = lock_invariants-Reads w t t.invariants_to_check in
    elim (Bool-cases (validate_and_acquire_ownership w.current_value t' true)) [
      | inl v ↦
          let a = ((validate-Agrees w.current_value t').0 v).1 in
          let same = ap (λ p. p.1.current_value) (rw v at h) in
          let b = r.later w.current_value a in
          (
            b.0,
            sym same
                ∙ commit_entries-over (entries t') _ (r.unique u)
                ∙ ap (over (entries t'))
                    (rehook_invariants-current_value (entries t') t'.invariants_to_check w)
                ∙ b.1,
          )
      | inr n ↦ absurd (ground (arith, ap (λ p. p.0) (rw n at h)))
    ]
