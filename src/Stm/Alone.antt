-- ===== src/Stm/Alone.antt =====
-- rts/STM.c: a transaction that no other thread disturbs.
use mathlib.Core.Option
use ghc_xapp_fix.Prelude.{
  ℕ, suc, ◌≡◌, refl, ap, sym, ◌∙◌, true, some, List, [], ◌∷◌, length, All, arith,
}
use ghc_xapp_fix.Stm.Trec.{
  InvariantCheck, Trec, trec_active, is_condemned, flatten, find_entry, entries, new_trec,
  merge_updates, merge_reads,
}
use ghc_xapp_fix.Stm.World.{World}
use ghc_xapp_fix.Stm.Ops.{
  stm_start_transaction, stm_read_tvar, stm_write_tvar, stm_commit_transaction,
  stm_commit_nested_transaction, stm_abort_transaction, lock_invariants, commit_locked, executed,
}
use ghc_xapp_fix.Stm.Entries.{count, Agrees, over}
use ghc_xapp_fix.Stm.Nest.{
  overlay, overlays, IsUniqueNest, AgreesNest, Moves, read-Moves, read-value, write-Moves,
}
use ghc_xapp_fix.Stm.Merge.{
  Merges, merge_updates-Merges, merge_updates-over, merge_reads-Merges, merge_reads-over,
}
use ghc_xapp_fix.Stm.Commit.{commit-writes, validate-Agrees}
use ghc_xapp_fix.Stm.Process.{
  Process, finish, read, write, start_nested, commit_nested, abort_nested, committed, run, atomic,
  IsShallow,
}

-- Each invariant that is hooked on variables holds their values.
abbrev pub IsExecuted : World → Type 0
IsExecuted w = (inv : ℕ) → Agrees w.current_value (executed (w.last_execution inv))

abbrev IsActive : Trec → Type 0
IsActive t = t.state ≡ trec_active

lock_invariants-Agrees :
    (w : World) (qs : List InvariantCheck) (t : Trec)
    → IsExecuted w
    → Agrees w.current_value (entries t)
    → Agrees w.current_value (entries (lock_invariants w t qs))
      × ((lock_invariants w t qs).state ≡ t.state)
unfolding lock_invariants
lock_invariants-Agrees w [] t x a = (a, refl)
lock_invariants-Agrees w (q ∷ qs) t x a =
    let es = executed (w.last_execution q.invariant) in
    let m = merge_reads-Merges w.current_value t es a (x q.invariant) in
    let next =
      lock_invariants-Agrees w qs (merge_reads t es) x
        ((m.agrees w.current_value).1 (a, x q.invariant)) in
    (next.0, next.1 ∙ m.state)

-- A commit succeeds if the record is active and agrees with the store.
pub commit-succeeds :
    (w : World) (t : Trec)
    → IsExecuted w
    → IsActive t
    → Agrees w.current_value (entries t)
    → stm_commit_transaction w t ≡ (true, (stm_commit_transaction w t).1)
unfolding stm_commit_transaction commit_locked
commit-succeeds w t x s a =
    let l = lock_invariants-Agrees w t.invariants_to_check t x a in
    let t' = lock_invariants w t t.invariants_to_check in
    let v = (validate-Agrees w.current_value t').1 (rw (l.1, s) refl, l.0) in rw v refl

module _ (w : World) (x : IsExecuted w) (r : ℕ) (σ' : ℕ → ℕ) where
  abbrev σ : ℕ → ℕ
  σ = w.current_value

  abbrev Runs : Process → ℕ → List Trec → Type 0
  Runs p i nest = (w' : World) × (run (λ _. w) p i nest ≡ some (r, w')) × (w'.current_value ≡ σ')

  -- a nest that nothing has disturbed
  record Quiet (nest : List Trec) : Type 0 where
    unique : IsUniqueNest nest
    agrees : AgreesNest σ nest
    active : All IsActive nest

  Quiet-move :
      (t t' : Trec) (outer : List Trec) (effect : (ℕ → ℕ) → ℕ → ℕ)
      → Moves σ t outer effect t'
      → Quiet (t ∷ outer)
      → Quiet (t' ∷ outer)
  Quiet-move t t' outer effect m q = record {
    unique = (m.unique q.unique.0, q.unique.1);
    agrees = m.now q.agrees;
    active = (m.state ∙ q.active.0, q.active.1);
  }

  Quiet-merge :
      (t et et' : Trec) (outer : List Trec)
      → Merges et (entries t) et'
      → Quiet (t ∷ et ∷ outer)
      → Quiet (et' ∷ outer)
  Quiet-merge t et et' outer m q = record {
    unique = (m.unique q.unique.1.0, q.unique.1.1);
    agrees = ((m.agrees σ).1 (q.agrees.1.0, q.agrees.0), q.agrees.1.1);
    active = (m.state ∙ q.active.1.0, q.active.1.1);
  }

  Quiet-start :
      (t : Trec) (outer : List Trec) → Quiet (t ∷ outer) → Quiet (new_trec (t ∷ outer) ∷ t ∷ outer)
  unfolding flatten count
  Quiet-start t outer q = record {
    unique = ((λ x. omega arith), q.unique);
    agrees = (tt, q.agrees);
    active = (q.active.0, q.active);
  }

  start-atomic :
      (p : Process) (t : Trec) (outer : List Trec)
      → atomic (start_nested p) (overlays (t ∷ outer) σ)
        ≡ atomic p (overlays (new_trec (t ∷ outer) ∷ t ∷ outer) σ)
  unfolding atomic overlays overlay flatten find_entry
  start-atomic p t outer = refl

  Runs-commit :
      (p : Process) (i : ℕ) (t et : Trec) (outer : List Trec)
      → Quiet (t ∷ et ∷ outer)
      → Runs p (suc i) (merge_updates et (entries t) ∷ outer)
      → Runs (commit_nested p) i (t ∷ et ∷ outer)
  unfolding run stm_commit_nested_transaction
  Runs-commit p i t et outer q (w', h, e) =
      let v = (validate-Agrees σ t).1 (ap is_condemned q.active.0, q.agrees.0) in (w', rw v h, e)

  Runs-atomic :
      (p : Process) (i : ℕ) (t : Trec) (outer : List Trec)
      → IsShallow p (length outer)
      → Quiet (t ∷ outer)
      → atomic p (overlays (t ∷ outer) σ) ≡ some (r, σ')
      → Runs p i (t ∷ outer)
  unfolding run atomic IsShallow overlays overlay stm_abort_transaction
  Runs-atomic (finish result checks) i t [] shallow q h =
      let t' = record t { invariants_to_check = checks } in
      let c = commit-succeeds w t' x q.active.0 q.agrees.0 in
      let y = commit-writes w (stm_commit_transaction w t').1 t' q.unique.0 c in
      let same : (result, over (entries t) σ) ≡ (r, σ') = Option.some_inj.0 h in
      (
        (stm_commit_transaction w t').1,
        ap (committed result) c ∙ ap (λ p. some (p.0, (stm_commit_transaction w t').1)) same,
        y.1 ∙ ap (λ p. p.1) same,
      )
  Runs-atomic (finish result checks) i t (et ∷ outer) shallow q h = absurd (ground (arith, h))
  Runs-atomic (read y k) i t outer shallow q h =
      let m = read-Moves σ t outer y in
      let rd = stm_read_tvar σ t outer y in
      let a = m.now q.agrees in
      Runs-atomic (k (rd.0)) (suc i) (rd.1) outer (shallow (rd.0)) (Quiet-move t (rd.1) outer _ m q)
        (ap (λ s. atomic (k (rd.0)) (s ∷ overlays outer σ)) (m.shows σ a)
          ∙ ap (λ v. atomic (k v) (overlays (t ∷ outer) σ)) (read-value σ t outer y σ a)
          ∙ h)
  Runs-atomic (write y v p) i t outer shallow q h =
      let m = write-Moves σ t outer y v in
      let t' = stm_write_tvar σ t outer y v in
      Runs-atomic p (suc i) t' outer shallow (Quiet-move t t' outer _ m q)
        (ap (λ s. atomic p (s ∷ overlays outer σ)) (m.shows σ (m.now q.agrees)) ∙ h)
  Runs-atomic (start_nested p) i t outer shallow q h =
      Runs-atomic p (suc i) (new_trec (t ∷ outer)) (t ∷ outer) shallow (Quiet-start t outer q)
        (sym (start-atomic p t outer) ∙ h)
  Runs-atomic (commit_nested p) i t [] shallow q h = absurd (ground (arith, h))
  Runs-atomic (commit_nested p) i t (et ∷ outer) shallow q h =
      let es = entries t in
      let m = merge_updates-Merges σ et es q.agrees.1.0 q.agrees.0 in
      Runs-commit p i t et outer q (
        Runs-atomic p (suc i) (merge_updates et es) outer shallow
          (Quiet-merge t et (merge_updates et es) outer m q)
          (ap (λ s. atomic p (s ∷ overlays outer σ))
              (merge_updates-over σ et es (overlay outer σ) q.agrees.1.0 q.agrees.0 q.unique.0)
            ∙ h))
  Runs-atomic (abort_nested p) i t [] shallow q h = absurd (ground (arith, h))
  Runs-atomic (abort_nested p) i t (et ∷ []) shallow q h =
      let es = entries t in
      let m = merge_reads-Merges σ et es q.agrees.1.0 q.agrees.0 in
      Runs-atomic p (suc i) (merge_reads et es) [] shallow.1
        (Quiet-merge t et (merge_reads et es) [] m q)
        (ap (λ s. atomic p (s ∷ [])) (merge_reads-over σ et es σ q.agrees.1.0 q.agrees.0 q.agrees.0)
          ∙ h)
  Runs-atomic (abort_nested p) i t (et ∷ et' ∷ outer) shallow q h =
      absurd (omega (arith, shallow.0))

-- A transaction whose world no other thread changes, and in which each hooked invariant holds the
-- values of its variables, commits if it has a result in the reference, aborting nested
-- transactions only directly inside the top-level one: with that result, and with that store.
pub run-alone :
    (w : World) (p : Process) (r : ℕ) (σ' : ℕ → ℕ)
    → IsExecuted w
    → IsShallow p 0
    → atomic p (w.current_value ∷ []) ≡ some (r, σ')
    → (w' : World) × (run (λ _. w) p 0 (stm_start_transaction []) ≡ some (r, w'))
      × (w'.current_value ≡ σ')
unfolding overlays overlay flatten find_entry count
run-alone w p r σ' x shallow h =
    Runs-atomic w x r σ' p 0 (new_trec []) [] shallow
      (record { unique = ((λ y. omega arith), tt); agrees = (tt, tt); active = (refl, tt) }) h
