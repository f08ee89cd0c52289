-- ===== src/Stm/Serial.antt =====
-- rts/STM.c: what a transaction did that committed, whatever the other threads did meanwhile.
use mathlib.Core.Option
use ghc_xapp_fix.Prelude.{
  ℕ, suc, ◌≡◌, refl, ap, sym, ◌∙◌, Bool, true, false, some, List, [], ◌∷◌, length, arith,
  Bool-cases, inl, inr,
}
use ghc_xapp_fix.Stm.Trec.{
  Trec, flatten, find_entry, entries, new_trec, merge_updates, merge_reads,
  validate_and_acquire_ownership,
}
use ghc_xapp_fix.Stm.World.{World}
use ghc_xapp_fix.Stm.Ops.{
  stm_start_transaction, stm_read_tvar, stm_write_tvar, stm_commit_nested_transaction,
  stm_abort_transaction,
}
use ghc_xapp_fix.Stm.Entries.{count, IsUnique, Agrees}
use ghc_xapp_fix.Stm.Nest.{
  overlay, overlays, IsUniqueNest, AgreesNest, IsCoherent, Moves, read-Moves, read-value,
  write-Moves,
}
use ghc_xapp_fix.Stm.Merge.{
  merge_updates-Merges, merge_updates-over, merge_reads-Merges, merge_reads-over,
}
use ghc_xapp_fix.Stm.Commit.{commit-writes}
use ghc_xapp_fix.Stm.Process.{
  Process, finish, read, write, start_nested, commit_nested, abort_nested, committed, run, atomic,
  IsShallow,
}

committed-true :
    (result r : ℕ) (c : Bool × World) (w' : World)
    → committed result c ≡ some (r, w')
    → (result ≡ r) × (c ≡ (true, w'))
committed-true result r (true, w) w' h =
    let same : (result, w) ≡ (r, w') = Option.some_inj.0 h in
    (ap (λ p. p.0) same, ap (λ p. (true, p.1)) same)
committed-true result r (false, w) w' h = absurd (ground (arith, h))

module _ (world : ℕ → World) (r : ℕ) (w' : World) where
  -- a moment at which the rest of the transaction can be thought to run
  abbrev Serial : Process → List Trec → Type 0
  Serial p nest =
      (j : ℕ) × AgreesNest (world j).current_value nest
      × (atomic p (overlays nest (world j).current_value) ≡ some (r, w'.current_value))

  Serial-move :
      (p q : Process) (i : ℕ) (t t' : Trec) (outer : List Trec) (effect : (ℕ → ℕ) → ℕ → ℕ)
      → Moves (world i).current_value t outer effect t'
      → ((ρ : ℕ → ℕ)
          → AgreesNest ρ (t' ∷ outer)
          → atomic q (overlays (t ∷ outer) ρ)
            ≡ atomic p (effect (overlay (t ∷ outer) ρ) ∷ overlays outer ρ))
      → Serial p (t' ∷ outer)
      → Serial q (t ∷ outer)
  unfolding overlays
  Serial-move p q i t t' outer effect m e (j, a, s) =
      let ρ = (world j).current_value in
      (j, m.before ρ a, e ρ a ∙ ap (λ σ. atomic p (σ ∷ overlays outer ρ)) (sym (m.shows ρ a)) ∙ s)

  Serial-commit :
      (p : Process) (t et : Trec) (outer : List Trec)
      → IsUnique (entries t)
      → IsCoherent (t ∷ et ∷ outer)
      → Serial p (merge_updates et (entries t) ∷ outer)
      → Serial (commit_nested p) (t ∷ et ∷ outer)
  unfolding overlays overlay atomic
  Serial-commit p t et outer u (τ, c) (j, a, s) =
      let ρ = (world j).current_value in
      let m = merge_updates-Merges τ et (entries t) c.1.0 c.0 in
      let b = (m.agrees ρ).0 a.0 in
      (
        j,
        (b.1, (b.0, a.1)),
        ap (λ σ. atomic p (σ ∷ overlays outer ρ))
              (sym (merge_updates-over τ et (entries t) (overlay outer ρ) c.1.0 c.0 u))
            ∙ s,
      )

  Serial-abort :
      (p : Process) (t et : Trec)
      → IsCoherent (t ∷ et ∷ [])
      → Serial p (merge_reads et (entries t) ∷ [])
      → Serial (abort_nested p) (t ∷ et ∷ [])
  unfolding overlays overlay atomic
  Serial-abort p t et (τ, c) (j, a, s) =
      let ρ = (world j).current_value in
      let m = merge_reads-Merges τ et (entries t) c.1.0 c.0 in
      let b = (m.agrees ρ).0 a.0 in
      (
        j,
        (b.1, (b.0, tt)),
        ap (λ σ. atomic p (σ ∷ [])) (sym (merge_reads-over τ et (entries t) ρ c.1.0 c.0 b.1)) ∙ s,
      )

  Serial-start :
      (p : Process) (t : Trec) (outer : List Trec)
      → Serial p (new_trec (t ∷ outer) ∷ t ∷ outer)
      → Serial (start_nested p) (t ∷ outer)
  unfolding overlays overlay atomic flatten find_entry
  Serial-start p t outer (j, a, s) = (j, a.1, s)

  commit_nested-goes_on :
      (p : Process) (i : ℕ) (t et : Trec) (outer : List Trec)
      → run world (commit_nested p) i (t ∷ et ∷ outer) ≡ some (r, w')
      → run world p (suc i) (merge_updates et (entries t) ∷ outer) ≡ some (r, w')
  unfolding run stm_commit_nested_transaction
  commit_nested-goes_on p i t et outer h =
      elim (Bool-cases (validate_and_acquire_ownership (world i).current_value t true)) [
        | inl v ↦ rw v at h
        | inr n ↦ absurd (ground (arith, rw n at h))
      ]

  new_trec-fits :
      (nest : List Trec)
      → IsUnique (entries (new_trec nest)) × ((τ : ℕ → ℕ) → Agrees τ (entries (new_trec nest)))
  unfolding flatten count
  new_trec-fits nest = (λ x. omega arith, λ τ. tt)

  Serial-run :
      (p : Process) (i : ℕ) (t : Trec) (outer : List Trec)
      → IsShallow p (length outer)
      → IsUniqueNest (t ∷ outer)
      → IsCoherent (t ∷ outer)
      → run world p i (t ∷ outer) ≡ some (r, w')
      → Serial p (t ∷ outer)
  unfolding run atomic IsShallow overlays overlay stm_abort_transaction
  Serial-run (finish result checks) i t [] shallow u c h =
      let x = committed-true result r _ w' h in
      let y = commit-writes (world i) w' (record t { invariants_to_check = checks }) u.0 x.1 in
      (i, (y.0, tt), rw (x.0, y.1) refl)
  Serial-run (finish result checks) i t (et ∷ outer) shallow u c h = absurd (ground (arith, h))
  Serial-run (read x k) i t outer shallow u c h =
      let σ = (world i).current_value in
      let m = read-Moves σ t outer x in
      let rd = stm_read_tvar σ t outer x in
      Serial-move (k (rd.0)) (read x k) i t (rd.1) outer _ m
        (λ ρ a. ap (λ v. atomic (k v) (overlays (t ∷ outer) ρ)) (sym (read-value σ t outer x ρ a)))
        (Serial-run (k (rd.0)) (suc i) (rd.1) outer (shallow (rd.0)) (m.unique u.0, u.1)
          (m.coherent c) h)
  Serial-run (write x v p) i t outer shallow u c h =
      let σ = (world i).current_value in
      let m = write-Moves σ t outer x v in
      let t' = stm_write_tvar σ t outer x v in
      Serial-move p (write x v p) i t t' outer _ m (λ ρ a. refl)
        (Serial-run p (suc i) t' outer shallow (m.unique u.0, u.1) (m.coherent c) h)
  Serial-run (start_nested p) i t outer shallow u c h =
      let new = new_trec (t ∷ outer) in
      Serial-start p t outer (
        Serial-run p (suc i) new (t ∷ outer) shallow ((new_trec-fits (t ∷ outer)).0, u)
          (c.0, ((new_trec-fits (t ∷ outer)).1 (c.0), c.1)) h)
  Serial-run (commit_nested p) i t [] shallow u c h = absurd (ground (arith, h))
  Serial-run (commit_nested p) i t (et ∷ outer) shallow u c h =
      let es = entries t in
      let m = merge_updates-Merges (c.0) et es c.1.1.0 c.1.0 in
      Serial-commit p t et outer u.0 c (
        Serial-run p (suc i) (merge_updates et es) outer shallow (m.unique u.1.0, u.1.1)
          (c.0, ((m.agrees (c.0)).1 (c.1.1.0, c.1.0), c.1.1.1))
          (commit_nested-goes_on p i t et outer h))
  Serial-run (abort_nested p) i t [] shallow u c h = absurd (ground (arith, h))
  Serial-run (abort_nested p) i t (et ∷ []) shallow u c h =
      let es = entries t in
      let m = merge_reads-Merges (c.0) et es c.1.1.0 c.1.0 in
      Serial-abort p t et c (
        Serial-run p (suc i) (merge_reads et es) [] shallow.1 (m.unique u.1.0, tt)
          (c.0, ((m.agrees (c.0)).1 (c.1.1.0, c.1.0), tt)) h)
  Serial-run (abort_nested p) i t (et ∷ et' ∷ outer) shallow u c h =
      absurd (omega (arith, shallow.0))

-- A transaction that starts with an empty record, reads and writes while other threads change the
-- world between its calls in any way, aborts a nested transaction only where that is directly inside
-- the top-level one, and commits with result `r`, has an effect as if it had run at one moment `j`
-- without interruption: with the store of that moment the reference gives `r`, and the store that
-- the commit left.
pub run-atomic :
    (world : ℕ → World) (p : Process) (r : ℕ) (w' : World)
    → IsShallow p 0
    → run world p 0 (stm_start_transaction []) ≡ some (r, w')
    → (j : ℕ) × (atomic p ((world j).current_value ∷ []) ≡ some (r, w'.current_value))
unfolding overlays overlay flatten find_entry
run-atomic world p r w' shallow h =
    let fits = new_trec-fits world r w' [] in
    let s =
      Serial-run world r w' p 0 (new_trec []) [] shallow (fits.0, tt)
        ((λ x. 0), (fits.1 (λ x. 0), tt)) h in
    (s.0, s.2)
