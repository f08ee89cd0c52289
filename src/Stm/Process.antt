-- ===== src/Stm/Process.antt =====
-- rts/STM.c: transactions that make the calls of its operations, in a world that other threads
-- change between any two of them; and the same transactions run at one moment.
use ghc_xapp_fix.Prelude.{
  ℕ, zero, suc, ◌≡◌, Bool, true, false, Option, none, some, List, [], ◌∷◌, if◌then◌else◌, update,
}
use ghc_xapp_fix.Stm.Trec.{InvariantCheck, Trec}
use ghc_xapp_fix.Stm.World.{World}
use ghc_xapp_fix.Stm.Ops.{
  stm_start_transaction, stm_read_tvar, stm_write_tvar, stm_commit_transaction,
  stm_commit_nested_transaction, stm_abort_transaction,
}

-- `finish` commits, with the invariants that are queued for a check by then, and gives a result.
pub data Process : Type 0 where
  finish : ℕ → List InvariantCheck → Process
  read : ℕ → (ℕ → Process) → Process
  write : ℕ → ℕ → Process → Process
  start_nested : Process → Process
  commit_nested : Process → Process
  abort_nested : Process → Process

abbrev pub committed : ℕ → Bool × World → Option (ℕ × World)
committed result (true, w) = some (result, w)
committed result (false, w) = none

-- `world i` is the world at the `i`-th call. There is no result if a commit fails, or a nested
-- commit or abort has no enclosing transaction, or `finish` has one.
unfoldable pub run : (ℕ → World) → Process → ℕ → List Trec → Option (ℕ × World)
run world p i [] = none
run world (finish result checks) i (t ∷ []) =
    committed result (stm_commit_transaction (world i) (record t { invariants_to_check = checks }))
run world (finish result checks) i (t ∷ et ∷ outer) = none
run world (read x k) i (t ∷ outer) =
    let r = stm_read_tvar (world i).current_value t outer x in
    run world (k (r.0)) (suc i) (r.1 ∷ outer)
run world (write x v p) i (t ∷ outer) =
    run world p (suc i) (stm_write_tvar (world i).current_value t outer x v ∷ outer)
run world (start_nested p) i (t ∷ outer) = run world p (suc i) (stm_start_transaction (t ∷ outer))
run world (commit_nested p) i (t ∷ []) = none
run world (commit_nested p) i (t ∷ et ∷ outer) =
    let c = stm_commit_nested_transaction (world i).current_value t et in
    let next = run world p (suc i) (c.1 ∷ outer) in if c.0 then next else none
run world (abort_nested p) i (t ∷ []) = none
run world (abort_nested p) i (t ∷ et ∷ outer) =
    run world p (suc i) ((stm_abort_transaction (world i) t (et ∷ outer)).1)

-- The reference: a store for each level, copied where a nested transaction starts.
unfoldable pub atomic : Process → List (ℕ → ℕ) → Option (ℕ × (ℕ → ℕ))
atomic p [] = none
atomic (finish result checks) (σ ∷ []) = some (result, σ)
atomic (finish result checks) (σ ∷ σ' ∷ outer) = none
atomic (read x k) (σ ∷ outer) = atomic (k (σ x)) (σ ∷ outer)
atomic (write x v p) (σ ∷ outer) = atomic p (update σ x v ∷ outer)
atomic (start_nested p) (σ ∷ outer) = atomic p (σ ∷ σ ∷ outer)
atomic (commit_nested p) (σ ∷ []) = none
atomic (commit_nested p) (σ ∷ σ' ∷ outer) = atomic p (σ ∷ outer)
atomic (abort_nested p) (σ ∷ []) = none
atomic (abort_nested p) (σ ∷ σ' ∷ outer) = atomic p (σ' ∷ outer)

-- Inside `depth` enclosing transactions, `p` aborts a nested transaction only where it is in a
-- top-level one.
unfoldable pub IsShallow : Process → ℕ → Type 0
IsShallow (finish result checks) depth = Unit
IsShallow (read x k) depth = (v : ℕ) → IsShallow (k v) depth
IsShallow (write x v p) depth = IsShallow p depth
IsShallow (start_nested p) depth = IsShallow p (suc depth)
IsShallow (commit_nested p) zero = Unit
IsShallow (commit_nested p) (suc depth) = IsShallow p depth
IsShallow (abort_nested p) zero = Unit
IsShallow (abort_nested p) (suc depth) = (depth ≡ 0) × IsShallow p depth
