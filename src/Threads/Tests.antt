-- ===== src/Threads/Tests.antt =====
-- rts/Schedule.h, rts/Schedule.c, rts/Threads.c: concrete queues.
use ghc_xapp_fix.Prelude.{
  ℕ, ◌≡◌, ◌⊎◌, refl, true, Option, none, some, List, [], ◌∷◌, ◌++◌, update, arith, is_nil,
}
use ghc_xapp_fix.Threads.{
  Capability, removed, barf, remove_thread_from_queue, remove_thread_from_de_queue,
}
use ghc_xapp_fix.Threads.Lists.{In, Chain, AreDistinct}
use ghc_xapp_fix.Threads.RunQueue.{IsQueue}
use ghc_xapp_fix.Threads.Client.{
  QueueOp, append, push, remove, pop, run_ops, is_in, delete, replay, run_ops-replay,
}
use ghc_xapp_fix.Threads.Unlink.{remove_thread-Chain, remove_thread-tail}

abbrev empty : Capability
empty = record { run_queue_hd = none; run_queue_tl = none; link = λ _. none; prev = λ _. none }

empty-IsQueue : IsQueue empty []
empty-IsQueue = record { chain = refl; back = tt; tail = refl; distinct = tt }

abbrev calls : List QueueOp
calls = append 1 ∷ append 2 ∷ push 3 ∷ append 4 ∷ remove 2 ∷ pop ∷ remove 4 ∷ push 4 ∷ []

-- The thread 3 runs first, and 4 and 1 are left.
run_ops-replay_example :
    (cap' : Capability) × (run_ops calls empty ≡ some (3 ∷ [], cap')) × IsQueue cap' (4 ∷ 1 ∷ [])
unfolding replay is_in delete
run_ops-replay_example =
    run_ops-replay calls empty [] (3 ∷ [], 4 ∷ 1 ∷ []) empty-IsQueue (λ x n. refl) refl

-- the queue of the threads 1, 2 and 3
abbrev three : ℕ → Option ℕ
three = update (update (λ _. none) 1 (some 2)) 2 (some 3)

three-Chain : Chain three (some 1) (1 ∷ 2 ∷ 3 ∷ []) none
three-Chain = (refl, (refl, (refl, refl)))

three-AreDistinct : AreDistinct (1 ∷ 2 ∷ 3 ∷ [])
three-AreDistinct = (λ h. ground (arith, h), ((λ h. ground (arith, h)), ((λ h. h), tt)))

remove_thread-Chain_example :
    ((xs : List ℕ) × (ys : List ℕ) × (link' : ℕ → Option ℕ) × (head' : Option ℕ) × (1 ∷ 2 ∷ 3 ∷ []
        ≡ xs ++ 2 ∷ ys)
      × (remove_thread_from_queue three 4 (some 1) 2 ≡ some (removed link' head' none (is_nil xs)))
      × Chain link' head' (xs ++ ys) none
      × (link' 2 ≡ none))
    ⊎ ((In 2 (1 ∷ 2 ∷ 3 ∷ []) → ⊥) × (remove_thread_from_queue three 4 (some 1) 2 ≡ some barf))
remove_thread-Chain_example =
    remove_thread-Chain three (some 1) 2 4 (1 ∷ 2 ∷ 3 ∷ []) three-Chain three-AreDistinct
      (omega arith)

remove_thread-tail_example :
    (link' : ℕ → Option ℕ) × (head' : Option ℕ) × (remove_thread_from_de_queue three 4
        (some 1)
        (some 3)
        3
      ≡ some (removed link' head' (some 2) true))
    × Chain link' head' (1 ∷ 2 ∷ []) none
    × (link' 3 ≡ none)
remove_thread-tail_example =
    remove_thread-tail three (some 1) (some 3) 3 4 (1 ∷ 2 ∷ []) [] three-Chain refl
      three-AreDistinct (omega arith)
