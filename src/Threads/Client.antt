-- ===== src/Threads/Client.antt =====
-- rts/Schedule.h, rts/Schedule.c: what the scheduler sees of the run queue over many calls.
use mathlib.Core.Option
use mathlib.Core.Path.{subst}
use ghc_xapp_fix.Prelude.{
  ℕ, ◌≡◌, refl, ap, sym, ◌∙◌, Bool, true, false, ◌||◌, Option, none, some, List, [], ◌∷◌, ◌++◌,
  ◌==◌, if◌then◌else◌, arith, inl, inr, Bool-cases, Option-cases, ==_iff, ◌>>=◌,
}
use ghc_xapp_fix.Threads.{
  Capability, append_to_run_queue, push_on_run_queue, pop_run_queue, remove_from_run_queue,
}
use ghc_xapp_fix.Threads.Lists.{In, In-append, In-split}
use ghc_xapp_fix.Threads.RunQueue.{IsQueue, SameLinks, append-IsQueue, push-IsQueue, push-SameLinks}
use ghc_xapp_fix.Threads.Remove.{remove-IsQueue, pop-IsQueue}

pub data QueueOp : Type 0 where
  append : ℕ → QueueOp
  push : ℕ → QueueOp
  remove : ℕ → QueueOp
  pop : QueueOp

-- the calls on a capability, with the threads that are popped
unfoldable pub run_ops : List QueueOp → Capability → Option (List ℕ × Capability)
run_ops [] cap = some ([], cap)
run_ops (append t ∷ ops) cap = do cap' ← append_to_run_queue cap t; run_ops ops cap'
run_ops (push t ∷ ops) cap = run_ops ops (push_on_run_queue cap t)
run_ops (remove t ∷ ops) cap = run_ops ops (remove_from_run_queue cap t)
run_ops (pop ∷ ops) cap = do
  (t, cap') ← pop_run_queue cap
  (ts, cap'') ← run_ops ops cap'
  some (t ∷ ts, cap'')

unfoldable pub is_in : ℕ → List ℕ → Bool
is_in t [] = false
is_in t (y ∷ l) = t == y || is_in t l

unfoldable pub delete : ℕ → List ℕ → List ℕ
delete t [] = []
delete t (y ∷ l) = if t == y then l else y ∷ delete t l

-- The calls on a list of threads. `none` means that a call is not allowed: a thread is put into the
-- queue that is in it, or taken out that is not in it, or one is popped from the empty queue.
unfoldable pub replay : List QueueOp → List ℕ → Option (List ℕ × List ℕ)
replay [] l = some ([], l)
replay (append t ∷ ops) l = let rest = replay ops (l ++ t ∷ []) in if is_in t l then none else rest
replay (push t ∷ ops) l = let rest = replay ops (t ∷ l) in if is_in t l then none else rest
replay (remove t ∷ ops) l = let rest = replay ops (delete t l) in if is_in t l then rest else none
replay (pop ∷ ops) [] = none
replay (pop ∷ ops) (t ∷ l) = do (ts, l') ← replay ops l; some (t ∷ ts, l')

not-In : (t : ℕ) (l : List ℕ) → is_in t l ≡ false → In t l → ⊥
unfolding is_in
not-In t [] e h = h
not-In t (y ∷ l) e (inl h) = ground (arith, e, h)
not-In t (y ∷ l) e (inr h) = not-In t l (ground (arith, e)) h

-- where a thread stands in a list
delete-split :
    (t : ℕ) (l : List ℕ)
    → is_in t l ≡ true
    → (xs : List ℕ) × (ys : List ℕ) × (l ≡ xs ++ t ∷ ys) × (delete t l ≡ xs ++ ys)
unfolding is_in delete
delete-split t [] e = absurd (ground (arith, e))
delete-split t (y ∷ l) e = elim (Bool-cases (t == y)) [
  | inl h ↦ ([], l, ap (λ x. x ∷ l) (sym ((==_iff t y).0 h)), rw h refl)
  | inr h ↦
      let (xs, ys, a, b) = delete-split t l (rw h at e) in
      (y ∷ xs, ys, ap (λ l. y ∷ l) a, rw h (ap (λ l. y ∷ l) b))
]

-- a thread that is not in the queue has no link
abbrev pub IsAlone : Capability → List ℕ → Type 0
IsAlone cap l = (x : ℕ) → (In x l → ⊥) → cap.link x ≡ none

SameLinks-IsAlone :
    (cap cap' : Capability) (l l' : List ℕ)
    → IsAlone cap l
    → SameLinks cap cap' l'
    → ((x : ℕ) → In x l → In x l')
    → IsAlone cap' l'
SameLinks-IsAlone cap cap' l l' a s more x n = s x n ∙ a x (λ i. n (more x i))

remove-IsAlone :
    (cap cap' : Capability) (t : ℕ) (xs ys : List ℕ)
    → IsAlone cap (xs ++ t ∷ ys)
    → SameLinks cap cap' (xs ++ t ∷ ys)
    → cap'.link t ≡ none
    → IsAlone cap' (xs ++ ys)
remove-IsAlone cap cap' t xs ys a s e x n = elim (Bool-cases (x == t)) [
  | inl h ↦ ap cap'.link ((==_iff x t).0 h) ∙ e
  | inr h ↦
      let out : In x (xs ++ t ∷ ys) → ⊥ = λ i. elim (In-split x xs (t ∷ ys) i) [
        | inl j ↦ n (In-append x xs ys (inl j))
        | inr (inl z) ↦ ground (arith, h, z)
        | inr (inr j) ↦ n (In-append x xs ys (inr j))
      ] in
      s x out ∙ a x out
]

-- Any sequence of calls that is allowed on the list of threads, from a queue that stands for the
-- list and in which threads outside have no link, makes no wild access, pops the same threads as
-- the list, and leaves a queue that stands for the list that is left.
pub run_ops-replay :
    (ops : List QueueOp) (cap : Capability) (l : List ℕ) (r : List ℕ × List ℕ)
    → IsQueue cap l
    → IsAlone cap l
    → replay ops l ≡ some r
    → (cap' : Capability) × (run_ops ops cap ≡ some (r.0, cap')) × IsQueue cap' r.1
unfolding run_ops replay
run_ops-replay [] cap l r v a e =
    let same : ([], l) ≡ r = Option.some_inj.0 e in
    (cap, ap (λ r. some (r.0, cap)) same, subst (λ r. IsQueue cap r.1) same v)
run_ops-replay (append t ∷ ops) cap l r v a e = elim (Bool-cases (is_in t l)) [
  | inl h ↦ absurd (ground (arith, rw h at e))
  | inr h ↦
      let out = not-In t l h in
      let (c, run, v', s) = append-IsQueue cap t l v out (a t out) in
      let a' =
        SameLinks-IsAlone cap c l (l ++ t ∷ []) a s (λ x i. In-append x l (t ∷ []) (inl i)) in
      let (c', runs, v'') = run_ops-replay ops c (l ++ t ∷ []) r v' a' (rw h at e) in
      (c', rw run runs, v'')
]
run_ops-replay (push t ∷ ops) cap l r v a e = elim (Bool-cases (is_in t l)) [
  | inl h ↦ absurd (ground (arith, rw h at e))
  | inr h ↦
      let out = not-In t l h in
      let c = push_on_run_queue cap t in
      run_ops-replay ops c (t ∷ l) r (push-IsQueue cap t l v out)
        (SameLinks-IsAlone cap c l (t ∷ l) a (push-SameLinks cap t l) (λ x i. inr i)) (rw h at e)
]
run_ops-replay (remove t ∷ ops) cap l r v a e = elim (Bool-cases (is_in t l)) [
  | inl h ↦
      let (xs, ys, split, less) = delete-split t l h in
      let c = remove_from_run_queue cap t in
      let (v', gone, s) = remove-IsQueue cap t xs ys (subst (IsQueue cap) split v) in
      run_ops-replay ops c (xs ++ ys) r v'
        (remove-IsAlone cap c t xs ys (subst (IsAlone cap) split a) s gone)
        (subst (λ l. replay ops l ≡ some r) less (rw h at e))
  | inr h ↦ absurd (ground (arith, rw h at e))
]
run_ops-replay (pop ∷ ops) cap [] r v a e = absurd (ground (arith, e))
run_ops-replay (pop ∷ ops) cap (t ∷ l) r v a e =
    let (c, run, v', gone, s) = pop-IsQueue cap t l v in
    let a' = remove-IsAlone cap c t [] l a s gone in
    elim (Option-cases (replay ops l)) [
      | inl h ↦ absurd (ground (arith, rw h at e))
      | inr (q, h) ↦
          let (c', runs, v'') = run_ops-replay ops c l q v' a' h in
          let same : (t ∷ q.0, q.1) ≡ r = Option.some_inj.0 (rw h at e) in
          (c', rw (run, runs) (ap (λ r. some (r.0, c')) same), subst (λ r. IsQueue c' r.1) same v'')
    ]
