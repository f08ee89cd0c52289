-- ===== src/Stm/Wake.antt =====
-- rts/STM.c: whom a commit wakes.
use ghc_xapp_fix.Prelude.{
  ℕ, ◌≤◌, ◌<◌, ◌≡◌, ◌≢◌, refl, ap, ◌∙◌, Bool, true, false, ◌||◌, some, List, [], ◌∷◌, ◌++◌, ◌==◌,
  All, update, arith, Bool-cases, inl, inr, Option-cases, ◌⊎◌, ==_iff,
}
use ghc_xapp_fix.Stm.Trec.{
  TrecEntry, InvariantCheck, Trec, entries, find_entry, merge_read_into, merge_reads,
  validate_and_acquire_ownership,
}
use ghc_xapp_fix.Stm.World.{
  Watcher, tso, atomic_invariant, TvarWatchQueue, World, try_wakeup_thread, unpark_tso,
  unpark_watcher, unpark_all, unpark_waiters_on,
}
use ghc_xapp_fix.Stm.Ops.{
  commit_entries, rehook_invariants, lock_invariants, commit_locked, stm_commit_transaction,
  executed,
}
use ghc_xapp_fix.Stm.Entries.{count, count-add}
use ghc_xapp_fix.Stm.Commit.{unpark_waiters_on-current_value}
use ghc_xapp_fix.Stm.Watch.{On}
use ghc_xapp_fix.Stm.Unlink.{rehook_invariants-Keeps}

unfoldable pub is_ready : ℕ → List ℕ → Bool
is_ready i [] = false
is_ready i (j ∷ js) = j == i || is_ready i js

-- asleep, or in the queue of the threads that are ready
abbrev pub IsCared : ℕ → World → Type 0
IsCared i w = (w.blocked_on_stm i ≡ true) ⊎ (is_ready i w.run_queue ≡ true)

is_ready-append : (i : ℕ) (js ks : List ℕ) → is_ready i (js ++ ks) ≡ is_ready i js || is_ready i ks
unfolding is_ready
is_ready-append i [] ks = refl
is_ready-append i (j ∷ js) ks = elim (Bool-cases (j == i)) [
  | inl s ↦ rw s refl
  | inr d ↦ rw d (is_ready-append i js ks)
]

-- What wake-ups leave as it is, and whom they leave asleep.
pub record Wakes (w w' : World) : Type 0 where
  pub queues : w'.watch_queue ≡ w.watch_queue
  pub next : w'.next_address ≡ w.next_address
  pub asleep : (i : ℕ) → w'.blocked_on_stm i ≡ true → w.blocked_on_stm i ≡ true
  pub cared : (i : ℕ) → IsCared i w → IsCared i w'

Wakes-refl : (w : World) → Wakes w w
Wakes-refl w = record { queues = refl; next = refl; asleep = λ i h. h; cared = λ i c. c }

Wakes-trans : (w w' w'' : World) → Wakes w w' → Wakes w' w'' → Wakes w w''
Wakes-trans w w' w'' k l = record {
  queues = l.queues ∙ k.queues;
  next = l.next ∙ k.next;
  asleep = λ i h. k.asleep i (l.asleep i h);
  cared = λ i c. l.cared i (k.cared i c);
}

or_true : (b c : Bool) → c ≡ true → b || c ≡ true
or_true true c h = refl
or_true false c h = h

try_wakeup-IsCared : (w : World) (k i : ℕ) → IsCared i w → IsCared i (try_wakeup_thread w k)
unfolding is_ready
try_wakeup-IsCared w k i c = elim (Bool-cases (k == i)) [
  | inl s ↦
      inr (is_ready-append i w.run_queue (k ∷ []) ∙ or_true (is_ready i w.run_queue) _ (rw s refl))
  | inr d ↦ elim c [
    | inl b ↦ inl (rw d b)
    | inr r ↦ inr (is_ready-append i w.run_queue (k ∷ []) ∙ rw r refl)
  ]
]

unpark_tso-Wakes :
    (w : World) (k : ℕ) → Wakes w (unpark_tso w k) × ((unpark_tso w k).blocked_on_stm k ≡ false)
unfolding unpark_tso
unpark_tso-Wakes w k = elim (Bool-cases (w.blocked_on_stm k)) [
  | inl b ↦ rw b (
    record {
      queues = refl;
      next = refl;
      asleep = λ i h. elim (Bool-cases (k == i)) [
        | inl s ↦ absurd (ground (arith, rw s at h))
        | inr d ↦ rw d at h
      ];
      cared = try_wakeup-IsCared w k;
    },
    ground arith,
  )
  | inr n ↦ rw n (Wakes-refl w, n)
]

unpark_watcher-Wakes : (w : World) (c : Watcher) → Wakes w (unpark_watcher w c)
unfolding unpark_watcher
unpark_watcher-Wakes w (tso k) = (unpark_tso-Wakes w k).0
unpark_watcher-Wakes w (atomic_invariant inv) = Wakes-refl w

unpark_all-Wakes : (w : World) (qs : List TvarWatchQueue) → Wakes w (unpark_all w qs)
unfolding unpark_all
unpark_all-Wakes w [] = Wakes-refl w
unpark_all-Wakes w (q ∷ qs) =
    let w' = unpark_all w qs in
    Wakes-trans w w' _ (unpark_all-Wakes w qs) (unpark_watcher-Wakes w' q.closure)

-- Whoever is still asleep after the wake-up of a queue is not in it.
unpark_all-asleep :
    (w : World) (i a : ℕ) (qs : List TvarWatchQueue)
    → (unpark_all w qs).blocked_on_stm i ≡ true
    → On a (tso i) qs
    → ⊥
unfolding unpark_all On unpark_watcher
unpark_all-asleep w i a [] h n = n
unpark_all-asleep w i a (q ∷ qs) h (inl n) =
    let s = (unpark_tso-Wakes (unpark_all w qs) i).1 in ground (arith, rw n.1 at h, s)
unpark_all-asleep w i a (q ∷ qs) h (inr n) =
    unpark_all-asleep w i a qs ((unpark_watcher-Wakes (unpark_all w qs) q.closure).asleep i h) n

-- one entry of a commit
abbrev commit_one : World → TrecEntry → World
commit_one w e =
    let u = unpark_waiters_on w e.tvar in
    record u { current_value = update u.current_value e.tvar e.new_value }

commit_one-Wakes : (w : World) (e : TrecEntry) → Wakes w (commit_one w e)
unfolding unpark_waiters_on
commit_one-Wakes w e =
    let k = unpark_all-Wakes w (w.watch_queue e.tvar) in
    record { queues = k.queues; next = k.next; asleep = k.asleep; cared = k.cared }

commit_one-asleep :
    (w : World) (e : TrecEntry) (i a : ℕ)
    → (commit_one w e).blocked_on_stm i ≡ true
    → On a (tso i) (w.watch_queue e.tvar)
    → ⊥
unfolding unpark_waiters_on
commit_one-asleep w e i a h n = unpark_all-asleep w i a (w.watch_queue e.tvar) h n

pub commit_entries-Wakes : (es : List TrecEntry) (w : World) → Wakes w (commit_entries w es false)
unfolding commit_entries
commit_entries-Wakes [] w = Wakes-refl w
commit_entries-Wakes (e ∷ es) w =
    Wakes-trans w (commit_one w e) _ (commit_one-Wakes w e)
      (commit_entries-Wakes es (commit_one w e))

-- Whoever is still asleep after a commit watches none of its variables.
abbrev pub Unwatched : World → ℕ → List TrecEntry → Type 0
Unwatched w i = All (λ e. (a : ℕ) → On a (tso i) (w.watch_queue e.tvar) → ⊥)

Unwatched-same :
    (w w' : World) (i : ℕ) (es : List TrecEntry)
    → w'.watch_queue ≡ w.watch_queue
    → Unwatched w' i es
    → Unwatched w i es
Unwatched-same w w' i [] h u = tt
Unwatched-same w w' i (e ∷ es) h u = ((λ a n. u.0 a (rw h n)), Unwatched-same w w' i es h u.1)

pub commit_entries-asleep :
    (i : ℕ) (es : List TrecEntry) (w : World)
    → (commit_entries w es false).blocked_on_stm i ≡ true
    → Unwatched w i es
unfolding commit_entries
commit_entries-asleep i [] w h = tt
commit_entries-asleep i (e ∷ es) w h =
    let w' = commit_one w e in
    let k = commit_entries-Wakes es w' in
    (
      λ a. commit_one-asleep w e i a (k.asleep i h),
      Unwatched-same w w' i es (commit_one-Wakes w e).queues (commit_entries-asleep i es w' h),
    )

-- A commit leaves the variables that it has no entries for.
pub commit_entries-elsewhere :
    (x : ℕ) (es : List TrecEntry) (w : World)
    → All (λ e. e.tvar ≢ x) es
    → (commit_entries w es false).current_value x ≡ w.current_value x
unfolding commit_entries
commit_entries-elsewhere x [] w h = refl
commit_entries-elsewhere x (e ∷ es) w h = elim (Bool-cases (e.tvar == x)) [
  | inl s ↦ absurd (h.0 ((==_iff e.tvar x).0 s))
  | inr d ↦
      commit_entries-elsewhere x es (commit_one w e) h.1
      ∙ rw d (ap (λ σ. σ x) (unpark_waiters_on-current_value w e.tvar))
]

-- The record that a commit writes has the entries of the one that it was called with.
merge_read-more :
    (x : ℕ) (t : Trec) (y v : ℕ) → count x (entries t) ≤ count x (entries (merge_read_into t y v))
unfolding merge_read_into
merge_read-more x t y v = elim (Option-cases (find_entry y (entries t))) [
  | inl h ↦
      let ne : TrecEntry = record { tvar = y; expected_value = v; new_value = v } in
      rw h (omega (arith, count-add x ne t.chunks))
  | inr (e, h) ↦ elim (Bool-cases (e.expected_value == v)) [
    | inl s ↦ rw (h, s) (omega arith)
    | inr d ↦ rw (h, d) (omega arith)
  ]
]

merge_reads-more :
    (x : ℕ) (es : List TrecEntry) (t : Trec)
    → count x (entries t) ≤ count x (entries (merge_reads t es))
unfolding merge_reads
merge_reads-more x [] t = omega arith
merge_reads-more x (e ∷ es) t = omega (
  arith,
  merge_read-more x t e.tvar e.expected_value,
  merge_reads-more x es (merge_read_into t e.tvar e.expected_value),
)

lock_invariants-more :
    (w : World) (x : ℕ) (qs : List InvariantCheck) (t : Trec)
    → count x (entries t) ≤ count x (entries (lock_invariants w t qs))
unfolding lock_invariants
lock_invariants-more w x [] t = omega arith
lock_invariants-more w x (q ∷ qs) t =
    let es = executed (w.last_execution q.invariant) in
    omega (arith, merge_reads-more x es t, lock_invariants-more w x qs (merge_reads t es))

Unwatched-count :
    (w : World) (i x a : ℕ) (es : List TrecEntry)
    → 0 < count x es
    → On a (tso i) (w.watch_queue x)
    → Unwatched w i es
    → ⊥
unfolding count
Unwatched-count w i x a [] h n u = omega arith
Unwatched-count w i x a (e ∷ es) h n u = elim (Bool-cases (e.tvar == x)) [
  | inl s ↦ u.0 a (rw ((==_iff e.tvar x).0 s) n)
  | inr d ↦ Unwatched-count w i x a es (ground (arith, rw d at h)) n u.1
]

found-count :
    (x : ℕ) (es : List TrecEntry) (e : TrecEntry) → find_entry x es ≡ some e → 0 < count x es
unfolding count find_entry
found-count x [] e h = absurd (ground (arith, h))
found-count x (e' ∷ es) e h = ground (arith, h, found-count x es e)

-- A commit that succeeds, of a record with an entry for the variable `x`, whether it writes it or
-- only reads it, wakes each thread `i` that sleeps in the queue of `x`: the thread is no longer
-- blocked, and is among those that are ready to run.
pub commit-wakes :
    (w w' : World) (t : Trec) (e : TrecEntry) (x i a : ℕ)
    → find_entry x (entries t) ≡ some e
    → On a (tso i) (w.watch_queue x)
    → w.blocked_on_stm i ≡ true
    → stm_commit_transaction w t ≡ (true, w')
    → (w'.blocked_on_stm i ≡ false) × (is_ready i w'.run_queue ≡ true)
unfolding stm_commit_transaction commit_locked
commit-wakes w w' t e x i a found on asleep h =
    let t' = lock_invariants w t t.invariants_to_check in
    let r = rehook_invariants w (entries t') t'.invariants_to_check in
    let k = rehook_invariants-Keeps (entries t') t'.invariants_to_check w in
    let done = commit_entries-Wakes (entries t') r in
    elim (Bool-cases (validate_and_acquire_ownership w.current_value t' true)) [
      | inr n ↦ absurd (ground (arith, ap (λ p. p.0) (rw n at h)))
      | inl v ↦
          let same : commit_entries r (entries t') false ≡ w' = ap (λ p. p.1) (rw v at h) in
          let up : (commit_entries r (entries t') false).blocked_on_stm i ≡ false =
            elim (Bool-cases ((commit_entries r (entries t') false).blocked_on_stm i)) [
              | inr n ↦ n
              | inl s ↦ absurd (
                  Unwatched-count r i x a (entries t')
                    (omega (
                      arith,
                      found-count x (entries t) e found,
                      lock_invariants-more w x t.invariants_to_check t,
                    ))
                    (k.on x a i on) (commit_entries-asleep i (entries t') r s))
            ] in
          rw (← same) (
            up,
            elim (done.cared i (inl (rw k.blocked asleep))) [
              | inl s ↦ absurd (ground (arith, s, up))
              | inr y ↦ y
            ],
          )
    ]
