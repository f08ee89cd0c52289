-- ===== src/Stm/Sleep/Aware.antt =====
-- rts/STM.c: what each operation does to the queues and the records of the threads that wait.
use mathlib.Core.Option
use ghc_xapp_fix.Prelude.{
  ℕ, ◌≡◌, ◌≢◌, refl, ap, sym, ◌∙◌, true, false, Option, none, some, List, [], ◌∷◌, ◌==◌, All,
  update, arith, Bool-cases, inl, inr, ==_iff,
}
use ghc_xapp_fix.Stm.Trec.{TrecEntry, Trec, trec_waiting, entries, validate_and_acquire_ownership}
use ghc_xapp_fix.Stm.World.{
  Watcher, tso, atomic_invariant, World, park_tso, build_watch_queue_entries_for_trec, build_chunks,
  remove_entries,
}
use ghc_xapp_fix.Stm.Ops.{
  commit_entries, rehook_invariants, lock_invariants, commit_locked, stm_commit_transaction,
  stm_wait, stm_re_wait,
}
use ghc_xapp_fix.Stm.Entries.{Agrees}
use ghc_xapp_fix.Stm.Commit.{validate-Agrees}
use ghc_xapp_fix.Stm.Watch.{On, OwnedBy, IsOwned, On-owner, Keeps, build_chunks-Builds, All-map}
use ghc_xapp_fix.Stm.Wake.{
  Unwatched, commit_entries-Wakes, commit_entries-asleep, commit_entries-elsewhere,
}
use ghc_xapp_fix.Stm.Unlink.{rehook_invariants-Keeps, Removes, remove_entries-Removes}

-- the record `t` on which the thread `i` waits, in the queue of each variable
abbrev pub Watches : World → ℕ → Trec → Type 0
Watches w i t = All (λ e. On e.new_value (tso i) (w.watch_queue e.tvar)) (entries t)

pub record IsAware (w : World) (waits : ℕ → Option Trec) : Type 0 where
  pub owned : IsOwned w
  pub watched : (i : ℕ) (t : Trec) → waits i ≡ some t → Watches w i t
  pub asleep :
      (i : ℕ)
      → w.blocked_on_stm i ≡ true
      → (t : Trec) × (waits i ≡ some t) × Agrees w.current_value (entries t)

elsewhere :
    (w : World) (i x a : ℕ) (fs : List TrecEntry)
    → On a (tso i) (w.watch_queue x)
    → Unwatched w i fs
    → All (λ e. e.tvar ≢ x) fs
elsewhere w i x a [] on off = tt
elsewhere w i x a (f ∷ fs) on off = ((λ h. off.0 a (rw h on)), elsewhere w i x a fs on off.1)

-- a store that is the same where the entries are
Agrees-elsewhere :
    (σ σ' : ℕ → ℕ) (w : World) (i : ℕ) (es fs : List TrecEntry)
    → All (λ e. On e.new_value (tso i) (w.watch_queue e.tvar)) es
    → Unwatched w i fs
    → ((x : ℕ) → All (λ e. e.tvar ≢ x) fs → σ' x ≡ σ x)
    → Agrees σ es
    → Agrees σ' es
Agrees-elsewhere σ σ' w i [] fs on off same a = tt
Agrees-elsewhere σ σ' w i (e ∷ es) fs on off same a = (
  a.0 ∙ sym (same e.tvar (elsewhere w i e.tvar e.new_value fs on.0 off)),
  Agrees-elsewhere σ σ' w i es fs on.1 off same a.1,
)

-- If the queues stay, nobody falls asleep, and the values that the sleepers wait for stay, then
-- what the threads wait for is right still.
Keeps-IsAware :
    (w w' : World) (waits : ℕ → Option Trec) → Keeps w w' → IsAware w waits → IsAware w' waits
Keeps-IsAware w w' waits k v = record {
  owned = k.owned v.owned;
  watched = λ i t h. All-map _ _ (entries t) (λ e. k.on e.tvar e.new_value i) (v.watched i t h);
  asleep = λ i h. let s = v.asleep i (rw (← k.blocked) h) in (s.0, s.1, rw k.current s.2);
}

commit_entries-IsAware :
    (w : World) (waits : ℕ → Option Trec) (es : List TrecEntry)
    → IsAware w waits
    → IsAware (commit_entries w es false) waits
commit_entries-IsAware w waits es v =
    let k = commit_entries-Wakes es w in
    record {
      owned = (v.owned.0, λ x. rw (k.queues, k.next) (v.owned.1 x));
      watched = λ i t h. rw k.queues (v.watched i t h);
      asleep = λ i h.
          let s = v.asleep i (k.asleep i h) in
          (
            s.0,
            s.1,
            Agrees-elsewhere w.current_value _ w i (entries (s.0)) es (v.watched i (s.0) s.1)
                (commit_entries-asleep i es w h) (λ x. commit_entries-elsewhere x es w) s.2,
          );
    }

pub commit-IsAware :
    (w : World) (waits : ℕ → Option Trec) (t : Trec)
    → IsAware w waits
    → IsAware (stm_commit_transaction w t).1 waits
unfolding stm_commit_transaction commit_locked
commit-IsAware w waits t v =
    let t' = lock_invariants w t t.invariants_to_check in
    let r = rehook_invariants w (entries t') t'.invariants_to_check in
    elim (Bool-cases (validate_and_acquire_ownership w.current_value t' true)) [
      | inr n ↦ rw n v
      | inl s ↦ rw s (
          commit_entries-IsAware r waits (entries t') (
            Keeps-IsAware w r waits (rehook_invariants-Keeps (entries t') t'.invariants_to_check w)
              v))
    ]

-- A thread that has begun to wait on `t`.
parked-IsAware :
    (w w' : World) (waits : ℕ → Option Trec) (i : ℕ) (t : Trec)
    → IsAware w waits
    → Keeps w w'
    → Watches w' i t
    → Agrees w.current_value (entries t)
    → IsAware (park_tso w' i) (update waits i (some t))
parked-IsAware w w' waits i t v k on a =
    let v' = Keeps-IsAware w w' waits k v in
    record {
      owned = v'.owned;
      watched = λ j u h. elim (Bool-cases (i == j)) [
        | inl s ↦
            let same : t ≡ u = Option.some_inj.0 (rw s at h) in rw (← same, ← (==_iff i j).0 s) on
        | inr d ↦ v'.watched j u (rw d at h)
      ];
      asleep = λ j h. elim (Bool-cases (i == j)) [
        | inl s ↦ (t, rw s refl, rw k.current a)
        | inr d ↦ let r = v'.asleep j (rw d at h) in (r.0, rw d r.1, r.2)
      ];
    }

pub wait-IsAware :
    (w : World) (waits : ℕ → Option Trec) (i : ℕ) (t : Trec)
    → (stm_wait w i t).0 ≡ true
    → IsAware w waits
    → IsAware (stm_wait w i t).1.0 (update waits i (some (stm_wait w i t).1.1))
unfolding stm_wait build_watch_queue_entries_for_trec
wait-IsAware w waits i t h v =
    let b = build_chunks-Builds i t.chunks w in
    elim (Bool-cases (validate_and_acquire_ownership w.current_value t true)) [
      | inr n ↦ absurd (ground (arith, rw n at h))
      | inl s ↦
          let a = ((validate-Agrees w.current_value t).0 s).1 in
          rw s (
            parked-IsAware w (build_chunks w (tso i) t.chunks).0 waits i _ v b.keeps b.watches
              (b.agrees w.current_value a))
    ]

-- A thread that waits again on its record.
pub re_wait-IsAware :
    (w : World) (waits : ℕ → Option Trec) (i : ℕ) (t : Trec)
    → waits i ≡ some t
    → (stm_re_wait w i t).0 ≡ true
    → IsAware w waits
    → IsAware (stm_re_wait w i t).1 waits
unfolding stm_re_wait
re_wait-IsAware w waits i t here h v =
    elim (Bool-cases (validate_and_acquire_ownership w.current_value t true)) [
      | inr n ↦ absurd (ground (arith, rw n at h))
      | inl s ↦
          let a = ((validate-Agrees w.current_value t).0 s).1 in
          rw s (record {
            owned = v.owned;
            watched = v.watched;
            asleep = λ j b. elim (Bool-cases (i == j)) [
              | inl e ↦ (t, rw (← (==_iff i j).0 e) here, a)
              | inr d ↦ v.asleep j (rw d at b)
            ];
          })
    ]

abbrev thread_of : Watcher → ℕ
thread_of (tso i) = i
thread_of (atomic_invariant inv) = inv

-- The addresses of two threads differ.
apart :
    (owner : ℕ → Watcher) (w : World) (i j x a : ℕ) (es : List TrecEntry)
    → OwnedBy owner w
    → i ≢ j
    → On a (tso j) (w.watch_queue x)
    → All (λ e. On e.new_value (tso i) (w.watch_queue e.tvar)) es
    → All (λ e. a ≢ e.new_value) es
apart owner w i j x a [] o ne h on = tt
apart owner w i j x a (e ∷ es) o ne h on = (
  λ s.
      let p = On-owner owner w.next_address a (tso j) (w.watch_queue x) (o x) h in
      let q =
        On-owner owner w.next_address e.new_value (tso i) (w.watch_queue e.tvar) (o e.tvar) on.0 in
      ne (ap thread_of (q ∙ ap owner (sym s) ∙ sym p)),
  apart owner w i j x a es o ne h on.1,
)

-- A thread that waits no longer.
leaves-IsAware :
    (w w' : World) (waits : ℕ → Option Trec) (i : ℕ) (t : Trec)
    → waits i ≡ some t
    → w.blocked_on_stm i ≡ false
    → Removes (entries t) w w'
    → IsAware w waits
    → IsAware w' (update waits i none)
leaves-IsAware w w' waits i t here awake r v = record {
  owned = (v.owned.0, r.owned (v.owned.0) v.owned.1);
  watched = λ j u h. elim (Bool-cases (i == j)) [
    | inl s ↦ absurd (ground (arith, rw s at h))
    | inr d ↦
        let ne : i ≢ j = λ s. ground (arith, d, s) in
        All-map _ _ (entries u)
          (λ e on.
            r.on e.tvar e.new_value (tso j)
              (apart (v.owned.0) w i j e.tvar e.new_value (entries t) v.owned.1 ne on
                (v.watched i t here))
              on)
          (v.watched j u (rw d at h))
  ];
  asleep = λ j h. elim (Bool-cases (i == j)) [
    | inl s ↦ absurd (ground (arith, awake, rw (r.blocked, ← (==_iff i j).0 s) at h))
    | inr d ↦ let s = v.asleep j (rw r.blocked at h) in (s.0, rw d s.1, rw r.current s.2)
  ];
}

pub remove-IsAware :
    (w : World) (waits : ℕ → Option Trec) (i : ℕ) (t : Trec)
    → waits i ≡ some t
    → w.blocked_on_stm i ≡ false
    → IsAware w waits
    → IsAware (remove_entries w (entries t)) (update waits i none)
remove-IsAware w waits i t here awake v =
    leaves-IsAware w (remove_entries w (entries t)) waits i t here awake
      (remove_entries-Removes (entries t) w) v

pub gives_up-IsAware :
    (w : World) (waits : ℕ → Option Trec) (i : ℕ) (t : Trec)
    → waits i ≡ some t
    → t.state ≡ trec_waiting
    → w.blocked_on_stm i ≡ false
    → (stm_re_wait w i t).0 ≡ false
    → IsAware w waits
    → IsAware (stm_re_wait w i t).1 (update waits i none)
unfolding stm_re_wait
gives_up-IsAware w waits i t here waiting awake h v =
    elim (Bool-cases (validate_and_acquire_ownership w.current_value t true)) [
      | inl s ↦ absurd (ground (arith, rw s at h))
      | inr n ↦ rw (n, waiting) (remove-IsAware w waits i t here awake v)
    ]
