-- ===== src/Stm/Round.antt =====
-- rts/STM.c: a thread that waits and then aborts leaves the watch queues as they were.
use ghc_xapp_fix.Prelude.{
  ℕ, ◌≡◌, refl, ap, sym, ◌∙◌, true, false, List, [], ◌∷◌, ◌==◌, if◌then◌else◌, arith, Bool-cases,
  inl, inr, ==_iff,
}
use ghc_xapp_fix.Stm.Trec.{TrecEntry, Trec, entries, flatten, validate_and_acquire_ownership}
use ghc_xapp_fix.Stm.World.{
  Watcher, tso, TvarWatchQueue, World, link_watcher, build_entries, build_chunks,
  build_watch_queue_entries_for_trec, unlink_address, remove_entries,
}
use ghc_xapp_fix.Stm.Ops.{stm_wait, stm_abort_transaction}
use ghc_xapp_fix.Prelude.{◌++◌}

cons_unlink :
    (a : ℕ) (q : TvarWatchQueue) (qs : List TvarWatchQueue)
    → (q.address == a) ≡ false
    → unlink_address a (q ∷ qs) ≡ q ∷ unlink_address a qs
unfolding unlink_address
cons_unlink a q qs h = rw h refl

unlink_first :
    (q : TvarWatchQueue) (qs : List TvarWatchQueue) → unlink_address q.address (q ∷ qs) ≡ qs
unfolding unlink_address
unlink_first q qs = rw ((==_iff q.address q.address).1 refl) refl

-- Two entries can leave a queue in either order.
unlink_address-swap :
    (a b : ℕ) (qs : List TvarWatchQueue)
    → unlink_address a (unlink_address b qs) ≡ unlink_address b (unlink_address a qs)
unfolding unlink_address
unlink_address-swap a b [] = refl
unlink_address-swap a b (q ∷ qs) = elim (Bool-cases (q.address == a)) [
  | inl s ↦ elim (Bool-cases (q.address == b)) [
    | inl t ↦
        rw (s, t)
          (ap (λ c. unlink_address c qs)
            (sym ((==_iff q.address a).0 s) ∙ (==_iff q.address b).0 t))
    | inr d ↦ rw (s, d, s) refl
  ]
  | inr e ↦ elim (Bool-cases (q.address == b)) [
    | inl t ↦ rw (e, t) refl
    | inr d ↦ rw (e, d, e) (ap (λ l. q ∷ l) (unlink_address-swap a b qs))
  ]
]

-- what the removal of the entries does to the queue of `x`
unfoldable unlinks : ℕ → List TrecEntry → List TvarWatchQueue → List TvarWatchQueue
unlinks x [] qs = qs
unlinks x (e ∷ es) qs = unlinks x es (if e.tvar == x then unlink_address e.new_value qs else qs)

remove_entries-unlinks :
    (x : ℕ) (es : List TrecEntry) (w : World)
    → (remove_entries w es).watch_queue x ≡ unlinks x es (w.watch_queue x)
unfolding remove_entries unlinks
remove_entries-unlinks x [] w = refl
remove_entries-unlinks x (e ∷ es) w = elim (Bool-cases (e.tvar == x)) [
  | inl s ↦ rw (remove_entries-unlinks x es _, s, (==_iff e.tvar x).0 s) refl
  | inr d ↦ rw (remove_entries-unlinks x es _, d) refl
]

unlinks-unlink_address :
    (x a : ℕ) (es : List TrecEntry) (qs : List TvarWatchQueue)
    → unlinks x es (unlink_address a qs) ≡ unlink_address a (unlinks x es qs)
unfolding unlinks
unlinks-unlink_address x a [] qs = refl
unlinks-unlink_address x a (e ∷ es) qs = elim (Bool-cases (e.tvar == x)) [
  | inl s ↦ rw s (
      ap (unlinks x es) (unlink_address-swap e.new_value a qs)
      ∙ unlinks-unlink_address x a es (unlink_address e.new_value qs))
  | inr d ↦ rw d (unlinks-unlink_address x a es qs)
]

-- The entries that are built leave again.
unlinks-build_entries :
    (x : ℕ) (c : Watcher) (es : List TrecEntry) (w : World)
    → unlinks x (build_entries w c es).1 ((build_entries w c es).0.watch_queue x) ≡ w.watch_queue x
unfolding unlinks build_entries
unlinks-build_entries x c [] w = refl
unlinks-build_entries x c (e ∷ es) w =
    let w' = link_watcher w e.tvar c in
    let r = build_entries w' c es in
    let rest = unlinks-build_entries x c es w' in
    elim (Bool-cases (e.tvar == x)) [
      | inl s ↦
          rw (s, unlinks)
            (unlinks-unlink_address x w.next_address (r.1) ((r.0).watch_queue x)
              ∙ ap (unlink_address w.next_address) rest
              ∙ rw s (unlink_first _ _ ∙ ap w.watch_queue ((==_iff e.tvar x).0 s)))
      | inr d ↦ rw (d, unlinks) (rest ∙ rw d refl)
    ]

build_entries-append :
    (c : Watcher) (us vs : List TrecEntry) (w : World)
    → (build_entries w c (us ++ vs)).0 ≡ (build_entries (build_entries w c us).0 c vs).0
unfolding build_entries
build_entries-append c [] vs w = refl
build_entries-append c (u ∷ us) vs w = build_entries-append c us vs (link_watcher w u.tvar c)

build_entries-append_list :
    (c : Watcher) (us vs : List TrecEntry) (w : World)
    → (build_entries w c (us ++ vs)).1
      ≡ (build_entries w c us).1 ++ (build_entries (build_entries w c us).0 c vs).1
unfolding build_entries
build_entries-append_list c [] vs w = refl
build_entries-append_list c (u ∷ us) vs w =
    ap (λ l. record u { new_value = w.next_address } ∷ l)
      (build_entries-append_list c us vs (link_watcher w u.tvar c))

build_chunks-flatten :
    (c : Watcher) (cs : List (List TrecEntry)) (w : World)
    → ((build_chunks w c cs).0 ≡ (build_entries w c (flatten cs)).0)
      × (flatten (build_chunks w c cs).1 ≡ (build_entries w c (flatten cs)).1)
unfolding build_chunks flatten build_entries
build_chunks-flatten c [] w = (refl, refl)
build_chunks-flatten c (k ∷ cs) w =
    let rest = build_chunks-flatten c cs (build_entries w c k).0 in
    (
      rest.0 ∙ sym (build_entries-append c k (flatten cs) w),
      ap (λ l. (build_entries w c k).1 ++ l) rest.1
          ∙ sym (build_entries-append_list c k (flatten cs) w),
    )

-- A thread that begins to wait on a record and then aborts the transaction, with nothing in between,
-- leaves every watch queue as it was.
pub wait-abort :
    (w w' : World) (t t' : Trec) (thread x : ℕ)
    → stm_wait w thread t ≡ (true, (w', t'))
    → (stm_abort_transaction w' t' []).0.watch_queue x ≡ w.watch_queue x
unfolding stm_wait stm_abort_transaction build_watch_queue_entries_for_trec
wait-abort w w' t t' thread x h =
    elim (Bool-cases (validate_and_acquire_ownership w.current_value t true)) [
      | inr n ↦ absurd (ground (arith, ap (λ p. p.0) (rw n at h)))
      | inl s ↦
          let same = ap (λ p. p.1) (rw s at h) in
          let f = build_chunks-flatten (tso thread) t.chunks w in
          ap (λ p. (stm_abort_transaction (p.0) (p.1) []).0.watch_queue x) (sym same)
          ∙ remove_entries-unlinks x _ _
          ∙ rw (f.0, f.1) (unlinks-build_entries x (tso thread) (entries t) w)
    ]
