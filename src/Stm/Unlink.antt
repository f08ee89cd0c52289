-- ===== src/Stm/Unlink.antt =====
-- rts/STM.c: entries that leave their watch queues.
use ghc_xapp_fix.Prelude.{
  ℕ, ◌≡◌, ◌≢◌, refl, sym, ◌∙◌, Option, List, [], ◌∷◌, ◌==◌, All, update, arith, Bool-cases, inl,
  inr, Option-cases, ==_iff,
}
use ghc_xapp_fix.Stm.Trec.{TrecEntry, InvariantCheck}
use ghc_xapp_fix.Stm.World.{
  Watcher, tso, atomic_invariant, TvarWatchQueue, World, same_watcher, link_watcher, unlink_address,
  remove_entries, unlink_watcher, disconnect_entries, disconnect_invariant, connect_entries,
  connect_invariant_to_trec,
}
use ghc_xapp_fix.Stm.Ops.{rehook_invariants}
use ghc_xapp_fix.Stm.Watch.{On, Owned, OwnedBy, Keeps, Keeps-refl, Keeps-trans, link_watcher-Keeps}

Owned-unlink_watcher :
    (owner : ℕ → Watcher) (next : ℕ) (c : Watcher) (qs : List TvarWatchQueue)
    → Owned owner next qs
    → Owned owner next (unlink_watcher c qs)
unfolding unlink_watcher
Owned-unlink_watcher owner next c [] o = tt
Owned-unlink_watcher owner next c (q ∷ qs) o = elim (Bool-cases (same_watcher q.closure c)) [
  | inl s ↦ rw s o.1
  | inr d ↦ rw d (o.0, Owned-unlink_watcher owner next c qs o.1)
]

-- a thread stays where an invariant leaves
On-unlink_watcher :
    (a thread inv : ℕ) (qs : List TvarWatchQueue)
    → On a (tso thread) qs
    → On a (tso thread) (unlink_watcher (atomic_invariant inv) qs)
unfolding On unlink_watcher
On-unlink_watcher a thread inv [] h = h
On-unlink_watcher a thread inv (q ∷ qs) h =
    elim (Bool-cases (same_watcher q.closure (atomic_invariant inv))) [
      | inl s ↦ elim h [ inl (x, y) ↦ absurd (ground (arith, rw y at s)) | inr r ↦ rw s r ]
      | inr d ↦ elim h [
        | inl p ↦ rw d (inl p)
        | inr r ↦ rw d (inr (On-unlink_watcher a thread inv qs r))
      ]
    ]

-- a change of one queue
queue-Keeps :
    (w : World) (x : ℕ) (qs : List TvarWatchQueue)
    → ((a thread : ℕ) → On a (tso thread) (w.watch_queue x) → On a (tso thread) qs)
    → ((owner : ℕ → Watcher)
        → Owned owner w.next_address (w.watch_queue x)
        → Owned owner w.next_address qs)
    → Keeps w (record w { watch_queue = update w.watch_queue x qs })
queue-Keeps w x qs f g = record {
  on = λ y a i h. elim (Bool-cases (x == y)) [
    | inl s ↦ rw s (f a i (rw (← (==_iff x y).0 s) at h))
    | inr d ↦ rw d h
  ];
  owned = λ (owner, o). (
    owner,
    λ y. elim (Bool-cases (x == y)) [ inl s ↦ rw s (g owner (o x)) | inr d ↦ rw d (o y) ],
  );
  current = refl;
  blocked = refl;
  ready = refl;
}

disconnect_entries-Keeps :
    (inv : ℕ) (es : List TrecEntry) (w : World) → Keeps w (disconnect_entries w inv es)
unfolding disconnect_entries
disconnect_entries-Keeps inv [] w = Keeps-refl w
disconnect_entries-Keeps inv (e ∷ es) w =
    let qs = unlink_watcher (atomic_invariant inv) (w.watch_queue e.tvar) in
    let next = record w { watch_queue = update w.watch_queue e.tvar qs } in
    Keeps-trans w next _
      (queue-Keeps w e.tvar qs (λ a i. On-unlink_watcher a i inv (w.watch_queue e.tvar))
        (λ owner.
          Owned-unlink_watcher owner w.next_address (atomic_invariant inv) (w.watch_queue e.tvar)))
      (disconnect_entries-Keeps inv es next)

-- a change of what the invariants have executed
executed-Keeps :
    (w w' : World) (f : ℕ → Option (List TrecEntry))
    → Keeps w w'
    → Keeps w (record w' { last_execution = f })
executed-Keeps w w' f k = record {
  on = k.on;
  owned = k.owned;
  current = k.current;
  blocked = k.blocked;
  ready = k.ready;
}

disconnect_invariant-Keeps : (w : World) (inv : ℕ) → Keeps w (disconnect_invariant w inv)
unfolding disconnect_invariant
disconnect_invariant-Keeps w inv = elim (Option-cases (w.last_execution inv)) [
  | inl n ↦ rw n (Keeps-refl w)
  | inr (es, h) ↦
      rw h (executed-Keeps w (disconnect_entries w inv es) _ (disconnect_entries-Keeps inv es w))
]

connect_entries-Keeps :
    (inv : ℕ) (outer es : List TrecEntry) (w : World) → Keeps w (connect_entries w inv outer es).0
unfolding connect_entries
connect_entries-Keeps inv outer [] w = Keeps-refl w
connect_entries-Keeps inv outer (e ∷ es) w =
    let next = link_watcher w e.tvar (atomic_invariant inv) in
    Keeps-trans w next _ (link_watcher-Keeps w e.tvar (atomic_invariant inv))
      (connect_entries-Keeps inv outer es next)

connect_invariant-Keeps :
    (w : World) (inv : ℕ) (outer es : List TrecEntry)
    → Keeps w (connect_invariant_to_trec w inv outer es)
unfolding connect_invariant_to_trec
connect_invariant-Keeps w inv outer es =
    executed-Keeps w (connect_entries w inv outer es).0 _ (connect_entries-Keeps inv outer es w)

pub rehook_invariants-Keeps :
    (outer : List TrecEntry) (qs : List InvariantCheck) (w : World)
    → Keeps w (rehook_invariants w outer qs)
unfolding rehook_invariants
rehook_invariants-Keeps outer [] w = Keeps-refl w
rehook_invariants-Keeps outer (q ∷ qs) w =
    let off = disconnect_invariant w q.invariant in
    let next = connect_invariant_to_trec off q.invariant outer q.my_execution in
    Keeps-trans w off _ (disconnect_invariant-Keeps w q.invariant) (
      Keeps-trans off next _ (connect_invariant-Keeps off q.invariant outer q.my_execution)
        (rehook_invariants-Keeps outer qs next))

Owned-unlink_address :
    (owner : ℕ → Watcher) (next a : ℕ) (qs : List TvarWatchQueue)
    → Owned owner next qs
    → Owned owner next (unlink_address a qs)
unfolding unlink_address
Owned-unlink_address owner next a [] o = tt
Owned-unlink_address owner next a (q ∷ qs) o = elim (Bool-cases (q.address == a)) [
  | inl s ↦ rw s o.1
  | inr d ↦ rw d (o.0, Owned-unlink_address owner next a qs o.1)
]

On-unlink_address :
    (a b : ℕ) (c : Watcher) (qs : List TvarWatchQueue)
    → a ≢ b
    → On a c qs
    → On a c (unlink_address b qs)
unfolding On unlink_address
On-unlink_address a b c [] ne h = h
On-unlink_address a b c (q ∷ qs) ne h = elim (Bool-cases (q.address == b)) [
  | inl s ↦ elim h [ inl p ↦ absurd (ne (sym p.0 ∙ (==_iff q.address b).0 s)) | inr r ↦ rw s r ]
  | inr d ↦ elim h [ inl p ↦ rw d (inl p) | inr r ↦ rw d (inr (On-unlink_address a b c qs ne r)) ]
]

-- What `remove_watch_queue_entries_for_trec` does: nobody else leaves.
pub record Removes (es : List TrecEntry) (w w' : World) : Type 0 where
  pub on :
      (x a : ℕ) (c : Watcher)
      → All (λ e. a ≢ e.new_value) es
      → On a c (w.watch_queue x)
      → On a c (w'.watch_queue x)
  pub owned : (owner : ℕ → Watcher) → OwnedBy owner w → OwnedBy owner w'
  pub current : w'.current_value ≡ w.current_value
  pub blocked : w'.blocked_on_stm ≡ w.blocked_on_stm

pub remove_entries-Removes : (es : List TrecEntry) (w : World) → Removes es w (remove_entries w es)
unfolding remove_entries
remove_entries-Removes [] w = record {
  on = λ x a c ne h. h;
  owned = λ owner o. o;
  current = refl;
  blocked = refl;
}
remove_entries-Removes (e ∷ es) w =
    let qs = unlink_address e.new_value (w.watch_queue e.tvar) in
    let next = record w { watch_queue = update w.watch_queue e.tvar qs } in
    let r = remove_entries-Removes es next in
    record {
      on = λ x a c ne h. r.on x a c ne.1 (elim (Bool-cases (e.tvar == x)) [
        | inl s ↦ rw s (
            On-unlink_address a e.new_value c (w.watch_queue e.tvar) ne.0
              (rw (← (==_iff e.tvar x).0 s) at h))
        | inr d ↦ rw d h
      ]);
      owned = λ owner o. r.owned owner (λ y. elim (Bool-cases (e.tvar == y)) [
        | inl s ↦ rw s (
            Owned-unlink_address owner w.next_address e.new_value (w.watch_queue e.tvar) (o e.tvar))
        | inr d ↦ rw d (o y)
      ]);
      current = r.current;
      blocked = r.blocked;
    }
