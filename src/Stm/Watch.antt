-- ===== src/Stm/Watch.antt =====
-- rts/STM.c: the entries of watch queues, and what happens to them as queues are built, unhooked and
-- taken apart.
use ghc_xapp_fix.Prelude.{
  ℕ, suc, ◌<◌, ◌≡◌, refl, ap, sym, ◌∙◌, List, [], ◌∷◌, ◌++◌, ◌==◌, All, update, arith, Bool-cases,
  inl, inr, ◌⊎◌, ==_iff,
}
use ghc_xapp_fix.Stm.Trec.{TrecEntry, flatten}
use ghc_xapp_fix.Stm.World.{
  Watcher, tso, TvarWatchQueue, World, link_watcher, build_entries, build_chunks,
}
use ghc_xapp_fix.Stm.Entries.{Agrees}

-- an entry at address `a` for the watcher `c`
unfoldable pub On : ℕ → Watcher → List TvarWatchQueue → Type 0
On a c [] = ⊥
On a c (q ∷ qs) = ((q.address ≡ a) × (q.closure ≡ c)) ⊎ On a c qs

-- Addresses are below `next`, and tell the watcher.
abbrev pub Owned : (ℕ → Watcher) → ℕ → List TvarWatchQueue → Type 0
Owned owner next = All (λ q. (q.address < next) × (q.closure ≡ owner q.address))

abbrev pub OwnedBy : (ℕ → Watcher) → World → Type 0
OwnedBy owner w = (x : ℕ) → Owned owner w.next_address (w.watch_queue x)

abbrev pub IsOwned : World → Type 0
IsOwned w = (owner : ℕ → Watcher) × OwnedBy owner w

pub On-owner :
    (owner : ℕ → Watcher) (next a : ℕ) (c : Watcher) (qs : List TvarWatchQueue)
    → Owned owner next qs
    → On a c qs
    → c ≡ owner a
unfolding On
On-owner owner next a c [] o h = absurd h
On-owner owner next a c (q ∷ qs) o (inl h) = sym h.1 ∙ o.0.1 ∙ ap owner h.0
On-owner owner next a c (q ∷ qs) o (inr h) = On-owner owner next a c qs o.1 h

-- What happens to the queues while the threads in them stay there, and nobody is woken.
pub record Keeps (w w' : World) : Type 0 where
  pub on :
      (x a thread : ℕ) → On a (tso thread) (w.watch_queue x) → On a (tso thread) (w'.watch_queue x)
  pub owned : IsOwned w → IsOwned w'
  pub current : w'.current_value ≡ w.current_value
  pub blocked : w'.blocked_on_stm ≡ w.blocked_on_stm
  pub ready : w'.run_queue ≡ w.run_queue

pub Keeps-refl : (w : World) → Keeps w w
Keeps-refl w = record {
  on = λ x a i h. h;
  owned = λ o. o;
  current = refl;
  blocked = refl;
  ready = refl;
}

pub Keeps-trans : (w w' w'' : World) → Keeps w w' → Keeps w' w'' → Keeps w w''
Keeps-trans w w' w'' k l = record {
  on = λ x a i h. l.on x a i (k.on x a i h);
  owned = λ o. l.owned (k.owned o);
  current = l.current ∙ k.current;
  blocked = l.blocked ∙ k.blocked;
  ready = l.ready ∙ k.ready;
}

-- a new address for `c`
Owned-next :
    (owner : ℕ → Watcher) (next : ℕ) (c : Watcher) (qs : List TvarWatchQueue)
    → Owned owner next qs
    → Owned (update owner next c) (suc next) qs
Owned-next owner next c [] o = tt
Owned-next owner next c (q ∷ qs) o = elim (Bool-cases (next == q.address)) [
  | inl s ↦ absurd (ground (arith, s, o.0.0))
  | inr d ↦ ((omega (arith, o.0.0), rw d o.0.1), Owned-next owner next c qs o.1)
]

update_here : (owner : ℕ → Watcher) (n : ℕ) (c : Watcher) → c ≡ update owner n c n
update_here owner n c = rw ((==_iff n n).1 refl) refl

pub link_watcher-Keeps : (w : World) (x : ℕ) (c : Watcher) → Keeps w (link_watcher w x c)
unfolding On
link_watcher-Keeps w x c = record {
  on = λ y a i h. elim (Bool-cases (x == y)) [
    | inl s ↦ rw s (inr (rw (← (==_iff x y).0 s) at h))
    | inr d ↦ rw d h
  ];
  owned = λ (owner, o). (
    update owner w.next_address c,
    λ y. elim (Bool-cases (x == y)) [
      | inl s ↦ rw s (
        (omega arith, update_here owner w.next_address c),
        Owned-next owner w.next_address c (w.watch_queue x) (o x),
      )
      | inr d ↦ rw d (Owned-next owner w.next_address c (w.watch_queue y) (o y))
    ],
  );
  current = refl;
  blocked = refl;
  ready = refl;
}

-- the new entry is in its queue
link_watcher-On :
    (w : World) (x : ℕ) (c : Watcher) → On w.next_address c ((link_watcher w x c).watch_queue x)
unfolding On
link_watcher-On w x c = rw ((==_iff x x).1 refl) (inl (refl, refl))

-- What `build_watch_queue_entries_for_trec` does for a list of entries.
pub record Builds (w : World) (thread : ℕ) (es : List TrecEntry) (r : World × List TrecEntry)
    : Type 0 where
  pub keeps : Keeps w (r.0)
  pub watches : All (λ e. On e.new_value (tso thread) ((r.0).watch_queue e.tvar)) (r.1)
  pub agrees : (σ : ℕ → ℕ) → Agrees σ es → Agrees σ (r.1)

pub build_entries-Builds :
    (thread : ℕ) (es : List TrecEntry) (w : World)
    → Builds w thread es (build_entries w (tso thread) es)
unfolding build_entries
build_entries-Builds thread [] w = record { keeps = Keeps-refl w; watches = tt; agrees = λ σ a. tt }
build_entries-Builds thread (e ∷ es) w =
    let w' = link_watcher w e.tvar (tso thread) in
    let b = build_entries-Builds thread es w' in
    record {
      keeps = Keeps-trans w w' _ (link_watcher-Keeps w e.tvar (tso thread)) b.keeps;
      watches = (
        b.keeps.on e.tvar w.next_address thread (link_watcher-On w e.tvar (tso thread)),
        b.watches,
      );
      agrees = λ σ a. (a.0, b.agrees σ a.1);
    }

All-append {κ} :
    (P : TrecEntry → Type κ) (us vs : List TrecEntry) → All P us → All P vs → All P (us ++ vs)
All-append P [] vs a b = b
All-append P (u ∷ us) vs a b = (a.0, All-append P us vs a.1 b)

All-parts {κ} :
    (P : TrecEntry → Type κ) (us vs : List TrecEntry) → All P (us ++ vs) → All P us × All P vs
All-parts P [] vs a = (tt, a)
All-parts P (u ∷ us) vs a = let r = All-parts P us vs a.1 in ((a.0, r.0), r.1)

pub All-map {κ μ} :
    (P : TrecEntry → Type κ) (Q : TrecEntry → Type μ) (es : List TrecEntry)
    → ((e : TrecEntry) → P e → Q e)
    → All P es
    → All Q es
All-map P Q [] f a = tt
All-map P Q (e ∷ es) f a = (f e a.0, All-map P Q es f a.1)

pub build_chunks-Builds :
    (thread : ℕ) (cs : List (List TrecEntry)) (w : World)
    → Builds w thread
        (flatten cs)
        ((build_chunks w (tso thread) cs).0, flatten (build_chunks w (tso thread) cs).1)
unfolding build_chunks flatten
build_chunks-Builds thread [] w = record { keeps = Keeps-refl w; watches = tt; agrees = λ σ a. tt }
build_chunks-Builds thread (c ∷ cs) w =
    let r = build_entries w (tso thread) c in
    let b = build_entries-Builds thread c w in
    let d = build_chunks-Builds thread cs (r.0) in
    record {
      keeps = Keeps-trans w (r.0) _ b.keeps d.keeps;
      watches =
          All-append _ (r.1) _
            (All-map _ _ (r.1) (λ e. d.keeps.on e.tvar e.new_value thread) b.watches) d.watches;
      agrees = λ σ a.
          let p = All-parts _ c (flatten cs) a in
          All-append _ (r.1) _ (b.agrees σ p.0) (d.agrees σ p.1);
    }
