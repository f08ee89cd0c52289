-- ===== src/Threads/RunQueue.antt =====
-- rts/Schedule.h, rts/Schedule.c: the run queue stands for a list of threads.
use mathlib.Core.Option
use mathlib.Core.Path.{subst}
use ghc_xapp_fix.Prelude.{
  ℕ, ◌≡◌, ◌≢◌, refl, ap, sym, ◌∙◌, Option, none, some, List, [], ◌∷◌, ◌++◌, update, inl, inr,
}
use ghc_xapp_fix.Threads.{
  Capability, append_behind, append_to_run_queue, set_prev, or_else, push_on_run_queue,
}
use ghc_xapp_fix.Threads.Lists.{
  In, AreDistinct, Chain, Back, last_of, In-append, AreDistinct-snoc, Chain-same, Back-same,
  Chain-append, Back-append, last_of-append, last_of-some, update_self, update_other,
}

-- The run queue holds the threads `l`, linked in both directions, none of them twice.
pub record IsQueue (cap : Capability) (l : List ℕ) : Type 0 where
  pub chain : Chain cap.link cap.run_queue_hd l none
  pub back : Back cap.prev none l
  pub tail : cap.run_queue_tl ≡ last_of none l
  pub distinct : AreDistinct l

-- Threads outside the list keep their links.
abbrev pub SameLinks : Capability → Capability → List ℕ → Type 0
SameLinks cap cap' l = (x : ℕ) → (In x l → ⊥) → cap'.link x ≡ cap.link x

-- a new end of the list
Chain-extend :
    (f : ℕ → Option ℕ) (q : Option ℕ) (x b t : ℕ) (xs : List ℕ)
    → Chain f q (x ∷ xs) none
    → AreDistinct (x ∷ xs)
    → last_of (some x) xs ≡ some b
    → Chain (update f b (some t)) q (x ∷ xs) (some t)
Chain-extend f q x b t [] c d e =
    let same : x ≡ b = Option.some_inj.0 e in
    (c.0, ap (update f b (some t)) same ∙ update_self f b (some t))
Chain-extend f q x b t (y ∷ xs) c d e =
    let (b', e', i) = last_of-some y xs in
    let same : b' ≡ b = Option.some_inj.0 (sym e' ∙ e) in
    let ne : b ≢ x = λ z. d.0 (subst (λ w. In w (y ∷ xs)) (same ∙ z) i) in
    (
      c.0,
      subst (λ m. Chain (update f b (some t)) m (y ∷ xs) (some t))
          (sym (update_other f b x (some t) ne)) (Chain-extend f (f x) y b t xs c.1 d.1 e),
    )

-- `appendToRunQueue` puts a thread at the end that is in no queue.
pub append-IsQueue :
    (cap : Capability) (t : ℕ) (l : List ℕ)
    → IsQueue cap l
    → (In t l → ⊥)
    → cap.link t ≡ none
    → (cap' : Capability) × (append_to_run_queue cap t ≡ some cap')
      × IsQueue cap' (l ++ t ∷ [])
      × SameLinks cap cap' (l ++ t ∷ [])
unfolding append_to_run_queue
append-IsQueue cap t [] v n alone = (
  record cap { run_queue_hd = some t; run_queue_tl = some t; prev = update cap.prev t none },
  ap (append_behind cap t) v.chain,
  record {
    chain = (refl, alone);
    back = (update_self cap.prev t none, tt);
    tail = refl;
    distinct = (λ h. h, tt);
  },
  λ x n. refl,
)
append-IsQueue cap t (x ∷ xs) v n alone =
    let (b, e, i) = last_of-some x xs in
    let ne : b ≢ t = λ z. n (subst (λ y. In y (x ∷ xs)) z i) in
    let tl : cap.run_queue_tl ≡ some b = v.tail ∙ e in
    (
      record cap {
        run_queue_tl = some t;
        link = update cap.link b (some t);
        prev = update cap.prev t (some b);
      },
      ap (append_behind cap t) v.chain.0 ∙ rw tl refl,
      record {
        chain =
            Chain-append (update cap.link b (some t)) cap.run_queue_hd (some t) none (x ∷ xs)
              (t ∷ []) (Chain-extend cap.link cap.run_queue_hd x b t xs v.chain v.distinct e)
              (refl, update_other cap.link b t (some t) ne ∙ alone);
        back =
            Back-append (update cap.prev t (some b)) none (x ∷ xs) (t ∷ [])
              (Back-same cap.prev (update cap.prev t (some b)) none (x ∷ xs)
                (λ y j.
                  update_other cap.prev t y (some b)
                    (λ z. n (subst (λ w. In w (x ∷ xs)) (sym z) j)))
                v.back)
              (update_self cap.prev t (some b) ∙ sym e, tt);
        tail = sym (last_of-append none (x ∷ xs) (t ∷ []));
        distinct = AreDistinct-snoc t (x ∷ xs) v.distinct n;
      },
      λ y k.
          update_other cap.link b y (some t)
            (λ z. k (In-append y (x ∷ xs) (t ∷ []) (inl (subst (λ w. In w (x ∷ xs)) z i)))),
    )

-- `pushOnRunQueue` puts a thread at the front that is in no queue.
pub push-IsQueue :
    (cap : Capability) (t : ℕ) (l : List ℕ)
    → IsQueue cap l
    → (In t l → ⊥)
    → IsQueue (push_on_run_queue cap t) (t ∷ l)
unfolding push_on_run_queue
push-IsQueue cap t [] v n = record {
  chain = (refl, update_self cap.link t cap.run_queue_hd ∙ v.chain);
  back = (
    ap (λ h. set_prev (update cap.prev t none) h (some t) t) v.chain ∙ update_self cap.prev t none,
    tt,
  );
  tail = ap (λ o. or_else o (some t)) v.tail;
  distinct = (n, tt);
}
push-IsQueue cap t (x ∷ xs) v n =
    let (b, e, i) = last_of-some x xs in
    let hd = v.chain.0 in
    let prev' = update (update cap.prev t none) x (some t) in
    let is : set_prev (update cap.prev t none) cap.run_queue_hd (some t) ≡ prev' =
      ap (λ h. set_prev (update cap.prev t none) h (some t)) hd in
    let x-t : x ≢ t = λ z. n (inl (sym z)) in
    record {
      chain = (
        refl,
        Chain-same cap.link (update cap.link t cap.run_queue_hd)
            (update cap.link t cap.run_queue_hd t) none (x ∷ xs)
            (λ y j.
              update_other cap.link t y cap.run_queue_hd
                (λ z. n (subst (λ w. In w (x ∷ xs)) (sym z) j)))
            (update_self cap.link t cap.run_queue_hd ∙ hd, v.chain.1),
      );
      back =
          subst (λ f. Back f none (t ∷ x ∷ xs)) (sym is)
            (
              update_other (update cap.prev t none) x t (some t) x-t ∙ update_self cap.prev t none,
              (
                update_self (update cap.prev t none) x (some t),
                Back-same cap.prev prev' (some x) xs
                    (λ y j.
                      update_other (update cap.prev t none) x y (some t)
                        (λ z. v.distinct.0 (subst (λ w. In w xs) (sym z) j))
                      ∙ update_other cap.prev t y none
                          (λ z. n (inr (subst (λ w. In w xs) (sym z) j))))
                    v.back.1,
              ),
            );
      tail = ap (λ o. or_else o (some t)) (v.tail ∙ e) ∙ sym e;
      distinct = (n, v.distinct);
    }

pub push-SameLinks :
    (cap : Capability) (t : ℕ) (l : List ℕ) → SameLinks cap (push_on_run_queue cap t) (t ∷ l)
unfolding push_on_run_queue
push-SameLinks cap t l x n = update_other cap.link t x cap.run_queue_hd (λ z. n (inl (sym z)))
