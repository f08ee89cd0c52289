-- ===== src/Threads/Remove.antt =====
-- rts/Schedule.h, rts/Schedule.c: a thread leaves the run queue.
use mathlib.Core.Option
use mathlib.Core.Path.{subst}
use ghc_xapp_fix.Prelude.{
  ℕ, ◌≡◌, ◌≢◌, refl, ap, sym, ◌∙◌, Option, none, some, List, [], ◌∷◌, ◌++◌, update, arith, inl, inr,
  ◌>>=◌,
}
use ghc_xapp_fix.Threads.{
  Capability, set_prev, set_link, at_end, pop_run_queue, remove_from_run_queue,
}
use ghc_xapp_fix.Threads.Lists.{
  In, AreDistinct, Chain, Back, last_of, In-append, AreDistinct-remove, Back-same, Chain-split,
  Back-append, Back-split, last_of-append, last_of-some, update_self, update_other, new_head,
  new_links, unlink_other, Chain-remove,
}
use ghc_xapp_fix.Threads.RunQueue.{IsQueue, SameLinks}

-- the queue after the thread `t` is taken out
heads : (link : ℕ → Option ℕ) (q p : Option ℕ) (t : ℕ) → at_end p (link t) q ≡ new_head link q p t
heads link q none t = refl
heads link q (some b) t = refl

links :
    (link : ℕ → Option ℕ) (p : Option ℕ) (t : ℕ)
    → update (set_link link p (link t)) t none ≡ new_links link p t
links link none t = refl
links link (some b) t = refl

set_link_other :
    (link : ℕ → Option ℕ) (p n : Option ℕ) (t : ℕ) → p ≢ some t → set_link link p n t ≡ link t
set_link_other link none n t ne = refl
set_link_other link (some b) n t ne = update_other link b t n (λ z. ne (ap some z))

last_of-ne : (t : ℕ) (xs : List ℕ) → (In t xs → ⊥) → last_of none xs ≢ some t
last_of-ne t [] n e = absurd (ground (arith, e))
last_of-ne t (x ∷ xs) n e =
    let (b, e', i) = last_of-some x xs in
    n (subst (λ y. In y (x ∷ xs)) (Option.some_inj.0 (sym e' ∙ e)) i)

-- the links back, where `n` follows `t`
Back-remove :
    (prev link : ℕ → Option ℕ) (n : Option ℕ) (t : ℕ) (xs ys : List ℕ)
    → Back prev none (xs ++ t ∷ ys)
    → AreDistinct (xs ++ t ∷ ys)
    → Chain link n ys none
    → Back (update (set_prev prev n (last_of none xs)) t none) none (xs ++ ys)
Back-remove prev link n t xs [] b d c =
    let (_, not_xs, _) = AreDistinct-remove t xs [] d in
    let p = last_of none xs in
    let f = update (set_prev prev n p) t none in
    Back-append f none xs []
      (Back-same prev f none xs
        (λ y j.
          update_other (set_prev prev n p) t y none (λ z. not_xs (subst (λ w. In w xs) (sym z) j))
          ∙ ap (λ n. set_prev prev n p y) c)
        (Back-split prev none xs (t ∷ []) b).0)
      tt
Back-remove prev link n t xs (y ∷ ys) b d c =
    let (d', t_xs, t_ys) = AreDistinct-remove t xs (y ∷ ys) d in
    let (_, y_xs, y_ys) = AreDistinct-remove y xs ys d' in
    let p = last_of none xs in
    let f = update (set_prev prev n p) t none in
    let was = Back-split prev none xs (t ∷ y ∷ ys) b in
    let same : (x : ℕ) → t ≢ x → y ≢ x → f x ≡ prev x = λ x u w.
      update_other (set_prev prev n p) t x none u
      ∙ ap (λ n. set_prev prev n p x) c.0
      ∙ update_other prev y x p w in
    let here : f y ≡ p =
      update_other (set_prev prev n p) t y none (λ z. t_ys (inl z))
      ∙ ap (λ n. set_prev prev n p y) c.0
      ∙ update_self prev y p in
    Back-append f none xs (y ∷ ys)
      (Back-same prev f none xs
        (λ x j.
          same x (λ z. t_xs (subst (λ w. In w xs) (sym z) j))
            (λ z. y_xs (subst (λ w. In w xs) (sym z) j)))
        was.0)
      (
        here,
        Back-same prev f (some y) ys
            (λ x j.
              same x (λ z. t_ys (inr (subst (λ w. In w ys) (sym z) j)))
                (λ z. y_ys (subst (λ w. In w ys) (sym z) j)))
            was.1.1.1,
      )

tail-remove :
    (link : ℕ → Option ℕ) (n tl : Option ℕ) (t : ℕ) (xs ys : List ℕ)
    → Chain link n ys none
    → tl ≡ last_of none (xs ++ t ∷ ys)
    → at_end n (last_of none xs) tl ≡ last_of none (xs ++ ys)
tail-remove link n tl t xs [] c e =
    ap (λ n. at_end n (last_of none xs) tl) c ∙ sym (last_of-append none xs [])
tail-remove link n tl t xs (y ∷ ys) c e =
    ap (λ n. at_end n (last_of none xs) tl) c.0
    ∙ e
    ∙ last_of-append none xs (t ∷ y ∷ ys)
    ∙ sym (last_of-append none xs (y ∷ ys))

new_links_other :
    (link : ℕ → Option ℕ) (t : ℕ) (xs ys : List ℕ) (x : ℕ)
    → (In x (xs ++ t ∷ ys) → ⊥)
    → new_links link (last_of none xs) t x ≡ link x
new_links_other link t [] ys x n = update_other link t x none (λ z. n (inl (sym z)))
new_links_other link t (y ∷ xs) ys x n =
    let (b, e, i) = last_of-some y xs in
    ap (λ p. new_links link p t x) e
    ∙ unlink_other link b t x
        (λ z. n (In-append x (y ∷ xs) (t ∷ ys) (inl (subst (λ w. In w (y ∷ xs)) z i))))
        (λ z. n (In-append x (y ∷ xs) (t ∷ ys) (inr (inl (sym z)))))

-- `removeFromRunQueue` takes a thread out of the queue, wherever it stands in it.
pub remove-IsQueue :
    (cap : Capability) (t : ℕ) (xs ys : List ℕ)
    → IsQueue cap (xs ++ t ∷ ys)
    → IsQueue (remove_from_run_queue cap t) (xs ++ ys)
      × ((remove_from_run_queue cap t).link t ≡ none)
      × SameLinks cap (remove_from_run_queue cap t) (xs ++ t ∷ ys)
unfolding remove_from_run_queue
remove-IsQueue cap t xs ys v =
    let p = last_of none xs in
    let (d, t_xs, t_ys) = AreDistinct-remove t xs ys v.distinct in
    let before : cap.prev t ≡ p = (Back-split cap.prev none xs (t ∷ ys) v.back).1.0 in
    let (m, first, then_t) = Chain-split cap.link cap.run_queue_hd none xs (t ∷ ys) v.chain in
    let next = then_t.1 in
    let link' : ℕ → Option ℕ = set_link cap.link (cap.prev t) (cap.link t) in
    let after : link' t ≡ cap.link t =
      ap (λ p. set_link cap.link p (cap.link t) t) before
      ∙ set_link_other cap.link p (cap.link t) t (last_of-ne t xs t_xs) in
    let links_are : update link' t none ≡ new_links cap.link p t =
      ap (λ p. update (set_link cap.link p (cap.link t)) t none) before ∙ links cap.link p t in
    let head_is : at_end (cap.prev t) (cap.link t) cap.run_queue_hd
        ≡ new_head cap.link cap.run_queue_hd p t =
      ap (λ p. at_end p (cap.link t) cap.run_queue_hd) before
      ∙ heads cap.link cap.run_queue_hd p t in
    let prev_is : update (set_prev cap.prev (link' t) (cap.prev t)) t none
        ≡ update (set_prev cap.prev (cap.link t) p) t none =
      ap (λ n. update (set_prev cap.prev n (cap.prev t)) t none) after
      ∙ ap (λ p. update (set_prev cap.prev (cap.link t) p) t none) before in
    let tail_is : at_end (link' t) (cap.prev t) cap.run_queue_tl
        ≡ at_end (cap.link t) p cap.run_queue_tl =
      ap (λ n. at_end n (cap.prev t) cap.run_queue_tl) after
      ∙ ap (λ p. at_end (cap.link t) p cap.run_queue_tl) before in
    (
      record {
        chain =
            subst (λ f. Chain f (at_end (cap.prev t) (cap.link t) cap.run_queue_hd) (xs ++ ys) none)
              (sym links_are)
              (subst (λ q. Chain (new_links cap.link p t) q (xs ++ ys) none) (sym head_is)
                (Chain-remove cap.link cap.run_queue_hd none p t xs ys v.chain v.distinct refl));
        back =
            subst (λ f. Back f none (xs ++ ys)) (sym prev_is)
              (Back-remove cap.prev cap.link (cap.link t) t xs ys v.back v.distinct next);
        tail = tail_is ∙ tail-remove cap.link (cap.link t) cap.run_queue_tl t xs ys next v.tail;
        distinct = d;
      },
      update_self link' t none,
      λ x n. ap (λ (f : ℕ → Option ℕ). f x) links_are ∙ new_links_other cap.link t xs ys x n,
    )

pop-Back :
    (prev : ℕ → Option ℕ) (n : Option ℕ) (link : ℕ → Option ℕ) (t : ℕ) (l : List ℕ)
    → Back prev none (t ∷ l)
    → AreDistinct (t ∷ l)
    → Chain link n l none
    → Back (set_prev prev n none) none l
pop-Back prev n link t [] b d c = tt
pop-Back prev n link t (y ∷ l) b d c =
    subst (λ n. Back (set_prev prev n none) none (y ∷ l)) (sym c.0)
      (
        update_self prev y none,
        Back-same prev (update prev y none) (some y) l
            (λ x j. update_other prev y x none (λ z. d.1.0 (subst (λ w. In w l) (sym z) j))) b.1.1,
      )

-- `popRunQueue` takes the first thread out.
pub pop-IsQueue :
    (cap : Capability) (t : ℕ) (l : List ℕ)
    → IsQueue cap (t ∷ l)
    → (cap' : Capability) × (pop_run_queue cap ≡ some (t, cap'))
      × IsQueue cap' l
      × (cap'.link t ≡ none)
      × SameLinks cap cap' (t ∷ l)
unfolding pop_run_queue
pop-IsQueue cap t l v = (
  record {
    run_queue_hd = cap.link t;
    run_queue_tl = at_end (cap.link t) none cap.run_queue_tl;
    link = update cap.link t none;
    prev = set_prev cap.prev (cap.link t) none;
  },
  ap
      (λ hd. hd >>= λ t. some (
        t,
        record {
          run_queue_hd = cap.link t;
          run_queue_tl = at_end (cap.link t) none cap.run_queue_tl;
          link = update cap.link t none;
          prev = set_prev cap.prev (cap.link t) none;
        },
      ))
      v.chain.0,
  record {
    chain = Chain-remove cap.link cap.run_queue_hd none none t [] l v.chain v.distinct refl;
    back = pop-Back cap.prev (cap.link t) cap.link t l v.back v.distinct v.chain.1;
    tail = tail-remove cap.link (cap.link t) cap.run_queue_tl t [] l v.chain.1 v.tail;
    distinct = v.distinct.1;
  },
  update_self cap.link t none,
  λ x n. update_other cap.link t x none (λ z. n (inl (sym z))),
)
