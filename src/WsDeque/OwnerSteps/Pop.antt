-- ===== src/WsDeque/OwnerSteps/Pop.antt =====
-- rts/WSDeque.c: the steps of `popWSDeque`.
use ghc_xapp_fix.Prelude.{
  ℕ, ◌-◌, ◌^◌, ◌≤◌, ◌<◌, ◌≡◌, refl, ap, sym, ◌∙◌, some, arith, ltb, ◌==◌, inl, inr, Bool-cases,
}
use ghc_xapp_fix.WsDeque.{
  signed, add_word, WsDeque, Owner, pop_start, popping, restoring, claiming, settling, pop_decide,
  owner_step,
}
use ghc_xapp_fix.WsDeque.Words.{slots}
use ghc_xapp_fix.WsDeque.Spec.{apply, remove_last-snoc}
use ghc_xapp_fix.WsDeque.Valid.{end_of, element, contents, IsValid}
use ghc_xapp_fix.WsDeque.OwnerSteps.Base.{Steps, contents-nil, contents-snoc, slots-nil}

module _ (q : WsDeque) where
  abbrev Small : Owner → Type 0
  Small p = end_of q p < 2 ^ 62

  -- the list from `top` to another end
  to_end :
      {e e' : ℕ}
      → e ≡ e'
      → slots (element q) q.top (e - q.top) ≡ slots (element q) q.top (e' - q.top)
  to_end h = ap (λ e. slots (element q) q.top (e - q.top)) h

  pub step-pop_start :
      IsValid q pop_start → Small pop_start → Steps q pop_start (owner_step q pop_start)
  unfolding owner_step apply contents
  step-pop_start v small = record {
    valid = ground arith;
    effect = ap some (to_end (omega arith));
    size = refl;
    modulo = refl;
    rises = omega arith;
    grows = ground arith;
    stays = ground arith;
  }

  pub step-popping :
      (b : ℕ)
      → IsValid q (popping b)
      → Small (popping b)
      → Steps q (popping b) (pop_decide q b q.top)
  unfolding pop_decide apply contents
  step-popping b v small = elim (Bool-cases (ltb (signed b) (signed q.top))) [
    | inl under ↦
        let e : end_of q (popping b) ≤ q.top = ground arith in
        rw under (record {
          valid = ground arith;
          effect = rw (contents-nil q (popping b) e) (
              ap some (
                sym
                  (contents-nil (record q { top_bound = q.top }) (restoring q.top) (omega arith))));
          size = refl;
          modulo = refl;
          rises = omega arith;
          grows = ground arith;
          stays = ground arith;
        })
    | inr over ↦ rw over (elim (Bool-cases (ltb (signed q.top) (signed b))) [
      | inl many ↦ rw many (record {
        valid = ground arith;
        effect =
            rw (v.shape.mask b, contents-snoc q (popping b) b (ground arith) (ground arith))
              (remove_last-snoc (element q b) _ ∙ ap some (to_end (sym v.owner.1)));
        size = refl;
        modulo = refl;
        rises = omega arith;
        grows = ground arith;
        stays = ground arith;
      })
      | inr one ↦ rw one (record {
        valid = ground (arith, v.shape.mask b);
        effect = ap some (to_end (ground arith));
        size = refl;
        modulo = refl;
        rises = omega arith;
        grows = ground arith;
        stays = ground arith;
      })
    ])
  ]

  pub step-restoring :
      (t : ℕ) → IsValid q (restoring t) → Steps q (restoring t) (owner_step q (restoring t))
  unfolding owner_step apply contents
  step-restoring t v = record {
    valid = ground arith;
    effect = refl;
    size = refl;
    modulo = refl;
    rises = omega arith;
    grows = ground arith;
    stays = ground arith;
  }

  pub step-claiming :
      (t x : ℕ)
      → IsValid q (claiming t x)
      → Small (claiming t x)
      → Steps q (claiming t x) (owner_step q (claiming t x))
  unfolding owner_step apply
  step-claiming t x v small = elim (Bool-cases (q.top == t)) [
    | inl won ↦
        let gone = contents-nil (record q { top = add_word t 1 }) (settling t) (ground arith) in
        rw won (record {
          valid = ground arith;
          effect =
              rw (contents-snoc q (claiming t x) t refl (ground arith), v.owner.2, gone)
                (remove_last-snoc x _ ∙ ap some (slots-nil (element q) q.top (ground arith)));
          size = refl;
          modulo = refl;
          rises = ground arith;
          grows = ground arith;
          stays = ground arith;
        })
    | inr lost ↦ rw lost (record {
      valid = ground arith;
      effect = rw (
        contents-nil q (claiming t x) (ground arith),
        contents-nil q (settling t) (ground arith),
      );
      size = refl;
      modulo = refl;
      rises = omega arith;
      grows = ground arith;
      stays = ground arith;
    })
  ]

  pub step-settling :
      (t : ℕ)
      → IsValid q (settling t)
      → Small (settling t)
      → Steps q (settling t) (owner_step q (settling t))
  unfolding owner_step apply contents
  step-settling t v small = record {
    valid = ground arith;
    effect = ap some (to_end (omega arith));
    size = refl;
    modulo = refl;
    rises = omega arith;
    grows = ground arith;
    stays = ground arith;
  }
