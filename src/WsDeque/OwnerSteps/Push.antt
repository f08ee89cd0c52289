-- ===== src/WsDeque/OwnerSteps/Push.antt =====
-- rts/WSDeque.c: the steps of `pushWSDeque`, and of an owner that does nothing.
use ghc_xapp_fix.Prelude.{
  ℕ, ◌+◌, ◌-◌, ◌%◌, ◌^◌, ◌≤◌, ◌<◌, ◌≢◌, refl, ap, some, arith, leb, inl, inr, Bool-cases,
}
use ghc_xapp_fix.WsDeque.{
  signed, sub_word, add_word, WsDeque, Owner, idle, push_start, checking, writing, publishing,
  push_decide, push_check, owner_step,
}
use ghc_xapp_fix.WsDeque.Words.{slots-same, length-slots, mod_apart}
use ghc_xapp_fix.WsDeque.Spec.{apply}
use ghc_xapp_fix.WsDeque.Valid.{end_of, element, contents, IsValid}
use ghc_xapp_fix.WsDeque.OwnerSteps.Base.{Steps, contents-snoc}

module _ (q : WsDeque) where
  abbrev Small : Owner → Type 0
  Small p = end_of q p < 2 ^ 62

  pub step-push_start :
      (x : ℕ)
      → IsValid q (push_start x)
      → Small (push_start x)
      → Steps q (push_start x) (push_decide q x q.bottom q.top_bound)
  unfolding push_decide apply contents
  step-push_start x v small =
      elim (Bool-cases (leb (signed q.top_bound + q.modulo_size) (signed q.bottom))) [
        | inl full ↦ rw full (record {
          valid = ground arith;
          effect = refl;
          size = refl;
          modulo = refl;
          rises = omega arith;
          grows = ground arith;
          stays = ground arith;
        })
        | inr free ↦ rw free (record {
          valid = ground arith;
          effect = refl;
          size = refl;
          modulo = refl;
          rises = omega arith;
          grows = ground arith;
          stays = ground arith;
        })
      ]

  pub step-checking :
      (x b : ℕ)
      → IsValid q (checking x b)
      → Small (checking x b)
      → Steps q (checking x b) (push_check q x b q.top)
  unfolding push_check apply contents
  step-checking x b v small =
      let n = length-slots (element q) q.top (q.bottom - q.top) in
      elim (Bool-cases (leb q.modulo_size (sub_word b q.top))) [
        | inl full ↦ rw full (record {
          valid = ground arith;
          effect = ground (arith, n);
          size = refl;
          modulo = refl;
          rises = omega arith;
          grows = ground arith;
          stays = ground arith;
        })
        | inr free ↦ rw free (record {
          valid = ground arith;
          effect = refl;
          size = refl;
          modulo = refl;
          rises = omega arith;
          grows = ground arith;
          stays = ground arith;
        })
      ]

  pub step-writing :
      (x b : ℕ)
      → IsValid q (writing x b)
      → Small (writing x b)
      → Steps q (writing x b) (owner_step q (writing x b))
  unfolding owner_step apply contents
  step-writing x b v small =
      let other : (i : ℕ) → q.top ≤ i → i < b → i % q.size ≢ b % q.size =
        λ i l u. mod_apart i b q.size u (omega arith) in
      record {
        valid = ground (arith, v.shape.mask b);
        effect = ap some (
            slots-same (element q) _ q.top (q.bottom - q.top)
              (λ i l u. ground (arith, v.shape.mask b, other i)));
        size = refl;
        modulo = refl;
        rises = omega arith;
        grows = ground arith;
        stays = λ _ l. ground (arith, v.shape.mask b, other q.top);
      }

  pub step-publishing :
      (x b : ℕ)
      → IsValid q (publishing x b)
      → Small (publishing x b)
      → Steps q (publishing x b) (owner_step q (publishing x b))
  unfolding owner_step apply contents
  step-publishing x b v small =
      let n = length-slots (element q) q.top (q.bottom - q.top) in
      let full =
        contents-snoc (record q { bottom = add_word b 1 }) idle b (omega arith) (omega arith) in
      record {
        valid = ground arith;
        effect = ground (arith, full, n, v.owner.2);
        size = refl;
        modulo = refl;
        rises = omega arith;
        grows = ground arith;
        stays = ground arith;
      }

  pub step-idle : IsValid q idle → Steps q idle (owner_step q idle)
  unfolding owner_step apply
  step-idle v = record {
    valid = v;
    effect = refl;
    size = refl;
    modulo = refl;
    rises = omega arith;
    grows = ground arith;
    stays = λ _ l. (l, refl);
  }
