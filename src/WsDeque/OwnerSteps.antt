-- ===== src/WsDeque/OwnerSteps.antt =====
-- rts/WSDeque.c: the steps of `popWSDeque` and `pushWSDeque`.
pub mod Base
mod Pop
mod Push
use ghc_xapp_fix.Prelude.{◌^◌, ◌<◌}
use ghc_xapp_fix.WsDeque.{
  WsDeque, Owner, idle, pop_start, popping, restoring, claiming, settling, push_start, checking,
  writing, publishing, owner_step,
}
use ghc_xapp_fix.WsDeque.Valid.{end_of, IsValid}
use ghc_xapp_fix.WsDeque.OwnerSteps.Base.{Steps}
use ghc_xapp_fix.WsDeque.OwnerSteps.Pop.{
  step-pop_start, step-popping, step-restoring, step-claiming, step-settling,
}
use ghc_xapp_fix.WsDeque.OwnerSteps.Push.{
  step-push_start, step-checking, step-writing, step-publishing, step-idle,
}

-- Every step of the owner, at a valid deque that ends below 2 ^ 62, keeps the deque valid and its
-- size, changes its list as the event of the step says, does not lower `top`, and leaves the
-- element at `top` in place as long as `top` stays.
pub owner_step-Steps :
    (q : WsDeque) (p : Owner) → IsValid q p → end_of q p < 2 ^ 62 → Steps q p (owner_step q p)
unfolding owner_step
owner_step-Steps q idle v small = step-idle q v
owner_step-Steps q pop_start v small = step-pop_start q v small
owner_step-Steps q (popping b) v small = step-popping q b v small
owner_step-Steps q (restoring t) v small = step-restoring q t v
owner_step-Steps q (claiming t x) v small = step-claiming q t x v small
owner_step-Steps q (settling t) v small = step-settling q t v small
owner_step-Steps q (push_start x) v small = step-push_start q x v small
owner_step-Steps q (checking x b) v small = step-checking q x b v small
owner_step-Steps q (writing x b) v small = step-writing q x b v small
owner_step-Steps q (publishing x b) v small = step-publishing q x b v small
