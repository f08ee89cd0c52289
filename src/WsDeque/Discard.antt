-- ===== src/WsDeque/Discard.antt =====
-- rts/WSDeque.h: `discardElements`.
use ghc_xapp_fix.Prelude.{◌≡◌, [], arith}
use ghc_xapp_fix.WsDeque.{WsDeque, idle, discard_elements}
use ghc_xapp_fix.WsDeque.Valid.{contents, IsValid}
use ghc_xapp_fix.WsDeque.OwnerSteps.Base.{contents-nil}

-- `discardElements` on a valid deque whose owner is idle leaves a valid deque without elements.
pub discard_elements-IsValid :
    (q : WsDeque)
    → IsValid q idle
    → IsValid (discard_elements q) idle × (contents (discard_elements q) idle ≡ [])
unfolding discard_elements
discard_elements-IsValid q v = (
  record {
    shape = record { mask = v.shape.mask; modulo = v.shape.modulo; small = v.shape.small };
    ordered = omega arith;
    room = omega arith;
    bound = omega (arith, v.bound, v.ordered);
    owner = tt;
  },
  contents-nil (discard_elements q) idle (omega arith),
)
