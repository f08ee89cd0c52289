-- ===== src/WsDeque/Tests.antt =====
-- rts/WSDeque.c: a run of an owner that pushes and a thief that steals, and the theorems at it.
use ghc_xapp_fix.Prelude.{◌+◌, ◌^◌, ◌<◌, ◌≡◌, refl, some, [], ◌∷◌, arith, update}
use ghc_xapp_fix.Prelude.Words.{IsMask-pow}
use ghc_xapp_fix.WsDeque.{
  WsDeque, idle, push_start, popping, stealing, System, after_owner, after_thief, owner_step,
  thief_step, round_up2,
}
use ghc_xapp_fix.WsDeque.Spec.{replay, put_in, taken_out}
use ghc_xapp_fix.WsDeque.Valid.{IsValid, contents}
use ghc_xapp_fix.WsDeque.OwnerSteps.{owner_step-Steps}
use ghc_xapp_fix.WsDeque.OwnerSteps.Base.{Steps}
use ghc_xapp_fix.WsDeque.Safety.{
  Reach, start, later, begin_push, begin_steal, own, rob, init, IsNew, pushes,
}
use ghc_xapp_fix.WsDeque.Linear.{count, log-contents, put_in-taken_out}

-- a deque for three elements
abbrev three : WsDeque
three = record { size = 4; modulo_size = 3; top = 0; bottom = 0; top_bound = 0; elements = λ _. 0 }

three-IsValid : IsValid three idle
three-IsValid = record {
  shape = record { mask = IsMask-pow 2; modulo = refl; small = omega arith };
  ordered = omega arith;
  room = omega arith;
  bound = omega arith;
  owner = tt;
}

three-IsNew : IsNew three
three-IsNew = record { valid = three-IsValid; top = refl; bottom = refl }

abbrev beginning : System
beginning = record (init three) { owner = push_start 7 }

abbrev with_one : System
with_one = after_owner (after_owner (after_owner beginning))

abbrev robbing : System
robbing = record with_one { thieves = update with_one.thieves 0 stealing }

abbrev robbed : System
robbed = after_thief (after_thief (after_thief (after_thief robbing 0) 0) 0) 0

robbed-Reach : Reach three robbed
unfolding owner_step thief_step
robbed-Reach =
    later
      (later
        (later
          (later
            (later (later (later (later (later start (begin_push 7 refl)) own) own) own)
              (begin_steal 0 refl))
            (rob 0))
          (rob 0))
        (rob 0))
      (rob 0)

robbed_few : pushes robbed < 2 ^ 62
unfolding owner_step thief_step put_in
robbed_few = omega arith

-- The thief has the element that the owner pushed.
robbed_taken : taken_out robbed.log ≡ 7 ∷ []
unfolding owner_step thief_step taken_out
robbed_taken = refl

log-contents_example :
    replay three.modulo_size robbed.log ≡ some (contents robbed.deque robbed.owner)
log-contents_example = log-contents three robbed three-IsNew robbed-Reach robbed_few

put_in-taken_out_example :
    count 7 (put_in robbed.log)
    ≡ count 7 (taken_out robbed.log) + count 7 (contents robbed.deque robbed.owner)
put_in-taken_out_example = put_in-taken_out three robbed three-IsNew robbed-Reach robbed_few 7

-- the deque with 7 at index 0, and the owner after the decrement of `popWSDeque`
abbrev last_one : WsDeque
last_one = record three { elements = λ _. 7 }

last_one-IsValid : IsValid last_one (popping 0)
last_one-IsValid = record {
  shape = record { mask = IsMask-pow 2; modulo = refl; small = omega arith };
  ordered = omega arith;
  room = omega arith;
  bound = omega arith;
  owner = omega arith;
}

owner_step-Steps_example : Steps last_one (popping 0) (owner_step last_one (popping 0))
owner_step-Steps_example = owner_step-Steps last_one (popping 0) last_one-IsValid (omega arith)

round_up2_of_nine : round_up2 9 ≡ some 16
unfolding round_up2
round_up2_of_nine = refl
