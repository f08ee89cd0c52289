-- ===== src/WsDeque.antt =====
-- rts/WSDeque.c and rts/WSDeque.h: the work-stealing deque of Chase and Lev, as its owner and any
-- number of thieves run it. One step is one access to memory that the threads share; accesses are
-- sequentially consistent, which is what the barriers of the code are there for. `elements` is only
-- written, and `topBound` only used, by the owner.
-- A `StgWord` is a number below 2 ^ 64 with its wrap written out; `signed` puts words in the order of
-- their readings as `long`.
pub mod Size
pub mod Words
pub mod Spec
pub mod Valid
pub mod OwnerSteps
pub mod ThiefSteps
pub mod Safety
pub mod Discard
pub mod Linear
mod Tests
use Prim.Native.Nat.{bit_and}
use ghc_xapp_fix.Prelude.{
  ℕ, zero, suc, ◌+◌, ◌-◌, ◌*◌, ◌/◌, ◌%◌, ◌^◌, Bool, true, false, not, Option, none, some, List, [],
  ◌∷◌, ltb, leb, ◌==◌, if◌then◌else◌, update,
}

abbrev pub word : ℕ
word = 2 ^ 64

-- `(long)w`, shifted by 2 ^ 63
abbrev pub signed : ℕ → ℕ
signed w = (w + 2 ^ 63) % word

abbrev pub sub_word : ℕ → ℕ → ℕ
sub_word a b = (a + word - b) % word

abbrev pub add_word : ℕ → ℕ → ℕ
add_word a b = (a + b) % word

-- `WSDeque`; an element is the address of a closure
pub record WsDeque : Type 0 where
  pub size : ℕ
  pub modulo_size : ℕ
  pub top : ℕ
  pub bottom : ℕ
  pub top_bound : ℕ
  pub elements : ℕ → ℕ

-- `roundUp2`: the loop with fuel; `none` stands for `barf`, and for fuel that ran out
pub round_up2_loop : ℕ → ℕ → ℕ → Option ℕ
round_up2_loop zero rounded val = none
round_up2_loop (suc fuel) rounded val =
    let rest = round_up2_loop fuel (rounded * 2 % word) (val / 2) in
    if val / 2 == 0 then some (rounded * 2 % word) else rest

pub round_up2 : ℕ → Option ℕ
unfolding round_up2_loop
round_up2 val = if val == 0 then none else round_up2_loop val 1 val

-- `newWSDeque`; the new array holds what `malloc` left there
pub new_ws_deque : ℕ → (ℕ → ℕ) → Option WsDeque
new_ws_deque size garbage = elim (round_up2 size) [
  | none ↦ none
  | some realsize ↦ some (record {
    size = realsize;
    modulo_size = sub_word realsize 1;
    top = 0;
    bottom = 0;
    top_bound = 0;
    elements = garbage;
  })
]

pub looks_empty : WsDeque → Bool
looks_empty q = leb (signed q.bottom) (signed q.top)

-- `discardElements`, which only the owner may call, and only while no thief runs
pub discard_elements : WsDeque → WsDeque
discard_elements q = record q { top = q.bottom }

-- Where the owner stands in `popWSDeque` or `pushWSDeque`, with the locals that are live.
pub data Owner : Type 0 where
  idle : Owner
  pop_start : Owner
  popping : (b : ℕ) → Owner  -- `bottom` is written, `top` not yet read
  restoring : (t : ℕ) → Owner  -- was empty
  claiming : (t removed : ℕ) → Owner  -- before the cas for the last element
  settling : (t : ℕ) → Owner  -- after the cas
  push_start : (elem : ℕ) → Owner
  checking : (elem b : ℕ) → Owner  -- before the read of the real `top`
  writing : (elem b : ℕ) → Owner
  publishing : (elem b : ℕ) → Owner

-- Where a thief stands in `stealWSDeque_`, or in the loop of `stealWSDeque` around it.
pub data Thief : Type 0 where
  away : Thief
  stealing : Thief
  got_top : (t : ℕ) → Thief
  got_bottom : (t : ℕ) → Thief
  got_element : (t stolen : ℕ) → Thief
  failed : Thief  -- `stealWSDeque_` returned `NULL`
  looking : (t : ℕ) → Thief  -- in `looksEmptyWSDeque`

-- What a step decides: an element goes in or out, or an operation finds the deque full or empty.
pub data Event : Type 0 where
  silent : Event
  pushed : (elem : ℕ) → Event
  refused : Event  -- `pushWSDeque` returns false
  popped : (elem : ℕ) → Event
  nothing : Event  -- `popWSDeque` returns `NULL`
  stolen : (elem : ℕ) → Event

pub record Outcome (P : Type 0) : Type 0 where
  pub deque : WsDeque
  pub pc : P
  pub event : Event

abbrev pub outcome : {P : Type 0} → WsDeque → P → Event → Outcome P
outcome q p e = record { deque = q; pc = p; event = e }

-- `popWSDeque` after the read of `top`
pub pop_decide : WsDeque → ℕ → ℕ → Outcome Owner
pop_decide q b t =
    let q' = record q { top_bound = t } in
    let removed = q.elements (bit_and b q.modulo_size) in
    if ltb (signed b) (signed t)
    then outcome q' (restoring t) nothing
    else if ltb (signed t) (signed b)
    then outcome q' idle (popped removed)
    else outcome q' (claiming t removed) silent

-- the test that starts `pushWSDeque`
pub push_decide : WsDeque → ℕ → ℕ → ℕ → Outcome Owner
push_decide q elem b t =
    if leb (signed t + q.modulo_size) (signed b)
    then outcome q (checking elem b) silent
    else outcome q (writing elem b) silent

-- the test with the real `top`
pub push_check : WsDeque → ℕ → ℕ → ℕ → Outcome Owner
push_check q elem b t =
    let q' = record q { top_bound = t } in
    if leb q.modulo_size (sub_word b t)
    then outcome q' idle refused
    else outcome q' (writing elem b) silent

pub owner_step : WsDeque → Owner → Outcome Owner
unfolding pop_decide push_decide push_check
owner_step q idle = outcome q idle silent
owner_step q pop_start =
    let b = sub_word q.bottom 1 in outcome (record q { bottom = b }) (popping b) silent
owner_step q (popping b) = pop_decide q b q.top
owner_step q (restoring t) = outcome (record q { bottom = t }) idle silent
owner_step q (claiming t removed) =
    if q.top == t
    then outcome (record q { top = add_word t 1 }) (settling t) (popped removed)
    else outcome q (settling t) nothing
owner_step q (settling t) =
    outcome (record q { bottom = add_word t 1; top_bound = add_word t 1 }) idle silent
owner_step q (push_start elem) = push_decide q elem q.bottom q.top_bound
owner_step q (checking elem b) = push_check q elem b q.top
owner_step q (writing elem b) =
    outcome (record q { elements = update q.elements (bit_and b q.modulo_size) elem })
      (publishing elem b) silent
owner_step q (publishing elem b) = outcome (record q { bottom = add_word b 1 }) idle (pushed elem)

pub thief_step : WsDeque → Thief → Outcome Thief
thief_step q away = outcome q away silent
thief_step q stealing = outcome q (got_top q.top) silent
thief_step q (got_top t) =
    if leb (signed q.bottom) (signed t)
    then outcome q failed silent
    else outcome q (got_bottom t) silent
thief_step q (got_bottom t) =
    outcome q (got_element t (q.elements (bit_and t q.modulo_size))) silent
thief_step q (got_element t x) =
    if q.top == t
    then outcome (record q { top = add_word t 1 }) away (stolen x)
    else outcome q failed silent
thief_step q failed = outcome q (looking q.top) silent
thief_step q (looking t) =
    if leb (signed q.bottom) (signed t) then outcome q away silent else outcome q stealing silent

-- The deque and its threads, with the events so far, the newest first.
pub record System : Type 0 where
  pub deque : WsDeque
  pub owner : Owner
  pub thieves : ℕ → Thief
  pub log : List Event

abbrev pub after_owner : System → System
after_owner s =
    let r = owner_step s.deque s.owner in
    record s { deque = r.deque; owner = r.pc; log = r.event ∷ s.log }

abbrev pub after_thief : System → ℕ → System
after_thief s i =
    let r = thief_step s.deque (s.thieves i) in
    record s { deque = r.deque; thieves = update s.thieves i r.pc; log = r.event ∷ s.log }
