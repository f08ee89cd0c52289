-- ===== src/WsDeque/Size.antt =====
-- rts/WSDeque.c: `roundUp2` and `newWSDeque`.
use native.Mathlib.Nat.{pow-suc, mul-le-mul_right}
use ghc_xapp_fix.Prelude.{
  ℕ, zero, suc, ◌-◌, ◌*◌, ◌/◌, ◌%◌, ◌^◌, ◌≤◌, ◌<◌, ◌≡◌, refl, ap, ◌∙◌, false, Option, some, arith,
  ◌==◌, Bool-cases, inl, inr,
}
use ghc_xapp_fix.Prelude.Words.{IsMask-pow}
use ghc_xapp_fix.WsDeque.{word, sub_word, round_up2_loop, round_up2, WsDeque, new_ws_deque, idle}
use ghc_xapp_fix.WsDeque.Valid.{IsValid}

-- `out` is `rounded` times the least power of 2 above `val`
record Rounds (rounded val : ℕ) (out : Option ℕ) : Type 0 where
  bits : ℕ
  run : out ≡ some (rounded * 2 ^ bits)
  lo : val < 2 ^ bits
  hi : 2 ^ bits ≤ 2 * val

Rounds-double :
    (rounded val : ℕ) (out : Option ℕ) → Rounds (rounded * 2) (val / 2) out → Rounds rounded val out
Rounds-double rounded val out r = record {
  bits = suc r.bits;
  run = r.run ∙ ap some (rw pow-suc (omega arith));
  lo = let l = r.lo in rw pow-suc (omega arith);
  hi = let h = r.hi in rw pow-suc (omega arith);
}

round_up2_loop_lem :
    (fuel rounded val : ℕ)
    → 0 < rounded
    → 0 < val
    → val ≤ fuel
    → rounded * (2 * val) < word
    → Rounds rounded val (round_up2_loop fuel rounded val)
unfolding round_up2_loop
round_up2_loop_lem zero rounded val pos some_bit le fits = absurd (omega arith)
round_up2_loop_lem (suc fuel) rounded val pos some_bit le fits =
    let twice : rounded * 2 % word ≡ rounded * 2 = grind arith in
    elim (Bool-cases (val / 2 == 0)) [
      | inl last ↦
          rw (last, twice) (record { bits = 1; run = refl; lo = ground arith; hi = ground arith })
      | inr more ↦
          let half : 0 < val / 2 = ground arith in
          let mono : 2 * (val / 2) * (rounded * 2) ≤ val * (rounded * 2) =
            mul-le-mul_right (rounded * 2) (omega arith) in
          rw (more, twice)
            (Rounds-double rounded val _ (
              round_up2_loop_lem fuel (rounded * 2) (val / 2) (omega arith) half (omega arith)
                (omega (arith, mono))))
    ]

-- Of a word that is not 0 and below 2 ^ 62, `roundUp2` returns a power of 2 that is above it, and
-- at most twice as large.
pub round_up2_lem :
    (val : ℕ)
    → 0 < val
    → val < 2 ^ 62
    → (k : ℕ) × (round_up2 val ≡ some (2 ^ k)) × (val < 2 ^ k) × (2 ^ k ≤ 2 * val)
unfolding round_up2
round_up2_lem val pos small =
    let some_bit : (val == 0) ≡ false = ground arith in
    let r = round_up2_loop_lem val 1 val (omega arith) pos (omega arith) (omega arith) in
    (r.bits, rw some_bit (r.run ∙ ap some (omega arith)), r.lo, r.hi)

-- `newWSDeque` where `roundUp2` gave `2 ^ k`
new_of_size :
    (k size : ℕ) (garbage : ℕ → ℕ)
    → round_up2 size ≡ some (2 ^ k)
    → size < 2 ^ k
    → 2 ^ k < 2 ^ 62
    → (q : WsDeque) × (new_ws_deque size garbage ≡ some q)
      × IsValid q idle
      × (q.top ≡ 0)
      × (q.bottom ≡ 0)
      × (size ≤ q.modulo_size)
unfolding new_ws_deque
new_of_size k size garbage run lo hi =
    let minus_one : sub_word (2 ^ k) 1 ≡ 2 ^ k - 1 = omega arith in
    (
      record {
        size = 2 ^ k;
        modulo_size = sub_word (2 ^ k) 1;
        top = 0;
        bottom = 0;
        top_bound = 0;
        elements = garbage;
      },
      rw (run, new_ws_deque),
      record {
        shape = record {
          mask = rw minus_one (IsMask-pow k);
          modulo = omega arith;
          small = omega arith;
        };
        ordered = omega arith;
        room = omega arith;
        bound = omega arith;
        owner = tt;
      },
      refl,
      refl,
      omega arith,
    )

-- For a 32-bit size that is not 0, `newWSDeque` gives a valid, empty deque, with room for at least
-- as many elements as were asked for.
pub new_ws_deque-IsValid :
    (size : ℕ) (garbage : ℕ → ℕ)
    → 0 < size
    → size < 2 ^ 32
    → (q : WsDeque) × (new_ws_deque size garbage ≡ some q)
      × IsValid q idle
      × (q.top ≡ 0)
      × (q.bottom ≡ 0)
      × (size ≤ q.modulo_size)
new_ws_deque-IsValid size garbage pos small =
    let (k, run, lo, hi) = round_up2_lem size pos (omega arith) in
    new_of_size k size garbage run lo (omega (arith, hi))
