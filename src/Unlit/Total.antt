-- ===== src/Unlit/Total.antt =====
-- utils/unlit/unlit.c: `unlit` ends on every script.
use mathlib.Core.Path.{subst}
use mathlib.Core.Bool.{true≢false}
use ghc_xapp_fix.Prelude.{
  ℕ, zero, suc, ◌+◌, ◌≤◌, ◌<◌, ◌≡◌, ◌≢◌, refl, ap, sym, ◌∙◌, Bool, true, false, not, Option, none,
  some, List, [], ◌∷◌, ◌++◌, ◌⊎◌, inl, inr, ◌==◌, if◌then◌else◌, length, starts_with, arith,
  Bool-cases, ◌>>=◌,
}
use ghc_xapp_fix.Unlit.{
  newline, Line, defn, hash, is_char, byte, Flags, Input, egetc, enough, Read, readline, read_from,
  read_sharp, read_hash, read_text, skip_shebang, copy_line, fgets, Copied, copy_code, end_code,
  State, note_line, code_block, same_line, begin, end, Done, go_on, unlit_loop, unlit,
}
use ghc_xapp_fix.Unlit.Tabs.{drop_line, IsStart, Gets, egetc-Gets, to_line_end_lem}
use ghc_xapp_fix.Unlit.Comments.{At, Gets-At, read_text_lem}
use ghc_xapp_fix.Unlit.Lines.{copy_line_lem}
use ghc_xapp_fix.Unlit.Script.{length-drop_line_le}
use ghc_xapp_fix.Unlit.Count.Round.{note_line_lem, nil_cases, readline-Ends}

-- a call of `readline`, or of a part of it, that ends at the start of a line, and does not go back
record Reads (n : ℕ) (r : Option Read) : Type 0 where
  read : Read
  run : r ≡ some read
  fresh : IsStart read.input
  size : length read.input.rest ≤ n

copy_line-Reads :
    (kind : Line) (out : List ℕ) (s : Input) → Reads (length s.rest) (copy_line kind out s)
copy_line-Reads kind out s =
    let m = copy_line_lem kind out s in
    record {
      read = m.read;
      run = m.run;
      fresh = m.fresh;
      size = omega (arith, ap length m.rest, length-drop_line_le s.rest);
    }

read_text-Reads :
    (next out : List ℕ) (f : Flags) (c : Option ℕ) (s : Input)
    → At next c s
    → Reads (length s.rest) (read_text f c out s)
unfolding read_text
read_text-Reads next out f c s at = elim (Bool-cases (is_char c b'>')) [
  | inl e ↦ rw e (copy_line-Reads defn (out ++ b' ' ∷ []) s)
  | inr e ↦
      let m = read_text_lem next out f c s at e in
      record { read = m.read; run = m.run; fresh = m.fresh; size = m.size }
]

read_hash-Reads :
    (next out : List ℕ) (f : Flags) (c : Option ℕ) (s : Input)
    → At next c s
    → Reads (length s.rest) (read_hash f c out s)
unfolding read_hash
read_hash-Reads next out f c s at = elim (Bool-cases f.leavecpp) [
  | inl e ↦ rw e (copy_line-Reads hash (out ++ byte c ∷ []) s)
  | inr e ↦ rw e (read_text-Reads next out f c s at)
]

Reads-le : {n m : ℕ} {r : Option Read} → Reads n r → n ≤ m → Reads m r
Reads-le r h = record { read = r.read; run = r.run; fresh = r.fresh; size = omega (arith, r.size) }

skip_shebang-Reads : (s : Input) → Reads (length s.rest) (skip_shebang s)
unfolding skip_shebang
skip_shebang-Reads s =
    let m = to_line_end_lem (enough s) s (omega arith) in
    rw m.run (record { read = _; run = refl; fresh = m.fresh; size = m.size })

read_sharp-Reads :
    (f : Flags) (s : Input)
    → At (drop_line s.rest) (some b'#') s
    → Reads (length s.rest) (read_sharp f s)
unfolding read_sharp
read_sharp-Reads f s at =
    let r = egetc s in
    let g = Gets-At s r.0 r.1 (drop_line s.rest) (egetc-Gets s) refl in
    elim (Bool-cases (not f.ignore_shebang)) [
      | inl e ↦ rw e (read_hash-Reads (drop_line s.rest) [] f (some b'#') s at)
      | inr e ↦ elim (Bool-cases (is_char r.0 b'!')) [
        | inl bang ↦ rw (e, bang) (Reads-le (skip_shebang-Reads r.1) g.2)
        | inr other ↦
            rw (e, other)
              (Reads-le (read_hash-Reads (drop_line s.rest) (b'#' ∷ []) f r.0 r.1 g.0) g.2)
      ]
    ]

shorter :
    (s : Input) (c : ℕ) (s' : Input)
    → Gets s (some c) s'
    → s.spleft ≡ 0
    → length s'.rest < length s.rest
shorter s c s' (inl g) left = omega (arith, g.4)
shorter s c s' (inr g) left = omega (arith, g.3, left)

sharp-At :
    (s s' : Input) (c : ℕ)
    → Gets s (some c) s'
    → (c == b'#') ≡ true
    → At (drop_line s'.rest) (some b'#') s'
sharp-At s s' c g e = inr (omega arith, refl)

read_from-Reads :
    (f : Flags) (s : Input) (c : Option ℕ) (s' : Input)
    → Gets s c s'
    → s.spleft ≡ 0
    → s.rest ≢ []
    → Reads (length s'.rest) (read_from f c s') × (length s'.rest < length s.rest)
unfolding read_from
read_from-Reads f s none s' g left ne = absurd (ne g.0)
read_from-Reads f s (some c) s' g left ne =
    let at = Gets-At s (some c) s' (drop_line s.rest) g refl in
    (
      elim (Bool-cases (c == b'#')) [
        | inl e ↦ rw e (read_sharp-Reads f s' (sharp-At s s' c g e))
        | inr e ↦ rw e (read_text-Reads (drop_line s.rest) [] f (some c) s' at.0)
      ],
      shorter s c s' g left,
    )

-- the characters that the loop for the code reads
length-fgets : (n : ℕ) (cs : List ℕ) → length (fgets n cs).1 ≤ length cs
unfolding fgets
length-fgets zero cs = omega arith
length-fgets (suc n) [] = omega arith
length-fgets (suc n) (c ∷ cs) = elim (Bool-cases (c == newline)) [
  | inl e ↦ rw e (omega arith)
  | inr e ↦ rw e (omega (arith, length-fgets n cs))
]

fgets_less : (n c : ℕ) (cs : List ℕ) → length (fgets (suc n) (c ∷ cs)).1 ≤ length cs
unfolding fgets
fgets_less n c cs = elim (Bool-cases (c == newline)) [
  | inl e ↦ rw e (omega arith)
  | inr e ↦ rw e (length-fgets n cs)
]

record Ended (n : ℕ) (r : Option Copied) : Type 0 where
  copied : Copied
  run : r ≡ some copied
  size : length copied.rest ≤ n
  at_end : n ≡ 0 → copied.closed ≡ false

copy_code-more :
    (n linesread : ℕ) (r : List ℕ × List ℕ) (more : Option Copied)
    → length r.1 ≤ n
    → Ended (length r.1) more
    → Ended (suc n) (
        if starts_with end_code r.0
        then some
            (record { closed = true; linesread = linesread; written = newline ∷ []; rest = r.1 })
        else more >>= (λ m. some (record m { written = r.0 ++ m.written })))
copy_code-more n linesread r more h m = elim (Bool-cases (starts_with end_code r.0)) [
  | inl e ↦ rw e (record {
    copied = _;
    run = refl;
    size = omega arith;
    at_end = λ z. absurd (omega (arith, z));
  })
  | inr e ↦
      rw (e, m.run)
        (record {
          copied = _;
          run = refl;
          size = omega (arith, m.size);
          at_end = λ z. absurd (omega (arith, z));
        })
]

less_fuel : (a b fuel : ℕ) → a ≤ b → suc b < suc fuel → a < fuel
less_fuel a b fuel h h' = omega arith

copy_code-Ended :
    (fuel linesread : ℕ) (cs : List ℕ)
    → length cs < fuel
    → Ended (length cs) (copy_code fuel linesread cs)
unfolding copy_code
copy_code-Ended zero linesread cs h = absurd (omega arith)
copy_code-Ended (suc fuel) linesread [] h = record {
  copied = record { closed = false; linesread = linesread; written = []; rest = [] };
  run = refl;
  size = omega arith;
  at_end = λ _. refl;
}
copy_code-Ended (suc fuel) linesread (c ∷ cs) h =
    let r = fgets 999 (c ∷ cs) in
    let less = fgets_less 998 c cs in
    copy_code-more (length cs) (linesread + 1) r (copy_code fuel (linesread + 1) r.1) less
      (copy_code-Ended fuel (linesread + 1) r.1 (less_fuel _ _ fuel less h))

-- where the body of the loop ends
abbrev Stands : ℕ → Done ⊎ State → Type 0
Stands n (inl d) = Unit
Stands n (inr s) = IsStart s.input × (length s.input.rest ≤ n)

record Body (n : ℕ) (r : Option (Done ⊎ State)) : Type 0 where
  after : Done ⊎ State
  run : r ≡ some after
  stands : Stands n after

length-nil : (cs : List ℕ) → cs ≡ [] → length cs ≡ 0
length-nil cs e = ap length e

code_block-Body :
    (f : Flags) (s : State) → IsStart s.input → Body (length s.input.rest) (code_block f s)
unfolding code_block
code_block-Body f s fresh =
    let m = copy_code-Ended (suc (length s.input.rest)) s.linesread s.input.rest (omega arith) in
    elim (Bool-cases m.copied.closed) [
      | inl closed ↦
          rw (m.run, closed)
            (record {
              after = _;
              run = refl;
              stands = (
                (
                  fresh.0,
                  elim fresh.1 [
                    | inl zero_col ↦ inl zero_col
                    | inr e ↦
                        absurd (true≢false (sym closed ∙ m.at_end (length-nil s.input.rest e)))
                  ],
                ),
                m.size,
              );
            })
      | inr missing ↦ rw (m.run, missing) (record { after = _; run = refl; stands = tt })
    ]

abbrev Stops : Option Done → Type 0
Stops r = (d : Done) × (r ≡ some d)

go_on-Stops :
    (n : ℕ) (at_end : Bool) (f : Flags) (loop : State → Option Done) (after : Done ⊎ State)
    → Stands n after
    → ((s : State) → IsStart s.input → length s.input.rest ≤ n → Stops (loop s))
    → Stops (go_on at_end f loop after)
unfolding go_on
go_on-Stops n at_end f loop (inl d) h more = (d, refl)
go_on-Stops n true f loop (inr s) h more = (_, refl)
go_on-Stops n false f loop (inr s) h more = more s h.0 h.1

-- the body after `readline`
line-Body :
    (f : Flags) (s : State) (r : Read)
    → IsStart r.input
    → let s' = note_line f s r in
      Body (length r.input.rest) (if same_line r.line begin then code_block f s' else some (inr s'))
line-Body f s r fresh =
    let n = note_line_lem f s r in
    let t = note_line f s r in
    let start : IsStart t.input = subst IsStart (sym n.1) fresh in
    let size : length t.input.rest ≡ length r.input.rest = ap (λ i. length i.rest) n.1 in
    elim (Bool-cases (same_line r.line begin)) [
      | inl e ↦ rw e (subst (λ k. Body k (code_block f t)) size (code_block-Body f t start))
      | inr e ↦ rw e (record { after = inr t; run = refl; stands = (start, omega (arith, size)) })
    ]

loop_end-Stops :
    (fuel : ℕ) (f : Flags) (s : State)
    → IsStart s.input
    → s.input.rest ≡ []
    → Stops (unlit_loop (suc fuel) f s)
unfolding unlit_loop go_on
loop_end-Stops fuel f s fresh e =
    let m = readline-Ends f s.input fresh.0 e in rw (m.run, m.line) (_, refl)

unlit_loop-Stops :
    (fuel : ℕ) (f : Flags) (s : State)
    → IsStart s.input
    → length s.input.rest < fuel
    → Stops (unlit_loop fuel f s)
unfolding unlit_loop readline
unlit_loop-Stops zero f s fresh h = absurd (omega arith)
unlit_loop-Stops (suc fuel) f s fresh h = elim (nil_cases s.input.rest) [
  | inl e ↦ loop_end-Stops fuel f s fresh e
  | inr ne ↦
      let r = egetc s.input in
      let m = read_from-Reads f s.input r.0 r.1 (egetc-Gets s.input) fresh.0 ne in
      let b = line-Body f s m.0.read m.0.fresh in
      rw (m.0.run, b.run)
        (go_on-Stops (length m.0.read.input.rest) (same_line m.0.read.line end) f
          (unlit_loop fuel f) b.after b.stands
          (λ t start small. unlit_loop-Stops fuel f t start (omega (arith, m.0.size, m.1, small))))
]

-- The run of `unlit` ends, whatever the flags and the script are: the fuel is enough.
pub unlit-Stops : (f : Flags) (cs : List ℕ) → (d : Done) × (unlit f cs ≡ some d)
unfolding unlit
unlit-Stops f cs = unlit_loop-Stops (length cs + 2) f _ (refl, inl refl) (omega arith)
