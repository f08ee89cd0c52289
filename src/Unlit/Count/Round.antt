-- ===== src/Unlit/Count/Round.antt =====
-- utils/unlit/unlit.c: one round of the loop of `unlit`, and the lines that it reads and writes.
use mathlib.Core.Path.{subst}
use mathlib.Core.Bool.{true≢false}
use ghc_xapp_fix.Prelude.{
  ℕ, suc, ◌+◌, ◌<◌, ◌≡◌, ◌≢◌, refl, ap, sym, ◌∙◌, Bool, true, false, Option, none, some, List, [],
  ◌∷◌, ◌++◌, ◌&&◌, ◌⊎◌, inl, inr, ◌==◌, if◌then◌else◌, length, All, starts_with, arith, Bool-cases,
}
use ghc_xapp_fix.Unlit.{
  newline, begin, end, text, defn, shebang, Flags, Input, Read, readline, same_line, State, Message,
  missing_blank, empty_script, complain, note_line, code_block, Done, finish, go_on, egetc,
  read_from,
}
use ghc_xapp_fix.Unlit.Tabs.{
  Gets, egetc-Gets, spaces, line_of, drop_line, expand, line_text, IsStart,
}
use ghc_xapp_fix.Unlit.Comments.{comment_kind, strip_left}
use ghc_xapp_fix.Unlit.Lines.{line_kind, written_for, written_for-comment}
use ghc_xapp_fix.Unlit.Script.{
  lines_of, newlines, IsOrdinary, newlines-append, newlines-line_text, lines_of_lem,
  length-drop_line, lines_of-IsOrdinary, copy_code_lem,
}

-- `complain` and the tests of a line write nothing.
complain_lem :
    (f : Flags) (s : State) (lin : ℕ) (what : Message)
    → ((complain f s lin what).written ≡ s.written) × ((complain f s lin what).input ≡ s.input)
unfolding complain
complain_lem f s lin what = elim (Bool-cases f.noisy) [
  | inl e ↦ rw e (refl, refl)
  | inr e ↦ rw e (refl, refl)
]

complain_if :
    (f : Flags) (b : Bool) (s : State) (lin : ℕ) (what : Message)
    → let s' = if b then complain f s lin what else s in
      (s'.written ≡ s.written) × (s'.input ≡ s.input)
complain_if f true s lin what = complain_lem f s lin what
complain_if f false s lin what = (refl, refl)

pub note_line_lem :
    (f : Flags) (s : State) (r : Read)
    → ((note_line f s r).written ≡ s.written ++ r.written) × ((note_line f s r).input ≡ r.input)
unfolding note_line
note_line_lem f s r =
    let c = complain_if f (same_line s.this defn && same_line r.line text) _ _ missing_blank in
    let d = complain_if f (same_line s.this text && same_line r.line defn) _ _ missing_blank in
    (d.0 ∙ c.0, d.1 ∙ c.1)

test-end : (b : Bool) → same_line (if b then begin else text) end ≡ false
test-end true = refl
test-end false = refl

comment_kind-end : (w : List ℕ) → same_line (comment_kind w) end ≡ false
unfolding comment_kind
comment_kind-end [] = refl
comment_kind-end (c ∷ cs) = test-end _

-- For a line of the script, `readline` writes one newline.
pub one_newline :
    (w : List ℕ)
    → newlines w ≡ 0
    → line_kind w ≢ shebang
    → (newlines (written_for false (line_kind w) w) ≡ 1) × (same_line (line_kind w) end ≡ false)
unfolding newlines line_kind
one_newline [] h unlike = (omega arith, refl)
one_newline (c ∷ cs) h unlike = elim (Bool-cases (c == b'>')) [
  | inl e ↦ rw e (omega (arith, newlines-append cs (newline ∷ [])), refl)
  | inr e ↦ elim (Bool-cases (c == b'#')) [
    | inl e' ↦ elim (Bool-cases (starts_with (b'!' ∷ []) cs)) [
      | inl bang ↦ absurd (unlike (rw (e, e') (rw bang refl)))
      | inr other ↦
          rw (e, e') (rw other (omega (arith, newlines-append (c ∷ cs) (newline ∷ [])), refl))
    ]
    | inr e' ↦
        rw (e, e')
          (
            ap newlines (written_for-comment false (strip_left (c ∷ cs)) (c ∷ cs)) ∙ omega arith,
            comment_kind-end (strip_left (c ∷ cs)),
          )
  ]
]

-- The run from a state on: it ends, and unless `\end{code}` is missing, a newline is written for each
-- line that is left.
pub record Runs (s : State) (r : Option Done) : Type 0 where
  pub done : Done
  pub run : r ≡ some done
  pub counts :
      done.exited ≡ false
      → newlines done.state.written ≡ newlines s.written + length (lines_of s.input.rest)

-- what the rest of a run needs
pub record IsReady (fuel : ℕ) (s : State) : Type 0 where
  pub start : IsStart s.input
  pub ordinary : All IsOrdinary (lines_of s.input.rest)
  pub enough : length s.input.rest < fuel

-- the state of the run has reached a new line, and the count is kept
abbrev pub Continues : ℕ → State → Done ⊎ State → Type 0
Continues fuel s (inl d) = d.exited ≡ true
Continues fuel s (inr s') =
    IsReady fuel s'
    × (newlines s'.written + length (lines_of s'.input.rest)
        ≡ newlines s.written + length (lines_of s.input.rest))

-- the code after a `\begin{code}` line
pub record Blocks (fuel : ℕ) (s : State) (r : Option (Done ⊎ State)) : Type 0 where
  pub after : Done ⊎ State
  pub run : r ≡ some after
  pub what : Continues fuel s after

pub code_block_lem :
    (fuel : ℕ) (f : Flags) (s : State) → IsReady fuel s → Blocks fuel s (code_block f s)
unfolding code_block
code_block_lem fuel f s ready =
    let m =
      copy_code_lem (suc (length s.input.rest)) s.linesread s.input.rest (omega arith)
        ready.ordinary in
    elim (Bool-cases m.copied.closed) [
      | inl closed ↦
          rw (m.run, closed)
            (record {
              after = _;
              run = refl;
              what = (
                record {
                  start = (
                    ready.start.0,
                    elim ready.start.1 [
                      | inl zero_col ↦ inl zero_col
                      | inr at_end ↦ absurd (true≢false (sym closed ∙ m.at_end at_end))
                    ],
                  );
                  ordinary = m.ordinary;
                  enough = omega (arith, m.size, ready.enough);
                },
                omega (arith, m.counts closed, newlines-append s.written m.copied.written),
              );
            })
      | inr missing ↦ rw (m.run, missing) (record { after = _; run = refl; what = refl })
    ]

pub go_on_lem :
    (fuel : ℕ) (f : Flags) (s s' : State) (loop : State → Option Done) (after : Done ⊎ State)
    → newlines s'.written + length (lines_of s'.input.rest)
      ≡ newlines s.written + length (lines_of s.input.rest)
    → Continues fuel s' after
    → ((t : State) → IsReady fuel t → Runs t (loop t))
    → Runs s (go_on false f loop after)
unfolding go_on
go_on_lem fuel f s s' loop (inl d) same exits more = record {
  done = d;
  run = refl;
  counts = λ e. absurd (true≢false (sym exits ∙ e));
}
go_on_lem fuel f s s' loop (inr t) same c more =
    let m = more t c.0 in
    record { done = m.done; run = m.run; counts = λ e. omega (arith, m.counts e, c.1, same) }

-- the state after a line of the script
pub line_noted :
    (fuel : ℕ) (f : Flags) (s : State) (r : Read)
    → f.crunchnl ≡ false
    → s.input.rest ≢ []
    → IsReady (suc fuel) s
    → r.written ≡ written_for f.crunchnl (line_kind (line_text s.input)) (line_text s.input)
    → IsStart r.input
    → r.input.rest ≡ drop_line s.input.rest
    → line_kind (line_text s.input) ≢ shebang
    → IsReady fuel (note_line f s r)
      × (newlines (note_line f s r).written + length (lines_of (note_line f s r).input.rest)
          ≡ newlines s.written + length (lines_of s.input.rest))
line_noted fuel f s r crunch ne ready wrote fresh rest unlike =
    let n = note_line_lem f s r in
    let w = line_text s.input in
    let one = (one_newline w (newlines-line_text s.input) unlike).0 in
    let wrote' : r.written ≡ written_for false (line_kind w) w =
      wrote ∙ ap (λ b. written_for b (line_kind w) w) crunch in
    let left : (note_line f s r).input.rest ≡ drop_line s.input.rest =
      ap (λ i. i.rest) n.1 ∙ rest in
    let less = length-drop_line s.input.rest ne in
    let lines = ap length (lines_of_lem s.input.rest ne) in
    (
      record {
        start = subst IsStart (sym n.1) fresh;
        ordinary =
            subst (λ cs. All IsOrdinary (lines_of cs)) (sym left)
              (lines_of-IsOrdinary s.input.rest ne ready.ordinary).1;
        enough = omega (arith, ap length left, less, ready.enough);
      },
      omega (
        arith,
        ap newlines n.0,
        newlines-append s.written r.written,
        ap newlines wrote',
        one,
        lines,
        ap (λ cs. length (lines_of cs)) left,
      ),
    )

-- At the end of the script, `readline` returns `END`.
pub record Ends (r : Option Read) : Type 0 where
  pub read : Read
  pub run : r ≡ some read
  pub line : read.line ≡ end
  pub written : read.written ≡ []

read_end :
    (f : Flags) (s : Input) (c : Option ℕ) (s' : Input)
    → Gets s c s'
    → s.spleft ≡ 0
    → s.rest ≡ []
    → Ends (read_from f c s')
unfolding read_from
read_end f s none s' g left e = record { read = _; run = refl; line = refl; written = refl }
read_end f s (some c) s' (inl g) left e = absurd (omega (arith, g.4, ap length e))
read_end f s (some c) s' (inr g) left e = absurd (omega (arith, g.3, left, ap length e))

pub readline-Ends : (f : Flags) (s : Input) → s.spleft ≡ 0 → s.rest ≡ [] → Ends (readline f s)
unfolding readline
readline-Ends f s left e = read_end f s (egetc s).0 (egetc s).1 (egetc-Gets s) left e

pub finish_lem : (f : Flags) (s : State) → (finish f s).state.written ≡ s.written
unfolding finish
finish_lem f s = (complain_if f (s.defnsread == 0) s s.linesread empty_script).0

-- the line that `readline` meets at the start of a line
pub line_text-start :
    (s : Input) → IsStart s → s.rest ≢ [] → line_text s ≡ expand 0 (line_of s.rest)
unfolding line_text spaces
line_text-start s (left, inl col) ne = rw (left, col) refl
line_text-start s (left, inr e) ne = absurd (ne e)

pub nil_cases : (cs : List ℕ) → (cs ≡ []) ⊎ (cs ≢ [])
nil_cases [] = inl refl
nil_cases (c ∷ cs) = inr (λ e. omega (arith, ap length e))
