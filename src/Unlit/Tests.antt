-- ===== src/Unlit/Tests.antt =====
-- utils/unlit/unlit.c: runs on small scripts, and the theorems at these.
use mathlib.Core.Bool.{false≢true}
use ghc_xapp_fix.Prelude.{
  ap, Bool, All, ℕ, ◌≡◌, refl, true, false, none, some, List, [], ◌∷◌, ◌++◌, length, arith,
}
use ghc_xapp_fix.Unlit.{
  newline, Line, hash, shebang, Read, Done, egetc, getc, to_line_end, readline, read_from,
  read_text, copy_line, skip_white, read_comment, read_buf, trim, open_input, note_line, go_on,
  finish, unlit_loop, unlit,
}
use ghc_xapp_fix.Unlit.Tabs.{line_of, drop_line, expand, line_text, spaces}
use ghc_xapp_fix.Unlit.Comments.{strip_left, comment_kind}
use ghc_xapp_fix.Unlit.Lines.{line_kind, ReadsLine, readline-ReadsLine}
use ghc_xapp_fix.Unlit.Script.{IsOrdinary, lines_of, newlines}
use ghc_xapp_fix.Unlit.Count.{newlines-unlit}
use ghc_xapp_fix.Unlit.Options.{defaults, set_flag, set_flags}
use ghc_xapp_fix.Unlit.Total.{unlit-Stops}
use ghc_xapp_fix.Unlit.Sharp.{readline-sharp}

-- a line of program with a tab, a blank line and a line of text
abbrev script : List ℕ
script = b'>' ∷ b'\t' ∷ b'x' ∷ newline ∷ newline ∷ b'a' ∷ newline ∷ []

script_output :
    (d : Done) × (unlit defaults script ≡ some d)
    × (d.state.written ≡ spaces 8 ++ b'x' ∷ newline ∷ newline ∷ newline ∷ [])
unfolding unlit unlit_loop readline read_from read_text copy_line skip_white read_comment read_buf
    trim egetc getc to_line_end note_line go_on finish spaces
script_output = (_, refl, refl)

readline-ReadsLine_example :
    ReadsLine defaults (open_input script) (readline defaults (open_input script))
unfolding line_text spaces line_of expand
readline-ReadsLine_example =
    readline-ReadsLine defaults refl refl (open_input script) (λ e. omega (arith, ap length e))
      (λ e. omega (arith, ap length e))

abbrev is_shebang : Line → Bool
is_shebang shebang = true
is_shebang _ = false

abbrev first : List ℕ → ℕ
first [] = 0
first (c ∷ cs) = c

script-IsOrdinary : All IsOrdinary (lines_of script)
unfolding lines_of line_of expand spaces line_kind strip_left comment_kind trim
script-IsOrdinary = (
  (λ e. omega (arith, ap length e), λ e. false≢true (ap is_shebang e), omega arith),
  (
    (λ e. omega (arith, ap length e), λ e. false≢true (ap is_shebang e), omega arith),
    ((λ e. omega (arith, ap first e), λ e. false≢true (ap is_shebang e), omega arith), tt),
  ),
)

newlines-unlit_example :
    (d : Done) × (unlit defaults script ≡ some d)
    × (d.exited ≡ false → newlines d.state.written ≡ length (lines_of script))
newlines-unlit_example = newlines-unlit defaults refl refl refl script script-IsOrdinary

readline-sharp_example :
    (r : Read) × (readline defaults (open_input (b'#' ∷ newline ∷ script)) ≡ some r)
    × (r.line ≡ hash)
    × (r.written ≡ b'#' ∷ newline ∷ expand 0 (line_of script) ++ newline ∷ [])
    × (r.input.rest ≡ drop_line script)
readline-sharp_example = readline-sharp defaults script refl refl

unlit-Stops_example : (d : Done) × (unlit defaults script ≡ some d)
unlit-Stops_example = unlit-Stops defaults script

-- `unlit -q -c f g`
abbrev quiet_crunch : List (List ℕ)
quiet_crunch = (b'-' ∷ b'q' ∷ []) ∷ (b'-' ∷ b'c' ∷ []) ∷ []

quiet_flags :
    set_flags defaults quiet_crunch ≡ some (record defaults { noisy = false; crunchnl = true })
unfolding set_flags set_flag
quiet_flags = refl

no_flag : set_flag (record defaults { noisy = false; crunchnl = true }) (b'f' ∷ []) ≡ none
unfolding set_flag
no_flag = refl
