-- ===== src/Unlit.antt =====
-- utils/unlit/unlit.c: the filter that takes the program out of a literate script. A text is a list
-- of bytes, without the byte 0, and ASCII as far as `isspace` looks at it; what `readline` and
-- `unlit` put on the output stream is their result, writes that fail being left out. `EOF` is `none`.
-- A loop over the characters of a line or over the lines of a script runs on fuel.
pub mod Tabs
pub mod Comments
pub mod Lines
pub mod Script
pub mod Count
pub mod Sharp
pub mod Options
pub mod Total
mod Tests
use ghc_xapp_fix.Prelude.{
  ℕ, zero, suc, ◌+◌, ◌-◌, ◌*◌, ◌%◌, Bool, true, false, not, ◌&&◌, ◌||◌, Option, none, some, List,
  [], ◌∷◌, ◌⊎◌, inl, inr, ◌++◌, ltb, leb, ◌==◌, if◌then◌else◌, length, take, is_nil, same_text,
  starts_with, ◌>>=◌,
}

-- `line`
pub data Line : Type 0 where
  start : Line
  blank : Line
  text : Line
  defn : Line
  begin : Line
  end : Line
  hash : Line
  shebang : Line

-- `isWhitespace`, of a character
abbrev pub is_whitespace : ℕ → Bool
is_whitespace c = c == b' ' || c == b'\t' || c == b'\r'

-- a comparison of what `egetc` returned with a character
abbrev pub is_char : Option ℕ → ℕ → Bool
is_char none d = false
is_char (some c) d = c == d

abbrev pub newline : ℕ
newline = 10

-- `isspace` of the standard library, in the C locale
abbrev pub isspace : ℕ → Bool
isspace c = c == b' ' || (leb 9 c && leb c 13)

-- the text `\begin{code}`, and `\end{code}`
abbrev pub begin_code : List ℕ
begin_code = b'\\' ∷ b'b' ∷ b'e' ∷ b'g' ∷ b'i' ∷ b'n' ∷ b'{' ∷ b'c' ∷ b'o' ∷ b'd' ∷ b'e' ∷ b'}' ∷ []

abbrev pub end_code : List ℕ
end_code = b'\\' ∷ b'e' ∷ b'n' ∷ b'd' ∷ b'{' ∷ b'c' ∷ b'o' ∷ b'd' ∷ b'e' ∷ b'}' ∷ []

-- the static variables that the options set; no option clears `leavecpp`
pub record Flags : Type 0 where
  pub noisy : Bool
  pub crunchnl : Bool
  pub leavecpp : Bool
  pub ignore_shebang : Bool
  pub no_line_pragma : Bool
  pub prefix_str : Option (List ℕ)

-- the input stream, with the static variables of `egetc`
pub record Input : Type 0 where
  pub rest : List ℕ
  pub spleft : ℕ
  pub linepos : ℕ

abbrev pub tabpos : ℕ
tabpos = 8

-- `egetc`, where no spaces of a tab are left
pub getc : List ℕ → Input → Option ℕ × Input
getc [] s = (none, s)
getc (c ∷ cs) s =
    if c == newline || c == 12
    then (some c, record s { rest = cs; linepos = 0 })
    else if c == b'\t'
    then (
      some b' ',
      record { rest = cs; spleft = tabpos - s.linepos % tabpos - 1; linepos = s.linepos + 1 },
    )
    else (some c, record s { rest = cs; linepos = s.linepos + 1 })

pub egetc : Input → Option ℕ × Input
unfolding getc
egetc s =
    if ltb 0 s.spleft
    then (some b' ', record s { spleft = s.spleft - 1; linepos = s.linepos + 1 })
    else getc s.rest s

-- `while (c=egetc(istream), !isLineTerm(c))`: the characters up to the end of the line
pub to_line_end : ℕ → Input → Option (List ℕ × Input)
to_line_end zero s = none
to_line_end (suc fuel) s =
    let r = egetc s in
    let more = to_line_end fuel r.1 in
    elim r.0 [
      | none ↦ some ([], r.1)
      | some c ↦ if c == newline then some ([], r.1) else do (cs, s') ← more; some (c ∷ cs, s')
    ]

-- `while (isWhitespace(c)) c=egetc(istream)`
pub skip_white : ℕ → Option ℕ → Input → Option (Option ℕ × Input)
skip_white zero c s = none
skip_white (suc fuel) none s = some (none, s)
skip_white (suc fuel) (some c) s =
    let r = egetc s in
    let more = skip_white fuel r.0 r.1 in if is_whitespace c then more else some (some c, s)

-- `while(i > 0 && isspace(buf[i-1])) i--`
pub trim : List ℕ → List ℕ
trim [] = []
trim (c ∷ cs) = let cs' = trim cs in if is_nil cs' && isspace c then [] else c ∷ cs'

-- No line has more characters than this, with the spaces of its tabs.
abbrev pub enough : Input → ℕ
enough s = suc (s.spleft + tabpos * length s.rest)

-- What a call of `readline` returns, writes, and leaves to read.
pub record Read : Type 0 where
  pub line : Line
  pub written : List ℕ
  pub input : Input

-- the rest of a line that is copied, and the character or characters that go before it
pub copy_line : Line → List ℕ → Input → Option Read
unfolding to_line_end
copy_line kind out s = do
  (cs, s') ← to_line_end (enough s) s
  some (record { line = kind; written = out ++ cs ++ newline ∷ []; input = s' })

-- the test of the line that `buf` holds, `c` being its first character
pub read_buf : List ℕ → ℕ → Input → Option Read
unfolding to_line_end trim
read_buf out c s = do
  (cs, s') ← to_line_end (enough s) s
  let line = if same_text (trim (take 99 (c ∷ cs))) begin_code then begin else text
  some (record { line = line; written = out; input = s' })

-- `if (isLineTerm(c)) return BLANK`, and what follows
pub read_comment : List ℕ → Option ℕ → Input → Option Read
unfolding read_buf
read_comment out none s = some (record { line = blank; written = out; input = s })
read_comment out (some c) s =
    let more = read_buf out c s in
    if c == newline then some (record { line = blank; written = out; input = s }) else more

-- the end of `readline`, once its line is neither `END` nor a `HASH` or `SHEBANG` line
pub read_text : Flags → Option ℕ → List ℕ → Input → Option Read
unfolding copy_line skip_white read_comment
read_text f c out s =
    let copied = copy_line defn (out ++ b' ' ∷ []) s in
    let out' = if f.crunchnl then out else out ++ newline ∷ [] in
    let comment = skip_white (suc (enough s)) c s >>= (λ r. read_comment out' r.0 r.1) in
    if is_char c b'>' then copied else comment

-- `putc` writes `EOF`, which is -1, as the byte 255.
abbrev pub byte : Option ℕ → ℕ
byte none = 255
byte (some c) = c

-- `if ( leavecpp )`, with the character that was read last
pub read_hash : Flags → Option ℕ → List ℕ → Input → Option Read
unfolding copy_line read_text
read_hash f c out s =
    if f.leavecpp then copy_line hash (out ++ byte c ∷ []) s else read_text f c out s

-- the rest of a `#!` line, which is dropped
pub skip_shebang : Input → Option Read
unfolding to_line_end
skip_shebang s = do
  (cs, s') ← to_line_end (enough s) s
  some (record { line = shebang; written = []; input = s' })

-- a line that starts with `#`
pub read_sharp : Flags → Input → Option Read
unfolding egetc read_hash skip_shebang
read_sharp f s =
    let r = egetc s in
    if not f.ignore_shebang
    then read_hash f (some b'#') [] s
    else if is_char r.0 b'!'
    then skip_shebang r.1
    else read_hash f r.0 (b'#' ∷ []) r.1

-- `readline` after its first call of `egetc`
pub read_from : Flags → Option ℕ → Input → Option Read
unfolding read_sharp read_text
read_from f none s = some (record { line = end; written = []; input = s })
read_from f (some c) s = if c == b'#' then read_sharp f s else read_text f (some c) [] s

pub readline : Flags → Input → Option Read
unfolding egetc read_from
readline f s = let r = egetc s in read_from f r.0 r.1

-- `fgets(lineb, n + 1, istream)`: the characters read, and those that are left
pub fgets : ℕ → List ℕ → List ℕ × List ℕ
fgets zero cs = ([], cs)
fgets (suc n) [] = ([], [])
fgets (suc n) (c ∷ cs) = let r = fgets n cs in if c == newline then (c ∷ [], cs) else (c ∷ r.0, r.1)

-- How the loop after a `\begin{code}` line ends: at `\end{code}`, or at the end of the file.
pub record Copied : Type 0 where
  pub closed : Bool
  pub linesread : ℕ
  pub written : List ℕ
  pub rest : List ℕ

pub copy_code : ℕ → ℕ → List ℕ → Option Copied
unfolding fgets
copy_code zero linesread cs = none
copy_code (suc fuel) linesread cs =
    let r = fgets 999 cs in
    let more = copy_code fuel (linesread + 1) r.1 in
    if is_nil cs
    then some (record { closed = false; linesread = linesread; written = []; rest = cs })
    else if starts_with end_code r.0
    then some
        (record { closed = true; linesread = linesread + 1; written = newline ∷ []; rest = r.1 })
    else do m ← more; some (record m { written = r.0 ++ m.written })

-- the messages of `complain`
pub data Message : Type 0 where
  missing_blank : Message
  empty_script : Message
  missing_end_code : Message

-- the variables of `unlit`, with what was written and the complaints, each with its line; `errors`
-- is their number
pub record State : Type 0 where
  pub this : Line
  pub linesread : ℕ
  pub defnsread : ℕ
  pub written : List ℕ
  pub complaints : List (ℕ × Message)
  pub input : Input

pub complain : Flags → State → ℕ → Message → State
complain f s lin what =
    if f.noisy then record s { complaints = s.complaints ++ (lin, what) ∷ [] } else s

abbrev pub same_line : Line → Line → Bool
same_line text text = true
same_line defn defn = true
same_line begin begin = true
same_line end end = true
same_line _ _ = false

-- the body of the loop of `unlit` after the call of `readline`, up to the test for `BEGIN`
pub note_line : Flags → State → Read → State
note_line f s r =
    let s1 = record s {
      this = r.line;
      linesread = s.linesread + 1;
      defnsread = s.defnsread + (if same_line r.line defn then 1 else 0);
      written = s.written ++ r.written;
      input = r.input;
    } in
    let s2 =
      if same_line s.this defn && same_line r.line text
      then complain f s1 (s1.linesread - 1) missing_blank
      else s1 in
    if same_line s.this text && same_line r.line defn
    then complain f s2 s2.linesread missing_blank
    else s2

-- The end of a run: whether it is by `exit(1)` in the loop, or after it.
pub record Done : Type 0 where
  pub exited : Bool
  pub state : State

-- the rest of the body: the code up to `\end{code}`; `Done` where the run ends there
pub code_block : Flags → State → Option (Done ⊎ State)
code_block f s = do
  m ← copy_code (suc (length s.input.rest)) s.linesread s.input.rest
  let s' = record s {
    linesread = m.linesread;
    written = s.written ++ m.written;
    input = record s.input { rest = m.rest };
  }
  some (
      if m.closed
      then inr (record s' { defnsread = s'.defnsread + 1 })
      else inl (record { exited = true; state = complain f s' m.linesread missing_end_code }))

-- what follows the loop
pub finish : Flags → State → Done
finish f s = record {
  exited = false;
  state = if s.defnsread == 0 then complain f s s.linesread empty_script else s;
}

-- the end of the body, `loop` being the iterations that follow
pub go_on : Bool → Flags → (State → Option Done) → Done ⊎ State → Option Done
go_on at_end f loop (inl done) = some done
go_on at_end f loop (inr s) = if at_end then some (finish f s) else loop s

pub unlit_loop : ℕ → Flags → State → Option Done
unlit_loop zero f s = none
unlit_loop (suc fuel) f s = do
  r ← readline f s.input
  let s' = note_line f s r
  after ← if same_line r.line begin then code_block f s' else some (inr s')
  go_on (same_line r.line end) f (unlit_loop fuel f) after

abbrev pub open_input : List ℕ → Input
open_input cs = record { rest = cs; spleft = 0; linepos = 0 }

pub unlit : Flags → List ℕ → Option Done
unlit f cs = unlit_loop (length cs + 2) f (record {
  this = start;
  linesread = 0;
  defnsread = 0;
  written = [];
  complaints = [];
  input = open_input cs;
})
