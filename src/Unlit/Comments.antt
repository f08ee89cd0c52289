-- ===== src/Unlit/Comments.antt =====
-- utils/unlit/unlit.c: the lines that `readline` leaves out of the program.
use ghc_xapp_fix.Prelude.{
  ℕ, zero, suc, ◌≤◌, ◌<◌, ◌≡◌, ◌≢◌, refl, ap, sym, ◌∙◌, true, false, Option, none, some, List, [],
  ◌∷◌, ◌++◌, ◌⊎◌, inl, inr, ◌==◌, if◌then◌else◌, length, take, same_text, arith, Bool-cases, ==_iff,
}
use ghc_xapp_fix.Unlit.{
  newline, is_whitespace, is_char, begin_code, Line, blank, text, begin, Flags, Input, egetc,
  skip_white, trim, enough, Read, read_buf, read_comment, read_text,
}
use ghc_xapp_fix.Unlit.Tabs.{line_text, drop_line, IsStart, Gets, egetc-Gets, to_line_end_lem}

-- The specification: a line without the white space in front.
unfoldable pub strip_left : List ℕ → List ℕ
strip_left [] = []
strip_left (c ∷ cs) = if is_whitespace c then strip_left cs else c ∷ cs

-- what a line without white space in front is, unless it is marked as program
unfoldable pub comment_kind : List ℕ → Line
unfolding trim
comment_kind [] = blank
comment_kind (c ∷ cs) = if same_text (trim (take 99 (c ∷ cs))) begin_code then begin else text

-- the line from the character on that was read last
unfoldable pub current : Option ℕ → Input → List ℕ
current none s = []
current (some c) s = if c == newline then [] else c ∷ line_text s

-- Where the stream stands: before `next`, or in the line before it.
abbrev pub At : List ℕ → Option ℕ → Input → Type 0
At next none s = IsStart s × (s.rest ≡ next)
At next (some c) s =
    ((c ≡ newline) × IsStart s × (s.rest ≡ next)) ⊎ ((c ≢ newline) × (drop_line s.rest ≡ next))

pub Gets-At :
    (s : Input) (c : Option ℕ) (s' : Input) (next : List ℕ)
    → Gets s c s'
    → drop_line s.rest ≡ next
    → At next c s' × (current c s' ≡ line_text s) × (length s'.rest ≤ length s.rest)
unfolding drop_line current
Gets-At s none s' next g e = (((g.2, inr g.3), rw g.3 (rw g.0 at e)), sym g.1, rw g.3 (omega arith))
Gets-At s (some c) s' next (inl g) e =
    (inl (g.0, g.2, g.3 ∙ e), rw ((==_iff c newline).1 g.0) (sym g.1), omega (arith, g.4))
Gets-At s (some c) s' next (inr g) e =
    let other : (c == newline) ≡ false = ground (arith, g.0) in
    (inr (g.0, g.2 ∙ e), rw other (sym g.1), g.4)

-- the end of `skip_white`
pub record Skipped (next : List ℕ) (c : Option ℕ) (s : Input) (fuel : ℕ) : Type 0 where
  pub char : Option ℕ
  pub input : Input
  pub run : skip_white fuel c s ≡ some (char, input)
  pub at : At next char input
  pub same : current char input ≡ strip_left (current c s)
  pub size : length input.rest ≤ length s.rest

skip_white-none :
    (next : List ℕ) (fuel : ℕ) (s : Input) → At next none s → Skipped next none s (suc fuel)
unfolding skip_white current strip_left
skip_white-none next fuel s at = record {
  char = none;
  input = s;
  run = refl;
  at = at;
  same = refl;
  size = omega arith;
}

skip_white-stop :
    (next : List ℕ) (fuel c : ℕ) (s : Input)
    → is_whitespace c ≡ false
    → At next (some c) s
    → Skipped next (some c) s (suc fuel)
unfolding skip_white current strip_left
skip_white-stop next fuel c s e at = record {
  char = some c;
  input = s;
  run = rw e refl;
  at = at;
  same = elim (Bool-cases (c == newline)) [ inl l ↦ rw l refl | inr l ↦ rw (l, e) refl ];
  size = omega arith;
}

-- one white character less
skip_white-next :
    (next : List ℕ) (fuel c : ℕ) (s : Input)
    → is_whitespace c ≡ true
    → line_text s ≡ current (egetc s).0 (egetc s).1
    → length (egetc s).1.rest ≤ length s.rest
    → Skipped next (egetc s).0 (egetc s).1 fuel
    → Skipped next (some c) s (suc fuel)
unfolding skip_white current strip_left
skip_white-next next fuel c s e shown less w =
    let other : (c == newline) ≡ false = ground arith in
    record {
      char = w.char;
      input = w.input;
      run = rw e w.run;
      at = w.at;
      same = w.same ∙ rw (other, e) (ap strip_left (sym shown));
      size = omega (arith, less, w.size);
    }

-- A white character is in the line.
white-At :
    (next : List ℕ) (c : ℕ) (s : Input)
    → is_whitespace c ≡ true
    → At next (some c) s
    → drop_line s.rest ≡ next
white-At next c s e (inl a) = absurd (ground (arith, a.0))
white-At next c s e (inr a) = a.1

Gets-enough : (s : Input) (c : ℕ) (s' : Input) → Gets s (some c) s' → enough s' < enough s
Gets-enough s c s' (inl g) = omega (arith, g.2.0, g.4)
Gets-enough s c s' (inr g) = g.3

skip_white-after :
    (next : List ℕ) (fuel : ℕ) (s : Input) (c : Option ℕ) (s' : Input)
    → Gets s c s'
    → At next c s'
    → enough s < suc fuel
    → ((c : Option ℕ) (s : Input) → At next c s → enough s < fuel → Skipped next c s fuel)
    → Skipped next c s' fuel
skip_white-after next zero s c s' g at h more = absurd (omega arith)
skip_white-after next (suc fuel) s none s' g at h more = skip_white-none next fuel s' at
skip_white-after next (suc fuel) s (some c) s' g at h more =
    more (some c) s' at (omega (arith, Gets-enough s c s' g))

pub skip_white_lem :
    (next : List ℕ) (fuel : ℕ) (c : Option ℕ) (s : Input)
    → At next c s
    → enough s < fuel
    → Skipped next c s fuel
skip_white_lem next zero c s at h = absurd (omega arith)
skip_white_lem next (suc fuel) none s at h = skip_white-none next fuel s at
skip_white_lem next (suc fuel) (some c) s at h = elim (Bool-cases (is_whitespace c)) [
  | inl e ↦
      let g = Gets-At s (egetc s).0 (egetc s).1 next (egetc-Gets s) (white-At next c s e at) in
      skip_white-next next fuel c s e (sym g.1) g.2 (
        skip_white-after next fuel s (egetc s).0 (egetc s).1 (egetc-Gets s) g.0 h
          (λ c' s' a l. skip_white_lem next fuel c' s' a l))
  | inr e ↦ skip_white-stop next fuel c s e at
]

-- the end of `readline` on a line that is not program
pub record Commented (next : List ℕ) (out w : List ℕ) (s : Input) (r : Option Read) : Type 0 where
  pub read : Read
  pub run : r ≡ some read
  pub line : read.line ≡ comment_kind w
  pub written : read.written ≡ out
  pub fresh : IsStart read.input
  pub rest : read.input.rest ≡ next
  pub size : length read.input.rest ≤ length s.rest

read_comment_lem :
    (next out : List ℕ) (c : Option ℕ) (s : Input)
    → At next c s
    → Commented next out (current c s) s (read_comment out c s)
unfolding read_comment read_buf current comment_kind
read_comment_lem next out none s at = record {
  read = _;
  run = refl;
  line = refl;
  written = refl;
  fresh = at.0;
  rest = at.1;
  size = omega arith;
}
read_comment_lem next out (some c) s (inl at) =
    let e = (==_iff c newline).1 at.0 in
    rw e (record {
      read = record { line = blank; written = out; input = s };
      run = refl;
      line = refl;
      written = refl;
      fresh = at.1;
      rest = at.2;
      size = omega arith;
    })
read_comment_lem next out (some c) s (inr at) =
    let other : (c == newline) ≡ false = ground (arith, at.0) in
    let m = to_line_end_lem (enough s) s (omega arith) in
    rw (other, m.run)
      (record {
        read = _;
        run = refl;
        line = refl;
        written = refl;
        fresh = m.fresh;
        rest = m.rest ∙ at.1;
        size = m.size;
      })

pub read_text_lem :
    (next out : List ℕ) (f : Flags) (c : Option ℕ) (s : Input)
    → At next c s
    → is_char c b'>' ≡ false
    → Commented next
        (if f.crunchnl then out else out ++ newline ∷ [])
        (strip_left (current c s))
        s
        (read_text f c out s)
unfolding read_text
read_text_lem next out f c s at e =
    let w = skip_white_lem next (suc (enough s)) c s at (omega arith) in
    let out' = if f.crunchnl then out else out ++ newline ∷ [] in
    let r = read_comment_lem next out' w.char w.input w.at in
    rw (e, w.run)
      (record {
        read = r.read;
        run = r.run;
        line = r.line ∙ ap comment_kind w.same;
        written = r.written;
        fresh = r.fresh;
        rest = r.rest;
        size = omega (arith, r.size, w.size);
      })
