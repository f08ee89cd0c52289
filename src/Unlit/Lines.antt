-- ===== src/Unlit/Lines.antt =====
-- utils/unlit/unlit.c: `readline` as a function of the line, tabs expanded.
use mathlib.Core.Path.{subst}
use ghc_xapp_fix.Prelude.{
  ℕ, ◌≡◌, ◌≢◌, refl, ap, sym, ◌∙◌, Bool, true, false, Option, none, some, List, [], ◌∷◌, ◌++◌, inl,
  inr, ◌==◌, if◌then◌else◌, starts_with, arith, Bool-cases, ==_iff,
}
use ghc_xapp_fix.Unlit.{
  newline, Line, blank, text, defn, begin, end, hash, shebang, Flags, Input, egetc, enough, Read,
  copy_line, read_text, read_hash, skip_shebang, read_sharp, read_from, readline,
}
use ghc_xapp_fix.Unlit.Tabs.{line_text, drop_line, IsStart, Gets, egetc-Gets, to_line_end_lem}
use ghc_xapp_fix.Unlit.Comments.{strip_left, comment_kind, current, Gets-At, read_text_lem}

-- The specification: what a line is, and what is written for it.
unfoldable pub line_kind : List ℕ → Line
unfolding comment_kind strip_left
line_kind [] = blank
line_kind (c ∷ cs) =
    if c == b'>'
    then defn
    else if c == b'#'
    then (if starts_with (b'!' ∷ []) cs then shebang else hash)
    else comment_kind (strip_left (c ∷ cs))

abbrev pub written_for : Bool → Line → List ℕ → List ℕ
written_for crunch defn [] = []
written_for crunch defn (c ∷ cs) = b' ' ∷ cs ++ newline ∷ []
written_for crunch hash w = w ++ newline ∷ []
written_for crunch shebang w = []
written_for crunch end w = []
written_for crunch _ w = if crunch then [] else newline ∷ []

pub record ReadsLine (f : Flags) (s : Input) (r : Option Read) : Type 0 where
  pub read : Read
  pub run : r ≡ some read
  pub line : read.line ≡ line_kind (line_text s)
  pub written : read.written ≡ written_for f.crunchnl (line_kind (line_text s)) (line_text s)
  pub fresh : IsStart read.input
  pub rest : read.input.rest ≡ drop_line s.rest

-- a line that is copied
pub record Copies (kind : Line) (out : List ℕ) (s : Input) (r : Option Read) : Type 0 where
  pub read : Read
  pub run : r ≡ some read
  pub line : read.line ≡ kind
  pub written : read.written ≡ out ++ line_text s ++ newline ∷ []
  pub fresh : IsStart read.input
  pub rest : read.input.rest ≡ drop_line s.rest

pub copy_line_lem :
    (kind : Line) (out : List ℕ) (s : Input) → Copies kind out s (copy_line kind out s)
unfolding copy_line
copy_line_lem kind out s =
    let m = to_line_end_lem (enough s) s (omega arith) in
    rw m.run
      (record { read = _; run = refl; line = refl; written = refl; fresh = m.fresh; rest = m.rest })

-- What is written for a comment line does not depend on its kind.
written_for-test :
    (crunch b : Bool) (v : List ℕ)
    → written_for crunch (if b then begin else text) v ≡ (if crunch then [] else newline ∷ [])
written_for-test crunch true [] = refl
written_for-test crunch true (c ∷ v) = refl
written_for-test crunch false [] = refl
written_for-test crunch false (c ∷ v) = refl

pub written_for-comment :
    (crunch : Bool) (w v : List ℕ)
    → written_for crunch (comment_kind w) v ≡ (if crunch then [] else newline ∷ [])
unfolding comment_kind
written_for-comment crunch [] v = refl
written_for-comment crunch (c ∷ cs) v = written_for-test crunch _ v

line_kind-comment :
    (c : ℕ) (s : Input)
    → (c == b'>') ≡ false
    → (c == b'#') ≡ false
    → line_kind (current (some c) s) ≡ comment_kind (strip_left (current (some c) s))
unfolding current line_kind strip_left comment_kind
line_kind-comment c s e e' = elim (Bool-cases (c == newline)) [
  | inl l ↦ rw l refl
  | inr l ↦ rw l (rw (e, e') refl)
]

module _ (f : Flags) (cpp : f.leavecpp ≡ true) (drops : f.ignore_shebang ≡ true) where
  -- a `>` line
  read_program :
      (s s' : Input) → Gets s (some b'>') s' → ReadsLine f s (read_text f (some b'>') [] s')
  unfolding read_text line_kind
  read_program s s' (inl g) = absurd (omega (arith, g.0))
  read_program s s' (inr g) =
      let m = copy_line_lem defn (b' ' ∷ []) s' in
      record {
        read = m.read;
        run = m.run;
        line = m.line ∙ rw g.1 refl;
        written = m.written ∙ rw g.1 refl;
        fresh = m.fresh;
        rest = m.rest ∙ g.2;
      }

  -- a comment line
  read_other :
      (s s' : Input) (c : ℕ)
      → Gets s (some c) s'
      → (c == b'>') ≡ false
      → (c == b'#') ≡ false
      → ReadsLine f s (read_text f (some c) [] s')
  read_other s s' c g e e' =
      let a = Gets-At s (some c) s' (drop_line s.rest) g refl in
      let m = read_text_lem (drop_line s.rest) [] f (some c) s' a.0 e in
      let kind = ap line_kind (sym a.1) ∙ line_kind-comment c s' e e' in
      record {
        read = m.read;
        run = m.run;
        line = m.line ∙ sym kind;
        written =
            m.written
            ∙ sym (written_for-comment f.crunchnl (strip_left (current (some c) s')) (line_text s))
            ∙ ap (λ k. written_for f.crunchnl k (line_text s)) (sym kind);
        fresh = m.fresh;
        rest = m.rest;
      }

  -- a `#` line, with the character that comes next
  read_marked :
      (s s' s'' : Input) (c : Option ℕ)
      → Gets s (some b'#') s'
      → line_text s ≢ b'#' ∷ []
      → egetc s' ≡ (c, s'')
      → Gets s' c s''
      → ReadsLine f s (read_sharp f s')
  unfolding read_sharp skip_shebang read_hash line_kind
  read_marked s s' s'' c (inl g) ne e g' = absurd (omega (arith, g.0))
  read_marked s s' s'' none (inr g) ne e g' = absurd (ne (g.1 ∙ ap (λ t. b'#' ∷ t) g'.1))
  read_marked s s' s'' (some c) (inr g) ne e (inl g') = absurd (ne (g.1 ∙ ap (λ t. b'#' ∷ t) g'.1))
  read_marked s s' s'' (some c) (inr g) ne e (inr g') =
      let shown = g.1 ∙ ap (λ t. b'#' ∷ t) g'.1 in
      let dropped = g'.2 ∙ g.2 in
      elim (Bool-cases (c == b'!')) [
        | inl bang ↦
            let flip : (b'!' == c) ≡ true = ground arith in
            let m = to_line_end_lem (enough s'') s'' (omega arith) in
            record {
              read = record { line = shebang; written = []; input = m.next };
              run = rw (drops, e) (rw (bang, m.run) refl);
              line = rw shown (rw flip refl);
              written = rw shown (rw flip refl);
              fresh = m.fresh;
              rest = m.rest ∙ dropped;
            }
        | inr other ↦
            let flip : (b'!' == c) ≡ false = ground arith in
            let m = copy_line_lem hash (b'#' ∷ c ∷ []) s'' in
            record {
              read = m.read;
              run = rw (drops, e) (rw (other, cpp) m.run);
              line = m.line ∙ rw shown (rw flip refl);
              written = m.written ∙ rw shown (rw flip refl);
              fresh = m.fresh;
              rest = m.rest ∙ dropped;
            }
      ]

  readline-some :
      (s : Input) (c : ℕ) (s' : Input)
      → egetc s ≡ (some c, s')
      → readline f s ≡ (if c == b'#' then read_sharp f s' else read_text f (some c) [] s')
  unfolding readline read_from
  readline-some s c s' e = ap (λ r. read_from f r.0 r.1) e

  read_char :
      (s : Input) (c : Option ℕ) (s' : Input)
      → egetc s ≡ (c, s')
      → Gets s c s'
      → s.rest ≢ []
      → line_text s ≢ b'#' ∷ []
      → ReadsLine f s (readline f s)
  read_char s none s' e g some_text ne = absurd (some_text g.0)
  read_char s (some c) s' e g some_text ne = elim (Bool-cases (c == b'#')) [
    | inl sharp ↦
        let is : c ≡ b'#' = (==_iff c _).0 sharp in
        let e' : egetc s ≡ (some b'#', s') = e ∙ ap (λ d. (some d, s')) is in
        let g' : Gets s (some b'#') s' = subst (λ d. Gets s (some d) s') is g in
        rw (readline-some s b'#' s' e')
          (read_marked s s' (egetc s').1 (egetc s').0 g' ne refl (egetc-Gets s'))
    | inr other ↦ elim (Bool-cases (c == b'>')) [
      | inl mark ↦
          let is : c ≡ b'>' = (==_iff c _).0 mark in
          let e' : egetc s ≡ (some b'>', s') = e ∙ ap (λ d. (some d, s')) is in
          let g' : Gets s (some b'>') s' = subst (λ d. Gets s (some d) s') is g in
          rw (readline-some s b'>' s' e') (read_program s s' g')
      | inr plain ↦ rw (readline-some s c s' e, other) (read_other s s' c g plain other)
    ]
  ]

  -- With `leavecpp` and `ignore_shebang` set, as they are by default, and within a text that is
  -- not at its end, at a line that is not `#` alone: `readline` reads exactly this line; it
  -- returns the kind of the line (with its tabs expanded), and writes what belongs to that kind.
  pub readline-ReadsLine :
      (s : Input) → s.rest ≢ [] → line_text s ≢ b'#' ∷ [] → ReadsLine f s (readline f s)
  readline-ReadsLine s some_text ne =
      read_char s (egetc s).0 (egetc s).1 refl (egetc-Gets s) some_text ne
