-- ===== src/Unlit/Script.antt =====
-- utils/unlit/unlit.c: the lines of a script, and the lines of code that `unlit` copies as they are.
use mathlib.Core.Path.{subst}
use mathlib.Core.Bool.{true≢false}
use ghc_xapp_fix.Prelude.{
  ℕ, zero, suc, ◌+◌, ◌-◌, ◌%◌, ◌≤◌, ◌<◌, ◌≡◌, ◌≢◌, refl, ap, sym, ◌∙◌, true, false, Option, some,
  List, [], ◌∷◌, ◌++◌, ◌⊎◌, inl, inr, ◌==◌, if◌then◌else◌, length, All, starts_with, arith,
  Bool-cases, ◌>>=◌,
}
use ghc_xapp_fix.Unlit.{newline, tabpos, end_code, fgets, Copied, copy_code, shebang, Input}
use ghc_xapp_fix.Unlit.Tabs.{spaces, line_of, drop_line, expand, line_text}
use ghc_xapp_fix.Unlit.Lines.{line_kind}

-- The lines of a text, without their newlines; the last one may have none.
abbrev begin_with : ℕ → List (List ℕ) → List (List ℕ)
begin_with c [] = (c ∷ []) ∷ []
begin_with c (l ∷ ls) = (c ∷ l) ∷ ls

unfoldable pub lines_of : List ℕ → List (List ℕ)
lines_of [] = []
lines_of (c ∷ cs) = if c == newline then [] ∷ lines_of cs else begin_with c (lines_of cs)

unfoldable pub newlines : List ℕ → ℕ
newlines [] = 0
newlines (c ∷ cs) = (if c == newline then 1 else 0) + newlines cs

-- A line that is not `#` alone and no `#!` line, and fits into the buffer of `unlit`.
abbrev pub IsOrdinary : List ℕ → Type 0
IsOrdinary l = (expand 0 l ≢ b'#' ∷ []) × (line_kind (expand 0 l) ≢ shebang) × (length l < 999)

pub newlines-append : (xs ys : List ℕ) → newlines (xs ++ ys) ≡ newlines xs + newlines ys
unfolding newlines
newlines-append [] ys = omega arith
newlines-append (x ∷ xs) ys = omega (arith, newlines-append xs ys)

lines_of-first :
    (c : ℕ) (cs : List ℕ) → lines_of (c ∷ cs) ≡ line_of (c ∷ cs) ∷ lines_of (drop_line (c ∷ cs))
unfolding lines_of line_of drop_line
lines_of-first c [] = elim (Bool-cases (c == newline)) [ inl e ↦ rw e refl | inr e ↦ rw e refl ]
lines_of-first c (d ∷ cs) = elim (Bool-cases (c == newline)) [
  | inl e ↦ rw e refl
  | inr e ↦ rw (e, lines_of-first d cs) refl
]

pub lines_of_lem : (cs : List ℕ) → cs ≢ [] → lines_of cs ≡ line_of cs ∷ lines_of (drop_line cs)
lines_of_lem [] ne = absurd (ne refl)
lines_of_lem (c ∷ cs) ne = lines_of-first c cs

newlines-spaces : (n : ℕ) → newlines (spaces n) ≡ 0
unfolding newlines spaces
newlines-spaces zero = refl
newlines-spaces (suc n) = omega (arith, newlines-spaces n)

-- Expanding tabs makes no newlines.
newlines-expand : (col : ℕ) (cs : List ℕ) → newlines (expand col (line_of cs)) ≡ 0
unfolding newlines expand line_of
newlines-expand col [] = refl
newlines-expand col (c ∷ cs) = elim (Bool-cases (c == newline)) [
  | inl e ↦ rw e refl
  | inr e ↦ elim (Bool-cases (c == 12)) [
    | inl ff ↦ rw (e, ff) (rw e (omega (arith, newlines-expand 0 cs)))
    | inr e' ↦ elim (Bool-cases (c == b'\t')) [
      | inl tab ↦
          let k = tabpos - col % tabpos in
          rw (e, e', tab)
            (newlines-append (spaces k) _
              ∙ omega (arith, newlines-spaces k, newlines-expand (col + k) cs))
      | inr e'' ↦ rw (e, e', e'') (rw e (omega (arith, newlines-expand (col + 1) cs)))
    ]
  ]
]

pub newlines-line_text : (s : Input) → newlines (line_text s) ≡ 0
unfolding line_text
newlines-line_text s =
    newlines-append (spaces s.spleft) _
    ∙ omega (arith, newlines-spaces s.spleft, newlines-expand (s.linepos + s.spleft) s.rest)

-- `fgets` on a line that fits
pub record Fetched (cs : List ℕ) (r : List ℕ × List ℕ) : Type 0 where
  pub rest : r.1 ≡ drop_line cs
  pub newline_read : (newlines r.0 ≡ 1) ⊎ (drop_line cs ≡ [])

fgets_lem : (n : ℕ) (cs : List ℕ) → length (line_of cs) < n → Fetched cs (fgets n cs)
unfolding fgets newlines line_of drop_line
fgets_lem zero cs h = absurd (omega arith)
fgets_lem (suc n) [] h = record { rest = refl; newline_read = inr refl }
fgets_lem (suc n) (c ∷ cs) h = elim (Bool-cases (c == newline)) [
  | inl e ↦ rw e (record { rest = rw e refl; newline_read = inl (rw e refl) })
  | inr e ↦
      let h' : suc (length (line_of cs)) < suc n = rw e at h in
      let r = fgets_lem n cs (omega arith) in
      rw e (record {
        rest = r.rest ∙ rw e refl;
        newline_read = elim r.newline_read [
          | inl one ↦ inl (rw e (omega (arith, one)))
          | inr last ↦ inr (rw e last)
        ];
      })
]

pub length-drop_line_le : (cs : List ℕ) → length (drop_line cs) ≤ length cs
unfolding drop_line
length-drop_line_le [] = omega arith
length-drop_line_le (c ∷ cs) = elim (Bool-cases (c == newline)) [
  | inl e ↦ rw e (omega arith)
  | inr e ↦ rw e (omega (arith, length-drop_line_le cs))
]

pub length-drop_line : (cs : List ℕ) → cs ≢ [] → length (drop_line cs) < length cs
unfolding drop_line
length-drop_line [] ne = absurd (ne refl)
length-drop_line (c ∷ cs) ne = elim (Bool-cases (c == newline)) [
  | inl e ↦ rw e (omega arith)
  | inr e ↦ rw e (omega (arith, length-drop_line_le cs))
]

-- What the loop after `\begin{code}` does: where it ends at `\end{code}`, it wrote a newline for
-- each line that it read.
pub record CopiesCode (cs : List ℕ) (r : Option Copied) : Type 0 where
  pub copied : Copied
  pub run : r ≡ some copied
  pub counts :
      copied.closed ≡ true
      → newlines copied.written + length (lines_of copied.rest) ≡ length (lines_of cs)
  pub ordinary : All IsOrdinary (lines_of copied.rest)
  pub size : length copied.rest ≤ length cs
  pub at_end : cs ≡ [] → copied.closed ≡ false

cons_ne : (c : ℕ) (cs : List ℕ) → c ∷ cs ≢ []
cons_ne c cs e = omega (arith, ap length e)

-- the first line of a script, and the others
pub lines_of-IsOrdinary :
    (cs : List ℕ)
    → cs ≢ []
    → All IsOrdinary (lines_of cs)
    → IsOrdinary (line_of cs) × All IsOrdinary (lines_of (drop_line cs))
lines_of-IsOrdinary cs ne h = subst (All IsOrdinary) (lines_of_lem cs ne) h

-- one line of code, with what comes after it
copy_code-line :
    (n : ℕ) (cs : List ℕ) (r : List ℕ × List ℕ) (more : Option Copied)
    → cs ≢ []
    → length (lines_of cs) ≡ suc (length (lines_of (drop_line cs)))
    → All IsOrdinary (lines_of (drop_line cs))
    → Fetched cs r
    → CopiesCode r.1 more
    → CopiesCode cs (
        if starts_with end_code r.0
        then some (record { closed = true; linesread = n + 1; written = newline ∷ []; rest = r.1 })
        else more >>= (λ m. some (record m { written = r.0 ++ m.written })))
unfolding newlines
copy_code-line n cs r more ne first fine got m =
    let same = ap (λ t. length (lines_of t)) got.rest in
    let less = length-drop_line cs ne in
    let left = ap length got.rest in
    elim (Bool-cases (starts_with end_code r.0)) [
      | inl last ↦ rw last (record {
        copied = record { closed = true; linesread = n + 1; written = newline ∷ []; rest = r.1 };
        run = refl;
        counts = λ _. omega (arith, same, first);
        ordinary = rw got.rest fine;
        size = omega (arith, less, left);
        at_end = λ e. absurd (ne e);
      })
      | inr going ↦
          rw (going, m.run)
            (record {
              copied = record m.copied { written = r.0 ++ m.copied.written };
              run = refl;
              counts = λ closed. elim got.newline_read [
                | inl one ↦
                    omega (
                      arith,
                      one,
                      same,
                      first,
                      m.counts closed,
                      newlines-append r.0 m.copied.written,
                    )
                | inr last ↦ absurd (true≢false (sym closed ∙ m.at_end (got.rest ∙ last)))
              ];
              ordinary = m.ordinary;
              size = omega (arith, less, left, m.size);
              at_end = λ e. absurd (ne e);
            })
    ]

shorter : (a b c fuel : ℕ) → a ≡ b → b < c → c < suc fuel → a < fuel
shorter a b c fuel e l h = omega arith

pub copy_code_lem :
    (fuel n : ℕ) (cs : List ℕ)
    → length cs < fuel
    → All IsOrdinary (lines_of cs)
    → CopiesCode cs (copy_code fuel n cs)
unfolding copy_code lines_of newlines
copy_code_lem zero n cs h fine = absurd (omega arith)
copy_code_lem (suc fuel) n [] h fine = record {
  copied = record { closed = false; linesread = n; written = []; rest = [] };
  run = refl;
  counts = λ e. absurd (true≢false (sym e));
  ordinary = tt;
  size = omega arith;
  at_end = λ _. refl;
}
copy_code_lem (suc fuel) n (c ∷ cs) h fine =
    let ne = cons_ne c cs in
    let r = fgets 999 (c ∷ cs) in
    let first = lines_of-IsOrdinary (c ∷ cs) ne fine in
    let got = fgets_lem 999 (c ∷ cs) first.0.2 in
    let less = length-drop_line (c ∷ cs) ne in
    let left = ap length got.rest in
    copy_code-line n (c ∷ cs) r (copy_code fuel (n + 1) r.1) ne
      (ap length (lines_of_lem (c ∷ cs) ne)) first.1 got
      (copy_code_lem fuel (n + 1) r.1 (shorter _ _ _ fuel left less h)
        (subst (λ t. All IsOrdinary (lines_of t)) (sym got.rest) first.1))
