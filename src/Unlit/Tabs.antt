-- ===== src/Unlit/Tabs.antt =====
-- utils/unlit/unlit.c: what `egetc` gives, character by character, is the line with its tabs expanded.
use ghc_xapp_fix.Prelude.{
  ℕ, zero, suc, ◌+◌, ◌-◌, ◌%◌, ◌≤◌, ◌<◌, ◌≡◌, ◌≢◌, refl, ap, sym, ◌∙◌, Option, none, some, List, [],
  ◌∷◌, ◌++◌, ◌⊎◌, inl, inr, ◌==◌, if◌then◌else◌, length, arith, Bool-cases, false, lt→ltb, ==_iff,
}
use ghc_xapp_fix.Unlit.{newline, tabpos, Input, getc, egetc, to_line_end, enough}

-- The specification. `spaces n` is a text of `n` spaces; `line_of` is the text up to the first
-- newline, and `drop_line` what comes after it.
unfoldable pub spaces : ℕ → List ℕ
spaces zero = []
spaces (suc n) = b' ' ∷ spaces n

unfoldable pub line_of : List ℕ → List ℕ
line_of [] = []
line_of (c ∷ cs) = if c == newline then [] else c ∷ line_of cs

unfoldable pub drop_line : List ℕ → List ℕ
drop_line [] = []
drop_line (c ∷ cs) = if c == newline then cs else drop_line cs

-- A tab in column `col` stands for the spaces up to the next column that is a multiple of 8; a form
-- feed goes back to column 0.
unfoldable pub expand : ℕ → List ℕ → List ℕ
expand col [] = []
expand col (c ∷ cs) =
    if c == 12
    then c ∷ expand 0 cs
    else if c == b'\t'
    then spaces (tabpos - col % tabpos) ++ expand (col + (tabpos - col % tabpos)) cs
    else c ∷ expand (col + 1) cs

-- the rest of the line as the program shall see it
unfoldable pub line_text : Input → List ℕ
line_text s = spaces s.spleft ++ expand (s.linepos + s.spleft) (line_of s.rest)

-- Nothing of a tab is left, and the column is 0 unless the text is at its end.
abbrev pub IsStart : Input → Type 0
IsStart s = (s.spleft ≡ 0) × ((s.linepos ≡ 0) ⊎ (s.rest ≡ []))

-- the same within a line: no spaces are left at the end of the text
abbrev pub Gets : Input → Option ℕ → Input → Type 0
Gets s none s' = (s.rest ≡ []) × (line_text s ≡ []) × (s'.spleft ≡ 0) × (s'.rest ≡ [])
Gets s (some c) s' =
    ((c ≡ newline)
      × (line_text s ≡ [])
      × IsStart s'
      × (s'.rest ≡ drop_line s.rest)
      × (suc (length s'.rest) ≡ length s.rest))
    ⊎ ((c ≢ newline)
        × (line_text s ≡ c ∷ line_text s')
        × (drop_line s'.rest ≡ drop_line s.rest)
        × (enough s' < enough s)
        × (length s'.rest ≤ length s.rest))

-- `getc`'s argument `cs` is the text of the stream.
abbrev before : List ℕ → ℕ → Input
before cs col = record { rest = cs; spleft = 0; linepos = col }

-- the first space of a tab
tab_text :
    (col : ℕ) (cs : List ℕ)
    → spaces (tabpos - col % tabpos) ++ expand (col + (tabpos - col % tabpos)) cs
      ≡ b' ' ∷ spaces (tabpos - col % tabpos - 1)
        ++ expand (col + 1 + (tabpos - col % tabpos - 1)) cs
unfolding spaces
tab_text col cs =
    let n : tabpos - col % tabpos ≡ suc (tabpos - col % tabpos - 1) = omega arith in
    let c : col + 1 + (tabpos - col % tabpos - 1) ≡ col + (tabpos - col % tabpos) = omega arith in
    rw c (ap (λ k. spaces k ++ expand (col + (tabpos - col % tabpos)) cs) n)

line_text-before : (cs : List ℕ) (col : ℕ) → line_text (before cs col) ≡ expand col (line_of cs)
unfolding line_text spaces
line_text-before cs col = ap (λ k. expand k (line_of cs)) (omega arith)

-- the text of a line that goes on with `c`
expand-line :
    (c : ℕ) (cs : List ℕ) (col : ℕ)
    → (c == newline) ≡ false
    → line_text (before (c ∷ cs) col) ≡ expand col (c ∷ line_of cs)
unfolding line_of
expand-line c cs col e = line_text-before (c ∷ cs) col ∙ rw e refl

drop_line-cons : (c : ℕ) (cs : List ℕ) → (c == newline) ≡ false → drop_line cs ≡ drop_line (c ∷ cs)
unfolding drop_line
drop_line-cons c cs e = rw e refl

getc-Gets-other :
    (c : ℕ) (cs : List ℕ) (col : ℕ)
    → (c == newline) ≡ false
    → let r = getc (c ∷ cs) (before (c ∷ cs) col) in Gets (before (c ∷ cs) col) r.0 r.1
unfolding getc expand line_text spaces
getc-Gets-other c cs col e =
    let other : c ≢ newline = ground arith in
    let dropped = drop_line-cons c cs e in
    let line = expand-line c cs col e in
    elim (Bool-cases (c == 12)) [
      | inl ff ↦
          let shown = line ∙ rw ff (ap (λ t. c ∷ t) (sym (line_text-before cs 0))) in
          rw (e, ff) (inr (other, shown, dropped, omega arith, omega arith))
      | inr e' ↦ elim (Bool-cases (c == b'\t')) [
        | inl tab ↦
            let shown = line ∙ rw (e', tab) (tab_text col (line_of cs)) in
            rw (e, e', tab) (inr (omega arith, shown, dropped, omega arith, omega arith))
        | inr e'' ↦
            let shown =
              line ∙ rw (e', e'') (ap (λ t. c ∷ t) (sym (line_text-before cs (col + 1)))) in
            rw (e, e', e'') (inr (other, shown, dropped, omega arith, omega arith))
      ]
    ]

getc-Gets :
    (cs : List ℕ) (col : ℕ) → let r = getc cs (before cs col) in Gets (before cs col) r.0 r.1
unfolding getc line_of drop_line expand
getc-Gets [] col = (refl, line_text-before [] col, refl, refl)
getc-Gets (c ∷ cs) col = elim (Bool-cases (c == newline)) [
  | inl e ↦
      let none_left : line_text (before (c ∷ cs) col) ≡ [] =
        line_text-before (c ∷ cs) col ∙ rw e refl in
      let dropped : cs ≡ drop_line (c ∷ cs) = rw e refl in
      rw e (inl (ground arith, none_left, (refl, inl refl), dropped, refl))
  | inr e ↦ getc-Gets-other c cs col e
]

-- a space of a tab
Gets-space :
    (cs : List ℕ) (left col : ℕ)
    → Gets
        (record { rest = cs; spleft = suc left; linepos = col })
        (some b' ')
        (record { rest = cs; spleft = left; linepos = col + 1 })
unfolding line_text spaces
Gets-space cs left col = inr (
  omega arith,
  ap (λ k. b' ' ∷ spaces left ++ expand k (line_of cs)) (omega arith),
  refl,
  omega arith,
  omega arith,
)

abbrev input_of : List ℕ → ℕ → ℕ → Input
input_of cs left col = record { rest = cs; spleft = left; linepos = col }

egetc-Gets_split :
    (cs : List ℕ) (left col : ℕ)
    → let r = egetc (input_of cs left col) in Gets (input_of cs left col) r.0 r.1
unfolding egetc
egetc-Gets_split cs zero col = getc-Gets cs col
egetc-Gets_split cs (suc left) col =
    let one_less : suc left - 1 ≡ left = omega arith in
    rw (lt→ltb 0 (suc left) (omega arith), one_less) (Gets-space cs left col)

-- `egetc` gives the text of the line, character by character, and ends it at the newline.
pub egetc-Gets : (s : Input) → Gets s (egetc s).0 (egetc s).1
egetc-Gets s = egetc-Gets_split s.rest s.spleft s.linepos

-- the end of a line, reached from `s`
pub record LineEnd (s : Input) (fuel : ℕ) : Type 0 where
  pub next : Input
  pub run : to_line_end fuel s ≡ some (line_text s, next)
  pub fresh : IsStart next
  pub rest : next.rest ≡ drop_line s.rest
  pub size : length next.rest ≤ length s.rest

to_line_end-step :
    (s : Input) (fuel : ℕ) (c : Option ℕ) (s' : Input)
    → egetc s ≡ (c, s')
    → Gets s c s'
    → (enough s' < enough s → LineEnd s' fuel)
    → LineEnd s (suc fuel)
unfolding to_line_end drop_line
to_line_end-step s fuel none s' e g more = record {
  next = s';
  run = rw (to_line_end, e) (rw e (ap (λ t. some (t, s')) (sym g.1)));
  fresh = (g.2, inr g.3);
  rest = g.3 ∙ rw g.0 refl;
  size = rw g.3 (omega arith);
}
to_line_end-step s fuel (some c) s' e (inl g) more = record {
  next = s';
  run = rw (to_line_end, e) (rw ((==_iff c newline).1 g.0, e) (ap (λ t. some (t, s')) (sym g.1)));
  fresh = g.2;
  rest = g.3;
  size = omega (arith, g.4);
}
to_line_end-step s fuel (some c) s' e (inr g) more =
    let m = more g.3 in
    let other : (c == newline) ≡ false = ground (arith, g.0) in
    record {
      next = m.next;
      run = rw (to_line_end, e) (rw (other, e, m.run) (ap (λ t. some (t, m.next)) (sym g.1)));
      fresh = m.fresh;
      rest = m.rest ∙ g.2;
      size = omega (arith, m.size, g.4);
    }

-- With fuel for each character and each space of a tab, the loop over `egetc` ends, has read the
-- rest of the line with its tabs expanded to the columns that are multiples of 8, and leaves the
-- stream at the start of the next line.
pub to_line_end_lem : (fuel : ℕ) (s : Input) → enough s ≤ fuel → LineEnd s fuel
to_line_end_lem zero s h = absurd (omega arith)
to_line_end_lem (suc fuel) s h =
    to_line_end-step s fuel (egetc s).0 (egetc s).1 refl (egetc-Gets s)
      (λ less. to_line_end_lem fuel (egetc s).1 (omega arith))
