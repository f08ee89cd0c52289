-- ===== src/Unlit/Sharp.antt =====
-- utils/unlit/unlit.c: a line that is `#` alone.
use ghc_xapp_fix.Prelude.{ℕ, ◌≡◌, true, some, List, [], ◌∷◌, ◌++◌}
use ghc_xapp_fix.Unlit.{
  newline, hash, Flags, Read, egetc, getc, open_input, readline, read_from, read_sharp, read_hash,
}
use ghc_xapp_fix.Unlit.Tabs.{line_of, drop_line, expand, line_text, spaces}
use ghc_xapp_fix.Unlit.Lines.{copy_line_lem}

-- With `leavecpp` and `ignore_shebang` set, as they are by default, at a line that is `#` alone:
-- `readline` takes the newline for the character after the `#`, and reads on. It copies the next
-- line too, whatever that is, with its tabs expanded, and returns `HASH` once.
pub readline-sharp :
    (f : Flags) (cs : List ℕ)
    → f.leavecpp ≡ true
    → f.ignore_shebang ≡ true
    → (r : Read) × (readline f (open_input (b'#' ∷ newline ∷ cs)) ≡ some r)
      × (r.line ≡ hash)
      × (r.written ≡ b'#' ∷ newline ∷ expand 0 (line_of cs) ++ newline ∷ [])
      × (r.input.rest ≡ drop_line cs)
unfolding readline read_from read_sharp read_hash egetc getc line_text spaces
readline-sharp f cs cpp drops =
    let m = copy_line_lem hash (b'#' ∷ newline ∷ []) (open_input cs) in
    (m.read, rw (drops, cpp) m.run, m.line, m.written, m.rest)
