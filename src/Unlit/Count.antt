-- ===== src/Unlit/Count.antt =====
-- utils/unlit/unlit.c: `unlit` writes as many lines as it reads.
pub mod Round
use ghc_xapp_fix.Prelude.{
  ℕ, zero, suc, ◌+◌, ◌≡◌, ◌≢◌, refl, ap, sym, ◌∙◌, true, false, some, List, [], ◌++◌, inl, inr,
  length, All, arith, Bool-cases,
}
use ghc_xapp_fix.Unlit.{
  begin, end, shebang, Flags, same_line, State, note_line, Done, finish, go_on, unlit_loop, unlit,
}
use ghc_xapp_fix.Unlit.Tabs.{line_text, IsStart}
use ghc_xapp_fix.Unlit.Lines.{line_kind, readline-ReadsLine}
use ghc_xapp_fix.Unlit.Script.{
  lines_of, newlines, IsOrdinary, newlines-append, newlines-line_text, lines_of-IsOrdinary,
}
use ghc_xapp_fix.Unlit.Count.Round.{
  Runs, IsReady, note_line_lem, nil_cases, readline-Ends, one_newline, code_block_lem, go_on_lem,
  line_noted, finish_lem, line_text-start,
}

module _ (f : Flags) (cpp : f.leavecpp ≡ true) (drops : f.ignore_shebang ≡ true)
    (crunch : f.crunchnl ≡ false) where
  loop_end :
      (fuel : ℕ) (s : State)
      → IsStart s.input
      → s.input.rest ≡ []
      → Runs s (unlit_loop (suc fuel) f s)
  unfolding unlit_loop go_on lines_of newlines
  loop_end fuel s fresh e =
      let m = readline-Ends f s.input fresh.0 e in
      let n = note_line_lem f s m.read in
      let t = note_line f s m.read in
      rw (m.run, m.line)
        (record {
          done = finish f t;
          run = refl;
          counts = λ _. omega (
            arith,
            ap newlines (finish_lem f t ∙ n.0 ∙ ap (λ w. s.written ++ w) m.written),
            newlines-append s.written [],
            ap (λ cs. length (lines_of cs)) e,
          );
        })

  loop_line :
      (fuel : ℕ) (s : State)
      → IsReady (suc fuel) s
      → s.input.rest ≢ []
      → ((t : State) → IsReady fuel t → Runs t (unlit_loop fuel f t))
      → Runs s (unlit_loop (suc fuel) f s)
  unfolding unlit_loop
  loop_line fuel s ready ne more =
      let here = line_text-start s.input ready.start ne in
      let fine = (lines_of-IsOrdinary s.input.rest ne ready.ordinary).0 in
      let m = readline-ReadsLine f cpp drops s.input ne (λ e. fine.0 (sym here ∙ e)) in
      let unlike : line_kind (line_text s.input) ≢ shebang =
        λ e. fine.1 (ap line_kind (sym here) ∙ e) in
      let c = line_noted fuel f s m.read crunch ne ready m.written m.fresh m.rest unlike in
      let t = note_line f s m.read in
      let inside : same_line m.read.line end ≡ false =
        ap (λ k. same_line k end) m.line
        ∙ (one_newline (line_text s.input) (newlines-line_text s.input) unlike).1 in
      elim (Bool-cases (same_line m.read.line begin)) [
        | inl code ↦
            let b = code_block_lem fuel f t c.0 in
            rw (m.run, code, b.run, inside)
              (go_on_lem fuel f s t (unlit_loop fuel f) b.after c.1 b.what more)
        | inr plain ↦
            rw (m.run, plain, inside)
              (go_on_lem fuel f s t (unlit_loop fuel f) (inr t) c.1 (c.0, refl) more)
      ]

  unlit_loop-Runs : (fuel : ℕ) (s : State) → IsReady fuel s → Runs s (unlit_loop fuel f s)
  unlit_loop-Runs zero s ready = absurd (omega (arith, ready.enough))
  unlit_loop-Runs (suc fuel) s ready = elim (nil_cases s.input.rest) [
    | inl e ↦ loop_end fuel s ready.start e
    | inr ne ↦ loop_line fuel s ready ne (λ t r. unlit_loop-Runs fuel t r)
  ]

  -- With the flags that a run without options has (of which `-q` and others that do not matter
  -- here may differ), on a script in which no line is `#` alone, or starts with `#!`, or is longer
  -- than the buffer: `unlit` ends, and unless it exits because an `\end{code}` is missing, it has
  -- written as many newlines as the script has lines.
  pub newlines-unlit :
      (cs : List ℕ)
      → All IsOrdinary (lines_of cs)
      → (done : Done) × (unlit f cs ≡ some done)
        × (done.exited ≡ false → newlines done.state.written ≡ length (lines_of cs))
  unfolding unlit newlines
  newlines-unlit cs ordinary =
      let m =
        unlit_loop-Runs (length cs + 2) _
          (record { start = (refl, inl refl); ordinary = ordinary; enough = omega arith }) in
      (m.done, m.run, λ e. omega (arith, m.counts e))
