-- ===== src/Unlit/Options.antt =====
-- utils/unlit/unlit.c: `main`. A file is opened by `open_in`, which gives its text, or by `can_write`;
-- both stand for the file system, and `-` for the standard streams. The exit status of a run is that
-- of the program.
use mathlib.Core.Option
use mathlib.Core.Bool.{false≢true}
use ghc_xapp_fix.Prelude.{
  ℕ, ◌≡◌, refl, Bool, true, false, not, ◌&&◌, Option, none, some, List, [], ◌∷◌, ◌++◌, ◌∙◌, inl,
  inr, if◌then◌else◌, same_text, is_nil, ◌>>=◌, Option-cases, ap,
}
use ghc_xapp_fix.Unlit.{Flags, Done, newline, unlit}

-- the static variables at the start
abbrev pub defaults : Flags
defaults = record {
  noisy = true;
  crunchnl = false;
  leavecpp = true;
  ignore_shebang = true;
  no_line_pragma = false;
  prefix_str = none;
}

-- an option without an argument
unfoldable pub set_flag : Flags → List ℕ → Option Flags
set_flag f arg =
    if same_text arg (b'-' ∷ b'n' ∷ [])
    then some (record f { noisy = true })
    else if same_text arg (b'-' ∷ b'q' ∷ [])
    then some (record f { noisy = false })
    else if same_text arg (b'-' ∷ b'c' ∷ [])
    then some (record f { crunchnl = true })
    else if same_text arg (b'-' ∷ b'P' ∷ [])
    then some (record f { no_line_pragma = true })
    else if same_text arg (b'-' ∷ b'#' ∷ [])
    then some (record f { ignore_shebang = false })
    else none

abbrev pub is_prefix_option : List ℕ → Bool
is_prefix_option arg = same_text arg (b'-' ∷ b'h' ∷ [])

-- the loop over the arguments, `label` being set where the last one was `-h` and takes the next:
-- the flags, and the arguments that are left
pub parse_options : Bool → Flags → List (List ℕ) → Flags × List (List ℕ)
parse_options label f [] = (f, [])
parse_options true f (arg ∷ rest) = parse_options false (record f { prefix_str = some arg }) rest
parse_options false f (arg ∷ rest) =
    let labelled = parse_options true f rest in
    elim (set_flag f arg) [
      | some f' ↦ parse_options false f' rest
      | none ↦ if is_prefix_option arg then labelled else (f, arg ∷ rest)
    ]

-- How the program ends.
pub data Exit : Type 0 where
  usage : Exit
  distinct_names : Exit
  cannot_open : (name : List ℕ) → Exit
  ran : (prefix : List ℕ) (done : Done) → Exit  -- with the line pragma written first

abbrev pub is_dash : List ℕ → Bool
is_dash name = same_text name (b'-' ∷ [])

-- `#line 1 "…"`
abbrev pub line_pragma : Flags → List ℕ
line_pragma f = elim f.prefix_str [
  | none ↦ []
  | some p ↦
      if f.no_line_pragma
      then []
      else b'#' ∷ b'l' ∷ b'i' ∷ b'n' ∷ b'e' ∷ b' ' ∷ b'1' ∷ b' ' ∷ b'"' ∷ p ++ b'"' ∷ newline ∷ []
]

module _ (open_in : List ℕ → Option (List ℕ)) (can_write : List ℕ → Bool) where
  -- `main` after the options
  pub run_files : Flags → List ℕ → List ℕ → Option Exit
  run_files f input output =
      if same_text input output && not (is_dash input)
      then some distinct_names
      else elim (open_in input) [
        | none ↦ some (cannot_open input)
        | some cs ↦
            if can_write output
            then unlit f cs >>= (λ d. some (ran (line_pragma f) d))
            else some (cannot_open output)
      ]

  pub main : List (List ℕ) → Option Exit
  main args =
      let r = parse_options false defaults args in
      elim r.1 [
        | [] ↦ some usage
        | input ∷ rest ↦ elim rest [
          | [] ↦ some usage
          | output ∷ more ↦ if is_nil more then run_files r.0 input output else some usage
        ]
      ]

-- the exit status
pub status : Exit → ℕ
status usage = 1
status distinct_names = 1
status (cannot_open name) = 1
status (ran prefix done) = if done.exited then 1 else if is_nil done.state.complaints then 0 else 1

-- Options that take no argument, and what they set together.
unfoldable pub set_flags : Flags → List (List ℕ) → Option Flags
set_flags f [] = some f
set_flags f (arg ∷ args) = set_flag f arg >>= (λ f'. set_flags f' args)

abbrev is_some_flags : Option Flags → Bool
is_some_flags none = false
is_some_flags (some f) = true

-- The loop stops at an argument that is no option.
files_left :
    (f : Flags) (arg : List ℕ) (rest : List (List ℕ))
    → set_flag f arg ≡ none
    → is_prefix_option arg ≡ false
    → parse_options false f (arg ∷ rest) ≡ (f, arg ∷ rest)
unfolding parse_options
files_left f arg rest plain other = rw (parse_options, plain) (rw other refl)

option_read :
    (f f' : Flags) (arg : List ℕ) (rest : List (List ℕ))
    → set_flag f arg ≡ some f'
    → parse_options false f (arg ∷ rest) ≡ parse_options false f' rest
unfolding parse_options
option_read f f' arg rest e = rw (parse_options, e) refl

-- Options without arguments set the flags from left to right, and the two file names that follow,
-- the first one no option, are left.
pub parse_options-set_flags :
    (options : List (List ℕ)) (f f' : Flags) (input output : List ℕ)
    → set_flags f options ≡ some f'
    → set_flag f' input ≡ none
    → is_prefix_option input ≡ false
    → parse_options false f (options ++ input ∷ output ∷ []) ≡ (f', input ∷ output ∷ [])
unfolding parse_options set_flags
parse_options-set_flags [] f f' input output set plain other =
    let same : f ≡ f' = Option.some_inj.0 set in
    rw same (files_left f' input (output ∷ []) plain other)
parse_options-set_flags (arg ∷ options) f f' input output set plain other =
    elim (Option-cases (set_flag f arg)) [
      | inl e ↦ absurd (false≢true (ap is_some_flags (rw e at set)))
      | inr g ↦
          let set' : set_flags g.0 options ≡ some f' = rw g.1 at set in
          option_read f g.0 arg (options ++ input ∷ output ∷ []) g.1
          ∙ parse_options-set_flags options g.0 f' input output set' plain other
    ]
