-- ===== src/Hpc/Tests.antt =====
-- rts/Hpc.c: a file, and the runs before and after it.
use ghc_xapp_fix.Prelude.{ℕ, zero, suc, ◌≡◌, refl, List, [], ◌∷◌, ◌++◌, length, All, arith}
use ghc_xapp_fix.Hpc.{
  done, wild, HpcModuleInfo, quote, tix_module, expect_string, read_tix, decimal_loop, write_ticks,
  write_module, write_modules, write_tix,
}
use ghc_xapp_fix.Hpc.Text.{IsPlain, IsPrintable, expect_string-overflow}
use ghc_xapp_fix.Hpc.Reread.{read_tix-restores, read_tix-unknown}

abbrev main_module : List ℕ → HpcModuleInfo
main_module ticks = record { mod_name = 77 ∷ 97 ∷ []; hash_no = 7; tix_arr = ticks }

abbrev other_module : List ℕ → HpcModuleInfo
other_module ticks = record { mod_name = 66 ∷ []; hash_no = 90; tix_arr = ticks }

-- the end of a run, and the start of the next
abbrev counted : List HpcModuleInfo
counted = main_module (3 ∷ 0 ∷ 120 ∷ []) ∷ other_module (1 ∷ []) ∷ []

abbrev cleared : List HpcModuleInfo
cleared = main_module (0 ∷ 0 ∷ 0 ∷ []) ∷ other_module (0 ∷ []) ∷ []

main-IsPrintable : IsPrintable (main_module (3 ∷ 0 ∷ 120 ∷ []))
main-IsPrintable = record {
  plain = ((refl, refl), ((refl, refl), tt));
  fits = omega arith;
  hash = omega arith;
  count = omega arith;
  ticks = (omega arith, (omega arith, (omega arith, tt)));
}

other-IsPrintable : IsPrintable (other_module (1 ∷ []))
other-IsPrintable = record {
  plain = ((refl, refl), tt);
  fits = omega arith;
  hash = omega arith;
  count = omega arith;
  ticks = (omega arith, tt);
}

-- `Tix [ TixModule "B" 90 1 [1]]`
other_text :
    write_tix (other_module (1 ∷ []) ∷ [])
    ≡ 84
      ∷ 105
      ∷ 120
      ∷ 32
      ∷ 91
      ∷ 32
      ∷ (tix_module
          ++ (32 ∷ 34 ∷ 66 ∷ 34 ∷ 32 ∷ 57 ∷ 48 ∷ 32 ∷ 49 ∷ 32 ∷ 91 ∷ 49 ∷ 93 ∷ 93 ∷ 10 ∷ []))
unfolding write_tix write_modules write_module write_ticks decimal_loop
other_text = refl

read_tix-restores_example : read_tix cleared (write_tix counted) ≡ done counted
read_tix-restores_example =
    read_tix-restores cleared counted (main-IsPrintable, (other-IsPrintable, tt))
      ((refl, tt), (tt, tt)) ((refl, refl, refl), ((refl, refl, refl), tt))

read_tix-unknown_example :
    read_tix (main_module (0 ∷ []) ∷ []) (write_tix (other_module (1 ∷ []) ∷ [])) ≡ wild
read_tix-unknown_example =
    read_tix-unknown (main_module (0 ∷ []) ∷ []) (other_module (1 ∷ [])) [] (other-IsPrintable, tt)
      (refl, tt)

letters : ℕ → List ℕ
letters zero = []
letters (suc n) = 65 ∷ letters n

letters-IsPlain : (n : ℕ) → All IsPlain (letters n)
unfolding letters
letters-IsPlain zero = tt
letters-IsPlain (suc n) = ((refl, refl), letters-IsPlain n)

length-letters : (n : ℕ) → length (letters n) ≡ n
unfolding letters
length-letters zero = refl
length-letters (suc n) = omega (arith, length-letters n)

expect_string-overflow_example :
    (expect_string (quote ∷ (letters 300 ++ (quote ∷ []))) ≡ wild)
    × (expect_string (quote ∷ letters 5) ≡ wild)
expect_string-overflow_example =
    expect_string-overflow (letters 300) (quote ∷ []) (letters 5) (letters-IsPlain 300)
      (omega (arith, length-letters 300)) (letters-IsPlain 5)
