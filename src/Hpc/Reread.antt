-- ===== src/Hpc/Reread.antt =====
-- rts/Hpc.c: the counts of one run, read at the start of the next.
use ghc_xapp_fix.Prelude.{
  ℕ, ◌≡◌, refl, ap, sym, ◌∙◌, Bool, true, false, List, [], ◌∷◌, ◌++◌, length, ◌==◌, All, arith,
  Bool-cases, inl, inr, ==_iff, same_text, same_text_refl, none, Option-cases,
}
use mathlib.Core.List.{append_assoc}
use mathlib.Core.Path.{subst}
use mathlib.Core.Bool.{false≢true}
use ghc_xapp_fix.Hpc.{
  Outcome, done, failed, wild, HpcModuleInfo, copy_ticks, store_ticks, read_tix, write_tix,
  find_module, hs_hpc_module,
}
use ghc_xapp_fix.Hpc.Text.{IsPrintable, store_all, read_tix-write_tix}

abbrev Differs : HpcModuleInfo → HpcModuleInfo → Type 0
Differs m n = same_text m.mod_name n.mod_name ≡ false

abbrev pub AreDistinct : List HpcModuleInfo → Type 0
AreDistinct [] = Unit
AreDistinct (m ∷ ms) = All (λ n. same_text m.mod_name n.mod_name ≡ false) ms × AreDistinct ms

-- The same modules, with as many counts each.
abbrev pub AreAlike : List HpcModuleInfo → List HpcModuleInfo → Type 0
AreAlike [] [] = Unit
AreAlike [] (n ∷ ns) = ⊥
AreAlike (m ∷ ms) [] = ⊥
AreAlike (m ∷ ms) (n ∷ ns) =
    ((m.mod_name ≡ n.mod_name) × (m.hash_no ≡ n.hash_no) × (length m.tix_arr ≡ length n.tix_arr))
    × AreAlike ms ns

copy_ticks-all : (xs ys : List ℕ) → length ys ≡ length xs → copy_ticks xs ys ≡ done xs
unfolding copy_ticks
copy_ticks-all [] [] h = refl
copy_ticks-all [] (y ∷ ys) h = absurd (omega (arith, h))
copy_ticks-all (x ∷ xs) [] h = absurd (omega (arith, h))
copy_ticks-all (x ∷ xs) (y ∷ ys) h = rw (copy_ticks-all xs ys (omega (arith, h))) refl

-- a module behind those of `front`, which have other names
store_ticks-alike :
    (front back : List HpcModuleInfo) (m n : HpcModuleInfo)
    → All (λ d. Differs d n) front
    → m.mod_name ≡ n.mod_name
    → m.hash_no ≡ n.hash_no
    → length m.tix_arr ≡ length n.tix_arr
    → store_ticks n (front ++ (m ∷ back)) ≡ done (front ++ (n ∷ back))
unfolding store_ticks
store_ticks-alike [] back m n d e f g =
    rw
      (
        e,
        same_text_refl n.mod_name,
        (==_iff n.hash_no m.hash_no).1 (sym f),
        copy_ticks-all n.tix_arr m.tix_arr g,
      )
      (ap (λ h. done (record { mod_name = n.mod_name; hash_no = h; tix_arr = n.tix_arr } ∷ back)) f)
store_ticks-alike (d ∷ front) back m n ds e f g =
    rw (ds.0, store_ticks-alike front back m n ds.1 e f g) refl

All-snoc :
    (P : HpcModuleInfo → Type 0) (xs : List HpcModuleInfo) (x : HpcModuleInfo)
    → All P xs
    → P x
    → All P (xs ++ (x ∷ []))
All-snoc P [] x a h = (h, tt)
All-snoc P (y ∷ ys) x a h = (a.0, All-snoc P ys x a.1 h)

All-both :
    (front : List HpcModuleInfo) (n : HpcModuleInfo) (ns : List HpcModuleInfo)
    → All (λ k. All (λ d. Differs d k) front) ns
    → All (λ k. Differs n k) ns
    → All (λ k. All (λ d. Differs d k) (front ++ (n ∷ []))) ns
All-both front n [] a b = tt
All-both front n (k ∷ ns) a b = (All-snoc _ front n a.0 b.0, All-both front n ns a.1 b.1)

store_all-alike :
    (ms ns front : List HpcModuleInfo)
    → AreAlike ms ns
    → AreDistinct ns
    → All (λ n. All (λ d. Differs d n) front) ns
    → store_all ns (front ++ ms) ≡ done (front ++ ns)
unfolding store_all
store_all-alike [] [] front a d f = refl
store_all-alike [] (n ∷ ns) front a d f = absurd a
store_all-alike (m ∷ ms) [] front a d f = absurd a
store_all-alike (m ∷ ms) (n ∷ ns) front a d f =
    rw (store_ticks-alike front ms m n f.0 a.0.0 a.0.1 a.0.2) (
      ap (store_all ns) (sym (append_assoc front (n ∷ []) ms))
      ∙ store_all-alike ms ns (front ++ (n ∷ [])) a.1 d.1 (All-both front n ns f.1 d.0)
      ∙ ap done (append_assoc front (n ∷ []) ns))

-- no name in front of an empty list
All-none : (ns : List HpcModuleInfo) → All (λ n. All (λ d. Differs d n) []) ns
All-none [] = tt
All-none (n ∷ ns) = (tt, All-none ns)

-- The counts of a run that `writeTix` has written for the modules `ns`, with different names, are read
-- back as they were, into a table of the same modules, whatever counts it has. The names have at most
-- 255 bytes, without quotes and zeros, and the numbers fit their fields.
pub read_tix-restores :
    (ms ns : List HpcModuleInfo)
    → All IsPrintable ns
    → AreDistinct ns
    → AreAlike ms ns
    → read_tix ms (write_tix ns) ≡ done ns
read_tix-restores ms ns p d a =
    read_tix-write_tix ns ms p ∙ store_all-alike ms ns [] a d (All-none ns)

store_ticks-unknown :
    (n : HpcModuleInfo) (table : List HpcModuleInfo)
    → All (λ m. Differs m n) table
    → store_ticks n table ≡ wild
unfolding store_ticks
store_ticks-unknown n [] d = refl
store_ticks-unknown n (m ∷ ms) d = rw (d.0, store_ticks-unknown n ms d.1) refl

-- If the first module of the file is not in the table, which is so when a module of the program has
-- been removed or is not loaded yet, then `readTix` does not add it to the table: it goes through a
-- null pointer.
pub read_tix-unknown :
    (table : List HpcModuleInfo) (n : HpcModuleInfo) (ns : List HpcModuleInfo)
    → All IsPrintable (n ∷ ns)
    → All (λ m. same_text m.mod_name n.mod_name ≡ false) table
    → read_tix table (write_tix (n ∷ ns)) ≡ wild
unfolding store_all
read_tix-unknown table n ns p d =
    read_tix-write_tix (n ∷ ns) table p ∙ rw (store_ticks-unknown n table d) refl

table_of : Outcome (List HpcModuleInfo) → List HpcModuleInfo
table_of (done t) = t
table_of failed = []
table_of wild = []

is_done : Outcome (List HpcModuleInfo) → Bool
is_done (done t) = true
is_done failed = false
is_done wild = false

done_inj : (t t' : List HpcModuleInfo) → done t ≡ done t' → t ≡ t'
unfolding table_of
done_inj t t' h = ap table_of h

failed_done : (t : List HpcModuleInfo) → failed ≡ done t → ⊥
unfolding is_done
failed_done t h = false≢true (ap is_done h)

==_comm : (a b : ℕ) → (a == b) ≡ (b == a)
==_comm a b = ground arith

same_text_swap : (xs ys : List ℕ) → same_text xs ys ≡ same_text ys xs
same_text_swap [] [] = refl
same_text_swap [] (y ∷ ys) = refl
same_text_swap (x ∷ xs) [] = refl
same_text_swap (x ∷ xs) (y ∷ ys) = rw (==_comm x y, same_text_swap xs ys) refl

find_module-none :
    (name : List ℕ) (table : List HpcModuleInfo)
    → find_module name table ≡ none
    → All (λ n. same_text name n.mod_name ≡ false) table
unfolding find_module
find_module-none name [] h = tt
find_module-none name (m ∷ ms) h = elim (Bool-cases (same_text m.mod_name name)) [
  | inl s ↦ absurd (ground (arith, rw s at h))
  | inr d ↦ (same_text_swap name m.mod_name ∙ d, find_module-none name ms (rw d at h))
]

-- A call of `hs_hpc_module` that does not fail leaves a table in which the names differ as they did
-- before: a module that is there already is not added again.
hs_hpc_module-AreDistinct :
    (name : List ℕ) (count hash : ℕ) (table table' : List HpcModuleInfo)
    → AreDistinct table
    → hs_hpc_module name count hash table ≡ done table'
    → AreDistinct table'
unfolding hs_hpc_module
hs_hpc_module-AreDistinct name count hash table table' d h =
    elim (Option-cases (find_module name table)) [
      | inl n ↦ subst AreDistinct (done_inj _ _ (rw n at h)) (find_module-none name table n, d)
      | inr (m, s) ↦ elim (Bool-cases (length m.tix_arr == count)) [
        | inr x ↦ absurd (failed_done _ (rw (s, x) at h))
        | inl x ↦ elim (Bool-cases (m.hash_no == hash)) [
          | inr y ↦ absurd (failed_done _ (rw (s, x, y) at h))
          | inl y ↦ subst AreDistinct (done_inj _ _ (rw (s, x, y) at h)) d
        ]
      ]
    ]
