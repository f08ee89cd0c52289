-- ===== src/Retainer/Elements.antt =====
-- rts/RetainerSet.c: the elements of the sets that `singleton` and `addElement` look for and make.
use ghc_xapp_fix.Prelude.{
  ℕ, zero, suc, ◌+◌, ◌%◌, ◌^◌, ◌≤◌, ◌<◌, ◌≡◌, ◌≢◌, ◌↔◌, refl, ap, sym, ◌∙◌, true, false, List, [],
  ◌∷◌, ltb, ◌==◌, if◌then◌else◌, All, length, same_text-eq, same_text_refl, arith, inl, inr,
  Bool-cases, ==_iff,
}
use ghc_xapp_fix.Retainer.{is_singleton, count_less, same_around, is_augmented, augment}
use ghc_xapp_fix.Retainer.Member.{IsSorted, has, All-lt}

-- one more element, in its place
unfoldable pub insert : ℕ → List ℕ → List ℕ
insert r [] = r ∷ []
insert r (x ∷ xs) = if ltb r x then r ∷ x ∷ xs else x ∷ insert r xs

pub augment-insert : (r : ℕ) (xs : List ℕ) → augment (count_less r xs) r xs ≡ insert r xs
unfolding augment count_less insert
augment-insert r [] = refl
augment-insert r (x ∷ xs) = elim (Bool-cases (ltb r x)) [
  | inl e ↦ rw e refl
  | inr e ↦ rw e (ap (λ l. x ∷ l) (augment-insert r xs))
]

same_around-eq :
    (nl r : ℕ) (rs nrs : List ℕ)
    → nl ≤ length rs
    → same_around nl r rs nrs ≡ true
    → nrs ≡ augment nl r rs
unfolding same_around augment
same_around-eq nl r rs [] l h = absurd (ground (arith, h))
same_around-eq zero r rs (e ∷ nrs) l h = elim (Bool-cases (r == e)) [
  | inl z ↦ rw ((==_iff r e).0 z) (ap (λ l. e ∷ l) (sym (same_text-eq rs nrs (rw z at h))))
  | inr z ↦ absurd (ground (arith, rw z at h))
]
same_around-eq (suc nl) r [] (e ∷ nrs) l h = absurd (omega arith)
same_around-eq (suc nl) r (x ∷ rs) (e ∷ nrs) l h = elim (Bool-cases (x == e)) [
  | inl z ↦
      rw ((==_iff x e).0 z) (ap (λ l. e ∷ l) (same_around-eq nl r rs nrs (omega arith) (rw z at h)))
  | inr z ↦ absurd (ground (arith, rw z at h))
]

same_around-augment :
    (nl r : ℕ) (rs : List ℕ) → nl ≤ length rs → same_around nl r rs (augment nl r rs) ≡ true
unfolding same_around augment
same_around-augment zero r rs l = rw ((==_iff r r).1 refl) (same_text_refl rs)
same_around-augment (suc nl) r [] l = absurd (omega arith)
same_around-augment (suc nl) r (x ∷ rs) l =
    rw ((==_iff x x).1 refl) (same_around-augment nl r rs (omega arith))

length-augment : (nl r : ℕ) (rs : List ℕ) → length (augment nl r rs) ≡ length rs + 1
unfolding augment
length-augment zero r rs = omega arith
length-augment (suc nl) r [] = omega arith
length-augment (suc nl) r (x ∷ rs) = omega (arith, length-augment nl r rs)

count_less-le : (r : ℕ) (xs : List ℕ) → count_less r xs ≤ length xs
unfolding count_less
count_less-le r [] = omega arith
count_less-le r (x ∷ xs) = ground (arith, count_less-le r xs)

-- The comparison in `addElement` finds the set that it would make.
pub is_augmented-insert :
    (r : ℕ) (rs nrs : List ℕ)
    → (is_augmented (count_less r rs) r rs nrs ≡ true) ↔ (nrs ≡ insert r rs)
unfolding is_augmented
is_augmented-insert r rs nrs =
    let nl = count_less r rs in
    let le = count_less-le r rs in
    (
      (λ h. same_around-eq nl r rs nrs le (ground (arith, h)) ∙ augment-insert r rs),
      (λ e.
          let e' : nrs ≡ augment nl r rs = e ∙ sym (augment-insert r rs) in
          rw e' (
            rw
              ((==_iff (length rs + 1) (length (augment nl r rs))).1 (sym (length-augment nl r rs)))
              (same_around-augment nl r rs le))),
    )

pub is_singleton-eq : (r : ℕ) (xs : List ℕ) → (is_singleton r xs ≡ true) ↔ (xs ≡ r ∷ [])
unfolding is_singleton
is_singleton-eq r [] = ((λ h. absurd (ground (arith, h))), (λ e. absurd (ground (arith, e))))
is_singleton-eq r (x ∷ []) =
    ((λ h. ap (λ y. y ∷ []) ((==_iff x r).0 h)), (λ e. (==_iff x r).1 (ground (arith, e))))
is_singleton-eq r (x ∷ y ∷ xs) =
    ((λ h. absurd (ground (arith, h))), (λ e. absurd (ground (arith, e))))

pub length-insert : (r : ℕ) (xs : List ℕ) → length (insert r xs) ≡ length xs + 1
length-insert r xs = ap length (sym (augment-insert r xs)) ∙ length-augment (count_less r xs) r xs

All-insert : (x r : ℕ) (xs : List ℕ) → x < r → All (λ y. x < y) xs → All (λ y. x < y) (insert r xs)
unfolding insert
All-insert x r [] l h = (l, tt)
All-insert x r (y ∷ xs) l h = elim (Bool-cases (ltb r y)) [
  | inl e ↦ rw e (l, h)
  | inr e ↦ rw e (h.0, All-insert x r xs l h.1)
]

pub insert-IsSorted :
    (r : ℕ) (xs : List ℕ) → IsSorted xs → has r xs ≡ false → IsSorted (insert r xs)
unfolding insert has
insert-IsSorted r [] s n = (tt, tt)
insert-IsSorted r (x ∷ xs) s n = elim (Bool-cases (ltb r x)) [
  | inl e ↦ let lt : r < x = ground (arith, e) in rw e ((lt, All-lt r x xs lt s.0), s)
  | inr e ↦
      let lt : x < r = ground (arith, e, n) in
      rw e (All-insert x r xs lt s.0, insert-IsSorted r xs s.1 (ground (arith, n)))
]

-- The order in which two elements come in makes no difference.
pub insert_comm : (r q : ℕ) (xs : List ℕ) → r ≢ q → insert r (insert q xs) ≡ insert q (insert r xs)
unfolding insert
insert_comm r q [] ne = ground (arith, ne)
insert_comm r q (x ∷ xs) ne = ground (arith, ne, insert_comm r q xs ne)

pub has-insert : (q r : ℕ) (xs : List ℕ) → q ≢ r → has q (insert r xs) ≡ has q xs
unfolding has insert
has-insert q r [] ne = ground (arith, ne)
has-insert q r (x ∷ xs) ne = ground (arith, ne, has-insert q r xs ne)

-- the key of a set, for which the order of its elements makes no difference
unfoldable pub key : List ℕ → ℕ
key [] = 0
key (x ∷ xs) = (x + key xs) % 2 ^ 64

pub key-insert : (r : ℕ) (xs : List ℕ) → key (insert r xs) ≡ (r + key xs) % 2 ^ 64
unfolding key insert
key-insert r [] = omega arith
key-insert r (x ∷ xs) = elim (Bool-cases (ltb r x)) [
  | inl e ↦ rw e refl
  | inr e ↦ rw e (omega (arith, key-insert r xs))
]
