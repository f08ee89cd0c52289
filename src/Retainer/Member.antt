-- ===== src/Retainer/Member.antt =====
-- rts/RetainerSet.h: `isMember`.
use mathlib.Core.Option
use ghc_xapp_fix.Prelude.{
  ℕ, zero, suc, ◌+◌, ◌-◌, ◌/◌, ◌≤◌, ◌<◌, ◌^◌, ◌≡◌, ◌≢◌, refl, ap, sym, ◌∙◌, Bool, true, false, some,
  List, [], ◌∷◌, ltb, ◌==◌, if◌then◌else◌, All, length, arith, inl, inr, Bool-cases, ==_iff, lt→ltb,
}
use ghc_xapp_fix.Retainer.{
  RetainerSet, set, binary_search_threshold, member_scan, element_at, member_search, is_member,
}

-- The elements stand in increasing order.
abbrev pub IsSorted : List ℕ → Type 0
IsSorted [] = Unit
IsSorted (x ∷ xs) = All (λ y. x < y) xs × IsSorted xs

unfoldable pub has : ℕ → List ℕ → Bool
has r [] = false
has r (x ∷ xs) = let later = has r xs in if r == x then true else later

-- below all elements
pub has-below : (r : ℕ) (xs : List ℕ) → All (λ y. r < y) xs → has r xs ≡ false
unfolding has
has-below r [] h = refl
has-below r (x ∷ xs) h = ground (arith, has-below r xs h.1, h.0)

pub All-lt : (r x : ℕ) (xs : List ℕ) → r < x → All (λ y. x < y) xs → All (λ y. r < y) xs
All-lt r x [] l h = tt
All-lt r x (y ∷ xs) l h = (omega (arith, h.0), All-lt r x xs l h.1)

member_scan-has : (r : ℕ) (xs : List ℕ) → IsSorted xs → member_scan r xs ≡ has r xs
unfolding member_scan has
member_scan-has r [] s = refl
member_scan-has r (x ∷ xs) s = elim (Bool-cases (r == x)) [
  | inl e ↦ rw e refl
  | inr e ↦ elim (Bool-cases (ltb r x)) [
    | inl l ↦ rw (e, l) (sym (has-below r xs (All-lt r x xs (ground (arith, l)) s.0)))
    | inr l ↦ rw (e, l) (member_scan-has r xs s.1)
  ]
]

element_at-some : (xs : List ℕ) (i : ℕ) → i < length xs → (v : ℕ) × (element_at xs i ≡ some v)
element_at-some [] i h = absurd (omega arith)
element_at-some (x ∷ xs) zero h = (x, refl)
element_at-some (x ∷ xs) (suc i) h = element_at-some xs i (omega arith)

All-at : (x : ℕ) (xs : List ℕ) (i v : ℕ) → All (λ y. x < y) xs → element_at xs i ≡ some v → x < v
All-at x [] i v h e = absurd (ground (arith, e))
All-at x (y ∷ xs) zero v h e = omega (arith, h.0, Option.some_inj.0 e)
All-at x (y ∷ xs) (suc i) v h e = All-at x xs i v h.1 e

-- later elements are larger
element_at-lt :
    (xs : List ℕ) (i j v w : ℕ)
    → IsSorted xs
    → i < j
    → element_at xs i ≡ some v
    → element_at xs j ≡ some w
    → v < w
element_at-lt [] i j v w s l e f = absurd (ground (arith, e))
element_at-lt (x ∷ xs) i zero v w s l e f = absurd (omega arith)
element_at-lt (x ∷ xs) zero (suc j) v w s l e f =
    omega (arith, All-at x xs j w s.0 f, Option.some_inj.0 e)
element_at-lt (x ∷ xs) (suc i) (suc j) v w s l e f = element_at-lt xs i j v w s.1 (omega arith) e f

has-at : (r : ℕ) (xs : List ℕ) (i : ℕ) → element_at xs i ≡ some r → has r xs ≡ true
unfolding has
has-at r [] i e = absurd (ground (arith, e))
has-at r (x ∷ xs) zero e = rw ((==_iff r x).1 (sym (Option.some_inj.0 e))) refl
has-at r (x ∷ xs) (suc i) e = elim (Bool-cases (r == x)) [
  | inl h ↦ rw h refl
  | inr h ↦ rw h (has-at r xs i e)
]

has-none : (r : ℕ) (xs : List ℕ) → ((i v : ℕ) → element_at xs i ≡ some v → r ≢ v) → has r xs ≡ false
unfolding has
has-none r [] h = refl
has-none r (x ∷ xs) h = elim (Bool-cases (r == x)) [
  | inl e ↦ absurd (h 0 x refl ((==_iff r x).0 e))
  | inr e ↦ rw e (has-none r xs (λ i v f. h (suc i) v f))
]

beyond : (xs : List ℕ) (i v : ℕ) → length xs ≤ i → element_at xs i ≡ some v → ⊥
beyond [] i v l e = ground (arith, e)
beyond (x ∷ xs) zero v l e = omega arith
beyond (x ∷ xs) (suc i) v l e = beyond xs i v (omega arith) e

-- With fuel for each element that is left, where smaller elements stand before `left` and larger
-- ones from `right` on, the search reads within the array and finds the element if it is there.
member_search-has :
    (r fuel : ℕ) (xs : List ℕ) (left right : ℕ)
    → IsSorted xs
    → length xs ≤ 2 ^ 30
    → right ≤ length xs
    → left ≤ right
    → right < left + fuel
    → ((i v : ℕ) → i < left → element_at xs i ≡ some v → v < r)
    → ((i v : ℕ) → right ≤ i → element_at xs i ≡ some v → r < v)
    → member_search r fuel xs left right ≡ some (has r xs)
unfolding member_search
member_search-has r zero xs left right s short in_array up enough lo hi = absurd (omega arith)
member_search-has r (suc fuel) xs left right s short in_array up enough lo hi =
    elim (Bool-cases (ltb left right)) [
      | inr d ↦
          let ge : right ≤ left = ground (arith, d) in
          rw d (
            ap some (
              sym (
                has-none r xs (λ i v e. elim (Bool-cases (ltb i left)) [
                  | inl a ↦ omega (arith, lo i v (ground (arith, a)) e)
                  | inr a ↦ omega (arith, hi i v (ground (arith, a, ge)) e)
                ]))))
      | inl d ↦
          let lt : left < right = ground (arith, d) in
          let i = (left + right - 1) / 2 in
          let (ri, at) = element_at-some xs i (omega arith) in
          let sum : ltb (left + right - 1) (2 ^ 31) ≡ true = lt→ltb _ _ (omega arith) in
          elim (Bool-cases (r == ri)) [
            | inl e ↦
                let found : element_at xs i ≡ some r = at ∙ ap some (sym ((==_iff r ri).0 e)) in
                rw (d, sum, at, e) (ap some (sym (has-at r xs i found)))
            | inr e ↦ elim (Bool-cases (ltb r ri)) [
              | inl l ↦
                  let less : r < ri = ground (arith, l) in
                  rw (d, sum, at, e, l)
                    (member_search-has r fuel xs left i s short (omega arith) (omega arith)
                      (omega arith) lo
                      (λ j v b f. elim (Bool-cases (i == j)) [
                        | inl z ↦
                            let same : ri ≡ v =
                              Option.some_inj.0
                                (sym at ∙ ap (element_at xs) ((==_iff i j).0 z) ∙ f) in
                            omega (arith, same)
                        | inr z ↦
                            omega
                              (arith, element_at-lt xs i j ri v s (ground (arith, z, b)) at f, less)
                      ]))
              | inr l ↦
                  let more : ri < r = ground (arith, l, e) in
                  rw (d, sum, at, e, l)
                    (member_search-has r fuel xs (i + 1) right s short in_array (omega arith)
                      (omega arith)
                      (λ j v b f. elim (Bool-cases (i == j)) [
                        | inl z ↦
                            let same : ri ≡ v =
                              Option.some_inj.0
                                (sym at ∙ ap (element_at xs) ((==_iff i j).0 z) ∙ f) in
                            omega (arith, same)
                        | inr z ↦
                            omega
                              (arith, element_at-lt xs j i v ri s (ground (arith, z, b)) f at, more)
                      ])
                      hi)
            ]
          ]
    ]

-- On a set of at most 2 ^ 30 elements, which stand in increasing order, whichever search its size
-- selects, `isMember` ends without a read outside the array and without an overflow of its `int`s,
-- and returns whether the retainer is an element.
pub is_member-has :
    (r : ℕ) (rs : RetainerSet)
    → IsSorted rs.element
    → length rs.element ≤ 2 ^ 30
    → is_member r (set rs) ≡ some (has r rs.element)
unfolding is_member
is_member-has r rs s short = elim (Bool-cases (ltb (length rs.element) binary_search_threshold)) [
  | inl e ↦ rw e (ap some (member_scan-has r rs.element s))
  | inr e ↦ rw e (
      member_search-has r (length rs.element + 1) rs.element 0 (length rs.element) s short
        (omega arith) (omega arith) (omega arith) (λ i v l f. absurd (omega arith))
        (λ i v l f. absurd (beyond rs.element i v l f)))
]
