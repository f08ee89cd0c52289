-- ===== src/Threads/Lists.antt =====
-- Lists of threads that run through links, forwards and backwards.
use mathlib.Core.Option
use mathlib.Core.Path.{subst}
use ghc_xapp_fix.Prelude.{
  ℕ, ◌≡◌, ◌≢◌, ◌⊎◌, refl, ap, sym, ◌∙◌, Option, none, some, List, [], ◌∷◌, ◌++◌, ◌==◌, update,
  arith, inl, inr, Bool-cases, ==_iff,
}

abbrev pub In : ℕ → List ℕ → Type 0
In x [] = ⊥
In x (y ∷ ys) = (x ≡ y) ⊎ In x ys

abbrev pub AreDistinct : List ℕ → Type 0
AreDistinct [] = Unit
AreDistinct (x ∷ xs) = (In x xs → ⊥) × AreDistinct xs

-- from `q`, the links lead through the threads `xs` to `r`
abbrev pub Chain : (ℕ → Option ℕ) → Option ℕ → List ℕ → Option ℕ → Type 0
Chain link q [] r = q ≡ r
Chain link q (x ∷ xs) r = (q ≡ some x) × Chain link (link x) xs r

-- each thread of `xs` links back to the one before, and the first to `p`
abbrev pub Back : (ℕ → Option ℕ) → Option ℕ → List ℕ → Type 0
Back prev p [] = Unit
Back prev p (x ∷ xs) = (prev x ≡ p) × Back prev (some x) xs

-- the last of `xs`, and `p` if there is none
abbrev pub last_of : Option ℕ → List ℕ → Option ℕ
last_of p [] = p
last_of p (x ∷ xs) = last_of (some x) xs

pub In-append : (x : ℕ) (xs ys : List ℕ) → In x xs ⊎ In x ys → In x (xs ++ ys)
In-append x [] ys (inl h) = absurd h
In-append x [] ys (inr h) = h
In-append x (y ∷ xs) ys (inl (inl h)) = inl h
In-append x (y ∷ xs) ys (inl (inr h)) = inr (In-append x xs ys (inl h))
In-append x (y ∷ xs) ys (inr h) = inr (In-append x xs ys (inr h))

pub In-split : (x : ℕ) (xs ys : List ℕ) → In x (xs ++ ys) → In x xs ⊎ In x ys
In-split x [] ys h = inr h
In-split x (y ∷ xs) ys (inl h) = inl (inl h)
In-split x (y ∷ xs) ys (inr h) = elim (In-split x xs ys h) [ inl i ↦ inl (inr i) | inr i ↦ inr i ]

-- one thread less
pub AreDistinct-remove :
    (t : ℕ) (xs ys : List ℕ)
    → AreDistinct (xs ++ t ∷ ys)
    → AreDistinct (xs ++ ys) × (In t xs → ⊥) × (In t ys → ⊥)
AreDistinct-remove t [] ys d = (d.1, λ h. h, d.0)
AreDistinct-remove t (x ∷ xs) ys d =
    let r = AreDistinct-remove t xs ys d.1 in
    (
      (
        λ h. d.0 (elim (In-split x xs ys h) [
          | inl i ↦ In-append x xs (t ∷ ys) (inl i)
          | inr i ↦ In-append x xs (t ∷ ys) (inr (inr i))
        ]),
        r.0,
      ),
      λ h. elim h [ inl e ↦ d.0 (In-append x xs (t ∷ ys) (inr (inl (sym e)))) | inr i ↦ r.1 i ],
      r.2,
    )

pub AreDistinct-snoc :
    (t : ℕ) (xs : List ℕ) → AreDistinct xs → (In t xs → ⊥) → AreDistinct (xs ++ t ∷ [])
AreDistinct-snoc t [] d n = (λ h. h, tt)
AreDistinct-snoc t (x ∷ xs) d n = (
  λ h. elim (In-split x xs (t ∷ []) h) [
    | inl i ↦ d.0 i
    | inr (inl e) ↦ n (inl (sym e))
    | inr (inr i) ↦ i
  ],
  AreDistinct-snoc t xs d.1 (λ i. n (inr i)),
)

pub Chain-same :
    (f g : ℕ → Option ℕ) (q r : Option ℕ) (xs : List ℕ)
    → ((x : ℕ) → In x xs → g x ≡ f x)
    → Chain f q xs r
    → Chain g q xs r
Chain-same f g q r [] same c = c
Chain-same f g q r (x ∷ xs) same c =
    (c.0, rw (same x (inl refl)) (Chain-same f g (f x) r xs (λ y i. same y (inr i)) c.1))

pub Back-same :
    (f g : ℕ → Option ℕ) (p : Option ℕ) (xs : List ℕ)
    → ((x : ℕ) → In x xs → g x ≡ f x)
    → Back f p xs
    → Back g p xs
Back-same f g p [] same c = c
Back-same f g p (x ∷ xs) same c =
    (same x (inl refl) ∙ c.0, Back-same f g (some x) xs (λ y i. same y (inr i)) c.1)

pub Chain-append :
    (f : ℕ → Option ℕ) (q m r : Option ℕ) (xs ys : List ℕ)
    → Chain f q xs m
    → Chain f m ys r
    → Chain f q (xs ++ ys) r
Chain-append f q m r [] ys c d = rw c d
Chain-append f q m r (x ∷ xs) ys c d = (c.0, Chain-append f (f x) m r xs ys c.1 d)

pub Chain-split :
    (f : ℕ → Option ℕ) (q r : Option ℕ) (xs ys : List ℕ)
    → Chain f q (xs ++ ys) r
    → (m : Option ℕ) × Chain f q xs m × Chain f m ys r
Chain-split f q r [] ys c = (q, refl, c)
Chain-split f q r (x ∷ xs) ys c =
    let (m, a, b) = Chain-split f (f x) r xs ys c.1 in (m, (c.0, a), b)

pub Back-append :
    (f : ℕ → Option ℕ) (p : Option ℕ) (xs ys : List ℕ)
    → Back f p xs
    → Back f (last_of p xs) ys
    → Back f p (xs ++ ys)
Back-append f p [] ys c d = d
Back-append f p (x ∷ xs) ys c d = (c.0, Back-append f (some x) xs ys c.1 d)

pub Back-split :
    (f : ℕ → Option ℕ) (p : Option ℕ) (xs ys : List ℕ)
    → Back f p (xs ++ ys)
    → Back f p xs × Back f (last_of p xs) ys
Back-split f p [] ys c = (tt, c)
Back-split f p (x ∷ xs) ys c = let r = Back-split f (some x) xs ys c.1 in ((c.0, r.0), r.1)

pub last_of-append :
    (p : Option ℕ) (xs ys : List ℕ) → last_of p (xs ++ ys) ≡ last_of (last_of p xs) ys
last_of-append p [] ys = refl
last_of-append p (x ∷ xs) ys = last_of-append (some x) xs ys

-- the last of a list that is not empty
pub last_of-some : (x : ℕ) (xs : List ℕ) → (b : ℕ) × (last_of (some x) xs ≡ some b) × In b (x ∷ xs)
last_of-some x [] = (x, refl, inl refl)
last_of-some x (y ∷ xs) = let (b, e, i) = last_of-some y xs in (b, e, inr i)

pub update_self {ℓ} : {A : Type ℓ} (f : ℕ → A) (i : ℕ) (a : A) → update f i a i ≡ a
update_self f i a = rw ((==_iff i i).1 refl) refl

pub update_other {ℓ} : {A : Type ℓ} (f : ℕ → A) (i j : ℕ) (a : A) → i ≢ j → update f i a j ≡ f j
update_other f i j a ne = elim (Bool-cases (i == j)) [
  | inl h ↦ absurd (ne ((==_iff i j).0 h))
  | inr h ↦ rw h refl
]

-- The links after the thread `t` is taken out behind `b`.
abbrev pub unlink : (ℕ → Option ℕ) → ℕ → ℕ → ℕ → Option ℕ
unlink link b t = update (update link b (link t)) t none

pub unlink_other : (link : ℕ → Option ℕ) (b t x : ℕ) → b ≢ x → t ≢ x → unlink link b t x ≡ link x
unlink_other link b t x d e =
    update_other (update link b (link t)) t x none e ∙ update_other link b x (link t) d

-- behind a thread `a`
Chain-unlink_after :
    (link : ℕ → Option ℕ) (a b t : ℕ) (r : Option ℕ) (xs ys : List ℕ)
    → Chain link (link a) (xs ++ t ∷ ys) r
    → AreDistinct (a ∷ (xs ++ t ∷ ys))
    → last_of (some a) xs ≡ some b
    → Chain (unlink link b t) (unlink link b t a) (xs ++ ys) r
Chain-unlink_after link a b t r [] ys c d e =
    let same : a ≡ b = Option.some_inj.0 e in
    let a-ne : t ≢ a = λ z. d.0 (inl (sym z)) in
    let here : unlink link b t a ≡ link t =
      update_other (update link b (link t)) t a none a-ne
      ∙ ap (λ x. update link b (link t) x) same
      ∙ update_self link b (link t) in
    rw here (
      Chain-same link (unlink link b t) (link t) r ys
        (λ x i.
          unlink_other link b t x (λ z. d.0 (inr (subst (λ y. In y ys) (sym (same ∙ z)) i)))
            (λ z. d.1.0 (subst (λ y. In y ys) (sym z) i)))
        c.1)
Chain-unlink_after link a b t r (x ∷ xs) ys c d e =
    let (b', e', i) = last_of-some x xs in
    let same : b' ≡ b = Option.some_inj.0 (sym e' ∙ e) in
    let a-b : b ≢ a =
      λ z. d.0 (In-append a (x ∷ xs) (t ∷ ys) (inl (subst (λ y. In y (x ∷ xs)) (same ∙ z) i))) in
    let a-t : t ≢ a = λ z. d.0 (In-append a (x ∷ xs) (t ∷ ys) (inr (inl (sym z)))) in
    (unlink_other link b t a a-b a-t ∙ c.0, Chain-unlink_after link x b t r xs ys c.1 d.1 e)

-- The head of the list after its thread `t`, which follows `p`, is taken out; and its links.
abbrev pub new_head : (ℕ → Option ℕ) → Option ℕ → Option ℕ → ℕ → Option ℕ
new_head link q none t = link t
new_head link q (some b) t = q

abbrev pub new_links : (ℕ → Option ℕ) → Option ℕ → ℕ → ℕ → Option ℕ
new_links link none t = update link t none
new_links link (some b) t = unlink link b t

-- A thread taken out of a list leaves the list without it.
pub Chain-remove :
    (link : ℕ → Option ℕ) (q r p : Option ℕ) (t : ℕ) (xs ys : List ℕ)
    → Chain link q (xs ++ t ∷ ys) r
    → AreDistinct (xs ++ t ∷ ys)
    → last_of none xs ≡ p
    → Chain (new_links link p t) (new_head link q p t) (xs ++ ys) r
Chain-remove link q r none t [] ys c d e =
    Chain-same link (update link t none) (link t) r ys
      (λ x i. update_other link t x none (λ z. d.0 (subst (λ y. In y ys) (sym z) i))) c.1
Chain-remove link q r (some b) t [] ys c d e = absurd (ground (arith, e))
Chain-remove link q r none t (x ∷ xs) ys c d e =
    let (b, e', i) = last_of-some x xs in absurd (ground (arith, sym e' ∙ e))
Chain-remove link q r (some b) t (x ∷ xs) ys c d e =
    (c.0, Chain-unlink_after link x b t r xs ys c.1 d e)
