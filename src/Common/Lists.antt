-- ===== src/Common/Lists.antt =====
-- Lists measured and indexed by native numbers, under the library's names, and predicates and
-- counts over a list by recursion.
use Prim.Native.Nat.{ℕ, zero, suc, ◌+◌}
use mathlib.Core.Path.{◌≡◌, refl, ap, sym, subst}
use mathlib.Core.Logic.{◌⊎◌, inl, inr}
use mathlib.Core.Bool.{Bool, true, false, ◌||◌}
use mathlib.Core.List.{List, [], ◌∷◌, ◌++◌, map, reverse, reverse-cons, append-nil}
use mathlib.Core.Option.{Option, none, some}
use native.Mathlib.Omega.{arith}
use wendy.Common.Tests.{if◌then◌else◌, Bool-cases}

module _ {ℓ} {A : Type ℓ} where
  abbrev pub length : List A → ℕ
  length [] = 0
  length (x ∷ xs) = suc (length xs)

  abbrev pub get_elem? : List A → ℕ → Option A
  get_elem? [] i = none
  get_elem? (x ∷ xs) zero = some x
  get_elem? (x ∷ xs) (suc i) = get_elem? xs i

  abbrev pub take : ℕ → List A → List A
  take zero xs = []
  take (suc n) [] = []
  take (suc n) (x ∷ xs) = x ∷ take n xs

  abbrev pub drop : ℕ → List A → List A
  drop zero xs = xs
  drop (suc n) [] = []
  drop (suc n) (x ∷ xs) = drop n xs

  abbrev pub All {κ} : (A → Type κ) → List A → Type κ
  All P [] = Unit
  All P (x ∷ xs) = P x × All P xs

-- The element stands in the list; the place is kept.
abbrev pub In : {A : Type 0} → A → List A → Type 0
In a [] = ⊥
In a (x ∷ xs) = (a ≡ x) ⊎ In a xs

module _ {ℓ} {A : Type ℓ} where
  pub length-append : (xs ys : List A) → length (xs ++ ys) ≡ length xs + length ys
  length-append [] ys = omega arith
  length-append (x ∷ xs) ys = omega (arith, length-append xs ys)

  pub length-map {κ} : {B : Type κ} (f : A → B) (xs : List A) → length (map f xs) ≡ length xs
  length-map f [] = refl
  length-map f (x ∷ xs) = ap suc (length-map f xs)

module _ {ℓ κ} {A : Type ℓ} (P : A → Type κ) where
  pub All-append : (xs ys : List A) → All P xs → All P ys → All P (xs ++ ys)
  All-append [] ys hx hy = hy
  All-append (x ∷ xs) ys hx hy = (hx.0, All-append xs ys hx.1 hy)

  pub All-of-append : (xs ys : List A) → All P (xs ++ ys) → All P xs × All P ys
  All-of-append [] ys h = (tt, h)
  All-of-append (x ∷ xs) ys h = let (p, q) = All-of-append xs ys h.1 in ((h.0, p), q)

  pub All-reverse : (xs : List A) → All P xs → All P (reverse xs)
  All-reverse [] h = tt
  All-reverse (x ∷ xs) h =
      rw reverse-cons (All-append (reverse xs) (x ∷ []) (All-reverse xs h.1) (h.0, tt))

module _ {ℓ κ μ} {A : Type ℓ} {P : A → Type κ} {Q : A → Type μ} where
  pub All-mono : (xs : List A) → ((x : A) → P x → Q x) → All P xs → All Q xs
  All-mono [] f h = tt
  All-mono (x ∷ xs) f h = (f x h.0, All-mono xs f h.1)

module _ {ℓ} {A : Type ℓ} where
  unfoldable pub find : (A → Bool) → List A → Option A
  find p [] = none
  find p (x ∷ xs) = if p x then some x else find p xs

  -- The first match splits the list.
  pub find-some :
      (p : A → Bool) (xs : List A) {a : A}
      → find p xs ≡ some a
      → (pre post : List A) × (xs ≡ pre ++ a ∷ post) × (p a ≡ true) × All (λ x. p x ≡ false) pre
  unfolding find
  find-some p [] e = cc
  find-some p (x ∷ xs) {a} e = elim (Bool-cases (p x)) [
    | inl h ↦ let same : x ≡ a = ground arith in ([], xs, ap (λ t. t ∷ xs) same, rw (← same) h, tt)
    | inr h ↦
        let (pre, post, split, hit, misses) = find-some p xs (ground arith) in
        (x ∷ pre, post, ap (◌∷◌ x) split, hit, (h, misses))
  ]

  pub find-none : (p : A → Bool) (xs : List A) → find p xs ≡ none → All (λ x. p x ≡ false) xs
  unfolding find
  find-none p [] e = tt
  find-none p (x ∷ xs) e = ground (arith, find-none p xs)

-- The elements that fail a test, and those that pass it, in order.
module _ {ℓ} {A : Type ℓ} (p : A → Bool) where
  unfoldable pub rejected : List A → List A
  rejected [] = []
  rejected (x ∷ xs) = if p x then rejected xs else x ∷ rejected xs

  unfoldable pub accepted : List A → List A
  accepted [] = []
  accepted (x ∷ xs) = if p x then x ∷ accepted xs else accepted xs

  pub rejected-append : (xs ys : List A) → rejected (xs ++ ys) ≡ rejected xs ++ rejected ys
  unfolding rejected
  rejected-append [] ys = refl
  rejected-append (x ∷ xs) ys = ground (arith, rejected-append xs ys)

  pub accepted-append : (xs ys : List A) → accepted (xs ++ ys) ≡ accepted xs ++ accepted ys
  unfolding accepted
  accepted-append [] ys = refl
  accepted-append (x ∷ xs) ys = ground (arith, accepted-append xs ys)

  pub rejected-reverse : (xs : List A) → rejected (reverse xs) ≡ reverse (rejected xs)
  unfolding rejected
  rejected-reverse [] = refl
  rejected-reverse (x ∷ xs) = elim (Bool-cases (p x)) [
    | inl h ↦ rw (reverse-cons, rejected-append, rejected-reverse xs, h, rejected) (append-nil _)
    | inr h ↦ ground (
      arith,
      reverse-cons x xs,
      reverse-cons x (rejected xs),
      rejected-append (reverse xs) (x ∷ []),
      rejected-reverse xs,
    )
  ]

  pub length-accepted-reverse :
      (xs : List A) → length (accepted (reverse xs)) ≡ length (accepted xs)
  unfolding accepted
  length-accepted-reverse [] = refl
  length-accepted-reverse (x ∷ xs) = ground (
    arith,
    reverse-cons x xs,
    accepted-append (reverse xs) (x ∷ []),
    length-append (accepted (reverse xs)) (accepted (x ∷ [])),
    length-accepted-reverse xs,
  )

pub In-append : {A : Type 0} (xs : List A) (a : A) (ys : List A) → In a (xs ++ a ∷ ys)
In-append [] a ys = inl refl
In-append (x ∷ xs) a ys = inr (In-append xs a ys)

pub get_elem?-append {ℓ} :
    {A : Type ℓ} (xs : List A) (a : A) (ys : List A) → get_elem? (xs ++ a ∷ ys) (length xs) ≡ some a
get_elem?-append [] a ys = refl
get_elem?-append (x ∷ xs) a ys = get_elem?-append xs a ys

pub take-append {ℓ} : {A : Type ℓ} (xs ys : List A) → take (length xs) (xs ++ ys) ≡ xs
take-append [] ys = refl
take-append (x ∷ xs) ys = ap (◌∷◌ x) (take-append xs ys)

pub drop-append {ℓ} :
    {A : Type ℓ} (xs : List A) (a : A) (ys : List A) → drop (suc (length xs)) (xs ++ a ∷ ys) ≡ ys
drop-append [] a ys = refl
drop-append (x ∷ xs) a ys = drop-append xs a ys

pub In-All {κ} : {A : Type 0} (P : A → Type κ) (xs : List A) (a : A) → All P xs → In a xs → P a
In-All P [] a h i = elim i [ ]
In-All P (x ∷ xs) a h (inl e) = subst P (sym e) h.0
In-All P (x ∷ xs) a h (inr i) = In-All P xs a h.1 i

pub All-both {ℓ κ μ} :
    {A : Type ℓ} (P : A → Type κ) (Q : A → Type μ) (xs : List A)
    → All P xs
    → All Q xs
    → All (λ x. P x × Q x) xs
All-both P Q [] p q = tt
All-both P Q (x ∷ xs) p q = ((p.0, q.0), All-both P Q xs p.1 q.1)

pub rejected_none {ℓ} :
    {A : Type ℓ} (p : A → Bool) (xs : List A) → All (λ x. p x ≡ false) xs → rejected p xs ≡ xs
unfolding rejected
rejected_none p [] h = refl
rejected_none p (x ∷ xs) h = ground (arith, rejected_none p xs h.1)

-- Two filters in turn are one filter by both tests.
pub rejected-rejected {ℓ} :
    {A : Type ℓ} (p q : A → Bool) (xs : List A)
    → rejected p (rejected q xs) ≡ rejected (λ x. q x || p x) xs
unfolding rejected
rejected-rejected p q [] = refl
rejected-rejected p q (x ∷ xs) = elim (Bool-cases (q x)) [
  | inl h ↦ rw (h, rejected) (rejected-rejected p q xs)
  | inr h ↦ ground (arith, rejected-rejected p q xs)
]
