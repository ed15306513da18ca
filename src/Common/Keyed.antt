-- ===== src/Common/Keyed.antt =====
-- Lists of entries that are known by a key, such as an id or a hash, each key at most once.
use mathlib.Core.Path.{sym}
use mathlib.Core.Logic.{◌≢◌}
use mathlib.Core.List.{List, [], ◌∷◌, ◌++◌, reverse, reverse-cons, append-nil}
use wendy.Common.Lists.{All, All-append, All-of-append, All-reverse}

module _ {ℓ κ} {A : Type ℓ} {K : Type κ} (key : A → K) where
  -- No entry has the key.
  abbrev pub Apart : K → List A → Type κ
  Apart k = All (λ e. key e ≢ k)

  abbrev pub Distinct : List A → Type κ
  Distinct [] = Unit
  Distinct (e ∷ es) = Apart (key e) es × Distinct es

module _ {ℓ κ} {A : Type ℓ} {K : Type κ} (key : A → K) where
  -- Where keys are distinct, the entries around an entry have other keys.
  pub Distinct-split :
      (e : A) (xs ys : List A)
      → Distinct key (xs ++ e ∷ ys)
      → Apart key (key e) xs × Apart key (key e) ys × Distinct key (xs ++ ys)
  Distinct-split e [] ys d = (tt, d.0, d.1)
  Distinct-split e (x ∷ xs) ys d =
      let (p, q, r) = Distinct-split e xs ys d.1 in
      let (before, later) = All-of-append (λ f. key f ≢ key x) xs (e ∷ ys) d.0 in
      (((λ h. later.0 (sym h)), p), q, (All-append (λ f. key f ≢ key x) xs ys before later.1, r))

  pub Distinct-join :
      (e : A) (xs ys : List A)
      → Apart key (key e) xs
      → Apart key (key e) ys
      → Distinct key (xs ++ ys)
      → Distinct key (xs ++ e ∷ ys)
  Distinct-join e [] ys p q d = (q, d)
  Distinct-join e (x ∷ xs) ys p q d =
      let (before, later) = All-of-append (λ f. key f ≢ key x) xs ys d.0 in
      (
        All-append (λ f. key f ≢ key x) xs (e ∷ ys) before ((λ h. p.0 (sym h)), later),
        Distinct-join e xs ys p.1 q d.1,
      )

  pub Distinct-reverse : (xs : List A) → Distinct key xs → Distinct key (reverse xs)
  Distinct-reverse [] d = tt
  Distinct-reverse (x ∷ xs) d = rw reverse-cons (
      Distinct-join x (reverse xs) [] (All-reverse (λ f. key f ≢ key x) xs d.0) tt
        (rw append-nil (Distinct-reverse xs d.1)))

  pub Distinct-of-append :
      (xs ys : List A) → Distinct key (xs ++ ys) → Distinct key xs × Distinct key ys
  Distinct-of-append [] ys d = (tt, d)
  Distinct-of-append (x ∷ xs) ys d =
      let (p, q) = Distinct-of-append xs ys d.1 in
      ((((All-of-append (λ f. key f ≢ key x) xs ys d.0).0, p)), q)

  -- An entry that is moved to the end.
  pub Distinct-rotate :
      (e : A) (xs ys : List A) → Distinct key (xs ++ e ∷ ys) → Distinct key ((xs ++ ys) ++ e ∷ [])
  Distinct-rotate e xs ys d =
      let (p, q, r) = Distinct-split e xs ys d in
      Distinct-join e (xs ++ ys) [] (All-append (λ f. key f ≢ key e) xs ys p q) tt (rw append-nil r)
