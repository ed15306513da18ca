-- ===== src/Blocking/Reach.antt =====
-- What can be reached in the matrix of `recompute` of wendy.go, and what a part of the search has
-- done.
use wendy.Common.{
  refl, ◌+◌, ◌<◌, ◌∙◌, false, ℕ, ◌≡◌, sym, subst, Bool, true, List, ◌∷◌, some, arith, get_elem?,
  length, All, inl, inr, ◌⊎◌,
}
use wendy.Blocking.Missing.{Within, missing, missing_cons}
use wendy.Blocking.{contains}

-- Every row is as long as the matrix.
abbrev pub IsSquare : List (List Bool) → Type 0
IsSquare m = All (λ row. length row ≡ length m) m

-- The first depends directly on the second: the entry is set.
abbrev pub Edge : List (List Bool) → ℕ → ℕ → Type 0
Edge m i j = (row : List Bool) × (get_elem? m i ≡ some row) × (get_elem? row j ≡ some true)

-- A chain of dependencies.
pub data Reach (m : List (List Bool)) (i : ℕ) : ℕ → Type 0 where
  here : Reach m i i
  step : {j k : ℕ} → Reach m i j → Edge m j k → Reach m i k

pub Reach-front :
    (m : List (List Bool)) (i j : ℕ) → Edge m i j → (k : ℕ) → Reach m j k → Reach m i k
Reach-front m i j e k here = Reach.step Reach.here e
Reach-front m i j e k (step r f) = Reach.step (Reach-front m i j e _ r) f

pub contains_self : (i : ℕ) (deps : List ℕ) → contains i (i ∷ deps) ≡ true
contains_self i deps = ground arith

-- What the search of `index` from `deps` ends with: all that was there, only what can be reached
-- beside it, and all direct dependencies of whatever was added, but for `index` itself; each
-- position was added once.
pub record Searched (m : List (List Bool)) (index : ℕ) (deps deps' : List ℕ) : Type 0 where
  pub keeps : Within deps deps'
  pub counted : length deps' + missing (length m) deps' ≡ length deps + missing (length m) deps
  pub sound : (x : ℕ) → contains x deps' ≡ true → (contains x deps ≡ true) ⊎ Reach m index x
  pub closed :
      (x : ℕ)
      → contains x deps' ≡ true
      → (contains x deps ≡ true) ⊎ (x ≡ index) ⊎ ((y : ℕ) → Edge m x y → contains y deps' ≡ true)

pub Searched-refl : (m : List (List Bool)) (index : ℕ) (deps : List ℕ) → Searched m index deps deps
Searched-refl m index deps = record {
  keeps = λ x h. h;
  counted = refl;
  sound = λ x h. inl h;
  closed = λ x h. inl h;
}

pub Searched-trans :
    (m : List (List Bool)) (index : ℕ) (ds es fs : List ℕ)
    → Searched m index ds es
    → Searched m index es fs
    → Searched m index ds fs
Searched-trans m index ds es fs p q = record {
  keeps = λ x h. q.keeps x (p.keeps x h);
  counted = q.counted ∙ p.counted;
  sound = λ x h. elim (q.sound x h) [ inl b ↦ p.sound x b | inr r ↦ inr r ];
  closed = λ x h. elim (q.closed x h) [
    | inr c ↦ inr c
    | inl b ↦ elim (p.closed x b) [
      | inl a ↦ inl a
      | inr (inl e) ↦ inr (inl e)
      | inr (inr c) ↦ inr (inr (λ y e. q.keeps y (c y e)))
    ]
  ];
}

pub contains_cons :
    (x i : ℕ) (deps : List ℕ) → contains x (i ∷ deps) ≡ true → (x ≡ i) ⊎ (contains x deps ≡ true)
contains_cons x i deps h = ground arith

-- `index` itself is added on the diagonal.
pub Searched-diagonal :
    (m : List (List Bool)) (index : ℕ) (deps : List ℕ)
    → index < length m
    → contains index deps ≡ false
    → Searched m index deps (index ∷ deps)
Searched-diagonal m index deps inside fresh = record {
  keeps = λ x h. ground arith;
  counted = omega (arith, missing_cons (length m) index deps inside fresh);
  sound = λ x h. elim (contains_cons x index deps h) [
    | inl e ↦ inr (subst (Reach m index) (sym e) Reach.here)
    | inr b ↦ inl b
  ];
  closed = λ x h. elim (contains_cons x index deps h) [ inl e ↦ inr (inl e) | inr b ↦ inl b ];
}

-- A search from `i` that also covers the dependencies of `i`.
pub record Found (m : List (List Bool)) (i : ℕ) (deps deps' : List ℕ) : Type 0 where
  pub searched : Searched m i deps deps'
  pub edges : (y : ℕ) → Edge m i y → contains y deps' ≡ true
  pub itself : contains i deps' ≡ true

-- The search of a direct dependency `i`, which was marked before the call.
pub Searched-Edge :
    (m : List (List Bool)) (index i : ℕ) (deps deps' : List ℕ)
    → Edge m index i
    → i < length m
    → contains i deps ≡ false
    → Found m i (i ∷ deps) deps'
    → Searched m index deps deps'
Searched-Edge m index i deps deps' e inside fresh f =
    let s = f.searched in
    record {
      keeps = λ x h. s.keeps x (ground arith);
      counted = omega (arith, s.counted, missing_cons (length m) i deps inside fresh);
      sound = λ x h. elim (s.sound x h) [
        | inl b ↦ elim (contains_cons x i deps b) [
          | inl same ↦ inr (subst (Reach m index) (sym same) (Reach.step Reach.here e))
          | inr a ↦ inl a
        ]
        | inr r ↦ inr (Reach-front m index i e x r)
      ];
      closed = λ x h. elim (s.closed x h) [
        | inl b ↦ elim (contains_cons x i deps b) [
          | inl same ↦ inr (inr (λ y g. f.edges y (subst (λ z. Edge m z y) same g)))
          | inr a ↦ inl a
        ]
        | inr (inl same) ↦ inr (inr (λ y g. f.edges y (subst (λ z. Edge m z y) same g)))
        | inr (inr c) ↦ inr (inr c)
      ];
    }
