-- ===== src/Blocking/Marks.antt =====
-- The positions that `recompute` of wendy.go marks, as a list without repetitions.
use wendy.Common.{
  ℕ, zero, suc, ◌≡◌, Bool, false, List, [], ◌∷◌, Option, none, some, ◌==◌, get_elem?, Bool-cases,
  Option-cases, inl, inr, subst,
}
use wendy.Blocking.{contains, bind, visit, scan, recompute}

-- No position stands twice.
abbrev pub Distinct : List ℕ → Type 0
Distinct [] = Unit
Distinct (d ∷ deps) = (contains d deps ≡ false) × Distinct deps

-- What is returned has no position twice.
abbrev Ends : Option (List ℕ) → Type 0
Ends none = Unit
Ends (some deps) = Distinct deps

abbrev Keeps : (ℕ → List ℕ → Option (List ℕ)) → Type 0
Keeps search_from = (i : ℕ) (deps : List ℕ) → Distinct deps → Ends (search_from i deps)

bind-Ends :
    (o : Option (List ℕ)) (f : List ℕ → Option (List ℕ))
    → Ends o
    → ((deps : List ℕ) → Distinct deps → Ends (f deps))
    → Ends (bind o f)
bind-Ends none f e h = tt
bind-Ends (some deps) f e h = h deps e

visit-Ends :
    (search_from : ℕ → List ℕ → Option (List ℕ)) (index i : ℕ) (blocked : Bool) (deps : List ℕ)
    → Keeps search_from
    → Distinct deps
    → Ends (visit search_from index i blocked deps)
unfolding visit
visit-Ends search_from index i blocked deps keeps d = elim (Bool-cases (contains i deps)) [
  | inl marked ↦ rw (marked, visit) d
  | inr fresh ↦ elim (Bool-cases (i == index)) [
    | inl diagonal ↦ rw (fresh, diagonal, visit) (fresh, d)
    | inr other ↦ elim (Bool-cases blocked) [
      | inl set ↦ rw (fresh, other, set, visit) (keeps i (i ∷ deps) (fresh, d))
      | inr unset ↦ rw (fresh, other, unset, visit) d
    ]
  ]
]

scan-Ends :
    (search_from : ℕ → List ℕ → Option (List ℕ)) (index i : ℕ) (row : List Bool) (deps : List ℕ)
    → Keeps search_from
    → Distinct deps
    → Ends (scan search_from index i row deps)
unfolding scan
scan-Ends search_from index i [] deps keeps d = d
scan-Ends search_from index i (blocked ∷ row) deps keeps d =
    bind-Ends (visit search_from index i blocked deps) _
      (visit-Ends search_from index i blocked deps keeps d)
      (λ deps' d'. scan-Ends search_from index (suc i) row deps' keeps d')

recompute-Keeps : (fuel : ℕ) (m : List (List Bool)) → Keeps (recompute fuel m)
unfolding recompute
recompute-Keeps zero m i deps d = tt
recompute-Keeps (suc fuel) m i deps d = elim (Option-cases (get_elem? m i)) [
  | inl outside ↦ rw outside tt
  | inr (row, at) ↦ rw at (scan-Ends (recompute fuel m) i 0 row deps (recompute-Keeps fuel m) d)
]

-- Whatever a search from nothing marked returns has no position twice.
pub recompute-Distinct :
    (fuel : ℕ) (m : List (List Bool)) (i : ℕ) (deps : List ℕ)
    → recompute fuel m i [] ≡ some deps
    → Distinct deps
recompute-Distinct fuel m i deps returned = subst Ends returned (recompute-Keeps fuel m i [] tt)
