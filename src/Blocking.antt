-- ===== src/Blocking.antt =====
-- `recompute` of wendy.go: which transactions a transaction depends on, by a depth-first search
-- over the matrix of blocked pairs; and the ascending list of their positions.
pub mod Reach
pub mod Missing
pub mod Search
pub mod Marks
pub mod Sorting
use wendy.Common.{
  ℕ, zero, suc, Bool, true, false, List, [], ◌∷◌, Option, none, some, ◌==◌, leb, if◌then◌else◌,
  get_elem?, length,
}

-- The keys of a `map[int]struct{}`.
abbrev pub contains : ℕ → List ℕ → Bool
contains i [] = false
contains i (d ∷ deps) = if d == i then true else contains i deps

abbrev pub bind {ℓ κ} : {A : Type ℓ} {B : Type κ} → Option A → (A → Option B) → Option B
bind none f = none
bind (some a) f = f a

-- One round of the loop of `recompute`; `search` is the recursive call.
unfoldable pub visit : (ℕ → List ℕ → Option (List ℕ)) → ℕ → ℕ → Bool → List ℕ → Option (List ℕ)
visit search_from index i blocked deps =
    if contains i deps
    then some deps
    else if i == index
    then some (i ∷ deps)
    else if blocked
    then search_from i (i ∷ deps)
    else some deps

-- The loop over the rest of a row, from position `i` on.
unfoldable pub scan : (ℕ → List ℕ → Option (List ℕ)) → ℕ → ℕ → List Bool → List ℕ → Option (List ℕ)
scan search_from index i [] deps = some deps
scan search_from index i (blocked ∷ row) deps =
    bind (visit search_from index i blocked deps)
      (λ deps'. scan search_from index (suc i) row deps')

-- `recompute`, with fuel for the depth of the calls; `none` stands for fuel that ran out, and for
-- the panic at an index outside the matrix.
unfoldable pub recompute : ℕ → List (List Bool) → ℕ → List ℕ → Option (List ℕ)
unfolding scan visit
recompute zero matrix index deps = none
recompute (suc fuel) matrix index deps =
    bind (get_elem? matrix index) (λ row. scan (recompute fuel matrix) index 0 row deps)

-- `sort.Sort` of integers, by insertion.
unfoldable pub insert_sorted : ℕ → List ℕ → List ℕ
insert_sorted k [] = k ∷ []
insert_sorted k (j ∷ keys) = if leb k j then k ∷ j ∷ keys else j ∷ insert_sorted k keys

unfoldable pub sort : List ℕ → List ℕ
unfolding insert_sorted
sort [] = []
sort (k ∷ keys) = insert_sorted k (sort keys)
