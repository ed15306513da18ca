-- ===== src/Blocking/Missing.antt =====
-- The number of positions that the search of wendy.go's `recompute` has not marked yet.
use wendy.Common.{
  true, ℕ, zero, suc, ◌+◌, ◌<◌, ◌≤◌, ◌≡◌, refl, false, List, ◌∷◌, arith, if◌then◌else◌, dec_lt,
}
use wendy.Blocking.{contains}

abbrev pub Within : List ℕ → List ℕ → Type 0
Within deps deps' = (x : ℕ) → contains x deps ≡ true → contains x deps' ≡ true

-- How many positions below `n` are not marked.
pub missing : ℕ → List ℕ → ℕ
missing zero deps = 0
missing (suc n) deps = (if contains n deps then 0 else 1) + missing n deps

pub missing-Within :
    (n : ℕ) (deps deps' : List ℕ) → Within deps deps' → missing n deps' ≤ missing n deps
unfolding missing
missing-Within zero deps deps' h = omega arith
missing-Within (suc n) deps deps' h = ground (arith, missing-Within n deps deps' h, h n)

pub missing_cons_above : (n i : ℕ) (deps : List ℕ) → n ≤ i → missing n (i ∷ deps) ≡ missing n deps
unfolding missing
missing_cons_above zero i deps h = refl
missing_cons_above (suc n) i deps h = ground (arith, missing_cons_above n i deps)

-- Marking a new position leaves one less.
pub missing_cons :
    (n i : ℕ) (deps : List ℕ)
    → i < n
    → contains i deps ≡ false
    → missing n (i ∷ deps) + 1 ≡ missing n deps
unfolding missing
missing_cons zero i deps h f = absurd (omega arith)
missing_cons (suc n) i deps h f = elim (dec_lt i n) [
  | yes lt ↦ ground (arith, missing_cons n i deps lt f)
  | no ge ↦ let same : i ≡ n = omega arith in ground (arith, missing_cons_above n i deps)
]

pub missing-le : (n : ℕ) (deps : List ℕ) → missing n deps ≤ n
unfolding missing
missing-le zero deps = omega arith
missing-le (suc n) deps = ground (arith, missing-le n deps)
