-- ===== src/Blocking/Sorting.antt =====
-- The sorting of positions in `BlockingSet` of wendy.go.
use wendy.Common.{
  ℕ, suc, ◌≤◌, ◌≡◌, refl, List, [], ◌∷◌, arith, leb, length, Bool-cases, All, inl, inr, leb→le,
}
use wendy.Blocking.{insert_sorted, sort}

pub length-insert_sorted :
    (k : ℕ) (keys : List ℕ) → length (insert_sorted k keys) ≡ suc (length keys)
unfolding insert_sorted
length-insert_sorted k [] = refl
length-insert_sorted k (j ∷ keys) = ground (arith, length-insert_sorted k keys)

pub length-sort : (keys : List ℕ) → length (sort keys) ≡ length keys
unfolding sort
length-sort [] = refl
length-sort (k ∷ keys) = omega (arith, length-insert_sorted k (sort keys), length-sort keys)

-- No key is in front of a smaller one.
abbrev pub IsSorted : List ℕ → Type 0
IsSorted [] = Unit
IsSorted (k ∷ keys) = All (λ j. k ≤ j) keys × IsSorted keys

insert_sorted-All :
    (b k : ℕ) (keys : List ℕ)
    → b ≤ k
    → All (λ j. b ≤ j) keys
    → All (λ j. b ≤ j) (insert_sorted k keys)
unfolding insert_sorted
insert_sorted-All b k [] h a = (h, tt)
insert_sorted-All b k (j ∷ keys) h a = elim (Bool-cases (leb k j)) [
  | inl le ↦ rw (le, insert_sorted) (h, a)
  | inr gt ↦ rw (gt, insert_sorted) (a.0, insert_sorted-All b k keys h a.1)
]

All-le : (a b : ℕ) (keys : List ℕ) → a ≤ b → All (λ j. b ≤ j) keys → All (λ j. a ≤ j) keys
All-le a b [] h l = tt
All-le a b (k ∷ keys) h l = (omega arith, All-le a b keys h l.1)

pub insert_sorted-IsSorted :
    (k : ℕ) (keys : List ℕ) → IsSorted keys → IsSorted (insert_sorted k keys)
unfolding insert_sorted
insert_sorted-IsSorted k [] s = (tt, tt)
insert_sorted-IsSorted k (j ∷ keys) s = elim (Bool-cases (leb k j)) [
  | inl le ↦ rw (le, insert_sorted) ((leb→le k j le, All-le k j keys (leb→le k j le) s.0), s)
  | inr gt ↦
      rw (gt, insert_sorted)
        (insert_sorted-All j k keys (ground arith) s.0, insert_sorted-IsSorted k keys s.1)
]

-- Sorting gives an ascending list.
pub sort-IsSorted : (keys : List ℕ) → IsSorted (sort keys)
unfolding sort
sort-IsSorted [] = tt
sort-IsSorted (k ∷ keys) = insert_sorted-IsSorted k (sort keys) (sort-IsSorted keys)
