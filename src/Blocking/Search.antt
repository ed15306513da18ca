-- ===== src/Blocking/Search.antt =====
-- The search of `recompute` of wendy.go: its fuel, and what it finds.
use mathlib.Core.Bool.{false≢true}
use native.Mathlib.Nat.{add-zero}
use wendy.Common.{
  false, ◌≤◌, ℕ, zero, suc, ◌+◌, ◌<◌, ◌≡◌, ◌↔◌, refl, ap, sym, ◌∙◌, subst, Bool, true, List, [],
  ◌∷◌, Option, some, arith, ◌==◌, get_elem?, length, Bool-cases, All, inl, inr,
}
use wendy.Blocking.{contains, visit, scan, recompute}
use wendy.Blocking.Missing.{missing, missing-Within, missing_cons, missing-le}
use wendy.Blocking.Reach.{
  IsSquare, Edge, Reach, here, step, Searched, Searched-refl, Searched-trans, Searched-diagonal,
  Found, Searched-Edge, contains_self,
}

-- What holds at the set entries of a row, from its first entry and its rest.
set_entries :
    (P : ℕ → Type 0) (i : ℕ) (blocked : Bool) (row : List Bool)
    → (blocked ≡ true → P i)
    → ((j : ℕ) → get_elem? row j ≡ some true → P (suc i + j))
    → (j : ℕ) → get_elem? (blocked ∷ row) j ≡ some true
    → P (i + j)
set_entries P i blocked row h t zero e = subst P (sym (add-zero i)) (h (cc))
set_entries P i blocked row h t (suc j) e = subst P {x = suc i + j} (omega arith) (t j e)

positions :
    (P : ℕ → Type 0) (i n : ℕ)
    → P i
    → ((j : ℕ) → j < n → P (suc i + j))
    → (j : ℕ) → j < suc n
    → P (i + j)
positions P i n h t zero lt = subst P (sym (add-zero i)) h
positions P i n h t (suc j) lt = subst P {x = suc i + j} (omega arith) (t j (omega arith))

same_row : {o : Option (List Bool)} {r q : List Bool} → o ≡ some r → o ≡ some q → r ≡ q
same_row e f = cc

entry :
    (rows : List (List Bool)) (i n : ℕ)
    → i < length rows
    → All (λ row. length row ≡ n) rows
    → (row : List Bool) × (get_elem? rows i ≡ some row) × (length row ≡ n)
entry [] i n lt a = elim lt [ ]
entry (row ∷ rows) zero n lt a = (row, refl, a.0)
entry (row ∷ rows) (suc i) n lt a = entry rows i n (omega arith) a.1

module _ (m : List (List Bool)) (square : IsSquare m) where
  -- The recursive call answers for every position, with enough fuel for what is not marked.
  abbrev Answers : (ℕ → List ℕ → Option (List ℕ)) → ℕ → Type 0
  Answers search_from fuel =
      (i : ℕ) (deps : List ℕ)
      → i < length m
      → missing (length m) deps < fuel
      → (deps' : List ℕ) × (search_from i deps ≡ some deps') × Found m i deps deps'

  visit-Searched :
      (search_from : ℕ → List ℕ → Option (List ℕ)) (fuel index i : ℕ) (blocked : Bool)
      (deps : List ℕ)
      → Answers search_from fuel
      → i < length m
      → missing (length m) deps < suc fuel
      → (blocked ≡ true → Edge m index i)
      → (deps' : List ℕ) × (visit search_from index i blocked deps ≡ some deps')
        × Searched m index deps deps'
        × (blocked ≡ true → contains i deps' ≡ true)
        × (i ≡ index → contains i deps' ≡ true)
  unfolding visit
  visit-Searched search_from fuel index i blocked deps answers inside enough edge =
      elim (Bool-cases (contains i deps)) [
        | inl marked ↦ (deps, rw marked, Searched-refl m index deps, (λ _. marked), (λ _. marked))
        | inr fresh ↦ elim (Bool-cases (i == index)) [
          | inl diagonal ↦
              let same : index ≡ i = ground arith in
              (
                i ∷ deps,
                rw (fresh, diagonal),
                subst (λ k. Searched m index deps (k ∷ deps)) same
                    (Searched-diagonal m index deps (omega arith)
                      (subst (λ k. contains k deps ≡ false) (sym same) fresh)),
                (λ _. contains_self i deps),
                (λ _. contains_self i deps),
              )
          | inr other ↦ elim (Bool-cases blocked) [
            | inl set ↦
                let (deps', answer, found) =
                  answers i (i ∷ deps) inside
                    (omega (arith, missing_cons (length m) i deps inside fresh)) in
                (
                  deps',
                  rw (fresh, other, set) answer,
                  Searched-Edge m index i deps deps' (edge set) inside fresh found,
                  (λ _. found.itself),
                  (λ _. found.itself),
                )
            | inr unset ↦ (
              deps,
              rw (fresh, other, unset),
              Searched-refl m index deps,
              (λ set. absurd (false≢true (sym unset ∙ set))),
              (λ same. absurd (ground arith)),
            )
          ]
        ]
      ]

  scan-Searched :
      (search_from : ℕ → List ℕ → Option (List ℕ)) (fuel index i : ℕ) (row : List Bool)
      (deps : List ℕ)
      → Answers search_from fuel
      → i + length row ≡ length m
      → missing (length m) deps < suc fuel
      → ((j : ℕ) → get_elem? row j ≡ some true → Edge m index (i + j))
      → (deps' : List ℕ) × (scan search_from index i row deps ≡ some deps')
        × Searched m index deps deps'
        × ((j : ℕ) → get_elem? row j ≡ some true → contains (i + j) deps' ≡ true)
        × ((j : ℕ) → j < length row → i + j ≡ index → contains index deps' ≡ true)
  unfolding scan
  scan-Searched search_from fuel index i [] deps answers size enough edges =
      (deps, refl, Searched-refl m index deps, (λ j h. cc), (λ j h. absurd (omega arith)))
  scan-Searched search_from fuel index i (blocked ∷ row) deps answers size enough edges =
      let (mid, visited, first_part, covered, diagonal) =
        visit-Searched search_from fuel index i blocked deps answers (omega arith) enough
          (λ h. subst (Edge m index) (add-zero i) (edges 0 (ap some h))) in
      let (last, scanned, second_part, others, diagonals) =
        scan-Searched search_from fuel index (suc i) row mid answers (omega arith)
          (omega (arith, missing-Within (length m) deps mid first_part.keeps))
          (λ j h. subst (Edge m index) (omega arith) (edges (suc j) h)) in
      (
        last,
        rw visited scanned,
        Searched-trans m index deps mid last first_part second_part,
        set_entries (λ k. contains k last ≡ true) i blocked row
            (λ h. second_part.keeps i (covered h)) others,
        positions (λ k. k ≡ index → contains index last ≡ true) i (length row)
            (λ same. subst (λ k. contains k last ≡ true) same (second_part.keeps i (diagonal same)))
            diagonals,
      )

  row_of :
      (index : ℕ)
      → index < length m
      → (row : List Bool) × (get_elem? m index ≡ some row) × (length row ≡ length m)
  row_of index inside = entry m index (length m) inside square

  -- With fuel above the number of unmarked positions the search returns.
  recompute-Found : (fuel : ℕ) → Answers (recompute fuel m) fuel
  unfolding recompute
  recompute-Found zero index deps inside enough = absurd (omega arith)
  recompute-Found (suc fuel) index deps inside enough =
      let (row, at_index, size) = row_of index inside in
      let (deps', scanned, searched, covered, diagonal) =
        scan-Searched (recompute fuel m) fuel index 0 row deps (recompute-Found fuel) (omega arith)
          enough
          (λ j h. (row, at_index, subst (λ k. get_elem? row k ≡ some true) (omega arith) h)) in
      (
        deps',
        rw at_index scanned,
        record {
          searched = searched;
          edges = λ y e.
              let same : e.0 ≡ row = same_row (e.1) at_index in
              subst (λ k. contains k deps' ≡ true) {x = 0 + y} (omega arith)
                (covered y (subst (λ r. get_elem? r y ≡ some true) same e.2));
          itself = diagonal index (omega arith) (omega arith);
        },
      )

  -- A search that starts with nothing marked holds all that can be reached.
  Found-complete :
      (index : ℕ) (deps' : List ℕ)
      → Found m index [] deps'
      → (x : ℕ) → Reach m index x
      → contains x deps' ≡ true
  Found-complete index deps' found x here = found.itself
  Found-complete index deps' found x (step {j = j} r e) =
      elim (found.searched.closed j (Found-complete index deps' found j r)) [
        | inl old ↦ absurd (false≢true old)
        | inr (inl same) ↦ found.edges x (subst (λ k. Edge m k x) same e)
        | inr (inr c) ↦ c x e
      ]

-- On a square matrix and an index inside it, recompute returns with one unit of fuel more than
-- there are rows; it has marked exactly the positions that can be reached from the index along set
-- entries, the index included, and no more positions than there are rows.
pub recompute-Reach :
    (m : List (List Bool)) (index : ℕ)
    → IsSquare m
    → index < length m
    → (deps : List ℕ) × (recompute (suc (length m)) m index [] ≡ some deps)
      × ((x : ℕ) → (contains x deps ≡ true) ↔ Reach m index x)
      × (length deps ≤ length m)
recompute-Reach m index square inside =
    let (deps, returned, found) =
      recompute-Found m square (suc (length m)) index [] inside
        (omega (arith, missing-le (length m) [])) in
    (
      deps,
      returned,
      (λ x. (
        (λ h. elim (found.searched.sound x h) [ inl old ↦ absurd (false≢true old) | inr r ↦ r ]),
        Found-complete m square index deps found x,
      )),
      omega (arith, found.searched.counted, missing-le (length m) []),
    )
