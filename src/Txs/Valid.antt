-- ===== src/Txs/Valid.antt =====
-- The index of `Txs`: for every hash, where its transaction stands (tx.go).
use mathlib.Core.List.{append-nil}
use wendy.Common.Keyed
use wendy.Common.{
  ℕ, ◌+◌, ◌-◌, ◌≡◌, refl, ◌≢◌, ap, sym, ◌∙◌, true, false, ite, List, [], ◌∷◌, ◌++◌, Option, none,
  some, arith, length, get_elem?, lookup, insert, lookup-insert, length-append, inl, inr, In,
  In-append, get_elem?-append, subst, Option-cases, ◌⊎◌,
}
use wendy.Crypto.{bytes_dec}
use wendy.Types.{Hash, Tx}
use wendy.Txs.{Txs, reset, push, push_all, find_by_hash}

-- A position, seen from `k` places further to the front.
abbrev pub shift : ℕ → Option ℕ → Option ℕ
shift k none = none
shift k (some i) = some (k + i)

-- The position of the first transaction with the hash.
unfoldable pub index_of : Hash → List Tx → Option ℕ
index_of h [] = none
index_of h (tx ∷ txs) = ite (bytes_dec tx.hash h) (some 0) (shift 1 (index_of h txs))

abbrev pub Other : Hash → List Tx → Type 0
Other = Keyed.Apart (λ tx. tx.hash)

abbrev pub Distinct : List Tx → Type 0
Distinct = Keyed.Distinct (λ tx. tx.hash)

-- No hash stands twice, and the index gives each hash's position, and none for a hash that is
-- not in the list.
pub record IsValid (txs : Txs) : Type 0 where
  pub distinct : Distinct txs.list
  pub indexed : (h : Hash) → lookup bytes_dec h txs.by_hash ≡ index_of h txs.list

pub index_of_absent : (h : Hash) (xs : List Tx) → Other h xs → index_of h xs ≡ none
unfolding index_of
index_of_absent h [] o = refl
index_of_absent h (x ∷ xs) o = ground (arith, index_of_absent h xs o.1)

pub Other-of_none : (h : Hash) (xs : List Tx) → index_of h xs ≡ none → Other h xs
unfolding index_of
Other-of_none h [] e = tt
Other-of_none h (x ∷ xs) e = ground (arith, Other-of_none h xs)

-- The first part of a list is searched first.
pub index_of-append :
    (h : Hash) (xs ys : List Tx)
    → index_of h (xs ++ ys)
      ≡ elim (index_of h xs) [ none ↦ shift (length xs) (index_of h ys) | some i ↦ some i ]
unfolding index_of
index_of-append h [] ys = ground arith
index_of-append h (x ∷ xs) ys = ground (arith, index_of-append h xs ys)

-- A hash that is found splits the list at its transaction.
pub index_of-split :
    (h : Hash) (xs : List Tx) (i : ℕ)
    → index_of h xs ≡ some i
    → (pre post : List Tx) × (tx : Tx) × (xs ≡ pre ++ tx ∷ post)
      × (tx.hash ≡ h)
      × Other h pre
      × (length pre ≡ i)
unfolding index_of
index_of-split h [] i e = cc
index_of-split h (x ∷ xs) i e = elim (bytes_dec x.hash h) [
  | yes p ↦ ([], xs, x, refl, p, tt, ground arith)
  | no p ↦ elim (Option-cases (index_of h xs)) [
    | inl missing ↦ absurd (ground arith)
    | inr (j, found) ↦
        let (pre, post, tx, split, hash, other, len) = index_of-split h xs j found in
        (x ∷ pre, post, tx, ap (◌∷◌ x) split, hash, (p, other), ground arith)
  ]
]

pub Distinct-append :
    (xs : List Tx) (tx : Tx) → Distinct xs → Other tx.hash xs → Distinct (xs ++ tx ∷ [])
Distinct-append xs tx d o = Keyed.Distinct-join (λ t. t.hash) tx xs [] o tt (rw append-nil d)

pub reset-IsValid : IsValid reset
unfolding reset index_of
reset-IsValid = record { distinct = tt; indexed = λ h. refl }

push_index :
    (tx : Tx) (txs : Txs) (h : Hash)
    → IsValid txs
    → index_of tx.hash txs.list ≡ none
    → lookup bytes_dec h (insert bytes_dec tx.hash (length (txs.list ++ tx ∷ []) - 1) txs.by_hash)
      ≡ index_of h (txs.list ++ tx ∷ [])
unfolding index_of
push_index tx txs h v fresh = ground (
  arith,
  lookup-insert bytes_dec tx.hash h (length (txs.list ++ tx ∷ []) - 1) txs.by_hash,
  index_of-append h txs.list (tx ∷ []),
  v.indexed h,
  length-append txs.list (tx ∷ []),
)

-- `Push` refuses a transaction whose hash is there and changes nothing, and otherwise puts it at
-- the end; either way the index stays right.
pub push-IsValid :
    (tx : Tx) (txs : Txs)
    → IsValid txs
    → IsValid (push tx txs).0
      × (((index_of tx.hash txs.list ≢ none) × (push tx txs ≡ (txs, false)))
          ⊎ (Other tx.hash txs.list
              × ((push tx txs).0.list ≡ txs.list ++ tx ∷ [])
              × ((push tx txs).1 ≡ true)))
unfolding push
push-IsValid tx txs v = elim (Option-cases (index_of tx.hash txs.list)) [
  | inr (i, found) ↦ let e = v.indexed tx.hash ∙ found in rw (e, push) (v, inl ((λ n. cc), refl))
  | inl fresh ↦
      let e = v.indexed tx.hash ∙ fresh in
      let o = Other-of_none tx.hash txs.list fresh in
      rw (e, push)
        (
          record {
            distinct = Distinct-append txs.list tx v.distinct o;
            indexed = λ h. push_index tx txs h v fresh;
          },
          inr (o, refl, refl),
        )
]

pub push_all-IsValid : (list : List Tx) (txs : Txs) → IsValid txs → IsValid (push_all list txs)
unfolding push_all
push_all-IsValid [] txs v = v
push_all-IsValid (tx ∷ list) txs v = push_all-IsValid list (push tx txs).0 (push-IsValid tx txs v).0

-- On a valid set ByHash returns nil and no transaction of the list has the hash, or it returns a
-- transaction of the list that has the hash.
pub find_by_hash-find :
    (h : Hash) (txs : Txs)
    → IsValid txs
    → ((find_by_hash h txs ≡ none) × Other h txs.list)
      ⊎ ((tx : Tx) × (find_by_hash h txs ≡ some tx) × (tx.hash ≡ h) × In tx txs.list)
unfolding find_by_hash
find_by_hash-find h txs v = elim (Option-cases (index_of h txs.list)) [
  | inl missing ↦
      let e = v.indexed h ∙ missing in
      rw (e, find_by_hash) (inl (refl, Other-of_none h txs.list missing))
  | inr (i, found) ↦
      let e = v.indexed h ∙ found in
      let (pre, post, tx, split, hash, _, len) = index_of-split h txs.list i found in
      inr (
        tx,
        rw (e, find_by_hash)
            (ap (λ l. get_elem? l i) split
              ∙ subst (λ k. get_elem? (pre ++ tx ∷ post) k ≡ some tx) len
                  (get_elem?-append pre tx post)),
        hash,
        subst (In tx) (sym split) (In-append pre tx post),
      )
]
