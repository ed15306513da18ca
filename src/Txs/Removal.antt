-- ===== src/Txs/Removal.antt =====
-- `RemoveByHash` and the index (tx.go).
use mathlib.Core.Path.{ap₂}
use wendy.Common.Keyed
use wendy.Common.{
  ℕ, suc, ◌+◌, ◌-◌, ◌≡◌, refl, ◌≢◌, ap, sym, ◌∙◌, subst, true, false, Bool-cases, ite, List, [],
  ◌∷◌, ◌++◌, Option, none, some, arith, length, take, drop, lookup, delete, lookup-insert,
  lookup-delete, length-append, take-append, drop-append, inl, inr, Option-cases, ◌⊎◌, ◌==◌,
  All-of-append,
}
use wendy.Crypto.{bytes_dec}
use wendy.Types.{Hash, Tx}
use wendy.Txs.{Txs, reset, decrement, reindex, remove_by_hash}
use wendy.Txs.Valid.{
  index_of, Other, Distinct, IsValid, index_of_absent, Other-of_none, index_of-append,
  index_of-split, reset-IsValid,
}

abbrev one_less : Option ℕ → Option ℕ
one_less none = none
one_less (some i) = some (i - 1)

lookup-decrement :
    (h q : Hash) (m : List (Hash × ℕ))
    → lookup bytes_dec q (decrement h m)
      ≡ ite (bytes_dec h q) (one_less (lookup bytes_dec h m)) (lookup bytes_dec q m)
unfolding decrement
lookup-decrement h q m = elim (Option-cases (lookup bytes_dec h m)) [
  | inl e ↦ rw (e, decrement) (ground arith)
  | inr (i, e) ↦ rw (e, decrement) (lookup-insert bytes_dec h q (i - 1) m)
]

-- Each transaction of the loop has its entry lowered by one, and no other entry changes.
lookup-reindex :
    (q : Hash) (post : List Tx) (m : List (Hash × ℕ))
    → Distinct post
    → lookup bytes_dec q (reindex post m) ≡ elim (index_of q post) [
      | none ↦ lookup bytes_dec q m
      | some _ ↦ one_less (lookup bytes_dec q m)
    ]
unfolding reindex index_of
lookup-reindex q [] m d = refl
lookup-reindex q (x ∷ post) m d = elim (bytes_dec x.hash q) [
  | yes p ↦ ground (
    arith,
    lookup-reindex q post (decrement x.hash m) d.1,
    lookup-decrement x.hash q m,
    index_of_absent x.hash post d.0,
  )
  | no p ↦
      ground (arith, lookup-reindex q post (decrement x.hash m) d.1, lookup-decrement x.hash q m)
]

-- A hash of the first part is not in the second.
index_of_disjoint :
    (q : Hash) (xs ys : List Tx) (i : ℕ)
    → Distinct (xs ++ ys)
    → index_of q xs ≡ some i
    → index_of q ys ≡ none
unfolding index_of
index_of_disjoint q [] ys i d e = cc
index_of_disjoint q (x ∷ xs) ys i d e = elim (bytes_dec x.hash q) [
  | yes p ↦
      index_of_absent q ys
        (subst (λ h. Other h ys) p (All-of-append (λ t. t.hash ≢ x.hash) xs ys d.0).1)
  | no p ↦ elim (Option-cases (index_of q xs)) [
    | inl missing ↦ absurd (ground arith)
    | inr (j, found) ↦ index_of_disjoint q xs ys j d.1 found
  ]
]

module _ (h : Hash) (txs : Txs) (pre post : List Tx) (tx : Tx) (v : IsValid txs)
    (split : txs.list ≡ pre ++ tx ∷ post) (hash : tx.hash ≡ h) where
  distinct : Distinct (pre ++ tx ∷ post)
  distinct = subst Distinct split v.distinct

  removal_index :
      (q : Hash)
      → lookup bytes_dec q (delete bytes_dec h (reindex post txs.by_hash))
        ≡ index_of q (pre ++ post)
  unfolding index_of
  removal_index q =
      let (before, later, d) = Keyed.Distinct-split (λ t. t.hash) tx pre post distinct in
      let found = v.indexed q ∙ ap (index_of q) split in
      elim (Option-cases (index_of q pre)) [
        | inl missing ↦ ground (
          arith,
          found,
          missing,
          lookup-delete bytes_dec h q (reindex post txs.by_hash),
          lookup-reindex q post txs.by_hash (Keyed.Distinct-of-append (λ t. t.hash) pre post d).1,
          index_of-append q pre (tx ∷ post),
          index_of-append q pre post,
          index_of_absent tx.hash post later,
        )
        | inr (i, e) ↦ ground (
          arith,
          found,
          e,
          lookup-delete bytes_dec h q (reindex post txs.by_hash),
          lookup-reindex q post txs.by_hash (Keyed.Distinct-of-append (λ t. t.hash) pre post d).1,
          index_of-append q pre (tx ∷ post),
          index_of-append q pre post,
          index_of_disjoint q pre post i d e,
          index_of_absent tx.hash pre before,
        )
      ]

nil_of_length : (xs : List Tx) → length xs ≡ 0 → xs ≡ []
nil_of_length [] e = refl
nil_of_length (x ∷ xs) e = absurd (omega arith)

-- What is left around the removed transaction, also where it was the only one.
remaining :
    (list pre post : List Tx) (tx : Tx) (i : ℕ)
    → list ≡ pre ++ tx ∷ post
    → length pre ≡ i
    → (take i list ++ drop (i + 1) list ≡ pre ++ post)
      × (drop (i + 1) list ≡ post)
      × (length list ≡ 1 → pre ++ post ≡ [])
remaining list pre post tx i split len =
    let t : take i list ≡ pre =
      ap (take i) split
      ∙ subst (λ k. take k (pre ++ tx ∷ post) ≡ pre) len (take-append pre (tx ∷ post)) in
    let d : drop (i + 1) list ≡ post =
      ap (drop (i + 1)) split
      ∙ subst (λ k. drop k (pre ++ tx ∷ post) ≡ post) {x = suc (length pre)} (omega arith)
          (drop-append pre tx post) in
    let n = ap length split ∙ length-append pre (tx ∷ post) in
    (
      ap₂ (λ a b. a ++ b) t d,
      d,
      λ one.
          ap₂ (λ a b. a ++ b) (nil_of_length pre (omega (arith, n)))
            (nil_of_length post (omega (arith, n))),
    )

-- On a valid set RemoveByHash gives a valid one; either no transaction has the hash, nothing
-- changes and it returns false, or one transaction with the hash is taken out of the list, the
-- others stay in their order, and it returns true.
pub remove_by_hash-IsValid :
    (h : Hash) (txs : Txs)
    → IsValid txs
    → IsValid (remove_by_hash h txs).0
      × ((Other h txs.list × (remove_by_hash h txs ≡ (txs, false)))
          ⊎ ((pre post : List Tx) × (tx : Tx) × (txs.list ≡ pre ++ tx ∷ post)
              × (tx.hash ≡ h)
              × ((remove_by_hash h txs).0.list ≡ pre ++ post)
              × ((remove_by_hash h txs).1 ≡ true)))
unfolding remove_by_hash reset
remove_by_hash-IsValid h txs v = elim (Option-cases (index_of h txs.list)) [
  | inl missing ↦
      let e = v.indexed h ∙ missing in
      rw (e, remove_by_hash) (v, inl (Other-of_none h txs.list missing, refl))
  | inr (i, found) ↦
      let e = v.indexed h ∙ found in
      let (pre, post, tx, split, hash, _, len) = index_of-split h txs.list i found in
      let (rest, behind, single) = remaining txs.list pre post tx i split len in
      let (_, _, d) =
        Keyed.Distinct-split (λ t. t.hash) tx pre post (subst Distinct split v.distinct) in
      elim (Bool-cases (length txs.list == 1)) [
        | inl one ↦
            rw (e, one, remove_by_hash)
              (reset-IsValid, inr (pre, post, tx, split, hash, sym (single (ground arith)), refl))
        | inr more ↦
            rw (e, more, remove_by_hash)
              (
                record {
                  distinct = subst Distinct (sym rest) d;
                  indexed = λ q.
                      ap (λ t. lookup bytes_dec q (delete bytes_dec h (reindex t txs.by_hash)))
                        behind
                      ∙ removal_index h txs pre post tx v split hash q
                      ∙ ap (index_of q) (sym rest);
                },
                inr (pre, post, tx, split, hash, rest, refl),
              )
      ]
]
