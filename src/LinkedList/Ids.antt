-- ===== src/LinkedList/Ids.antt =====
-- Lists whose elements have distinct ids, and an element's place by its id (utils/list, over
-- `container/list`).
use mathlib.Core.List.{append-nil, append_assoc}
use native.Mathlib.Nat.{le_refl}
use wendy.Common.{
  ℕ, suc, ◌<◌, ◌≡◌, refl, ap, sym, subst, ◌∙◌, ◌≤◌, List, [], ◌∷◌, ◌++◌, arith, All, All-append,
  All-of-append, All-mono,
}
use wendy.Common.Keyed
use wendy.LinkedList.{
  Element, GoList, first_of_list, after, insert_behind, remove_id, from_id, push_back, insert_after,
  remove, new,
}

module _ {ℓ} {A : Type ℓ} where
  -- No element has the id.
  abbrev pub Apart : ℕ → List (Element A) → Type 0
  Apart = Keyed.Apart (λ e. e.id)

  abbrev pub Distinct : List (Element A) → Type 0
  Distinct = Keyed.Distinct (λ e. e.id)

  abbrev pub Below : ℕ → List (Element A) → Type 0
  Below n = All (λ e. e.id < n)

module _ {ℓ} {A : Type ℓ} where
  pub after-split :
      (e : Element A) (xs ys : List (Element A))
      → Apart e.id xs
      → after e.id (xs ++ e ∷ ys) ≡ first_of_list ys
  unfolding after
  after-split e [] ys h = ground arith
  after-split e (x ∷ xs) ys h = ground (arith, after-split e xs ys h.1)

  pub insert_behind-split :
      (n e : Element A) (xs ys : List (Element A))
      → Apart e.id xs
      → insert_behind e.id n (xs ++ e ∷ ys) ≡ xs ++ e ∷ n ∷ ys
  unfolding insert_behind
  insert_behind-split n e [] ys h = ground arith
  insert_behind-split n e (x ∷ xs) ys h = ground (arith, insert_behind-split n e xs ys h.1)

  pub remove_id-split :
      (e : Element A) (xs ys : List (Element A))
      → Apart e.id xs
      → remove_id e.id (xs ++ e ∷ ys) ≡ xs ++ ys
  unfolding remove_id
  remove_id-split e [] ys h = ground arith
  remove_id-split e (x ∷ xs) ys h = ground (arith, remove_id-split e xs ys h.1)

  pub from_id-split :
      (e : Element A) (xs ys : List (Element A))
      → Apart e.id xs
      → from_id e.id (xs ++ e ∷ ys) ≡ e ∷ ys
  unfolding from_id
  from_id-split e [] ys h = ground arith
  from_id-split e (x ∷ xs) ys h = ground (arith, from_id-split e xs ys h.1)

  pub Below-Apart : (n : ℕ) (xs : List (Element A)) → Below n xs → Apart n xs
  Below-Apart n xs h = All-mono xs (λ x p q. omega arith) h

-- Ids are distinct and were all handed out.
pub record IsValid {ℓ} {A : Type ℓ} (l : GoList A) : Type 0 where
  pub distinct : Distinct l.elements
  pub fresh : Below l.next_id l.elements

le_suc : {a b : ℕ} → a ≤ b → a ≤ suc b
le_suc h = omega arith

module _ {ℓ} {A : Type ℓ} where
  pub new-IsValid : IsValid (new {A = A})
  unfolding new
  new-IsValid = record { distinct = tt; fresh = tt }

  -- A new id put between two parts of a list.
  join-IsValid :
      (l : GoList A) (v : A) (xs ys es : List (Element A))
      → Distinct (xs ++ ys)
      → Below l.next_id (xs ++ ys)
      → es ≡ xs ++ record { id = l.next_id; value = v } ∷ ys
      → IsValid (record { elements = es; next_id = suc l.next_id })
  join-IsValid l v xs ys es d f same =
      let n : Element A = record { id = l.next_id; value = v } in
      let (fx, fy) = All-of-append (λ e. e.id < l.next_id) xs ys f in
      let wider = λ (e : Element A) (h : e.id < l.next_id). le_suc h in
      record {
        distinct = subst Distinct (sym same) (
            Keyed.Distinct-join (λ e. e.id) n xs ys (Below-Apart l.next_id xs fx)
              (Below-Apart l.next_id ys fy) d);
        fresh = subst (Below (suc l.next_id)) (sym same) (
            All-append (λ e. e.id < suc l.next_id) xs (n ∷ ys) (All-mono xs wider fx)
              (le_refl (suc l.next_id), All-mono ys wider fy));
      }

  -- `InsertAfter` puts the value right behind the mark, as an element of its own.
  pub insert_after-split :
      (v : A) (l : GoList A) (e : Element A) (xs ys : List (Element A))
      → IsValid l
      → l.elements ≡ xs ++ e ∷ ys
      → let (n, l') = insert_after v e l in
        (n.value ≡ v)
        × (l'.elements ≡ (xs ++ e ∷ []) ++ n ∷ ys)
        × IsValid l'
        × Apart n.id (xs ++ e ∷ [])
  unfolding insert_after
  insert_after-split v l e xs ys valid split =
      let n : Element A = record { id = l.next_id; value = v } in
      let regroup = append_assoc xs (e ∷ []) ys in
      let d = subst Distinct (split ∙ sym regroup) valid.distinct in
      let f = subst (Below l.next_id) (split ∙ sym regroup) valid.fresh in
      let (ax, _, _) =
        Keyed.Distinct-split (λ e. e.id) e xs ys (subst Distinct split valid.distinct) in
      let same =
        ap (insert_behind e.id n) split
        ∙ insert_behind-split n e xs ys ax
        ∙ sym (append_assoc xs (e ∷ []) (n ∷ ys)) in
      (
        refl,
        same,
        join-IsValid l v (xs ++ e ∷ []) ys _ d f same,
        Below-Apart l.next_id (xs ++ e ∷ []) (All-of-append (λ e. e.id < l.next_id) _ ys f).0,
      )

  pub push_back-split :
      (v : A) (l : GoList A)
      → IsValid l
      → let (n, l') = push_back v l in
        (n.value ≡ v) × (l'.elements ≡ l.elements ++ n ∷ []) × IsValid l' × Apart n.id l.elements
  unfolding push_back
  push_back-split v l valid = (
    refl,
    refl,
    join-IsValid l v l.elements [] _ (rw append-nil valid.distinct) (rw append-nil valid.fresh)
        refl,
    Below-Apart l.next_id l.elements valid.fresh,
  )

  pub remove-split :
      (l : GoList A) (e : Element A) (xs ys : List (Element A))
      → IsValid l
      → l.elements ≡ xs ++ e ∷ ys
      → ((remove e l).elements ≡ xs ++ ys) × IsValid (remove e l)
  unfolding remove
  remove-split l e xs ys valid split =
      let (ax, _, d) =
        Keyed.Distinct-split (λ e. e.id) e xs ys (subst Distinct split valid.distinct) in
      let (fx, fy) =
        All-of-append (λ e. e.id < l.next_id) xs (e ∷ ys)
          (subst (Below l.next_id) split valid.fresh) in
      let same = ap (remove_id e.id) split ∙ remove_id-split e xs ys ax in
      (
        same,
        record {
          distinct = subst Distinct (sym same) d;
          fresh =
              subst (Below l.next_id) (sym same) (All-append (λ e. e.id < l.next_id) xs ys fx fy.1);
        },
      )
