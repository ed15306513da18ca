-- ===== src/LinkedList/Searches.antt =====
-- What `First`, `DiscardFirst`, `Discard` and `All` of utils/list compute on a valid list.
use mathlib.Core.List.{
  reverse, append_assoc, append-nil, reverse-reverse, reverse-append, map-append, reverse-cons,
}
use wendy.Common.{
  ℕ, zero, suc, ◌<◌, ◌≡◌, refl, ap, sym, ◌∙◌, subst, Bool, true, false, Bool-cases, List, [], ◌∷◌,
  ◌++◌, Option, arith, length, All, find, find-some, find-none, inl, inr, length-append, rejected,
  accepted, rejected-reverse, length-accepted-reverse, map, Option-cases, ◌⊎◌,
}
use wendy.Common.Keyed
use wendy.LinkedList.{
  Element, GoList, first_of_list, after, next, prev, front, back, each_from, each_forward,
  each_backward, each, is_backward, first, remove, discard, collect_match, all, new, push_back,
  discard_first,
}
use wendy.LinkedList.Ids.{
  Distinct, IsValid, after-split, remove-split, new-IsValid, push_back-split,
}
use wendy.LinkedList.Loops.{visited, first_loop, discard_loop}

length-reverse {ℓ} : {A : Type ℓ} (xs : List A) → length (reverse xs) ≡ length xs
length-reverse [] = refl
length-reverse (x ∷ xs) =
    omega
      (arith, ap length (reverse-cons x xs), length-append (reverse xs) (x ∷ []), length-reverse xs)

module _ {ℓ} {A : Type ℓ} (p : Element A → Bool) (opts : List ℕ) (l : GoList A) where
  -- On a valid list First returns the first element, in the order of the visit, that the test
  -- accepts, or nil if there is none.
  pub first-find : IsValid l → first p opts l ≡ find p (visited opts l.elements)
  unfolding first visited each each_forward each_backward next prev front back
  first-find valid = elim (Bool-cases (is_backward opts)) [
    | inl h ↦
        rw (h, first, each)
          (ap (λ t. t.1)
            (first_loop p prev l [] (reverse l.elements) (suc (length l.elements)) (λ e. refl)
              (Keyed.Distinct-reverse (λ e. e.id) l.elements valid.distinct)
              (omega (arith, length-reverse l.elements))))
    | inr h ↦
        rw (h, first, each)
          (ap (λ t. t.1)
            (first_loop p next l [] l.elements (suc (length l.elements)) (λ e. refl) valid.distinct
              (omega arith)))
  ]

module _ {ℓ} {A : Type ℓ} (p : Element A → Bool) (opts : List ℕ) (l : GoList A) where
  reversed-rejected :
      (es : List (Element A))
      → reverse es ≡ rejected p (reverse l.elements)
      → es ≡ rejected p l.elements
  reversed-rejected es e =
      sym (reverse-reverse es)
      ∙ ap reverse (e ∙ rejected-reverse p l.elements)
      ∙ reverse-reverse (rejected p l.elements)

  removes_forward :
      (m : GoList A) (e : Element A) (us vs : List (Element A))
      → IsValid m
      → m.elements ≡ us ++ e ∷ vs
      → ((remove e m).elements ≡ us ++ vs) × IsValid (remove e m)
  removes_forward m e us vs valid split = remove-split m e us vs valid split

  removes_backward :
      (m : GoList A) (e : Element A) (us vs : List (Element A))
      → IsValid m
      → reverse m.elements ≡ us ++ e ∷ vs
      → (reverse (remove e m).elements ≡ us ++ vs) × IsValid (remove e m)
  removes_backward m e us vs valid split =
      let there =
        sym (reverse-reverse m.elements)
        ∙ ap reverse split
        ∙ reverse-append us (e ∷ vs)
        ∙ ap (λ t. t ++ reverse us) (reverse-cons e vs)
        ∙ append_assoc (reverse vs) (e ∷ []) (reverse us) in
      let (gone, valid') = remove-split m e (reverse vs) (reverse us) valid there in
      (
        ap reverse gone
            ∙ reverse-append (reverse vs) (reverse us)
            ∙ ap (λ t. t ++ reverse (reverse vs)) (reverse-reverse us)
            ∙ ap (◌++◌ us) (reverse-reverse vs),
        valid',
      )

  removes_visited :
      (e : Element A) (us vs : List (Element A))
      → IsValid l
      → visited opts l.elements ≡ us ++ e ∷ vs
      → (visited opts (remove e l).elements ≡ us ++ vs) × IsValid (remove e l)
  unfolding visited
  removes_visited e us vs valid split = elim (Bool-cases (is_backward opts)) [
    | inl h ↦ rw h (removes_backward l e us vs valid (rw h at split))
    | inr h ↦ rw h (removes_forward l e us vs valid (rw h at split))
  ]

  -- On a valid list Discard, in either direction, leaves exactly the elements that the test
  -- refuses, in their order, returns the number of the others, and the list stays valid.
  pub discard-rejected :
      IsValid l
      → let (l', count) = discard p opts l in
        (l'.elements ≡ rejected p l.elements)
        × (count ≡ length (accepted p l.elements))
        × IsValid l'
  unfolding discard each each_forward each_backward next prev front back
  discard-rejected valid = elim (Bool-cases (is_backward opts)) [
    | inl h ↦
        let (rest, count, valid') =
          discard_loop p prev reverse l [] (reverse l.elements) 0 (suc (length l.elements))
            (λ m e. refl) removes_backward valid
            (Keyed.Distinct-reverse (λ e. e.id) l.elements valid.distinct) refl
            (omega (arith, length-reverse l.elements)) in
        rw h (
          reversed-rejected _ rest,
          omega (arith, count, length-accepted-reverse p l.elements),
          valid',
        )
    | inr h ↦
        let (rest, count, valid') =
          discard_loop p next (λ es. es) l [] l.elements 0 (suc (length l.elements)) (λ m e. refl)
            removes_forward valid valid.distinct refl (omega arith) in
        rw h (rest, omega (arith, count), valid')
  ]

  -- On a valid list DiscardFirst either returns false, changes nothing and the test accepts no
  -- element, or it returns true and has taken out the first element of the visit that the test
  -- accepts, with the list valid.
  pub discard_first_cases :
      IsValid l
      → let (l', found) = discard_first p opts l in
        ((found ≡ false) × (l' ≡ l) × All (λ e. p e ≡ false) (visited opts l.elements))
        ⊎ ((e : Element A) × (pre post : List (Element A)) × (found ≡ true)
            × (p e ≡ true)
            × All (λ f. p f ≡ false) pre
            × (visited opts l.elements ≡ pre ++ e ∷ post)
            × (visited opts l'.elements ≡ pre ++ post)
            × IsValid l')
  unfolding discard_first
  discard_first_cases valid = elim (Option-cases (first p opts l)) [
    | inl none_found ↦
        rw (none_found, discard_first)
          (inl (
            refl,
            refl,
            find-none p (visited opts l.elements) (sym (first-find p opts l valid) ∙ none_found),
          ))
    | inr (e, found) ↦
        let (pre, post, split, hit, misses) =
          find-some p (visited opts l.elements) (sym (first-find p opts l valid) ∙ found) in
        let (gone, valid') = removes_visited e pre post valid split in
        rw (found, discard_first) (inr (e, pre, post, refl, hit, misses, split, gone, valid'))
  ]

module _ {ℓ} {A : Type ℓ} (p : Element A → Bool) where
  all_loop :
      (step : GoList A → Element A → Option (Element A)) (l found : GoList A)
      (xs ys : List (Element A)) (fuel : ℕ)
      → ((e : Element A) → step l e ≡ after e.id (xs ++ ys))
      → Distinct (xs ++ ys)
      → IsValid found
      → length ys < fuel
      → let (l', found') = each_from fuel step (collect_match p) (first_of_list ys) l found in
        (map (λ e. e.value) found'.elements
          ≡ map (λ e. e.value) found.elements ++ map (λ e. e.value) (accepted p ys))
        × IsValid found'
        × (l' ≡ l)
  unfolding each_from collect_match first_of_list accepted
  all_loop step l found xs ys zero steps d valid h = absurd (omega arith)
  all_loop step l found xs [] (suc fuel) steps d valid h = (sym (append-nil _), valid, refl)
  all_loop step l found xs (e ∷ ys) (suc fuel) steps d valid h =
      let regroup = append_assoc xs (e ∷ []) ys in
      let following =
        steps e ∙ after-split e xs ys (Keyed.Distinct-split (λ e. e.id) e xs ys d).0 in
      let steps' = λ (f : Element A). steps f ∙ ap (after f.id) (sym regroup) in
      let d' = subst Distinct (sym regroup) d in
      elim (Bool-cases (p e)) [
        | inl hit ↦
            let n = (push_back e.value found).0 in
            let found' = (push_back e.value found).1 in
            let (same, contents, valid', _) = push_back-split e.value found valid in
            let ih = all_loop step l found' (xs ++ e ∷ []) ys fuel steps' d' valid' (omega arith) in
            let values =
              ap (map (λ e. e.value)) contents
              ∙ map-append (λ e. e.value) found.elements (n ∷ [])
              ∙ ap (λ v. map (λ e. e.value) found.elements ++ v ∷ []) same in
            rw (hit, following)
              (
                ih.0
                    ∙ ap (λ t. t ++ map (λ e. e.value) (accepted p ys)) values
                    ∙ append_assoc (map (λ e. e.value) found.elements) (e.value ∷ []) _,
                ih.1,
                ih.2,
              )
        | inr miss ↦
            rw (miss, following)
              (all_loop step l found (xs ++ e ∷ []) ys fuel steps' d' valid (omega arith))
      ]

  -- On a valid list All returns a valid list of the values that the test accepts, in the order of
  -- the visit.
  pub all-accepted :
      (opts : List ℕ) (l : GoList A)
      → IsValid l
      → (map (λ e. e.value) (all p opts l).elements
          ≡ map (λ e. e.value) (accepted p (visited opts l.elements)))
        × IsValid (all p opts l)
  unfolding all each each_forward each_backward next prev front back visited new
  all-accepted opts l valid = elim (Bool-cases (is_backward opts)) [
    | inl h ↦
        let ih =
          all_loop prev l new [] (reverse l.elements) (suc (length l.elements)) (λ e. refl)
            (Keyed.Distinct-reverse (λ e. e.id) l.elements valid.distinct) new-IsValid
            (omega (arith, length-reverse l.elements)) in
        rw (h, all, each) (ih.0, ih.1)
    | inr h ↦
        let ih =
          all_loop next l new [] l.elements (suc (length l.elements)) (λ e. refl) valid.distinct
            new-IsValid (omega arith) in
        rw (h, all, each) (ih.0, ih.1)
  ]
