-- ===== src/LinkedList/Loops.antt =====
-- The loops of utils/list against plain lists, also where the callback removes the element at hand.
use mathlib.Core.List.{reverse, append_assoc}
use wendy.Common.{
  ℕ, zero, suc, ◌+◌, ◌<◌, ◌≡◌, refl, ap, sym, ◌∙◌, subst, Bool, Bool-cases, List, [], ◌∷◌, ◌++◌,
  Option, none, arith, length, find, inl, inr, if◌then◌else◌, rejected, accepted,
}
use wendy.Common.Keyed
use wendy.LinkedList.{
  Element, GoList, first_of_list, after, each_from, is_backward, keep_first, remove, drop_match,
}
use wendy.LinkedList.Ids.{Distinct, IsValid, after-split}

-- The elements in the order of the visit.
unfoldable pub visited {ℓ} : {A : Type ℓ} → List ℕ → List (Element A) → List (Element A)
visited opts es = if is_backward opts then reverse es else es

module _ {ℓ} {A : Type ℓ} (p : Element A → Bool) where
  pub first_loop :
      (step : GoList A → Element A → Option (Element A)) (l : GoList A) (xs ys : List (Element A))
      (fuel : ℕ)
      → ((e : Element A) → step l e ≡ after e.id (xs ++ ys))
      → Distinct (xs ++ ys)
      → length ys < fuel
      → each_from fuel step (keep_first p) (first_of_list ys) l none ≡ (l, find p ys)
  unfolding each_from keep_first find first_of_list
  first_loop step l xs ys zero steps d h = absurd (omega arith)
  first_loop step l xs [] (suc fuel) steps d h = refl
  first_loop step l xs (e ∷ ys) (suc fuel) steps d h =
      let regroup = append_assoc xs (e ∷ []) ys in
      let ih =
        first_loop step l (xs ++ e ∷ []) ys fuel (λ f. steps f ∙ ap (after f.id) (sym regroup))
          (subst Distinct (sym regroup) d) (omega arith) in
      ground
        (arith, ih, steps e, after-split e xs ys (Keyed.Distinct-split (λ e. e.id) e xs ys d).0)

  pub discard_loop :
      (step : GoList A → Element A → Option (Element A))
      (view : List (Element A) → List (Element A)) (l : GoList A) (xs ys : List (Element A))
      (count fuel : ℕ)
      → ((m : GoList A) (e : Element A) → step m e ≡ after e.id (view m.elements))
      → ((m : GoList A) (e : Element A) (us vs : List (Element A))
          → IsValid m
          → view m.elements ≡ us ++ e ∷ vs
          → (view (remove e m).elements ≡ us ++ vs) × IsValid (remove e m))
      → IsValid l
      → Distinct (xs ++ ys)
      → view l.elements ≡ xs ++ ys
      → length ys < fuel
      → let (l', count') = each_from fuel step (drop_match p) (first_of_list ys) l count in
        (view l'.elements ≡ xs ++ rejected p ys)
        × (count' ≡ count + length (accepted p ys))
        × IsValid l'
  unfolding each_from drop_match first_of_list rejected accepted
  discard_loop step view l xs ys count zero steps removes valid d same h = absurd (omega arith)
  discard_loop step view l xs [] count (suc fuel) steps removes valid d same h =
      (same, omega arith, valid)
  discard_loop step view l xs (e ∷ ys) count (suc fuel) steps removes valid d same h =
      let regroup = append_assoc xs (e ∷ []) ys in
      let (apart, _, rest) = Keyed.Distinct-split (λ e. e.id) e xs ys d in
      let following = steps l e ∙ ap (after e.id) same ∙ after-split e xs ys apart in
      elim (Bool-cases (p e)) [
        | inl hit ↦
            let (gone, valid') = removes l e xs ys valid same in
            let ih =
              discard_loop step view (remove e l) xs ys (count + 1) fuel steps removes valid' rest
                gone (omega arith) in
            rw (hit, following) (ih.0, omega (arith, ih.1), ih.2)
        | inr miss ↦
            let ih =
              discard_loop step view l (xs ++ e ∷ []) ys count fuel steps removes valid
                (subst Distinct (sym regroup) d) (same ∙ sym regroup) (omega arith) in
            rw (miss, following) (ih.0 ∙ append_assoc xs (e ∷ []) (rejected p ys), ih.1, ih.2)
      ]
