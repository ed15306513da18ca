-- ===== src/Mempool/Elements.antt =====
-- The concurrent list of Tendermint (`clist.CList`), by the operations that the mempool calls and
-- what is documented of them. An element stands for its address.
use wendy.Common.{ℕ, ◌≡◌, List, [], ◌∷◌, ◌++◌, Option, none, some, length, ite}
use wendy.Common.Keyed

-- The list with one element taken out.
unfoldable pub without : {E : Type 0} → Discrete E → E → List E → List E
without same e [] = []
without same e (f ∷ es) = ite (same f e) es (f ∷ without same e es)

abbrev pub head : {E : Type 0} → List E → Option E
head [] = none
head (e ∷ es) = some e

abbrev pub last : {E : Type 0} → List E → Option E
last [] = none
last (e ∷ []) = some e
last (e ∷ f ∷ es) = last (f ∷ es)

-- The operations on a list `L` with elements `E` and values `V`.
pub record Clist (V L E : Type 0) : Type 0 where
  pub same : Discrete E
  pub empty : L
  pub len : L → ℕ
  pub front : L → Option E
  pub back : L → Option E
  pub next : L → E → Option E
  pub push_back : V → L → E × L
  pub remove : E → L → L
  pub value : E → V

-- The documented behaviour, by the elements of a list in their order. A removed element keeps its
-- way to the next one.
pub record Laws {V L E : Type 0} (c : Clist V L E) : Type 0 where
  pub elements : L → List E
  pub distinct : (l : L) → Keyed.Distinct (λ (e : E). e) (elements l)
  pub elements_empty : elements c.empty ≡ []
  pub len_elements : (l : L) → c.len l ≡ length (elements l)
  pub front_elements : (l : L) → c.front l ≡ head (elements l)
  pub back_elements : (l : L) → c.back l ≡ last (elements l)
  pub next_elements :
      (l : L) (xs ys : List E) (e : E) → elements l ≡ xs ++ e ∷ ys → c.next l e ≡ head ys
  pub next_removed :
      (l : L) (xs ys : List E) (e : E)
      → elements l ≡ xs ++ e ∷ ys
      → c.next (c.remove e l) e ≡ head ys
  pub push_back_elements :
      (v : V) (l : L) → elements (c.push_back v l).1 ≡ elements l ++ (c.push_back v l).0 ∷ []
  pub push_back_value : (v : V) (l : L) → c.value (c.push_back v l).0 ≡ v
  pub remove_elements : (e : E) (l : L) → elements (c.remove e l) ≡ without c.same e (elements l)
