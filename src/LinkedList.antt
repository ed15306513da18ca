-- ===== src/LinkedList.antt =====
-- utils/list: a doubly linked list (Go's `container/list`) with searches. An element is known by
-- an id, as in Go by its address; the list hands out ids and never uses one twice.
pub mod Ids
pub mod Loops
pub mod Searches
use mathlib.Core.List.{reverse}
use wendy.Common.{
  ℕ, zero, suc, ◌+◌, Bool, true, false, not, List, [], ◌∷◌, ◌++◌, Option, none, some, ◌==◌,
  if◌then◌else◌, length,
}

pub record Element {ℓ} (A : Type ℓ) : Type ℓ where
  pub id : ℕ
  pub value : A

pub record GoList {ℓ} (A : Type ℓ) : Type ℓ where
  pub elements : List (Element A)
  pub next_id : ℕ

abbrev pub is_none {ℓ} : {A : Type ℓ} → Option A → Bool
is_none none = true
is_none (some _) = false

-- `Option` of options.go; `Backward` is 1.
abbrev pub backward : ℕ
backward = 1

-- `Options.all` and `Options.Backward`: `(all & 1) != 0` by the lowest bit.
sum_options : List ℕ → ℕ
sum_options [] = 0
sum_options (o ∷ opts) = o + sum_options opts

unfoldable pub is_backward : List ℕ → Bool
unfolding sum_options
is_backward opts = not (Prim.Native.Nat.bit_and (sum_options opts) backward == 0)

module _ {ℓ} {A : Type ℓ} where
  -- `New`.
  unfoldable pub new : GoList A
  new = record { elements = []; next_id = 0 }

  unfoldable pub first_of_list : List (Element A) → Option (Element A)
  first_of_list [] = none
  first_of_list (e ∷ es) = some e

  -- The element behind the one with the id.
  unfoldable pub after : ℕ → List (Element A) → Option (Element A)
  unfolding first_of_list
  after i [] = none
  after i (e ∷ es) = if e.id == i then first_of_list es else after i es

  -- `e.Next()`.
  unfoldable pub next : GoList A → Element A → Option (Element A)
  next l e = after e.id l.elements

  -- `e.Prev()`.
  unfoldable pub prev : GoList A → Element A → Option (Element A)
  prev l e = after e.id (reverse l.elements)

  -- `l.Front()` and `l.Back()`.
  unfoldable pub front : GoList A → Option (Element A)
  front l = first_of_list l.elements

  unfoldable pub back : GoList A → Option (Element A)
  back l = first_of_list (reverse l.elements)

  unfoldable pub push_back : A → GoList A → Element A × GoList A
  push_back v l =
      let e : Element A = record { id = l.next_id; value = v } in
      (e, record { elements = l.elements ++ e ∷ []; next_id = suc l.next_id })

  unfoldable pub insert_behind : ℕ → Element A → List (Element A) → List (Element A)
  insert_behind i n [] = []
  insert_behind i n (e ∷ es) = if e.id == i then e ∷ n ∷ es else e ∷ insert_behind i n es

  -- `l.InsertAfter(v, mark)`, for a mark of the list.
  unfoldable pub insert_after : A → Element A → GoList A → Element A × GoList A
  insert_after v mark l =
      let e : Element A = record { id = l.next_id; value = v } in
      (e, record { elements = insert_behind mark.id e l.elements; next_id = suc l.next_id })

  unfoldable pub remove_id : ℕ → List (Element A) → List (Element A)
  remove_id i [] = []
  remove_id i (e ∷ es) = if e.id == i then es else e ∷ remove_id i es

  -- `l.Remove(e)`.
  unfoldable pub remove : Element A → GoList A → GoList A
  remove e l = record l { elements = remove_id e.id l.elements }

  -- The elements from the one with the id on: what `for e := item; e != nil; e = e.Next()` visits.
  unfoldable pub from_id : ℕ → List (Element A) → List (Element A)
  from_id i [] = []
  from_id i (e ∷ es) = if e.id == i then e ∷ es else from_id i es

-- A callback of `Each` may change the list and what it closes over; it returns whether to go on.
abbrev pub Callback {ℓ κ} : Type ℓ → Type κ → Type (ℓ ⊔ κ)
Callback A S = Element A → GoList A → S → GoList A × S × Bool

module _ {ℓ κ} {A : Type ℓ} {S : Type κ} where
  -- The loop of `eachForward` and `eachBackward`: the next element is read before the call.
  unfoldable pub each_from :
      ℕ
      → (GoList A → Element A → Option (Element A))
      → Callback A S
      → Option (Element A)
      → GoList A
      → S
      → GoList A × S
  each_from zero step fn e l s = (l, s)
  each_from (suc fuel) step fn none l s = (l, s)
  each_from (suc fuel) step fn (some e) l s =
      let following = step l e in
      let (l', s', cont) = fn e l s in
      let rest = each_from fuel step fn following l' s' in if cont then rest else (l', s')

  unfoldable pub each_forward : Callback A S → GoList A → S → GoList A × S
  unfolding each_from front
  each_forward fn l s = each_from (suc (length l.elements)) next fn (front l) l s

  unfoldable pub each_backward : Callback A S → GoList A → S → GoList A × S
  unfolding each_from back
  each_backward fn l s = each_from (suc (length l.elements)) prev fn (back l) l s

  -- `Each`.
  unfoldable pub each : Callback A S → List ℕ → GoList A → S → GoList A × S
  unfolding each_forward each_backward
  each fn opts l s = if is_backward opts then each_backward fn l s else each_forward fn l s

module _ {ℓ} {A : Type ℓ} where
  -- The callback of `First`: it keeps the element, and stops when one is kept.
  unfoldable pub keep_first : (Element A → Bool) → Callback A (Option (Element A))
  keep_first fn e l found = if fn e then (l, some e, false) else (l, found, is_none found)

  unfoldable pub first : (Element A → Bool) → List ℕ → GoList A → Option (Element A)
  unfolding each keep_first
  first fn opts l = (each (keep_first fn) opts l none).1

  unfoldable pub discard_first : (Element A → Bool) → List ℕ → GoList A → GoList A × Bool
  unfolding first remove
  discard_first fn opts l = elim (first fn opts l) [
    | none ↦ (l, false)
    | some e ↦ (remove e l, true)
  ]

  unfoldable pub drop_match : (Element A → Bool) → Callback A ℕ
  unfolding remove
  drop_match fn e l count = if fn e then (remove e l, count + 1, true) else (l, count, true)

  unfoldable pub discard : (Element A → Bool) → List ℕ → GoList A → GoList A × ℕ
  unfolding each drop_match
  discard fn opts l = each (drop_match fn) opts l 0

  unfoldable pub collect_match : (Element A → Bool) → Callback A (GoList A)
  unfolding push_back
  collect_match fn e l found =
      if fn e then (l, (push_back e.value found).1, true) else (l, found, true)

  -- `All`.
  unfoldable pub all : (Element A → Bool) → List ℕ → GoList A → GoList A
  unfolding each collect_match new
  all fn opts l = (each (collect_match fn) opts l new).1
