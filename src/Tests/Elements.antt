-- ===== src/Tests/Elements.antt =====
-- A list that does what is documented of Tendermint's `clist`, for the runs of the mempool.
use wendy.Common.{
  ◌<◌, ◌≡◌, ◌≢◌, refl, ap, sym, ◌∙◌, subst, List, [], ◌∷◌, ◌++◌, Option, none, some, ite, arith,
  length, lookup, insert, lookup-insert, if_pos, if_neg, ℕ_discrete, All, All-mono,
}
use wendy.Common.Keyed
use wendy.Crypto.{bytes_dec}
use wendy.LinkedList.{Element, GoList, new, push_back}
use wendy.LinkedList.Ids as Ids
use wendy.LinkedList.Ids.{new-IsValid, push_back-split}
use wendy.Mempool.{MempoolTx}
use wendy.Mempool.Elements.{Clist, Laws, head, last, without}

abbrev pub Item : Type 0
Item = Element MempoolTx

pub mempool_tx_dec : Discrete MempoolTx
unfolding ℕ_discrete bytes_dec
mempool_tx_dec a b = elim (ℕ_discrete a.height b.height) [
  | no n ↦ no (λ e. n (ap (λ t. t.height) e))
  | yes p ↦ elim (ℕ_discrete a.gas_wanted b.gas_wanted) [
    | no n ↦ no (λ e. n (ap (λ t. t.gas_wanted) e))
    | yes q ↦ elim (bytes_dec a.tx b.tx) [
      | no n ↦ no (λ e. n (ap (λ t. t.tx) e))
      | yes r ↦ yes (ground (arith, p, q, r))
    ]
  ]
]

pub item_dec : Discrete Item
item_dec a b = elim (ℕ_discrete a.id b.id) [
  | no n ↦ no (λ e. n (ap (λ t. t.id) e))
  | yes p ↦ elim (mempool_tx_dec a.value b.value) [
    | no n ↦ no (λ e. n (ap (λ t. t.value) e))
    | yes q ↦ yes (ground (arith, p, q))
  ]
]

-- What follows an item of the list; none for an item that is not there.
unfoldable pub following : Item → List Item → Option (Option Item)
following e [] = none
following e (f ∷ es) = ite (item_dec f e) (some (head es)) (following e es)

abbrev pub or_kept : Option (Option Item) → Option (Option Item) → Option Item
or_kept (some r) kept = r
or_kept none (some r) = r
or_kept none none = none

-- The list and what followed the items that have been removed.
pub record TestList : Type 0 where
  pub items : GoList MempoolTx
  pub valid : Ids.IsValid items
  pub removed : List (Item × Option Item)

abbrev pub next_item : TestList → Item → Option Item
next_item l e = or_kept (following e l.items.elements) (lookup item_dec e l.removed)

pub without-All :
    (P : Item → Type 0) (e : Item) (es : List Item) → All P es → All P (without item_dec e es)
unfolding without
without-All P e [] p = tt
without-All P e (f ∷ es) p = elim (item_dec f e) [
  | yes same ↦ subst (All P) (sym (if_pos (item_dec f e) same es (f ∷ without item_dec e es))) p.1
  | no other ↦
      subst (All P) (sym (if_neg (item_dec f e) other es (f ∷ without item_dec e es)))
        (p.0, without-All P e es p.1)
]

pub without-Distinct :
    {K : Type 0} (key : Item → K) (e : Item) (es : List Item)
    → Keyed.Distinct key es
    → Keyed.Distinct key (without item_dec e es)
unfolding without
without-Distinct key e [] d = tt
without-Distinct key e (f ∷ es) d = elim (item_dec f e) [
  | yes same ↦
      subst (Keyed.Distinct key) (sym (if_pos (item_dec f e) same es (f ∷ without item_dec e es)))
        d.1
  | no other ↦
      subst (Keyed.Distinct key) (sym (if_neg (item_dec f e) other es (f ∷ without item_dec e es)))
        (without-All (λ g. key g ≢ key f) e es d.0, without-Distinct key e es d.1)
]

pub Distinct-items : (es : List Item) → Ids.Distinct es → Keyed.Distinct (λ (e : Item). e) es
Distinct-items [] d = tt
Distinct-items (e ∷ es) d =
    (All-mono es (λ f ne same. ne (ap (λ g. g.id) same)) d.0, Distinct-items es d.1)

following-split :
    (e : Item) (xs ys : List Item)
    → Keyed.Apart (λ (x : Item). x) e xs
    → following e (xs ++ e ∷ ys) ≡ some (head ys)
unfolding following
following-split e [] ys o = ground arith
following-split e (x ∷ xs) ys o = ground (arith, o.0, following-split e xs ys o.1)

pub following-without :
    (e : Item) (es : List Item)
    → Keyed.Distinct (λ (x : Item). x) es
    → following e (without item_dec e es) ≡ none
unfolding following without
following-without e [] d = refl
following-without e (f ∷ es) d = elim (item_dec f e) [
  | yes same ↦
      ap (following e) (if_pos (item_dec f e) same es (f ∷ without item_dec e es))
      ∙ following_absent e es (subst (λ g. Keyed.Apart (λ (x : Item). x) g es) same d.0)
  | no other ↦ ground (arith, other, following-without e es d.1)
]
  where
    following_absent :
        (e : Item) (es : List Item) → Keyed.Apart (λ (x : Item). x) e es → following e es ≡ none
    following_absent e [] o = refl
    following_absent e (f ∷ es) o = ground (arith, o.0, following_absent e es o.1)

abbrev pub test_list : Clist MempoolTx TestList Item
test_list = record {
  same = item_dec;
  empty = record { items = new; valid = new-IsValid; removed = [] };
  len = λ l. length l.items.elements;
  front = λ l. head l.items.elements;
  back = λ l. last l.items.elements;
  next = next_item;
  push_back = λ v l.
      let (e, items) = push_back v l.items in
      (
        e,
        record {
          items = items;
          valid = (push_back-split v l.items l.valid).2;
          removed = l.removed;
        },
      );
  remove = λ e l. record {
    items = record l.items { elements = without item_dec e l.items.elements };
    valid = record {
      distinct = without-Distinct (λ f. f.id) e l.items.elements l.valid.distinct;
      fresh = without-All (λ f. f.id < l.items.next_id) e l.items.elements l.valid.fresh;
    };
    removed = insert item_dec e (next_item l e) l.removed;
  };
  value = λ e. e.value;
}

pub next_item-split :
    (l : TestList) (xs ys : List Item) (e : Item)
    → l.items.elements ≡ xs ++ e ∷ ys
    → next_item l e ≡ head ys
next_item-split l xs ys e split =
    let d =
      subst (Keyed.Distinct (λ (x : Item). x)) split
        (Distinct-items l.items.elements l.valid.distinct) in
    let (o, _, _) = Keyed.Distinct-split (λ (x : Item). x) e xs ys d in
    ap (λ r. or_kept r (lookup item_dec e l.removed))
      (ap (following e) split ∙ following-split e xs ys o)

unfoldable pub test_list-Laws : Laws test_list
unfolding new push_back
test_list-Laws = record {
  elements = λ l. l.items.elements;
  distinct = λ l. Distinct-items l.items.elements l.valid.distinct;
  elements_empty = refl;
  len_elements = λ l. refl;
  front_elements = λ l. refl;
  back_elements = λ l. refl;
  next_elements = next_item-split;
  next_removed = λ l xs ys e split.
      ap (λ r. or_kept r (lookup item_dec e (insert item_dec e (next_item l e) l.removed)))
        (following-without e l.items.elements (Distinct-items l.items.elements l.valid.distinct))
      ∙ ground (arith, lookup-insert item_dec e e (next_item l e) l.removed)
      ∙ next_item-split l xs ys e split;
  push_back_elements = λ v l. refl;
  push_back_value = λ v l. refl;
  remove_elements = λ e l. refl;
}
