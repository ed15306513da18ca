-- ===== src/Mempool/Cache/Steps.antt =====
-- What happens to the cache's list and map when an element is taken out, moved or added
-- (tendermint/mempool/mempool.go).
use mathlib.Core.List.{append-nil, map-append}
use wendy.Common.Keyed
use wendy.Common.{
  ◌<◌, ◌≡◌, ◌≢◌, ap, sym, ◌∙◌, subst, List, [], ◌∷◌, ◌++◌, none, ite, arith, insert, delete,
  lookup-insert, lookup-delete, All, All-append, All-of-append,
}
use wendy.Crypto.{bytes_dec}
use wendy.Types.{Hash}
use wendy.LinkedList.{Element, push_back, remove}
use wendy.LinkedList.Ids.{push_back-split, remove-split}
use wendy.Mempool.Cache.{MapTxCache, move_to_back}
use wendy.Mempool.Cache.Lru.{IsValid, Other, keys, element_of, element_of-append, element_of-Other}

element_of-without :
    (q : Hash) (e : Element Hash) (xs ys : List (Element Hash))
    → Other e.value xs
    → Other e.value ys
    → element_of q (xs ++ ys) ≡ ite (bytes_dec e.value q) none (element_of q (xs ++ e ∷ ys))
unfolding element_of
element_of-without q e [] ys ox oy = elim (bytes_dec e.value q) [
  | yes p ↦ ground (arith, element_of-Other q ys (subst (λ k. Other k ys) p oy))
  | no p ↦ ground arith
]
element_of-without q e (x ∷ xs) ys ox oy =
    ground (arith, ox.0, element_of-without q e xs ys ox.1 oy)

-- Taking out an element together with its key.
pub removed-IsValid :
    (c : MapTxCache) (e : Element Hash) (xs ys : List (Element Hash))
    → IsValid c
    → c.list.elements ≡ xs ++ e ∷ ys
    → let c' : MapTxCache = record c {
      cache_map = delete bytes_dec e.value c.cache_map;
      list = remove e c.list;
    } in
      IsValid c' × (c'.list.elements ≡ xs ++ ys) × Other e.value (xs ++ ys)
removed-IsValid c e xs ys v split =
    let (rest, listed) = remove-split c.list e xs ys v.listed split in
    let (ox, oy, d) =
      Keyed.Distinct-split (λ f. f.value) e xs ys
        (subst (Keyed.Distinct (λ f. f.value)) split v.distinct) in
    (
      record {
        listed = listed;
        distinct = subst (Keyed.Distinct (λ f. f.value)) (sym rest) d;
        mapped = λ q.
            lookup-delete bytes_dec e.value q c.cache_map
            ∙ ap (ite (bytes_dec e.value q) none) (v.mapped q ∙ ap (element_of q) split)
            ∙ sym (element_of-without q e xs ys ox oy)
            ∙ ap (element_of q) (sym rest);
      },
      rest,
      All-append (λ f. f.value ≢ e.value) xs ys ox oy,
    )

element_of-rotate :
    (q : Hash) (e : Element Hash) (xs ys : List (Element Hash))
    → Other e.value xs
    → Other e.value ys
    → element_of q ((xs ++ ys) ++ e ∷ []) ≡ element_of q (xs ++ e ∷ ys)
unfolding element_of
element_of-rotate q e [] ys ox oy = elim (bytes_dec e.value q) [
  | yes p ↦
      element_of-append q ys (e ∷ [])
      ∙ ground (arith, element_of-Other q ys (subst (λ k. Other k ys) p oy))
  | no p ↦ element_of-append q ys (e ∷ []) ∙ ground arith
]
element_of-rotate q e (x ∷ xs) ys ox oy = ground (arith, element_of-rotate q e xs ys ox.1 oy)

-- Moving an element to the end.
pub moved-IsValid :
    (c : MapTxCache) (e : Element Hash) (xs ys : List (Element Hash))
    → IsValid c
    → c.list.elements ≡ xs ++ e ∷ ys
    → let c' : MapTxCache = record c { list = move_to_back e c.list } in
      IsValid c' × (c'.list.elements ≡ (xs ++ ys) ++ e ∷ [])
unfolding move_to_back remove
moved-IsValid c e xs ys v split =
    let (rest, listed) = remove-split c.list e xs ys v.listed split in
    let moved = ap (λ t. t ++ e ∷ []) rest in
    let d = subst (Keyed.Distinct (λ f. f.value)) split v.distinct in
    let (ox, oy, _) = Keyed.Distinct-split (λ f. f.value) e xs ys d in
    let (fx, fy) =
      All-of-append (λ f. f.id < c.list.next_id) xs (e ∷ ys)
        (subst (All (λ f. f.id < c.list.next_id)) split v.listed.fresh) in
    (
      record {
        listed = record {
          distinct = subst (Keyed.Distinct (λ f. f.id)) (sym moved) (
              Keyed.Distinct-rotate (λ f. f.id) e xs ys
                (subst (Keyed.Distinct (λ f. f.id)) split v.listed.distinct));
          fresh = subst (All (λ f. f.id < c.list.next_id)) (sym moved) (
              All-append (λ f. f.id < c.list.next_id) (xs ++ ys) (e ∷ [])
                (All-append (λ f. f.id < c.list.next_id) xs ys fx fy.1) (fy.0, tt));
        };
        distinct =
            subst (Keyed.Distinct (λ f. f.value)) (sym moved)
              (Keyed.Distinct-rotate (λ f. f.value) e xs ys d);
        mapped = λ q.
            v.mapped q
            ∙ ap (element_of q) split
            ∙ sym (element_of-rotate q e xs ys ox oy)
            ∙ ap (element_of q) (sym moved);
      },
      moved,
    )

-- Putting a new key at the end.
pub added-IsValid :
    (c : MapTxCache) (h : Hash)
    → IsValid c
    → Other h c.list.elements
    → let (e, l) = push_back h c.list in
      let c' : MapTxCache = record c { list = l; cache_map = insert bytes_dec h e c.cache_map } in
      IsValid c' × (keys c' ≡ keys c ++ h ∷ [])
unfolding push_back element_of
added-IsValid c h v fresh =
    let (_, contents, listed, _) = push_back-split h c.list v.listed in
    let n = (push_back h c.list).0 in
    (
      record {
        listed = listed;
        distinct =
            Keyed.Distinct-join (λ f. f.value) n c.list.elements [] fresh tt
              (rw append-nil v.distinct);
        mapped = λ q. ground (
          arith,
          lookup-insert bytes_dec h q n c.cache_map,
          element_of-append q c.list.elements (n ∷ []),
          v.mapped q,
          element_of-Other h c.list.elements fresh,
        );
      },
      map-append (λ f. f.value) c.list.elements (n ∷ []),
    )
