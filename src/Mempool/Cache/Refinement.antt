-- ===== src/Mempool/Cache/Refinement.antt =====
-- `Push`, `Remove` and `Reset` of the mempool's cache against a list of keys
-- (tendermint/mempool/mempool.go).
use mathlib.Core.List.{map-append}
use wendy.Common.Keyed
use wendy.Common.{
  ℕ, ◌≡◌, refl, ap, sym, ◌∙◌, subst, true, false, List, [], ◌∷◌, ◌++◌, map, arith, leb,
  if◌then◌else◌, length, length-map, drop, delete, lookup-delete, Option-cases, Bool-cases, inl,
  inr, rejected,
}
use wendy.Crypto.{bytes_dec}
use wendy.Types.{Hash}
use wendy.LinkedList.{Element, first_of_list, front, remove}
use wendy.LinkedList.Ids.{new-IsValid}
use wendy.Mempool.Cache.{MapTxCache, evict, make_room, push_key, remove_key}
use wendy.Mempool.Cache.{new_map_tx_cache}
use wendy.Mempool.Cache.Steps.{removed-IsValid, moved-IsValid, added-IsValid}
use wendy.Mempool.Cache.Lru.{
  IsValid, Other, keys, element_of, Other-of_none, element_of-split, rejected_split, rejected-Other,
  find-Other, find-element_of, same_key, lru_push, lru_remove,
}

pub new_map_tx_cache-IsValid : (size : ℕ) → IsValid (new_map_tx_cache size)
unfolding new_map_tx_cache element_of
new_map_tx_cache-IsValid size = record { listed = new-IsValid; distinct = tt; mapped = λ h. refl }

-- The keys after a move, and after a removal.
rejected_key :
    (h : Hash) (c : MapTxCache) (e : Element Hash) (xs ys : List (Element Hash))
    → IsValid c
    → c.list.elements ≡ xs ++ e ∷ ys
    → e.value ≡ h
    → rejected (same_key h) (keys c) ≡ map (λ f. f.value) (xs ++ ys)
rejected_key h c e xs ys v split key =
    let (ox, oy, _) =
      Keyed.Distinct-split (λ f. f.value) e xs ys
        (subst (Keyed.Distinct (λ f. f.value)) split v.distinct) in
    ap (λ es. rejected (same_key h) (map (λ f. f.value) es)) split
    ∙ ap (λ k. rejected (same_key k) (map (λ f. f.value) (xs ++ e ∷ ys))) (sym key)
    ∙ rejected_split e xs ys ox oy

moved_keys :
    (h : Hash) (c : MapTxCache) (e : Element Hash) (xs ys es : List (Element Hash))
    → IsValid c
    → c.list.elements ≡ xs ++ e ∷ ys
    → e.value ≡ h
    → es ≡ (xs ++ ys) ++ e ∷ []
    → map (λ f. f.value) es ≡ rejected (same_key h) (keys c) ++ h ∷ []
moved_keys h c e xs ys es v split key moved =
    ap (map (λ f. f.value)) moved
    ∙ map-append (λ f. f.value) (xs ++ ys) (e ∷ [])
    ∙ ap (λ k. map (λ (f : Element Hash). f.value) (xs ++ ys) ++ k ∷ []) key
    ∙ ap (λ t. t ++ h ∷ []) (sym (rejected_key h c e xs ys v split key))

-- `r` is a valid cache with the given keys, none of them new.
abbrev Room : MapTxCache → MapTxCache → List Hash → Type 0
Room c r ks =
    IsValid r
    × (r.size ≡ c.size)
    × (keys r ≡ ks)
    × ((h : Hash) → Other h c.list.elements → Other h r.list.elements)

evict-Room : (c : MapTxCache) → IsValid c → Room c (evict c) (drop 1 (keys c))
unfolding evict front first_of_list
evict-Room c v = go c.list.elements refl
  where
    go : (es : List (Element Hash)) → c.list.elements ≡ es → Room c (evict c) (drop 1 (keys c))
    go [] e =
        let same : evict c ≡ c = ground (arith, e) in
        let none_left = ap (λ es. map (λ (f : Element Hash). f.value) es) e in
        subst (λ r. Room c r (drop 1 (keys c))) (sym same)
          (v, refl, none_left ∙ ap (drop 1) (sym none_left), λ h o. o)
    go (f ∷ es) e =
        let (valid, rest, _) = removed-IsValid c f [] es v e in
        let same : evict c ≡ record c {
          cache_map = delete bytes_dec f.value c.cache_map;
          list = remove f c.list;
        } =
          ground (arith, e) in
        subst (λ r. Room c r (drop 1 (keys c))) (sym same)
          (
            valid,
            refl,
            ap (map (λ g. g.value)) rest
                ∙ ap (λ es. drop 1 (map (λ (g : Element Hash). g.value) es)) (sym e),
            λ h o. subst (Other h) (sym rest) (subst (Other h) e o).1,
          )

make_room-Room :
    (c : MapTxCache)
    → IsValid c
    → Room c (make_room c) (if leb c.size (length (keys c)) then drop 1 (keys c) else keys c)
unfolding make_room
make_room-Room c v =
    let count = length-map (λ (f : Element Hash). f.value) c.list.elements in
    elim (Bool-cases (leb c.size (length c.list.elements))) [
      | inl full ↦
          let full' = ap (leb c.size) count ∙ full in rw (full, full', make_room) (evict-Room c v)
      | inr free ↦
          let free' = ap (leb c.size) count ∙ free in
          rw (free, free', make_room) (v, refl, refl, λ h o. o)
    ]

-- On a valid cache Push gives a valid cache of the same size; its keys and result are those of the
-- specification: a key that is there moves to the end and the result is false, another key is put
-- at the end, after the first one has gone where the cache is full, and the result is true.
pub push_key-lru_push :
    (h : Hash) (c : MapTxCache)
    → IsValid c
    → let (c', added) = push_key h c in
      IsValid c' × (c'.size ≡ c.size) × ((keys c', added) ≡ lru_push c.size h (keys c))
unfolding push_key lru_push
push_key-lru_push h c v = elim (Option-cases (element_of h c.list.elements)) [
  | inr (e, found) ↦
      let (xs, ys, split, key) = element_of-split h c.list.elements e found in
      let (valid, moved) = moved-IsValid c e xs ys v split in
      let stored = v.mapped h ∙ found in
      let listed = find-element_of h c.list.elements e found in
      rw (stored, listed, push_key, lru_push)
        (valid, refl, ap (λ k. (k, false)) (moved_keys h c e xs ys _ v split key moved))
  | inl missing ↦
      let stored = v.mapped h ∙ missing in
      let other = Other-of_none h c.list.elements missing in
      let listed = find-Other h c.list.elements other in
      let (valid, size, kept, others) = make_room-Room c v in
      let (valid', last) = added-IsValid (make_room c) h valid (others h other) in
      rw (stored, listed, push_key, lru_push)
        (valid', size, ap (λ k. (k, true)) (last ∙ ap (λ ks. ks ++ h ∷ []) kept))
]

abbrev Removed : Hash → MapTxCache → MapTxCache → Type 0
Removed h c r = IsValid r × (r.size ≡ c.size) × (keys r ≡ rejected (same_key h) (keys c))

-- On a valid cache Remove gives a valid cache of the same size with the keys that are not the
-- given one, in their order.
pub remove_key-lru_remove :
    (h : Hash) (c : MapTxCache)
    → IsValid c
    → let c' = remove_key h c in IsValid c' × (c'.size ≡ c.size) × (keys c' ≡ lru_remove h (keys c))
unfolding remove_key lru_remove
remove_key-lru_remove h c v = elim (Option-cases (element_of h c.list.elements)) [
  | inr (e, found) ↦
      let (xs, ys, split, key) = element_of-split h c.list.elements e found in
      let (valid, rest, other) = removed-IsValid c e xs ys v split in
      let stored = v.mapped h ∙ found in
      let same : remove_key h c
          ≡ record c { cache_map = delete bytes_dec h c.cache_map; list = remove e c.list } =
        rw (stored, remove_key) refl in
      let same' =
        same
        ∙ ap (λ k. record c { cache_map = delete bytes_dec k c.cache_map; list = remove e c.list })
            (sym key) in
      subst (Removed h c) (sym same')
        (valid, refl, ap (map (λ f. f.value)) rest ∙ sym (rejected_key h c e xs ys v split key))
  | inl missing ↦
      let stored = v.mapped h ∙ missing in
      let other = Other-of_none h c.list.elements missing in
      let same : remove_key h c ≡ record c { cache_map = delete bytes_dec h c.cache_map } =
        rw (stored, remove_key) refl in
      subst (Removed h c) (sym same) (
        record {
          listed = v.listed;
          distinct = v.distinct;
          mapped = λ q. ground (arith, lookup-delete bytes_dec h q c.cache_map, v.mapped q, stored);
        },
        refl,
        sym (rejected-Other h c.list.elements other),
      )
]
