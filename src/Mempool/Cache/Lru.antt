-- ===== src/Mempool/Cache/Lru.antt =====
-- The cache of the mempool as a list of distinct keys, the least recently pushed first
-- (tendermint/mempool/mempool.go).
use wendy.Common.Keyed
use wendy.Common.{
  ℕ, ◌≡◌, refl, ap, sym, ◌∙◌, Bool, true, false, List, [], ◌∷◌, ◌++◌, map, Option, none, some, ite,
  arith, leb, if◌then◌else◌, length, drop, lookup, find, rejected,
}
use wendy.Crypto.{bytes_dec}
use wendy.Types.{Hash}
use wendy.LinkedList.{Element}
use wendy.LinkedList.Ids.{push_back-split, remove-split}
use wendy.LinkedList.Ids as Ids
use wendy.Mempool.Cache.{MapTxCache}

-- The specification: keys in the order of their last push.
unfoldable pub same_key : Hash → Hash → Bool
same_key h k = ite (bytes_dec k h) true false

unfoldable pub lru_push : ℕ → Hash → List Hash → List Hash × Bool
unfolding same_key
lru_push size h keys = elim (find (same_key h) keys) [
  | some _ ↦ (rejected (same_key h) keys ++ h ∷ [], false)
  | none ↦ ((if leb size (length keys) then drop 1 keys else keys) ++ h ∷ [], true)
]

unfoldable pub lru_remove : Hash → List Hash → List Hash
unfolding same_key
lru_remove h keys = rejected (same_key h) keys

abbrev pub keys : MapTxCache → List Hash
keys c = map (λ e. e.value) c.list.elements

-- The element of a key.
unfoldable pub element_of : Hash → List (Element Hash) → Option (Element Hash)
element_of h [] = none
element_of h (e ∷ es) = ite (bytes_dec e.value h) (some e) (element_of h es)

abbrev pub Other : Hash → List (Element Hash) → Type 0
Other = Keyed.Apart (λ e. e.value)

-- Every key stands once, and the map holds the elements of exactly the keys of the list.
pub record IsValid (c : MapTxCache) : Type 0 where
  pub listed : Ids.IsValid c.list
  pub distinct : Keyed.Distinct (λ (e : Element Hash). e.value) c.list.elements
  pub mapped : (h : Hash) → lookup bytes_dec h c.cache_map ≡ element_of h c.list.elements

pub element_of-append :
    (h : Hash) (xs ys : List (Element Hash))
    → element_of h (xs ++ ys) ≡ elim (element_of h xs) [ none ↦ element_of h ys | some e ↦ some e ]
unfolding element_of
element_of-append h [] ys = refl
element_of-append h (x ∷ xs) ys = ground (arith, element_of-append h xs ys)

pub element_of-Other : (h : Hash) (xs : List (Element Hash)) → Other h xs → element_of h xs ≡ none
unfolding element_of
element_of-Other h [] o = refl
element_of-Other h (x ∷ xs) o = ground (arith, o.0, element_of-Other h xs o.1)

pub Other-of_none : (h : Hash) (xs : List (Element Hash)) → element_of h xs ≡ none → Other h xs
unfolding element_of
Other-of_none h [] e = tt
Other-of_none h (x ∷ xs) e = ground (arith, Other-of_none h xs)

pub element_of-split :
    (h : Hash) (es : List (Element Hash)) (e : Element Hash)
    → element_of h es ≡ some e
    → (xs ys : List (Element Hash)) × (es ≡ xs ++ e ∷ ys) × (e.value ≡ h)
unfolding element_of
element_of-split h [] e found = absurd (ground arith)
element_of-split h (x ∷ xs) e found = elim (bytes_dec x.value h) [
  | yes p ↦
      let same : x ≡ e = ground arith in
      ([], xs, ap (λ (f : Element Hash). f ∷ xs) same, ap (λ f. f.value) (sym same) ∙ p)
  | no p ↦
      let (pre, post, split, key) = element_of-split h xs e (ground arith) in
      (x ∷ pre, post, ap (◌∷◌ x) split, key)
]

-- The keys of a part of the list that has not the key are kept by a removal.
pub rejected-Other :
    (h : Hash) (xs : List (Element Hash))
    → Other h xs
    → rejected (same_key h) (map (λ e. e.value) xs) ≡ map (λ e. e.value) xs
unfolding rejected same_key
rejected-Other h [] o = refl
rejected-Other h (x ∷ xs) o = ground (arith, o.0, rejected-Other h xs o.1)

pub rejected_split :
    (e : Element Hash) (xs ys : List (Element Hash))
    → Other e.value xs
    → Other e.value ys
    → rejected (same_key e.value) (map (λ f. f.value) (xs ++ e ∷ ys))
      ≡ map (λ f. f.value) (xs ++ ys)
unfolding rejected same_key
rejected_split e [] ys ox oy = ground (arith, rejected-Other e.value ys oy)
rejected_split e (x ∷ xs) ys ox oy = ground (arith, ox.0, rejected_split e xs ys ox.1 oy)

pub find-Other :
    (h : Hash) (es : List (Element Hash))
    → Other h es
    → find (same_key h) (map (λ e. e.value) es) ≡ none
unfolding find same_key
find-Other h [] o = refl
find-Other h (x ∷ xs) o = ground (arith, o.0, find-Other h xs o.1)

pub find-element_of :
    (h : Hash) (es : List (Element Hash)) (e : Element Hash)
    → element_of h es ≡ some e
    → find (same_key h) (map (λ e. e.value) es) ≡ some h
unfolding find same_key element_of
find-element_of h [] e found = absurd (ground arith)
find-element_of h (x ∷ xs) e found = ground (arith, find-element_of h xs e)
