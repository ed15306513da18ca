-- ===== src/Mempool/Updates/Removal.antt =====
-- Taking a transaction out of the mempool: the counter, the limits and the map
-- (`removeTx` of tendermint/mempool/mempool.go).
use wendy.Common.{
  In-All, if_pos, if_neg, ℕ, ◌+◌, ◌^◌, ◌<◌, ◌≡◌, ◌≢◌, ap, sym, ◌∙◌, subst, Bool, List, [], ◌∷◌,
  ◌++◌, some, arith, length, length-append, lookup, lookup-delete, In, inl, inr, sub_int64,
}
use wendy.Common.Keyed
use wendy.Crypto.{Bytes, bytes_dec}
use wendy.Types.{Hash}
use wendy.Mempool.Cache.{tx_key}
use wendy.Mempool.Elements.{Clist, Laws, without}
use wendy.Mempool.{Mempool, MempoolTx}
use wendy.Mempool.Checks.{remove_tx}
use wendy.Mempool.Checks.Bounds.{Fits, total_bytes, total_bytes-append}

module _ {E : Type 0} (same : Discrete E) where
  pub without-split :
      (e : E) (xs ys : List E)
      → Keyed.Apart (λ (x : E). x) e xs
      → without same e (xs ++ e ∷ ys) ≡ xs ++ ys
  unfolding without
  without-split e [] ys o = ground arith
  without-split e (x ∷ xs) ys o = ground (arith, o.0, without-split e xs ys o.1)

pub In-without :
    {E : Type 0} (same : Discrete E) (e f : E) (es : List E) → In f (without same e es) → In f es
unfolding without
In-without same e f [] here = here
In-without same e f (x ∷ es) here = elim (same x e) [
  | yes p ↦ inr (subst (In f) (if_pos (same x e) p es (x ∷ without same e es)) here)
  | no p ↦ elim (subst (In f) (if_neg (same x e) p es (x ∷ without same e es)) here) [
    | inl first ↦ inl first
    | inr later ↦ inr (In-without same e f es later)
  ]
]

-- What is taken out of a list of distinct elements is not in the rest.
pub without_out :
    {E : Type 0} (same : Discrete E) (e f : E) (es : List E)
    → Keyed.Distinct (λ (x : E). x) es
    → In f (without same e es)
    → e ≢ f
unfolding without
without_out same e f [] d here = absurd here
without_out same e f (x ∷ es) d here = elim (same x e) [
  | yes p ↦ λ q.
      In-All (λ y. y ≢ x) es f d.0
        (subst (In f) (if_pos (same x e) p es (x ∷ without same e es)) here) (sym (p ∙ q))
  | no p ↦ elim (subst (In f) (if_neg (same x e) p es (x ∷ without same e es)) here) [
    | inl first ↦ λ q. p (sym (q ∙ first))
    | inr later ↦ without_out same e f es d.1 later
  ]
]

In-split : {E : Type 0} (e : E) (es : List E) → In e es → (xs ys : List E) × (es ≡ xs ++ e ∷ ys)
In-split e [] h = elim h [ ]
In-split e (x ∷ es) (inl p) = ([], es, ap (λ y. y ∷ es) (sym p))
In-split e (x ∷ es) (inr h) =
    let (xs, ys, split) = In-split e es h in (x ∷ xs, ys, ap (◌∷◌ x) split)

In-other : {E : Type 0} (e f : E) (xs ys : List E) → f ≢ e → In f (xs ++ e ∷ ys) → In f (xs ++ ys)
In-other e f [] ys ne (inl p) = absurd (ne p)
In-other e f [] ys ne (inr h) = h
In-other e f (x ∷ xs) ys ne (inl p) = inl p
In-other e f (x ∷ xs) ys ne (inr h) = inr (In-other e f xs ys ne h)

module _ {L E : Type 0} (sum256 : Bytes → Hash) (list : Clist MempoolTx L E)
    (laws : Laws list) where
  -- The map gives, for a key, an element of the list with a transaction of that key.
  abbrev pub Indexed : Mempool L E → Type 0
  Indexed mem =
      (h : Hash) (e : E)
      → lookup bytes_dec h mem.txs_map ≡ some e
      → In e (laws.elements mem.txs) × (tx_key sum256 (list.value e).tx ≡ h)

  abbrev pub Right : Mempool L E → Type 0
  Right mem = Fits sum256 list laws mem × Indexed mem

  removed-total : (t l a : ℕ) → t < 2 ^ 62 → t ≡ a + l → sub_int64 t l ≡ a
  removed-total t l a small sum = omega arith

  -- Taking out the element that the map gives for the transaction's key.
  pub remove_tx-Right :
      (tx : Bytes) (e : E) (from_cache : Bool) (mem : Mempool L E)
      → mem.config.max_txs_bytes < 2 ^ 62
      → Right mem
      → lookup bytes_dec (tx_key sum256 tx) mem.txs_map ≡ some e
      → (list.value e).tx ≡ tx
      → Right (remove_tx sum256 list tx e from_cache mem)
        × (laws.elements (remove_tx sum256 list tx e from_cache mem).txs
            ≡ without list.same e (laws.elements mem.txs))
  unfolding remove_tx total_bytes
  remove_tx-Right tx e from_cache mem small (fits, indexed) at held =
      let (member, key) = indexed (tx_key sum256 tx) e at in
      let (xs, ys, split) = In-split e (laws.elements mem.txs) member in
      let d = subst (Keyed.Distinct (λ (x : E). x)) split (laws.distinct mem.txs) in
      let (ox, oy, _) = Keyed.Distinct-split (λ (x : E). x) e xs ys d in
      let taken = ap (without list.same e) split ∙ without-split list.same e xs ys ox in
      let rest = laws.remove_elements e mem.txs ∙ taken in
      let before =
        ap (total_bytes sum256 list laws) split ∙ total_bytes-append sum256 list laws xs (e ∷ ys) in
      let after =
        ap (total_bytes sum256 list laws) rest ∙ total_bytes-append sum256 list laws xs ys in
      let many = ap length split ∙ length-append xs (e ∷ ys) in
      let fewer = ap length rest ∙ length-append xs ys in
      let size = ap length held in
      (
        (
          record {
            counted =
                removed-total mem.txs_bytes (length tx) _ (omega (arith, fits.counted, fits.bytes))
                  (omega (arith, fits.counted, before, after, size));
            number = omega (arith, fits.number, many, fewer);
            bytes = omega (arith, fits.bytes, before, after);
          },
          λ h f stored.
              let gone = sym (lookup-delete bytes_dec (tx_key sum256 tx) h mem.txs_map) ∙ stored in
              let other : tx_key sum256 tx ≢ h = λ p. ground (arith, gone, p) in
              let still : lookup bytes_dec h mem.txs_map ≡ some f = ground (arith, gone, other) in
              let (member', key') = indexed h f still in
              let differ : f ≢ e =
                λ p. other (sym key ∙ ap (λ x. tx_key sum256 (list.value x).tx) (sym p) ∙ key') in
              (
                subst (In f) (sym rest) (In-other e f xs ys differ (subst (In f) split member')),
                key',
              ),
        ),
        laws.remove_elements e mem.txs,
      )
