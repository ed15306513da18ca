-- ===== src/Wendy/Prefixes.antt =====
-- What `BlockingSet` and `NewBlockWithOptions` of wendy.go return, where all pooled transactions
-- have one label.
use wendy.Common.{
  ℕ, suc, zero, ◌<◌, ◌≤◌, ◌≡◌, refl, ap, sym, ◌∙◌, subst, List, [], ◌∷◌, none, some, arith, length,
  take, get_elem?, get_elem?-append, All, All-mono, In, inl, inr, lookup, Option-cases, returns,
  blocks, true, false, Bool-cases, ◌⊎◌,
}
use wendy.Crypto.{Bytes, bytes_dec}
use wendy.Types.{Hash, Tx}
use wendy.Txs.Valid.{IsValid, Distinct, Other, index_of, index_of-split, Other-of_none}
use wendy.Wendy.{Wendy}
use wendy.Wendy.Blocks.{
  BlockingSet, NewBlockOptions, blockers_in, blocking_set, new_block_with_options,
}
use wendy.Wendy.Sets.{OneLabel, Blockers, Filled, blocking_set-Filled}
use wendy.Wendy.Limits.{total, block-Fits}

-- Where the pool is valid and all its transactions have one label, BlockingSet returns, and the
-- list of the transaction at each position is a prefix of the pool, as long as there are positions
-- that can be reached from that position over blocked pairs, each counted once.
pub blocking_set-prefixes :
    (w : Wendy) (l : Bytes)
    → IsValid w.txs
    → OneLabel l w.txs.list
    → (set : BlockingSet) × (blocking_set w ≡ returns set)
      × ((i : ℕ) (tx : Tx)
          → get_elem? w.txs.list i ≡ some tx
          → (list : List Tx) × (lookup bytes_dec tx.hash set ≡ some list)
            × Blockers w w.txs.list i list)
blocking_set-prefixes w l valid one =
    let (set, returned, _, found) = blocking_set-Filled w l valid one in
    (
      set,
      returned,
      λ i tx e.
          let (list, stored, blockers) = found i tx e in
          (list, stored, subst (λ k. Blockers w w.txs.list k list) (omega arith) blockers),
    )

All-In : (xs : List Tx) → All (λ x. In x xs) xs
All-In [] = tt
All-In (x ∷ xs) = (inl refl, All-mono xs (λ y p. inr p) (All-In xs))

All-take : (P : Tx → Type 0) (k : ℕ) (xs : List Tx) → All P xs → All P (take k xs)
All-take P zero xs p = tt
All-take P (suc k) [] p = tt
All-take P (suc k) (x ∷ xs) p = (p.0, All-take P k xs p.1)

-- Whatever the hash, its list in the set has transactions of the pool only.
listed-In :
    (w : Wendy) (set : BlockingSet)
    → ((h : Hash) → Other h w.txs.list → lookup bytes_dec h set ≡ none)
    → Filled w w.txs.list 0 w.txs.list set
    → (h : Hash) → All (λ tx. In tx w.txs.list) (blockers_in (lookup bytes_dec h set))
listed-In w set others found h = elim (Option-cases (index_of h w.txs.list)) [
  | inl absent ↦ rw (others h (Other-of_none h w.txs.list absent)) tt
  | inr (i, at) ↦
      let (pre, post, tx, split, same, _, _) = index_of-split h w.txs.list i at in
      let here = ap (λ xs. get_elem? xs (length pre)) split ∙ get_elem?-append pre tx post in
      let (list, stored, blockers) = found (length pre) tx here in
      let stored' = subst (λ k. lookup bytes_dec k set ≡ some list) same stored in
      rw stored' (
        subst (All (λ t. In t w.txs.list)) (sym blockers.prefix)
          (All-take (λ t. In t w.txs.list) (length blockers.deps) w.txs.list (All-In w.txs.list)))
]

-- Where the pool is valid and all its transactions have one label, NewBlockWithOptions waits for
-- its own lock for ever if its AddBlock option is set; otherwise it returns the state as it was
-- and a block of transactions of the pool with distinct hashes, within the limits on number and
-- total size where they are positive.
pub new_block_with_options_lem :
    (opts : NewBlockOptions) (w : Wendy) (l : Bytes)
    → IsValid w.txs
    → OneLabel l w.txs.list
    → ((opts.with_add_block ≡ true) × (new_block_with_options opts w ≡ blocks))
      ⊎ ((opts.with_add_block ≡ false)
          × (block : List Tx) × (new_block_with_options opts w ≡ returns (w, block))
          × Distinct block
          × All (λ tx. In tx w.txs.list) block
          × (0 < opts.tx_limit → length block ≤ opts.tx_limit)
          × (0 < opts.max_block_size → total block ≤ opts.max_block_size))
unfolding new_block_with_options
new_block_with_options_lem opts w l valid one =
    let (set, returned, others, found) = blocking_set-Filled w l valid one in
    let fits =
      block-Fits (λ tx. In tx w.txs.list) opts set w.txs.list (listed-In w set others found) in
    elim (Bool-cases opts.with_add_block) [
      | inl adding ↦ inl (adding, ground (arith, returned))
      | inr plain ↦ inr (
        plain,
        _,
        ground (arith, returned),
        fits.valid.distinct,
        fits.known,
        fits.number,
        fits.bounded,
      )
    ]
