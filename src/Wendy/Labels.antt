-- ===== src/Wendy/Labels.antt =====
-- `BlockingSet` and the blocks of wendy.go on a pool with more than one label.
use wendy.Common.{◌≡◌, ◌≢◌, refl, ap, sym, ◌∙◌, List, [], ◌∷◌, In, inl, inr, ◌⊎◌, panics}
use wendy.Crypto.{Bytes, bytes_dec}
use wendy.Types.{Tx}
use wendy.Wendy.{Wendy}
use wendy.Wendy.Quorum.{is_blocked-tally, is_blocked_by-panics}
use wendy.Wendy.Blocks.{
  NewBlockOptions, matrix_row, matrix_rows, blocking_set, new_block_with_options,
}

module _ (w : Wendy) (some_peer : w.peers ≢ []) where
  -- A row panics at the first transaction of another label.
  matrix_row-panics :
      (tx1 tx2 : Tx) (txs : List Tx)
      → In tx2 txs
      → tx1.label ≢ tx2.label
      → matrix_row w tx1 txs ≡ panics
  unfolding matrix_row
  matrix_row-panics tx1 tx2 [] here differ = absurd here
  matrix_row-panics tx1 tx2 (tx ∷ txs) here differ = elim (bytes_dec tx1.label tx.label) [
    | no other ↦ rw (is_blocked_by-panics w tx1 tx other some_peer, matrix_row) refl
    | yes same ↦ elim here [
      | inl at ↦ absurd (differ (same ∙ ap (λ (t : Tx). t.label) (sym at)))
      | inr later ↦
          rw
            (
              (is_blocked-tally w tx1 tx same).1,
              matrix_row-panics tx1 tx2 txs later differ,
              matrix_row,
            )
            refl
    ]
  ]

  -- Of two different labels a transaction lacks one at least.
  lacks : (l : Bytes) (tx1 tx2 : Tx) → tx1.label ≢ tx2.label → (l ≢ tx1.label) ⊎ (l ≢ tx2.label)
  lacks l tx1 tx2 differ = elim (bytes_dec l tx1.label) [
    | no other ↦ inl other
    | yes same ↦ inr (λ e. differ (sym same ∙ e))
  ]

  matrix_rows-panics :
      (tx1 tx2 : Tx) (txs rest : List Tx)
      → In tx1 txs
      → In tx2 txs
      → tx1.label ≢ tx2.label
      → rest ≢ []
      → matrix_rows w txs rest ≡ panics
  unfolding matrix_rows
  matrix_rows-panics tx1 tx2 txs [] in1 in2 differ some_row = absurd (some_row refl)
  matrix_rows-panics tx1 tx2 txs (tx ∷ rest) in1 in2 differ some_row =
      elim (lacks tx.label tx1 tx2 differ) [
        | inl other ↦ rw (matrix_row-panics tx tx1 txs in1 other, matrix_rows) refl
        | inr other ↦ rw (matrix_row-panics tx tx2 txs in2 other, matrix_rows) refl
      ]

some_tx : (tx : Tx) (txs : List Tx) → In tx txs → txs ≢ []
some_tx tx [] here = absurd here
some_tx tx (x ∷ txs) here = λ e. cc

-- Where the pool has two transactions of different labels, and a peer is registered, BlockingSet
-- panics, and NewBlockWithOptions does with all options.
pub blocking_set-panics :
    (w : Wendy) (tx1 tx2 : Tx) (opts : NewBlockOptions)
    → w.peers ≢ []
    → In tx1 w.txs.list
    → In tx2 w.txs.list
    → tx1.label ≢ tx2.label
    → (blocking_set w ≡ panics) × (new_block_with_options opts w ≡ panics)
unfolding blocking_set new_block_with_options
blocking_set-panics w tx1 tx2 opts some_peer in1 in2 differ =
    let rows =
      matrix_rows-panics w some_peer tx1 tx2 w.txs.list w.txs.list in1 in2 differ
        (some_tx tx1 w.txs.list in1) in
    let fails : blocking_set w ≡ panics = rw (rows, blocking_set) refl in
    (fails, rw (fails, new_block_with_options) refl)
