-- ===== src/Mempool/Checks/Bounds.antt =====
-- The limits of the mempool and what `CheckTx` lets through (tendermint/mempool/mempool.go).
use wendy.Common.{
  ℕ, ◌+◌, ◌^◌, ◌<◌, ◌≤◌, ◌≡◌, ◌≢◌, refl, ap, sym, ◌∙◌, true, List, [], ◌∷◌, ◌++◌, Option, none,
  arith, length, length-append, Option-cases, Bool-cases, inl, inr, ◌⊎◌,
}
use wendy.Crypto.{Bytes}
use wendy.Types.{Hash}
use wendy.Mempool.Cache.{push}
use wendy.Mempool.Elements.{Clist, Laws}
use wendy.Mempool.{
  Mempool, MempoolTx, check_request, run_pre_check, is_full, first_error, write_wal, size,
}
use wendy.Mempool.Checks.{record_sender, request_check, check_tx, add_tx}

module _ {L E : Type 0} (sum256 : Bytes → Hash) (list : Clist MempoolTx L E)
    (laws : Laws list) where
  -- The number of bytes of all transactions.
  unfoldable pub total_bytes : List E → ℕ
  total_bytes [] = 0
  total_bytes (e ∷ es) = length (list.value e).tx + total_bytes es

  pub total_bytes-append :
      (xs ys : List E) → total_bytes (xs ++ ys) ≡ total_bytes xs + total_bytes ys
  unfolding total_bytes
  total_bytes-append [] ys = omega arith
  total_bytes-append (x ∷ xs) ys = omega (arith, total_bytes-append xs ys)

  -- The counter of bytes is right, and the limits are kept.
  pub record Fits (mem : Mempool L E) : Type 0 where
    pub counted : mem.txs_bytes ≡ total_bytes (laws.elements mem.txs)
    pub number : length (laws.elements mem.txs) ≤ mem.config.size
    pub bytes : total_bytes (laws.elements mem.txs) ≤ mem.config.max_txs_bytes

  -- The limits are less than a quarter of the range of an `int64`, as the transaction's size is.
  abbrev pub Sane : ℕ → Mempool L E → Type 0
  Sane n mem = (mem.config.max_txs_bytes < 2 ^ 62) × (n < 2 ^ 62)

  pub is_full-none :
      (n : ℕ) (mem : Mempool L E)
      → Sane n mem
      → Fits mem
      → is_full list n mem ≡ none
      → (length (laws.elements mem.txs) < mem.config.size)
        × (n + total_bytes (laws.elements mem.txs) ≤ mem.config.max_txs_bytes)
  unfolding is_full size
  is_full-none n mem sane fits room =
      let count = laws.len_elements mem.txs in
      let counted = fits.counted in
      let bytes = fits.bytes in (ground (arith, room, count), ground (arith, room, counted, bytes))

  first_error-none :
      (tx : Bytes) (mem : Mempool L E)
      → first_error list tx mem ≡ none
      → (is_full list (length tx) mem ≡ none)
        × (length tx ≤ mem.config.max_tx_bytes)
        × (run_pre_check mem.pre_check tx ≡ none)
  unfolding first_error
  first_error-none tx mem h = (ground (arith, h), ground (arith, h), ground (arith, h))

  -- What neither the log, nor the cache, nor a new sender changes.
  abbrev pub SameTxs : Mempool L E → Mempool L E → Type 0
  SameTxs a b = (a.txs ≡ b.txs) × (a.txs_map ≡ b.txs_map) × (a.txs_bytes ≡ b.txs_bytes)

  -- The two ends of a check: passed on to the application, or refused.
  abbrev pub Passed : Bytes → Mempool L E → Mempool L E → Type 0
  Passed tx mem mem' =
      (mem'.requests ≡ mem.requests ++ check_request tx ∷ [])
      × ((push sum256 tx mem.cache).1 ≡ true)
      × (run_pre_check mem.pre_check tx ≡ none)
      × (length tx ≤ mem.config.max_tx_bytes)
      × (length (laws.elements mem.txs) < mem.config.size)
      × (length tx + total_bytes (laws.elements mem.txs) ≤ mem.config.max_txs_bytes)

  write_wal-SameTxs :
      (tx : Bytes) (wal_error : Option Bytes) (mem : Mempool L E)
      → let mem' = (write_wal list tx wal_error mem).0 in
        SameTxs mem' mem × (mem'.requests ≡ mem.requests) × (mem'.cache ≡ mem.cache)
  unfolding write_wal
  write_wal-SameTxs tx wal_error mem =
      ((ground arith, ground arith, ground arith), ground arith, ground arith)

  request_check-SameTxs :
      (tx : Bytes) (sender : ℕ) (mem : Mempool L E)
      → let (mem', error) = request_check sum256 list tx sender mem in
        SameTxs mem' mem
        × (((error ≡ none)
              × (mem'.requests ≡ mem.requests ++ check_request tx ∷ [])
              × ((push sum256 tx mem.cache).1 ≡ true))
            ⊎ ((error ≢ none) × (mem'.requests ≡ mem.requests)))
  unfolding request_check record_sender
  request_check-SameTxs tx sender mem = elim (Bool-cases (push sum256 tx mem.cache).1) [
    | inl new ↦ rw (new, request_check) ((refl, refl, refl), inl (refl, refl, refl))
    | inr old ↦ (
      (ground (arith, old), ground (arith, old), ground (arith, old)),
      inr (ground (arith, old), ground (arith, old)),
    )
  ]

  -- With limits and a size below 2 ^ 62, on a mempool whose counter is right and limits are kept,
  -- CheckTx changes neither the transactions nor the map nor the counter; it returns no error only
  -- for a transaction that is new to the cache, passes the filter and keeps within the limits, and
  -- then sends one request; with an error it sends none.
  pub check_tx-Passed :
      (tx : Bytes) (sender : ℕ) (wal_error app_error : Option Bytes) (mem : Mempool L E)
      → Sane (length tx) mem
      → Fits mem
      → let (mem', error) = check_tx sum256 list tx sender wal_error app_error mem in
        SameTxs mem' mem
        × (((error ≡ none) × Passed tx mem mem')
            ⊎ ((error ≢ none) × (mem'.requests ≡ mem.requests)))
  unfolding check_tx
  check_tx-Passed tx sender wal_error app_error mem sane fits =
      let logged = (write_wal list tx wal_error mem).0 in
      let (same, requests, cache) = write_wal-SameTxs tx wal_error mem in
      let (same', ends) = request_check-SameTxs tx sender logged in
      elim (Option-cases (first_error list tx mem)) [
        | inr (e, failed) ↦ rw (failed, check_tx) ((refl, refl, refl), inr ((λ n. cc), refl))
        | inl passed ↦
            let (room, small, filtered) = first_error-none tx mem passed in
            let (number, bytes) = is_full-none (length tx) mem sane fits room in
            elim (Option-cases (write_wal list tx wal_error mem).1) [
              | inr (e, failed) ↦ rw (passed, failed, check_tx) (same, inr ((λ n. cc), requests))
              | inl written ↦ elim (Option-cases app_error) [
                | inr (e, failed) ↦
                    rw (passed, written, failed, check_tx) (same, inr ((λ n. cc), requests))
                | inl open_ ↦
                    rw (passed, written, open_, check_tx)
                      (
                        (same'.0 ∙ same.0, same'.1 ∙ same.1, same'.2 ∙ same.2),
                        elim ends [
                          | inl (fine, asked, added) ↦ inl (
                            fine,
                            (
                              asked ∙ ap (λ r. r ++ check_request tx ∷ []) requests,
                              ap (λ c. (push sum256 tx c).1) (sym cache) ∙ added,
                              filtered,
                              small,
                              number,
                              bytes,
                            ),
                          )
                          | inr (bad, quiet) ↦ inr (bad, quiet ∙ requests)
                        ],
                      )
              ]
            ]
      ]

  pub add_tx-Fits :
      (mem_tx : MempoolTx) (sender : ℕ) (mem : Mempool L E)
      → Sane (length mem_tx.tx) mem
      → Fits mem
      → length (laws.elements mem.txs) < mem.config.size
      → length mem_tx.tx + total_bytes (laws.elements mem.txs) ≤ mem.config.max_txs_bytes
      → Fits (add_tx sum256 list mem_tx sender mem)
  unfolding add_tx total_bytes
  add_tx-Fits mem_tx sender mem sane fits number bytes =
      let e = (list.push_back mem_tx mem.txs).0 in
      let contents = laws.push_back_elements mem_tx mem.txs in
      let held = ap (λ v. length v.tx) (laws.push_back_value mem_tx mem.txs) in
      let sum = ap total_bytes contents ∙ total_bytes-append (laws.elements mem.txs) (e ∷ []) in
      let count = ap length contents ∙ length-append (laws.elements mem.txs) (e ∷ []) in
      record {
        counted = omega (arith, fits.counted, sum, held);
        number = omega (arith, count);
        bytes = omega (arith, sum, held);
      }
