-- ===== src/Mempool/Checks/Answers.antt =====
-- The application's answers to first checks and the mempool's limits
-- (tendermint/mempool/mempool.go).
use wendy.Common.{
  ℕ, ◌≡◌, ◌≢◌, refl, ap, sym, ◌∙◌, true, ◌&&◌, [], ◌∷◌, ◌++◌, none, some, arith, length,
  length-append, Option-cases, Bool-cases, inl, inr, ◌⊎◌, Outcome, returns, if◌then◌else◌, ◌==◌,
}
use wendy.Crypto.{Bytes}
use wendy.Types.{Hash}
use wendy.LinkedList.{is_none}
use wendy.Mempool.Elements.{Clist, Laws}
use wendy.Mempool.{
  Mempool, MempoolTx, Response, check_tx_response, other_response, run_post_check, is_full,
  notify_txs_available, size,
}
use wendy.Mempool.Checks.{add_tx, accept, res_cb_first_time}
use wendy.Mempool.Checks.Bounds.{Fits, Sane, total_bytes, is_full-none, add_tx-Fits}

module _ {L E : Type 0} (sum256 : Bytes → Hash) (list : Clist MempoolTx L E)
    (laws : Laws list) where
  -- The same transactions, counter and configuration.
  abbrev pub SameState : Mempool L E → Mempool L E → Type 0
  SameState a b = (a.txs ≡ b.txs) × (a.txs_bytes ≡ b.txs_bytes) × (a.config ≡ b.config)

  pub Fits-same :
      (a b : Mempool L E) → SameState a b → Fits sum256 list laws b → Fits sum256 list laws a
  Fits-same a b (txs, bytes, config) fits =
      let held = ap laws.elements txs in
      let many = ap length held in
      let sum = ap (total_bytes sum256 list laws) held in
      record {
        counted = bytes ∙ fits.counted ∙ sym sum;
        number = omega (arith, fits.number, many, ap (λ c. c.size) config);
        bytes = omega (arith, fits.bytes, sum, ap (λ c. c.max_txs_bytes) config);
      }

  pub notify_txs_available-SameState :
      (mem : Mempool L E)
      → list.len mem.txs ≢ 0
      → (mem' : Mempool L E) × (notify_txs_available list mem ≡ returns mem') × SameState mem' mem
  unfolding notify_txs_available size
  notify_txs_available-SameState mem some_tx = elim (Option-cases mem.txs_available) [
    | inl closed ↦ (mem, ground (arith, some_tx), (refl, refl, refl))
    | inr (full, there) ↦ elim (Bool-cases mem.notified_txs_available) [
      | inl told ↦ (mem, ground (arith, some_tx), (refl, refl, refl))
      | inr quiet ↦ (
        record mem { notified_txs_available = true; txs_available = some true },
        ground (arith, some_tx),
        (refl, refl, refl),
      )
    ]
  ]

  -- The transactions as they were, or with the given one behind them.
  abbrev pub Grown : Bytes → Mempool L E → Mempool L E → Type 0
  Grown tx mem mem' =
      (laws.elements mem'.txs ≡ laws.elements mem.txs)
      ⊎ ((e : E) × (laws.elements mem'.txs ≡ laws.elements mem.txs ++ e ∷ [])
          × ((list.value e).tx ≡ tx))

  abbrev Outcomes : Bytes → Mempool L E → Outcome (Mempool L E) → Type 0
  Outcomes tx mem r =
      (mem' : Mempool L E) × (r ≡ returns mem') × Fits sum256 list laws mem' × Grown tx mem mem'

  add_tx-Outcomes :
      (mem_tx : MempoolTx) (sender : ℕ) (mem told : Mempool L E)
      → SameState told mem
      → Sane sum256 list laws (length mem_tx.tx) told
      → Fits sum256 list laws told
      → is_full list (length mem_tx.tx) told ≡ none
      → Outcomes mem_tx.tx mem (notify_txs_available list (add_tx sum256 list mem_tx sender told))
  unfolding add_tx
  add_tx-Outcomes mem_tx sender mem told same sane fits room =
      let (number, bytes) = is_full-none sum256 list laws (length mem_tx.tx) told sane fits room in
      let added = add_tx sum256 list mem_tx sender told in
      let fits' = add_tx-Fits sum256 list laws mem_tx sender told sane fits number bytes in
      let contents = laws.push_back_elements mem_tx told.txs in
      let e = (list.push_back mem_tx told.txs).0 in
      let grown =
        laws.len_elements added.txs
        ∙ ap length contents
        ∙ length-append (laws.elements told.txs) (e ∷ []) in
      let (mem', returned, same') =
        notify_txs_available-SameState added (λ z. ground (arith, z, grown)) in
      (
        mem',
        returned,
        Fits-same mem' added same' fits',
        inr (
          e,
          ap laws.elements same'.0 ∙ contents ∙ ap (λ l. laws.elements l ++ e ∷ []) same.0,
          ap (λ v. v.tx) (laws.push_back_value mem_tx told.txs),
        ),
      )

  accept-Outcomes :
      (tx : Bytes) (gas_wanted peer_id : ℕ) (mem : Mempool L E)
      → Sane sum256 list laws (length tx) mem
      → Fits sum256 list laws mem
      → Outcomes tx mem (accept sum256 list tx gas_wanted peer_id mem)
  unfolding accept
  accept-Outcomes tx gas_wanted peer_id mem sane fits =
      let told : Mempool L E =
        if mem.notify then record mem { notified = mem.notified ++ tx ∷ [] } else mem in
      let same : SameState told mem = (ground arith, ground arith, ground arith) in
      let sane' : Sane sum256 list laws (length tx) told = (ground (arith, same.2), sane.1) in
      let fits' = Fits-same told mem same fits in
      elim (Option-cases (is_full list (length tx) told)) [
        | inr (e, full) ↦
            rw (full, accept)
              (_, refl, Fits-same _ told (refl, refl, refl) fits', inl (ap laws.elements same.0))
        | inl room ↦
            rw (room, accept)
              (add_tx-Outcomes (record { height = told.height; gas_wanted = gas_wanted; tx = tx })
                peer_id mem told same sane' fits' room)
      ]

  -- With limits and a size below 2 ^ 62, the application's answer to a first check makes the
  -- callback return; if the counter of bytes was right and the limits on number and bytes were
  -- kept, they are so after it, and the transactions are the old ones or those with the checked
  -- one behind them.
  pub res_cb_first_time-Fits :
      (tx : Bytes) (peer_id : ℕ) (res : Response) (mem : Mempool L E)
      → Sane sum256 list laws (length tx) mem
      → Fits sum256 list laws mem
      → (mem' : Mempool L E) × (res_cb_first_time sum256 list tx peer_id res mem ≡ returns mem')
        × Fits sum256 list laws mem'
        × Grown tx mem mem'
  unfolding res_cb_first_time
  res_cb_first_time-Fits tx peer_id other_response mem sane fits = (mem, refl, fits, inl refl)
  res_cb_first_time-Fits tx peer_id (check_tx_response r) mem sane fits =
      elim (Bool-cases (r.code == 0 && is_none (run_post_check mem.post_check tx r))) [
        | inl good ↦
            rw (good, res_cb_first_time) (accept-Outcomes tx r.gas_wanted peer_id mem sane fits)
        | inr bad ↦
            rw (bad, res_cb_first_time) (_, refl, Fits-same _ mem (refl, refl, refl) fits, inl refl)
      ]
