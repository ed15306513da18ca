-- ===== src/Mempool/Reactor/Senders.antt =====
-- The senders that are recorded of a transaction (tendermint/mempool/mempool.go).
use wendy.Common.{
  ℕ, ◌≡◌, ◌≢◌, refl, ap, sym, ◌∙◌, subst, true, ◌&&◌, List, [], ◌∷◌, ◌++◌, Option, none, some, inl,
  inr, ◌⊎◌, arith, length, Bool-cases, Option-cases, returns, if◌then◌else◌, lookup, lookup-insert,
  ite, if_pos, if_neg, ℕ_discrete, ◌==◌,
}
use wendy.Crypto.{Bytes, bytes_dec}
use wendy.Types.{Hash}
use wendy.LinkedList.{is_none}
use wendy.Mempool.Cache.{tx_key, push}
use wendy.Mempool.Elements.{Clist}
use wendy.Mempool.{
  Mempool, MempoolTx, tx_in_cache, Response, check_tx_response, other_response, or_empty,
  add_sender, notify_txs_available, size, is_full, run_post_check, first_error, write_wal,
}
use wendy.Mempool.Checks.{record_sender, request_check, check_tx, add_tx, accept, res_cb_first_time}
use wendy.Mempool.Reactor.{has_sender}

has_sender-add_sender :
    (id q : ℕ) (ids : List ℕ)
    → has_sender q (add_sender id ids) ≡ ite (ℕ_discrete id q) true (has_sender q ids)
unfolding add_sender
has_sender-add_sender id q [] = refl
has_sender-add_sender id q (i ∷ ids) = ground (arith, has_sender-add_sender id q ids)

module _ {L E : Type 0} (sum256 : Bytes → Hash) (list : Clist MempoolTx L E) where
  abbrev pub senders_of : Mempool L E → E → List ℕ
  senders_of mem e = or_empty (lookup list.same e mem.senders)

  -- A check that finds the transaction in the cache records its sender, and keeps all others.
  record_sender-senders :
      (tx : Bytes) (sender : ℕ) (mem : Mempool L E) (e : E)
      → lookup bytes_dec (tx_key sum256 tx) mem.txs_map ≡ some e
      → (f : E) (q : ℕ)
      → has_sender q (senders_of (record_sender sum256 list tx sender mem) f)
        ≡ ite
            (list.same e f)
            (ite (ℕ_discrete sender q) true (has_sender q (senders_of mem f)))
            (has_sender q (senders_of mem f))
  unfolding record_sender
  record_sender-senders tx sender mem e there f q =
      let ids = add_sender sender (senders_of mem e) in
      let looked = lookup-insert list.same e f ids mem.senders in
      let known = has_sender-add_sender sender q (senders_of mem e) in
      rw (there, record_sender)
        (ap (λ t. has_sender q (or_empty t)) looked ∙ (elim (list.same e f) [
          | yes same ↦
              rw (if_pos (list.same e f) same (some ids) (lookup list.same f mem.senders)) (
                rw
                  (if_pos (list.same e f) same
                    (ite (ℕ_discrete sender q) true (has_sender q (senders_of mem f)))
                    (has_sender q (senders_of mem f)))
                  (subst
                    (λ g.
                      has_sender q ids
                      ≡ ite (ℕ_discrete sender q) true (has_sender q (senders_of mem g)))
                    same known))
          | no other ↦
              rw (if_neg (list.same e f) other (some ids) (lookup list.same f mem.senders)) (
                rw
                  (if_neg (list.same e f) other
                    (ite (ℕ_discrete sender q) true (has_sender q (senders_of mem f)))
                    (has_sender q (senders_of mem f)))
                  refl)
        ]))

  write_wal-keeps :
      (tx : Bytes) (wal_error : Option Bytes) (mem : Mempool L E)
      → let mem' = (write_wal list tx wal_error mem).0 in
        (mem'.txs_map ≡ mem.txs_map) × (mem'.senders ≡ mem.senders)
  unfolding write_wal
  write_wal-keeps tx wal_error mem = (ground arith, ground arith)

  -- Who was a sender of a transaction still is one.
  abbrev pub KeepsSenders : Mempool L E → Mempool L E → Type 0
  KeepsSenders mem mem' =
      (f : E) (q : ℕ)
      → has_sender q (senders_of mem f) ≡ true
      → has_sender q (senders_of mem' f) ≡ true

  record_sender_unknown :
      (tx : Bytes) (sender : ℕ) (mem : Mempool L E)
      → lookup bytes_dec (tx_key sum256 tx) mem.txs_map ≡ none
      → record_sender sum256 list tx sender mem ≡ mem
  unfolding record_sender
  record_sender_unknown tx sender mem unknown = rw (unknown, record_sender) refl

  record_sender-KeepsSenders :
      (tx : Bytes) (sender : ℕ) (mem : Mempool L E)
      → KeepsSenders mem (record_sender sum256 list tx sender mem)
  record_sender-KeepsSenders tx sender mem f q old =
      elim (Option-cases (lookup bytes_dec (tx_key sum256 tx) mem.txs_map)) [
        | inl unknown ↦
            subst (λ (m : Mempool L E). has_sender q (senders_of m f) ≡ true)
              (sym (record_sender_unknown tx sender mem unknown)) old
        | inr (e, there) ↦
            let now = record_sender-senders tx sender mem e there f q in ground (arith, now, old)
      ]

  request_check-has_sender :
      (tx : Bytes) (sender : ℕ) (mem : Mempool L E)
      → let (mem', error) = request_check sum256 list tx sender mem in
        ((e : E)
          → error ≡ some tx_in_cache
          → lookup bytes_dec (tx_key sum256 tx) mem.txs_map ≡ some e
          → has_sender sender (senders_of mem' e) ≡ true)
        × KeepsSenders mem mem'
  unfolding request_check
  request_check-has_sender tx sender mem = elim (Bool-cases (push sum256 tx mem.cache).1) [
    | inl new ↦ rw (new, request_check) ((λ e refused there. cc), λ f q old. old)
    | inr known ↦
        let mem1 : Mempool L E = record mem { cache = (push sum256 tx mem.cache).0 } in
        rw (known, request_check)
          (
            (λ e refused there.
                ground (arith, record_sender-senders tx sender mem1 e there e sender)),
            record_sender-KeepsSenders tx sender mem1,
          )
  ]

  first_error-other : (tx : Bytes) (mem : Mempool L E) → first_error list tx mem ≢ some tx_in_cache
  unfolding first_error is_full
  first_error-other tx mem e = ground (arith, e)

  write_wal-other :
      (tx : Bytes) (wal_error : Option Bytes) (mem : Mempool L E)
      → (write_wal list tx wal_error mem).1 ≢ some tx_in_cache
  unfolding write_wal
  write_wal-other tx wal_error mem e = ground (arith, e)

  -- A transaction that CheckTx finds in the cache and that is in the mempool has the caller as a sender.
  pub check_tx-has_sender :
      (tx : Bytes) (sender : ℕ) (wal_error app_error : Option Bytes) (mem : Mempool L E)
      → let (mem', error) = check_tx sum256 list tx sender wal_error app_error mem in
        ((e : E)
          → error ≡ some tx_in_cache
          → lookup bytes_dec (tx_key sum256 tx) mem.txs_map ≡ some e
          → has_sender sender (senders_of mem' e) ≡ true)
        × KeepsSenders mem mem'
  unfolding check_tx
  check_tx-has_sender tx sender wal_error app_error mem =
      let logged = (write_wal list tx wal_error mem).0 in
      let (map, same) = write_wal-keeps tx wal_error mem in
      let (caught, keeps) = request_check-has_sender tx sender logged in
      let keep : KeepsSenders mem logged = λ f q old.
        subst (λ m. has_sender q (or_empty (lookup list.same f m)) ≡ true) (sym same) old in
      elim (Option-cases (first_error list tx mem)) [
        | inr (e, failed) ↦
            rw (failed, check_tx)
              ((λ f refused. absurd (first_error-other tx mem (failed ∙ refused))), λ f q old. old)
        | inl passed ↦ elim (Option-cases (write_wal list tx wal_error mem).1) [
          | inr (e, failed) ↦
              rw (passed, failed, check_tx)
                ((λ f refused. absurd (write_wal-other tx wal_error mem (failed ∙ refused))), keep)
          | inl written ↦ elim (Option-cases app_error) [
            | inr (e, failed) ↦ rw (passed, written, failed, check_tx) ((λ f refused. cc), keep)
            | inl open_ ↦
                rw (passed, written, open_, check_tx)
                  (
                    (λ e refused there.
                        caught e refused (ap (lookup bytes_dec (tx_key sum256 tx)) map ∙ there)),
                    λ f q old. keeps f q (keep f q old),
                  )
          ]
        ]
      ]

  notify_txs_available-senders :
      (mem mem' : Mempool L E)
      → notify_txs_available list mem ≡ returns mem'
      → (mem'.senders ≡ mem.senders) × (mem'.txs ≡ mem.txs)
  unfolding notify_txs_available size
  notify_txs_available-senders mem mem' done = elim (Bool-cases (size list mem == 0)) [
    | inl empty ↦ absurd (ground (arith, done))
    | inr some_tx ↦ elim (Option-cases mem.txs_available) [
      | inl closed ↦ (ground (arith, done), ground (arith, done))
      | inr (full, there) ↦ elim (Bool-cases mem.notified_txs_available) [
        | inl told ↦ (ground (arith, done), ground (arith, done))
        | inr quiet ↦ (ground (arith, done), ground (arith, done))
      ]
    ]
  ]

  -- The new element has the one sender.
  abbrev pub Own : Bytes → ℕ → Mempool L E → Mempool L E → Type 0
  Own tx peer_id mem mem' =
      (mem'.txs ≡ mem.txs)
      ⊎ ((v : MempoolTx) × (v.tx ≡ tx)
          × (mem'.txs ≡ (list.push_back v mem.txs).1)
          × (has_sender peer_id (senders_of mem' (list.push_back v mem.txs).0) ≡ true))

  added_Own :
      (v : MempoolTx) (peer_id : ℕ) (mem told mem' : Mempool L E)
      → told.txs ≡ mem.txs
      → notify_txs_available list (add_tx sum256 list v peer_id told) ≡ returns mem'
      → Own v.tx peer_id mem mem'
  unfolding add_tx
  added_Own v peer_id mem told mem' same done =
      let (senders, txs) =
        notify_txs_available-senders (add_tx sum256 list v peer_id told) mem' done in
      let e = (list.push_back v told.txs).0 in
      let looked = lookup-insert list.same e e (peer_id ∷ []) told.senders in
      let own : lookup list.same e mem'.senders ≡ some (peer_id ∷ []) =
        ap (lookup list.same e) senders ∙ looked ∙ if_pos (list.same e e) refl _ _ in
      let sent : has_sender peer_id (senders_of mem' e) ≡ true =
        ap (λ o. has_sender peer_id (or_empty o)) own
        ∙ if_pos (ℕ_discrete peer_id peer_id) refl _ _ in
      inr (
        v,
        refl,
        txs ∙ ap (λ l. (list.push_back v l).1) same,
        subst (λ l. has_sender peer_id (senders_of mem' (list.push_back v l).0) ≡ true) same sent,
      )

  accept-Own :
      (tx : Bytes) (gas_wanted peer_id : ℕ) (mem mem' : Mempool L E)
      → accept sum256 list tx gas_wanted peer_id mem ≡ returns mem'
      → Own tx peer_id mem mem'
  unfolding accept
  accept-Own tx gas_wanted peer_id mem mem' done =
      let told : Mempool L E =
        if mem.notify then record mem { notified = mem.notified ++ tx ∷ [] } else mem in
      let same : told.txs ≡ mem.txs = ground arith in
      let v : MempoolTx = record { height = told.height; gas_wanted = gas_wanted; tx = tx } in
      elim (Option-cases (is_full list (length tx) told)) [
        | inr (e, full) ↦ inl (ground (arith, done, full, same))
        | inl room ↦ added_Own v peer_id mem told mem' same (ground (arith, done, room))
      ]

  pub res_cb_first_time-Own :
      (tx : Bytes) (peer_id : ℕ) (res : Response) (mem mem' : Mempool L E)
      → res_cb_first_time sum256 list tx peer_id res mem ≡ returns mem'
      → Own tx peer_id mem mem'
  unfolding res_cb_first_time
  res_cb_first_time-Own tx peer_id other_response mem mem' done = inl (ground (arith, done))
  res_cb_first_time-Own tx peer_id (check_tx_response r) mem mem' done =
      elim (Bool-cases (r.code == 0 && is_none (run_post_check mem.post_check tx r))) [
        | inl good ↦ accept-Own tx r.gas_wanted peer_id mem mem' (ground (arith, done, good))
        | inr bad ↦ inl (ground (arith, done, bad))
      ]
