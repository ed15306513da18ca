-- ===== src/Mempool/Reactor/Echo.antt =====
-- A peer that sent a transaction, and the routine for that peer (tendermint/mempool/reactor.go,
-- mempool.go).
use wendy.Common.{
  ℕ, ◌+◌, ◌≡◌, true, [], Option, some, inl, inr, ◌⊎◌, arith, Bool-cases, Option-cases, returns, ltb,
  lookup,
}
use wendy.Crypto.{Bytes, bytes_dec}
use wendy.Types.{Hash}
use wendy.Mempool.Cache.{tx_key}
use wendy.Mempool.Elements.{Clist}
use wendy.Mempool.{Mempool, MempoolTx, tx_in_cache, Response}
use wendy.Mempool.Checks.{check_tx, res_cb_first_time}
use wendy.Mempool.Reactor.{Round, Routine, at_tx, behind_tx, has_sender, send_tx, broadcast_step}
use wendy.Mempool.Reactor.Senders.{senders_of, check_tx-has_sender, res_cb_first_time-Own}

module _ {L E : Type 0} (sum256 : Bytes → Hash) (list : Clist MempoolTx L E)
    (marshal : Bytes → Option Bytes) (peer_id : ℕ) where
  -- In no round is the transaction sent.
  abbrev pub Quiet : Mempool L E → E → Type 0
  Quiet mem e =
      (round : Round)
      → (at : Routine E) × (broadcast_step marshal list peer_id round mem (at_tx e)
          ≡ returns (at, []))

  sender_Quiet :
      (mem : Mempool L E) (e : E)
      → has_sender peer_id (senders_of sum256 list mem e) ≡ true
      → Quiet mem e
  unfolding broadcast_step send_tx
  sender_Quiet mem e own round = elim (Bool-cases round.running) [
    | inr stopped ↦ (Routine.returned, ground (arith, stopped))
    | inl running ↦ elim (Option-cases round.peer_height) [
      | inl none_yet ↦ (at_tx e, ground (arith, running, none_yet))
      | inr (height, there) ↦ elim (Bool-cases (ltb (height + 1) (list.value e).height)) [
        | inl behind ↦ (at_tx e, ground (arith, running, there, behind))
        | inr near ↦ (behind_tx e, ground (arith, running, there, near, own))
      ]
    ]
  ]

  pub res_cb_first_time-Quiet :
      (tx : Bytes) (res : Response) (mem mem' : Mempool L E)
      → res_cb_first_time sum256 list tx peer_id res mem ≡ returns mem'
      → (mem'.txs ≡ mem.txs)
        ⊎ ((v : MempoolTx) × (v.tx ≡ tx)
            × (mem'.txs ≡ (list.push_back v mem.txs).1)
            × Quiet mem' (list.push_back v mem.txs).0)
  res_cb_first_time-Quiet tx res mem mem' done =
      elim (res_cb_first_time-Own sum256 list tx peer_id res mem mem' done) [
        | inl same ↦ inl same
        | inr (v, is_tx, txs, own) ↦ inr (v, is_tx, txs, sender_Quiet mem' _ own)
      ]

  -- After CheckTx of a transaction from a peer, a turn of the peer's broadcastTxRoutine that
  -- stands at a transaction of the mempool sends nothing, where the check said that its
  -- transaction is in the cache and the map gives this one for it, or where the peer was recorded
  -- as a sender of this one before
  pub check_tx-Quiet :
      (tx : Bytes) (wal_error app_error : Option Bytes) (mem : Mempool L E) (e : E) (round : Round)
      → (((check_tx sum256 list tx peer_id wal_error app_error mem).1 ≡ some tx_in_cache)
          × (lookup bytes_dec (tx_key sum256 tx) mem.txs_map ≡ some e))
        ⊎ (has_sender peer_id (senders_of sum256 list mem e) ≡ true)
      → let mem' = (check_tx sum256 list tx peer_id wal_error app_error mem).0 in
        (at : Routine E) × (broadcast_step marshal list peer_id round mem' (at_tx e)
          ≡ returns (at, []))
  check_tx-Quiet tx wal_error app_error mem e round why =
      let (caught, keeps) = check_tx-has_sender sum256 list tx peer_id wal_error app_error mem in
      let mem' = (check_tx sum256 list tx peer_id wal_error app_error mem).0 in
      elim why [
        | inl (refused, there) ↦ sender_Quiet mem' e (caught e refused there) round
        | inr own ↦ sender_Quiet mem' e (keeps e peer_id own) round
      ]
