-- ===== src/Mempool/Checks.antt =====
-- `CheckTx` of tendermint/mempool/mempool.go and what happens when the application has answered;
-- adding and removing transactions.
pub mod Bounds
pub mod Answers
use wendy.Common.{
  ℕ, ◌+◌, Bool, true, false, not, ◌&&◌, List, [], ◌∷◌, ◌++◌, Option, none, some, ◌==◌,
  if◌then◌else◌, ltb, length, lookup, insert, delete, Outcome, returns, panics, ◌>>=◌, add_int64,
  sub_int64,
}
use wendy.Crypto.{Bytes, bytes_dec}
use wendy.Types.{Hash}
use wendy.LinkedList.{is_none}
use wendy.Mempool.Cache.{tx_key, push}
use wendy.Mempool.Cache
use wendy.Mempool.Elements.{Clist}
use wendy.Mempool.{
  Mempool, MempoolTx, CheckTxError, tx_in_cache, connection_failed, check_request, CheckTxResponse,
  Response, check_tx_response, other_response, add_sender, or_empty, run_post_check, first_error,
  write_wal, is_full, notify_txs_available, size,
}

module _ {L E : Type 0} (sum256 : Bytes → Hash) (list : Clist MempoolTx L E) where
  -- A sender more for a transaction that is still in the mempool.
  unfoldable pub record_sender : Bytes → ℕ → Mempool L E → Mempool L E
  unfolding add_sender
  record_sender tx sender mem = elim (lookup bytes_dec (tx_key sum256 tx) mem.txs_map) [
    | none ↦ mem
    | some e ↦ record mem {
      senders =
          insert list.same e (add_sender sender (or_empty (lookup list.same e mem.senders)))
            mem.senders;
    }
  ]

  -- The end of `CheckTx`, from the push into the cache on.
  unfoldable pub request_check : Bytes → ℕ → Mempool L E → Mempool L E × Option CheckTxError
  unfolding record_sender
  request_check tx sender mem =
      let (cache, added) = push sum256 tx mem.cache in
      if added
      then (record mem { cache = cache; requests = mem.requests ++ check_request tx ∷ [] }, none)
      else (record_sender tx sender (record mem { cache = cache }), some tx_in_cache)

  -- `CheckTx`. `wal_error` and `app_error` are what the log's file and the connection report.
  unfoldable pub check_tx :
      Bytes → ℕ → Option Bytes → Option Bytes → Mempool L E → Mempool L E × Option CheckTxError
  unfolding request_check
  check_tx tx sender wal_error app_error mem = elim (first_error list tx mem) [
    | some e ↦ (mem, some e)
    | none ↦
        let (logged, failed) = write_wal list tx wal_error mem in
        elim failed [
          | some e ↦ (logged, some e)
          | none ↦ elim app_error [
            | some e ↦ (logged, some (connection_failed e))
            | none ↦ request_check tx sender logged
          ]
        ]
  ]

  -- `addTx`, with the one sender of a new transaction.
  unfoldable pub add_tx : MempoolTx → ℕ → Mempool L E → Mempool L E
  add_tx mem_tx sender mem =
      let (e, txs) = list.push_back mem_tx mem.txs in
      record mem {
        txs = txs;
        txs_map = insert bytes_dec (tx_key sum256 mem_tx.tx) e mem.txs_map;
        txs_bytes = add_int64 mem.txs_bytes (length mem_tx.tx);
        senders = insert list.same e (sender ∷ []) mem.senders;
      }

  -- `removeTx`.
  unfoldable pub remove_tx : Bytes → E → Bool → Mempool L E → Mempool L E
  remove_tx tx elem remove_from_cache mem = record mem {
    txs = list.remove elem mem.txs;
    txs_map = delete bytes_dec (tx_key sum256 tx) mem.txs_map;
    txs_bytes = sub_int64 mem.txs_bytes (length tx);
    cache = if remove_from_cache then Cache.remove_tx sum256 tx mem.cache else mem.cache;
  }

  -- `RemoveTxByKey`.
  unfoldable pub remove_tx_by_key : Hash → Bool → Mempool L E → Mempool L E
  unfolding remove_tx
  remove_tx_by_key key remove_from_cache mem = elim (lookup bytes_dec key mem.txs_map) [
    | none ↦ mem
    | some e ↦ remove_tx (list.value e).tx e remove_from_cache mem
  ]

  -- A transaction that passed the application's check and the filter.
  unfoldable pub accept : Bytes → ℕ → ℕ → Mempool L E → Outcome (Mempool L E)
  accept tx gas_wanted peer_id mem =
      let told = if mem.notify then record mem { notified = mem.notified ++ tx ∷ [] } else mem in
      elim (is_full list (length tx) told) [
        | some e ↦ returns (record told { cache = Cache.remove_tx sum256 tx told.cache })
        | none ↦ notify_txs_available list (
            add_tx (record { height = told.height; gas_wanted = gas_wanted; tx = tx }) peer_id told)
      ]

  -- `resCbFirstTime`.
  unfoldable pub res_cb_first_time : Bytes → ℕ → Response → Mempool L E → Outcome (Mempool L E)
  unfolding accept
  res_cb_first_time tx peer_id other_response mem = returns mem
  res_cb_first_time tx peer_id (check_tx_response r) mem =
      if r.code == 0 && is_none (run_post_check mem.post_check tx r)
      then accept tx r.gas_wanted peer_id mem
      else returns (record mem {
        cache =
            if mem.config.keep_invalid_txs_in_cache
            then mem.cache
            else Cache.remove_tx sum256 tx mem.cache;
      })

  -- The callback of a request, `reqResCb`; the caller's own callback comes after it.
  unfoldable pub req_res_cb : Bytes → ℕ → Response → Mempool L E → Outcome (Mempool L E)
  unfolding res_cb_first_time
  req_res_cb tx peer_id res mem = elim mem.recheck_cursor [
    | some e ↦ panics
    | none ↦ res_cb_first_time tx peer_id res mem
  ]
