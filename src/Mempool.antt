-- ===== src/Mempool.antt =====
-- tendermint/mempool: transactions that wait for a block. The list of transactions is Tendermint's
-- `clist`, a parameter; the application answers by callbacks, which are operations here.
pub mod Cache
pub mod PeerIds
pub mod Elements
pub mod Checks
pub mod Updates
pub mod Reaping
pub mod Reactor
pub mod Setup
use wendy.Common.{
  ℕ, zero, suc, ◌+◌, Bool, true, false, not, ◌&&◌, ◌||◌, List, [], ◌∷◌, ◌++◌, Option, none, some,
  ◌==◌, leb, ltb, if◌then◌else◌, ite, length, lookup, insert, delete, Outcome, returns, panics,
  ◌>>=◌, ℕ_discrete, add_int64, sub_int64, lt_int64,
}
use wendy.Crypto.{Bytes, bytes_dec}
use wendy.Types.{Hash}
use wendy.LinkedList.{is_none}
use wendy.Mempool.Cache.{
  TxCache, map_tx_cache, nop_tx_cache, new_map_tx_cache, reset_cache, tx_key, push,
}
use wendy.Mempool.Cache
use wendy.Mempool.Elements.{Clist}

-- What the mempool reads of `MempoolConfig`, whose numbers are not negative.
pub record Config : Type 0 where
  pub size : ℕ
  pub max_txs_bytes : ℕ
  pub max_tx_bytes : ℕ
  pub cache_size : ℕ
  pub keep_invalid_txs_in_cache : Bool
  pub recheck : Bool

-- The part of `ResponseCheckTx` that is read; code 0 is `CodeTypeOK`.
pub record CheckTxResponse : Type 0 where
  pub code : ℕ
  pub gas_wanted : ℕ

pub data Response : Type 0 where
  check_tx_response : CheckTxResponse → Response
  other_response : Response

-- The calls of the application's connection.
pub data Request : Type 0 where
  check_request : Bytes → Request
  recheck_request : Bytes → Request
  flush_request : Request

-- The errors of `CheckTx`, those of the filter, the log and the connection by their texts.
pub data CheckTxError : Type 0 where
  mempool_is_full : ℕ → ℕ → ℕ → ℕ → CheckTxError
  tx_too_large : ℕ → ℕ → CheckTxError
  pre_check_failed : Bytes → CheckTxError
  wal_write_failed : Bytes → CheckTxError
  connection_failed : Bytes → CheckTxError
  tx_in_cache : CheckTxError

-- `mempoolTx`, whose senders the mempool keeps by its element.
pub record MempoolTx : Type 0 where
  pub height : ℕ
  pub gas_wanted : ℕ
  pub tx : Bytes

-- `Mempool`. `notified` and `requests` are the calls of `notify` and of the connection so far; the
-- channel `txsAvailable` is there or not, and is empty or full.
pub record Mempool (L E : Type 0) : Type 0 where
  pub height : ℕ
  pub txs_bytes : ℕ
  pub notified_txs_available : Bool
  pub txs_available : Option Bool
  pub config : Config
  pub pre_check : Option (Bytes → Option Bytes)
  pub post_check : Option (Bytes → CheckTxResponse → Option Bytes)
  pub notify : Bool
  pub notified : List Bytes
  pub wal : Option (List Bytes)
  pub txs : L
  pub requests : List Request
  pub recheck_cursor : Option E
  pub recheck_end : Option E
  pub txs_map : List (Hash × E)
  pub senders : List (E × List ℕ)
  pub cache : TxCache

-- `LoadOrStore` of a sender.
unfoldable pub add_sender : ℕ → List ℕ → List ℕ
add_sender id [] = id ∷ []
add_sender id (i ∷ ids) = ite (ℕ_discrete i id) (i ∷ ids) (i ∷ add_sender id ids)

abbrev pub or_empty : Option (List ℕ) → List ℕ
or_empty none = []
or_empty (some ids) = ids

-- The filters, where they are set.
abbrev pub run_pre_check : Option (Bytes → Option Bytes) → Bytes → Option Bytes
run_pre_check none tx = none
run_pre_check (some f) tx = f tx

abbrev pub run_post_check :
    Option (Bytes → CheckTxResponse → Option Bytes) → Bytes → CheckTxResponse → Option Bytes
run_post_check none tx r = none
run_post_check (some f) tx r = f tx r

module _ {L E : Type 0} (list : Clist MempoolTx L E) where
  -- `New`, before its options.
  unfoldable pub new : Config → ℕ → Mempool L E
  new config height = record {
    height = height;
    txs_bytes = 0;
    notified_txs_available = false;
    txs_available = none;
    config = config;
    pre_check = none;
    post_check = none;
    notify = false;
    notified = [];
    wal = none;
    txs = list.empty;
    requests = [];
    recheck_cursor = none;
    recheck_end = none;
    txs_map = [];
    senders = [];
    cache =
        if ltb 0 config.cache_size
        then map_tx_cache (new_map_tx_cache config.cache_size)
        else nop_tx_cache;
  }

  -- `Size`.
  unfoldable pub size : Mempool L E → ℕ
  size mem = list.len mem.txs

  unfoldable pub is_full : ℕ → Mempool L E → Option CheckTxError
  unfolding size
  is_full tx_size mem =
      if leb mem.config.size (size mem)
        || lt_int64 mem.config.max_txs_bytes (add_int64 tx_size mem.txs_bytes)
      then some (mempool_is_full (size mem) mem.config.size mem.txs_bytes mem.config.max_txs_bytes)
      else none

  -- `notifyTxsAvailable`: it sends at most once between two calls of `Update`.
  unfoldable pub notify_txs_available : Mempool L E → Outcome (Mempool L E)
  unfolding size
  notify_txs_available mem = if size mem == 0 then panics else elim mem.txs_available [
    | none ↦ returns mem
    | some _ ↦
        if mem.notified_txs_available
        then returns mem
        else returns (record mem { notified_txs_available = true; txs_available = some true })
  ]

  -- The checks of `CheckTx` that change nothing.
  unfoldable pub first_error : Bytes → Mempool L E → Option CheckTxError
  unfolding is_full
  first_error tx mem = elim (is_full (length tx) mem) [
    | some e ↦ some e
    | none ↦
        if ltb mem.config.max_tx_bytes (length tx)
        then some (tx_too_large mem.config.max_tx_bytes (length tx))
        else elim (run_pre_check mem.pre_check tx) [
          | some e ↦ some (pre_check_failed e)
          | none ↦ none
        ]
  ]

  -- The write to the log, where there is one: the log with the transaction and a newline, or the
  -- error that the file gives.
  unfoldable pub write_wal : Bytes → Option Bytes → Mempool L E → Mempool L E × Option CheckTxError
  write_wal tx wal_error mem = elim mem.wal [
    | none ↦ (mem, none)
    | some log ↦ elim wal_error [
      | some e ↦ (mem, some (wal_write_failed e))
      | none ↦ (record mem { wal = some (log ++ (tx ++ 10 ∷ []) ∷ []) }, none)
    ]
  ]
