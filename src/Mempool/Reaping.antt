-- ===== src/Mempool/Reaping.antt =====
-- `ReapMaxBytesMaxGas` and `ReapMaxTxs` of tendermint/mempool/mempool.go.
pub mod Prefix
pub mod Overflow
use wendy.Common.{
  ℕ, zero, suc, Bool, not, ◌&&◌, List, [], ◌∷◌, ◌++◌, Option, none, some, leb, if◌then◌else◌,
  length, ℤ, pos, negsuc, add_int64, lt_int64, minus_one,
}
use wendy.Crypto.{Bytes}
use wendy.Mempool.Elements.{Clist}
use wendy.Mempool.{Mempool, MempoolTx}

-- A negative number stands for the number of transactions.
abbrev pub limit : ℕ → ℤ → ℕ
limit len (pos max) = max
limit len (negsuc _) = len

module _ {L E : Type 0} (list : Clist MempoolTx L E) where
  -- The loop of `ReapMaxBytesMaxGas`. `proto_size` is `types.ComputeProtoSizeForTxs`.
  unfoldable pub reap_bytes_gas :
      (List Bytes → ℕ) → ℕ → ℕ → ℕ → Option E → L → ℕ → List Bytes → List Bytes
  reap_bytes_gas proto_size max_bytes max_gas zero e l total_gas txs = txs
  reap_bytes_gas proto_size max_bytes max_gas (suc fuel) none l total_gas txs = txs
  reap_bytes_gas proto_size max_bytes max_gas (suc fuel) (some e) l total_gas txs =
      let mem_tx = list.value e in
      let data_size = proto_size (txs ++ mem_tx.tx ∷ []) in
      let new_total_gas = add_int64 total_gas mem_tx.gas_wanted in
      let rest =
        reap_bytes_gas proto_size max_bytes max_gas fuel (list.next l e) l new_total_gas
          (txs ++ mem_tx.tx ∷ []) in
      if lt_int64 minus_one max_bytes && lt_int64 max_bytes data_size
      then txs
      else if lt_int64 minus_one max_gas && lt_int64 max_gas new_total_gas
      then txs
      else rest

  unfoldable pub reap_max_bytes_max_gas : (List Bytes → ℕ) → ℕ → ℕ → Mempool L E → List Bytes
  unfolding reap_bytes_gas
  reap_max_bytes_max_gas proto_size max_bytes max_gas mem =
      reap_bytes_gas proto_size max_bytes max_gas (suc (list.len mem.txs)) (list.front mem.txs)
        mem.txs 0 []

  -- The loop of `ReapMaxTxs`.
  unfoldable pub reap_txs : ℕ → ℕ → Option E → L → List Bytes → List Bytes
  reap_txs max zero e l txs = txs
  reap_txs max (suc fuel) none l txs = txs
  reap_txs max (suc fuel) (some e) l txs =
      let rest = reap_txs max fuel (list.next l e) l (txs ++ (list.value e).tx ∷ []) in
      if leb (length txs) max then rest else txs

  unfoldable pub reap_max_txs : ℤ → Mempool L E → List Bytes
  unfolding reap_txs
  reap_max_txs max mem =
      reap_txs (limit (list.len mem.txs) max) (suc (list.len mem.txs)) (list.front mem.txs) mem.txs
        []
