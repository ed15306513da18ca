-- ===== src/Mempool/Setup.antt =====
-- Making and configuring a mempool (tendermint/mempool/mempool.go): options, the log of
-- transactions, and what other parts read.
use wendy.Common.{
  ℕ, ◌≡◌, refl, ap, sym, ◌∙◌, true, false, List, [], ◌∷◌, ◌++◌, Option, none, some, arith, lookup,
  Outcome, returns, panics, length,
}
use wendy.Crypto.{Bytes, bytes_dec}
use wendy.Types.{Hash}
use wendy.Mempool.Elements.{Clist, Laws}
use wendy.Mempool.{Mempool, MempoolTx, Config, CheckTxResponse, flush_request, new}
use wendy.Mempool.Checks.Bounds.{total_bytes}
use wendy.Mempool.Updates.Removal.{Right}

-- `WithPreCheck`, `WithPostCheck` and `WithNotify`.
pub data MempoolOption : Type 0 where
  with_pre_check : (Bytes → Option Bytes) → MempoolOption
  with_post_check : (Bytes → CheckTxResponse → Option Bytes) → MempoolOption
  with_notify : MempoolOption

module _ {L E : Type 0} where
  unfoldable pub apply_option : MempoolOption → Mempool L E → Mempool L E
  apply_option (with_pre_check f) mem = record mem { pre_check = some f }
  apply_option (with_post_check f) mem = record mem { post_check = some f }
  apply_option with_notify mem = record mem { notify = true }

  -- The loop over the options in `New`.
  unfoldable pub apply_options : List MempoolOption → Mempool L E → Mempool L E
  unfolding apply_option
  apply_options [] mem = mem
  apply_options (option ∷ options) mem = apply_options options (apply_option option mem)

  -- `EnableTxsAvailable`: a new channel, which is empty.
  unfoldable pub enable_txs_available : Mempool L E → Mempool L E
  enable_txs_available mem = record mem { txs_available = some false }

  -- `InitWAL`: the errors of the directory and of the file, and what the file holds.
  unfoldable pub init_wal :
      Option Bytes → Option Bytes → List Bytes → Mempool L E → Mempool L E × Option Bytes
  init_wal dir_error open_error content mem = elim dir_error [
    | some e ↦ (mem, some e)
    | none ↦ elim open_error [
      | some e ↦ (mem, some e)
      | none ↦ (record mem { wal = some content }, none)
    ]
  ]

  -- `CloseWAL`, whose error is logged only; there is no file to close where there is no log.
  unfoldable pub close_wal : Mempool L E → Outcome (Mempool L E)
  close_wal mem = elim mem.wal [ none ↦ panics | some log ↦ returns (record mem { wal = none }) ]

  -- `FlushAppConn`, with the error of the connection.
  unfoldable pub flush_app_conn : Option Bytes → Mempool L E → Mempool L E × Option Bytes
  flush_app_conn error mem = (record mem { requests = mem.requests ++ flush_request ∷ [] }, error)

  -- `TxsBytes`.
  unfoldable pub read_txs_bytes : Mempool L E → ℕ
  read_txs_bytes mem = mem.txs_bytes

module _ {L E : Type 0} (list : Clist MempoolTx L E) where
  -- `TxsFront`.
  unfoldable pub txs_front : Mempool L E → Option E
  txs_front mem = list.front mem.txs

  -- `New`.
  unfoldable pub new_with_options : Config → ℕ → List MempoolOption → Mempool L E
  unfolding apply_options
  new_with_options config height options = apply_options options (new list config height)

module _ {L E : Type 0} (sum256 : Bytes → Hash) (list : Clist MempoolTx L E)
    (laws : Laws list) where
  -- Options change neither the transactions nor the counter, the map or the configuration.
  apply_options-same :
      (options : List MempoolOption) (mem : Mempool L E)
      → let mem' = apply_options options mem in
        (mem'.txs ≡ mem.txs)
        × (mem'.txs_bytes ≡ mem.txs_bytes)
        × (mem'.txs_map ≡ mem.txs_map)
        × (mem'.config ≡ mem.config)
  unfolding apply_options
  apply_options-same [] mem = (refl, refl, refl, refl)
  apply_options-same (with_pre_check f ∷ options) mem = apply_options-same options _
  apply_options-same (with_post_check f ∷ options) mem = apply_options-same options _
  apply_options-same (with_notify ∷ options) mem = apply_options-same options _

  -- A mempool that was made with any options has a right counter and a right map.
  pub new_with_options-Right :
      (config : Config) (height : ℕ) (options : List MempoolOption)
      → Right sum256 list laws (new_with_options list config height options)
  unfolding new_with_options new total_bytes
  new_with_options-Right config height options =
      let mem = new_with_options list config height options in
      let (txs, bytes, index, _) = apply_options-same options (new list config height) in
      let none_held : laws.elements mem.txs ≡ [] = ap laws.elements txs ∙ laws.elements_empty in
      (
        record {
          counted = bytes ∙ sym (ap (total_bytes sum256 list laws) none_held);
          number = omega (arith, ap length none_held);
          bytes = omega (arith, ap (total_bytes sum256 list laws) none_held);
        },
        λ h e at. absurd (ground (arith, at, ap (lookup bytes_dec h) index)),
      )
