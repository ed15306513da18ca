-- ===== src/Mempool/Updates.antt =====
-- `Update`, the recheck of what is left, and `Flush` of tendermint/mempool/mempool.go.
pub mod Walks
pub mod Removal
pub mod Committed
pub mod Cursor
pub mod Recheck
use wendy.Common.{
  ℕ, zero, suc, Bool, true, false, not, ◌&&◌, List, [], ◌∷◌, ◌++◌, Option, none, some, ◌==◌, ite,
  if◌then◌else◌, lookup, Outcome, returns, panics, ◌>>=◌,
}
use wendy.Crypto.{Bytes, bytes_dec}
use wendy.Types.{Hash}
use wendy.LinkedList.{is_none}
use wendy.Mempool.Cache.{TxCache, tx_key, push, reset_cache}
use wendy.Mempool.Cache
use wendy.Mempool.Elements.{Clist}
use wendy.Mempool.{
  Mempool, MempoolTx, CheckTxResponse, Response, check_tx_response, other_response, Request,
  recheck_request, flush_request, run_post_check, notify_txs_available, size,
}
use wendy.Mempool.Checks.{remove_tx}

module _ {L E : Type 0} (sum256 : Bytes → Hash) (list : Clist MempoolTx L E) where
  -- `mem.recheckCursor == mem.recheckEnd`.
  abbrev pub at_end : E → Option E → Bool
  at_end e none = false
  at_end e (some f) = ite (list.same e f) true false

  -- The end of `resCbRecheck`: the cursor moves, and after the last answer the rest is announced.
  unfoldable pub advance_cursor : E → Mempool L E → Outcome (Mempool L E)
  advance_cursor e mem =
      let cursor = if at_end e mem.recheck_end then none else list.next mem.txs e in
      let moved = record mem { recheck_cursor = cursor } in
      if is_none cursor && not (size list moved == 0)
      then notify_txs_available list moved
      else returns moved

  -- `resCbRecheck`, for the request's transaction and the element under the cursor.
  unfoldable pub res_cb_recheck : Bytes → Response → E → Mempool L E → Outcome (Mempool L E)
  unfolding advance_cursor
  res_cb_recheck tx other_response e mem = returns mem
  res_cb_recheck tx (check_tx_response r) e mem =
      ite (bytes_dec tx (list.value e).tx)
        (advance_cursor e (
          if r.code == 0 && is_none (run_post_check mem.post_check tx r)
          then mem
          else remove_tx sum256 list tx e (not mem.config.keep_invalid_txs_in_cache) mem))
        panics

  -- `globalCb`.
  unfoldable pub global_cb : Bytes → Response → Mempool L E → Outcome (Mempool L E)
  unfolding res_cb_recheck
  global_cb tx res mem = elim mem.recheck_cursor [
    | none ↦ returns mem
    | some e ↦ res_cb_recheck tx res e mem
  ]

  -- The loop of `recheckTxs`: a request for each transaction from the element on.
  unfoldable pub recheck_requests : ℕ → Option E → L → List Request
  recheck_requests zero e txs = []
  recheck_requests (suc fuel) none txs = []
  recheck_requests (suc fuel) (some e) txs =
      recheck_request (list.value e).tx ∷ recheck_requests fuel (list.next txs e) txs

  -- `recheckTxs`.
  unfoldable pub recheck_txs : Mempool L E → Outcome (Mempool L E)
  unfolding recheck_requests
  recheck_txs mem =
      let asked = recheck_requests (suc (list.len mem.txs)) (list.front mem.txs) mem.txs in
      if size list mem == 0
      then panics
      else returns (record mem {
        recheck_cursor = list.front mem.txs;
        recheck_end = list.back mem.txs;
        requests = mem.requests ++ (asked ++ flush_request ∷ []);
      })

  -- The cache after one committed transaction: a valid one is in it, an invalid one may be
  -- submitted again.
  unfoldable pub commit_cache : Bytes → ℕ → Mempool L E → TxCache
  commit_cache tx code mem =
      if code == 0
      then (push sum256 tx mem.cache).0
      else (if mem.config.keep_invalid_txs_in_cache
          then mem.cache
          else Cache.remove_tx sum256 tx mem.cache)

  -- One committed transaction in `Update`, with the code of its `DeliverTx` response.
  unfoldable pub commit_tx : Bytes → ℕ → Mempool L E → Mempool L E
  commit_tx tx code mem =
      let cached = record mem { cache = commit_cache tx code mem } in
      elim (lookup bytes_dec (tx_key sum256 tx) mem.txs_map) [
        | none ↦ cached
        | some e ↦ remove_tx sum256 list tx e false cached
      ]

  -- The loop of `Update`; a response that is missing is an index out of range.
  unfoldable pub commit_txs : List Bytes → List ℕ → Mempool L E → Outcome (Mempool L E)
  unfolding commit_tx
  commit_txs [] codes mem = returns mem
  commit_txs (tx ∷ txs) [] mem = panics
  commit_txs (tx ∷ txs) (code ∷ codes) mem = commit_txs txs codes (commit_tx tx code mem)

  -- A filter that is given replaces the one that is there.
  abbrev pub or_old : {F : Type 0} → Option F → Option F → Option F
  or_old none old = old
  or_old (some f) old = some f

  -- The end of `Update`: what is left is rechecked or announced.
  unfoldable pub end_update : Mempool L E → Outcome (Mempool L E)
  unfolding size
  end_update left =
      if size list left == 0
      then returns left
      else if left.config.recheck
      then recheck_txs left
      else notify_txs_available list left

  -- `Update`.
  unfoldable pub update :
      ℕ
      → List Bytes
      → List ℕ
      → Option (Bytes → Option Bytes)
      → Option (Bytes → CheckTxResponse → Option Bytes)
      → Mempool L E
      → Outcome (Mempool L E)
  update height txs codes pre_check post_check mem =
      let started = record mem {
        height = height;
        notified_txs_available = false;
        pre_check = or_old pre_check mem.pre_check;
        post_check = or_old post_check mem.post_check;
      } in
      do left ← commit_txs txs codes started; end_update left

  -- The loop of `Flush`: each element is removed, and the loop goes on with the next one.
  unfoldable pub flush_from : ℕ → Option E → L → L
  flush_from zero e txs = txs
  flush_from (suc fuel) none txs = txs
  flush_from (suc fuel) (some e) txs =
      let rest = list.remove e txs in flush_from fuel (list.next rest e) rest

  -- `Flush`.
  unfoldable pub flush : Mempool L E → Mempool L E
  unfolding flush_from
  flush mem = record mem {
    txs_bytes = 0;
    cache = reset_cache mem.cache;
    txs = flush_from (suc (list.len mem.txs)) (list.front mem.txs) mem.txs;
    txs_map = [];
  }
