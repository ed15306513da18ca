-- ===== src/Txs.antt =====
-- tx.go: `Txs`, a list of transactions without duplicates and an index from hashes to positions.
pub mod Valid
pub mod Removal
use wendy.Common.{
  ℕ, suc, ◌+◌, ◌-◌, Bool, true, false, List, [], ◌∷◌, ◌++◌, Option, none, some, length, take, drop,
  get_elem?, ◌==◌, if◌then◌else◌, lookup, insert, delete,
}
use wendy.Crypto.{bytes_dec}
use wendy.Types.{Hash, Tx}

pub record Txs : Type 0 where
  pub list : List Tx
  pub by_hash : List (Hash × ℕ)

-- `reset`: an empty list and an empty map.
unfoldable pub reset : Txs
reset = record { list = []; by_hash = [] }

-- `Push`.
unfoldable pub push : Tx → Txs → Txs × Bool
push tx txs = elim (lookup bytes_dec tx.hash txs.by_hash) [
  | some _ ↦ (txs, false)
  | none ↦ (
    record {
      list = txs.list ++ tx ∷ [];
      by_hash = insert bytes_dec tx.hash (length (txs.list ++ tx ∷ []) - 1) txs.by_hash;
    },
    true,
  )
]

-- The loop of `NewTxs`.
unfoldable pub push_all : List Tx → Txs → Txs
push_all [] txs = txs
push_all (tx ∷ rest) txs = push_all rest (push tx txs).0

-- `NewTxs`.
unfoldable pub new_txs : List Tx → Txs
new_txs list = push_all list reset

-- `ByHash`; `none` is nil.
unfoldable pub find_by_hash : Hash → Txs → Option Tx
find_by_hash hash txs = elim (lookup bytes_dec hash txs.by_hash) [
  | none ↦ none
  | some pos ↦ get_elem? txs.list pos
]

-- `byHash[hash]--`, on a position that is not 0.
unfoldable pub decrement : Hash → List (Hash × ℕ) → List (Hash × ℕ)
decrement hash m = elim (lookup bytes_dec hash m) [
  | none ↦ m
  | some pos ↦ insert bytes_dec hash (pos - 1) m
]

-- The loop that re-indexes the transactions behind the removed one.
unfoldable pub reindex : List Tx → List (Hash × ℕ) → List (Hash × ℕ)
reindex [] m = m
reindex (tx ∷ rest) m = reindex rest (decrement tx.hash m)

-- `RemoveByHash`.
unfoldable pub remove_by_hash : Hash → Txs → Txs × Bool
remove_by_hash hash txs = elim (lookup bytes_dec hash txs.by_hash) [
  | none ↦ (txs, false)
  | some pos ↦ if length txs.list == 1 then (reset, true) else (
    record {
      list = take pos txs.list ++ drop (pos + 1) txs.list;
      by_hash = delete bytes_dec hash (reindex (drop (pos + 1) txs.list) txs.by_hash);
    },
    true,
  )
]
