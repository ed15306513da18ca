-- ===== src/Mempool/Cache.antt =====
-- The cache of transactions that the mempool has seen (tendermint/mempool/mempool.go): the most
-- recent keys, over Go's `container/list`. SHA-256 is a parameter.
pub mod Lru
pub mod Steps
pub mod Refinement
use wendy.Common.{
  ℕ, Bool, true, false, List, [], ◌∷◌, ◌++◌, Option, none, some, leb, ltb, if◌then◌else◌, length,
  lookup, insert, delete,
}
use wendy.Crypto.{Bytes, bytes_dec}
use wendy.Types.{Hash}
use wendy.LinkedList.{Element, GoList, new, front, push_back, remove_id, remove}

-- `list.MoveToBack(e)` and `list.Init()`.
unfoldable pub move_to_back : Element Hash → GoList Hash → GoList Hash
unfolding remove_id
move_to_back e l = record l { elements = remove_id e.id l.elements ++ e ∷ [] }

unfoldable pub init : GoList Hash → GoList Hash
init l = record l { elements = [] }

-- `mapTxCache`.
pub record MapTxCache : Type 0 where
  pub size : ℕ
  pub cache_map : List (Hash × Element Hash)
  pub list : GoList Hash

unfoldable pub new_map_tx_cache : ℕ → MapTxCache
unfolding new
new_map_tx_cache cache_size = record { size = cache_size; cache_map = []; list = new }

unfoldable pub reset : MapTxCache → MapTxCache
unfolding init
reset cache = record cache { cache_map = []; list = init cache.list }

-- The oldest key goes.
unfoldable pub evict : MapTxCache → MapTxCache
unfolding front remove
evict cache = elim (front cache.list) [
  | none ↦ cache
  | some popped ↦ record cache {
    cache_map = delete bytes_dec popped.value cache.cache_map;
    list = remove popped cache.list;
  }
]

-- Room for one more key in `Push`.
unfoldable pub make_room : MapTxCache → MapTxCache
unfolding evict
make_room cache = if leb cache.size (length cache.list.elements) then evict cache else cache

-- `Push`, for the key of the transaction.
unfoldable pub push_key : Hash → MapTxCache → MapTxCache × Bool
unfolding move_to_back make_room push_back
push_key tx_hash cache = elim (lookup bytes_dec tx_hash cache.cache_map) [
  | some moved ↦ (record cache { list = move_to_back moved cache.list }, false)
  | none ↦
      let room = make_room cache in
      let (e, list) = push_back tx_hash room.list in
      (record room { list = list; cache_map = insert bytes_dec tx_hash e room.cache_map }, true)
]

-- `Remove`, for the key of the transaction.
unfoldable pub remove_key : Hash → MapTxCache → MapTxCache
unfolding remove
remove_key tx_hash cache =
    let rest = delete bytes_dec tx_hash cache.cache_map in
    elim (lookup bytes_dec tx_hash cache.cache_map) [
      | none ↦ record cache { cache_map = rest }
      | some popped ↦ record cache { cache_map = rest; list = remove popped cache.list }
    ]

-- `txCache`: the map cache, or the one that holds nothing.
pub data TxCache : Type 0 where
  map_tx_cache : MapTxCache → TxCache
  nop_tx_cache : TxCache

unfoldable pub reset_cache : TxCache → TxCache
unfolding reset
reset_cache (map_tx_cache c) = map_tx_cache (reset c)
reset_cache nop_tx_cache = nop_tx_cache

module _ (sum256 : Bytes → Hash) where
  -- `TxKey`.
  unfoldable pub tx_key : Bytes → Hash
  tx_key tx = sum256 tx

  unfoldable pub push : Bytes → TxCache → TxCache × Bool
  unfolding tx_key push_key
  push tx (map_tx_cache c) = let (c', added) = push_key (tx_key tx) c in (map_tx_cache c', added)
  push tx nop_tx_cache = (nop_tx_cache, true)

  unfoldable pub remove_tx : Bytes → TxCache → TxCache
  unfolding tx_key remove_key
  remove_tx tx (map_tx_cache c) = map_tx_cache (remove_key (tx_key tx) c)
  remove_tx tx nop_tx_cache = nop_tx_cache
