-- ===== src/Tests/Mempools.antt =====
-- Runs of tendermint/mempool.
use wendy.Common.{
  In, ◌-◌, ◌<◌, ◌^◌, zero, suc, ℕ, ◌+◌, ◌≡◌, ◌≢◌, ◌⊎◌, inl, inr, refl, ap, sym, ◌∙◌, true, false,
  List, [], ◌∷◌, none, some, ite, arith, length, take, lookup, All, returns, panics, pos,
  ℕ_discrete,
}
use wendy.Crypto.{Bytes, bytes_dec}
use wendy.Types.{Hash}
use wendy.Mempool.{Mempool, Config, CheckTxResponse, check_tx_response}
use wendy.Mempool.Cache.{MapTxCache, new_map_tx_cache, map_tx_cache, push_key, tx_key}
use wendy.Mempool.Cache.Lru as Lru
use wendy.Mempool.Cache.Lru.{lru_push, lru_remove, keys, element_of}
use wendy.Mempool.Cache.Refinement.{push_key-lru_push}
use wendy.Mempool.Reaping.{limit, reap_max_txs, reap_max_bytes_max_gas}
use wendy.Mempool.Reaping.Prefix.{txs_of, Reaped, reap_max_txs-take, reap_max_bytes_max_gas-Reaped}
use wendy.Mempool.Reaping.Overflow.{reap_max_bytes_max_gas-wraps}
use wendy.Mempool.Checks.{check_tx, res_cb_first_time}
use wendy.Mempool.Checks.Bounds.{Fits, total_bytes, SameTxs, Passed, check_tx-Passed}
use wendy.Mempool.Checks.Answers.{Grown, res_cb_first_time-Fits}
use wendy.Mempool.Updates.{update}
use wendy.Mempool.Updates.Removal.{Indexed, Right}
use wendy.Mempool.Updates.Committed.{Left, OwnKey, update-Right}
use wendy.Mempool.PeerIds.{MempoolIds, max_active_ids, reserve_for_peer, get_for_peer}
use wendy.Mempool.PeerIds.Reserving as Reserving
use wendy.Mempool.PeerIds.Reserving.{reserve_for_peer-IsValid, reclaim-IsValid}
use wendy.Tests.Elements.{Item, TestList, test_list, test_list-Laws}

-- In place of SHA-256: different transactions have different keys.
abbrev pub sum256 : Bytes → Hash
sum256 bs = bs

-- A full cache of two keys, the older one 5.
abbrev cache : MapTxCache
cache = record {
  size = 2;
  cache_map =
      (5 ∷ [], record { id = 0; value = 5 ∷ [] })
      ∷ (6 ∷ [], record { id = 1; value = 6 ∷ [] })
      ∷ [];
  list = record {
    elements = record { id = 0; value = 5 ∷ [] } ∷ record { id = 1; value = 6 ∷ [] } ∷ [];
    next_id = 2;
  };
}

cache-IsValid : Lru.IsValid cache
unfolding element_of
cache-IsValid = record {
  listed = omega arith;
  distinct = (((λ e. grind (arith, e)), tt), (tt, tt));
  mapped = λ h. ground arith;
}

push_key-lru_push_example :
    let (c, added) = push_key (7 ∷ []) cache in
    Lru.IsValid c × (c.size ≡ 2) × ((keys c, added) ≡ lru_push 2 (7 ∷ []) (keys cache))
push_key-lru_push_example = push_key-lru_push (7 ∷ []) cache cache-IsValid

abbrev pub config : Config
config = record {
  size = 3;
  max_txs_bytes = 100;
  max_tx_bytes = 10;
  cache_size = 2;
  keep_invalid_txs_in_cache = false;
  recheck = true;
}

abbrev pub item : ℕ → Item
item n = record { id = n; value = record { height = 1; gas_wanted = 4; tx = n ∷ n ∷ [] } }

abbrev pub pooled : TestList
pooled = record {
  items = record { elements = item 0 ∷ item 1 ∷ []; next_id = 2 };
  valid = omega arith;
  removed = [];
}

-- A mempool that holds two transactions of two bytes.
abbrev pub mempool : Mempool TestList Item
mempool = record {
  height = 1;
  txs_bytes = 4;
  notified_txs_available = false;
  txs_available = some false;
  config = config;
  pre_check = none;
  post_check = none;
  notify = true;
  notified = [];
  wal = some [];
  txs = pooled;
  requests = [];
  recheck_cursor = none;
  recheck_end = none;
  txs_map = (0 ∷ 0 ∷ [], item 0) ∷ (1 ∷ 1 ∷ [], item 1) ∷ [];
  senders = [];
  cache = map_tx_cache (new_map_tx_cache 2);
}

reap_max_txs-take_example :
    reap_max_txs test_list (pos 0) mempool
    ≡ take (limit 2 (pos 0) + 1) (txs_of test_list test_list-Laws (item 0 ∷ item 1 ∷ []))
unfolding test_list-Laws
reap_max_txs-take_example = reap_max_txs-take test_list test_list-Laws (pos 0) mempool

abbrev proto_size : List Bytes → ℕ
proto_size txs = 5 + length txs

reap_max_bytes_max_gas-Reaped_example :
    Reaped test_list test_list-Laws proto_size 100 4
      (item 0 ∷ item 1 ∷ [])
      (reap_max_bytes_max_gas test_list proto_size 100 4 mempool)
unfolding test_list-Laws
reap_max_bytes_max_gas-Reaped_example =
    reap_max_bytes_max_gas-Reaped test_list test_list-Laws proto_size 100 4 mempool

abbrev gas_item : ℕ → ℕ → Item
gas_item n gas = record { id = n; value = record { height = 1; gas_wanted = gas; tx = n ∷ [] } }

-- The gas of the two transactions has no sum in an `int64`.
abbrev costly : Mempool TestList Item
costly = record mempool {
  txs = record {
    items = record { elements = gas_item 0 1 ∷ gas_item 1 (2 ^ 63 - 1) ∷ []; next_id = 2 };
    valid = omega arith;
    removed = [];
  };
}

reap_max_bytes_max_gas-wraps_example :
    (100 < 1 + (2 ^ 63 - 1))
    × (rest : List Bytes) × (reap_max_bytes_max_gas test_list proto_size (2 ^ 64 - 1) 100 costly
        ≡ (0 ∷ []) ∷ (1 ∷ []) ∷ rest)
unfolding test_list-Laws
reap_max_bytes_max_gas-wraps_example =
    reap_max_bytes_max_gas-wraps test_list test_list-Laws proto_size (2 ^ 64 - 1) 100 costly
      (gas_item 0 1) (gas_item 1 (2 ^ 63 - 1)) [] refl refl (omega arith) (omega arith)
      (omega arith) (omega arith)

pub mempool-Fits : Fits sum256 test_list test_list-Laws mempool
unfolding total_bytes test_list-Laws
mempool-Fits = record { counted = refl; number = omega arith; bytes = omega arith }

check_tx-Passed_example :
    let (mem, error) = check_tx sum256 test_list (9 ∷ []) 3 none none mempool in
    SameTxs sum256 test_list test_list-Laws mem mempool
    × (((error ≡ none) × Passed sum256 test_list test_list-Laws (9 ∷ []) mempool mem)
        ⊎ ((error ≢ none) × (mem.requests ≡ [])))
check_tx-Passed_example =
    check_tx-Passed sum256 test_list test_list-Laws (9 ∷ []) 3 none none mempool
      (omega arith, omega arith) mempool-Fits

abbrev pub answer : CheckTxResponse
answer = record { code = 0; gas_wanted = 1 }

res_cb_first_time-Fits_example :
    (mem : Mempool TestList Item) × (res_cb_first_time sum256 test_list
        (9 ∷ [])
        3
        (check_tx_response answer)
        mempool
      ≡ returns mem)
    × Fits sum256 test_list test_list-Laws mem
    × Grown sum256 test_list test_list-Laws (9 ∷ []) mempool mem
res_cb_first_time-Fits_example =
    res_cb_first_time-Fits sum256 test_list test_list-Laws (9 ∷ []) 3 (check_tx_response answer)
      mempool (omega arith, omega arith) mempool-Fits

mempool-Indexed : Indexed sum256 test_list test_list-Laws mempool
unfolding tx_key test_list-Laws
mempool-Indexed h e at = elim (bytes_dec (0 ∷ 0 ∷ []) h) [
  | yes p ↦
      let same : item 0 ≡ e = ground (arith, at, p) in
      (inl (sym same), ap (λ (f : Item). f.value.tx) (sym same) ∙ p)
  | no p ↦ elim (bytes_dec (1 ∷ 1 ∷ []) h) [
    | yes q ↦
        let same : item 1 ≡ e = ground (arith, at, p, q) in
        (inr (inl (sym same)), ap (λ (f : Item). f.value.tx) (sym same) ∙ q)
    | no q ↦ absurd (ground (arith, at, p, q))
  ]
]

-- In place of SHA-256 again: the first bytes, in an array of 32.
abbrev array_of : ℕ → Bytes → Bytes
array_of zero bs = []
array_of (suc n) [] = 0 ∷ array_of n []
array_of (suc n) (b ∷ bs) = b ∷ array_of n bs

abbrev first_bytes : Bytes → Hash
first_bytes = array_of 32

abbrev by_first_bytes : Mempool TestList Item
by_first_bytes = record mempool {
  txs_map = (first_bytes (0 ∷ 0 ∷ []), item 0) ∷ (first_bytes (1 ∷ 1 ∷ []), item 1) ∷ [];
}

by_first_bytes-Right : Right first_bytes test_list test_list-Laws by_first_bytes
unfolding total_bytes test_list-Laws tx_key
by_first_bytes-Right = (
  record { counted = refl; number = omega arith; bytes = omega arith },
  λ h e at. elim (bytes_dec (first_bytes (0 ∷ 0 ∷ [])) h) [
    | yes p ↦
        let same : item 0 ≡ e = ground (arith, at, p) in
        (inl (sym same), ap (λ (f : Item). first_bytes f.value.tx) (sym same) ∙ p)
    | no p ↦ elim (bytes_dec (first_bytes (1 ∷ 1 ∷ [])) h) [
      | yes q ↦
          let same : item 1 ≡ e = ground (arith, at, p, q) in
          (inr (inl (sym same)), ap (λ (f : Item). first_bytes f.value.tx) (sym same) ∙ q)
      | no q ↦ absurd (ground (arith, at, p, q))
    ]
  ],
)

first_byte : (a b : ℕ) (xs bs : Bytes) → a ≢ b → ¬ (first_bytes (a ∷ xs) ≡ first_bytes (b ∷ bs))
first_byte a b xs bs differ e = differ (cc)

committed-OwnKey :
    All
      (λ tx. OwnKey first_bytes test_list test_list-Laws tx by_first_bytes)
      ((1 ∷ 1 ∷ []) ∷ (8 ∷ []) ∷ [])
unfolding test_list-Laws tx_key
committed-OwnKey = (own_second, (own_eighth, tt))
  where
    own_second : OwnKey first_bytes test_list test_list-Laws (1 ∷ 1 ∷ []) by_first_bytes
    own_second e (inl p) key = absurd (
        first_byte 0 1 (0 ∷ []) (1 ∷ []) (omega arith)
          (ap (λ (f : Item). first_bytes f.value.tx) (sym p) ∙ key))
    own_second e (inr (inl p)) key = ap (λ (f : Item). f.value.tx) p
    own_second e (inr (inr none_left)) key = absurd none_left

    own_eighth : OwnKey first_bytes test_list test_list-Laws (8 ∷ []) by_first_bytes
    own_eighth e (inl p) key = absurd (
        first_byte 0 8 (0 ∷ []) [] (omega arith)
          (ap (λ (f : Item). first_bytes f.value.tx) (sym p) ∙ key))
    own_eighth e (inr (inl p)) key = absurd (
        first_byte 1 8 (1 ∷ []) [] (omega arith)
          (ap (λ (f : Item). first_bytes f.value.tx) (sym p) ∙ key))
    own_eighth e (inr (inr none_left)) key = absurd none_left

update-Right_example :
    (mem : Mempool TestList Item) × (update first_bytes test_list 2
        ((1 ∷ 1 ∷ []) ∷ (8 ∷ []) ∷ [])
        (0 ∷ 1 ∷ [])
        none
        none
        by_first_bytes
      ≡ returns mem)
    × Right first_bytes test_list test_list-Laws mem
    × All
        (λ tx. lookup bytes_dec (tx_key first_bytes tx) mem.txs_map ≡ none)
        ((1 ∷ 1 ∷ []) ∷ (8 ∷ []) ∷ [])
    × ((e : Item)
        → In e mem.txs.items.elements
        → In e (item 0 ∷ item 1 ∷ [])
          × All
              (λ tx. Left first_bytes test_list test_list-Laws tx by_first_bytes e)
              ((1 ∷ 1 ∷ []) ∷ (8 ∷ []) ∷ []))
unfolding test_list-Laws
update-Right_example =
    update-Right first_bytes test_list test_list-Laws 2 ((1 ∷ 1 ∷ []) ∷ (8 ∷ []) ∷ []) (0 ∷ 1 ∷ [])
      none none by_first_bytes committed-OwnKey (omega arith) (omega arith) by_first_bytes-Right

-- One peer has the id 1, and the next id to try is 1 again.
abbrev ids : MempoolIds
ids = record { peer_map = (3 ∷ [], 1) ∷ []; next_id = 1; active_ids = (0, tt) ∷ (1, tt) ∷ [] }

ids-IsValid : Reserving.IsValid ids
ids-IsValid = record {
  next = omega arith;
  few = omega arith;
  unknown = λ e. ground (arith, e);
  active = λ p j at e. ground (arith, at, e);
  known = λ p j at z. ground (arith, at, z);
  apart = λ p q j at bt. ground (arith, at, bt);
}

reserve_for_peer-IsValid_example :
    ((length ids.active_ids ≡ max_active_ids) × (reserve_for_peer (4 ∷ []) ids ≡ panics))
    ⊎ ((ids' : MempoolIds) × (i : ℕ) × (reserve_for_peer (4 ∷ []) ids ≡ returns ids')
        × Reserving.IsValid ids'
        × (lookup ℕ_discrete i ids.active_ids ≡ none)
        × (i ≢ 0)
        × ((other : Bytes)
            → get_for_peer other ids' ≡ ite (bytes_dec (4 ∷ []) other) i (get_for_peer other ids)))
reserve_for_peer-IsValid_example = reserve_for_peer-IsValid (4 ∷ []) ids ids-IsValid
