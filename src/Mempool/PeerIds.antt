-- ===== src/Mempool/PeerIds.antt =====
-- `mempoolIDs` of tendermint/mempool/reactor.go: a small number for each peer.
pub mod Reserving
use wendy.Common.{
  ℕ, zero, suc, ◌+◌, ◌-◌, ◌%◌, ◌^◌, Bool, true, false, List, [], ◌∷◌, Option, none, some, ◌==◌,
  if◌then◌else◌, length, lookup, insert, delete, Outcome, returns, panics, blocks, ◌>>=◌,
  ℕ_discrete,
}
use wendy.Crypto.{Bytes, bytes_dec}

-- `mempoolIDs`; the active ids are the keys of a map, each once.
pub record MempoolIds : Type 0 where
  pub peer_map : List (Bytes × ℕ)
  pub next_id : ℕ
  pub active_ids : List (ℕ × Unit {0})

-- `maxActiveIDs`, `math.MaxUint16`.
abbrev pub max_active_ids : ℕ
max_active_ids = 2 ^ 16 - 1

unfoldable pub new_mempool_ids : MempoolIds
new_mempool_ids = record { peer_map = []; next_id = 1; active_ids = (0, tt) ∷ [] }

-- `ids.nextID++`, of a `uint16`.
abbrev pub next_uint16 : ℕ → ℕ
next_uint16 n = (n + 1) % 2 ^ 16

-- The loop of `nextPeerID`: the first id from `n` on that is not active.
unfoldable pub free_id : ℕ → ℕ → List (ℕ × Unit {0}) → Option ℕ
free_id zero n active = none
free_id (suc fuel) n active =
    let rest = free_id fuel (next_uint16 n) active in
    elim (lookup ℕ_discrete n active) [ none ↦ some n | some _ ↦ rest ]

-- `nextPeerID`, with fuel for every number of 16 bits: a loop that finds none of them free never
-- ends.
unfoldable pub next_peer_id : MempoolIds → Outcome (ℕ × MempoolIds)
next_peer_id ids =
    if length ids.active_ids == max_active_ids
    then panics
    else elim (free_id (2 ^ 16) ids.next_id ids.active_ids) [
      | none ↦ blocks
      | some cur_id ↦ returns (cur_id, record ids { next_id = next_uint16 cur_id })
    ]

-- `ReserveForPeer`.
unfoldable pub reserve_for_peer : Bytes → MempoolIds → Outcome MempoolIds
reserve_for_peer peer ids = do
  (cur_id, ids') ← next_peer_id ids
  returns (record ids' {
    peer_map = insert bytes_dec peer cur_id ids'.peer_map;
    active_ids = insert ℕ_discrete cur_id tt ids'.active_ids;
  })

-- `Reclaim`.
unfoldable pub reclaim : Bytes → MempoolIds → MempoolIds
reclaim peer ids = elim (lookup bytes_dec peer ids.peer_map) [
  | none ↦ ids
  | some removed_id ↦ record ids {
    active_ids = delete ℕ_discrete removed_id ids.active_ids;
    peer_map = delete bytes_dec peer ids.peer_map;
  }
]

-- `GetForPeer`: 0 for a peer that has none.
unfoldable pub get_for_peer : Bytes → MempoolIds → ℕ
get_for_peer peer ids = elim (lookup bytes_dec peer ids.peer_map) [ none ↦ 0 | some id ↦ id ]
