-- ===== src/Mempool/Reactor.antt =====
-- `Reactor` of tendermint/mempool/reactor.go: transactions that peers send, and the routine that
-- sends the mempool's transactions to a peer. The codec of the messages is a parameter.
pub mod Broadcast
pub mod Senders
pub mod Echo
pub mod Asking
pub mod Receiving
use wendy.Common.{
  ℕ, ◌+◌, Bool, true, false, List, [], ◌∷◌, ◌++◌, Option, none, some, ◌⊎◌, inl, inr, ltb, ite,
  if◌then◌else◌, lookup, Outcome, returns, panics, ◌>>=◌, ℕ_discrete,
}
use wendy.Crypto.{Bytes}
use wendy.Types.{Hash}
use wendy.Mempool.Elements.{Clist}
use wendy.Mempool.{Mempool, MempoolTx, or_empty}
use wendy.Mempool.Checks.{check_tx}
use wendy.Mempool.PeerIds.{MempoolIds, new_mempool_ids, reserve_for_peer, reclaim, get_for_peer}

-- What `protomem.Message` may carry.
pub data Sum : Type 0 where
  message_txs : List Bytes → Sum
  other_sum : Sum

-- The errors of `decodeMsg`, that of the codec by its text.
pub data DecodeError : Type 0 where
  unmarshal_failed : Bytes → DecodeError
  empty_txs_message : DecodeError
  type_not_supported : DecodeError

-- `Reactor`. `broadcasting` are the peers with a routine, and `stopped` the calls of
-- `StopPeerForError` so far.
pub record Reactor (L E : Type 0) : Type 0 where
  pub broadcast : Bool
  pub mempool : Mempool L E
  pub ids : MempoolIds
  pub broadcasting : List Bytes
  pub stopped : List (Bytes × DecodeError)

-- `decodeMsg`.
unfoldable pub decode_msg : (Bytes → Bytes ⊎ Sum) → Bytes → DecodeError ⊎ List Bytes
decode_msg unmarshal bz = elim (unmarshal bz) [
  | inl e ↦ inl (unmarshal_failed e)
  | inr sum ↦ elim sum [
    | other_sum ↦ inl type_not_supported
    | message_txs txs ↦ elim txs [ [] ↦ inl empty_txs_message | tx ∷ rest ↦ inr (tx ∷ rest) ]
  ]
]

module _ {L E : Type 0} where
  -- `NewReactor`.
  unfoldable pub new_reactor : Bool → Mempool L E → Reactor L E
  new_reactor broadcast mempool = record {
    broadcast = broadcast;
    mempool = mempool;
    ids = new_mempool_ids;
    broadcasting = [];
    stopped = [];
  }

  -- `InitPeer`.
  unfoldable pub init_peer : Bytes → Reactor L E → Outcome (Reactor L E)
  init_peer peer r = do ids ← reserve_for_peer peer r.ids; returns (record r { ids = ids })

  -- `AddPeer`.
  unfoldable pub add_peer : Bytes → Reactor L E → Reactor L E
  add_peer peer r =
      if r.broadcast then record r { broadcasting = r.broadcasting ++ peer ∷ [] } else r

  -- `RemovePeer`.
  unfoldable pub remove_peer : Bytes → Reactor L E → Reactor L E
  remove_peer peer r = record r { ids = reclaim peer r.ids }

module _ {L E : Type 0} (sum256 : Bytes → Hash) (list : Clist MempoolTx L E) where
  -- The loop of `Receive` from the message's transaction `n` on, with what the log's file and the
  -- connection report for each; an error of `CheckTx` is logged only.
  unfoldable pub check_txs :
      ℕ → List Bytes → ℕ → (ℕ → Option Bytes) → (ℕ → Option Bytes) → Mempool L E → Mempool L E
  check_txs n [] sender wal_error app_error mem = mem
  check_txs n (tx ∷ txs) sender wal_error app_error mem =
      check_txs (n + 1) txs sender wal_error app_error
        (check_tx sum256 list tx sender (wal_error n) (app_error n) mem).0

  -- `Receive`; a nil peer can neither be stopped nor asked for its id.
  unfoldable pub receive :
      (Bytes → Bytes ⊎ Sum)
      → Option Bytes
      → Bytes
      → (ℕ → Option Bytes)
      → (ℕ → Option Bytes)
      → Reactor L E
      → Outcome (Reactor L E)
  unfolding check_txs
  receive unmarshal src bz wal_error app_error r = elim (decode_msg unmarshal bz) [
    | inl e ↦ elim src [
      | none ↦ panics
      | some peer ↦ returns (record r { stopped = r.stopped ++ (peer, e) ∷ [] })
    ]
    | inr txs ↦ elim src [
      | none ↦ panics
      | some peer ↦ returns (record r {
        mempool = check_txs 0 txs (get_for_peer peer r.ids) wal_error app_error r.mempool;
      })
    ]
  ]

-- What a `select` finds in one round of the routine: nothing yet, what it waits for, or the end.
pub data Wake : Type 0 where
  nothing_yet : Wake
  ready : Wake
  quits : Wake

-- What the routine reads of the peer and the reactor in one round.
pub record Round : Type 0 where
  pub running : Bool
  pub wake : Wake
  pub peer_height : Option ℕ
  pub success : Bool

-- Where `broadcastTxRoutine` stands: at the start of the list, before a transaction, behind one, or
-- returned.
pub data Routine (E : Type 0) : Type 0 where
  at_start : Routine E
  at_tx : E → Routine E
  behind_tx : E → Routine E
  returned : Routine E

abbrev pub has_sender : ℕ → List ℕ → Bool
has_sender id [] = false
has_sender id (i ∷ ids) = ite (ℕ_discrete i id) true (has_sender id ids)

module _ {L E : Type 0} (marshal : Bytes → Option Bytes) (list : Clist MempoolTx L E)
    (peer_id : ℕ) where
  -- `memTx.senders.Load(peerID)`.
  abbrev pub is_sender : Mempool L E → E → Bool
  is_sender mem e = has_sender peer_id (or_empty (lookup list.same e mem.senders))

  -- The middle of a round: the transaction is sent, unless the peer is behind or sent it itself.
  unfoldable pub send_tx : Round → Mempool L E → E → Outcome (Routine E × List Bytes)
  send_tx round mem e = elim round.peer_height [
    | none ↦ returns (at_tx e, [])
    | some height ↦
        if ltb (height + 1) (list.value e).height
        then returns (at_tx e, [])
        else if is_sender mem e
        then returns (behind_tx e, [])
        else elim (marshal (list.value e).tx) [
          | none ↦ panics
          | some bz ↦ returns (if round.success then (behind_tx e, bz ∷ []) else (at_tx e, []))
        ]
  ]

  -- The start of a round with no transaction to look at.
  unfoldable pub wait_first : Round → Mempool L E → Outcome (Routine E × List Bytes)
  unfolding send_tx
  wait_first round mem = elim round.wake [
    | nothing_yet ↦ returns (at_start, [])
    | quits ↦ returns (returned, [])
    | ready ↦ elim (list.front mem.txs) [
      | none ↦ returns (at_start, [])
      | some e ↦ send_tx round mem e
    ]
  ]

  -- The `select` at the end of a round.
  unfoldable pub wait_next : Round → Mempool L E → E → Routine E
  wait_next round mem e = elim round.wake [
    | nothing_yet ↦ behind_tx e
    | quits ↦ returned
    | ready ↦ elim (list.next mem.txs e) [ none ↦ at_start | some f ↦ at_tx f ]
  ]

  -- One turn of `broadcastTxRoutine` on the mempool as it is then: where the routine stands after
  -- it, and the message that it sent.
  unfoldable pub broadcast_step : Round → Mempool L E → Routine E → Outcome (Routine E × List Bytes)
  unfolding wait_first wait_next
  broadcast_step round mem at_start =
      if round.running then wait_first round mem else returns (returned, [])
  broadcast_step round mem (at_tx e) =
      if round.running then send_tx round mem e else returns (returned, [])
  broadcast_step round mem (behind_tx e) = returns (wait_next round mem e, [])
  broadcast_step round mem returned = returns (returned, [])

  -- Turns on a mempool that does not change.
  unfoldable pub broadcast_run :
      List Round → Mempool L E → Routine E → Outcome (Routine E × List Bytes)
  broadcast_run [] mem at = returns (at, [])
  broadcast_run (round ∷ rounds) mem at = do
    (next, sent) ← broadcast_step round mem at
    (end, rest) ← broadcast_run rounds mem next
    returns (end, sent ++ rest)
