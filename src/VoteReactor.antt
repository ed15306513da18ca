-- ===== src/VoteReactor.antt =====
-- `Reactor` of tendermint/wendy/reactor.go, with the votes of proto/wendy: the transactions of the
-- mempool become votes for the peers. The codec of votes and the hash of a transaction are
-- parameters.
pub mod Reception
pub mod Sequences
use wendy.Common.{
  ℕ, ◌+◌, ◌%◌, ◌^◌, ◌≡◌, Bool, true, false, List, [], ◌∷◌, ◌++◌, Option, none, some, ltb,
  if◌then◌else◌, length, In, Outcome, returns, panics, ◌>>=◌,
}
use wendy.Crypto.{Bytes}

-- `protowendy.Vote`.
pub record Vote : Type 0 where
  pub sender : Bytes
  pub sequence : ℕ
  pub tx_hash : Bytes
  pub seen : ℕ

-- `protowendy.NewVote`; `now` is the clock's reading.
unfoldable pub new_proto_vote : ℕ → Bytes → ℕ → Bytes → Vote
new_proto_vote now sender seq hash = record {
  sender = sender;
  sequence = seq;
  tx_hash = hash;
  seen = now;
}

-- `MustMarshal` and `MustUnmarshal`, over a codec that may fail.
unfoldable pub must_marshal : (Vote → Option Bytes) → Vote → Outcome Bytes
must_marshal marshal vote = elim (marshal vote) [ none ↦ panics | some bz ↦ returns bz ]

unfoldable pub must_unmarshal : (Bytes → Option Vote) → Bytes → Outcome Vote
must_unmarshal unmarshal bz = elim (unmarshal bz) [ none ↦ panics | some vote ↦ returns vote ]

-- `s[0:4]` of a text.
unfoldable pub first_four : Bytes → Outcome (Unit {0})
first_four s = if ltb (length s) 4 then panics else returns tt

-- `logVote`: what it logs is cut out of the ids first.
unfoldable pub log_vote : Vote → Bytes → Outcome (Unit {0})
log_vote vote peer = do _ ← first_four vote.sender; first_four peer

-- `Receive`.
unfoldable pub receive : (Bytes → Option Vote) → Bytes → Bytes → Outcome (Unit {0})
unfolding must_unmarshal log_vote
receive unmarshal peer bz = do vote ← must_unmarshal unmarshal bz; log_vote vote peer

-- A vote that a routine made for its peer.
pub record Sending : Type 0 where
  pub peer : Bytes
  pub vote : Vote

-- `Reactor`, with its goroutines: the transactions that wait for a routine to take them from
-- `txChan`, the peers with a routine, the votes that are made and those that were sent.
pub record Reactor : Type 0 where
  pub id : Bytes
  pub seq : ℕ
  pub waiting : List Bytes
  pub routines : List Bytes
  pub made : List Sending
  pub sent : List Sending

-- `NewReactor`.
unfoldable pub new_reactor : Bytes → Reactor
new_reactor id = record { id = id; seq = 0; waiting = []; routines = []; made = []; sent = [] }

-- `OnNewTx`: a goroutine waits with the transaction.
unfoldable pub on_new_tx : Bytes → Reactor → Reactor
on_new_tx tx r = record r { waiting = r.waiting ++ tx ∷ [] }

-- `AddPeer`: a routine for the peer.
unfoldable pub add_peer : Bytes → Reactor → Reactor
add_peer peer r = record r { routines = r.routines ++ peer ∷ [] }

-- `nextSeq`: the new value of the counter.
unfoldable pub next_seq : Reactor → Reactor × ℕ
next_seq r = let seq = (r.seq + 1) % 2 ^ 64 in (record r { seq = seq }, seq)

-- `newVote`.
unfoldable pub new_vote : (Bytes → Bytes) → ℕ → Bytes → Reactor → Reactor × Vote
unfolding next_seq new_proto_vote
new_vote tx_hash now tx r =
    let (r', seq) = next_seq r in (r', new_proto_vote now r.id seq (tx_hash tx))

-- One routine of `broadcastTxRoutine` takes the transaction `tx` that waits between the others, and
-- makes a vote of it.
unfoldable pub take_tx :
    (Bytes → Bytes) → ℕ → Bytes → List Bytes → Bytes → List Bytes → Reactor → Reactor
unfolding new_vote
take_tx tx_hash now peer pre tx post r =
    let (r', vote) = new_vote tx_hash now tx r in
    record r' { waiting = pre ++ post; made = r.made ++ record { peer = peer; vote = vote } ∷ [] }

-- The routine sends its vote, whether or not the peer takes it.
unfoldable pub send_vote : List Sending → Sending → List Sending → Reactor → Reactor
send_vote pre s post r = record r { made = pre ++ post; sent = r.sent ++ s ∷ [] }

-- The steps of the reactor's goroutines.
pub data Step (tx_hash : Bytes → Bytes) (marshal : Vote → Option Bytes) (r : Reactor)
    : Reactor → Type 0 where
  new_tx : (tx : Bytes) → Step tx_hash marshal r (on_new_tx tx r)
  peer_added : (peer : Bytes) → Step tx_hash marshal r (add_peer peer r)
  -- A routine whose peer does not run returns.
  peer_gone :
      (pre : List Bytes) (peer : Bytes) (post : List Bytes)
      → r.routines ≡ pre ++ peer ∷ post
      → Step tx_hash marshal r (record r { routines = pre ++ post })
  tx_taken :
      (now : ℕ) (peer : Bytes) (pre : List Bytes) (tx : Bytes) (post : List Bytes)
      → In peer r.routines
      → r.waiting ≡ pre ++ tx ∷ post
      → Step tx_hash marshal r (take_tx tx_hash now peer pre tx post r)
  vote_sent :
      (pre : List Sending) (s : Sending) (post : List Sending) (bz : Bytes)
      → r.made ≡ pre ++ s ∷ post
      → must_marshal marshal s.vote ≡ returns bz
      → log_vote s.vote s.peer ≡ returns tt
      → Step tx_hash marshal r (send_vote pre s post r)

-- A run of the goroutines.
pub data Reach (tx_hash : Bytes → Bytes) (marshal : Vote → Option Bytes) (r : Reactor)
    : Reactor → Type 0 where
  start : Reach tx_hash marshal r r
  later :
      {s t : Reactor}
      → Reach tx_hash marshal r s
      → Step tx_hash marshal s t
      → Reach tx_hash marshal r t
