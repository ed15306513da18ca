-- ===== src/Simulation.antt =====
-- simulation/node.go: a node of a network that floods transactions and its votes for them. A peer of
-- a node is known by its address; a message waits in flight until its receiver takes it.
pub mod Chain
pub mod Accepting
pub mod Votes
pub mod Labels
pub mod Messages
pub mod Handling
pub mod Network
use wendy.Common.{
  ℕ, ◌+◌, ◌-◌, ◌%◌, ◌^◌, Bool, true, false, ◌||◌, List, [], ◌∷◌, ◌++◌, Option, none, some,
  if◌then◌else◌, ite, Outcome, returns, panics, ◌>>=◌,
}
use wendy.Crypto.{Bytes, Pubkey, bytes_dec, pubkey_string}
use wendy.Types.{Hash, Tx, Vote, new_vote, with_prev_hash, vote_hash}
use wendy.Peer.{Error}
use wendy.Wendy.{Wendy, new, add_tx, add_vote}

-- A pointer to another node, with the node's key.
pub record NodeRef : Type 0 where
  pub address : ℕ
  pub pub_key : Pubkey

-- `Node`, without its channels and callbacks.
pub record Node : Type 0 where
  pub wendy : Wendy
  pub pub_key : Pubkey
  pub peers : List NodeRef
  pub last_vote : Option Vote
  pub seq : ℕ

-- `nodeTx` and `nodeVote` on their way to an address; of the sender only the key is read.
pub data Message : Type 0 where
  node_tx : ℕ → Tx → Pubkey → Message
  node_vote : ℕ → Vote → Pubkey → Message

-- `NewNode`.
unfoldable pub new_node : Pubkey → List NodeRef → Node
unfolding new
new_node pub_key peers = record {
  wendy = new;
  pub_key = pub_key;
  peers = peers;
  last_vote = none;
  seq = 0;
}

-- `a.String() == b.String()`.
abbrev pub same_key : Pubkey → Pubkey → Bool
same_key a b = ite (bytes_dec (pubkey_string a) (pubkey_string b)) true false

-- `AddPeer`.
unfoldable pub add_peer : NodeRef → Node → Outcome Node
add_peer peer node =
    if same_key peer.pub_key node.pub_key
    then panics
    else returns (record node { peers = node.peers ++ peer ∷ [] })

-- `AddPeers`.
unfoldable pub add_peers : List NodeRef → Node → Outcome Node
add_peers [] node = returns node
add_peers (peer ∷ peers) node = do node' ← add_peer peer node; add_peers peers node'

-- `nextVote`; `now` is the clock's reading.
module _ (sum256 : Bytes → Hash) where
  abbrev pub link : Option Vote → Vote → Vote
  link none vote = vote
  link (some last) vote = with_prev_hash vote (vote_hash sum256 last)

  unfoldable pub next_vote : ℕ → Tx → Node → Node × Vote
  next_vote now tx node =
      let seq = (node.seq + 1) % 2 ^ 64 in
      let vote =
        link node.last_vote (new_vote now node.pub_key ((seq + (2 ^ 64 - 1)) % 2 ^ 64) tx) in
      (record node { seq = seq; last_vote = some vote }, vote)

-- The messages of `handleTx`: not back to the sender.
unfoldable pub tx_messages : Tx → Pubkey → Pubkey → List NodeRef → List Message
tx_messages tx from me [] = []
tx_messages tx from me (peer ∷ peers) =
    if same_key from peer.pub_key
    then tx_messages tx from me peers
    else node_tx peer.address tx me ∷ tx_messages tx from me peers

-- The messages of `handleVote`: neither back to the sender nor to the voter.
unfoldable pub vote_messages : Vote → Pubkey → Pubkey → List NodeRef → List Message
vote_messages vote from me [] = []
vote_messages vote from me (peer ∷ peers) =
    if same_key from peer.pub_key || same_key vote.pubkey peer.pub_key
    then vote_messages vote from me peers
    else node_vote peer.address vote me ∷ vote_messages vote from me peers

module _ (sum256 : Bytes → Hash) where
  -- `handleVote`: the node, the messages it sends, and the error it returns.
  unfoldable pub handle_vote : Vote → Pubkey → Node → Outcome (Node × List Message × Option Error)
  unfolding vote_messages
  handle_vote vote from node = do
    (wendy, is_new, error) ← add_vote sum256 vote node.wendy
    let node' = record node { wendy = wendy }
    elim error [
      | some e ↦ returns (node', [], some e)
      | none ↦
          if is_new
          then returns (node', vote_messages vote from node.pub_key node.peers, none)
          else returns (node', [], none)
    ]

  -- The end of `handleTx`, for a transaction that is new: it is sent on, and so is a vote for it,
  -- whose error is ignored.
  unfoldable pub vote_for : ℕ → Tx → Pubkey → Node → Outcome (Node × List Message)
  unfolding tx_messages
  vote_for now tx from node = do
    let (voted, vote) = next_vote sum256 now tx node
    (node', messages, _) ← handle_vote vote node.pub_key voted
    returns (node', tx_messages tx from node.pub_key node.peers ++ messages)

  -- `handleTx`.
  unfoldable pub handle_tx : ℕ → Tx → Pubkey → Node → Outcome (Node × List Message)
  handle_tx now tx from node =
      let (wendy, is_new) = add_tx tx node.wendy in
      let node' = record node { wendy = wendy } in
      if is_new then vote_for now tx from node' else returns (node', [])

  -- `AddTx`.
  unfoldable pub node_add_tx : ℕ → Tx → Node → Outcome (Node × List Message)
  unfolding handle_tx
  node_add_tx now tx node = handle_tx now tx node.pub_key node
