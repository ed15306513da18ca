-- ===== src/Wendy.antt =====
-- wendy.go: the validators, the pooled transactions, the votes of all peers, and what is decided
-- from them. A goroutine's lock is held for a whole method, so a method is one step.

pub mod Blocks
pub mod Quorum
pub mod Peers
pub mod Pool
pub mod Labels
pub mod Limits
pub mod Sets
pub mod Prefixes
use wendy.Common.{
  ℕ, ◌+◌, ◌*◌, ◌/◌, Bool, true, false, not, ◌&&◌, List, [], ◌∷◌, Option, none, some, ◌==◌, ltb,
  if◌then◌else◌, lookup, insert, length, map, Outcome, returns, panics, ◌>>=◌, ℤ, sub_ℕ,
}
use wendy.Crypto.{Bytes, Pubkey, PeerId, bytes_dec, pubkey_string, new_pubkey_from_id}
use wendy.Types.{Hash, Tx, Vote}
use wendy.Txs.{Txs, new_txs, push, remove_by_hash}
use wendy.Peer.{Peer, Error, new_peer, before, seen, update_tx_set}
use wendy.Peer

pub record Wendy : Type 0 where
  pub validators : List Pubkey
  pub quorum : ℕ
  pub txs : Txs
  pub votes : List (Hash × Vote)
  pub peers : List (PeerId × Peer)

-- `New`.
unfoldable pub new : Wendy
unfolding new_txs
new = record { validators = []; quorum = 0; txs = new_txs []; votes = []; peers = [] }

-- The loop of `UpdateValidatorSet`: a peer that is there is kept, another one is made.
unfoldable pub keep_peers :
    List (PeerId × Peer) → List Pubkey → List (PeerId × Peer) → List (PeerId × Peer)
keep_peers old [] peers = peers
keep_peers old (val ∷ vs) peers =
    let id = pubkey_string val in
    keep_peers old vs (elim (lookup bytes_dec id old) [
      | some s ↦ insert bytes_dec id s peers
      | none ↦ insert bytes_dec id (new_peer val) peers
    ])

-- `UpdateValidatorSet`. `math.Floor(float64(n) * Quorum) + 1` with `Quorum` the double nearest to
-- two thirds is `2 * n / 3 + 1`: the rounded product is 2n/3 where 3 divides n, and lies between
-- the same integers elsewhere, for all n below 2 ^ 50.
unfoldable pub update_validator_set : List Pubkey → Wendy → Wendy
unfolding keep_peers
update_validator_set vs w = record w {
  validators = vs;
  quorum = 2 * length vs / 3 + 1;
  peers = keep_peers w.peers vs [];
}

-- `HonestParties` and `HonestMajority`.
unfoldable pub honest_parties : Wendy → ℕ
honest_parties w = w.quorum

unfoldable pub honest_majority : Wendy → ℤ
honest_majority w = sub_ℕ (length w.validators) w.quorum

-- `AddTx`.
unfoldable pub add_tx : Tx → Wendy → Wendy × Bool
add_tx tx w = let (txs, added) = push tx w.txs in (record w { txs = txs }, added)

-- The peer of a vote, made from the vote's key if it is not registered.
unfoldable pub peer_of : PeerId → Wendy → Outcome Peer
peer_of id w = elim (lookup bytes_dec id w.peers) [
  | some peer ↦ returns peer
  | none ↦ do pub_key ← new_pubkey_from_id id; returns (new_peer pub_key)
]

module _ (sum256 : Bytes → Hash) where
  -- `AddVote`. The peer changes in place, also where its `AddVote` returns an error.
  unfoldable pub add_vote : Vote → Wendy → Outcome (Wendy × Bool × Option Error)
  unfolding peer_of
  add_vote v w =
      let id = pubkey_string v.pubkey in
      do
        peer ← peer_of id w
        let (peer', ok, error) = Peer.add_vote sum256 v peer
        let registered = record w { peers = insert bytes_dec id peer' w.peers }
        elim error [
          | some e ↦ returns (registered, false, some e)
          | none ↦
              returns (record registered { votes = insert bytes_dec v.tx_hash v w.votes }, ok, none)
        ]

  -- `AddVotes`.
  unfoldable pub add_votes : List Vote → Wendy → Outcome (Wendy × Option Error)
  add_votes [] w = returns (w, none)
  add_votes (v ∷ vs) w = do
    (w', _, error) ← add_vote v w
    elim error [ some e ↦ returns (w', some e) | none ↦ add_votes vs w' ]

-- The loop over all peers in `CommitBlock` and `AddBlock`.
unfoldable pub update_peers : List Tx → List (PeerId × Peer) → List (PeerId × Peer)
update_peers txs [] = []
update_peers txs ((id, p) ∷ peers) = (id, update_tx_set txs p) ∷ update_peers txs peers

-- `CommitBlock`.
unfoldable pub commit_block : List Tx → Wendy → Wendy
commit_block txs w = record w { peers = update_peers txs w.peers }

-- `VoteByTxHash`.
unfoldable pub vote_by_tx_hash : Hash → Wendy → Option Vote
vote_by_tx_hash hash w = lookup bytes_dec hash w.votes

-- The loop of `hasQuorum`.
unfoldable pub count_votes : (Peer → Outcome Bool) → ℕ → ℕ → List (PeerId × Peer) → Outcome Bool
count_votes fn quorum votes [] = returns false
count_votes fn quorum votes ((id, p) ∷ peers) =
    let counted = count_votes fn quorum (votes + 1) peers in
    let skipped = count_votes fn quorum votes peers in
    do ok ← fn p; if ok then (if votes + 1 == quorum then returns true else counted) else skipped

unfoldable pub has_quorum : (Peer → Outcome Bool) → Wendy → Outcome Bool
unfolding count_votes
has_quorum fn w = count_votes fn w.quorum 0 w.peers

-- `IsBlockedBy` and `IsBlocked`.
unfoldable pub is_blocked_by : Wendy → Tx → Tx → Outcome Bool
is_blocked_by w tx1 tx2 = do ok ← has_quorum (λ p. before p tx1 tx2) w; returns (not ok)

unfoldable pub is_blocked : Wendy → Tx → Outcome Bool
is_blocked w tx = do ok ← has_quorum (λ p. returns (seen p tx)) w; returns (not ok)

-- The loop of `AddBlock` over the block's transactions.
unfoldable pub remove_all : List Tx → Txs → Txs
remove_all [] txs = txs
remove_all (tx ∷ rest) txs = remove_all rest (remove_by_hash tx.hash txs).0

-- `AddBlock`.
unfoldable pub add_block : List Tx → Wendy → Wendy
add_block block w = record w { txs = remove_all block w.txs; peers = update_peers block w.peers }
