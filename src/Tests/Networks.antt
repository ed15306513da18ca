-- ===== src/Tests/Networks.antt =====
-- Runs of simulation/node.go.
use wendy.Common.{
  ℕ, zero, suc, ◌+◌, ◌<◌, ◌≤◌, ◌≡◌, ◌⊎◌, inl, inr, refl, ap, sym, ◌∙◌, subst, true, false, List, [],
  ◌∷◌, ◌++◌, none, some, arith, length, All, In, returns, ℕ_discrete,
}
use wendy.Crypto.{Bytes, Pubkey, bytes_dec, pubkey_string}
use wendy.Crypto.RoundTrip.{AreBytes, new_pubkey_from_id-pubkey_string}
use wendy.Types.{Hash, Tx, Vote, zero_hash}
use wendy.Txs.Valid.{IsValid, Other, reset-IsValid}
use wendy.Txs.{push_all, reset}
use wendy.Peer
use wendy.Peer.{new_peer, seen}
use wendy.Peer.Buckets.{view}
use wendy.Wendy
use wendy.Simulation.{
  Node, NodeRef, Message, node_tx, node_vote, same_key, new_node, next_vote, node_add_tx, handle_tx,
}
use wendy.Simulation.Accepting.{values}
use wendy.Simulation.Votes.{next_votes, next_votes-add_votes}
use wendy.Simulation.Labels.{next_votes-unseen}
use wendy.Simulation.Messages.{Pooled}
use wendy.Simulation.Handling.{Floods, handle_tx-Floods}
use wendy.Simulation.Network.{update, Network, IsFresh, Step, Reach, handled, pool}
use wendy.Simulation.Network.Quiet.{IsVote, Joined, Reach-Step}
use wendy.Simulation.Network.Ending.{
  Deliveries, Deliveries-weight, Deliveries-IsVote, Deliveries-Pooled,
}
use wendy.Simulation.Network.Ending.Weight.{IsClosed, IsListed, weight}

-- In place of SHA-256.
abbrev sum256 : Bytes → Hash
sum256 bs = zero_hash

abbrev tx : ℕ → Bytes → Tx
tx n label = record { bytes = n ∷ []; hash = n ∷ []; label = label }

abbrev two : List (ℕ × Tx)
two = (10, tx 1 []) ∷ (11, tx 2 []) ∷ []

next_votes-add_votes_example :
    let votes = next_votes sum256 two (new_node (7 ∷ []) []) in
    let r = Peer.add_votes sum256 votes (new_peer (7 ∷ [])) in
    (r.1 ≡ none) × (values (view [] r.0) ≡ votes) × All (λ t. seen r.0 t.1 ≡ true) two
next_votes-add_votes_example =
    next_votes-add_votes sum256 [] two (7 ∷ []) (7 ∷ []) [] (omega arith) (refl, (refl, tt))

abbrev late : List (ℕ × Tx)
late = (12, tx 3 (1 ∷ [])) ∷ []

next_votes-unseen_example :
    let votes = next_votes sum256 (two ++ late) (new_node (7 ∷ []) []) in
    seen (Peer.add_votes sum256 votes (new_peer (7 ∷ []))).0 (tx 3 (1 ∷ [])) ≡ false
next_votes-unseen_example =
    next_votes-unseen sum256 (1 ∷ []) two late (7 ∷ []) (7 ∷ []) [] (tx 3 (1 ∷ [])) (omega arith)
      ((λ e. cc), ((λ e. cc), tt)) (omega arith) refl

-- The key of the node at an address: as many bytes 0.
abbrev node_key : ℕ → Pubkey
node_key zero = []
node_key (suc n) = 0 ∷ node_key n

length-node_key : (n : ℕ) → length (node_key n) ≡ n
length-node_key zero = refl
length-node_key (suc n) = ap suc (length-node_key n)

node_key_bytes : (n : ℕ) → AreBytes (node_key n)
node_key_bytes zero = tt
node_key_bytes (suc n) = (omega arith, node_key_bytes n)

node_key_apart : (a b : ℕ) → same_key (node_key a) (node_key b) ≡ true → a ≡ b
node_key_apart a b same =
    elim (bytes_dec (pubkey_string (node_key a)) (pubkey_string (node_key b))) [
      | no other ↦ absurd (ground (arith, other, same))
      | yes e ↦
          let back = λ (n : ℕ). new_pubkey_from_id-pubkey_string (node_key n) (node_key_bytes n) in
          let equal : node_key a ≡ node_key b = ground (arith, e, back a, back b) in
          sym (length-node_key a) ∙ ap length equal ∙ length-node_key b
    ]

abbrev ref : ℕ → NodeRef
ref a = record { address = a; pub_key = node_key a }

-- Three nodes in a row.
abbrev peers : ℕ → List NodeRef
peers zero = ref 1 ∷ []
peers (suc zero) = ref 0 ∷ ref 2 ∷ []
peers (suc (suc n)) = ref 1 ∷ []

abbrev row : Network
row = record { nodes = λ a. new_node (node_key a) (peers a); in_flight = [] }

peer_known : (a : ℕ) (r : NodeRef) → In r (peers a) → r.pub_key ≡ node_key r.address
peer_known zero r (inl e) = cc
peer_known zero r (inr i) = absurd i
peer_known (suc zero) r (inl e) = cc
peer_known (suc zero) r (inr (inl e)) = cc
peer_known (suc zero) r (inr (inr i)) = absurd i
peer_known (suc (suc n)) r (inl e) = cc
peer_known (suc (suc n)) r (inr i) = absurd i

row-IsFresh : IsFresh row
unfolding new_node
row-IsFresh = record {
  pools = λ a. refl;
  nothing_sent = refl;
  keys = node_key_bytes;
  apart = node_key_apart;
  known = peer_known;
}

abbrev vote : Vote
vote = record {
  pubkey = [];
  label = [];
  seq = 0;
  tx_hash = 1 ∷ [];
  time = 5;
  prev_hash = zero_hash;
}

-- The first node after it has got a transaction, and what it sent.
abbrev first_node : Node
first_node = record {
  wendy = record {
    validators = [];
    quorum = 0;
    txs = record { list = tx 1 [] ∷ []; by_hash = (1 ∷ [], 0) ∷ [] };
    votes = (1 ∷ [], vote) ∷ [];
    peers =
        (
          48 ∷ 120 ∷ [],
          record {
            pub_key = [];
            buckets =
                (
                  [],
                  record {
                    votes = record { elements = record { id = 0; value = vote } ∷ []; next_id = 1 };
                    last_seq_seen = 0;
                    commited_hashes = [];
                  },
                )
                ∷ [];
          },
        )
        ∷ [];
  };
  pub_key = [];
  peers = ref 1 ∷ [];
  last_vote = some vote;
  seq = 1;
}

abbrev sent : List Message
sent = node_tx 1 (tx 1 []) [] ∷ node_vote 1 vote [] ∷ []

first_node-sent : node_add_tx sum256 5 (tx 1 []) (row.nodes 0) ≡ returns (first_node, sent)
unfolding node_add_tx Wendy.add_tx wendy.Txs.push new_node push_all reset wendy.Simulation.vote_for
    wendy.Simulation.handle_vote Wendy.add_vote next_vote wendy.Crypto.new_pubkey_from_id
    pubkey_string wendy.Types.new_vote Peer.add_vote Peer.bucket_add_vote wendy.LinkedList.first
    wendy.LinkedList.is_backward wendy.LinkedList.first_of_list ℕ_discrete bytes_dec
    wendy.LinkedList.after wendy.LinkedList.back wendy.LinkedList.each
    wendy.LinkedList.each_backward wendy.LinkedList.each_forward wendy.LinkedList.each_from
    wendy.LinkedList.from_id wendy.LinkedList.front wendy.LinkedList.insert_after
    wendy.LinkedList.insert_behind wendy.LinkedList.keep_first wendy.LinkedList.new
    wendy.LinkedList.next wendy.LinkedList.prev wendy.LinkedList.push_back Peer.advance
    Peer.advance_from Peer.bucket Peer.check_following new_peer Peer.new_peer_bucket Peer.set_bucket
    Peer.valid_hashes handle_tx wendy.Simulation.tx_messages wendy.Simulation.vote_messages
    wendy.Txs.new_txs wendy.Types.checksum wendy.Types.digest wendy.Types.vote_hash
    wendy.Types.with_prev_hash Wendy.new Wendy.peer_of
first_node-sent = refl

abbrev started : Network
started = handled row 0 (first_node, sent) []

started-Reach : Reach sum256 row started
started-Reach = Reach.later Reach.start (Step.add 0 5 (tx 1 []) (first_node, sent) first_node-sent)

abbrev pairs : List (ℕ × Hash)
pairs = (0, 1 ∷ []) ∷ (1, 1 ∷ []) ∷ (2, 1 ∷ []) ∷ []

peer_small : (a : ℕ) (r : NodeRef) → In r (peers a) → r.address < 3
peer_small zero r (inl e) = subst (λ q. q.address < 3) (sym e) (omega arith)
peer_small zero r (inr i) = absurd i
peer_small (suc zero) r (inl e) = subst (λ q. q.address < 3) (sym e) (omega arith)
peer_small (suc zero) r (inr (inl e)) = subst (λ q. q.address < 3) (sym e) (omega arith)
peer_small (suc zero) r (inr (inr i)) = absurd i
peer_small (suc (suc n)) r (inl e) = subst (λ q. q.address < 3) (sym e) (omega arith)
peer_small (suc (suc n)) r (inr i) = absurd i

listed_below : (a : ℕ) (h : Hash) → a < 3 → h ≡ 1 ∷ [] → In (a, h) pairs
listed_below zero h small e = inl (cc)
listed_below (suc zero) h small e = inr (inl (cc))
listed_below (suc (suc zero)) h small e = inr (inr (inl (cc)))
listed_below (suc (suc (suc n))) h small e = absurd (omega arith)

listed_hash : (a : ℕ) (h : Hash) → In (a, h) pairs → h ≡ 1 ∷ []
listed_hash a h (inl e) = cc
listed_hash a h (inr (inl e)) = cc
listed_hash a h (inr (inr (inl e))) = cc
listed_hash a h (inr (inr (inr i))) = absurd i

pairs-IsClosed : IsClosed row pairs
unfolding new_node
pairs-IsClosed a h r i j = listed_below r.address h (peer_small a r j) (listed_hash a h i)

Deliveries-IsVote_example :
    (n : ℕ) × (u : Network) × Deliveries sum256 started n u
    × (n ≤ weight row started pairs)
    × All IsVote u.in_flight
Deliveries-IsVote_example =
    Deliveries-IsVote sum256 row pairs pairs-IsClosed started row-IsFresh started-Reach
      (inr (inl refl), (tt, tt))

started-IsListed : All (IsListed pairs) started.in_flight
started-IsListed = (inr (inl refl), (tt, tt))

-- The run that delivers the transaction to all nodes.
abbrev delivered :
    (n : ℕ) × (u : Network) × Deliveries sum256 started n u
    × (n ≤ weight row started pairs)
    × All IsVote u.in_flight
delivered =
    Deliveries-IsVote sum256 row pairs pairs-IsClosed started row-IsFresh started-Reach
      started-IsListed

Deliveries-weight_example :
    (delivered.0 + weight row delivered.1 pairs ≤ weight row started pairs)
    × Reach sum256 row delivered.1
    × All (IsListed pairs) delivered.1.in_flight
Deliveries-weight_example =
    Deliveries-weight sum256 row pairs pairs-IsClosed started row-IsFresh started-Reach
      started-IsListed delivered.2

row-Joined : Joined row 0 2
unfolding new_node
row-Joined = Joined.link (Joined.link Joined.here (ref 1) (inl refl)) (ref 2) (inr (inl refl))

started-Pooled : Pooled (1 ∷ []) (pool started 0)
unfolding update ℕ_discrete
started-Pooled = inl refl

Deliveries-Pooled_example : Pooled (1 ∷ []) (pool delivered.1 2)
Deliveries-Pooled_example =
    Deliveries-Pooled sum256 row pairs pairs-IsClosed started row-IsFresh started-Reach
      started-IsListed delivered.0 delivered.1 (1 ∷ []) 0 2 delivered.2 delivered.4 row-Joined
      started-Pooled

Reach-Step_example :
    (u : Network) × Step sum256 started u
    × ((more : List Message) × (u.in_flight ≡ (node_vote 1 vote [] ∷ []) ++ more))
Reach-Step_example =
    Reach-Step sum256 row-IsFresh started-Reach 6 [] (node_vote 1 vote [] ∷ [])
      (node_tx 1 (tx 1 []) []) refl

abbrev middle : Node
middle = new_node (node_key 1) (peers 1)

middle-IsValid : IsValid middle.wendy.txs
unfolding new_node push_all
middle-IsValid = reset-IsValid

middle_bytes : AreBytes middle.pub_key
unfolding new_node
middle_bytes = node_key_bytes 1

handle_tx-Floods_example :
    (node' : Node) × (messages : List Message) × (handle_tx sum256 6 (tx 1 []) [] middle
      ≡ returns (node', messages))
    × (node'.pub_key ≡ middle.pub_key)
    × (node'.peers ≡ middle.peers)
    × IsValid node'.wendy.txs
    × ((Pooled (1 ∷ []) middle.wendy.txs.list × (node' ≡ middle) × (messages ≡ []))
        ⊎ (Other (1 ∷ []) middle.wendy.txs.list × Floods sum256 (tx 1 []) [] middle node' messages))
handle_tx-Floods_example = handle_tx-Floods sum256 6 (tx 1 []) [] middle middle_bytes middle-IsValid
