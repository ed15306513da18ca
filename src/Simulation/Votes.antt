-- ===== src/Simulation/Votes.antt =====
-- The votes of a node of the simulation, as a peer of it takes them in (simulation/node.go, peer.go).
use wendy.Common.{
  suc, ℕ, ◌+◌, ◌^◌, ◌<◌, ◌≡◌, refl, ap, sym, ◌∙◌, subst, true, List, [], ◌∷◌, ◌++◌, none, some,
  arith, length, All, inl, inr, Option-cases,
}
use wendy.Crypto.{Bytes, Pubkey}
use wendy.Types.{Hash, Tx, Vote, new_vote, with_prev_hash}
use wendy.Peer.{Peer, PeerBucket, new_peer, element_by_hash, bucket_seen, seen, bucket_add_vote}
use wendy.Peer
use wendy.Peer.Buckets.{view, view-new_peer}
use wendy.Simulation.{Node, NodeRef, new_node, next_vote}
use wendy.Simulation.Accepting.{values, add_votes-Holds, all_seen, All-seen}
use wendy.Simulation.Chain.{Chain, Linked, Holds, new_peer_bucket-Holds}

-- The votes of a node for transactions that come in one after the other, each at a clock's reading.
unfoldable pub next_votes : (Bytes → Hash) → List (ℕ × Tx) → Node → List Vote
next_votes sum256 [] node = []
next_votes sum256 ((now, tx) ∷ txs) node =
    let (node', vote) = next_vote sum256 now tx node in vote ∷ next_votes sum256 txs node'

module _ (sum256 : Bytes → Hash) where
  -- The vote, and what the node keeps.
  pub next_vote_lem :
      (now : ℕ) (tx : Tx) (node : Node)
      → node.seq + 1 < 2 ^ 64
      → let (node', vote) = next_vote sum256 now tx node in
        (vote.seq ≡ node.seq)
        × Linked sum256 node.last_vote vote
        × (vote.label ≡ tx.label)
        × (vote.tx_hash ≡ tx.hash)
        × (node'.seq ≡ node.seq + 1)
        × (node'.last_vote ≡ some vote)
  unfolding next_vote new_vote with_prev_hash
  next_vote_lem now tx node small = elim (Option-cases node.last_vote) [
    | inl fresh ↦ rw fresh (omega arith, tt, refl, refl, omega arith, refl)
    | inr (last, voted) ↦ rw voted (omega arith, refl, refl, refl, omega arith, refl)
  ]

  -- The votes are a chain from the node's number on, each with its transaction's label and hash.
  next_votes-Chain :
      (txs : List (ℕ × Tx)) (node : Node)
      → node.seq + length txs < 2 ^ 64
      → Chain sum256 node.seq node.last_vote (next_votes sum256 txs node)
  unfolding next_votes
  next_votes-Chain [] node small = tt
  next_votes-Chain ((now, tx) ∷ txs) node small =
      let (node', vote) = next_vote sum256 now tx node in
      let (num, linked, _, _, seq, last) = next_vote_lem now tx node (omega arith) in
      let rest = next_votes-Chain txs node' (omega arith) in
      (
        num,
        linked,
        subst (λ k. Chain sum256 k (some vote) (next_votes sum256 txs node')) seq
            (subst (λ l. Chain sum256 node'.seq l (next_votes sum256 txs node')) last rest),
      )

  next_votes_labels :
      (l : Bytes) (txs : List (ℕ × Tx)) (node : Node)
      → node.seq + length txs < 2 ^ 64
      → All (λ t. t.1.label ≡ l) txs
      → All (λ v. v.label ≡ l) (next_votes sum256 txs node)
  unfolding next_votes
  next_votes_labels l [] node small labels = tt
  next_votes_labels l ((now, tx) ∷ txs) node small labels =
      let (_, _, label, _, seq, _) = next_vote_lem now tx node (omega arith) in
      (
        label ∙ labels.0,
        next_votes_labels l txs (next_vote sum256 now tx node).0 (omega arith) labels.1,
      )

  length-next_votes :
      (txs : List (ℕ × Tx)) (node : Node) → length (next_votes sum256 txs node) ≡ length txs
  unfolding next_votes
  length-next_votes [] node = refl
  length-next_votes ((now, tx) ∷ txs) node =
      ap suc (length-next_votes txs (next_vote sum256 now tx node).0)

  -- The hashes that are seen are those of the votes.
  next_votes_hashes :
      (P : Hash → Type 0) (txs : List (ℕ × Tx)) (node : Node)
      → node.seq + length txs < 2 ^ 64
      → All (λ v. P v.tx_hash) (next_votes sum256 txs node)
      → All (λ t. P t.1.hash) txs
  unfolding next_votes
  next_votes_hashes P [] node small all = tt
  next_votes_hashes P ((now, tx) ∷ txs) node small all =
      let (_, _, _, hash, seq, _) = next_vote_lem now tx node (omega arith) in
      (
        subst P hash all.0,
        next_votes_hashes P txs (next_vote sum256 now tx node).0 (omega arith) all.1,
      )

  -- For fewer than 2 ^ 64 transactions of one label, the votes that a new node makes of them one
  -- after the other are all accepted by AddVotes of a new peer, in that order and without an
  -- error; the label's votes are these, and each of the transactions is Seen
  pub next_votes-add_votes :
      (l : Bytes) (txs : List (ℕ × Tx)) (pub_key id : Pubkey) (peers : List NodeRef)
      → length txs < 2 ^ 64
      → All (λ t. t.1.label ≡ l) txs
      → let votes = next_votes sum256 txs (new_node pub_key peers) in
        let r = Peer.add_votes sum256 votes (new_peer id) in
        (r.1 ≡ none) × (values (view l r.0) ≡ votes) × All (λ t. seen r.0 t.1 ≡ true) txs
  unfolding new_node next_votes Peer.new_peer_bucket
  next_votes-add_votes l txs pub_key id peers small labels =
      let node = new_node pub_key peers in
      let votes = next_votes sum256 txs node in
      let few : length votes < 2 ^ 64 =
        subst (λ n. n < 2 ^ 64) (sym (length-next_votes txs node)) small in
      let fresh = view-new_peer l id in
      let start = subst (Holds sum256 none 0) (sym fresh) (new_peer_bucket-Holds sum256) in
      let (good, vals, (last, held)) =
        add_votes-Holds sum256 l none 0 votes (new_peer id) start
          (next_votes-Chain txs node (omega arith))
          (next_votes_labels l txs node (omega arith) labels) (omega arith) in
      let r = Peer.add_votes sum256 votes (new_peer id) in
      let content : values (view l r.0) ≡ votes = vals ∙ ap (λ b. values b ++ votes) fresh in
      let found =
        all_seen sum256 last (0 + length votes) (view l r.0) [] (view l r.0).votes.elements held
          refl in
      let hashes =
        next_votes_hashes (λ h. bucket_seen (view l r.0) h ≡ true) txs node (omega arith)
          (subst (All (λ v. bucket_seen (view l r.0) v.tx_hash ≡ true)) content found) in
      (good, content, All-seen r.0 l txs labels hashes)
