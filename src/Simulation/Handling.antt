-- ===== src/Simulation/Handling.antt =====
-- What a node does with a transaction and with a vote (simulation/node.go).
use wendy.Common.{
  ℕ, ◌≡◌, ◌≢◌, refl, ap, sym, ◌∙◌, subst, Bool, true, false, List, [], ◌∷◌, ◌++◌, Option, none,
  arith, All, inl, inr, ◌⊎◌, Bool-cases, Option-cases, returns,
}
use wendy.Crypto.{Bytes, Pubkey}
use wendy.Crypto.RoundTrip.{AreBytes}
use wendy.Types.{Hash, Tx, Vote, new_vote, with_prev_hash}
use wendy.Txs.Valid.{IsValid, Other}
use wendy.Peer.{Error}
use wendy.Peer
use wendy.Wendy.{Wendy, add_tx, add_vote}
use wendy.Wendy.Peers.{add_vote-registers, peer_or_new}
use wendy.Wendy.Pool.{add_tx-IsValid}
use wendy.Simulation.{
  Node, Message, node_tx, node_vote, next_vote, tx_messages, vote_messages, handle_vote, vote_for,
  handle_tx,
}
use wendy.Simulation.Messages.{Pooled, Pooled-of-Other, IsVoteFor, vote_messages-All}

module _ (sum256 : Bytes → Hash) where
  -- What a vote does to a node: the key, the peers, the pool and the own votes stay, and only votes
  -- are sent, all for the transaction, by the voter, from this node.
  abbrev pub Keeps : Node → Node → Type 0
  Keeps node node' =
      (node'.pub_key ≡ node.pub_key)
      × (node'.peers ≡ node.peers)
      × (node'.wendy.txs ≡ node.wendy.txs)
      × (node'.last_vote ≡ node.last_vote)
      × (node'.seq ≡ node.seq)

  abbrev pub Carries : Vote → Pubkey → Message → Type 0
  Carries v me (node_tx a tx from) = ⊥
  Carries v me (node_vote a v' from) = (v' ≡ v) × (from ≡ me)

  -- Where AddVote returns an error or a vote that is not new, nothing is sent.
  pub handle_vote-Keeps :
      (v : Vote) (from : Pubkey) (node : Node)
      → AreBytes v.pubkey
      → (w' : Wendy) × (added : Bool) × (e : Option Error) × (node' : Node) × (messages : List
          Message)
        × (add_vote sum256 v node.wendy ≡ returns (w', added, e))
        × (handle_vote sum256 v from node ≡ returns (node', messages, e))
        × (node' ≡ record node { wendy = w' })
        × Keeps node node'
        × (((e ≡ none) × (added ≡ true) × (messages ≡ vote_messages v from node.pub_key node.peers))
            ⊎ (((e ≢ none) ⊎ (added ≡ false)) × (messages ≡ [])))
  unfolding handle_vote
  handle_vote-Keeps v from node bytes =
      let (w', added, runs, _, (pool, _, _), _, _) = add_vote-registers sum256 v node.wendy bytes in
      let e = (Peer.add_vote sum256 v (peer_or_new v node.wendy)).2 in
      let node' : Node = record node { wendy = w' } in
      elim (Option-cases e) [
        | inl fine ↦ elim (Bool-cases added) [
          | inl fresh ↦ (
            w',
            added,
            e,
            node',
            vote_messages v from node.pub_key node.peers,
            runs,
            rw runs (ground arith),
            refl,
            (refl, refl, pool, refl, refl),
            inl (fine, fresh, refl),
          )
          | inr old ↦ (
            w',
            added,
            e,
            node',
            [],
            runs,
            rw runs (ground arith),
            refl,
            (refl, refl, pool, refl, refl),
            inr (inr old, refl),
          )
        ]
        | inr (err, bad) ↦ (
          w',
          added,
          e,
          node',
          [],
          runs,
          rw runs (ground arith),
          refl,
          (refl, refl, pool, refl, refl),
          inr (inl (λ no_error. cc), refl),
        )
      ]

  next_vote_keeps :
      (now : ℕ) (tx : Tx) (node : Node)
      → let (voted, v) = next_vote sum256 now tx node in
        (voted.pub_key ≡ node.pub_key)
        × (voted.peers ≡ node.peers)
        × (voted.wendy ≡ node.wendy)
        × (v.pubkey ≡ node.pub_key)
        × (v.tx_hash ≡ tx.hash)
  unfolding next_vote new_vote with_prev_hash
  next_vote_keeps now tx node = elim (Option-cases node.last_vote) [
    | inl fresh ↦ rw fresh (refl, refl, refl, refl, refl)
    | inr (last, voted) ↦ rw voted (refl, refl, refl, refl, refl)
  ]

  IsVoteFor-Carries :
      (v : Vote) (h : Hash) (me : Pubkey)
      → v.tx_hash ≡ h
      → v.pubkey ≡ me
      → (m : Message) → Carries v me m
      → IsVoteFor h me m
  IsVoteFor-Carries v h me hash key (node_tx a tx from) c = elim c [ ]
  IsVoteFor-Carries v h me hash key (node_vote a v' from) (same, by) =
      (ap (λ t. t.tx_hash) same ∙ hash, ap (λ t. t.pubkey) same ∙ key, by)

  -- A new transaction is sent to the peers, and the node's vote for it too.
  abbrev pub Floods : Tx → Pubkey → Node → Node → List Message → Type 0
  Floods tx from node node' messages =
      (node'.wendy.txs.list ≡ node.wendy.txs.list ++ tx ∷ [])
      × (votes : List Message) × (messages ≡ tx_messages tx from node.pub_key node.peers ++ votes)
      × All (IsVoteFor tx.hash node.pub_key) votes

  vote_for_lem :
      (now : ℕ) (tx : Tx) (from : Pubkey) (node : Node)
      → AreBytes node.pub_key
      → (node' : Node) × (messages : List Message) × (vote_for sum256 now tx from node
          ≡ returns (node', messages))
        × (node'.pub_key ≡ node.pub_key)
        × (node'.peers ≡ node.peers)
        × (node'.wendy.txs ≡ node.wendy.txs)
        × (votes : List Message) × (messages ≡ tx_messages tx from node.pub_key node.peers ++ votes)
        × All (IsVoteFor tx.hash node.pub_key) votes
  unfolding vote_for
  vote_for_lem now tx from node bytes =
      let (voted, v) = next_vote sum256 now tx node in
      let (key, peers, wendy, voter, hash) = next_vote_keeps now tx node in
      let (w', added, e, node', sent, _, runs, _, (key', peers', pool, _, _), cases) =
        handle_vote-Keeps v node.pub_key voted (subst AreBytes (sym voter) bytes) in
      (
        node',
        tx_messages tx from node.pub_key node.peers ++ sent,
        rw (runs, vote_for) refl,
        key' ∙ key,
        peers' ∙ peers,
        pool ∙ ap (λ t. t.txs) wendy,
        sent,
        refl,
        elim cases [
          | inl (_, _, all) ↦ subst (All (IsVoteFor tx.hash node.pub_key)) (sym all) (
              vote_messages-All v node.pub_key voted.pub_key voted.peers
                (IsVoteFor tx.hash node.pub_key) (λ r _ _. (hash, voter, key)))
          | inr (_, nothing) ↦ subst (All (IsVoteFor tx.hash node.pub_key)) (sym nothing) tt
        ],
      )

  -- For a node whose key consists of bytes and whose pool is valid, handleTx returns, keeps key,
  -- peers and a valid pool; either the transaction's hash was pooled and nothing changes and
  -- nothing is sent, or it was not, the transaction stands last in the pool, and the node sends it
  -- to its peers but the sender, and behind it only votes of its own for it
  pub handle_tx-Floods :
      (now : ℕ) (tx : Tx) (from : Pubkey) (node : Node)
      → AreBytes node.pub_key
      → IsValid node.wendy.txs
      → (node' : Node) × (messages : List Message) × (handle_tx sum256 now tx from node
          ≡ returns (node', messages))
        × (node'.pub_key ≡ node.pub_key)
        × (node'.peers ≡ node.peers)
        × IsValid node'.wendy.txs
        × ((Pooled tx.hash node.wendy.txs.list × (node' ≡ node) × (messages ≡ []))
            ⊎ (Other tx.hash node.wendy.txs.list × Floods tx from node node' messages))
  unfolding handle_tx
  handle_tx-Floods now tx from node bytes valid =
      let (valid', cases) = add_tx-IsValid tx node.wendy valid in
      let w' = (add_tx tx node.wendy).0 in
      let node1 : Node = record node { wendy = w' } in
      elim cases [
        | inl (same, there) ↦ (
          node,
          [],
          rw (same, handle_tx) refl,
          refl,
          refl,
          valid,
          inl (Pooled-of-Other tx.hash node.wendy.txs.list there, refl, refl),
        )
        | inr (fresh, absent, last) ↦
            let (node', messages, runs, key, peers, pool, votes, sent, own) =
              vote_for_lem now tx from node1 bytes in
            (
              node',
              messages,
              rw (fresh, handle_tx) runs,
              key,
              peers,
              subst IsValid (sym pool) valid',
              inr (absent, (ap (λ t. t.list) pool ∙ last, votes, sent, own)),
            )
      ]
