-- ===== src/Simulation/Network/Ending/Drops.antt =====
-- What each message that is taken does to the bound (simulation/node.go).
use wendy.Common.{
  ℕ, suc, ◌+◌, ◌≤◌, ◌≡◌, ap, sym, ◌∙◌, subst, List, [], ◌∷◌, ◌++◌, Option, arith, All, All-mono,
  All-append, All-of-append, In, inl, inr, returns, length,
}
use wendy.Crypto.{Bytes, Pubkey}
use wendy.Crypto.RoundTrip.{AreBytes}
use wendy.Types.{Hash, Tx, Vote}
use wendy.Txs.Valid.{Other}
use wendy.Peer.{Error}
use wendy.Simulation.{Node, Message, node_tx, node_vote, handle_vote, handle_tx, tx_messages}
use wendy.Simulation.Messages.{Pooled, Pooled-last, IsVoteFor, tx_messages-All, vote_messages-All}
use wendy.Simulation.Handling.{handle_vote-Keeps, handle_tx-Floods}
use wendy.Simulation.Network.{Network, handled, pool, Invariant, IsFresh, update_self}
use wendy.Simulation.Network.Flooding.{key_bytes}
use wendy.Simulation.Network.Spreading.{Gives, pool-after}
use wendy.Simulation.Network.Quiet.{IsVote}
use wendy.Simulation.Network.Ending.Weight.{
  lack-le, lack-drops, tx_count, tx_count-append, tx_count_votes, tx_count-tx_messages,
  IsVoteFor-IsVote, IsListed, IsClosed, weight,
}

Other-absent : (h : Hash) (txs : List Tx) → Other h txs → ¬ Pooled h txs
Other-absent h [] o p = p
Other-absent h (tx ∷ txs) o (inl e) = o.0 e
Other-absent h (tx ∷ txs) o (inr p) = Other-absent h txs o.1 p

tx_count_taken :
    (pre post ms : List Message) (m : Message)
    → tx_count ((pre ++ post) ++ ms) + tx_count (m ∷ []) ≡ tx_count (pre ++ m ∷ post) + tx_count ms
tx_count_taken pre post ms m = omega (
  arith,
  tx_count-append (pre ++ post) ms,
  tx_count-append pre post,
  tx_count-append pre (m ∷ post),
  tx_count-append (m ∷ []) post,
)

module _ (sum256 : Bytes → Hash) (s : Network) (pairs : List (ℕ × Hash)) (closed : IsClosed s pairs)
    (t : Network) (fresh : IsFresh s) (inv : Invariant s t)
    (listed : All (IsListed pairs) t.in_flight) where
  sent_votes :
      (a : ℕ) (v : Vote) (from : Pubkey) (n : Node) (ms : List Message) (e : Option Error)
      → AreBytes v.pubkey
      → handle_vote sum256 v from (t.nodes a) ≡ returns (n, ms, e)
      → All IsVote ms
  sent_votes a v from n ms e bytes returned =
      let (_, _, e', n', ms', _, runs, _, _, cases) =
        handle_vote-Keeps sum256 v from (t.nodes a) bytes in
      let same : ◌≡◌ {A = Node × List Message × Option Error} (n', ms', e') (n, ms, e) = cc in
      subst (λ (q : Node × List Message × Option Error). All IsVote q.1) same
        (elim cases [
          | inl (_, _, all) ↦
              subst (All IsVote) (sym all) (
                vote_messages-All v from (t.nodes a).pub_key (t.nodes a).peers IsVote (λ r _ _. tt))
          | inr (_, nothing) ↦ subst (All IsVote) (sym nothing) tt
        ])

  pub pools_grow :
      (a : ℕ) (n : Node) (ms waiting : List Message)
      → Gives t a n ms waiting
      → (h : Hash) (b : ℕ) → Pooled h (pool t b)
      → Pooled h (pool (handled t a (n, ms) waiting) b)
  pools_grow a n ms waiting gives h b p = pool-after t a n ms waiting h (gives.grows h) b p

  IsListed-rest :
      (pre post : List Message) (m : Message)
      → t.in_flight ≡ pre ++ m ∷ post
      → All (IsListed pairs) (pre ++ post) × IsListed pairs m
  IsListed-rest pre post m split =
      let (before, rest) =
        All-of-append (IsListed pairs) pre (m ∷ post) (subst (All (IsListed pairs)) split listed) in
      (All-append (IsListed pairs) pre post before rest.1, rest.0)

  IsVote-IsListed : (m : Message) → IsVote m → IsListed pairs m
  IsVote-IsListed (node_tx a tx from) v = absurd v
  IsVote-IsListed (node_vote a v from) _ = tt

  degree : ℕ → ℕ
  degree a = length (s.nodes a).peers

  -- One transaction less is in flight, and the messages of the handler are there.
  in_flight_count :
      (pre post ms : List Message) (m : Message)
      → t.in_flight ≡ pre ++ m ∷ post
      → tx_count ((pre ++ post) ++ ms) + tx_count (m ∷ []) ≡ tx_count t.in_flight + tx_count ms
  in_flight_count pre post ms m split =
      tx_count_taken pre post ms m ∙ ap (λ l. tx_count l + tx_count ms) (sym split)

  -- What a node sends for a new transaction.
  flood_count :
      (a : ℕ) (tx : Tx) (from : Pubkey) (ms votes : List Message)
      → In (a, tx.hash) pairs
      → ms ≡ tx_messages tx from (t.nodes a).pub_key (t.nodes a).peers ++ votes
      → All (IsVoteFor tx.hash (t.nodes a).pub_key) votes
      → (tx_count ms ≤ degree a) × All (IsListed pairs) ms
  unfolding degree
  flood_count a tx from ms votes at all mine =
      let me = (t.nodes a).pub_key in
      let peers = (t.nodes a).peers in
      let sent = tx_messages tx from me peers in
      let no_tx = All-mono votes (λ m v. IsVoteFor-IsVote tx.hash me m v) mine in
      let same = ap length (inv.same_peers a) in
      (
        subst (λ l. tx_count l ≤ length (s.nodes a).peers) (sym all)
            (omega (
              arith,
              tx_count-append sent votes,
              tx_count_votes votes no_tx,
              tx_count-tx_messages tx from me peers,
              same,
            )),
        subst (All (IsListed pairs)) (sym all) (
            All-append (IsListed pairs) sent votes
              (tx_messages-All tx from me peers (IsListed pairs)
                (λ r i _. closed a tx.hash r at (subst (In r) (inv.same_peers a) i)))
              (All-mono votes (λ m v. IsVote-IsListed m v) no_tx)),
      )

  pub weight_tx :
      (a now : ℕ) (tx : Tx) (from : Pubkey) (pre post : List Message) (n : Node) (ms : List Message)
      → t.in_flight ≡ pre ++ node_tx a tx from ∷ post
      → handle_tx sum256 now tx from (t.nodes a) ≡ returns (n, ms)
      → Gives t a n ms (pre ++ post)
      → let u = handled t a (n, ms) (pre ++ post) in
        (suc (weight s u pairs) ≤ weight s t pairs) × All (IsListed pairs) u.in_flight
  unfolding weight tx_count degree
  weight_tx a now tx from pre post n ms split returned gives =
      let m = node_tx a tx from in
      let u = handled t a (n, ms) (pre ++ post) in
      let (rest, at) = IsListed-rest pre post m split in
      let grow = pools_grow a n ms (pre ++ post) gives in
      let (n', ms', runs, _, _, _, cases) =
        handle_tx-Floods sum256 now tx from (t.nodes a) (key_bytes sum256 s t fresh inv a)
          (inv.valid a) in
      let same : ◌≡◌ {A = Node × List Message} (n', ms') (n, ms) = cc in
      let count = in_flight_count pre post ms m split in
      elim cases [
        | inl (_, _, nothing) ↦
            let none_sent : ms ≡ [] = ap (λ q. q.1) (sym same) ∙ nothing in
            (
              omega (
                arith,
                count,
                ap tx_count none_sent,
                lack-le degree (pool t) (pool u) grow pairs,
              ),
              All-append (IsListed pairs) (pre ++ post) ms rest
                  (subst (All (IsListed pairs)) (sym none_sent) tt),
            )
        | inr (absent, (last, votes, all, mine)) ↦
            let sent = ap (λ q. q.1) (sym same) ∙ all in
            let (few, here) = flood_count a tx from ms votes at sent mine in
            let has =
              subst (λ q. Pooled tx.hash q.0.wendy.txs.list) same
                (subst (Pooled tx.hash) (sym last) (Pooled-last (pool t a) tx)) in
            let there =
              subst (λ k. Pooled tx.hash k.wendy.txs.list) (sym (update_self t.nodes a n)) has in
            let drop =
              lack-drops degree (pool t) (pool u) grow a tx.hash pairs at
                (Other-absent tx.hash (pool t a) absent) there in
            (
              omega (arith, count, few, drop),
              All-append (IsListed pairs) (pre ++ post) ms rest here,
            )
      ]

  pub weight_vote :
      (a : ℕ) (v : Vote) (from : Pubkey) (pre post : List Message) (n : Node) (ms : List Message)
      (e : Option Error)
      → t.in_flight ≡ pre ++ node_vote a v from ∷ post
      → handle_vote sum256 v from (t.nodes a) ≡ returns (n, ms, e)
      → AreBytes v.pubkey
      → Gives t a n ms (pre ++ post)
      → let u = handled t a (n, ms) (pre ++ post) in
        (weight s u pairs ≤ weight s t pairs) × All (IsListed pairs) u.in_flight
  unfolding weight tx_count degree
  weight_vote a v from pre post n ms e split returned bytes gives =
      let m = node_vote a v from in
      let u = handled t a (n, ms) (pre ++ post) in
      let (rest, _) = IsListed-rest pre post m split in
      let grow = pools_grow a n ms (pre ++ post) gives in
      let votes = sent_votes a v from n ms e bytes returned in
      (
        omega (
          arith,
          in_flight_count pre post ms m split,
          tx_count_votes ms votes,
          lack-le degree (pool t) (pool u) grow pairs,
        ),
        All-append (IsListed pairs) (pre ++ post) ms rest
            (All-mono ms (λ m v. IsVote-IsListed m v) votes),
      )
