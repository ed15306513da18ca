-- ===== src/Simulation/Network/Ending.antt =====
-- The end of flooding, by a bound on the transactions that are taken (simulation/node.go).
pub mod Weight
pub mod Drops
use wendy.Common.{
  zero, ℕ, suc, ◌+◌, ◌≤◌, ◌<◌, ◌≡◌, ◌≢◌, refl, ap, sym, ◌∙◌, subst, Bool, true, false, List, [],
  ◌∷◌, ◌++◌, Option, none, some, arith, All, All-mono, All-append, All-of-append, In, In-All, inl,
  inr, ◌⊎◌, returns, ite, if_pos, if_neg, ℕ_discrete, Outcome, length, length-append, Bool-cases,
}
use wendy.Crypto.{Bytes, Pubkey, bytes_dec}
use wendy.Crypto.RoundTrip.{AreBytes}
use wendy.Types.{Hash, Tx, Vote}
use wendy.Txs.Valid.{IsValid, Other}
use wendy.Peer.{Error}
use wendy.Simulation.{
  Node, NodeRef, Message, node_tx, node_vote, same_key, handle_vote, handle_tx, node_add_tx,
  tx_messages, vote_messages,
}
use wendy.Simulation.Messages.{
  Pooled, Pooled-append_left, Pooled-last, IsVoteFor, tx_messages-In, tx_messages-All,
  vote_messages-All,
}
use wendy.Simulation.Handling.{handle_vote-Keeps, handle_tx-Floods, Floods}
use wendy.Simulation.Network.{
  Network, Step, Reach, update, handled, pool, Coming, Some, IsHonest, Invariant, IsFresh,
  Some-append_left, Some-append_right, Some-of-taken, Some-In, update-All, update_self,
}
use wendy.Simulation.Network.Flooding.{key_bytes}
use wendy.Simulation.Network.Spreading.{Gives, Gives-Invariant, pool-after}
use wendy.Simulation.Network.Quiet.{
  Joined, Reach-Pooled, IsVote, take_tx_Gives, take_vote_Gives, Reach-Invariant,
}
use wendy.Simulation.Network.Ending.Weight.{
  lack, lack-le, lack-drops, tx_count, tx_count-append, tx_count_votes, tx_count-tx_messages,
  IsVoteFor-IsVote, IsListed, IsClosed, weight,
}
use wendy.Simulation.Network.Ending.Drops.{pools_grow, weight_tx, weight_vote}

-- A run in which messages are taken and no transaction is added, with the number of transactions
-- that are taken.
pub data Deliveries (sum256 : Bytes → Hash) (t : Network) : ℕ → Network → Type 0 where
  done : Deliveries sum256 t 0 t
  tx_taken :
      {n : ℕ} {u : Network}
      → Deliveries sum256 t n u
      → (a now : ℕ) (tx : Tx) (from : Pubkey) (pre post : List Message) (r : Node × List Message)
      → u.in_flight ≡ pre ++ node_tx a tx from ∷ post
      → handle_tx sum256 now tx from (u.nodes a) ≡ returns r
      → Deliveries sum256 t (suc n) (handled u a r (pre ++ post))
  vote_taken :
      {n : ℕ} {u : Network}
      → Deliveries sum256 t n u
      → (a : ℕ) (v : Vote) (from : Pubkey) (pre post : List Message) (node : Node)
        (messages : List Message) (e : Option Error)
      → u.in_flight ≡ pre ++ node_vote a v from ∷ post
      → handle_vote sum256 v from (u.nodes a) ≡ returns (node, messages, e)
      → Deliveries sum256 t n (handled u a (node, messages) (pre ++ post))

-- All messages are votes, or one is a transaction.
tx_in_flight :
    (ms : List Message)
    → All IsVote ms
      ⊎ ((pre post : List Message) × (a : ℕ) × (tx : Tx) × (from : Pubkey) × (ms
            ≡ pre ++ node_tx a tx from ∷ post))
tx_in_flight [] = inl tt
tx_in_flight (node_tx a tx from ∷ ms) = inr ([], ms, a, tx, from, refl)
tx_in_flight (node_vote a v from ∷ ms) = elim (tx_in_flight ms) [
  | inl votes ↦ inl (tt, votes)
  | inr (pre, post, b, tx, by, split) ↦
      inr (node_vote a v from ∷ pre, post, b, tx, by, ap (λ l. node_vote a v from ∷ l) split)
]

module _ (sum256 : Bytes → Hash) (s : Network) (pairs : List (ℕ × Hash)) (closed : IsClosed s pairs)
    (t : Network) (fresh : IsFresh s) (start : Reach sum256 s t)
    (listed : All (IsListed pairs) t.in_flight) where
  -- In such a network, every run of deliveries, in any order of the messages, takes at most so
  -- many transactions as the weight of the state where it starts less that where it ends; it stays
  -- within the states that are reached, and the transactions in flight stay on the list
  pub Deliveries-weight :
      {n : ℕ} {u : Network}
      → Deliveries sum256 t n u
      → (n + weight s u pairs ≤ weight s t pairs)
        × Reach sum256 s u
        × All (IsListed pairs) u.in_flight
  Deliveries-weight Deliveries.done = (omega arith, start, listed)
  Deliveries-weight
        (Deliveries.tx_taken {n} {u} d a now tx from pre post (node, ms) split returned) =
      let (le, r, here) = Deliveries-weight d in
      let inv = Reach-Invariant sum256 s fresh r in
      let gives =
        take_tx_Gives sum256 s u fresh inv a now tx from pre post (node, ms) split returned in
      let (drop, listed') =
        weight_tx sum256 s pairs closed u fresh inv here a now tx from pre post node ms split
          returned gives in
      (
        omega (arith, le, drop),
        Reach.later r (Step.take_tx a now tx from pre post (node, ms) split returned),
        listed',
      )
  Deliveries-weight (Deliveries.vote_taken {n} {u} d a v from pre post node ms e split returned) =
      let (le, r, here) = Deliveries-weight d in
      let inv = Reach-Invariant sum256 s fresh r in
      let (bytes, gives) =
        take_vote_Gives sum256 s u fresh inv a v from pre post node ms e split returned in
      let (drop, listed') =
        weight_vote sum256 s pairs closed u fresh inv here a v from pre post node ms e split
          returned bytes gives in
      (
        omega (arith, le, drop),
        Reach.later r (Step.take_vote a v from pre post node ms e split returned),
        listed',
      )

  -- No pool loses a transaction.
  Deliveries-grow :
      (h : Hash) (a : ℕ) {n : ℕ} {u : Network}
      → Deliveries sum256 t n u
      → Pooled h (pool t a)
      → Pooled h (pool u a)
  Deliveries-grow h a Deliveries.done p = p
  Deliveries-grow h a
        (Deliveries.tx_taken {n} {u} d b now tx from pre post (node, ms) split returned) p =
      let (_, r, here) = Deliveries-weight d in
      let inv = Reach-Invariant sum256 s fresh r in
      let gives =
        take_tx_Gives sum256 s u fresh inv b now tx from pre post (node, ms) split returned in
      pools_grow sum256 s pairs closed u fresh inv here b node ms (pre ++ post) gives h a
        (Deliveries-grow h a d p)
  Deliveries-grow h a (Deliveries.vote_taken {n} {u} d b v from pre post node ms e split returned)
        p =
      let (_, r, here) = Deliveries-weight d in
      let inv = Reach-Invariant sum256 s fresh r in
      let (bytes, gives) =
        take_vote_Gives sum256 s u fresh inv b v from pre post node ms e split returned in
      pools_grow sum256 s pairs closed u fresh inv here b node ms (pre ++ post) gives h a
        (Deliveries-grow h a d p)

  -- Any transaction in flight can be taken, and that lowers the bound.
  take_one :
      (n : ℕ) (u : Network) (a : ℕ) (tx : Tx) (from : Pubkey) (pre post : List Message)
      → Deliveries sum256 t n u
      → u.in_flight ≡ pre ++ node_tx a tx from ∷ post
      → (u' : Network) × Deliveries sum256 t (suc n) u'
        × (suc (weight s u' pairs) ≤ weight s u pairs)
  take_one n u a tx from pre post d split =
      let (_, r, here) = Deliveries-weight d in
      let inv = Reach-Invariant sum256 s fresh r in
      let (node, ms, runs, _, _, _, _) =
        handle_tx-Floods sum256 0 tx from (u.nodes a) (key_bytes sum256 s u fresh inv a)
          (inv.valid a) in
      let gives = take_tx_Gives sum256 s u fresh inv a 0 tx from pre post (node, ms) split runs in
      let (drop, _) =
        weight_tx sum256 s pairs closed u fresh inv here a 0 tx from pre post node ms split runs
          gives in
      (
        handled u a (node, ms) (pre ++ post),
        Deliveries.tx_taken d a 0 tx from pre post (node, ms) split runs,
        drop,
      )

  quiet_after :
      (fuel n : ℕ) (u : Network)
      → Deliveries sum256 t n u
      → weight s u pairs ≤ fuel
      → (n' : ℕ) × (u' : Network) × Deliveries sum256 t n' u' × All IsVote u'.in_flight
  quiet_after zero n u d le = elim (tx_in_flight u.in_flight) [
    | inl quiet ↦ (n, u, d, quiet)
    | inr (pre, post, a, tx, from, split) ↦
        let (_, _, drop) = take_one n u a tx from pre post d split in absurd (omega (arith, drop))
  ]
  quiet_after (suc fuel) n u d le =
      let continue = quiet_after fuel in
      elim (tx_in_flight u.in_flight) [
        | inl quiet ↦ (n, u, d, quiet)
        | inr (pre, post, a, tx, from, split) ↦
            let (u', d', drop) = take_one n u a tx from pre post d split in
            continue (suc n) u' d' (omega (arith, drop))
      ]

  -- In a network of nodes whose keys are bytes and differ, which know their peers' keys and start
  -- with empty pools, and with a list of pairs of an address and a hash that holds those of all
  -- transactions in flight and with a pair those of the node's peers: from every state that is
  -- reached there is a run of deliveries, of at most so many transactions as the weight of the
  -- state (those in flight, and for each pair whose node lacks the transaction one more than its
  -- peers), after which no transaction is in flight
  pub Deliveries-IsVote :
      (n : ℕ) × (u : Network) × Deliveries sum256 t n u
      × (n ≤ weight s t pairs)
      × All IsVote u.in_flight
  Deliveries-IsVote =
      let (n, u, d, quiet) = quiet_after (weight s t pairs) 0 t Deliveries.done (omega arith) in
      let (le, _, _) = Deliveries-weight d in (n, u, d, omega (arith, le), quiet)

  -- In such a network, when a run of deliveries ends with no transaction in flight, every node
  -- that links to peers lead to from a node has, at the end, each transaction (by its hash) that
  -- this node had at the start of the run
  pub Deliveries-Pooled :
      (n : ℕ) (u : Network) (h : Hash) (a b : ℕ)
      → Deliveries sum256 t n u
      → All IsVote u.in_flight
      → Joined s a b
      → Pooled h (pool t a)
      → Pooled h (pool u b)
  Deliveries-Pooled n u h a b d quiet joined p =
      let (_, r, _) = Deliveries-weight d in
      Reach-Pooled sum256 fresh r h a b quiet joined (Deliveries-grow h a d p)
