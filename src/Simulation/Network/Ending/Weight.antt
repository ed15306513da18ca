-- ===== src/Simulation/Network/Ending/Weight.antt =====
-- A bound on the transactions that are still taken, from those in flight and those that nodes lack (simulation/node.go).
use wendy.Common.{
  ℕ, suc, ◌+◌, ◌≤◌, ◌≡◌, refl, subst, List, [], ◌∷◌, ◌++◌, arith, All, In, inl, inr, ite, if_pos,
  if_neg, length, Bool-cases,
}
use wendy.Crypto.{Pubkey, bytes_dec}
use wendy.Types.{Hash, Tx}
use wendy.Simulation.{NodeRef, Message, node_tx, node_vote, same_key, tx_messages}
use wendy.Simulation.Messages.{Pooled, IsVoteFor}
use wendy.Simulation.Network.{Network, pool}
use wendy.Simulation.Network.Quiet.{IsVote}

unfoldable pub Pooled_dec : (h : Hash) (txs : List Tx) → Dec (Pooled h txs)
Pooled_dec h [] = no (λ p. p)
Pooled_dec h (tx ∷ txs) = elim (bytes_dec tx.hash h) [
  | yes e ↦ yes (inl e)
  | no d ↦ elim (Pooled_dec h txs) [
    | yes p ↦ yes (inr p)
    | no q ↦ no (λ r. elim r [ inl e ↦ d e | inr p ↦ q p ])
  ]
]

-- What a node that lacks a transaction may still send, and the message that brings it.
unfoldable pub cost : (ℕ → ℕ) → (ℕ → List Tx) → ℕ × Hash → ℕ
cost degree pools (a, h) = ite (Pooled_dec h (pools a)) 0 (suc (degree a))

unfoldable pub lack : (ℕ → ℕ) → (ℕ → List Tx) → List (ℕ × Hash) → ℕ
lack degree pools [] = 0
lack degree pools (pair ∷ pairs) = cost degree pools pair + lack degree pools pairs

module _ (degree : ℕ → ℕ) (pools pools' : ℕ → List Tx)
    (grows : (h : Hash) (a : ℕ) → Pooled h (pools a) → Pooled h (pools' a)) where
  cost-le : (pair : ℕ × Hash) → cost degree pools' pair ≤ cost degree pools pair
  unfolding cost
  cost-le (a, h) = elim (Pooled_dec h (pools a)) [
    | yes p ↦ rw (if_pos (Pooled_dec h (pools' a)) (grows h a p)) (omega arith)
    | no q ↦ rw (if_neg (Pooled_dec h (pools a)) q) (elim (Pooled_dec h (pools' a)) [
      | yes p ↦ rw (if_pos (Pooled_dec h (pools' a)) p) (omega arith)
      | no q' ↦ rw (if_neg (Pooled_dec h (pools' a)) q') (omega arith)
    ])
  ]

  pub lack-le : (pairs : List (ℕ × Hash)) → lack degree pools' pairs ≤ lack degree pools pairs
  unfolding lack
  lack-le [] = omega arith
  lack-le (pair ∷ pairs) = omega (arith, cost-le pair, lack-le pairs)

  cost-drops :
      (a : ℕ) (h : Hash)
      → ¬ Pooled h (pools a)
      → Pooled h (pools' a)
      → cost degree pools' (a, h) + suc (degree a) ≤ cost degree pools (a, h)
  unfolding cost
  cost-drops a h absent there =
      rw (if_pos (Pooled_dec h (pools' a)) there, if_neg (Pooled_dec h (pools a)) absent)
        (omega arith)

  pub lack-drops :
      (a : ℕ) (h : Hash) (pairs : List (ℕ × Hash))
      → In (a, h) pairs
      → ¬ Pooled h (pools a)
      → Pooled h (pools' a)
      → lack degree pools' pairs + suc (degree a) ≤ lack degree pools pairs
  unfolding lack
  lack-drops a h [] i absent there = elim i [ ]
  lack-drops a h (pair ∷ pairs) (inl e) absent there =
      let drop =
        subst (λ q. cost degree pools' q + suc (degree a) ≤ cost degree pools q) e
          (cost-drops a h absent there) in
      omega (arith, drop, lack-le pairs)
  lack-drops a h (pair ∷ pairs) (inr i) absent there =
      omega (arith, cost-le pair, lack-drops a h pairs i absent there)

-- The transactions in flight.
unfoldable pub tx_count : List Message → ℕ
tx_count [] = 0
tx_count (node_tx a tx from ∷ ms) = suc (tx_count ms)
tx_count (node_vote a v from ∷ ms) = tx_count ms

pub tx_count-append : (xs ys : List Message) → tx_count (xs ++ ys) ≡ tx_count xs + tx_count ys
unfolding tx_count
tx_count-append [] ys = omega arith
tx_count-append (node_tx a tx from ∷ xs) ys = omega (arith, tx_count-append xs ys)
tx_count-append (node_vote a v from ∷ xs) ys = tx_count-append xs ys

pub tx_count_votes : (ms : List Message) → All IsVote ms → tx_count ms ≡ 0
unfolding tx_count
tx_count_votes [] q = refl
tx_count_votes (node_tx a tx from ∷ ms) q = absurd q.0
tx_count_votes (node_vote a v from ∷ ms) q = tx_count_votes ms q.1

pub tx_count-tx_messages :
    (tx : Tx) (from me : Pubkey) (peers : List NodeRef)
    → tx_count (tx_messages tx from me peers) ≤ length peers
unfolding tx_count tx_messages
tx_count-tx_messages tx from me [] = omega arith
tx_count-tx_messages tx from me (p ∷ peers) = elim (Bool-cases (same_key from p.pub_key)) [
  | inl skipped ↦ rw (skipped, tx_messages) (omega (arith, tx_count-tx_messages tx from me peers))
  | inr other ↦ rw (other, tx_messages) (omega (arith, tx_count-tx_messages tx from me peers))
]

pub IsVoteFor-IsVote : (h : Hash) (me : Pubkey) (m : Message) → IsVoteFor h me m → IsVote m
IsVoteFor-IsVote h me (node_tx a tx from) v = v
IsVoteFor-IsVote h me (node_vote a v from) _ = tt

-- The address and the hash of a transaction in flight are in the list.
abbrev pub IsListed : List (ℕ × Hash) → Message → Type 0
IsListed pairs (node_tx a tx from) = In (a, tx.hash) pairs
IsListed pairs (node_vote a v from) = Unit

-- With a pair of an address and a hash the list has the pairs of its peers.
abbrev pub IsClosed : Network → List (ℕ × Hash) → Type 0
IsClosed s pairs =
    (a : ℕ) (h : Hash) (r : NodeRef)
    → In (a, h) pairs
    → In r (s.nodes a).peers
    → In (r.address, h) pairs

-- The transactions in flight, and those that the nodes which lack them may send, where the nodes
-- have the peers of `s`.
unfoldable pub weight : Network → Network → List (ℕ × Hash) → ℕ
weight s t pairs = tx_count t.in_flight + lack (λ a. length (s.nodes a).peers) (pool t) pairs
