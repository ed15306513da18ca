-- ===== src/Simulation/Messages.antt =====
-- The pool of a node by hashes, and the messages of its handlers (simulation/node.go).
use wendy.Common.{
  ◌≡◌, refl, ap, ◌∙◌, true, false, ◌||◌, List, [], ◌∷◌, ◌++◌, arith, All, In, inl, inr, ◌⊎◌,
  Bool-cases,
}
use wendy.Crypto.{Pubkey, bytes_dec}
use wendy.Types.{Hash, Tx, Vote}
use wendy.Txs.Valid.{Other}
use wendy.Simulation.{NodeRef, Message, node_tx, node_vote, same_key, tx_messages, vote_messages}

-- A transaction with the hash is in the list.
abbrev pub Pooled : Hash → List Tx → Type 0
Pooled h [] = ⊥
Pooled h (tx ∷ txs) = (tx.hash ≡ h) ⊎ Pooled h txs

pub Pooled-of-Other : (h : Hash) (txs : List Tx) → ¬ Other h txs → Pooled h txs
Pooled-of-Other h [] n = absurd (n tt)
Pooled-of-Other h (tx ∷ txs) n = elim (bytes_dec tx.hash h) [
  | yes e ↦ inl e
  | no d ↦ inr (Pooled-of-Other h txs (λ o. n (d, o)))
]

pub Pooled-append_left : (h : Hash) (txs more : List Tx) → Pooled h txs → Pooled h (txs ++ more)
Pooled-append_left h [] more p = elim p [ ]
Pooled-append_left h (tx ∷ txs) more (inl e) = inl e
Pooled-append_left h (tx ∷ txs) more (inr p) = inr (Pooled-append_left h txs more p)

pub Pooled-last : (txs : List Tx) (tx : Tx) → Pooled tx.hash (txs ++ tx ∷ [])
Pooled-last [] tx = inl refl
Pooled-last (t ∷ txs) tx = inr (Pooled-last txs tx)

-- A message with a vote of the node with the key for the transaction with the hash, sent by that node.
abbrev pub IsVoteFor : Hash → Pubkey → Message → Type 0
IsVoteFor h key (node_tx a tx from) = ⊥
IsVoteFor h key (node_vote a v from) = (v.tx_hash ≡ h) × (v.pubkey ≡ key) × (from ≡ key)

-- Each peer is the sender, or is sent the transaction.
pub tx_messages-In :
    (tx : Tx) (from me : Pubkey) (peers : List NodeRef) (r : NodeRef)
    → In r peers
    → (same_key from r.pub_key ≡ true) ⊎ In (node_tx r.address tx me) (tx_messages tx from me peers)
unfolding tx_messages
tx_messages-In tx from me [] r i = elim i [ ]
tx_messages-In tx from me (p ∷ peers) r (inl e) = elim (Bool-cases (same_key from p.pub_key)) [
  | inl same ↦ inl (ap (λ t. same_key from t.pub_key) e ∙ same)
  | inr other ↦ inr (rw (other, tx_messages) (inl (ap (λ t. node_tx t.address tx me) e)))
]
tx_messages-In tx from me (p ∷ peers) r (inr i) = elim (tx_messages-In tx from me peers r i) [
  | inl same ↦ inl same
  | inr sent ↦ inr (elim (Bool-cases (same_key from p.pub_key)) [
    | inl skipped ↦ rw (skipped, tx_messages) sent
    | inr other ↦ rw (other, tx_messages) (inr sent)
  ])
]

-- The messages of a transaction are sent to peers that are not the sender.
pub tx_messages-All :
    (tx : Tx) (from me : Pubkey) (peers : List NodeRef) (P : Message → Type 0)
    → ((r : NodeRef) → In r peers → same_key from r.pub_key ≡ false → P (node_tx r.address tx me))
    → All P (tx_messages tx from me peers)
unfolding tx_messages
tx_messages-All tx from me [] P h = tt
tx_messages-All tx from me (p ∷ peers) P h =
    let rest = tx_messages-All tx from me peers P (λ r i d. h r (inr i) d) in
    elim (Bool-cases (same_key from p.pub_key)) [
      | inl skipped ↦ rw (skipped, tx_messages) rest
      | inr other ↦ rw (other, tx_messages) (h p (inl refl) other, rest)
    ]

-- The messages of a vote are sent to peers that are neither the sender nor the voter.
pub vote_messages-All :
    (v : Vote) (from me : Pubkey) (peers : List NodeRef) (P : Message → Type 0)
    → ((r : NodeRef)
        → same_key from r.pub_key ≡ false
        → same_key v.pubkey r.pub_key ≡ false
        → P (node_vote r.address v me))
    → All P (vote_messages v from me peers)
unfolding vote_messages
vote_messages-All v from me [] P h = tt
vote_messages-All v from me (p ∷ peers) P h =
    elim (Bool-cases (same_key from p.pub_key || same_key v.pubkey p.pub_key)) [
      | inl skipped ↦ rw (skipped, vote_messages) (vote_messages-All v from me peers P h)
      | inr other ↦
          rw (other, vote_messages)
            (h p (ground arith) (ground arith), vote_messages-All v from me peers P h)
    ]
