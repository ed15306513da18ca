-- ===== src/Simulation/Network.antt =====
-- A network of nodes (simulation/node.go): each message is sent by a goroutine of its own, so any
-- message in flight may be the next that its receiver takes.
pub mod Spreading
pub mod Flooding
pub mod Quiet
pub mod Ending
use wendy.Common.{
  ℕ, ◌+◌, ◌≡◌, ◌≢◌, refl, ap, sym, ◌∙◌, subst, Bool, true, false, List, [], ◌∷◌, ◌++◌, Option, none,
  some, arith, All, All-mono, All-append, All-of-append, In, inl, inr, ◌⊎◌, returns, ite, if_pos,
  if_neg, ℕ_discrete, Outcome,
}
use wendy.Crypto.{Bytes, Pubkey, bytes_dec}
use wendy.Crypto.RoundTrip.{AreBytes}
use wendy.Types.{Hash, Tx, Vote}
use wendy.Txs.Valid.{IsValid, Other}
use wendy.Peer.{Error}
use wendy.Wendy
use wendy.Simulation.{
  Node, NodeRef, Message, node_tx, node_vote, same_key, handle_vote, handle_tx, node_add_tx,
}
use wendy.Simulation.Messages.{
  Pooled, Pooled-append_left, Pooled-last, IsVoteFor, tx_messages-In, tx_messages-All,
}
use wendy.Simulation.Handling.{handle_vote-Keeps, handle_tx-Floods, Floods}

-- The nodes by their address, and the messages that were sent and not taken.
pub record Network : Type 0 where
  pub nodes : ℕ → Node
  pub in_flight : List Message

unfoldable pub update : (ℕ → Node) → ℕ → Node → ℕ → Node
update nodes a node b = ite (ℕ_discrete a b) node (nodes b)

-- The node at the address after a handler, and the messages that it sent.
abbrev pub handled : Network → ℕ → Node × List Message → List Message → Network
handled s a (node, messages) waiting = record {
  nodes = update s.nodes a node;
  in_flight = waiting ++ messages;
}

-- One transaction is added at a node (`AddTx`), or one message is taken (`recvMsgs`). A step is a
-- whole handler: a call of `AddTx` while `recvMsgs` runs a handler of the node is left out.
pub data Step (sum256 : Bytes → Hash) (s : Network) : Network → Type 0 where
  add :
      (a now : ℕ) (tx : Tx) (r : Node × List Message)
      → node_add_tx sum256 now tx (s.nodes a) ≡ returns r
      → Step sum256 s (handled s a r s.in_flight)
  take_tx :
      (a now : ℕ) (tx : Tx) (from : Pubkey) (pre post : List Message) (r : Node × List Message)
      → s.in_flight ≡ pre ++ node_tx a tx from ∷ post
      → handle_tx sum256 now tx from (s.nodes a) ≡ returns r
      → Step sum256 s (handled s a r (pre ++ post))
  take_vote :
      (a : ℕ) (v : Vote) (from : Pubkey) (pre post : List Message) (node : Node)
      (messages : List Message) (e : Option Error)
      → s.in_flight ≡ pre ++ node_vote a v from ∷ post
      → handle_vote sum256 v from (s.nodes a) ≡ returns (node, messages, e)
      → Step sum256 s (handled s a (node, messages) (pre ++ post))

pub data Reach (sum256 : Bytes → Hash) (s : Network) : Network → Type 0 where
  start : Reach sum256 s s
  later : {t u : Network} → Reach sum256 s t → Step sum256 t u → Reach sum256 s u

-- A network before it runs: nothing is pooled or in flight, keys consist of bytes and tell nodes
-- apart, and a node knows its peers' keys.
pub record IsFresh (s : Network) : Type 0 where
  pub pools : (a : ℕ) → (s.nodes a).wendy.txs ≡ Wendy.new.txs
  pub nothing_sent : s.in_flight ≡ []
  pub keys : (a : ℕ) → AreBytes (s.nodes a).pub_key
  pub apart : (a b : ℕ) → same_key (s.nodes a).pub_key (s.nodes b).pub_key ≡ true → a ≡ b
  pub known :
      (a : ℕ) (r : NodeRef) → In r (s.nodes a).peers → r.pub_key ≡ (s.nodes r.address).pub_key

abbrev pub pool : Network → ℕ → List Tx
pool s a = (s.nodes a).wendy.txs.list

-- A message with the transaction is on its way to the node.
abbrev pub Coming : Hash → ℕ → Message → Type 0
Coming h a (node_tx b tx from) = (b ≡ a) × (tx.hash ≡ h)
Coming h a (node_vote b v from) = ⊥

abbrev pub Some : (Message → Type 0) → List Message → Type 0
Some P [] = ⊥
Some P (m ∷ ms) = P m ⊎ Some P ms

-- The sender of a transaction has it, and votes carry keys of bytes.
abbrev pub IsHonest : Network → Message → Type 0
IsHonest s (node_tx b tx from) = (a : ℕ) × (from ≡ (s.nodes a).pub_key) × Pooled tx.hash (pool s a)
IsHonest s (node_vote b v from) = AreBytes v.pubkey

pub record Invariant (s t : Network) : Type 0 where
  pub same_keys : (a : ℕ) → (t.nodes a).pub_key ≡ (s.nodes a).pub_key
  pub same_peers : (a : ℕ) → (t.nodes a).peers ≡ (s.nodes a).peers
  pub valid : (a : ℕ) → IsValid (t.nodes a).wendy.txs
  pub honest : All (IsHonest t) t.in_flight
  -- What a node has, each of its peers has or is sent.
  pub spread :
      (a : ℕ) (h : Hash) (r : NodeRef)
      → Pooled h (pool t a)
      → In r (s.nodes a).peers
      → Pooled h (pool t r.address) ⊎ Some (Coming h r.address) t.in_flight

pub Some-append_left : (P : Message → Type 0) (xs ys : List Message) → Some P xs → Some P (xs ++ ys)
Some-append_left P [] ys h = elim h [ ]
Some-append_left P (x ∷ xs) ys (inl e) = inl e
Some-append_left P (x ∷ xs) ys (inr h) = inr (Some-append_left P xs ys h)

pub Some-append_right :
    (P : Message → Type 0) (xs ys : List Message) → Some P ys → Some P (xs ++ ys)
Some-append_right P [] ys h = h
Some-append_right P (x ∷ xs) ys h = inr (Some-append_right P xs ys h)

-- A message that is not taken is still there.
pub Some-of-taken :
    (P : Message → Type 0) (pre post : List Message) (m : Message)
    → Some P (pre ++ m ∷ post)
    → P m ⊎ Some P (pre ++ post)
Some-of-taken P [] post m (inl e) = inl e
Some-of-taken P [] post m (inr h) = inr h
Some-of-taken P (x ∷ pre) post m (inl e) = inr (inl e)
Some-of-taken P (x ∷ pre) post m (inr h) = elim (Some-of-taken P pre post m h) [
  | inl e ↦ inl e
  | inr rest ↦ inr (inr rest)
]

pub Some-In : (P : Message → Type 0) (m : Message) (ms : List Message) → P m → In m ms → Some P ms
Some-In P m [] p i = elim i [ ]
Some-In P m (x ∷ ms) p (inl e) = inl (subst P e p)
Some-In P m (x ∷ ms) p (inr i) = inr (Some-In P m ms p i)

pub update-All :
    (P : ℕ → Node → Type 0) (nodes : ℕ → Node) (a : ℕ) (node : Node)
    → P a node
    → ((b : ℕ) → P b (nodes b))
    → (b : ℕ) → P b (update nodes a node b)
unfolding update
update-All P nodes a node here other b = elim (ℕ_discrete a b) [
  | yes e ↦ rw (if_pos _ e) (subst (λ k. P k node) e here)
  | no d ↦ rw (if_neg _ d) (other b)
]

pub update_self : (nodes : ℕ → Node) (a : ℕ) (node : Node) → update nodes a node a ≡ node
unfolding update
update_self nodes a node = if_pos (ℕ_discrete a a) refl node (nodes a)
