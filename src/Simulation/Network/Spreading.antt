-- ===== src/Simulation/Network/Spreading.antt =====
-- What a handler must give so that transactions spread (simulation/node.go).
use wendy.Common.{ℕ, ◌≡◌, refl, sym, ◌∙◌, subst, List, All, All-mono, All-append, In, inl, inr, ◌⊎◌}
use wendy.Types.{Hash}
use wendy.Txs.Valid.{IsValid}
use wendy.Simulation.{Node, NodeRef, Message, node_tx, node_vote}
use wendy.Simulation.Messages.{Pooled}
use wendy.Simulation.Network.{
  Network, handled, pool, Coming, Some, IsHonest, Invariant, Some-append_left, Some-append_right,
  update-All,
}

-- What a handler at the node `a` must give, to keep the invariant.
module _ (t : Network) (a : ℕ) (node : Node) (messages waiting : List Message) where
  abbrev pub after : Network
  after = handled t a (node, messages) waiting

  pub record Gives : Type 0 where
    pub key : node.pub_key ≡ (t.nodes a).pub_key
    pub peers : node.peers ≡ (t.nodes a).peers
    pub valid : IsValid node.wendy.txs
    pub grows : (h : Hash) → Pooled h (pool t a) → Pooled h node.wendy.txs.list
    pub waits : All (IsHonest t) waiting
    pub honest : All (IsHonest after) messages
    -- What was coming is still coming, or has come.
    pub taken :
        (h : Hash) (b : ℕ)
        → Some (Coming h b) t.in_flight
        → Pooled h (pool after b) ⊎ Some (Coming h b) waiting
    -- What is new at the node is sent to its peers, or they have it.
    pub sent :
        (h : Hash) (r : NodeRef)
        → Pooled h node.wendy.txs.list
        → In r (t.nodes a).peers
        → Pooled h (pool t a) ⊎ Pooled h (pool after r.address) ⊎ Some (Coming h r.address) messages

  pub pool-after :
      (h : Hash)
      → (Pooled h (pool t a) → Pooled h node.wendy.txs.list)
      → (b : ℕ) → Pooled h (pool t b)
      → Pooled h (pool after b)
  pool-after h grows =
      update-All (λ b n. Pooled h (pool t b) → Pooled h n.wendy.txs.list) t.nodes a node grows
        (λ b p. p)

  keys-after : Gives → (b : ℕ) → (after.nodes b).pub_key ≡ (t.nodes b).pub_key
  keys-after g =
      update-All (λ b n. n.pub_key ≡ (t.nodes b).pub_key) t.nodes a node g.key (λ b. refl)

  IsHonest-after : Gives → (m : Message) → IsHonest t m → IsHonest after m
  IsHonest-after g (node_tx b tx from) (o, own, has) =
      (o, own ∙ sym (keys-after g o), pool-after tx.hash (g.grows tx.hash) o has)
  IsHonest-after g (node_vote b v from) bytes = bytes

  module _ (s : Network) where
    spread-old :
        Gives
        → Invariant s t
        → (b : ℕ) (h : Hash) (r : NodeRef) → Pooled h (pool t b)
        → In r (s.nodes b).peers
        → Pooled h (pool after r.address) ⊎ Some (Coming h r.address) after.in_flight
    spread-old g inv b h r has peer = elim (inv.spread b h r has peer) [
      | inl there ↦ inl (pool-after h (g.grows h) r.address there)
      | inr coming ↦ elim (g.taken h r.address coming) [
        | inl there ↦ inl there
        | inr still ↦ inr (Some-append_left (Coming h r.address) waiting messages still)
      ]
    ]

    spread-here :
        Gives
        → Invariant s t
        → (h : Hash) (r : NodeRef) → Pooled h node.wendy.txs.list
        → In r (s.nodes a).peers
        → Pooled h (pool after r.address) ⊎ Some (Coming h r.address) after.in_flight
    spread-here g inv h r has peer =
        elim (g.sent h r has (subst (In r) (sym (inv.same_peers a)) peer)) [
          | inl old ↦ spread-old g inv a h r old peer
          | inr new ↦ elim new [
            | inl there ↦ inl there
            | inr coming ↦ inr (Some-append_right (Coming h r.address) waiting messages coming)
          ]
        ]

    pub Gives-Invariant : Gives → Invariant s t → Invariant s after
    Gives-Invariant g inv = record {
      same_keys = λ b. keys-after g b ∙ inv.same_keys b;
      same_peers =
          update-All (λ b n. n.peers ≡ (s.nodes b).peers) t.nodes a node
            (g.peers ∙ inv.same_peers a) inv.same_peers;
      valid = update-All (λ b n. IsValid n.wendy.txs) t.nodes a node g.valid inv.valid;
      honest =
          All-append (IsHonest after) waiting messages
            (All-mono waiting (λ m h. IsHonest-after g m h) g.waits) g.honest;
      spread =
          update-All
            (λ b n.
              (h : Hash) (r : NodeRef)
              → Pooled h n.wendy.txs.list
              → In r (s.nodes b).peers
              → Pooled h (pool after r.address) ⊎ Some (Coming h r.address) after.in_flight)
            t.nodes a node (spread-here g inv) (spread-old g inv);
    }
