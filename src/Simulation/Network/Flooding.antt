-- ===== src/Simulation/Network/Flooding.antt =====
-- The handlers of a node, as far as they make transactions spread (simulation/node.go).
use wendy.Common.{
  ℕ, ◌≡◌, refl, ap, sym, ◌∙◌, subst, true, List, [], ◌∷◌, ◌++◌, All, All-mono, All-append, In, inl,
  inr, ◌⊎◌,
}
use wendy.Crypto.{Bytes, Pubkey}
use wendy.Crypto.RoundTrip.{AreBytes}
use wendy.Types.{Hash, Tx}
use wendy.Txs.Valid.{IsValid}
use wendy.Simulation.{tx_messages, Node, NodeRef, Message, node_tx, node_vote, same_key}
use wendy.Simulation.Messages.{
  Pooled, Pooled-append_left, Pooled-last, IsVoteFor, tx_messages-In, tx_messages-All,
}
use wendy.Simulation.Network.{
  Network, handled, pool, Coming, Some, IsHonest, Invariant, IsFresh, Some-append_left, Some-In,
  update_self,
}
use wendy.Simulation.Network.Spreading.{Gives, pool-after}

Pooled-of-append :
    (h : Hash) (txs : List Tx) (tx : Tx) → Pooled h (txs ++ tx ∷ []) → Pooled h txs ⊎ (tx.hash ≡ h)
Pooled-of-append h [] tx (inl e) = inr e
Pooled-of-append h [] tx (inr p) = elim p [ ]
Pooled-of-append h (t ∷ txs) tx (inl e) = inl (inl e)
Pooled-of-append h (t ∷ txs) tx (inr p) = elim (Pooled-of-append h txs tx p) [
  | inl old ↦ inl (inr old)
  | inr new ↦ inr new
]

module _ (sum256 : Bytes → Hash) (s t : Network) (fresh : IsFresh s) (inv : Invariant s t) where
  pub key_bytes : (a : ℕ) → AreBytes (t.nodes a).pub_key
  key_bytes a = subst AreBytes (sym (inv.same_keys a)) (fresh.keys a)

  -- A peer that has the key of a node is that node.
  same_node :
      (o b : ℕ) (r : NodeRef) (from : Pubkey)
      → from ≡ (t.nodes o).pub_key
      → In r (t.nodes b).peers
      → same_key from r.pub_key ≡ true
      → o ≡ r.address
  same_node o b r from own peer same =
      let known = fresh.known b r (subst (In r) (inv.same_peers b) peer) in
      fresh.apart o r.address (
        subst (λ k. same_key k (s.nodes r.address).pub_key ≡ true) (own ∙ inv.same_keys o)
          (subst (λ k. same_key from k ≡ true) known same))

  module _ (a : ℕ) (tx : Tx) (from : Pubkey) (waiting : List Message) (o : ℕ)
      (own : from ≡ (t.nodes o).pub_key) (has : Pooled tx.hash (pool t o) ⊎ (o ≡ a))
      (waits : All (IsHonest t) waiting)
      (taken : (h : Hash) (b : ℕ)
        → Some (Coming h b) t.in_flight
        → Coming h b (node_tx a tx from) ⊎ Some (Coming h b) waiting)
      (node : Node) (messages : List Message) (key : node.pub_key ≡ (t.nodes a).pub_key)
      (peers : node.peers ≡ (t.nodes a).peers) (valid : IsValid node.wendy.txs) where
    abbrev pub after : Network
    after = handled t a (node, messages) waiting

    pool_here : (h : Hash) → Pooled h node.wendy.txs.list → Pooled h (pool after a)
    pool_here h p = subst (λ n. Pooled h n.wendy.txs.list) (sym (update_self t.nodes a node)) p

    taken_after :
        Pooled tx.hash node.wendy.txs.list
        → (h : Hash) (b : ℕ) → Some (Coming h b) t.in_flight
        → Pooled h (pool after b) ⊎ Some (Coming h b) waiting
    taken_after here h b coming = elim (taken h b coming) [
      | inl (same, hash) ↦ inl (
          subst (λ c. Pooled h (pool after c)) same
            (pool_here h (subst (λ k. Pooled k node.wendy.txs.list) hash here)))
      | inr still ↦ inr still
    ]

    -- The node has the transaction already.
    pub known_Gives :
        Pooled tx.hash (pool t a)
        → node ≡ t.nodes a
        → messages ≡ []
        → Gives t a node messages waiting
    known_Gives old same nothing =
        let lists = ap (λ n. n.wendy.txs.list) same in
        record {
          key = key;
          peers = peers;
          valid = valid;
          grows = λ h p. subst (Pooled h) (sym lists) p;
          waits = waits;
          honest = subst (All (IsHonest after)) (sym nothing) tt;
          taken = taken_after (subst (Pooled tx.hash) (sym lists) old);
          sent = λ h r p peer. inl (subst (Pooled h) lists p);
        }

    IsVoteFor-IsHonest : (m : Message) → IsVoteFor tx.hash (t.nodes a).pub_key m → IsHonest after m
    IsVoteFor-IsHonest (node_tx b tx' by) v = elim v [ ]
    IsVoteFor-IsHonest (node_vote b v by) (_, voter, _) = subst AreBytes (sym voter) (key_bytes a)

    module _ (last : node.wendy.txs.list ≡ pool t a ++ tx ∷ []) (votes : List Message)
        (all : messages ≡ tx_messages tx from (t.nodes a).pub_key (t.nodes a).peers ++ votes)
        (mine : All (IsVoteFor tx.hash (t.nodes a).pub_key) votes) where
      grows : (h : Hash) → Pooled h (pool t a) → Pooled h node.wendy.txs.list
      grows h p = subst (Pooled h) (sym last) (Pooled-append_left h (pool t a) (tx ∷ []) p)

      here : Pooled tx.hash node.wendy.txs.list
      here = subst (Pooled tx.hash) (sym last) (Pooled-last (pool t a) tx)

      sender_has : Pooled tx.hash (pool after o)
      sender_has = elim has [
        | inl there ↦ pool-after t a node messages waiting tx.hash (grows tx.hash) o there
        | inr same ↦ subst (λ c. Pooled tx.hash (pool after c)) (sym same) (pool_here tx.hash here)
      ]

      new_sent :
          (r : NodeRef)
          → In r (t.nodes a).peers
          → Pooled tx.hash (pool after r.address) ⊎ Some (Coming tx.hash r.address) messages
      new_sent r peer =
          let me = (t.nodes a).pub_key in
          let m = node_tx r.address tx me in
          elim (tx_messages-In tx from me (t.nodes a).peers r peer) [
            | inl same ↦ inl (
                subst (λ c. Pooled tx.hash (pool after c)) (same_node o a r from own peer same)
                  sender_has)
            | inr sent ↦ inr (
                subst (Some (Coming tx.hash r.address)) (sym all) (
                  Some-append_left (Coming tx.hash r.address)
                    (tx_messages tx from me (t.nodes a).peers) votes
                    (Some-In (Coming tx.hash r.address) m _ (refl, refl) sent)))
          ]

      messages-IsHonest : All (IsHonest after) messages
      messages-IsHonest =
          let me = (t.nodes a).pub_key in
          let own_key = ap (λ n. n.pub_key) (update_self t.nodes a node) ∙ key in
          subst (All (IsHonest after)) (sym all) (
            All-append (IsHonest after) (tx_messages tx from me (t.nodes a).peers) votes
              (tx_messages-All tx from me (t.nodes a).peers (IsHonest after)
                (λ r _ _. (a, sym own_key, pool_here tx.hash here)))
              (All-mono votes (λ m v. IsVoteFor-IsHonest m v) mine))

      pub flood_Gives : Gives t a node messages waiting
      flood_Gives = record {
        key = key;
        peers = peers;
        valid = valid;
        grows = grows;
        waits = waits;
        honest = messages-IsHonest;
        taken = taken_after here;
        sent = λ h r p peer. elim (Pooled-of-append h (pool t a) tx (subst (Pooled h) last p)) [
          | inl old ↦ inl old
          | inr hash ↦ inr (
              subst (λ k. Pooled k (pool after r.address) ⊎ Some (Coming k r.address) messages) hash
                (new_sent r peer))
        ];
      }
