-- ===== src/Simulation/Network/Quiet.antt =====
-- Runs of the network: its handlers, and the states in which no transaction is in flight
-- (simulation/node.go).
use wendy.Common.{
  ℕ, ◌≡◌, refl, ap, sym, subst, List, [], ◌∷◌, ◌++◌, Option, All, All-append, All-of-append, In,
  inl, inr, ◌⊎◌, returns,
}
use wendy.Crypto.{Bytes, Pubkey}
use wendy.Crypto.RoundTrip.{AreBytes}
use wendy.Types.{Hash, Tx, Vote}
use wendy.Txs.Valid.{reset-IsValid, IsValid}
use wendy.Peer.{Error}
use wendy.Wendy
use wendy.Txs.{push_all, reset}
use wendy.Simulation.{
  Node, NodeRef, Message, node_tx, node_vote, handle_vote, handle_tx, node_add_tx,
}
use wendy.Simulation.Messages.{vote_messages-All, Pooled}
use wendy.Simulation.Handling.{handle_vote-Keeps, handle_tx-Floods}
use wendy.Simulation.Network.{
  Step, Reach, Network, handled, pool, Coming, Some, IsHonest, Invariant, IsFresh, Some-of-taken,
}
use wendy.Simulation.Network.Spreading.{Gives, Gives-Invariant}
use wendy.Simulation.Network.Flooding.{known_Gives, flood_Gives, key_bytes}

module _ (sum256 : Bytes → Hash) (s t : Network) (fresh : IsFresh s) (inv : Invariant s t) where
  tx_Gives :
      (a now : ℕ) (tx : Tx) (from : Pubkey) (waiting : List Message) (o : ℕ)
      → from ≡ (t.nodes o).pub_key
      → Pooled tx.hash (pool t o) ⊎ (o ≡ a)
      → All (IsHonest t) waiting
      → ((h : Hash) (b : ℕ)
          → Some (Coming h b) t.in_flight
          → Coming h b (node_tx a tx from) ⊎ Some (Coming h b) waiting)
      → (r : Node × List Message) → handle_tx sum256 now tx from (t.nodes a) ≡ returns r
      → Gives t a r.0 r.1 waiting
  tx_Gives a now tx from waiting o own has waits taken r done =
      let (n, m, runs, key, peers, valid, cases) =
        handle_tx-Floods sum256 now tx from (t.nodes a) (key_bytes sum256 s t fresh inv a)
          (inv.valid a) in
      let same : ◌≡◌ {A = Node × List Message} (n, m) r = cc in
      subst (λ (q : Node × List Message). Gives t a q.0 q.1 waiting) same
        (elim cases [
          | inl (old, kept, nothing) ↦
              known_Gives sum256 s t fresh inv a tx from waiting o own has waits taken n m key peers
                valid old kept nothing
          | inr (_, (last, votes, all, mine)) ↦
              flood_Gives sum256 s t fresh inv a tx from waiting o own has waits taken n m key peers
                valid last votes all mine
        ])

  vote_Gives :
      (a : ℕ) (v : Vote) (from : Pubkey) (waiting : List Message)
      → AreBytes v.pubkey
      → All (IsHonest t) waiting
      → ((h : Hash) (b : ℕ)
          → Some (Coming h b) t.in_flight
          → Coming h b (node_vote a v from) ⊎ Some (Coming h b) waiting)
      → (n : Node) (m : List Message) (e : Option Error)
      → handle_vote sum256 v from (t.nodes a) ≡ returns (n, m, e)
      → Gives t a n m waiting
  vote_Gives a v from waiting bytes waits taken n m e done =
      let (w', added, e', n', m', _, runs, _, (key, peers, pooled, _, _), cases) =
        handle_vote-Keeps sum256 v from (t.nodes a) bytes in
      let after : Network = handled t a (n', m') waiting in
      let same : ◌≡◌ {A = Node × List Message × Option Error} (n', m', e') (n, m, e) = cc in
      let gives : Gives t a n' m' waiting = record {
        key = key;
        peers = peers;
        valid = subst IsValid (sym pooled) (inv.valid a);
        grows = λ h p. subst (λ q. Pooled h q.list) (sym pooled) p;
        waits = waits;
        honest = elim cases [
          | inl (_, _, all) ↦ subst (All (IsHonest after)) (sym all) (
              vote_messages-All v from (t.nodes a).pub_key (t.nodes a).peers (IsHonest after)
                (λ r _ _. bytes))
          | inr (_, nothing) ↦ subst (All (IsHonest after)) (sym nothing) tt
        ];
        taken = λ h b coming. elim (taken h b coming) [
          | inl no_tx ↦ absurd no_tx
          | inr still ↦ inr still
        ];
        sent = λ h r p peer. inl (subst (λ q. Pooled h q.list) pooled p);
      } in
      subst (λ (q : Node × List Message × Option Error). Gives t a q.0 q.1 waiting) same gives

  -- The messages that stay in flight, once one is taken.
  pub waits_of :
      (pre post : List Message) (m : Message)
      → t.in_flight ≡ pre ++ m ∷ post
      → All (IsHonest t) (pre ++ post) × IsHonest t m
  waits_of pre post m split =
      let (before, rest) =
        All-of-append (IsHonest t) pre (m ∷ post) (subst (All (IsHonest t)) split inv.honest) in
      (All-append (IsHonest t) pre post before rest.1, rest.0)

  taken_of :
      (pre post : List Message) (m : Message)
      → t.in_flight ≡ pre ++ m ∷ post
      → (h : Hash) (b : ℕ) → Some (Coming h b) t.in_flight
      → Coming h b m ⊎ Some (Coming h b) (pre ++ post)
  taken_of pre post m split h b c =
      Some-of-taken (Coming h b) pre post m (subst (Some (Coming h b)) split c)

  pub take_tx_Gives :
      (a now : ℕ) (tx : Tx) (from : Pubkey) (pre post : List Message) (r : Node × List Message)
      → t.in_flight ≡ pre ++ node_tx a tx from ∷ post
      → handle_tx sum256 now tx from (t.nodes a) ≡ returns r
      → Gives t a r.0 r.1 (pre ++ post)
  take_tx_Gives a now tx from pre post r split returned =
      let m = node_tx a tx from in
      let (waits, (o, own, has)) = waits_of pre post m split in
      tx_Gives a now tx from (pre ++ post) o own (inl has) waits (taken_of pre post m split) r
        returned

  -- A vote that is taken.
  pub take_vote_Gives :
      (a : ℕ) (v : Vote) (from : Pubkey) (pre post : List Message) (n : Node) (ms : List Message)
      (e : Option Error)
      → t.in_flight ≡ pre ++ node_vote a v from ∷ post
      → handle_vote sum256 v from (t.nodes a) ≡ returns (n, ms, e)
      → AreBytes v.pubkey × Gives t a n ms (pre ++ post)
  take_vote_Gives a v from pre post n ms e split returned =
      let m = node_vote a v from in
      let (waits, bytes) = waits_of pre post m split in
      (
        bytes,
        vote_Gives a v from (pre ++ post) bytes waits (taken_of pre post m split) n ms e returned,
      )

  Step-Invariant : {u : Network} → Step sum256 t u → Invariant s u
  unfolding node_add_tx
  Step-Invariant (Step.add a now tx r done) =
      let key = (t.nodes a).pub_key in
      let gives =
        tx_Gives a now tx key t.in_flight a refl (inr refl) inv.honest (λ h b c. inr c) r done in
      Gives-Invariant t a r.0 r.1 t.in_flight s gives inv
  Step-Invariant (Step.take_tx a now tx from pre post r split done) =
      Gives-Invariant t a r.0 r.1 (pre ++ post) s
        (take_tx_Gives a now tx from pre post r split done) inv
  Step-Invariant (Step.take_vote a v from pre post node messages e split done) =
      let (_, gives) = take_vote_Gives a v from pre post node messages e split done in
      Gives-Invariant t a node messages (pre ++ post) s gives inv

module _ (sum256 : Bytes → Hash) (s : Network) (fresh : IsFresh s) where
  empty_pool : (a : ℕ) → pool s a ≡ []
  unfolding Wendy.new push_all reset
  empty_pool a = ap (λ t. t.list) (fresh.pools a)

  pub Reach-Invariant : {t : Network} → Reach sum256 s t → Invariant s t
  unfolding Wendy.new push_all reset
  Reach-Invariant Reach.start = record {
    same_keys = λ a. refl;
    same_peers = λ a. refl;
    valid = λ a. subst IsValid (sym (fresh.pools a)) reset-IsValid;
    honest = subst (All (IsHonest s)) (sym fresh.nothing_sent) tt;
    spread = λ a h r p peer. absurd (subst (Pooled h) (empty_pool a) p);
  }
  Reach-Invariant (Reach.later {t} r step) =
      Step-Invariant sum256 s t fresh (Reach-Invariant r) step

-- One node can be reached from another along links to peers.
pub data Joined (s : Network) (a : ℕ) : ℕ → Type 0 where
  here : Joined s a a
  link : {b : ℕ} → Joined s a b → (r : NodeRef) → In r (s.nodes b).peers → Joined s a r.address

-- No transaction is in flight.
abbrev pub IsVote : Message → Type 0
IsVote (node_tx a tx from) = ⊥
IsVote (node_vote a v from) = Unit

no_tx_coming : (h : Hash) (a : ℕ) (ms : List Message) → All IsVote ms → ¬ Some (Coming h a) ms
no_tx_coming h a [] q c = c
no_tx_coming h a (node_tx b tx from ∷ ms) q c = absurd q.0
no_tx_coming h a (node_vote b v from ∷ ms) q (inl c) = c
no_tx_coming h a (node_vote b v from ∷ ms) q (inr c) = no_tx_coming h a ms q.1 c

module _ (sum256 : Bytes → Hash) {s t : Network} (fresh : IsFresh s) (r : Reach sum256 s t) where
  pub Reach-Pooled :
      (h : Hash) (a b : ℕ)
      → All IsVote t.in_flight
      → Joined s a b
      → Pooled h (pool t a)
      → Pooled h (pool t b)
  Reach-Pooled h a b quiet Joined.here p = p
  Reach-Pooled h a b quiet (Joined.link {b = c} joined peer i) p =
      let inv = Reach-Invariant sum256 s fresh r in
      elim (inv.spread c h peer (Reach-Pooled h a c quiet joined p) i) [
        | inl there ↦ there
        | inr coming ↦ absurd (no_tx_coming h peer.address t.in_flight quiet coming)
      ]

  -- In a network of nodes whose keys are bytes and differ, which know their peers' keys and start
  -- with empty pools, in every state that is reached each message in flight, wherever it stands,
  -- can be taken: its receiver does not panic, and the other messages stay in flight, with those
  -- that the receiver sends behind them
  pub Reach-Step :
      (now : ℕ) (pre post : List Message) (m : Message)
      → t.in_flight ≡ pre ++ m ∷ post
      → (u : Network) × Step sum256 t u
        × ((sent : List Message) × (u.in_flight ≡ (pre ++ post) ++ sent))
  Reach-Step now pre post (node_tx a tx from) split =
      let inv = Reach-Invariant sum256 s fresh r in
      let (n, sent, runs, _, _, _, _) =
        handle_tx-Floods sum256 now tx from (t.nodes a) (key_bytes sum256 s t fresh inv a)
          (inv.valid a) in
      (
        handled t a (n, sent) (pre ++ post),
        Step.take_tx a now tx from pre post (n, sent) split runs,
        (sent, refl),
      )
  Reach-Step now pre post (node_vote a v from) split =
      let inv = Reach-Invariant sum256 s fresh r in
      let (_, bytes) = waits_of sum256 s t fresh inv pre post (node_vote a v from) split in
      let (_, _, e, n, sent, _, runs, _, _, _) =
        handle_vote-Keeps sum256 v from (t.nodes a) bytes in
      (
        handled t a (n, sent) (pre ++ post),
        Step.take_vote a v from pre post n sent e split runs,
        (sent, refl),
      )
