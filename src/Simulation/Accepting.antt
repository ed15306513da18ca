-- ===== src/Simulation/Accepting.antt =====
-- What a peer keeps of a chain of votes (peer.go).
use mathlib.Core.List.{append_assoc, append-nil}
use wendy.Common.{
  All-both, if_pos, ℕ, ◌+◌, ◌^◌, ◌<◌, ◌≡◌, ◌≢◌, refl, ap, sym, ◌∙◌, subst, Bool, true, false, List,
  [], ◌∷◌, ◌++◌, map, Option, none, some, arith, length, All, All-of-append, All-mono, inl, inr,
  le→leb, find, find-some, find-none, Option-cases,
}
use wendy.LinkedList.Searches.{first-find}
use wendy.LinkedList.Loops.{visited}
use wendy.Crypto.{Bytes, bytes_dec}
use wendy.Types.{Hash, Tx, Vote}
use wendy.LinkedList.{Element, is_backward}
use wendy.Peer.{Peer, PeerBucket, new_peer, element_by_hash, bucket_seen, seen, bucket_add_vote}
use wendy.Peer
use wendy.Peer.Adding.{Votes}
use wendy.Peer.Buckets.{view, view-add_vote}
use wendy.Peer.Sequence.{Lower}
use wendy.Simulation.Chain.{Chain, Linked, Holds, bucket_add_vote-Continues}

abbrev pub values : PeerBucket → List Vote
values b = map (λ e. e.value) b.votes.elements

-- A list with the element in it is not searched in vain.
find_hit :
    {A : Type 0} (p : A → Bool) (pre post : List A) (a : A)
    → p a ≡ true
    → find p (pre ++ a ∷ post) ≢ none
find_hit p pre post a hit missing =
    let (_, misses) =
      All-of-append (λ x. p x ≡ false) pre (a ∷ post) (find-none p (pre ++ a ∷ post) missing) in
    let miss = misses.0 in cc

-- Every vote of a bucket that holds a chain is seen.
seen_at :
    (sum256 : Bytes → Hash) (prev : Option Vote) (k : ℕ) (b : PeerBucket) (pre post : Votes)
    (e : Element Vote)
    → Holds sum256 prev k b
    → b.votes.elements ≡ pre ++ e ∷ post
    → bucket_seen b e.value.tx_hash ≡ true
unfolding bucket_seen element_by_hash visited is_backward
seen_at sum256 prev k b pre post e h split =
    let test = element_by_hash e.value.tx_hash in
    let looked = first-find test [] b.votes h.valid in
    let hit : test e ≡ true = ground arith in
    elim (Option-cases (find test b.votes.elements)) [
      | inl missing ↦
          absurd (find_hit test pre post e hit (subst (λ t. find test t ≡ none) split missing))
      | inr (item, found) ↦
          let (pre', post', split', _, _) = find-some test b.votes.elements found in
          let (_, low) =
            All-of-append (λ e. e.value.seq < k) pre' (item ∷ post')
              (subst (Lower k) split' h.lower) in
          let low_item = low.0 in
          rw (looked ∙ found, bucket_seen)
            (le→leb item.value.seq b.last_seq_seen (omega (arith, h.reached)))
    ]

pub All-seen :
    (p : Peer) (l : Bytes) (txs : List (ℕ × Tx))
    → All (λ t. t.1.label ≡ l) txs
    → All (λ t. bucket_seen (view l p) t.1.hash ≡ true) txs
    → All (λ t. seen p t.1 ≡ true) txs
unfolding seen
All-seen p l txs labels hashes =
    All-mono txs (λ t h. subst (λ k. bucket_seen (view k p) t.1.hash ≡ true) (sym h.0) h.1)
      (All-both (λ t. t.1.label ≡ l) (λ t. bucket_seen (view l p) t.1.hash ≡ true) txs labels
        hashes)

module _ (sum256 : Bytes → Hash) where
  -- The vote that continues a chain, added to the peer.
  add_vote-Continues :
      (l : Bytes) (prev : Option Vote) (k : ℕ) (v : Vote) (p : Peer)
      → Holds sum256 prev k (view l p)
      → v.seq ≡ k
      → Linked sum256 prev v
      → v.label ≡ l
      → k + 1 < 2 ^ 64
      → let r = Peer.add_vote sum256 v p in
        Holds sum256 (some v) (k + 1) (view l r.0)
        × (r.2 ≡ none)
        × (values (view l r.0) ≡ values (view l p) ++ v ∷ [])
  add_vote-Continues l prev k v p h num linked label small =
      let own = subst (λ t. Holds sum256 prev k (view t p)) (sym label) h in
      let b = view v.label p in
      let (held, _, good, vals) =
        bucket_add_vote-Continues sum256 prev k b v own num small linked in
      let (viewed, _, error) = view-add_vote sum256 v p l in
      let here : view l (Peer.add_vote sum256 v p).0 ≡ (bucket_add_vote sum256 v b).0 =
        viewed ∙ if_pos (bytes_dec v.label l) label _ _ in
      (
        subst (Holds sum256 (some v) (k + 1)) (sym here) held,
        error ∙ good,
        ap values here ∙ vals ∙ ap (λ t. values (view t p) ++ v ∷ []) label,
      )

  -- A chain added to a peer whose bucket holds the chain before it.
  pub add_votes-Holds :
      (l : Bytes) (prev : Option Vote) (k : ℕ) (vs : List Vote) (p : Peer)
      → Holds sum256 prev k (view l p)
      → Chain sum256 k prev vs
      → All (λ v. v.label ≡ l) vs
      → k + length vs < 2 ^ 64
      → let r = Peer.add_votes sum256 vs p in
        (r.1 ≡ none)
        × (values (view l r.0) ≡ values (view l p) ++ vs)
        × ((last : Option Vote) × Holds sum256 last (k + length vs) (view l r.0))
  unfolding Peer.add_votes
  add_votes-Holds l prev k [] p h chain labels small = (
    refl,
    sym (append-nil _),
    (prev, subst (λ n. Holds sum256 prev n (view l p)) (omega arith) h),
  )
  add_votes-Holds l prev k (v ∷ vs) p h chain labels small =
      let (held, good, vals) =
        add_vote-Continues l prev k v p h chain.0 chain.1 labels.0 (omega arith) in
      let p' = (Peer.add_vote sum256 v p).0 in
      let (ok, rest, (last, ends)) =
        add_votes-Holds l (some v) (k + 1) vs p' held chain.2 labels.1 (omega arith) in
      rw (good, Peer.add_votes)
        (
          ok,
          rest ∙ ap (λ t. t ++ vs) vals ∙ append_assoc (values (view l p)) (v ∷ []) vs,
          (
            last,
            subst (λ n. Holds sum256 last n (view l (Peer.add_votes sum256 vs p').0)) (omega arith)
                ends,
          ),
        )

  pub all_seen :
      (prev : Option Vote) (k : ℕ) (b : PeerBucket) (pre post : Votes)
      → Holds sum256 prev k b
      → b.votes.elements ≡ pre ++ post
      → All (λ v. bucket_seen b v.tx_hash ≡ true) (map (λ e. e.value) post)
  all_seen prev k b pre [] h split = tt
  all_seen prev k b pre (e ∷ post) h split = (
    seen_at sum256 prev k b pre post e h split,
    all_seen prev k b (pre ++ e ∷ []) post h (split ∙ sym (append_assoc pre (e ∷ []) post)),
  )
