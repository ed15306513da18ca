-- ===== src/Simulation/Labels.antt =====
-- A node numbers its votes for all labels in one row, and a peer looks for a row of numbers under each
-- label (simulation/node.go, peer.go).
use wendy.Common.{
  ℕ, ◌+◌, ◌^◌, ◌<◌, ◌≤◌, ◌≡◌, ◌≢◌, refl, ap, sym, ◌∙◌, subst, Bool, false, List, [], ◌∷◌, ◌++◌,
  Option, arith, length, All, All-append, All-of-append, inl, inr, ◌⊎◌, find, find-some,
  Option-cases, if_pos, if_neg,
}
use wendy.Crypto.{Bytes, Pubkey, bytes_dec}
use wendy.Types.{Hash, Tx, Vote}
use wendy.LinkedList.{Element, is_backward}
use wendy.LinkedList.Ids.{IsValid, new-IsValid}
use wendy.LinkedList.Loops.{visited}
use wendy.LinkedList.Searches.{first-find}
use wendy.Peer.{
  Peer, PeerBucket, Error, new_peer, new_peer_bucket, element_by_hash, bucket_seen, seen,
  bucket_add_vote, advance,
}
use wendy.Peer
use wendy.Peer.Adding.{Votes, Higher, Adds, bucket_add_vote-Adds}
use wendy.Peer.Buckets.{view, view-add_vote, view-new_peer}
use wendy.Simulation.{Node, NodeRef, new_node, next_vote}
use wendy.Simulation.Votes.{next_votes, next_vote_lem}
use wendy.Peer.Sequence.{advance_stays}

-- A bucket in which every vote is above the number that is waited for.
pub record Waits (b : PeerBucket) : Type 0 where
  pub valid : IsValid b.votes
  pub above : Higher 1 b.votes.elements
  pub last : b.last_seq_seen ≡ 0

module _ (sum256 : Bytes → Hash) where
  inserted_above :
      (b : PeerBucket) (v : Vote)
      → Waits b
      → 1 < v.seq
      → (xs ys : Votes) (item n : Element Vote) → n.value ≡ v
      → b.votes.elements ≡ xs ++ item ∷ ys
      → Higher 1 ((xs ++ item ∷ []) ++ n ∷ ys) × Higher 1 (n ∷ ys)
  inserted_above b v w high xs ys item n same split =
      let P = λ (e : Element Vote). 1 < e.value.seq in
      let (before, (at, behind)) =
        All-of-append P xs (item ∷ ys) (subst (Higher 1) split w.above) in
      let here = subst (λ t. 1 < t.seq) (sym same) high in
      (
        All-append P (xs ++ item ∷ []) (n ∷ ys) (All-append P xs (item ∷ []) before (at, tt))
            (here, behind),
        (here, behind),
      )

  Adds-Waits :
      (b : PeerBucket) (v : Vote) (r : PeerBucket × Bool × Option Error)
      → Waits b
      → 1 < v.seq
      → IsValid r.0.votes
      → Adds sum256 b v r
      → Waits r.0
  Adds-Waits b v r w high valid (Adds.appended n same above contents last _ _) =
      let here = subst (λ t. 1 < t.seq) (sym same) high in
      record {
        valid = valid;
        above =
            subst (Higher 1) (sym contents)
              (All-append (λ e. 1 < e.value.seq) b.votes.elements (n ∷ []) w.above (here, tt));
        last =
            last ∙ ap (advance (n ∷ [])) w.last ∙ advance_stays (n ∷ []) 0 (omega arith) (here, tt);
      }
  Adds-Waits b v r w high valid (Adds.duplicate xs ys item _ _ _ e) =
      subst Waits (ap (λ q. q.0) (sym e)) w
  Adds-Waits b v r w high valid (Adds.refused xs ys item _ _ _ _ _ e) =
      subst Waits (ap (λ q. q.0) (sym e)) w
  Adds-Waits b v r w high valid
        (Adds.conflicting xs ys item n _ same split _ _ _ _ contents last _ _) =
      record {
        valid = valid;
        above =
            subst (Higher 1) (sym contents) (inserted_above b v w high xs ys item n same split).0;
        last = last ∙ w.last;
      }
  Adds-Waits b v r w high valid (Adds.inserted xs ys item n same split _ _ _ _ contents last _ _) =
      let (all, behind) = inserted_above b v w high xs ys item n same split in
      record {
        valid = valid;
        above = subst (Higher 1) (sym contents) all;
        last = last ∙ ap (advance (n ∷ ys)) w.last ∙ advance_stays (n ∷ ys) 0 (omega arith) behind;
      }

-- A bucket that waits has seen nothing.
Waits-unseen : (b : PeerBucket) (hash : Hash) → Waits b → bucket_seen b hash ≡ false
unfolding bucket_seen visited is_backward
Waits-unseen b hash w =
    let test = element_by_hash hash in
    let looked = first-find test [] b.votes w.valid in
    elim (Option-cases (find test b.votes.elements)) [
      | inl missing ↦ rw (looked ∙ missing, bucket_seen) refl
      | inr (item, found) ↦
          let (pre, post, split, _, _) = find-some test b.votes.elements found in
          let (_, high) =
            All-of-append (λ e. 1 < e.value.seq) pre (item ∷ post)
              (subst (Higher 1) split w.above) in
          let above = high.0 in
          let late = w.last in rw (looked ∙ found, bucket_seen) (ground (arith, above, late))
    ]

-- The vote has another label, or is above the number that is waited for.
abbrev pub Passes : Bytes → Vote → Type 0
Passes l v = (v.label ≢ l) ⊎ (1 < v.seq)

new_peer_bucket-Waits : Waits new_peer_bucket
unfolding new_peer_bucket
new_peer_bucket-Waits = record { valid = new-IsValid; above = tt; last = refl }

module _ (sum256 : Bytes → Hash) (l : Bytes) where
  add_vote-Waits :
      (v : Vote) (p : Peer)
      → Waits (view l p)
      → Passes l v
      → Waits (view l (Peer.add_vote sum256 v p).0)
  add_vote-Waits v p w passes =
      let b = view v.label p in
      let r = bucket_add_vote sum256 v b in
      let (viewed, _, _) = view-add_vote sum256 v p l in
      elim (bytes_dec v.label l) [
        | no other ↦
            subst Waits (sym (viewed ∙ if_neg (bytes_dec v.label l) other r.0 (view l p))) w
        | yes same ↦
            let own = subst (λ k. Waits (view k p)) (sym same) w in
            let high : 1 < v.seq = elim passes [ inl other ↦ absurd (other same) | inr h ↦ h ] in
            let (adds, kept) = bucket_add_vote-Adds sum256 b v own.valid in
            subst Waits (sym (viewed ∙ if_pos (bytes_dec v.label l) same r.0 (view l p)))
              (Adds-Waits sum256 b v r own high kept.0 adds)
      ]

  add_votes-Waits :
      (vs : List Vote) (p : Peer)
      → Waits (view l p)
      → All (Passes l) vs
      → Waits (view l (Peer.add_votes sum256 vs p).0)
  unfolding Peer.add_votes
  add_votes-Waits [] p w passes = w
  add_votes-Waits (v ∷ vs) p w passes =
      let step = add_vote-Waits v p w passes.0 in
      let r = Peer.add_vote sum256 v p in
      let rest = add_votes-Waits vs r.0 step passes.1 in
      elim (Option-cases r.2) [
        | inl good ↦ rw (good, Peer.add_votes) rest
        | inr (e, bad) ↦ rw (bad, Peer.add_votes) step
      ]

  -- From its third vote on, every vote of a node passes.
  later_pass :
      (txs : List (ℕ × Tx)) (node : Node)
      → 2 ≤ node.seq
      → node.seq + length txs < 2 ^ 64
      → All (Passes l) (next_votes sum256 txs node)
  unfolding next_votes
  later_pass [] node high small = tt
  later_pass ((now, tx) ∷ txs) node high small =
      let (num, _, _, _, seq, _) = next_vote_lem sum256 now tx node (omega arith) in
      (
        inr (omega arith),
        later_pass txs (next_vote sum256 now tx node).0 (omega arith) (omega arith),
      )

  early_pass :
      (early late : List (ℕ × Tx)) (node : Node)
      → 2 ≤ node.seq + length early
      → All (λ t. t.1.label ≢ l) early
      → node.seq + length early + length late < 2 ^ 64
      → All (Passes l) (next_votes sum256 (early ++ late) node)
  unfolding next_votes
  early_pass [] late node high others small = later_pass late node (omega arith) (omega arith)
  early_pass ((now, tx) ∷ early) late node high others small =
      let (_, _, label, _, seq, _) = next_vote_lem sum256 now tx node (omega arith) in
      (
        inl (λ e. others.0 (sym label ∙ e)),
        early_pass early late (next_vote sum256 now tx node).0 (omega arith) others.1 (omega arith),
      )

  -- Where the first two or more votes of a new node are for transactions of labels other than one
  -- label, and there are fewer than 2 ^ 64 votes in all, a new peer that is given all of the
  -- node's votes in order by AddVotes never reports a transaction of that label as Seen
  pub next_votes-unseen :
      (early late : List (ℕ × Tx)) (pub_key id : Pubkey) (peers : List NodeRef) (tx : Tx)
      → 2 ≤ length early
      → All (λ t. t.1.label ≢ l) early
      → length early + length late < 2 ^ 64
      → tx.label ≡ l
      → let votes = next_votes sum256 (early ++ late) (new_node pub_key peers) in
        seen (Peer.add_votes sum256 votes (new_peer id)).0 tx ≡ false
  unfolding new_node seen
  next_votes-unseen early late pub_key id peers tx two others small label =
      let node = new_node pub_key peers in
      let votes = next_votes sum256 (early ++ late) node in
      let p = (Peer.add_votes sum256 votes (new_peer id)).0 in
      let start = subst Waits (sym (view-new_peer l id)) new_peer_bucket-Waits in
      let w =
        add_votes-Waits votes (new_peer id) start
          (early_pass early late node (omega arith) others (omega arith)) in
      subst (λ k. bucket_seen (view k p) tx.hash ≡ false) (sym label)
        (Waits-unseen (view l p) tx.hash w)
