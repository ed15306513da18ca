-- ===== src/Peer/Order.antt =====
-- `Before` and `Seen` of peer.go: the order in which a peer reports transactions.
use wendy.Common.{
  ℕ, ◌+◌, ◌<◌, ◌≤◌, ◌≡◌, ◌≢◌, ◌↔◌, ap, sym, ◌∙◌, subst, true, false, not, [], ◌∷◌, none, some,
  arith, All, In, In-append, inl, inr, ◌⊎◌, Option-cases, find, find-some, find-none, dec_lt,
  All-mono, All-both, In-All, ◌&&◌, ◌||◌,
}
use wendy.Types.{Hash, Vote}
use wendy.LinkedList.{Element, first, is_backward}
use wendy.LinkedList.Loops.{visited}
use wendy.LinkedList.Searches.{first-find}
use wendy.Peer.{PeerBucket, bucket_before, bucket_seen, is_commited, element_by_hash}
use wendy.Peer.Adding.{Votes}
use wendy.Peer.Sequence.{HasSeq, IsSorted, IsOrdered, IsMaximal}

-- Within a bucket Before is transitive, whatever is voted for or committed.
pub bucket_before_trans :
    (b : PeerBucket) (h1 h2 h3 : Hash)
    → bucket_before b h1 h2 ≡ true
    → bucket_before b h2 h3 ≡ true
    → bucket_before b h1 h3 ≡ true
unfolding bucket_before
bucket_before_trans b h1 h2 h3 p q = ground arith

same_hash : (h : Hash) (e : Element Vote) → element_by_hash h e ≡ true → e.value.tx_hash ≡ h
unfolding element_by_hash
same_hash h e hit = ground arith

other_hash : (h : Hash) (e : Element Vote) → element_by_hash h e ≡ false → e.value.tx_hash ≢ h
unfolding element_by_hash
other_hash h e miss = ground arith

-- The vote that a search by hash finds: it is in the list and is for the transaction.
pub vote_of :
    (b : PeerBucket) (h : Hash)
    → IsOrdered b
    → ((first (element_by_hash h) [] b.votes ≡ none)
        × All (λ e. e.value.tx_hash ≢ h) b.votes.elements)
      ⊎ ((e : Element Vote) × (first (element_by_hash h) [] b.votes ≡ some e)
          × In e b.votes.elements
          × (e.value.tx_hash ≡ h))
unfolding visited is_backward
vote_of b h o =
    let test = element_by_hash h in
    let looked = first-find test [] b.votes o.valid in
    elim (Option-cases (find test b.votes.elements)) [
      | inl missing ↦ inl (
        looked ∙ missing,
        All-mono b.votes.elements (λ e. other_hash h e) (find-none test b.votes.elements missing),
      )
      | inr (e, found) ↦
          let (pre, post, split, hit, _) = find-some test b.votes.elements found in
          inr
            (e, looked ∙ found, subst (In e) (sym split) (In-append pre e post), same_hash h e hit)
    ]

-- In a sorted list a number stands once.
sorted_once :
    (es : Votes) (e f : Element Vote)
    → IsSorted es
    → In e es
    → In f es
    → e.value.seq ≡ f.value.seq
    → e ≡ f
sorted_once [] e f s he hf same = elim he [ ]
sorted_once (x ∷ es) e f s (inl p) (inl q) same = p ∙ sym q
sorted_once (x ∷ es) e f s (inl p) (inr q) same =
    absurd
      (omega (arith, In-All (λ g. x.value.seq < g.value.seq) es f s.0 q, ap (λ g. g.value.seq) p))
sorted_once (x ∷ es) e f s (inr p) (inl q) same =
    absurd
      (omega (arith, In-All (λ g. x.value.seq < g.value.seq) es e s.0 p, ap (λ g. g.value.seq) q))
sorted_once (x ∷ es) e f s (inr p) (inr q) same = sorted_once es e f s.1 p q same

votes_differ :
    (b : PeerBucket) (h1 h2 : Hash) (e f : Element Vote)
    → IsOrdered b
    → h1 ≢ h2
    → In e b.votes.elements
    → In f b.votes.elements
    → e.value.tx_hash ≡ h1
    → f.value.tx_hash ≡ h2
    → e.value.seq ≢ f.value.seq
votes_differ b h1 h2 e f o ne he hf p q same =
    ne
      (sym p ∙ ap (λ g. g.value.tx_hash) (sorted_once b.votes.elements e f o.sorted he hf same) ∙ q)

-- In a bucket in order, of two different hashes that are not both committed, and of which one is
-- committed or voted for, exactly one is before the other.
pub bucket_before-total :
    (b : PeerBucket) (h1 h2 : Hash)
    → IsOrdered b
    → h1 ≢ h2
    → (is_commited b h1 && is_commited b h2) ≡ false
    → ((is_commited b h1 || is_commited b h2) ≡ true)
      ⊎ ¬ All (λ e. (e.value.tx_hash ≢ h1) × (e.value.tx_hash ≢ h2)) b.votes.elements
    → bucket_before b h1 h2 ≡ not (bucket_before b h2 h1)
unfolding bucket_before
bucket_before-total b h1 h2 o ne open_ (inl c) = ground arith
bucket_before-total b h1 h2 o ne open_ (inr known) = elim (vote_of b h1 o) [
  | inl (missing, others) ↦ elim (vote_of b h2 o) [
    | inl (missing2, others2) ↦ absurd (known (All-both _ _ b.votes.elements others others2))
    | inr (f, found2, hf, q) ↦ ground (arith, missing, found2)
  ]
  | inr (e, found, he, p) ↦ elim (vote_of b h2 o) [
    | inl (missing2, others2) ↦ ground (arith, found, missing2)
    | inr (f, found2, hf, q) ↦
        ground (arith, found, found2, votes_differ b h1 h2 e f o ne he hf p q)
  ]
]

-- In a bucket in order whose lastSeqSeen is the last number before a gap, Seen is true exactly
-- when the list finds a vote for the transaction and there is a vote of every number from 1 up to
-- that vote's.
pub bucket_seen_iff :
    (b : PeerBucket) (h : Hash)
    → IsOrdered b
    → IsMaximal b
    → (bucket_seen b h ≡ true) ↔ (
        (e : Element Vote) × (first (element_by_hash h) [] b.votes ≡ some e)
        × In e b.votes.elements
        × (e.value.tx_hash ≡ h)
        × ((k : ℕ) → 0 < k → k ≤ e.value.seq → HasSeq k b.votes.elements))
unfolding bucket_seen
bucket_seen_iff b h o maximal = (there, back)
  where
    there :
        bucket_seen b h ≡ true
        → (e : Element Vote) × (first (element_by_hash h) [] b.votes ≡ some e)
          × In e b.votes.elements
          × (e.value.tx_hash ≡ h)
          × ((k : ℕ) → 0 < k → k ≤ e.value.seq → HasSeq k b.votes.elements)
    there s = elim (vote_of b h o) [
      | inl (missing, _) ↦ absurd (ground (arith, missing))
      | inr (e, found, he, p) ↦
          let low : e.value.seq ≤ b.last_seq_seen = ground (arith, found) in
          (e, found, he, p, λ k pos le. o.gapless k pos (omega arith))
    ]

    back :
        ((e : Element Vote) × (first (element_by_hash h) [] b.votes ≡ some e)
          × In e b.votes.elements
          × (e.value.tx_hash ≡ h)
          × ((k : ℕ) → 0 < k → k ≤ e.value.seq → HasSeq k b.votes.elements))
        → bucket_seen b h ≡ true
    back (e, found, he, p, run) = elim (dec_lt b.last_seq_seen e.value.seq) [
      | yes above ↦ absurd (maximal (run (b.last_seq_seen + 1) (omega arith) (omega arith)))
      | no low ↦ ground (arith, found)
    ]
