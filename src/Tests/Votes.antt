-- ===== src/Tests/Votes.antt =====
-- Runs of peer.go.
use wendy.Common.{
  ℕ, ◌<◌, ◌≤◌, ◌≡◌, ◌↔◌, inl, inr, refl, true, false, not, ◌&&◌, [], ◌∷◌, none, some, arith, map,
  In, returns, ℕ_discrete,
}
use wendy.Crypto.{Bytes, bytes_dec}
use wendy.Types.{Hash, Tx, Vote, zero_hash}
use wendy.LinkedList.{
  Element, first, each, each_forward, each_from, next, after, front, first_of_list, is_backward,
  keep_first,
}
use wendy.LinkedList.Ids.{IsValid}
use wendy.Peer.{
  PeerBucket, Peer, new_peer_bucket, bucket, bucket_add_vote, element_by_hash, is_commited, before,
  bucket_before, bucket_seen, update_tx_set,
}
use wendy.Peer.Adding.{Adds, Kept, bucket_add_vote-Adds}
use wendy.Peer.Sequence.{HasSeq, IsOrdered, IsMaximal}
use wendy.Peer.Invariant.{Result, bucket_add_vote-IsOrdered}
use wendy.Peer.Buckets.{view}
use wendy.Peer.Order.{bucket_before-total, bucket_seen_iff}
use wendy.Peer.Commits.{before-update_tx_set}
use wendy.Peer.Disorder.{add_vote_twice}

-- In place of SHA-256.
abbrev sum256 : Bytes → Hash
sum256 bs = zero_hash

abbrev vote : ℕ → Hash → Hash → Vote
vote seq tx_hash prev_hash = record {
  pubkey = 7 ∷ [];
  label = [];
  seq = seq;
  tx_hash = tx_hash;
  time = 0;
  prev_hash = prev_hash;
}

abbrev element : ℕ → ℕ → Hash → Element Vote
element id seq prev_hash = record { id = id; value = vote seq (seq ∷ []) prev_hash }

-- Votes 1 and 3; the third does not link to any hash that `sum256` gives.
abbrev gapped : PeerBucket
gapped = record {
  votes = record { elements = element 0 1 zero_hash ∷ element 1 3 [] ∷ []; next_id = 2 };
  last_seq_seen = 1;
  commited_hashes = (9 ∷ [], tt) ∷ [];
}

gapped-IsValid : IsValid gapped.votes
gapped-IsValid = omega arith

gapped-IsOrdered : IsOrdered gapped
gapped-IsOrdered = record {
  valid = gapped-IsValid;
  sorted = omega arith;
  small = omega arith;
  last_small = omega arith;
  gapless = λ k p q. inl (omega arith);
}

gapped-IsMaximal : IsMaximal gapped
gapped-IsMaximal h = elim h [ inl e ↦ omega arith | inr (inl e) ↦ omega arith | inr (inr b) ↦ b ]

bucket_add_vote-IsOrdered_example :
    Result gapped (bucket_add_vote sum256 (vote 2 (2 ∷ []) zero_hash) gapped)
bucket_add_vote-IsOrdered_example =
    bucket_add_vote-IsOrdered sum256 (vote 2 (2 ∷ []) zero_hash) gapped gapped-IsOrdered
      (omega arith) (omega arith)

bucket_add_vote-Adds_example :
    let r = bucket_add_vote sum256 (vote 4 (4 ∷ []) zero_hash) gapped in
    Adds sum256 gapped (vote 4 (4 ∷ []) zero_hash) r
    × Kept sum256 gapped (vote 4 (4 ∷ []) zero_hash) gapped-IsValid r
bucket_add_vote-Adds_example =
    bucket_add_vote-Adds sum256 gapped (vote 4 (4 ∷ []) zero_hash) gapped-IsValid

bucket_seen_iff_example : (bucket_seen gapped (1 ∷ []) ≡ true) ↔ (
    (e : Element Vote) × (first (element_by_hash (1 ∷ [])) [] gapped.votes ≡ some e)
    × In e gapped.votes.elements
    × (e.value.tx_hash ≡ 1 ∷ [])
    × ((k : ℕ) → 0 < k → k ≤ e.value.seq → HasSeq k gapped.votes.elements))
bucket_seen_iff_example = bucket_seen_iff gapped (1 ∷ []) gapped-IsOrdered gapped-IsMaximal

gapped_open : (is_commited gapped (1 ∷ []) && is_commited gapped (3 ∷ [])) ≡ false
unfolding bytes_dec ℕ_discrete
gapped_open = refl

bucket_before-total_example :
    bucket_before gapped (1 ∷ []) (3 ∷ []) ≡ not (bucket_before gapped (3 ∷ []) (1 ∷ []))
bucket_before-total_example =
    bucket_before-total gapped (1 ∷ []) (3 ∷ []) gapped-IsOrdered (λ e. cc) gapped_open
      (inr (λ all. all.0.0 refl))

nine_first : bucket_before gapped (9 ∷ []) (1 ∷ []) ≡ true
unfolding bucket_before bytes_dec ℕ_discrete
nine_first = refl

one_second : bucket_before gapped (1 ∷ []) (3 ∷ []) ≡ true
unfolding bucket_before bytes_dec ℕ_discrete first each each_forward each_from next after front
    first_of_list element_by_hash is_backward keep_first
one_second = refl

abbrev peer : Peer
peer = record { pub_key = 7 ∷ []; buckets = ([], gapped) ∷ [] }

abbrev tx : ℕ → Tx
tx n = record { bytes = 1 ∷ []; hash = n ∷ []; label = [] }

one_free : is_commited (view [] peer) (1 ∷ []) ≡ false
unfolding bucket bytes_dec ℕ_discrete
one_free = refl

before-update_tx_set_example :
    (before (update_tx_set (tx 3 ∷ []) peer) (tx 3) (tx 1) ≡ returns true)
    × (before (update_tx_set (tx 3 ∷ []) peer) (tx 1) (tx 3) ≡ returns false)
before-update_tx_set_example =
    before-update_tx_set (tx 3 ∷ []) peer (tx 3) (tx 1) (inl (refl, refl)) refl
      (λ n. elim n [ inl (_, e) ↦ grind (arith, e) | inr b ↦ b ]) one_free

add_vote_twice_example :
    let u = vote 5 (1 ∷ []) [] in
    let v = vote 2 (2 ∷ []) [] in
    let (b1, _, _) = bucket_add_vote sum256 u new_peer_bucket in
    let (b2, _, _) = bucket_add_vote sum256 v b1 in
    let (b3, added, error) = bucket_add_vote sum256 u b2 in
    (added ≡ true) × (error ≡ none) × (map (λ e. e.value) b3.votes.elements ≡ u ∷ v ∷ u ∷ [])
add_vote_twice_example =
    add_vote_twice sum256 (vote 5 (1 ∷ []) []) (vote 2 (2 ∷ []) []) (omega arith) (omega arith)
