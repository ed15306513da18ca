-- ===== src/Peer.antt =====
-- peer.go: the votes of one node, a bucket of them for each label.
pub mod Adding
pub mod Buckets
pub mod Sequence
pub mod Placing
pub mod Invariant
pub mod Order
pub mod Commits
pub mod Disorder
use wendy.Common.{
  ℕ, ◌+◌, ◌%◌, ◌^◌, Bool, true, false, ite, List, [], ◌∷◌, Option, none, some, ltb, leb, ◌==◌, ◌&&◌,
  not, if◌then◌else◌, lookup, insert, Outcome, returns, panics,
}
use wendy.Crypto.{Bytes, Pubkey, bytes_dec}
use wendy.LinkedList.{
  Element, GoList, new, first, backward, insert_after, push_back, next, from_id, is_none,
}
use wendy.Types.{Hash, Tx, Vote, vote_hash}

-- `peerBucket`.
pub record PeerBucket : Type 0 where
  pub votes : GoList Vote
  pub last_seq_seen : ℕ
  pub commited_hashes : List (Hash × Unit {0})

unfoldable pub new_peer_bucket : PeerBucket
unfolding new
new_peer_bucket = record { votes = new; last_seq_seen = 0; commited_hashes = [] }

pub record Peer : Type 0 where
  pub pub_key : Pubkey
  pub buckets : List (Bytes × PeerBucket)

unfoldable pub new_peer : Pubkey → Peer
new_peer pub_key = record { pub_key = pub_key; buckets = [] }

-- `bucket`: the bucket of a label, made and registered if it does not exist.
unfoldable pub bucket : Bytes → Peer → Peer × PeerBucket
bucket label p = elim (lookup bytes_dec label p.buckets) [
  | some b ↦ (p, b)
  | none ↦
      (record p { buckets = insert bytes_dec label new_peer_bucket p.buckets }, new_peer_bucket)
]

-- A write through the pointer that `bucket` returned.
unfoldable pub set_bucket : Bytes → PeerBucket → Peer → Peer
set_bucket label b p = record p { buckets = insert bytes_dec label b p.buckets }

-- `LastSeqSeen`.
unfoldable pub last_seq_seen : Bytes → Peer → ℕ
last_seq_seen label p = (bucket label p).1.last_seq_seen

-- `ErrVoteHashesDontMatch`.
pub data Error : Type 0 where
  vote_hashes_dont_match : Error

-- A uint64 and one more.
abbrev pub next_seq : ℕ → ℕ
next_seq s = (s + 1) % 2 ^ 64

-- The loop that moves `lastSeqSeen` up, over the elements from the new one on.
unfoldable pub advance : List (Element Vote) → ℕ → ℕ
advance [] s = s
advance (e ∷ es) s = advance es (if e.value.seq == next_seq s then next_seq s else s)

-- The end of `AddVote`, once the vote is in the list.
unfoldable pub advance_from : PeerBucket → Element Vote → PeerBucket × Bool × Option Error
advance_from b item = (
  record b { last_seq_seen = advance (from_id item.id b.votes.elements) b.last_seq_seen },
  true,
  none,
)

module _ (sum256 : Bytes → Hash) where
  -- `validHashes`; `none` is nil.
  unfoldable pub valid_hashes : Vote → Vote → Option Error
  valid_hashes prev following =
      if not (next_seq prev.seq == following.seq)
      then none
      else ite (bytes_dec (vote_hash sum256 prev) following.prev_hash) none
          (some vote_hashes_dont_match)

  -- `AddVote` behind the insertion: the check against the next vote.
  unfoldable pub check_following :
      PeerBucket → Vote → Element Vote → PeerBucket × Bool × Option Error
  check_following b v item = elim (next b.votes item) [
    | none ↦ advance_from b item
    | some following ↦ elim (valid_hashes v following.value) [
      | some e ↦ (b, false, some e)
      | none ↦ advance_from b item
    ]
  ]

  -- `AddVote` on the bucket of the vote's label.
  unfoldable pub bucket_add_vote : Vote → PeerBucket → PeerBucket × Bool × Option Error
  bucket_add_vote v b = elim (first (λ e. leb e.value.seq v.seq) (backward ∷ []) b.votes) [
    | some item ↦
        if item.value.seq == v.seq then (b, false, none) else elim (valid_hashes item.value v) [
          | some e ↦ (b, false, some e)
          | none ↦
              let (item', votes) = insert_after v item b.votes in
              check_following (record b { votes = votes }) v item'
        ]
    | none ↦
        let (item', votes) = push_back v b.votes in advance_from (record b { votes = votes }) item'
  ]

  -- `AddVote`.
  unfoldable pub add_vote : Vote → Peer → Peer × Bool × Option Error
  add_vote v p =
      let (p', b) = bucket v.label p in
      let (b', added, error) = bucket_add_vote v b in (set_bucket v.label b' p', added, error)

  -- `AddVotes` stops at the first error.
  unfoldable pub add_votes : List Vote → Peer → Peer × Option Error
  add_votes [] p = (p, none)
  add_votes (v ∷ vs) p =
      let (p', _, error) = add_vote v p in
      elim error [ some e ↦ (p', some e) | none ↦ add_votes vs p' ]

-- `elementByHash`.
unfoldable pub element_by_hash : Hash → Element Vote → Bool
element_by_hash hash e = ite (bytes_dec e.value.tx_hash hash) true false

abbrev pub is_commited : PeerBucket → Hash → Bool
is_commited b hash = not (is_none (lookup bytes_dec hash b.commited_hashes))

-- `Before` on a bucket, from the two searches.
abbrev pub voted_before : Option (Element Vote) → Option (Element Vote) → Bool
voted_before (some v1) (some v2) = ltb v1.value.seq v2.value.seq
voted_before (some v1) none = true
voted_before none v2 = false

unfoldable pub bucket_before : PeerBucket → Hash → Hash → Bool
bucket_before b hash1 hash2 =
    let c1 = is_commited b hash1 in
    let c2 = is_commited b hash2 in
    if c1 && c2
    then true
    else if c1 && not c2
    then true
    else if not c1 && c2
    then false
    else voted_before (first (element_by_hash hash1) [] b.votes)
        (first (element_by_hash hash2) [] b.votes)

-- `Before` panics where the labels differ.
unfoldable pub before : Peer → Tx → Tx → Outcome Bool
before p tx1 tx2 =
    ite (bytes_dec tx1.label tx2.label)
      (returns (bucket_before (bucket tx1.label p).1 tx1.hash tx2.hash)) panics

-- `Seen` on a bucket.
unfoldable pub bucket_seen : PeerBucket → Hash → Bool
bucket_seen b hash = elim (first (element_by_hash hash) [] b.votes) [
  | none ↦ false
  | some item ↦ leb item.value.seq b.last_seq_seen
]

-- `Seen`.
unfoldable pub seen : Peer → Tx → Bool
seen p tx = bucket_seen (bucket tx.label p).1 tx.hash

-- `UpdateTxSet`.
unfoldable pub update_tx_set : List Tx → Peer → Peer
update_tx_set [] p = p
update_tx_set (tx ∷ txs) p =
    let (p', b) = bucket tx.label p in
    update_tx_set txs (
      set_bucket tx.label
        (record b { commited_hashes = insert bytes_dec tx.hash tt b.commited_hashes }) p')
