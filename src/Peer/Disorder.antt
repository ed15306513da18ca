-- ===== src/Peer/Disorder.antt =====
-- What `Peer.AddVote` of peer.go does to a vote that arrives before a lower one of its bucket.
use wendy.Common.{◌+◌, ◌^◌, ◌<◌, ◌≡◌, true, [], ◌∷◌, map, none, arith}
use wendy.LinkedList.{
  new, first, insert_after, push_back, next, from_id, after, first_of_list, is_backward, each,
  each_from, each_backward, keep_first, prev, back, insert_behind,
}
use wendy.Types.{Hash, Vote}
use wendy.Crypto.{Bytes}
use wendy.Peer.{
  advance, advance_from, valid_hashes, check_following, bucket_add_vote, new_peer_bucket,
}

-- Where an empty bucket gets a vote u, its number below 2 ^ 64, and then a vote v whose number is
-- lower than u's by more than 1, a second AddVote of u returns true and the list is u, v, u.
pub add_vote_twice :
    (sum256 : Bytes → Hash) (u v : Vote)
    → v.seq + 1 < u.seq
    → u.seq < 2 ^ 64
    → let (b1, _, _) = bucket_add_vote sum256 u new_peer_bucket in
      let (b2, _, _) = bucket_add_vote sum256 v b1 in
      let (b3, added, error) = bucket_add_vote sum256 u b2 in
      (added ≡ true) × (error ≡ none) × (map (λ e. e.value) b3.votes.elements ≡ u ∷ v ∷ u ∷ [])
unfolding bucket_add_vote new_peer_bucket valid_hashes check_following advance_from advance first
    each each_backward each_from keep_first prev back first_of_list after is_backward insert_after
    push_back next insert_behind from_id new
add_vote_twice sum256 u v h k = (ground arith, ground arith, ground arith)
