-- ===== src/Peer/Buckets.antt =====
-- The buckets of a peer, one for each label (peer.go): reading makes missing buckets, which nothing
-- can observe, and a vote reaches the bucket of its own label only.
use wendy.Common.{◌≡◌, refl, ite, arith, lookup-insert}
use wendy.Crypto.{Bytes, bytes_dec, Pubkey}
use wendy.Types.{Hash, Vote}
use wendy.Peer.{
  Peer, PeerBucket, new_peer, new_peer_bucket, bucket, set_bucket, bucket_add_vote, add_vote,
}

-- What any read of the label's bucket sees.
abbrev pub view : Bytes → Peer → PeerBucket
view label p = (bucket label p).1

pub view-set_bucket :
    (l q : Bytes) (b : PeerBucket) (p : Peer)
    → view q (set_bucket l b p) ≡ ite (bytes_dec l q) b (view q p)
unfolding bucket set_bucket
view-set_bucket l q b p = ground (arith, lookup-insert bytes_dec l q b p.buckets)

-- The bucket that a read registers is not observable: every label reads as before.
pub view-bucket : (l q : Bytes) (p : Peer) → view q (bucket l p).0 ≡ view q p
unfolding bucket
view-bucket l q p = ground (arith, lookup-insert bytes_dec l q new_peer_bucket p.buckets)

-- AddVote of a peer returns what adding to the bucket of the vote's label returns, that label then
-- has the resulting bucket, and every other label has the bucket it had.
pub view-add_vote :
    (sum256 : Bytes → Hash) (v : Vote) (p : Peer) (q : Bytes)
    → let r = bucket_add_vote sum256 v (view v.label p) in
      (view q (add_vote sum256 v p).0 ≡ ite (bytes_dec v.label q) r.0 (view q p))
      × ((add_vote sum256 v p).1 ≡ r.1)
      × ((add_vote sum256 v p).2 ≡ r.2)
unfolding add_vote
view-add_vote sum256 v p q =
    let b' = (bucket_add_vote sum256 v (view v.label p)).0 in
    (
      ground (arith, view-set_bucket v.label q b' (bucket v.label p).0, view-bucket v.label q p),
      refl,
      refl,
    )

pub view-new_peer : (q : Bytes) (k : Pubkey) → view q (new_peer k) ≡ new_peer_bucket
unfolding bucket new_peer
view-new_peer q k = refl
