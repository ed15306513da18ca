-- ===== src/Wendy/Peers.antt =====
-- The peers of wendy.go: what a new validator set keeps, and what a vote changes.
use wendy.Common.{
  ◌≡◌, ◌≢◌, refl, ap, sym, ◌∙◌, Bool, false, List, [], ◌∷◌, Option, none, some, arith, ite, lookup,
  insert, lookup-insert, returns, inl, inr, ◌⊎◌, In, Option-cases,
}
use wendy.Crypto.{Bytes, PeerId, Pubkey, bytes_dec, pubkey_string}
use wendy.Crypto.RoundTrip.{AreBytes, new_pubkey_from_id-pubkey_string}
use wendy.Types.{Hash, Vote}
use wendy.Peer.{Peer, Error, new_peer}
use wendy.Peer
use wendy.Wendy.{Wendy, keep_peers, update_validator_set, peer_of, add_vote, vote_by_tx_hash}

-- The peer of an id under a new validator set.
unfoldable kept : List (PeerId × Peer) → List Pubkey → PeerId → Option Peer
kept old [] id = none
kept old (val ∷ vs) id = elim (kept old vs id) [
  | some p ↦ some p
  | none ↦
      ite (bytes_dec (pubkey_string val) id)
        (elim (lookup bytes_dec id old) [ some s ↦ some s | none ↦ some (new_peer val) ]) none
]

lookup-keep_peers :
    (old : List (PeerId × Peer)) (vs : List Pubkey) (peers : List (PeerId × Peer)) (id : PeerId)
    → lookup bytes_dec id (keep_peers old vs peers)
      ≡ elim (kept old vs id) [ some p ↦ some p | none ↦ lookup bytes_dec id peers ]
unfolding keep_peers kept
lookup-keep_peers old [] peers id = refl
lookup-keep_peers old (val ∷ vs) peers id =
    elim (Option-cases (lookup bytes_dec (pubkey_string val) old)) [
      | inl missing ↦ ground (
        arith,
        lookup-keep_peers old vs (insert bytes_dec (pubkey_string val) (new_peer val) peers) id,
        lookup-insert bytes_dec (pubkey_string val) id (new_peer val) peers,
      )
      | inr (s, found) ↦ ground (
        arith,
        lookup-keep_peers old vs (insert bytes_dec (pubkey_string val) s peers) id,
        lookup-insert bytes_dec (pubkey_string val) id s peers,
      )
    ]

kept_cases :
    (old : List (PeerId × Peer)) (vs : List Pubkey) (id : PeerId)
    → ((kept old vs id ≡ none) × ((val : Pubkey) → In val vs → pubkey_string val ≢ id))
      ⊎ ((val : Pubkey) × In val vs
          × (pubkey_string val ≡ id)
          × (kept old vs id
              ≡ elim (lookup bytes_dec id old) [ some s ↦ some s | none ↦ some (new_peer val) ]))
unfolding kept
kept_cases old [] id = inl (refl, λ val h. elim h [ ])
kept_cases old (v ∷ vs) id = elim (kept_cases old vs id) [
  | inr (val, member, named, e) ↦ inr (val, inr member, named, ground arith)
  | inl (missing, others) ↦ elim (bytes_dec (pubkey_string v) id) [
    | yes named ↦ inr (v, inl refl, named, ground arith)
    | no other ↦ inl (
      ground arith,
      λ val h. elim h [
        | inl same ↦ λ named. other (ap pubkey_string (sym same) ∙ named)
        | inr member ↦ others val member
      ],
    )
  ]
]

-- After UpdateValidatorSet an id either has no peer and is the text of no key of the new set, or
-- it is the text of a key of the set and has the peer it had before or, if it had none, a new one
-- for that key.
pub update_validator_set-peers :
    (vs : List Pubkey) (w : Wendy) (id : PeerId)
    → let peers = (update_validator_set vs w).peers in
      ((lookup bytes_dec id peers ≡ none) × ((val : Pubkey) → In val vs → pubkey_string val ≢ id))
      ⊎ ((val : Pubkey) × In val vs
          × (pubkey_string val ≡ id)
          × (lookup bytes_dec id peers ≡ elim (lookup bytes_dec id w.peers) [
            | some s ↦ some s
            | none ↦ some (new_peer val)
          ]))
unfolding update_validator_set
update_validator_set-peers vs w id =
    let same = lookup-keep_peers w.peers vs [] id in
    elim (kept_cases w.peers vs id) [
      | inl (missing, others) ↦ inl (ground arith, others)
      | inr (val, member, named, e) ↦ inr (val, member, named, ground arith)
    ]

-- The peer to which a vote goes: the registered one, or a new one under the vote's key.
abbrev pub peer_or_new : Vote → Wendy → Peer
peer_or_new v w = elim (lookup bytes_dec (pubkey_string v.pubkey) w.peers) [
  | some p ↦ p
  | none ↦ new_peer v.pubkey
]

-- For a vote whose key consists of bytes, AddVote does not panic; it returns the error that the
-- peer of the key returns, registers that peer as the call left it, and leaves other peers,
-- validators, quorum and pool alone. Without an error it returns what the peer returned and the
-- vote is found by its transaction's hash, other hashes finding what they found; with an error it
-- returns false and every hash finds what it found.
pub add_vote-registers :
    (sum256 : Bytes → Hash) (v : Vote) (w : Wendy)
    → AreBytes v.pubkey
    → let r = Peer.add_vote sum256 v (peer_or_new v w) in
      (w' : Wendy) × (added : Bool) × (add_vote sum256 v w ≡ returns (w', added, r.2))
      × ((q : PeerId)
          → lookup bytes_dec q w'.peers
            ≡ ite (bytes_dec (pubkey_string v.pubkey) q) (some r.0) (lookup bytes_dec q w.peers))
      × ((w'.txs ≡ w.txs) × (w'.validators ≡ w.validators) × (w'.quorum ≡ w.quorum))
      × ((r.2 ≡ none)
          → (added ≡ r.1)
            × ((h : Hash)
                → vote_by_tx_hash h w'
                  ≡ ite (bytes_dec v.tx_hash h) (some v) (vote_by_tx_hash h w)))
      × ((r.2 ≢ none) → (added ≡ false) × ((h : Hash) → vote_by_tx_hash h w' ≡ vote_by_tx_hash h w))
unfolding add_vote peer_of vote_by_tx_hash
add_vote-registers sum256 v w bytes =
    let id = pubkey_string v.pubkey in
    let r = Peer.add_vote sum256 v (peer_or_new v w) in
    let registered : Wendy = record w { peers = insert bytes_dec id r.0 w.peers } in
    let key_back = new_pubkey_from_id-pubkey_string v.pubkey bytes in
    elim (Option-cases r.2) [
      | inl fine ↦ (
        record registered { votes = insert bytes_dec v.tx_hash v w.votes },
        r.1,
        ground (arith, key_back),
        (λ q. lookup-insert bytes_dec id q r.0 w.peers),
        (refl, refl, refl),
        (λ _. (refl, λ h. lookup-insert bytes_dec v.tx_hash h v w.votes)),
        (λ bad. absurd (bad fine)),
      )
      | inr (e, bad) ↦ (
        registered,
        false,
        ground (arith, key_back),
        (λ q. lookup-insert bytes_dec id q r.0 w.peers),
        (refl, refl, refl),
        (λ fine. absurd (ground arith)),
        (λ _. (refl, λ h. refl)),
      )
    ]
