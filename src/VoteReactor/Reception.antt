-- ===== src/VoteReactor/Reception.antt =====
-- What `Receive` does with the bytes of a peer (tendermint/wendy/reactor.go, proto/wendy).
use wendy.Common.{
  ◌<◌, ◌≤◌, ◌≡◌, refl, Option, none, some, arith, length, inl, inr, ◌⊎◌, Option-cases, returns,
  panics, dec_lt,
}
use wendy.Crypto.{Bytes}
use wendy.VoteReactor.{Vote, must_marshal, must_unmarshal, first_four, log_vote, receive}

first_four_short : (s : Bytes) → length s < 4 → first_four s ≡ panics
unfolding first_four
first_four_short s h = ground arith

first_four_long : (s : Bytes) → 4 ≤ length s → first_four s ≡ returns tt
unfolding first_four
first_four_long s h = ground arith

-- The two ends of a reception.
abbrev pub Accepted : (Bytes → Option Vote) → Bytes → Bytes → Type 0
Accepted unmarshal peer bz =
    (vote : Vote) × (unmarshal bz ≡ some vote) × (4 ≤ length vote.sender) × (4 ≤ length peer)

abbrev pub Fatal : (Bytes → Option Vote) → Bytes → Bytes → Type 0
Fatal unmarshal peer bz =
    (unmarshal bz ≡ none)
    ⊎ ((vote : Vote) × (unmarshal bz ≡ some vote) × ((length vote.sender < 4) ⊎ (length peer < 4)))

-- Either the bytes decode to a vote, the vote's sender and the peer's id have at least four bytes,
-- and Receive returns; or the bytes do not decode, or one of the two has fewer than four bytes,
-- and Receive panics
pub receive-Fatal :
    (unmarshal : Bytes → Option Vote) (peer bz : Bytes)
    → (Accepted unmarshal peer bz × (receive unmarshal peer bz ≡ returns tt))
      ⊎ (Fatal unmarshal peer bz × (receive unmarshal peer bz ≡ panics))
unfolding receive must_unmarshal log_vote
receive-Fatal unmarshal peer bz = elim (Option-cases (unmarshal bz)) [
  | inl bad ↦ inr (inl bad, rw (bad, receive, must_unmarshal, log_vote) refl)
  | inr (vote, good) ↦ elim (dec_lt (length vote.sender) 4) [
    | yes short ↦ inr (
      inr (vote, good, inl short),
      rw (good, first_four_short vote.sender short, receive, must_unmarshal, log_vote) refl,
    )
    | no long ↦ elim (dec_lt (length peer) 4) [
      | yes short ↦ inr (
        inr (vote, good, inr short),
        rw
            (
              good,
              first_four_long vote.sender (omega arith),
              first_four_short peer short,
              receive,
              must_unmarshal,
              log_vote,
            )
            refl,
      )
      | no fine ↦ inl (
        (vote, good, omega arith, omega arith),
        rw
            (
              good,
              first_four_long vote.sender (omega arith),
              first_four_long peer (omega arith),
              receive,
              must_unmarshal,
              log_vote,
            )
            refl,
      )
    ]
  ]
]

pub receive-must_marshal :
    (marshal : Vote → Option Bytes) (unmarshal : Bytes → Option Vote) (peer bz : Bytes)
    (vote : Vote)
    → ((v : Vote) (b : Bytes) → marshal v ≡ some b → unmarshal b ≡ some v)
    → must_marshal marshal vote ≡ returns bz
    → log_vote vote peer ≡ returns tt
    → receive unmarshal peer bz ≡ returns tt
unfolding receive must_unmarshal must_marshal
receive-must_marshal marshal unmarshal peer bz vote inverse sent logged =
    elim (Option-cases (marshal vote)) [
      | inl bad ↦ absurd (ground (arith, bad, sent))
      | inr (b, good) ↦
          let same : b ≡ bz = ground (arith, good, sent) in
          let back = inverse vote bz (rw (← same) good) in rw (back, receive, must_unmarshal) logged
    ]
