-- ===== src/VoteReactor/Sequences.antt =====
-- The sequence numbers of the reactor's votes (tendermint/wendy/reactor.go).
use wendy.Common.{
  Option, ℕ, ◌+◌, ◌%◌, ◌^◌, ◌<◌, ◌≤◌, ◌≡◌, refl, ap, sym, ◌∙◌, subst, ◌&&◌, List, [], ◌∷◌, ◌++◌,
  arith, ltb, leb, ◌==◌, if◌then◌else◌, length, length-append,
}
use wendy.Crypto.{Bytes}
use wendy.VoteReactor.{
  Vote, Sending, Reactor, new_reactor, on_new_tx, add_peer, new_vote, take_tx, send_vote, Step,
  Reach,
}

-- The votes with a sequence number.
unfoldable pub votes_with : ℕ → List Sending → ℕ
votes_with k [] = 0
votes_with k (s ∷ ss) = (if s.vote.sequence == k then 1 else 0) + votes_with k ss

votes_with-append :
    (k : ℕ) (xs ys : List Sending) → votes_with k (xs ++ ys) ≡ votes_with k xs + votes_with k ys
unfolding votes_with
votes_with-append k [] ys = omega arith
votes_with-append k (x ∷ xs) ys = omega (arith, votes_with-append k xs ys)

-- The number of votes that were made, sent or not.
abbrev pub made_count : Reactor → ℕ
made_count r = length r.made + length r.sent

abbrev pub HasNumbers : Reactor → Type 0
HasNumbers r =
    (r.seq ≡ made_count r)
    × ((k : ℕ)
        → votes_with k r.made + votes_with k r.sent
          ≡ (if ltb 0 k && leb k (made_count r) then 1 else 0))

one_more :
    (k n a s : ℕ)
    → a ≡ (if ltb 0 k && leb k n then 1 else 0)
    → s ≡ n + 1
    → a + (if s == k then 1 else 0) ≡ (if ltb 0 k && leb k (n + 1) then 1 else 0)
one_more k n a s old e = ground arith

-- A vote that is made has the number after the last one.
taken-HasNumbers :
    (r : Reactor) (x : Sending)
    → made_count r + 1 < 2 ^ 64
    → x.vote.sequence ≡ (r.seq + 1) % 2 ^ 64
    → HasNumbers r
    → ((r.seq + 1) % 2 ^ 64 ≡ length (r.made ++ x ∷ []) + length r.sent)
      × ((k : ℕ)
          → votes_with k (r.made ++ x ∷ []) + votes_with k r.sent
            ≡ (if ltb 0 k && leb k (length (r.made ++ x ∷ []) + length r.sent) then 1 else 0))
unfolding votes_with
taken-HasNumbers r x small number (seq, all) =
    let more = length-append r.made (x ∷ []) in
    let count : length (r.made ++ x ∷ []) + length r.sent ≡ made_count r + 1 =
      omega (arith, more) in
    (
      omega (arith, more),
      λ k.
          subst
            (λ n.
              votes_with k (r.made ++ x ∷ []) + votes_with k r.sent
              ≡ (if ltb 0 k && leb k n then 1 else 0))
            (sym count)
            (omega (
              arith,
              votes_with-append k r.made (x ∷ []),
              one_more k (made_count r) _ x.vote.sequence (all k) (omega arith),
            )),
    )

-- A vote that is sent has the number that it was made with.
sent-HasNumbers :
    (r : Reactor) (pre : List Sending) (x : Sending) (post : List Sending)
    → r.made ≡ pre ++ x ∷ post
    → (length (pre ++ post) + length (r.sent ++ x ∷ []) ≡ made_count r)
      × ((k : ℕ)
          → votes_with k (pre ++ post) + votes_with k (r.sent ++ x ∷ [])
            ≡ votes_with k r.made + votes_with k r.sent)
unfolding votes_with
sent-HasNumbers r pre x post split = (
  omega (
    arith,
    ap length split,
    length-append pre post,
    length-append pre (x ∷ post),
    length-append r.sent (x ∷ []),
  ),
  λ k. omega (
    arith,
    ap (votes_with k) split,
    votes_with-append k pre post,
    votes_with-append k pre (x ∷ post),
    votes_with-append k r.sent (x ∷ []),
  ),
)

module _ (tx_hash : Bytes → Bytes) (marshal : Vote → Option Bytes) where
  Step-grows : {r t : Reactor} → Step tx_hash marshal r t → made_count r ≤ made_count t
  unfolding on_new_tx add_peer take_tx send_vote
  Step-grows (Step.new_tx tx) = omega arith
  Step-grows (Step.peer_added peer) = omega arith
  Step-grows (Step.peer_gone pre peer post split) = omega arith
  Step-grows {r} (Step.tx_taken now peer pre tx post routine split) =
      let x : Sending = record { peer = peer; vote = (new_vote tx_hash now tx r).1 } in
      omega (arith, length-append r.made (x ∷ []))
  Step-grows {r} (Step.vote_sent pre s post bz split good logged) =
      omega (arith, (sent-HasNumbers r pre s post split).0)

  Step-HasNumbers :
      {r t : Reactor}
      → Step tx_hash marshal r t
      → made_count t < 2 ^ 64
      → HasNumbers r
      → HasNumbers t
  unfolding on_new_tx add_peer take_tx send_vote
  Step-HasNumbers (Step.new_tx tx) small has = has
  Step-HasNumbers (Step.peer_added peer) small has = has
  Step-HasNumbers (Step.peer_gone pre peer post split) small has = has
  Step-HasNumbers {r} (Step.tx_taken now peer pre tx post routine split) small has =
      let x : Sending = record { peer = peer; vote = (new_vote tx_hash now tx r).1 } in
      taken-HasNumbers r x (omega (arith, length-append r.made (x ∷ []))) refl has
  Step-HasNumbers {r} (Step.vote_sent pre s post bz split good logged) small (seq, all) =
      let (count, same) = sent-HasNumbers r pre s post split in
      (
        seq ∙ sym count,
        λ k. same k ∙ all k ∙ ap (λ n. if ltb 0 k && leb k n then 1 else 0) (sym count),
      )

  -- In every run of the reactor's goroutines in which fewer than 2 ^ 64 votes are made, the
  -- counter is the number of votes made, and each of the numbers from 1 to it is in exactly one
  -- vote, made for one peer and not yet sent or sent to it, and no other number is in any
  pub Reach-HasNumbers :
      (id : Bytes) {t : Reactor}
      → Reach tx_hash marshal (new_reactor id) t
      → made_count t < 2 ^ 64
      → HasNumbers t
  unfolding new_reactor votes_with
  Reach-HasNumbers id Reach.start small = (refl, λ k. ground arith)
  Reach-HasNumbers id (Reach.later {s} r step) small =
      Step-HasNumbers step small (Reach-HasNumbers id r (omega (arith, Step-grows step)))
