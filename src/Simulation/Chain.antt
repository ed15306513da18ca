-- ===== src/Simulation/Chain.antt =====
-- Chains of votes, each with the number and the hash that follow from the one before, and the bucket
-- of a peer that holds one (simulation/node.go, peer.go).
use mathlib.Core.List.{map-append}
use wendy.Common.{
  ℕ, ◌+◌, ◌-◌, ◌^◌, ◌<◌, ◌≡◌, refl, ap, sym, ◌∙◌, subst, Bool, true, List, [], ◌∷◌, ◌++◌, map,
  Option, none, some, arith, length, All-append, All-of-append, length-append,
}
use wendy.Crypto.{Bytes}
use wendy.Types.{Hash, Vote, vote_hash}
use wendy.LinkedList.{Element}
use wendy.LinkedList.Ids.{IsValid, new-IsValid}
use wendy.Peer.{PeerBucket, Error, new_peer_bucket, advance, valid_hashes, bucket_add_vote}
use wendy.Peer.Adding.{Votes, Higher, Adds, following_error, bucket_add_vote-Adds}
use wendy.Peer.Sequence.{Lower, Lower-mono}

snoc-last : {A : Type 0} (xs ys : List A) (a b : A) → xs ++ a ∷ [] ≡ ys ++ b ∷ [] → a ≡ b
snoc-last [] [] a b e = cc
snoc-last [] (y ∷ ys) a b e = absurd (omega (arith, ap length e, length-append ys (b ∷ [])))
snoc-last (x ∷ xs) [] a b e = absurd (omega (arith, ap length e, length-append xs (a ∷ [])))
snoc-last (x ∷ xs) (y ∷ ys) a b e = snoc-last xs ys a b (cc)

module _ (sum256 : Bytes → Hash) where
  -- The vote carries the hash of the one before it.
  abbrev pub Linked : Option Vote → Vote → Type 0
  Linked none v = Unit
  Linked (some p) v = v.prev_hash ≡ vote_hash sum256 p

  -- Votes from the number `k` on, each linked to the one before it.
  abbrev pub Chain : ℕ → Option Vote → List Vote → Type 0
  Chain k prev [] = Unit
  Chain k prev (v ∷ vs) = (v.seq ≡ k) × Linked prev v × Chain (k + 1) (some v) vs

  -- The last vote of the list, and the number after it.
  abbrev pub Ends : Option Vote → ℕ → Votes → Type 0
  Ends none k es = (es ≡ []) × (k ≡ 0)
  Ends (some p) k es = (xs : Votes) × (e : Element Vote) × (es ≡ xs ++ e ∷ []) × (e.value ≡ p)

  -- A bucket that holds a chain up to the number `k`.
  pub record Holds (prev : Option Vote) (k : ℕ) (b : PeerBucket) : Type 0 where
    pub valid : IsValid b.votes
    pub lower : Lower k b.votes.elements
    pub ends : Ends prev k b.votes.elements
    pub reached : b.last_seq_seen ≡ k - 1

  -- What a vote that continues the chain does.
  abbrev pub Continues : Vote → ℕ → PeerBucket → PeerBucket × Bool × Option Error → Type 0
  Continues v k b r =
      Holds (some v) (k + 1) r.0
      × (r.1 ≡ true)
      × (r.2 ≡ none)
      × (map (λ e. e.value) r.0.votes.elements ≡ map (λ e. e.value) b.votes.elements ++ v ∷ [])

  advance_zero :
      (n : Element Vote) (k last : ℕ)
      → k ≡ 0
      → last ≡ k - 1
      → n.value.seq ≡ k
      → advance (n ∷ []) last ≡ k
  unfolding advance
  advance_zero n k last z r s = ground arith

  advance_next :
      (n : Element Vote) (k last : ℕ)
      → 0 < k
      → k + 1 < 2 ^ 64
      → last ≡ k - 1
      → n.value.seq ≡ k
      → advance (n ∷ []) last ≡ k
  unfolding advance
  advance_next n k last pos small r s = ground arith

  valid_hashes_linked :
      (p v : Vote) → v.prev_hash ≡ vote_hash sum256 p → valid_hashes sum256 p v ≡ none
  unfolding valid_hashes
  valid_hashes_linked p v linked = ground arith

  -- Nothing stands behind a vote that has the highest number.
  nothing_behind :
      (v : Vote) (k : ℕ) (xs ys : Votes) (item : Element Vote) (es : Votes)
      → es ≡ xs ++ item ∷ ys
      → Lower k es
      → v.seq ≡ k
      → Higher v.seq ys
      → ys ≡ []
  nothing_behind v k xs [] item es split low s high = refl
  nothing_behind v k xs (y ∷ ys) item es split low s high =
      let (_, here_and_behind) =
        All-of-append (λ e. e.value.seq < k) xs (item ∷ y ∷ ys) (subst (Lower k) split low) in
      absurd (omega (arith, here_and_behind.1.0, high.0))

  -- The vote that the search finds is the last one of the chain.
  found_last :
      (prev : Option Vote) (v : Vote) (k : ℕ) (xs ys : Votes) (item : Element Vote) (es : Votes)
      → es ≡ xs ++ item ∷ ys
      → ys ≡ []
      → Ends prev k es
      → prev ≡ some item.value
  found_last none v k xs ys item es split behind ends =
      absurd (omega (arith, ap length (sym split ∙ ends.0), length-append xs (item ∷ ys)))
  found_last (some p) v k xs ys item es split behind (xs', e, ends, same) =
      let last =
        snoc-last xs xs' item e (sym (subst (λ t. es ≡ xs ++ item ∷ t) behind split) ∙ ends) in
      cc

  fits :
      (prev : Option Vote) (item v : Vote)
      → prev ≡ some item
      → Linked prev v
      → valid_hashes sum256 item v ≡ none
  fits none item v e linked = cc
  fits (some p) item v e linked =
      let same : p ≡ item = cc in
      valid_hashes_linked item v (subst (λ t. v.prev_hash ≡ vote_hash sum256 t) same linked)

  nothing_above :
      (prev : Option Vote) (k : ℕ) (es : Votes)
      → Ends prev k es
      → Lower k es
      → Higher k es
      → (prev ≡ none) × (es ≡ []) × (k ≡ 0)
  nothing_above none k es ends low high = (refl, ends.0, ends.1)
  nothing_above (some p) k es (xs, e, ends, same) low high =
      let (_, l) = All-of-append (λ e. e.value.seq < k) xs (e ∷ []) (subst (Lower k) ends low) in
      let (_, h) = All-of-append (λ e. k < e.value.seq) xs (e ∷ []) (subst (Higher k) ends high) in
      absurd (omega (arith, l.0, h.0))

  map_snoc :
      (es : Votes) (n : Element Vote) (v : Vote)
      → n.value ≡ v
      → map (λ e. e.value) (es ++ n ∷ []) ≡ map (λ e. e.value) es ++ v ∷ []
  map_snoc es n v same =
      map-append (λ e. e.value) es (n ∷ []) ∙ ap (λ t. map (λ e. e.value) es ++ t ∷ []) same

  -- A vote with the next number at the end of the list continues the chain.
  grown :
      (k : ℕ) (b : PeerBucket) (v : Vote) (n : Element Vote) (prev : Option Vote)
      (r : PeerBucket × Bool × Option Error)
      → Holds prev k b
      → n.value ≡ v
      → v.seq ≡ k
      → r.0.votes.elements ≡ b.votes.elements ++ n ∷ []
      → r.0.last_seq_seen ≡ k
      → r.1 ≡ true
      → r.2 ≡ none
      → IsValid r.0.votes
      → Continues v k b r
  grown k b v n prev r h same num contents reached added good valid = (
    record {
      valid = valid;
      lower = subst (Lower (k + 1)) (sym contents) (
          All-append (λ e. e.value.seq < k + 1) b.votes.elements (n ∷ [])
            (Lower-mono k (k + 1) b.votes.elements (omega arith) h.lower)
            (subst (λ t. t.seq < k + 1) (sym same) (omega arith), tt));
      ends = (b.votes.elements, n, contents, same);
      reached = omega arith;
    },
    added,
    good,
    ap (map (λ e. e.value)) contents ∙ map_snoc b.votes.elements n v same,
  )

  step_cases :
      (prev : Option Vote) (k : ℕ) (b : PeerBucket) (v : Vote)
      (r : PeerBucket × Bool × Option Error)
      → Holds prev k b
      → v.seq ≡ k
      → k + 1 < 2 ^ 64
      → Linked prev v
      → IsValid r.0.votes
      → Adds sum256 b v r
      → Continues v k b r
  step_cases prev k b v r h num small linked valid
        (Adds.appended n same above contents last added good) =
      let (_, empty, start) =
        nothing_above prev k b.votes.elements h.ends h.lower
          (subst (λ t. Higher t b.votes.elements) num above) in
      let here : n.value.seq ≡ k = ap (λ t. t.seq) same ∙ num in
      grown k b v n prev r h same num contents
        (last ∙ advance_zero n k b.last_seq_seen start h.reached here) added good valid
  step_cases prev k b v r h num small linked valid (Adds.duplicate xs ys item split same above e) =
      let (_, low) =
        All-of-append (λ e. e.value.seq < k) xs (item ∷ ys) (subst (Lower k) split h.lower) in
      absurd (omega (arith, low.0))
  step_cases prev k b v r h num small linked valid
        (Adds.refused xs ys item e split lower above bad same) =
      let behind = nothing_behind v k xs ys item b.votes.elements split h.lower num above in
      let last = found_last prev v k xs ys item b.votes.elements split behind h.ends in
      let good = fits prev item.value v last linked in cc
  step_cases prev k b v r h num small linked valid
        (Adds.conflicting xs ys item n e same split lower above good bad _ _ _ _) =
      let behind = nothing_behind v k xs ys item b.votes.elements split h.lower num above in
      let none_behind = ap (following_error sum256 v) behind in cc
  step_cases prev k b v r h num small linked valid
        (Adds.inserted xs ys item n same split lower above good ok contents last added fine) =
      let behind = nothing_behind v k xs ys item b.votes.elements split h.lower num above in
      let here : n.value.seq ≡ k = ap (λ t. t.seq) same ∙ num in
      let end : b.votes.elements ≡ xs ++ item ∷ [] =
        subst (λ t. b.votes.elements ≡ xs ++ item ∷ t) behind split in
      grown k b v n prev r h same num
        (contents ∙ ap (λ t. (xs ++ item ∷ []) ++ n ∷ t) behind ∙ ap (λ t. t ++ n ∷ []) (sym end))
        (last
          ∙ ap (λ t. advance (n ∷ t) b.last_seq_seen) behind
          ∙ advance_next n k b.last_seq_seen (omega arith) small h.reached here)
        added fine valid

  pub bucket_add_vote-Continues :
      (prev : Option Vote) (k : ℕ) (b : PeerBucket) (v : Vote)
      → Holds prev k b
      → v.seq ≡ k
      → k + 1 < 2 ^ 64
      → Linked prev v
      → Continues v k b (bucket_add_vote sum256 v b)
  bucket_add_vote-Continues prev k b v h num small linked =
      let (adds, kept) = bucket_add_vote-Adds sum256 b v h.valid in
      step_cases prev k b v (bucket_add_vote sum256 v b) h num small linked kept.0 adds

  pub new_peer_bucket-Holds : Holds none 0 new_peer_bucket
  unfolding new_peer_bucket
  new_peer_bucket-Holds = record {
    valid = new-IsValid;
    lower = tt;
    ends = (refl, refl);
    reached = refl;
  }
