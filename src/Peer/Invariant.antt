-- ===== src/Peer/Invariant.antt =====
-- The order of a bucket's votes and `lastSeqSeen` under `Peer.AddVote` of peer.go.
use wendy.Common.{
  ℕ, ◌+◌, ◌<◌, ◌≤◌, ◌≡◌, ◌≢◌, ap, sym, ◌∙◌, subst, Bool, [], ◌∷◌, ◌++◌, Option, none, some, arith,
  All, inl, inr, ◌⊎◌, dec_lt,
}
use wendy.LinkedList.{Element}
use wendy.LinkedList.Ids.{IsValid}
use wendy.Types.{Hash, Vote}
use wendy.Crypto.{Bytes}
use wendy.Peer.{PeerBucket, Error, advance, bucket_add_vote}
use wendy.Peer.Adding.{Votes, Higher, Adds, bucket_add_vote-Adds}
use wendy.Peer.Sequence.{IsSorted, HasSeq, Small, Run, IsOrdered, IsMaximal, Follows}
use wendy.Peer.Placing.{
  nothing_below, Placed, place, Placed-HasSeq, Placed_fresh, Placed-Run, Placed_gapless,
  Placed_maximal,
}

-- The bucket as `AddVote` left it is in order, and if it returned no error, `lastSeqSeen` is at
-- the end of its run again.
abbrev pub Result : PeerBucket → PeerBucket × Bool × Option Error → Type 0
Result b r = IsOrdered r.0 × (r.2 ≡ none → IsMaximal b → IsMaximal r.0)

-- The first vote of a bucket moves `lastSeqSeen` only if its number is 1.
advance_one :
    (n : Element Vote) (s : ℕ)
    → s ≡ 0
    → ((n.value.seq ≡ 1) × (advance (n ∷ []) s ≡ 1))
      ⊎ ((n.value.seq ≢ 1) × (advance (n ∷ []) s ≡ 0))
unfolding advance
advance_one n s zero_seen = ground arith

first_Result :
    (n : Element Vote) (t : ℕ)
    → ((n.value.seq ≡ 1) × (t ≡ 1)) ⊎ ((n.value.seq ≢ 1) × (t ≡ 0))
    → Small t × ((k : ℕ) → 0 < k → k ≤ t → HasSeq k (n ∷ [])) × ¬ HasSeq (t + 1) (n ∷ [])
first_Result n t (inl (one, moved)) =
    (omega arith, (λ k p q. inl (omega arith)), λ h. elim h [ inl a ↦ omega arith | inr b ↦ b ])
first_Result n t (inr (other, still)) =
    (omega arith, (λ k p q. absurd (omega arith)), λ h. elim h [ inl a ↦ omega arith | inr b ↦ b ])

module _ (b : PeerBucket) (o : IsOrdered b) where
  -- An empty bucket has seen nothing.
  empty_last : b.votes.elements ≡ [] → b.last_seq_seen ≡ 0
  empty_last e = elim (dec_lt 0 b.last_seq_seen) [
    | yes h ↦ elim (subst (HasSeq 1) e (o.gapless 1 (omega arith) h)) [ ]
    | no h ↦ omega arith
  ]

  appended-Result :
      (s : ℕ) (n : Element Vote) (r : PeerBucket × Bool × Option Error)
      → Small s
      → n.value.seq ≡ s
      → b.votes.elements ≡ []
      → IsValid r.0.votes
      → r.0.votes.elements ≡ b.votes.elements ++ n ∷ []
      → r.0.last_seq_seen ≡ advance (n ∷ []) b.last_seq_seen
      → Result b r
  appended-Result s n r small same empty valid contents last =
      let whole : r.0.votes.elements ≡ n ∷ [] = contents ∙ ap (λ t. t ++ n ∷ []) empty in
      let (small', run, gap) =
        first_Result n r.0.last_seq_seen
          (rw last (advance_one n b.last_seq_seen (empty_last empty))) in
      (
        record {
          valid = valid;
          sorted = subst IsSorted (sym whole) (tt, tt);
          small = subst (All (λ e. Small e.value.seq)) (sym whole) (omega arith, tt);
          last_small = small';
          gapless = λ k pos le. subst (HasSeq k) (sym whole) (run k pos le);
        },
        λ fine _ h. gap (subst (HasSeq (r.0.last_seq_seen + 1)) whole h),
      )

  inserted-Result :
      (pre ys : Votes) (n : Element Vote) (r : PeerBucket × Bool × Option Error)
      → Placed b.votes.elements pre ys n
      → Small n.value.seq
      → 0 < n.value.seq
      → IsValid r.0.votes
      → r.0.votes.elements ≡ pre ++ n ∷ ys
      → r.0.last_seq_seen ≡ advance (n ∷ ys) b.last_seq_seen
      → Result b r
  inserted-Result pre ys n r p small pos valid contents last =
      let fresh = Placed_fresh _ pre ys n p b.last_seq_seen pos o.gapless in
      let run : Run (n ∷ ys) b.last_seq_seen r.0.last_seq_seen =
        subst (Run (n ∷ ys) b.last_seq_seen) (sym last)
          (Placed-Run _ pre ys n p b.last_seq_seen o.last_small small fresh) in
      (
        record {
          valid = valid;
          sorted = subst IsSorted (sym contents) p.sorted;
          small = subst (All (λ e. Small e.value.seq)) (sym contents) p.small;
          last_small = run.1;
          gapless = λ k pos le.
              subst (HasSeq k) (sym contents)
                (Placed_gapless _ pre ys n p b.last_seq_seen _ o.gapless run k pos le);
        },
        λ fine gap h.
            Placed_maximal _ pre ys n p b.last_seq_seen _ gap run
              (subst (HasSeq (r.0.last_seq_seen + 1)) contents h),
      )

  conflicting-Result :
      (pre ys : Votes) (n : Element Vote) (r : PeerBucket × Bool × Option Error) (e : Error)
      → Placed b.votes.elements pre ys n
      → IsValid r.0.votes
      → r.0.votes.elements ≡ pre ++ n ∷ ys
      → r.0.last_seq_seen ≡ b.last_seq_seen
      → r.2 ≡ some e
      → Result b r
  conflicting-Result pre ys n r e p valid contents last failed = (
    record {
      valid = valid;
      sorted = subst IsSorted (sym contents) p.sorted;
      small = subst (All (λ e. Small e.value.seq)) (sym contents) p.small;
      last_small = subst Small (sym last) o.last_small;
      gapless = λ k pos le.
          subst (HasSeq k) (sym contents)
            (Placed-HasSeq _ pre ys n p k (o.gapless k pos (omega arith)));
    },
    λ fine. absurd (cc),
  )

  unchanged-Result : (r : PeerBucket × Bool × Option Error) → r.0 ≡ b → Result b r
  unchanged-Result r same = (subst IsOrdered (sym same) o, λ _ gap. subst IsMaximal (sym same) gap)

  placed :
      (xs ys : Votes) (item n : Element Vote) (v : Vote)
      → Small v.seq
      → n.value ≡ v
      → b.votes.elements ≡ xs ++ item ∷ ys
      → item.value.seq < v.seq
      → Higher v.seq ys
      → Placed b.votes.elements (xs ++ item ∷ []) ys n
  placed xs ys item n v small same split low high =
      place b.votes.elements xs ys item n split o.sorted o.small
        (subst (λ x. item.value.seq < x.seq) (sym same) low)
        (subst (λ x. Higher x.seq ys) (sym same) high) (subst (λ x. Small x.seq) (sym same) small)

  Adds-Result :
      (sum256 : Bytes → Hash) (v : Vote) (r : PeerBucket × Bool × Option Error)
      → Small v.seq
      → Follows v.seq b.votes.elements
      → IsValid r.0.votes
      → Adds sum256 b v r
      → Result b r
  Adds-Result sum256 v r small follows valid (Adds.appended n same above contents last _ _) =
      appended-Result v.seq n r small (ap (λ x. x.seq) same) (nothing_below v.seq _ follows above)
        valid contents last
  Adds-Result sum256 v r small follows valid (Adds.duplicate xs ys item split seq _ same) =
      unchanged-Result r (ap (λ x. x.0) same)
  Adds-Result sum256 v r small follows valid (Adds.refused xs ys item e split low _ bad same) =
      unchanged-Result r (ap (λ x. x.0) same)
  Adds-Result sum256 v r small follows valid
        (Adds.conflicting xs ys item n e same split low high fits bad contents last _ failed) =
      conflicting-Result (xs ++ item ∷ []) ys n r e
        (placed xs ys item n v small same split low high) valid contents last failed
  Adds-Result sum256 v r small follows valid
        (Adds.inserted xs ys item n same split low high fits good contents last _ _) =
      inserted-Result (xs ++ item ∷ []) ys n r (placed xs ys item n v small same split low high)
        (subst (λ x. Small x.seq) (sym same) small)
        (subst (λ x. 0 < x.seq) (sym same) (omega arith)) valid contents last

-- In a bucket in order (a valid list whose votes rise strictly, with a vote of every number from 1
-- to lastSeqSeen, and no number at 2 ^ 64 - 1), AddVote of a vote whose number is below 2 ^ 64 - 1
-- and not below that of the first vote leaves the bucket in order, on each branch, errors
-- included; and if it returns no error and lastSeqSeen was the last number before a gap, it is so
-- again.
pub bucket_add_vote-IsOrdered :
    (sum256 : Bytes → Hash) (v : Vote) (b : PeerBucket)
    → IsOrdered b
    → Small v.seq
    → Follows v.seq b.votes.elements
    → Result b (bucket_add_vote sum256 v b)
bucket_add_vote-IsOrdered sum256 v b o small follows =
    let (adds, kept) = bucket_add_vote-Adds sum256 b v o.valid in
    Adds-Result b o sum256 v _ small follows kept.0 adds
