-- ===== src/Peer/Sequence.antt =====
-- The order of a bucket's votes and `lastSeqSeen` (peer.go).
use wendy.Common.{
  ℕ, ◌+◌, ◌^◌, ◌<◌, ◌≤◌, ◌≡◌, refl, subst, [], ◌∷◌, ◌++◌, ◌==◌, arith, All, All-append,
  All-of-append, inl, inr, Bool-cases, ◌⊎◌, dec_lt,
}
use wendy.LinkedList.{Element}
use wendy.LinkedList.Ids.{IsValid}
use wendy.Types.{Vote}
use wendy.Peer.{PeerBucket, next_seq, advance}
use wendy.Peer.Adding.{Votes, Higher}

abbrev pub Lower : ℕ → Votes → Type 0
Lower s = All (λ e. e.value.seq < s)

-- Sequence numbers rise along the list.
abbrev pub IsSorted : Votes → Type 0
IsSorted [] = Unit
IsSorted (e ∷ es) = Higher e.value.seq es × IsSorted es

-- Some vote has the sequence number.
abbrev pub HasSeq : ℕ → Votes → Type 0
HasSeq k [] = ⊥
HasSeq k (e ∷ es) = (e.value.seq ≡ k) ⊎ HasSeq k es

-- Below the greatest `uint64`, so that the number after it is not 0.
abbrev pub Small : ℕ → Type 0
Small s = s + 1 < 2 ^ 64

pub HasSeq-append_left : (k : ℕ) (xs ys : Votes) → HasSeq k xs → HasSeq k (xs ++ ys)
HasSeq-append_left k [] ys h = elim h [ ]
HasSeq-append_left k (x ∷ xs) ys (inl e) = inl e
HasSeq-append_left k (x ∷ xs) ys (inr h) = inr (HasSeq-append_left k xs ys h)

pub HasSeq-append_right : (k : ℕ) (xs ys : Votes) → HasSeq k ys → HasSeq k (xs ++ ys)
HasSeq-append_right k [] ys h = h
HasSeq-append_right k (x ∷ xs) ys h = inr (HasSeq-append_right k xs ys h)

pub HasSeq-of-append : (k : ℕ) (xs ys : Votes) → HasSeq k (xs ++ ys) → HasSeq k xs ⊎ HasSeq k ys
HasSeq-of-append k [] ys h = inr h
HasSeq-of-append k (x ∷ xs) ys (inl e) = inl (inl e)
HasSeq-of-append k (x ∷ xs) ys (inr h) = elim (HasSeq-of-append k xs ys h) [
  | inl a ↦ inl (inr a)
  | inr b ↦ inr b
]

pub HasSeq-Lower : (k s : ℕ) (xs : Votes) → Lower s xs → HasSeq k xs → k < s
HasSeq-Lower k s [] l h = elim h [ ]
HasSeq-Lower k s (x ∷ xs) l (inl e) = omega arith
HasSeq-Lower k s (x ∷ xs) l (inr h) = HasSeq-Lower k s xs l.1 h

pub HasSeq-Higher : (k s : ℕ) (xs : Votes) → Higher s xs → HasSeq k xs → s < k
HasSeq-Higher k s [] l h = elim h [ ]
HasSeq-Higher k s (x ∷ xs) l (inl e) = omega arith
HasSeq-Higher k s (x ∷ xs) l (inr h) = HasSeq-Higher k s xs l.1 h

pub Higher-mono : (s t : ℕ) (xs : Votes) → t ≤ s → Higher s xs → Higher t xs
Higher-mono s t [] h l = tt
Higher-mono s t (x ∷ xs) h l = (omega arith, Higher-mono s t xs h l.1)

pub Lower-mono : (s t : ℕ) (xs : Votes) → s ≤ t → Lower s xs → Lower t xs
Lower-mono s t [] h l = tt
Lower-mono s t (x ∷ xs) h l = (omega arith, Lower-mono s t xs h l.1)

pub IsSorted-split :
    (xs : Votes) (e : Element Vote) (ys : Votes)
    → IsSorted (xs ++ e ∷ ys)
    → Lower e.value.seq xs × IsSorted xs × Higher e.value.seq ys × IsSorted ys
IsSorted-split [] e ys s = (tt, tt, s.0, s.1)
IsSorted-split (x ∷ xs) e ys s =
    let (low, before, high, later) = IsSorted-split xs e ys s.1 in
    let (near, far) = All-of-append (λ f. x.value.seq < f.value.seq) xs (e ∷ ys) s.0 in
    ((far.0, low), (near, before), high, later)

pub IsSorted-join :
    (xs : Votes) (e : Element Vote) (ys : Votes)
    → Lower e.value.seq xs
    → IsSorted xs
    → Higher e.value.seq ys
    → IsSorted ys
    → IsSorted (xs ++ e ∷ ys)
IsSorted-join [] e ys low before high later = (high, later)
IsSorted-join (x ∷ xs) e ys low before high later = (
  All-append (λ f. x.value.seq < f.value.seq) xs (e ∷ ys) before.0
      (low.0, Higher-mono e.value.seq x.value.seq ys (omega arith) high),
  IsSorted-join xs e ys low.1 before.1 high later,
)

-- Nothing moves where every vote is above the next number.
pub advance_stays : (es : Votes) (s : ℕ) → Small s → Higher (s + 1) es → advance es s ≡ s
unfolding advance
advance_stays [] s small h = refl
advance_stays (e ∷ es) s small h = ground (arith, advance_stays es s small h.1)

-- The votes hold every number above `s` up to `t`, and not the one after.
abbrev pub Run : Votes → ℕ → ℕ → Type 0
Run es s t = (s ≤ t) × Small t × ((k : ℕ) → s < k → k ≤ t → HasSeq k es) × ¬ HasSeq (t + 1) es

pub Run-hit :
    (e : Element Vote) (es : Votes) (s t : ℕ)
    → e.value.seq ≡ s + 1
    → Run es (s + 1) t
    → Run (e ∷ es) s t
Run-hit e es s t same (le, small, run, gap) = (
  omega arith,
  small,
  (λ k p q. elim (dec_lt (s + 1) k) [ yes r ↦ inr (run k r q) | no r ↦ inl (omega arith) ]),
  λ h. elim h [ inl a ↦ omega arith | inr b ↦ gap b ],
)

pub Run-miss :
    (e : Element Vote) (es : Votes) (s : ℕ)
    → Small s
    → s + 1 < e.value.seq
    → Higher e.value.seq es
    → Run (e ∷ es) s s
Run-miss e es s small above high = (
  omega arith,
  small,
  (λ k p q. absurd (omega arith)),
  λ h. elim h [
    | inl a ↦ omega arith
    | inr b ↦ omega (arith, HasSeq-Higher (s + 1) e.value.seq es high b)
  ],
)

-- The run over sorted votes above `s` ends at the last number before a gap.
pub advance-Run :
    (es : Votes) (s : ℕ)
    → Small s
    → All (λ e. Small e.value.seq) es
    → Higher s es
    → IsSorted es
    → Run es s (advance es s)
unfolding advance
advance-Run [] s small smalls high sorted =
    (omega arith, small, (λ k p q. absurd (omega arith)), λ h. h)
advance-Run (e ∷ es) s small smalls high sorted = elim (Bool-cases (e.value.seq == next_seq s)) [
  | inl hit ↦
      let same : e.value.seq ≡ s + 1 = ground arith in
      let step : next_seq s ≡ s + 1 = omega arith in
      let ih =
        advance-Run es (s + 1) (omega arith) smalls.1
          (Higher-mono e.value.seq (s + 1) es (omega arith) sorted.0) sorted.1 in
      subst (Run (e ∷ es) s) (rw (hit, advance, step)) (Run-hit e es s _ same ih)
  | inr miss ↦
      let above : s + 1 < e.value.seq = ground arith in
      let stay =
        advance_stays es s small (Higher-mono e.value.seq (s + 1) es (omega arith) sorted.0) in
      subst (Run (e ∷ es) s) (rw (miss, advance, stay)) (Run-miss e es s small above sorted.0)
]

-- What holds of a bucket after every call of `AddVote`, failed ones included.
pub record IsOrdered (b : PeerBucket) : Type 0 where
  pub valid : IsValid b.votes
  pub sorted : IsSorted b.votes.elements
  pub small : All (λ e. Small e.value.seq) b.votes.elements
  pub last_small : Small b.last_seq_seen
  -- No gap up to `lastSeqSeen`.
  pub gapless : (k : ℕ) → 0 < k → k ≤ b.last_seq_seen → HasSeq k b.votes.elements

-- `lastSeqSeen` stands at the end of the run.
abbrev pub IsMaximal : PeerBucket → Type 0
IsMaximal b = ¬ HasSeq (b.last_seq_seen + 1) b.votes.elements

-- The new number is not below the first vote of the list.
abbrev pub Follows : ℕ → Votes → Type 0
Follows s [] = Unit
Follows s (e ∷ es) = e.value.seq ≤ s
