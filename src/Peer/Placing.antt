-- ===== src/Peer/Placing.antt =====
-- A vote put into its place in a sorted bucket (`Peer.AddVote` of peer.go).
use mathlib.Core.List.{append_assoc}
use wendy.Common.{
  ℕ, ◌+◌, ◌<◌, ◌≤◌, ◌≡◌, refl, sym, ◌∙◌, subst, [], ◌∷◌, ◌++◌, arith, All, All-append,
  All-of-append, inl, inr, dec_lt,
}
use wendy.LinkedList.{Element}
use wendy.Types.{Vote}
use wendy.Peer.{advance}
use wendy.Peer.Adding.{Votes, Higher}
use wendy.Peer.Sequence.{
  Lower, IsSorted, HasSeq, Small, HasSeq-append_left, HasSeq-append_right, HasSeq-of-append,
  HasSeq-Lower, HasSeq-Higher, Higher-mono, Lower-mono, IsSorted-split, IsSorted-join, Run,
  advance-Run, Follows,
}

pub nothing_below : (s : ℕ) (es : Votes) → Follows s es → Higher s es → es ≡ []
nothing_below s [] f h = refl
nothing_below s (e ∷ es) f h = absurd (omega arith)

-- A vote that is put between lower and higher votes.
pub record Placed (es pre ys : Votes) (n : Element Vote) : Type 0 where
  pub sorted : IsSorted (pre ++ n ∷ ys)
  pub small : All (λ e. Small e.value.seq) (pre ++ n ∷ ys)
  pub low : Lower n.value.seq pre
  pub high : Higher n.value.seq ys
  pub later : IsSorted ys
  pub later_small : All (λ e. Small e.value.seq) ys
  pub same : es ≡ pre ++ ys

pub place :
    (es xs ys : Votes) (item n : Element Vote)
    → es ≡ xs ++ item ∷ ys
    → IsSorted es
    → All (λ e. Small e.value.seq) es
    → item.value.seq < n.value.seq
    → Higher n.value.seq ys
    → Small n.value.seq
    → Placed es (xs ++ item ∷ []) ys n
place es xs ys item n split s m lower high small =
    let pre = xs ++ item ∷ [] in
    let same : es ≡ pre ++ ys = split ∙ sym (append_assoc xs (item ∷ []) ys) in
    let (low, before, _, later) = IsSorted-split xs item ys (subst IsSorted split s) in
    let low' : Lower n.value.seq pre =
      All-append (λ e. e.value.seq < n.value.seq) xs (item ∷ [])
        (Lower-mono item.value.seq n.value.seq xs (omega arith) low) (lower, tt) in
    let before' = IsSorted-join xs item [] low before tt tt in
    let (sx, sy) =
      All-of-append (λ e. Small e.value.seq) pre ys (subst (All (λ e. Small e.value.seq)) same m) in
    record {
      sorted = IsSorted-join pre n ys low' before' high later;
      small = All-append (λ e. Small e.value.seq) pre (n ∷ ys) sx (small, sy);
      low = low';
      high = high;
      later = later;
      later_small = sy;
      same = same;
    }

module _ (es pre ys : Votes) (n : Element Vote) (p : Placed es pre ys n) where
  -- No number is lost.
  pub Placed-HasSeq : (k : ℕ) → HasSeq k es → HasSeq k (pre ++ n ∷ ys)
  Placed-HasSeq k h = elim (HasSeq-of-append k pre ys (subst (HasSeq k) p.same h)) [
    | inl a ↦ HasSeq-append_left k pre (n ∷ ys) a
    | inr b ↦ HasSeq-append_right k pre (n ∷ ys) (inr b)
  ]

  -- The number of the new vote is new, and so above a gapless run.
  pub Placed_fresh :
      (last : ℕ) → 0 < n.value.seq → ((k : ℕ) → 0 < k → k ≤ last → HasSeq k es) → last < n.value.seq
  Placed_fresh last pos gapless = elim (dec_lt last n.value.seq) [
    | yes h ↦ h
    | no h ↦
        let there = subst (HasSeq n.value.seq) p.same (gapless n.value.seq pos (omega arith)) in
        elim (HasSeq-of-append n.value.seq pre ys there) [
          | inl a ↦ absurd (omega (arith, HasSeq-Lower n.value.seq n.value.seq pre p.low a))
          | inr b ↦ absurd (omega (arith, HasSeq-Higher n.value.seq n.value.seq ys p.high b))
        ]
  ]

  pub Placed-Run :
      (last : ℕ)
      → Small last
      → Small n.value.seq
      → last < n.value.seq
      → Run (n ∷ ys) last (advance (n ∷ ys) last)
  Placed-Run last small small' above =
      advance-Run (n ∷ ys) last small (small', p.later_small)
        (above, Higher-mono n.value.seq last ys (omega arith) p.high) (p.high, p.later)

  pub Placed_gapless :
      (last t : ℕ)
      → ((k : ℕ) → 0 < k → k ≤ last → HasSeq k es)
      → Run (n ∷ ys) last t
      → (k : ℕ) → 0 < k
      → k ≤ t
      → HasSeq k (pre ++ n ∷ ys)
  Placed_gapless last t gapless run k pos le = elim (dec_lt last k) [
    | yes h ↦ HasSeq-append_right k pre (n ∷ ys) (run.2 k h le)
    | no h ↦ Placed-HasSeq k (gapless k pos (omega arith))
  ]

  pub Placed_maximal :
      (last t : ℕ) → ¬ HasSeq (last + 1) es → Run (n ∷ ys) last t → ¬ HasSeq (t + 1) (pre ++ n ∷ ys)
  Placed_maximal last t gap run h = elim (HasSeq-of-append (t + 1) pre (n ∷ ys) h) [
    | inr b ↦ run.3 b
    | inl a ↦
        let below = HasSeq-Lower (t + 1) n.value.seq pre p.low a in
        elim (dec_lt last t) [
          | yes moved ↦ elim (run.2 t moved (omega arith)) [
            | inl at_n ↦ omega arith
            | inr behind ↦ omega (arith, HasSeq-Higher t n.value.seq ys p.high behind)
          ]
          | no still ↦
              let same : t ≡ last = omega arith in
              gap (
                subst (HasSeq (last + 1)) (sym p.same)
                  (HasSeq-append_left (last + 1) pre ys (subst (λ s. HasSeq (s + 1) pre) same a)))
        ]
  ]
