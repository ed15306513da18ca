-- ===== src/Peer/Adding.antt =====
-- `Peer.AddVote` of peer.go, branch by branch, on a list of votes in any order.
use mathlib.Core.List.{reverse, append_assoc, reverse-reverse, reverse-append, reverse-cons}
use wendy.Common.{
  ℕ, ◌<◌, ◌≤◌, ◌≡◌, refl, ap, sym, ◌∙◌, subst, Bool, true, false, List, [], ◌∷◌, ◌++◌, Option, none,
  some, leb, ◌==◌, arith, All, All-reverse, All-mono, find, find-some, find-none, inl, inr,
  Bool-cases, Option-cases, ◌⊎◌, leb→le,
}
use wendy.LinkedList.Ids.{IsValid, insert_after-split, push_back-split, after-split, from_id-split}
use wendy.LinkedList.Searches.{first-find}
use wendy.LinkedList.Loops.{visited}
use wendy.LinkedList.{
  Element, GoList, first, backward, insert_after, push_back, next, from_id, first_of_list,
  is_backward, after,
}
use wendy.Types.{Hash, Vote}
use wendy.Crypto.{Bytes}
use wendy.Peer.{
  PeerBucket, Error, advance, advance_from, valid_hashes, check_following, bucket_add_vote,
}

abbrev pub Votes : Type 0
Votes = List (Element Vote)

-- All votes have a higher sequence number.
abbrev pub Higher : ℕ → Votes → Type 0
Higher s = All (λ e. s < e.value.seq)

-- The vote does not fit the one that follows it in the list.
abbrev pub following_error : (Bytes → Hash) → Vote → Votes → Option Error
following_error sum256 v [] = none
following_error sum256 v (f ∷ fs) = valid_hashes sum256 v f.value

-- What adding a vote to a bucket does, by the branches of the code. `xs`, `item` and `ys` split the
-- list at the last vote whose sequence number is not above that of the new vote.
pub data Adds (sum256 : Bytes → Hash) (b : PeerBucket) (v : Vote)
    (r : PeerBucket × Bool × Option Error) : Type 0 where
  -- Every vote has a higher number (or there is none): the vote goes to the end of the list.
  appended :
      (n : Element Vote)
      → n.value ≡ v
      → Higher v.seq b.votes.elements
      → r.0.votes.elements ≡ b.votes.elements ++ n ∷ []
      → r.0.last_seq_seen ≡ advance (n ∷ []) b.last_seq_seen
      → r.1 ≡ true
      → r.2 ≡ none
      → Adds sum256 b v r
  duplicate :
      (xs ys : Votes) (item : Element Vote)
      → b.votes.elements ≡ xs ++ item ∷ ys
      → item.value.seq ≡ v.seq
      → Higher v.seq ys
      → r ≡ (b, false, none)
      → Adds sum256 b v r
  -- The previous vote does not fit: nothing changes.
  refused :
      (xs ys : Votes) (item : Element Vote) (e : Error)
      → b.votes.elements ≡ xs ++ item ∷ ys
      → item.value.seq < v.seq
      → Higher v.seq ys
      → valid_hashes sum256 item.value v ≡ some e
      → r ≡ (b, false, some e)
      → Adds sum256 b v r
  -- The next vote does not fit: the vote stays in the list.
  conflicting :
      (xs ys : Votes) (item n : Element Vote) (e : Error)
      → n.value ≡ v
      → b.votes.elements ≡ xs ++ item ∷ ys
      → item.value.seq < v.seq
      → Higher v.seq ys
      → valid_hashes sum256 item.value v ≡ none
      → following_error sum256 v ys ≡ some e
      → r.0.votes.elements ≡ (xs ++ item ∷ []) ++ n ∷ ys
      → r.0.last_seq_seen ≡ b.last_seq_seen
      → r.1 ≡ false
      → r.2 ≡ some e
      → Adds sum256 b v r
  inserted :
      (xs ys : Votes) (item n : Element Vote)
      → n.value ≡ v
      → b.votes.elements ≡ xs ++ item ∷ ys
      → item.value.seq < v.seq
      → Higher v.seq ys
      → valid_hashes sum256 item.value v ≡ none
      → following_error sum256 v ys ≡ none
      → r.0.votes.elements ≡ (xs ++ item ∷ []) ++ n ∷ ys
      → r.0.last_seq_seen ≡ advance (n ∷ ys) b.last_seq_seen
      → r.1 ≡ true
      → r.2 ≡ none
      → Adds sum256 b v r

above_of_false : (a s : ℕ) → leb a s ≡ false → s < a
above_of_false a s h = ground arith

-- The backward search finds the last vote that is not above, or there is none.
last_not_above :
    (s : ℕ) (l : GoList Vote)
    → IsValid l
    → ((first (λ e. leb e.value.seq s) (backward ∷ []) l ≡ none) × Higher s l.elements)
      ⊎ ((item : Element Vote) × (xs ys : Votes) × (first (λ e. leb e.value.seq s) (backward ∷ []) l
            ≡ some item)
          × (l.elements ≡ xs ++ item ∷ ys)
          × (item.value.seq ≤ s)
          × Higher s ys)
unfolding visited is_backward
last_not_above s l valid =
    let test = λ (e : Element Vote). leb e.value.seq s in
    let above =
      λ (e : Element Vote) (h : leb e.value.seq s ≡ false). above_of_false e.value.seq s h in
    let looked = first-find test (backward ∷ []) l valid in
    elim (Option-cases (find test (reverse l.elements))) [
      | inl missing ↦ inl (
        looked ∙ missing,
        subst (Higher s) (reverse-reverse l.elements) (
            All-reverse (λ e. s < e.value.seq) (reverse l.elements)
              (All-mono (reverse l.elements) above (find-none test (reverse l.elements) missing))),
      )
      | inr (item, found) ↦
          let (pre, post, split, hit, misses) = find-some test (reverse l.elements) found in
          inr (
            item,
            reverse post,
            reverse pre,
            looked ∙ found,
            sym (reverse-reverse l.elements)
                ∙ ap reverse split
                ∙ reverse-append pre (item ∷ post)
                ∙ ap (λ t. t ++ reverse pre) (reverse-cons item post)
                ∙ append_assoc (reverse post) (item ∷ []) (reverse pre),
            leb→le item.value.seq s hit,
            All-reverse (λ e. s < e.value.seq) pre (All-mono pre above misses),
          )
    ]

-- The check against the next vote, where the votes behind the new one are `ys`.
check_following-eq :
    (sum256 : Bytes → Hash) (c : PeerBucket) (v : Vote) (n : Element Vote) (ys : Votes)
    → next c.votes n ≡ first_of_list ys
    → check_following sum256 c v n
      ≡ elim (following_error sum256 v ys) [ none ↦ advance_from c n | some e ↦ (c, false, some e) ]
unfolding check_following first_of_list
check_following-eq sum256 c v n [] h = rw (h, check_following)
check_following-eq sum256 c v n (f ∷ fs) h = rw (h, check_following) (ground arith)

module _ (sum256 : Bytes → Hash) (b : PeerBucket) (v : Vote) (valid : IsValid b.votes) where
  -- What every branch keeps: a valid list, and the committed hashes.
  abbrev pub Kept : PeerBucket × Bool × Option Error → Type 0
  Kept r = IsValid r.0.votes × (r.0.commited_hashes ≡ b.commited_hashes)

  Adds-last :
      Higher v.seq b.votes.elements
      → first (λ e. leb e.value.seq v.seq) (backward ∷ []) b.votes ≡ none
      → let r = bucket_add_vote sum256 v b in Adds sum256 b v r × Kept r
  unfolding bucket_add_vote advance_from
  Adds-last above missing =
      let (same, contents, valid', apart) = push_back-split v b.votes valid in
      let n = (push_back v b.votes).0 in
      let rest = ap (from_id n.id) contents ∙ from_id-split n b.votes.elements [] apart in
      rw (missing, bucket_add_vote)
        (
          Adds.appended n same above contents (ap (λ t. advance t b.last_seq_seen) rest) refl refl,
          (valid', refl),
        )

  -- The end of `AddVote` once the vote stands behind `item`.
  Adds-behind :
      (xs ys : Votes) (item : Element Vote)
      → b.votes.elements ≡ xs ++ item ∷ ys
      → item.value.seq < v.seq
      → Higher v.seq ys
      → valid_hashes sum256 item.value v ≡ none
      → let (n, votes) = insert_after v item b.votes in
        let r = check_following sum256 (record b { votes = votes }) v n in
        Adds sum256 b v r × Kept r
  unfolding advance_from next
  Adds-behind xs ys item split lower above fits =
      let (same, contents, valid', apart) = insert_after-split v b.votes item xs ys valid split in
      let n = (insert_after v item b.votes).0 in
      let pre = xs ++ item ∷ [] in
      let rest = ap (from_id n.id) contents ∙ from_id-split n pre ys apart in
      let following = ap (after n.id) contents ∙ after-split n pre ys apart in
      let votes = (insert_after v item b.votes).1 in
      let checked = check_following-eq sum256 (record b { votes = votes }) v n ys following in
      elim (Option-cases (following_error sum256 v ys)) [
        | inl good ↦
            rw (checked, good)
              (
                Adds.inserted xs ys item n same split lower above fits good contents
                    (ap (λ t. advance t b.last_seq_seen) rest) refl refl,
                (valid', refl),
              )
        | inr (e, bad) ↦
            rw (checked, bad)
              (
                Adds.conflicting xs ys item n e same split lower above fits bad contents refl refl
                    refl,
                (valid', refl),
              )
      ]

  -- On a valid list AddVote follows one of five branches, each with its list, its lastSeqSeen and
  -- its results: put at the end where every vote has a higher number, ignored as a duplicate,
  -- refused by the vote in front, inserted and refused by the vote behind, or inserted; the list
  -- stays valid and the committed hashes stay.
  pub bucket_add_vote-Adds : let r = bucket_add_vote sum256 v b in Adds sum256 b v r × Kept r
  unfolding bucket_add_vote
  bucket_add_vote-Adds = elim (last_not_above v.seq b.votes valid) [
    | inl (missing, above) ↦ Adds-last above missing
    | inr (item, xs, ys, found, split, low, above) ↦ elim (Bool-cases (item.value.seq == v.seq)) [
      | inl same ↦
          rw (found, same, bucket_add_vote)
            (Adds.duplicate xs ys item split (ground arith) above refl, (valid, refl))
      | inr other ↦
          let lower : item.value.seq < v.seq = ground arith in
          elim (Option-cases (valid_hashes sum256 item.value v)) [
            | inr (e, bad) ↦
                rw (found, other, bad, bucket_add_vote)
                  (Adds.refused xs ys item e split lower above bad refl, (valid, refl))
            | inl fits ↦
                rw (found, other, fits, bucket_add_vote)
                  (Adds-behind xs ys item split lower above fits)
          ]
    ]
  ]
