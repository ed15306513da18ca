-- ===== src/Wendy/Quorum.antt =====
-- The quorum of wendy.go and the decisions that are taken by it.
use mathlib.Core.List.{Perm, Permᴰ}
use mathlib.Core.Logic.{∥∥₁_elim}
use mathlib.Core.Path.{ap₂}
use native.Mathlib.Nat.{ℕ_set}
use wendy.Common.{
  ℕ, ◌+◌, ◌*◌, ◌-◌, ◌<◌, ◌≤◌, ◌≡◌, ◌≢◌, refl, ap, sym, ◌∙◌, Bool, not, ◌&&◌, List, [], ◌∷◌, ltb,
  leb, if◌then◌else◌, length, arith, Outcome, returns, panics, pos, negsuc, if_pos,
}
use wendy.Crypto.{PeerId, Pubkey, bytes_dec}
use wendy.Types.{Tx}
use wendy.Peer.{Peer, before, seen, bucket_before}
use wendy.Peer.Buckets.{view}
use wendy.Wendy.{
  Wendy, update_validator_set, honest_parties, honest_majority, count_votes, has_quorum, is_blocked,
  is_blocked_by,
}

-- The number of peers for which the test holds.
unfoldable pub tally : (Peer → Bool) → List (PeerId × Peer) → ℕ
tally test [] = 0
tally test ((id, p) ∷ peers) = (if test p then 1 else 0) + tally test peers

-- Enough votes, for a quorum that is set.
abbrev pub reaches : ℕ → ℕ → Bool
reaches quorum votes = ltb 0 quorum && leb quorum votes

-- The loop stops early, with the result of a full count.
count_votes-tally :
    (fn : Peer → Outcome Bool) (test : Peer → Bool)
    → ((p : Peer) → fn p ≡ returns (test p))
    → (quorum votes : ℕ) (peers : List (PeerId × Peer))
    → count_votes fn quorum votes peers
      ≡ returns (ltb votes quorum && leb quorum (votes + tally test peers))
unfolding count_votes tally
count_votes-tally fn test agree quorum votes [] = ground arith
count_votes-tally fn test agree quorum votes ((id, p) ∷ peers) = ground (
  arith,
  agree p,
  count_votes-tally fn test agree quorum (votes + 1) peers,
  count_votes-tally fn test agree quorum votes peers,
)

-- `hasQuorum` returns true exactly when the quorum is set and at least that many registered peers
-- pass the test.
has_quorum-tally :
    (fn : Peer → Outcome Bool) (test : Peer → Bool) (w : Wendy)
    → ((p : Peer) → fn p ≡ returns (test p))
    → has_quorum fn w ≡ returns (reaches w.quorum (tally test w.peers))
unfolding has_quorum
has_quorum-tally fn test w agree =
    ground (arith, count_votes-tally fn test agree w.quorum 0 w.peers)

-- For two transactions of one label, IsBlocked of the first returns false exactly when the quorum
-- is positive and at least that many registered peers have seen it, and IsBlockedBy returns false
-- exactly when the quorum is positive and at least that many registered peers report the first
-- before the second.
pub is_blocked-tally :
    (w : Wendy) (tx1 tx2 : Tx)
    → tx1.label ≡ tx2.label
    → (is_blocked w tx1 ≡ returns (not (reaches w.quorum (tally (λ p. seen p tx1) w.peers))))
      × (is_blocked_by w tx1 tx2
          ≡ returns (
              not (
                reaches w.quorum
                  (tally (λ p. bucket_before (view tx1.label p) tx1.hash tx2.hash) w.peers))))
unfolding is_blocked is_blocked_by before
is_blocked-tally w tx1 tx2 same = (
  ground (arith, has_quorum-tally (λ p. returns (seen p tx1)) (λ p. seen p tx1) w (λ p. refl)),
  ground (
    arith,
    has_quorum-tally (λ p. before p tx1 tx2)
        (λ p. bucket_before (view tx1.label p) tx1.hash tx2.hash) w
        (λ p. if_pos (bytes_dec tx1.label tx2.label) same _ _),
  ),
)

-- With n validators set, HonestParties is above two thirds of n and at most two thirds of n plus
-- 1; for n above 0 it is at most n and HonestMajority is n less HonestParties, which is below
-- HonestParties; for n = 0 HonestMajority is -1.
pub quorum_bounds :
    (vs : List Pubkey) (w : Wendy)
    → let w' = update_validator_set vs w in
      (2 * length vs < 3 * honest_parties w')
      × (3 * honest_parties w' ≤ 2 * length vs + 3)
      × (0 < length vs
          → (honest_parties w' ≤ length vs)
            × (honest_majority w' ≡ pos (length vs - honest_parties w'))
            × (length vs - honest_parties w' < honest_parties w'))
      × (length vs ≡ 0 → honest_majority w' ≡ negsuc 0)
unfolding update_validator_set honest_parties honest_majority
quorum_bounds vs w =
    (omega arith, omega arith, (λ h. (omega arith, ground arith, omega arith)), λ h. ground arith)

-- IsBlockedBy of two transactions with different labels panics as soon as a peer is registered.
pub is_blocked_by-panics :
    (w : Wendy) (tx1 tx2 : Tx)
    → tx1.label ≢ tx2.label
    → w.peers ≢ []
    → is_blocked_by w tx1 tx2 ≡ panics
unfolding is_blocked_by has_quorum count_votes before
is_blocked_by-panics w tx1 tx2 differ some_peer = go w.peers refl
  where
    go : (peers : List (PeerId × Peer)) → w.peers ≡ peers → is_blocked_by w tx1 tx2 ≡ panics
    go [] e = absurd (some_peer e)
    go ((id, p) ∷ peers) e = ground (arith, e)

tally_perm :
    (test : Peer → Bool) {ps qs : List (PeerId × Peer)}
    → Permᴰ ps qs
    → tally test ps ≡ tally test qs
unfolding tally
tally_perm test Permᴰ.nil = refl
tally_perm test (Permᴰ.cons e p) =
    ap₂ (λ (x : PeerId × Peer) n. (if test x.1 then 1 else 0) + n) e (tally_perm test p)
tally_perm test (Permᴰ.swap {l = l} e f) = omega (
  arith,
  ap (λ (x : PeerId × Peer). if◌then◌else◌ {A = ℕ} (test x.1) 1 0) e,
  ap (λ (x : PeerId × Peer). if◌then◌else◌ {A = ℕ} (test x.1) 1 0) f,
)
tally_perm test (Permᴰ.trans p q) = tally_perm test p ∙ tally_perm test q

-- For any order of the registered peers, IsBlocked of a transaction and IsBlockedBy of two
-- transactions of one label return the same.
pub is_blocked-perm :
    (w : Wendy) (peers : List (PeerId × Peer)) (tx1 tx2 : Tx)
    → Perm w.peers peers
    → tx1.label ≡ tx2.label
    → (is_blocked (record w { peers = peers }) tx1 ≡ is_blocked w tx1)
      × (is_blocked_by (record w { peers = peers }) tx1 tx2 ≡ is_blocked_by w tx1 tx2)
is_blocked-perm w peers tx1 tx2 perm same =
    let same_tally = λ (test : Peer → Bool).
      ∥∥₁_elim perm (ℕ_set (tally test w.peers) (tally test peers)) (λ p. tally_perm test p) in
    let before_both = is_blocked-tally w tx1 tx2 same in
    let after_both = is_blocked-tally (record w { peers = peers }) tx1 tx2 same in
    (
      after_both.0
          ∙ ap (λ n. returns (not (reaches w.quorum n))) (sym (same_tally (λ p. seen p tx1)))
          ∙ sym before_both.0,
      after_both.1
          ∙ ap (λ n. returns (not (reaches w.quorum n)))
              (sym (same_tally (λ p. bucket_before (view tx1.label p) tx1.hash tx2.hash)))
          ∙ sym before_both.1,
    )
