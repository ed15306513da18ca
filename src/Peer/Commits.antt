-- ===== src/Peer/Commits.antt =====
-- `UpdateTxSet` of peer.go: what a committed block changes in a peer, and what that does to the
-- reported order.
use wendy.Common.{
  ◌≡◌, refl, sym, ◌∙◌, true, false, List, [], ◌∷◌, ite, arith, insert, lookup-insert, inl, inr, ◌⊎◌,
  ◌↔◌, returns, Bool-cases,
}
use mathlib.Core.Bool.{false≢true}
use wendy.Crypto.{Bytes, bytes_dec}
use wendy.Types.{Hash, Tx}
use wendy.Peer.{Peer, bucket, set_bucket, update_tx_set, bucket_before, is_commited, before}
use wendy.Peer.Buckets.{view, view-set_bucket, view-bucket}

-- Some transaction of the list has the label and the hash.
abbrev pub Names : Bytes → Hash → List Tx → Type 0
Names l h [] = ⊥
Names l h (tx ∷ txs) = ((tx.label ≡ l) × (tx.hash ≡ h)) ⊎ Names l h txs

commit_one :
    (tx : Tx) (p : Peer) (l : Bytes)
    → let (p', b) = bucket tx.label p in
      view l (
        set_bucket tx.label
          (record b { commited_hashes = insert bytes_dec tx.hash tt b.commited_hashes })
          p')
      ≡ ite
          (bytes_dec tx.label l)
          (record (view l p) {
            commited_hashes = insert bytes_dec tx.hash tt (view l p).commited_hashes;
          })
          (view l p)
commit_one tx p l = ground (
  arith,
  view-set_bucket tx.label l
      (record (view tx.label p) {
        commited_hashes = insert bytes_dec tx.hash tt (view tx.label p).commited_hashes;
      })
      (bucket tx.label p).0,
  view-bucket tx.label l p,
)

-- One step of the loop.
abbrev committed : Tx → Peer → Peer
committed tx p =
    let (p', b) = bucket tx.label p in
    set_bucket tx.label
      (record b { commited_hashes = insert bytes_dec tx.hash tt b.commited_hashes }) p'

committed_step :
    (tx : Tx) (p : Peer) (l : Bytes) (h : Hash)
    → (is_commited (view l (committed tx p)) h ≡ true)
      ↔ (((tx.label ≡ l) × (tx.hash ≡ h)) ⊎ (is_commited (view l p) h ≡ true))
committed_step tx p l h = (
  λ c.
      ground
        (arith, commit_one tx p l, lookup-insert bytes_dec tx.hash h tt (view l p).commited_hashes),
  λ c.
      ground
        (arith, commit_one tx p l, lookup-insert bytes_dec tx.hash h tt (view l p).commited_hashes),
)

committed_votes :
    (tx : Tx) (p : Peer) (l : Bytes)
    → ((view l (committed tx p)).votes ≡ (view l p).votes)
      × ((view l (committed tx p)).last_seq_seen ≡ (view l p).last_seq_seen)
committed_votes tx p l = (ground (arith, commit_one tx p l), ground (arith, commit_one tx p l))

-- After UpdateTxSet exactly the hashes given under a label and those committed before are
-- committed in that label's bucket, and its votes and lastSeqSeen stay.
pub update_tx_set-commits :
    (txs : List Tx) (p : Peer) (l : Bytes)
    → ((h : Hash)
        → (is_commited (view l (update_tx_set txs p)) h ≡ true)
          ↔ (Names l h txs ⊎ (is_commited (view l p) h ≡ true)))
      × ((view l (update_tx_set txs p)).votes ≡ (view l p).votes)
      × ((view l (update_tx_set txs p)).last_seq_seen ≡ (view l p).last_seq_seen)
unfolding update_tx_set
update_tx_set-commits [] p l =
    ((λ h. ((λ c. inr c), λ c. elim c [ inl n ↦ elim n [ ] | inr d ↦ d ])), refl, refl)
update_tx_set-commits (tx ∷ txs) p l =
    let (ih, votes, last) = update_tx_set-commits txs (committed tx p) l in
    let (votes', last') = committed_votes tx p l in
    (
      (λ h. (
        (λ c. elim ((ih h).0 c) [
          | inl n ↦ inl (inr n)
          | inr d ↦ elim ((committed_step tx p l h).0 d) [ inl m ↦ inl (inl m) | inr k ↦ inr k ]
        ]),
        λ c. (ih h).1 (elim c [
          | inl n ↦ elim n [ inl m ↦ inr ((committed_step tx p l h).1 (inl m)) | inr k ↦ inl k ]
          | inr d ↦ inr ((committed_step tx p l h).1 (inr d))
        ]),
      )),
      votes ∙ votes',
      last ∙ last',
    )

-- After UpdateTxSet a transaction that was given comes before every transaction of its label that
-- neither was given nor was committed before, and that one does not come before it.
pub before-update_tx_set :
    (txs : List Tx) (p : Peer) (tx1 tx2 : Tx)
    → Names tx1.label tx1.hash txs
    → tx1.label ≡ tx2.label
    → ¬ Names tx2.label tx2.hash txs
    → is_commited (view tx2.label p) tx2.hash ≡ false
    → (before (update_tx_set txs p) tx1 tx2 ≡ returns true)
      × (before (update_tx_set txs p) tx2 tx1 ≡ returns false)
unfolding before bucket_before
before-update_tx_set txs p tx1 tx2 named same unnamed free =
    let q = update_tx_set txs p in
    let first_committed : is_commited (view tx1.label q) tx1.hash ≡ true =
      ((update_tx_set-commits txs p tx1.label).0 tx1.hash).1 (inl named) in
    let second_free : is_commited (view tx2.label q) tx2.hash ≡ false =
      elim (Bool-cases (is_commited (view tx2.label q) tx2.hash)) [
        | inl c ↦ elim (((update_tx_set-commits txs p tx2.label).0 tx2.hash).0 c) [
          | inl n ↦ absurd (unnamed n)
          | inr d ↦ absurd (false≢true (sym free ∙ d))
        ]
        | inr f ↦ f
      ] in
    (ground arith, ground arith)
