-- ===== src/Wendy/Pool.antt =====
-- The pooled transactions of wendy.go: adding one, and removing those of a block.
use wendy.Common.{
  none, some, lookup, if_neg, ◌≡◌, refl, ap, sym, ◌∙◌, subst, Bool, true, false, ◌||◌, List, [],
  ◌∷◌, ◌++◌, ite, arith, All, All-mono, rejected, rejected-append, rejected_none, rejected-rejected,
  inl, inr, ◌⊎◌,
}
use mathlib.Core.Path.{ap₂}
use wendy.Common.Keyed
use wendy.Crypto.{PeerId, bytes_dec}
use wendy.Types.{Hash, Tx}
use wendy.Txs.{Txs, remove_by_hash}
use wendy.Txs.Valid.{IsValid, Other, push-IsValid, index_of_absent}
use wendy.Txs.Removal.{remove_by_hash-IsValid}
use wendy.Peer.{Peer, update_tx_set}
use wendy.Wendy.{Wendy, add_tx, remove_all, add_block, update_peers}

-- The transaction has the hash.
unfoldable pub has_hash : Hash → Tx → Bool
has_hash h tx = ite (bytes_dec tx.hash h) true false

-- Some transaction of the block has the transaction's hash.
unfoldable pub in_block : List Tx → Tx → Bool
unfolding has_hash
in_block [] tx = false
in_block (b ∷ block) tx = has_hash b.hash tx || in_block block tx

has_hash-Other : (h : Hash) (xs : List Tx) → Other h xs → All (λ tx. has_hash h tx ≡ false) xs
unfolding has_hash
has_hash-Other h xs o = All-mono xs (λ tx ne. if_neg (bytes_dec tx.hash h) ne _ _) o

-- `RemoveByHash` is a filter.
remove_by_hash-rejected :
    (h : Hash) (txs : Txs)
    → IsValid txs
    → (remove_by_hash h txs).0.list ≡ rejected (has_hash h) txs.list
unfolding has_hash rejected
remove_by_hash-rejected h txs v = elim (remove_by_hash-IsValid h txs v).1 [
  | inl (other, same) ↦
      ap (λ r. r.0.list) same
      ∙ sym (rejected_none (has_hash h) txs.list (has_hash-Other h txs.list other))
  | inr (pre, post, tx, split, hash, rest, _) ↦
      let d = subst (Keyed.Distinct (λ t. t.hash)) split v.distinct in
      let (before, later, _) = Keyed.Distinct-split (λ t. t.hash) tx pre post d in
      let keep = λ (xs : List Tx) (o : Other tx.hash xs).
        rejected_none (has_hash h) xs (has_hash-Other h xs (subst (λ k. Other k xs) hash o)) in
      rest
      ∙ sym (
          ap (rejected (has_hash h)) split
          ∙ rejected-append (has_hash h) pre (tx ∷ post)
          ∙ ap₂ (λ a b. a ++ b) (keep pre before) (ground (arith, keep post later)))
]

none_in : (xs : List Tx) → All (λ tx. in_block [] tx ≡ false) xs
unfolding in_block
none_in [] = tt
none_in (x ∷ xs) = (refl, none_in xs)

remove_all-rejected :
    (block : List Tx) (txs : Txs)
    → IsValid txs
    → IsValid (remove_all block txs)
      × ((remove_all block txs).list ≡ rejected (in_block block) txs.list)
unfolding remove_all in_block
remove_all-rejected [] txs v = (v, sym (rejected_none (in_block []) txs.list (none_in txs.list)))
remove_all-rejected (b ∷ block) txs v =
    let (valid, rest) =
      remove_all-rejected block (remove_by_hash b.hash txs).0
        (remove_by_hash-IsValid b.hash txs v).0 in
    (
      valid,
      rest
          ∙ ap (rejected (in_block block)) (remove_by_hash-rejected b.hash txs v)
          ∙ rejected-rejected (in_block block) (has_hash b.hash) txs.list,
    )

-- On a valid pool AddTx gives a valid one; either it returns false, nothing changes and a pooled
-- transaction has the hash, or it returns true, no pooled transaction had the hash, and the
-- transaction stands last.
pub add_tx-IsValid :
    (tx : Tx) (w : Wendy)
    → IsValid w.txs
    → IsValid (add_tx tx w).0.txs
      × (((add_tx tx w ≡ (w, false)) × ¬ Other tx.hash w.txs.list)
          ⊎ (((add_tx tx w).1 ≡ true)
              × Other tx.hash w.txs.list
              × ((add_tx tx w).0.txs.list ≡ w.txs.list ++ tx ∷ [])))
unfolding add_tx
add_tx-IsValid tx w v =
    let (valid, cases) = push-IsValid tx w.txs v in
    (
      valid,
      elim cases [
        | inl (there, same) ↦ inl (
          ap (λ (r : Txs × Bool). (record w { txs = r.0 }, r.1)) same,
          λ other. there (index_of_absent tx.hash w.txs.list other),
        )
        | inr (other, last, added) ↦ inr (added, other, last)
      ],
    )

pub lookup-update_peers :
    (block : List Tx) (id : PeerId) (peers : List (PeerId × Peer))
    → lookup bytes_dec id (update_peers block peers)
      ≡ elim (lookup bytes_dec id peers) [ none ↦ none | some p ↦ some (update_tx_set block p) ]
unfolding update_peers
lookup-update_peers block id [] = refl
lookup-update_peers block id ((j, p) ∷ peers) = ground (arith, lookup-update_peers block id peers)

-- On a valid pool AddBlock leaves exactly the transactions whose hash is not in the block, in
-- their order and with a right index; every registered peer becomes what UpdateTxSet of the block
-- makes of it, and no peer appears or goes.
pub add_block-rejected :
    (block : List Tx) (w : Wendy)
    → IsValid w.txs
    → let w' = add_block block w in
      IsValid w'.txs
      × (w'.txs.list ≡ rejected (in_block block) w.txs.list)
      × ((id : PeerId)
          → lookup bytes_dec id w'.peers ≡ elim (lookup bytes_dec id w.peers) [
            | none ↦ none
            | some p ↦ some (update_tx_set block p)
          ])
unfolding add_block
add_block-rejected block w v =
    let (valid, rest) = remove_all-rejected block w.txs v in
    (valid, rest, λ id. lookup-update_peers block id w.peers)
