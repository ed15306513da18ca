-- ===== src/Mempool/Updates/Walks.antt =====
-- The loops of `recheckTxs` and `Flush` over the list (tendermint/mempool/mempool.go).
use mathlib.Core.List.{append_assoc}
use wendy.Common.{
  ℕ, zero, suc, ◌<◌, ◌≡◌, ◌≢◌, refl, ap, sym, ◌∙◌, List, [], ◌∷◌, ◌++◌, map, arith, length, returns,
}
use wendy.Crypto.{Bytes}
use wendy.Types.{Hash}
use wendy.Mempool.Elements.{Clist, Laws, head, last, without}
use wendy.Mempool.{Mempool, MempoolTx, recheck_request, flush_request, size}
use wendy.Mempool.Cache.{reset_cache}
use wendy.Mempool.Updates.{recheck_requests, recheck_txs, flush_from, flush}

module _ {L E : Type 0} (sum256 : Bytes → Hash) (list : Clist MempoolTx L E)
    (laws : Laws list) where
  recheck_requests-map :
      (fuel : ℕ) (l : L) (xs ys : List E)
      → laws.elements l ≡ xs ++ ys
      → length ys < fuel
      → recheck_requests sum256 list fuel (head ys) l
        ≡ map (λ e. recheck_request (list.value e).tx) ys
  unfolding recheck_requests
  recheck_requests-map zero l xs ys split enough = absurd (omega arith)
  recheck_requests-map (suc fuel) l xs [] split enough = refl
  recheck_requests-map (suc fuel) l xs (y ∷ ys) split enough =
      let following = laws.next_elements l xs ys y split in
      let ih =
        recheck_requests-map fuel l (xs ++ y ∷ []) ys (split ∙ sym (append_assoc xs (y ∷ []) ys))
          (omega arith) in
      rw (following, ih) refl

  -- On a mempool with transactions recheckTxs returns: it has sent a request for every transaction
  -- in the order of the list and then a flush, and the cursor and its end stand at the first and
  -- the last one.
  pub recheck_txs-map :
      (mem : Mempool L E)
      → list.len mem.txs ≢ 0
      → recheck_txs sum256 list mem
        ≡ returns (record mem {
          recheck_cursor = head (laws.elements mem.txs);
          recheck_end = last (laws.elements mem.txs);
          requests =
              mem.requests
              ++ (map (λ e. recheck_request (list.value e).tx) (laws.elements mem.txs)
                  ++ flush_request ∷ []);
        })
  unfolding recheck_txs size
  recheck_txs-map mem some_tx =
      let count = laws.len_elements mem.txs in
      let front = laws.front_elements mem.txs in
      let back = laws.back_elements mem.txs in
      let asked =
        ap (λ e. recheck_requests sum256 list (suc (list.len mem.txs)) e mem.txs) front
        ∙ recheck_requests-map (suc (list.len mem.txs)) mem.txs [] (laws.elements mem.txs) refl
            (omega arith) in
      ground (arith, some_tx, asked, front, back)

  flush_from-empty :
      (fuel : ℕ) (l : L) (es : List E)
      → laws.elements l ≡ es
      → length es < fuel
      → laws.elements (flush_from sum256 list fuel (head es) l) ≡ []
  unfolding flush_from without
  flush_from-empty zero l es split enough = absurd (omega arith)
  flush_from-empty (suc fuel) l [] split enough = split
  flush_from-empty (suc fuel) l (e ∷ es) split enough =
      let following = laws.next_removed l [] es e split in
      let rest : laws.elements (list.remove e l) ≡ es =
        laws.remove_elements e l ∙ ground (arith, split) in
      rw (following, flush_from) (flush_from-empty fuel (list.remove e l) es rest (omega arith))

  -- Flush leaves an empty list, an empty map, a counter of 0 and the cache reset.
  pub flush-empty :
      (mem : Mempool L E)
      → let mem' = flush sum256 list mem in
        (laws.elements mem'.txs ≡ [])
        × (mem'.txs_map ≡ [])
        × (mem'.txs_bytes ≡ 0)
        × (mem'.cache ≡ reset_cache mem.cache)
  unfolding flush
  flush-empty mem =
      let front = laws.front_elements mem.txs in
      let count = laws.len_elements mem.txs in
      (
        ap (λ e. laws.elements (flush_from sum256 list (suc (list.len mem.txs)) e mem.txs)) front
            ∙ flush_from-empty (suc (list.len mem.txs)) mem.txs (laws.elements mem.txs) refl
                (omega arith),
        refl,
        refl,
        refl,
      )
