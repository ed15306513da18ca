-- ===== src/Mempool/Updates/Recheck.antt =====
-- The application's answers to a recheck, one after the other (`resCbRecheck` of
-- tendermint/mempool/mempool.go).
use mathlib.Core.List.{append_assoc}
use wendy.Common.{
  map, ◌≡◌, ◌≢◌, refl, ap, ◌∙◌, subst, Bool, ◌&&◌, List, [], ◌∷◌, ◌++◌, Option, none, some, arith,
  length, inl, inr, ◌⊎◌, Outcome, returns, ◌>>=◌, Bool-cases, ◌==◌, accepted,
}
use wendy.Common.Keyed
use wendy.Crypto.{Bytes}
use wendy.Types.{Hash}
use wendy.LinkedList.{is_none}
use wendy.Mempool.Elements.{Clist, Laws, head, last}
use wendy.Mempool.{
  recheck_request, flush_request, Mempool, MempoolTx, CheckTxResponse, check_tx_response,
  run_post_check,
}
use wendy.Mempool.Updates.{recheck_txs, global_cb, res_cb_recheck, advance_cursor}
use wendy.Mempool.Updates.Cursor.{judged, stays, judged_lem, Answered, advance-Answered}
use wendy.Mempool.Updates.Walks.{recheck_txs-map}

module _ {L E : Type 0} (sum256 : Bytes → Hash) (list : Clist MempoolTx L E)
    (answer : E → CheckTxResponse) where
  -- The answers to the requests for the transactions, in their order.
  unfoldable pub recheck_run : List E → Mempool L E → Outcome (Mempool L E)
  recheck_run [] mem = returns mem
  recheck_run (e ∷ es) mem = do
    mem' ← global_cb sum256 list (list.value e).tx (check_tx_response (answer e)) mem
    recheck_run es mem'

  -- The application and the filter accept the transaction still.
  abbrev pub passes : Option (Bytes → CheckTxResponse → Option Bytes) → E → Bool
  passes post_check e =
      (answer e).code == 0 && is_none (run_post_check post_check (list.value e).tx (answer e))

  last_rest : (e z : E) (es : List E) → last (e ∷ es) ≡ some z → (es ≡ []) ⊎ (last es ≡ some z)
  last_rest e z [] at = inl refl
  last_rest e z (f ∷ es) at = inr at

  last_cons : (e : E) (es : List E) → (z : E) × (last (e ∷ es) ≡ some z)
  last_cons e [] = (e, refl)
  last_cons e (f ∷ es) = last_cons f es

  module _ (laws : Laws list) where
    global_cb-judged :
        (e : E) (mem : Mempool L E)
        → mem.recheck_cursor ≡ some e
        → global_cb sum256 list (list.value e).tx (check_tx_response (answer e)) mem
          ≡ advance_cursor sum256 list e (judged sum256 list (passes mem.post_check e) e mem)
    unfolding global_cb res_cb_recheck judged
    global_cb-judged e mem at = elim (Bool-cases (passes mem.post_check e)) [
      | inl good ↦ ground (arith, at, good)
      | inr bad ↦ ground (arith, at, bad)
    ]

    accepted_split :
        (p : E → Bool) (e : E) (ys : List E) → stays (p e) e ++ accepted p ys ≡ accepted p (e ∷ ys)
    unfolding accepted
    accepted_split p e ys = elim (Bool-cases (p e)) [
      | inl good ↦ rw (good, accepted) refl
      | inr bad ↦ rw (bad, accepted) refl
    ]

    recheck_run-Answered :
        (es kept : List E) (z : E) (mem : Mempool L E)
        → Answered sum256 list laws kept es mem.post_check (some z) mem
        → Keyed.Distinct (λ (x : E). x) es
        → (es ≡ []) ⊎ (last es ≡ some z)
        → (mem' : Mempool L E) × (recheck_run es mem ≡ returns mem')
          × (laws.elements mem'.txs ≡ kept ++ accepted (passes mem.post_check) es)
          × (mem'.recheck_cursor ≡ none)
    unfolding recheck_run accepted
    recheck_run-Answered [] kept z mem (held, at, _, _) distinct end = (mem, refl, held, at)
    recheck_run-Answered (e ∷ es) kept z mem (held, at, reached, _) distinct end =
        let p = passes mem.post_check in
        let (held', following, end', post) = judged_lem sum256 list laws (p e) e mem kept es held in
        let at_last : last (e ∷ es) ≡ some z = elim end [ inl none_left ↦ cc | inr l ↦ l ] in
        let mem1 = judged sum256 list (p e) e mem in
        let (mem2, moved, (held2, at2, reached2, post2)) =
          advance-Answered sum256 list laws e z mem1 (kept ++ stays (p e) e) es held'
            (end' ∙ reached) distinct.0 at_last following in
        let ran = global_cb-judged e mem at ∙ moved in
        let (mem', returned, final, over) =
          recheck_run-Answered es (kept ++ stays (p e) e) z mem2 (held2, at2, reached2, refl)
            distinct.1 (last_rest e z es at_last) in
        (
          mem',
          rw ran returned,
          final
              ∙ ap (λ q. (kept ++ stays (p e) e) ++ accepted (passes q) es) (post2 ∙ post)
              ∙ append_assoc kept (stays (p e) e) (accepted p es)
              ∙ ap (λ t. kept ++ t) (accepted_split p e es),
          over,
        )

    -- On a mempool with transactions, recheckTxs followed by the application's answers to all of
    -- them in their order returns; the mempool then has exactly the transactions for which the
    -- application's code was 0 and the filter had no objection, in their order, and the cursor is
    -- nil
    pub recheck_run-accepted :
        (mem : Mempool L E) (e : E) (es : List E)
        → laws.elements mem.txs ≡ e ∷ es
        → (mem' : Mempool L E) × ((do
          rechecked ← recheck_txs sum256 list mem
          recheck_run (e ∷ es) rechecked)
            ≡ returns mem')
          × (laws.elements mem'.txs ≡ accepted (passes mem.post_check) (e ∷ es))
          × (mem'.recheck_cursor ≡ none)
    recheck_run-accepted mem e es held =
        let some_tx : list.len mem.txs ≢ 0 =
          λ z. omega (arith, z, laws.len_elements mem.txs, ap length held) in
        let started = recheck_txs-map sum256 list laws mem some_tx in
        let asked : Mempool L E = record mem {
          recheck_cursor = head (laws.elements mem.txs);
          recheck_end = last (laws.elements mem.txs);
          requests =
              mem.requests
              ++ (map (λ e. recheck_request (list.value e).tx) (laws.elements mem.txs)
                  ++ flush_request ∷ []);
        } in
        let (z, end) = last_cons e es in
        let (mem', returned, final, over) =
          recheck_run-Answered (e ∷ es) [] z asked (held, ap head held, ap last held ∙ end, refl)
            (subst (Keyed.Distinct (λ (x : E). x)) held (laws.distinct mem.txs)) (inr end) in
        (mem', rw started returned, final, over)
