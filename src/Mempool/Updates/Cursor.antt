-- ===== src/Mempool/Updates/Cursor.antt =====
-- The cursor of a recheck: what one answer makes of the transactions, and where the cursor goes
-- (`resCbRecheck` of tendermint/mempool/mempool.go).
use mathlib.Core.List.{append_assoc, append-nil}
use wendy.Common.{
  ◌≡◌, ◌≢◌, refl, ap, sym, ◌∙◌, subst, Bool, true, false, not, List, [], ◌∷◌, ◌++◌, Option, none,
  some, if_pos, if_neg, arith, inl, inr, returns, Bool-cases, Option-cases, ◌==◌,
}
use wendy.Common.Keyed
use wendy.Crypto.{Bytes}
use wendy.Types.{Hash}
use wendy.Mempool.Elements.{Clist, Laws, head, last, without}
use wendy.Mempool.{Mempool, MempoolTx, CheckTxResponse, notify_txs_available, size}
use wendy.Mempool.Checks.{remove_tx}
use wendy.Mempool.Updates.{advance_cursor, at_end}
use wendy.Mempool.Updates.Removal.{without-split}

-- The transaction, unless it goes.
abbrev pub stays : {E : Type 0} → Bool → E → List E
stays true e = e ∷ []
stays false e = []

last-other :
    {E : Type 0} (e z : E) (es : List E)
    → Keyed.Apart (λ (x : E). x) e es
    → last es ≡ some z
    → e ≢ z
last-other e z [] o at same = cc
last-other e z (f ∷ []) o at same = o.0 (cc)
last-other e z (f ∷ g ∷ es) o at same = last-other e z (g ∷ es) o.1 at same

module _ {L E : Type 0} (sum256 : Bytes → Hash) (list : Clist MempoolTx L E) where
  -- One answer, good or bad, without the move of the cursor.
  unfoldable pub judged : Bool → E → Mempool L E → Mempool L E
  judged true e mem = mem
  judged false e mem =
      remove_tx sum256 list (list.value e).tx e (not mem.config.keep_invalid_txs_in_cache) mem

  module _ (laws : Laws list) where
    pub judged_lem :
        (good : Bool) (e : E) (mem : Mempool L E) (kept ys : List E)
        → laws.elements mem.txs ≡ kept ++ e ∷ ys
        → (laws.elements (judged good e mem).txs ≡ (kept ++ stays good e) ++ ys)
          × (list.next (judged good e mem).txs e ≡ head ys)
          × ((judged good e mem).recheck_end ≡ mem.recheck_end)
          × ((judged good e mem).post_check ≡ mem.post_check)
    unfolding judged remove_tx
    judged_lem true e mem kept ys split = (
      split ∙ sym (append_assoc kept (e ∷ []) ys),
      laws.next_elements mem.txs kept ys e split,
      refl,
      refl,
    )
    judged_lem false e mem kept ys split =
        let distinct = subst (Keyed.Distinct (λ (x : E). x)) split (laws.distinct mem.txs) in
        let (before, _, _) = Keyed.Distinct-split (λ (x : E). x) e kept ys distinct in
        (
          laws.remove_elements e mem.txs
              ∙ ap (without list.same e) split
              ∙ without-split list.same e kept ys before
              ∙ ap (λ t. t ++ ys) (sym (append-nil kept)),
          laws.next_removed mem.txs kept ys e split,
          refl,
          refl,
        )

    -- What one answer leaves.
    abbrev pub Answered :
        List E
        → List E
        → Option (Bytes → CheckTxResponse → Option Bytes)
        → Option E
        → Mempool L E
        → Type 0
    Answered kept ys post_check end mem =
        (laws.elements mem.txs ≡ kept ++ ys)
        × (mem.recheck_cursor ≡ head ys)
        × (mem.recheck_end ≡ end)
        × (mem.post_check ≡ post_check)

    notify-Answered :
        (mem : Mempool L E) (kept : List E)
        (post_check : Option (Bytes → CheckTxResponse → Option Bytes)) (end : Option E)
        → list.len mem.txs ≢ 0
        → Answered kept [] post_check end mem
        → (mem' : Mempool L E) × (notify_txs_available list mem ≡ returns mem')
          × Answered kept [] post_check end mem'
    unfolding notify_txs_available size
    notify-Answered mem kept post_check end some_tx h = elim (Option-cases mem.txs_available) [
      | inl closed ↦ (mem, ground (arith, some_tx), h)
      | inr (full, there) ↦ elim (Bool-cases mem.notified_txs_available) [
        | inl told ↦ (mem, ground (arith, some_tx), h)
        | inr quiet ↦ (
          record mem { notified_txs_available = true; txs_available = some true },
          ground (arith, some_tx),
          h,
        )
      ]
    ]

    advance_last :
        (e : E) (mem : Mempool L E) (kept : List E)
        → laws.elements mem.txs ≡ kept ++ []
        → mem.recheck_end ≡ some e
        → (mem' : Mempool L E) × (advance_cursor sum256 list e mem ≡ returns mem')
          × Answered kept [] mem.post_check (some e) mem'
    unfolding advance_cursor size
    advance_last e mem kept held end =
        let moved : Mempool L E = record mem { recheck_cursor = none } in
        let h : Answered kept [] mem.post_check (some e) moved = (held, refl, end, refl) in
        let at : at_end sum256 list e mem.recheck_end ≡ true =
          ap (at_end sum256 list e) end ∙ if_pos (list.same e e) refl true false in
        elim (Bool-cases (list.len mem.txs == 0)) [
          | inl empty ↦ (moved, ground (arith, at, empty), h)
          | inr more ↦
              let (mem', told, h') =
                notify-Answered moved kept mem.post_check (some e) (λ z. ground arith) h in
              let same : advance_cursor sum256 list e mem ≡ notify_txs_available list moved =
                ground (arith, at, more) in
              (mem', same ∙ told, h')
        ]

    advance_inner :
        (e z f : E) (mem : Mempool L E) (kept ys : List E)
        → laws.elements mem.txs ≡ kept ++ f ∷ ys
        → mem.recheck_end ≡ some z
        → e ≢ z
        → list.next mem.txs e ≡ some f
        → (mem' : Mempool L E) × (advance_cursor sum256 list e mem ≡ returns mem')
          × Answered kept (f ∷ ys) mem.post_check (some z) mem'
    unfolding advance_cursor
    advance_inner e z f mem kept ys held end other following =
        let at : at_end sum256 list e mem.recheck_end ≡ false =
          ap (at_end sum256 list e) end ∙ if_neg (list.same e z) other true false in
        (
          record mem { recheck_cursor = some f },
          ground (arith, at, following),
          (held, refl, end, refl),
        )

    pub advance-Answered :
        (e z : E) (mem : Mempool L E) (kept ys : List E)
        → laws.elements mem.txs ≡ kept ++ ys
        → mem.recheck_end ≡ some z
        → Keyed.Apart (λ (x : E). x) e ys
        → last (e ∷ ys) ≡ some z
        → list.next mem.txs e ≡ head ys
        → (mem' : Mempool L E) × (advance_cursor sum256 list e mem ≡ returns mem')
          × Answered kept ys mem.post_check (some z) mem'
    advance-Answered e z mem kept [] held end apart at following =
        let same : e ≡ z = cc in
        subst
          (λ y.
            (mem' : Mempool L E) × (advance_cursor sum256 list e mem ≡ returns mem')
            × Answered kept [] mem.post_check (some y) mem')
          same (advance_last e mem kept held (subst (λ y. mem.recheck_end ≡ some y) (sym same) end))
    advance-Answered e z mem kept (f ∷ ys) held end apart at following =
        advance_inner e z f mem kept ys held end (last-other e z (f ∷ ys) apart at) following
