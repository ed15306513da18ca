-- ===== src/Mempool/Reactor/Broadcast.antt =====
-- What the routine for a peer sends (tendermint/mempool/reactor.go).
use mathlib.Core.List.{append_assoc, append-nil}
use wendy.Common.{
  ℕ, ◌+◌, ◌≤◌, ◌≡◌, refl, ap, sym, ◌∙◌, true, false, List, [], ◌∷◌, ◌++◌, Option, some, inl, inr,
  ◌⊎◌, arith, All, Bool-cases, Option-cases, returns, ltb, if◌then◌else◌,
}
use wendy.Crypto.{Bytes}
use wendy.Mempool.Elements.{Clist, Laws, head}
use wendy.Mempool.{Mempool, MempoolTx}
use wendy.Mempool.Reactor.{
  Round, Wake, ready, quits, nothing_yet, Routine, at_start, at_tx, behind_tx, returned, is_sender,
  send_tx, wait_first, wait_next, broadcast_step, broadcast_run,
}

-- A round in which nothing holds the routine up.
abbrev pub good : ℕ → Round
good height = record { running = true; wake = ready; peer_height = some height; success = true }

-- Two turns for each transaction, without the last wait.
abbrev pub rounds_for : {E : Type 0} → ℕ → List E → List Round
rounds_for height [] = good height ∷ []
rounds_for height (e ∷ es) = good height ∷ good height ∷ rounds_for height es

Wake-cases : (w : Wake) → (w ≡ nothing_yet) ⊎ (w ≡ ready) ⊎ (w ≡ quits)
Wake-cases nothing_yet = inl refl
Wake-cases ready = inr (inl refl)
Wake-cases quits = inr (inr refl)

module _ {L E : Type 0} (marshal : Bytes → Option Bytes) (list : Clist MempoolTx L E)
    (peer_id : ℕ) where
  -- The transaction that a turn looks at.
  abbrev pub Stands : Mempool L E → E → Routine E → Type 0
  Stands mem e at_start = list.front mem.txs ≡ some e
  Stands mem e (at_tx f) = f ≡ e
  Stands mem e (behind_tx f) = ⊥
  Stands mem e returned = ⊥

  -- A message that was sent: of a transaction that the peer did not send itself, to a peer that is
  -- at most one block behind it.
  abbrev pub Sends : Round → Mempool L E → Routine E → Routine E × List Bytes → Type 0
  Sends round mem at r =
      (r.1 ≡ [])
      ⊎ ((e : E) × (bz : Bytes) × (height : ℕ) × Stands mem e at
          × (r ≡ (behind_tx e, bz ∷ []))
          × (marshal (list.value e).tx ≡ some bz)
          × (is_sender marshal list peer_id mem e ≡ false)
          × (round.peer_height ≡ some height)
          × ((list.value e).height ≤ height + 1)
          × (round.success ≡ true))

  send_tx-Sends :
      (round : Round) (mem : Mempool L E) (at : Routine E) (e : E) (r : Routine E × List Bytes)
      → Stands mem e at
      → send_tx marshal list peer_id round mem e ≡ returns r
      → Sends round mem at r
  unfolding send_tx
  send_tx-Sends round mem at e r stands done = elim (Option-cases round.peer_height) [
    | inl none_yet ↦ inl (ground (arith, done))
    | inr (height, there) ↦ elim (Bool-cases (ltb (height + 1) (list.value e).height)) [
      | inl behind ↦ inl (ground (arith, done))
      | inr near ↦ elim (Bool-cases (is_sender marshal list peer_id mem e)) [
        | inl own ↦ inl (ground (arith, done))
        | inr other ↦ elim (Option-cases (marshal (list.value e).tx)) [
          | inl bad ↦ absurd (ground (arith, done))
          | inr (bz, good) ↦ elim (Bool-cases round.success) [
            | inl sent ↦ inr (
              e,
              bz,
              height,
              stands,
              ground (arith, done),
              good,
              other,
              there,
              ground (arith, near),
              sent,
            )
            | inr failed ↦ inl (ground (arith, done))
          ]
        ]
      ]
    ]
  ]

  -- A turn of broadcastTxRoutine that returns sends nothing, or one message: the encoding of the
  -- transaction where the routine stands (the first one, at the start), of which the peer is not
  -- recorded as a sender, whose height is at most one above the peer's, and the routine then
  -- stands behind it
  pub broadcast_step-Sends :
      (round : Round) (mem : Mempool L E) (at : Routine E) (r : Routine E × List Bytes)
      → broadcast_step marshal list peer_id round mem at ≡ returns r
      → Sends round mem at r
  unfolding broadcast_step wait_first
  broadcast_step-Sends round mem at_start r done = elim (Bool-cases round.running) [
    | inr stopped ↦ inl (ground (arith, done))
    | inl running ↦ elim (Wake-cases round.wake) [
      | inl quiet ↦ inl (ground (arith, done))
      | inr woken ↦ elim woken [
        | inr over ↦ inl (ground (arith, done))
        | inl awake ↦ elim (Option-cases (list.front mem.txs)) [
          | inl empty ↦ inl (ground (arith, done))
          | inr (e, first) ↦ send_tx-Sends round mem at_start e r first (ground (arith, done))
        ]
      ]
    ]
  ]
  broadcast_step-Sends round mem (at_tx e) r done = elim (Bool-cases round.running) [
    | inr stopped ↦ inl (ground (arith, done))
    | inl running ↦ send_tx-Sends round mem (at_tx e) e r refl (ground (arith, done))
  ]
  broadcast_step-Sends round mem (behind_tx e) r done = inl (cc)
  broadcast_step-Sends round mem returned r done = inl (cc)

  -- The messages for the transactions that the peer did not send.
  unfoldable pub messages : Mempool L E → (Bytes → Bytes) → List E → List Bytes
  messages mem encode [] = []
  messages mem encode (e ∷ es) =
      if is_sender marshal list peer_id mem e
      then messages mem encode es
      else encode (list.value e).tx ∷ messages mem encode es

  module _ (encode : Bytes → Bytes) (encodes : (tx : Bytes) → marshal tx ≡ some (encode tx))
      (laws : Laws list) (mem : Mempool L E) (height : ℕ) where
    abbrev pub NearAll : List E → Type 0
    NearAll = All (λ e. (list.value e).height ≤ height + 1)

    send_tx-good :
        (e : E)
        → (list.value e).height ≤ height + 1
        → send_tx marshal list peer_id (good height) mem e
          ≡ returns (behind_tx e, messages mem encode (e ∷ []))
    unfolding send_tx messages
    send_tx-good e near = elim (Bool-cases (is_sender marshal list peer_id mem e)) [
      | inl own ↦ ground (arith, own)
      | inr other ↦ ground (arith, other, encodes (list.value e).tx)
    ]

    messages_cons :
        (e : E) (es : List E)
        → messages mem encode (e ∷ []) ++ messages mem encode es ≡ messages mem encode (e ∷ es)
    unfolding messages
    messages_cons e es = elim (Bool-cases (is_sender marshal list peer_id mem e)) [
      | inl own ↦ rw (own, messages) refl
      | inr other ↦ rw (other, messages) refl
    ]

    abbrev pub last_of : E → List E → E
    last_of e [] = e
    last_of e (f ∷ es) = last_of f es

    step_at_tx :
        (e : E)
        → (list.value e).height ≤ height + 1
        → broadcast_step marshal list peer_id (good height) mem (at_tx e)
          ≡ returns (behind_tx e, messages mem encode (e ∷ []))
    unfolding broadcast_step
    step_at_tx e near = send_tx-good e near

    step_at_start :
        (e : E)
        → list.front mem.txs ≡ some e
        → (list.value e).height ≤ height + 1
        → broadcast_step marshal list peer_id (good height) mem at_start
          ≡ returns (behind_tx e, messages mem encode (e ∷ []))
    unfolding broadcast_step wait_first
    step_at_start e first near = rw first (send_tx-good e near)

    step_behind :
        (e f : E)
        → list.next mem.txs e ≡ some f
        → broadcast_step marshal list peer_id (good height) mem (behind_tx e)
          ≡ returns (at_tx f, [])
    unfolding broadcast_step wait_next
    step_behind e f following = rw following refl

    run_from :
        (xs ys : List E) (e : E)
        → laws.elements mem.txs ≡ xs ++ e ∷ ys
        → NearAll (e ∷ ys)
        → broadcast_run marshal list peer_id (rounds_for height ys) mem (at_tx e)
          ≡ returns (behind_tx (last_of e ys), messages mem encode (e ∷ ys))
    unfolding broadcast_run
    run_from xs [] e split near =
        rw (step_at_tx e near.0) (ap (λ l. returns (behind_tx e, l)) (append-nil _))
    run_from xs (f ∷ ys) e split near =
        let following = laws.next_elements mem.txs xs (f ∷ ys) e split in
        let rest =
          run_from (xs ++ e ∷ []) ys f (split ∙ sym (append_assoc xs (e ∷ []) (f ∷ ys))) near.1 in
        rw (step_at_tx e near.0, step_behind e f following, rest)
          (ap (λ l. returns (behind_tx (last_of f ys), l)) (messages_cons e (f ∷ ys)))

    -- On a mempool that is not empty and does not change, with an encoding that does not fail, a
    -- peer that is high enough for all transactions, and rounds in which nothing holds it up,
    -- broadcastTxRoutine from the start sends exactly the transactions of which the peer is not
    -- recorded as a sender, in their order, in two turns for each transaction less one, and then
    -- stands behind the last one
    pub broadcast_run_lem :
        (e : E) (es : List E)
        → laws.elements mem.txs ≡ e ∷ es
        → NearAll (e ∷ es)
        → broadcast_run marshal list peer_id (rounds_for height es) mem at_start
          ≡ returns (behind_tx (last_of e es), messages mem encode (e ∷ es))
    unfolding broadcast_run
    broadcast_run_lem e [] split near =
        let first = laws.front_elements mem.txs ∙ ap head split in
        rw (step_at_start e first near.0) (ap (λ l. returns (behind_tx e, l)) (append-nil _))
    broadcast_run_lem e (f ∷ es) split near =
        let first = laws.front_elements mem.txs ∙ ap head split in
        let following = laws.next_elements mem.txs [] (f ∷ es) e split in
        let rest = run_from (e ∷ []) es f split near.1 in
        rw (step_at_start e first near.0, step_behind e f following, rest)
          (ap (λ l. returns (behind_tx (last_of f es), l)) (messages_cons e (f ∷ es)))
