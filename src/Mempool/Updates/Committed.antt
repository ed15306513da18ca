-- ===== src/Mempool/Updates/Committed.antt =====
-- The committed transactions of an `Update`, and what becomes of the mempool's counter, limits and
-- map (tendermint/mempool/mempool.go).
use wendy.Common.{
  if_neg, ℕ, ◌^◌, ◌<◌, ◌≤◌, ◌≡◌, ◌≢◌, refl, ap, sym, ◌∙◌, subst, true, false, List, [], ◌∷◌, Option,
  none, some, ite, arith, length, lookup, lookup-delete, In, inl, inr, Option-cases, returns, All,
  All-mono, Bool-cases, ◌==◌,
}
use wendy.Crypto.{Bytes, bytes_dec}
use wendy.Types.{Hash}
use wendy.Mempool.Cache.{tx_key}
use wendy.Mempool.Elements.{Clist, Laws}
use wendy.Mempool.{Mempool, MempoolTx, CheckTxResponse, notify_txs_available, size}
use wendy.Mempool.Checks.{remove_tx}
use wendy.Mempool.Updates.{
  commit_cache, commit_tx, commit_txs, recheck_txs, end_update, update, or_old,
}
use wendy.Mempool.Updates.Walks.{recheck_txs-map}
use wendy.Mempool.Checks.Answers.{Fits-same}
use wendy.Mempool.Updates.Removal.{Right, remove_tx-Right, In-without, without_out}

module _ {L E : Type 0} (sum256 : Bytes → Hash) (list : Clist MempoolTx L E)
    (laws : Laws list) where
  -- The same transactions, counter, configuration and map.
  abbrev pub Same : Mempool L E → Mempool L E → Type 0
  Same a b =
      (a.txs ≡ b.txs)
      × (a.txs_bytes ≡ b.txs_bytes)
      × (a.config ≡ b.config)
      × (a.txs_map ≡ b.txs_map)

  Right-Same : (a b : Mempool L E) → Same a b → Right sum256 list laws b → Right sum256 list laws a
  Right-Same a b (txs, bytes, config, index) (fits, indexed) = (
    Fits-same sum256 list laws a b (txs, bytes, config) fits,
    λ h e at.
        let (member, key) = indexed h e (ap (lookup bytes_dec h) (sym index) ∙ at) in
        (subst (λ l. In e (laws.elements l)) (sym txs) member, key),
  )

  -- No listed transaction but the given one itself has its key.
  abbrev pub OwnKey : Bytes → Mempool L E → Type 0
  OwnKey tx mem =
      (e : E)
      → In e (laws.elements mem.txs)
      → tx_key sum256 (list.value e).tx ≡ tx_key sum256 tx
      → (list.value e).tx ≡ tx

  -- A listed element that the map does not give for the transaction's key.
  abbrev pub Left : Bytes → Mempool L E → E → Type 0
  Left tx mem e =
      In e (laws.elements mem.txs) × (lookup bytes_dec (tx_key sum256 tx) mem.txs_map ≢ some e)

  commit_tx-Right :
      (tx : Bytes) (code : ℕ) (mem : Mempool L E)
      → OwnKey tx mem
      → mem.config.max_txs_bytes < 2 ^ 62
      → Right sum256 list laws mem
      → let mem' = commit_tx sum256 list tx code mem in
        Right sum256 list laws mem'
        × (mem'.config ≡ mem.config)
        × ((h : Hash)
            → lookup bytes_dec h mem'.txs_map
              ≡ ite (bytes_dec (tx_key sum256 tx) h) none (lookup bytes_dec h mem.txs_map))
        × ((e : E) → In e (laws.elements mem'.txs) → Left tx mem e)
  unfolding commit_tx remove_tx
  commit_tx-Right tx code mem own small right =
      let cache = (commit_cache sum256 list tx code mem) in
      let cached : Mempool L E = record mem { cache = cache } in
      let right' = Right-Same cached mem (refl, refl, refl, refl) right in
      elim (Option-cases (lookup bytes_dec (tx_key sum256 tx) mem.txs_map)) [
        | inl absent ↦
            rw (absent, commit_tx)
              (right', refl, (λ h. ground (arith, absent)), λ e here. (here, λ there. cc))
        | inr (e, at) ↦
            let (member, key) = right.1 (tx_key sum256 tx) e at in
            let (kept, rest) =
              remove_tx-Right sum256 list laws tx e false cached small right' at
                (own e member key) in
            rw (at, commit_tx)
              (
                kept,
                refl,
                (λ h. lookup-delete bytes_dec (tx_key sum256 tx) h mem.txs_map),
                λ f here.
                    let kept_here = subst (In f) rest here in
                    (
                      In-without list.same e f (laws.elements mem.txs) kept_here,
                      λ there.
                          without_out list.same e f (laws.elements mem.txs) (laws.distinct mem.txs)
                            kept_here (cc),
                    ),
              )
      ]

  -- What is left of one transaction after another is left of it before.
  Left-before :
      (tx t : Bytes) (code : ℕ) (mem : Mempool L E) (e : E)
      → ((h : Hash)
          → lookup bytes_dec h (commit_tx sum256 list tx code mem).txs_map
            ≡ ite (bytes_dec (tx_key sum256 tx) h) none (lookup bytes_dec h mem.txs_map))
      → Left tx mem e
      → Left t (commit_tx sum256 list tx code mem) e
      → Left t mem e
  Left-before tx t code mem e gone (here, out) (_, out') = (
    here,
    λ there. elim (bytes_dec (tx_key sum256 tx) (tx_key sum256 t)) [
      | yes p ↦ out (ap (λ h. lookup bytes_dec h mem.txs_map) p ∙ there)
      | no p ↦ out' (
          gone (tx_key sum256 t)
          ∙ if_neg (bytes_dec (tx_key sum256 tx) (tx_key sum256 t)) p none
              (lookup bytes_dec (tx_key sum256 t) mem.txs_map)
          ∙ there)
    ],
  )

  commit_txs-Right :
      (txs : List Bytes) (codes : List ℕ) (mem : Mempool L E)
      → All (λ tx. OwnKey tx mem) txs
      → mem.config.max_txs_bytes < 2 ^ 62
      → length txs ≤ length codes
      → Right sum256 list laws mem
      → (mem' : Mempool L E) × (commit_txs sum256 list txs codes mem ≡ returns mem')
        × Right sum256 list laws mem'
        × All (λ tx. lookup bytes_dec (tx_key sum256 tx) mem'.txs_map ≡ none) txs
        × ((h : Hash)
            → lookup bytes_dec h mem.txs_map ≡ none
            → lookup bytes_dec h mem'.txs_map ≡ none)
        × ((e : E)
            → In e (laws.elements mem'.txs)
            → In e (laws.elements mem.txs) × All (λ tx. Left tx mem e) txs)
  unfolding commit_txs
  commit_txs-Right [] codes mem own small enough right =
      (mem, refl, right, tt, (λ h absent. absent), λ e here. (here, tt))
  commit_txs-Right (tx ∷ txs) [] mem own small enough right = absurd (omega arith)
  commit_txs-Right (tx ∷ txs) (code ∷ codes) mem own small enough right =
      let next = commit_tx sum256 list tx code mem in
      let (right', config, gone, fewer) = commit_tx-Right tx code mem own.0 small right in
      let (mem', returned, right'', all_gone, kept, left) =
        commit_txs-Right txs codes next (All-mono txs (λ t o e here. o e (fewer e here).0) own.1)
          (subst (λ c. c.max_txs_bytes < 2 ^ 62) (sym config) small) (omega arith) right' in
      (
        mem',
        returned,
        right'',
        (kept (tx_key sum256 tx) (ground (arith, gone (tx_key sum256 tx))), all_gone),
        (λ h absent. kept h (ground (arith, gone h, absent))),
        λ e here.
            let (here', others) = left e here in
            let first = fewer e here' in
            (
              first.0,
              (first, All-mono txs (λ t l. Left-before tx t code mem e gone first l) others),
            ),
      )

  pub notify-Same :
      (mem : Mempool L E)
      → list.len mem.txs ≢ 0
      → (mem' : Mempool L E) × (notify_txs_available list mem ≡ returns mem') × Same mem' mem
  unfolding notify_txs_available size
  notify-Same mem some_tx = elim (Option-cases mem.txs_available) [
    | inl closed ↦ (mem, ground (arith, some_tx), (refl, refl, refl, refl))
    | inr (full, there) ↦ elim (Bool-cases mem.notified_txs_available) [
      | inl told ↦ (mem, ground (arith, some_tx), (refl, refl, refl, refl))
      | inr quiet ↦ (
        record mem { notified_txs_available = true; txs_available = some true },
        ground (arith, some_tx),
        (refl, refl, refl, refl),
      )
    ]
  ]

  end_update-Same :
      (left : Mempool L E)
      → (mem' : Mempool L E) × (end_update sum256 list left ≡ returns mem') × Same mem' left
  unfolding end_update size
  end_update-Same left = elim (Bool-cases (list.len left.txs == 0)) [
    | inl empty ↦ (left, rw (empty, end_update) refl, (refl, refl, refl, refl))
    | inr more ↦
        let some_tx : list.len left.txs ≢ 0 = λ z. ground arith in
        elim (Bool-cases left.config.recheck) [
          | inl recheck ↦
              let rechecked : end_update sum256 list left ≡ recheck_txs sum256 list left =
                ground arith in
              (
                _,
                rechecked ∙ recheck_txs-map sum256 list laws left some_tx,
                (refl, refl, refl, refl),
              )
          | inr quiet ↦
              let (mem', told, same) = notify-Same left some_tx in
              let announced : end_update sum256 list left ≡ notify_txs_available list left =
                ground arith in
              (mem', announced ∙ told, same)
        ]
  ]

  -- On a mempool whose counter of bytes is right, whose limits are kept and whose map gives for a
  -- key only listed transactions of that key, with a limit on bytes below 2 ^ 62, a response for
  -- each committed transaction, and no listed transaction that has the key of a committed one
  -- without being the same, Update returns; the counter, the limits and the map stay right, the
  -- map has no committed transaction, and the list has no new transaction and none that the map
  -- gave for the key of a committed one.
  pub update-Right :
      (height : ℕ) (txs : List Bytes) (codes : List ℕ) (pre_check : Option (Bytes → Option Bytes))
      (post_check : Option (Bytes → CheckTxResponse → Option Bytes)) (mem : Mempool L E)
      → All (λ tx. OwnKey tx mem) txs
      → mem.config.max_txs_bytes < 2 ^ 62
      → length txs ≤ length codes
      → Right sum256 list laws mem
      → (mem' : Mempool L E) × (update sum256 list height txs codes pre_check post_check mem
          ≡ returns mem')
        × Right sum256 list laws mem'
        × All (λ tx. lookup bytes_dec (tx_key sum256 tx) mem'.txs_map ≡ none) txs
        × ((e : E)
            → In e (laws.elements mem'.txs)
            → In e (laws.elements mem.txs) × All (λ tx. Left tx mem e) txs)
  unfolding update
  update-Right height txs codes pre_check post_check mem own small enough right =
      let started : Mempool L E = record mem {
        height = height;
        notified_txs_available = false;
        pre_check = or_old sum256 list pre_check mem.pre_check;
        post_check = or_old sum256 list post_check mem.post_check;
      } in
      let (left, returned, right', gone, _, rest) =
        commit_txs-Right txs codes started own small enough
          (Right-Same started mem (refl, refl, refl, refl) right) in
      let (mem', ended, same) = end_update-Same left in
      (
        mem',
        rw (returned, update) ended,
        Right-Same mem' left same right',
        subst (λ m. All (λ tx. lookup bytes_dec (tx_key sum256 tx) m ≡ none) txs) (sym same.3) gone,
        λ e here. rest e (subst (λ l. In e (laws.elements l)) same.0 here),
      )
