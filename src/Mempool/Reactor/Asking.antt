-- ===== src/Mempool/Reactor/Asking.antt =====
-- Which transactions of a message are passed on to the application, by the limits, the filter and
-- the keys of the cache (`CheckTx` of tendermint/mempool/mempool.go, in the loop of `Receive` of
-- reactor.go).
use wendy.Common.{
  ℕ, ◌+◌, ◌≡◌, refl, ap, sym, ◌∙◌, subst, Bool, true, false, ◌&&◌, ◌||◌, List, [], ◌∷◌, ◌++◌,
  Option, none, some, inl, inr, arith, ltb, leb, if◌then◌else◌, length, Bool-cases, Option-cases,
}
use mathlib.Core.List.{append-nil}
use wendy.Crypto.{Bytes}
use wendy.Types.{Hash}
use wendy.LinkedList.{is_none}
use wendy.Mempool.Elements.{Clist, Laws}
use wendy.Mempool.{
  Mempool, MempoolTx, Config, check_request, run_pre_check, is_full, first_error, write_wal, size,
}
use wendy.Mempool.Cache.{TxCache, map_tx_cache, nop_tx_cache, push, tx_key}
use wendy.Mempool.Cache.Lru as Lru
use wendy.Mempool.Cache.Lru.{lru_push}
use wendy.Mempool.Cache.Refinement.{push_key-lru_push}
use wendy.Mempool.Checks.{record_sender, request_check, check_tx}
use wendy.Mempool.Checks.Bounds.{Fits, Sane, total_bytes}

abbrev pub ValidCache : TxCache → Type 0
ValidCache (map_tx_cache c) = Lru.IsValid c
ValidCache nop_tx_cache = Unit

-- The keys of the cache, and its size; the cache that holds nothing has none.
abbrev pub cache_keys : TxCache → List Hash
cache_keys (map_tx_cache c) = Lru.keys c
cache_keys nop_tx_cache = []

abbrev pub cache_size : TxCache → Option ℕ
cache_size (map_tx_cache c) = some c.size
cache_size nop_tx_cache = none

-- A key that is pushed: the keys then, and whether it is new.
abbrev pub pushed : Option ℕ → Hash → List Hash → List Hash × Bool
pushed (some size) h keys = lru_push size h keys
pushed none h keys = (keys, true)

push-pushed :
    (sum256 : Bytes → Hash) (tx : Bytes) (c : TxCache)
    → ValidCache c
    → let (c', new) = push sum256 tx c in
      ValidCache c'
      × (cache_size c' ≡ cache_size c)
      × ((cache_keys c', new) ≡ pushed (cache_size c) (tx_key sum256 tx) (cache_keys c))
unfolding push
push-pushed sum256 tx (map_tx_cache c) valid =
    let (valid', size, keys) = push_key-lru_push (tx_key sum256 tx) c valid in
    (valid', ap some size, keys)
push-pushed sum256 tx nop_tx_cache valid = (tt, refl, refl)

-- The transactions of a message, from number `n` on, that are asked about, and the keys of the
-- cache behind them: those that `admits` lets through reach the cache, and the new ones are asked
-- about.
unfoldable pub asked_of :
    (Bytes → Hash)
    → (ℕ → Bytes → Bool)
    → Option ℕ
    → ℕ
    → List Bytes
    → List Hash
    → List Bytes × List Hash
asked_of sum256 admits size n [] keys = ([], keys)
asked_of sum256 admits size n (tx ∷ txs) keys =
    let (keys', new) = pushed size (tx_key sum256 tx) keys in
    let (asked, end) =
      asked_of sum256 admits size (n + 1) txs (if admits n tx then keys' else keys) in
    (if admits n tx && new then tx ∷ asked else asked, end)

module _ {L E : Type 0} (sum256 : Bytes → Hash) (list : Clist MempoolTx L E)
    (laws : Laws list) where
  -- The conditions before the cache: room for one more transaction and for its bytes, the limit on
  -- one transaction, the filter, the log's file where there is one, and the connection.
  unfoldable pub admitted :
      L → Config → Option (Bytes → Option Bytes) → Bool → Option Bytes → Option Bytes → Bytes → Bool
  admitted txs config pre_check no_wal wal_error app_error tx =
      ltb (length (laws.elements txs)) config.size
      && (leb (length tx + total_bytes sum256 list laws (laws.elements txs)) config.max_txs_bytes
          && (leb (length tx) config.max_tx_bytes
              && (is_none (run_pre_check pre_check tx)
                  && ((no_wal || is_none wal_error) && is_none app_error))))

  abbrev pub admitted_by : Mempool L E → Option Bytes → Option Bytes → Bytes → Bool
  admitted_by mem = admitted mem.txs mem.config mem.pre_check (is_none mem.wal)

  is_full-is_none :
      (n : ℕ) (mem : Mempool L E)
      → Sane sum256 list laws n mem
      → Fits sum256 list laws mem
      → is_none (is_full list n mem) ≡ (
          ltb (length (laws.elements mem.txs)) mem.config.size
          && leb
              (n + total_bytes sum256 list laws (laws.elements mem.txs))
              mem.config.max_txs_bytes)
  unfolding is_full size
  is_full-is_none n mem sane fits =
      let count = laws.len_elements mem.txs in
      let counted = fits.counted in let bytes = fits.bytes in ground (arith, count, counted, bytes)

  -- What one check leaves, by whether it reaches the cache.
  abbrev pub Checked : Bytes → Bool → Mempool L E → Mempool L E → Type 0
  Checked tx ok mem mem' =
      ValidCache mem'.cache
      × (cache_size mem'.cache ≡ cache_size mem.cache)
      × (cache_keys mem'.cache ≡ (
          if ok
          then (pushed (cache_size mem.cache) (tx_key sum256 tx) (cache_keys mem.cache)).0
          else cache_keys mem.cache))
      × (mem'.requests
          ≡ mem.requests
            ++ (if ok && (pushed (cache_size mem.cache) (tx_key sum256 tx) (cache_keys mem.cache)).1
                then check_request tx ∷ []
                else []))
      × (is_none mem'.wal ≡ is_none mem.wal)

  Checked-refused :
      (tx : Bytes) (mem mem' : Mempool L E)
      → ValidCache mem.cache
      → mem'.cache ≡ mem.cache
      → mem'.requests ≡ mem.requests
      → is_none mem'.wal ≡ is_none mem.wal
      → Checked tx false mem mem'
  Checked-refused tx mem mem' valid cache requests wal = (
    subst ValidCache (sym cache) valid,
    ap cache_size cache,
    ap cache_keys cache,
    requests ∙ sym (append-nil mem.requests),
    wal,
  )

  record_sender-cache :
      (tx : Bytes) (sender : ℕ) (mem : Mempool L E)
      → let mem' = record_sender sum256 list tx sender mem in
        (mem'.cache ≡ mem.cache) × (mem'.requests ≡ mem.requests) × (mem'.wal ≡ mem.wal)
  unfolding record_sender
  record_sender-cache tx sender mem = (ground arith, ground arith, ground arith)

  request_check-Checked :
      (tx : Bytes) (sender : ℕ) (mem : Mempool L E)
      → ValidCache mem.cache
      → Checked tx true mem (request_check sum256 list tx sender mem).0
  unfolding request_check
  request_check-Checked tx sender mem valid =
      let (valid', size, both) = push-pushed sum256 tx mem.cache valid in
      let keys = ap (λ p. p.0) both in
      let new = ap (λ p. p.1) both in
      elim (Bool-cases (push sum256 tx mem.cache).1) [
        | inl added ↦
            let fresh = sym new ∙ added in
            rw (added, fresh, request_check) (valid', size, keys, refl, refl)
        | inr known ↦
            let old = sym new ∙ known in
            let (cache, requests, wal) =
              record_sender-cache tx sender (record mem { cache = (push sum256 tx mem.cache).0 }) in
            rw (known, old, request_check)
              (
                subst ValidCache (sym cache) valid',
                ap cache_size cache ∙ size,
                ap cache_keys cache ∙ keys,
                requests ∙ sym (append-nil mem.requests),
                ap is_none wal,
              )
      ]

  admitted-first_error :
      (tx : Bytes) (wal_error app_error : Option Bytes) (mem : Mempool L E)
      → Sane sum256 list laws (length tx) mem
      → Fits sum256 list laws mem
      → admitted_by mem wal_error app_error tx ≡ (
          is_none (first_error list tx mem)
          && (is_none (write_wal list tx wal_error mem).1 && is_none app_error))
  unfolding admitted first_error write_wal
  admitted-first_error tx wal_error app_error mem sane fits =
      let full = is_full-is_none (length tx) mem sane fits in ground (arith, full)

  write_wal-cache :
      (tx : Bytes) (wal_error : Option Bytes) (mem : Mempool L E)
      → let mem' = (write_wal list tx wal_error mem).0 in
        (mem'.cache ≡ mem.cache)
        × (mem'.requests ≡ mem.requests)
        × (is_none mem'.wal ≡ is_none mem.wal)
  unfolding write_wal
  write_wal-cache tx wal_error mem = (ground arith, ground arith, ground arith)

  -- The log does not matter to what comes after it.
  Checked-logged :
      (tx : Bytes) (ok : Bool) (logged mem mem' : Mempool L E)
      → logged.cache ≡ mem.cache
      → logged.requests ≡ mem.requests
      → is_none logged.wal ≡ is_none mem.wal
      → Checked tx ok logged mem'
      → Checked tx ok mem mem'
  Checked-logged tx ok logged mem mem' cache requests wal (valid, size, keys, asked, wal') =
      let push_key = λ (c : TxCache). pushed (cache_size c) (tx_key sum256 tx) (cache_keys c) in
      (
        valid,
        size ∙ ap cache_size cache,
        keys ∙ ap (λ c. if ok then (push_key c).0 else cache_keys c) cache,
        asked
            ∙ ap
                (λ c.
                  logged.requests ++ (if ok && (push_key c).1 then check_request tx ∷ [] else []))
                cache
            ∙ ap (λ q. q ++ (if ok && (push_key mem.cache).1 then check_request tx ∷ [] else []))
                requests,
        wal' ∙ wal,
      )

  pub check_tx-Checked :
      (tx : Bytes) (sender : ℕ) (wal_error app_error : Option Bytes) (mem : Mempool L E)
      → Sane sum256 list laws (length tx) mem
      → Fits sum256 list laws mem
      → ValidCache mem.cache
      → Checked tx
          (admitted_by mem wal_error app_error tx)
          mem
          (check_tx sum256 list tx sender wal_error app_error mem).0
  unfolding check_tx
  check_tx-Checked tx sender wal_error app_error mem sane fits valid =
      let guards = admitted-first_error tx wal_error app_error mem sane fits in
      let (cache, requests, wal) = write_wal-cache tx wal_error mem in
      let logged = (write_wal list tx wal_error mem).0 in
      elim (Option-cases (first_error list tx mem)) [
        | inr (e, failed) ↦
            rw (guards, failed, check_tx) (Checked-refused tx mem mem valid refl refl refl)
        | inl fine ↦ elim (Option-cases (write_wal list tx wal_error mem).1) [
          | inr (e, failed) ↦
              rw (guards, fine, failed, check_tx)
                (Checked-refused tx mem logged valid cache requests wal)
          | inl written ↦ elim (Option-cases app_error) [
            | inr (e, failed) ↦
                rw (guards, fine, written, failed, check_tx)
                  (Checked-refused tx mem logged valid cache requests wal)
            | inl open_ ↦
                rw (guards, fine, written, open_, check_tx)
                  (Checked-logged tx true logged mem (request_check sum256 list tx sender logged).0
                    cache requests wal
                    (request_check-Checked tx sender logged (subst ValidCache (sym cache) valid)))
          ]
        ]
      ]
