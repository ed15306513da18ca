-- ===== src/Mempool/Reactor/Receiving.antt =====
-- What a message of a peer does to the mempool (tendermint/mempool/reactor.go).
use wendy.Common.{
  Bool, ℕ, ◌^◌, ◌<◌, ◌≡◌, List, [], ◌∷◌, ◌++◌, map, Option, none, some, inl, inr, ◌⊎◌, length, All,
  Outcome, returns, panics,
}
use wendy.Crypto.{Bytes}
use wendy.Types.{Hash}
use wendy.Mempool.Elements.{Clist, Laws}
use wendy.Mempool.{Mempool, MempoolTx, check_request}
use wendy.Mempool.Checks.Bounds.{Fits, SameTxs}
use wendy.Mempool.Reactor.Asking.{ValidCache, cache_keys, cache_size, asked_of, admitted_by}
use wendy.Mempool.Reactor.{Reactor, DecodeError}

module _ {L E : Type 0} (sum256 : Bytes → Hash) (list : Clist MempoolTx L E)
    (laws : Laws list) where
  abbrev pub SameSetup : Mempool L E → Mempool L E → Type 0
  SameSetup a b = (a.config ≡ b.config) × (a.pre_check ≡ b.pre_check)

  -- Whether the transaction of a number reaches the cache.
  abbrev pub admits : (ℕ → Option Bytes) → (ℕ → Option Bytes) → Mempool L E → ℕ → Bytes → Bool
  admits wal_error app_error mem n tx =
      admitted_by sum256 list laws mem (wal_error n) (app_error n) tx

  -- The requests and the keys of the cache, by the description of `asked_of`.
  abbrev pub Follows : List Bytes × List Hash → Mempool L E → Mempool L E → Type 0
  Follows (asked, keys) mem mem' =
      (mem'.requests ≡ mem.requests ++ map check_request asked)
      × ValidCache mem'.cache
      × (cache_keys mem'.cache ≡ keys)

  -- By what the message decodes to and whether there is a peer.
  abbrev pub Received :
      (ℕ → Option Bytes)
      → (ℕ → Option Bytes)
      → Option Bytes
      → DecodeError ⊎ List Bytes
      → Reactor L E
      → Outcome (Reactor L E)
      → Type 0
  Received wal_error app_error none decoded r out = out ≡ panics
  Received wal_error app_error (some peer) (inl e) r out =
      out ≡ returns (record r { stopped = r.stopped ++ (peer, e) ∷ [] })
  Received wal_error app_error (some peer) (inr txs) r out =
      let asked =
        asked_of sum256 (admits wal_error app_error r.mempool) (cache_size r.mempool.cache) 0 txs
          (cache_keys r.mempool.cache) in
      (mem' : Mempool L E) × (out ≡ returns (record r { mempool = mem' }))
      × SameTxs sum256 list laws mem' r.mempool
      × Fits sum256 list laws mem'
      × Follows asked r.mempool mem'

  -- Sizes below a quarter of the range of an `int64`.
  abbrev pub Moderate : DecodeError ⊎ List Bytes → Type 0
  Moderate (inl e) = Unit {0}
  Moderate (inr txs) = All (λ tx. length tx < 2 ^ 62) txs
