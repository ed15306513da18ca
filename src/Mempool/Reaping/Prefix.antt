-- ===== src/Mempool/Reaping/Prefix.antt =====
-- What `ReapMaxTxs` and `ReapMaxBytesMaxGas` return (tendermint/mempool/mempool.go).
use mathlib.Core.List.{append_assoc, append-nil}
use mathlib.Core.Path.{ap₂}
use wendy.Common.{
  ℕ, zero, suc, ◌+◌, ◌-◌, ◌<◌, ◌≡◌, refl, ap, sym, ◌∙◌, subst, Bool, true, false, ◌&&◌, List, [],
  ◌∷◌, ◌++◌, map, arith, leb, length, length-append, take, Bool-cases, inl, inr, ◌⊎◌, ℤ, add_int64,
  lt_int64, minus_one,
}
use wendy.Crypto.{Bytes}
use wendy.Mempool.Elements.{Clist, Laws, head}
use wendy.Mempool.{Mempool, MempoolTx}
use wendy.Mempool.Reaping.{reap_txs, reap_max_txs, reap_bytes_gas, reap_max_bytes_max_gas, limit}

take_nil : (n : ℕ) → take {A = Bytes} n [] ≡ []
take_nil zero = refl
take_nil (suc n) = refl

module _ {L E : Type 0} (list : Clist MempoolTx L E) (laws : Laws list) where
  -- The transactions of the mempool, in their order.
  abbrev pub txs_of : List E → List Bytes
  txs_of = map (λ e. (list.value e).tx)

  reap_txs-take :
      (max fuel : ℕ) (l : L) (xs ys : List E) (txs : List Bytes)
      → laws.elements l ≡ xs ++ ys
      → length ys < fuel
      → reap_txs list max fuel (head ys) l txs ≡ txs ++ take (max + 1 - length txs) (txs_of ys)
  unfolding reap_txs
  reap_txs-take max zero l xs ys txs split enough = absurd (omega arith)
  reap_txs-take max (suc fuel) l xs [] txs split enough =
      sym (ap (λ t. txs ++ t) (take_nil (max + 1 - length txs)) ∙ append-nil txs)
  reap_txs-take max (suc fuel) l xs (y ∷ ys) txs split enough =
      let tx = (list.value y).tx in
      let following = laws.next_elements l xs ys y split in
      let ih =
        reap_txs-take max fuel l (xs ++ y ∷ []) ys (txs ++ tx ∷ [])
          (split ∙ sym (append_assoc xs (y ∷ []) ys)) (omega arith) in
      elim (Bool-cases (leb (length txs) max)) [
        | inl room ↦
            let one_more : max + 1 - length txs ≡ suc (max + 1 - length (txs ++ tx ∷ [])) =
              ground (arith, length-append txs (tx ∷ [])) in
            rw (room, following, ih, reap_txs)
              (append_assoc txs (tx ∷ []) (take (max + 1 - length (txs ++ tx ∷ [])) (txs_of ys))
                ∙ ap (λ n. txs ++ take n (tx ∷ txs_of ys)) (sym one_more))
        | inr full ↦
            let no_more : max + 1 - length txs ≡ 0 = ground arith in
            rw (full, reap_txs)
              (sym (ap (λ n. txs ++ take n (tx ∷ txs_of ys)) no_more ∙ append-nil txs))
      ]

  -- ReapMaxTxs returns the first transactions of the list, one more than the limit, where a
  -- negative limit stands for their number; it returns all if there are no more.
  pub reap_max_txs-take :
      (max : ℤ) (mem : Mempool L E)
      → reap_max_txs list max mem
        ≡ take (limit (list.len mem.txs) max + 1) (txs_of (laws.elements mem.txs))
  unfolding reap_max_txs
  reap_max_txs-take max mem =
      let start = laws.front_elements mem.txs in
      let count = laws.len_elements mem.txs in
      let all : limit (list.len mem.txs) max + 1 - 0 ≡ limit (list.len mem.txs) max + 1 =
        omega arith in
      ap (λ e. reap_txs list (limit (list.len mem.txs) max) (suc (list.len mem.txs)) e mem.txs [])
        start
      ∙ reap_txs-take (limit (list.len mem.txs) max) (suc (list.len mem.txs)) mem.txs []
          (laws.elements mem.txs) [] refl (omega arith)
      ∙ ap (λ n. take n (txs_of (laws.elements mem.txs))) all

  unfoldable pub gas_from : ℕ → List E → ℕ
  gas_from g [] = g
  gas_from g (e ∷ es) = gas_from (add_int64 g (list.value e).gas_wanted) es

  gas_last :
      (g : ℕ) (xs : List E) (e : E)
      → gas_from g (xs ++ e ∷ []) ≡ add_int64 (gas_from g xs) (list.value e).gas_wanted
  unfolding gas_from
  gas_last g [] e = refl
  gas_last g (x ∷ xs) e = gas_last (add_int64 g (list.value x).gas_wanted) xs e

  txs_last : (xs : List E) (e : E) → txs_of (xs ++ e ∷ []) ≡ txs_of xs ++ (list.value e).tx ∷ []
  txs_last [] e = refl
  txs_last (x ∷ xs) e = ap (◌∷◌ (list.value x).tx) (txs_last xs e)

  -- A limit that is set, and a number above it.
  abbrev pub exceeds : ℕ → ℕ → Bool
  exceeds max n = lt_int64 minus_one max && lt_int64 max n

  module _ (proto_size : List Bytes → ℕ) (max_bytes max_gas : ℕ) where
    abbrev pub Fits : List E → Type 0
    Fits xs =
        (exceeds max_bytes (proto_size (txs_of xs)) ≡ false)
        × (exceeds max_gas (gas_from 0 xs) ≡ false)

    abbrev pub Breaks : List E → Type 0
    Breaks xs =
        (exceeds max_bytes (proto_size (txs_of xs)) ≡ true)
        ⊎ (exceeds max_gas (gas_from 0 xs) ≡ true)

    -- The transactions of a first part of the list, which fits unless it is empty; the next
    -- transaction, if there is one, would break a limit.
    abbrev pub Reaped : List E → List Bytes → Type 0
    Reaped es txs =
        (xs ys : List E) × (es ≡ xs ++ ys)
        × (txs ≡ txs_of xs)
        × ((xs ≡ []) ⊎ Fits xs)
        × ((ys ≡ []) ⊎ ((y : E) × (zs : List E) × (ys ≡ y ∷ zs) × Breaks (xs ++ y ∷ [])))

    reap_bytes_gas-Reaped :
        (fuel : ℕ) (l : L) (xs ys : List E)
        → laws.elements l ≡ xs ++ ys
        → length ys < fuel
        → (xs ≡ []) ⊎ Fits xs
        → Reaped (laws.elements l) (
            reap_bytes_gas list proto_size max_bytes max_gas fuel
              (head ys)
              l
              (gas_from 0 xs)
              (txs_of xs))
    unfolding reap_bytes_gas
    reap_bytes_gas-Reaped zero l xs ys split enough fits = absurd (omega arith)
    reap_bytes_gas-Reaped (suc fuel) l xs [] split enough fits =
        (xs, [], split, refl, fits, inl refl)
    reap_bytes_gas-Reaped (suc fuel) l xs (y ∷ ys) split enough fits =
        let following = laws.next_elements l xs ys y split in
        let sizes = ap proto_size (txs_last xs y) in
        let gas = gas_last 0 xs y in
        let breaks : Breaks (xs ++ y ∷ []) → Reaped (laws.elements l) (txs_of xs) =
          λ b. (xs, y ∷ ys, split, refl, fits, inr (y, ys, refl, b)) in
        elim (Bool-cases (exceeds max_bytes (proto_size (txs_of xs ++ (list.value y).tx ∷ [])))) [
          | inl big ↦ rw (big, reap_bytes_gas) (breaks (inl (ap (exceeds max_bytes) sizes ∙ big)))
          | inr small ↦
              elim (Bool-cases
                (exceeds max_gas (add_int64 (gas_from 0 xs) (list.value y).gas_wanted))) [
                  | inl big ↦
                      rw (small, big, reap_bytes_gas)
                        (breaks (inr (ap (exceeds max_gas) gas ∙ big)))
                  | inr cheap ↦
                      let ih =
                        reap_bytes_gas-Reaped fuel l (xs ++ y ∷ []) ys
                          (split ∙ sym (append_assoc xs (y ∷ []) ys)) (omega arith)
                          (inr (
                            ap (exceeds max_bytes) sizes ∙ small,
                            ap (exceeds max_gas) gas ∙ cheap,
                          )) in
                      rw (small, cheap, following, reap_bytes_gas)
                        (subst (Reaped (laws.elements l))
                          (ap₂
                            (λ g t.
                              reap_bytes_gas list proto_size max_bytes max_gas fuel (head ys) l g t)
                            gas (txs_last xs y))
                          ih)
                ]
        ]

    -- ReapMaxBytesMaxGas returns the transactions of a first part of the list, which is empty or
    -- keeps within both limits, and which ends with the list or where the next transaction breaks
    -- a limit; a negative limit is none, and the gas is summed up in an int64, which wraps around
    -- and is below every limit when it is negative.
    pub reap_max_bytes_max_gas-Reaped :
        (mem : Mempool L E)
        → Reaped
            (laws.elements mem.txs)
            (reap_max_bytes_max_gas list proto_size max_bytes max_gas mem)
    unfolding reap_max_bytes_max_gas gas_from
    reap_max_bytes_max_gas-Reaped mem =
        let start = laws.front_elements mem.txs in
        let count = laws.len_elements mem.txs in
        rw (start, reap_max_bytes_max_gas)
          (reap_bytes_gas-Reaped (suc (list.len mem.txs)) mem.txs [] (laws.elements mem.txs) refl
            (omega arith) (inl refl))
