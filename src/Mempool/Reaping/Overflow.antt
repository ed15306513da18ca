-- ===== src/Mempool/Reaping/Overflow.antt =====
-- The sum of the gas in `ReapMaxBytesMaxGas` is an `int64` (tendermint/mempool/mempool.go).
use wendy.Common.{
  ℕ, ◌+◌, ◌^◌, ◌<◌, ◌≤◌, ◌≡◌, ap, sym, ◌∙◌, subst, false, List, [], ◌∷◌, arith, inl, inr, lt_int64,
  minus_one,
}
use wendy.Crypto.{Bytes}
use wendy.Mempool.Elements.{Clist, Laws}
use wendy.Mempool.{Mempool, MempoolTx}
use wendy.Mempool.Reaping.{reap_max_bytes_max_gas}
use wendy.Mempool.Reaping.Prefix.{
  Reaped, exceeds, gas_from, txs_of, Breaks, reap_max_bytes_max_gas-Reaped,
}

module _ {L E : Type 0} (list : Clist MempoolTx L E) (laws : Laws list) where
  abbrev gas : E → ℕ
  gas e = (list.value e).gas_wanted

  -- A sum that has wrapped around is below every limit.
  wrapped :
      (max_gas : ℕ) (a b : E)
      → gas a ≤ max_gas
      → max_gas < 2 ^ 63
      → gas b < 2 ^ 63
      → 2 ^ 63 ≤ gas a + gas b
      → (exceeds list laws max_gas (gas_from list laws 0 (a ∷ [])) ≡ false)
        × (exceeds list laws max_gas (gas_from list laws 0 (a ∷ b ∷ [])) ≡ false)
  unfolding gas_from
  wrapped max_gas a b small range p over = (ground arith, ground arith)

  module _ (proto_size : List Bytes → ℕ) (max_bytes max_gas : ℕ) where
    Breaks-no :
        (xs : List E)
        → lt_int64 minus_one max_bytes ≡ false
        → exceeds list laws max_gas (gas_from list laws 0 xs) ≡ false
        → ¬ Breaks list laws proto_size max_bytes max_gas xs
    Breaks-no xs no_limit cheap (inl big) = absurd (ground arith)
    Breaks-no xs no_limit cheap (inr big) = absurd (ground arith)

    Reaped-two :
        (a b : E) (es : List E) (txs : List Bytes)
        → ¬ Breaks list laws proto_size max_bytes max_gas (a ∷ [])
        → ¬ Breaks list laws proto_size max_bytes max_gas (a ∷ b ∷ [])
        → Reaped list laws proto_size max_bytes max_gas (a ∷ b ∷ es) txs
        → (rest : List Bytes) × (txs ≡ (list.value a).tx ∷ (list.value b).tx ∷ rest)
    Reaped-two a b es txs one two ([], ys, split, same, _, inl none_left) = absurd (cc)
    Reaped-two a b es txs one two ([], ys, split, same, _, inr (y, zs, next, breaks)) =
        let here : a ≡ y = cc in
        absurd (
          one
            (subst (λ e. Breaks list laws proto_size max_bytes max_gas (e ∷ [])) (sym here) breaks))
    Reaped-two a b es txs one two (x ∷ [], ys, split, same, _, inl none_left) = absurd (cc)
    Reaped-two a b es txs one two (x ∷ [], ys, split, same, _, inr (y, zs, next, breaks)) =
        let both : x ∷ y ∷ [] ≡ a ∷ b ∷ [] = cc in
        absurd (two (subst (Breaks list laws proto_size max_bytes max_gas) both breaks))
    Reaped-two a b es txs one two (x ∷ y ∷ xs, ys, split, same, _, _) =
        let first : x ≡ a = cc in
        let second : y ≡ b = cc in
        (
          txs_of list laws xs,
          same
              ∙ ap (λ e. (list.value e).tx ∷ txs_of list laws (y ∷ xs)) first
              ∙ ap (λ e. (list.value a).tx ∷ (list.value e).tx ∷ txs_of list laws xs) second,
        )

    -- With no limit on bytes and a limit on gas below 2 ^ 63, where the gas of the first
    -- transaction of the list is within the limit, that of the second one is below 2 ^ 63 and
    -- their sum is not, the two together are above the limit, and ReapMaxBytesMaxGas returns both
    -- of them, and perhaps more.
    pub reap_max_bytes_max_gas-wraps :
        (mem : Mempool L E) (a b : E) (es : List E)
        → laws.elements mem.txs ≡ a ∷ b ∷ es
        → lt_int64 minus_one max_bytes ≡ false
        → max_gas < 2 ^ 63
        → gas a ≤ max_gas
        → gas b < 2 ^ 63
        → 2 ^ 63 ≤ gas a + gas b
        → (max_gas < gas a + gas b)
          × (rest : List Bytes) × (reap_max_bytes_max_gas list proto_size max_bytes max_gas mem
              ≡ (list.value a).tx ∷ (list.value b).tx ∷ rest)
    reap_max_bytes_max_gas-wraps mem a b es held no_limit range small p over =
        let (cheap, cheap') = wrapped max_gas a b small range p over in
        let reaped = reap_max_bytes_max_gas-Reaped list laws proto_size max_bytes max_gas mem in
        let (rest, same) =
          Reaped-two a b es (reap_max_bytes_max_gas list proto_size max_bytes max_gas mem)
            (Breaks-no (a ∷ []) no_limit cheap) (Breaks-no (a ∷ b ∷ []) no_limit cheap')
            (subst
              (λ l.
                Reaped list laws proto_size max_bytes max_gas l
                  (reap_max_bytes_max_gas list proto_size max_bytes max_gas mem))
              held reaped) in
        (omega arith, rest, same)
