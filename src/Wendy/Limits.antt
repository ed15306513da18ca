-- ===== src/Wendy/Limits.antt =====
-- The blocks of wendy.go: what `NewBlockWithOptions` may put into a block.
use wendy.Common.{
  ℕ, ◌+◌, ◌<◌, ◌≤◌, ◌≡◌, ◌≢◌, ap, sym, subst, Bool, ◌&&◌, List, [], ◌∷◌, ◌++◌, arith, ltb, ◌==◌,
  if◌then◌else◌, length, length-append, All, All-append, inl, inr, lookup, Bool-cases,
}
use wendy.Crypto.{bytes_dec}
use wendy.Types.{Hash, Tx}
use wendy.Txs.{push_all, Txs, push, reset, new_txs}
use wendy.Txs.Valid.{IsValid, push-IsValid, reset-IsValid}
use wendy.Wendy.Blocks.{BlockingSet, NewBlockOptions, blockers_in, add_list, add_lists}

-- The sum of the sizes of the transactions.
unfoldable pub total : List Tx → ℕ
total [] = 0
total (tx ∷ txs) = length tx.bytes + total txs

total-append : (xs ys : List Tx) → total (xs ++ ys) ≡ total xs + total ys
unfolding total
total-append [] ys = omega arith
total-append (x ∷ xs) ys = omega (arith, total-append xs ys)

total_last : (xs : List Tx) (tx : Tx) → total (xs ++ tx ∷ []) ≡ total xs + length tx.bytes
unfolding total
total_last xs tx = omega (arith, total-append xs (tx ∷ []))

-- What holds of a block in the making: distinct hashes, all transactions from the given ones, the
-- limits on number and size, and the size counter not below the block's size.
pub record Fits (P : Tx → Type 0) (opts : NewBlockOptions) (size : ℕ) (txs : Txs) : Type 0 where
  pub valid : IsValid txs
  pub known : All P txs.list
  pub number : 0 < opts.tx_limit → length txs.list ≤ opts.tx_limit
  pub counted : 0 < opts.max_block_size → total txs.list ≤ size
  pub bounded : 0 < opts.max_block_size → total txs.list ≤ opts.max_block_size

module _ (P : Tx → Type 0) (opts : NewBlockOptions) where
  -- A transaction that passes both tests is pushed.
  push-Fits :
      (tx : Tx) (size size' : ℕ) (txs : Txs)
      → P tx
      → Fits P opts size txs
      → (0 < opts.tx_limit → length txs.list ≢ opts.tx_limit)
      → (0 < opts.max_block_size → size' ≡ size + length tx.bytes)
      → (0 < opts.max_block_size → size' ≤ opts.max_block_size)
      → Fits P opts size' (push tx txs).0
  push-Fits tx size size' txs known fits room grows small =
      let (valid, cases) = push-IsValid tx txs fits.valid in
      elim cases [
        | inl (_, same) ↦
            let stays = ap (λ (r : Txs × Bool). r.0.list) same in
            record {
              valid = valid;
              known = subst (All P) (sym stays) fits.known;
              number = λ h. omega (arith, fits.number h, ap length stays);
              counted = λ h. omega (arith, fits.counted h, grows h, ap total stays);
              bounded = λ h. omega (arith, fits.bounded h, ap total stays);
            }
        | inr (_, last, _) ↦ record {
          valid = valid;
          known = subst (All P) (sym last) (All-append P txs.list (tx ∷ []) fits.known (known, tt));
          number = λ h.
              omega
                (arith, fits.number h, room h, ap length last, length-append txs.list (tx ∷ []));
          counted =
              λ h. omega (arith, fits.counted h, grows h, ap total last, total_last txs.list tx);
          bounded = λ h.
              omega
                (arith, fits.counted h, grows h, small h, ap total last, total_last txs.list tx);
        }
      ]

  grow-Fits :
      (size size' : ℕ) (txs : Txs) → size ≤ size' → Fits P opts size txs → Fits P opts size' txs
  grow-Fits size size' txs h fits = record {
    valid = fits.valid;
    known = fits.known;
    number = fits.number;
    counted = λ g. omega (arith, fits.counted g);
    bounded = fits.bounded;
  }

  add_list-Fits :
      (list : List Tx) (size : ℕ) (txs : Txs)
      → All P list
      → Fits P opts size txs
      → let (size', txs') = add_list opts list size txs in Fits P opts size' txs'
  unfolding add_list
  add_list-Fits [] size txs known fits = fits
  add_list-Fits (tx ∷ list) size txs known fits =
      let size' : ℕ = if ltb 0 opts.max_block_size then size + length tx.bytes else size in
      elim (Bool-cases (ltb 0 opts.tx_limit && length txs.list == opts.tx_limit)) [
        | inl full ↦ rw (full, add_list) fits
        | inr room ↦
            elim (Bool-cases (ltb 0 opts.max_block_size && ltb opts.max_block_size size')) [
              | inl big ↦ rw (room, big, add_list) (grow-Fits size size' txs (ground arith) fits)
              | inr small ↦
                  rw (room, small, add_list)
                    (add_list-Fits list size' (push tx txs).0 known.1 (
                      push-Fits tx size size' txs known.0 fits (λ h. ground arith)
                        (λ h. ground arith) (λ h. ground arith)))
            ]
      ]

  add_lists-Fits :
      (set : BlockingSet) (list : List Tx) (size : ℕ) (txs : Txs)
      → ((h : Hash) → All P (blockers_in (lookup bytes_dec h set)))
      → Fits P opts size txs
      → let (size', txs') = add_lists opts set list size txs in Fits P opts size' txs'
  unfolding add_lists
  add_lists-Fits set [] size txs known fits = fits
  add_lists-Fits set (tx ∷ list) size txs known fits =
      let (size', txs') = add_list opts (blockers_in (lookup bytes_dec tx.hash set)) size txs in
      add_lists-Fits set list size' txs' known
        (add_list-Fits (blockers_in (lookup bytes_dec tx.hash set)) size txs (known tx.hash) fits)

  empty-Fits : Fits P opts 0 (new_txs [])
  unfolding new_txs push_all total reset
  empty-Fits = record {
    valid = reset-IsValid;
    known = tt;
    number = λ h. omega arith;
    counted = λ h. omega arith;
    bounded = λ h. omega arith;
  }

  -- The two loops keep within the limits, whatever the blocking set holds.
  pub block-Fits :
      (set : BlockingSet) (list : List Tx)
      → ((h : Hash) → All P (blockers_in (lookup bytes_dec h set)))
      → let (size, txs) = add_lists opts set list 0 (new_txs []) in Fits P opts size txs
  block-Fits set list known = add_lists-Fits set list 0 (new_txs []) known empty-Fits
