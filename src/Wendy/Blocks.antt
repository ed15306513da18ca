-- ===== src/Wendy/Blocks.antt =====
-- wendy.go: the blocking set, and the blocks that are made from it.
use wendy.Common.{
  ℕ, suc, ◌+◌, Bool, false, ◌&&◌, List, [], ◌∷◌, Option, none, some, ◌==◌, ltb, if◌then◌else◌,
  lookup, insert, length, get_elem?, Outcome, returns, panics, blocks, ◌>>=◌,
}
use wendy.Crypto.{bytes_dec}
use wendy.Types.{Hash, Tx}
use wendy.Txs.{Txs, new_txs, push}
use wendy.Blocking.{recompute, sort}
use wendy.Wendy.{Wendy, is_blocked_by, add_block}

-- One row of the matrix, and the matrix of `BlockingSet`: entry (i, j) tells whether transaction i
-- is blocked by transaction j.
unfoldable pub matrix_row : Wendy → Tx → List Tx → Outcome (List Bool)
matrix_row w tx1 [] = returns []
matrix_row w tx1 (tx2 ∷ txs) = do
  blocked ← is_blocked_by w tx1 tx2
  row ← matrix_row w tx1 txs
  returns (blocked ∷ row)

unfoldable pub matrix_rows : Wendy → List Tx → List Tx → Outcome (List (List Bool))
unfolding matrix_row
matrix_rows w txs [] = returns []
matrix_rows w txs (tx1 ∷ rest) = do
  row ← matrix_row w tx1 txs
  rows ← matrix_rows w txs rest
  returns (row ∷ rows)

-- `for txIndex := range keys { blockers = append(blockers, txs[txIndex]) }`: `range` over a slice
-- with one variable gives the indices 0, 1, … of `keys`, and not its elements.
unfoldable pub collect_blockers : List Tx → ℕ → List ℕ → Outcome (List Tx)
collect_blockers txs tx_index [] = returns []
collect_blockers txs tx_index (_ ∷ keys) = elim (get_elem? txs tx_index) [
  | none ↦ panics
  | some tx ↦ do blockers ← collect_blockers txs (suc tx_index) keys; returns (tx ∷ blockers)
]

-- The blockers of the transaction at position `i`.
unfoldable pub blockers_of : List (List Bool) → List Tx → ℕ → Outcome (List Tx)
unfolding collect_blockers
blockers_of matrix txs i = elim (recompute (suc (length matrix)) matrix i []) [
  | none ↦ panics
  | some deps ↦ collect_blockers txs 0 (sort deps)
]

-- `BlockingSet`, a map from hashes to lists of transactions.
abbrev pub BlockingSet : Type 0
BlockingSet = List (Hash × List Tx)

-- The second loop of `BlockingSet`, from position `i` on.
unfoldable pub fill_set :
    List (List Bool) → List Tx → ℕ → List Tx → BlockingSet → Outcome BlockingSet
unfolding blockers_of
fill_set matrix txs i [] set = returns set
fill_set matrix txs i (tx ∷ rest) set = do
  blockers ← blockers_of matrix txs i
  fill_set matrix txs (suc i) rest (insert bytes_dec tx.hash blockers set)

unfoldable pub blocking_set : Wendy → Outcome BlockingSet
unfolding matrix_rows fill_set
blocking_set w = do
  matrix ← matrix_rows w w.txs.list w.txs.list
  fill_set matrix w.txs.list 0 w.txs.list []

-- `NewBlockOptions`; 0 stands for no limit, as every number below 1 does in the code.
pub record NewBlockOptions : Type 0 where
  pub tx_limit : ℕ
  pub max_block_size : ℕ
  pub with_add_block : Bool

-- `set[hash]`; the list of a missing key is nil.
abbrev pub blockers_in : Option (List Tx) → List Tx
blockers_in none = []
blockers_in (some list) = list

-- The inner loop of `NewBlockWithOptions`: the size so far, and the transactions of the block.
unfoldable pub add_list : NewBlockOptions → List Tx → ℕ → Txs → ℕ × Txs
add_list opts [] size txs = (size, txs)
add_list opts (tx ∷ list) size txs =
    let size' = if ltb 0 opts.max_block_size then size + length tx.bytes else size in
    let rest = add_list opts list size' (push tx txs).0 in
    if ltb 0 opts.tx_limit && length txs.list == opts.tx_limit
    then (size, txs)
    else if ltb 0 opts.max_block_size && ltb opts.max_block_size size'
    then (size', txs)
    else rest

-- The outer loop: a `break` of the inner one does not end it.
unfoldable pub add_lists : NewBlockOptions → BlockingSet → List Tx → ℕ → Txs → ℕ × Txs
unfolding add_list
add_lists opts set [] size txs = (size, txs)
add_lists opts set (tx ∷ rest) size txs =
    let (size', txs') = add_list opts (blockers_in (lookup bytes_dec tx.hash set)) size txs in
    add_lists opts set rest size' txs'

-- What the calling goroutine holds of `txsMtx`.
pub data TxsLock : Type 0 where
  unlocked : TxsLock
  read_locked : TxsLock

-- `txsMtx.Lock()`: a `sync.RWMutex` is not reentrant, so a goroutine that holds it for reading waits
-- for itself.
unfoldable pub lock_txs : TxsLock → Outcome (Unit {0})
lock_txs unlocked = returns tt
lock_txs read_locked = blocks

-- A call of `AddBlock`.
unfoldable pub call_add_block : TxsLock → List Tx → Wendy → Outcome Wendy
unfolding lock_txs
call_add_block held block w = do _ ← lock_txs held; returns (add_block block w)

-- `NewBlockWithOptions`, which holds the read lock to its end: the new state and the block.
unfoldable pub new_block_with_options : NewBlockOptions → Wendy → Outcome (Wendy × List Tx)
unfolding blocking_set add_lists new_txs call_add_block
new_block_with_options opts w = do
  set ← blocking_set w
  let block = (add_lists opts set w.txs.list 0 (new_txs [])).1.list
  w' ← if opts.with_add_block then call_add_block read_locked block w else returns w
  returns (w', block)

-- `NewBlock`.
unfoldable pub new_block : Wendy → Outcome (Wendy × List Tx)
unfolding new_block_with_options
new_block =
    new_block_with_options (record { tx_limit = 0; max_block_size = 0; with_add_block = false })
