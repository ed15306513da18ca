-- ===== src/Wendy/Sets.antt =====
-- `BlockingSet` of wendy.go: the matrix of blocked pairs, and what the map holds for each
-- transaction of the pool.
use wendy.Common.{
  ℕ, zero, suc, ◌+◌, ◌<◌, ◌≤◌, ◌≡◌, ◌↔◌, refl, ap, sym, ◌∙◌, subst, Bool, true, not, List, [], ◌∷◌,
  map, none, some, arith, length, length-map, take, drop, get_elem?, All, All-mono, lookup, insert,
  lookup-insert, returns,
}
use wendy.Crypto.{Bytes, bytes_dec}
use wendy.Types.{Hash, Tx}
use wendy.Txs.Valid.{IsValid, Other, Distinct}
use wendy.Peer.{bucket_before}
use wendy.Peer.Buckets.{view}
use wendy.Blocking.{sort, contains}
use wendy.Blocking.Reach.{Reach, IsSquare}
use wendy.Blocking.Search.{recompute-Reach}
use wendy.Blocking.Marks
use wendy.Blocking.Marks.{recompute-Distinct}
use wendy.Blocking.Sorting.{length-sort}
use wendy.Wendy.{Wendy}
use wendy.Wendy.Quorum.{tally, reaches, is_blocked-tally}
use wendy.Wendy.Blocks.{
  BlockingSet, matrix_row, matrix_rows, collect_blockers, blockers_of, fill_set, blocking_set,
}

abbrev pub OneLabel : Bytes → List Tx → Type 0
OneLabel l = All (λ tx. tx.label ≡ l)

-- The first is blocked by the second: no quorum reports it before the second.
unfoldable pub blocked : Wendy → Tx → Tx → Bool
blocked w tx1 tx2 =
    not (reaches w.quorum (tally (λ p. bucket_before (view tx1.label p) tx1.hash tx2.hash) w.peers))

abbrev pub blocked_matrix : Wendy → List Tx → List Tx → List (List Bool)
blocked_matrix w txs = map (λ tx1. map (blocked w tx1) txs)

matrix_row-map :
    (w : Wendy) (tx1 : Tx) (txs : List Tx)
    → OneLabel tx1.label txs
    → matrix_row w tx1 txs ≡ returns (map (blocked w tx1) txs)
unfolding matrix_row blocked
matrix_row-map w tx1 [] l = refl
matrix_row-map w tx1 (tx2 ∷ txs) l =
    rw ((is_blocked-tally w tx1 tx2 (sym l.0)).1, matrix_row-map w tx1 txs l.1)

matrix_rows-map :
    (w : Wendy) (l : Bytes) (txs rest : List Tx)
    → OneLabel l txs
    → OneLabel l rest
    → matrix_rows w txs rest ≡ returns (blocked_matrix w txs rest)
unfolding matrix_rows
matrix_rows-map w l txs [] all some_left = refl
matrix_rows-map w l txs (tx1 ∷ rest) all some_left =
    let row = matrix_row-map w tx1 txs (All-mono txs (λ tx e. e ∙ sym some_left.0) all) in
    rw (row, matrix_rows-map w l txs rest all some_left.1)

blocked_matrix-rows :
    (w : Wendy) (txs rest : List Tx)
    → All (λ row. length row ≡ length txs) (blocked_matrix w txs rest)
blocked_matrix-rows w txs [] = tt
blocked_matrix-rows w txs (tx ∷ rest) =
    (length-map (blocked w tx) txs, blocked_matrix-rows w txs rest)

blocked_matrix-IsSquare : (w : Wendy) (txs : List Tx) → IsSquare (blocked_matrix w txs txs)
blocked_matrix-IsSquare w txs =
    rw (length-map (λ tx1. map (blocked w tx1) txs) txs) (blocked_matrix-rows w txs txs)

drop_step :
    (i : ℕ) (txs : List Tx)
    → i < length txs
    → (tx : Tx) × (get_elem? txs i ≡ some tx) × (drop i txs ≡ tx ∷ drop (suc i) txs)
drop_step i [] h = elim h [ ]
drop_step zero (tx ∷ txs) h = (tx, refl, refl)
drop_step (suc i) (tx ∷ txs) h = drop_step i txs (omega arith)

-- The loop over the indices of `keys` collects as many transactions as there are keys, from the
-- front of the pool.
collect_blockers-take :
    (txs : List Tx) (i : ℕ) (keys : List ℕ)
    → i + length keys ≤ length txs
    → collect_blockers txs i keys ≡ returns (take (length keys) (drop i txs))
unfolding collect_blockers
collect_blockers-take txs i [] h = refl
collect_blockers-take txs i (k ∷ keys) h =
    let (tx, at_i, step) = drop_step i txs (omega arith) in
    rw (at_i, step, collect_blockers)
      (rw (collect_blockers-take txs (suc i) keys (omega arith)) refl)

-- What `BlockingSet` holds for position `i`: a prefix of the pool, as long as the set of positions
-- that can be reached from `i` over blocked pairs is large: `deps` lists each of them once.
pub record Blockers (w : Wendy) (txs : List Tx) (i : ℕ) (list : List Tx) : Type 0 where
  pub deps : List ℕ
  pub distinct : Marks.Distinct deps
  pub reached : (x : ℕ) → (contains x deps ≡ true) ↔ Reach (blocked_matrix w txs txs) i x
  pub few : length deps ≤ length txs
  pub prefix : list ≡ take (length deps) txs

blockers_of-Blockers :
    (w : Wendy) (txs : List Tx) (i : ℕ)
    → i < length txs
    → (list : List Tx) × (blockers_of (blocked_matrix w txs txs) txs i ≡ returns list)
      × Blockers w txs i list
unfolding blockers_of
blockers_of-Blockers w txs i inside =
    let m = blocked_matrix w txs txs in
    let size : length m ≡ length txs = length-map (λ tx1. map (blocked w tx1) txs) txs in
    let (deps, returned, reached, few) =
      recompute-Reach m i (blocked_matrix-IsSquare w txs) (omega arith) in
    let sorted = length-sort deps in
    let collected = collect_blockers-take txs 0 (sort deps) (omega arith) in
    (
      take (length deps) txs,
      rw (returned, blockers_of) (collected ∙ ap (λ k. returns (take k txs)) sorted),
      record {
        deps = deps;
        distinct = recompute-Distinct (suc (length m)) m i deps returned;
        reached = reached;
        few = omega arith;
        prefix = refl;
      },
    )

-- Every transaction of `rest`, which stands at position `i` of the pool, has its list in the set.
abbrev pub Filled : Wendy → List Tx → ℕ → List Tx → BlockingSet → Type 0
Filled w txs i rest set =
    (j : ℕ) (tx : Tx)
    → get_elem? rest j ≡ some tx
    → (list : List Tx) × (lookup bytes_dec tx.hash set ≡ some list) × Blockers w txs (i + j) list

Filled-cons :
    (w : Wendy) (txs : List Tx) (i : ℕ) (tx : Tx) (rest : List Tx) (set : BlockingSet)
    (list : List Tx)
    → lookup bytes_dec tx.hash set ≡ some list
    → Blockers w txs i list
    → Filled w txs (suc i) rest set
    → Filled w txs i (tx ∷ rest) set
Filled-cons w txs i tx rest set list at blockers filled zero other e =
    let same : tx ≡ other = grind (arith, e) in
    (
      list,
      subst (λ t. lookup bytes_dec t.hash set ≡ some list) same at,
      subst (λ k. Blockers w txs k list) (omega arith) blockers,
    )
Filled-cons w txs i tx rest set list at blockers filled (suc j) other e =
    let (l, at', blockers') = filled j other e in
    (l, at', subst (λ k. Blockers w txs k l) (omega arith) blockers')

-- The second loop of `BlockingSet` returns; it fills in the hashes of the transactions it runs over
-- and leaves the other ones.
fill_set-Filled :
    (w : Wendy) (txs : List Tx) (i : ℕ) (rest : List Tx) (set : BlockingSet)
    → i + length rest ≤ length txs
    → Distinct rest
    → (set' : BlockingSet) × (fill_set (blocked_matrix w txs txs) txs i rest set ≡ returns set')
      × ((h : Hash) → Other h rest → lookup bytes_dec h set' ≡ lookup bytes_dec h set)
      × Filled w txs i rest set'
unfolding fill_set
fill_set-Filled w txs i [] set room d = (set, refl, (λ h o. refl), λ j tx e. grind (arith, e))
fill_set-Filled w txs i (tx ∷ rest) set room d =
    let (list, returned, blockers) = blockers_of-Blockers w txs i (omega arith) in
    let set1 = insert bytes_dec tx.hash list set in
    let (set', filled, others, found) = fill_set-Filled w txs (suc i) rest set1 (omega arith) d.1 in
    let kept = lookup-insert bytes_dec tx.hash tx.hash list set in
    let at : lookup bytes_dec tx.hash set' ≡ some list =
      others tx.hash d.0 ∙ ground (arith, kept) in
    (
      set',
      rw (returned, filled, fill_set) refl,
      (λ h o. others h o.1 ∙ ground (arith, o.0, lookup-insert bytes_dec tx.hash h list set)),
      Filled-cons w txs i tx rest set' list at blockers found,
    )

-- The set that `BlockingSet` returns.
pub blocking_set-Filled :
    (w : Wendy) (l : Bytes)
    → IsValid w.txs
    → OneLabel l w.txs.list
    → (set : BlockingSet) × (blocking_set w ≡ returns set)
      × ((h : Hash) → Other h w.txs.list → lookup bytes_dec h set ≡ none)
      × Filled w w.txs.list 0 w.txs.list set
unfolding blocking_set
blocking_set-Filled w l valid one =
    let rows = matrix_rows-map w l w.txs.list w.txs.list one one in
    let (set, filled, others, found) =
      fill_set-Filled w w.txs.list 0 w.txs.list [] (omega arith) valid.distinct in
    (set, rw (rows, filled, blocking_set) refl, others, found)
