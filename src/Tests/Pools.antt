-- ===== src/Tests/Pools.antt =====
-- Runs of tx.go and wendy.go.
use mathlib.Core.List.{Perm, Permᴰ}
use wendy.Common.{
  inl, inr, blocks, ℕ, ◌+◌, ◌*◌, ◌-◌, ◌<◌, ◌≤◌, ◌≡◌, ◌≢◌, ◌⊎◌, refl, Bool, true, false, not, List,
  [], ◌∷◌, ◌++◌, none, some, ite, arith, length, All, In, get_elem?, lookup, rejected, pos, negsuc,
  returns, panics,
}
use wendy.Crypto.{Bytes, Pubkey, PeerId, bytes_dec, pubkey_string}
use wendy.Types.{Hash, Tx, Vote, zero_hash}
use wendy.Txs.{Txs, remove_by_hash}
use wendy.Txs.Valid.{IsValid, Other, Distinct, index_of}
use wendy.Txs.Removal.{remove_by_hash-IsValid}
use wendy.Peer.{Peer, Error, new_peer, seen, bucket_before, update_tx_set}
use wendy.Peer
use wendy.Peer.Buckets.{view}
use wendy.Wendy.{
  Wendy, update_validator_set, honest_parties, honest_majority, add_vote, vote_by_tx_hash,
  is_blocked, is_blocked_by, add_block,
}
use wendy.Wendy.Blocks.{BlockingSet, NewBlockOptions, blocking_set, new_block_with_options}
use wendy.Wendy.Quorum.{tally, reaches, is_blocked-tally, quorum_bounds}
use wendy.Wendy.Labels.{blocking_set-panics}
use wendy.Wendy.Peers.{update_validator_set-peers, peer_or_new, add_vote-registers}
use wendy.Wendy.Pool.{in_block, add_block-rejected}
use wendy.Wendy.Limits.{total}
use wendy.Wendy.Sets.{Blockers}
use wendy.Wendy.Prefixes.{blocking_set-prefixes, new_block_with_options_lem}

abbrev sum256 : Bytes → Hash
sum256 bs = zero_hash

abbrev tx : ℕ → Tx
tx n = record { bytes = 1 ∷ 2 ∷ []; hash = n ∷ []; label = [] }

abbrev pool : Txs
pool = record { list = tx 1 ∷ tx 2 ∷ []; by_hash = (1 ∷ [], 0) ∷ (2 ∷ [], 1) ∷ [] }

pool-IsValid : IsValid pool
unfolding index_of
pool-IsValid = record {
  distinct = (((λ e. grind (arith, e)), tt), (tt, tt));
  indexed = λ h. ground arith;
}

abbrev alone : Peer
alone = new_peer (7 ∷ [])

abbrev wendy_state : Wendy
wendy_state = record {
  validators = (7 ∷ []) ∷ (8 ∷ []) ∷ [];
  quorum = 2;
  txs = pool;
  votes = [];
  peers = (pubkey_string (7 ∷ []), alone) ∷ (pubkey_string (8 ∷ []), new_peer (8 ∷ [])) ∷ [];
}

remove_by_hash-IsValid_example :
    IsValid (remove_by_hash (1 ∷ []) pool).0
    × ((Other (1 ∷ []) pool.list × (remove_by_hash (1 ∷ []) pool ≡ (pool, false)))
        ⊎ ((pre post : List Tx) × (t : Tx) × (pool.list ≡ pre ++ t ∷ post)
            × (t.hash ≡ 1 ∷ [])
            × ((remove_by_hash (1 ∷ []) pool).0.list ≡ pre ++ post)
            × ((remove_by_hash (1 ∷ []) pool).1 ≡ true)))
remove_by_hash-IsValid_example = remove_by_hash-IsValid (1 ∷ []) pool pool-IsValid

add_block-rejected_example :
    let w = add_block (tx 2 ∷ tx 4 ∷ []) wendy_state in
    IsValid w.txs
    × (w.txs.list ≡ rejected (in_block (tx 2 ∷ tx 4 ∷ [])) pool.list)
    × ((id : PeerId)
        → lookup bytes_dec id w.peers ≡ elim (lookup bytes_dec id wendy_state.peers) [
          | none ↦ none
          | some p ↦ some (update_tx_set (tx 2 ∷ tx 4 ∷ []) p)
        ])
add_block-rejected_example = add_block-rejected (tx 2 ∷ tx 4 ∷ []) wendy_state pool-IsValid

is_blocked-tally_example :
    (is_blocked wendy_state (tx 1)
      ≡ returns (not (reaches 2 (tally (λ p. seen p (tx 1)) wendy_state.peers))))
    × (is_blocked_by wendy_state (tx 1) (tx 2)
        ≡ returns (
            not (
              reaches 2
                (tally (λ p. bucket_before (view [] p) (1 ∷ []) (2 ∷ [])) wendy_state.peers))))
is_blocked-tally_example = is_blocked-tally wendy_state (tx 1) (tx 2) refl

abbrev five_keys : List Pubkey
five_keys = (1 ∷ []) ∷ (2 ∷ []) ∷ (3 ∷ []) ∷ (4 ∷ []) ∷ (5 ∷ []) ∷ []

quorum_bounds_example :
    let w = update_validator_set five_keys wendy_state in
    (2 * 5 < 3 * honest_parties w)
    × (3 * honest_parties w ≤ 2 * 5 + 3)
    × (0 < 5
        → (honest_parties w ≤ 5)
          × (honest_majority w ≡ pos (5 - honest_parties w))
          × (5 - honest_parties w < honest_parties w))
    × (length five_keys ≡ 0 → honest_majority w ≡ negsuc 0)
quorum_bounds_example = quorum_bounds five_keys wendy_state

-- A pool with two labels.
abbrev labelled : Tx
labelled = record { bytes = []; hash = 2 ∷ []; label = 3 ∷ [] }

abbrev two_labels : Wendy
two_labels = record wendy_state {
  txs = record { list = tx 1 ∷ labelled ∷ []; by_hash = (1 ∷ [], 0) ∷ (2 ∷ [], 1) ∷ [] };
}

blocking_set-panics_example :
    let opts : NewBlockOptions = record {
      tx_limit = 0;
      max_block_size = 0;
      with_add_block = false;
    } in
    (blocking_set two_labels ≡ panics) × (new_block_with_options opts two_labels ≡ panics)
blocking_set-panics_example =
    blocking_set-panics two_labels (tx 1) labelled
      (record { tx_limit = 0; max_block_size = 0; with_add_block = false }) (λ e. grind (arith, e))
      (inl refl) (inr (inl refl)) (λ e. grind (arith, e))

abbrev swapped : List (PeerId × Peer)
swapped = (pubkey_string (8 ∷ []), new_peer (8 ∷ [])) ∷ (pubkey_string (7 ∷ []), alone) ∷ []

swapped_perm : Perm wendy_state.peers swapped
swapped_perm = ∣ Permᴰ.swap refl refl ∣₁

update_validator_set-peers_example :
    let id = pubkey_string (7 ∷ []) in
    let vs : List Pubkey = (7 ∷ []) ∷ (9 ∷ []) ∷ [] in
    let peers = (update_validator_set vs wendy_state).peers in
    ((lookup bytes_dec id peers ≡ none) × ((val : Pubkey) → In val vs → pubkey_string val ≢ id))
    ⊎ ((val : Pubkey) × In val vs
        × (pubkey_string val ≡ id)
        × (lookup bytes_dec id peers ≡ elim (lookup bytes_dec id wendy_state.peers) [
          | some s ↦ some s
          | none ↦ some (new_peer val)
        ]))
update_validator_set-peers_example =
    update_validator_set-peers ((7 ∷ []) ∷ (9 ∷ []) ∷ []) wendy_state (pubkey_string (7 ∷ []))

abbrev vote : Vote
vote = record {
  pubkey = 7 ∷ [];
  label = [];
  seq = 1;
  tx_hash = 1 ∷ [];
  time = 0;
  prev_hash = zero_hash;
}

add_vote-registers_example :
    let r = Peer.add_vote sum256 vote (peer_or_new vote wendy_state) in
    (w' : Wendy) × (added : Bool) × (add_vote sum256 vote wendy_state ≡ returns (w', added, r.2))
    × ((q : PeerId)
        → lookup bytes_dec q w'.peers
          ≡ ite
              (bytes_dec (pubkey_string (7 ∷ [])) q)
              (some r.0)
              (lookup bytes_dec q wendy_state.peers))
    × ((w'.txs ≡ wendy_state.txs)
        × (w'.validators ≡ wendy_state.validators)
        × (w'.quorum ≡ wendy_state.quorum))
    × ((r.2 ≡ none)
        → (added ≡ r.1)
          × ((h : Hash)
              → vote_by_tx_hash h w'
                ≡ ite (bytes_dec (1 ∷ []) h) (some vote) (vote_by_tx_hash h wendy_state)))
    × ((r.2 ≢ none)
        → (added ≡ false) × ((h : Hash) → vote_by_tx_hash h w' ≡ vote_by_tx_hash h wendy_state))
add_vote-registers_example = add_vote-registers sum256 vote wendy_state (omega arith)

blocking_set-prefixes_example :
    (set : BlockingSet) × (blocking_set wendy_state ≡ returns set)
    × ((i : ℕ) (t : Tx)
        → get_elem? pool.list i ≡ some t
        → (list : List Tx) × (lookup bytes_dec t.hash set ≡ some list)
          × Blockers wendy_state pool.list i list)
blocking_set-prefixes_example = blocking_set-prefixes wendy_state [] pool-IsValid (refl, (refl, tt))

abbrev limits : NewBlockOptions
limits = record { tx_limit = 1; max_block_size = 100; with_add_block = false }

new_block_with_options_lem_example :
    ((false ≡ true) × (new_block_with_options limits wendy_state ≡ blocks))
    ⊎ ((false ≡ false)
        × (block : List Tx) × (new_block_with_options limits wendy_state
            ≡ returns (wendy_state, block))
        × Distinct block
        × All (λ t. In t pool.list) block
        × (0 < 1 → length block ≤ 1)
        × (0 < 100 → total block ≤ 100))
new_block_with_options_lem_example =
    new_block_with_options_lem limits wendy_state [] pool-IsValid (refl, (refl, tt))
