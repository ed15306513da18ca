-- ===== src/Mempool/PeerIds/Reserving.antt =====
-- The reserving of ids for peers (tendermint/mempool/reactor.go).
use wendy.Common.{
  ℕ, zero, suc, ◌+◌, ◌-◌, ◌%◌, ◌^◌, ◌<◌, ◌≤◌, ◌≡◌, ◌≢◌, refl, ap, sym, ◌∙◌, subst, List, [], ◌∷◌,
  none, some, arith, ite, length, lookup, insert, delete, lookup-insert, lookup-delete,
  Option-cases, inl, inr, ◌⊎◌, ℕ_discrete, returns, panics, ◌==◌, Bool-cases,
}
use wendy.Crypto.{Bytes, bytes_dec}
use wendy.Mempool.PeerIds.{
  MempoolIds, max_active_ids, next_uint16, free_id, next_peer_id, reserve_for_peer, reclaim,
  get_for_peer, new_mempool_ids,
}

abbrev Active : Type 0
Active = List (ℕ × Unit {0})

length-delete : (k : ℕ) (m : Active) → length (delete ℕ_discrete k m) ≤ length m
length-delete k [] = omega arith
length-delete k ((j, u) ∷ m) = ground (arith, length-delete k m)

length-delete_found :
    (k : ℕ) (m : Active) → lookup ℕ_discrete k m ≢ none → length (delete ℕ_discrete k m) < length m
length-delete_found k [] found = absurd (found refl)
length-delete_found k ((j, u) ∷ m) found =
    ground (arith, found, length-delete k m, length-delete_found k m)

length-insert : (k : ℕ) (m : Active) → length (insert ℕ_discrete k tt m) ≤ length m + 1
length-insert k [] = omega arith
length-insert k ((j, u) ∷ m) = ground (arith, length-insert k m)

-- Fewer ids than numbers leave a number free.
some_free : (n : ℕ) (m : Active) → length m < n → (i : ℕ) × (i < n) × (lookup ℕ_discrete i m ≡ none)
some_free zero m few = absurd (omega arith)
some_free (suc n) m few = elim (Option-cases (lookup ℕ_discrete n m)) [
  | inl free ↦ (n, omega arith, free)
  | inr (u, used) ↦
      let fewer = length-delete_found n m (λ e. cc) in
      let (i, below, free) = some_free n (delete ℕ_discrete n m) (omega arith) in
      (i, omega arith, ground (arith, lookup-delete ℕ_discrete n i m, free))
]

-- The loop finds a free number that is `k` steps ahead, or one before it.
free_id-some :
    (fuel n k : ℕ) (m : Active)
    → n < 2 ^ 16
    → k < fuel
    → k < 2 ^ 16
    → lookup ℕ_discrete ((n + k) % 2 ^ 16) m ≡ none
    → (i : ℕ) × (free_id fuel n m ≡ some i) × (i < 2 ^ 16) × (lookup ℕ_discrete i m ≡ none)
unfolding free_id
free_id-some zero n k m small enough step free = absurd (omega arith)
free_id-some (suc fuel) n k m small enough step free = elim (Option-cases (lookup ℕ_discrete n m)) [
  | inl unused ↦ (n, ground (arith, unused), small, unused)
  | inr (u, used) ↦ elim (Bool-cases (k == 0)) [
    | inl here ↦
        let same : (n + k) % 2 ^ 16 ≡ n = ground arith in
        let free' = ap (λ i. lookup ℕ_discrete i m) (sym same) ∙ free in
        absurd (ground (arith, free'))
    | inr ahead ↦
        let same : (next_uint16 n + (k - 1)) % 2 ^ 16 ≡ (n + k) % 2 ^ 16 = ground arith in
        let (i, found, below, unused) =
          free_id-some fuel (next_uint16 n) (k - 1) m (omega arith) (ground arith) (omega arith)
            (ap (λ j. lookup ℕ_discrete j m) same ∙ free) in
        (i, ground (arith, used, found), below, unused)
  ]
]

-- Ids are those of the peers and 0, which is for no peer; no two peers have the same one.
pub record IsValid (ids : MempoolIds) : Type 0 where
  pub next : ids.next_id < 2 ^ 16
  pub few : length ids.active_ids ≤ max_active_ids
  pub unknown : lookup ℕ_discrete 0 ids.active_ids ≢ none
  pub active :
      (peer : Bytes) (i : ℕ)
      → lookup bytes_dec peer ids.peer_map ≡ some i
      → lookup ℕ_discrete i ids.active_ids ≢ none
  pub known : (peer : Bytes) (i : ℕ) → lookup bytes_dec peer ids.peer_map ≡ some i → i ≢ 0
  pub apart :
      (peer other : Bytes) (i : ℕ)
      → lookup bytes_dec peer ids.peer_map ≡ some i
      → lookup bytes_dec other ids.peer_map ≡ some i
      → peer ≡ other

next_peer_id-free :
    (ids : MempoolIds)
    → IsValid ids
    → length ids.active_ids ≢ max_active_ids
    → (i : ℕ) × (next_peer_id ids ≡ returns (i, record ids { next_id = next_uint16 i }))
      × (lookup ℕ_discrete i ids.active_ids ≡ none)
unfolding next_peer_id
next_peer_id-free ids v room =
    let few = v.few in
    let next = v.next in
    let (j, below, free) = some_free (2 ^ 16) ids.active_ids (omega arith) in
    let k : ℕ = (j + (2 ^ 16 - ids.next_id)) % 2 ^ 16 in
    let same : (ids.next_id + k) % 2 ^ 16 ≡ j = omega arith in
    let (i, found, _, unused) =
      free_id-some (2 ^ 16) ids.next_id k ids.active_ids next (omega arith) (omega arith)
        (ap (λ l. lookup ℕ_discrete l ids.active_ids) same ∙ free) in
    (i, ground (arith, room, found), unused)

next_peer_id_full :
    (ids : MempoolIds) → length ids.active_ids ≡ max_active_ids → next_peer_id ids ≡ panics
unfolding next_peer_id
next_peer_id_full ids full = ground arith

-- On valid ids ReserveForPeer panics where the maximum of ids is in use, and otherwise returns
-- valid ids, in which the peer has an id that was not in use and is not 0, and the other peers
-- have theirs.
pub reserve_for_peer-IsValid :
    (peer : Bytes) (ids : MempoolIds)
    → IsValid ids
    → ((length ids.active_ids ≡ max_active_ids) × (reserve_for_peer peer ids ≡ panics))
      ⊎ ((ids' : MempoolIds) × (i : ℕ) × (reserve_for_peer peer ids ≡ returns ids')
          × IsValid ids'
          × (lookup ℕ_discrete i ids.active_ids ≡ none)
          × (i ≢ 0)
          × ((other : Bytes)
              → get_for_peer other ids' ≡ ite (bytes_dec peer other) i (get_for_peer other ids)))
unfolding reserve_for_peer get_for_peer
reserve_for_peer-IsValid peer ids v = elim (ℕ_discrete (length ids.active_ids) max_active_ids) [
  | yes full ↦ inl (full, rw (next_peer_id_full ids full, reserve_for_peer) refl)
  | no room ↦
      let (i, found, unused) = next_peer_id-free ids v room in
      let ids' : MempoolIds = record {
        peer_map = insert bytes_dec peer i ids.peer_map;
        next_id = next_uint16 i;
        active_ids = insert ℕ_discrete i tt ids.active_ids;
      } in
      let inserted = λ (q : Bytes). lookup-insert bytes_dec peer q i ids.peer_map in
      let used = λ (j : ℕ). lookup-insert ℕ_discrete i j tt ids.active_ids in
      inr (
        ids',
        i,
        rw (found, reserve_for_peer) refl,
        record {
          next = omega arith;
          few = omega (arith, v.few, room, length-insert i ids.active_ids);
          unknown = λ e. ground (arith, e, used 0, v.unknown);
          active = λ p j at e. ground (arith, e, at, inserted p, used j, v.active p j);
          known = λ p j at z. ground (arith, at, z, inserted p, v.known p j, unused, v.unknown);
          apart = λ p q j at bt. ground (
            arith,
            at,
            bt,
            inserted p,
            inserted q,
            v.apart p q j,
            v.active p i,
            v.active q i,
            unused,
          );
        },
        unused,
        (λ z. v.unknown (subst (λ j. lookup ℕ_discrete j ids.active_ids ≡ none) z unused)),
        λ other. ground (arith, inserted other),
      )
]

-- On valid ids Reclaim gives valid ids, in which the peer has 0, the id that it had is not in use,
-- and the other peers have theirs.
pub reclaim-IsValid :
    (peer : Bytes) (ids : MempoolIds)
    → IsValid ids
    → let ids' = reclaim peer ids in
      IsValid ids'
      × ((other : Bytes)
          → get_for_peer other ids' ≡ ite (bytes_dec peer other) 0 (get_for_peer other ids))
      × ((i : ℕ)
          → lookup bytes_dec peer ids.peer_map ≡ some i
          → lookup ℕ_discrete i ids'.active_ids ≡ none)
unfolding reclaim get_for_peer
reclaim-IsValid peer ids v = elim (Option-cases (lookup bytes_dec peer ids.peer_map)) [
  | inl absent ↦
      rw (absent, reclaim) (v, (λ other. ground (arith, absent)), λ i at. absurd (ground arith))
  | inr (i, held) ↦
      let removed = λ (q : Bytes). lookup-delete bytes_dec peer q ids.peer_map in
      let freed = λ (j : ℕ). lookup-delete ℕ_discrete i j ids.active_ids in
      rw (held, reclaim)
        (
          record {
            next = v.next;
            few = omega (arith, v.few, length-delete i ids.active_ids);
            unknown = λ e. ground (arith, e, freed 0, v.unknown, v.known peer i held);
            active = λ p j at e.
                ground (arith, e, at, removed p, freed j, v.active p j, v.apart peer p i held);
            known = λ p j at z. ground (arith, at, z, removed p, v.known p j);
            apart = λ p q j at bt. ground (arith, at, bt, removed p, removed q, v.apart p q j);
          },
          (λ other. ground (arith, removed other)),
          λ j at. ground (arith, at, freed j),
        )
]

pub new_mempool_ids-IsValid : IsValid new_mempool_ids
unfolding new_mempool_ids
new_mempool_ids-IsValid = record {
  next = omega arith;
  few = omega arith;
  unknown = λ e. ground (arith, e);
  active = λ p j at. absurd (ground (arith, at));
  known = λ p j at. absurd (ground (arith, at));
  apart = λ p q j at bt. absurd (ground (arith, at));
}
