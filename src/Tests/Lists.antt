-- ===== src/Tests/Lists.antt =====
-- Runs of utils/list, of keys and digests, and of the search behind `BlockingSet`.
use wendy.Common.{
  ℕ, ◌≤◌, ◌≡◌, ◌↔◌, refl, Bool, true, false, List, [], ◌∷◌, some, arith, length, ltb, returns,
}
use wendy.Crypto.{Bytes, pubkey_string, new_pubkey_from_id}
use wendy.Crypto.RoundTrip.{new_pubkey_from_id-pubkey_string}
use wendy.Types.{Vote, digest}
use wendy.Types.Digest.{SameContent, digest-injective}
use wendy.LinkedList.{Element, GoList}
use wendy.LinkedList.Ids.{IsValid}
use wendy.Blocking.{recompute, contains}
use wendy.Blocking.Reach.{Reach}
use wendy.Blocking.Search.{recompute-Reach}

abbrev numbers : GoList ℕ
numbers = record {
  elements =
      record { id = 0; value = 5 }
      ∷ record { id = 2; value = 1 }
      ∷ record { id = 1; value = 8 }
      ∷ [];
  next_id = 3;
}

numbers-IsValid : IsValid numbers
numbers-IsValid = omega arith

-- The numbers above 3.
abbrev large : Element ℕ → Bool
large e = ltb 3 e.value

new_pubkey_from_id-pubkey_string_example :
    new_pubkey_from_id (pubkey_string (0 ∷ 171 ∷ 255 ∷ [])) ≡ returns (0 ∷ 171 ∷ 255 ∷ [])
new_pubkey_from_id-pubkey_string_example =
    new_pubkey_from_id-pubkey_string (0 ∷ 171 ∷ 255 ∷ []) (omega arith)

abbrev some_hash : ℕ → Bytes
some_hash b =
    b ∷ 0 ∷ 0 ∷ 0 ∷ 0 ∷ 0 ∷ 0 ∷ 0 ∷ 0 ∷ 0 ∷ 0 ∷ 0 ∷ 0 ∷ 0 ∷ 0 ∷ 0 ∷ 0 ∷ 0 ∷ 0 ∷ 0 ∷ 0 ∷ 0 ∷ 0 ∷ 0
    ∷ 0 ∷ 0 ∷ 0 ∷ 0 ∷ 0 ∷ 0 ∷ 0 ∷ 0 ∷ []

abbrev vote_at : ℕ → Vote
vote_at time = record {
  pubkey = 7 ∷ [];
  label = [];
  seq = 300;
  tx_hash = some_hash 1;
  time = time;
  prev_hash = some_hash 2;
}

digest-injective_example :
    (digest (vote_at 4) ≡ digest (vote_at 5)) ↔ SameContent (vote_at 4) (vote_at 5)
digest-injective_example =
    digest-injective (vote_at 4) (vote_at 5)
      (record { seq = omega arith; tx_hash = refl; time = omega arith; prev_hash = refl })
      (record { seq = omega arith; tx_hash = refl; time = omega arith; prev_hash = refl })

-- 0 depends on 2, and 2 on 1.
abbrev chain : List (List Bool)
chain =
    (false ∷ false ∷ true ∷ []) ∷ (false ∷ false ∷ false ∷ []) ∷ (false ∷ true ∷ false ∷ []) ∷ []

recompute-Reach_example :
    (deps : List ℕ) × (recompute 4 chain 0 [] ≡ some deps)
    × ((x : ℕ) → (contains x deps ≡ true) ↔ Reach chain 0 x)
    × (length deps ≤ 3)
recompute-Reach_example = recompute-Reach chain 0 (refl, (refl, (refl, tt))) (omega arith)
