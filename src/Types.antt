-- ===== src/Types.antt =====
-- types.go, sha256.go and the SimpleTx of tx.go: transactions, votes, what a vote's hash covers,
-- and signed votes. SHA-256 and Ed25519 are parameters.
pub mod Digest
use wendy.Common.{ℕ, ◌/◌, ◌%◌, ◌^◌, Bool, List, [], ◌∷◌, ◌++◌, take, zero, suc}
use wendy.Crypto.{Bytes, Pubkey, PeerId, pubkey_string}

-- `Hash`, an array of 32 bytes, as the list of its bytes. Nothing is assumed of the number of bytes
-- unless `Digest.InRange` is a hypothesis.
abbrev pub Hash : Type 0
Hash = Bytes

-- The interface `Tx`, by what its three methods return.
pub record Tx : Type 0 where
  pub bytes : Bytes
  pub hash : Hash
  pub label : Bytes

pub record SimpleTx : Type 0 where
  pub bytes : Bytes
  pub hash : Bytes
  pub label : Bytes

unfoldable pub new_simple_tx : Bytes → Bytes → SimpleTx
new_simple_tx bytes hash = record { bytes = bytes; hash = hash; label = [] }

unfoldable pub with_label : SimpleTx → Bytes → SimpleTx
with_label tx l = record tx { label = l }

-- `copy(dst, src)`, into an array that holds `n` zeros.
copy_into : ℕ → Bytes → Bytes
copy_into zero src = []
copy_into (suc n) [] = 0 ∷ copy_into n []
copy_into (suc n) (b ∷ src) = b ∷ copy_into n src

-- `SimpleTx` as a `Tx`: `Bytes`, `Hash` (the raw hash copied into 32 zeros) and `Label`.
unfoldable pub simple_tx : SimpleTx → Tx
unfolding copy_into
simple_tx tx = record { bytes = tx.bytes; hash = copy_into 32 tx.hash; label = tx.label }

-- `Vote`. The time stands for its `UnixNano`, as the 64 bits that are written.
pub record Vote : Type 0 where
  pub pubkey : Pubkey
  pub label : Bytes
  pub seq : ℕ
  pub tx_hash : Hash
  pub time : ℕ
  pub prev_hash : Hash

-- The zero value of `Hash`.
abbrev pub zero_hash : Hash
zero_hash =
    0 ∷ 0 ∷ 0 ∷ 0 ∷ 0 ∷ 0 ∷ 0 ∷ 0 ∷ 0 ∷ 0 ∷ 0 ∷ 0 ∷ 0 ∷ 0 ∷ 0 ∷ 0 ∷ 0 ∷ 0 ∷ 0 ∷ 0 ∷ 0 ∷ 0 ∷ 0 ∷ 0
    ∷ 0 ∷ 0 ∷ 0 ∷ 0 ∷ 0 ∷ 0 ∷ 0 ∷ 0 ∷ []

-- `NewVote`, with the clock's reading as an argument.
unfoldable pub new_vote : ℕ → Pubkey → ℕ → Tx → Vote
new_vote now pub_key seq tx = record {
  pubkey = pub_key;
  label = tx.label;
  seq = seq;
  tx_hash = tx.hash;
  time = now;
  prev_hash = zero_hash;
}

unfoldable pub with_prev_hash : Vote → Hash → Vote
with_prev_hash v hash = record v { prev_hash = hash }

-- `binary.Write` of eight bytes in big-endian order.
put_uint64 : ℕ → Bytes
put_uint64 v =
    v / 2 ^ 56 % 256
    ∷ v / 2 ^ 48 % 256
    ∷ v / 2 ^ 40 % 256
    ∷ v / 2 ^ 32 % 256
    ∷ v / 2 ^ 24 % 256
    ∷ v / 2 ^ 16 % 256
    ∷ v / 2 ^ 8 % 256
    ∷ v % 256
    ∷ []

unfoldable pub digest : Vote → Bytes
unfolding put_uint64
digest v = put_uint64 v.seq ++ (v.tx_hash ++ (put_uint64 v.time ++ v.prev_hash))

-- `Vote.Key`.
unfoldable pub key : Vote → PeerId
key v = pubkey_string v.pubkey

module _ (sum256 : Bytes → Hash) where
  unfoldable pub checksum : Bytes → Hash
  checksum v = sum256 v

  -- `Vote.Hash`.
  unfoldable pub vote_hash : Vote → Hash
  unfolding checksum
  vote_hash v = checksum (digest v)

pub record SignedVote : Type 0 where
  pub signature : Bytes
  pub payload : Vote

-- Ed25519: signing with a private key, and the test of a signature by a public key.
module _ (PrivateKey : Type 0) (sign : PrivateKey → Bytes → Bytes) where
  unfoldable pub new_signed_vote : PrivateKey → Vote → SignedVote
  new_signed_vote k v = record { signature = sign k (digest v); payload = v }

unfoldable pub verify : (Bytes → Bytes → Bytes → Bool) → SignedVote → Bool
verify check sv = check sv.payload.pubkey (digest sv.payload) sv.signature
