-- ===== src/Crypto/RoundTrip.antt =====
-- Public keys and their texts (crypto.go).
use wendy.Common.{ℕ, ◌<◌, ◌≡◌, refl, [], ◌∷◌, some, arith, All, returns, ◌/◌, ◌%◌}
use wendy.Crypto.{
  Bytes, hex_digit, encode_to_string, from_hex_char, decode_string, new_pubkey_from_id,
  pubkey_string,
}

abbrev pub AreBytes : Bytes → Type 0
AreBytes = All (λ b. b < 256)

from_hex_char-hex_digit : (n : ℕ) → n < 16 → from_hex_char (hex_digit n) ≡ some n
unfolding from_hex_char hex_digit
from_hex_char-hex_digit n h = ground arith

decode_string-encode_to_string :
    (bs : Bytes) → AreBytes bs → decode_string (encode_to_string bs) ≡ some bs
unfolding decode_string encode_to_string
decode_string-encode_to_string [] h = refl
decode_string-encode_to_string (b ∷ bs) h = ground (
  arith,
  from_hex_char-hex_digit (b / 16),
  from_hex_char-hex_digit (b % 16),
  decode_string-encode_to_string bs h.1,
)

-- NewPubkeyFromID of the text of a key returns the key, for every key that consists of bytes.
pub new_pubkey_from_id-pubkey_string :
    (pk : Bytes) → AreBytes pk → new_pubkey_from_id (pubkey_string pk) ≡ returns pk
unfolding new_pubkey_from_id pubkey_string
new_pubkey_from_id-pubkey_string pk h = ground (arith, decode_string-encode_to_string pk h)
