-- ===== src/Crypto.antt =====
-- crypto.go: public keys and their textual form, with the functions of `encoding/hex` and
-- `strings` that it calls. A text is the list of its bytes.
pub mod RoundTrip
use wendy.Common.{
  ℕ, ◌+◌, ◌-◌, ◌*◌, ◌/◌, ◌%◌, ◌&&◌, List, [], ◌∷◌, Option, none, some, ltb, leb, ◌==◌,
  if◌then◌else◌, Outcome, returns, panics, ℕ_discrete, refl, ◌≡◌,
}

abbrev pub Bytes : Type 0
Bytes = List ℕ

abbrev pub Pubkey : Type 0
Pubkey = Bytes

abbrev pub PeerId : Type 0
PeerId = Bytes

-- One character of `hex.EncodeToString`: `"0123456789abcdef"[n]`.
hex_digit : ℕ → ℕ
hex_digit n = if ltb n 10 then b'0' + n else b'a' + (n - 10)

-- `hex.EncodeToString`.
encode_to_string : Bytes → Bytes
encode_to_string [] = []
encode_to_string (b ∷ bs) = hex_digit (b / 16) ∷ hex_digit (b % 16) ∷ encode_to_string bs

-- `fromHexChar` of `encoding/hex`.
from_hex_char : ℕ → Option ℕ
from_hex_char c =
    if leb b'0' c && leb c b'9'
    then some (c - b'0')
    else if leb b'a' c && leb c b'f'
    then some (c - b'a' + 10)
    else if leb b'A' c && leb c b'F'
    then some (c - b'A' + 10)
    else none

abbrev put_byte : Option ℕ → Option ℕ → Option Bytes → Option Bytes
put_byte (some a) (some b) (some rest) = some ((16 * a + b) ∷ rest)
put_byte _ _ _ = none

-- `hex.DecodeString`; `none` stands for its error (a character that is no digit, an odd length).
decode_string : Bytes → Option Bytes
unfolding from_hex_char
decode_string [] = some []
decode_string (c ∷ []) = none
decode_string (c ∷ d ∷ s) = put_byte (from_hex_char c) (from_hex_char d) (decode_string s)

-- `strings.TrimPrefix(s, "0x")`.
trim_prefix : Bytes → Bytes
trim_prefix [] = []
trim_prefix (c ∷ []) = c ∷ []
trim_prefix (c ∷ d ∷ s) = if c == b'0' && d == b'x' then s else c ∷ d ∷ s

-- `NewPubkeyFromID`, which panics on what is no hexadecimal text.
unfoldable pub new_pubkey_from_id : PeerId → Outcome Pubkey
unfolding trim_prefix decode_string
new_pubkey_from_id id = elim (decode_string (trim_prefix id)) [
  | none ↦ panics
  | some enc ↦ returns enc
]

-- `Pubkey.String`, converted to an `ID` by its callers.
unfoldable pub pubkey_string : Pubkey → PeerId
unfolding encode_to_string hex_digit
pubkey_string pk = b'0' ∷ b'x' ∷ encode_to_string pk

-- Go's `==` on byte arrays and strings.
unfoldable pub bytes_dec : Discrete Bytes
unfolding ℕ_discrete
bytes_dec [] [] = yes refl
bytes_dec [] (y ∷ ys) = no (λ e. cc)
bytes_dec (x ∷ xs) [] = no (λ e. cc)
bytes_dec (x ∷ xs) (y ∷ ys) = elim (ℕ_discrete x y) [
  | yes p ↦ elim (bytes_dec xs ys) [ yes q ↦ yes (cc) | no q ↦ no (λ e. q (cc)) ]
  | no p ↦ no (λ e. p (cc))
]
