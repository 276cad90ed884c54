-- ===== src/Protocol/Hex.antt =====
-- protocol/crypto.go: hexadecimal identifiers. Go's encoding/hex reads either case.

pub mod Injective
pub mod Decode
pub mod Encode
use bitboxsync_client_go.Prelude.{
  ℕ, ◌+◌, ◌-◌, ◌*◌, ◌/◌, ◌%◌, ◌&&◌, not, String, [], ◌∷◌, Option, none, some, leb, ltb, ◌==◌,
  if◌then◌else◌, length, map,
}
use bitboxsync_client_go.Prelude.Bytes.{Bytes, bytes_eq}
use bitboxsync_client_go.Result.{Result, ok, err, other}

hex_digit : ℕ → ℕ
hex_digit d = if ltb d 10 then b'0' + d else b'a' + (d - 10)

-- hex.EncodeToString
unfoldable pub encode_to_string : Bytes → Bytes
unfolding hex_digit
encode_to_string [] = []
encode_to_string (b ∷ bs) = hex_digit (b / 16) ∷ hex_digit (b % 16) ∷ encode_to_string bs

unfoldable pub from_hex_digit : ℕ → Option ℕ
from_hex_digit c =
    if leb b'0' c && leb c b'9'
    then some (c - b'0')
    else if leb b'a' c && leb c b'f'
    then some (c - b'a' + 10)
    else if leb b'A' c && leb c b'F'
    then some (c - b'A' + 10)
    else none

abbrev from_hex_pair : Option ℕ → Option ℕ → Option ℕ
from_hex_pair (some hi) (some lo) = some (hi * 16 + lo)
from_hex_pair _ _ = none

abbrev decode_rest : Option ℕ → Option Bytes → Option Bytes
decode_rest (some b) (some bs) = some (b ∷ bs)
decode_rest _ _ = none

-- hex.DecodeString; `none` is its error.
unfoldable pub decode_string : Bytes → Option Bytes
unfolding from_hex_digit
decode_string [] = some []
decode_string (c ∷ []) = none
decode_string (c ∷ d ∷ rest) =
    decode_rest (from_hex_pair (from_hex_digit c) (from_hex_digit d)) (decode_string rest)

unfoldable pub to_lower : ℕ → ℕ
to_lower c = if leb b'A' c && leb c b'Z' then c + 32 else c

unfoldable pub decode_hex_exact : String → Bytes → ℕ → Result Bytes
unfolding decode_string
decode_hex_exact name value size = elim (decode_string value) [
  | none ↦ err (other "decode")
  | some raw ↦ if length raw == size then ok raw else err (other "size")
]

-- A value with a letter outside ASCII is not hexadecimal: lowering the ASCII letters is enough.
unfoldable pub decode_lower_hex_exact : String → Bytes → ℕ → Result Bytes
unfolding to_lower decode_hex_exact
decode_lower_hex_exact name value size =
    if not (bytes_eq (map to_lower value) value)
    then err (other "must be lowercase hex")
    else decode_hex_exact name value size

abbrev pub namespace_id_length : ℕ
namespace_id_length = 16

abbrev pub item_id_length : ℕ
item_id_length = 32

abbrev pub key_id_length : ℕ
key_id_length = 32

abbrev pub invite_id_length : ℕ
invite_id_length = 16

abbrev pub join_request_hash_length : ℕ
join_request_hash_length = 32

abbrev done : Result Bytes → Result (Unit {0})
done (ok raw) = ok tt
done (err e) = err e

unfoldable pub validate_namespace_id : Bytes → Result (Unit {0})
validate_namespace_id value = done (decode_lower_hex_exact "namespaceId" value namespace_id_length)

unfoldable pub validate_item_id : Bytes → Result (Unit {0})
validate_item_id value = done (decode_lower_hex_exact "itemId" value item_id_length)

unfoldable pub validate_key_id : Bytes → Result (Unit {0})
validate_key_id value = done (decode_lower_hex_exact "keyId" value key_id_length)

unfoldable pub validate_invite_id : Bytes → Result (Unit {0})
validate_invite_id value = done (decode_lower_hex_exact "inviteId" value invite_id_length)

unfoldable pub validate_join_request_hash : Bytes → Result (Unit {0})
validate_join_request_hash value =
    done (decode_lower_hex_exact "joinRequestHash" value join_request_hash_length)
