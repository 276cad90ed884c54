-- ===== src/Protocol/Keys.antt =====
-- protocol/crypto.go: public keys and key IDs on the wire.
use bitboxsync_client_go.Prelude.{not, String, none, some}
use bitboxsync_client_go.Prelude.Bytes.{Bytes, bytes_eq}
use bitboxsync_client_go.Result.{Result, ok, err, other, key_id_mismatch, refuse_if, ◌>>=◌}
use bitboxsync_client_go.Protocol.Hex.{decode_lower_hex_exact, encode_to_string, key_id_length}
use bitboxsync_client_go.Protocol.Crypto.{Crypto}
use bitboxsync_client_go.Protocol.Intent.{public_key_size}

unfoldable pub encode_ed25519_public_key : Bytes → Bytes
encode_ed25519_public_key auth_public_key = encode_to_string auth_public_key

unfoldable pub parse_ed25519_public_key_hex : String → Bytes → Result Bytes
parse_ed25519_public_key_hex name value = decode_lower_hex_exact name value public_key_size

unfoldable pub encode_x25519_public_key : Bytes → Bytes
encode_x25519_public_key wrap_public_key = encode_to_string wrap_public_key

module _ (c : Crypto) where
  unfoldable pub parse_x25519_public_key_hex : String → Bytes → Result Bytes
  parse_x25519_public_key_hex name value = do
    raw ← decode_lower_hex_exact name value 32
    elim (c.x25519_new_public_key raw) [
      | none ↦ err (other "parse public key")
      | some parsed ↦ ok parsed
    ]

  unfoldable pub key_id_from_auth_public_key : Bytes → Bytes
  key_id_from_auth_public_key auth_public_key = c.sha256 auth_public_key

  unfoldable pub verify_key_id_matches_auth_public_key : Bytes → Bytes → Result (Unit {0})
  verify_key_id_matches_auth_public_key key_id_hex auth_public_key = do
    key_id ← decode_lower_hex_exact "keyId" key_id_hex key_id_length
    refuse_if (not (bytes_eq (key_id_from_auth_public_key auth_public_key) key_id)) key_id_mismatch
