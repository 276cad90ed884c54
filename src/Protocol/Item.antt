-- ===== src/Protocol/Item.antt =====
-- protocol/crypto.go: item IDs, associated data, and encrypted item payloads.
pub mod Binding
use bitboxsync_client_go.Prelude.{
  ℕ, not, String, ◌∷◌, ◌++◌, none, some, ◌==◌, if◌then◌else◌, length,
}
use bitboxsync_client_go.Prelude.Bytes.{Bytes, codes, bytes_eq, put_uint64}
use bitboxsync_client_go.Result.{Result, ok, err, other, aad_mismatch, refuse_if, ◌>>=◌, ◌>>◌}
use bitboxsync_client_go.Protocol.Hex.{
  encode_to_string, decode_lower_hex_exact, namespace_id_length, item_id_length,
}
use bitboxsync_client_go.Protocol.Crypto.{Crypto}

abbrev pub namespace_dek_len : ℕ
namespace_dek_len = 32

abbrev pub item_nonce_length : ℕ
item_nonce_length = 24

abbrev item_aad_prefix : Bytes
item_aad_prefix = codes "bitboxsync-item-aad"

unfoldable pub build_item_aad_from_bytes : Bytes → Bytes → ℕ → Bytes
build_item_aad_from_bytes namespace_id item_id version =
    item_aad_prefix ++ (0x01 ∷ (namespace_id ++ (item_id ++ put_uint64 version)))

unfoldable pub build_item_aad : Bytes → Bytes → ℕ → Result Bytes
build_item_aad namespace_id_hex item_id_hex version = do
  namespace_id ← decode_lower_hex_exact "namespaceId" namespace_id_hex namespace_id_length
  item_id ← decode_lower_hex_exact "itemId" item_id_hex item_id_length
  ok (build_item_aad_from_bytes namespace_id item_id version)

unfoldable pub verify_aad : Bytes → Bytes → ℕ → Bytes → Result (Unit {0})
verify_aad namespace_id_hex item_id_hex version aad = do
  expected ← build_item_aad namespace_id_hex item_id_hex version
  refuse_if (not (bytes_eq expected aad)) aad_mismatch

module _ (c : Crypto) where
  unfoldable pub namespace_blob_key : Bytes → Result Bytes
  namespace_blob_key dek =
      if length dek == namespace_dek_len
      then ok (c.hkdf_key dek (codes "bitboxsync-namespace-blob-aead-v1") 32)
      else err (other "namespace dek length")

  unfoldable pub namespace_map_key : Bytes → Result Bytes
  namespace_map_key dek =
      if length dek == namespace_dek_len
      then ok (c.hkdf_key dek (codes "bitboxsync-namespace-item-id-v1") 32)
      else err (other "namespace dek length")

  unfoldable pub item_id : Bytes → Bytes → Result Bytes
  item_id dek logical_key = do
    map_key ← namespace_map_key dek
    ok (encode_to_string (c.hmac_sha256 map_key logical_key))

  -- EncryptItem up to its random nonce: the associated data and the key
  unfoldable pub prepare_item : Bytes → Bytes → ℕ → Bytes → Result (Bytes × Bytes)
  prepare_item namespace_id_hex item_id_hex version dek = do
    aad ← build_item_aad namespace_id_hex item_id_hex version
    blob_key ← namespace_blob_key dek
    ok (aad, blob_key)

  -- EncryptItem from its nonce on: the associated data and the ciphertext
  abbrev pub seal_item : Bytes × Bytes → Bytes → Bytes → Bytes × Bytes
  seal_item (aad, blob_key) nonce plaintext = (aad, c.seal blob_key nonce plaintext aad)

  -- The associated data and the ciphertext; the nonce that was drawn in between is given.
  unfoldable pub encrypt_item : Bytes → Bytes → ℕ → Bytes → Bytes → Bytes → Result (Bytes × Bytes)
  encrypt_item namespace_id_hex item_id_hex version dek nonce plaintext = do
    prepared ← prepare_item namespace_id_hex item_id_hex version dek
    ok (seal_item prepared nonce plaintext)

  unfoldable pub decrypt_item : Bytes → Bytes → Bytes → Bytes → Result Bytes
  decrypt_item dek nonce aad ciphertext = do
    refuse_if (not (length nonce == item_nonce_length)) (other "nonce length")
    blob_key ← namespace_blob_key dek
    elim (c.unseal blob_key nonce ciphertext aad) [
      | none ↦ err (other "decrypt item")
      | some plaintext ↦ ok plaintext
    ]

  -- DecodeBase64: only the canonical coding of the bytes is accepted.
  unfoldable pub decode_base64 : String → Bytes → Result Bytes
  decode_base64 name value = elim (c.decode_base64 value) [
    | none ↦ err (other "decode base64")
    | some raw ↦
        if bytes_eq (c.encode_base64 raw) value then ok raw else err (other "canonical base64")
  ]

  unfoldable pub decode_base64_exact : String → Bytes → ℕ → Result Bytes
  decode_base64_exact name value size = do
    raw ← decode_base64 name value
    if length raw == size then ok raw else err (other "size")
