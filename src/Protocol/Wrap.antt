-- ===== src/Protocol/Wrap.antt =====
-- protocol/crypto.go: wrapping a namespace DEK for one member.
pub mod RoundTrip
use bitboxsync_client_go.Prelude.{
  ℕ, not, [], ◌∷◌, ◌++◌, none, some, length, take, drop, ◌==◌, if◌then◌else◌,
}
use bitboxsync_client_go.Prelude.Bytes.{Bytes, codes, bytes_eq}
use bitboxsync_client_go.Result.{
  Result, ok, err, other, invalid_namespace_id, invalid_wrapped_dek, namespace_mismatch,
  unsupported_version, refuse_if, ◌>>=◌, ◌>>◌,
}
use bitboxsync_client_go.Protocol.Hex.{namespace_id_length}
use bitboxsync_client_go.Protocol.Item.{namespace_dek_len}
use bitboxsync_client_go.Protocol.Crypto.{Crypto}

abbrev pub wrap_dek_info : Bytes
wrap_dek_info = codes "bitboxsync-wrap-dek-v1"

-- 1 + 32 + NamespaceIDLength + NamespaceDEKLen + 16
abbrev pub wrapped_dek_len_v1 : ℕ
wrapped_dek_len_v1 = 97

unfoldable pub wrapped_dek_length_for_version : ℕ → Result ℕ
wrapped_dek_length_for_version version =
    if version == 0x01 then ok wrapped_dek_len_v1 else err unsupported_version

unfoldable pub validate_wrapped_dek : Bytes → Result (Unit {0})
validate_wrapped_dek [] = err invalid_wrapped_dek
validate_wrapped_dek (version ∷ rest) = do
  expected ← wrapped_dek_length_for_version version
  refuse_if (not (length (version ∷ rest) == expected)) invalid_wrapped_dek

module _ (c : Crypto) where
  -- The randomness of the HPKE sender comes first.
  unfoldable pub wrap_namespace_dek : Bytes → Bytes → Bytes → Bytes → Result Bytes
  wrap_namespace_dek seed recipient_wrap_public_key namespace_id dek = do
    refuse_if (not (length namespace_id == namespace_id_length)) invalid_namespace_id
    refuse_if (not (length dek == namespace_dek_len)) (other "namespace dek length")
    elim (c.hpke_seal seed recipient_wrap_public_key wrap_dek_info (namespace_id ++ dek)) [
      | none ↦ err (other "seal wrapped dek")
      | some (enc, ciphertext) ↦ ok (0x01 ∷ (enc ++ ciphertext))
    ]

  -- the plaintext of a wrapped DEK names the namespace, and then comes the DEK
  unfoldable pub open_bound : Bytes → Bytes → Result Bytes
  open_bound expected_namespace_id plaintext = do
    refuse_if (not (length plaintext == 48)) invalid_wrapped_dek
    refuse_if (not (bytes_eq (take namespace_id_length plaintext) expected_namespace_id))
        namespace_mismatch
    ok (drop namespace_id_length plaintext)

  unfoldable pub unwrap_namespace_dek : Bytes → Bytes → Bytes → Result Bytes
  unwrap_namespace_dek recipient_wrap_private_key expected_namespace_id wrapped_dek = do
    refuse_if (not (length expected_namespace_id == namespace_id_length)) invalid_namespace_id
    validate_wrapped_dek wrapped_dek
    elim (c.hpke_open recipient_wrap_private_key wrap_dek_info (take 32 (drop 1 wrapped_dek))
        (drop 33 wrapped_dek)) [
          | none ↦ err (other "open wrapped dek")
          | some plaintext ↦ open_bound expected_namespace_id plaintext
        ]
