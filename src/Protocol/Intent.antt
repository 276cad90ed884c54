-- ===== src/Protocol/Intent.antt =====
-- protocol/crypto.go: the byte payloads that a keystore signs.
pub mod Parts
pub mod Distinct
use bitboxsync_client_go.Prelude.{ℕ, not, [], ◌∷◌, ◌++◌, length, ◌==◌, if◌then◌else◌}
use bitboxsync_client_go.Prelude.Bytes.{Bytes, codes, bytes_eq, put_uint64, put_uint32}
use bitboxsync_client_go.Result.{
  Result, ok, err, other, invalid_kind, invalid_key_id, invalid_namespace_id, refuse_if, ◌>>=◌,
  ◌>>◌,
}
use bitboxsync_client_go.Protocol.Hex.{namespace_id_length, key_id_length, invite_id_length}

abbrev pub public_key_size : ℕ
public_key_size = 32

abbrev pub invite_server_secret_hash_length : ℕ
invite_server_secret_hash_length = 32

abbrev pub server_origin_hash_length : ℕ
server_origin_hash_length = 32

abbrev pub identity_kind_keystore : Bytes
identity_kind_keystore = codes "keystore"

abbrev pub revoke_all_tokens_action : Bytes
revoke_all_tokens_action = codes "revoke-all-tokens"

abbrev pub create_namespace_invite_action : Bytes
create_namespace_invite_action = codes "create-namespace-invite"

abbrev pub intent_prefix : Bytes
intent_prefix = codes "bitboxsync-intent"

abbrev pub join_request_prefix : Bytes
join_request_prefix = codes "bitboxsync-join-request"

unfoldable pub kind_code : Bytes → Result ℕ
kind_code kind = if bytes_eq kind identity_kind_keystore then ok 0x01 else err invalid_kind

unfoldable pub sensitive_action_code : Bytes → Result ℕ
sensitive_action_code action =
    if bytes_eq action revoke_all_tokens_action
    then ok 0x01
    else if bytes_eq action create_namespace_invite_action
    then ok 0x02
    else err (other "unsupported sensitive action")

unfoldable pub login_intent : Bytes → Bytes → Bytes → Bytes → Bytes → Result Bytes
login_intent challenge kind key_id auth_public_key wrap_public_key = do
  refuse_if (not (length challenge == 32)) (other "challenge must be 32 bytes")
  refuse_if (not (length key_id == key_id_length)) invalid_key_id
  refuse_if (not (length auth_public_key == public_key_size)) (other "auth public key")
  refuse_if (not (length wrap_public_key == 32)) (other "wrap public key must be 32 bytes")
  code ← kind_code kind
  ok (
      intent_prefix
      ++ (0x01 ∷ 0x01 ∷ (challenge ++ (code ∷ (key_id ++ (auth_public_key ++ wrap_public_key))))))

unfoldable pub refresh_intent : Bytes → Bytes → Bytes → Result Bytes
refresh_intent challenge kind key_id = do
  refuse_if (not (length challenge == 32)) (other "challenge must be 32 bytes")
  refuse_if (not (length key_id == key_id_length)) invalid_key_id
  code ← kind_code kind
  ok (intent_prefix ++ (0x01 ∷ 0x02 ∷ (challenge ++ (code ∷ key_id))))

unfoldable pub sensitive_action_intent : Bytes → Bytes → Bytes → Bytes → Bytes → Result Bytes
sensitive_action_intent challenge action kind key_id action_fields = do
  refuse_if (not (length challenge == 32)) (other "challenge must be 32 bytes")
  refuse_if (not (length key_id == key_id_length)) invalid_key_id
  action_code ← sensitive_action_code action
  code ← kind_code kind
  ok (
      intent_prefix
      ++ (0x01 ∷ 0x03 ∷ action_code ∷ (challenge ++ (code ∷ (key_id ++ action_fields)))))

-- The expiry is a uint64, the limit a uint32.
unfoldable pub create_namespace_invite_action_fields : Bytes → Bytes → Bytes → ℕ → ℕ → Result Bytes
create_namespace_invite_action_fields namespace_id invite_id secret_hash expires_at max_accepted =
    do
      refuse_if (not (length namespace_id == namespace_id_length)) invalid_namespace_id
      refuse_if (not (length invite_id == invite_id_length)) (other "invite id")
      refuse_if (not (length secret_hash == invite_server_secret_hash_length))
          (other "invite server secret hash")
      ok (
          namespace_id
          ++ (invite_id ++ (secret_hash ++ (put_uint64 expires_at ++ put_uint32 max_accepted))))

-- Kind, namespace, invite, hash of the server's origin, key ID, public keys, expiry as a uint64.
unfoldable pub join_request_payload :
    Bytes → Bytes → Bytes → Bytes → Bytes → Bytes → Bytes → ℕ → Result Bytes
join_request_payload kind namespace_id invite_id origin_hash key_id auth_key wrap_key expires_at =
    do
      refuse_if (not (length namespace_id == namespace_id_length)) invalid_namespace_id
      refuse_if (not (length invite_id == invite_id_length)) (other "invite id")
      refuse_if (not (length origin_hash == server_origin_hash_length)) (other "server origin hash")
      refuse_if (not (length key_id == key_id_length)) invalid_key_id
      refuse_if (not (length auth_key == public_key_size)) (other "auth public key")
      refuse_if (not (length wrap_key == 32)) (other "wrap public key must be 32 bytes")
      code ← kind_code kind
      ok (
          join_request_prefix
          ++ (0x01
              ∷ (namespace_id
                  ++ (invite_id
                      ++ (origin_hash
                          ++ (code
                              ∷ (key_id ++ (auth_key ++ (wrap_key ++ put_uint64 expires_at)))))))))
