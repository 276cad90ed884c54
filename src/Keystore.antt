-- ===== src/Keystore.antt =====
-- raw/identity.go: the software keystore.
pub mod Attest
use bitboxsync_client_go.Prelude.{
  ℕ, zero, suc, ◌-◌, [], ◌∷◌, ◌++◌, Option, none, some, length, take, ltb, ◌==◌, if◌then◌else◌,
  ◌||◌,
}
use bitboxsync_client_go.Prelude.Bytes.{Bytes, codes}
use bitboxsync_client_go.Prelude.Int.{ℤ, pos, ltz, to_uint32, to_uint64}
use bitboxsync_client_go.Result.{Result, ok, err, other, refuse_if, ◌>>=◌, ◌>>◌}
use bitboxsync_client_go.Protocol.Crypto.{Crypto}
use bitboxsync_client_go.Protocol.Url.{UrlParser}
use bitboxsync_client_go.Protocol.Intent.{
  identity_kind_keystore, revoke_all_tokens_action, create_namespace_invite_action, login_intent,
  refresh_intent, sensitive_action_intent, create_namespace_invite_action_fields,
  join_request_payload,
}
use bitboxsync_client_go.Protocol.Keys.{key_id_from_auth_public_key}
use bitboxsync_client_go.Protocol.Origin.{server_origin_hash}
use bitboxsync_client_go.Protocol.Wrap.{unwrap_namespace_dek}

-- An Ed25519 private key is given by its seed.
pub record DummyKeystore : Type 0 where
  pub auth_private : Bytes
  pub auth_public : Bytes
  pub wrap_private : Bytes
  pub wrap_public : Bytes

module _ (c : Crypto) where
  unfoldable pub new_dummy_keystore : Bytes → DummyKeystore
  new_dummy_keystore label =
      let root_secret = c.sha256 label in
      let auth_seed = c.hkdf_key root_secret (codes "bitboxsync-auth-ed25519-seed-v1") 32 in
      let wrap_seed = c.hkdf_key root_secret (codes "bitboxsync-wrap-x25519-seed-v1") 32 in
      record {
        auth_private = auth_seed;
        auth_public = c.ed25519_public auth_seed;
        wrap_private = wrap_seed;
        wrap_public = c.x25519_public wrap_seed;
      }

  unfoldable pub keystore_key_id : DummyKeystore → Bytes
  unfolding key_id_from_auth_public_key
  keystore_key_id d = key_id_from_auth_public_key c d.auth_public

  unfoldable pub sign_payload : DummyKeystore → Bytes → Bytes
  sign_payload d payload = c.ed25519_sign d.auth_private payload

  unfoldable pub sign_login_intent : DummyKeystore → Bytes → Result Bytes
  unfolding keystore_key_id sign_payload
  sign_login_intent d challenge = do
    payload ←
        login_intent challenge identity_kind_keystore (keystore_key_id d) d.auth_public
          d.wrap_public
    ok (sign_payload d payload)

  unfoldable pub sign_refresh_intent : DummyKeystore → Bytes → Result Bytes
  unfolding keystore_key_id sign_payload
  sign_refresh_intent d challenge = do
    payload ← refresh_intent challenge identity_kind_keystore (keystore_key_id d)
    ok (sign_payload d payload)

  unfoldable pub sign_revoke_all_tokens_intent : DummyKeystore → Bytes → Result Bytes
  unfolding keystore_key_id sign_payload
  sign_revoke_all_tokens_intent d challenge = do
    payload ←
        sensitive_action_intent challenge revoke_all_tokens_action identity_kind_keystore
          (keystore_key_id d) []
    ok (sign_payload d payload)

  -- challenge, namespace, invite, hash of the server secret, expiry, limit
  unfoldable pub sign_create_namespace_invite_intent :
      DummyKeystore → Bytes → Bytes → Bytes → Bytes → ℤ → ℤ → Result Bytes
  unfolding keystore_key_id sign_payload
  sign_create_namespace_invite_intent d challenge namespace_id invite_id hash expires_at limit = do
    refuse_if (ltz expires_at (pos 0)) (other "namespace invite expiry before unix epoch")
    refuse_if (ltz limit (pos 0) || ltz (pos 10) limit)
        (other "namespace invite limits are out of range")
    action_fields ←
        create_namespace_invite_action_fields namespace_id invite_id hash (to_uint64 expires_at)
          (to_uint32 limit)
    payload ←
        sensitive_action_intent challenge create_namespace_invite_action identity_kind_keystore
          (keystore_key_id d) action_fields
    ok (sign_payload d payload)

  -- namespace, invite, server origin, expiry
  unfoldable pub sign_namespace_join_request_intent :
      UrlParser → DummyKeystore → Bytes → Bytes → Bytes → ℤ → Result Bytes
  unfolding keystore_key_id sign_payload
  sign_namespace_join_request_intent u d namespace_id invite_id server_origin expires_at = do
    refuse_if (ltz expires_at (pos 0)) (other "join request expiry before unix epoch")
    origin_hash ← server_origin_hash u c server_origin
    payload ←
        join_request_payload identity_kind_keystore namespace_id invite_id origin_hash
          (keystore_key_id d) d.auth_public d.wrap_public (to_uint64 expires_at)
    ok (sign_payload d payload)

  abbrev prepend : Bytes → Option Bytes → Option Bytes
  prepend piece none = none
  prepend piece (some rest) = some (piece ++ rest)

  -- The loop of Attest: rounds left, bytes left to fill, the current digest. Each round copies a new
  -- digest, or what of it still fits; `none` when the rounds run out.
  unfoldable pub fill : ℕ → ℕ → Bytes → Option Bytes
  fill zero left current = if left == 0 then some [] else none
  fill (suc rounds) left current =
      let sum = c.sha256 current in
      let piece = take left sum in
      let rest = fill rounds (left - length piece) sum in
      if left == 0 then some [] else prepend piece rest

  -- 257 bytes, the first of them 0; eight rounds fill the others
  unfoldable pub attest : DummyKeystore → Bytes → Option Bytes
  unfolding fill
  attest d challenge = prepend (0x00 ∷ []) (fill 8 256 (c.sha256 (challenge ++ d.auth_public)))

  unfoldable pub keystore_unwrap : DummyKeystore → Bytes → Bytes → Result Bytes
  keystore_unwrap d namespace_id wrapped_dek =
      unwrap_namespace_dek c d.wrap_private namespace_id wrapped_dek
