-- ===== src/Sync/Invites.antt =====
-- bitboxsync/namespace_invites.go: reading and verifying join requests.
pub mod Fresh
pub mod Create
pub mod Join
pub mod Manage
pub mod Limits
pub mod Safe
pub mod Honest
pub mod Parsed
pub mod Approval
pub mod Approved
use bitboxsync_client_go.Prelude.{
  ℕ, Bool, ◌||◌, ◌&&◌, ◌*◌, ◌/◌, not, [], ◌∷◌, length, ◌==◌, if◌then◌else◌,
}
use bitboxsync_client_go.Prelude.Bytes.{Bytes, codes, bytes_eq}
use bitboxsync_client_go.Prelude.Int.{ℤ, pos, ltz, lez, eqz, to_uint64}
use bitboxsync_client_go.Result.{
  Result, ok, err, other, unsupported_version, invalid_kind, refuse_if, ◌>>=◌, ◌>>◌,
}
use bitboxsync_client_go.Api.Invites.{
  NamespaceInviteToken, NamespaceJoinRequest, NamespaceJoinRequestEntry,
}
use bitboxsync_client_go.Protocol.Crypto.{Crypto}
use bitboxsync_client_go.Protocol.Url.{UrlParser}
use bitboxsync_client_go.Protocol.Hex.{
  decode_lower_hex_exact, encode_to_string, namespace_id_length, invite_id_length, key_id_length,
}
use bitboxsync_client_go.Protocol.Intent.{join_request_payload, identity_kind_keystore}
use bitboxsync_client_go.Protocol.InviteToken.{namespace_join_request_version}
use bitboxsync_client_go.Protocol.Keys.{
  parse_ed25519_public_key_hex, parse_x25519_public_key_hex, verify_key_id_matches_auth_public_key,
}
use bitboxsync_client_go.Protocol.Origin.{canonical_server_origin, server_origin_hash}
use bitboxsync_client_go.Protocol.Secrets.{
  decode_base64url_exact, verify_invite_proof, derive_invite_server_secret, join_request_hash,
  invite_secret_length, invite_proof_length,
}

-- time.Time.Unix() of a time in nanoseconds
abbrev pub unix : ℕ → ℕ
unix t = t / 1000000000

pub record ParsedNamespaceJoinRequest : Type 0 where
  pub payload : Bytes
  pub hash : Bytes
  pub signature : Bytes
  pub invite_proof : Bytes
  pub auth_public_key : Bytes
  pub wrap_public_key : Bytes

-- What an approval goes on with: the requester's wrap public key, the server secret of the invite,
-- and the hash of the join request.
pub record VerifiedJoinRequest : Type 0 where
  pub wrap_public_key : Bytes
  pub invite_server_secret : Bytes
  pub join_request_hash : Bytes

module _ (u : UrlParser) where
  -- what the fields of invite and request must say before the request is parsed
  unfoldable pub check_coordinates :
      Bytes → NamespaceInviteToken → NamespaceJoinRequest → ℕ → Result (Unit {0})
  check_coordinates namespace_id invite r now = do
    refuse_if (not (eqz invite.version namespace_join_request_version)) unsupported_version
    refuse_if (lez invite.expires_at (pos 0)) (other "invite expiry must be positive")
    refuse_if (lez invite.expires_at (pos (unix now))) (other "invite has expired")
    refuse_if
        (not (bytes_eq invite.namespace_id namespace_id)
          || not (bytes_eq r.namespace_id namespace_id))
        (other "join request namespace mismatch")
    refuse_if (not (bytes_eq r.invite_id invite.invite_id)) (other "join request invite mismatch")
    server_origin ← canonical_server_origin u invite.server_origin
    refuse_if (not (bytes_eq server_origin invite.server_origin))
        (other "invite server origin must be canonical")
    refuse_if (not (bytes_eq r.server_origin server_origin))
        (other "join request server origin mismatch")
    refuse_if (not (eqz r.version namespace_join_request_version)) unsupported_version
    refuse_if (not (bytes_eq r.kind identity_kind_keystore)) invalid_kind
    refuse_if (lez r.expires_at (pos (unix now))) (other "join request has expired")
    refuse_if (ltz invite.expires_at r.expires_at) (other "join request expires after invite")

module _ (u : UrlParser) (c : Crypto) where
  unfoldable pub parse_namespace_join_request :
      NamespaceJoinRequest → Result ParsedNamespaceJoinRequest
  parse_namespace_join_request r = do
    refuse_if (not (eqz r.version namespace_join_request_version)) unsupported_version
    refuse_if (not (bytes_eq r.kind identity_kind_keystore)) invalid_kind
    refuse_if (ltz r.expires_at (pos 0)) (other "join request expiry must be non-negative")
    namespace_id ←
        decode_lower_hex_exact "joinRequest.namespaceId" r.namespace_id namespace_id_length
    invite_id ← decode_lower_hex_exact "joinRequest.inviteId" r.invite_id invite_id_length
    origin_hash ← server_origin_hash u c r.server_origin
    key_id ← decode_lower_hex_exact "joinRequest.keyId" r.key_id key_id_length
    auth_key ← parse_ed25519_public_key_hex "joinRequest.authPublicKey" r.auth_public_key
    wrap_key ← parse_x25519_public_key_hex c "joinRequest.wrapPublicKey" r.wrap_public_key
    signature ← decode_lower_hex_exact "joinRequest.signature" r.signature 64
    proof ← decode_base64url_exact c "joinRequest.inviteProof" r.invite_proof invite_proof_length
    verify_key_id_matches_auth_public_key c r.key_id auth_key
    payload ←
        join_request_payload r.kind namespace_id invite_id origin_hash key_id auth_key wrap_key
          (to_uint64 r.expires_at)
    ok (record {
      payload = payload;
      hash = encode_to_string (join_request_hash c payload);
      signature = signature;
      invite_proof = proof;
      auth_public_key = auth_key;
      wrap_public_key = wrap_key;
    })

  -- what is checked of the parsed request
  unfoldable pub check_parsed :
      NamespaceInviteToken
      → NamespaceJoinRequestEntry
      → ParsedNamespaceJoinRequest
      → Result VerifiedJoinRequest
  check_parsed invite entry parsed = do
    refuse_if (not (bytes_eq entry.join_request_hash parsed.hash))
        (other "join request hash mismatch")
    refuse_if (not (c.ed25519_verify parsed.auth_public_key parsed.payload parsed.signature))
        (other "invalid join request signature")
    invite_secret ←
        decode_base64url_exact c "inviteSecret" invite.invite_secret invite_secret_length
    verify_invite_proof c invite_secret parsed.payload parsed.invite_proof
    server_secret ← derive_invite_server_secret c invite_secret
    ok (record {
      wrap_public_key = parsed.wrap_public_key;
      invite_server_secret = server_secret;
      join_request_hash = parsed.hash;
    })

  unfoldable pub verify_join_request_for_approval :
      Bytes → NamespaceInviteToken → NamespaceJoinRequestEntry → ℕ → Result VerifiedJoinRequest
  verify_join_request_for_approval namespace_id invite entry now = do
    check_coordinates u namespace_id invite entry.join_request now
    parsed ← parse_namespace_join_request entry.join_request
    check_parsed invite entry parsed
