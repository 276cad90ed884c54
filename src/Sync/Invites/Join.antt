-- ===== src/Sync/Invites/Join.antt =====
-- bitboxsync/namespace_invites.go: asking to join a namespace.
use bitboxsync_client_go.Prelude.{ℕ, ◌+◌, ◌*◌, ◌||◌, not, ltb, ◌==◌, if◌then◌else◌}
use bitboxsync_client_go.Prelude.Bytes.{Bytes, bytes_eq}
use bitboxsync_client_go.Prelude.Int.{ℤ, pos, negsuc, ltz, lez, eqz, to_uint64}
use bitboxsync_client_go.Result.{Result, ok, err, other, unsupported_version}
use bitboxsync_client_go.Api.Invites.{
  NamespaceInviteToken, NamespaceJoinRequest, SubmitNamespaceJoinRequestResponse,
}
use bitboxsync_client_go.Client.Invites.{submit_namespace_join_request}
use bitboxsync_client_go.Protocol.Hex.{
  decode_lower_hex_exact, encode_to_string, namespace_id_length, invite_id_length,
}
use bitboxsync_client_go.Protocol.Intent.{join_request_payload}
use bitboxsync_client_go.Protocol.InviteToken.{namespace_join_request_version}
use bitboxsync_client_go.Protocol.Keys.{encode_ed25519_public_key, encode_x25519_public_key}
use bitboxsync_client_go.Protocol.Origin.{canonical_server_origin, server_origin_hash}
use bitboxsync_client_go.Protocol.Secrets.{
  decode_base64url_exact, derive_invite_server_secret, invite_proof, invite_secret_length,
}
use bitboxsync_client_go.Engine.State.{Engine, M, lift, call, refuse_if, now, ◌>>=◌, ◌>>◌}
use bitboxsync_client_go.Sync.Identity.{access_token}
use bitboxsync_client_go.Sync.Auth.{run_authenticated}
use bitboxsync_client_go.Sync.Invites.{unix}

-- ten minutes, in nanoseconds
abbrev pub max_join_request_ttl : ℕ
max_join_request_ttl = 600 * 1000000000

pub record NamespaceJoinRequestOptions : Type 0 where
  pub ttl : ℤ
  pub expires_at : ℤ

unfoldable pub effective_ttl : ℤ → ℕ
effective_ttl (pos n) = if n == 0 || ltb max_join_request_ttl n then max_join_request_ttl else n
effective_ttl (negsuc n) = max_join_request_ttl

-- the smaller one
abbrev pub capped : ℤ → ℤ → ℤ
capped bound v = if ltz bound v then bound else v

abbrev pub chosen_expiry : ℕ → NamespaceJoinRequestOptions → ℤ → ℤ
chosen_expiry t opts invite_expiry =
    if eqz opts.expires_at (pos 0)
    then capped invite_expiry (pos (unix (t + effective_ttl opts.ttl)))
    else opts.expires_at

-- the checks of an expiry: the time now, the expiry of the invite
unfoldable pub check_expiry : ℕ → ℤ → ℤ → Result ℤ
check_expiry t invite_expiry expires_at =
    if ltz expires_at (pos 0)
    then err (other "join request expiry must be non-negative")
    else if ltz (pos (unix (t + max_join_request_ttl))) expires_at
    then err (other "join request expiry exceeds maximum")
    else if ltz invite_expiry expires_at
    then err (other "join request expires after invite")
    else if lez expires_at (pos (unix t))
    then err (other "invite has expired")
    else ok expires_at

-- when the request expires: the time now, the options, the expiry of the invite
unfoldable pub join_expiry : ℕ → NamespaceJoinRequestOptions → ℤ → Result ℤ
unfolding effective_ttl check_expiry
join_expiry t opts invite_expiry = check_expiry t invite_expiry (chosen_expiry t opts invite_expiry)

-- the signed request: invite, server origin, kind, key ID, public keys and signature of the requester
unfoldable pub join_request_of :
    NamespaceInviteToken
    → Bytes
    → Bytes
    → Bytes
    → Bytes
    → Bytes
    → ℤ
    → Bytes
    → Bytes
    → NamespaceJoinRequest
join_request_of invite server_origin kind key_id auth_key wrap_key expires_at signature proof =
    record {
      version = namespace_join_request_version;
      namespace_id = invite.namespace_id;
      invite_id = invite.invite_id;
      server_origin = server_origin;
      kind = kind;
      key_id = key_id;
      auth_public_key = encode_ed25519_public_key auth_key;
      wrap_public_key = encode_x25519_public_key wrap_key;
      expires_at = expires_at;
      signature = encode_to_string signature;
      invite_proof = proof;
    }

module _ {X : Type 0} (e : Engine X) where
  unfoldable pub send_join_request :
      NamespaceInviteToken → Bytes → NamespaceJoinRequest → M X SubmitNamespaceJoinRequestResponse
  send_join_request invite server_secret join_request = do
    token ← access_token
    submit_namespace_join_request e token invite.namespace_id invite.invite_id (record {
      invite_server_secret = e.crypto.encode_base64url server_secret;
      join_request = join_request;
    })

  unfoldable pub submit_join_request :
      NamespaceInviteToken → NamespaceJoinRequestOptions → M X SubmitNamespaceJoinRequestResponse
  submit_join_request invite opts = do
    refuse_if (not (eqz invite.version namespace_join_request_version)) unsupported_version
    refuse_if (lez invite.expires_at (pos 0)) (other "invite expiry must be positive")
    server_origin ← lift (canonical_server_origin e.urls invite.server_origin)
    refuse_if (not (bytes_eq server_origin invite.server_origin))
        (other "invite server origin must be canonical")
    namespace_raw ←
        lift (decode_lower_hex_exact "namespaceId" invite.namespace_id namespace_id_length)
    invite_raw ← lift (decode_lower_hex_exact "inviteId" invite.invite_id invite_id_length)
    invite_secret ←
        lift
          (decode_base64url_exact e.crypto "inviteSecret" invite.invite_secret invite_secret_length)
    server_secret ← lift (derive_invite_server_secret e.crypto invite_secret)
    origin_hash ← lift (server_origin_hash e.urls e.crypto server_origin)
    t ← now e
    expires_at ← lift (join_expiry t opts invite.expires_at)
    signature ← call (
        e.identity.sign_namespace_join_request_intent namespace_raw invite_raw server_origin
          expires_at)
    payload ← lift (
        join_request_payload e.identity.kind namespace_raw invite_raw origin_hash e.key_id_raw
          e.identity.auth_public_key e.identity.wrap_public_key (to_uint64 expires_at))
    proof ← lift (invite_proof e.crypto invite_secret payload)
    let join_request =
        join_request_of invite server_origin e.identity.kind e.key_id e.identity.auth_public_key
          e.identity.wrap_public_key expires_at signature (e.crypto.encode_base64url proof)
    run_authenticated e (send_join_request invite server_secret join_request)
