-- ===== src/Sync/Invites/Create.antt =====
-- bitboxsync/namespace_invites.go: creating an invite.
use bitboxsync_client_go.Prelude.{
  ℕ, ◌+◌, ◌-◌, ◌*◌, ◌^◌, ◌||◌, not, length, ltb, ◌==◌, if◌then◌else◌,
}
use bitboxsync_client_go.Prelude.Bytes.{Bytes, codes, bytes_eq}
use bitboxsync_client_go.Prelude.Int.{ℤ, pos, negsuc, ltz, lez, eqz, to_uint32, to_uint64}
use bitboxsync_client_go.Result.{Result, ok, err, other}
use bitboxsync_client_go.Api.Invites.{NamespaceInviteToken, CreateNamespaceInviteResponse}
use bitboxsync_client_go.Client.Namespaces.{sensitive_action_challenge}
use bitboxsync_client_go.Client.Invites.{create_namespace_invite}
use bitboxsync_client_go.Protocol.Hex.{
  decode_lower_hex_exact, encode_to_string, namespace_id_length, invite_id_length,
}
use bitboxsync_client_go.Protocol.Item.{decode_base64_exact}
use bitboxsync_client_go.Protocol.Intent.{
  create_namespace_invite_action, create_namespace_invite_action_fields,
}
use bitboxsync_client_go.Protocol.InviteToken.{
  namespace_join_request_version, encode_namespace_invite_token, parse_namespace_invite_token,
}
use bitboxsync_client_go.Protocol.Origin.{canonical_server_origin}
use bitboxsync_client_go.Protocol.Secrets.{
  decode_base64url_exact, derive_invite_server_secret, invite_secret_length,
}
use bitboxsync_client_go.Engine.State.{Engine, M, pure, lift, call, refuse_if, now, ◌>>=◌, ◌>>◌}
use bitboxsync_client_go.Sync.Identity.{access_token}
use bitboxsync_client_go.Sync.Auth.{run_authenticated}
use bitboxsync_client_go.Sync.Namespaces.{ensure_namespace_ready}
use bitboxsync_client_go.Sync.Invites.{unix}

-- an hour, in nanoseconds
abbrev pub max_invite_ttl : ℕ
max_invite_ttl = 3600 * 1000000000

abbrev pub max_accepted_join_requests_per_invite : ℕ
max_accepted_join_requests_per_invite = 10

pub record NamespaceInviteOptions : Type 0 where
  pub server_origin : Bytes
  pub invite_id : Bytes
  pub invite_secret : Bytes
  pub ttl : ℤ
  pub max_accepted : ℤ

-- the value if it is positive, and this default otherwise
unfoldable pub positive_or : ℕ → ℤ → ℕ
positive_or default (pos n) = if n == 0 then default else n
positive_or default (negsuc n) = default

-- the value as a uint32
unfoldable pub checked_uint32 : ℤ → Result ℕ
checked_uint32 value =
    if lez value (pos 0) || ltz (pos (2 ^ 31 - 1)) value
    then err (other "out of range")
    else ok (to_uint32 value)

module _ {X : Type 0} (e : Engine X) where
  -- the ID that the caller chose, or a new one
  unfoldable pub choose_invite_id : Bytes → M X Bytes
  choose_invite_id chosen =
      if length chosen == 0
      then call (e.random invite_id_length)
      else lift (decode_lower_hex_exact "inviteId" chosen invite_id_length)

  -- the secret that the caller chose, or a new one
  unfoldable pub choose_invite_secret : Bytes → M X Bytes
  choose_invite_secret chosen =
      if length chosen == 0
      then call (e.random invite_secret_length)
      else lift (decode_base64url_exact e.crypto "inviteSecret" chosen invite_secret_length)

  -- the signed request, for which a challenge is asked first
  unfoldable pub request_invite :
      NamespaceInviteToken → Bytes → Bytes → Bytes → ℤ → Bytes → M X CreateNamespaceInviteResponse
  request_invite token namespace_raw invite_raw secret_hash max_accepted action_fields = do
    access ← access_token
    answer ←
        sensitive_action_challenge e create_namespace_invite_action
          (encode_to_string (e.crypto.sha256 action_fields))
    refuse_if (not (bytes_eq answer.spam_control_kind (codes "none")))
        (other "unsupported spam control kind for namespace invite creation")
    challenge ← lift (decode_base64_exact e.crypto "challenge" answer.challenge 32)
    signature ← call (
        e.identity.sign_create_namespace_invite_intent challenge namespace_raw invite_raw
          secret_hash token.expires_at max_accepted)
    resp ← create_namespace_invite e access token.namespace_id (record {
      kind = e.identity.kind;
      key_id = e.key_id;
      invite_id = token.invite_id;
      invite_server_secret_hash = encode_to_string secret_hash;
      challenge = answer.challenge;
      intent_signature = encode_to_string signature;
      expires_at = token.expires_at;
      max_accepted = max_accepted;
    })
    refuse_if (not (eqz resp.expires_at token.expires_at))
        (other "create invite response expiry mismatch")
    refuse_if (not (eqz resp.max_accepted max_accepted))
        (other "create invite response maxAccepted mismatch")
    pure resp

  -- the options with their defaults, then the checks, then the request
  unfoldable pub create_invite : Bytes → NamespaceInviteOptions → M X NamespaceInviteToken
  create_invite namespace_id opts = do
    let ttl = positive_or e.invite_ttl opts.ttl
    refuse_if (ltb max_invite_ttl ttl) (other "invite ttl exceeds maximum")
    let limit = positive_or max_accepted_join_requests_per_invite opts.max_accepted
    refuse_if (ltb max_accepted_join_requests_per_invite limit)
        (other "maxAccepted exceeds maximum")
    server_origin ← lift (canonical_server_origin e.urls opts.server_origin)
    namespace_raw ← lift (decode_lower_hex_exact "namespaceId" namespace_id namespace_id_length)
    ready ← ensure_namespace_ready e namespace_id (codes "shared")
    invite_raw ← choose_invite_id opts.invite_id
    invite_secret ← choose_invite_secret opts.invite_secret
    max_accepted ← lift (checked_uint32 (pos limit))
    t ← now e
    let expires_at = pos (unix (t + ttl))
    refuse_if (ltz expires_at (pos 0)) (other "invite expiry must be non-negative")
    server_secret ← lift (derive_invite_server_secret e.crypto invite_secret)
    let secret_hash = e.crypto.sha256 server_secret
    action_fields ← lift (
        create_namespace_invite_action_fields namespace_raw invite_raw secret_hash
          (to_uint64 expires_at) max_accepted)
    let token : NamespaceInviteToken = record {
      version = namespace_join_request_version;
      server_origin = server_origin;
      namespace_id = namespace_id;
      invite_id = encode_to_string invite_raw;
      expires_at = expires_at;
      invite_secret = e.crypto.encode_base64url invite_secret;
    }
    resp ←
        run_authenticated e
          (request_invite token namespace_raw invite_raw secret_hash (pos limit) action_fields)
    pure (record token { namespace_id = resp.namespace_id; invite_id = resp.invite_id })

  unfoldable pub invite_uri : NamespaceInviteToken → Result Bytes
  invite_uri token = encode_namespace_invite_token e.urls e.crypto token

  unfoldable pub parse_invite_uri : Bytes → Result NamespaceInviteToken
  parse_invite_uri value = parse_namespace_invite_token e.urls e.crypto value
