-- ===== src/Sync/Auth.antt =====
-- bitboxsync/engine_auth.go: login, refresh, and the retry after a rejected token.
pub mod Safe
use bitboxsync_client_go.Prelude.{
  ℕ, ◌+◌, Bool, ◌&&◌, not, [], Option, none, some, ltb, length, ◌==◌, if◌then◌else◌,
}
use bitboxsync_client_go.Prelude.Bytes.{Bytes, bytes_eq, codes}
use bitboxsync_client_go.Result.{Result, ok, err, is_unauthorized_api_error}
use bitboxsync_client_go.Types.{
  IdentityState, EventType, new_event, auth_login_required, auth_refresh_recommended,
  auth_session_ready,
}
use bitboxsync_client_go.Client
use bitboxsync_client_go.Protocol.Hex.{encode_to_string}
use bitboxsync_client_go.Protocol.Item.{decode_base64_exact}
use bitboxsync_client_go.Engine.State.{
  Engine, M, pure, raise, lift, call, attempt, now, emit, ◌>>=◌, ◌>>◌,
}
use bitboxsync_client_go.Sync.Identity.{identity_state_snapshot, access_token, save_identity_state}

-- another goroutine has moved on to a different token
unfoldable pub already_replaced : Bytes → Bytes → Bool
already_replaced failed_token token =
    not (length failed_token == 0) && (not (length token == 0) && not (bytes_eq token failed_token))

module _ {X : Type 0} (e : Engine X) where
  unfoldable pub emit_auth_event : EventType → ℕ → M X (Unit {0})
  emit_auth_event type token_expires_at =
      emit e (record (new_event type) { token_expires_at = token_expires_at })

  -- the attestation that the challenge asks for, in base64, or nothing
  attestation_for : Bytes → Bytes → M X Bytes
  attestation_for spam_control_kind challenge =
      if bytes_eq spam_control_kind (codes "attestation")
      then (do a ← call (e.identity.attest challenge); pure (e.crypto.encode_base64 a))
      else pure []

  abbrev or_empty : Option Bytes → Bytes
  or_empty none = []
  or_empty (some id) = id

  unfoldable pub login : M X (Unit {0})
  unfolding attestation_for
  login = do
    answer ← Client.challenge e (codes "login")
    challenge ← lift (decode_base64_exact e.crypto "challenge" answer.challenge 32)
    signature ← call (e.identity.sign_login_intent challenge)
    attestation ← attestation_for answer.spam_control_kind challenge
    resp ← Client.login e (record {
      kind = e.identity.kind;
      key_id = e.key_id;
      auth_public_key = encode_to_string e.identity.auth_public_key;
      wrap_public_key = encode_to_string e.identity.wrap_public_key;
      challenge = answer.challenge;
      intent_signature = encode_to_string signature;
      attestation = attestation;
    })
    t ← now e
    save_identity_state e (record {
      key_id = e.key_id;
      kind = resp.kind;
      access_token = resp.access_token;
      token_expiry = resp.expires_at;
      default_namespace_id = or_empty resp.default_namespace_id;
      updated_at = t;
    })
    emit_auth_event auth_session_ready resp.expires_at

  unfoldable pub refresh : M X (Unit {0})
  unfolding attestation_for
  refresh = do
    state ← identity_state_snapshot
    answer ← Client.challenge e (codes "refresh")
    challenge ← lift (decode_base64_exact e.crypto "challenge" answer.challenge 32)
    signature ← call (e.identity.sign_refresh_intent challenge)
    attestation ← attestation_for answer.spam_control_kind challenge
    resp ← Client.refresh e state.access_token (record {
      kind = e.identity.kind;
      key_id = e.key_id;
      challenge = answer.challenge;
      intent_signature = encode_to_string signature;
      attestation = attestation;
    })
    t ← now e
    save_identity_state e (record state {
      access_token = resp.access_token;
      token_expiry = resp.expires_at;
      updated_at = t;
    })
    emit_auth_event auth_session_ready resp.expires_at

  -- a failed login asks for another
  login_required : ℕ → Result (Unit {0}) → M X (Unit {0})
  login_required token_expiry (ok _) = pure tt
  login_required token_expiry (err x) = do emit_auth_event auth_login_required token_expiry; raise x

  unfoldable pub login_or_require : ℕ → M X (Unit {0})
  unfolding login_required
  login_or_require token_expiry = do r ← attempt login; login_required token_expiry r

  -- the switch of `ensureAuthenticated`
  unfoldable pub authenticate_at : ℕ → IdentityState → M X (Unit {0})
  authenticate_at now_at state =
      if length state.access_token == 0
      then login_or_require state.token_expiry
      else if ltb state.token_expiry now_at
      then login_or_require state.token_expiry
      else if ltb state.token_expiry (now_at + e.refresh_skew)
      then (do
        emit_auth_event auth_refresh_recommended state.token_expiry
        ignored ← attempt refresh
        pure tt)
      else pure tt

  unfoldable pub ensure_authenticated : M X (Unit {0})
  ensure_authenticated = do
    state ← identity_state_snapshot
    now_at ← now e
    authenticate_at now_at state

  unfoldable pub reauthenticate_after_unauthorized : Bytes → M X (Unit {0})
  reauthenticate_after_unauthorized failed_token = do
    state ← identity_state_snapshot
    if already_replaced failed_token state.access_token then pure tt else do
      t ← now e
      save_identity_state e (record state { access_token = []; token_expiry = 0; updated_at = t })
      login_or_require 0

  -- what to do with the outcome of the first try
  unfoldable pub retry_unauthorized : {A : Type 0} → M X A → Bytes → Result A → M X A
  retry_unauthorized fn failed_token (ok a) = pure a
  retry_unauthorized fn failed_token (err x) =
      if is_unauthorized_api_error x
      then (do reauthenticate_after_unauthorized failed_token; fn)
      else raise x

  unfoldable pub run_authenticated : {A : Type 0} → M X A → M X A
  run_authenticated fn = do
    ensure_authenticated
    failed_token ← access_token
    r ← attempt fn
    retry_unauthorized fn failed_token r
