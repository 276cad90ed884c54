-- ===== src/Sync/Access.antt =====
-- bitboxsync/engine_namespace.go and engine_auth.go: what an app calls to reach its namespaces, to
-- log in, and to revoke its tokens. A *Namespace is given by its ID.
pub mod Safe
pub mod Listed
pub mod Ends
use bitboxsync_client_go.Prelude.{Bool, List, [], not, length, ◌==◌, if◌then◌else◌}
use bitboxsync_client_go.Prelude.Bytes.{Bytes, codes, bytes_eq}
use bitboxsync_client_go.Result.{other}
use bitboxsync_client_go.Types.{IdentityState, NamespaceState, auth_login_required}
use bitboxsync_client_go.Api.Namespaces.{
  EnsureDefaultNamespaceResponse, CreateSharedNamespaceResponse,
}
use bitboxsync_client_go.Client.Namespaces.{
  sensitive_action_challenge, revoke_all_tokens, ensure_default_namespace, create_shared_namespace,
}
use bitboxsync_client_go.Protocol.Hex.{encode_to_string, namespace_id_length}
use bitboxsync_client_go.Protocol.Item.{decode_base64, decode_base64_exact, namespace_dek_len}
use bitboxsync_client_go.Protocol.Intent.{revoke_all_tokens_action}
use bitboxsync_client_go.Sqlite.{save_namespace, list_namespaces}
use bitboxsync_client_go.Sqlite.Rows.{sort_by, bytes_ltb}
use bitboxsync_client_go.Engine.State.{Engine, M, pure, lift, call, refuse_if, now, ◌>>=◌, ◌>>◌}
use bitboxsync_client_go.Sync.Identity.{identity_state_snapshot, save_identity_state}
use bitboxsync_client_go.Sync.Auth.{run_authenticated, emit_auth_event}
use bitboxsync_client_go.Sync.Namespaces.{
  unwrap_namespace_dek, ensure_namespace_ready, join_namespace,
}
use bitboxsync_client_go.Sync.Pull.{sync_namespaces}
use bitboxsync_client_go.Sync.Invites.Manage.{wrap_namespace_dek_for}

-- by Kind, then by NamespaceID
unfoldable pub kind_is_before : NamespaceState → NamespaceState → Bool
kind_is_before a b =
    if bytes_eq a.kind b.kind
    then bytes_ltb a.namespace_id b.namespace_id
    else bytes_ltb a.kind b.kind

module _ {X : Type 0} (e : Engine X) where
  -- the DEK that was proposed, if it made the namespace, and the one of the server otherwise
  unfoldable pub default_dek : Bytes → EnsureDefaultNamespaceResponse → M X Bytes
  default_dek proposed resp = if resp.created then pure proposed else do
    wrapped ← lift (decode_base64 e.crypto "wrappedDek" resp.wrapped_dek)
    unwrap_namespace_dek e resp.namespace_id wrapped

  -- a namespace at head 0, with its DEK
  unfoldable pub save_new_namespace : Bytes → Bytes → Bytes → M X (Unit {0})
  save_new_namespace namespace_id kind dek = do
    t ← now e
    save_namespace e (record {
      key_id = e.key_id;
      namespace_id = namespace_id;
      kind = kind;
      namespace_head = 0;
      active_scope_hash = [];
      dek = dek;
      updated_at = t;
    })

  unfoldable pub create_default_namespace : IdentityState → M X Bytes
  create_default_namespace state = do
    raw ← call (e.random namespace_id_length)
    dek ← call (e.random namespace_dek_len)
    wrapped ← wrap_namespace_dek_for e (encode_to_string raw) dek e.identity.wrap_public_key
    resp ← ensure_default_namespace e state.access_token (record {
      proposed_namespace_id = encode_to_string raw;
      wrapped_dek = e.crypto.encode_base64 wrapped;
    })
    final_dek ← default_dek dek resp
    t ← now e
    save_identity_state e
        (record state { default_namespace_id = resp.namespace_id; updated_at = t })
    save_new_namespace resp.namespace_id resp.kind final_dek
    pure resp.namespace_id

  abbrev ready_default : Bytes → M X Bytes
  ready_default namespace_id = do
    ready ← ensure_namespace_ready e namespace_id (codes "default")
    pure namespace_id

  unfoldable pub default_from : IdentityState → M X Bytes
  default_from state =
      if length state.default_namespace_id == 0
      then create_default_namespace state
      else ready_default state.default_namespace_id

  unfoldable pub reach_default_namespace : M X Bytes
  reach_default_namespace = do state ← identity_state_snapshot; default_from state

  unfoldable pub default_namespace : M X Bytes
  default_namespace = run_authenticated e reach_default_namespace

  unfoldable pub make_shared_namespace : M X Bytes
  make_shared_namespace = do
    state ← identity_state_snapshot
    raw ← call (e.random namespace_id_length)
    dek ← call (e.random namespace_dek_len)
    let namespace_id = encode_to_string raw
    wrapped ← wrap_namespace_dek_for e namespace_id dek e.identity.wrap_public_key
    resp ←
        create_shared_namespace e state.access_token
          (record { namespace_id = namespace_id; wrapped_dek = e.crypto.encode_base64 wrapped })
    save_new_namespace resp.namespace_id resp.kind dek
    pure resp.namespace_id

  unfoldable pub create_new_shared_namespace : M X Bytes
  create_new_shared_namespace = run_authenticated e make_shared_namespace

  abbrev ready_handle : Bytes → M X Bytes
  ready_handle namespace_id = do ready ← ensure_namespace_ready e namespace_id []; pure namespace_id

  unfoldable pub open_namespace : Bytes → M X Bytes
  open_namespace namespace_id = run_authenticated e (ready_handle namespace_id)

  abbrev joined_handle : Bytes → M X Bytes
  joined_handle namespace_id = do joined ← join_namespace e namespace_id []; pure namespace_id

  unfoldable pub enter_namespace : Bytes → M X Bytes
  enter_namespace namespace_id = run_authenticated e (joined_handle namespace_id)

  abbrev synced_list : M X (List NamespaceState)
  synced_list = do sync_namespaces e; list_namespaces e e.key_id

  unfoldable pub list_all_namespaces : M X (List NamespaceState)
  list_all_namespaces = do
    namespaces ← run_authenticated e synced_list
    pure (sort_by kind_is_before namespaces)

  abbrev reached : M X (Unit {0})
  reached = do default_id ← reach_default_namespace; pure tt

  -- without the signals to the loops that wait for a login
  unfoldable pub log_in : M X (Unit {0})
  log_in = run_authenticated e reached

  unfoldable pub revoke_tokens_once : M X (Unit {0})
  revoke_tokens_once = do
    state ← identity_state_snapshot
    answer ←
        sensitive_action_challenge e revoke_all_tokens_action
          (encode_to_string (e.crypto.sha256 []))
    refuse_if (not (bytes_eq answer.spam_control_kind (codes "none")))
        (other "unsupported spam control kind for token revocation")
    challenge ← lift (decode_base64_exact e.crypto "challenge" answer.challenge 32)
    signature ← call (e.identity.sign_revoke_all_tokens_intent challenge)
    revoke_all_tokens e state.access_token (record {
      kind = e.identity.kind;
      key_id = e.key_id;
      challenge = answer.challenge;
      intent_signature = encode_to_string signature;
    })
    t ← now e
    save_identity_state e (record state { access_token = []; token_expiry = 0; updated_at = t })
    emit_auth_event e auth_login_required 0

  unfoldable pub revoke_every_token : M X (Unit {0})
  revoke_every_token = run_authenticated e revoke_tokens_once
