-- ===== src/Sync/Namespaces.antt =====
-- bitboxsync/engine_namespace.go and engine_identity.go: the DEK of one namespace.
pub mod Safe
use bitboxsync_client_go.Prelude.{Bool, ◌&&◌, not, [], length, ◌==◌, if◌then◌else◌}
use bitboxsync_client_go.Prelude.Bytes.{Bytes, bytes_eq, codes}
use bitboxsync_client_go.Result.{Result, ok, err, other, is_not_found}
use bitboxsync_client_go.Types.{NamespaceState}
use bitboxsync_client_go.Client.{get_wrapped_dek}
use bitboxsync_client_go.Protocol.Hex.{decode_lower_hex_exact, namespace_id_length}
use bitboxsync_client_go.Protocol.Item.{decode_base64}
use bitboxsync_client_go.Sqlite.{get_namespace, save_namespace}
use bitboxsync_client_go.Engine.State.{
  Engine, M, pure, raise, lift, call, attempt, refuse_if, now, ◌>>=◌, ◌>>◌,
}
use bitboxsync_client_go.Sync.Identity.{access_token}
use bitboxsync_client_go.Sync.Auth.{ensure_authenticated}

abbrev pub new_namespace : Bytes → Bytes → Bytes → NamespaceState
new_namespace key_id namespace_id kind = record {
  key_id = key_id;
  namespace_id = namespace_id;
  kind = kind;
  namespace_head = 0;
  active_scope_hash = [];
  dek = [];
  updated_at = 0;
}

unfoldable pub validate_namespace_kind : Bytes → Result (Unit {0})
validate_namespace_kind kind =
    if bytes_eq kind (codes "default")
    then ok tt
    else if bytes_eq kind (codes "shared")
    then ok tt
    else err (other "unsupported namespace kind")

module _ {X : Type 0} (e : Engine X) where
  unfoldable pub unwrap_namespace_dek : Bytes → Bytes → M X Bytes
  unwrap_namespace_dek namespace_id wrapped_dek = do
    raw ← lift (decode_lower_hex_exact "namespaceId" namespace_id namespace_id_length)
    call (e.identity.unwrap_namespace_dek raw wrapped_dek)

  unfoldable pub get_namespace_state : Bytes → M X NamespaceState
  get_namespace_state namespace_id = get_namespace e e.key_id namespace_id

  -- the stored state, or a new one with this kind
  unfoldable pub or_new_namespace : Bytes → Bytes → Result NamespaceState → M X NamespaceState
  or_new_namespace namespace_id kind (ok state) = pure state
  or_new_namespace namespace_id kind (err x) =
      if is_not_found x then pure (new_namespace e.key_id namespace_id kind) else raise x

  unfoldable pub join_namespace : Bytes → Bytes → M X NamespaceState
  join_namespace namespace_id kind_hint = do
    token ← access_token
    encoded ← get_wrapped_dek e token namespace_id e.key_id
    wrapped_dek ← lift (decode_base64 e.crypto "wrappedDek" encoded)
    dek ← unwrap_namespace_dek namespace_id wrapped_dek
    found ← attempt (get_namespace_state namespace_id)
    state ← or_new_namespace namespace_id kind_hint found
    t ← now e
    let joined = record state {
      kind = if length state.kind == 0 then kind_hint else state.kind;
      dek = dek;
      updated_at = t;
    }
    save_namespace e joined
    pure joined

  abbrev wrong_kind : Bytes → NamespaceState → Bool
  wrong_kind expected_kind state =
      not (length expected_kind == 0) && not (bytes_eq state.kind expected_kind)

  join_ready : Bytes → Bytes → M X NamespaceState
  join_ready namespace_id expected_kind = do
    ensure_authenticated e
    joined ← join_namespace namespace_id expected_kind
    refuse_if (wrong_kind expected_kind joined) (other "namespace kind")
    pure joined

  -- what the store says of the namespace
  unfoldable pub ready_from : Bytes → Bytes → Result NamespaceState → M X NamespaceState
  unfolding join_ready
  ready_from namespace_id expected_kind (ok state) =
      if length state.dek == 0
      then join_ready namespace_id expected_kind
      else do refuse_if (wrong_kind expected_kind state) (other "namespace kind"); pure state
  ready_from namespace_id expected_kind (err x) =
      if is_not_found x then join_ready namespace_id expected_kind else raise x

  unfoldable pub ensure_namespace_ready : Bytes → Bytes → M X NamespaceState
  ensure_namespace_ready namespace_id expected_kind = do
    found ← attempt (get_namespace_state namespace_id)
    ready_from namespace_id expected_kind found
