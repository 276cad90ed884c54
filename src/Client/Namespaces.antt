-- ===== src/Client/Namespaces.antt =====
-- raw/client.go: the requests about namespaces and tokens.
pub mod Quiet
use bitboxsync_client_go.Prelude.{◌&&◌, not, if◌then◌else◌}
use bitboxsync_client_go.Prelude.Bytes.{Bytes, codes, bytes_eq}
use bitboxsync_client_go.Result.{Result, ok, err, other}
use bitboxsync_client_go.Protocol.Hex.{validate_namespace_id}
use bitboxsync_client_go.Api.{ChallengeResponse}
use bitboxsync_client_go.Api.Namespaces.{
  RevokeAllTokensRequest, DefaultNamespaceResponse, EnsureDefaultNamespaceRequest,
  EnsureDefaultNamespaceResponse, CreateSharedNamespaceRequest, CreateSharedNamespaceResponse,
  GetNamespaceMembersResponse,
}
use bitboxsync_client_go.Engine.State.{Engine, M, pure, lift, call, refuse_if, ◌>>=◌, ◌>>◌}

-- namespace, kind, and the kind that is wanted
unfoldable pub validate_namespace_response : Bytes → Bytes → Bytes → Result (Unit {0})
validate_namespace_response namespace_id kind want_kind =
    elim (validate_namespace_id namespace_id) [
      | err x ↦ err x
      | ok _ ↦ if bytes_eq kind want_kind then ok tt else err (other "kind mismatch")
    ]

module _ {X : Type 0} (e : Engine X) where
  unfoldable pub sensitive_action_challenge : Bytes → Bytes → M X ChallengeResponse
  sensitive_action_challenge action action_fields_hash =
      call (e.server.sensitive_action_challenge action action_fields_hash)

  unfoldable pub revoke_all_tokens : Bytes → RevokeAllTokensRequest → M X (Unit {0})
  revoke_all_tokens token req = call (e.server.revoke_all_tokens token req)

  unfoldable pub get_default_namespace : Bytes → M X DefaultNamespaceResponse
  get_default_namespace token = do
    resp ← call (e.server.get_default_namespace token)
    lift (validate_namespace_response resp.namespace_id resp.kind (codes "default"))
    pure resp

  unfoldable pub ensure_default_namespace :
      Bytes → EnsureDefaultNamespaceRequest → M X EnsureDefaultNamespaceResponse
  ensure_default_namespace token req = do
    lift (validate_namespace_id req.proposed_namespace_id)
    resp ← call (e.server.ensure_default_namespace token req)
    lift (validate_namespace_response resp.namespace_id resp.kind (codes "default"))
    refuse_if (resp.created && not (bytes_eq resp.namespace_id req.proposed_namespace_id))
        (other "ensure default namespace mismatch")
    pure resp

  unfoldable pub create_shared_namespace :
      Bytes → CreateSharedNamespaceRequest → M X CreateSharedNamespaceResponse
  create_shared_namespace token req = do
    lift (validate_namespace_id req.namespace_id)
    resp ← call (e.server.create_shared_namespace token req)
    lift (validate_namespace_response resp.namespace_id resp.kind (codes "shared"))
    refuse_if (not (bytes_eq resp.namespace_id req.namespace_id))
        (other "create shared namespace mismatch")
    pure resp

  unfoldable pub get_members : Bytes → Bytes → M X GetNamespaceMembersResponse
  get_members token namespace_id = do
    lift (validate_namespace_id namespace_id)
    resp ← call (e.server.get_members token namespace_id)
    refuse_if (not (bytes_eq resp.namespace_id namespace_id)) (other "members namespace mismatch")
    pure resp
