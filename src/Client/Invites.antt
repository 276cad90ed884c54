-- ===== src/Client/Invites.antt =====
-- raw/client.go: the requests about invites and join requests.
pub mod Quiet
use bitboxsync_client_go.Prelude.{not}
use bitboxsync_client_go.Prelude.Bytes.{Bytes, codes, bytes_eq}
use bitboxsync_client_go.Result.{other}
use bitboxsync_client_go.Protocol.Hex.{
  validate_namespace_id, validate_invite_id, validate_key_id, validate_join_request_hash,
}
use bitboxsync_client_go.Api.Invites.{
  CreateNamespaceInviteRequest, CreateNamespaceInviteResponse, ListNamespaceInvitesResponse,
  SubmitNamespaceJoinRequestRequest, SubmitNamespaceJoinRequestResponse,
  ListNamespaceJoinRequestsResponse, ApproveNamespaceJoinRequestRequest,
  ApproveNamespaceJoinRequestResponse, RejectNamespaceJoinRequestResponse,
  RevokeNamespaceInviteResponse,
}
use bitboxsync_client_go.Engine.State.{Engine, M, pure, lift, call, refuse_if, ◌>>=◌, ◌>>◌}

module _ {X : Type 0} where
  -- the answer must repeat what was asked for
  unfoldable pub must_repeat : Bytes → Bytes → M X (Unit {0})
  must_repeat got want = refuse_if (not (bytes_eq got want)) (other "response mismatch")

module _ {X : Type 0} (e : Engine X) where
  unfoldable pub create_namespace_invite :
      Bytes → Bytes → CreateNamespaceInviteRequest → M X CreateNamespaceInviteResponse
  create_namespace_invite token namespace_id req = do
    lift (validate_namespace_id namespace_id)
    lift (validate_invite_id req.invite_id)
    resp ← call (e.server.create_namespace_invite token namespace_id req)
    must_repeat resp.namespace_id namespace_id
    must_repeat resp.invite_id req.invite_id
    pure resp

  unfoldable pub list_namespace_invites : Bytes → Bytes → M X ListNamespaceInvitesResponse
  list_namespace_invites token namespace_id = do
    lift (validate_namespace_id namespace_id)
    resp ← call (e.server.list_namespace_invites token namespace_id)
    must_repeat resp.namespace_id namespace_id
    pure resp

  unfoldable pub revoke_namespace_invite : Bytes → Bytes → Bytes → M X RevokeNamespaceInviteResponse
  revoke_namespace_invite token namespace_id invite_id = do
    lift (validate_namespace_id namespace_id)
    lift (validate_invite_id invite_id)
    resp ← call (e.server.revoke_namespace_invite token namespace_id invite_id)
    must_repeat resp.namespace_id namespace_id
    must_repeat resp.invite_id invite_id
    refuse_if (not resp.revoked) (other "revoke invite response must report revoked")
    pure resp

  unfoldable pub submit_namespace_join_request :
      Bytes
      → Bytes
      → Bytes
      → SubmitNamespaceJoinRequestRequest
      → M X SubmitNamespaceJoinRequestResponse
  submit_namespace_join_request token namespace_id invite_id req = do
    lift (validate_namespace_id namespace_id)
    lift (validate_invite_id invite_id)
    resp ← call (e.server.submit_namespace_join_request token namespace_id invite_id req)
    must_repeat resp.namespace_id namespace_id
    lift (validate_invite_id resp.invite_id)
    lift (validate_join_request_hash resp.join_request_hash)
    must_repeat resp.requester_kind req.join_request.kind
    must_repeat resp.requester_key_id req.join_request.key_id
    must_repeat resp.status (codes "pending")
    pure resp

  unfoldable pub list_namespace_join_requests :
      Bytes → Bytes → M X ListNamespaceJoinRequestsResponse
  list_namespace_join_requests token namespace_id = do
    lift (validate_namespace_id namespace_id)
    resp ← call (e.server.list_namespace_join_requests token namespace_id)
    must_repeat resp.namespace_id namespace_id
    pure resp

  -- token, namespace, requester's key, hash of the join request, body
  unfoldable pub approve_namespace_join_request :
      Bytes
      → Bytes
      → Bytes
      → Bytes
      → ApproveNamespaceJoinRequestRequest
      → M X ApproveNamespaceJoinRequestResponse
  approve_namespace_join_request token namespace_id key_id hash req = do
    lift (validate_namespace_id namespace_id)
    lift (validate_key_id key_id)
    lift (validate_join_request_hash hash)
    resp ← call (e.server.approve_namespace_join_request token namespace_id key_id hash req)
    must_repeat resp.namespace_id namespace_id
    must_repeat resp.member_key_id key_id
    must_repeat resp.join_request_hash hash
    pure resp

  unfoldable pub reject_namespace_join_request :
      Bytes → Bytes → Bytes → Bytes → M X RejectNamespaceJoinRequestResponse
  reject_namespace_join_request token namespace_id key_id hash = do
    lift (validate_namespace_id namespace_id)
    lift (validate_key_id key_id)
    lift (validate_join_request_hash hash)
    resp ← call (e.server.reject_namespace_join_request token namespace_id key_id hash)
    must_repeat resp.namespace_id namespace_id
    must_repeat resp.requester_key_id key_id
    must_repeat resp.join_request_hash hash
    refuse_if (not resp.rejected) (other "reject join request response must report rejected")
    pure resp
