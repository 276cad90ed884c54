-- ===== src/Sync/Invites/Manage.antt =====
-- bitboxsync/namespace_invites.go and engine_identity.go: approving and managing join requests.
use bitboxsync_client_go.Prelude.{List}
use bitboxsync_client_go.Prelude.Bytes.{Bytes, codes}
use bitboxsync_client_go.Api.Invites.{
  NamespaceInviteToken, NamespaceInviteSummary, NamespaceJoinRequestEntry,
}
use bitboxsync_client_go.Client.Invites.{
  list_namespace_join_requests, approve_namespace_join_request, reject_namespace_join_request,
  revoke_namespace_invite, list_namespace_invites,
}
use bitboxsync_client_go.Protocol.Hex.{decode_lower_hex_exact, namespace_id_length}
use bitboxsync_client_go.Protocol.Wrap.{wrap_namespace_dek}
use bitboxsync_client_go.Engine.State.{Engine, M, pure, lift, call, now, ◌>>=◌}
use bitboxsync_client_go.Sync.Identity.{access_token}
use bitboxsync_client_go.Sync.Auth.{run_authenticated}
use bitboxsync_client_go.Sync.Namespaces.{ensure_namespace_ready}
use bitboxsync_client_go.Sync.Invites.{VerifiedJoinRequest, verify_join_request_for_approval}

module _ {X : Type 0} (e : Engine X) where
  -- The randomness of the HPKE sender is 32 bytes.
  unfoldable pub wrap_namespace_dek_for : Bytes → Bytes → Bytes → M X Bytes
  wrap_namespace_dek_for namespace_id dek recipient_wrap_public_key = do
    raw ← lift (decode_lower_hex_exact "namespaceId" namespace_id namespace_id_length)
    seed ← call (e.random 32)
    lift (wrap_namespace_dek e.crypto seed recipient_wrap_public_key raw dek)

  unfoldable pub list_requests : Bytes → M X (List NamespaceJoinRequestEntry)
  list_requests namespace_id = do
    token ← access_token
    resp ← list_namespace_join_requests e token namespace_id
    pure resp.requests

  unfoldable pub join_requests : Bytes → M X (List NamespaceJoinRequestEntry)
  unfolding list_requests
  join_requests namespace_id = run_authenticated e (list_requests namespace_id)

  unfoldable pub send_approval :
      Bytes → NamespaceJoinRequestEntry → VerifiedJoinRequest → Bytes → M X (Unit {0})
  send_approval namespace_id entry verified wrapped_dek = do
    token ← access_token
    resp ←
        approve_namespace_join_request e token namespace_id entry.join_request.key_id
          verified.join_request_hash
          (record {
            invite_server_secret = e.crypto.encode_base64url verified.invite_server_secret;
            wrapped_dek = e.crypto.encode_base64 wrapped_dek;
          })
    pure tt

  unfoldable pub approve_join_request :
      Bytes → NamespaceInviteToken → NamespaceJoinRequestEntry → M X (Unit {0})
  unfolding send_approval
  approve_join_request namespace_id invite entry = do
    t ← now e
    verified ← lift (verify_join_request_for_approval e.urls e.crypto namespace_id invite entry t)
    state ← ensure_namespace_ready e namespace_id (codes "shared")
    wrapped_dek ← wrap_namespace_dek_for namespace_id state.dek verified.wrap_public_key
    run_authenticated e (send_approval namespace_id entry verified wrapped_dek)

  unfoldable pub send_rejection : Bytes → NamespaceJoinRequestEntry → M X (Unit {0})
  send_rejection namespace_id entry = do
    token ← access_token
    resp ←
        reject_namespace_join_request e token namespace_id entry.join_request.key_id
          entry.join_request_hash
    pure tt

  unfoldable pub reject_join_request : Bytes → NamespaceJoinRequestEntry → M X (Unit {0})
  unfolding send_rejection
  reject_join_request namespace_id entry = run_authenticated e (send_rejection namespace_id entry)

  unfoldable pub send_revocation : Bytes → Bytes → M X (Unit {0})
  send_revocation namespace_id invite_id = do
    token ← access_token
    resp ← revoke_namespace_invite e token namespace_id invite_id
    pure tt

  unfoldable pub revoke_invite : Bytes → Bytes → M X (Unit {0})
  unfolding send_revocation
  revoke_invite namespace_id invite_id =
      run_authenticated e (send_revocation namespace_id invite_id)

  unfoldable pub list_invites : Bytes → M X (List NamespaceInviteSummary)
  list_invites namespace_id = do
    token ← access_token
    resp ← list_namespace_invites e token namespace_id
    pure resp.invites

  unfoldable pub invites : Bytes → M X (List NamespaceInviteSummary)
  unfolding list_invites
  invites namespace_id = run_authenticated e (list_invites namespace_id)
