-- ===== src/Api/Invites.antt =====
-- protocol/api.go: invites and join requests. An expiry is an int64 and a limit an int, both signed.
use bitboxsync_client_go.Prelude.{ℕ, Bool, List, Option}
use bitboxsync_client_go.Prelude.Bytes.{Bytes}
use bitboxsync_client_go.Prelude.Int.{ℤ}

pub record NamespaceInviteToken : Type 0 where
  pub version : ℤ
  pub server_origin : Bytes
  pub namespace_id : Bytes
  pub invite_id : Bytes
  pub expires_at : ℤ
  pub invite_secret : Bytes

pub record CreateNamespaceInviteRequest : Type 0 where
  pub kind : Bytes
  pub key_id : Bytes
  pub invite_id : Bytes
  pub invite_server_secret_hash : Bytes
  pub challenge : Bytes
  pub intent_signature : Bytes
  pub expires_at : ℤ
  pub max_accepted : ℤ

pub record CreateNamespaceInviteResponse : Type 0 where
  pub namespace_id : Bytes
  pub invite_id : Bytes
  pub expires_at : ℤ
  pub max_accepted : ℤ

pub record NamespaceInviteSummary : Type 0 where
  pub invite_id : Bytes
  pub created_by_key_id : Bytes
  pub created_at : ℕ
  pub expires_at : ℤ
  pub max_accepted : ℤ
  pub active_request_count : ℤ
  pub accepted_count : ℤ
  pub revoked_at : Option ℕ

pub record ListNamespaceInvitesResponse : Type 0 where
  pub namespace_id : Bytes
  pub invites : List NamespaceInviteSummary

pub record NamespaceJoinRequest : Type 0 where
  pub version : ℤ
  pub namespace_id : Bytes
  pub invite_id : Bytes
  pub server_origin : Bytes
  pub kind : Bytes
  pub key_id : Bytes
  pub auth_public_key : Bytes
  pub wrap_public_key : Bytes
  pub expires_at : ℤ
  pub signature : Bytes
  pub invite_proof : Bytes

pub record SubmitNamespaceJoinRequestRequest : Type 0 where
  pub invite_server_secret : Bytes
  pub join_request : NamespaceJoinRequest

pub record SubmitNamespaceJoinRequestResponse : Type 0 where
  pub namespace_id : Bytes
  pub invite_id : Bytes
  pub requester_kind : Bytes
  pub requester_key_id : Bytes
  pub join_request_hash : Bytes
  pub status : Bytes

pub record NamespaceJoinRequestEntry : Type 0 where
  pub invite_id : Bytes
  pub join_request_hash : Bytes
  pub created_at : ℕ
  pub status : Bytes
  pub join_request : NamespaceJoinRequest

pub record ListNamespaceJoinRequestsResponse : Type 0 where
  pub namespace_id : Bytes
  pub requests : List NamespaceJoinRequestEntry

pub record ApproveNamespaceJoinRequestRequest : Type 0 where
  pub invite_server_secret : Bytes
  pub wrapped_dek : Bytes

pub record ApproveNamespaceJoinRequestResponse : Type 0 where
  pub namespace_id : Bytes
  pub member_kind : Bytes
  pub member_key_id : Bytes
  pub join_request_hash : Bytes

pub record RejectNamespaceJoinRequestResponse : Type 0 where
  pub namespace_id : Bytes
  pub requester_key_id : Bytes
  pub join_request_hash : Bytes
  pub rejected : Bool

pub record RevokeNamespaceInviteResponse : Type 0 where
  pub namespace_id : Bytes
  pub invite_id : Bytes
  pub revoked : Bool
