-- ===== src/Api.antt =====
-- protocol/api.go, and the outer interfaces of the client: the server and the keystore.
pub mod Invites
pub mod Namespaces
use bitboxsync_client_go.Prelude.{ℕ, Bool, List, Option}
use bitboxsync_client_go.Prelude.Bytes.{Bytes}
use bitboxsync_client_go.Result.{Result}
use bitboxsync_client_go.Types.{Dict}
use bitboxsync_client_go.Prelude.Int.{ℤ}
use bitboxsync_client_go.Api.Invites.{
  CreateNamespaceInviteRequest, CreateNamespaceInviteResponse, ListNamespaceInvitesResponse,
  SubmitNamespaceJoinRequestRequest, SubmitNamespaceJoinRequestResponse,
  ListNamespaceJoinRequestsResponse, ApproveNamespaceJoinRequestRequest,
  ApproveNamespaceJoinRequestResponse, RejectNamespaceJoinRequestResponse,
  RevokeNamespaceInviteResponse,
}
use bitboxsync_client_go.Api.Namespaces.{
  RevokeAllTokensRequest, DefaultNamespaceResponse, EnsureDefaultNamespaceRequest,
  EnsureDefaultNamespaceResponse, CreateSharedNamespaceRequest, CreateSharedNamespaceResponse,
  GetNamespaceMembersResponse,
}

-- The decoded bodies of the server's answers.
pub record NamespaceSummary : Type 0 where
  pub namespace_id : Bytes
  pub kind : Bytes
  pub namespace_head : ℕ

pub record GetNamespaceItemsResponse : Type 0 where
  pub namespace_id : Bytes
  pub namespace_head : ℕ
  -- item ID to version, in the order in which a `range` over the map meets them
  pub items : Dict ℕ

pub record GetItemResponse : Type 0 where
  pub namespace_id : Bytes
  pub item_id : Bytes
  pub version : ℕ
  pub nonce : Bytes
  pub aad : Bytes
  pub ciphertext : Bytes

pub record PutItemRequest : Type 0 where
  pub nonce : Bytes
  pub aad : Bytes
  pub ciphertext : Bytes

pub record PutItemResponse : Type 0 where
  pub namespace_id : Bytes
  pub item_id : Bytes
  pub version : ℕ

pub record ChallengeResponse : Type 0 where
  pub challenge : Bytes
  pub spam_control_kind : Bytes

pub record LoginRequest : Type 0 where
  pub kind : Bytes
  pub key_id : Bytes
  pub auth_public_key : Bytes
  pub wrap_public_key : Bytes
  pub challenge : Bytes
  pub intent_signature : Bytes
  pub attestation : Bytes

pub record LoginResponse : Type 0 where
  pub kind : Bytes
  pub access_token : Bytes
  pub expires_at : ℕ
  pub default_namespace_id : Option Bytes

pub record RefreshRequest : Type 0 where
  pub kind : Bytes
  pub key_id : Bytes
  pub challenge : Bytes
  pub intent_signature : Bytes
  pub attestation : Bytes

pub record RefreshResponse : Type 0 where
  pub kind : Bytes
  pub access_token : Bytes
  pub expires_at : ℕ

-- What doJSON returns for each request: an error, or the decoded body.
pub record Server (X : Type 0) : Type 0 where
  pub list_namespaces : Bytes → X → Result (List NamespaceSummary) × X
  pub get_namespace_items : Bytes → Bytes → X → Result GetNamespaceItemsResponse × X
  pub get_item : Bytes → Bytes → Bytes → X → Result GetItemResponse × X
  pub put_item : Bytes → Bytes → Bytes → PutItemRequest → Option ℕ → X → Result PutItemResponse × X
  -- the wrapped DEK with the namespace and the key ID that the answer names
  pub get_wrapped_dek : Bytes → Bytes → Bytes → X → Result (Bytes × Bytes × Bytes) × X
  pub challenge : Bytes → X → Result ChallengeResponse × X
  pub login : LoginRequest → X → Result LoginResponse × X
  pub refresh : Bytes → RefreshRequest → X → Result RefreshResponse × X
  -- the namespaces and TimedOut
  pub watch_namespaces : Bytes → Dict ℕ → X → Result (List NamespaceSummary × Bool) × X
  -- action and hash of the action fields
  pub sensitive_action_challenge : Bytes → Bytes → X → Result ChallengeResponse × X
  pub revoke_all_tokens : Bytes → RevokeAllTokensRequest → X → Result (Unit {0}) × X
  pub get_default_namespace : Bytes → X → Result DefaultNamespaceResponse × X
  pub ensure_default_namespace :
      Bytes → EnsureDefaultNamespaceRequest → X → Result EnsureDefaultNamespaceResponse × X
  pub create_shared_namespace :
      Bytes → CreateSharedNamespaceRequest → X → Result CreateSharedNamespaceResponse × X
  pub get_members : Bytes → Bytes → X → Result GetNamespaceMembersResponse × X
  -- a token, then the parts of the path, then the body
  pub create_namespace_invite :
      Bytes → Bytes → CreateNamespaceInviteRequest → X → Result CreateNamespaceInviteResponse × X
  pub list_namespace_invites : Bytes → Bytes → X → Result ListNamespaceInvitesResponse × X
  pub revoke_namespace_invite : Bytes → Bytes → Bytes → X → Result RevokeNamespaceInviteResponse × X
  pub submit_namespace_join_request :
      Bytes
      → Bytes
      → Bytes
      → SubmitNamespaceJoinRequestRequest
      → X
      → Result SubmitNamespaceJoinRequestResponse × X
  pub list_namespace_join_requests :
      Bytes → Bytes → X → Result ListNamespaceJoinRequestsResponse × X
  pub approve_namespace_join_request :
      Bytes
      → Bytes
      → Bytes
      → Bytes
      → ApproveNamespaceJoinRequestRequest
      → X
      → Result ApproveNamespaceJoinRequestResponse × X
  pub reject_namespace_join_request :
      Bytes → Bytes → Bytes → Bytes → X → Result RejectNamespaceJoinRequestResponse × X

-- raw.Identity: the app's keystore.
pub record Identity (X : Type 0) : Type 0 where
  pub kind : Bytes
  pub auth_public_key : Bytes
  pub wrap_public_key : Bytes
  pub sign_login_intent : Bytes → X → Result Bytes × X
  pub sign_refresh_intent : Bytes → X → Result Bytes × X
  pub sign_revoke_all_tokens_intent : Bytes → X → Result Bytes × X
  -- challenge, namespace ID, invite ID, hash of the invite's server secret, expiry, limit
  pub sign_create_namespace_invite_intent :
      Bytes → Bytes → Bytes → Bytes → ℤ → ℤ → X → Result Bytes × X
  -- namespace ID, invite ID, server origin, expiry
  pub sign_namespace_join_request_intent : Bytes → Bytes → Bytes → ℤ → X → Result Bytes × X
  pub attest : Bytes → X → Result Bytes × X
  pub unwrap_namespace_dek : Bytes → Bytes → X → Result Bytes × X
