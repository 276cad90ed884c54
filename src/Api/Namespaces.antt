-- ===== src/Api/Namespaces.antt =====
-- protocol/api.go: creating namespaces, their members, and the revocation of tokens.
use bitboxsync_client_go.Prelude.{Bool, List}
use bitboxsync_client_go.Prelude.Bytes.{Bytes}

pub record RevokeAllTokensRequest : Type 0 where
  pub kind : Bytes
  pub key_id : Bytes
  pub challenge : Bytes
  pub intent_signature : Bytes

pub record DefaultNamespaceResponse : Type 0 where
  pub namespace_id : Bytes
  pub kind : Bytes

pub record EnsureDefaultNamespaceRequest : Type 0 where
  pub proposed_namespace_id : Bytes
  pub wrapped_dek : Bytes

pub record EnsureDefaultNamespaceResponse : Type 0 where
  pub namespace_id : Bytes
  pub kind : Bytes
  pub wrapped_dek : Bytes
  pub created : Bool

pub record CreateSharedNamespaceRequest : Type 0 where
  pub namespace_id : Bytes
  pub wrapped_dek : Bytes

pub record CreateSharedNamespaceResponse : Type 0 where
  pub namespace_id : Bytes
  pub kind : Bytes
  pub created : Bool

pub record NamespaceMember : Type 0 where
  pub kind : Bytes
  pub key_id : Bytes

pub record GetNamespaceMembersResponse : Type 0 where
  pub namespace_id : Bytes
  pub members : List NamespaceMember
