-- ===== src/Client/Namespaces/Quiet.antt =====
-- The requests about namespaces and tokens touch no table.
use bitboxsync_client_go.Prelude.Bytes.{Bytes}
use bitboxsync_client_go.Api.Namespaces.{
  RevokeAllTokensRequest, EnsureDefaultNamespaceRequest, CreateSharedNamespaceRequest,
}
use bitboxsync_client_go.Engine.State.{Engine}
use bitboxsync_client_go.Engine.Ensures.{IsQuiet, quiet_rules}
use bitboxsync_client_go.Client.Namespaces.{
  sensitive_action_challenge, revoke_all_tokens, ensure_default_namespace, create_shared_namespace,
}

module _ {X : Type 0} (e : Engine X) where
  pub sensitive_action_challenge-IsQuiet :
      (action hash : Bytes) → IsQuiet (sensitive_action_challenge e action hash)
  unfolding sensitive_action_challenge
  sensitive_action_challenge-IsQuiet action hash = search quiet_rules

  pub revoke_all_tokens-IsQuiet :
      (token : Bytes) (req : RevokeAllTokensRequest) → IsQuiet (revoke_all_tokens e token req)
  unfolding revoke_all_tokens
  revoke_all_tokens-IsQuiet token req = search quiet_rules

  pub ensure_default_namespace-IsQuiet :
      (token : Bytes) (req : EnsureDefaultNamespaceRequest)
      → IsQuiet (ensure_default_namespace e token req)
  unfolding ensure_default_namespace
  ensure_default_namespace-IsQuiet token req = search quiet_rules depth 9

  pub create_shared_namespace-IsQuiet :
      (token : Bytes) (req : CreateSharedNamespaceRequest)
      → IsQuiet (create_shared_namespace e token req)
  unfolding create_shared_namespace
  create_shared_namespace-IsQuiet token req = search quiet_rules depth 9
