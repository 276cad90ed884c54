-- ===== src/Client/Invites/Quiet.antt =====
-- The requests about invites and join requests touch no table.
use bitboxsync_client_go.Prelude.Bytes.{Bytes}
use bitboxsync_client_go.Api.Invites.{
  CreateNamespaceInviteRequest, SubmitNamespaceJoinRequestRequest,
  ApproveNamespaceJoinRequestRequest,
}
use bitboxsync_client_go.Engine.State.{Engine}
use bitboxsync_client_go.Engine.Ensures.{IsQuiet, quiet_rules}
use bitboxsync_client_go.Client.Invites.{
  must_repeat, create_namespace_invite, list_namespace_invites, revoke_namespace_invite,
  submit_namespace_join_request, list_namespace_join_requests, approve_namespace_join_request,
  reject_namespace_join_request,
}

module _ {X : Type 0} where
  must_repeat-IsQuiet : (got want : Bytes) → IsQuiet {X = X} (must_repeat got want)
  unfolding must_repeat
  must_repeat-IsQuiet got want = search quiet_rules

module _ {X : Type 0} (e : Engine X) where
  pub create_namespace_invite-IsQuiet :
      (token n : Bytes) (req : CreateNamespaceInviteRequest)
      → IsQuiet (create_namespace_invite e token n req)
  unfolding create_namespace_invite
  create_namespace_invite-IsQuiet token n req = search (quiet_rules, must_repeat-IsQuiet) depth 12

  pub list_namespace_invites-IsQuiet :
      (token n : Bytes) → IsQuiet (list_namespace_invites e token n)
  unfolding list_namespace_invites
  list_namespace_invites-IsQuiet token n = search (quiet_rules, must_repeat-IsQuiet) depth 12

  pub revoke_namespace_invite-IsQuiet :
      (token n i : Bytes) → IsQuiet (revoke_namespace_invite e token n i)
  unfolding revoke_namespace_invite
  revoke_namespace_invite-IsQuiet token n i = search (quiet_rules, must_repeat-IsQuiet) depth 12

  pub submit_namespace_join_request-IsQuiet :
      (token n i : Bytes) (req : SubmitNamespaceJoinRequestRequest)
      → IsQuiet (submit_namespace_join_request e token n i req)
  unfolding submit_namespace_join_request
  submit_namespace_join_request-IsQuiet token n i req =
      search (quiet_rules, must_repeat-IsQuiet) depth 14

  pub list_namespace_join_requests-IsQuiet :
      (token n : Bytes) → IsQuiet (list_namespace_join_requests e token n)
  unfolding list_namespace_join_requests
  list_namespace_join_requests-IsQuiet token n = search (quiet_rules, must_repeat-IsQuiet) depth 12

  pub approve_namespace_join_request-IsQuiet :
      (token n k h : Bytes) (req : ApproveNamespaceJoinRequestRequest)
      → IsQuiet (approve_namespace_join_request e token n k h req)
  unfolding approve_namespace_join_request
  approve_namespace_join_request-IsQuiet token n k h req =
      search (quiet_rules, must_repeat-IsQuiet) depth 14

  pub reject_namespace_join_request-IsQuiet :
      (token n k h : Bytes) → IsQuiet (reject_namespace_join_request e token n k h)
  unfolding reject_namespace_join_request
  reject_namespace_join_request-IsQuiet token n k h =
      search (quiet_rules, must_repeat-IsQuiet) depth 14
