-- ===== src/Sync/Invites/Safe.antt =====
-- The methods on invites leave the items alone.
use bitboxsync_client_go.Prelude.Bytes.{Bytes}
use bitboxsync_client_go.Api.Invites.{
  NamespaceInviteToken, NamespaceJoinRequest, NamespaceJoinRequestEntry,
}
use bitboxsync_client_go.Prelude.Int.{ℤ}
use bitboxsync_client_go.Client.Namespaces.Quiet.{sensitive_action_challenge-IsQuiet}
use bitboxsync_client_go.Client.Invites.Quiet.{
  create_namespace_invite-IsQuiet, list_namespace_invites-IsQuiet, revoke_namespace_invite-IsQuiet,
  submit_namespace_join_request-IsQuiet, list_namespace_join_requests-IsQuiet,
  approve_namespace_join_request-IsQuiet, reject_namespace_join_request-IsQuiet,
}
use bitboxsync_client_go.Engine.State.{Engine}
use bitboxsync_client_go.Engine.Ensures.{IsQuiet, quiet_rules, pure-IsQuiet}
use bitboxsync_client_go.Sync.Safe.{Start}
use bitboxsync_client_go.Sync.Safe.Keeps.{Keeps, quiet-Keeps, bind-Keeps}
use bitboxsync_client_go.Sync.Safe.Steps.{
  after_quiet, after_lift, after_now, after_refuse, after_rules,
}
use bitboxsync_client_go.Sync.Auth.Safe.{access_token-IsQuiet, run_authenticated-Keeps}
use bitboxsync_client_go.Sync.Namespaces.Safe.{ensure_namespace_ready-Keeps}
use bitboxsync_client_go.Sync.Invites.{VerifiedJoinRequest}
use bitboxsync_client_go.Sync.Invites.Create.{
  NamespaceInviteOptions, choose_invite_id, choose_invite_secret, request_invite, create_invite,
}
use bitboxsync_client_go.Sync.Invites.Join.{
  NamespaceJoinRequestOptions, send_join_request, submit_join_request,
}
use bitboxsync_client_go.Sync.Invites.Manage.{
  wrap_namespace_dek_for, list_requests, join_requests, send_approval, approve_join_request,
  send_rejection, reject_join_request, send_revocation, revoke_invite, list_invites, invites,
}

module _ {X : Type 0} (e : Engine X) where
  choose_invite_id-IsQuiet : (chosen : Bytes) → IsQuiet (choose_invite_id e chosen)
  unfolding choose_invite_id
  choose_invite_id-IsQuiet chosen = search quiet_rules

  choose_invite_secret-IsQuiet : (chosen : Bytes) → IsQuiet (choose_invite_secret e chosen)
  unfolding choose_invite_secret
  choose_invite_secret-IsQuiet chosen = search quiet_rules

  request_invite-IsQuiet :
      (token : NamespaceInviteToken) (n i h : Bytes) (m : ℤ) (fields : Bytes)
      → IsQuiet (request_invite e token n i h m fields)
  unfolding request_invite
  request_invite-IsQuiet token n i h m fields =
      search
        (
          quiet_rules, access_token-IsQuiet, sensitive_action_challenge-IsQuiet,
          create_namespace_invite-IsQuiet,
        )
        depth 14

  send_join_request-IsQuiet :
      (invite : NamespaceInviteToken) (secret : Bytes) (r : NamespaceJoinRequest)
      → IsQuiet (send_join_request e invite secret r)
  unfolding send_join_request
  send_join_request-IsQuiet invite secret r =
      search (quiet_rules, access_token-IsQuiet, submit_namespace_join_request-IsQuiet)

  pub wrap_namespace_dek_for-IsQuiet : (n d k : Bytes) → IsQuiet (wrap_namespace_dek_for e n d k)
  unfolding wrap_namespace_dek_for
  wrap_namespace_dek_for-IsQuiet n d k = search quiet_rules depth 9

  list_requests-IsQuiet : (n : Bytes) → IsQuiet (list_requests e n)
  unfolding list_requests
  list_requests-IsQuiet n =
      search (quiet_rules, access_token-IsQuiet, list_namespace_join_requests-IsQuiet) depth 9

  send_approval-IsQuiet :
      (n : Bytes) (entry : NamespaceJoinRequestEntry) (v : VerifiedJoinRequest) (w : Bytes)
      → IsQuiet (send_approval e n entry v w)
  unfolding send_approval
  send_approval-IsQuiet n entry v w =
      search (quiet_rules, access_token-IsQuiet, approve_namespace_join_request-IsQuiet) depth 9

  send_rejection-IsQuiet :
      (n : Bytes) (entry : NamespaceJoinRequestEntry) → IsQuiet (send_rejection e n entry)
  unfolding send_rejection
  send_rejection-IsQuiet n entry =
      search (quiet_rules, access_token-IsQuiet, reject_namespace_join_request-IsQuiet) depth 9

  send_revocation-IsQuiet : (n i : Bytes) → IsQuiet (send_revocation e n i)
  unfolding send_revocation
  send_revocation-IsQuiet n i =
      search (quiet_rules, access_token-IsQuiet, revoke_namespace_invite-IsQuiet) depth 9

  list_invites-IsQuiet : (n : Bytes) → IsQuiet (list_invites e n)
  unfolding list_invites
  list_invites-IsQuiet n =
      search (quiet_rules, access_token-IsQuiet, list_namespace_invites-IsQuiet) depth 9

module _ {X : Type 0} (e : Engine X) (t₀ : Start) where
  create_invite-Keeps :
      (n : Bytes) (opts : NamespaceInviteOptions) → Keeps t₀ (create_invite e n opts)
  unfolding create_invite
  create_invite-Keeps n opts = after_refuse t₀ _ _ λ _. after_refuse t₀ _ _ λ _.
      after_lift t₀ _ λ origin. after_lift t₀ _ λ raw.
        bind-Keeps t₀ (ensure_namespace_ready-Keeps e t₀ _ _) λ ready.
          after_quiet t₀ (choose_invite_id-IsQuiet e _) λ i.
            after_quiet t₀ (choose_invite_secret-IsQuiet e _) λ s. after_lift t₀ _ λ m.
              after_now t₀ e λ t. after_refuse t₀ _ _ λ _. after_lift t₀ _ λ secret.
                after_lift t₀ _ λ fields.
                  bind-Keeps t₀
                    (run_authenticated-Keeps e t₀
                      (quiet-Keeps t₀ (request_invite-IsQuiet e _ _ _ _ _ _)))
                    λ resp. quiet-Keeps t₀ (pure-IsQuiet _)

  approve_join_request-Keeps :
      (n : Bytes) (invite : NamespaceInviteToken) (entry : NamespaceJoinRequestEntry)
      → Keeps t₀ (approve_join_request e n invite entry)
  unfolding approve_join_request
  approve_join_request-Keeps n invite entry =
      search
        (
          after_rules, after_quiet, bind-Keeps, ensure_namespace_ready-Keeps,
          run_authenticated-Keeps, quiet-Keeps, wrap_namespace_dek_for-IsQuiet,
          send_approval-IsQuiet,
        )
        depth 24

  submit_join_request-Keeps :
      (invite : NamespaceInviteToken) (opts : NamespaceJoinRequestOptions)
      → Keeps t₀ (submit_join_request e invite opts)
  unfolding submit_join_request
  submit_join_request-Keeps invite opts =
      search (run_authenticated-Keeps, quiet-Keeps, send_join_request-IsQuiet, after_rules) depth 24

  -- Every method on invites, whatever the server, the keystore and the clock answer, on success and on
  -- every error: stored items stay valid and no stored version goes back.
  pub invites-Keeps :
      (n i : Bytes) (invite : NamespaceInviteToken) (entry : NamespaceJoinRequestEntry)
      (opts : NamespaceInviteOptions) (jopts : NamespaceJoinRequestOptions)
      → Keeps t₀ (create_invite e n opts)
        × Keeps t₀ (submit_join_request e invite jopts)
        × Keeps t₀ (join_requests e n)
        × Keeps t₀ (approve_join_request e n invite entry)
        × Keeps t₀ (reject_join_request e n entry)
        × Keeps t₀ (revoke_invite e n i)
        × Keeps t₀ (invites e n)
  unfolding join_requests reject_join_request revoke_invite invites
  invites-Keeps n i invite entry opts jopts = (
    create_invite-Keeps n opts,
    submit_join_request-Keeps invite jopts,
    run_authenticated-Keeps e t₀ (quiet-Keeps t₀ (list_requests-IsQuiet e n)),
    approve_join_request-Keeps n invite entry,
    run_authenticated-Keeps e t₀ (quiet-Keeps t₀ (send_rejection-IsQuiet e n entry)),
    run_authenticated-Keeps e t₀ (quiet-Keeps t₀ (send_revocation-IsQuiet e n i)),
    run_authenticated-Keeps e t₀ (quiet-Keeps t₀ (list_invites-IsQuiet e n)),
  )
