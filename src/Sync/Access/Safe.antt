-- ===== src/Sync/Access/Safe.antt =====
-- What an app calls to reach its namespaces keeps the items safe.
use bitboxsync_client_go.Prelude.{◌==◌, ◌≡◌, length}
use bitboxsync_client_go.Prelude.Bytes.{Bytes}
use bitboxsync_client_go.Types.{IdentityState}
use bitboxsync_client_go.Api.Namespaces.{EnsureDefaultNamespaceResponse}
use bitboxsync_client_go.Client.Namespaces.Quiet.{
  sensitive_action_challenge-IsQuiet, revoke_all_tokens-IsQuiet, ensure_default_namespace-IsQuiet,
  create_shared_namespace-IsQuiet,
}
use bitboxsync_client_go.Engine.State.{Engine}
use bitboxsync_client_go.Engine.Ensures.{IsQuiet, quiet_rules, pure-IsQuiet}
use bitboxsync_client_go.Sync.Safe.{Start, DatabaseLaws}
use bitboxsync_client_go.Sync.Safe.Keeps.{Keeps, quiet-Keeps, bind-Keeps, if-Keeps}
use bitboxsync_client_go.Sync.Safe.Steps.{
  after_quiet, after_lift, after_now, after_call, after_refuse,
}
use bitboxsync_client_go.Sync.Auth.Safe.{
  snapshot-IsQuiet, emit_auth_event-IsQuiet, list_namespaces-IsQuiet, save_namespace-Keeps,
  save_identity_state-Keeps, run_authenticated-Keeps,
}
use bitboxsync_client_go.Sync.Namespaces.Safe.{
  unwrap_namespace_dek-IsQuiet, ensure_namespace_ready-Keeps, join_namespace-Keeps,
}
use bitboxsync_client_go.Sync.Invites.Safe.{wrap_namespace_dek_for-IsQuiet}
use bitboxsync_client_go.Sync.Pull.Safe.{sync_namespaces-Keeps}
use bitboxsync_client_go.Sync.Access.{
  default_dek, save_new_namespace, create_default_namespace, default_from, reach_default_namespace,
  default_namespace, make_shared_namespace, create_new_shared_namespace, open_namespace,
  enter_namespace, list_all_namespaces, log_in, revoke_tokens_once, revoke_every_token,
}

module _ {X : Type 0} (e : Engine X) where
  default_dek-IsQuiet :
      (proposed : Bytes) (resp : EnsureDefaultNamespaceResponse)
      → IsQuiet (default_dek e proposed resp)
  unfolding default_dek
  default_dek-IsQuiet proposed resp = search (quiet_rules, unwrap_namespace_dek-IsQuiet) depth 9

module _ {X : Type 0} (e : Engine X) (t₀ : Start) where
  save_new_namespace-Keeps : (n kind dek : Bytes) → Keeps t₀ (save_new_namespace e n kind dek)
  unfolding save_new_namespace
  save_new_namespace-Keeps n kind dek = after_now t₀ e λ t. save_namespace-Keeps e t₀ _

  create_default-Keeps : (state : IdentityState) → Keeps t₀ (create_default_namespace e state)
  unfolding create_default_namespace
  create_default-Keeps state = after_call t₀ _ λ raw. after_call t₀ _ λ dek.
      after_quiet t₀ (wrap_namespace_dek_for-IsQuiet e _ _ _) λ wrapped.
        after_quiet t₀ (ensure_default_namespace-IsQuiet e _ _) λ resp.
          after_quiet t₀ (default_dek-IsQuiet e _ resp) λ final. after_now t₀ e λ t.
            bind-Keeps t₀ (save_identity_state-Keeps e t₀ _) λ _.
              bind-Keeps t₀ (save_new_namespace-Keeps _ _ _) λ _. quiet-Keeps t₀ (pure-IsQuiet _)

  reach_default-Keeps : Keeps t₀ (reach_default_namespace e)
  unfolding reach_default_namespace default_from
  reach_default-Keeps = after_quiet t₀ snapshot-IsQuiet λ state.
      if-Keeps t₀ (length state.default_namespace_id == 0) (create_default-Keeps state)
        (bind-Keeps t₀ (ensure_namespace_ready-Keeps e t₀ _ _) λ _. quiet-Keeps t₀ (pure-IsQuiet _))

  make_shared-Keeps : Keeps t₀ (make_shared_namespace e)
  unfolding make_shared_namespace
  make_shared-Keeps = after_quiet t₀ snapshot-IsQuiet λ state. after_call t₀ _ λ raw.
      after_call t₀ _ λ dek. after_quiet t₀ (wrap_namespace_dek_for-IsQuiet e _ _ _) λ wrapped.
        after_quiet t₀ (create_shared_namespace-IsQuiet e _ _) λ resp.
          bind-Keeps t₀ (save_new_namespace-Keeps _ _ _) λ _. quiet-Keeps t₀ (pure-IsQuiet _)

  revoke_once-Keeps : Keeps t₀ (revoke_tokens_once e)
  unfolding revoke_tokens_once
  revoke_once-Keeps = after_quiet t₀ snapshot-IsQuiet λ state.
      after_quiet t₀ (sensitive_action_challenge-IsQuiet e _ _) λ answer. after_refuse t₀ _ _ λ _.
        after_lift t₀ _ λ challenge. after_call t₀ _ λ signature.
          after_quiet t₀ (revoke_all_tokens-IsQuiet e _ _) λ _. after_now t₀ e λ t.
            bind-Keeps t₀ (save_identity_state-Keeps e t₀ _)
              λ _. quiet-Keeps t₀ (emit_auth_event-IsQuiet e _ _)

  -- DefaultNamespace, CreateSharedNamespace, Namespace, JoinNamespace, ListNamespaces, Login and
  -- RevokeAllTokens, whatever the server, the keystore and the random source answer, within the laws of
  -- the driver, on success and on every error: stored items stay valid and no stored version goes back.
  pub access-Keeps :
      (n : Bytes)
      → DatabaseLaws t₀ e.database
      → t₀.crypto ≡ e.crypto
      → Keeps t₀ (default_namespace e)
        × Keeps t₀ (create_new_shared_namespace e)
        × Keeps t₀ (open_namespace e n)
        × Keeps t₀ (enter_namespace e n)
        × Keeps t₀ (list_all_namespaces e)
        × Keeps t₀ (log_in e)
        × Keeps t₀ (revoke_every_token e)
  unfolding default_namespace create_new_shared_namespace open_namespace enter_namespace
      list_all_namespaces log_in revoke_every_token
  access-Keeps n laws same = (
    run_authenticated-Keeps e t₀ reach_default-Keeps,
    run_authenticated-Keeps e t₀ make_shared-Keeps,
    run_authenticated-Keeps e t₀ (
        bind-Keeps t₀ (ensure_namespace_ready-Keeps e t₀ n _) λ _. quiet-Keeps t₀ (pure-IsQuiet _)),
    run_authenticated-Keeps e t₀
        (bind-Keeps t₀ (join_namespace-Keeps e t₀ n _) λ _. quiet-Keeps t₀ (pure-IsQuiet _)),
    bind-Keeps t₀
        (run_authenticated-Keeps e t₀ (
          bind-Keeps t₀ (sync_namespaces-Keeps e t₀ laws same)
            λ _. quiet-Keeps t₀ (list_namespaces-IsQuiet e _)))
        λ _. quiet-Keeps t₀ (pure-IsQuiet _),
    run_authenticated-Keeps e t₀
        (bind-Keeps t₀ reach_default-Keeps λ _. quiet-Keeps t₀ (pure-IsQuiet _)),
    run_authenticated-Keeps e t₀ revoke_once-Keeps,
  )
