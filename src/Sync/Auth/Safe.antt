-- ===== src/Sync/Auth/Safe.antt =====
-- Authentication and the rows of identities and namespaces leave the items as they are.
use bitboxsync_client_go.Prelude.{List, ℕ, ◌≡◌, refl, Option, none, some}
use bitboxsync_client_go.Prelude.Bytes.{Bytes}
use bitboxsync_client_go.Result.{Result, ok, err, is_unauthorized_api_error}
use bitboxsync_client_go.Types.{IdentityState, NamespaceState, EventType}
use bitboxsync_client_go.Client.Quiet.{challenge-IsQuiet, login-IsQuiet, refresh-IsQuiet}
use bitboxsync_client_go.Engine.State.{Engine, Tables, M, gets, modify, ◌>>=◌}
use bitboxsync_client_go.Engine.Ensures.{
  IsQuiet, quiet_rules, pure-IsQuiet, raise-IsQuiet, now-IsQuiet,
}
use bitboxsync_client_go.Sqlite.{
  exec, query, stamp, put_rows, or_not_found, save_namespace, save_identity, get_namespace,
  list_namespaces,
}
use bitboxsync_client_go.Sync.Safe.{Start}
use bitboxsync_client_go.Sync.Safe.Keeps.{
  Keeps, quiet-Keeps, bind-Keeps, if-Keeps, attempt-Keeps, modify-Keeps,
}
use bitboxsync_client_go.Sync.Identity.{access_token, identity_state_snapshot, save_identity_state}
use bitboxsync_client_go.Sync.Auth.{
  emit_auth_event, attestation_for, login, refresh, login_required, login_or_require,
  authenticate_at, ensure_authenticated, reauthenticate_after_unauthorized, retry_unauthorized,
  run_authenticated,
}

module _ {X : Type 0} where
  pub access_token-IsQuiet : IsQuiet {X = X} access_token
  unfolding access_token
  access_token-IsQuiet = search quiet_rules

  pub snapshot-IsQuiet : IsQuiet {X = X} identity_state_snapshot
  unfolding identity_state_snapshot
  snapshot-IsQuiet = search quiet_rules

module _ {X : Type 0} (e : Engine X) where
  pub exec-IsQuiet : (args : List ℕ) (texts : List Bytes) → IsQuiet (exec e args texts)
  unfolding exec
  exec-IsQuiet args texts = search quiet_rules

  pub stamp-IsQuiet : (t : ℕ) → IsQuiet (stamp e t)
  unfolding stamp
  stamp-IsQuiet t = search quiet_rules

  pub or_not_found-IsQuiet : {A : Type 0} (o : Option A) → IsQuiet (or_not_found e o)
  unfolding or_not_found
  or_not_found-IsQuiet none = search quiet_rules
  or_not_found-IsQuiet (some a) = search quiet_rules

  pub get_namespace-IsQuiet : (k n : Bytes) → IsQuiet (get_namespace e k n)
  unfolding get_namespace query
  get_namespace-IsQuiet k n = search (or_not_found-IsQuiet, quiet_rules)

  pub list_namespaces-IsQuiet : (k : Bytes) → IsQuiet (list_namespaces e k)
  unfolding list_namespaces query
  list_namespaces-IsQuiet k = search quiet_rules

  pub emit_auth_event-IsQuiet : (type : EventType) (t : ℕ) → IsQuiet (emit_auth_event e type t)
  unfolding emit_auth_event
  emit_auth_event-IsQuiet type t = search quiet_rules

  attestation_for-IsQuiet : (kind challenge : Bytes) → IsQuiet (attestation_for e kind challenge)
  unfolding attestation_for
  attestation_for-IsQuiet kind challenge = search quiet_rules

module _ {X : Type 0} (e : Engine X) (t₀ : Start) where
  put_others-Keeps :
      (f : Tables → Tables)
      → ((t : Tables) → (f t).items ≡ t.items)
      → Keeps t₀ (gets (λ s. s.tables) >>= λ tables. put_rows e (f tables))
  unfolding put_rows ◌>>=◌ modify
  put_others-Keeps f same = record {
    at = λ s p. record {
      grows = λ k n i. rw (same s.tables) (p.grows k n i);
      valid = rw (same s.tables) p.valid;
      unique = rw (same s.tables) p.unique;
    };
  }

  pub save_namespace-Keeps : (state : NamespaceState) → Keeps t₀ (save_namespace e state)
  unfolding save_namespace
  save_namespace-Keeps state = bind-Keeps t₀ (quiet-Keeps t₀ (stamp-IsQuiet e _)) λ t.
      bind-Keeps t₀ (quiet-Keeps t₀ (exec-IsQuiet e _ _)) λ _. put_others-Keeps _ (λ tables. refl)

  save_identity-Keeps : (state : IdentityState) → Keeps t₀ (save_identity e state)
  unfolding save_identity
  save_identity-Keeps state = bind-Keeps t₀ (quiet-Keeps t₀ (stamp-IsQuiet e _)) λ t.
      bind-Keeps t₀ (quiet-Keeps t₀ (exec-IsQuiet e _ _)) λ _. put_others-Keeps _ (λ tables. refl)

  pub save_identity_state-Keeps : (state : IdentityState) → Keeps t₀ (save_identity_state e state)
  unfolding save_identity_state
  save_identity_state-Keeps state =
      bind-Keeps t₀ (quiet-Keeps t₀ (search quiet_rules))
        λ now_at. bind-Keeps t₀ (save_identity-Keeps _) λ _. modify-Keeps t₀ _ (λ s. refl)

  login-Keeps : Keeps t₀ (login e)
  unfolding login
  login-Keeps = bind-Keeps t₀ (quiet-Keeps t₀ (challenge-IsQuiet e _)) λ answer.
      bind-Keeps t₀ (quiet-Keeps t₀ (search quiet_rules)) λ challenge.
        bind-Keeps t₀ (quiet-Keeps t₀ (search quiet_rules)) λ signature.
          bind-Keeps t₀ (quiet-Keeps t₀ (attestation_for-IsQuiet e _ _)) λ attestation.
            bind-Keeps t₀ (quiet-Keeps t₀ (login-IsQuiet e _)) λ resp.
              bind-Keeps t₀ (quiet-Keeps t₀ (search quiet_rules)) λ t.
                bind-Keeps t₀ (save_identity_state-Keeps _)
                  λ _. quiet-Keeps t₀ (emit_auth_event-IsQuiet e _ _)

  refresh-Keeps : Keeps t₀ (refresh e)
  unfolding refresh
  refresh-Keeps = bind-Keeps t₀ (quiet-Keeps t₀ snapshot-IsQuiet) λ state.
      bind-Keeps t₀ (quiet-Keeps t₀ (challenge-IsQuiet e _)) λ answer.
        bind-Keeps t₀ (quiet-Keeps t₀ (search quiet_rules)) λ challenge.
          bind-Keeps t₀ (quiet-Keeps t₀ (search quiet_rules)) λ signature.
            bind-Keeps t₀ (quiet-Keeps t₀ (attestation_for-IsQuiet e _ _)) λ attestation.
              bind-Keeps t₀ (quiet-Keeps t₀ (refresh-IsQuiet e _ _)) λ resp.
                bind-Keeps t₀ (quiet-Keeps t₀ (search quiet_rules)) λ t.
                  bind-Keeps t₀ (save_identity_state-Keeps _)
                    λ _. quiet-Keeps t₀ (emit_auth_event-IsQuiet e _ _)

  login_required-Keeps : (t : ℕ) (r : Result (Unit {0})) → Keeps t₀ (login_required e t r)
  unfolding login_required
  login_required-Keeps t (ok _) = quiet-Keeps t₀ (search quiet_rules)
  login_required-Keeps t (err x) = quiet-Keeps t₀ (search (emit_auth_event-IsQuiet, quiet_rules))

  login_or_require-Keeps : (t : ℕ) → Keeps t₀ (login_or_require e t)
  unfolding login_or_require
  login_or_require-Keeps t = bind-Keeps t₀ (attempt-Keeps t₀ login-Keeps) (login_required-Keeps t)

  authenticate_at-Keeps : (t : ℕ) (state : IdentityState) → Keeps t₀ (authenticate_at e t state)
  unfolding authenticate_at
  authenticate_at-Keeps t state =
      search
        (
          if-Keeps, bind-Keeps, attempt-Keeps, login_or_require-Keeps, refresh-Keeps, quiet-Keeps,
          emit_auth_event-IsQuiet, pure-IsQuiet,
        )
        depth 9

  pub ensure_authenticated-Keeps : Keeps t₀ (ensure_authenticated e)
  unfolding ensure_authenticated
  ensure_authenticated-Keeps = bind-Keeps t₀ (quiet-Keeps t₀ snapshot-IsQuiet) λ state.
      bind-Keeps t₀ (quiet-Keeps t₀ (now-IsQuiet e)) λ now_at. authenticate_at-Keeps now_at state

  reauthenticate-Keeps : (failed : Bytes) → Keeps t₀ (reauthenticate_after_unauthorized e failed)
  unfolding reauthenticate_after_unauthorized
  reauthenticate-Keeps failed = bind-Keeps t₀ (quiet-Keeps t₀ snapshot-IsQuiet) λ state.
      if-Keeps t₀ _ (quiet-Keeps t₀ (pure-IsQuiet tt)) (
        bind-Keeps t₀ (quiet-Keeps t₀ (now-IsQuiet e))
          λ t. bind-Keeps t₀ (save_identity_state-Keeps _) λ _. login_or_require-Keeps 0)

  retry-Keeps :
      {A : Type 0} {fn : M X A} (failed : Bytes) (r : Result A)
      → Keeps t₀ fn
      → Keeps t₀ (retry_unauthorized e fn failed r)
  unfolding retry_unauthorized
  retry-Keeps failed (ok a) h = quiet-Keeps t₀ (search quiet_rules)
  retry-Keeps failed (err x) h =
      if-Keeps t₀ (is_unauthorized_api_error x) (bind-Keeps t₀ (reauthenticate-Keeps failed) λ _. h)
        (quiet-Keeps t₀ (raise-IsQuiet x))

  -- runAuthenticated keeps the items safe when its function does: login, refresh and the retry
  -- leave them alone.
  pub run_authenticated-Keeps :
      {A : Type 0} {fn : M X A} → Keeps t₀ fn → Keeps t₀ (run_authenticated e fn)
  unfolding run_authenticated
  run_authenticated-Keeps h = bind-Keeps t₀ ensure_authenticated-Keeps λ _.
      bind-Keeps t₀ (quiet-Keeps t₀ access_token-IsQuiet)
        λ failed. bind-Keeps t₀ (attempt-Keeps t₀ h) λ r. retry-Keeps failed r h
