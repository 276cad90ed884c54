-- ===== src/Sync/Namespaces/Safe.antt =====
-- Joining a namespace and making it ready leave the items as they are.
use bitboxsync_client_go.Prelude.Bytes.{Bytes}
use bitboxsync_client_go.Result.{Result, ok, err}
use bitboxsync_client_go.Types.{NamespaceState}
use bitboxsync_client_go.Client.Quiet.{get_wrapped_dek-IsQuiet}
use bitboxsync_client_go.Engine.State.{Engine}
use bitboxsync_client_go.Engine.Ensures.{
  IsQuiet, quiet_rules, attempt-IsQuiet, now-IsQuiet, pure-IsQuiet, lift-IsQuiet, raise-IsQuiet,
  refuse_if-IsQuiet,
}
use bitboxsync_client_go.Sync.Safe.{Start}
use bitboxsync_client_go.Sync.Safe.Keeps.{Keeps, quiet-Keeps, bind-Keeps, if-Keeps}
use bitboxsync_client_go.Sync.Auth.Safe.{
  get_namespace-IsQuiet, access_token-IsQuiet, save_namespace-Keeps, ensure_authenticated-Keeps,
}
use bitboxsync_client_go.Sync.Namespaces.{
  unwrap_namespace_dek, get_namespace_state, or_new_namespace, join_namespace, join_ready,
  ready_from, ensure_namespace_ready,
}

module _ {X : Type 0} (e : Engine X) where
  pub unwrap_namespace_dek-IsQuiet : (n w : Bytes) → IsQuiet (unwrap_namespace_dek e n w)
  unfolding unwrap_namespace_dek
  unwrap_namespace_dek-IsQuiet n w = search quiet_rules

  pub get_namespace_state-IsQuiet : (n : Bytes) → IsQuiet (get_namespace_state e n)
  unfolding get_namespace_state
  get_namespace_state-IsQuiet n = get_namespace-IsQuiet e e.key_id n

  pub or_new_namespace-IsQuiet :
      (n kind : Bytes) (r : Result NamespaceState) → IsQuiet (or_new_namespace e n kind r)
  unfolding or_new_namespace
  or_new_namespace-IsQuiet n kind (ok state) = search quiet_rules
  or_new_namespace-IsQuiet n kind (err x) = search quiet_rules

module _ {X : Type 0} (e : Engine X) (t₀ : Start) where
  pub join_namespace-Keeps : (n kind : Bytes) → Keeps t₀ (join_namespace e n kind)
  unfolding join_namespace
  join_namespace-Keeps n kind = bind-Keeps t₀ (quiet-Keeps t₀ access_token-IsQuiet) λ token.
      bind-Keeps t₀ (quiet-Keeps t₀ (get_wrapped_dek-IsQuiet e _ _ _)) λ encoded.
        bind-Keeps t₀ (quiet-Keeps t₀ (lift-IsQuiet _)) λ wrapped.
          bind-Keeps t₀ (quiet-Keeps t₀ (unwrap_namespace_dek-IsQuiet e _ _)) λ dek.
            bind-Keeps t₀ (quiet-Keeps t₀ (attempt-IsQuiet (get_namespace_state-IsQuiet e _)))
              λ found. bind-Keeps t₀ (quiet-Keeps t₀ (or_new_namespace-IsQuiet e _ _ _)) λ state.
                bind-Keeps t₀ (quiet-Keeps t₀ (now-IsQuiet e)) λ t.
                  bind-Keeps t₀ (save_namespace-Keeps e t₀ _) λ _. quiet-Keeps t₀ (pure-IsQuiet _)

  join_ready-Keeps : (n kind : Bytes) → Keeps t₀ (join_ready e n kind)
  unfolding join_ready
  join_ready-Keeps n kind = bind-Keeps t₀ (ensure_authenticated-Keeps e t₀) λ _.
      bind-Keeps t₀ (join_namespace-Keeps n kind) λ joined.
        bind-Keeps t₀ (quiet-Keeps t₀ (refuse_if-IsQuiet _ _)) λ _. quiet-Keeps t₀ (pure-IsQuiet _)

  ready_from-Keeps : (n kind : Bytes) (r : Result NamespaceState) → Keeps t₀ (ready_from e n kind r)
  unfolding ready_from
  ready_from-Keeps n kind (ok state) =
      if-Keeps t₀ _ (join_ready-Keeps n kind) (
        bind-Keeps t₀ (quiet-Keeps t₀ (refuse_if-IsQuiet _ _)) λ _. quiet-Keeps t₀ (pure-IsQuiet _))
  ready_from-Keeps n kind (err x) =
      if-Keeps t₀ _ (join_ready-Keeps n kind) (quiet-Keeps t₀ (raise-IsQuiet x))

  pub ensure_namespace_ready-Keeps : (n kind : Bytes) → Keeps t₀ (ensure_namespace_ready e n kind)
  unfolding ensure_namespace_ready
  ensure_namespace_ready-Keeps n kind =
      bind-Keeps t₀ (quiet-Keeps t₀ (attempt-IsQuiet (get_namespace_state-IsQuiet e _)))
        λ r. ready_from-Keeps n kind r
