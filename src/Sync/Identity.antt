-- ===== src/Sync/Identity.antt =====
-- bitboxsync/engine_auth.go: the identity state of the engine.
use bitboxsync_client_go.Prelude.{ℕ, length, ◌==◌, if◌then◌else◌}
use bitboxsync_client_go.Prelude.Bytes.{Bytes}
use bitboxsync_client_go.Types.{IdentityState}
use bitboxsync_client_go.Sqlite.{save_identity}
use bitboxsync_client_go.Engine.State.{Engine, M, pure, gets, modify, now, ◌>>=◌, ◌>>◌}

module _ {X : Type 0} where
  unfoldable pub identity_state_snapshot : M X IdentityState
  identity_state_snapshot = gets (λ s. s.identity_state)

  unfoldable pub access_token : M X Bytes
  access_token = gets (λ s. s.identity_state.access_token)

  -- the fields that are still empty, filled in
  unfoldable pub complete_identity : Engine X → ℕ → IdentityState → IdentityState
  complete_identity e now_at state = record state {
    key_id = if length state.key_id == 0 then e.key_id else state.key_id;
    kind = if length state.kind == 0 then e.identity.kind else state.kind;
    updated_at = if state.updated_at == 0 then now_at else state.updated_at;
  }

  unfoldable pub save_identity_state : Engine X → IdentityState → M X (Unit {0})
  save_identity_state e state = do
    now_at ← if state.updated_at == 0 then now e else pure 0
    let completed = complete_identity e now_at state
    save_identity e completed
    modify (λ s. record s { identity_state = completed })
