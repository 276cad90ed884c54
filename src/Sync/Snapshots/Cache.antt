-- ===== src/Sync/Snapshots/Cache.antt =====
-- The scope cache of a pass leaves the items as they are.
use bitboxsync_client_go.Prelude.{Option, none, some}
use bitboxsync_client_go.Prelude.Bytes.{Bytes}
use bitboxsync_client_go.Types.{NamespaceState, Dict}
use bitboxsync_client_go.Engine.State.{Engine}
use bitboxsync_client_go.Engine.Ensures.{Ensures-after, pure-IsQuiet}
use bitboxsync_client_go.Sync.Safe.{Start, Safe}
use bitboxsync_client_go.Sync.Safe.Keeps.{Keeps, quiet-Keeps, bind-Keeps}
use bitboxsync_client_go.Sync.Scope.{NamespaceActiveScope, load_active_scope}
use bitboxsync_client_go.Sync.Scope.Safe.{load_active_scope-AllOwn}
use bitboxsync_client_go.Sync.Snapshots.{cached_scope}

module _ {X : Type 0} (e : Engine X) (t₀ : Start) where
  load_active_scope-Keeps : (ns : NamespaceState) → Keeps t₀ (load_active_scope e ns)
  load_active_scope-Keeps ns =
      Ensures-after (load_active_scope-AllOwn e (Safe t₀) ns) (λ scope t p. p.0)

  pub cached_scope-Keeps :
      (ns : NamespaceState) (id : Bytes) (cache : Dict NamespaceActiveScope)
      (o : Option NamespaceActiveScope)
      → Keeps t₀ (cached_scope e ns id cache o)
  unfolding cached_scope
  cached_scope-Keeps ns id cache (some scope) = quiet-Keeps t₀ (pure-IsQuiet _)
  cached_scope-Keeps ns id cache none =
      bind-Keeps t₀ (load_active_scope-Keeps ns) λ scope. quiet-Keeps t₀ (pure-IsQuiet _)
