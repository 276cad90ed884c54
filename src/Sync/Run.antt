-- ===== src/Sync/Run.antt =====
-- bitboxsync/engine_run.go and engine_watch.go: one sync pass, and the namespace watch.
pub mod Safe
pub mod Watch
use bitboxsync_client_go.Prelude.{
  ℕ, Bool, true, false, not, List, [], ◌∷◌, Option, none, some, ltb, ◌==◌, length, if◌then◌else◌,
}
use bitboxsync_client_go.Result.{Result, ok, err, closed, rollback, other}
use bitboxsync_client_go.Types.{
  NamespaceState, Dict, get, new_event, sync_started, sync_finished, sync_failed,
}
use bitboxsync_client_go.Api.{NamespaceSummary}
use bitboxsync_client_go.Client
use bitboxsync_client_go.Sqlite.{list_namespaces}
use bitboxsync_client_go.Engine.State.{
  Engine, M, pure, raise, lift, gets, attempt, refuse_if, emit, ◌>>=◌, ◌>>◌,
}
use bitboxsync_client_go.Sync.Identity.{access_token}
use bitboxsync_client_go.Sync.Auth.{run_authenticated}
use bitboxsync_client_go.Sync.Snapshots.{reconcile_local_snapshots}
use bitboxsync_client_go.Sync.Pull.{sync_namespaces}
use bitboxsync_client_go.Sync.Upload.{flush_dirty_items}

-- the known heads, by namespace
unfoldable pub heads_of : List NamespaceState → Dict ℕ
heads_of [] = []
heads_of (n ∷ ns) = (n.namespace_id, n.namespace_head) ∷ heads_of ns

-- one listed namespace against the known head: true to sync, none to go on
unfoldable pub compare_head : Option ℕ → ℕ → Result (Option Bool)
compare_head none head = ok (some true)
compare_head (some known) head =
    if ltb known head then ok (some true) else if ltb head known then err rollback else ok none

-- the loop of namespaceWatchNeedsSync
unfoldable pub any_ahead : Dict ℕ → List NamespaceSummary → Result Bool
any_ahead known [] = ok false
any_ahead known (n ∷ ns) =
    let rest = any_ahead known ns in
    elim (compare_head (get n.namespace_id known) n.namespace_head) [
      | ok none ↦ rest
      | ok (some b) ↦ ok b
      | err x ↦ err x
    ]

module _ {X : Type 0} (e : Engine X) where
  unfoldable pub known_namespace_heads : M X (Dict ℕ)
  known_namespace_heads = do namespaces ← list_namespaces e e.key_id; pure (heads_of namespaces)

  unfoldable pub namespace_watch_needs_sync : List NamespaceSummary → M X Bool
  namespace_watch_needs_sync namespaces = do
    known_heads ← known_namespace_heads
    lift (any_ahead known_heads namespaces)

  -- watchNamespacesOnce up to its request to `Run`: whether it timed out, and the namespaces for
  -- which a sync is wanted
  unfoldable pub watch_namespaces_once : M X (Bool × List NamespaceSummary)
  watch_namespaces_once = do
    (namespaces, timed_out) ← run_authenticated e (do
      known_heads ← known_namespace_heads
      token ← access_token
      Client.watch_namespaces e token known_heads)
    if length namespaces == 0
        then (do
          refuse_if (not timed_out) (other "namespace watch returned no changes without timing out")
          pure (true, []))
        else do
          needs_sync ← namespace_watch_needs_sync namespaces
          pure (false, (if needs_sync then namespaces else []))

  -- the three phases that `SyncNow` runs with a usable token
  unfoldable pub sync_phases : M X (Unit {0})
  sync_phases = do reconcile_local_snapshots e; sync_namespaces e; flush_dirty_items e

  finish_sync : Result (Unit {0}) → M X (Unit {0})
  finish_sync (ok _) = emit e (new_event sync_finished)
  finish_sync (err x) = do emit e (record (new_event sync_failed) { err = some x }); raise x

  unfoldable pub sync_now : M X (Unit {0})
  unfolding finish_sync
  sync_now = do
    is_closed ← gets (λ s. s.closed)
    refuse_if is_closed closed
    emit e (new_event sync_started)
    outcome ← attempt (run_authenticated e sync_phases)
    finish_sync outcome

  -- whether the pass emitted an event of sync activity, and how it ended
  unfoldable pub sync_now_with_activity : M X (Bool × Result (Unit {0}))
  sync_now_with_activity = do
    before ← gets (λ s. s.activity_seq)
    outcome ← attempt sync_now
    after ← gets (λ s. s.activity_seq)
    pure (not (after == before), outcome)
