-- ===== src/Sync/Items/Safe.antt =====
-- Applying a downloaded value keeps the stored items valid and never takes a version back.
use bitboxsync_client_go.Prelude.{
  ℕ, ◌≤◌, ◌≡◌, Bool, true, false, arith, not_ltb→le, not_leb→lt, Bool-cases, inl, inr, [], leb,
  length, ◌==◌,
}
use bitboxsync_client_go.Prelude.Bytes.{Bytes, bytes_eq}
use bitboxsync_client_go.Result.{Result, ok, err, is_not_found}
use bitboxsync_client_go.Types.{ItemState, NamespaceState, EventType}
use bitboxsync_client_go.Client.Quiet.{get_item-IsQuiet}
use bitboxsync_client_go.Engine.State.{Engine, Tables, M, emit_item, ◌>>◌}
use bitboxsync_client_go.Engine.Ensures.{
  Ensures, IsQuiet, Ensures-pure, Ensures-raise, Ensures-if, Ensures-bind, Ensures-weaken,
  Ensures-quiet, bind-quiet, bind-lift, bind-refuse, emit_item-IsQuiet, now-IsQuiet,
  attempt-IsQuiet, gets-IsQuiet,
}
use bitboxsync_client_go.Sqlite.{save_item}
use bitboxsync_client_go.Sync.Safe.{Start, IsNamed, IsValid, Safe, Current, DatabaseLaws}
use bitboxsync_client_go.Sync.Safe.Store.{save_item-Safe, get_item_by_id-Found, Found}
use bitboxsync_client_go.Sync.Identity.{access_token}
use bitboxsync_client_go.Sync.Marks.{mark_item_dirty}
use bitboxsync_client_go.Sync.Marks.Valid.{
  mark_item_clean-Current, mark_item_dirty-Current, mark_item_dirty_with_base-Current,
  mark_item_conflict-Current, version-mark_item_dirty,
}
use bitboxsync_client_go.Sync.Values.Quiet.{
  item_current_value-IsQuiet, set_item_current_value-IsQuiet, apply_merge-IsQuiet,
}
use bitboxsync_client_go.Sync.Items.{
  keep_dirty_after_value_race, apply_clean_remote_value, save_merged, mark_merged, store_merge,
  merge_remote_value, meet_clean_item, apply_remote_value_locked, apply_fetched_item,
  fetch_and_apply_remote_item, fetch_and_apply_remote_item_for_conflict_locked,
}

module _ {X : Type 0} (e : Engine X) (t₀ : Start) (laws : DatabaseLaws t₀ e.database) where
  -- a method that leaves the tables safe, whether it returns or fails, from a current item on
  abbrev pub KeepsSafe : ItemState → M X (Unit {0}) → Type 0
  KeepsSafe item m = Ensures (Current t₀ item) m (λ _. Safe t₀) (Safe t₀)

  quiet-Safe : {A : Type 0} {m : M X A} → IsQuiet m → Ensures (Safe t₀) m (λ _. Safe t₀) (Safe t₀)
  quiet-Safe q = Ensures-quiet q (λ t p. p) (λ a t p. p)

  keep_dirty-Safe : (item : ItemState) → KeepsSafe item (keep_dirty_after_value_race e item)
  unfolding keep_dirty_after_value_race
  keep_dirty-Safe item =
      bind-quiet (now-IsQuiet e) (λ t c. c.safe)
        λ now_at.
          Ensures-bind
            (Ensures-weaken (λ t c. mark_item_dirty-Current now_at c) (save_item-Safe e t₀ laws _))
            λ _. quiet-Safe (emit_item-IsQuiet e _ _)

  save_and_emit-Safe :
      (item : ItemState) (type : EventType)
      → KeepsSafe item (save_item e item >> emit_item e item type)
  save_and_emit-Safe item type =
      Ensures-bind (save_item-Safe e t₀ laws item) λ _. quiet-Safe (emit_item-IsQuiet e item type)

  module _ (item : ItemState) (v : ℕ) (value : Bytes) (le : item.version ≤ v) where
    apply_clean-Safe :
        (current : Bytes) (found : Bool)
        → KeepsSafe item (apply_clean_remote_value e item v value current found)
    unfolding apply_clean_remote_value
    apply_clean-Safe current found =
        bind-quiet (set_item_current_value-IsQuiet item current found value) (λ t c. c.safe)
          λ replaced.
            Ensures-if replaced _ _
              (λ _.
                bind-quiet (now-IsQuiet e) (λ t c. c.safe)
                  λ now_at.
                    Ensures-bind
                      (Ensures-weaken (λ t c. mark_item_clean-Current now_at c v value le)
                        (save_item-Safe e t₀ laws _))
                      λ _.
                        Ensures-bind (quiet-Safe (emit_item-IsQuiet e _ _))
                          λ _. quiet-Safe (emit_item-IsQuiet e _ _))
              (λ _. keep_dirty-Safe item)

    mark_merged-Current :
        (now_at : ℕ) (merged : Bytes) (t : Tables)
        → Current t₀ item t
        → Current t₀ (mark_merged now_at item v value merged) t
    unfolding mark_merged
    mark_merged-Current now_at merged t c = elim (Bool-cases (bytes_eq merged value)) [
      | inl same ↦ rw same (mark_item_clean-Current now_at c v value le)
      | inr other' ↦ rw other' (mark_item_dirty_with_base-Current now_at c v value le)
    ]

    store_merge-Safe :
        (local : Bytes) (outcome : Bytes × Bool)
        → KeepsSafe item (store_merge e item v value local outcome)
    unfolding store_merge save_merged
    store_merge-Safe local (merged, true) =
        bind-quiet (set_item_current_value-IsQuiet item local true merged) (λ t c. c.safe)
          λ replaced.
            Ensures-if replaced _ _
              (λ _.
                bind-quiet (now-IsQuiet e) (λ t c. c.safe)
                  λ now_at.
                    Ensures-weaken (mark_merged-Current now_at merged) (save_and_emit-Safe _ _))
              (λ _. keep_dirty-Safe item)
    store_merge-Safe local (merged, false) =
        bind-quiet (now-IsQuiet e) (λ t c. c.safe)
          λ now_at.
            Ensures-weaken (λ t c. mark_item_conflict-Current now_at c v value le)
              (save_and_emit-Safe _ _)

    merge_remote-Safe :
        (ns : NamespaceState) (local : Bytes)
        → KeepsSafe item (merge_remote_value e ns item v value local)
    unfolding merge_remote_value
    merge_remote-Safe ns local =
        Ensures-if (bytes_eq local value) _ _ (λ _. apply_clean-Safe local true)
          λ _. bind-quiet (apply_merge-IsQuiet _ _ _ _ _ _) (λ t c. c.safe) (store_merge-Safe local)

  module _ (ns : NamespaceState) (v : ℕ) (value : Bytes) where
    meet_clean-Safe :
        (item : ItemState) (r : Result Bytes)
        → item.version ≤ v
        → KeepsSafe item (meet_clean_item e ns item v value r)
    unfolding meet_clean_item
    meet_clean-Safe item (ok local) le =
        Ensures-if _ _ _ (λ _. apply_clean-Safe item v value le local true)
          λ _.
            bind-quiet (now-IsQuiet e) (λ t c. c.safe)
              λ now_at.
                Ensures-weaken (λ t c. mark_item_dirty-Current now_at c)
                  (merge_remote-Safe (mark_item_dirty now_at item) v value
                    (rw (version-mark_item_dirty now_at item) le) ns local)
    meet_clean-Safe item (err x) le =
        Ensures-if _ _ _ (λ _. apply_clean-Safe item v value le [] false)
          λ _. Ensures-raise x (λ t c. c.safe)

    -- applyRemoteValueLocked, from a valid, named item that is not behind the stored one and for a
    -- remote version that is not behind the item: on every branch and error stored items stay
    -- valid and no stored version goes back.
    pub apply_remote_value_locked-Safe :
        (item : ItemState)
        → item.version ≤ v
        → KeepsSafe item (apply_remote_value_locked e ns item v value)
    unfolding apply_remote_value_locked
    apply_remote_value_locked-Safe item le =
        Ensures-if item.conflict _ _
          (λ _.
            bind-quiet (now-IsQuiet e) (λ t c. c.safe)
              λ now_at.
                Ensures-weaken (λ t c. mark_item_conflict-Current now_at c v value le)
                  (save_and_emit-Safe _ _))
          λ _.
            Ensures-if item.dirty _ _
              (λ _.
                bind-quiet (item_current_value-IsQuiet item) (λ t c. c.safe)
                  (merge_remote-Safe item v value le ns))
              λ _.
                bind-quiet (attempt-IsQuiet (item_current_value-IsQuiet item)) (λ t c. c.safe)
                  λ r. meet_clean-Safe item r le

    apply_fetched-Safe :
        (k : Bytes) (item : ItemState) (r : Result ItemState)
        → IsValid item
        → IsNamed t₀.crypto item
        → item.key_id ≡ k
        → Ensures
            (Found t₀ k item.namespace_id item.item_id r)
            (apply_fetched_item e ns item v value r)
            (λ _. Safe t₀)
            (Safe t₀)
    unfolding apply_fetched_item
    apply_fetched-Safe k item (ok current) h name mine =
        Ensures-if (leb v current.version) _ _ (λ _. Ensures-pure tt (λ t f. f.0.safe))
          λ newer.
            Ensures-weaken (λ t f. f.0)
              (apply_remote_value_locked-Safe current
                (omega (arith, not_leb→lt v current.version newer)))
    apply_fetched-Safe k item (err x) h name mine =
        Ensures-if (is_not_found x) _ _
          (λ missing.
            Ensures-if (length item.key_id == 0) _ _ (λ _. Ensures-pure tt (λ t f. f.0))
              λ _.
                Ensures-if (leb v item.version) _ _ (λ _. Ensures-pure tt (λ t f. f.0))
                  λ newer.
                    Ensures-weaken
                      (λ t f. record {
                        safe = f.0;
                        valid = h;
                        named = name;
                        newest = λ _. rw mine (omega (arith, f.1 missing));
                      })
                      (apply_remote_value_locked-Safe item
                        (omega (arith, not_leb→lt v item.version newer))))
          (λ _. Ensures-raise x (λ t f. f.0))

  -- fetchAndApplyRemoteItem, for a valid item of this engine that is named by its logical key, and
  -- whatever the server, the backend and the driver answer: on success and on every error stored
  -- items stay valid and no stored version goes back.
  pub fetch_and_apply_remote_item-Safe :
      (ns : NamespaceState) (item : ItemState) (v : ℕ)
      → IsValid item
      → IsNamed t₀.crypto item
      → item.key_id ≡ e.key_id
      → Ensures (Safe t₀) (fetch_and_apply_remote_item e ns item v) (λ _. Safe t₀) (Safe t₀)
  unfolding fetch_and_apply_remote_item access_token
  fetch_and_apply_remote_item-Safe ns item v h name mine =
      bind-quiet (gets-IsQuiet _) (λ t p. p)
        λ token.
          bind-quiet (get_item-IsQuiet e _ _ _) (λ t p. p)
            λ resp.
              bind-refuse _ _ (λ t p. p)
                λ _.
                  bind-lift (λ t p. p)
                    λ value _.
                      bind-refuse _ _ (λ t p. p)
                        λ _.
                          Ensures-bind (get_item_by_id-Found e t₀ laws _ _ _) λ r.
                            apply_fetched-Safe ns resp.version value e.key_id item r h name mine

  -- fetchAndApplyRemoteItemForConflictLocked, from a valid, named item that is not behind the
  -- stored one, and whatever the server answers: on success and on every error stored items stay
  -- valid and no stored version goes back.
  pub fetch_and_apply_for_conflict-Safe :
      (ns : NamespaceState) (item : ItemState)
      → KeepsSafe item (fetch_and_apply_remote_item_for_conflict_locked e ns item)
  unfolding fetch_and_apply_remote_item_for_conflict_locked access_token
  fetch_and_apply_for_conflict-Safe ns item =
      bind-quiet (gets-IsQuiet _) (λ t c. c.safe)
        λ token.
          bind-quiet (get_item-IsQuiet e _ _ _) (λ t c. c.safe)
            λ resp.
              bind-refuse _ _ (λ t c. c.safe)
                λ fresh.
                  bind-lift (λ t c. c.safe)
                    λ value _.
                      apply_remote_value_locked-Safe ns resp.version value item
                        (not_ltb→le resp.version item.version fresh)
