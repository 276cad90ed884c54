-- ===== src/Sync/Snapshots/Safe.antt =====
-- Queueing the app's changed values keeps the stored items valid and takes no version back.
use bitboxsync_client_go.Prelude.{true, false, ◌≡◌, refl, Option, none, some}
use native.Mathlib.Nat.{le_refl}
use bitboxsync_client_go.Prelude.Bytes.{Bytes}
use bitboxsync_client_go.Result.{Error, Result, ok, err, is_not_found}
use bitboxsync_client_go.Types.{ItemState}
use bitboxsync_client_go.Engine.State.{
  Engine, Tables, State, attempt, caught, gets, continue, ◌>>=◌,
}
use bitboxsync_client_go.Engine.Ensures.{Ensures, Post}
use bitboxsync_client_go.Sqlite.{get_item_by_logical_key, or_not_found, query}
use bitboxsync_client_go.Sqlite.Rows.{find, has_logical_key}
use bitboxsync_client_go.Sync.Safe.{Start, Safe, Current, DatabaseLaws}
use bitboxsync_client_go.Sync.Safe.Rows.{find-IsStored}
use bitboxsync_client_go.Sync.Safe.Keeps.{Keeps}
use bitboxsync_client_go.Sync.Snapshots.Names.{find_unique}

-- what a search for a logical key leaves
abbrev FoundKey : Start → Bytes → Bytes → Bytes → Bytes → Result ItemState → Tables → Type 0
FoundKey t₀ k n c key (ok item) t = Current t₀ item t
FoundKey t₀ k n c key (err x) t =
    Safe t₀ t × (is_not_found x ≡ true → find (has_logical_key k n c key) t.items ≡ none)

module _ {X : Type 0} (e : Engine X) (t₀ : Start) (laws : DatabaseLaws t₀ e.database) where
  get_item_by_logical_key-Found :
      (k n c key : Bytes)
      → Ensures
          (Safe t₀)
          (attempt (get_item_by_logical_key e k n c key))
          (FoundKey t₀ k n c key)
          (Safe t₀)
  unfolding get_item_by_logical_key attempt query or_not_found ◌>>=◌
  get_item_by_logical_key-Found k n c key = record {
    at = λ s p.
        let (r, x) = e.database.query s.outside in
        asked r (record s { outside = x }) (laws.query_error s.outside) p;
  }
    where
      searched :
          (o : Option ItemState) (s : State X)
          → find (has_logical_key k n c key) s.tables.items ≡ o
          → Safe t₀ s.tables
          → Post (FoundKey t₀ k n c key) (Safe t₀) (attempt (or_not_found e o) s)
      searched none s found p = (p, λ _. found)
      searched (some item) s found p =
          let ((v, fits, named, short), has) = find-IsStored t₀ _ s.tables.items p.valid found in
          record {
            safe = p;
            valid = v;
            named = named;
            newest = λ _. rw (find_unique _ s.tables.items p.unique found) (le_refl item.version);
          }

      asked :
          (r : Result (Unit {0})) (s : State X)
          → ((x : Error) → r ≡ err x → is_not_found x ≡ false)
          → Safe t₀ s.tables
          → Post (FoundKey t₀ k n c key) (Safe t₀) (
              attempt
                (λ _.
                  continue
                    (λ _. gets (λ s. s.tables) >>= λ tables.
                      or_not_found e (find (has_logical_key k n c key) tables.items))
                    (r, s))
                s)
      asked (ok _) s h p = searched (find (has_logical_key k n c key) s.tables.items) s refl p
      asked (err x) s h p = (p, λ yes'. absurd (cc (h x refl, yes')))

  unattempted :
      (k n c key : Bytes) (r : Result ItemState × State X)
      → Post (FoundKey t₀ k n c key) (Safe t₀) (caught r)
      → Post (Current t₀) (Safe t₀) r
  unattempted k n c key (ok item, s) h = h
  unattempted k n c key (err x, s) h = h.0

  pub get_item_by_logical_key-Current :
      (k n c key : Bytes)
      → Ensures (Safe t₀) (get_item_by_logical_key e k n c key) (Current t₀) (Safe t₀)
  unfolding attempt
  get_item_by_logical_key-Current k n c key = record {
    at = λ s p.
        unattempted k n c key (get_item_by_logical_key e k n c key s)
          ((get_item_by_logical_key-Found k n c key).at s p);
  }
