-- ===== src/Sync/Safe/Refine.antt =====
-- storage/sqlite/store.go: the table of items as a finite map from primary keys to items.
use bitboxsync_client_go.Prelude.{
  ℕ, ◌≢◌, ◌==◌, Bool-cases, inl, inr, arith, ◌≡◌, refl, sym, ◌∙◌, Option, none, some, if◌then◌else◌,
}
use bitboxsync_client_go.Prelude.Bytes.{Bytes}
use bitboxsync_client_go.Types.{ItemState}
use bitboxsync_client_go.Engine.State.{Engine, Tables, State, modify, raise, pure, now, call}
use bitboxsync_client_go.Engine.Ensures.{
  Ensures, Post, bind-quiet, bind-refuse, bind-tables, call-IsQuiet, Ensures-bind,
}
use bitboxsync_client_go.Sqlite.{stamp, query, or_not_found, put_rows, save_item, get_item_by_id}
use bitboxsync_client_go.Sqlite.Rows.{find, upsert, same_item, has_item_id}
use bitboxsync_client_go.Sync.Auth.Safe.{exec-IsQuiet}
use bitboxsync_client_go.Sync.Safe.Rows.{find-upsert}

-- The abstract store: an item, or none, for every key ID, namespace and item ID.
abbrev pub ItemMap : Type 0
ItemMap = Bytes → Bytes → Bytes → Option ItemState

-- the map with this item in the place of its primary key
pub assign : ItemState → ItemMap → ItemMap
assign item m k n i = if has_item_id k n i item then some item else m k n i

-- the rows hold what the map says, in whatever order
pub record Represents (m : ItemMap) (t : Tables) : Type 0 where
  pub finds : (k n i : Bytes) → find (has_item_id k n i) t.items ≡ m k n i

Represents-upsert :
    (m : ItemMap) (t : Tables) (item : ItemState)
    → Represents m t
    → Represents (assign item m) (record t { items = upsert same_item item t.items })
unfolding assign
Represents-upsert m t item r = record {
  finds = λ k n i. rw (find-upsert k n i item t.items, r.finds k n i) refl;
}

-- the time that SaveItem writes: the item's own, and for an item that has none an answer of the clock
pub record IsStamp {X : Type 0} (e : Engine X) (own saved_at : ℕ) : Type 0 where
  pub kept : own ≢ 0 → saved_at ≡ own
  pub asked : own ≡ 0 → (x : X) × (saved_at ≡ (e.now x).0)

module _ {X : Type 0} (e : Engine X) where
  stamp-IsStamp :
      {P : Tables → Type 0} (own : ℕ)
      → Ensures P (stamp e own) (λ saved_at t. P t × IsStamp e own saved_at) P
  unfolding stamp now call pure
  stamp-IsStamp {P} own = elim (Bool-cases (own == 0)) [
    | inl none' ↦
        let z : own ≡ 0 = ground arith in
        rw none' record {
          at = λ s p.
              (p, record { kept = λ some'. absurd (some' z); asked = λ _. (s.outside, refl) });
        }
    | inr some' ↦
        let nz : own ≢ 0 = ground arith in
        rw some' record { at = λ s p. (p, record { kept = λ _. refl; asked = λ z. absurd (nz z) }) }
  ]

module _ {X : Type 0} (e : Engine X) (m : ItemMap) where
  -- the item is assigned, with its time
  abbrev pub Saved : ItemState → Tables → Type 0
  Saved item t =
      (saved_at : ℕ) × IsStamp e item.updated_at saved_at
      × Represents (assign (record item { updated_at = saved_at }) m) t

  save_item-assign :
      (item : ItemState)
      → Ensures {X = X} (Represents m) (save_item e item) (λ _. Saved item) (Represents m)
  unfolding save_item put_rows modify
  save_item-assign item = Ensures-bind (stamp-IsStamp e item.updated_at) λ saved_at.
      bind-quiet (exec-IsQuiet e _ _) (λ t (r, _). r)
        λ _. bind-tables λ tables.
          bind-refuse _ _ (λ t ((r, _), same). r)
            λ _. record {
              at = λ s ((r, stamped), same). rw same (
                saved_at,
                stamped,
                Represents-upsert m s.tables (record item { updated_at = saved_at }) r,
              );
            }

  get_item-map :
      (k n i : Bytes)
      → Ensures {X = X}
          (Represents m)
          (get_item_by_id e k n i)
          (λ item t. Represents m t × (m k n i ≡ some item))
          (Represents m)
  unfolding get_item_by_id query or_not_found raise pure
  get_item-map k n i =
      bind-quiet (call-IsQuiet _) (λ t r. r)
        λ _. bind-tables λ tables. record {
          at = λ s (r, same). rw same (searched (find (has_item_id k n i) s.tables.items) s r refl);
        }
    where
      searched :
          (o : Option ItemState) (s : State X)
          → Represents m s.tables
          → find (has_item_id k n i) s.tables.items ≡ o
          → Post
              (λ item t. Represents m t × (m k n i ≡ some item))
              (Represents m)
              (or_not_found e o s)
      searched none s r found = r
      searched (some item) s r found = (r, sym (r.finds k n i) ∙ found)

  -- The rows of items implement a finite map, whatever the driver answers: SaveItem that succeeds
  -- assigns the item, with its own time or the clock's where it has none, to its primary key and changes no other; GetItemByID
  -- that succeeds returns what the map holds; and a failure of either leaves the map as it was.
  pub store_refines_map :
      (item : ItemState) (k n i : Bytes)
      → Ensures {X = X} (Represents m) (save_item e item) (λ _. Saved item) (Represents m)
        × Ensures {X = X}
            (Represents m)
            (get_item_by_id e k n i)
            (λ found t. Represents m t × (m k n i ≡ some found))
            (Represents m)
  store_refines_map item k n i = (save_item-assign item, get_item-map k n i)
