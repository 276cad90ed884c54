-- ===== src/Types.antt =====
-- bitboxsync/types.go: the persisted states and the events. A time is a number of nanoseconds, 0
-- for Go's zero time; a hash map is a list of pairs whose first entry for a key counts.
use bitboxsync_client_go.Prelude.{
  ℕ, Bool, true, false, List, [], ◌∷◌, Option, none, some, if◌then◌else◌,
}
use bitboxsync_client_go.Prelude.Bytes.{Bytes, bytes_eq}
use bitboxsync_client_go.Result.{Error}

pub record IdentityState : Type 0 where
  pub key_id : Bytes
  pub kind : Bytes
  pub access_token : Bytes
  pub token_expiry : ℕ
  pub default_namespace_id : Bytes
  pub updated_at : ℕ

pub record NamespaceState : Type 0 where
  pub key_id : Bytes
  pub namespace_id : Bytes
  pub kind : Bytes
  pub namespace_head : ℕ  -- uint64
  pub active_scope_hash : Bytes
  pub dek : Bytes
  pub updated_at : ℕ

pub record ItemState : Type 0 where
  pub key_id : Bytes
  pub namespace_id : Bytes
  pub collection : Bytes
  pub key : Bytes
  pub item_id : Bytes
  pub version : ℕ  -- uint64
  pub base_version : ℕ  -- uint64
  pub base_value : Bytes
  pub dirty : Bool
  pub conflict : Bool
  pub conflict_remote_version : ℕ  -- uint64
  pub conflict_remote_value : Bytes
  pub updated_at : ℕ

-- An ItemState literal that names the identifying fields only.
abbrev pub new_item : Bytes → Bytes → Bytes → Bytes → Bytes → ItemState
new_item key_id namespace_id collection key item_id = record {
  key_id = key_id;
  namespace_id = namespace_id;
  collection = collection;
  key = key;
  item_id = item_id;
  version = 0;
  base_version = 0;
  base_value = [];
  dirty = false;
  conflict = false;
  conflict_remote_version = 0;
  conflict_remote_value = [];
  updated_at = 0;
}

pub data EventType : Type 0 where
  auth_login_required auth_refresh_recommended auth_session_ready : EventType
  sync_started sync_finished sync_failed : EventType
  namespace_watch_failed namespace_changed : EventType
  item_changed item_downloaded item_uploaded item_queued : EventType
  conflict_detected unknown_remote_item : EventType

pub record Event : Type 0 where
  pub type : EventType
  pub namespace_id : Bytes
  pub collection : Bytes
  pub key : Bytes
  pub item_id : Bytes
  pub err : Option Error
  pub token_expires_at : ℕ
  pub at : ℕ

abbrev pub new_event : EventType → Event
new_event type = record {
  type = type;
  namespace_id = [];
  collection = [];
  key = [];
  item_id = [];
  err = none;
  token_expires_at = 0;
  at = 0;
}

-- engine_events.go
unfoldable pub is_sync_activity_event : EventType → Bool
is_sync_activity_event namespace_changed = true
is_sync_activity_event item_changed = true
is_sync_activity_event item_downloaded = true
is_sync_activity_event item_uploaded = true
is_sync_activity_event conflict_detected = true
is_sync_activity_event unknown_remote_item = true
is_sync_activity_event _ = false

-- A Go map with string keys: a write goes in front.
abbrev pub Dict {ℓ} : Type ℓ → Type ℓ
Dict V = List (Bytes × V)

module _ {ℓ} {V : Type ℓ} where
  unfoldable pub get : Bytes → Dict V → Option V
  get k [] = none
  get k ((j, v) ∷ m) = if bytes_eq j k then some v else get k m

unfoldable pub contains : Bytes → List Bytes → Bool
contains k [] = false
contains k (j ∷ js) = if bytes_eq j k then true else contains k js
