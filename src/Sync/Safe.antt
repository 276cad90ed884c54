-- ===== src/Sync/Safe.antt =====
-- What every method keeps of the stored items: each is valid, and no version goes back.
pub mod Rows
pub mod Store
pub mod Keeps
pub mod Steps
pub mod Refine
use bitboxsync_client_go.Prelude.{
  ℕ, ◌≤◌, ◌<◌, ◌^◌, Bool, true, false, [], ◌∷◌, List, Option, none, some, ◌≡◌, All, length,
}
use bitboxsync_client_go.Prelude.Bytes.{Bytes}
use bitboxsync_client_go.Types.{ItemState}
use bitboxsync_client_go.Keys.{compose_logical_key}
use bitboxsync_client_go.Protocol.Crypto.{Crypto}
use bitboxsync_client_go.Protocol.Hex.{encode_to_string}
use bitboxsync_client_go.Sqlite.Rows.{find, has_item_id}
use bitboxsync_client_go.Result.{Error, ok, err, is_not_found}
use bitboxsync_client_go.Engine.State.{Tables, Database}

-- The item's flags, versions and conflict fields agree.
pub record IsValid (item : ItemState) : Type 0 where
  pub conflict_dirty : item.conflict ≡ true → item.dirty ≡ true
  pub conflict_version : item.conflict ≡ true → item.conflict_remote_version ≡ item.version
  pub no_conflict_version : item.conflict ≡ false → item.conflict_remote_version ≡ 0
  pub no_conflict_value : item.conflict ≡ false → item.conflict_remote_value ≡ []
  pub clean_base : item.dirty ≡ false → item.base_version ≡ item.version
  pub base-le : item.base_version ≤ item.version

-- What a sync starts from: the tables, the cryptography of its engine, and the names in play: the item
-- IDs with the collection and the key that they may be stored for.
pub record Start : Type 1 where
  pub tables : Tables
  pub crypto : Crypto
  pub in_play : Bytes → Bytes → Bytes → Type 0

-- The item's ID is the one of its logical key, under some DEK.
pub record IsNamed (c : Crypto) (item : ItemState) : Type 0 where
  pub map_key : Bytes
  pub named :
      item.item_id
      ≡ encode_to_string (c.hmac_sha256 map_key (compose_logical_key item.collection item.key))

-- SQLite takes texts of less than 2^31 bytes.
abbrev pub FitsText : Bytes → Type 0
FitsText text = length text < 2 ^ 31

-- the item's name can be stored
abbrev pub IsTaken : Start → ItemState → Type 0
IsTaken t₀ item =
    FitsText item.collection × FitsText item.key × t₀.in_play item.item_id item.collection item.key

-- A stored item is valid and named, and the driver took its version and its texts.
abbrev pub IsStored : Start → ItemState → Type 0
IsStored t₀ item = IsValid item × (item.version < 2 ^ 63) × IsNamed t₀.crypto item × IsTaken t₀ item

-- No two rows have one primary key.
abbrev pub IsUnique : List ItemState → Type 0
IsUnique [] = Unit
IsUnique (x ∷ xs) = (find (has_item_id x.key_id x.namespace_id x.item_id) xs ≡ none) × IsUnique xs

abbrev pub version_of : Option ItemState → ℕ
version_of none = 0
version_of (some item) = item.version

-- The version under which an item is stored, 0 where it is not.
abbrev pub stored_version : Bytes → Bytes → Bytes → List ItemState → ℕ
stored_version key_id namespace_id item_id items =
    version_of (find (has_item_id key_id namespace_id item_id) items)

-- From `t₀` on: no stored version is below what it was, and all items are valid.
pub record Safe (t₀ : Start) (t : Tables) : Type 0 where
  pub grows :
      (key_id namespace_id item_id : Bytes)
      → stored_version key_id namespace_id item_id t₀.tables.items
        ≤ stored_version key_id namespace_id item_id t.items
  pub valid : All (IsStored t₀) t.items
  pub unique : IsUnique t.items

-- The item at hand is valid, named and, if its key can be stored, at least as new as the one that
-- is stored under its ID.
pub record Current (t₀ : Start) (item : ItemState) (t : Tables) : Type 0 where
  pub safe : Safe t₀ t
  pub valid : IsValid item
  pub named : IsNamed t₀.crypto item
  pub newest :
      IsTaken t₀ item
      → stored_version item.key_id item.namespace_id item.item_id t.items ≤ item.version

-- HMAC-SHA256 gives 32 bytes, and it has no collision among the names in play.
pub record HmacLaws (t₀ : Start) : Type 0 where
  pub hmac_length : (key message : Bytes) → length (t₀.crypto.hmac_sha256 key message) ≡ 32
  pub hmac_collision_free :
      (k k' collection collection' key key' : Bytes)
      → t₀.in_play
          (encode_to_string (t₀.crypto.hmac_sha256 k (compose_logical_key collection key)))
          collection
          key
      → t₀.in_play
          (encode_to_string (t₀.crypto.hmac_sha256 k' (compose_logical_key collection' key')))
          collection'
          key'
      → t₀.crypto.hmac_sha256 k (compose_logical_key collection key)
        ≡ t₀.crypto.hmac_sha256 k' (compose_logical_key collection' key')
      → compose_logical_key collection key ≡ compose_logical_key collection' key'

-- the arguments of SaveItem's statement that can be refused
abbrev pub item_numbers : ItemState → List ℕ
item_numbers row = row.version ∷ row.base_version ∷ row.conflict_remote_version ∷ []

abbrev pub item_texts : ItemState → List Bytes
item_texts row = row.key_id ∷ row.namespace_id ∷ row.collection ∷ row.key ∷ row.item_id ∷ []

-- What database/sql and SQLite document, and what they cannot know: a uint64 with its high bit set
-- and a text beyond SQLite's limit are refused, and no error is this package's ErrNotFound. And what
-- `t₀` says of the run: the items that the driver is asked to save and saves have names in play.
-- Where every name is in play, that says nothing.
pub record DatabaseLaws {X : Type 0} (t₀ : Start) (d : Database X) : Type 0 where
  pub exec_high_bit :
      (args : List ℕ) (texts : List Bytes) (x : X)
      → (d.exec args texts x).0 ≡ ok tt
      → All (λ n. n < 2 ^ 63) args
  pub exec_long_text :
      (args : List ℕ) (texts : List Bytes) (x : X)
      → (d.exec args texts x).0 ≡ ok tt
      → All FitsText texts
  pub exec_in_play :
      (row : ItemState) (x : X)
      → (d.exec (item_numbers row) (item_texts row) x).0 ≡ ok tt
      → t₀.in_play row.item_id row.collection row.key
  pub query_error : (x : X) (r : Error) → (d.query x).0 ≡ err r → is_not_found r ≡ false
