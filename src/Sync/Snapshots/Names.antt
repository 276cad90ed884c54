-- ===== src/Sync/Snapshots/Names.antt =====
-- What the store knows of a logical key, and of the item ID that belongs to it.
use bitboxsync_client_go.Prelude.{
  Bool, true, false, ◌≡◌, refl, List, [], ◌∷◌, none, some, arith, All, Bool-cases, Option-cases,
  inl, inr, length, ◌==◌,
}
use bitboxsync_client_go.Prelude.Bytes.{Bytes, bytes_eq_iff}
use bitboxsync_client_go.Types.{ItemState}
use bitboxsync_client_go.Keys.Injective.{two_part_keys_inj}
use mathlib.Core.Path.{subst}
use bitboxsync_client_go.Keys.{compose_logical_key}
use bitboxsync_client_go.Protocol.Hex.{encode_to_string}
use bitboxsync_client_go.Protocol.Hex.Injective.{encode_to_string_inj}
use bitboxsync_client_go.Sqlite.Rows.{find, has_item_id, has_logical_key}
use bitboxsync_client_go.Sync.Safe.{
  IsNamed, Start, IsStored, IsUnique, IsTaken, HmacLaws, stored_version,
}
use bitboxsync_client_go.Sync.Safe.Rows.{find-IsStored, has_item_id_self, has_item_id_iff}
use bitboxsync_client_go.Sync.Snapshots.{with_item_id}

pub has_logical_key_iff :
    (k n c key : Bytes) (row : ItemState)
    → has_logical_key k n c key row ≡ true
    → (row.key_id ≡ k) × (row.namespace_id ≡ n) × (row.collection ≡ c) × (row.key ≡ key)
unfolding has_logical_key
has_logical_key_iff k n c key row h = ground (
  arith,
  bytes_eq_iff row.key_id k,
  bytes_eq_iff row.namespace_id n,
  bytes_eq_iff row.collection c,
  bytes_eq_iff row.key key,
)

has_logical_key_self :
    (row : ItemState)
    → has_logical_key row.key_id row.namespace_id row.collection row.key row ≡ true
unfolding has_logical_key
has_logical_key_self row = ground (
  arith,
  bytes_eq_iff row.key_id row.key_id,
  bytes_eq_iff row.namespace_id row.namespace_id,
  bytes_eq_iff row.collection row.collection,
  bytes_eq_iff row.key row.key,
)

-- what one search misses, another cannot find
find-none :
    (p q : ItemState → Bool) (items : List ItemState) {row : ItemState}
    → find p items ≡ none
    → find q items ≡ some row
    → p row ≡ false
unfolding find
find-none p q [] {row} h g = absurd (cc)
find-none p q (x ∷ items) {row} h g = elim (Bool-cases (p x)) [
  | inl yes' ↦ absurd (ground arith)
  | inr no' ↦ elim (Bool-cases (q x)) [
    | inl found ↦ let e : x ≡ row = ground arith in rw (← e) no'
    | inr other' ↦ find-none p q items (ground arith) (ground arith)
  ]
]

-- in rows without two of one primary key, what any search finds is found by its ID
pub find_unique :
    (p : ItemState → Bool) (items : List ItemState) {row : ItemState}
    → IsUnique items
    → find p items ≡ some row
    → find (has_item_id row.key_id row.namespace_id row.item_id) items ≡ some row
unfolding find
find_unique p [] {row} u h = absurd (cc)
find_unique p (x ∷ items) {row} (fresh, u) h = elim (Bool-cases (p x)) [
  | inl yes' ↦ let e : x ≡ row = ground arith in rw (e, has_item_id_self row) refl
  | inr no' ↦
      let rest : find (has_item_id row.key_id row.namespace_id row.item_id) items ≡ some row =
        find_unique p items u (ground arith) in
      elim (Bool-cases (has_item_id row.key_id row.namespace_id row.item_id x)) [
        | inl same ↦
            let (a, b, c) = has_item_id_iff row.key_id row.namespace_id row.item_id x same in
            let gone : find (has_item_id row.key_id row.namespace_id row.item_id) items ≡ none =
              rw (← a, ← b, ← c) fresh in
            absurd (cc (gone, rest))
        | inr other' ↦ rw other' rest
      ]
]

coded_length : (bs : Bytes) → length bs ≡ 32 → (length (encode_to_string bs) == 0) ≡ false
unfolding encode_to_string
coded_length [] h = absurd (ground arith)
coded_length (b ∷ bs) h = ground arith

-- a name in play, with the HMAC that its ID is
in_play_named :
    (t₀ : Start) (item : ItemState) (n : IsNamed t₀.crypto item)
    → IsTaken t₀ item
    → t₀.in_play
        (encode_to_string
          (t₀.crypto.hmac_sha256 n.map_key (compose_logical_key item.collection item.key)))
        item.collection
        item.key
in_play_named t₀ item n (_, _, playing) =
    subst (λ id. t₀.in_play id item.collection item.key) n.named playing

module _ (t₀ : Start) (laws : HmacLaws t₀) where
  -- one item ID is for one logical key
  named_inj :
      (a b : ItemState)
      → IsNamed t₀.crypto a
      → IsNamed t₀.crypto b
      → IsTaken t₀ a
      → IsTaken t₀ b
      → a.item_id ≡ b.item_id
      → (a.collection ≡ b.collection) × (a.key ≡ b.key)
  named_inj a b na nb ta tb same =
      let (sa, sa', _) = ta in
      let (sb, sb', _) = tb in
      let (_, composed) =
        two_part_keys_inj a.collection a.key b.collection b.key
          (omega arith, (omega arith, (omega arith, (omega arith, tt)))) in
      composed (
        laws.hmac_collision_free na.map_key nb.map_key _ _ _ _ (in_play_named t₀ a na ta)
          (in_play_named t₀ b nb tb) (encode_to_string_inj _ _ (cc (na.named, nb.named, same))))

  -- no item is stored under the ID of a logical key that is not stored
  pub new_item-unstored :
      (items : List ItemState) (item : ItemState)
      → All (IsStored t₀) items
      → find (has_logical_key item.key_id item.namespace_id item.collection item.key) items ≡ none
      → IsNamed t₀.crypto item
      → IsTaken t₀ item
      → stored_version item.key_id item.namespace_id item.item_id items ≡ 0
  new_item-unstored items item hs missing name short =
      elim (Option-cases (find (has_item_id item.key_id item.namespace_id item.item_id) items)) [
        | inl gone ↦ rw gone refl
        | inr (row, found) ↦ absurd (clash row found)
      ]
    where
      clash :
          (row : ItemState)
          → find (has_item_id item.key_id item.namespace_id item.item_id) items ≡ some row
          → ⊥
      clash row found =
          let ((_, _, name', short'), has) = find-IsStored t₀ _ items hs found in
          let (a, b, d) = has_item_id_iff item.key_id item.namespace_id item.item_id row has in
          let (s, t) = named_inj row item name' name short' short d in
          let miss = find-none _ _ items missing found in
          let hit : has_logical_key item.key_id item.namespace_id item.collection item.key row
              ≡ true =
            rw (← a, ← b, ← s, ← t) (has_logical_key_self row) in
          absurd (cc (miss, hit))

  -- a named item's ID is not empty
  pub with_item_id-named :
      (item : ItemState) (id : Bytes) → IsNamed t₀.crypto item → with_item_id item id ≡ item
  unfolding with_item_id
  with_item_id-named item id name =
      let h : (length item.item_id == 0) ≡ false =
        rw name.named (coded_length _ (laws.hmac_length name.map_key _)) in
      rw h refl
