-- ===== src/Sync/Safe/Rows.antt =====
-- The rows of items after an upsert and a search.
use bitboxsync_client_go.Prelude.{
  Bool, true, false, ◌≡◌, refl, List, [], ◌∷◌, none, some, arith, All, Bool-cases, inl, inr,
  if◌then◌else◌,
}
use bitboxsync_client_go.Prelude.Bytes.{Bytes, bytes_eq_iff}
use mathlib.Core.Path.{subst}
use bitboxsync_client_go.Types.{ItemState}
use bitboxsync_client_go.Sqlite.Rows.{find, upsert, same_item, has_item_id}
use bitboxsync_client_go.Sync.Safe.{Start, IsUnique, IsStored}

-- rows under one primary key are found by the same searches
has_item_id-same_item :
    (k n i : Bytes) (row x : ItemState)
    → same_item row x ≡ true
    → has_item_id k n i row ≡ has_item_id k n i x
unfolding same_item has_item_id
has_item_id-same_item k n i row x h = ground (
  arith,
  bytes_eq_iff row.key_id x.key_id,
  bytes_eq_iff row.namespace_id x.namespace_id,
  bytes_eq_iff row.item_id x.item_id,
)

-- a row that shares the searched ID with another shares its primary key
same_item-has_item_id :
    (k n i : Bytes) (row x : ItemState)
    → has_item_id k n i row ≡ true
    → has_item_id k n i x ≡ true
    → same_item row x ≡ true
unfolding same_item has_item_id
same_item-has_item_id k n i row x h g = ground (
  arith,
  bytes_eq_iff row.key_id k,
  bytes_eq_iff row.namespace_id n,
  bytes_eq_iff row.item_id i,
  bytes_eq_iff x.key_id k,
  bytes_eq_iff x.namespace_id n,
  bytes_eq_iff x.item_id i,
  bytes_eq_iff row.key_id x.key_id,
  bytes_eq_iff row.namespace_id x.namespace_id,
  bytes_eq_iff row.item_id x.item_id,
)

-- An upsert writes the row's own ID, and nothing else that can be found.
pub find-upsert :
    (k n i : Bytes) (row : ItemState) (items : List ItemState)
    → find (has_item_id k n i) (upsert same_item row items)
      ≡ (if has_item_id k n i row then some row else find (has_item_id k n i) items)
unfolding find upsert
find-upsert k n i row [] = refl
find-upsert k n i row (x ∷ items) = ground (
  arith,
  find-upsert k n i row items,
  has_item_id-same_item k n i row x,
  same_item-has_item_id k n i row x,
)

pub All-upsert :
    (t₀ : Start) (row : ItemState) (items : List ItemState)
    → IsStored t₀ row
    → All (IsStored t₀) items
    → All (IsStored t₀) (upsert same_item row items)
unfolding upsert
All-upsert t₀ row [] h hs = (h, tt)
All-upsert t₀ row (x ∷ items) h (hx, hs) = step (same_item row x) (All-upsert t₀ row items h hs)
  where
    step :
        (b : Bool)
        → All (IsStored t₀) (upsert same_item row items)
        → All (IsStored t₀) (if b then row ∷ items else x ∷ upsert same_item row items)
    step true rest = (h, hs)
    step false rest = (hx, rest)

-- What a search finds is stored, and has the searched ID.
pub find-IsStored :
    (t₀ : Start) (p : ItemState → Bool) (items : List ItemState) {item : ItemState}
    → All (IsStored t₀) items
    → find p items ≡ some item
    → IsStored t₀ item × (p item ≡ true)
unfolding find
find-IsStored t₀ p [] {item} hs h = absurd (cc)
find-IsStored t₀ p (x ∷ items) {item} (hx, hs) h = elim (Bool-cases (p x)) [
  | inl yes' ↦
      let e : x ≡ item = ground arith in subst (λ y. IsStored t₀ y × (p y ≡ true)) e (hx, yes')
  | inr no' ↦ find-IsStored t₀ p items hs (ground arith)
]

pub has_item_id_self :
    (item : ItemState) → has_item_id item.key_id item.namespace_id item.item_id item ≡ true
unfolding has_item_id
has_item_id_self item = ground (
  arith,
  bytes_eq_iff item.key_id item.key_id,
  bytes_eq_iff item.namespace_id item.namespace_id,
  bytes_eq_iff item.item_id item.item_id,
)

pub has_item_id_iff :
    (k n i : Bytes) (item : ItemState)
    → has_item_id k n i item ≡ true
    → (item.key_id ≡ k) × (item.namespace_id ≡ n) × (item.item_id ≡ i)
unfolding has_item_id
has_item_id_iff k n i item h = ground (
  arith,
  bytes_eq_iff item.key_id k,
  bytes_eq_iff item.namespace_id n,
  bytes_eq_iff item.item_id i,
)

-- an upsert leaves no second row under any primary key
pub IsUnique-upsert :
    (row : ItemState) (items : List ItemState)
    → IsUnique items
    → IsUnique (upsert same_item row items)
unfolding upsert find
IsUnique-upsert row [] h = (refl, tt)
IsUnique-upsert row (x ∷ items) (fresh, h) = elim (Bool-cases (same_item row x)) [
  | inl same ↦ rw same (has_same row x same fresh, h)
  | inr other' ↦ rw other' (
    rw (find-upsert x.key_id x.namespace_id x.item_id row items, not_same row x other') fresh,
    IsUnique-upsert row items h,
  )
]
  where
    not_same :
        (row x : ItemState)
        → same_item row x ≡ false
        → has_item_id x.key_id x.namespace_id x.item_id row ≡ false
    not_same row x h = unfold same_item has_item_id in assumption

    has_same :
        (row x : ItemState)
        → same_item row x ≡ true
        → find (has_item_id x.key_id x.namespace_id x.item_id) items ≡ none
        → find (has_item_id row.key_id row.namespace_id row.item_id) items ≡ none
    has_same row x same f =
        let (a, b, c) =
          has_item_id_iff x.key_id x.namespace_id x.item_id row
            (unfold same_item has_item_id in same) in
        rw (a, b, c) f
