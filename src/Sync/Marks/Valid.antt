-- ===== src/Sync/Marks/Valid.antt =====
-- Each mark leaves a valid item, and one that is current where its version is not behind.
use native.Mathlib.Nat.{le_trans}
use bitboxsync_client_go.Prelude.{ℕ, ◌≤◌, ◌≡◌, refl, arith}
use bitboxsync_client_go.Prelude.Bytes.{Bytes}
use bitboxsync_client_go.Types.{ItemState}
use bitboxsync_client_go.Engine.State.{Tables}
use bitboxsync_client_go.Sync.Safe.{Start, IsNamed, IsValid, Current}
use bitboxsync_client_go.Protocol.Crypto.{Crypto}
use bitboxsync_client_go.Sync.Marks.{
  mark_item_clean, mark_item_dirty, mark_item_dirty_with_base, mark_item_conflict,
}

module _ (now_at : ℕ) (item : ItemState) where
  mark_item_clean-IsValid : (v : ℕ) (value : Bytes) → IsValid (mark_item_clean now_at item v value)
  unfolding mark_item_clean
  mark_item_clean-IsValid v value = ground arith

  mark_item_dirty_with_base-IsValid :
      (v : ℕ) (value : Bytes) → IsValid (mark_item_dirty_with_base now_at item v value)
  unfolding mark_item_dirty_with_base
  mark_item_dirty_with_base-IsValid v value = ground arith

  mark_item_dirty-IsValid : IsValid item → IsValid (mark_item_dirty now_at item)
  unfolding mark_item_dirty
  mark_item_dirty-IsValid h = ground arith

  mark_item_conflict-IsValid :
      (v : ℕ) (value : Bytes)
      → IsValid item
      → item.version ≤ v
      → IsValid (mark_item_conflict now_at item v value)
  unfolding mark_item_conflict
  mark_item_conflict-IsValid v value h le = ground arith

pub version-mark_item_dirty :
    (now_at : ℕ) (item : ItemState) → (mark_item_dirty now_at item).version ≡ item.version
unfolding mark_item_dirty
version-mark_item_dirty now_at item = refl

-- what a name is does not depend on the other fields
renamed :
    {c : Crypto} {a b : ItemState}
    → IsNamed c a
    → b.item_id ≡ a.item_id
    → b.collection ≡ a.collection
    → b.key ≡ a.key
    → IsNamed c b
renamed {c} {a} {b} n i d k = record { map_key = n.map_key; named = rw (i, d, k) n.named }

module _ (now_at : ℕ) {t₀ : Start} {t : Tables} {item : ItemState} (c : Current t₀ item t) where
  pub mark_item_dirty-Current : Current t₀ (mark_item_dirty now_at item) t
  unfolding mark_item_dirty
  mark_item_dirty-Current = record {
    safe = c.safe;
    valid = mark_item_dirty-IsValid now_at item c.valid;
    named = renamed c.named refl refl refl;
    newest = c.newest;
  }

  module _ (v : ℕ) (value : Bytes) (le : item.version ≤ v) where
    pub mark_item_clean-Current : Current t₀ (mark_item_clean now_at item v value) t
    unfolding mark_item_clean
    mark_item_clean-Current = record {
      safe = c.safe;
      valid = mark_item_clean-IsValid now_at item v value;
      named = renamed c.named refl refl refl;
      newest = λ short. le_trans (c.newest short) le;
    }

    pub mark_item_dirty_with_base-Current :
        Current t₀ (mark_item_dirty_with_base now_at item v value) t
    unfolding mark_item_dirty_with_base
    mark_item_dirty_with_base-Current = record {
      safe = c.safe;
      valid = mark_item_dirty_with_base-IsValid now_at item v value;
      named = renamed c.named refl refl refl;
      newest = λ short. le_trans (c.newest short) le;
    }

    pub mark_item_conflict-Current : Current t₀ (mark_item_conflict now_at item v value) t
    unfolding mark_item_conflict
    mark_item_conflict-Current = record {
      safe = c.safe;
      valid = mark_item_conflict-IsValid now_at item v value c.valid le;
      named = renamed c.named refl refl refl;
      newest = λ short. le_trans (c.newest short) le;
    }
