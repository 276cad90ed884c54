-- ===== src/Backend/Replace.antt =====
-- A conditional write replaces exactly the value that the caller has read.
use bitboxsync_client_go.Prelude.{
  Bool, true, false, ◌&&◌, ◌≡◌, refl, arith, ◌⊎◌, Bool-cases, Option-cases, inl, inr, if◌then◌else◌,
}
use bitboxsync_client_go.Prelude.Bytes.{Bytes, bytes_eq}
use bitboxsync_client_go.Result.{ok, err, not_found}
use bitboxsync_client_go.Types.{Dict, get}
use bitboxsync_client_go.Backend.{
  found_or, memory_get, memory_set, still_current, memory_set_if_current,
}

module _ {T : Type 0} (deep_equal : T → T → Bool) where
  -- After SetIfCurrent, a key holds the new value if the write went through and the key is the
  -- written one, and what it held before otherwise.
  pub memory_get-set_if_current :
      (values : Dict T) (key j : Bytes) (current : T) (current_found : Bool) (value : T)
      → memory_get (memory_set_if_current deep_equal values key current current_found value).1 j ≡ (
          if (memory_set_if_current deep_equal values key current current_found value).0
            && bytes_eq key j
          then ok value
          else memory_get values j)
  unfolding memory_get memory_set_if_current memory_set get found_or
  memory_get-set_if_current values key j current current_found value =
      elim (Bool-cases (still_current deep_equal (get key values) current current_found)) [
        | inr stale ↦ rw stale refl
        | inl fresh ↦ elim (Bool-cases (bytes_eq key j)) [
          | inl same ↦ rw (fresh, same) refl
          | inr other' ↦ rw (fresh, other') refl
        ]
      ]

  -- SetIfCurrent writes over a value that is there only if the caller has read it, and where the
  -- caller has read none only if none is there.
  pub memory_set_if_current-read :
      (values : Dict T) (key : Bytes) (current : T) (current_found : Bool) (value : T)
      → (memory_set_if_current deep_equal values key current current_found value).0 ≡ true
      → ((current_found ≡ false) × (memory_get values key ≡ err not_found))
        ⊎ ((existing : T) × (current_found ≡ true)
            × (memory_get values key ≡ ok existing)
            × (deep_equal existing current ≡ true))
  unfolding memory_get memory_set_if_current still_current found_or
  memory_set_if_current-read values key current current_found value h =
      elim (Option-cases (get key values)) [
        | inl gone ↦ inl (ground arith, ground arith)
        | inr (existing, there) ↦ inr (existing, ground arith, ground arith, ground arith)
      ]
