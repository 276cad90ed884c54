-- ===== src/Backend.antt =====
-- bitboxsync/memory_backend.go and merge.go: the in-memory backend and the merge functions. A value
-- type `T` comes with reflect.DeepEqual as a parameter; a nil map is the empty one.
pub mod Replace
use bitboxsync_client_go.Prelude.{
  Bool, true, false, not, ◌&&◌, List, [], ◌∷◌, Option, none, some, map, if◌then◌else◌,
}
use bitboxsync_client_go.Prelude.Bytes.{Bytes}
use bitboxsync_client_go.Result.{Result, ok, err, not_found}
use bitboxsync_client_go.Types.{Dict, get}
use bitboxsync_client_go.Sync.Scope.{unique_sorted_strings}

module _ {T : Type 0} where
  found_or : Option T → Result T
  found_or none = err not_found
  found_or (some value) = ok value

  unfoldable pub memory_get : Dict T → Bytes → Result T
  unfolding found_or
  memory_get values key = found_or (get key values)

  unfoldable pub memory_set : Dict T → Bytes → T → Dict T
  memory_set values key value = (key, value) ∷ values

  unfoldable pub memory_keys : Dict T → List Bytes
  memory_keys values = unique_sorted_strings (map (λ (key, _). key) values)

  -- what is there against what the caller has read
  unfoldable pub still_current : (T → T → Bool) → Option T → T → Bool → Bool
  still_current deep_equal none current current_found = not current_found
  still_current deep_equal (some existing) current current_found =
      current_found && deep_equal existing current

  unfoldable pub memory_set_if_current :
      (T → T → Bool) → Dict T → Bytes → T → Bool → T → Bool × Dict T
  memory_set_if_current deep_equal values key current current_found value =
      if still_current deep_equal (get key values) current current_found
      then (true, memory_set values key value)
      else (false, values)

  -- the value, and whether the conflict is resolved
  unfoldable pub prefer_local : Bytes → Option T → T → T → Result (T × Bool)
  prefer_local key base local remote = ok (local, true)

  unfoldable pub prefer_remote : Bytes → Option T → T → T → Result (T × Bool)
  prefer_remote key base local remote = ok (remote, true)

  unfoldable pub no_merge : Bytes → Option T → T → T → Result (T × Bool)
  no_merge key base local remote = ok (local, false)
