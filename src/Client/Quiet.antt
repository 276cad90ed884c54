-- ===== src/Client/Quiet.antt =====
-- The requests touch no table.
use bitboxsync_client_go.Prelude.{ℕ, Option, none, some}
use bitboxsync_client_go.Prelude.Bytes.{Bytes}
use bitboxsync_client_go.Api.{PutItemRequest, LoginRequest, RefreshRequest}
use bitboxsync_client_go.Engine.State.{Engine}
use bitboxsync_client_go.Engine.Ensures.{IsQuiet, quiet_rules}
use bitboxsync_client_go.Client.{
  get_item, put_item, get_namespace_items, list_namespaces, get_wrapped_dek, challenge, login,
  refresh, validate_option,
}

module _ {X : Type 0} (e : Engine X) where
  pub get_item-IsQuiet : (token n i : Bytes) → IsQuiet (get_item e token n i)
  unfolding get_item
  get_item-IsQuiet token n i = search quiet_rules depth 9

  pub put_item-IsQuiet :
      (token n i : Bytes) (req : PutItemRequest) (m : Option ℕ)
      → IsQuiet (put_item e token n i req m)
  unfolding put_item
  put_item-IsQuiet token n i req m = search quiet_rules depth 9

  pub get_namespace_items-IsQuiet : (token n : Bytes) → IsQuiet (get_namespace_items e token n)
  unfolding get_namespace_items
  get_namespace_items-IsQuiet token n = search quiet_rules depth 9

  pub list_namespaces-IsQuiet : (token : Bytes) → IsQuiet (list_namespaces e token)
  unfolding list_namespaces
  list_namespaces-IsQuiet token = search quiet_rules

  pub get_wrapped_dek-IsQuiet : (token n k : Bytes) → IsQuiet (get_wrapped_dek e token n k)
  unfolding get_wrapped_dek
  get_wrapped_dek-IsQuiet token n k = search quiet_rules depth 9

  pub challenge-IsQuiet : (purpose : Bytes) → IsQuiet (challenge e purpose)
  unfolding challenge
  challenge-IsQuiet purpose = search quiet_rules

  validate_option-IsQuiet : (o : Option Bytes) → IsQuiet (validate_option e o)
  unfolding validate_option
  validate_option-IsQuiet none = search quiet_rules
  validate_option-IsQuiet (some id) = search quiet_rules

  pub login-IsQuiet : (req : LoginRequest) → IsQuiet (login e req)
  unfolding login
  login-IsQuiet req = search (quiet_rules, validate_option-IsQuiet) depth 9

  pub refresh-IsQuiet : (token : Bytes) (req : RefreshRequest) → IsQuiet (refresh e token req)
  unfolding refresh
  refresh-IsQuiet token req = search quiet_rules depth 9
