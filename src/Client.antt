-- ===== src/Client.antt =====
-- raw/client.go: the requests that the engine makes, with the checks on their arguments and answers.
pub mod Quiet
pub mod Namespaces
pub mod Invites
use bitboxsync_client_go.Prelude.{
  ℕ, ◌+◌, ◌%◌, ◌^◌, Bool, ◌||◌, not, List, [], ◌∷◌, Option, none, some, ◌==◌, if◌then◌else◌,
}
use bitboxsync_client_go.Prelude.Bytes.{Bytes, bytes_eq, codes}
use bitboxsync_client_go.Result.{Error, Result, ok, err, other}
use bitboxsync_client_go.Types.{Dict}
use bitboxsync_client_go.Protocol.Hex.{validate_namespace_id, validate_item_id, validate_key_id}
use bitboxsync_client_go.Api.{
  NamespaceSummary, GetNamespaceItemsResponse, GetItemResponse, PutItemRequest, PutItemResponse,
  ChallengeResponse, LoginRequest, LoginResponse, RefreshRequest, RefreshResponse,
}
use bitboxsync_client_go.Engine.State.{Engine, M, pure, lift, call, refuse_if, ◌>>=◌, ◌>>◌}

-- `*version + 1` on a uint64
abbrev pub next_version : ℕ → ℕ
next_version version = (version + 1) % 2 ^ 64

-- the version that a put must be answered with
unfoldable pub expected_version : Option ℕ → ℕ
expected_version none = 1
expected_version (some if_match) = next_version if_match

module _ {X : Type 0} (e : Engine X) where
  unfoldable pub challenge : Bytes → M X ChallengeResponse
  challenge purpose = call (e.server.challenge purpose)

  validate_option : Option Bytes → M X (Unit {0})
  validate_option none = pure tt
  validate_option (some id) = lift (validate_namespace_id id)

  unfoldable pub login : LoginRequest → M X LoginResponse
  unfolding validate_option
  login req = do
    resp ← call (e.server.login req)
    refuse_if (not (bytes_eq resp.kind req.kind)) (other "login response kind mismatch")
    validate_option resp.default_namespace_id
    pure resp

  unfoldable pub refresh : Bytes → RefreshRequest → M X RefreshResponse
  refresh token req = do
    resp ← call (e.server.refresh token req)
    refuse_if (not (bytes_eq resp.kind req.kind)) (other "refresh response kind mismatch")
    pure resp

  unfoldable pub list_namespaces : Bytes → M X (List NamespaceSummary)
  list_namespaces token = call (e.server.list_namespaces token)

  validate_heads : Dict ℕ → M X (Unit {0})
  validate_heads [] = pure tt
  validate_heads ((id, head) ∷ heads) = do lift (validate_namespace_id id); validate_heads heads

  -- the namespaces and TimedOut
  unfoldable pub watch_namespaces : Bytes → Dict ℕ → M X (List NamespaceSummary × Bool)
  unfolding validate_heads
  watch_namespaces token known_heads = do
    validate_heads known_heads
    call (e.server.watch_namespaces token known_heads)

  unfoldable pub get_wrapped_dek : Bytes → Bytes → Bytes → M X Bytes
  get_wrapped_dek token namespace_id key_id = do
    lift (validate_namespace_id namespace_id)
    lift (validate_key_id key_id)
    (got_namespace_id, got_key_id, wrapped_dek) ←
        call (e.server.get_wrapped_dek token namespace_id key_id)
    refuse_if (not (bytes_eq got_namespace_id namespace_id))
        (other "wrapped dek namespace mismatch")
    refuse_if (not (bytes_eq got_key_id key_id)) (other "wrapped dek key mismatch")
    pure wrapped_dek

  unfoldable pub get_namespace_items : Bytes → Bytes → M X GetNamespaceItemsResponse
  get_namespace_items token namespace_id = do
    lift (validate_namespace_id namespace_id)
    resp ← call (e.server.get_namespace_items token namespace_id)
    refuse_if (not (bytes_eq resp.namespace_id namespace_id)) (other "namespace items mismatch")
    pure resp

  unfoldable pub get_item : Bytes → Bytes → Bytes → M X GetItemResponse
  get_item token namespace_id item_id = do
    lift (validate_namespace_id namespace_id)
    lift (validate_item_id item_id)
    resp ← call (e.server.get_item token namespace_id item_id)
    refuse_if (not (bytes_eq resp.namespace_id namespace_id)) (other "item namespace mismatch")
    refuse_if (not (bytes_eq resp.item_id item_id)) (other "item mismatch")
    pure resp

  unfoldable pub put_item : Bytes → Bytes → Bytes → PutItemRequest → Option ℕ → M X PutItemResponse
  put_item token namespace_id item_id req if_match = do
    lift (validate_namespace_id namespace_id)
    lift (validate_item_id item_id)
    resp ← call (e.server.put_item token namespace_id item_id req if_match)
    refuse_if (not (bytes_eq resp.namespace_id namespace_id)) (other "put item namespace mismatch")
    refuse_if (not (bytes_eq resp.item_id item_id)) (other "put item mismatch")
    refuse_if (not (resp.version == expected_version if_match)) (other "put item version mismatch")
    pure resp
