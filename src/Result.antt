-- ===== src/Result.antt =====
-- Go's error values, as far as the code tells them apart, and results with an error.
pub mod Steps
use bitboxsync_client_go.Prelude.{ℕ, Bool, true, false, ◌||◌, ◌==◌, String, Option, none, some}

pub data Error : Type 0 where
  -- the sentinel errors of bitboxsync/types.go
  not_found rollback closed no_backend collection_registered : Error
  -- the sentinel errors of protocol/crypto.go
  invalid_kind aad_mismatch unsupported_version invalid_wrapped_dek : Error
  invalid_namespace_id namespace_mismatch key_id_mismatch invalid_key_id : Error
  -- raw.APIError with its status code
  api : ℕ → Error
  -- engine_items.go, permanentUploadError
  permanent_upload : Error → Error
  -- any other error, by what it says
  other : String → Error

pub data Result {ℓ} (A : Type ℓ) : Type ℓ where
  ok : A → Result A
  err : Error → Result A

infixl 5 ◌>>=◌ ◌>>◌
abbrev pub ◌>>=◌ {ℓ κ} : {A : Type ℓ} {B : Type κ} → Result A → (A → Result B) → Result B
ok a >>= f = f a
err e >>= f = err e

abbrev pub ◌>>◌ {ℓ κ} : {A : Type ℓ} {B : Type κ} → Result A → Result B → Result B
m >> n = m >>= λ _. n

abbrev pub refuse_if : Bool → Error → Result (Unit {0})
refuse_if true e = err e
refuse_if false e = ok tt

-- errors.Is(err, ErrNotFound): through the wrapping of a permanent upload error
unfoldable pub is_not_found : Error → Bool
is_not_found not_found = true
is_not_found (permanent_upload e) = is_not_found e
is_not_found _ = false

-- errors.Is(err, ErrClosed)
unfoldable pub is_closed : Error → Bool
is_closed closed = true
is_closed (permanent_upload e) = is_closed e
is_closed _ = false

-- errors.As(err, &permanentErr)
unfoldable pub is_permanent_upload : Error → Bool
is_permanent_upload (permanent_upload e) = true
is_permanent_upload _ = false

-- errors.As(err, &apiErr), and its status code
unfoldable pub api_status : Error → Option ℕ
api_status (api status) = some status
api_status (permanent_upload e) = api_status e
api_status _ = none

-- engine_items.go, isPreconditionError
unfoldable pub is_precondition_error : Error → Bool
unfolding api_status
is_precondition_error e = elim (api_status e) [
  | none ↦ false
  | some status ↦ status == 412 || status == 428
]

-- engine_auth.go, isUnauthorizedAPIError
unfoldable pub is_unauthorized_api_error : Error → Bool
unfolding api_status
is_unauthorized_api_error e = elim (api_status e) [ none ↦ false | some status ↦ status == 401 ]

-- engine_watch.go, isNamespaceWatchUnsupported
unfoldable pub is_namespace_watch_unsupported : Error → Bool
unfolding api_status
is_namespace_watch_unsupported e = elim (api_status e) [
  | none ↦ false
  | some status ↦ status == 404 || status == 405 || status == 501
]
