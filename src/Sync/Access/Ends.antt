-- ===== src/Sync/Access/Ends.antt =====
-- bitboxsync/engine_auth.go: what a method leaves, whatever was there before it.
use bitboxsync_client_go.Prelude.Bytes.{Bytes}
use bitboxsync_client_go.Result.{Result, ok, err, is_unauthorized_api_error}
use bitboxsync_client_go.Engine.State.{Engine, Tables, State, M}
use bitboxsync_client_go.Engine.Ensures.{
  Ensures, Post, Ensures-bind, Ensures-pure, Ensures-raise, Ensures-if,
}
use bitboxsync_client_go.Sync.Safe.Keeps.{Outcome, Ensures-attempt}
use bitboxsync_client_go.Sync.Auth.{run_authenticated, retry_unauthorized}

-- a run that returns leaves `Q` of its result
abbrev pub Ends : {X A : Type 0} → M X A → (A → Tables → Type 0) → Type 0
Ends m Q = Ensures (λ t. Unit {0}) m Q (λ t. Unit {0})

module _ {X : Type 0} where
  pub anything : {A : Type 0} (m : M X A) → Ends m (λ a t. Unit {0})
  anything {A} m = record { at = λ s p. done (m s) }
    where
      done : (r : Result A × State X) → Post (λ a t. Unit {0}) (λ t. Unit {0}) r
      done (ok a, s) = tt
      done (err x, s) = tt

module _ {X A : Type 0} (e : Engine X) {Q : A → Tables → Type 0} {fn : M X A} (h : Ends fn Q) where
  retry-Ends :
      (token : Bytes) (r : Result A)
      → Ensures (Outcome Q (λ t. Unit) r) (retry_unauthorized e fn token r) Q (λ t. Unit)
  unfolding retry_unauthorized
  retry-Ends token (ok a) = Ensures-pure a (λ t q. q)
  retry-Ends token (err x) =
      Ensures-if (is_unauthorized_api_error x) _ _ (λ _. Ensures-bind (anything _) λ _. h)
        (λ _. Ensures-raise x (λ t p. p))

  -- what the function leaves is left by runAuthenticated, whether or not it runs the function again
  pub run_authenticated-Ends : Ends (run_authenticated e fn) Q
  unfolding run_authenticated
  run_authenticated-Ends = Ensures-bind (anything _) λ _.
      Ensures-bind (anything _) λ token. Ensures-bind (Ensures-attempt _ h) λ r. retry-Ends token r
