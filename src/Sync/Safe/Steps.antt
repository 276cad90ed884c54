-- ===== src/Sync/Safe/Steps.antt =====
-- The first step of a method leaves the items alone: what is left is the rest of it.
use bitboxsync_client_go.Prelude.{Bool, ℕ}
use bitboxsync_client_go.Result.{Error, Result}
use bitboxsync_client_go.Engine.State.{Engine, State, M, gets, lift, call, refuse_if, now, ◌>>=◌}
use bitboxsync_client_go.Engine.Ensures.{
  IsQuiet, gets-IsQuiet, lift-IsQuiet, call-IsQuiet, refuse_if-IsQuiet, now-IsQuiet,
}
use bitboxsync_client_go.Sync.Safe.{Start}
use bitboxsync_client_go.Sync.Safe.Keeps.{Keeps, quiet-Keeps, bind-Keeps}

module _ {X : Type 0} (t₀ : Start) {B : Type 0} where
  pub after_quiet :
      {A : Type 0} {m : M X A} {f : A → M X B}
      → IsQuiet m
      → ((a : A) → Keeps t₀ (f a))
      → Keeps t₀ (m >>= f)
  after_quiet q h = bind-Keeps t₀ (quiet-Keeps t₀ q) h

  pub after_lift :
      {A : Type 0} (r : Result A) {f : A → M X B}
      → ((a : A) → Keeps t₀ (f a))
      → Keeps t₀ (lift r >>= f)
  after_lift r h = after_quiet (lift-IsQuiet r) h

  pub after_call :
      {A : Type 0} (g : X → Result A × X) {f : A → M X B}
      → ((a : A) → Keeps t₀ (f a))
      → Keeps t₀ (call g >>= f)
  after_call g h = after_quiet (call-IsQuiet g) h

  pub after_gets :
      {A : Type 0} (g : State X → A) {f : A → M X B}
      → ((a : A) → Keeps t₀ (f a))
      → Keeps t₀ (gets g >>= f)
  after_gets g h = after_quiet (gets-IsQuiet g) h

  pub after_now :
      (e : Engine X) {f : ℕ → M X B} → ((a : ℕ) → Keeps t₀ (f a)) → Keeps t₀ (now e >>= f)
  after_now e h = after_quiet (now-IsQuiet e) h

  pub after_refuse :
      (b : Bool) (x : Error) {f : Unit {0} → M X B}
      → ((a : Unit {0}) → Keeps t₀ (f a))
      → Keeps t₀ (refuse_if b x >>= f)
  after_refuse b x h = after_quiet (refuse_if-IsQuiet b x) h

-- the rest of a method, after calls, checks and readings of the clock
pub ruleset after_rules = (after_lift, after_call, after_gets, after_now, after_refuse)
