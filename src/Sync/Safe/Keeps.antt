-- ===== src/Sync/Safe/Keeps.antt =====
-- Methods that keep the items safe, by how they are built.
use bitboxsync_client_go.Prelude.{Bool, ◌≡◌, if◌then◌else◌}
use bitboxsync_client_go.Result.{Result, ok, err}
use bitboxsync_client_go.Engine.State.{Tables, State, M, attempt, caught, modify, ◌>>=◌}
use bitboxsync_client_go.Engine.Ensures.{
  Ensures, IsQuiet, Post, Ensures-bind, Ensures-if, Ensures-quiet,
}
use bitboxsync_client_go.Sync.Safe.{Start, Safe}

-- whether it returns or fails
abbrev pub Keeps : {X A : Type 0} → Start → M X A → Type 0
Keeps t₀ m = Ensures (Safe t₀) m (λ _. Safe t₀) (Safe t₀)

-- a run that leaves `Q` of its result or fails, with the outcome looked at
abbrev pub Outcome :
    {A : Type 0} → (A → Tables → Type 0) → (Tables → Type 0) → Result A → Tables → Type 0
Outcome Q E (ok a) t = Q a t
Outcome Q E (err x) t = E t

module _ {X A : Type 0} where
  pub Ensures-attempt :
      {P E : Tables → Type 0} (F : Tables → Type 0) {Q : A → Tables → Type 0} {m : M X A}
      → Ensures P m Q E
      → Ensures P (attempt m) (Outcome Q E) F
  unfolding attempt
  Ensures-attempt {P} {E} F {Q} {m} h = record { at = λ s p. step (m s) (h.at s p) }
    where
      step : (r : Result A × State X) → Post Q E r → Post (Outcome Q E) F (caught r)
      step (ok a, s) k = k
      step (err x, s) k = k

module _ {X : Type 0} (t₀ : Start) where
  pub quiet-Keeps : {A : Type 0} {m : M X A} → IsQuiet m → Keeps t₀ m
  quiet-Keeps q = Ensures-quiet q (λ t p. p) (λ a t p. p)

  pub bind-Keeps :
      {A B : Type 0} {m : M X A} {f : A → M X B}
      → Keeps t₀ m
      → ((a : A) → Keeps t₀ (f a))
      → Keeps t₀ (m >>= f)
  bind-Keeps hm hf = Ensures-bind hm hf

  pub if-Keeps :
      {A : Type 0} (b : Bool) {m n : M X A}
      → Keeps t₀ m
      → Keeps t₀ n
      → Keeps t₀ (if b then m else n)
  if-Keeps b {m} {n} hm hn = Ensures-if b m n (λ _. hm) (λ _. hn)

  outcome-Keeps :
      {A : Type 0} (r : Result A × State X)
      → Post (λ _. Safe t₀) (Safe t₀) r
      → Post (λ _. Safe t₀) (Safe t₀) (caught r)
  outcome-Keeps (ok a, s) h = h
  outcome-Keeps (err x, s) h = h

  pub attempt-Keeps : {A : Type 0} {m : M X A} → Keeps t₀ m → Keeps t₀ (attempt m)
  unfolding attempt
  attempt-Keeps {m} h = record { at = λ s p. outcome-Keeps (m s) (h.at s p) }

  -- a change of the state that leaves the items
  pub modify-Keeps :
      (f : State X → State X)
      → ((s : State X) → (f s).tables.items ≡ s.tables.items)
      → Keeps t₀ (modify f)
  unfolding modify
  modify-Keeps f same = record {
    at = λ s p. record {
      grows = λ k n i. rw (same s) (p.grows k n i);
      valid = rw (same s) p.valid;
      unique = rw (same s) p.unique;
    };
  }
