-- ===== src/Engine/Ensures.antt =====
-- Conditions on the store's tables before and after a method, for both ways that it can end, with
-- one rule for each way to build a method.
use bitboxsync_client_go.Prelude.{Bool, true, false, ◌≡◌, refl, if◌then◌else◌, arith, sym, ◌∙◌}
use mathlib.Core.Path.{subst}
use bitboxsync_client_go.Result.{Error, Result, ok, err}
use bitboxsync_client_go.Types.{ItemState, Event, EventType}
use bitboxsync_client_go.Engine.State.{
  Engine, Tables, State, M, pure, raise, lift, gets, call, attempt, refuse_if, now, send, emit,
  emit_item, continue, ◌>>=◌, ◌>>◌,
}

-- what a run leaves: `Q` of its result, or `E` when it failed
abbrev pub Post {ℓ} :
    {X A : Type 0} → (A → Tables → Type ℓ) → (Tables → Type ℓ) → Result A × State X → Type ℓ
Post Q E (ok a, s) = Q a s.tables
Post Q E (err x, s) = E s.tables

pub record Ensures {X A : Type 0} (P : Tables → Type 0) (m : M X A) (Q : A → Tables → Type 0)
    (E : Tables → Type 0) : Type 0 where
  pub at : (s : State X) → P s.tables → Post Q E (m s)

-- the method changes no table
pub record IsQuiet {X A : Type 0} (m : M X A) : Type 0 where
  pub same : (s : State X) → (m s).1.tables ≡ s.tables

module _ {X A : Type 0} {P E : Tables → Type 0} {Q : A → Tables → Type 0} where
  pub Ensures-pure : (a : A) → ((t : Tables) → P t → Q a t) → Ensures {X = X} P (pure a) Q E
  unfolding pure
  Ensures-pure a h = record { at = λ s p. h s.tables p }

  pub Ensures-raise : (x : Error) → ((t : Tables) → P t → E t) → Ensures {X = X} P (raise x) Q E
  unfolding raise
  Ensures-raise x h = record { at = λ s p. h s.tables p }

  pub Ensures-if :
      (b : Bool) (m n : M X A)
      → (b ≡ true → Ensures P m Q E)
      → (b ≡ false → Ensures P n Q E)
      → Ensures P (if b then m else n) Q E
  Ensures-if true m n hm hn = hm refl
  Ensures-if false m n hm hn = hn refl

  pub Ensures-quiet :
      {m : M X A}
      → IsQuiet m
      → ((t : Tables) → P t → E t)
      → ((a : A) (t : Tables) → P t → Q a t)
      → Ensures P m Q E
  Ensures-quiet {m} q he hq = record { at = λ s p. step (m s) (subst P (sym (q.same s)) p) }
    where
      step : (r : Result A × State X) → P r.1.tables → Post Q E r
      step (ok a, s) h = hq a s.tables h
      step (err x, s) h = he s.tables h

  -- a weaker condition before, under the hypotheses of a stronger one
  pub Ensures-weaken :
      {P' : Tables → Type 0} {m : M X A}
      → ((t : Tables) → P' t → P t)
      → Ensures P m Q E
      → Ensures P' m Q E
  Ensures-weaken w h = record { at = λ s p. h.at s (w s.tables p) }

module _ {X A : Type 0} {P E : Tables → Type 0} {Q R : A → Tables → Type 0} where
  -- a weaker condition after
  pub Ensures-after :
      {m : M X A} → Ensures P m Q E → ((a : A) (t : Tables) → Q a t → R a t) → Ensures P m R E
  Ensures-after {m} h w = record { at = λ s p. step (m s) (h.at s p) }
    where
      step : (r : Result A × State X) → Post Q E r → Post R E r
      step (ok a, s) k = w a s.tables k
      step (err x, s) k = k

module _ {X A B : Type 0} {P E : Tables → Type 0} {Q : B → Tables → Type 0} where
  pub Ensures-bind :
      {R : A → Tables → Type 0} {m : M X A} {f : A → M X B}
      → Ensures P m R E
      → ((a : A) → Ensures (R a) (f a) Q E)
      → Ensures P (m >>= f) Q E
  unfolding ◌>>=◌
  Ensures-bind {R} {m} {f} hm hf = record { at = λ s p. step (m s) (hm.at s p) }
    where
      step : (r : Result A × State X) → Post R E r → Post Q E (continue f r)
      step (ok a, s) h = (hf a).at s h
      step (err x, s) h = h

  pub bind-quiet :
      {m : M X A} {f : A → M X B}
      → IsQuiet m
      → ((t : Tables) → P t → E t)
      → ((a : A) → Ensures P (f a) Q E)
      → Ensures P (m >>= f) Q E
  unfolding ◌>>=◌
  bind-quiet {m} {f} q he hf = record { at = λ s p. step (m s) (subst P (sym (q.same s)) p) }
    where
      step : (r : Result A × State X) → P r.1.tables → Post Q E (continue f r)
      step (ok a, s) h = (hf a).at s h
      step (err x, s) h = he s.tables h

  pub bind-lift :
      {r : Result A} {f : A → M X B}
      → ((t : Tables) → P t → E t)
      → ((a : A) → r ≡ ok a → Ensures P (f a) Q E)
      → Ensures P (lift r >>= f) Q E
  unfolding ◌>>=◌
  bind-lift {r} he hf = go r hf
    where
      go :
          (r : Result A) {f : A → M X B}
          → ((a : A) → r ≡ ok a → Ensures P (f a) Q E)
          → Ensures P (lift r >>= f) Q E
      go (ok a) k = record { at = λ s p. (k a refl).at s p }
      go (err x) k = record { at = λ s p. he s.tables p }

module _ {X B : Type 0} {P E : Tables → Type 0} {Q : B → Tables → Type 0} where
  pub bind-refuse :
      (b : Bool) (x : Error) {k : M X B}
      → ((t : Tables) → P t → E t)
      → (b ≡ false → Ensures P k Q E)
      → Ensures P (refuse_if b x >> k) Q E
  unfolding ◌>>=◌ refuse_if
  bind-refuse true x he hk = record { at = λ s p. he s.tables p }
  bind-refuse false x he hk = record { at = λ s p. (hk refl).at s p }

  -- the tables that are read are those of the moment
  pub bind-tables :
      {f : Tables → M X B}
      → ((tables : Tables) → Ensures (λ t. P t × (tables ≡ t)) (f tables) Q E)
      → Ensures P (gets (λ s. s.tables) >>= f) Q E
  unfolding ◌>>=◌
  bind-tables h = record { at = λ s p. (h s.tables).at s (p, refl) }

module _ {X A : Type 0} where
  pub call-IsQuiet : (f : X → Result A × X) → IsQuiet (call f)
  unfolding call
  call-IsQuiet f = record { same = λ s. refl }

  pub gets-IsQuiet : (f : State X → A) → IsQuiet (gets f)
  unfolding gets
  gets-IsQuiet f = record { same = λ s. refl }

  pub pure-IsQuiet : (a : A) → IsQuiet {X = X} (pure a)
  unfolding pure
  pure-IsQuiet a = record { same = λ s. refl }

  pub raise-IsQuiet : (x : Error) → IsQuiet {X = X} {A = A} (raise x)
  unfolding raise
  raise-IsQuiet x = record { same = λ s. refl }

  pub lift-IsQuiet : (r : Result A) → IsQuiet {X = X} (lift r)
  unfolding lift
  lift-IsQuiet r = record { same = λ s. refl }

  pub attempt-IsQuiet : {m : M X A} → IsQuiet m → IsQuiet (attempt m)
  unfolding attempt
  attempt-IsQuiet q = record { same = q.same }

  pub if-IsQuiet : (b : Bool) {m n : M X A} → IsQuiet m → IsQuiet n → IsQuiet (if b then m else n)
  if-IsQuiet true q r = q
  if-IsQuiet false q r = r

module _ {X A B : Type 0} where
  pub bind-IsQuiet :
      {m : M X A} {f : A → M X B} → IsQuiet m → ((a : A) → IsQuiet (f a)) → IsQuiet (m >>= f)
  unfolding ◌>>=◌
  bind-IsQuiet {m} {f} q h = record { same = λ s. step s (m s) (q.same s) }
    where
      step :
          (s : State X) (r : Result A × State X)
          → r.1.tables ≡ s.tables
          → (continue f r).1.tables ≡ s.tables
      step s (ok a, s') e = (h a).same s' ∙ e
      step s (err x, s') e = e

module _ {X : Type 0} where
  pub refuse_if-IsQuiet : (b : Bool) (x : Error) → IsQuiet {X = X} (refuse_if b x)
  unfolding refuse_if
  refuse_if-IsQuiet true x = record { same = λ s. refl }
  refuse_if-IsQuiet false x = record { same = λ s. refl }

  pub now-IsQuiet : (e : Engine X) → IsQuiet (now e)
  unfolding now
  now-IsQuiet e = record { same = λ s. refl }

  send-IsQuiet : (ev : Event) → IsQuiet {X = X} (send ev)
  unfolding send
  send-IsQuiet ev = record { same = λ s. ground arith }

  pub emit-IsQuiet : (e : Engine X) (ev : Event) → IsQuiet (emit e ev)
  unfolding emit
  emit-IsQuiet e ev = search (if-IsQuiet, bind-IsQuiet, now-IsQuiet, send-IsQuiet)

  pub emit_item-IsQuiet :
      (e : Engine X) (item : ItemState) (type : EventType) → IsQuiet (emit_item e item type)
  unfolding emit_item
  emit_item-IsQuiet e item type = emit-IsQuiet e _

pub ruleset quiet_rules = (
  call-IsQuiet, gets-IsQuiet, pure-IsQuiet, raise-IsQuiet, lift-IsQuiet, attempt-IsQuiet,
  if-IsQuiet, bind-IsQuiet, refuse_if-IsQuiet, now-IsQuiet, emit-IsQuiet, emit_item-IsQuiet,
)
