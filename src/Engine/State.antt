-- ===== src/Engine/State.antt =====
-- bitboxsync/engine.go: the engine's fixed parts, its mutable state, and the monad of its methods.
-- `X` is the world outside the module: the server behind net/http, the driver under database/sql,
-- the app's value backends, the clock and the random source.
use bitboxsync_client_go.Prelude.{
  ℕ, Bool, true, false, List, ◌∷◌, ◌+◌, ◌%◌, ◌^◌, Option, ◌==◌, if◌then◌else◌,
}
use bitboxsync_client_go.Prelude.Bytes.{Bytes}
use bitboxsync_client_go.Result.{Error, Result, ok, err}
use bitboxsync_client_go.Types.{
  IdentityState, NamespaceState, ItemState, Event, EventType, Dict, new_event,
  is_sync_activity_event,
}
use bitboxsync_client_go.Protocol.Crypto.{Crypto}
use bitboxsync_client_go.Protocol.Url.{UrlParser}
use bitboxsync_client_go.Api.{Server, Identity}

-- database/sql over the SQLite driver. A statement gets its numbers and its texts; an error means that
-- it changed nothing.
pub record Database (X : Type 0) : Type 0 where
  pub exec : List ℕ → List Bytes → X → Result (Unit {0}) × X
  pub query : X → Result (Unit {0}) × X

-- The fields of *Engine that no method changes.
pub record Engine (X : Type 0) : Type 0 where
  pub key_id : Bytes
  -- key_id before it is coded: the hash of the identity's auth public key
  pub key_id_raw : Bytes
  pub refresh_skew : ℕ
  pub invite_ttl : ℕ
  pub crypto : Crypto
  pub urls : UrlParser
  pub server : Server X
  pub identity : Identity X
  pub database : Database X
  pub now : X → ℕ × X
  pub random : ℕ → X → Result Bytes × X

pub record RegisteredCollection (X : Type 0) : Type 0 where
  pub namespace_id : Bytes
  pub name : Bytes
  pub keys : X → Result (List Bytes) × X
  pub snapshot : X → Result (Dict Bytes) × X
  pub get : Bytes → X → Result Bytes × X
  pub set : Bytes → Bytes → X → Result (Unit {0}) × X
  -- key, current, currentFound, value
  pub set_if_current : Bytes → Bytes → Bool → Bytes → X → Result Bool × X
  -- key, base, local, remote
  pub merge_bytes : Bytes → Option Bytes → Bytes → Bytes → X → Result (Bytes × Bool) × X

-- The rows of the three tables of the store.
pub record Tables : Type 0 where
  pub identities : List IdentityState
  pub namespaces : List NamespaceState
  pub items : List ItemState

-- What methods change: the store's tables, the fields of *Engine, and the outer world.
pub record State (X : Type 0) : Type 0 where
  pub tables : Tables
  pub identity_state : IdentityState
  pub collections : Dict (RegisteredCollection X)
  pub closed : Bool
  pub events_closed : Bool
  pub activity_seq : ℕ  -- uint64
  pub events : List Event  -- sent so far, the newest first
  pub outside : X

-- A method: it returns or fails, and either way leaves a state.
abbrev pub M : Type 0 → Type 0 → Type 0
M X A = State X → Result A × State X

module _ {X A : Type 0} where
  unfoldable pub pure : A → M X A
  pure a s = (ok a, s)

  unfoldable pub raise : Error → M X A
  raise e s = (err e, s)

  unfoldable pub lift : Result A → M X A
  lift r s = (r, s)

  unfoldable pub gets : (State X → A) → M X A
  gets f s = (ok (f s), s)

  -- A call out of the module.
  unfoldable pub call : (X → Result A × X) → M X A
  call f s = let (r, x) = f s.outside in (r, record s { outside = x })

  abbrev pub caught : Result A × State X → Result (Result A) × State X
  caught (r, s) = (ok r, s)

  -- `a, err := m`, with the error looked at.
  unfoldable pub attempt : M X A → M X (Result A)
  attempt m s = caught (m s)

module _ {X A B : Type 0} where
  abbrev pub continue : (A → M X B) → Result A × State X → Result B × State X
  continue f (ok a, s) = f a s
  continue f (err e, s) = (err e, s)

  infixl 5 ◌>>=◌ ◌>>◌
  unfoldable pub ◌>>=◌ : M X A → (A → M X B) → M X B
  unfolding pure raise lift gets call attempt
  ◌>>=◌ m f s = continue f (m s)

  abbrev pub ◌>>◌ : M X A → M X B → M X B
  m >> n = m >>= λ _. n

module _ {X : Type 0} where
  unfoldable pub modify : (State X → State X) → M X (Unit {0})
  modify f s = (ok tt, f s)

  unfoldable pub refuse_if : Bool → Error → M X (Unit {0})
  refuse_if true e s = (err e, s)
  refuse_if false e s = (ok tt, s)

  -- time.Now().UTC()
  unfoldable pub now : Engine X → M X ℕ
  now e s = let (t, x) = e.now s.outside in (ok t, record s { outside = x })

  -- engine_events.go, emit; a full channel blocks and loses nothing, so the queue is unbounded here
  unfoldable pub send : Event → M X (Unit {0})
  send ev s =
      if s.events_closed
      then (ok tt, s)
      else if is_sync_activity_event ev.type
      then (
        ok tt,
        record s { activity_seq = (s.activity_seq + 1) % 2 ^ 64; events = ev ∷ s.events },
      )
      else (ok tt, record s { events = ev ∷ s.events })

  unfoldable pub emit : Engine X → Event → M X (Unit {0})
  unfolding send
  emit e ev = if ev.at == 0 then (do t ← now e; send (record ev { at = t })) else send ev

  unfoldable pub emit_item : Engine X → ItemState → EventType → M X (Unit {0})
  emit_item e item type = emit e (record (new_event type) {
    namespace_id = item.namespace_id;
    collection = item.collection;
    key = item.key;
    item_id = item.item_id;
  })
