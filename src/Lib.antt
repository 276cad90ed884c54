-- ===== src/Lib.antt =====
-- The BitBoxSync Go client: a local-first replica of end-to-end encrypted items, synced with a
-- server that is not trusted to keep versions from going back.
--
-- Parts, and the files that model them:
--   bitboxsync/types.go: the persisted states and events, Types.antt.
--   bitboxsync/engine.go, engine_events.go: the engine's state, its methods' monad, its events,
--   Engine/State.antt; conditions on the store before and after a method, Engine/Ensures.antt.
--   bitboxsync/engine_run.go: poll intervals and backoff, Poll.antt; the select loop of Run as a step
--   relation, Poll/Loop.antt; one sync pass, Sync/Run.antt.
--   bitboxsync/engine_discovery.go: length-prefixed keys, Keys.antt; the active scope,
--   Sync/Scope.antt; the registered collections, Sync/Values.antt.
--   bitboxsync/engine_auth.go: login, refresh and the retry after a rejected token, Sync/Auth.antt
--   and Sync/Identity.antt.
--   bitboxsync/engine_namespace.go: one namespace's DEK, Sync/Namespaces.antt; syncNamespaces,
--   Sync/Pull.antt.
--   bitboxsync/engine_namespace.go and engine_auth.go, what an app calls: Sync/Access.antt.
--   bitboxsync/namespace_invites.go: the verification of a join request, Sync/Invites.antt; creating
--   an invite, asking to join and approving, its children Create, Join and Manage.
--   bitboxsync/engine_snapshots.go: reconcileLocalSnapshots, Sync/Snapshots.antt.
--   bitboxsync/engine_items.go: the marks on items, Sync/Marks.antt; a downloaded value meets the
--   local one, Sync/Items.antt; syncNamespaceItems, Sync/Pull.antt; flushDirtyItems,
--   Sync/Upload.antt.
--   bitboxsync/collection.go: an app resolves a conflict, Sync/Resolve.antt.
--   bitboxsync/memory_backend.go and merge.go: the in-memory backend, Backend.antt.
--   bitboxsync/engine_watch.go: one namespace watch, Sync/Run.antt; the loop of runNamespaceWatch,
--   Poll/Watch.antt.
--   storage/sqlite/store.go: the store over its rows, Sqlite.antt and Sqlite/Rows.antt.
--   protocol/crypto.go: hexadecimal names, associated data and item payloads, signed intents, DEK
--   wrapping, public keys, server origins, invite URIs and secrets, entity tags, Protocol/.
--   protocol/api.go and raw/client.go: the messages, Api.antt and Api/; the requests with the checks
--   on their answers, Client.antt and Client/.
--   raw/identity.go: the software keystore, Keystore.antt.
--
-- A method of *Engine is a function from a state to a result and a state (M of Engine/State.antt):
-- the rows of the store's three tables, the engine's own fields, and a world `X` outside. The
-- server behind net/http, the driver under database/sql, the app's backends and merge function,
-- the keystore, the clock and the random source are fields of records over `X`; each may answer
-- anything and change with every call. Cryptography and base64 are parameters too, with the laws
-- that are used as hypotheses (CryptoLaws), and so is what database/sql and SQLite document
-- (DatabaseLaws), what HPKE does (WrapLaws) and what signatures and digests are (SigningLaws);
-- HmacLaws (Sync/Safe.antt) says that HMAC-SHA256 has no collision among the names in play in a
-- run: the item IDs with their collections and keys that are stored before it or that the driver
-- takes on the way. net/url is a record of its two parsers; UrlLaws
-- (Protocol/Origin/Canonical.antt) says that it reads a host and a port back.
--
-- A Go string and a []byte are lists of bytes (nil is the empty one), a time is a number of
-- nanoseconds with 0 for the zero time, a uint64 is a number with its wrap written out, a Go map
-- is a list of pairs whose first entry for a key counts and whose order is the order in which a
-- `range` meets it, an int64 that may be negative is an integer (Prelude/Int.antt). Loops are
-- recursion on the list or on the count they run over; the loop of Attest has fuel for eight rounds
-- and FormatUint for the twenty digits of a uint64, which are proved to be enough.
--
-- Not modelled: goroutines and the locks between them (methods run one after another), contexts
-- and deadlines, the event channel's bound (a full channel blocks and loses nothing), the texts of
-- errors, net/http and JSON, and the demos under cmd.
mod Prelude
pub mod Result
pub mod Types
pub mod Api
pub mod Poll
pub mod Keys
pub mod Keystore
pub mod Protocol
pub mod Engine
pub mod Sqlite
pub mod Client
pub mod Sync
pub mod Backend
pub mod Tests
