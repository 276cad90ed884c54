-- ===== src/Sync.antt =====
-- Package bitboxsync: the methods of the engine.
pub mod Identity
pub mod Auth
pub mod Marks
pub mod Values
pub mod Scope
pub mod Safe
pub mod Items
pub mod Namespaces
pub mod Snapshots
pub mod Pull
pub mod Upload
pub mod Run
pub mod Resolve
pub mod Invites
pub mod Access
