-- ===== src/Sync/Run/Safe.antt =====
-- A whole sync pass keeps the stored items valid and takes no version back.
use bitboxsync_client_go.Prelude.Bytes.{Bytes}
use bitboxsync_client_go.Result.{Result}
use bitboxsync_client_go.Engine.State.{Engine, State, Tables}
use bitboxsync_client_go.Sync.Safe.{Start, Safe, DatabaseLaws, HmacLaws}
use bitboxsync_client_go.Sync.Safe.Keeps.{Keeps}

module _ {X : Type 0} (e : Engine X) (in_play : Bytes → Bytes → Bytes → Type 0) where
  abbrev pub started : Tables → Start
  started t₀ = record { tables = t₀; crypto = e.crypto; in_play = in_play }

  module _ (t₀ : Tables) (laws : DatabaseLaws (started t₀) e.database)
      (macs : HmacLaws (started t₀)) where
    abbrev from : Start
    from = started t₀
