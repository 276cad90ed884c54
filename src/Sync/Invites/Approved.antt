-- ===== src/Sync/Invites/Approved.antt =====
-- bitboxsync/namespace_invites.go: ApproveJoinRequest verifies the request at the time of the call.
use bitboxsync_client_go.Prelude.{◌≡◌, refl}
use bitboxsync_client_go.Prelude.Bytes.{Bytes}
use bitboxsync_client_go.Result.{Error, Result, ok, err}
use bitboxsync_client_go.Api.Invites.{NamespaceInviteToken, NamespaceJoinRequestEntry}
use bitboxsync_client_go.Engine.State.{Engine, State, lift, now, ◌>>=◌}
use bitboxsync_client_go.Sync.Invites.{
  ParsedNamespaceJoinRequest, VerifiedJoinRequest, verify_join_request_for_approval,
}
use bitboxsync_client_go.Sync.Invites.Fresh.{IsFresh}
use bitboxsync_client_go.Sync.Invites.Parsed.{IsSpelled}
use bitboxsync_client_go.Sync.Invites.Approval.{IsProven, verify_join_request_sound}
use bitboxsync_client_go.Sync.Invites.Manage.{approve_join_request}

module _ {X : Type 0} (e : Engine X) (n : Bytes) (invite : NamespaceInviteToken)
    (entry : NamespaceJoinRequestEntry) where
  -- the verification at the time that the clock answers
  abbrev pub verified_now : State X → Result VerifiedJoinRequest
  verified_now s =
      verify_join_request_for_approval e.urls e.crypto n invite entry (e.now s.outside).0

  approve-refused :
      (s : State X) (x : Error)
      → verified_now s ≡ err x
      → approve_join_request e n invite entry s
        ≡ (err x, record s { outside = (e.now s.outside).1 })
  unfolding approve_join_request now lift ◌>>=◌
  approve-refused s x h = rw h refl

  -- ApproveJoinRequest, whatever the server and the keystore answer: a request that the verification
  -- refuses at the time of the clock is refused with that error, and nothing but the clock has been
  -- asked; and when it returns without an error, then at that time invite and request were for this
  -- namespace and one invite, the request had not expired and did not outlive the invite, and it was
  -- signed and proven by the requester.
  pub approve_join_request_sound :
      (s : State X)
      → ((x : Error)
          → verified_now s ≡ err x
          → approve_join_request e n invite entry s
            ≡ (err x, record s { outside = (e.now s.outside).1 }))
        × ((approve_join_request e n invite entry s).0 ≡ ok tt
            → IsFresh e.urls n invite entry.join_request (e.now s.outside).0
              × (v : VerifiedJoinRequest) × (verified_now s ≡ ok v)
              × (p : ParsedNamespaceJoinRequest) × IsSpelled e.urls e.crypto entry.join_request p
              × IsProven e.crypto invite entry p v)
  approve_join_request_sound s = (approve-refused s, λ done. by_result (verified_now s) refl done)
    where
      by_result :
          (r : Result VerifiedJoinRequest)
          → verified_now s ≡ r
          → (approve_join_request e n invite entry s).0 ≡ ok tt
          → IsFresh e.urls n invite entry.join_request (e.now s.outside).0
            × (v : VerifiedJoinRequest) × (verified_now s ≡ ok v)
            × (p : ParsedNamespaceJoinRequest) × IsSpelled e.urls e.crypto entry.join_request p
            × IsProven e.crypto invite entry p v
      by_result (err x) h done = let refused = approve-refused s x h in absurd (cc (refused, done))
      by_result (ok v) h done =
          let (fresh, p, spelled, proven) =
            verify_join_request_sound e.urls e.crypto n invite entry (e.now s.outside).0 h in
          (fresh, v, h, p, spelled, proven)
