-- ===== src/Sync/Invites/Fresh.antt =====
-- bitboxsync/namespace_invites.go: invite and join request agree and are in time.
use bitboxsync_client_go.Prelude.{ℕ, ◌<◌, ◌≤◌, not, ◌||◌, false, ◌≡◌, refl, ◌∙◌, arith}
use bitboxsync_client_go.Prelude.Bytes.{Bytes, bytes_eq, bytes_eq_iff}
use bitboxsync_client_go.Prelude.Int.{ℤ, pos, negsuc, ltz, lez, eqz}
use bitboxsync_client_go.Result.{ok}
use bitboxsync_client_go.Result.Steps.{bind_ok, refuse_ok, same_ok}
use bitboxsync_client_go.Api.Invites.{NamespaceInviteToken, NamespaceJoinRequest}
use bitboxsync_client_go.Protocol.Url.{UrlParser}
use bitboxsync_client_go.Protocol.Intent.{identity_kind_keystore}
use bitboxsync_client_go.Protocol.InviteToken.{namespace_join_request_version}
use bitboxsync_client_go.Protocol.Origin.{canonical_server_origin}
use bitboxsync_client_go.Sync.Invites.{unix, check_coordinates}

-- Invite and request name one namespace, one invite and one canonical origin, and neither has expired.
pub record IsFresh (u : UrlParser) (namespace_id : Bytes) (invite : NamespaceInviteToken)
    (r : NamespaceJoinRequest) (now : ℕ) : Type 0 where
  pub invite_namespace : invite.namespace_id ≡ namespace_id
  pub request_namespace : r.namespace_id ≡ namespace_id
  pub same_invite : r.invite_id ≡ invite.invite_id
  pub same_origin : r.server_origin ≡ invite.server_origin
  pub canonical_origin : canonical_server_origin u invite.server_origin ≡ ok invite.server_origin
  pub expiry : ℕ
  pub invite_expiry : ℕ
  pub request_expires : r.expires_at ≡ pos expiry
  pub invite_expires : invite.expires_at ≡ pos invite_expiry
  pub in_time : unix now < expiry
  pub within_invite : expiry ≤ invite_expiry

module _ (u : UrlParser) (n : Bytes) (invite : NamespaceInviteToken)
    (r : NamespaceJoinRequest) where
  in_order :
      (now : ℕ) (a b : ℤ)
      → lez a (pos (unix now)) ≡ false
      → ltz b a ≡ false
      → (t : ℕ) × (t' : ℕ) × (a ≡ pos t) × (b ≡ pos t') × (unix now < t) × (t ≤ t')
  in_order now (pos t) (pos t') h h' = (t, t', refl, refl, ground arith, ground arith)
  in_order now (pos t) (negsuc t') h h' = absurd (ground arith)
  in_order now (negsuc t) b h h' = absurd (ground arith)

  pub check_coordinates-IsFresh :
      (now : ℕ) → check_coordinates u n invite r now ≡ ok tt → IsFresh u n invite r now
  unfolding check_coordinates
  check_coordinates-IsFresh now h =
      let (v, h1) = refuse_ok (not (eqz invite.version namespace_join_request_version)) _ _ h in
      let (p, h2) = refuse_ok (lez invite.expires_at (pos 0)) _ _ h1 in
      let (live, h3) = refuse_ok (lez invite.expires_at (pos (unix now))) _ _ h2 in
      let (spaces, h4) =
        refuse_ok (not (bytes_eq invite.namespace_id n) || not (bytes_eq r.namespace_id n)) _ _
          h3 in
      let (inv, h5) = same_ok r.invite_id invite.invite_id _ _ h4 in
      let (origin, canon, h6) = bind_ok (canonical_server_origin u invite.server_origin) _ h5 in
      let (o, h7) = same_ok origin invite.server_origin _ _ h6 in
      let (o', h8) = same_ok r.server_origin origin _ _ h7 in
      let (rv, h9) = refuse_ok (not (eqz r.version namespace_join_request_version)) _ _ h8 in
      let (k, h10) = same_ok r.kind identity_kind_keystore _ _ h9 in
      let (rlive, h11) = refuse_ok (lez r.expires_at (pos (unix now))) _ _ h10 in
      let within : ltz invite.expires_at r.expires_at ≡ false = ground arith in
      let (t, t', et, et', lt, le) = in_order now r.expires_at invite.expires_at rlive within in
      record {
        invite_namespace = (bytes_eq_iff invite.namespace_id n).0 (ground arith);
        request_namespace = (bytes_eq_iff r.namespace_id n).0 (ground arith);
        same_invite = inv;
        same_origin = o' ∙ o;
        canonical_origin = cc (canon, o);
        expiry = t;
        invite_expiry = t';
        request_expires = et;
        invite_expires = et';
        in_time = lt;
        within_invite = le;
      }
