-- ===== src/Protocol/Intent/Parts.antt =====
-- protocol/crypto.go: the four kinds of signed payload, and what each is made of.
use bitboxsync_client_go.Prelude.{ℕ, ◌<◌, ◌^◌, ◌∷◌, ◌++◌, length, ◌≡◌, Bool-cases, inl, inr, arith}
use bitboxsync_client_go.Prelude.Bytes.{Bytes, bytes_eq, bytes_eq_iff, put_uint64}
use bitboxsync_client_go.Result.{Result, ok, ◌>>=◌}
use bitboxsync_client_go.Result.Steps.{bind_ok, require_ok, ok_inj}
use bitboxsync_client_go.Protocol.Intent.{
  identity_kind_keystore, revoke_all_tokens_action, create_namespace_invite_action, intent_prefix,
  join_request_prefix, kind_code, sensitive_action_code, login_intent, refresh_intent,
  sensitive_action_intent, join_request_payload,
}

-- What a keystore signs, by the arguments of the functions that build the payload.
pub data Statement : Type 0 where
  log_in : (challenge kind key_id auth_key wrap_key : Bytes) → Statement
  refresh_token : (challenge kind key_id : Bytes) → Statement
  sensitive_action : (challenge action kind key_id action_fields : Bytes) → Statement
  join_request :
      (kind namespace_id invite_id origin_hash key_id auth_key wrap_key : Bytes) (expires_at : ℕ)
      → Statement

unfoldable pub payload : Statement → Result Bytes
payload (log_in c k i a w) = login_intent c k i a w
payload (refresh_token c k i) = refresh_intent c k i
payload (sensitive_action c n k i f) = sensitive_action_intent c n k i f
payload (join_request k n v o i a w t) = join_request_payload k n v o i a w t

-- An expiry is a uint64.
abbrev pub IsMachineSized : Statement → Type 0
IsMachineSized (join_request k n v o i a w t) = t < 2 ^ 64
IsMachineSized _ = Unit

kind_step :
    (k : Bytes) (f : ℕ → Result Bytes) {b : Bytes}
    → kind_code k >>= f ≡ ok b
    → (k ≡ identity_kind_keystore) × (f 1 ≡ ok b)
unfolding kind_code
kind_step k f h = elim (Bool-cases (bytes_eq k identity_kind_keystore)) [
  | inl same ↦ ((bytes_eq_iff k identity_kind_keystore).0 same, ground arith)
  | inr differs ↦ absurd (ground arith)
]

pub action_code_inj :
    (a a' : Bytes) {n : ℕ}
    → sensitive_action_code a ≡ ok n
    → sensitive_action_code a' ≡ ok n
    → a ≡ a'
unfolding sensitive_action_code
action_code_inj a a' {n} h h' = ground (
  arith,
  bytes_eq_iff a revoke_all_tokens_action,
  bytes_eq_iff a' revoke_all_tokens_action,
  bytes_eq_iff a create_namespace_invite_action,
  bytes_eq_iff a' create_namespace_invite_action,
)

pub login_parts :
    (c k i a w : Bytes) {b : Bytes}
    → login_intent c k i a w ≡ ok b
    → (length c ≡ 32)
      × (length i ≡ 32)
      × (length a ≡ 32)
      × (k ≡ identity_kind_keystore)
      × (intent_prefix ++ (1 ∷ 1 ∷ (c ++ (1 ∷ (i ++ (a ++ w))))) ≡ b)
unfolding login_intent
login_parts c k i a w h =
    let (lc, h1) = require_ok (length c) 32 _ _ h in
    let (li, h2) = require_ok (length i) 32 _ _ h1 in
    let (la, h3) = require_ok (length a) 32 _ _ h2 in
    let (lw, h4) = require_ok (length w) 32 _ _ h3 in
    let (kk, h5) = kind_step k _ h4 in (lc, li, la, kk, ok_inj h5)

pub refresh_parts :
    (c k i : Bytes) {b : Bytes}
    → refresh_intent c k i ≡ ok b
    → (length c ≡ 32)
      × (k ≡ identity_kind_keystore)
      × (intent_prefix ++ (1 ∷ 2 ∷ (c ++ (1 ∷ i))) ≡ b)
unfolding refresh_intent
refresh_parts c k i h =
    let (lc, h1) = require_ok (length c) 32 _ _ h in
    let (li, h2) = require_ok (length i) 32 _ _ h1 in
    let (kk, h5) = kind_step k _ h2 in (lc, kk, ok_inj h5)

pub sensitive_parts :
    (c a k i f : Bytes) {b : Bytes}
    → sensitive_action_intent c a k i f ≡ ok b
    → (n : ℕ) × (sensitive_action_code a ≡ ok n)
      × (length c ≡ 32)
      × (length i ≡ 32)
      × (k ≡ identity_kind_keystore)
      × (intent_prefix ++ (1 ∷ 3 ∷ n ∷ (c ++ (1 ∷ (i ++ f)))) ≡ b)
unfolding sensitive_action_intent
sensitive_parts c a k i f h =
    let (lc, h1) = require_ok (length c) 32 _ _ h in
    let (li, h2) = require_ok (length i) 32 _ _ h1 in
    let (n, ha, h3) = bind_ok (sensitive_action_code a) _ h2 in
    let (kk, h5) = kind_step k _ h3 in (n, ha, lc, li, kk, ok_inj h5)

pub join_parts :
    (k n v o i a w : Bytes) (t : ℕ) {b : Bytes}
    → join_request_payload k n v o i a w t ≡ ok b
    → (length n ≡ 16)
      × (length v ≡ 16)
      × (length o ≡ 32)
      × (length i ≡ 32)
      × (length a ≡ 32)
      × (length w ≡ 32)
      × (k ≡ identity_kind_keystore)
      × (join_request_prefix ++ (1 ∷ (n ++ (v ++ (o ++ (1 ∷ (i ++ (a ++ (w ++ put_uint64 t))))))))
          ≡ b)
unfolding join_request_payload
join_parts k n v o i a w t h =
    let (ln, h1) = require_ok (length n) 16 _ _ h in
    let (lv, h2) = require_ok (length v) 16 _ _ h1 in
    let (lo, h3) = require_ok (length o) 32 _ _ h2 in
    let (li, h4) = require_ok (length i) 32 _ _ h3 in
    let (la, h5) = require_ok (length a) 32 _ _ h4 in
    let (lw, h6) = require_ok (length w) 32 _ _ h5 in
    let (kk, h7) = kind_step k _ h6 in (ln, lv, lo, li, la, lw, kk, ok_inj h7)
