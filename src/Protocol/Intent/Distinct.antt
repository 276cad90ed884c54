-- ===== src/Protocol/Intent/Distinct.antt =====
-- protocol/crypto.go: one signed payload says one thing.
use bitboxsync_client_go.Prelude.{
  ℕ, ◌<◌, ◌^◌, [], ◌∷◌, ◌++◌, ◌≡◌, refl, sym, ap, ◌∙◌, drop, append-cancel, arith,
}
use bitboxsync_client_go.Prelude.Bytes.{Bytes, put_uint64, put_uint64_inj}
use bitboxsync_client_go.Result.{ok}
use bitboxsync_client_go.Protocol.Intent.{
  intent_prefix, join_request_prefix, login_intent, refresh_intent, sensitive_action_intent,
  join_request_payload,
}
use bitboxsync_client_go.Protocol.Intent.Parts.{
  Statement, log_in, refresh_token, sensitive_action, join_request, payload, IsMachineSized,
  action_code_inj, login_parts, refresh_parts, sensitive_parts, join_parts,
}

-- what follows the common prefix of two equal intents
after_prefix : (xs : Bytes) {us vs b : Bytes} → xs ++ us ≡ b → xs ++ vs ≡ b → us ≡ vs
after_prefix xs e e' = (append-cancel xs xs refl (e ∙ sym e')).1

abbrev head : Bytes → ℕ
head [] = 0
head (x ∷ xs) = x

module _ {b : Bytes} where
  login_inj :
      (c k i a w c' k' i' a' w' : Bytes)
      → login_intent c k i a w ≡ ok b
      → login_intent c' k' i' a' w' ≡ ok b
      → log_in c k i a w ≡ log_in c' k' i' a' w'
  login_inj c k i a w c' k' i' a' w' h h' =
      let (lc, li, la, kk, e) = login_parts c k i a w h in
      let (lc', li', la', kk', e') = login_parts c' k' i' a' w' h' in
      let t : c ++ (1 ∷ (i ++ (a ++ w))) ≡ c' ++ (1 ∷ (i' ++ (a' ++ w'))) =
        cc (after_prefix intent_prefix e e') in
      let (ec, t1) = append-cancel c c' (cc (lc, lc')) t in
      let t2 : i ++ (a ++ w) ≡ i' ++ (a' ++ w') = cc t1 in
      let (ei, t3) = append-cancel i i' (cc (li, li')) t2 in
      let (ea, ew) = append-cancel a a' (cc (la, la')) t3 in cc (ec, ei, ea, ew, kk, kk')

  refresh_inj :
      (c k i c' k' i' : Bytes)
      → refresh_intent c k i ≡ ok b
      → refresh_intent c' k' i' ≡ ok b
      → refresh_token c k i ≡ refresh_token c' k' i'
  refresh_inj c k i c' k' i' h h' =
      let (lc, kk, e) = refresh_parts c k i h in
      let (lc', kk', e') = refresh_parts c' k' i' h' in
      let t : c ++ (1 ∷ i) ≡ c' ++ (1 ∷ i') = cc (after_prefix intent_prefix e e') in
      let (ec, t1) = append-cancel c c' (cc (lc, lc')) t in cc (ec, t1, kk, kk')

  sensitive_inj :
      (c a k i f c' a' k' i' f' : Bytes)
      → sensitive_action_intent c a k i f ≡ ok b
      → sensitive_action_intent c' a' k' i' f' ≡ ok b
      → sensitive_action c a k i f ≡ sensitive_action c' a' k' i' f'
  sensitive_inj c a k i f c' a' k' i' f' h h' =
      let (n, ha, lc, li, kk, e) = sensitive_parts c a k i f h in
      let (n', ha', lc', li', kk', e') = sensitive_parts c' a' k' i' f' h' in
      let tagged = after_prefix intent_prefix e e' in
      let en : n ≡ n' = cc tagged in
      let t : c ++ (1 ∷ (i ++ f)) ≡ c' ++ (1 ∷ (i' ++ f')) = cc tagged in
      let (ec, t1) = append-cancel c c' (cc (lc, lc')) t in
      let t2 : i ++ f ≡ i' ++ f' = cc t1 in
      let (ei, ef) = append-cancel i i' (cc (li, li')) t2 in
      let ea = action_code_inj a a' ha (rw (en) ha') in cc (ec, ei, ef, ea, kk, kk')

  join_inj :
      (k n v o i a w : Bytes) (t : ℕ) (k' n' v' o' i' a' w' : Bytes) (t' : ℕ)
      → t < 2 ^ 64
      → t' < 2 ^ 64
      → join_request_payload k n v o i a w t ≡ ok b
      → join_request_payload k' n' v' o' i' a' w' t' ≡ ok b
      → join_request k n v o i a w t ≡ join_request k' n' v' o' i' a' w' t'
  join_inj k n v o i a w t k' n' v' o' i' a' w' t' ht ht' h h' =
      let (ln, lv, lo, li, la, lw, kk, e) = join_parts k n v o i a w t h in
      let (ln', lv', lo', li', la', lw', kk', e') = join_parts k' n' v' o' i' a' w' t' h' in
      let r0 : n ++ (v ++ (o ++ (1 ∷ (i ++ (a ++ (w ++ put_uint64 t))))))
          ≡ n' ++ (v' ++ (o' ++ (1 ∷ (i' ++ (a' ++ (w' ++ put_uint64 t')))))) =
        cc (after_prefix join_request_prefix e e') in
      let (en, r1) = append-cancel n n' (cc (ln, ln')) r0 in
      let (ev, r2) = append-cancel v v' (cc (lv, lv')) r1 in
      let (eo, r3) = append-cancel o o' (cc (lo, lo')) r2 in
      let r4 : i ++ (a ++ (w ++ put_uint64 t)) ≡ i' ++ (a' ++ (w' ++ put_uint64 t')) = cc r3 in
      let (ei, r5) = append-cancel i i' (cc (li, li')) r4 in
      let (ea, r6) = append-cancel a a' (cc (la, la')) r5 in
      let (ew, r7) = append-cancel w w' (cc (lw, lw')) r6 in
      cc (en, ev, eo, ei, ea, ew, kk, kk', put_uint64_inj ht ht' r7)

  -- payloads of two kinds differ: intents in the byte after the version, and a join request in
  -- its prefix
  login-refresh :
      (c k i a w c' k' i' : Bytes)
      → login_intent c k i a w ≡ ok b
      → refresh_intent c' k' i' ≡ ok b
      → ⊥
  login-refresh c k i a w c' k' i' h h' =
      let (lc, li, la, kk, e) = login_parts c k i a w h in
      let (lc', kk', e') = refresh_parts c' k' i' h' in cc (after_prefix intent_prefix e e')

  login-sensitive :
      (c k i a w c' n' k' i' f' : Bytes)
      → login_intent c k i a w ≡ ok b
      → sensitive_action_intent c' n' k' i' f' ≡ ok b
      → ⊥
  login-sensitive c k i a w c' n' k' i' f' h h' =
      let (lc, li, la, kk, e) = login_parts c k i a w h in
      let (m, ha, lc', li', kk', e') = sensitive_parts c' n' k' i' f' h' in
      cc (after_prefix intent_prefix e e')

  refresh-sensitive :
      (c k i c' n' k' i' f' : Bytes)
      → refresh_intent c k i ≡ ok b
      → sensitive_action_intent c' n' k' i' f' ≡ ok b
      → ⊥
  refresh-sensitive c k i c' n' k' i' f' h h' =
      let (lc, kk, e) = refresh_parts c k i h in
      let (m, ha, lc', li', kk', e') = sensitive_parts c' n' k' i' f' h' in
      cc (after_prefix intent_prefix e e')

  intent-join :
      {rest : Bytes} (k n v o i a w : Bytes) (t : ℕ)
      → intent_prefix ++ rest ≡ b
      → join_request_payload k n v o i a w t ≡ ok b
      → ⊥
  intent-join k n v o i a w t e h' =
      let (ln, lv, lo, li, la, lw, kk, e') = join_parts k n v o i a w t h' in
      let d : b'i' ≡ b'j' = ap (λ bs. head (drop 11 bs)) (e ∙ sym e') in omega (arith, d)

  join_request-payload :
      (p : Statement) (k n v o i a w : Bytes) (t : ℕ)
      → IsMachineSized p
      → t < 2 ^ 64
      → payload p ≡ ok b
      → join_request_payload k n v o i a w t ≡ ok b
      → p ≡ join_request k n v o i a w t
  unfolding payload
  join_request-payload (log_in c k' i' a' w') k n v o i a w t f f' h h' =
      let (lc, li, la, kk, e) = login_parts c k' i' a' w' h in
      absurd (intent-join k n v o i a w t e h')
  join_request-payload (refresh_token c k' i') k n v o i a w t f f' h h' =
      let (lc, kk, e) = refresh_parts c k' i' h in absurd (intent-join k n v o i a w t e h')
  join_request-payload (sensitive_action c n' k' i' fs) k n v o i a w t f f' h h' =
      let (m, ha, lc, li, kk, e) = sensitive_parts c n' k' i' fs h in
      absurd (intent-join k n v o i a w t e h')
  join_request-payload (join_request k' n' v' o' i' a' w' t') k n v o i a w t f f' h h' =
      join_inj k' n' v' o' i' a' w' t' k n v o i a w t f f' h h'

  -- Two statements with one payload are one statement, for expiries that are uint64: a signature for
  -- a login, a refresh, a sensitive action or a join request stands for no other kind, challenge,
  -- key, namespace, invite, server or expiry.
  pub payload_inj :
      (p q : Statement)
      → IsMachineSized p
      → IsMachineSized q
      → payload p ≡ ok b
      → payload q ≡ ok b
      → p ≡ q
  unfolding payload
  payload_inj p (join_request k n v o i a w t) f f' h h' =
      join_request-payload p k n v o i a w t f f' h h'
  payload_inj (join_request k n v o i a w t) q f f' h h' =
      sym (join_request-payload q k n v o i a w t f' f h' h)
  payload_inj (log_in c k i a w) (log_in c' k' i' a' w') f f' h h' =
      login_inj c k i a w c' k' i' a' w' h h'
  payload_inj (log_in c k i a w) (refresh_token c' k' i') f f' h h' =
      absurd (login-refresh c k i a w c' k' i' h h')
  payload_inj (log_in c k i a w) (sensitive_action c' n' k' i' fs') f f' h h' =
      absurd (login-sensitive c k i a w c' n' k' i' fs' h h')
  payload_inj (refresh_token c k i) (log_in c' k' i' a' w') f f' h h' =
      absurd (login-refresh c' k' i' a' w' c k i h' h)
  payload_inj (refresh_token c k i) (refresh_token c' k' i') f f' h h' =
      refresh_inj c k i c' k' i' h h'
  payload_inj (refresh_token c k i) (sensitive_action c' n' k' i' fs') f f' h h' =
      absurd (refresh-sensitive c k i c' n' k' i' fs' h h')
  payload_inj (sensitive_action c n k i fs) (log_in c' k' i' a' w') f f' h h' =
      absurd (login-sensitive c' k' i' a' w' c n k i fs h' h)
  payload_inj (sensitive_action c n k i fs) (refresh_token c' k' i') f f' h h' =
      absurd (refresh-sensitive c' k' i' c n k i fs h' h)
  payload_inj (sensitive_action c n k i fs) (sensitive_action c' n' k' i' fs') f f' h h' =
      sensitive_inj c n k i fs c' n' k' i' fs' h h'
