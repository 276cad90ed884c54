-- ===== src/Sqlite/Forget.antt =====
-- What the two clearing transactions leave in the tables.
use bitboxsync_client_go.Prelude.{
  true, false, not, List, [], ◌∷◌, ◌≡◌, refl, arith, All, map, Bool-cases, inl, inr,
}
use bitboxsync_client_go.Prelude.Bytes.{Bytes, bytes_eq}
use bitboxsync_client_go.Types.{IdentityState, NamespaceState}
use bitboxsync_client_go.Engine.State.{Engine, Tables, modify}
use bitboxsync_client_go.Engine.Ensures.{
  Ensures, bind-quiet, bind-tables, call-IsQuiet, now-IsQuiet,
}
use bitboxsync_client_go.Sqlite.{exec, put_rows, forget_identity_secrets, reset_sync_state}
use bitboxsync_client_go.Sqlite.Rows.{select}

module _ {A : Type 0} (key : A → Bytes) where
  All-map : (P : A → Type 0) (f : A → A) (xs : List A) → ((x : A) → P (f x)) → All P (map f xs)
  All-map P f [] h = tt
  All-map P f (x ∷ xs) h = (h x, All-map P f xs h)

  -- rows of other keys
  abbrev pub others : Bytes → List A → List A
  others k = select (λ x. not (bytes_eq (key x) k))

  others-map :
      (k : Bytes) (f : A → A) (xs : List A)
      → ((x : A) → key (f x) ≡ key x)
      → ((x : A) → bytes_eq (key x) k ≡ false → f x ≡ x)
      → others k (map f xs) ≡ others k xs
  unfolding select
  others-map k f [] same fixed = refl
  others-map k f (x ∷ xs) same fixed = elim (Bool-cases (bytes_eq (key x) k)) [
    | inl mine ↦ rw (same x, mine) (others-map k f xs same fixed)
    | inr other' ↦ rw (same x, other', fixed x other', others-map k f xs same fixed) refl
  ]

  others-select : (k : Bytes) (xs : List A) → All (λ x. bytes_eq (key x) k ≡ false) (others k xs)
  unfolding select
  others-select k [] = tt
  others-select k (x ∷ xs) = elim (Bool-cases (bytes_eq (key x) k)) [
    | inl mine ↦ rw mine (others-select k xs)
    | inr other' ↦ rw other' (other', others-select k xs)
  ]

  others_twice : (k : Bytes) (xs : List A) → others k (others k xs) ≡ others k xs
  unfolding select
  others_twice k [] = refl
  others_twice k (x ∷ xs) = elim (Bool-cases (bytes_eq (key x) k)) [
    | inl mine ↦ rw mine (others_twice k xs)
    | inr other' ↦ rw (other', other', others_twice k xs) refl
  ]

-- the identity holds no token any more
abbrev pub HasNoToken : Bytes → IdentityState → Type 0
HasNoToken k row = bytes_eq row.key_id k ≡ true → (row.access_token ≡ []) × (row.token_expiry ≡ 0)

abbrev pub HasNoDek : Bytes → NamespaceState → Type 0
HasNoDek k row = bytes_eq row.key_id k ≡ true → row.dek ≡ []

-- the tables after the secrets of one key are forgotten
pub record Forgotten (k : Bytes) (before after : Tables) : Type 0 where
  pub tokens : All (HasNoToken k) after.identities
  pub deks : All (HasNoDek k) after.namespaces
  pub other_identities :
      others (λ r. r.key_id) k after.identities ≡ others (λ r. r.key_id) k before.identities
  pub other_namespaces :
      others (λ r. r.key_id) k after.namespaces ≡ others (λ r. r.key_id) k before.namespaces
  pub items : after.items ≡ before.items

-- the tables after the sync state of one key is reset
pub record IsReset (k : Bytes) (before after : Tables) : Type 0 where
  pub no_items : All (λ row. bytes_eq row.key_id k ≡ false) after.items
  pub no_namespaces : All (λ row. bytes_eq row.key_id k ≡ false) after.namespaces
  pub no_default :
      All (λ row. bytes_eq row.key_id k ≡ true → row.default_namespace_id ≡ []) after.identities
  pub other_items : others (λ r. r.key_id) k after.items ≡ others (λ r. r.key_id) k before.items
  pub other_namespaces :
      others (λ r. r.key_id) k after.namespaces ≡ others (λ r. r.key_id) k before.namespaces
  pub other_identities :
      others (λ r. r.key_id) k after.identities ≡ others (λ r. r.key_id) k before.identities

module _ {X : Type 0} (e : Engine X) (t₀ : Tables) (k : Bytes) where
  -- ForgetIdentitySecrets leaves no token and no DEK of the key, the rows of other keys and all
  -- items as they were; when it fails it has changed nothing.
  pub forget_identity_secrets-Forgotten :
      Ensures (λ t. t ≡ t₀) (forget_identity_secrets e k) (λ _. Forgotten k t₀) (λ t. t ≡ t₀)
  unfolding forget_identity_secrets exec put_rows modify
  forget_identity_secrets-Forgotten =
      bind-quiet (now-IsQuiet e) (λ t p. p)
        λ now_at.
          bind-quiet (call-IsQuiet _) (λ t p. p)
            λ _.
              bind-quiet (call-IsQuiet _) (λ t p. p)
                λ _.
                  bind-quiet (call-IsQuiet _) (λ t p. p)
                    λ _.
                      bind-quiet (call-IsQuiet _) (λ t p. p)
                        λ _. bind-tables λ tables. record {
                          at = λ s (p, same).
                              let e' : tables ≡ t₀ = cc (p, same) in
                              rw e' (record {
                                tokens =
                                    All-map (λ r. r.key_id) (HasNoToken k) _ t₀.identities
                                      (λ row h. ground arith);
                                deks =
                                    All-map (λ r. r.key_id) (HasNoDek k) _ t₀.namespaces
                                      (λ row h. ground arith);
                                other_identities =
                                    others-map (λ r. r.key_id) k _ t₀.identities
                                      (λ row. ground arith) (λ row h. rw h refl);
                                other_namespaces =
                                    others-map (λ r. r.key_id) k _ t₀.namespaces
                                      (λ row. ground arith) (λ row h. rw h refl);
                                items = refl;
                              });
                        }

  -- ResetSyncState leaves no item, no namespace and no default namespace of the key, and the rows of
  -- other keys as they were; when it fails it has changed nothing.
  pub reset_sync_state-IsReset :
      Ensures (λ t. t ≡ t₀) (reset_sync_state e k) (λ _. IsReset k t₀) (λ t. t ≡ t₀)
  unfolding reset_sync_state exec put_rows modify
  reset_sync_state-IsReset =
      bind-quiet (now-IsQuiet e) (λ t p. p)
        λ now_at.
          bind-quiet (call-IsQuiet _) (λ t p. p)
            λ _.
              bind-quiet (call-IsQuiet _) (λ t p. p)
                λ _.
                  bind-quiet (call-IsQuiet _) (λ t p. p)
                    λ _.
                      bind-quiet (call-IsQuiet _) (λ t p. p)
                        λ _.
                          bind-quiet (call-IsQuiet _) (λ t p. p)
                            λ _. bind-tables λ tables. record {
                              at = λ s (p, same).
                                  let e' : tables ≡ t₀ = cc (p, same) in
                                  rw e' (record {
                                    no_items = others-select (λ r. r.key_id) k t₀.items;
                                    no_namespaces = others-select (λ r. r.key_id) k t₀.namespaces;
                                    no_default =
                                        All-map (λ r. r.key_id) _ _ t₀.identities
                                          (λ row h. ground arith);
                                    other_items = others_twice (λ r. r.key_id) k t₀.items;
                                    other_namespaces = others_twice (λ r. r.key_id) k t₀.namespaces;
                                    other_identities =
                                        others-map (λ r. r.key_id) k _ t₀.identities
                                          (λ row. ground arith) (λ row h. rw h refl);
                                  });
                            }
