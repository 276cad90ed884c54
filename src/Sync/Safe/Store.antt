-- ===== src/Sync/Safe/Store.antt =====
-- The store's operations on items and namespaces keep the items safe.
use native.Mathlib.Nat.{le_refl}
use bitboxsync_client_go.Prelude.{
  ℕ, ◌≤◌, ◌<◌, ◌^◌, true, false, ◌≡◌, refl, Option, none, some, arith, All, Bool-cases, inl, inr,
}
use bitboxsync_client_go.Prelude.Bytes.{Bytes}
use bitboxsync_client_go.Result.{Error, Result, ok, err, is_not_found}
use bitboxsync_client_go.Types.{ItemState}
use bitboxsync_client_go.Sqlite.{
  exec, query, stamp, or_not_found, put_rows, save_item, get_item_by_id,
}
use bitboxsync_client_go.Sqlite.Rows.{find, upsert, same_item, has_item_id}
use bitboxsync_client_go.Engine.State.{
  Engine, Tables, State, gets, call, attempt, modify, continue, ◌>>=◌,
}
use bitboxsync_client_go.Engine.Ensures.{
  Ensures, IsQuiet, Post, Ensures-bind, bind-quiet, bind-refuse, bind-tables, quiet_rules,
}
use bitboxsync_client_go.Sync.Safe.{
  Start, IsNamed, FitsText, IsTaken, item_numbers, item_texts, IsValid, Safe, Current, DatabaseLaws,
  stored_version,
}
use bitboxsync_client_go.Sync.Safe.Rows.{
  IsUnique-upsert, find-upsert, All-upsert, find-IsStored, has_item_id_iff,
}

-- writing a current item keeps the tables safe
Safe-upsert :
    (t₀ : Start) (t : Tables) (item : ItemState)
    → Current t₀ item t
    → item.version < 2 ^ 63
    → IsTaken t₀ item
    → Safe t₀ (record t { items = upsert same_item item t.items })
Safe-upsert t₀ t item c fits short = record {
  grows = λ k n i. rw (find-upsert k n i item t.items) (elim (Bool-cases (has_item_id k n i item)) [
    | inl same ↦ rw same (newest k n i same)
    | inr other' ↦ rw other' (c.safe.grows k n i)
  ]);
  valid = All-upsert t₀ item t.items (c.valid, fits, c.named, short) c.safe.valid;
  unique = IsUnique-upsert item t.items c.safe.unique;
}
  where
    newest :
        (k n i : Bytes)
        → has_item_id k n i item ≡ true
        → stored_version k n i t₀.tables.items ≤ item.version
    newest k n i same =
        let (a, b, d) = has_item_id_iff k n i item same in
        rw (← a, ← b, ← d)
          (omega (arith, c.newest short, c.safe.grows item.key_id item.namespace_id item.item_id))

-- what a search for an item leaves
abbrev pub Found : Start → Bytes → Bytes → Bytes → Result ItemState → Tables → Type 0
Found t₀ k n i (ok item) t =
    Current t₀ item t
    × (item.key_id ≡ k)
    × (item.namespace_id ≡ n)
    × (item.item_id ≡ i)
    × (item.version < 2 ^ 63)
Found t₀ k n i (err x) t = Safe t₀ t × (is_not_found x ≡ true → stored_version k n i t.items ≡ 0)

module _ {X : Type 0} (e : Engine X) (t₀ : Start) (laws : DatabaseLaws t₀ e.database) where
  -- a saved item had numbers that fit, texts that fit and a name in play
  exec_saves :
      (row : ItemState) {P E : Tables → Type 0}
      → ((t : Tables) → P t → E t)
      → Ensures P
          (exec e (item_numbers row) (item_texts row))
          (λ _ t. P t × (row.version < 2 ^ 63) × IsTaken t₀ row)
          E
  unfolding exec call
  exec_saves row {P} {E} he = record {
    at = λ s p.
        let (r, x) = e.database.exec (item_numbers row) (item_texts row) s.outside in
        step r (record s { outside = x })
          (laws.exec_high_bit (item_numbers row) (item_texts row) s.outside)
          (laws.exec_long_text (item_numbers row) (item_texts row) s.outside)
          (laws.exec_in_play row s.outside) p;
  }
    where
      step :
          (r : Result (Unit {0})) (s : State X)
          → (r ≡ ok tt → All (λ n. n < 2 ^ 63) (item_numbers row))
          → (r ≡ ok tt → All FitsText (item_texts row))
          → (r ≡ ok tt → t₀.in_play row.item_id row.collection row.key)
          → P s.tables
          → Post (λ _ t. P t × (row.version < 2 ^ 63) × IsTaken t₀ row) E (r, s)
      step (ok _) s h g f p = (p, (h refl).0, ((g refl).1.1.0, (g refl).1.1.1.0, f refl))
      step (err x) s h g f p = he s.tables p

  stamp-IsQuiet : (t : ℕ) → IsQuiet (stamp e t)
  unfolding stamp
  stamp-IsQuiet t = search quiet_rules

  query-IsQuiet : IsQuiet (query e)
  unfolding query
  query-IsQuiet = search quiet_rules

  -- Saving an item that is valid and not older than the stored one keeps the tables safe, on every
  -- way out.
  pub save_item-Safe :
      (item : ItemState) → Ensures (Current t₀ item) (save_item e item) (λ _. Safe t₀) (Safe t₀)
  unfolding save_item put_rows modify
  save_item-Safe item =
      bind-quiet (stamp-IsQuiet item.updated_at) (λ t c. c.safe)
        λ now_at.
          Ensures-bind (exec_saves (record item { updated_at = now_at }) (λ t c. c.safe)) λ _.
            bind-tables λ tables.
              bind-refuse _ _ (λ t h. h.0.0.safe)
                λ _. record {
                  at = λ s ((c, fits, taken), same). rw same (
                      Safe-upsert t₀ s.tables (record item { updated_at = now_at })
                        (record {
                          safe = c.safe;
                          valid = touched c.valid;
                          named = renamed c.named;
                          newest = c.newest;
                        })
                        fits taken);
                }
    where
      touched : {t : ℕ} → IsValid item → IsValid (record item { updated_at = t })
      touched v = assumption

      renamed :
          {t : ℕ} → IsNamed t₀.crypto item → IsNamed t₀.crypto (record item { updated_at = t })
      renamed n = record { map_key = n.map_key; named = n.named }

  -- A search by ID returns the stored item, which is current, or fails with ErrNotFound only when
  -- none is stored.
  pub get_item_by_id-Found :
      (k n i : Bytes)
      → Ensures (Safe t₀) (attempt (get_item_by_id e k n i)) (Found t₀ k n i) (Safe t₀)
  unfolding get_item_by_id attempt query or_not_found ◌>>=◌
  get_item_by_id-Found k n i = record {
    at = λ s p.
        let (r, x) = e.database.query s.outside in
        asked r (record s { outside = x }) (laws.query_error s.outside) p;
  }
    where
      searched :
          (o : Option ItemState) (s : State X)
          → find (has_item_id k n i) s.tables.items ≡ o
          → Safe t₀ s.tables
          → Post (Found t₀ k n i) (Safe t₀) (attempt (or_not_found e o) s)
      searched none s found p = (p, λ _. rw found)
      searched (some item) s found p =
          let ((v, fits, named, short), has) =
            find-IsStored t₀ (has_item_id k n i) s.tables.items p.valid found in
          let (a, b, c) = has_item_id_iff k n i item has in
          (
            record {
              safe = p;
              valid = v;
              named = named;
              newest = λ _. rw (a, b, c, found) (le_refl item.version);
            },
            a,
            b,
            c,
            fits,
          )

      asked :
          (r : Result (Unit {0})) (s : State X)
          → ((x : Error) → r ≡ err x → is_not_found x ≡ false)
          → Safe t₀ s.tables
          → Post (Found t₀ k n i) (Safe t₀) (
              attempt
                (λ _.
                  continue
                    (λ _. gets (λ s. s.tables) >>= λ tables.
                      or_not_found e (find (has_item_id k n i) tables.items))
                    (r, s))
                s)
      asked (ok _) s h p = searched (find (has_item_id k n i) s.tables.items) s refl p
      asked (err x) s h p = (p, λ yes'. cc (h x refl))
