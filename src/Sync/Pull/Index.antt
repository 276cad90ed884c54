-- ===== src/Sync/Pull/Index.antt =====
-- What the pull phase looks up by ID are valid items of this engine.
use bitboxsync_client_go.Prelude.{
  ℕ, Bool, true, ◌≡◌, List, [], ◌∷◌, Option, none, some, arith, All, Bool-cases, inl, inr,
  if◌then◌else◌,
}
use bitboxsync_client_go.Prelude.Bytes.{Bytes, bytes_eq}
use bitboxsync_client_go.Result.{Error, Result, ok, err}
use bitboxsync_client_go.Result
use bitboxsync_client_go.Types.{ItemState, Dict, get}
use bitboxsync_client_go.Protocol.Crypto.{Crypto}
use bitboxsync_client_go.Sqlite.Rows.{select, insert, sort_by}
use bitboxsync_client_go.Sync.Safe.{Start, IsStored}
use bitboxsync_client_go.Sync.Scope.{NamespaceActiveScope, item_active}
use bitboxsync_client_go.Sync.Scope.Safe.{IsOwn, AllOwn}
use bitboxsync_client_go.Sync.Pull.{check_local, index_local, add_active, keep_known}

module _ {A : Type 0} (P : A → Type 0) (before : A → A → Bool) where
  All-insert : (x : A) (xs : List A) → P x → All P xs → All P (insert before x xs)
  unfolding insert
  All-insert x [] h hs = (h, tt)
  All-insert x (y ∷ ys) h (hy, hs) = elim (Bool-cases (before y x)) [
    | inl yes' ↦ rw yes' (hy, All-insert x ys h hs)
    | inr no' ↦ rw no' (h, (hy, hs))
  ]

  pub All-sort_by : (xs : List A) → All P xs → All P (sort_by before xs)
  unfolding sort_by
  All-sort_by [] hs = tt
  All-sort_by (x ∷ xs) (h, hs) = All-insert x (sort_by before xs) h (All-sort_by xs hs)

-- the stored rows of one key ID, once selected
pub All-select :
    (t₀ : Start) (k : Bytes) (p : ItemState → Bool) (items : List ItemState)
    → ((item : ItemState) → p item ≡ true → item.key_id ≡ k)
    → All (IsStored t₀) items
    → All (IsOwn t₀.crypto k) (select p items)
unfolding select
All-select t₀ k p [] own hs = tt
All-select t₀ k p (x ∷ items) own ((v, _, name, _), hs) = elim (Bool-cases (p x)) [
  | inl yes' ↦ rw yes' ((v, name, own x yes'), All-select t₀ k p items own hs)
  | inr no' ↦ rw no' (All-select t₀ k p items own hs)
]

pub get-IsOwn :
    (c : Crypto) (k id : Bytes) (m : Dict ItemState) {item : ItemState}
    → AllOwn c k m
    → get id m ≡ some item
    → IsOwn c k item
unfolding get
get-IsOwn c k id [] {item} own h = absurd (cc)
get-IsOwn c k id ((j, x) ∷ m) {item} (hx, own) h = elim (Bool-cases (bytes_eq j id)) [
  | inl same ↦ let e : x ≡ item = ground arith in rw (← e) hx
  | inr other' ↦ get-IsOwn c k id m own (ground arith)
]

pub add_active-AllOwn :
    (c : Crypto) (k : Bytes) (active m : Dict ItemState)
    → AllOwn c k active
    → AllOwn c k m
    → AllOwn c k (add_active active m)
unfolding add_active
add_active-AllOwn c k [] m own h = h
add_active-AllOwn c k ((id, item) ∷ rest) m (hx, own) h =
    add_active-AllOwn c k rest _ own (kept (get id m))
  where
    kept : (o : Option ItemState) → AllOwn c k (keep_known id item m o)
    kept (some known) = h
    kept none = (hx, h)

-- what the index holds comes from the local items
pub index_local-AllOwn :
    (c : Crypto) (k : Bytes) (scope : NamespaceActiveScope) (remote : Dict ℕ)
    (items : List ItemState) (m : Dict ItemState) (inactive : List Bytes)
    {r : Dict ItemState × List Bytes}
    → All (IsOwn c k) items
    → AllOwn c k m
    → index_local scope remote items m inactive ≡ ok r
    → AllOwn c k r.0
unfolding index_local
index_local-AllOwn c k scope remote [] m inactive {r} hs own h =
    let e : (m, inactive) ≡ r = cc h in rw (← e) own
index_local-AllOwn c k scope remote (x ∷ items) m inactive {r} (hx, hs) own h =
    step (check_local (get x.item_id remote) x)
      (λ g. index_local-AllOwn c k scope remote items _ inactive hs (hx, own) g)
      (λ g. index_local-AllOwn c k scope remote items m _ hs own g) h
  where
    step :
        (checked : Result (Unit {0}))
        → (index_local scope remote items ((x.item_id, x) ∷ m) inactive ≡ ok r → AllOwn c k r.0)
        → (index_local scope remote items m (x.item_id ∷ inactive) ≡ ok r → AllOwn c k r.0)
        → Result.◌>>=◌ checked (λ _.
          if item_active scope x
          then index_local scope remote items ((x.item_id, x) ∷ m) inactive
          else index_local scope remote items m (x.item_id ∷ inactive))
          ≡ ok r
        → AllOwn c k r.0
    step (err e) active idle g = absurd (cc)
    step (ok _) active idle g = elim (Bool-cases (item_active scope x)) [
      | inl yes' ↦ active (ground arith)
      | inr no' ↦ idle (ground arith)
    ]
