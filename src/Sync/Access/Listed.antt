-- ===== src/Sync/Access/Listed.antt =====
-- bitboxsync/engine_namespace.go: the list that ListNamespaces returns.
use bitboxsync_client_go.Prelude.{
  Bool, true, false, ◌≡◌, refl, List, [], ◌∷◌, arith, Bool-cases, inl, inr,
}
use mathlib.Core.List.{Perm}
use mathlib.Core.List.Perm
use bitboxsync_client_go.Prelude.Bytes.{Bytes, bytes_eq, bytes_eq_iff}
use bitboxsync_client_go.Types.{NamespaceState}
use bitboxsync_client_go.Engine.State.{Engine, Tables}
use bitboxsync_client_go.Engine.Ensures.{
  Ensures-bind, Ensures-pure, bind-quiet, bind-tables, call-IsQuiet,
}
use bitboxsync_client_go.Sqlite.{list_namespaces, query}
use bitboxsync_client_go.Sqlite.Rows.{bytes_ltb, insert, sort_by, select, namespace_is_before}
use bitboxsync_client_go.Sync.Access.{kind_is_before, list_all_namespaces}
use bitboxsync_client_go.Sync.Access.Ends.{Ends, anything, run_authenticated-Ends}

bytes_ltb_asym : (a b : Bytes) → bytes_ltb a b ≡ true → bytes_ltb b a ≡ false
unfolding bytes_ltb
bytes_ltb_asym [] [] h = refl
bytes_ltb_asym [] (y ∷ ys) h = refl
bytes_ltb_asym (x ∷ xs) [] h = absurd (ground arith)
bytes_ltb_asym (x ∷ xs) (y ∷ ys) h = ground (arith, bytes_ltb_asym xs ys)

bytes_ltb_self : (a : Bytes) → bytes_ltb a a ≡ false
unfolding bytes_ltb
bytes_ltb_self [] = refl
bytes_ltb_self (x ∷ xs) = ground (arith, bytes_ltb_self xs)

-- the second comes no earlier than the first, by kind and then by ID
pub record Follows (a b : NamespaceState) : Type 0 where
  pub by_kind : bytes_ltb b.kind a.kind ≡ false
  pub by_id : a.kind ≡ b.kind → bytes_ltb b.namespace_id a.namespace_id ≡ false

abbrev pub FollowsAll : NamespaceState → List NamespaceState → Type 0
FollowsAll x [] = Unit
FollowsAll x (y ∷ ys) = Follows x y

-- every namespace is followed by the next one
abbrev pub IsListed : List NamespaceState → Type 0
IsListed [] = Unit
IsListed (x ∷ xs) = FollowsAll x xs × IsListed xs

not_before : (a b : NamespaceState) → kind_is_before b a ≡ false → Follows a b
unfolding kind_is_before
not_before a b h = elim (Bool-cases (bytes_eq b.kind a.kind)) [
  | inl same ↦
      let e : b.kind ≡ a.kind = (bytes_eq_iff b.kind a.kind).0 same in
      record { by_kind = rw e (bytes_ltb_self a.kind); by_id = λ _. ground arith }
  | inr other' ↦ record {
    by_kind = ground arith;
    by_id = λ e. absurd (ground (arith, bytes_eq_iff b.kind a.kind, e));
  }
]

before : (a b : NamespaceState) → kind_is_before a b ≡ true → Follows a b
unfolding kind_is_before
before a b h = elim (Bool-cases (bytes_eq a.kind b.kind)) [
  | inl same ↦
      let e : a.kind ≡ b.kind = (bytes_eq_iff a.kind b.kind).0 same in
      record {
        by_kind = rw e (bytes_ltb_self b.kind);
        by_id = λ _. bytes_ltb_asym a.namespace_id b.namespace_id (ground arith);
      }
  | inr other' ↦ record {
    by_kind = bytes_ltb_asym a.kind b.kind (ground arith);
    by_id = λ e. absurd (ground (arith, bytes_eq_iff a.kind b.kind, e));
  }
]

insert-FollowsAll :
    (y x : NamespaceState) (ys : List NamespaceState)
    → FollowsAll y ys
    → Follows y x
    → FollowsAll y (insert kind_is_before x ys)
unfolding insert
insert-FollowsAll y x [] h f = f
insert-FollowsAll y x (z ∷ zs) h f = elim (Bool-cases (kind_is_before z x)) [
  | inl first ↦ rw first h
  | inr last' ↦ rw last' f
]

insert-IsListed :
    (x : NamespaceState) (xs : List NamespaceState)
    → IsListed xs
    → IsListed (insert kind_is_before x xs)
unfolding insert
insert-IsListed x [] h = (tt, tt)
insert-IsListed x (y ∷ ys) (f, h) = elim (Bool-cases (kind_is_before y x)) [
  | inl first ↦ rw first (insert-FollowsAll y x ys f (before y x first), insert-IsListed x ys h)
  | inr last' ↦ rw last' (not_before x y last', (f, h))
]

sort_by-IsListed : (xs : List NamespaceState) → IsListed (sort_by kind_is_before xs)
unfolding sort_by
sort_by-IsListed [] = tt
sort_by-IsListed (x ∷ xs) = insert-IsListed x (sort_by kind_is_before xs) (sort_by-IsListed xs)

module _ {A : Type 0} (ahead : A → A → Bool) where
  insert-perm : (x : A) (xs : List A) → Perm (insert ahead x xs) (x ∷ xs)
  unfolding insert
  insert-perm x [] = Perm.rfl
  insert-perm x (y ∷ ys) = elim (Bool-cases (ahead y x)) [
    | inl first ↦ rw first (Perm.trans (Perm.cons y (insert-perm x ys)) (Perm.swap x y ys))
    | inr last' ↦ rw last' Perm.rfl
  ]

  sort_by-perm : (xs : List A) → Perm (sort_by ahead xs) xs
  unfolding sort_by
  sort_by-perm [] = Perm.rfl
  sort_by-perm (x ∷ xs) =
      Perm.trans (insert-perm x (sort_by ahead xs)) (Perm.cons x (sort_by-perm xs))

module _ {X : Type 0} (e : Engine X) where
  -- the stored namespaces of the engine's key
  abbrev pub own_namespaces : Tables → List NamespaceState
  own_namespaces t = select (λ row. bytes_eq row.key_id e.key_id) t.namespaces

  list_namespaces-Ends : Ends (list_namespaces e e.key_id) (λ ns t. Perm ns (own_namespaces t))
  unfolding list_namespaces query
  list_namespaces-Ends =
      bind-quiet (call-IsQuiet _) (λ t p. p)
        λ _. bind-tables λ tables.
          Ensures-pure _
            (λ t (p, same). rw same (sort_by-perm namespace_is_before (own_namespaces t)))

  -- ListNamespaces, whatever the server and the driver answer: when it returns, it returns every
  -- namespace that is then stored for the engine's key once for each row, ordered by kind, and by
  -- namespace ID among those of one kind.
  pub list_all_namespaces-IsListed :
      Ends (list_all_namespaces e) (λ ns t. Perm ns (own_namespaces t) × IsListed ns)
  unfolding list_all_namespaces
  list_all_namespaces-IsListed =
      Ensures-bind (run_authenticated-Ends e (Ensures-bind (anything _) λ _. list_namespaces-Ends))
        λ ns.
          Ensures-pure _
            (λ t p. (Perm.trans (sort_by-perm kind_is_before ns) p, sort_by-IsListed ns))
