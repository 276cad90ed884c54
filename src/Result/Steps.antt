-- ===== src/Result/Steps.antt =====
-- What a chain of results that succeeds says of its steps.
use bitboxsync_client_go.Prelude.{Bool, true, false, not, ◌≡◌, refl, ◌==◌, ℕ, arith}
use bitboxsync_client_go.Prelude.Bytes.{Bytes, bytes_eq, bytes_eq_iff}
use bitboxsync_client_go.Result.{Error, Result, ok, err, refuse_if, ◌>>=◌, ◌>>◌}

module _ {ℓ κ} {A : Type ℓ} {B : Type κ} where
  -- the first step has a value, and the others go on from it
  pub bind_ok :
      (first : Result A) (next : A → Result B) {result : B}
      → first >>= next ≡ ok result
      → (value : A) × (first ≡ ok value) × (next value ≡ ok result)
  bind_ok (ok value) next succeeds = (value, refl, succeeds)
  bind_ok (err reason) next succeeds = absurd (cc succeeds)

module _ {κ} {B : Type κ} where
  pub refuse_ok :
      (t : Bool) (e : Error) (r : Result B) {b : B}
      → refuse_if t e >> r ≡ ok b
      → (t ≡ false) × (r ≡ ok b)
  refuse_ok true e r h = absurd (cc h)
  refuse_ok false e r h = (refl, h)

  -- a guard on a number that must have one value
  pub require_ok :
      (m n : ℕ) (e : Error) (r : Result B) {b : B}
      → refuse_if (not (m == n)) e >> r ≡ ok b
      → (m ≡ n) × (r ≡ ok b)
  require_ok m n e r h = let (t, rest) = refuse_ok (not (m == n)) e r h in (ground arith, rest)

  -- a guard on a text that must be another one
  pub same_ok :
      (xs ys : Bytes) (e : Error) (r : Result B) {b : B}
      → refuse_if (not (bytes_eq xs ys)) e >> r ≡ ok b
      → (xs ≡ ys) × (r ≡ ok b)
  same_ok xs ys e r h =
      let (t, rest) = refuse_ok (not (bytes_eq xs ys)) e r h in
      ((bytes_eq_iff xs ys).0 (ground arith), rest)

pub ok_inj {ℓ} : {A : Type ℓ} {a b : A} → ok a ≡ ok b → a ≡ b
ok_inj h = cc h

-- the last guard of a chain
pub passed : (t : Bool) (e : Error) → refuse_if t e ≡ ok tt → t ≡ false
passed true e h = absurd (cc h)
passed false e h = refl

pub same_passed : (xs ys : Bytes) (e : Error) → refuse_if (not (bytes_eq xs ys)) e ≡ ok tt → xs ≡ ys
same_passed xs ys e h =
    let t = passed (not (bytes_eq xs ys)) e h in (bytes_eq_iff xs ys).0 (ground arith)
