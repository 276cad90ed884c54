-- ===== src/Keystore/Attest.antt =====
-- raw/identity.go: the loop of Attest ends.
use bitboxsync_client_go.Prelude.{
  ℕ, zero, suc, ◌+◌, ◌*◌, ◌-◌, ◌≤◌, min, [], ◌∷◌, ◌++◌, Option, some, length, length-append, take,
  ◌==◌, ◌≡◌, refl, Bool-cases, inl, inr, arith,
}
use bitboxsync_client_go.Prelude.Bytes.{Bytes}
use bitboxsync_client_go.Protocol.Crypto.{Crypto}
use bitboxsync_client_go.Protocol.Signing.{SigningLaws}
use bitboxsync_client_go.Keystore.{DummyKeystore, prepend, fill, attest}

length-take : (n : ℕ) (xs : Bytes) → length (take n xs) ≡ min n (length xs)
length-take zero xs = omega arith
length-take (suc n) [] = omega arith
length-take (suc n) (x ∷ xs) = omega (arith, length-take n xs)

module _ (c : Crypto) (laws : SigningLaws c) where
  prepended :
      (piece : Bytes) (n : ℕ) {o : Option Bytes}
      → (rest : Bytes) × (o ≡ some rest) × (length rest ≡ n)
      → (all : Bytes) × (prepend c piece o ≡ some all) × (length all ≡ length piece + n)
  prepended piece n (rest, e, l) =
      (piece ++ rest, rw (e) refl, omega (arith, length-append piece rest, l))

  filled :
      (rounds left : ℕ) (current : Bytes)
      → left ≤ 32 * rounds
      → (rest : Bytes) × (fill c rounds left current ≡ some rest) × (length rest ≡ left)
  unfolding fill
  filled zero left current h = let z : left ≡ 0 = omega arith in ([], rw (z) refl, omega arith)
  filled (suc rounds) left current h =
      let sum = c.sha256 current in
      let piece = take left sum in
      let size : length piece ≡ min left 32 =
        rw (← (laws.sha256-IsSized current).0) (length-take left sum) in
      let (all, e, l) =
        prepended piece (left - length piece)
          (filled rounds (left - length piece) sum (omega (arith, size))) in
      elim (Bool-cases (left == 0)) [
        | inl done ↦ ([], rw (done) refl, ground arith)
        | inr more ↦ (all, rw (more) e, omega (arith, l, size))
      ]

  -- The loop of Attest ends within eight rounds, for a hash of 32 bytes, and the attestation has 257
  -- bytes, of which the first is 0.
  pub attest_total :
      (d : DummyKeystore) (challenge : Bytes)
      → (rest : Bytes) × (attest c d challenge ≡ some (0 ∷ rest)) × (length rest ≡ 256)
  unfolding attest
  attest_total d challenge =
      let (rest, e, l) = filled 8 256 (c.sha256 (challenge ++ d.auth_public)) (omega arith) in
      (rest, rw (e) refl, l)
