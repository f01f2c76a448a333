-- ===== src/Guest/Crypto.antt =====
-- The libraries that the guest calls: x509_cert, p384 and sha2. They are not in this repository: their
-- functions are the fields of `Crypto`, and what they answer with an error for is `none` or `false`.
use oyster_monorepo.Base.{ℕ, List, Bool, Option}

pub record Crypto (Certificate Signature VerifyingKey : Type 0) : Type 0 where
  -- `Certificate::from_der`
  pub from_der : List ℕ → Option Certificate
  -- `validity.not_before` and `validity.not_after`, in seconds
  pub not_before : Certificate → ℕ
  pub not_after : Certificate → ℕ
  -- `subject_public_key.raw_bytes()` and `signature.raw_bytes()`
  pub public_key : Certificate → List ℕ
  pub signature : Certificate → List ℕ
  -- `Signature::from_der` and `Signature::from_scalars`
  pub signature_from_der : List ℕ → Option Signature
  pub from_scalars : List ℕ → List ℕ → Option Signature
  -- `VerifyingKey::from_sec1_bytes`
  pub from_sec1_bytes : List ℕ → Option VerifyingKey
  pub verify : VerifyingKey → List ℕ → Signature → Bool
  pub verify_prehash : VerifyingKey → List ℕ → Signature → Bool
  pub sha384 : List ℕ → List ℕ
