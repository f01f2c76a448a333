-- ===== src/Guest/Links.antt =====
-- One certificate of the guest's document, a chain of them, and the document's signature: what the
-- checks of them show.
use oyster_monorepo.Base.{
  ℕ, zero, suc, ◌+◌, ◌≡◌, ◌<◌, refl, Bool, true, false, Option, none, some, List, arith,
}
use mathlib.Core.Path.{subst}
use oyster_monorepo.Guest.Crypto.{Crypto}
use oyster_monorepo.Guest.Reader.{range, assert, assert_byte, size_at, bind-some, then-some}
use oyster_monorepo.Guest.Chain.{check_expiry, parse_cert, signed_part, verify_cert, verify_chain}
use oyster_monorepo.Guest.Fields.{signed_structure, check_signature}
use oyster_monorepo.Guest.Program.{G, ◌>>=◌, read}

pub read-bind :
    {A B : Type 0} (o : Option A) (f : A → G B) (j : List ℕ) {b : B} {k : List ℕ}
    → (read o >>= f) j ≡ some (b, k)
    → (a : A) × (o ≡ some a) × (f a j ≡ some (b, k))
read-bind none f j h = absurd (ground arith)
read-bind (some a) f j h = (a, refl, h)

pub assert_lem : (b : Bool) → assert b ≡ some tt → b ≡ true
assert_lem true h = refl
assert_lem false h = absurd (ground arith)

bound :
    {A B : Type 0} (o : Option (A × List ℕ)) (f : A → G B) {b : B} {k : List ℕ}
    → elim o as (λ x. Option (B × List ℕ)) [ none ↦ none | some (a, j) ↦ f a j ] ≡ some (b, k)
    → (a : A) × (j' : List ℕ) × (o ≡ some (a, j')) × (f a j' ≡ some (b, k))
bound none f h = absurd (ground arith)
bound (some (a, j')) f h = (a, j', refl, h)

pub run-bind :
    {A B : Type 0} (m : G A) (f : A → G B) (j : List ℕ) {b : B} {k : List ℕ}
    → (m >>= f) j ≡ some (b, k)
    → (a : A) × (j' : List ℕ) × (m j ≡ some (a, j')) × (f a j' ≡ some (b, k))
run-bind m f j h = bound (m j) f h

module _ {Certificate Signature VerifyingKey : Type 0}
    (crypto : Crypto Certificate Signature VerifyingKey) where
  open crypto use {from_der, not_before, not_after, public_key, signature}
  open crypto use {
    signature_from_der, from_scalars, from_sec1_bytes, verify, verify_prehash, sha384,
  }

  -- The certificate is valid at the time.
  abbrev pub IsCurrent : ℕ → Certificate → Type 0
  IsCurrent timestamp cert = (not_before cert < timestamp) × (timestamp < not_after cert)

  pub check_expiry_lem :
      (timestamp : ℕ) (cert : Certificate)
      → check_expiry crypto timestamp cert ≡ some tt
      → IsCurrent timestamp cert
  unfolding check_expiry
  check_expiry_lem timestamp cert h = ground arith

  module _ (attestation : List ℕ) where
    -- The certificate is what the byte string at `offset` of the document holds, of `size` bytes after its
    -- tag and its length.
    pub record IsCertificate (offset size : ℕ) (cert : Certificate) : Type 0 where
      pub bytes : List ℕ
      pub sized : size_at attestation (offset + 1) ≡ some size
      pub read : range attestation (offset + 3) (offset + 3 + size) ≡ some bytes
      pub decoded : from_der bytes ≡ some cert

    -- The key of the one certificate verifies the signature of the other over the signed part of the
    -- document's bytes from `der` on.
    pub record IsSignedBy (der : ℕ) (parent cert : Certificate) : Type 0 where
      pub msg : List ℕ
      pub sig : Signature
      pub key : VerifyingKey
      pub message : signed_part crypto attestation der ≡ some msg
      pub signed : signature_from_der (signature cert) ≡ some sig
      pub keyed : from_sec1_bytes (public_key parent) ≡ some key
      pub verified : verify key msg sig ≡ true

    -- The document holds so many certificates from the one offset to the other, each right after the one
    -- before, valid at the time and signed by the one before; the first is signed by `parent`, and
    -- `last` is the last.
    abbrev pub Chain : ℕ → ℕ → ℕ → Certificate → Certificate → ℕ → Type 0
    Chain timestamp zero offset parent last after = (parent ≡ last) × (offset ≡ after)
    Chain timestamp (suc n) offset parent last after =
        (cert : Certificate) × (size : ℕ) × IsCertificate offset size cert
        × IsSignedBy (offset + 3) parent cert
        × IsCurrent timestamp cert
        × Chain timestamp n (offset + 3 + size) cert last after

    pub parse_cert_lem :
        (offset : ℕ) (cert : Certificate) (size : ℕ)
        → parse_cert crypto attestation offset ≡ some (cert, size)
        → IsCertificate offset size cert
    unfolding parse_cert
    parse_cert_lem offset cert size h =
        let h₁ = then-some (assert_byte attestation offset 0x59) _ h in
        let (size', sized, h₂) = bind-some (size_at attestation (offset + 1)) _ h₁ in
        let (bytes, read, h₃) =
          bind-some (range attestation (offset + 3) (offset + 3 + size')) _ h₂ in
        let (cert', decoded, h₄) = bind-some (from_der bytes) _ h₃ in
        let e : size' ≡ size = ground arith in
        let f : cert' ≡ cert = ground arith in
        let w : IsCertificate offset size' cert' = record {
          bytes = bytes;
          sized = sized;
          read = read;
          decoded = decoded;
        } in
        subst (λ c. IsCertificate offset size c) f (subst (λ n. IsCertificate offset n cert') e w)

    pub verify_cert_lem :
        (der : ℕ) (cert parent : Certificate)
        → verify_cert crypto attestation der cert parent ≡ some tt
        → IsSignedBy der parent cert
    unfolding verify_cert
    verify_cert_lem der cert parent h =
        let (msg, message, h₁) = bind-some _ _ h in
        let (sig, signed, h₂) = bind-some _ _ h₁ in
        let (key, keyed, h₃) = bind-some _ _ h₂ in
        record {
          msg = msg;
          sig = sig;
          key = key;
          message = message;
          signed = signed;
          keyed = keyed;
          verified = assert_lem _ h₃;
        }

    pub verify_chain_lem :
        (n timestamp : ℕ) (parent : Certificate) (offset : ℕ) (last : Certificate) (after : ℕ)
        → verify_chain crypto attestation n timestamp parent offset ≡ some (last, after)
        → Chain timestamp n offset parent last after
    unfolding verify_chain
    verify_chain_lem zero timestamp parent offset last after h = (ground arith, ground arith)
    verify_chain_lem (suc n) timestamp parent offset last after h =
        let ((child, size), parsed, h₁) = bind-some _ _ h in
        let (_, current, h₂) = bind-some _ _ h₁ in
        let (_, verified, h₃) = bind-some _ _ h₂ in
        (
          child,
          size,
          parse_cert_lem offset child size parsed,
          verify_cert_lem (offset + 3) child parent verified,
          check_expiry_lem timestamp child current,
          verify_chain_lem n timestamp child (offset + 3 + size) last after h₃,
        )

    -- The document's signature: over the structure that holds its payload, by the key of the leaf.
    pub record IsSigned (payload_size : ℕ) (leaf : Certificate) : Type 0 where
      pub structure : List ℕ
      pub r : List ℕ
      pub s : List ℕ
      pub sig : Signature
      pub key : VerifyingKey
      pub payload : signed_structure attestation payload_size ≡ some structure
      pub first : range attestation (12 + payload_size) (60 + payload_size) ≡ some r
      pub second : range attestation (60 + payload_size) (108 + payload_size) ≡ some s
      pub scalars : from_scalars r s ≡ some sig
      pub keyed : from_sec1_bytes (public_key leaf) ≡ some key
      pub verified : verify_prehash key (sha384 structure) sig ≡ true

    pub check_signature_lem :
        (payload_size : ℕ) (leaf : Certificate)
        → check_signature crypto attestation payload_size leaf ≡ some tt
        → IsSigned payload_size leaf
    unfolding check_signature
    check_signature_lem payload_size leaf h =
        let (structure, payload, h₁) = bind-some _ _ h in
        let h₂ = then-some (assert_byte attestation (payload_size + 10) 0x58) _ h₁ in
        let h₃ = then-some (assert_byte attestation (payload_size + 11) 0x60) _ h₂ in
        let (key, keyed, h₄) = bind-some _ _ h₃ in
        let (r, first, h₅) = bind-some _ _ h₄ in
        let (s, second, h₆) = bind-some _ _ h₅ in
        let (sig, scalars, h₇) = bind-some _ _ h₆ in
        record {
          structure = structure;
          r = r;
          s = s;
          sig = sig;
          key = key;
          payload = payload;
          first = first;
          second = second;
          scalars = scalars;
          keyed = keyed;
          verified = assert_lem _ h₇;
        }
