-- ===== src/Verifier/Attested.antt =====
-- The answers of attestation/verifier/src/handler.rs.
use mathlib.Core.Path.{subst}
use oyster_monorepo.Base.{
  ℕ, ◌+◌, ◌%◌, ◌≡◌, refl, sym, ap, ◌∙◌, Option, none, some, List, [], ◌∷◌, ◌++◌, length, arith,
  get_elem?, ◌==◌, ==_true,
}
use oyster_monorepo.Attestation.Library.{
  Library, Result, parse_failed, verify_failed, ok, through as through_result, require,
  require-true,
}
use oyster_monorepo.Attestation.Document.{AttestationDecoded, decode_attestation}
use oyster_monorepo.Attestation.Verify.{
  registers_eq, verify_and_decode_attestation, verify_with_timestamp,
}
use oyster_monorepo.Attestation.Soundness.{
  IsGenuine, registers_eq_lem, verify_and_decode_attestation-IsGenuine,
}
use oyster_monorepo.Verifier.Handler.{
  VerifyAttestationResponse, UserError, message_generation, invalid_recovery, Response, failed,
  panicked, answer, ◌>>=◌, or_fail, or_panic, or_unverified, VerifierLibrary, to_u8,
  domain_separator, attestation_typehash, compute_digest, respond, verify,
}
use oyster_monorepo.Verifier.Digest.{bytes, uint256, typed_data, compute_digest_lem}
use oyster_monorepo.Verifier.Signing.{Removes, decode_attestation-agrees}

through :
    {X Y P : Type 0} (first : Response X) (next : X → Response Y) {y : Y}
    → (first >>= next) ≡ answer y
    → ((x : X) → first ≡ answer x → next x ≡ answer y → P)
    → P
through (failed error) next e found = absurd (ground arith)
through panicked next e found = absurd (ground arith)
through (answer x) next e found = found x refl e

or_unverified-answer : {A : Type 0} (r : Result A) {a : A} → or_unverified r ≡ answer a → r ≡ ok a
or_unverified-answer parse_failed e = absurd (ground arith)
or_unverified-answer verify_failed e = absurd (ground arith)
or_unverified-answer (ok x) e = ground arith

or_fail-answer :
    {A : Type 0} (error : UserError) (o : Option A) {a : A}
    → or_fail error o ≡ answer a
    → o ≡ some a
or_fail-answer error none e = absurd (ground arith)
or_fail-answer error (some x) e = ground arith

or_panic-answer : {A : Type 0} (o : Option A) {a : A} → or_panic o ≡ answer a → o ≡ some a
or_panic-answer none e = absurd (ground arith)
or_panic-answer (some x) e = ground arith

answer_injective : {A : Type 0} {a b : A} → answer a ≡ answer b → a ≡ b
answer_injective e = ground arith

same_decoded :
    (a b : AttestationDecoded)
    → a.pcrs ≡ b.pcrs
    → a.timestamp ≡ b.timestamp
    → a.public_key ≡ b.public_key
    → a ≡ b
same_decoded a b p t k =
    ap (λ x. record { pcrs = x; timestamp = a.timestamp; public_key = a.public_key }) p
    ∙ ap (λ x. record { pcrs = b.pcrs; timestamp = x; public_key = a.public_key }) t
    ∙ ap (λ x. record { pcrs = b.pcrs; timestamp = b.timestamp; public_key = x }) k

module _ {Secret Message : Type 0} (lib : VerifierLibrary Secret Message) where
  -- The answer shows what was decoded, and has a signature of its EIP-712 digest.
  pub record IsAnswer (decoded : AttestationDecoded) (secret : Secret) (public : List ℕ)
      (response : VerifyAttestationResponse) : Type 0 where
    pub pcr0 : List ℕ
    pub pcr1 : List ℕ
    pub pcr2 : List ℕ
    pub first : get_elem? decoded.pcrs 0 ≡ some pcr0
    pub second : get_elem? decoded.pcrs 1 ≡ some pcr1
    pub third : get_elem? decoded.pcrs 2 ≡ some pcr2
    pub message : Message
    pub digest :
        lib.from_digest_slice (
          typed_data lib domain_separator attestation_typehash (
            bytes decoded.public_key
            ∷ bytes pcr0
            ∷ bytes pcr1
            ∷ bytes pcr2
            ∷ uint256 decoded.timestamp
            ∷ []))
        ≡ some message
    pub recid : ℕ
    pub recovery : to_u8 (lib.sign message secret).0 ≡ some recid
    pub shown : response ≡ record {
      signature = lib.encode (lib.sign message secret).1 ++ lib.encode ((recid + 27) % 256 ∷ []);
      secp256k1_public = lib.encode decoded.public_key;
      pcr0 = lib.encode pcr0;
      pcr1 = lib.encode pcr1;
      pcr2 = lib.encode pcr2;
      timestamp = decoded.timestamp;
      verifier_secp256k1_public = lib.encode public;
    }

  respond-IsAnswer :
      (parsed : AttestationDecoded) (secret : Secret) (public : List ℕ)
      (response : VerifyAttestationResponse)
      → ((message : List ℕ) → length (lib.keccak256 message) ≡ 32)
      → respond lib parsed secret public ≡ answer response
      → IsAnswer parsed secret public response
  unfolding respond
  respond-IsAnswer parsed secret public response sized h =
      through (or_panic (get_elem? parsed.pcrs 0)) _ h (λ pcr0 a h₁.
        through (or_panic (get_elem? parsed.pcrs 1)) _ h₁ (λ pcr1 b h₂.
          through (or_panic (get_elem? parsed.pcrs 2)) _ h₂ (λ pcr2 c h₃.
            let digest = compute_digest lib parsed.public_key pcr0 pcr1 pcr2 parsed.timestamp in
            through (or_fail message_generation (lib.from_digest_slice digest)) _ h₃
              (λ message d h₄.
                through (or_fail invalid_recovery (to_u8 (lib.sign message secret).0)) _ h₄
                  (λ recid e h₅. record {
                    pcr0 = pcr0;
                    pcr1 = pcr1;
                    pcr2 = pcr2;
                    first = or_panic-answer (get_elem? parsed.pcrs 0) a;
                    second = or_panic-answer (get_elem? parsed.pcrs 1) b;
                    third = or_panic-answer (get_elem? parsed.pcrs 2) c;
                    message = message;
                    digest =
                        ap lib.from_digest_slice (
                          sym (
                            compute_digest_lem lib parsed.public_key pcr0 pcr1 pcr2 parsed.timestamp
                              sized))
                        ∙ or_fail-answer message_generation (lib.from_digest_slice digest) d;
                    recid = recid;
                    recovery =
                        or_fail-answer invalid_recovery (to_u8 (lib.sign message secret).0) e;
                    shown = sym (answer_injective h₅);
                  })))))

  module _ {Value Doc Cose Cert PublicKey : Type 0}
      (documents : Library Value Doc Cose Cert PublicKey) (current_time : ℕ → Option ℕ)
      (root_cert_pem : List ℕ) where
    -- Where removing a key of a map leaves the others, and a hash has 32 bytes: an attestation that is
    -- answered is genuine, the answer shows its registers, its time and its key in hexadecimal digits, and the
    -- signature is by the secret, of the EIP-712 digest of just these.
    pub verify-IsAnswer :
        (attestation : List ℕ) (secret : Secret) (public : List ℕ)
        (response : VerifyAttestationResponse)
        → Removes documents
        → ((message : List ℕ) → length (lib.keccak256 message) ≡ 32)
        → verify lib documents current_time root_cert_pem attestation secret public
          ≡ answer response
        → (decoded : AttestationDecoded) × IsGenuine documents current_time root_cert_pem
            attestation decoded
          × IsAnswer decoded secret public response
    unfolding verify verify_with_timestamp
    verify-IsAnswer attestation secret public response removes sized h =
        through (or_unverified (decode_attestation documents attestation)) _ h (λ parsed a h₁.
          let checked =
            verify_with_timestamp documents current_time root_cert_pem attestation parsed.pcrs
              parsed.timestamp in
          through (or_unverified checked) _ h₁ (λ key b h₂.
            through_result
              (verify_and_decode_attestation documents current_time root_cert_pem attestation) _
              (or_unverified-answer checked b)
              (λ decoded c h₃.
                through_result (require (registers_eq decoded.pcrs parsed.pcrs)) _ h₃ (λ _ d h₄.
                  through_result (require (parsed.timestamp == decoded.timestamp)) _ h₄ (λ _ e h₅.
                    let genuine =
                      verify_and_decode_attestation-IsGenuine documents current_time root_cert_pem
                        attestation decoded c in
                    let same : parsed ≡ decoded =
                      same_decoded parsed decoded
                        (sym (
                          registers_eq_lem decoded.pcrs parsed.pcrs
                            (require-true (registers_eq decoded.pcrs parsed.pcrs) d)))
                        (==_true parsed.timestamp decoded.timestamp
                          (require-true (parsed.timestamp == decoded.timestamp) e))
                        (sym (
                          decode_attestation-agrees documents removes root_cert_pem current_time
                            attestation parsed decoded
                            (or_unverified-answer (decode_attestation documents attestation) a)
                            genuine)) in
                    (
                      decoded,
                      genuine,
                      subst (λ x. IsAnswer x secret public response) same
                          (respond-IsAnswer parsed secret public response sized h₂),
                    ))))))
