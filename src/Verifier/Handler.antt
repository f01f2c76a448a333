-- ===== src/Verifier/Handler.antt =====
-- attestation/verifier/src/handler.rs. The functions of hex, of ethers and of secp256k1 are the record
-- `VerifierLibrary`; a text is the list of its codes.
use oyster_monorepo.Base.{
  ℕ, zero, suc, ◌+◌, ◌-◌, ◌%◌, ◌/◌, Option, none, some, List, [], ◌∷◌, ◌++◌, length, take,
  get_elem?, ltb, if◌then◌else◌,
}
use oyster_monorepo.Base.Int.{ℤ, pos, negsuc}
use oyster_monorepo.Attestation.Library.{
  Library, Result, parse_failed, verify_failed, ok as decoded_ok,
}
use oyster_monorepo.Attestation.Document.{AttestationDecoded, decode_attestation}
use oyster_monorepo.Attestation.Verify.{verify_with_timestamp}

pub record VerifyAttestationResponse : Type 0 where
  pub signature : List ℕ
  pub secp256k1_public : List ℕ
  pub pcr0 : List ℕ
  pub pcr1 : List ℕ
  pub pcr2 : List ℕ
  pub timestamp : ℕ
  pub verifier_secp256k1_public : List ℕ

pub data UserError : Type 0 where
  attestation_decode attestation_verification message_generation invalid_recovery : UserError

-- The codes of the answers to a request that fails.
unfoldable pub status_code : UserError → ℕ
status_code attestation_decode = 400
status_code attestation_verification = 401
status_code message_generation = 500
status_code invalid_recovery = 401

pub data Response (A : Type 0) : Type 0 where
  failed : UserError → Response A
  panicked : Response A
  answer : A → Response A

infixl 5 ◌>>=◌ ◌>>◌
abbrev pub ◌>>=◌ : {X Y : Type 0} → Response X → (X → Response Y) → Response Y
failed error >>= next = failed error
panicked >>= next = panicked
answer x >>= next = next x

abbrev pub ◌>>◌ : {X Y : Type 0} → Response X → Response Y → Response Y
first >> second = first >>= λ _. second

-- `map_err` of an option, an index into an array, and `map_err` of an attestation's error.
abbrev pub or_fail : {A : Type 0} → UserError → Option A → Response A
or_fail error none = failed error
or_fail error (some a) = answer a

abbrev pub or_panic : {A : Type 0} → Option A → Response A
or_panic none = panicked
or_panic (some a) = answer a

abbrev pub or_unverified : {A : Type 0} → Result A → Response A
or_unverified parse_failed = failed attestation_verification
or_unverified verify_failed = failed attestation_verification
or_unverified (decoded_ok a) = answer a

pub record VerifierLibrary (Secret Message : Type 0) : Type 0 where
  pub keccak256 : List ℕ → List ℕ
  -- `hex::encode` and `hex::decode`
  pub encode : List ℕ → List ℕ
  pub decode : List ℕ → Option (List ℕ)
  -- `Message::from_digest_slice`, and `sign_ecdsa_recoverable` with `serialize_compact`
  pub from_digest_slice : List ℕ → Option Message
  pub sign : Message → Secret → ℤ × List ℕ

-- `u8::try_from`
abbrev pub to_u8 : ℤ → Option ℕ
to_u8 (pos n) = if ltb n 256 then some n else none
to_u8 (negsuc n) = none

abbrev pub repeated : ℕ → List ℕ
repeated zero = []
repeated (suc n) = 0 ∷ repeated n

-- `resize(n, 0)`
abbrev pub resize : ℕ → List ℕ → List ℕ
resize n bytes = take n bytes ++ repeated (n - length bytes)

-- The `n` bytes of a number, the highest first.
abbrev pub big_endian : ℕ → ℕ → List ℕ
big_endian zero value = []
big_endian (suc n) value = big_endian n (value / 256) ++ (value % 256) ∷ []

abbrev pub domain_separator : List ℕ
domain_separator =
    0x0d ∷ 0xe8 ∷ 0x34 ∷ 0xfe ∷ 0xb0 ∷ 0x3c ∷ 0x21 ∷ 0x4f ∷ 0x78 ∷ 0x5e ∷ 0x75 ∷ 0xb2 ∷ 0x82 ∷ 0x8f
    ∷ 0xfe ∷ 0xce ∷ 0xb3 ∷ 0x22 ∷ 0x31 ∷ 0x2d ∷ 0x44 ∷ 0x87 ∷ 0xe2 ∷ 0xfb ∷ 0x96 ∷ 0x40 ∷ 0xca
    ∷ 0x5f ∷ 0xc3 ∷ 0x25 ∷ 0x42 ∷ 0xc7 ∷ []

abbrev pub attestation_typehash : List ℕ
attestation_typehash =
    0x68 ∷ 0x89 ∷ 0xdf ∷ 0x47 ∷ 0x6c ∷ 0xa3 ∷ 0x8f ∷ 0x3f ∷ 0x4b ∷ 0x41 ∷ 0x7c ∷ 0x17 ∷ 0xeb ∷ 0x49
    ∷ 0x66 ∷ 0x82 ∷ 0xeb ∷ 0x40 ∷ 0x1b ∷ 0x4f ∷ 0x41 ∷ 0xa2 ∷ 0x25 ∷ 0x97 ∷ 0x41 ∷ 0xa7 ∷ 0x8a
    ∷ 0xcc ∷ 0x48 ∷ 0x1e ∷ 0xa8 ∷ 0x05 ∷ []

module _ {Secret Message : Type 0} (lib : VerifierLibrary Secret Message) where
  unfoldable pub compute_digest : List ℕ → List ℕ → List ℕ → List ℕ → ℕ → List ℕ
  compute_digest enclave_pubkey pcr0 pcr1 pcr2 timestamp =
      let hashes =
        attestation_typehash
        ++ (lib.keccak256 enclave_pubkey
            ++ (lib.keccak256 pcr0 ++ (lib.keccak256 pcr1 ++ lib.keccak256 pcr2))) in
      let encoded_struct = take 160 (resize 192 hashes) ++ big_endian 32 timestamp in
      let hash_struct = lib.keccak256 encoded_struct in
      lib.keccak256 ((0x19 ∷ 0x01 ∷ []) ++ (domain_separator ++ hash_struct))

  -- The signature of what was decoded; in a release build the sum wraps.
  unfoldable pub respond : AttestationDecoded → Secret → List ℕ → Response VerifyAttestationResponse
  respond parsed secret public = do
    pcr0 ← or_panic (get_elem? parsed.pcrs 0)
    pcr1 ← or_panic (get_elem? parsed.pcrs 1)
    pcr2 ← or_panic (get_elem? parsed.pcrs 2)
    response_msg ←
        or_fail message_generation
          (lib.from_digest_slice (compute_digest parsed.public_key pcr0 pcr1 pcr2 parsed.timestamp))
    let (recid, sig) = lib.sign response_msg secret
    recid ← or_fail invalid_recovery (to_u8 recid)
    answer (record {
      signature = lib.encode sig ++ lib.encode ((recid + 27) % 256 ∷ []);
      secp256k1_public = lib.encode parsed.public_key;
      pcr0 = lib.encode pcr0;
      pcr1 = lib.encode pcr1;
      pcr2 = lib.encode pcr2;
      timestamp = parsed.timestamp;
      verifier_secp256k1_public = lib.encode public;
    })

  module _ {Value Doc Cose Cert PublicKey : Type 0}
      (documents : Library Value Doc Cose Cert PublicKey) (current_time : ℕ → Option ℕ)
      (root_cert_pem : List ℕ) where
    unfoldable pub verify : List ℕ → Secret → List ℕ → Response VerifyAttestationResponse
    verify attestation secret public = do
      parsed ← or_unverified (decode_attestation documents attestation)
      key ← or_unverified (
          verify_with_timestamp documents current_time root_cert_pem attestation parsed.pcrs
            parsed.timestamp)
      respond parsed secret public

    unfoldable pub verify_raw : List ℕ → Secret → List ℕ → Response VerifyAttestationResponse
    verify_raw req secret public = verify req secret public

    unfoldable pub verify_hex : List ℕ → Secret → List ℕ → Response VerifyAttestationResponse
    verify_hex req secret public = do
      attestation ← or_fail attestation_decode (lib.decode req)
      verify attestation secret public
