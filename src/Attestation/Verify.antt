-- ===== src/Attestation/Verify.antt =====
-- The verification: the chain of certificates, the signature, the registers and the age.
use mathlib.Core.List.{reverse}
use oyster_monorepo.Base.{
  ℕ, suc, ◌+◌, ◌-◌, ◌^◌, ◌%◌, Bool, true, false, not, ◌&&◌, ◌||◌, Option, List, [], ◌∷◌, ltb, ◌==◌,
}
use oyster_monorepo.Guest.Reader.{bytes_eq}
use oyster_monorepo.Attestation.Library.{name, Library, Result, ok, ◌>>=◌, ◌>>◌, or_parse, require}
use oyster_monorepo.Attestation.Document.{
  AttestationDecoded, parse_attestation_doc, parse_pcrs, parse_timestamp, parse_enclave_key,
}

abbrev pub registers_eq : List (List ℕ) → List (List ℕ) → Bool
registers_eq [] [] = true
registers_eq [] (y ∷ ys) = false
registers_eq (x ∷ xs) [] = false
registers_eq (x ∷ xs) (y ∷ ys) = bytes_eq x y && registers_eq xs ys

-- `now as usize - max_age > timestamp`; a release build wraps.
unfoldable pub is_too_old : (now max_age timestamp : ℕ) → Bool
is_too_old now max_age timestamp = ltb timestamp ((now + 2 ^ 64 - max_age) % 2 ^ 64)

-- `current_time` is the time for the test of the certificate with a number, or none where it cannot be
-- had; `root_cert_pem` is the file aws.cert.
module _ {Value Doc Cose Cert PublicKey : Type 0} (lib : Library Value Doc Cose Cert PublicKey)
    (current_time : ℕ → Option ℕ) (root_cert_pem : List ℕ) where
  unfoldable pub get_certs : List Value → Result (List Cert)
  get_certs [] = ok []
  get_certs (value ∷ cabundle) = do
    der ← or_parse (lib.into_bytes value)
    cert ← or_parse (lib.from_der der)
    certs ← get_certs cabundle
    ok (cert ∷ certs)

  -- A certificate and the one that is to have issued it.
  unfoldable pub check_link : ℕ → Cert → Cert → Result (Unit {0})
  check_link i cert parent = do
    pubkey ← or_parse (lib.public_key parent)
    signed ← or_parse (lib.verify cert pubkey)
    require signed
    require (lib.issued parent cert)
    now ← or_parse (current_time i)
    require (not (ltb (lib.not_after cert) now || ltb now (lib.not_before cert)))

  -- The loop over the pairs; the last certificate is the answer.
  unfoldable pub check_links : ℕ → Cert → List Cert → Result Cert
  check_links i cert [] = ok cert
  check_links i cert (parent ∷ certs) = do
    check_link i cert parent
    check_links (suc i) parent certs

  unfoldable pub verify_cert_chain : Cert → List Value → Result (Unit {0})
  verify_cert_chain cert cabundle = do
    certs ← get_certs cabundle
    last ← check_links 0 cert certs
    root_cert ← or_parse (lib.from_pem root_cert_pem)
    require (lib.cert_eq root_cert last)

  unfoldable pub verify_signature_and_cert_chain : Doc → Cose → Result Doc
  verify_signature_and_cert_chain doc cosesign1 = do
    (value, doc) ← or_parse (lib.remove doc (name "certificate"))
    der ← or_parse (lib.into_bytes value)
    enclave_certificate ← or_parse (lib.from_der der)
    pub_key ← or_parse (lib.public_key enclave_certificate)
    verify_result ← or_parse (lib.verify_signature cosesign1 pub_key)
    require verify_result
    (value, doc) ← or_parse (lib.remove doc (name "cabundle"))
    cabundle ← or_parse (lib.into_array value)
    verify_cert_chain enclave_certificate (reverse cabundle)
    ok doc

  unfoldable pub verify_and_decode_attestation : List ℕ → Result AttestationDecoded
  verify_and_decode_attestation attestation_doc = do
    (cosesign1, doc) ← parse_attestation_doc lib attestation_doc
    (pcrs, doc) ← parse_pcrs lib doc
    doc ← verify_signature_and_cert_chain doc cosesign1
    (timestamp, doc) ← parse_timestamp lib doc
    (public_key, doc) ← parse_enclave_key lib doc
    ok (record { pcrs = pcrs; timestamp = timestamp; public_key = public_key })

  -- `now` is in milliseconds.
  unfoldable pub verify : List ℕ → List (List ℕ) → (max_age now : ℕ) → Result (List ℕ)
  verify attestation_doc_cbor pcrs max_age now = do
    decoded ← verify_and_decode_attestation attestation_doc_cbor
    require (registers_eq decoded.pcrs pcrs)
    require (not (is_too_old now max_age decoded.timestamp))
    ok decoded.public_key

  unfoldable pub verify_with_timestamp : List ℕ → List (List ℕ) → ℕ → Result (List ℕ)
  verify_with_timestamp attestation_doc_cbor pcrs timestamp = do
    decoded ← verify_and_decode_attestation attestation_doc_cbor
    require (registers_eq decoded.pcrs pcrs)
    require (timestamp == decoded.timestamp)
    ok decoded.public_key
