-- ===== src/Verifier/Tests.antt =====
-- A run of attestation/verifier/src/handler.rs, with libraries that accept everything.
use oyster_monorepo.Base.{ℕ, ◌≡◌, refl, sym, ap, Option, none, some, List, [], ◌∷◌, ◌++◌}
use oyster_monorepo.Base.Int.{pos}
use oyster_monorepo.Attestation.Library.{name, number}
use oyster_monorepo.Attestation.Document.{
  AttestationDecoded, parse_attestation_doc, parse_pcr, parse_pcrs, parse_timestamp,
  parse_enclave_key, decode_attestation,
}
use oyster_monorepo.Attestation.Verify.{
  get_certs, check_link, check_links, verify_cert_chain, verify_signature_and_cert_chain,
  verify_and_decode_attestation, verify_with_timestamp,
}
use oyster_monorepo.Attestation.Soundness.{IsGenuine}
use oyster_monorepo.Attestation.Samples.{repeat, toy, clock}
use oyster_monorepo.Verifier.Handler.{
  VerifyAttestationResponse, VerifierLibrary, answer, compute_digest, respond, verify,
}
use oyster_monorepo.Verifier.Signing.{Removes, value_at}
use oyster_monorepo.Verifier.Attested.{IsAnswer, verify-IsAnswer}

-- A signature is the secret and the digest.
abbrev signing : VerifierLibrary (List ℕ) (List ℕ)
signing = record {
  keccak256 = λ message. repeat 32 9;
  encode = λ bytes. bytes;
  decode = λ text. none;
  from_digest_slice = λ digest. some digest;
  sign = λ message secret. (pos 1, secret ++ message);
}

abbrev response : VerifyAttestationResponse
response = record {
  signature = (5 ∷ repeat 32 9) ++ 28 ∷ [];
  secp256k1_public = 7 ∷ 8 ∷ [];
  pcr0 = repeat 48 0;
  pcr1 = repeat 48 1;
  pcr2 = repeat 48 2;
  timestamp = 90000;
  verifier_secp256k1_public = 6 ∷ [];
}

toy-Removes : Removes toy
toy-Removes doc rest (name key) other value h e =
    ap
      (λ (o : Option (List ℕ × List ℕ)). elim o as (λ x. Option (List ℕ)) [
        | none ↦ none
        | some (v, left) ↦ value_at toy other left
      ])
      (sym e)
toy-Removes doc rest (number i) other value h e =
    ap
      (λ (o : Option (List ℕ × List ℕ)). elim o as (λ x. Option (List ℕ)) [
        | none ↦ none
        | some (v, left) ↦ value_at toy other left
      ])
      (sym e)

answers : verify signing toy clock [] (1 ∷ 2 ∷ []) (5 ∷ []) (6 ∷ []) ≡ answer response
unfolding verify respond compute_digest decode_attestation verify_with_timestamp
    verify_and_decode_attestation parse_attestation_doc parse_pcrs parse_pcr
    verify_signature_and_cert_chain verify_cert_chain get_certs check_links check_link
    parse_timestamp parse_enclave_key
answers = refl

verify-IsAnswer_example :
    (decoded : AttestationDecoded) × IsGenuine toy clock [] (1 ∷ 2 ∷ []) decoded
    × IsAnswer signing decoded (5 ∷ []) (6 ∷ []) response
verify-IsAnswer_example =
    verify-IsAnswer signing toy clock [] (1 ∷ 2 ∷ []) (5 ∷ []) (6 ∷ []) response toy-Removes
      (λ message. refl) answers
