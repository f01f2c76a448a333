-- ===== src/Attestation/Tests.antt =====
-- A run of the verification with libraries that accept everything.
use oyster_monorepo.Base.{◌+◌, ◌≤◌, ◌≡◌, refl, [], ◌∷◌, arith}
use oyster_monorepo.Attestation.Library.{verify_failed}
use oyster_monorepo.Attestation.Document.{
  AttestationDecoded, parse_attestation_doc, parse_pcr, parse_pcrs, parse_timestamp,
  parse_enclave_key,
}
use oyster_monorepo.Attestation.Verify.{
  is_too_old, get_certs, check_link, check_links, verify_cert_chain,
  verify_signature_and_cert_chain, verify_and_decode_attestation, verify,
}
use oyster_monorepo.Attestation.Soundness.{IsGenuine, verify-IsGenuine}
use oyster_monorepo.Attestation.Samples.{toy, clock, registers}

verify-IsGenuine_example :
    (decoded : AttestationDecoded) × IsGenuine toy clock [] (1 ∷ 2 ∷ []) decoded
    × (decoded.pcrs ≡ registers)
    × (100000 ≤ decoded.timestamp + 20000)
    × (decoded.public_key ≡ 7 ∷ 8 ∷ [])
unfolding verify verify_and_decode_attestation parse_attestation_doc parse_pcrs parse_pcr
    verify_signature_and_cert_chain verify_cert_chain get_certs check_links check_link
    parse_timestamp parse_enclave_key is_too_old
verify-IsGenuine_example =
    verify-IsGenuine toy clock [] (1 ∷ 2 ∷ []) registers 20000 100000 (7 ∷ 8 ∷ []) (omega arith)
      (omega arith) refl

-- An age that is longer than the time since 1970 makes every document too old.
long_age_too_old : verify toy clock [] (1 ∷ 2 ∷ []) registers 200000 100000 ≡ verify_failed
unfolding verify verify_and_decode_attestation parse_attestation_doc parse_pcrs parse_pcr
    verify_signature_and_cert_chain verify_cert_chain get_certs check_links check_link
    parse_timestamp parse_enclave_key is_too_old
long_age_too_old = refl
