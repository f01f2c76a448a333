-- ===== src/Guest/Chain.antt =====
-- The certificates of the document: how one is read, when it is valid, and who has signed it.
use oyster_monorepo.Base.{ℕ, zero, suc, ◌+◌, Option, some, List, ltb}
use oyster_monorepo.Guest.Crypto.{Crypto}
use oyster_monorepo.Guest.Reader.{◌>>=◌, ◌>>◌, assert, range, assert_byte, size_at}

module _ {Certificate Signature VerifyingKey : Type 0}
    (crypto : Crypto Certificate Signature VerifyingKey) where
  open crypto use {from_der, not_before, not_after, public_key, signature}
  open crypto use {signature_from_der, from_sec1_bytes, verify}

  -- The two assertions on the validity, at a time in seconds.
  unfoldable pub check_expiry : ℕ → Certificate → Option (Unit {0})
  check_expiry timestamp cert = do
    assert (ltb (not_before cert) timestamp)
    assert (ltb timestamp (not_after cert))

  module _ (attestation : List ℕ) where
    -- A byte string with a length of two bytes that holds a certificate, with that length.
    unfoldable pub parse_cert : ℕ → Option (Certificate × ℕ)
    parse_cert offset = do
      assert_byte attestation offset 0x59
      size ← size_at attestation (offset + 1)
      der ← range attestation (offset + 3) (offset + 3 + size)
      cert ← from_der der
      some (cert, size)

    -- The part of a certificate that is signed, in the bytes from `der` on.
    unfoldable pub signed_part : ℕ → Option (List ℕ)
    signed_part der = do
      assert_byte attestation der 0x30
      assert_byte attestation (der + 1) 0x82
      assert_byte attestation (der + 4) 0x30
      assert_byte attestation (der + 5) 0x82
      cert_size ← size_at attestation (der + 6)
      range attestation (der + 4) (der + 8 + cert_size)

    -- `cert`, whose bytes begin at `der`, is signed by the key of `parent`.
    unfoldable pub verify_cert : ℕ → Certificate → Certificate → Option (Unit {0})
    verify_cert der cert parent = do
      msg ← signed_part der
      sig ← signature_from_der (signature cert)
      vkey ← from_sec1_bytes (public_key parent)
      assert (verify vkey msg sig)

    -- The loop over the certificates after the root: the last of them, and where they end.
    unfoldable pub verify_chain : ℕ → ℕ → Certificate → ℕ → Option (Certificate × ℕ)
    verify_chain zero timestamp parent offset = some (parent, offset)
    verify_chain (suc n) timestamp parent offset = do
      (child, size) ← parse_cert offset
      check_expiry timestamp child
      verify_cert (offset + 3) child parent
      verify_chain n timestamp child (offset + 3 + size)
