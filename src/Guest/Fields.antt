-- ===== src/Guest/Fields.antt =====
-- The parts of the document that are read between two commits, each from the offset where it begins.
use oyster_monorepo.Base.{
  ℕ, zero, suc, ◌+◌, ◌-◌, ◌&&◌, Option, some, List, [], ◌∷◌, ◌++◌, ltb, leb, ◌==◌, if◌then◌else◌,
  length,
}
use oyster_monorepo.Guest.Crypto.{Crypto}
use oyster_monorepo.Guest.Reader.{
  ◌>>=◌, ◌>>◌, assert, codes, index, range, assert_byte, assert_bytes, size_at,
}
use oyster_monorepo.Guest.Chain.{check_expiry, parse_cert, verify_cert}

module _ (attestation : List ℕ) where
  -- The COSE structure up to the payload, and the size of the payload.
  unfoldable pub read_header : Option ℕ
  read_header = do
    assert_bytes attestation 0 (0x84 ∷ 0x44 ∷ 0xa1 ∷ 0x01 ∷ 0x38 ∷ 0x22 ∷ 0xa0 ∷ 0x59 ∷ [])
    payload_size ← size_at attestation 8
    assert (length attestation == 10 + payload_size + 98)
    some payload_size

  -- The map of nine, the module's id and the digest: where the timestamp's key begins, less 14.
  unfoldable pub skip_module_id : Option ℕ
  skip_module_id = do
    assert_bytes attestation 10 (0xa9 ∷ 0x69 ∷ [])
    assert_byte attestation 21 0x78
    size ← index attestation 22
    let offset = 23 + size
    assert_byte attestation offset 0x66
    assert_byte attestation (offset + 7) 0x66
    some offset

  unfoldable pub read_timestamp : ℕ → Option (List ℕ)
  read_timestamp offset = do
    assert_byte attestation (offset + 14) 0x69
    assert_bytes attestation (offset + 15) (codes "timestamp")
    assert_byte attestation (offset + 24) 0x1b
    range attestation (offset + 25) (offset + 33)

  unfoldable pub open_pcrs : ℕ → Option (Unit {0})
  open_pcrs offset = do
    assert_byte attestation (offset + 33) 0x64
    assert_bytes attestation (offset + 34) (codes "pcrs")
    assert_byte attestation (offset + 38) 0xb0

  abbrev pub assert_pcr : ℕ → ℕ → Option (Unit {0})
  assert_pcr n offset = assert_bytes attestation offset (n ∷ 0x58 ∷ 0x30 ∷ [])

  unfoldable pub read_pcr : ℕ → ℕ → Option (List ℕ)
  read_pcr n offset = do assert_pcr n offset; range attestation (offset + 3) (offset + 51)

  -- So many registers from the `n`-th on, which are not committed.
  unfoldable pub skip_pcrs : ℕ → ℕ → ℕ → Option ℕ
  skip_pcrs zero n offset = some offset
  skip_pcrs (suc count) n offset = do assert_pcr n offset; skip_pcrs count (suc n) (offset + 51)

  -- The length and the bytes of the key.
  unfoldable pub read_public_key : ℕ → Option (ℕ × List ℕ)
  read_public_key offset = do
    assert_byte attestation offset 0x6a
    assert_bytes attestation (offset + 1) (codes "public_key")
    assert_byte attestation (offset + 11) 0x58
    pubkey_len ← index attestation (offset + 12)
    key ← range attestation (offset + 13) (offset + 13 + pubkey_len)
    some (pubkey_len, key)

  -- The size and the bytes, for null, a length of one byte, and one of two.
  abbrev pub user_data_of : ℕ → ℕ → Option (ℕ × List ℕ)
  user_data_of offset kind =
      if kind == 0xf6
      then some (0, [])
      else if kind == 0x58
      then (do
        size ← index attestation (offset + 11)
        bytes ← range attestation (offset + 12) (offset + 12 + size)
        some (size, bytes))
      else (do
        assert (kind == 0x59)
        size ← size_at attestation (offset + 11)
        bytes ← range attestation (offset + 13) (offset + 13 + size)
        some (size, bytes))

  unfoldable pub read_user_data : ℕ → Option (ℕ × List ℕ)
  read_user_data offset = do
    assert_byte attestation offset 0x69
    assert_bytes attestation (offset + 1) (codes "user_data")
    kind ← index attestation (offset + 10)
    user_data_of offset kind

  -- What the signature of the document is over: the structure `Signature1` with the payload.
  unfoldable pub signed_structure : ℕ → Option (List ℕ)
  signed_structure payload_size = do
    high ← index attestation 8
    low ← index attestation 9
    payload ← range attestation 10 (10 + payload_size)
    some (
        (0x84 ∷ 0x6a ∷ codes "Signature1")
        ++ ((0x44 ∷ 0xa1 ∷ 0x01 ∷ 0x38 ∷ 0x22 ∷ 0x40 ∷ 0x59 ∷ high ∷ low ∷ []) ++ payload))

module _ {Certificate Signature VerifyingKey : Type 0}
    (crypto : Crypto Certificate Signature VerifyingKey) (attestation : List ℕ) where
  open crypto use {public_key, from_scalars, from_sec1_bytes, verify_prehash, sha384}

  -- The leaf certificate, with the length of its bytes.
  unfoldable pub read_leaf : ℕ → Option (Certificate × ℕ)
  read_leaf offset = do
    assert_byte attestation offset 0x6b
    assert_bytes attestation (offset + 1) (codes "certificate")
    parse_cert crypto attestation (offset + 12)

  -- The key of the bundle and its length, of 1 to 16 certificates.
  unfoldable pub read_chain_size : ℕ → Option ℕ
  read_chain_size offset = do
    assert_byte attestation offset 0x68
    assert_bytes attestation (offset + 1) (codes "cabundle")
    chain_size ← index attestation (offset + 9)
    assert (ltb 0x80 chain_size && leb chain_size 0x90)
    some (chain_size - 0x80)

  -- The root certificate, with the length of its bytes.
  unfoldable pub read_root : ℕ → ℕ → Option (Certificate × ℕ)
  read_root timestamp offset = do
    (root, size) ← parse_cert crypto attestation offset
    check_expiry crypto timestamp root
    some (root, size)

  -- The key of a certificate as two coordinates.
  unfoldable pub root_key : Certificate → Option (List ℕ)
  root_key root = do
    assert (length (public_key root) == 97)
    head ← index (public_key root) 0
    assert (head == 0x04)
    range (public_key root) 1 (length (public_key root))

  -- The leaf against the last certificate of the bundle.
  unfoldable pub check_leaf : ℕ → ℕ → Certificate → Certificate → Option (Unit {0})
  check_leaf timestamp leaf_cert_offset leaf last = do
    check_expiry crypto timestamp leaf
    verify_cert crypto attestation leaf_cert_offset leaf last

  -- The signature of the document, by the key of the leaf.
  unfoldable pub check_signature : ℕ → Certificate → Option (Unit {0})
  check_signature payload_size leaf = do
    structure ← signed_structure attestation payload_size
    assert_byte attestation (payload_size + 10) 0x58
    assert_byte attestation (payload_size + 11) 0x60
    key ← from_sec1_bytes (public_key leaf)
    r ← range attestation (12 + payload_size) (60 + payload_size)
    s ← range attestation (60 + payload_size) (108 + payload_size)
    sig ← from_scalars r s
    assert (verify_prehash key (sha384 structure) sig)
