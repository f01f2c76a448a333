-- ===== src/Attestation/Document.antt =====
-- The parts of a document: the map of its payload, the registers, the timestamp and the key.
use oyster_monorepo.Base.{
  ℕ, ◌^◌, Option, none, some, List, [], ◌∷◌, ltb, ◌==◌, if◌then◌else◌, length,
}
use oyster_monorepo.Base.Int.{ℤ, pos, negsuc}
use oyster_monorepo.Attestation.Library.{
  name, number, Library, Result, ok, parse_failed, ◌>>=◌, or_parse,
}

-- `AttestationDecoded`
pub record AttestationDecoded : Type 0 where
  pub pcrs : List (List ℕ)
  pub timestamp : ℕ
  pub public_key : List ℕ

-- `try_into` to a usize of 64 bits.
abbrev pub to_usize : ℤ → Option ℕ
to_usize (pos n) = if ltb n (2 ^ 64) then some n else none
to_usize (negsuc n) = none

module _ {Value Doc Cose Cert PublicKey : Type 0}
    (lib : Library Value Doc Cose Cert PublicKey) where
  unfoldable pub parse_attestation_doc : List ℕ → Result (Cose × Doc)
  parse_attestation_doc attestation_doc = do
    cosesign1 ← or_parse (lib.cose_from_bytes attestation_doc)
    payload ← or_parse (lib.get_payload cosesign1)
    cbor ← or_parse (lib.from_slice payload)
    doc ← or_parse (lib.into_map cbor)
    ok (cosesign1, doc)

  -- A register, which has 48 bytes.
  unfoldable pub parse_pcr : ℕ → Doc → Result (List ℕ × Doc)
  parse_pcr i pcrs_arr = do
    (value, rest) ← or_parse (lib.remove pcrs_arr (number i))
    pcr ← or_parse (lib.into_bytes value)
    if length pcr == 48 then ok (pcr, rest) else parse_failed

  -- The three registers, and the map without them.
  unfoldable pub parse_pcrs : Doc → Result (List (List ℕ) × Doc)
  parse_pcrs doc = do
    (value, doc) ← or_parse (lib.remove doc (name "pcrs"))
    pcrs_arr ← or_parse (lib.into_map value)
    (pcr0, pcrs_arr) ← parse_pcr 0 pcrs_arr
    (pcr1, pcrs_arr) ← parse_pcr 1 pcrs_arr
    (pcr2, pcrs_arr) ← parse_pcr 2 pcrs_arr
    ok (pcr0 ∷ pcr1 ∷ pcr2 ∷ [], doc)

  unfoldable pub parse_timestamp : Doc → Result (ℕ × Doc)
  parse_timestamp doc = do
    (value, doc) ← or_parse (lib.remove doc (name "timestamp"))
    integer ← or_parse (lib.into_integer value)
    timestamp ← or_parse (to_usize integer)
    ok (timestamp, doc)

  unfoldable pub parse_enclave_key : Doc → Result (List ℕ × Doc)
  parse_enclave_key doc = do
    (value, doc) ← or_parse (lib.remove doc (name "public_key"))
    public_key ← or_parse (lib.into_bytes value)
    ok (public_key, doc)

  unfoldable pub decode_attestation : List ℕ → Result AttestationDecoded
  decode_attestation attestation_doc = do
    (_, doc) ← parse_attestation_doc attestation_doc
    (pcrs, doc) ← parse_pcrs doc
    (timestamp, doc) ← parse_timestamp doc
    (public_key, doc) ← parse_enclave_key doc
    ok (record { pcrs = pcrs; timestamp = timestamp; public_key = public_key })
