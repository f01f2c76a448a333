-- ===== src/Verifier/Signing.antt =====
-- What attestation/verifier/src/handler.rs signs stands in a genuine attestation.
use mathlib.Core.List.{reverse}
use oyster_monorepo.Base.{
  String, ℕ, ◌≡◌, ◌≢◌, refl, sym, ap, ◌∙◌, Bool, true, false, Option, none, some, List, arith,
  str_eq,
}
use oyster_monorepo.Attestation.Library.{
  Key, name, number, Library, ok, or_parse, through, or_parse-some, ok_injective, require,
}
use oyster_monorepo.Attestation.Document.{
  AttestationDecoded, parse_attestation_doc, parse_pcrs, parse_timestamp, parse_enclave_key,
  to_usize, decode_attestation,
}
use oyster_monorepo.Attestation.Verify.{verify_signature_and_cert_chain, verify_cert_chain}
use oyster_monorepo.Attestation.Soundness.{IsGenuine}

abbrev is_public_key : Key → Bool
is_public_key (name s) = str_eq s "public_key"
is_public_key (number i) = false

differs : (key : String) → str_eq key "public_key" ≡ false → name key ≢ name "public_key"
differs key h e = let found : str_eq key "public_key" ≡ true = ap is_public_key e in ground arith

some_injective : {a b : List ℕ} → some a ≡ some b → a ≡ b
some_injective e = ground arith

module _ {Value Doc Cose Cert PublicKey : Type 0}
    (lib : Library Value Doc Cose Cert PublicKey) where
  -- What stands at a key.
  abbrev pub value_at : Key → Doc → Option Value
  value_at key doc = elim (lib.remove doc key) [ none ↦ none | some (value, rest) ↦ some value ]

  -- `BTreeMap::remove` takes one key out, and leaves the others as they are.
  abbrev pub Removes : Type 0
  Removes =
      (doc rest : Doc) (key other : Key) (value : Value)
      → key ≢ other
      → lib.remove doc key ≡ some (value, rest)
      → value_at other rest ≡ value_at other doc

  abbrev bytes_at : Option Value → Option (List ℕ)
  bytes_at none = none
  bytes_at (some value) = lib.into_bytes value

  module _ (removes : Removes) where
    -- A step that takes out another key leaves the public key where it was.
    removed :
        (doc rest : Doc) (key : String) (value : Value)
        → str_eq key "public_key" ≡ false
        → or_parse (lib.remove doc (name key)) ≡ ok (value, rest)
        → value_at (name "public_key") rest ≡ value_at (name "public_key") doc
    removed doc rest key value h e =
        removes doc rest (name key) (name "public_key") value (differs key h)
          (or_parse-some (lib.remove doc (name key)) e)

    parse_timestamp-value_at :
        (doc rest : Doc) (timestamp : ℕ)
        → parse_timestamp lib doc ≡ ok (timestamp, rest)
        → value_at (name "public_key") rest ≡ value_at (name "public_key") doc
    unfolding parse_timestamp
    parse_timestamp-value_at doc rest timestamp h =
        through (or_parse (lib.remove doc (name "timestamp"))) _ h (λ taken a h₁.
          through (or_parse (lib.into_integer taken.0)) _ h₁ (λ integer _ h₂.
            through (or_parse (to_usize integer)) _ h₂ (λ n _ h₃.
              let same : taken.1 ≡ rest = ap (λ (r : ℕ × Doc). r.1) (ok_injective h₃) in
              ap (value_at (name "public_key")) (sym same)
              ∙ removed doc taken.1 "timestamp" taken.0 refl a)))

    verify_signature-value_at :
        (root_cert_pem : List ℕ) (current_time : ℕ → Option ℕ) (doc rest : Doc) (cose : Cose)
        → verify_signature_and_cert_chain lib current_time root_cert_pem doc cose ≡ ok rest
        → value_at (name "public_key") rest ≡ value_at (name "public_key") doc
    unfolding verify_signature_and_cert_chain
    verify_signature-value_at root_cert_pem current_time doc rest cose h =
        through (or_parse (lib.remove doc (name "certificate"))) _ h (λ taken a h₁.
          through (or_parse (lib.into_bytes taken.0)) _ h₁ (λ der _ h₂.
            through (or_parse (lib.from_der der)) _ h₂ (λ cert _ h₃.
              through (or_parse (lib.public_key cert)) _ h₃ (λ pub_key _ h₄.
                through (or_parse (lib.verify_signature cose pub_key)) _ h₄ (λ good _ h₅.
                  through (require good) _ h₅ (λ _ _ h₆.
                    through (or_parse (lib.remove taken.1 (name "cabundle"))) _ h₆ (λ listed b h₇.
                      through (or_parse (lib.into_array listed.0)) _ h₇ (λ bundle _ h₈.
                        through
                          (verify_cert_chain lib current_time root_cert_pem cert (reverse bundle)) _
                          h₈
                          (λ _ _ h₉.
                            ap (value_at (name "public_key")) (sym (ok_injective h₉))
                            ∙ removed taken.1 listed.1 "cabundle" listed.0 refl b
                            ∙ removed doc taken.1 "certificate" taken.0 refl a)))))))))

    -- The key that is parsed is in what stands at its name.
    parse_enclave_key-value_at :
        (doc rest : Doc) (key : List ℕ)
        → parse_enclave_key lib doc ≡ ok (key, rest)
        → bytes_at (value_at (name "public_key") doc) ≡ some key
    unfolding parse_enclave_key
    parse_enclave_key-value_at doc rest key h =
        through (or_parse (lib.remove doc (name "public_key"))) _ h (λ taken a h₁.
          through (or_parse (lib.into_bytes taken.0)) _ h₁ (λ bytes b h₂.
            ap
              (λ o.
                bytes_at
                  (elim o as (λ x. Option Value) [ none ↦ none | some (value, left) ↦ some value ]))
              (or_parse-some (lib.remove doc (name "public_key")) a)
            ∙ or_parse-some (lib.into_bytes taken.0) b
            ∙ ap (λ (r : List ℕ × Doc). some r.0) (ok_injective h₂)))

    -- Decoding without verification gives what is in the document.
    pub decode_attestation-agrees :
        (root_cert_pem : List ℕ) (current_time : ℕ → Option ℕ) (attestation : List ℕ)
        (parsed decoded : AttestationDecoded)
        → decode_attestation lib attestation ≡ ok parsed
        → IsGenuine lib current_time root_cert_pem attestation decoded
        → decoded.public_key ≡ parsed.public_key
    unfolding decode_attestation
    decode_attestation-agrees root_cert_pem current_time attestation parsed decoded h g =
        through (parse_attestation_doc lib attestation) _ h (λ opened a h₁.
          through (parse_pcrs lib opened.1) _ h₁ (λ measured b h₂.
            through (parse_timestamp lib measured.1) _ h₂ (λ timed c h₃.
              through (parse_enclave_key lib timed.1) _ h₃ (λ keyed d h₄.
                let same_doc : opened.1 ≡ g.doc =
                  ap (λ (r : Cose × Doc). r.1) (ok_injective (sym a ∙ g.parsed)) in
                let same_rest : measured.1 ≡ g.doc1 =
                  ap (λ (r : List (List ℕ) × Doc). r.1)
                    (ok_injective (sym b ∙ ap (parse_pcrs lib) same_doc ∙ g.measured)) in
                let at = value_at (name "public_key") in
                let values : at g.doc3 ≡ at timed.1 =
                  parse_timestamp-value_at g.doc2 g.doc3 decoded.timestamp g.timed
                  ∙ verify_signature-value_at root_cert_pem current_time g.doc1 g.doc2 g.cose
                      g.checked
                  ∙ ap at (sym same_rest)
                  ∙ sym (parse_timestamp-value_at measured.1 timed.1 timed.0 c) in
                some_injective (
                  sym (parse_enclave_key-value_at g.doc3 g.doc4 decoded.public_key g.keyed)
                  ∙ ap bytes_at values
                  ∙ parse_enclave_key-value_at timed.1 keyed.1 keyed.0 d)
                ∙ ap (λ (r : AttestationDecoded). r.public_key) (ok_injective h₄)))))
