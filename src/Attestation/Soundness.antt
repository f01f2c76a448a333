-- ===== src/Attestation/Soundness.antt =====
-- What a document that is accepted has: a signature by the first of a chain of certificates that ends in
-- the root, the registers that were asked for, and the age.
use mathlib.Core.List.{reverse}
use oyster_monorepo.Base.{
  ℕ, suc, ◌+◌, ◌^◌, ◌≤◌, ◌<◌, ◌≡◌, ◌∙◌, refl, ap, true, not, ◌||◌, Option, some, List, [], ◌∷◌,
  arith, ltb,
}
use oyster_monorepo.Guest.Reader.{bytes_eq}
use oyster_monorepo.Attestation.Library.{
  name, Library, ok, or_parse, require, bind-ok, then-ok, require-true, or_parse-some, ok_injective,
}
use oyster_monorepo.Attestation.Document.{
  AttestationDecoded, parse_attestation_doc, parse_pcrs, parse_timestamp, parse_enclave_key,
}
use oyster_monorepo.Attestation.Verify.{
  registers_eq, is_too_old, get_certs, check_link, check_links, verify_cert_chain,
  verify_signature_and_cert_chain, verify_and_decode_attestation, verify,
}

bytes_eq_lem : (xs ys : List ℕ) → bytes_eq xs ys ≡ true → xs ≡ ys
bytes_eq_lem [] [] h = refl
bytes_eq_lem [] (y ∷ ys) h = ground arith
bytes_eq_lem (x ∷ xs) [] h = ground arith
bytes_eq_lem (x ∷ xs) (y ∷ ys) h = ground (arith, bytes_eq_lem xs ys)

pub registers_eq_lem : (xs ys : List (List ℕ)) → registers_eq xs ys ≡ true → xs ≡ ys
registers_eq_lem [] [] h = refl
registers_eq_lem [] (y ∷ ys) h = ground arith
registers_eq_lem (x ∷ xs) [] h = ground arith
registers_eq_lem (x ∷ xs) (y ∷ ys) h = ground (arith, bytes_eq_lem x y, registers_eq_lem xs ys)

is_too_old_lem :
    (now max_age timestamp : ℕ)
    → now < 2 ^ 64
    → max_age ≤ now
    → not (is_too_old now max_age timestamp) ≡ true
    → now ≤ timestamp + max_age
unfolding is_too_old
is_too_old_lem now max_age timestamp n m h = ground arith

module _ {Value Doc Cose Cert PublicKey : Type 0} (lib : Library Value Doc Cose Cert PublicKey)
    (current_time : ℕ → Option ℕ) (root_cert_pem : List ℕ) where
  -- A certificate is signed and issued by the holder of the other, and valid now.
  pub record IsLinked (i : ℕ) (cert parent : Cert) : Type 0 where
    pub pubkey : PublicKey
    pub keyed : lib.public_key parent ≡ some pubkey
    pub signed : lib.verify cert pubkey ≡ some true
    pub issued : lib.issued parent cert ≡ true
    pub now : ℕ
    pub timed : current_time i ≡ some now
    pub begun : lib.not_before cert ≤ now
    pub not_ended : now ≤ lib.not_after cert

  -- Each certificate is linked to the next, and the last is the one that is given.
  abbrev pub Linked : ℕ → Cert → List Cert → Cert → Type 0
  Linked i cert [] last = cert ≡ last
  Linked i cert (parent ∷ certs) last = IsLinked i cert parent × Linked (suc i) parent certs last

  pub record IsCertified (cert : Cert) (cabundle : List Value) : Type 0 where
    pub certs : List Cert
    pub read : get_certs lib current_time root_cert_pem cabundle ≡ ok certs
    pub last : Cert
    pub linked : Linked 0 cert certs last
    pub root : Cert
    pub rooted : lib.from_pem root_cert_pem ≡ some root
    pub ends : lib.cert_eq root last ≡ true

  -- The document's signature is by the key of its certificate, which is certified by its bundle, the root
  -- first.
  pub record IsSigned (doc : Doc) (cose : Cose) : Type 0 where
    pub value : Value
    pub rest : Doc
    pub found : lib.remove doc (name "certificate") ≡ some (value, rest)
    pub der : List ℕ
    pub bytes : lib.into_bytes value ≡ some der
    pub cert : Cert
    pub decoded : lib.from_der der ≡ some cert
    pub pub_key : PublicKey
    pub keyed : lib.public_key cert ≡ some pub_key
    pub signed : lib.verify_signature cose pub_key ≡ some true
    pub bundle : List Value
    pub certified : IsCertified cert (reverse bundle)

  -- What was decoded stands in the document, which is signed.
  pub record IsGenuine (attestation_doc : List ℕ) (decoded : AttestationDecoded) : Type 0 where
    pub cose : Cose
    pub doc : Doc
    pub parsed : parse_attestation_doc lib attestation_doc ≡ ok (cose, doc)
    pub doc1 : Doc
    pub measured : parse_pcrs lib doc ≡ ok (decoded.pcrs, doc1)
    pub signed : IsSigned doc1 cose
    pub doc2 : Doc
    pub checked : verify_signature_and_cert_chain lib current_time root_cert_pem doc1 cose ≡ ok doc2
    pub doc3 : Doc
    pub timed : parse_timestamp lib doc2 ≡ ok (decoded.timestamp, doc3)
    pub doc4 : Doc
    pub keyed : parse_enclave_key lib doc3 ≡ ok (decoded.public_key, doc4)

  check_link-IsLinked :
      (i : ℕ) (cert parent : Cert) {u : Unit {0}}
      → check_link lib current_time root_cert_pem i cert parent ≡ ok u
      → IsLinked i cert parent
  unfolding check_link
  check_link-IsLinked i cert parent h =
      let (pubkey, a, h₁) = bind-ok (or_parse (lib.public_key parent)) _ h in
      let (signed, b, h₂) = bind-ok (or_parse (lib.verify cert pubkey)) _ h₁ in
      let (_, c, h₃) = then-ok (require signed) _ h₂ in
      let (_, d, h₄) = then-ok (require (lib.issued parent cert)) _ h₃ in
      let (now, e, h₅) = bind-ok (or_parse (current_time i)) _ h₄ in
      let valid =
        require-true (not (ltb (lib.not_after cert) now || ltb now (lib.not_before cert))) h₅ in
      record {
        pubkey = pubkey;
        keyed = or_parse-some (lib.public_key parent) a;
        signed = or_parse-some (lib.verify cert pubkey) b ∙ ap some (require-true signed c);
        issued = require-true (lib.issued parent cert) d;
        now = now;
        timed = or_parse-some (current_time i) e;
        begun = ground (arith, valid);
        not_ended = ground (arith, valid);
      }

  check_links-Linked :
      (i : ℕ) (cert last : Cert) (certs : List Cert)
      → check_links lib current_time root_cert_pem i cert certs ≡ ok last
      → Linked i cert certs last
  unfolding check_links
  check_links-Linked i cert last [] h = ground arith
  check_links-Linked i cert last (parent ∷ certs) h =
      let (_, a, h₁) = then-ok (check_link lib current_time root_cert_pem i cert parent) _ h in
      (check_link-IsLinked i cert parent a, check_links-Linked (suc i) parent last certs h₁)

  verify_cert_chain-IsCertified :
      (cert : Cert) (cabundle : List Value) {u : Unit {0}}
      → verify_cert_chain lib current_time root_cert_pem cert cabundle ≡ ok u
      → IsCertified cert cabundle
  unfolding verify_cert_chain
  verify_cert_chain-IsCertified cert cabundle h =
      let (certs, a, h₁) = bind-ok (get_certs lib current_time root_cert_pem cabundle) _ h in
      let (last, b, h₂) = bind-ok (check_links lib current_time root_cert_pem 0 cert certs) _ h₁ in
      let (root, c, h₃) = bind-ok (or_parse (lib.from_pem root_cert_pem)) _ h₂ in
      record {
        certs = certs;
        read = a;
        last = last;
        linked = check_links-Linked 0 cert last certs b;
        root = root;
        rooted = or_parse-some (lib.from_pem root_cert_pem) c;
        ends = require-true (lib.cert_eq root last) h₃;
      }

  verify_signature_and_cert_chain-IsSigned :
      (doc after : Doc) (cose : Cose)
      → verify_signature_and_cert_chain lib current_time root_cert_pem doc cose ≡ ok after
      → IsSigned doc cose
  unfolding verify_signature_and_cert_chain
  verify_signature_and_cert_chain-IsSigned doc after cose h =
      let ((value, rest), a, h₁) = bind-ok (or_parse (lib.remove doc (name "certificate"))) _ h in
      let (der, b, h₂) = bind-ok (or_parse (lib.into_bytes value)) _ h₁ in
      let (cert, c, h₃) = bind-ok (or_parse (lib.from_der der)) _ h₂ in
      let (pub_key, d, h₄) = bind-ok (or_parse (lib.public_key cert)) _ h₃ in
      let (verify_result, e, h₅) = bind-ok (or_parse (lib.verify_signature cose pub_key)) _ h₄ in
      let (_, f, h₆) = then-ok (require verify_result) _ h₅ in
      let ((listed, last), _, h₇) = bind-ok (or_parse (lib.remove rest (name "cabundle"))) _ h₆ in
      let (bundle, _, h₈) = bind-ok (or_parse (lib.into_array listed)) _ h₇ in
      let (_, g, _) =
        then-ok (verify_cert_chain lib current_time root_cert_pem cert (reverse bundle)) _ h₈ in
      record {
        value = value;
        rest = rest;
        found = or_parse-some (lib.remove doc (name "certificate")) a;
        der = der;
        bytes = or_parse-some (lib.into_bytes value) b;
        cert = cert;
        decoded = or_parse-some (lib.from_der der) c;
        pub_key = pub_key;
        keyed = or_parse-some (lib.public_key cert) d;
        signed =
            or_parse-some (lib.verify_signature cose pub_key) e
            ∙ ap some (require-true verify_result f);
        bundle = bundle;
        certified = verify_cert_chain-IsCertified cert (reverse bundle) g;
      }

  pub verify_and_decode_attestation-IsGenuine :
      (attestation_doc : List ℕ) (decoded : AttestationDecoded)
      → verify_and_decode_attestation lib current_time root_cert_pem attestation_doc ≡ ok decoded
      → IsGenuine attestation_doc decoded
  unfolding verify_and_decode_attestation
  verify_and_decode_attestation-IsGenuine attestation_doc decoded h =
      let ((cose, doc), a, h₁) = bind-ok (parse_attestation_doc lib attestation_doc) _ h in
      let ((pcrs, doc1), b, h₂) = bind-ok (parse_pcrs lib doc) _ h₁ in
      let (doc2, c, h₃) =
        bind-ok (verify_signature_and_cert_chain lib current_time root_cert_pem doc1 cose) _ h₂ in
      let ((timestamp, doc3), d, h₄) = bind-ok (parse_timestamp lib doc2) _ h₃ in
      let ((public_key, doc4), e, h₅) = bind-ok (parse_enclave_key lib doc3) _ h₄ in
      let same = ok_injective h₅ in
      record {
        cose = cose;
        doc = doc;
        parsed = a;
        doc1 = doc1;
        measured = b ∙ ap (λ (r : AttestationDecoded). ok (r.pcrs, doc1)) same;
        signed = verify_signature_and_cert_chain-IsSigned doc1 doc2 cose c;
        doc2 = doc2;
        checked = c;
        doc3 = doc3;
        timed = d ∙ ap (λ (r : AttestationDecoded). ok (r.timestamp, doc3)) same;
        doc4 = doc4;
        keyed = e ∙ ap (λ (r : AttestationDecoded). ok (r.public_key, doc4)) same;
      }

  -- Where a document is accepted, at a time that is not before the age that is allowed: its signature is
  -- by the key of a certificate, from which a chain of certificates leads to the root, each signed and
  -- issued by the holder of the next and valid but for the root itself; its registers are those asked for;
  -- it is no older than allowed; and the answer is its key.
  pub verify-IsGenuine :
      (attestation_doc : List ℕ) (pcrs : List (List ℕ)) (max_age now : ℕ) (key : List ℕ)
      → now < 2 ^ 64
      → max_age ≤ now
      → verify lib current_time root_cert_pem attestation_doc pcrs max_age now ≡ ok key
      → (decoded : AttestationDecoded) × IsGenuine attestation_doc decoded
        × (decoded.pcrs ≡ pcrs)
        × (now ≤ decoded.timestamp + max_age)
        × (decoded.public_key ≡ key)
  unfolding verify
  verify-IsGenuine attestation_doc pcrs max_age now key n m h =
      let (decoded, a, h₁) =
        bind-ok (verify_and_decode_attestation lib current_time root_cert_pem attestation_doc) _
          h in
      let (_, b, h₂) = then-ok (require (registers_eq decoded.pcrs pcrs)) _ h₁ in
      let (_, c, h₃) = then-ok (require (not (is_too_old now max_age decoded.timestamp))) _ h₂ in
      let same = require-true (registers_eq decoded.pcrs pcrs) b in
      let young = require-true (not (is_too_old now max_age decoded.timestamp)) c in
      (
        decoded,
        verify_and_decode_attestation-IsGenuine attestation_doc decoded a,
        registers_eq_lem decoded.pcrs pcrs same,
        is_too_old_lem now max_age decoded.timestamp n m young,
        ok_injective h₃,
      )
