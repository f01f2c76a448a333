-- ===== src/Attestation/Samples.antt =====
-- Libraries that accept every document: a document is its bytes, and a certificate its number.
use oyster_monorepo.Base.{ℕ, zero, suc, true, Option, some, List, [], ◌∷◌}
use oyster_monorepo.Base.Int.{pos}
use oyster_monorepo.Attestation.Library.{Key, name, number, Library}

abbrev pub repeat : ℕ → ℕ → List ℕ
repeat zero x = []
repeat (suc n) x = x ∷ repeat n x

abbrev pub toy_remove : List ℕ → Key → Option (List ℕ × List ℕ)
toy_remove doc (number i) = some (repeat 48 i, doc)
toy_remove doc (name key) = some (7 ∷ 8 ∷ [], doc)

abbrev pub toy : Library (List ℕ) (List ℕ) (List ℕ) ℕ ℕ
toy = record {
  cose_from_bytes = λ bytes. some bytes;
  get_payload = λ cose. some cose;
  verify_signature = λ cose key. some true;
  from_slice = λ bytes. some bytes;
  into_map = λ value. some value;
  remove = toy_remove;
  into_bytes = λ value. some value;
  into_array = λ value. some (value ∷ (1 ∷ []) ∷ []);
  into_integer = λ value. some (pos 90000);
  from_der = λ bytes. some 1;
  from_pem = λ bytes. some 1;
  public_key = λ cert. some cert;
  verify = λ cert key. some true;
  issued = λ cert parent. true;
  not_before = λ cert. 10;
  not_after = λ cert. 200;
  cert_eq = λ cert other. true;
}

abbrev pub clock : ℕ → Option ℕ
clock i = some 100

abbrev pub registers : List (List ℕ)
registers = repeat 48 0 ∷ repeat 48 1 ∷ repeat 48 2 ∷ []
