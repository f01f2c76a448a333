-- ===== src/Attestation/Library.antt =====
-- The libraries that the SDK calls, serde_cbor, aws_nitro_enclaves_cose and openssl, which are not in this
-- repository: their functions are the fields of `Library`, and what they answer with an error for is
-- `none`. A result is without the text of its error.
use oyster_monorepo.Base.{ℕ, String, ◌≡◌, refl, Bool, true, false, Option, none, some, List, arith}
use oyster_monorepo.Base.Int.{ℤ}

-- A key of a CBOR map.
pub data Key : Type 0 where
  name : String → Key
  number : ℕ → Key

pub record Library (Value Doc Cose Cert PublicKey : Type 0) : Type 0 where
  -- `CoseSign1::from_bytes`, `get_payload` and `verify_signature`
  pub cose_from_bytes : List ℕ → Option Cose
  pub get_payload : Cose → Option (List ℕ)
  pub verify_signature : Cose → PublicKey → Option Bool
  -- `from_slice`, `from_value::<BTreeMap<Value, Value>>` and `BTreeMap::remove`
  pub from_slice : List ℕ → Option Value
  pub into_map : Value → Option Doc
  pub remove : Doc → Key → Option (Value × Doc)
  -- The variants of `Value` that the code matches on.
  pub into_bytes : Value → Option (List ℕ)
  pub into_array : Value → Option (List Value)
  pub into_integer : Value → Option ℤ
  -- `X509`
  pub from_der : List ℕ → Option Cert
  pub from_pem : List ℕ → Option Cert
  pub public_key : Cert → Option PublicKey
  pub verify : Cert → PublicKey → Option Bool
  pub issued : Cert → Cert → Bool
  pub not_before : Cert → ℕ
  pub not_after : Cert → ℕ
  pub cert_eq : Cert → Cert → Bool

pub data Result (A : Type 0) : Type 0 where
  parse_failed verify_failed : Result A
  ok : A → Result A

infixl 5 ◌>>=◌ ◌>>◌
abbrev pub ◌>>=◌ : {X Y : Type 0} → Result X → (X → Result Y) → Result Y
parse_failed >>= next = parse_failed
verify_failed >>= next = verify_failed
ok x >>= next = next x

abbrev pub ◌>>◌ : {X Y : Type 0} → Result X → Result Y → Result Y
first >> second = first >>= λ _. second

-- `ok_or` and `map_err` with a failure to parse.
abbrev pub or_parse : {A : Type 0} → Option A → Result A
or_parse none = parse_failed
or_parse (some a) = ok a

-- An `if` that returns a failure to verify where the condition is not met.
abbrev pub require : Bool → Result (Unit {0})
require true = ok tt
require false = verify_failed

-- The answer of the first of two steps, where the second has one.
pub bind-ok :
    {X Y : Type 0} (first : Result X) (next : X → Result Y) {answer : Y}
    → (first >>= next) ≡ ok answer
    → (x : X) × (first ≡ ok x) × (next x ≡ ok answer)
bind-ok parse_failed next e = absurd (ground arith)
bind-ok verify_failed next e = absurd (ground arith)
bind-ok (ok x) next e = (x, refl, e)

pub then-ok :
    {X Y : Type 0} (first : Result X) (second : Result Y) {answer : Y}
    → (first >> second) ≡ ok answer
    → (x : X) × (first ≡ ok x) × (second ≡ ok answer)
then-ok first second e = bind-ok first (λ _. second) e

pub require-true : (b : Bool) {u : Unit {0}} → require b ≡ ok u → b ≡ true
require-true true h = refl
require-true false h = absurd (ground arith)

pub or_parse-some : {A : Type 0} (o : Option A) {a : A} → or_parse o ≡ ok a → o ≡ some a
or_parse-some none h = absurd (ground arith)
or_parse-some (some x) h = ground arith

pub ok_injective : {A : Type 0} {a b : A} → ok a ≡ ok b → a ≡ b
ok_injective h = ground arith

-- The same for a fact that is to be shown, from an answer that is a variable.
pub through :
    {X Y P : Type 0} (first : Result X) (next : X → Result Y) {answer : Y}
    → (first >>= next) ≡ ok answer
    → ((x : X) → first ≡ ok x → next x ≡ ok answer → P)
    → P
through parse_failed next e found = absurd (ground arith)
through verify_failed next e found = absurd (ground arith)
through (ok x) next e found = found x refl e
