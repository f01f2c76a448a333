-- ===== src/Chain/Samples.antt =====
-- A codec for runs of the code on small logs.
use Prim.Native.Char.{code}
use oyster_monorepo.Base.{
  ℕ, String, ◌+◌, ◌*◌, Option, none, some, List, [], ◌∷◌, ◌==◌, if◌then◌else◌,
}
use oyster_monorepo.Chain.{Codec}

-- A text as a number: its characters are the digits.
abbrev pub digits_of : String → ℕ
digits_of String.[] = 0
digits_of (String.◌∷◌ ch s) = code ch + 1114112 * digits_of s

abbrev pub short_hex : ℕ → String
short_hex n = if n == 1 then "0x01" else if n == 2 then "0x02" else "0x03"

abbrev pub decode_one : List ℕ → Option ℕ
decode_one [] = none
decode_one (x ∷ xs) = some x

abbrev pub decode_two : List ℕ → Option (ℕ × ℕ)
decode_two (x ∷ y ∷ []) = some (x, y)
decode_two _ = none

abbrev pub decode_text : List ℕ → Option String
decode_text (x ∷ []) = some (short_hex x)
decode_text _ = none

abbrev pub decode_opened : List ℕ → Option (String × ℕ × ℕ × ℕ)
decode_opened (x ∷ y ∷ z ∷ []) = some ("{}", x, y, z)
decode_opened _ = none

-- A codec that reads each word of the payload as one number.
abbrev pub codec : Codec
codec = record {
  encode_hex_with_prefix = short_hex;
  to_checksum = short_hex;
  keccak256 = digits_of;
  decode_u256 = decode_one;
  decode_string = decode_text;
  decode_u256_pair = decode_two;
  decode_job_opened = decode_opened;
}
