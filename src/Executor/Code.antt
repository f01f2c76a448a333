-- ===== src/Executor/Code.antt =====
-- `create_code_file` of workerd.rs: the code of a job is the calldata of a transaction to the contract.
use oyster_monorepo.Base.{
  ℕ, suc, ◌-◌, Bool, ◌||◌, not, Option, none, some, List, [], ◌∷◌, ltb, leb, ◌==◌, if◌then◌else◌,
  length, get_elem?, take, drop,
}
use mathlib.Core.List.{reverse}
use oyster_monorepo.Guest.Reader.{codes, bytes_eq}
use oyster_monorepo.Executor.SendError.{starts_with}

-- `ServerlessError`, without the causes that its variants carry.
pub data ServerlessError : Type 0 where
  tx_data_retrieve tx_not_found invalid_tx_to_type : ServerlessError
  invalid_tx_to_value : (address expected : List ℕ) → ServerlessError
  invalid_tx_calldata_type invalid_tx_calldata_length invalid_tx_calldata bad_calldata :
      ServerlessError
  code_file_create config_file_create execute worker_request_error : ServerlessError
  code_file_delete config_file_delete bad_port : ServerlessError

-- A JSON value; of an object its fields `to` and `input`, null where they are missing. Texts are their
-- bytes.
pub data Value : Type 0 where
  null scalar : Value
  text : List ℕ → Value
  object : (to input : Value) → Value

pub data CodeFile : Type 0 where
  failed : ServerlessError → CodeFile
  panicked : CodeFile
  written : List ℕ → CodeFile

abbrev pub later : Option ℕ → Option ℕ
later none = none
later (some i) = some (suc i)

-- `iter().position(|x| *x != 0)`
unfoldable pub position : List ℕ → Option ℕ
position [] = none
position (x ∷ xs) = let rest = position xs in if x == 0 then later rest else some 0

abbrev pub unwrap_or : ℕ → Option ℕ → ℕ
unwrap_or n none = n
unwrap_or n (some i) = i

-- The code without its trailing zeros.
unfoldable pub strip : List ℕ → List ℕ
strip calldata = take (length calldata - unwrap_or 0 (position (reverse calldata))) calldata

-- The selector of the method, and the offset of the code.
abbrev pub method_prefix : List ℕ
method_prefix = codes "0xff7cdaf30000000000000000000000000000000000000000000000000000000000000020"

-- Whether a text may be cut before byte `i`: the byte does not continue a character.
unfoldable pub is_char_boundary : List ℕ → ℕ → Bool
is_char_boundary calldata i = elim (get_elem? calldata i) [
  | none ↦ i == length calldata
  | some byte ↦ ltb byte 128 || leb 192 byte
]

-- `hex::decode`, and whether the file can be written after the retries, are arguments.
module _ (decode : List ℕ → Option (List ℕ)) (is_written : Bool) where
  abbrev pub write_code : Option (List ℕ) → CodeFile
  write_code none = failed bad_calldata
  write_code (some calldata) =
      if is_written then written (strip calldata) else failed code_file_create

  abbrev pub read_calldata : Value → CodeFile
  read_calldata null = failed invalid_tx_calldata_type
  read_calldata scalar = failed invalid_tx_calldata_type
  read_calldata (object to input) = failed invalid_tx_calldata_type
  read_calldata (text calldata) =
      if ltb (length calldata) 138
      then failed invalid_tx_calldata_length
      else if not (starts_with method_prefix calldata)
      then failed invalid_tx_calldata
      else if is_char_boundary calldata 138
      then write_code (decode (drop 138 calldata))
      else panicked

  abbrev pub check_address : List ℕ → Value → Value → CodeFile
  check_address contract null input = failed invalid_tx_to_type
  check_address contract scalar input = failed invalid_tx_to_type
  check_address contract (object x y) input = failed invalid_tx_to_type
  check_address contract (text address) input =
      if bytes_eq address contract
      then read_calldata input
      else failed (invalid_tx_to_value address contract)

  -- The answer of the RPC, its field `result`, or none after the retries. An index into what is no object
  -- panics.
  unfoldable pub create_code_file : List ℕ → Option Value → CodeFile
  create_code_file contract none = failed tx_data_retrieve
  create_code_file contract (some null) = failed tx_not_found
  create_code_file contract (some scalar) = panicked
  create_code_file contract (some (text t)) = panicked
  create_code_file contract (some (object to input)) = check_address contract to input
