-- ===== src/Chain.antt =====
-- What the indexer and the control plane read of an Ethereum log, and the library functions (alloy,
-- ethp) by which they read it. Those functions are not part of this repository: they are the fields
-- of `Codec`, which every definition that uses them takes as a parameter.
pub mod Samples
use oyster_monorepo.Base.{ℕ, String, List, Option}

-- alloy's `Log`: topics and the transaction hash are 32-byte words, `payload` is `log.data().data`.
pub record Log : Type 0 where
  pub topics : List ℕ
  pub payload : List ℕ
  pub block_number : Option ℕ
  pub log_index : Option ℕ
  pub transaction_hash : Option ℕ

pub record Codec : Type 0 where
  -- `B256::encode_hex_with_prefix`
  pub encode_hex_with_prefix : ℕ → String
  -- `Address::from_word(w).to_checksum(None)`
  pub to_checksum : ℕ → String
  -- `event!` of ethp, `keccak256!` and `keccak256` of alloy, as a word
  pub keccak256 : String → ℕ
  -- `U256::abi_decode`, `String::abi_decode` and `abi_decode_sequence` at two tuples
  pub decode_u256 : List ℕ → Option ℕ
  pub decode_string : List ℕ → Option String
  pub decode_u256_pair : List ℕ → Option (ℕ × ℕ)
  pub decode_job_opened : List ℕ → Option (String × ℕ × ℕ × ℕ)
