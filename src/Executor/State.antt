-- ===== src/Executor/State.antt =====
-- The data of utils.rs that the tasks of the executor share. U256 is that of ethers, whose operators
-- panic on an overflow: `none`.
use oyster_monorepo.Base.{
  ℕ, ◌+◌, ◌*◌, ◌/◌, ◌^◌, Bool, false, ◌||◌, Option, none, some, List, [], ◌∷◌, ltb, ◌==◌,
  if◌then◌else◌,
}

abbrev pub gas_limit_buffer : ℕ
gas_limit_buffer = 200000

-- in seconds
abbrev pub timeout_txn_resend_deadline : ℕ
timeout_txn_resend_deadline = 20

abbrev pub resend_gas_price_increment_percent : ℕ
resend_gas_price_increment_percent = 10

abbrev pub execution_env_id : ℕ
execution_env_id = 1

pub data JobsTxnType : Type 0 where
  output timeout : JobsTxnType

-- Bytes are lists of numbers.
pub record JobOutput : Type 0 where
  pub output : List ℕ
  pub error_code : ℕ
  pub total_time : ℕ
  pub sign_timestamp : ℕ
  pub signature : List ℕ

-- `retry_deadline` is in nanoseconds since a fixed instant.
pub record JobsTxnMetadata : Type 0 where
  pub txn_type : JobsTxnType
  pub job_id : ℕ
  pub job_output : Option JobOutput
  pub retry_deadline : ℕ

-- A client stands for the address that it signs for.
pub record PendingTxnData : Type 0 where
  pub txn_hash : ℕ
  pub txn_data : JobsTxnMetadata
  pub http_rpc_client : ℕ
  pub nonce : ℕ
  pub gas_limit : ℕ
  pub gas_price : ℕ
  pub last_monitor_instant : ℕ

abbrev pub checked : ℕ → Option ℕ
checked n = if ltb n (2 ^ 256) then some n else none

-- `gas_limit + GAS_LIMIT_BUFFER`
unfoldable pub raise_limit : ℕ → Option ℕ
raise_limit gas_limit = checked (gas_limit + gas_limit_buffer)

-- `U256::from(100 + RESEND_GAS_PRICE_INCREMENT_PERCENT) * gas_price / 100`
unfoldable pub raise_price : ℕ → Option ℕ
raise_price gas_price =
    if ltb ((100 + resend_gas_price_increment_percent) * gas_price) (2 ^ 256)
    then some ((100 + resend_gas_price_increment_percent) * gas_price / 100)
    else none

-- A `HashSet<U256>`.
abbrev pub contains : ℕ → List ℕ → Bool
contains x [] = false
contains x (y ∷ ys) = y == x || contains x ys

unfoldable pub insert : ℕ → List ℕ → List ℕ
insert x ys = if contains x ys then ys else x ∷ ys

unfoldable pub remove : ℕ → List ℕ → List ℕ
remove x [] = []
remove x (y ∷ ys) = let rest = remove x ys in if y == x then rest else y ∷ rest
