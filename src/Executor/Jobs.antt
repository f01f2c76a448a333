-- ===== src/Executor/Jobs.antt =====
-- `handle_job`, `execute_job` and `sign_response` of job_handler.rs, with `get_port` and `wait_for_port`
-- of workerd.rs. What the file system, workerd and the clock answer is an argument.
use oyster_monorepo.Base.{
  ℕ, ◌+◌, ◌-◌, ◌*◌, ◌%◌, ◌^◌, Bool, true, false, not, Option, none, some, List, [], ◌∷◌, ◌++◌, ltb,
  if◌then◌else◌,
}
use oyster_monorepo.Guest.Reader.{codes}
use oyster_monorepo.Executor.State.{JobOutput, JobsTxnMetadata, output}
use oyster_monorepo.Executor.SendError.{contains}
use oyster_monorepo.Executor.Cgroups.{Cgroups, reserve, release}
use oyster_monorepo.Executor.Code.{
  ServerlessError, tx_not_found, invalid_tx_to_type, invalid_tx_to_value, invalid_tx_calldata_type,
  invalid_tx_calldata_length, invalid_tx_calldata, bad_calldata, Value, CodeFile, failed, panicked,
  written, create_code_file,
}

-- `u16::from_str_radix(&cgroup[8..], 10)` is the argument `index_of`.
unfoldable pub get_port : (ℕ → Option ℕ) → ℕ → Option ℕ
get_port index_of cgroup = elim (index_of cgroup) [
  | none ↦ none
  | some x ↦ some ((x + 11000) % 2 ^ 16)
]

-- The attempts to connect, each with the milliseconds since the start. The loop ends where a second is
-- over.
unfoldable pub wait_for_port : List (ℕ × Bool) → Bool
wait_for_port [] = false
wait_for_port ((elapsed, connected) ∷ rest) =
    let later = wait_for_port rest in
    if ltb elapsed 1000 then (if connected then true else later) else false

-- What a run of a job meets: the code's transaction and its file, the milliseconds at its end, the file of
-- the configuration, workerd, the attempts to connect, what workerd says on its standard error, and the
-- response.
pub record Run : Type 0 where
  pub tx_result : Option Value
  pub is_code_written : Bool
  pub elapsed : ℕ
  pub is_config_written : Bool
  pub is_spawned : Bool
  pub attempts : List (ℕ × Bool)
  pub stderr : Option (List ℕ)
  pub response : Option (List ℕ)

-- The end of an execution: an output or none, or a panic.
pub data Ended : Type 0 where
  ended : Option JobOutput → Ended
  crashed : Ended

-- `JobOutput { output, error_code, total_time, ..Default::default() }`
abbrev pub job_result : List ℕ → ℕ → ℕ → JobOutput
job_result bytes error_code total_time = record {
  output = bytes;
  error_code = error_code;
  total_time = total_time;
  sign_timestamp = 0;
  signature = [];
}

abbrev pub code_error : ℕ → ServerlessError → Option JobOutput
code_error elapsed tx_not_found = some (job_result [] 1 elapsed)
code_error elapsed invalid_tx_to_type = some (job_result [] 1 elapsed)
code_error elapsed (invalid_tx_to_value address expected) = some (job_result [] 1 elapsed)
code_error elapsed invalid_tx_calldata = some (job_result [] 2 elapsed)
code_error elapsed invalid_tx_calldata_type = some (job_result [] 2 elapsed)
code_error elapsed invalid_tx_calldata_length = some (job_result [] 2 elapsed)
code_error elapsed bad_calldata = some (job_result [] 2 elapsed)
code_error elapsed _ = none

abbrev pub worker_error : ℕ → Option (List ℕ) → Option JobOutput
worker_error elapsed none = none
worker_error elapsed (some stderr_output) =
    if contains (codes "SyntaxError") stderr_output then some (job_result [] 3 elapsed) else none

abbrev pub worker_response : ℕ → Option (List ℕ) → Option JobOutput
worker_response elapsed none = none
worker_response elapsed (some response) = some (job_result response 0 elapsed)

-- The execution in a cgroup with a port.
abbrev pub run_worker : Run → Option ℕ → Option JobOutput
run_worker run none = none
run_worker run (some port) =
    if not run.is_config_written
    then none
    else if not run.is_spawned
    then none
    else if wait_for_port run.attempts
    then worker_response run.elapsed run.response
    else worker_error run.elapsed run.stderr

module _ (decode : List ℕ → Option (List ℕ)) (index_of : ℕ → Option ℕ) where
  -- The execution once there is a cgroup; `meanwhile` is what the other jobs do to the free cgroups until
  -- it ends, where its own is released, however it ends.
  abbrev pub execute_in :
      (Cgroups → Cgroups) → Run → Cgroups → Option (ℕ × Cgroups) → Ended × Cgroups
  execute_in meanwhile run c none = (ended none, c)
  execute_in meanwhile run c (some (cgroup, rest)) =
      (ended (run_worker run (get_port index_of cgroup)), release (meanwhile rest) cgroup)

  abbrev pub execute_code : (Cgroups → Cgroups) → Run → Cgroups → CodeFile → Ended × Cgroups
  execute_code meanwhile run c (failed error) = (ended (code_error run.elapsed error), c)
  execute_code meanwhile run c panicked = (crashed, c)
  execute_code meanwhile run c (written code) = execute_in meanwhile run c (reserve c)

  unfoldable pub execute_job : List ℕ → (Cgroups → Cgroups) → Run → Cgroups → Ended × Cgroups
  execute_job code_contract_addr meanwhile run c =
      execute_code meanwhile run c
        (create_code_file decode run.is_code_written code_contract_addr run.tx_result)

-- The tokens that a response or a registration is encoded from.
pub data Token : Type 0 where
  fixed_bytes : List ℕ → Token
  address : List ℕ → Token
  uint : ℕ → Token
  text_token : List ℕ → Token

-- The libraries that sign: ethers and k256, which are not in this repository.
pub record Signer : Type 0 where
  pub keccak256 : List ℕ → List ℕ
  pub encode : List Token → List ℕ
  pub encode_packed : List Token → Option (List ℕ)
  -- `sign_prehash_recoverable`: the 64 bytes and the recovery id
  pub sign_prehash : List ℕ → Option (List ℕ × ℕ)

module _ (signer : Signer) where
  abbrev pub domain_separator : List ℕ
  domain_separator = signer.keccak256 (
      signer.encode (
        fixed_bytes (signer.keccak256 (codes "EIP712Domain(string name,string version)"))
        ∷ fixed_bytes (signer.keccak256 (codes "marlin.oyster.Jobs"))
        ∷ fixed_bytes (signer.keccak256 (codes "1"))
        ∷ []))

  abbrev pub hash_struct : ℕ → JobOutput → ℕ → List ℕ
  hash_struct job_id o sign_timestamp = signer.keccak256 (
      signer.encode (
        fixed_bytes (
          signer.keccak256 (
            codes
              "SubmitOutput(uint256 jobId,bytes output,uint256 totalTime,uint8 errorCode,uint256 signTimestamp)"))
        ∷ uint job_id
        ∷ fixed_bytes (signer.keccak256 o.output)
        ∷ uint o.total_time
        ∷ uint o.error_code
        ∷ uint sign_timestamp
        ∷ []))

  abbrev pub recoverable : Option (List ℕ × ℕ) → Option (List ℕ)
  recoverable none = none
  recoverable (some (rs, v)) = some (rs ++ (27 + v) ∷ [])

  abbrev pub sign_digest : Option (List ℕ) → Option (List ℕ)
  sign_digest none = none
  sign_digest (some digest) = recoverable (signer.sign_prehash (signer.keccak256 digest))

  -- The text "\x19\x01" is the bytes 25 and 1.
  unfoldable pub sign_response : ℕ → JobOutput → ℕ → Option (List ℕ)
  sign_response job_id o sign_timestamp = sign_digest (
      signer.encode_packed (
        text_token (25 ∷ 1 ∷ [])
        ∷ fixed_bytes domain_separator
        ∷ fixed_bytes (hash_struct job_id o sign_timestamp)
        ∷ []))

-- `execution_buffer_time + user_deadline - total_time as u64`, in u64, as seconds; a release build wraps.
unfoldable pub retry_seconds : ℕ → ℕ → ℕ → ℕ
retry_seconds execution_buffer_time user_deadline total_time =
    ((execution_buffer_time + user_deadline) % 2 ^ 64 + 2 ^ 64 - total_time % 2 ^ 64) % 2 ^ 64

-- A response as it is sent, at the instant `now` in nanoseconds.
abbrev pub response_of : ℕ → ℕ → ℕ → ℕ → JobOutput → ℕ → List ℕ → JobsTxnMetadata
response_of execution_buffer_time now job_id user_deadline o sign_timestamp signature = record {
  txn_type = output;
  job_id = job_id;
  job_output = some (record o { sign_timestamp = sign_timestamp; signature = signature });
  retry_deadline = now + retry_seconds execution_buffer_time user_deadline o.total_time * 10 ^ 9;
}

-- The answer of `timeout`: the execution in time, or none, where the output is that of a timeout.
abbrev pub outcome_of : ℕ → Option Ended → Ended
outcome_of user_deadline none = ended (some (job_result [] 4 user_deadline))
outcome_of user_deadline (some e) = e

module _ (signer : Signer) (execution_buffer_time : ℕ) where
  abbrev pub send_signed : ℕ → ℕ → ℕ → JobOutput → ℕ → Option (List ℕ) → Option JobsTxnMetadata
  send_signed now job_id user_deadline o sign_timestamp none = none
  send_signed now job_id user_deadline o sign_timestamp (some signature) =
      some (response_of execution_buffer_time now job_id user_deadline o sign_timestamp signature)

  abbrev pub respond : ℕ → ℕ → ℕ → ℕ → Ended → Option JobsTxnMetadata
  respond now sign_timestamp job_id user_deadline crashed = none
  respond now sign_timestamp job_id user_deadline (ended none) = none
  respond now sign_timestamp job_id user_deadline (ended (some o)) =
      send_signed now job_id user_deadline o sign_timestamp
        (sign_response signer job_id o sign_timestamp)

  -- What is sent for a job, where anything is: `response` is how the execution ended, or none where the
  -- deadline of the user was over before.
  unfoldable pub handle_job : ℕ → ℕ → ℕ → ℕ → Option Ended → Option JobsTxnMetadata
  handle_job now sign_timestamp job_id user_deadline response =
      respond now sign_timestamp job_id user_deadline (outcome_of user_deadline response)
