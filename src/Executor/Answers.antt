-- ===== src/Executor/Answers.antt =====
-- What a response says of the job that it answers.
use oyster_monorepo.Base.{
  ℕ, ◌+◌, ◌-◌, ◌*◌, ◌^◌, ◌≤◌, ◌<◌, ◌≡◌, ◌≢◌, ◌↔◌, ◌⊎◌, refl, Bool, true, false, Option, none, some,
  List, [], arith, if◌then◌else◌,
}
use oyster_monorepo.Guest.Reader.{codes}
use oyster_monorepo.Executor.State.{JobOutput, JobsTxnMetadata, output}
use oyster_monorepo.Executor.SendError.{contains}
use oyster_monorepo.Executor.Cgroups.{Cgroups, reserve}
use oyster_monorepo.Executor.Code.{
  ServerlessError, CodeFile, failed, panicked, written, create_code_file, tx_data_retrieve,
  tx_not_found, invalid_tx_to_type, invalid_tx_to_value, invalid_tx_calldata_type,
  invalid_tx_calldata_length, invalid_tx_calldata, bad_calldata, code_file_create,
  config_file_create, execute, worker_request_error, bad_port, code_file_delete, config_file_delete,
}
use oyster_monorepo.Executor.Jobs.{
  Run, Ended, ended, crashed, job_result, code_error, worker_error, worker_response, run_worker,
  get_port, execute_in, execute_code, execute_job, Signer, sign_response, retry_seconds,
  send_signed, respond, outcome_of, handle_job,
}

-- A result with one of the error codes: the output of the worker where the code is 0, no output
-- otherwise, and 4 exactly where the deadline was over; and the time it took.
pub record IsResult (run : Run) (user_deadline : ℕ) (in_time : Bool) (o : JobOutput) : Type 0 where
  pub known_code : o.error_code ≤ 4
  pub content :
      ((o.error_code ≡ 0) × (run.response ≡ some o.output)) ⊎ ((o.error_code ≢ 0) × (o.output ≡ []))
  pub late : (o.error_code ≡ 4) ↔ (in_time ≡ false)
  pub took : o.total_time ≡ (if in_time then run.elapsed else user_deadline)

code_error-IsResult :
    (run : Run) (user_deadline : ℕ) (e : ServerlessError) (o : JobOutput)
    → code_error run.elapsed e ≡ some o
    → IsResult run user_deadline true o
code_error-IsResult run user_deadline tx_data_retrieve o h = ground arith
code_error-IsResult run user_deadline tx_not_found o h = ground arith
code_error-IsResult run user_deadline invalid_tx_to_type o h = ground arith
code_error-IsResult run user_deadline (invalid_tx_to_value a b) o h = ground arith
code_error-IsResult run user_deadline invalid_tx_calldata_type o h = ground arith
code_error-IsResult run user_deadline invalid_tx_calldata_length o h = ground arith
code_error-IsResult run user_deadline invalid_tx_calldata o h = ground arith
code_error-IsResult run user_deadline bad_calldata o h = ground arith
code_error-IsResult run user_deadline code_file_create o h = ground arith
code_error-IsResult run user_deadline config_file_create o h = ground arith
code_error-IsResult run user_deadline execute o h = ground arith
code_error-IsResult run user_deadline worker_request_error o h = ground arith
code_error-IsResult run user_deadline bad_port o h = ground arith
code_error-IsResult run user_deadline code_file_delete o h = ground arith
code_error-IsResult run user_deadline config_file_delete o h = ground arith

worker_response-IsResult :
    (run : Run) (user_deadline : ℕ) (o : JobOutput) (r : Option (List ℕ))
    → run.response ≡ r
    → worker_response run.elapsed r ≡ some o
    → IsResult run user_deadline true o
worker_response-IsResult run user_deadline o none e h = ground arith
worker_response-IsResult run user_deadline o (some body) e h = ground arith

syntax_error-IsResult :
    (run : Run) (user_deadline : ℕ) (o : JobOutput) (b : Bool)
    → (if b then some (job_result [] 3 run.elapsed) else none) ≡ some o
    → IsResult run user_deadline true o
syntax_error-IsResult run user_deadline o b h = ground arith

worker_error-IsResult :
    (run : Run) (user_deadline : ℕ) (o : JobOutput) (r : Option (List ℕ))
    → worker_error run.elapsed r ≡ some o
    → IsResult run user_deadline true o
worker_error-IsResult run user_deadline o none h = ground arith
worker_error-IsResult run user_deadline o (some text) h =
    syntax_error-IsResult run user_deadline o (contains (codes "SyntaxError") text) h

run_worker-IsResult :
    (run : Run) (user_deadline : ℕ) (o : JobOutput) (port : Option ℕ)
    → run_worker run port ≡ some o
    → IsResult run user_deadline true o
run_worker-IsResult run user_deadline o none h = ground arith
run_worker-IsResult run user_deadline o (some port) h = ground (
  arith,
  worker_error-IsResult run user_deadline o run.stderr,
  worker_response-IsResult run user_deadline o run.response refl,
)

module _ (decode : List ℕ → Option (List ℕ)) (index_of : ℕ → Option ℕ)
    (meanwhile : Cgroups → Cgroups) (run : Run) (user_deadline : ℕ) where
  execute_in-IsResult :
      (c : Cgroups) (got : Option (ℕ × Cgroups)) (o : JobOutput)
      → (execute_in decode index_of meanwhile run c got).0 ≡ ended (some o)
      → IsResult run user_deadline true o
  execute_in-IsResult c none o h = ground arith
  execute_in-IsResult c (some (cgroup, rest)) o h =
      run_worker-IsResult run user_deadline o (get_port index_of cgroup) (ground arith)

  execute_code-IsResult :
      (c : Cgroups) (file : CodeFile) (o : JobOutput)
      → (execute_code decode index_of meanwhile run c file).0 ≡ ended (some o)
      → IsResult run user_deadline true o
  execute_code-IsResult c (failed e) o h = code_error-IsResult run user_deadline e o (ground arith)
  execute_code-IsResult c panicked o h = ground arith
  execute_code-IsResult c (written code) o h = execute_in-IsResult c (reserve c) o h

-- How the execution of a job ends where it is given the time until its deadline.
abbrev pub timed : Bool → Ended → Option Ended
timed true e = some e
timed false e = none

outcome-IsResult :
    (decode : List ℕ → Option (List ℕ)) (index_of : ℕ → Option ℕ) (contract : List ℕ)
    (meanwhile : Cgroups → Cgroups) (run : Run) (c : Cgroups) (in_time : Bool) (user_deadline : ℕ)
    (o : JobOutput)
    → outcome_of user_deadline
        (timed in_time (execute_job decode index_of contract meanwhile run c).0)
      ≡ ended (some o)
    → IsResult run user_deadline in_time o
unfolding execute_job
outcome-IsResult decode index_of contract meanwhile run c false user_deadline o h = ground arith
outcome-IsResult decode index_of contract meanwhile run c true user_deadline o h =
    execute_code-IsResult decode index_of meanwhile run user_deadline c
      (create_code_file decode run.is_code_written contract run.tx_result) o h

-- A message that answers a job: the result of the run, signed at an instant, with the time to send it: as
-- many seconds as the milliseconds that are left of the deadline, and the seconds of the buffer.
pub record IsAnswer (signer : Signer)
    (execution_buffer_time now sign_timestamp job_id user_deadline : ℕ) (run : Run) (in_time : Bool)
    (m : JobsTxnMetadata) (o : JobOutput) : Type 0 where
  pub answers : m.job_id ≡ job_id
  pub kind : m.txn_type ≡ output
  pub content : m.job_output ≡ some o
  pub result : IsResult run user_deadline in_time o
  pub stamped : o.sign_timestamp ≡ sign_timestamp
  pub signed : sign_response signer job_id o sign_timestamp ≡ some o.signature
  pub lasts :
      m.retry_deadline ≡ now + (execution_buffer_time + user_deadline - o.total_time) * 10 ^ 9

retry_seconds-small :
    (buffer deadline total : ℕ)
    → buffer + deadline < 2 ^ 64
    → total ≤ buffer + deadline
    → retry_seconds buffer deadline total ≡ buffer + deadline - total
unfolding retry_seconds
retry_seconds-small buffer deadline total small enough = omega arith

module _ (signer : Signer) (execution_buffer_time now sign_timestamp job_id user_deadline : ℕ)
    (run : Run) (in_time : Bool) (m : JobsTxnMetadata)
    (small : execution_buffer_time + user_deadline < 2 ^ 64)
    (enough : run.elapsed ≤ execution_buffer_time + user_deadline) where
  total-le :
      (o : JobOutput)
      → IsResult run user_deadline in_time o
      → o.total_time ≤ execution_buffer_time + user_deadline
  total-le o r = ground arith

  send_signed-IsAnswer :
      (o : JobOutput) (s : Option (List ℕ))
      → IsResult run user_deadline in_time o
      → sign_response signer job_id o sign_timestamp ≡ s
      → send_signed signer execution_buffer_time now job_id user_deadline o sign_timestamp s
        ≡ some m
      → (answer : JobOutput) × IsAnswer signer execution_buffer_time now sign_timestamp job_id
          user_deadline run in_time m answer
  unfolding sign_response
  send_signed-IsAnswer o none r e h = ground arith
  send_signed-IsAnswer o (some signature) r e h = (
    record o { sign_timestamp = sign_timestamp; signature = signature },
    record {
      answers = ground arith;
      kind = ground arith;
      content = ground arith;
      result = record {
        known_code = r.known_code;
        content = r.content;
        late = r.late;
        took = r.took;
      };
      stamped = refl;
      signed = e;
      lasts = ground (
        arith,
        retry_seconds-small execution_buffer_time user_deadline o.total_time small (total-le o r),
      );
    },
  )

  respond-IsAnswer :
      (e : Ended)
      → ((o : JobOutput) → e ≡ ended (some o) → IsResult run user_deadline in_time o)
      → respond signer execution_buffer_time now sign_timestamp job_id user_deadline e ≡ some m
      → (answer : JobOutput) × IsAnswer signer execution_buffer_time now sign_timestamp job_id
          user_deadline run in_time m answer
  respond-IsAnswer crashed r h = ground arith
  respond-IsAnswer (ended none) r h = ground arith
  respond-IsAnswer (ended (some o)) r h =
      send_signed-IsAnswer o (sign_response signer job_id o sign_timestamp) (r o refl) refl h

-- Where a message is sent for a job, it answers that job: its output is the response of the worker with
-- code 0, or empty with a code from 1 to 4, 4 exactly where the deadline of the user was over; the
-- signature is that of this result for this job at the time it says. It is sent again for as many seconds
-- as the buffer has seconds and the rest of the deadline has milliseconds, where these fit in 64 bits and
-- the run took no longer than their sum.
pub handle_job-IsAnswer :
    (signer : Signer) (execution_buffer_time now sign_timestamp job_id user_deadline : ℕ)
    (decode : List ℕ → Option (List ℕ)) (index_of : ℕ → Option ℕ) (contract : List ℕ)
    (meanwhile : Cgroups → Cgroups) (run : Run) (c : Cgroups) (in_time : Bool) (m : JobsTxnMetadata)
    → execution_buffer_time + user_deadline < 2 ^ 64
    → run.elapsed ≤ execution_buffer_time + user_deadline
    → handle_job signer execution_buffer_time now sign_timestamp job_id user_deadline
        (timed in_time (execute_job decode index_of contract meanwhile run c).0)
      ≡ some m
    → (o : JobOutput) × IsAnswer signer execution_buffer_time now sign_timestamp job_id
        user_deadline run in_time m o
unfolding handle_job
handle_job-IsAnswer signer execution_buffer_time now sign_timestamp job_id user_deadline decode
      index_of contract meanwhile run c in_time m small enough h =
    respond-IsAnswer signer execution_buffer_time now sign_timestamp job_id user_deadline run
      in_time m small enough
      (outcome_of user_deadline
        (timed in_time (execute_job decode index_of contract meanwhile run c).0))
      (outcome-IsResult decode index_of contract meanwhile run c in_time user_deadline) h
