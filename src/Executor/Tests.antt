-- ===== src/Executor/Tests.antt =====
-- Runs of the executor on small inputs.
use oyster_monorepo.Base.{
  ℕ, zero, suc, ◌+◌, ◌*◌, ◌^◌, ◌≤◌, ◌≡◌, inl, refl, true, false, Option, none, some, List, [], ◌∷◌,
  ◌++◌, ◌∙◌, arith,
}
use oyster_monorepo.Guest.Reader.{codes}
use oyster_monorepo.Executor.State.{JobOutput, JobsTxnMetadata, PendingTxnData, output, insert}
use oyster_monorepo.Executor.SendError.{parse_send_error}
use oyster_monorepo.Executor.Cgroups.{
  Pool, starts, here, onward, reserve, count, held, fresh, cgroups_exclusive,
}
use oyster_monorepo.Executor.Sender.{
  Reply, accepted, rejected, Account, Attempt, Retry, sent, send_loop,
}
use oyster_monorepo.Executor.Queued.{IsQueued, send_loop-IsQueued}
use oyster_monorepo.Executor.Sending.{
  IsRetried, IsAccepted, IsTooLow, IsUncounted, IsCounted, IsSentWith, send_loop_sends,
  send_loop_recounts,
}
use oyster_monorepo.Executor.Resend.{Turn, resend_one}
use oyster_monorepo.Executor.Resending.{IsFaithful, resend_one-IsFaithful}
use oyster_monorepo.Executor.Logs.{Abi, Log, is_selected, read_created}
use oyster_monorepo.Executor.Events.{
  Listener, Task, timeout_of, execution_of, created, next, Settings, see_block, handle_created,
  handle_event, handle_event_logs, end_timeouts,
}
use oyster_monorepo.Executor.Listening.{timeouts-clear, handle_created-again}
use oyster_monorepo.Executor.Code.{
  object, text, written, method_prefix, create_code_file, is_char_boundary, position, strip,
}
use oyster_monorepo.Executor.CodeFiles.{create_code_file-encoded}
use oyster_monorepo.Executor.Jobs.{
  Run, Signer, get_port, wait_for_port, execute_job, sign_response, retry_seconds, handle_job,
}
use oyster_monorepo.Executor.Answers.{IsAnswer, handle_job-IsAnswer}

-- The response for job 7, to be sent for 100 ns.
abbrev response : JobsTxnMetadata
response = record { txn_type = output; job_id = 7; job_output = none; retry_deadline = 100 }

abbrev attempt : ℕ → Reply ℕ → Attempt
attempt now reply = record {
  now = now;
  before = λ s. s;
  while_counting = λ s. s;
  transaction_count = some 4;
  while_sending = λ s. s;
  reply = reply;
  sent_at = now + 1;
}

abbrev account : Account
account = record { nonce_to_send = 3; http_rpc_client = 1; pending_txns = [] }

abbrev first_try : Retry
first_try = record { update_nonce = false; gas_limit = 21000; gas_price = 50 }

abbrev too_low : Reply ℕ
too_low = rejected (codes "nonce too low")

-- A new client and its nonce are injected while the transaction is sent.
abbrev injecting : Attempt
injecting = record (attempt 9 (accepted 77)) {
  while_sending = λ s. record s { http_rpc_client = 2; nonce_to_send = 40 };
}

-- The queue stays.
abbrev Stays : List PendingTxnData → List PendingTxnData → Type 0
Stays q r = r ≡ q

send_loop-IsQueued_example :
    IsQueued Stays response
      (attempt 5 too_low ∷ injecting ∷ [])
      account
      (send_loop response (attempt 5 too_low ∷ injecting ∷ []) first_try account)
send_loop-IsQueued_example =
    send_loop-IsQueued Stays (λ q. refl) (λ q r t e f. f ∙ e) response
      (attempt 5 too_low ∷ injecting ∷ []) first_try account
      ((λ s. (refl, refl, refl)), ((λ s. (refl, refl, refl)), tt))

-- The transaction has the old client and its nonce 4, and the new client's next nonce is not 40.
injected_nonce_skipped :
    (send_loop response (attempt 5 too_low ∷ injecting ∷ []) first_try account).1.nonce_to_send ≡ 41
unfolding send_loop parse_send_error
injected_nonce_skipped = refl

too_low-IsRetried : IsRetried 100 (attempt 5 too_low)
unfolding parse_send_error
too_low-IsRetried = record {
  in_time = omega arith;
  before = λ s h. h;
  sending = λ s h. h;
  count = 4;
  counted = refl;
  bounded = omega arith;
  error = codes "nonce too low";
  refused = refl;
  retried = inl refl;
}

accepted-IsAccepted : IsAccepted 100 (attempt 9 (accepted 77))
accepted-IsAccepted = record {
  in_time = omega arith;
  before = λ s h. h;
  sending = λ s h. h;
  count = 4;
  counted = refl;
  bounded = omega arith;
  hash = 77;
  taken = refl;
}

send_loop_sends_example :
    (send_loop response (attempt 5 too_low ∷ attempt 9 (accepted 77) ∷ []) first_try account).0
    ≡ sent
send_loop_sends_example =
    send_loop_sends response (attempt 5 too_low ∷ []) [] (attempt 9 (accepted 77)) first_try account
      (too_low-IsRetried, tt) accepted-IsAccepted (omega arith)

too_low-IsTooLow : IsTooLow 100 (attempt 5 too_low)
unfolding parse_send_error
too_low-IsTooLow = record {
  in_time = omega arith;
  count = 4;
  counted = refl;
  error = codes "nonce too low";
  refused = refl;
  low = refl;
}

-- The count cannot be had in the turn after the refusal.
abbrev unlucky : Attempt
unlucky = record (attempt 7 too_low) { transaction_count = none }

unlucky-IsUncounted : IsUncounted 100 unlucky
unlucky-IsUncounted = record { in_time = omega arith; uncounted = refl }

lucky-IsCounted : IsCounted 100 4 (attempt 9 (accepted 77))
lucky-IsCounted = record {
  in_time = omega arith;
  counted = refl;
  bounded = omega arith;
  sending = λ s h. h;
  hash = 77;
  taken = refl;
}

send_loop_recounts_example : IsSentWith response (attempt 9 (accepted 77)) 4 (
    send_loop response
      (attempt 5 too_low ∷ unlucky ∷ attempt 9 (accepted 77) ∷ [])
      first_try
      account)
send_loop_recounts_example =
    send_loop_recounts response (attempt 5 too_low) (unlucky ∷ []) [] (attempt 9 (accepted 77)) 4
      first_try account too_low-IsTooLow (unlucky-IsUncounted, tt) lucky-IsCounted

-- The transaction of the response, which is not mined.
abbrev stuck : PendingTxnData
stuck = record {
  txn_hash = 77;
  txn_data = response;
  http_rpc_client = 1;
  nonce = 4;
  gas_limit = 21000;
  gas_price = 50;
  last_monitor_instant = 10;
}

abbrev turn_with : Reply ℕ → Turn
turn_with reply = record {
  now = 20;
  current_client = 1;
  channel_open = true;
  reply = reply;
  sent_at = 21;
  confirmed = true;
}

resend_one-IsFaithful_example : IsFaithful stuck (
    resend_one false
      (turn_with (rejected (codes "out of gas")) ∷ turn_with (accepted 78) ∷ [])
      []
      stuck)
resend_one-IsFaithful_example =
    resend_one-IsFaithful false
      (turn_with (rejected (codes "out of gas")) ∷ turn_with (accepted 78) ∷ []) [] stuck

-- Two cgroups, of which a job reserves the first.
abbrev two : List ℕ
two = 1 ∷ 2 ∷ []

abbrev one_runs : Pool
one_runs = record { cgroups = record { free = 2 ∷ [] }; running = (7, 1) ∷ [] }

two-are_distinct : (c : ℕ) → count c two ≤ 1
unfolding count
two-are_distinct c = ground arith

cgroups_exclusive_example : (count 1 two ≡ 1) × (count 1 (held []) ≡ 0) × (count 1 (2 ∷ []) ≡ 0)
unfolding reserve
cgroups_exclusive_example =
    cgroups_exclusive two one_runs two-are_distinct
      (onward (fresh two) (fresh two) one_runs (here (fresh two))
        (starts (fresh two) 7 1 (record { free = 2 ∷ [] }) refl))
      [] [] 7 1 refl

-- A decoder whose tokens are numbers.
abbrev toy_abi : Abi ℕ
toy_abi = record {
  decode = λ types bytes. some bytes;
  into_fixed_bytes = λ t. some (t ∷ []);
  into_bytes = λ t. some (t ∷ []);
  into_uint = λ t. some t;
  into_array = λ t. some (t ∷ []);
  into_address = λ t. some t;
}

abbrev settings : Settings
settings = record { enclave_address = 9; num_selected_executors = 1 }

abbrev job_log : ℕ → Log
job_log job_id = record {
  removed = some false;
  block_number = some 12;
  topics = 0 ∷ job_id ∷ 1 ∷ [];
  log_data = 5 ∷ 6 ∷ 1000 ∷ 9 ∷ [];
}

abbrev idle : Listener
idle = record { enclave_registered = true; last_block_seen = 10; job_requests_running = [] }

abbrev busy : Listener
busy = record { enclave_registered = true; last_block_seen = 12; job_requests_running = 7 ∷ [] }

abbrev job_tasks : List Task
job_tasks = timeout_of 7 1000 ∷ execution_of 7 (5 ∷ []) (6 ∷ []) 1000 ∷ []

timeouts-clear_example : (end_timeouts ((50, timeout_of 7 1000) ∷ []) (7 ∷ [])).1 ≡ []
unfolding handle_event_logs handle_event handle_created see_block read_created is_selected insert
timeouts-clear_example =
    timeouts-clear toy_abi settings (created (job_log 7) ∷ []) idle busy job_tasks
      ((50, timeout_of 7 1000) ∷ []) refl refl (λ j h. h) (omega arith, tt)

handle_created-again_example :
    (x : Listener) × (handle_created toy_abi settings busy (job_log 7) ≡ next x job_tasks)
unfolding handle_created see_block read_created is_selected insert
handle_created-again_example =
    handle_created-again toy_abi settings idle busy busy (job_log 7) job_tasks (λ e. ground arith)
      refl refl

-- Hexadecimal digits stand for themselves.
abbrev toy_decode : List ℕ → Option (List ℕ)
toy_decode digits = some digits

abbrev zeros_word : ℕ → List ℕ
zeros_word zero = []
zeros_word (suc n) = 48 ∷ zeros_word n

create_code_file-encoded_example :
    create_code_file toy_decode true (1 ∷ 2 ∷ []) (
      some (
        object
          (text (1 ∷ 2 ∷ []))
          (text (method_prefix ++ zeros_word 64 ++ (65 ∷ 66 ∷ 0 ∷ 0 ∷ [])))))
    ≡ written (65 ∷ 66 ∷ [])
create_code_file-encoded_example =
    create_code_file-encoded toy_decode (1 ∷ 2 ∷ []) (zeros_word 64) (65 ∷ 66 ∷ 0 ∷ 0 ∷ [])
      (65 ∷ []) 66 2 refl (omega arith, (omega arith, (omega arith, (omega arith, tt)))) refl
      (λ e. ground arith)

abbrev toy_signer : Signer
toy_signer = record {
  keccak256 = λ bytes. bytes;
  encode = λ tokens. 0 ∷ [];
  encode_packed = λ tokens. some [];
  sign_prehash = λ digest. some (8 ∷ [], 1);
}

-- A run in which workerd answers after 30 ms.
abbrev good_run : Run
good_run = record {
  tx_result = some (
      object (text (1 ∷ 2 ∷ [])) (text (method_prefix ++ zeros_word 64 ++ (65 ∷ 66 ∷ 0 ∷ 0 ∷ []))));
  is_code_written = true;
  elapsed = 30;
  is_config_written = true;
  is_spawned = true;
  attempts = (3, false) ∷ (5, true) ∷ [];
  stderr = none;
  response = some (42 ∷ []);
}

abbrev answer : JobsTxnMetadata
answer = record {
  txn_type = output;
  job_id = 7;
  job_output = some (record {
    output = 42 ∷ [];
    error_code = 0;
    total_time = 30;
    sign_timestamp = 1700;
    signature = 8 ∷ 28 ∷ [];
  });
  retry_deadline = 500 + 975 * 10 ^ 9;
}

handle_job-IsAnswer_example :
    (o : JobOutput) × IsAnswer toy_signer 5 500 1700 7 1000 good_run true answer o
unfolding handle_job sign_response retry_seconds execute_job get_port wait_for_port create_code_file
    is_char_boundary position strip reserve
handle_job-IsAnswer_example =
    handle_job-IsAnswer toy_signer 5 500 1700 7 1000 toy_decode (λ cgroup. some cgroup) (1 ∷ 2 ∷ [])
      (λ c. c) good_run (record { free = two }) true answer (omega arith) (omega arith) refl
