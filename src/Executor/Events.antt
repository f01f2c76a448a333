-- ===== src/Executor/Events.antt =====
-- `handle_event_logs` of event_handler.rs, `handle_timeout` of timeout_handler.rs, and the part of
-- `events_listener` that waits for the registration.
use oyster_monorepo.Base.{
  ℕ, ◌+◌, ◌*◌, ◌^◌, Bool, true, false, Option, none, some, List, [], ◌∷◌, ◌++◌, ltb, ◌==◌,
  if◌then◌else◌,
}
use oyster_monorepo.Executor.State.{
  JobsTxnMetadata, timeout, execution_env_id, timeout_txn_resend_deadline, contains, insert, remove,
}
use oyster_monorepo.Executor.Logs.{
  Abi, Log, Read, skipped, panicked, found, Created, read_created, read_responded,
}

-- The part of `AppState` that the listener and the timeouts share.
pub record Listener : Type 0 where
  pub enclave_registered : Bool
  pub last_block_seen : ℕ
  pub job_requests_running : List ℕ

-- A task that is spawned: the timeout of a job, or its execution, whose hash the source writes as text.
-- The deadline is the one of the log, in milliseconds: the task itself turns it into a u64, and panics
-- where it does not fit.
pub data Task : Type 0 where
  timeout_of : (job_id user_deadline : ℕ) → Task
  execution_of : (job_id : ℕ) → (code_hash code_inputs : List ℕ) → (user_deadline : ℕ) → Task

-- The stream that `select!` took the log from.
pub data Event : Type 0 where
  deregistered created responded : Log → Event

-- After an event: the next turn of the loop with the tasks that were spawned, the end of the listener, or
-- a panic.
pub data Outcome : Type 0 where
  next : Listener → List Task → Outcome
  stopped : Listener → List Task → Outcome
  crashed : List Task → Outcome

-- Whether a log is passed over at once; where it is not, the state with its block. `removed` is true
-- where it is missing.
abbrev pub is_removed : Option Bool → Bool
is_removed none = true
is_removed (some b) = b

unfoldable pub see_block : Listener → Log → Option Listener
see_block s log = if is_removed log.removed then none else elim log.block_number [
  | none ↦ none
  | some current_block ↦
      if ltb current_block s.last_block_seen
      then none
      else some (record s { last_block_seen = current_block })
]

abbrev pub spawned : Created → List Task
spawned c =
    timeout_of c.job_id c.user_deadline
    ∷ (if c.is_node_selected
        then execution_of c.job_id c.code_hash c.code_inputs c.user_deadline ∷ []
        else [])

abbrev pub accept_created : Listener → Read Created → Outcome
accept_created s skipped = next s []
accept_created s panicked = crashed []
accept_created s (found c) =
    next (record s { job_requests_running = insert c.job_id s.job_requests_running }) (spawned c)

abbrev pub accept_responded : ℕ → Listener → Read (ℕ × ℕ) → Outcome
accept_responded num_selected_executors s skipped = next s []
accept_responded num_selected_executors s panicked = crashed []
accept_responded num_selected_executors s (found (job_id, output_count)) =
    next
      (record s {
        job_requests_running =
            if output_count == num_selected_executors
            then remove job_id s.job_requests_running
            else s.job_requests_running;
      })
      []

abbrev pub if_seen : Listener → (Listener → Outcome) → Option Listener → Outcome
if_seen s accept none = next s []
if_seen s accept (some seen) = accept seen

abbrev pub proceed : (Listener → List Task → Outcome) → List Task → Outcome → Outcome
proceed again tasks (next s more) = again s (tasks ++ more)
proceed again tasks (stopped s more) = stopped s (tasks ++ more)
proceed again tasks (crashed more) = crashed (tasks ++ more)

-- The constants of the executor: its address and `num_selected_executors`.
pub record Settings : Type 0 where
  pub enclave_address : ℕ
  pub num_selected_executors : ℕ

module _ {Token : Type 0} (abi : Abi Token) (settings : Settings) where
  unfoldable pub handle_created : Listener → Log → Outcome
  handle_created s log =
      if_seen s
        (λ seen.
          accept_created seen (read_created abi settings.enclave_address execution_env_id log))
        (see_block s log)

  unfoldable pub handle_responded : Listener → Log → Outcome
  handle_responded s log =
      if_seen s
        (λ seen. accept_responded settings.num_selected_executors seen (read_responded abi log))
        (see_block s log)

  unfoldable pub handle_event : Listener → Event → Outcome
  handle_event s (deregistered log) =
      if is_removed log.removed
      then next s []
      else stopped (record s { enclave_registered = false }) []
  handle_event s (created log) = handle_created s log
  handle_event s (responded log) = handle_responded s log

  -- The events in the order in which `select!` takes them; the loop ends where the streams have ended.
  -- The tasks are those spawned so far, the oldest first.
  unfoldable pub handle_event_logs : List Event → Listener → List Task → Outcome
  handle_event_logs [] s tasks = next s tasks
  handle_event_logs (e ∷ events) s tasks =
      proceed (handle_event_logs events) tasks (handle_event s e)

-- The logs of the registration: the first that was not removed.
unfoldable pub await_registration : ℕ → List Log → Listener → Listener
await_registration starting_block [] s = s
await_registration starting_block (log ∷ logs) s =
    let rest = await_registration starting_block logs s in
    if is_removed log.removed then rest else record s {
      enclave_registered = true;
      last_block_seen = elim log.block_number [ none ↦ starting_block | some b ↦ b ];
    }

-- `handle_timeout` after its sleep, at the instant `now` in nanoseconds: what it sends, and the jobs that
-- run after it. The deadline of the task was turned into a u64.
unfoldable pub handle_timeout : ℕ → ℕ → List ℕ → Option JobsTxnMetadata × List ℕ
handle_timeout now job_id running =
    if contains job_id running
    then (
      some (record {
        txn_type = timeout;
        job_id = job_id;
        job_output = none;
        retry_deadline = now + timeout_txn_resend_deadline * 10 ^ 9;
      }),
      remove job_id running,
    )
    else (none, running)

-- The end of a timeout task: it panics where the deadline is no u64, before it does anything.
unfoldable pub end_timeout : ℕ → Task → List ℕ → List JobsTxnMetadata × List ℕ
end_timeout now (timeout_of job_id user_deadline) running =
    if ltb user_deadline (2 ^ 64)
    then (
      elim (handle_timeout now job_id running).0 [ none ↦ [] | some m ↦ m ∷ [] ],
      (handle_timeout now job_id running).1,
    )
    else ([], running)
end_timeout now (execution_of job_id code_hash code_inputs user_deadline) running = ([], running)

-- The timeouts of several tasks, each at its instant, in the order of the list.
unfoldable pub end_timeouts : List (ℕ × Task) → List ℕ → List JobsTxnMetadata × List ℕ
end_timeouts [] running = ([], running)
end_timeouts ((now, task) ∷ rest) running =
    let ended = end_timeout now task running in
    let later = end_timeouts rest ended.1 in (ended.0 ++ later.0, later.1)
