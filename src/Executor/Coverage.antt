-- ===== src/Executor/Coverage.antt =====
-- While the listener runs, each job that is held to be running has a timeout among its tasks.
use oyster_monorepo.Base.{
  ℕ, ◌≡◌, ◌≢◌, ◌∙◌, refl, sym, ap, ◌⊎◌, Bool, true, false, ◌||◌, Option, none, some, List, [], ◌∷◌,
  ◌++◌, arith, ◌==◌, if◌then◌else◌,
}
use oyster_monorepo.Executor.State.{execution_env_id, contains, insert, remove}
use oyster_monorepo.Executor.Logs.{
  Abi, Log, Read, skipped, panicked, found, Created, read_created, read_responded,
}
use oyster_monorepo.Executor.Events.{
  Listener, Task, timeout_of, execution_of, Event, deregistered, created, responded, Outcome, next,
  stopped, crashed, Settings, is_removed, see_block, spawned, accept_created, accept_responded,
  handle_created, handle_responded, handle_event, if_seen, proceed, handle_event_logs,
}

-- Whether a job has a timeout among the tasks.
abbrev pub has_timeout : ℕ → List Task → Bool
has_timeout j [] = false
has_timeout j (timeout_of job_id user_deadline ∷ tasks) = job_id == j || has_timeout j tasks
has_timeout j (execution_of job_id code_hash code_inputs user_deadline ∷ tasks) =
    has_timeout j tasks

-- Each job that runs has a timeout among the tasks.
abbrev pub IsCovered : Listener → List Task → Type 0
IsCovered s tasks = (j : ℕ) → contains j s.job_requests_running ≡ true → has_timeout j tasks ≡ true

-- The same at the end of a loop or of a turn, with the tasks that were there before.
abbrev pub IsCoveredAfter : List Task → Outcome → Type 0
IsCoveredAfter tasks (next s more) = IsCovered s (tasks ++ more)
IsCoveredAfter tasks (stopped s more) = IsCovered s (tasks ++ more)
IsCoveredAfter tasks (crashed more) = Unit {0}

contains-insert :
    (j x : ℕ) (ys : List ℕ) → contains j (insert x ys) ≡ true → (x ≡ j) ⊎ (contains j ys ≡ true)
unfolding insert
contains-insert j x ys h = ground arith

pub contains-remove :
    (j x : ℕ) (ys : List ℕ) → contains j (remove x ys) ≡ true → (contains j ys ≡ true) × (x ≢ j)
unfolding remove
contains-remove j x [] h = ground arith
contains-remove j x (y ∷ ys) h = ground (arith, contains-remove j x ys)

has_timeout-append :
    (j : ℕ) (xs ys : List Task) → has_timeout j (xs ++ ys) ≡ (has_timeout j xs || has_timeout j ys)
has_timeout-append j [] ys = refl
has_timeout-append j (timeout_of k d ∷ xs) ys = ground (arith, has_timeout-append j xs ys)
has_timeout-append j (execution_of k c i d ∷ xs) ys = has_timeout-append j xs ys

has_timeout-spawned :
    (j : ℕ) (tasks : List Task) (c : Created)
    → (c.job_id ≡ j) ⊎ (has_timeout j tasks ≡ true)
    → has_timeout j (tasks ++ spawned c) ≡ true
has_timeout-spawned j tasks c h = ground (arith, has_timeout-append j tasks (spawned c))

has_timeout-more :
    (j : ℕ) (tasks more : List Task)
    → has_timeout j tasks ≡ true
    → has_timeout j (tasks ++ more) ≡ true
has_timeout-more j tasks more h = ground (arith, has_timeout-append j tasks more)

see_block-same :
    (s seen : Listener) (log : Log)
    → see_block s log ≡ some seen
    → seen.job_requests_running ≡ s.job_requests_running
unfolding see_block
see_block-same s seen log h = ground arith

accept_created-IsCovered :
    (s : Listener) (tasks : List Task) (r : Read Created)
    → IsCovered s tasks
    → IsCoveredAfter tasks (accept_created s r)
accept_created-IsCovered s tasks skipped h = λ j e. has_timeout-more j tasks [] (h j e)
accept_created-IsCovered s tasks panicked h = tt
accept_created-IsCovered s tasks (found c) h = λ j e.
    has_timeout-spawned j tasks c
      (ground (arith, h j, contains-insert j c.job_id s.job_requests_running e))

accept_responded-IsCovered :
    (n : ℕ) (s : Listener) (tasks : List Task) (r : Read (ℕ × ℕ))
    → IsCovered s tasks
    → IsCoveredAfter tasks (accept_responded n s r)
accept_responded-IsCovered n s tasks skipped h = λ j e. has_timeout-more j tasks [] (h j e)
accept_responded-IsCovered n s tasks panicked h = tt
accept_responded-IsCovered n s tasks (found (job_id, output_count)) h = λ j e.
    has_timeout-more j tasks []
      (ground (arith, h j, contains-remove j job_id s.job_requests_running))

if_seen-IsCovered :
    (s : Listener) (log : Log) (tasks : List Task) (accept : Listener → Outcome)
    (o : Option Listener)
    → see_block s log ≡ o
    → ((seen : Listener) → IsCovered seen tasks → IsCoveredAfter tasks (accept seen))
    → IsCovered s tasks
    → IsCoveredAfter tasks (if_seen s accept o)
if_seen-IsCovered s log tasks accept none e k h = λ j c. has_timeout-more j tasks [] (h j c)
if_seen-IsCovered s log tasks accept (some seen) e k h =
    k seen (λ j c. h j (sym (ap (contains j) (see_block-same s seen log e)) ∙ c))

module _ (again : Listener → List Task → Outcome)
    (later : (s : Listener)
      → (tasks : List Task) → IsCovered s tasks
      → IsCoveredAfter [] (again s tasks)) where
  proceed-IsCovered :
      (tasks : List Task) (o : Outcome)
      → IsCoveredAfter tasks o
      → IsCoveredAfter [] (proceed again tasks o)
  proceed-IsCovered tasks (next s more) h = later s (tasks ++ more) h
  proceed-IsCovered tasks (stopped s more) h = h
  proceed-IsCovered tasks (crashed more) h = tt

module _ {Token : Type 0} (abi : Abi Token) (settings : Settings) where
  handle_event-IsCovered :
      (s : Listener) (e : Event) (tasks : List Task)
      → IsCovered s tasks
      → IsCoveredAfter tasks (handle_event abi settings s e)
  unfolding handle_event handle_created handle_responded
  handle_event-IsCovered s (deregistered log) tasks h =
      elim (is_removed log.removed)
        as (λ b.
          IsCoveredAfter tasks
            (if b then next s [] else stopped (record s { enclave_registered = false }) [])) [
              | true ↦ λ j c. has_timeout-more j tasks [] (h j c)
              | false ↦ λ j c. has_timeout-more j tasks [] (h j c)
            ]
  handle_event-IsCovered s (created log) tasks h =
      if_seen-IsCovered s log tasks
        (λ seen.
          accept_created seen (read_created abi settings.enclave_address execution_env_id log))
        (see_block s log) refl
        (λ seen.
          accept_created-IsCovered seen tasks
            (read_created abi settings.enclave_address execution_env_id log))
        h
  handle_event-IsCovered s (responded log) tasks h =
      if_seen-IsCovered s log tasks
        (λ seen. accept_responded settings.num_selected_executors seen (read_responded abi log))
        (see_block s log) refl
        (λ seen.
          accept_responded-IsCovered settings.num_selected_executors seen tasks
            (read_responded abi log))
        h

  -- Where each job that runs has a timeout among the tasks, it stays so whatever logs arrive.
  pub handle_event_logs-IsCovered :
      (events : List Event) (s : Listener) (tasks : List Task)
      → IsCovered s tasks
      → IsCoveredAfter [] (handle_event_logs abi settings events s tasks)
  unfolding handle_event_logs
  handle_event_logs-IsCovered [] s tasks h = h
  handle_event_logs-IsCovered (e ∷ events) s tasks h =
      proceed-IsCovered (handle_event_logs abi settings events) (handle_event_logs-IsCovered events)
        tasks (handle_event abi settings s e) (handle_event-IsCovered s e tasks h)
