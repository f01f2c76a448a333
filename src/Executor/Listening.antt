-- ===== src/Executor/Listening.antt =====
-- What the listener and the timeouts do together: no job runs for ever, and a log that is delivered again
-- is handled again.
use oyster_monorepo.Base.{
  ℕ, ◌<◌, ◌^◌, ◌≡◌, ◌≢◌, ◌∙◌, refl, ap, inl, inr, true, false, Option, none, some, List, [], ◌∷◌,
  map, arith, ◌==◌, All, Bool-cases,
}
use oyster_monorepo.Executor.State.{execution_env_id, contains, insert, remove}
use oyster_monorepo.Executor.Logs.{Abi, Log, Read, skipped, panicked, found, Created, read_created}
use oyster_monorepo.Executor.Coverage.{
  has_timeout, IsCovered, IsCoveredAfter, contains-remove, handle_event_logs-IsCovered,
}
use oyster_monorepo.Executor.Events.{
  Listener, Task, timeout_of, execution_of, Event, Outcome, next, stopped, crashed, Settings,
  see_block, accept_created, handle_created, if_seen, handle_event_logs, handle_timeout,
  end_timeout, end_timeouts,
}

-- Deadlines that a u64 holds.
abbrev pub Fits : ℕ × Task → Type 0
Fits (now, timeout_of job_id user_deadline) = user_deadline < 2 ^ 64
Fits (now, execution_of job_id code_hash code_inputs user_deadline) = Unit {0}

-- What the listener leaves, where it did not panic.
abbrev pub left : Outcome → Option (Listener × List Task)
left (next s tasks) = some (s, tasks)
left (stopped s tasks) = some (s, tasks)
left (crashed tasks) = none

contains-remove_same : (j : ℕ) (ys : List ℕ) → contains j (remove j ys) ≡ false
contains-remove_same j ys = ground (arith, contains-remove j j ys)

contains-remove-false :
    (j x : ℕ) (ys : List ℕ) → contains j ys ≡ false → contains j (remove x ys) ≡ false
contains-remove-false j x ys h = ground (arith, contains-remove j x ys)

end_timeout-shrinks :
    (j now : ℕ) (t : Task) (running : List ℕ)
    → contains j running ≡ false
    → contains j (end_timeout now t running).1 ≡ false
unfolding end_timeout handle_timeout
end_timeout-shrinks j now (timeout_of k d) running h =
    ground (arith, contains-remove-false j k running h)
end_timeout-shrinks j now (execution_of k c i d) running h = h

end_timeouts-shrinks :
    (j : ℕ) (timed : List (ℕ × Task)) (running : List ℕ)
    → contains j running ≡ false
    → contains j (end_timeouts timed running).1 ≡ false
unfolding end_timeouts
end_timeouts-shrinks j [] running h = h
end_timeouts-shrinks j ((now, t) ∷ rest) running h =
    end_timeouts-shrinks j rest (end_timeout now t running).1
      (end_timeout-shrinks j now t running h)

end_timeout-removes :
    (now job_id user_deadline : ℕ) (running : List ℕ)
    → user_deadline < 2 ^ 64
    → contains job_id (end_timeout now (timeout_of job_id user_deadline) running).1 ≡ false
unfolding end_timeout handle_timeout
end_timeout-removes now job_id user_deadline running h =
    ground (arith, contains-remove_same job_id running)

end_timeouts-removes :
    (j : ℕ) (timed : List (ℕ × Task)) (running : List ℕ)
    → All Fits timed
    → has_timeout j (map (λ t. t.1) timed) ≡ true
    → contains j (end_timeouts timed running).1 ≡ false
unfolding end_timeouts
end_timeouts-removes j [] running fits h = ground arith
end_timeouts-removes j ((now, timeout_of k d) ∷ rest) running (fit, fits) h =
    elim (Bool-cases (k == j)) [
      | inl e ↦
          end_timeouts-shrinks j rest (end_timeout now (timeout_of k d) running).1
            (ground (arith, end_timeout-removes now k d running fit))
      | inr e ↦
          end_timeouts-removes j rest (end_timeout now (timeout_of k d) running).1 fits
            (ground arith)
    ]
end_timeouts-removes j ((now, execution_of k c i d) ∷ rest) running (fit, fits) h =
    end_timeouts-removes j rest (end_timeout now (execution_of k c i d) running).1 fits h

none_contained : (ys : List ℕ) → ((j : ℕ) → contains j ys ≡ false) → ys ≡ []
none_contained [] h = refl
none_contained (y ∷ ys) h = ground (arith, h y)

left-IsCovered :
    (o : Outcome) (after : Listener) (tasks : List Task)
    → left o ≡ some (after, tasks)
    → IsCoveredAfter [] o
    → IsCovered after tasks
left-IsCovered (next s more) after tasks h k = λ j c. ground (arith, k j)
left-IsCovered (stopped s more) after tasks h k = λ j c. ground (arith, k j)
left-IsCovered (crashed more) after tasks h k = ground arith

seen_by :
    (s after : Listener) (tasks : List Task) (accept : Listener → Outcome) (o : Option Listener)
    → tasks ≢ []
    → if_seen s accept o ≡ next after tasks
    → (seen : Listener) × (o ≡ some seen) × (accept seen ≡ next after tasks)
seen_by s after tasks accept none some_tasks h = ground arith
seen_by s after tasks accept (some seen) some_tasks h = (seen, refl, h)

see_block-again :
    (s seen t : Listener) (log : Log)
    → see_block s log ≡ some seen
    → t.last_block_seen ≡ seen.last_block_seen
    → see_block t log ≡ some t
unfolding see_block
see_block-again s seen t log h same = ground arith

accepts_again :
    (s t after : Listener) (tasks : List Task) (r : Read Created)
    → tasks ≢ []
    → accept_created s r ≡ next after tasks
    → (x : Listener) × (after.last_block_seen ≡ s.last_block_seen)
      × (accept_created t r ≡ next x tasks)
accepts_again s t after tasks skipped some_tasks h = ground arith
accepts_again s t after tasks panicked some_tasks h = ground arith
accepts_again s t after tasks (found c) some_tasks h = (
  record t { job_requests_running = insert c.job_id t.job_requests_running },
  ground arith,
  ground arith,
)

idle-IsCovered : (s : Listener) → s.job_requests_running ≡ [] → IsCovered s []
idle-IsCovered s idle = λ j c. ground arith

module _ {Token : Type 0} (abi : Abi Token) (settings : Settings) where
  -- Where no job ran when the listener began and the listener did not panic: after its logs and the
  -- timeouts of the tasks it spawned, in any order and whatever else they are among, no job is held to be
  -- running; the deadlines fit in 64 bits.
  pub timeouts-clear :
      (events : List Event) (s after : Listener) (tasks : List Task) (timed : List (ℕ × Task))
      → s.job_requests_running ≡ []
      → left (handle_event_logs abi settings events s []) ≡ some (after, tasks)
      → ((j : ℕ) → has_timeout j tasks ≡ true → has_timeout j (map (λ t. t.1) timed) ≡ true)
      → All Fits timed
      → (end_timeouts timed after.job_requests_running).1 ≡ []
  timeouts-clear events s after tasks timed idle h among fits =
      none_contained (end_timeouts timed after.job_requests_running).1 (λ j. ended j)
    where
      covered : IsCovered after tasks
      covered =
          left-IsCovered (handle_event_logs abi settings events s []) after tasks h
            (handle_event_logs-IsCovered abi settings events s [] (idle-IsCovered s idle))

      ended : (j : ℕ) → contains j (end_timeouts timed after.job_requests_running).1 ≡ false
      ended j = elim (Bool-cases (contains j after.job_requests_running)) [
        | inl c ↦
            end_timeouts-removes j timed after.job_requests_running fits (among j (covered j c))
        | inr c ↦ end_timeouts-shrinks j timed after.job_requests_running c
      ]

  -- A `JobCreated` log that spawned tasks spawns the same tasks again where it is delivered again, as
  -- long as no other block was seen since, even though its job is running or has run.
  pub handle_created-again :
      (s t after : Listener) (log : Log) (tasks : List Task)
      → tasks ≢ []
      → handle_created abi settings s log ≡ next after tasks
      → t.last_block_seen ≡ after.last_block_seen
      → (x : Listener) × (handle_created abi settings t log ≡ next x tasks)
  unfolding handle_created
  handle_created-again s t after log tasks some_tasks h same =
      let r = read_created abi settings.enclave_address execution_env_id log in
      let accept = λ (seen : Listener). accept_created seen r in
      let (seen, e, k) = seen_by s after tasks accept (see_block s log) some_tasks h in
      let (x, same_block, again) = accepts_again seen t after tasks r some_tasks k in
      (x, ap (if_seen t accept) (see_block-again s seen t log e (same ∙ same_block)) ∙ again)
