-- ===== src/Market/Supervision.antt =====
-- The loops of a job's task: when it is given up, and how long it waits in between.
use oyster_monorepo.Base.{ℕ, String, ◌≤◌, ◌≡◌, refl, true, some, List, [], ◌∷◌, arith, All}
use oyster_monorepo.Chain.{Log, Codec}
use oyster_monorepo.Market.State.{JobId, JobState, RegionalRates, GbRateCard, new}
use oyster_monorepo.Market.Flow.{ReturnCode, success, recoverable, unrecoverable, not_allowed, exit}
use oyster_monorepo.Market.Metadata.{Serde}
use oyster_monorepo.Market.Infra.{InfraProvider}
use oyster_monorepo.Market.Logs.{process_metadata_updated, process_log}
use oyster_monorepo.Market.Machine.{
  Moment, Wake, log_arrived, is_enabled, Turn, running, exited, panicked, take_turn,
  job_manager_once, is_full_exit, next_backoff, Attempt, refused, unsubscribed, subscribed, Task,
  following, given_up, aborted, after_once, job_manager,
}
use oyster_monorepo.Market.Scheduling.{IsTerminating, process_metadata_updated_refused}
use oyster_monorepo.Market.Termination.{EndsWell, job_manager_once-EndsWell}

module _ {Value S : Type 0} (c : Codec) (j : Serde Value) (infra : InfraProvider S)
    (rates : List RegionalRates) (gb_rates : List GbRateCard)
    (whitelist blacklist : List String) where
  -- A log that is taken for a metadata update, read and refused schedules a termination and ends the
  -- loop in the same turn, with a code on which the job's task is given up: the termination is never
  -- carried out, and the infrastructure is left as it was.
  pub refused_update_leaves_instance :
      (at : Moment) (wakes : List (Moment × Wake)) (log : Log) (s s' : JobState) (w : S)
      (metadata : String) (e : ReturnCode)
      → process_log c j at.now rates gb_rates whitelist blacklist (some log) s
        ≡ process_metadata_updated c j at.now log s
      → c.decode_string log.payload ≡ some metadata
      → process_metadata_updated c j at.now log s ≡ exit e s'
      → (job_manager_once c j infra rates gb_rates whitelist blacklist
            ((at, log_arrived (some log)) ∷ wakes)
            s
            w
          ≡ exited unrecoverable s' w)
        × IsTerminating s'
        × (is_full_exit unrecoverable ≡ true)
  unfolding job_manager_once take_turn is_enabled is_full_exit
  refused_update_leaves_instance at wakes log s s' w metadata e taken d h =
      ground (arith, process_metadata_updated_refused c j at.now log s metadata d h)

-- A wait of 1 to 128 seconds.
abbrev pub IsWait : ℕ → Type 0
IsWait n = (1 ≤ n) × (n ≤ 128)

next_backoff-IsWait : (n : ℕ) → IsWait n → IsWait (next_backoff n)
unfolding next_backoff
next_backoff-IsWait n h = ground arith

module _ {Value S : Type 0} (infra : InfraProvider S) (c : Codec) (j : Serde Value)
    (rates : List RegionalRates) (gb_rates : List GbRateCard) (whitelist blacklist : List String)
    (job_id : JobId) (aws_delay_duration : ℕ) (allowed_regions : List String) where
  -- A task is given up with 0 or -2 only, and with 0 only when the provider has confirmed that the job's
  -- instance is down.
  abbrev pub GivenUpWell : Task S → Type 0
  GivenUpWell (following w) = Unit {0}
  GivenUpWell (given_up e s w) =
      (is_full_exit e ≡ true) × EndsWell infra c j rates gb_rates whitelist blacklist e s w
  GivenUpWell (aborted w) = Unit {0}

  abbrev pub IsWellManaged : List ℕ × Task S → Type 0
  IsWellManaged (sleeps, t) = All IsWait sleeps × GivenUpWell t

  after_once-IsWellManaged :
      (again : S → List ℕ × Task S) (t : Turn S)
      → ((w : S) → IsWellManaged (again w))
      → ((e : ReturnCode) (s' : JobState) (w' : S)
          → t ≡ exited e s' w'
          → EndsWell infra c j rates gb_rates whitelist blacklist e s' w')
      → IsWellManaged (
          after_once c j infra rates gb_rates whitelist blacklist job_id aws_delay_duration
            allowed_regions again t)
  unfolding is_full_exit
  after_once-IsWellManaged again (running s w) later ends = (tt, tt)
  after_once-IsWellManaged again (exited success s w) later ends =
      (tt, (refl, ends success s w refl))
  after_once-IsWellManaged again (exited recoverable s w) later ends = later w
  after_once-IsWellManaged again (exited unrecoverable s w) later ends =
      (tt, (refl, ends unrecoverable s w refl))
  after_once-IsWellManaged again (exited not_allowed s w) later ends = later w
  after_once-IsWellManaged again (panicked w) later ends = (tt, tt)

  waited :
      (n : ℕ) (r : List ℕ × Task S)
      → IsWait n
      → IsWellManaged r
      → IsWellManaged (let (sleeps, t) = r in (n ∷ sleeps, t))
  waited n (sleeps, t) h (k, g) = ((h, k), g)

  -- However the connections and the streams of a job go, whatever the provider answers, and from a wait
  -- of 1 to 128 seconds: every wait is one of 1 to 128 seconds, and the task is given up with 0 or
  -- -2 only, with 0 only when the provider, asked for the job's instance, has told that there is none
  -- or that it is going down, or has taken it down.
  pub job_manager-IsWellManaged :
      (attempts : List Attempt) (backoff : ℕ) (w : S)
      → IsWait backoff
      → IsWellManaged (
          job_manager c j infra rates gb_rates whitelist blacklist job_id aws_delay_duration
            allowed_regions attempts backoff w)
  unfolding job_manager
  job_manager-IsWellManaged [] backoff w h = (tt, tt)
  job_manager-IsWellManaged (refused ∷ rest) backoff w h =
      waited backoff _ h
        (job_manager-IsWellManaged rest (next_backoff backoff) w (next_backoff-IsWait backoff h))
  job_manager-IsWellManaged (unsubscribed ∷ rest) backoff w h =
      waited 1 _ (omega arith, omega arith)
        (job_manager-IsWellManaged rest 1 w (omega arith, omega arith))
  job_manager-IsWellManaged (subscribed now_timestamp now wakes ∷ rest) backoff w h =
      after_once-IsWellManaged _ _
        (λ w'. job_manager-IsWellManaged rest 1 w' (omega arith, omega arith))
        (λ e s' w'.
          job_manager_once-EndsWell infra c j rates gb_rates whitelist blacklist wakes
            (new now_timestamp now job_id aws_delay_duration allowed_regions) w e)
