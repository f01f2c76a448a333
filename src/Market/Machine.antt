-- ===== src/Market/Machine.antt =====
-- `job_manager_once` and `job_manager` of market.rs. The branch of `select!` that is taken is chosen
-- by the environment among those whose guard holds and whose sleep is over; the answers of the clock
-- come with it.
use oyster_monorepo.Base.{
  ℕ, String, ◌+◌, ◌-◌, ◌*◌, leb, Bool, true, false, not, ◌&&◌, ◌||◌, Option, List, [], ◌∷◌, ltb,
  if◌then◌else◌, str_eq,
}
use oyster_monorepo.Chain.{Log, Codec}
use oyster_monorepo.Market.State.{
  JobId, JobState, RegionalRates, GbRateCard, from_secs, new, insolvency_duration,
  handle_insolvency,
}
use oyster_monorepo.Market.Flow.{
  ReturnCode, success, recoverable, unrecoverable, not_allowed, Flow, next, exit, panic,
}
use oyster_monorepo.Market.Metadata.{Serde}
use oyster_monorepo.Market.Infra.{InfraProvider, heartbeat_check, change_infra}
use oyster_monorepo.Market.Logs.{process_log}

-- The branches of `select!`.
pub data Wake : Type 0 where
  log_arrived : Option Log → Wake
  heartbeat insolvency infra_change : Wake

-- The clocks of a turn: the timestamp and the instant at its start, and the instant at which the
-- branch is taken.
pub record Moment : Type 0 where
  pub timestamp : ℕ
  pub start : ℕ
  pub now : ℕ

-- The guards behind the `if`s, and the sleeps, which begin with the turn.
unfoldable pub is_enabled : Moment → JobState → Wake → Bool
is_enabled at s (log_arrived log) = true
is_enabled at s heartbeat = not (str_eq s.instance_id "") && leb (at.start + from_secs 5) at.now
is_enabled at s insolvency =
    (not s.infra_change_scheduled || s.infra_state)
    && leb (at.start + insolvency_duration at.timestamp s) at.now
is_enabled at s infra_change =
    s.infra_change_scheduled && leb (at.start + (s.infra_change_time - at.start)) at.now

-- A turn of the loop ends with the next turn, with the exit of the loop, or with a panic.
pub data Turn (S : Type 0) : Type 0 where
  running : JobState → S → Turn S
  exited : ReturnCode → JobState → S → Turn S
  panicked : S → Turn S

-- `if res == -2 || res == -1 { break 'event res; }`
abbrev pub after_log : {S : Type 0} → S → Flow (Unit {0}) → Turn S
after_log w (next a s) = running s w
after_log w (exit success s) = running s w
after_log w (exit not_allowed s) = running s w
after_log w (exit recoverable s) = exited recoverable s w
after_log w (exit unrecoverable s) = exited unrecoverable s w
after_log w panic = panicked w

-- `if res && !state.infra_state { break 'event 0; }`
abbrev pub after_change : {S : Type 0} → Bool × JobState × S → Turn S
after_change (done, s, w) = if done && not s.infra_state then exited success s w else running s w

module _ {Value S : Type 0} (c : Codec) (j : Serde Value) (infra : InfraProvider S)
    (rates : List RegionalRates) (gb_rates : List GbRateCard)
    (whitelist blacklist : List String) where
  unfoldable pub take_turn : ℕ → Wake → JobState → S → Turn S
  take_turn now (log_arrived log) s w =
      after_log w (process_log c j now rates gb_rates whitelist blacklist log s)
  take_turn now heartbeat s w = let (s', w') = heartbeat_check infra now s w in running s' w'
  take_turn now insolvency s w = running (handle_insolvency now s) w
  take_turn now infra_change s w = after_change (change_infra infra now s w)

  -- The loop over the wakes that come, each with the clocks of its turn; a wake that is not enabled
  -- cannot be taken and is passed over.
  unfoldable pub job_manager_once : List (Moment × Wake) → JobState → S → Turn S
  job_manager_once [] s w = running s w
  job_manager_once ((at, wake) ∷ wakes) s w =
      if is_enabled at s wake
      then elim (take_turn at.now wake s w) [
        | running s' w' ↦ job_manager_once wakes s' w'
        | exited e s' w' ↦ exited e s' w'
        | panicked w' ↦ panicked w'
      ]
      else job_manager_once wakes s w

-- `if res == -2 || res == 0 { break; }` of `job_manager`.
unfoldable pub is_full_exit : ReturnCode → Bool
is_full_exit success = true
is_full_exit unrecoverable = true
is_full_exit _ = false

-- The wait before the next attempt to connect: `backoff *= 2; if backoff > 128 { backoff = 128; }`.
unfoldable pub next_backoff : ℕ → ℕ
next_backoff backoff = let doubled = backoff * 2 in if ltb 128 doubled then 128 else doubled

-- What comes of an attempt to connect: no connection, no subscription, or a stream of wakes, with the
-- timestamp and the instant at its start.
pub data Attempt : Type 0 where
  refused unsubscribed : Attempt
  subscribed : ℕ → ℕ → List (Moment × Wake) → Attempt

-- A task goes on, was given up with a code and the last state, or has panicked.
pub data Task (S : Type 0) : Type 0 where
  following : S → Task S
  given_up : ReturnCode → JobState → S → Task S
  aborted : S → Task S

module _ {Value S : Type 0} (c : Codec) (j : Serde Value) (infra : InfraProvider S)
    (rates : List RegionalRates) (gb_rates : List GbRateCard) (whitelist blacklist : List String)
    (job_id : JobId) (aws_delay_duration : ℕ) (allowed_regions : List String) where
  -- `again` is the next turn of the loop of `job_manager`.
  abbrev pub after_once : (S → List ℕ × Task S) → Turn S → List ℕ × Task S
  after_once again (running s w) = ([], following w)
  after_once again (exited e s w) = elim (is_full_exit e) [
    | true ↦ ([], given_up e s w)
    | false ↦ again w
  ]
  after_once again (panicked w) = ([], aborted w)

  -- The loop over the attempts that come, with the seconds slept between them.
  unfoldable pub job_manager : List Attempt → ℕ → S → List ℕ × Task S
  job_manager [] backoff w = ([], following w)
  job_manager (refused ∷ rest) backoff w =
      let (sleeps, t) = job_manager rest (next_backoff backoff) w in (backoff ∷ sleeps, t)
  job_manager (unsubscribed ∷ rest) backoff w =
      let (sleeps, t) = job_manager rest 1 w in (1 ∷ sleeps, t)
  job_manager (subscribed now_timestamp now wakes ∷ rest) backoff w =
      after_once (job_manager rest 1) (
        job_manager_once c j infra rates gb_rates whitelist blacklist wakes
          (new now_timestamp now job_id aws_delay_duration allowed_regions) w)
