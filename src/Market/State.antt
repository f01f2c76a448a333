-- ===== src/Market/State.antt =====
-- The data of market.rs: rate cards, the state of a job's task, and the schedule of its instance.
use oyster_monorepo.Base.{
  ℕ, String, ◌+◌, ◌-◌, ◌*◌, ◌/◌, ◌^◌, Bool, true, false, List, ◌==◌, if◌then◌else◌,
}
use oyster_monorepo.Base.Int.{ℤ, pos}
use oyster_monorepo.Base.Words.{u256_max, mul_u256, saturating_to_u64}

pub record JobId : Type 0 where
  pub id : String
  pub operator : String
  pub contract : String
  pub chain : String

pub record RateCard : Type 0 where
  pub instance_type : String
  pub min_rate : ℕ
  pub cpu : ℕ
  pub memory : ℕ
  pub arch : String

pub record RegionalRates : Type 0 where
  pub region : String
  pub rate_cards : List RateCard

pub record GbRateCard : Type 0 where
  pub region : String
  pub region_code : String
  pub rate : ℕ

-- `context` is not kept: what it and `Instant::now()` answer is an argument where they are asked. A
-- `Duration` and an `Instant` are nanoseconds, the latter since some fixed time.
pub record JobState : Type 0 where
  pub job_id : JobId
  pub launch_delay : ℕ
  pub allowed_regions : List String
  pub balance : ℕ
  pub last_settled : ℕ
  pub rate : ℕ
  pub original_rate : ℕ
  pub instance_id : String
  pub family : String
  pub min_rate : ℕ
  pub bandwidth : ℕ
  pub eif_url : String
  pub instance_type : String
  pub region : String
  pub req_vcpus : ℤ
  pub req_mem : ℤ
  pub debug : Bool
  pub infra_state : Bool
  pub infra_change_time : ℕ
  pub infra_change_scheduled : Bool
  pub eif_update : Bool

-- `Duration::from_secs`
abbrev pub from_secs : ℕ → ℕ
from_secs s = s * 1000000000

-- `JobState::new`, at the timestamp and the instant of the call.
unfoldable pub new : ℕ → ℕ → JobId → ℕ → List String → JobState
new now_timestamp now job_id launch_delay allowed_regions = record {
  job_id = job_id;
  launch_delay = launch_delay;
  allowed_regions = allowed_regions;
  balance = 360;
  last_settled = now_timestamp;
  rate = 1;
  original_rate = 1;
  instance_id = "";
  family = "salmon";
  min_rate = u256_max;
  bandwidth = 0;
  eif_url = "";
  instance_type = "c6a.xlarge";
  region = "ap-south-1";
  req_vcpus = pos 2;
  req_mem = pos 4096;
  debug = false;
  infra_state = false;
  infra_change_time = now;
  infra_change_scheduled = false;
  eif_update = false;
}

-- The subtractions of the source saturate at 0, as `-` does.
unfoldable pub insolvency_duration : ℕ → JobState → ℕ
insolvency_duration now_timestamp s =
    if s.rate == 0
    then 0
    else from_secs (saturating_to_u64 (mul_u256 s.balance (10 ^ 12) / s.rate) - 300)
      - (now_timestamp - s.last_settled)

unfoldable pub schedule_launch : ℕ → ℕ → JobState → JobState
schedule_launch now delay s = record s {
  infra_change_scheduled = true;
  infra_change_time = now + from_secs delay;
  infra_state = true;
}

unfoldable pub schedule_termination : ℕ → ℕ → JobState → JobState
schedule_termination now delay s = record s {
  infra_change_scheduled = true;
  infra_change_time = now + from_secs delay;
  infra_state = false;
}

unfoldable pub handle_insolvency : ℕ → JobState → JobState
handle_insolvency now s = schedule_termination now 0 s
