-- ===== src/Market/Tests.antt =====
-- Runs of the market on a small infrastructure, and the theorems at inputs that meet their hypotheses.
use oyster_monorepo.Base.{
  ℕ, String, ◌+◌, ◌*◌, ◌-◌, ◌/◌, ◌^◌, ◌≤◌, ◌≡◌, ◌≢◌, refl, Bool, true, false, Option, none, some,
  List, [], ◌∷◌, arith, if◌then◌else◌, str_eq,
}
use oyster_monorepo.Base.Int.{pos}
use oyster_monorepo.Base.Words.{add_u256, sub_u256, mul_u256, saturating_to_u64}
use oyster_monorepo.Chain.{Log}
use oyster_monorepo.Chain.Samples.{codec}
use oyster_monorepo.Market.State.{
  JobId, RegionalRates, JobState, from_secs, new, insolvency_duration, schedule_launch,
  schedule_termination,
}
use oyster_monorepo.Market.Flow.{unrecoverable, next}
use oyster_monorepo.Market.Metadata.{Serde, i32_max, to_i32_or}
use oyster_monorepo.Market.Infra.{InfraProvider, change_infra, change_infra_impl}
use oyster_monorepo.Market.Opened.{
  find_min_rate, whitelist_blacklist_check, process_opened, launch_or_terminate,
}
use oyster_monorepo.Market.Logs.{process_metadata_updated, process_topic, process_log}
use oyster_monorepo.Market.Machine.{
  Moment, is_enabled, Wake, log_arrived, infra_change, Turn, exited, take_turn, job_manager_once,
  is_full_exit, refused, subscribed, job_manager,
}
use oyster_monorepo.Market.Funds.{insolvency_duration_paid, insolvency_not_early}
use oyster_monorepo.Market.Scheduling.{
  IsTerminating, IsLaunching, process_metadata_updated_launches, vcpu_out_of_range_refused,
}
use oyster_monorepo.Market.Supervision.{
  IsWellManaged, refused_update_leaves_instance, job_manager-IsWellManaged,
}

-- An infrastructure that has the job's instance or has it not.
abbrev instance_of : Bool → Option (Bool × String × String) × Bool
instance_of true = (some (true, "i", "running"), true)
instance_of false = (some (false, "", ""), false)

abbrev infra : InfraProvider Bool
infra = record {
  spin_up = λ job type family region mem vcpus bandwidth w. (some "i", true);
  spin_down = λ id job region w. (true, false);
  get_job_instance = λ job region w. instance_of w;
  check_instance_running = λ id region w. (some w, w);
  check_enclave_running = λ id region w. (some w, w);
  run_enclave = λ job id family region url vcpus mem bandwidth debug w. (true, w);
  update_enclave_image = λ id region url vcpus mem w. (true, w);
}

-- A reader of metadata that takes the text for the image's address; the vCPUs are given.
abbrev text_of : String → String → Option String
text_of v key =
    if str_eq key "instance"
    then some "c6a.xlarge"
    else if str_eq key "region"
    then some "ap-south-1"
    else if str_eq key "url"
    then some v
    else none

abbrev serde : ℕ → Serde String
serde vcpus = record {
  from_str = some;
  as_str = text_of;
  as_int = λ v key. if str_eq key "memory" then some (pos 4096) else some (pos vcpus);
  as_bool = λ v key. some false;
}

abbrev job : JobId
job = record { id = "0x01"; operator = "0x02"; contract = "0x03"; chain = "421614" }

abbrev fresh : JobState
fresh = record {
  job_id = job;
  launch_delay = 300;
  allowed_regions = "ap-south-1" ∷ [];
  balance = 360;
  last_settled = 0;
  rate = 1;
  original_rate = 1;
  instance_id = "";
  family = "salmon";
  min_rate = 5;
  bandwidth = 0;
  eif_url = "";
  instance_type = "c6a.xlarge";
  region = "ap-south-1";
  req_vcpus = pos 2;
  req_mem = pos 4096;
  debug = false;
  infra_state = false;
  infra_change_time = 0;
  infra_change_scheduled = false;
  eif_update = false;
}

abbrev rates : List RegionalRates
rates =
    record {
      region = "ap-south-1";
      rate_cards =
          record { instance_type = "c6a.xlarge"; min_rate = 5; cpu = 4; memory = 8; arch = "amd64" }
          ∷ [];
    }
    ∷ []

abbrev log_of : String → List ℕ → Log
log_of signature payload = record {
  topics = codec.keccak256 signature ∷ 1 ∷ 2 ∷ 3 ∷ [];
  payload = payload;
  block_number = some 7;
  log_index = some 0;
  transaction_hash = some 9;
}

abbrev at_70 : Moment
at_70 = record { timestamp = 0; start = 70; now = 70 }

abbrev at_80 : Moment
at_80 = record { timestamp = 0; start = 70; now = 80 }

-- Long after the funds of `fresh` are used up.
abbrev at_end : Moment
at_end = record { timestamp = 0; start = 0; now = from_secs (360 * 10 ^ 12) }

-- What the tests compute with.
run : List (Moment × Wake) → JobState → Bool → Turn Bool
unfolding mul_u256 saturating_to_u64 add_u256 sub_u256 job_manager job_manager_once take_turn
    is_enabled process_log process_topic process_opened process_metadata_updated
    whitelist_blacklist_check launch_or_terminate find_min_rate to_i32_or schedule_launch
    schedule_termination change_infra change_infra_impl insolvency_duration new
run wakes s w = job_manager_once codec (serde 2) infra rates [] [] [] wakes s w

insolvency_duration_paid_example :
    (60 + insolvency_duration 60 fresh + from_secs 300) * 1 ≤ 0 * 1 + from_secs (360 * 10 ^ 12)
unfolding run
insolvency_duration_paid_example =
    insolvency_duration_paid 60 fresh (omega arith) (omega arith) (omega arith)

insolvency_not_early_example :
    from_secs (360 * 10 ^ 12 / 1)
    ≤ (at_end.timestamp - 0) + (at_end.now - at_end.start) + from_secs 300
unfolding run
insolvency_not_early_example =
    insolvency_not_early at_end fresh (omega arith) (omega arith) (omega arith) refl

-- A metadata update with a new image, in a state below the minimum rate with a termination scheduled.
abbrev update : Log
update = log_of "JobMetadataUpdated(bytes32,string)" (2 ∷ [])

abbrev doomed : JobState
doomed = schedule_termination 60 0 fresh

process_metadata_updated_launches_example :
    let s' = schedule_launch 70 300 (record doomed { eif_url = "0x02"; eif_update = true }) in
    IsLaunching s' × (s'.eif_update ≡ true) × (s'.rate ≡ 1) × (s'.min_rate ≡ 5)
unfolding run
process_metadata_updated_launches_example =
    process_metadata_updated_launches codec (serde 2) 70 update doomed refl

vcpu_out_of_range_refused_example :
    process_metadata_updated codec (serde (2 ^ 31)) 70 update (record fresh { req_vcpus = i32_max })
    ≢ next tt (
        schedule_launch 70 300
          (record fresh { req_vcpus = i32_max; eif_url = "0x02"; eif_update = true }))
unfolding run
vcpu_out_of_range_refused_example =
    vcpu_out_of_range_refused codec (serde (2 ^ 31)) 70 update
      (record fresh { req_vcpus = i32_max }) "0x02" "0x02" (2 ^ 31) refl refl refl (omega arith)
      refl
      (schedule_launch 70 300
        (record fresh { req_vcpus = i32_max; eif_url = "0x02"; eif_update = true }))

abbrev opening : Log
opening =
    log_of "JobOpened(bytes32,string,address,address,uint256,uint256,uint256)" (9 ∷ 100 ∷ 1000 ∷ [])

refused_update_leaves_instance_example :
    let s = record fresh { eif_url = "0x02" } in
    let s' = schedule_termination 70 0 s in
    (job_manager_once codec
        (serde 2)
        infra
        rates
        []
        []
        []
        ((at_70, log_arrived (some update)) ∷ (at_80, infra_change) ∷ [])
        s
        true
      ≡ exited unrecoverable s' true)
    × IsTerminating s'
    × (is_full_exit unrecoverable ≡ true)
unfolding run
refused_update_leaves_instance_example =
    refused_update_leaves_instance codec (serde 2) infra rates [] [] [] at_70
      ((at_80, infra_change) ∷ []) update (record fresh { eif_url = "0x02" })
      (schedule_termination 70 0 (record fresh { eif_url = "0x02" })) true "0x02" unrecoverable refl
      refl refl

job_manager-IsWellManaged_example :
    IsWellManaged infra codec (serde 2) rates [] [] [] job 300 ("ap-south-1" ∷ []) (
      job_manager codec
        (serde 2)
        infra
        rates
        []
        []
        []
        job
        300
        ("ap-south-1" ∷ [])
        (refused
          ∷ refused
          ∷ subscribed 60 70 ((at_70, log_arrived (some opening)) ∷ (at_80, infra_change) ∷ [])
          ∷ [])
        1
        false)
job_manager-IsWellManaged_example =
    job_manager-IsWellManaged infra codec (serde 2) rates [] [] [] job 300 ("ap-south-1" ∷ [])
      (refused
        ∷ refused
        ∷ subscribed 60 70 ((at_70, log_arrived (some opening)) ∷ (at_80, infra_change) ∷ [])
        ∷ [])
      1 false (omega arith, omega arith)
