-- ===== src/Market/Infra.antt =====
-- `heartbeat_check` and `change_infra` of market.rs, over an `InfraProvider`.
use oyster_monorepo.Base.{
  ℕ, String, ◌+◌, Bool, true, false, not, ◌&&◌, ◌||◌, Option, none, some, leb, if◌then◌else◌,
  str_eq,
}
use oyster_monorepo.Base.Int.{ℤ}
use oyster_monorepo.Market.State.{JobId, JobState, from_secs, schedule_launch}

-- The trait `InfraProvider`, over the state `S` of the infrastructure. `none` and `false` are errors.
-- `get_job_ip` is of the server alone.
pub record InfraProvider (S : Type 0) : Type 0 where
  pub spin_up : JobId → String → String → String → ℤ → ℤ → ℕ → S → Option String × S
  pub spin_down : String → JobId → String → S → Bool × S
  pub get_job_instance : JobId → String → S → Option (Bool × String × String) × S
  pub check_instance_running : String → String → S → Option Bool × S
  pub check_enclave_running : String → String → S → Option Bool × S
  pub run_enclave : JobId → String → String → String → String → ℤ → ℤ → ℕ → Bool → S → Bool × S
  pub update_enclave_image : String → String → String → ℤ → ℤ → S → Bool × S

module _ {S : Type 0} (infra : InfraProvider S) where
  open infra use {spin_up, spin_down, get_job_instance, check_instance_running}
  open infra use {check_enclave_running, run_enclave, update_enclave_image}

  abbrev pub run_enclave_of : JobState → S → Bool × S
  run_enclave_of s =
      run_enclave s.job_id s.instance_id s.family s.region s.eif_url s.req_vcpus s.req_mem
        s.bandwidth s.debug

  -- Errors of the provider are only traced.
  abbrev pub heartbeat_enclave : JobState → Option Bool × S → JobState × S
  heartbeat_enclave s (none, w) = (s, w)
  heartbeat_enclave s (some true, w) = (s, w)
  heartbeat_enclave s (some false, w) = let (r, w') = run_enclave_of s w in (s, w')

  abbrev pub heartbeat_instance : ℕ → JobState → Option Bool × S → JobState × S
  heartbeat_instance now s (none, w) = (s, w)
  heartbeat_instance now s (some true, w) =
      heartbeat_enclave s (check_enclave_running s.instance_id s.region w)
  heartbeat_instance now s (some false, w) =
      (if leb s.min_rate s.rate then schedule_launch now 0 s else s, w)

  unfoldable pub heartbeat_check : ℕ → JobState → S → JobState × S
  heartbeat_check now s w =
      heartbeat_instance now s (check_instance_running s.instance_id s.region w)

  -- What follows a healthy instance: an update of its image, where one is due.
  abbrev pub updated_image : JobState → Bool × S → Bool × JobState × S
  updated_image s (true, w) = (true, record s { eif_update = false }, w)
  updated_image s (false, w) = (false, s, w)

  abbrev pub keep_instance : String → JobState → S → Bool × JobState × S
  keep_instance instance_id s w =
      let t = record s { instance_id = instance_id } in
      if t.eif_update
      then updated_image t
          (update_enclave_image t.instance_id t.region t.eif_url t.req_vcpus t.req_mem w)
      else (true, t, w)

  -- A failure to run the enclave is left to the heartbeat.
  abbrev pub launched : JobState → Option String × S → Bool × JobState × S
  launched s (none, w) = (false, s, w)
  launched s (some instance_id, w) =
      let t = record s { instance_id = instance_id } in
      let (r, w') = run_enclave_of t w in (true, t, w')

  abbrev pub launch_instance : JobState → S → Bool × JobState × S
  launch_instance s w =
      launched s
        (spin_up s.job_id s.instance_type s.family s.region s.req_mem s.req_vcpus s.bandwidth w)

  abbrev pub relaunch : JobState → Bool × S → Bool × JobState × S
  relaunch s (true, w) = launch_instance s w
  relaunch s (false, w) = (false, s, w)

  abbrev pub launch_mode : Bool → String → String → JobState → S → Bool × JobState × S
  launch_mode exist instance_id state s w =
      if exist && (str_eq state "pending" || str_eq state "running")
      then keep_instance instance_id s w
      else if exist && (str_eq state "stopping" || str_eq state "stopped")
      then relaunch s (spin_down instance_id s.job_id s.region w)
      else launch_instance s w

  abbrev pub terminated : JobState → Bool × S → Bool × JobState × S
  terminated s (r, w) = (r, s, w)

  abbrev pub terminate_mode : Bool → String → String → JobState → S → Bool × JobState × S
  terminate_mode exist instance_id state s w =
      if not exist || (str_eq state "shutting-down" || str_eq state "terminated")
      then (true, s, w)
      else terminated s (spin_down instance_id s.job_id s.region w)

  abbrev pub with_instance : JobState → Option (Bool × String × String) × S → Bool × JobState × S
  with_instance s (none, w) = (false, s, w)
  with_instance s (some (exist, instance_id, state), w) =
      if s.infra_state
      then launch_mode exist instance_id state s w
      else terminate_mode exist instance_id state s w

  unfoldable pub change_infra_impl : JobState → S → Bool × JobState × S
  change_infra_impl s w = with_instance s (get_job_instance s.job_id s.region w)

  -- `Instant::now() + 2s` after a failure.
  abbrev pub reschedule : ℕ → Bool × JobState × S → Bool × JobState × S
  reschedule now (true, s, w) = (true, record s { infra_change_scheduled = false }, w)
  reschedule now (false, s, w) = (false, record s { infra_change_time = now + from_secs 2 }, w)

  unfoldable pub change_infra : ℕ → JobState → S → Bool × JobState × S
  unfolding change_infra_impl
  change_infra now s w = reschedule now (change_infra_impl s w)
