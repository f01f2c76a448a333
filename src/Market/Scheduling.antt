-- ===== src/Market/Scheduling.antt =====
-- When a job's instance is launched and terminated, log by log.
use oyster_monorepo.Base.{
  ℕ, String, ◌≤◌, ◌<◌, ◌^◌, ◌≡◌, ◌⊎◌, ◌≢◌, true, false, not, ◌&&◌, ◌||◌, some, List, [], ◌∷◌, arith,
  get_elem?,
}
use oyster_monorepo.Base.Int.{pos}
use oyster_monorepo.Chain.{Log, Codec}
use oyster_monorepo.Market.State.{
  RegionalRates, GbRateCard, JobState, schedule_launch, schedule_termination,
}
use oyster_monorepo.Market.Flow.{ReturnCode, unrecoverable, next, exit}
use oyster_monorepo.Market.Metadata.{Serde, i32_max, to_i32_or}
use oyster_monorepo.Market.Opened.{
  contains, is_empty, whitelist_blacklist_check, find_min_rate, launch_or_terminate, process_opened,
}
use oyster_monorepo.Market.Logs.{process_metadata_updated}

-- For a log with an owner among its topics: the owner passes exactly where it is on a whitelist
-- that has entries, and not on the blacklist.
pub whitelist_blacklist_check_lem :
    (c : Codec) (log : Log) (whitelist blacklist : List String) (s : JobState) (owner : ℕ)
    → get_elem? log.topics 2 ≡ some owner
    → let a = c.encode_hex_with_prefix owner in
      whitelist_blacklist_check c log whitelist blacklist s
      ≡ next ((is_empty whitelist || contains a whitelist) && not (contains a blacklist)) s
unfolding whitelist_blacklist_check
whitelist_blacklist_check_lem c log [] [] s owner h = ground arith
whitelist_blacklist_check_lem c log [] (b ∷ bs) s owner h = ground arith
whitelist_blacklist_check_lem c log (a ∷ rest) [] s owner h = ground arith
whitelist_blacklist_check_lem c log (a ∷ rest) (b ∷ bs) s owner h = ground arith

-- A termination that is scheduled.
abbrev pub IsTerminating : JobState → Type 0
IsTerminating s = (s.infra_change_scheduled ≡ true) × (s.infra_state ≡ false)

-- A launch that is scheduled.
abbrev pub IsLaunching : JobState → Type 0
IsLaunching s = (s.infra_change_scheduled ≡ true) × (s.infra_state ≡ true)

module _ {Value : Type 0} (c : Codec) (j : Serde Value) (now : ℕ) where
  -- A JobOpened log that goes through has an allowed region and an instance type with a rate card, the
  -- card's minimum is kept, and the rate decides between a launch and a termination.
  pub process_opened_lem :
      (rates : List RegionalRates) (gb_rates : List GbRateCard) (whitelist blacklist : List String)
      (log : Log) (s : JobState) {s' : JobState}
      → process_opened c j rates gb_rates whitelist blacklist now log s ≡ next tt s'
      → (contains s'.region s.allowed_regions ≡ true)
        × (find_min_rate s'.region s'.instance_type rates ≡ some s'.min_rate)
        × (s'.original_rate ≡ s'.rate)
        × (((s'.min_rate ≤ s'.rate) × IsLaunching s')
            ⊎ ((s'.rate < s'.min_rate) × IsTerminating s'))
  unfolding process_opened launch_or_terminate schedule_launch schedule_termination
      whitelist_blacklist_check
  process_opened_lem rates gb_rates whitelist blacklist log s h = ground arith

  -- Every metadata update that is accepted schedules a launch and an update of the image, whatever the
  -- rate is and whatever was scheduled before.
  pub process_metadata_updated_launches :
      (log : Log) (s : JobState) {s' : JobState}
      → process_metadata_updated c j now log s ≡ next tt s'
      → IsLaunching s' × (s'.eif_update ≡ true) × (s'.rate ≡ s.rate) × (s'.min_rate ≡ s.min_rate)
  unfolding process_metadata_updated schedule_launch schedule_termination
  process_metadata_updated_launches log s h = ground arith

  -- Every metadata update that is read and refused schedules a termination and returns -2.
  pub process_metadata_updated_refused :
      (log : Log) (s : JobState) (metadata : String) {e : ReturnCode} {s' : JobState}
      → c.decode_string log.payload ≡ some metadata
      → process_metadata_updated c j now log s ≡ exit e s'
      → (e ≡ unrecoverable) × IsTerminating s'
  unfolding process_metadata_updated schedule_launch schedule_termination
  process_metadata_updated_refused log s metadata d h = ground arith

  -- Where a job has the vCPUs that opening it with more than an i32 holds leaves it with, no metadata
  -- update that can be read and repeats the same number is accepted.
  pub vcpu_out_of_range_refused :
      (log : Log) (s : JobState) (metadata : String) (v : Value) (vcpu : ℕ)
      → c.decode_string log.payload ≡ some metadata
      → j.from_str metadata ≡ some v
      → j.as_int v "vcpu" ≡ some (pos vcpu)
      → 2 ^ 31 ≤ vcpu
      → s.req_vcpus ≡ to_i32_or i32_max (pos vcpu)
      → (s' : JobState) → process_metadata_updated c j now log s ≢ next tt s'
  unfolding process_metadata_updated schedule_launch schedule_termination to_i32_or
  vcpu_out_of_range_refused log s metadata v vcpu d f a big kept s' h = ground arith
