-- ===== src/Market/Logs.antt =====
-- `JobState::process_log` of market.rs: one log of the job's stream.
use oyster_monorepo.Base.{
  ℕ, String, Bool, true, false, not, Option, none, some, List, ltb, ◌==◌, if◌then◌else◌, str_eq,
}
use oyster_monorepo.Base.Int.{pos, eqb_ℤ}
use oyster_monorepo.Base.Words.{add_u256, sub_u256, saturating_to_u64}
use oyster_monorepo.Chain.{Log, Codec}
use oyster_monorepo.Market.State.{
  RegionalRates, GbRateCard, JobState, from_secs, schedule_launch, schedule_termination,
}
use oyster_monorepo.Market.Flow.{
  J, recoverable, unrecoverable, ◌>>=◌, ◌>>◌, return_with, let_some, or_terminate, modify, get,
  return_if, refuse_if, topic,
}
use oyster_monorepo.Market.Metadata.{Serde, to_i32_or}
use oyster_monorepo.Market.Opened.{process_opened}

module _ (c : Codec) where
  open c use {decode_u256, decode_u256_pair}

  unfoldable pub process_settled : Log → J (Unit {0})
  process_settled log = do
    (amount, timestamp) ← let_some (decode_u256_pair log.payload) unrecoverable
    modify (λ s. record s {
      balance = sub_u256 s.balance amount;
      last_settled = from_secs (saturating_to_u64 timestamp);
    })

  unfoldable pub process_deposited : Log → J (Unit {0})
  process_deposited log = do
    amount ← let_some (decode_u256 log.payload) unrecoverable
    modify (λ s. record s { balance = add_u256 s.balance amount })

  unfoldable pub process_withdrew : Log → J (Unit {0})
  process_withdrew log = do
    amount ← let_some (decode_u256 log.payload) unrecoverable
    modify (λ s. record s { balance = sub_u256 s.balance amount })

  abbrev pub revise_rate : ℕ → ℕ → JobState → JobState
  revise_rate now new_rate s =
      let t = record s { original_rate = s.rate; rate = new_rate } in
      if ltb t.rate t.min_rate then schedule_termination now 0 t else t

  unfoldable pub process_revise_rate_initiated : ℕ → Log → J (Unit {0})
  process_revise_rate_initiated now log = do
    new_rate ← let_some (decode_u256 log.payload) unrecoverable
    modify (revise_rate now new_rate)

  unfoldable pub process_revise_rate_cancelled : J (Unit {0})
  process_revise_rate_cancelled = modify (λ s. record s { rate = s.original_rate })

  unfoldable pub process_revise_rate_finalized : Log → J (Unit {0})
  process_revise_rate_finalized log = do
    new_rate ← let_some (decode_u256 log.payload) unrecoverable
    rate ← get (λ s. s.rate)
    return_if (not (rate == new_rate)) unrecoverable
    modify (λ s. record s { original_rate = new_rate })

-- `family.is_some() && self.family != family.unwrap()`
abbrev pub family_changed : Option String → String → Bool
family_changed none family = false
family_changed (some f) family = not (str_eq family f)

abbrev pub bool_or_false : Option Bool → Bool
bool_or_false none = false
bool_or_false (some b) = b

abbrev pub same_bool : Bool → Bool → Bool
same_bool true b = b
same_bool false b = not b

module _ {Value : Type 0} (c : Codec) (j : Serde Value) (now : ℕ) where
  open j use {from_str, as_str, as_int, as_bool}

  -- The fields that a metadata update may not change.
  abbrev pub check_unchanged : Value → J (Unit {0})
  check_unchanged v = do
    t ← or_terminate now (as_str v "instance")
    instance_type ← get (λ s. s.instance_type)
    refuse_if now (not (str_eq instance_type t))
    t ← or_terminate now (as_str v "region")
    region ← get (λ s. s.region)
    refuse_if now (not (str_eq region t))
    t ← or_terminate now (as_int v "memory")
    req_mem ← get (λ s. s.req_mem)
    refuse_if now (not (eqb_ℤ req_mem t))
    t ← or_terminate now (as_int v "vcpu")
    req_vcpus ← get (λ s. s.req_vcpus)
    refuse_if now (not (eqb_ℤ req_vcpus (to_i32_or (pos 2) t)))
    family ← get (λ s. s.family)
    refuse_if now (family_changed (as_str v "family") family)
    debug ← get (λ s. s.debug)
    refuse_if now (not (same_bool debug (bool_or_false (as_bool v "debug"))))

  unfoldable pub process_metadata_updated : Log → J (Unit {0})
  process_metadata_updated log = do
    metadata ← let_some (c.decode_string log.payload) unrecoverable
    v ← or_terminate now (from_str metadata)
    check_unchanged v
    url ← or_terminate now (as_str v "url")
    eif_url ← get (λ s. s.eif_url)
    refuse_if now (str_eq eif_url url)
    modify (λ s. schedule_launch now s.launch_delay (record s { eif_url = url; eif_update = true }))

  module _ (rates : List RegionalRates) (gb_rates : List GbRateCard)
      (whitelist blacklist : List String) where
    open c use {keccak256}

    -- The chain of tests on the first topic.
    unfoldable pub process_topic : ℕ → Log → J (Unit {0})
    process_topic t log =
        if t == keccak256 "JobOpened(bytes32,string,address,address,uint256,uint256,uint256)"
        then process_opened c j rates gb_rates whitelist blacklist now log
        else if t == keccak256 "JobSettled(bytes32,uint256,uint256)"
        then process_settled c log
        else if t == keccak256 "JobClosed(bytes32)"
        then modify (schedule_termination now 0)
        else if t == keccak256 "JobDeposited(bytes32,address,uint256)"
        then process_deposited c log
        else if t == keccak256 "JobWithdrew(bytes32,address,uint256)"
        then process_withdrew c log
        else if t == keccak256 "JobReviseRateInitiated(bytes32,uint256)"
        then process_revise_rate_initiated c now log
        else if t == keccak256 "JobReviseRateCancelled(bytes32)"
        then process_revise_rate_cancelled c
        else if t == keccak256 "JobReviseRateFinalized(bytes32,uint256)"
        then process_revise_rate_finalized c log
        else if t == keccak256 "JobMetadataUpdated(bytes32,string)"
        then process_metadata_updated log
        else return_with unrecoverable

    -- `none` is the end of the stream. A `next` at the end is the code 0.
    unfoldable pub process_log : Option Log → J (Unit {0})
    process_log none = return_with recoverable
    process_log (some log) = do t ← topic 0 log; process_topic t log
