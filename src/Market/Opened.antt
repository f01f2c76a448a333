-- ===== src/Market/Opened.antt =====
-- The JobOpened branch of `JobState::process_log` and the address lists.
use oyster_monorepo.Base.{
  ℕ, String, ◌*◌, ◌/◌, Bool, true, false, not, ◌||◌, Option, none, some, List, [], ◌∷◌, leb, ◌==◌,
  if◌then◌else◌, str_eq,
}
use oyster_monorepo.Base.Words.{sub_u256, saturating_mul_u256, saturating_to_u64}
use oyster_monorepo.Chain.{Log, Codec}
use oyster_monorepo.Market.State.{
  RateCard, RegionalRates, GbRateCard, from_secs, schedule_launch, schedule_termination,
}
use oyster_monorepo.Market.Flow.{
  J, unrecoverable, not_allowed, ◌>>=◌, ◌>>◌, pure, return_with, crash, let_some, modify, get,
  return_if, topic,
}
use oyster_monorepo.Market.Metadata.{Serde, i32_max, to_i32_or}

abbrev pub contains : String → List String → Bool
contains s [] = false
contains s (x ∷ xs) = str_eq x s || contains s xs

abbrev pub is_empty : List String → Bool
is_empty [] = true
is_empty (x ∷ xs) = false

abbrev pub is_listed : Codec → Log → List String → J Bool
is_listed c log list = do owner ← topic 2 log; pure (contains (c.encode_hex_with_prefix owner) list)

abbrev pub blacklist_check : Codec → Log → List String → J Bool
blacklist_check c log [] = pure true
blacklist_check c log (a ∷ rest) = do listed ← is_listed c log (a ∷ rest); pure (not listed)

unfoldable pub whitelist_blacklist_check : Codec → Log → List String → List String → J Bool
whitelist_blacklist_check c log [] blacklist = blacklist_check c log blacklist
whitelist_blacklist_check c log (a ∷ rest) blacklist = do
  listed ← is_listed c log (a ∷ rest)
  if listed then blacklist_check c log blacklist else pure false

-- The first card of the instance type among the cards of a region.
abbrev pub find_card : String → List RateCard → Option ℕ
find_card instance_type [] = none
find_card instance_type (card ∷ cards) =
    if str_eq card.instance_type instance_type
    then some card.min_rate
    else find_card instance_type cards

-- The loop over the rates: the first entry of the region decides.
unfoldable pub find_min_rate : String → String → List RegionalRates → Option ℕ
find_min_rate region instance_type [] = none
find_min_rate region instance_type (entry ∷ rates) =
    if str_eq entry.region region
    then find_card instance_type entry.rate_cards
    else find_min_rate region instance_type rates

-- The loop over the bandwidth rates: the first entry of the region's code.
abbrev pub find_gb_rate : String → List GbRateCard → Option ℕ
find_gb_rate region [] = none
find_gb_rate region (entry ∷ rates) =
    if str_eq entry.region_code region then some entry.rate else find_gb_rate region rates

abbrev pub gb_scale : ℕ
gb_scale = 1024 * 1024 * 8

-- What the rate above the minimum buys. A division by zero panics.
abbrev pub set_bandwidth : Option ℕ → J (Unit {0})
set_bandwidth none s = pure tt s
set_bandwidth (some gb_cost) s =
    if gb_cost == 0
    then crash s
    else modify
        (λ s. record s {
          bandwidth =
              saturating_to_u64
                (saturating_mul_u256 (sub_u256 s.rate s.min_rate) gb_scale / gb_cost);
        })
        s

-- `launch only if rate is more than min`
unfoldable pub launch_or_terminate : List GbRateCard → ℕ → J (Unit {0})
launch_or_terminate gb_rates now s =
    if leb s.min_rate s.rate
    then (set_bandwidth (find_gb_rate s.region gb_rates)
          >> modify (λ s. schedule_launch now s.launch_delay s))
        s
    else modify (schedule_termination now 0) s

abbrev pub or_keep : {A : Type 0} → Option A → A → A
or_keep none a = a
or_keep (some b) a = b

module _ {Value : Type 0} (c : Codec) (j : Serde Value) (rates : List RegionalRates)
    (gb_rates : List GbRateCard) (whitelist blacklist : List String) (now : ℕ) where
  open j use {from_str, as_str, as_int, as_bool}

  abbrev pub read_opened : Value → J (Unit {0})
  read_opened v = do
    instance_type ← let_some (as_str v "instance") unrecoverable
    modify (λ s. record s { instance_type = instance_type })
    region ← let_some (as_str v "region") unrecoverable
    modify (λ s. record s { region = region })
    allowed_regions ← get (λ s. s.allowed_regions)
    return_if (not (contains region allowed_regions)) unrecoverable
    memory ← let_some (as_int v "memory") unrecoverable
    modify (λ s. record s { req_mem = memory })
    vcpu ← let_some (as_int v "vcpu") unrecoverable
    modify (λ s. record s { req_vcpus = to_i32_or i32_max vcpu })
    url ← let_some (as_str v "url") unrecoverable
    modify (λ s. record s {
      eif_url = url;
      family = or_keep (as_str v "family") s.family;
      debug = or_keep (as_bool v "debug") s.debug;
    })

  abbrev pub admit : Log → J (Unit {0})
  admit log = do
    allowed ← whitelist_blacklist_check c log whitelist blacklist
    if allowed then pure tt else modify (schedule_termination now 0) >> return_with not_allowed

  abbrev pub price : J (Unit {0})
  price = do
    region ← get (λ s. s.region)
    instance_type ← get (λ s. s.instance_type)
    min_rate ← let_some (find_min_rate region instance_type rates) unrecoverable
    modify (λ s. record s { min_rate = min_rate })
    launch_or_terminate gb_rates now

  unfoldable pub process_opened : Log → J (Unit {0})
  process_opened log = do
    (metadata, rate, balance, timestamp) ← let_some (c.decode_job_opened log.payload) unrecoverable
    modify (λ s. record s {
      balance = balance;
      rate = rate;
      original_rate = rate;
      last_settled = from_secs (saturating_to_u64 timestamp);
    })
    v ← let_some (from_str metadata) unrecoverable
    read_opened v
    admit log
    price
