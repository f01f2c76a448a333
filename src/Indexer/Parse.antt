-- ===== src/Indexer/Parse.antt =====
-- The specification of the handlers' reading: a log is parsed to a message, or to the error or the
-- panic of its handler, without the database.
use oyster_monorepo.Base.{
  ℕ, String, ◌^◌, ◌%◌, Bool, true, false, Option, none, some, ltb, ◌==◌, if◌then◌else◌, get_elem?,
  List, [], ◌∷◌,
}
use oyster_monorepo.Chain.{Log, Codec}
use oyster_monorepo.Indexer.Db.{
  Error, Outcome, ok, err, panic, no_topic0, decode_failed, no_block, no_index, no_tx_hash,
}
use oyster_monorepo.Indexer.Jobs.{transaction_row, new_job}
use oyster_monorepo.Indexer.Locks.{rate_lock_selector}
use oyster_monorepo.Indexer.Message.{
  Message, Column, closed, nothing, add_provider, remove_provider, update_provider, open_job,
  update_job, settle_job, move_funds, create_lock, delete_lock,
}
use oyster_monorepo.Indexer.Dispatch.{
  Event, provider_added, provider_removed, provider_updated_with_cp, job_opened, job_settled,
  job_closed, job_deposited, job_withdrew, job_revise_rate_initiated, job_revise_rate_cancelled,
  job_revise_rate_finalized, job_metadata_updated, lock_created, lock_deleted, event_topic,
}

infixl 5 ◌>>=◌
abbrev pub ◌>>=◌ : {A B : Type 0} → Outcome A → (A → Outcome B) → Outcome B
ok a >>= f = f a
err e >>= f = err e
panic >>= f = panic

abbrev pub get_topic : ℕ → Log → Outcome ℕ
get_topic n log = elim (get_elem? log.topics n) [ none ↦ panic | some w ↦ ok w ]

abbrev pub require : {A : Type 0} → Option A → Error → Outcome A
require none e = err e
require (some a) e = ok a

abbrev pub seconds : ℕ → Outcome ℕ
seconds t = let secs = t % 2 ^ 64 in if ltb secs (2 ^ 63) then ok secs else panic

-- The events in the order in which `handle_log` tests for them.
abbrev pub events : List Event
events =
    provider_added ∷ provider_removed ∷ provider_updated_with_cp ∷ job_opened ∷ job_settled
    ∷ job_closed ∷ job_deposited ∷ job_withdrew ∷ job_revise_rate_initiated
    ∷ job_revise_rate_cancelled ∷ job_revise_rate_finalized ∷ job_metadata_updated ∷ lock_created
    ∷ lock_deleted ∷ []

module _ (c : Codec) where
  open c use {encode_hex_with_prefix, to_checksum, decode_u256, decode_string}
  open c use {decode_u256_pair, decode_job_opened}

  abbrev pub position : Log → Outcome (ℕ × ℕ × String)
  position log = do
    block ← require log.block_number no_block
    idx ← require log.log_index no_index
    tx_hash ← require log.transaction_hash no_tx_hash
    ok (block, idx, encode_hex_with_prefix tx_hash)

  abbrev pub parse_funds : Bool → Log → Outcome Message
  parse_funds is_deposit log = do
    w ← get_topic 1 log
    amount ← require (decode_u256 log.payload) decode_failed
    at ← position log
    let id = encode_hex_with_prefix w
    ok (move_funds id (transaction_row at id amount is_deposit))

  abbrev pub parse_rate_lock : Log → Outcome Message
  parse_rate_lock log = do
    w ← get_topic 2 log
    (value, time) ← require (decode_u256_pair log.payload) decode_failed
    secs ← seconds time
    ok (create_lock (encode_hex_with_prefix w) (record { value = value; updates_at = secs }))

  abbrev pub parse_unlock : Log → Outcome Message
  parse_unlock log = do w ← get_topic 2 log; ok (delete_lock (encode_hex_with_prefix w))

  unfoldable pub parse_event : Event → Log → Outcome Message
  parse_event provider_added log = do
    w ← get_topic 1 log
    cp ← require (decode_string log.payload) decode_failed
    ok (add_provider (to_checksum w) cp)
  parse_event provider_removed log = do w ← get_topic 1 log; ok (remove_provider (to_checksum w))
  parse_event provider_updated_with_cp log = do
    w ← get_topic 1 log
    cp ← require (decode_string log.payload) decode_failed
    ok (update_provider (to_checksum w) cp)
  parse_event job_opened log = do
    w ← get_topic 1 log
    owner ← get_topic 2 log
    provider ← get_topic 3 log
    (metadata, rate, balance, time) ← require (decode_job_opened log.payload) decode_failed
    secs ← seconds time
    at ← position log
    let id = encode_hex_with_prefix w
    let j = new_job metadata (to_checksum owner) (to_checksum provider) rate balance secs
    ok (open_job id j (transaction_row at id balance true))
  parse_event job_settled log = do
    w ← get_topic 1 log
    (amount, time) ← require (decode_u256_pair log.payload) decode_failed
    secs ← seconds time
    ok (settle_job (encode_hex_with_prefix w) amount secs)
  parse_event job_closed log = do
    w ← get_topic 1 log
    ok (update_job (encode_hex_with_prefix w) closed)
  parse_event job_deposited log = parse_funds true log
  parse_event job_withdrew log = parse_funds false log
  parse_event job_revise_rate_initiated log = ok nothing
  parse_event job_revise_rate_cancelled log = ok nothing
  parse_event job_revise_rate_finalized log = do
    w ← get_topic 1 log
    rate ← require (decode_u256 log.payload) decode_failed
    ok (update_job (encode_hex_with_prefix w) (Column.rate rate))
  parse_event job_metadata_updated log = do
    w ← get_topic 1 log
    metadata ← require (decode_string log.payload) decode_failed
    ok (update_job (encode_hex_with_prefix w) (Column.metadata metadata))
  parse_event lock_created log = do
    selector ← get_topic 1 log
    if selector == rate_lock_selector c then parse_rate_lock log else ok nothing
  parse_event lock_deleted log = do
    selector ← get_topic 1 log
    if selector == rate_lock_selector c then parse_unlock log else ok nothing

  -- The event of a topic: the first in the order of `handle_log`.
  abbrev pub first_match : ℕ → List Event → Option Event
  first_match t [] = none
  first_match t (e ∷ es) = if t == event_topic c e then some e else first_match t es

  unfoldable pub event_of : ℕ → Option Event
  event_of t = first_match t events

  abbrev pub parse_known : Option Event → Log → Outcome Message
  parse_known none log = ok nothing
  parse_known (some e) log = parse_event e log

  unfoldable pub parse : Log → Outcome Message
  parse log = do t ← require (get_elem? log.topics 0) no_topic0; parse_known (event_of t) log
