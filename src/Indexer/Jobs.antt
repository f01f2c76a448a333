-- ===== src/Indexer/Jobs.antt =====
-- The handlers of the jobs' logs (contracts/indexer/src/handlers/job_*.rs).
use oyster_monorepo.Base.{ℕ, String, Bool, true, false, not, ◌==◌}
use oyster_monorepo.Base.Int.{pos, ◌+ℤ◌, ◌-ℤ◌, as_i64}
use oyster_monorepo.Chain.{Log, Codec}
use oyster_monorepo.Indexer.Db.{
  Job, Transaction, M, decode_failed, no_block, no_index, no_tx_hash, could_not_find_job, ◌>>=◌,
  ◌>>◌, done, pure, ok_or, ensure, topic, unix_time, update_jobs, insert_job, insert_transaction,
}

-- WHERE is_closed = false
abbrev pub is_open : Job → Bool
is_open j = not j.is_closed

-- The columns that each UPDATE sets.
abbrev pub close : Job → Job
close j = record j { is_closed = true }

abbrev pub deposit : ℕ → Job → Job
deposit amount j = record j { balance = j.balance +ℤ pos amount }

abbrev pub withdraw : ℕ → Job → Job
withdraw amount j = record j { balance = j.balance -ℤ pos amount }

abbrev pub settle : ℕ → ℕ → Job → Job
settle amount timestamp j = record j { balance = j.balance -ℤ pos amount; last_settled = timestamp }

abbrev pub set_rate : ℕ → Job → Job
set_rate rate j = record j { rate = rate }

abbrev pub set_metadata : String → Job → Job
set_metadata metadata j = record j { metadata = metadata }

-- UPDATE jobs SET f WHERE id AND is_closed = false, and the check of the count.
unfoldable pub update_open_job : String → (Job → Job) → M (Unit {0})
update_open_job id f = do count ← update_jobs id is_open f; ensure (count == 1) could_not_find_job

-- The row of `transactions` that a log of job `id` makes.
abbrev pub transaction_row : ℕ × ℕ × String → String → ℕ → Bool → Transaction
transaction_row (block, idx, tx_hash) id amount is_deposit = record {
  block = as_i64 block;
  idx = as_i64 idx;
  tx_hash = tx_hash;
  job = id;
  amount = amount;
  is_deposit = is_deposit;
}

abbrev pub new_job : String → String → String → ℕ → ℕ → ℕ → Job
new_job metadata owner provider rate balance timestamp = record {
  metadata = metadata;
  owner = owner;
  provider = provider;
  rate = rate;
  balance = pos balance;
  last_settled = timestamp;
  created = timestamp;
  is_closed = false;
}

module _ (c : Codec) where
  open c use {encode_hex_with_prefix, to_checksum, decode_u256, decode_string}
  open c use {decode_u256_pair, decode_job_opened}

  -- Where a log stands in the chain: `block_number`, `log_index` and `transaction_hash`.
  abbrev pub log_position : Log → M (ℕ × ℕ × String)
  log_position log = do
    block ← ok_or log.block_number no_block
    idx ← ok_or log.log_index no_index
    tx_hash ← ok_or log.transaction_hash no_tx_hash
    pure (block, idx, encode_hex_with_prefix tx_hash)

  unfoldable pub handle_job_opened : Log → M (Unit {0})
  handle_job_opened log = do
    w ← topic 1 log
    let id = encode_hex_with_prefix w
    owner ← topic 2 log
    provider ← topic 3 log
    (metadata, rate, balance, time) ← ok_or (decode_job_opened log.payload) decode_failed
    timestamp ← unix_time time
    position ← log_position log
    insert_job id
        (new_job metadata (to_checksum owner) (to_checksum provider) rate balance timestamp)
    insert_transaction (transaction_row position id balance true)

  unfoldable pub handle_job_settled : Log → M (Unit {0})
  handle_job_settled log = do
    w ← topic 1 log
    (amount, time) ← ok_or (decode_u256_pair log.payload) decode_failed
    timestamp ← unix_time time
    update_open_job (encode_hex_with_prefix w) (settle amount timestamp)

  unfoldable pub handle_job_closed : Log → M (Unit {0})
  handle_job_closed log = do w ← topic 1 log; update_open_job (encode_hex_with_prefix w) close

  unfoldable pub handle_job_deposited : Log → M (Unit {0})
  handle_job_deposited log = do
    w ← topic 1 log
    let id = encode_hex_with_prefix w
    amount ← ok_or (decode_u256 log.payload) decode_failed
    position ← log_position log
    update_open_job id (deposit amount)
    insert_transaction (transaction_row position id amount true)

  unfoldable pub handle_job_withdrew : Log → M (Unit {0})
  handle_job_withdrew log = do
    w ← topic 1 log
    let id = encode_hex_with_prefix w
    amount ← ok_or (decode_u256 log.payload) decode_failed
    position ← log_position log
    update_open_job id (withdraw amount)
    insert_transaction (transaction_row position id amount false)

  unfoldable pub handle_job_revise_rate_initiated : Log → M (Unit {0})
  handle_job_revise_rate_initiated log = done

  unfoldable pub handle_job_revise_rate_cancelled : Log → M (Unit {0})
  handle_job_revise_rate_cancelled log = done

  unfoldable pub handle_job_revise_rate_finalized : Log → M (Unit {0})
  handle_job_revise_rate_finalized log = do
    w ← topic 1 log
    rate ← ok_or (decode_u256 log.payload) decode_failed
    update_open_job (encode_hex_with_prefix w) (set_rate rate)

  unfoldable pub handle_job_metadata_updated : Log → M (Unit {0})
  handle_job_metadata_updated log = do
    w ← topic 1 log
    metadata ← ok_or (decode_string log.payload) decode_failed
    update_open_job (encode_hex_with_prefix w) (set_metadata metadata)
