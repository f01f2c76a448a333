-- ===== src/Indexer/Outcomes.antt =====
-- The outcome of single handlers, on every branch.
use oyster_monorepo.Base.{
  ℕ, String, ◌<◌, ◌^◌, ◌≡◌, Bool, true, false, not, Option, none, some, arith, ◌==◌, if◌then◌else◌,
  ◌∷◌, str_eq, eq_iff, get_elem?,
}
use oyster_monorepo.Chain.{Log, Codec}
use oyster_monorepo.Indexer.Table.{lookup, insert, update_where_count, IsKeyed, lookup-update_where}
use oyster_monorepo.Indexer.Db.{
  Provider, Job, ReviseRateRequest, Db, Outcome, ok, err, panic, existing_provider, insert_job,
  insert_transaction, has_key, unique_violation, no_request_or_closed_job, unix_time, ensure,
  update_providers, ◌>>=◌,
}
use oyster_monorepo.Indexer.Providers.{upsert_provider, handle_provider_added}
use oyster_monorepo.Indexer.Jobs.{handle_job_opened, new_job, transaction_row}
use oyster_monorepo.Indexer.Locks.{insert_request, rate_lock_selector, handle_lock_created}

-- Adding a provider: refused where it is active, and else it is active with the log's `cp`.
abbrev pub added_result :
    String → String → Db → Option Provider → Outcome (Unit {0}) × Option Provider
added_result id cp db none = (ok tt, some (record { cp = cp; is_active = true }))
added_result id cp db (some p) =
    if p.is_active
    then (err existing_provider, some p)
    else (ok tt, some (record { cp = cp; is_active = true }))

abbrev pub is_ok : Outcome (Unit {0}) → Bool
is_ok (ok a) = true
is_ok (err e) = false
is_ok panic = false

abbrev reactivate : String → Provider → Provider
reactivate cp p = record p { is_active = true; cp = cp }

module _ (id cp other : String) (db : Db) (keyed : IsKeyed db.providers) where
  added : Outcome (Unit {0}) × Db
  added = (upsert_provider id cp >>= λ count. ensure (count == 1) existing_provider) db

  added_self :
      (added.0, lookup id added.1.providers) ≡ added_result id cp db (lookup id db.providers)
  unfolding added upsert_provider update_providers
  added_self = ground (
    arith,
    eq_iff id id,
    lookup-update_where id id (λ p. not p.is_active) (reactivate cp) db.providers,
    update_where_count id (λ p. not p.is_active) (reactivate cp) db.providers keyed,
  )

  added_other : str_eq id other ≡ false → lookup other added.1.providers ≡ lookup other db.providers
  unfolding added upsert_provider update_providers
  added_other n = ground (
    arith,
    eq_iff other id,
    eq_iff id other,
    lookup-update_where id other (λ p. not p.is_active) (reactivate cp) db.providers,
  )

-- Where each provider has one row, and for a log that can be read: adding provider `id` succeeds
-- unless it is there and active. It is then active with the new `cp`; on a refusal it stays as it
-- was, and another provider is not touched in either case.
pub handle_provider_added_lem :
    (c : Codec) (log : Log) (db : Db) (w : ℕ) (cp other : String)
    → IsKeyed db.providers
    → get_elem? log.topics 1 ≡ some w
    → c.decode_string log.payload ≡ some cp
    → str_eq (c.to_checksum w) other ≡ false
    → let (r, d) = handle_provider_added c log db in
      let id = c.to_checksum w in
      ((r, lookup id d.providers) ≡ added_result id cp db (lookup id db.providers))
      × (lookup other d.providers ≡ lookup other db.providers)
unfolding handle_provider_added added
handle_provider_added_lem c log db w cp other keyed at decoded apart =
    rw (at, decoded, handle_provider_added)
      (
        added_self (c.to_checksum w) cp other db keyed,
        added_other (c.to_checksum w) cp other db keyed apart,
      )

-- How opening a job ends, by the row that is there under its id and by whether the log's place is taken.
abbrev pub opened_result : Option Job → Bool → Outcome (Unit {0})
opened_result (some old) taken = err unique_violation
opened_result none taken = if taken then err unique_violation else ok tt

abbrev pub or_new : Option Job → Job → Job
or_new (some old) new = old
or_new none new = new

-- For a JobOpened log that can be read, with a time below 2 ^ 63: the job is opened exactly where its id
-- is new and no transaction has the log's block and index, whatever the providers are and whether or
-- not the log's provider is one of them. Its row is then the log's, with all of the balance, and the
-- deposit of it is put in front of the transactions; on a refusal the transactions stay, a job that was
-- there stays as it was, and in either case no other job and no provider is touched.
pub handle_job_opened_lem :
    (c : Codec) (log : Log) (db : Db) (w owner provider rate balance time block idx hash : ℕ)
    (metadata other : String)
    → get_elem? log.topics 1 ≡ some w
    → get_elem? log.topics 2 ≡ some owner
    → get_elem? log.topics 3 ≡ some provider
    → c.decode_job_opened log.payload ≡ some (metadata, rate, balance, time)
    → time < 2 ^ 63
    → log.block_number ≡ some block
    → log.log_index ≡ some idx
    → log.transaction_hash ≡ some hash
    → str_eq (c.encode_hex_with_prefix w) other ≡ false
    → let (o, d) = handle_job_opened c log db in
      let id = c.encode_hex_with_prefix w in
      let new = new_job metadata (c.to_checksum owner) (c.to_checksum provider) rate balance time in
      let row = transaction_row (block, idx, c.encode_hex_with_prefix hash) id balance true in
      (o ≡ opened_result (lookup id db.jobs) (has_key row db.transactions))
      × (lookup id d.jobs ≡ some (or_new (lookup id db.jobs) new))
      × (d.transactions ≡ (if is_ok o then row ∷ db.transactions else db.transactions))
      × (lookup other d.jobs ≡ lookup other db.jobs)
      × (d.providers ≡ db.providers)
unfolding handle_job_opened unix_time insert_job insert_transaction insert
handle_job_opened_lem c log db w owner provider rate balance time block idx hash metadata other t1
      t2 t3 decoded fits b i h apart =
    let id = c.encode_hex_with_prefix w in ground (arith, eq_iff id id)

-- A rate lock is created exactly for an open job with no lock yet.
abbrev pub lock_result : Option Job → Option ReviseRateRequest → Outcome (Unit {0})
lock_result none r = err no_request_or_closed_job
lock_result (some j) none = if j.is_closed then err no_request_or_closed_job else ok tt
lock_result (some j) (some q) =
    if j.is_closed then err no_request_or_closed_job else err unique_violation

-- A LockCreated log of the rate lock that can be read, with a time below 2 ^ 63, makes a request
-- exactly where the job is there, is open and has none. The request is then the log's; a refusal
-- leaves what was there.
pub handle_lock_created_lem :
    (c : Codec) (log : Log) (db : Db) (w value time : ℕ)
    → get_elem? log.topics 1 ≡ some (rate_lock_selector c)
    → get_elem? log.topics 2 ≡ some w
    → c.decode_u256_pair log.payload ≡ some (value, time)
    → time < 2 ^ 63
    → let (o, d) = handle_lock_created c log db in
      let id = c.encode_hex_with_prefix w in
      let old = lookup id db.revise_rate_requests in
      (o ≡ lock_result (lookup id db.jobs) old)
      × (lookup id d.revise_rate_requests
          ≡ (if is_ok o then some (record { value = value; updates_at = time }) else old))
unfolding handle_lock_created unix_time insert_request insert
handle_lock_created_lem c log db w value time sel at decoded fits =
    let id = c.encode_hex_with_prefix w in ground (arith, eq_iff id id)
