-- ===== src/Indexer/Locks.antt =====
-- The handlers of the lock logs (contracts/indexer/src/handlers/lock_created.rs, lock_deleted.rs),
-- which keep the requests to revise a job's rate.
use oyster_monorepo.Base.{ℕ, String, ◌==◌, none, some, if◌then◌else◌}
use oyster_monorepo.Chain.{Log, Codec}
use oyster_monorepo.Indexer.Table.{lookup, insert, delete}
use oyster_monorepo.Indexer.Db.{
  ReviseRateRequest, M, ok, err, decode_failed, no_request_or_closed_job, unique_violation, ◌>>=◌,
  done, ok_or, ensure, topic, unix_time,
}

-- INSERT INTO revise_rate_requests SELECT ... FROM jobs WHERE is_closed = false AND id: the number of
-- rows inserted. An `id` that has a request already violates the primary key.
unfoldable pub insert_request : String → ReviseRateRequest → M ℕ
insert_request id r db = elim (lookup id db.jobs) [
  | none ↦ (ok 0, db)
  | some j ↦ if j.is_closed then (ok 0, db) else elim (insert id r db.revise_rate_requests) [
    | none ↦ (err unique_violation, db)
    | some t ↦ (ok 1, record db { revise_rate_requests = t })
  ]
]

unfoldable pub delete_request : String → M (Unit {0})
delete_request id db =
    (ok tt, record db { revise_rate_requests = delete id db.revise_rate_requests })

module _ (c : Codec) where
  open c use {encode_hex_with_prefix, keccak256, decode_u256_pair}

  abbrev pub rate_lock_selector : ℕ
  rate_lock_selector = keccak256 "RATE_LOCK"

  unfoldable pub create_rate_lock : Log → M (Unit {0})
  create_rate_lock log = do
    w ← topic 2 log
    (value, time) ← ok_or (decode_u256_pair log.payload) decode_failed
    timestamp ← unix_time time
    count ←
        insert_request (encode_hex_with_prefix w) (record { value = value; updates_at = timestamp })
    ensure (count == 1) no_request_or_closed_job

  unfoldable pub handle_lock_created : Log → M (Unit {0})
  unfolding create_rate_lock
  handle_lock_created log = do
    selector ← topic 1 log
    if selector == rate_lock_selector then create_rate_lock log else done

  unfoldable pub delete_rate_lock : Log → M (Unit {0})
  delete_rate_lock log = do w ← topic 2 log; delete_request (encode_hex_with_prefix w)

  unfoldable pub handle_lock_deleted : Log → M (Unit {0})
  unfolding delete_rate_lock
  handle_lock_deleted log = do
    selector ← topic 1 log
    if selector == rate_lock_selector then delete_rate_lock log else done
