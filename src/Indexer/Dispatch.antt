-- ===== src/Indexer/Dispatch.antt =====
-- The dispatch on a log's first topic (contracts/indexer/src/handlers/mod.rs).
use oyster_monorepo.Base.{ℕ, String, List, [], ◌∷◌, ◌==◌, if◌then◌else◌, get_elem?}
use oyster_monorepo.Chain.{Log, Codec}
use oyster_monorepo.Indexer.Db.{M, no_topic0, ◌>>=◌, ◌>>◌, done, ok_or}
use oyster_monorepo.Indexer.Providers.{
  handle_provider_added, handle_provider_removed, handle_provider_updated_with_cp,
}
use oyster_monorepo.Indexer.Jobs.{
  handle_job_opened, handle_job_settled, handle_job_closed, handle_job_deposited,
  handle_job_withdrew, handle_job_revise_rate_initiated, handle_job_revise_rate_cancelled,
  handle_job_revise_rate_finalized, handle_job_metadata_updated,
}
use oyster_monorepo.Indexer.Locks.{handle_lock_created, handle_lock_deleted}

-- The events whose logs have a handler.
pub data Event : Type 0 where
  provider_added provider_removed provider_updated_with_cp : Event
  job_opened job_settled job_closed job_deposited job_withdrew : Event
  job_revise_rate_initiated job_revise_rate_cancelled job_revise_rate_finalized : Event
  job_metadata_updated lock_created lock_deleted : Event

-- The argument of `event!` in the event's static.
abbrev pub signature : Event → String
signature provider_added = "ProviderAdded(address,string)"
signature provider_removed = "ProviderRemoved(address)"
signature provider_updated_with_cp = "ProviderUpdatedWithCp(address,string)"
signature job_opened = "JobOpened(bytes32,string,address,address,uint256,uint256,uint256)"
signature job_settled = "JobSettled(bytes32,uint256,uint256)"
signature job_closed = "JobClosed(bytes32)"
signature job_deposited = "JobDeposited(bytes32,address,uint256)"
signature job_withdrew = "JobWithdrew(bytes32,address,uint256)"
signature job_revise_rate_initiated = "JobReviseRateInitiated(bytes32,uint256)"
signature job_revise_rate_cancelled = "JobReviseRateCancelled(bytes32)"
signature job_revise_rate_finalized = "JobReviseRateFinalized(bytes32,uint256)"
signature job_metadata_updated = "JobMetadataUpdated(bytes32,string)"
signature lock_created = "LockCreated(bytes32,bytes32,uint256,uint256)"
signature lock_deleted = "LockDeleted(bytes32,bytes32,uint256)"

module _ (c : Codec) where
  abbrev pub event_topic : Event → ℕ
  event_topic e = c.keccak256 (signature e)

  -- Logs of the ignored and of the unknown types are skipped alike; they differ in what is traced.
  unfoldable pub dispatch : ℕ → Log → M (Unit {0})
  dispatch t log =
      if t == event_topic provider_added
      then handle_provider_added c log
      else if t == event_topic provider_removed
      then handle_provider_removed c log
      else if t == event_topic provider_updated_with_cp
      then handle_provider_updated_with_cp c log
      else if t == event_topic job_opened
      then handle_job_opened c log
      else if t == event_topic job_settled
      then handle_job_settled c log
      else if t == event_topic job_closed
      then handle_job_closed c log
      else if t == event_topic job_deposited
      then handle_job_deposited c log
      else if t == event_topic job_withdrew
      then handle_job_withdrew c log
      else if t == event_topic job_revise_rate_initiated
      then handle_job_revise_rate_initiated c log
      else if t == event_topic job_revise_rate_cancelled
      then handle_job_revise_rate_cancelled c log
      else if t == event_topic job_revise_rate_finalized
      then handle_job_revise_rate_finalized c log
      else if t == event_topic job_metadata_updated
      then handle_job_metadata_updated c log
      else if t == event_topic lock_created
      then handle_lock_created c log
      else if t == event_topic lock_deleted
      then handle_lock_deleted c log
      else done

  unfoldable pub handle_log : Log → M (Unit {0})
  handle_log log = do t ← ok_or (get_elem? log.topics 0) no_topic0; dispatch t log

  -- `for log in logs { handle_log(conn, log)?; }`
  unfoldable pub handle_logs : List Log → M (Unit {0})
  handle_logs [] = done
  handle_logs (log ∷ logs) = handle_log log >> handle_logs logs
