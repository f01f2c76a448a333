-- ===== src/Indexer/Message.antt =====
-- The specification of the handlers' writes: the messages that a log can carry, and what applying
-- one does to the database.
use oyster_monorepo.Base.{ℕ, String, false, ◌==◌, if◌then◌else◌}
use oyster_monorepo.Indexer.Db.{
  Job, ReviseRateRequest, Transaction, M, existing_provider, bad_count, no_request_or_closed_job,
  ◌>>=◌, ◌>>◌, ensure, done, update_providers, insert_job, insert_transaction,
}
use oyster_monorepo.Indexer.Providers.{upsert_provider}
use oyster_monorepo.Indexer.Jobs.{
  close, deposit, withdraw, settle, set_rate, set_metadata, update_open_job,
}
use oyster_monorepo.Indexer.Locks.{insert_request, delete_request}

-- The columns that an UPDATE of an open job may set, but for its funds.
pub data Column : Type 0 where
  closed : Column
  rate : ℕ → Column
  metadata : String → Column

abbrev pub set_column : Column → Job → Job
set_column closed = close
set_column (rate r) = set_rate r
set_column (metadata m) = set_metadata m

pub data Message : Type 0 where
  nothing : Message
  add_provider : String → String → Message
  remove_provider : String → Message
  update_provider : String → String → Message
  open_job : String → Job → Transaction → Message
  update_job : String → Column → Message
  settle_job : String → ℕ → ℕ → Message
  move_funds : String → Transaction → Message
  create_lock : String → ReviseRateRequest → Message
  delete_lock : String → Message

-- The change that a transaction row stands for.
abbrev pub moved : Transaction → Job → Job
moved x = if x.is_deposit then deposit x.amount else withdraw x.amount

unfoldable pub apply : Message → M (Unit {0})
apply nothing = done
apply (add_provider id cp) = do count ← upsert_provider id cp; ensure (count == 1) existing_provider
apply (remove_provider id) = do
  count ← update_providers id (λ p. p.is_active) (λ p. record p { is_active = false })
  ensure (count == 1) bad_count
apply (update_provider id cp) = do
  count ← update_providers id (λ p. p.is_active) (λ p. record p { cp = cp })
  ensure (count == 1) bad_count
apply (open_job id j x) = insert_job id j >> insert_transaction x
apply (update_job id col) = update_open_job id (set_column col)
apply (settle_job id amount secs) = update_open_job id (settle amount secs)
apply (move_funds id x) = update_open_job id (moved x) >> insert_transaction x
apply (create_lock id r) = do
  count ← insert_request id r
  ensure (count == 1) no_request_or_closed_job
apply (delete_lock id) = delete_request id
