-- ===== src/Indexer.antt =====
-- The indexer of the market contract (contracts/indexer/src): it replays the contract's logs, block
-- range by block range, into the tables of a Postgres database.
pub mod Table
pub mod Db
pub mod Providers
pub mod Jobs
pub mod Locks
pub mod Dispatch
pub mod EventLoop
pub mod Message
pub mod Parse
pub mod Parsing
pub mod Dispatching
pub mod Statements
pub mod Validity
pub mod Balances
pub mod Accounting
pub mod History
pub mod Replay
pub mod Guarantees
pub mod Outcomes
mod Tests
