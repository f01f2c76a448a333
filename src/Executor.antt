-- ===== src/Executor.antt =====
-- The serverless executor (serverless/executor/src): it follows the jobs of a contract, runs those it
-- is selected for, and sends their results as transactions.
pub mod State
pub mod Cgroups
pub mod SendError
pub mod Sender
pub mod Queued
pub mod Sending
pub mod Resend
pub mod Resending
pub mod Logs
pub mod Events
pub mod Coverage
pub mod Listening
pub mod Code
pub mod CodeFiles
pub mod Jobs
pub mod Answers
pub mod Node
pub mod Requests
mod Tests
mod NodeTests
