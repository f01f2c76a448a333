-- ===== src/Market.antt =====
-- The market component of the control plane (operator/control-plane/src/market.rs): one task per job
-- follows the job's logs and keeps its instance.
pub mod State
pub mod Flow
pub mod Metadata
pub mod Infra
pub mod Opened
pub mod Logs
pub mod Machine
pub mod Funds
pub mod Scheduling
pub mod Termination
pub mod Supervision
mod Tests
