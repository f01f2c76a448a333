-- ===== src/RawProxy.antt =====
-- The raw proxy (networking/raw-proxy/src): IP packets between a host's interface and an enclave.
pub mod Errors
pub mod Backoff
pub mod Header
pub mod Outgoing
pub mod Queue
mod Tests
