-- ===== src/Scallop.antt =====
-- The stream of sdks/rs/src/scallop.rs, over the base stream and the noise protocol that it calls.
pub mod Library
pub mod Stream
pub mod Write
pub mod Laws
pub mod Filling
pub mod Reading
pub mod Delivery
pub mod Writing
pub mod Accepting
pub mod Duplex
pub mod Counterflow
pub mod Session
pub mod Ending
pub mod Waking
pub mod Peer
pub mod Handshake
pub mod Trust
pub mod Limits
mod Plain
mod Tests
mod Runs
