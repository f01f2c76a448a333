-- ===== src/Attestation.antt =====
-- The verification of an attestation document by the SDK (sdks/rs/src/attestation.rs).
pub mod Library
pub mod Document
pub mod Verify
pub mod Soundness
pub mod Samples
mod Tests
