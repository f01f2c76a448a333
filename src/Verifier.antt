-- ===== src/Verifier.antt =====
-- The server of attestation/verifier, which verifies an attestation and signs what it says.
pub mod Handler
pub mod Digest
pub mod Signing
pub mod Attested
mod Tests
