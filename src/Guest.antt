-- ===== src/Guest.antt =====
-- The guest of the RISC Zero attestation verifier (attestation/verifier-risczero/methods/guest): it
-- reads an attestation document by its offsets, checks it and commits its fields.
pub mod Crypto
pub mod Reader
pub mod Chain
pub mod Fields
pub mod Program
pub mod Links
pub mod Trust
pub mod Soundness
mod Tests
