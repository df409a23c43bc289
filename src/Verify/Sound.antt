-- ===== src/Verify/Sound.antt =====
-- Every verification that succeeds has evidence, and keeps the cache sound. `vs` are the notation
-- verifiers of the period in which the requests run.
pub mod References
pub mod Attestations
pub mod Hits
pub mod Referrers
pub mod Satisfied
