-- ===== src/Verify/Outcome.antt =====
-- What a response of the verifier means.
pub mod Responses
pub mod Progress
pub mod Groups
pub mod Resolved
pub mod Accepted
pub mod Closed
pub mod Promises
