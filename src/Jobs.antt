-- ===== src/Jobs.antt =====
-- The cooperative signals of crates/erabi-jobs: cancellation of jobs, and storage pressure.
pub mod Maps
pub mod Cancellation
pub mod Storage
pub mod Tokens
