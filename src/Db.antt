-- ===== src/Db.antt =====
-- The durable queue of crates/erabi-db: its tables, the statements on them, and what the job
-- repository does with them.
pub mod Tables
pub mod Statements
pub mod Jobs
pub mod Progress
pub mod Checkpoints
pub mod Recovery
pub mod Consistency
pub mod Queue
pub mod Actions
pub mod Calls
pub mod Lifecycle
pub mod Refinement
pub mod System
