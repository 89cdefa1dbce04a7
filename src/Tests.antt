-- ===== src/Tests.antt =====
-- The theorems at concrete inputs.
mod Pacing
mod Registry
mod Robots
mod Fetch
mod Network
mod Domain
mod Scope
mod Matching
mod Jobs
mod Db
