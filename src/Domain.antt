-- ===== src/Domain.antt =====
-- The pure crawl policies of crates/erabi-domain.
pub mod Errors
pub mod Guardrails
pub mod Transition
pub mod Budget
pub mod Scope
pub mod Matcher
pub mod Matching
