-- ===== src/Lib.antt =====
-- Erabi, a crawler whose requests are decided by rules: what may be connected to, what a site's
-- robots file allows, how fast an origin may be asked, and how much one crawl may fetch. Its work
-- is a durable queue of jobs, which workers lease. This library models the rules, the queue, and
-- what the program does with them.
--
-- Parts, and how they meet. A crawl's candidate passes the budget (Domain), its URL the network
-- policy (Network), which also pins the addresses of the connection, and the robots policy of its
-- origin (Robots). What the robots evaluation returns is handed to the origin's pacing (Pacing),
-- which lets one request after the other through; the robots file itself is fetched under the same
-- pacing and kept in a cache. The jobs that crawl are stopped by tokens (Jobs): one for
-- cancellation, one for the lack of storage. Which job runs is decided by the queue in the
-- database (Db): a worker takes a lease, renews it, writes checkpoints under it, and gives it up
-- with the job's outcome; what it leaves behind when it dies is recovered from the tables.
--
-- Files and code:
--   Domain/Errors         crates/erabi-domain/src/error.rs: codes and with_code
--   Domain/Guardrails     crates/erabi-domain/src/guardrails.rs: validate, the operational limits,
--                         page_type
--   Domain/Budget         crates/erabi-domain/src/budget.rs: DiscoveryBudgetEvaluator::evaluate
--   Domain/Scope          crates/erabi-domain/src/domain_scope.rs: the host rules, validate, classify
--   Domain/Matcher        crates/erabi-domain/src/url_matcher.rs: matches, specificity, validation
--   Domain/Matching       crates/erabi-domain/src/matching.rs: resolve_page_type
--   Domain/Transition     crates/erabi-domain/src/transition.rs: validate, TransitionGraph::new
--   Network               crates/erabi-crawler/src/network_policy.rs: validate_url,
--                         validate_and_resolve, the address ranges, the two resolvers
--   Pacing                crates/erabi-crawler/src/pacing.rs: OriginKey, RetryAfterTiming,
--                         OriginPacingState with each of its operations
--   Pacing/Admission      the same file: acquire, one round of acquire_with_delay_inner, a permit's
--                         record_outcome; Pacing/Admission/System has the interleavings
--   Pacing/Registry       the same file: OriginRegistry::register, prune_safe_states
--   Robots/Parse          crates/erabi-crawler/src/robots.rs: parse_robots_document
--   Robots/Match          the same file: rule_matches
--   Robots/Select         the same file: select_groups, user_agent_matches
--   Robots/Evaluate       the same file: RobotsDocument::evaluate, the decision under an override
--   Robots/Cache          the same file: RobotsCache::get, insert
--   Robots/Fetch          the same file: read_bounded_body, fetch_document, evaluate_inner
--   Robots/Flight         the same file: the single flight of cached_or_fetch_document
--   Jobs/Cancellation     crates/erabi-jobs/src/cancellation.rs: CancellationController
--   Jobs/Storage          crates/erabi-jobs/src/storage_pressure.rs: the levels and
--                         StoragePressureController
--   Jobs/Tokens           the waiting tasks of both: CancellationToken::cancelled,
--                         StoragePressureToken::signalled
--   Db/Tables             migrations/0003_runs.sql, 0004_jobs.sql: the rows; the enums and structs of
--                         crates/erabi-db/src/repositories/job.rs, checkpoint.rs, progress.rs
--   Db/Statements         the SQL statements of job.rs on the tables, with the constraints and
--                         triggers of 0004_jobs.sql; a transaction as a function
--   Db/Jobs               job.rs: reading a job, taking its lease, closing its attempt
--   Db/Progress           progress.rs: append_in_transaction; job.rs: the repair of a stream's end
--   Db/Checkpoints        checkpoint.rs: append_in_transaction, assess_one_stale_job
--   Db/Recovery           job.rs: recover_expired_in_transaction, the reconciliation with finished
--                         runs
--   Db/Consistency        job.rs: ensure_queue_invariants
--   Db/Queue              job.rs: the operations of workers and users from enqueue to remove_if_safe
--   Db/Actions            job.rs: enqueue_action_child, the transactions of
--                         requeue_after_storage_pressure and of the reconciliation
--   Db/Calls              job.rs: the calls of several transactions; crates/erabi-jobs/src/lib.rs:
--                         recover_and_rebuild_at
--   Db/Lifecycle          the specification: the moves that a job may make
--   Db/Refinement         each operation as moves of every job
--   Db/System             any sequence of committed transactions, and what holds after it
--   Url, Text             what the code reads of a url::Url, and the functions of str and char that
--                         it calls; Text/Utf8 is from_utf8
--   Base                  tests, lists, options and results that the parts share
--   Tests                 the theorems at concrete inputs
-- Files below a part hold its proofs, named for what they are about.
--
-- State and operations. A struct is a record with the source's fields, an enum a data type with
-- its variants, a method on `&mut self` a function that returns the new state, and a `Result` the
-- value of Base/Results; the early return `?` is its bind. A state under a mutex is changed in one
-- step for each time that the lock is taken, so the steps of Pacing/Admission/System are the
-- interleavings of the tasks that share an origin. The controllers of Jobs are modelled in the
-- same way; what a call does behind its lock is a step of its own there. A map with ordered keys
-- is the list of its entries in order; a set that only tells whether a value was seen is a list.
--
-- A transaction of Db is a function from the tables to an error or to a value and the new tables;
-- an error leaves nothing written, as the source rolls back. The statements of heartbeat and
-- reprioritize stand for themselves in the source; their later reads are read here as if the whole
-- were one transaction. Identifiers are numbers, and a fresh one is an argument; two equal ones
-- break a key, which is an error. Times of the queue are seconds from 0 on. A JSON column holds
-- what it decodes to; the encoder of checkpoints is an argument. Tables list the last inserted row
-- first.
--
-- Numbers. Instants and durations are nanoseconds; an addition that the source checks is checked
-- here against the type's last value (u8, u32, u64, and the last instant that the platform's
-- 64-bit seconds represent), one that saturates stops there. An origin has fewer than 2^32 waiting
-- tasks, and concurrencies are u32. Code points stand for chars, and a text is the list of them,
-- so a byte count is a sum of UTF-8 lengths.
--
-- Loops are structural recursions on the list that they run over, with no fuel, but for the walk
-- up the parents of a job, whose fuel is the number of jobs and one more; the wait for admission,
-- which has no bound of its own, is one function for each round and a step relation for any number
-- of rounds.
--
-- Parameters. f64 is a record of the four functions that the parser of crawl delays uses; a DNS
-- resolver is a function from host and port to its outcome; the robots transport is a function
-- from a target to its response; the public suffix list and the parsers that decide on a host of
-- the scope are a record of three functions, the URL and regex packages of the matchers one of
-- five; the wait for admission gives its outcome to the fetch as a value.
--
-- Not modelled: the repositories of crawlers, traversals, executions and results, JSON codecs and
-- reads for display, the HTTP API, the command line, the client of the scraping service,
-- telemetry, the probe of free storage, the clocks and wake-ups of the asynchronous runtime, and
-- the orchestration of previews, test runs and production jobs, which call the parts above.
pub mod Base
pub mod Db
pub mod Domain
pub mod Jobs
pub mod Network
pub mod Pacing
pub mod Robots
pub mod Tests
pub mod Text
pub mod Url
