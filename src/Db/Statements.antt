-- ===== src/Db/Statements.antt =====
-- The SQL statements of crates/erabi-db/src/repositories/job.rs on the tables of
-- migrations/0004_jobs.sql, with the constraints and triggers of that file, and a transaction.
pub mod Rows
pub mod Inversion
pub mod WellFormed
use erabi.Base.{
  ℕ, ◌+◌, ◌==◌, Bool, true, false, not, ◌&&◌, ◌||◌, List, [], ◌∷◌, Option, some, none, is_none,
  is_some, Result, ok, err, if◌then◌else◌, leb, any,
}
use erabi.Db.Tables.{
  JobState, AttemptOutcome, JobRepositoryError, JobRow, JobAttempt, RunRow, CrawlRunStatus,
  Database, state_eq, is_running,
}

abbrev pub Answer : Type 0 → Type 0
Answer A = Result A JobRepositoryError

-- A transaction: an error rolls back, since the database that it had made is not returned.
abbrev pub Tx : Type 0 → Type 0
Tx A = Database → Answer (A × Database)

infixl 5 ◌>>=◌ ◌>>◌
abbrev pub ◌>>=◌ : {A B : Type 0} → Tx A → (A → Tx B) → Tx B
◌>>=◌ m f db = elim (m db) [ err e ↦ err e | ok (a, db') ↦ f a db' ]

abbrev pub ◌>>◌ : {B : Type 0} → Tx (Unit {0}) → Tx B → Tx B
◌>>◌ m k db = elim (m db) [ err e ↦ err e | ok (_, db') ↦ k db' ]

abbrev pub pure : {A : Type 0} → A → Tx A
pure a db = ok (a, db)

abbrev pub raise : {A : Type 0} → JobRepositoryError → Tx A
raise e db = err e

abbrev pub raise_if : Bool → JobRepositoryError → Tx (Unit {0})
raise_if true e db = err e
raise_if false e db = ok (tt, db)

-- A query that changes nothing.
abbrev pub query : {A : Type 0} → (Database → Answer A) → Tx A
query f db = elim (f db) [ err e ↦ err e | ok a ↦ ok (a, db) ]

-- `if changed != 1 { return Err(error) }`.
abbrev pub require_one : JobRepositoryError → ℕ → Tx (Unit {0})
require_one e changed = raise_if (not (changed == 1)) e

-- The row under a primary key, and the table with that row replaced.
unfoldable pub find : ℕ → List JobRow → Option JobRow
find k [] = none
find k (r ∷ rows) = if r.id == k then some r else find k rows

unfoldable pub put : ℕ → JobRow → List JobRow → List JobRow
put k s [] = []
put k s (r ∷ rows) = let rest = put k s rows in if r.id == k then s ∷ rows else r ∷ rest

unfoldable pub delete : ℕ → List JobRow → List JobRow
delete k [] = []
delete k (r ∷ rows) = let rest = delete k rows in if r.id == k then rest else r ∷ rest

unfoldable pub find_run : ℕ → List RunRow → Option RunRow
find_run k [] = none
find_run k (r ∷ rows) = if r.id == k then some r else find_run k rows

unfoldable pub put_run : ℕ → RunRow → List RunRow → List RunRow
put_run k s [] = []
put_run k s (r ∷ rows) = let rest = put_run k s rows in if r.id == k then s ∷ rows else r ∷ rest

abbrev pub no_lease : JobRow → Bool
no_lease r =
    is_none r.lease_id
    && is_none r.lease_owner
    && is_none r.lease_acquired_at
    && is_none r.lease_expires_at
    && is_none r.heartbeat_at

abbrev pub full_lease : JobRow → Bool
full_lease r =
    is_some r.lease_id
    && is_some r.lease_owner
    && is_some r.lease_acquired_at
    && is_some r.lease_expires_at
    && is_some r.heartbeat_at

-- `a IS NULL OR b <= a`, with a null `b` unknown, which a CHECK lets pass.
abbrev pub null_or_le : Option ℕ → Option ℕ → Bool
null_or_le none b = true
null_or_le (some a) none = true
null_or_le (some a) (some b) = leb b a

-- The CHECK constraints of `jobs`; its columns' types give the others.
unfoldable pub check_job : JobRow → Bool
check_job r =
    leb 1 r.max_attempts
    && leb r.current_attempt r.max_attempts
    && (if state_eq r.state JobState.running then full_lease r else no_lease r)
    && null_or_le r.lease_expires_at r.heartbeat_at
    && null_or_le r.heartbeat_at r.lease_acquired_at

-- The trigger `jobs_legal_state_transition`.
unfoldable pub legal_transition : JobState → JobState → Bool
legal_transition JobState.queued JobState.running = true
legal_transition JobState.queued JobState.cancelled = true
legal_transition JobState.running JobState.running = false
legal_transition JobState.running _ = true
legal_transition _ _ = false

-- `UPDATE jobs SET … WHERE id = ? AND …`: how many rows changed. `moves` tells whether the
-- statement sets the state, which is when the trigger looks.
unfoldable pub update_job : Bool → ℕ → (JobRow → Bool) → (JobRow → JobRow) → Tx ℕ
update_job moves k test change db = elim (find k db.jobs) [
  | none ↦ ok (0, db)
  | some r ↦
      if test r
      then if check_job (change r) && (not moves || legal_transition r.state (change r).state)
        then ok (1, record db { jobs = put k (change r) db.jobs })
        else err JobRepositoryError.database
      else ok (0, db)
]

-- The rows that refer to a job: foreign keys forbid to delete it then.
unfoldable pub is_referenced : ℕ → Database → Bool
is_referenced k db =
    any (λ r. elim r.parent_job_id [ none ↦ false | some p ↦ p == k ]) db.jobs
    || any (λ a. a.job_id == k) db.attempts
    || any (λ c. c.job_id == k) db.checkpoints
    || any (λ p. p.job_id == k) db.progress

abbrev pub refers_to_job : Option ℕ → Database → Bool
refers_to_job none db = true
refers_to_job (some k) db = is_some (find k db.jobs)

abbrev pub refers_to_run : Option ℕ → Database → Bool
refers_to_run none db = true
refers_to_run (some k) db = is_some (find_run k db.runs)

-- `INSERT INTO jobs`: the primary key, the checks, the trigger `jobs_must_start_queued` and the
-- foreign keys.
unfoldable pub insert_job : JobRow → Tx (Unit {0})
insert_job r db =
    if is_none (find r.id db.jobs)
      && check_job r
      && state_eq r.state JobState.queued
      && refers_to_job r.parent_job_id db
      && refers_to_run r.crawl_run_id db
    then ok (tt, record db { jobs = r ∷ db.jobs })
    else err JobRepositoryError.database

-- The attempts of one job, the last inserted first.
unfoldable pub attempts_of : ℕ → List JobAttempt → List JobAttempt
attempts_of j [] = []
attempts_of j (a ∷ rows) = let rest = attempts_of j rows in if a.job_id == j then a ∷ rest else rest

-- `INSERT INTO job_attempts`: the primary key, both UNIQUE constraints, the checks and the foreign
-- key.
unfoldable pub insert_attempt : JobAttempt → Tx (Unit {0})
insert_attempt a db =
    if any
        (λ b.
          b.id == a.id
          || (b.job_id == a.job_id && b.attempt_number == a.attempt_number)
          || b.lease_id == a.lease_id)
        db.attempts
      || not (leb 1 a.attempt_number)
      || not (leb 1 a.lease_generation)
      || is_none (find a.job_id db.jobs)
    then err JobRepositoryError.database
    else ok (tt, record db { attempts = a ∷ db.attempts })

-- `UPDATE job_attempts SET … WHERE …` on every row that the test picks, and how many these are.
unfoldable pub change_all :
    (JobAttempt → Bool) → (JobAttempt → JobAttempt) → List JobAttempt → List JobAttempt
change_all test change [] = []
change_all test change (a ∷ rows) = (if test a then change a else a) ∷ change_all test change rows

unfoldable pub count_all : (JobAttempt → Bool) → List JobAttempt → ℕ
count_all test [] = 0
count_all test (a ∷ rows) = (if test a then 1 else 0) + count_all test rows

unfoldable pub update_attempts : (JobAttempt → Bool) → (JobAttempt → JobAttempt) → Tx ℕ
unfolding change_all count_all
update_attempts test change db =
    ok (count_all test db.attempts, record db { attempts = change_all test change db.attempts })

-- `UPDATE crawl_runs SET status = ? WHERE id = ? AND status IN (…)`.
unfoldable pub update_run : ℕ → (CrawlRunStatus → Bool) → CrawlRunStatus → Tx ℕ
update_run k test status db = elim (find_run k db.runs) [
  | none ↦ ok (0, db)
  | some r ↦
      if test r.status
      then ok (1, record db { runs = put_run k (record r { status = status }) db.runs })
      else ok (0, db)
]
