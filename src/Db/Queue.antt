-- ===== src/Db/Queue.antt =====
-- crates/erabi-db/src/repositories/job.rs: the operations of `JobRepository`. Each is a transaction,
-- or a chain of transactions where the code makes several.
use erabi.Base.{
  ℕ, zero, suc, ◌+◌, ◌==◌, Bool, true, false, not, ◌&&◌, ◌||◌, List, [], ◌∷◌, Option, some, none,
  is_none, is_some, ok, err, if◌then◌else◌, ltb, leb, ℤ, pos, negsuc, i64_max,
}
use erabi.Text.{Text, text, text_eq}
use erabi.Db.Tables.{
  JobState, JobFailureCode, AttemptOutcome, CrawlRunStatus, CrawlRunType, JobRepositoryError,
  JobLease, JobRow, JobRecord, AcquiredJob, NewJob, RunRow, Database, state_eq, same_id,
}
use erabi.Db.Statements.{
  Answer, Tx, ◌>>=◌, ◌>>◌, pure, raise_if, query, require_one, delete, find_run, update_job,
  insert_job, is_referenced,
}
use erabi.Db.Jobs.{
  valid_worker_id, select_job, select_owned_running_job, fits_i64, close, always, lease_queued_job,
  holds,
}
use erabi.Db.Recovery.{
  select_crawl_run_status, cancel_related_run, finalize_crawl_failure_in_transaction,
  recover_expired_in_transaction, next_state,
}
use erabi.Db.Consistency.{ensure_queue_invariants}

-- A row as every INSERT of the file makes it.
unfoldable pub new_row : NewJob → ℕ → JobRow
new_row job now = record {
  id = job.id;
  kind = job.kind;
  priority = job.priority;
  state = JobState.queued;
  parent_job_id = job.parent_job_id;
  crawl_run_id = job.crawl_run_id;
  scheduled_at = job.scheduled_at;
  current_attempt = 0;
  max_attempts = job.max_attempts;
  lease_id = none;
  lease_owner = none;
  lease_generation = 0;
  lease_acquired_at = none;
  lease_expires_at = none;
  heartbeat_at = none;
  failure_code = none;
  created_at = now;
  updated_at = now;
}

unfoldable pub enqueue : NewJob → ℕ → Tx (Unit {0})
enqueue job now = insert_job (new_row job now)

-- What a run's snapshot says about its configuration.
pub data RunConfiguration : Type 0 where
  quick_scrape crawler_version : RunConfiguration

abbrev pub is_quick_scrape : RunConfiguration → Bool
is_quick_scrape quick_scrape = true
is_quick_scrape crawler_version = false

abbrev pub is_production_run : CrawlRunType → Bool
is_production_run CrawlRunType.production_run = true
is_production_run _ = false

-- `insert_run_in_transaction`, with the row of `crawl_runs` that the snapshot gives.
unfoldable pub insert_run : RunRow → Tx (Unit {0})
insert_run run db =
    if is_some (find_run run.id db.runs)
    then err JobRepositoryError.database
    else ok (tt, record db { runs = run ∷ db.runs })

abbrev pub queued_run : RunRow → RunRow
queued_run run = record run { status = CrawlRunStatus.queued }

unfoldable pub insert_run_with_job : RunRow → NewJob → ℕ → Tx (Unit {0})
insert_run_with_job run job now = do
  insert_run (queued_run run)
  insert_job (new_row (record job { parent_job_id = none; crawl_run_id = some run.id }) now)

unfoldable pub create_quick_scrape_run_with_root_job :
    RunConfiguration → RunRow → NewJob → ℕ → Tx (Unit {0})
create_quick_scrape_run_with_root_job configuration run job now = do
  raise_if
      (not (is_quick_scrape configuration) || is_some job.parent_job_id || is_some job.crawl_run_id)
      JobRepositoryError.queue_invariant
  insert_run_with_job run job now

unfoldable pub create_production_run_with_root_job :
    RunConfiguration → RunRow → NewJob → ℕ → Tx (Unit {0})
create_production_run_with_root_job configuration run job now = do
  raise_if
      (is_quick_scrape configuration
        || not (is_production_run run.run_type)
        || is_some job.parent_job_id
        || is_some job.crawl_run_id)
      JobRepositoryError.queue_invariant
  insert_run_with_job run job now

-- `priority DESC`.
unfoldable pub int_lt : ℤ → ℤ → Bool
int_lt (negsuc a) (negsuc b) = ltb b a
int_lt (negsuc a) (pos b) = true
int_lt (pos a) (negsuc b) = false
int_lt (pos a) (pos b) = ltb a b

-- `ORDER BY priority DESC, scheduled_at, created_at, id`.
unfoldable pub precedes : JobRow → JobRow → Bool
precedes r s =
    int_lt s.priority r.priority
    || (not (int_lt r.priority s.priority)
        && (ltb r.scheduled_at s.scheduled_at
            || (r.scheduled_at == s.scheduled_at
                && (ltb r.created_at s.created_at
                    || (r.created_at == s.created_at && ltb r.id s.id)))))

unfoldable pub is_eligible : ℕ → Bool → JobRow → Bool
is_eligible now allow_artifact_heavy r =
    state_eq r.state JobState.queued
    && leb r.scheduled_at now
    && (allow_artifact_heavy || is_none r.crawl_run_id)

unfoldable pub first_where : (JobRow → Bool) → List JobRow → Option JobRow
first_where test [] = none
first_where test (r ∷ rows) =
    let rest = first_where test rows in
    if test r
    then elim rest [ none ↦ some r | some s ↦ if precedes s r then some s else some r ]
    else rest

unfoldable pub select_eligible_job : ℕ → Bool → Database → Option JobRow
select_eligible_job now allow_artifact_heavy db =
    first_where (is_eligible now allow_artifact_heavy) db.jobs

-- A duration that is not above 0 is refused.
abbrev pub positive : ℤ → Answer ℕ
positive (pos (suc n)) = ok (suc n)
positive (pos zero) = err JobRepositoryError.queue_invariant
positive (negsuc _) = err JobRepositoryError.queue_invariant

-- The lease's and the attempt's identifiers are fresh ones of `Uuid::now_v7`.
unfoldable pub lease_next : ℕ → ℕ → Text → ℕ → ℕ → Bool → Tx (Option AcquiredJob)
lease_next lease_id attempt_id worker now duration allow_artifact_heavy db =
    elim (select_eligible_job now allow_artifact_heavy db) [
      | none ↦ ok (none, db)
      | some r ↦
          (do
            acquired ←
                lease_queued_job lease_id attempt_id r.id worker now duration allow_artifact_heavy
            pure (some acquired))
            db
    ]

unfoldable pub acquire_next_with_storage_admission :
    ℕ → ℕ → Text → ℕ → ℤ → Bool → Tx (Option AcquiredJob)
acquire_next_with_storage_admission lease_id attempt_id worker now duration allow_artifact_heavy =
    do
      raise_if (not (valid_worker_id worker)) JobRepositoryError.queue_invariant
      seconds ← query (λ _. positive duration)
      query ensure_queue_invariants
      _ ← recover_expired_in_transaction now
      lease_next lease_id attempt_id worker now seconds allow_artifact_heavy

-- The WHERE clause of a heartbeat: every field of the lease but the time of its acquisition, and
-- the lease has not expired.
unfoldable pub may_beat : JobLease → ℕ → JobRow → Bool
may_beat lease now r =
    holds lease r
    && same_id lease.expires_at r.lease_expires_at
    && same_id lease.heartbeat_at r.heartbeat_at
    && elim r.lease_expires_at [ none ↦ false | some at ↦ ltb now at ]

unfoldable pub beaten : ℕ → ℕ → JobRow → JobRow
beaten now expires r = record r {
  heartbeat_at = some now;
  lease_expires_at = some expires;
  updated_at = now;
}

unfoldable pub ownership_error : ℕ → Database → JobRepositoryError
ownership_error j db = elim (select_job j db) [
  | ok job ↦
      if state_eq job.state JobState.running
      then JobRepositoryError.lease_lost
      else JobRepositoryError.illegal_transition
  | err JobRepositoryError.not_found ↦ JobRepositoryError.not_found
  | err _ ↦ JobRepositoryError.lease_lost
]

unfoldable pub heartbeat : ℕ → JobLease → ℕ → ℤ → Tx JobLease
heartbeat j lease now duration = do
  seconds ← query (λ _. positive duration)
  raise_if (ltb i64_max (now + seconds)) JobRepositoryError.queue_invariant
  fits_i64 lease.generation
  changed ← update_job false j (may_beat lease now) (beaten now (now + seconds))
  query (λ db.
      if changed == 1
      then ok (record lease { heartbeat_at = now; expires_at = now + seconds })
      else err (ownership_error j db))

unfoldable pub succeed : ℕ → JobLease → ℕ → Tx (Unit {0})
succeed j lease now = do
  _ ← query (select_owned_running_job j lease now)
  close j lease now AttemptOutcome.succeeded none always JobState.succeeded none none

abbrev pub retry_schedule : JobState → ℕ → JobRecord → ℕ
retry_schedule state retry_at job =
    if state_eq state JobState.queued then retry_at else job.scheduled_at

unfoldable pub fail_with_disposition : ℕ → JobLease → ℕ → JobFailureCode → ℕ → Bool → Tx JobState
fail_with_disposition j lease now failure retry_at terminal = do
  job ← query (select_owned_running_job j lease now)
  let state = next_state (not terminal) job
  close j lease now AttemptOutcome.failed (some failure) always state
      (some (retry_schedule state retry_at job)) (some failure)
  pure state

unfoldable pub fail_terminal : ℕ → JobLease → ℕ → JobFailureCode → Tx (Unit {0})
fail_terminal j lease now failure = do
  state ← fail_with_disposition j lease now failure now true
  raise_if (not (state_eq state JobState.failed)) JobRepositoryError.queue_invariant

-- The guard of `fail_terminal_production` for jobs of other kinds.
unfoldable pub ensure_production : JobRecord → Database → Answer (Unit {0})
ensure_production job db =
    if text_eq job.kind (text "PRODUCTION_CRAWL") then ok tt else elim job.crawl_run_id [
      | none ↦ err JobRepositoryError.queue_invariant
      | some k ↦ elim (find_run k db.runs) [
        | none ↦ err JobRepositoryError.queue_invariant
        | some run ↦
            if is_production_run run.run_type then ok tt else err JobRepositoryError.queue_invariant
      ]
    ]

unfoldable pub fail_terminal_production : ℕ → JobLease → ℕ → JobFailureCode → Tx (Unit {0})
fail_terminal_production j lease now failure = do
  job ← query (select_owned_running_job j lease now)
  query (ensure_production job)
  close j lease now AttemptOutcome.failed (some failure) always JobState.failed
      (some job.scheduled_at) (some failure)
  finalize_crawl_failure_in_transaction job now

-- A run that has ended decides how its job is cancelled.
pub data CancelledAs : Type 0 where
  as_succeeded as_failed as_cancelled : CancelledAs

unfoldable pub cancelled_as : JobRecord → Database → CancelledAs
cancelled_as job db = elim job.crawl_run_id [
  | none ↦ as_cancelled
  | some k ↦ elim (select_crawl_run_status k db) [
    | some CrawlRunStatus.succeeded ↦ as_succeeded
    | some CrawlRunStatus.partial_result ↦ as_succeeded
    | some CrawlRunStatus.failed ↦ as_failed
    | _ ↦ as_cancelled
  ]
]

unfoldable pub cancel_job : ℕ → JobLease → ℕ → JobRecord → CancelledAs → Tx (Unit {0})
cancel_job j lease now job as_succeeded =
    close j lease now AttemptOutcome.succeeded none always JobState.succeeded none none
cancel_job j lease now job as_failed =
    close j lease now AttemptOutcome.failed (some JobFailureCode.handler_failed) always
      JobState.failed none (some JobFailureCode.handler_failed)
cancel_job j lease now job as_cancelled = do
  close j lease now AttemptOutcome.failed (some JobFailureCode.cancelled) always JobState.cancelled
      none (some JobFailureCode.cancelled)
  cancel_related_run job.crawl_run_id

unfoldable pub cancel : ℕ → JobLease → ℕ → Tx (Unit {0})
cancel j lease now = do
  job ← query (select_owned_running_job j lease now)
  how ← query (λ db. ok (cancelled_as job db))
  cancel_job j lease now job how

abbrev pub is_queued : JobRow → Bool
is_queued r = state_eq r.state JobState.queued

unfoldable pub cancelled_row : ℕ → JobRow → JobRow
cancelled_row now r = record r {
  state = JobState.cancelled;
  failure_code = some JobFailureCode.cancelled;
  updated_at = now;
}

unfoldable pub cancel_if_queued : ℕ → ℕ → JobRecord → Tx JobState
cancel_if_queued j now job = if not (state_eq job.state JobState.queued) then pure job.state else do
  changed ← update_job true j is_queued (cancelled_row now)
  require_one JobRepositoryError.illegal_transition changed
  cancel_related_run job.crawl_run_id
  pure JobState.cancelled

unfoldable pub cancel_queued : ℕ → ℕ → Tx JobState
cancel_queued j now = do job ← query (select_job j); cancel_if_queued j now job

unfoldable pub reprioritized : ℤ → ℕ → ℕ → JobRow → JobRow
reprioritized priority scheduled_at now r = record r {
  priority = priority;
  scheduled_at = scheduled_at;
  updated_at = now;
}

abbrev pub reprioritize_error : ℕ → Database → JobRepositoryError
reprioritize_error j db = elim (select_job j db) [
  | err JobRepositoryError.not_found ↦ JobRepositoryError.not_found
  | _ ↦ JobRepositoryError.not_reprioritizable
]

unfoldable pub reprioritize : ℕ → ℤ → ℕ → ℕ → Tx JobRecord
reprioritize j priority scheduled_at now = do
  changed ← update_job false j is_queued (reprioritized priority scheduled_at now)
  query (λ db. if changed == 1 then select_job j db else err (reprioritize_error j db))

abbrev pub is_touched : JobRecord → Bool
is_touched job =
    not (state_eq job.state JobState.queued)
    || not (job.current_attempt == 0)
    || is_some job.crawl_run_id
    || is_some job.parent_job_id

-- The four EXISTS of the query for evidence are the references to the job, so its DELETE meets no
-- foreign key.
unfoldable pub remove_if_safe : ℕ → Tx (Unit {0})
remove_if_safe j db = elim (select_job j db) [
  | err e ↦ err e
  | ok job ↦
      if is_touched job || is_referenced j db
      then err JobRepositoryError.removal_unsafe
      else ok (tt, record db { jobs = delete j db.jobs })
]
