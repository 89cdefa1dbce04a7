-- ===== src/Db/Jobs.antt =====
-- crates/erabi-db/src/repositories/job.rs: reading a job, taking its lease, and closing the attempt
-- that the lease belongs to.
pub mod Reading
use erabi.Base.{
  ℕ, zero, ◌+◌, ◌==◌, Bool, true, false, not, ◌&&◌, ◌||◌, Option, some, none, ok, err,
  if◌then◌else◌, ltb, leb, all, is_empty, u32_max, u64_max, i64_max, saturating_add,
}
use erabi.Text.{Text, text_eq, len}
use erabi.Db.Tables.{
  JobState, JobFailureCode, AttemptOutcome, JobStorageClass, JobRepositoryError, JobLease, JobRow,
  JobRecord, JobAttempt, AcquiredJob, Database, state_eq, is_running, same_id, same_text, has_lease,
  storage_class,
}
use erabi.Db.Statements.{
  Answer, Tx, ◌>>=◌, ◌>>◌, pure, raise_if, query, require_one, find, update_job, insert_attempt,
  update_attempts,
}

-- `JobKind::new`.
unfoldable pub is_job_kind : Text → Bool
is_job_kind kind =
    not (is_empty kind)
    && leb (len kind) 64
    && all (λ c. (leb b'A' c && leb c b'Z') || (leb b'0' c && leb c b'9') || c == b'_') kind

unfoldable pub valid_worker_id : Text → Bool
valid_worker_id value =
    not (is_empty value)
    && leb (len value) 128
    && all
        (λ c.
          (leb b'A' c && leb c b'Z')
          || (leb b'a' c && leb c b'z')
          || (leb b'0' c && leb c b'9')
          || c == b'-'
          || c == b'_'
          || c == b'.')
        value

-- The lease columns of a row: a null owner or time is no value of the type that is read.
unfoldable pub lease_of : ℕ → Option Text → ℕ → Option ℕ → Option ℕ → Option ℕ → Answer JobLease
lease_of id (some owner) generation (some acquired) (some expires) (some beat) =
    if generation == 0
    then err JobRepositoryError.queue_invariant
    else ok (record {
      id = id;
      owner = owner;
      generation = generation;
      acquired_at = acquired;
      expires_at = expires;
      heartbeat_at = beat;
    })
lease_of id (some owner) zero acquired expires beat = err JobRepositoryError.queue_invariant
lease_of id owner generation acquired expires beat = err JobRepositoryError.database

unfoldable pub row_lease : JobRow → Answer (Option JobLease)
unfolding lease_of
row_lease r = elim r.lease_id [
  | none ↦ ok none
  | some id ↦
      elim (lease_of id r.lease_owner r.lease_generation r.lease_acquired_at r.lease_expires_at
        r.heartbeat_at) [ err e ↦ err e | ok lease ↦ ok (some lease) ]
]

unfoldable pub job_from_row : JobRow → Answer JobRecord
job_from_row r = elim (row_lease r) [
  | err e ↦ err e
  | ok lease ↦
      if not (is_job_kind r.kind)
      then err JobRepositoryError.invalid_job_kind
      else if ltb u32_max r.current_attempt || r.max_attempts == 0 || ltb u32_max r.max_attempts
      then err JobRepositoryError.queue_invariant
      else ok (record {
        id = r.id;
        kind = r.kind;
        priority = r.priority;
        state = r.state;
        parent_job_id = r.parent_job_id;
        crawl_run_id = r.crawl_run_id;
        scheduled_at = r.scheduled_at;
        current_attempt = r.current_attempt;
        max_attempts = r.max_attempts;
        lease_generation = r.lease_generation;
        lease = lease;
        failure_code = r.failure_code;
        created_at = r.created_at;
        updated_at = r.updated_at;
      })
]

unfoldable pub select_job : ℕ → Database → Answer JobRecord
select_job j db = elim (find j db.jobs) [
  | none ↦ err JobRepositoryError.not_found
  | some r ↦ job_from_row r
]

unfoldable pub select_owned_running_job : ℕ → JobLease → ℕ → Database → Answer JobRecord
select_owned_running_job j lease now db = elim (select_job j db) [
  | err e ↦ err e
  | ok job ↦
      if not (state_eq job.state JobState.running)
      then err JobRepositoryError.illegal_transition
      else if not (has_lease lease job.lease) || leb lease.expires_at now
      then err JobRepositoryError.lease_lost
      else ok job
]

-- `i64::try_from(lease.generation)`.
abbrev pub fits_i64 : ℕ → Tx (Unit {0})
fits_i64 n = raise_if (ltb i64_max n) JobRepositoryError.queue_invariant

-- The WHERE clause of the attempt that a lease runs.
unfoldable pub is_active : ℕ → JobLease → JobAttempt → Bool
is_active j lease a =
    a.job_id == j
    && a.lease_id == lease.id
    && a.lease_generation == lease.generation
    && text_eq a.worker_id lease.owner
    && is_running a.outcome

unfoldable pub finished : ℕ → AttemptOutcome → Option JobFailureCode → JobAttempt → JobAttempt
finished now outcome failure a = record a {
  finished_at = some now;
  outcome = outcome;
  failure_code = failure;
}

unfoldable pub finish_attempt_in_transaction :
    ℕ → JobLease → ℕ → AttemptOutcome → Option JobFailureCode → Tx (Unit {0})
finish_attempt_in_transaction j lease now outcome failure = do
  fits_i64 lease.generation
  changed ← update_attempts (is_active j lease) (finished now outcome failure)
  require_one JobRepositoryError.lease_lost changed

-- The WHERE clause of the job that a lease runs.
unfoldable pub holds : JobLease → JobRow → Bool
holds lease r =
    state_eq r.state JobState.running
    && same_id lease.id r.lease_id
    && same_text lease.owner r.lease_owner
    && r.lease_generation == lease.generation

-- The SET clause that takes the lease from a job; with no schedule that column stays.
unfoldable pub released : JobState → Option ℕ → Option JobFailureCode → ℕ → JobRow → JobRow
released state schedule failure now r = record r {
  state = state;
  scheduled_at = elim schedule [ none ↦ r.scheduled_at | some at ↦ at ];
  lease_id = none;
  lease_owner = none;
  lease_acquired_at = none;
  lease_expires_at = none;
  heartbeat_at = none;
  failure_code = failure;
  updated_at = now;
}

-- The attempt is finished, and then the job released where its lease and the further condition
-- still hold: the two statements with which every operation gives a lease up.
unfoldable pub close :
    ℕ
    → JobLease
    → ℕ
    → AttemptOutcome
    → Option JobFailureCode
    → (JobRow → Bool)
    → JobState
    → Option ℕ
    → Option JobFailureCode
    → Tx (Unit {0})
close j lease now outcome attempt_failure also state schedule failure = do
  finish_attempt_in_transaction j lease now outcome attempt_failure
  changed ← update_job true j (λ r. holds lease r && also r) (released state schedule failure now)
  require_one JobRepositoryError.lease_lost changed

abbrev pub always : JobRow → Bool
always r = true

-- The SET clause that gives a worker the lease.
unfoldable pub leased : ℕ → Text → ℕ → ℕ → ℕ → ℕ → JobRow → JobRow
leased lease_id worker generation attempt now expires r = record r {
  state = JobState.running;
  current_attempt = attempt;
  lease_id = some lease_id;
  lease_owner = some worker;
  lease_generation = generation;
  lease_acquired_at = some now;
  lease_expires_at = some expires;
  heartbeat_at = some now;
  failure_code = none;
  updated_at = now;
}

unfoldable pub started : ℕ → ℕ → ℕ → ℕ → ℕ → Text → ℕ → JobAttempt
started id j attempt lease_id generation worker now = record {
  id = id;
  job_id = j;
  attempt_number = attempt;
  lease_id = lease_id;
  lease_generation = generation;
  worker_id = worker;
  started_at = now;
  finished_at = none;
  outcome = AttemptOutcome.running;
  failure_code = none;
}

abbrev pub is_blocked : Bool → JobRecord → Bool
is_blocked allow_artifact_heavy job = not allow_artifact_heavy && elim (storage_class job) [
  | JobStorageClass.artifact_heavy ↦ true
  | JobStorageClass.storage_light ↦ false
]

-- The WHERE clause under which a queued job is leased.
unfoldable pub is_due : ℕ → ℕ → JobRow → Bool
is_due now attempt r =
    state_eq r.state JobState.queued && leb r.scheduled_at now && r.current_attempt == attempt

-- Both identifiers come from `Uuid::now_v7`.
unfoldable pub lease_queued_job : ℕ → ℕ → ℕ → Text → ℕ → ℕ → Bool → Tx AcquiredJob
lease_queued_job lease_id attempt_id j worker now duration allow_artifact_heavy = do
  job ← query (select_job j)
  raise_if
      (not (state_eq job.state JobState.queued)
        || ltb now job.scheduled_at
        || leb job.max_attempts job.current_attempt)
      JobRepositoryError.illegal_transition
  raise_if (is_blocked allow_artifact_heavy job) JobRepositoryError.storage_admission_blocked
  let generation = saturating_add u64_max job.lease_generation 1
  raise_if (ltb i64_max (now + duration)) JobRepositoryError.queue_invariant
  let attempt = saturating_add u32_max job.current_attempt 1
  fits_i64 generation
  changed ←
      update_job true j (is_due now job.current_attempt)
        (leased lease_id worker generation attempt now (now + duration))
  require_one JobRepositoryError.illegal_transition changed
  let a = started attempt_id j attempt lease_id generation worker now
  insert_attempt a
  taken ← query (select_job j)
  pure (record { job = taken; attempt = a })
