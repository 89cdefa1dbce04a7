-- ===== src/Db/Tables.antt =====
-- The tables of migrations/0004_jobs.sql that crates/erabi-db/src/repositories/job.rs works on, and
-- the types of that file. An identifier is a number that stands for its text, a time the seconds
-- since the epoch, and a JSON text in a column is given by what it decodes to.
use erabi.Base.{ℕ, ◌==◌, Bool, ◌&&◌, true, false, List, Option, some, none, ℤ, Result}
use erabi.Text.{Text, text_eq}

pub data JobState : Type 0 where
  queued running succeeded failed cancelled : JobState

pub data JobFailureCode : Type 0 where
  handler_failed handler_panicked lease_expired cancelled storage_pressure : JobFailureCode

pub data AttemptOutcome : Type 0 where
  running succeeded failed lease_expired : AttemptOutcome

pub data CrawlRunStatus : Type 0 where
  queued running succeeded partial_result failed cancelled : CrawlRunStatus

pub data CrawlRunType : Type 0 where
  quick_scrape test_run discovery_preview production_run : CrawlRunType

pub data ProgressTerminalState : Type 0 where
  succeeded failed cancelled : ProgressTerminalState

pub data JobStorageClass : Type 0 where
  storage_light artifact_heavy : JobStorageClass

pub data CheckpointRepositoryError : Type 0 where
  database unsupported_format_version invalid_envelope : CheckpointRepositoryError
  payload_too_large malformed serialization not_found lease_lost : CheckpointRepositoryError

pub data JobRepositoryError : Type 0 where
  database invalid_job_kind invalid_max_attempts not_found : JobRepositoryError
  illegal_transition attempts_exhausted removal_unsafe not_reprioritizable : JobRepositoryError
  action_already_active retry_already_continued lease_lost : JobRepositoryError
  storage_admission_blocked queue_invariant : JobRepositoryError
  checkpoint : CheckpointRepositoryError → JobRepositoryError

pub record JobLease : Type 0 where
  pub id : ℕ
  pub owner : Text
  pub generation : ℕ  -- u64
  pub acquired_at : ℕ
  pub expires_at : ℕ
  pub heartbeat_at : ℕ

-- A row of the table `jobs`, its columns in the table's order.
pub record JobRow : Type 0 where
  pub id : ℕ
  pub kind : Text
  pub priority : ℤ
  pub state : JobState
  pub parent_job_id : Option ℕ
  pub crawl_run_id : Option ℕ
  pub scheduled_at : ℕ
  pub current_attempt : ℕ
  pub max_attempts : ℕ
  pub lease_id : Option ℕ
  pub lease_owner : Option Text
  pub lease_generation : ℕ
  pub lease_acquired_at : Option ℕ
  pub lease_expires_at : Option ℕ
  pub heartbeat_at : Option ℕ
  pub failure_code : Option JobFailureCode
  pub created_at : ℕ
  pub updated_at : ℕ

pub record JobRecord : Type 0 where
  pub id : ℕ
  pub kind : Text
  pub priority : ℤ
  pub state : JobState
  pub parent_job_id : Option ℕ
  pub crawl_run_id : Option ℕ
  pub scheduled_at : ℕ
  pub current_attempt : ℕ  -- u32
  pub max_attempts : ℕ  -- u32
  pub lease_generation : ℕ  -- u64
  pub lease : Option JobLease
  pub failure_code : Option JobFailureCode
  pub created_at : ℕ
  pub updated_at : ℕ

-- A row of `job_attempts`, and the `JobAttempt` that it is read into.
pub record JobAttempt : Type 0 where
  pub id : ℕ
  pub job_id : ℕ
  pub attempt_number : ℕ
  pub lease_id : ℕ
  pub lease_generation : ℕ
  pub worker_id : Text
  pub started_at : ℕ
  pub finished_at : Option ℕ
  pub outcome : AttemptOutcome
  pub failure_code : Option JobFailureCode

pub record AcquiredJob : Type 0 where
  pub job : JobRecord
  pub attempt : JobAttempt

pub record NewJob : Type 0 where
  pub id : ℕ
  pub kind : Text
  pub priority : ℤ
  pub parent_job_id : Option ℕ
  pub crawl_run_id : Option ℕ
  pub scheduled_at : ℕ
  pub max_attempts : ℕ

-- The columns of `crawl_runs` that the queue reads or writes.
pub record RunRow : Type 0 where
  pub id : ℕ
  pub run_type : CrawlRunType
  pub status : CrawlRunStatus
  pub snapshot_hash : Text
  pub compatibility_hash : Text

pub record CheckpointIdentity : Type 0 where
  pub snapshot_id : ℕ
  pub snapshot_hash : Text
  pub compatibility_hash : Text

pub record CheckpointEnvelope : Type 0 where
  pub sequence : ℕ  -- u64
  pub identity : CheckpointIdentity
  pub payload : Text  -- the encoded envelope

-- A row of `job_checkpoints`; `decoded` is what `CheckpointEnvelope::decode` makes of its text.
pub record CheckpointRow : Type 0 where
  pub id : ℕ
  pub job_id : ℕ
  pub attempt_id : Option ℕ
  pub decoded : Result CheckpointEnvelope CheckpointRepositoryError
  pub created_at : ℕ

-- A row of `job_progress_events`; of its payload only the terminal state matters here.
pub record ProgressRow : Type 0 where
  pub job_id : ℕ
  pub sequence : ℕ
  pub terminal : Option ProgressTerminalState
  pub created_at : ℕ

pub record Database : Type 0 where
  pub jobs : List JobRow
  pub attempts : List JobAttempt
  pub runs : List RunRow
  pub checkpoints : List CheckpointRow
  pub progress : List ProgressRow

abbrev pub state_eq : JobState → JobState → Bool
state_eq JobState.queued JobState.queued = true
state_eq JobState.running JobState.running = true
state_eq JobState.succeeded JobState.succeeded = true
state_eq JobState.failed JobState.failed = true
state_eq JobState.cancelled JobState.cancelled = true
state_eq _ _ = false

abbrev pub is_running : AttemptOutcome → Bool
is_running AttemptOutcome.running = true
is_running _ = false

abbrev pub same_id : ℕ → Option ℕ → Bool
same_id k none = false
same_id k (some n) = n == k

abbrev pub same_text : Text → Option Text → Bool
same_text t none = false
same_text t (some u) = text_eq u t

-- The derived `==` of leases.
unfoldable pub lease_eq : JobLease → JobLease → Bool
lease_eq a b =
    a.id == b.id
    && text_eq a.owner b.owner
    && a.generation == b.generation
    && a.acquired_at == b.acquired_at
    && a.expires_at == b.expires_at
    && a.heartbeat_at == b.heartbeat_at

-- `job.lease.as_ref() == Some(lease)`.
abbrev pub has_lease : JobLease → Option JobLease → Bool
has_lease lease none = false
has_lease lease (some held) = lease_eq held lease

-- `JobRecord::storage_class`.
abbrev pub storage_class : JobRecord → JobStorageClass
storage_class job = elim job.crawl_run_id [
  | some _ ↦ JobStorageClass.artifact_heavy
  | none ↦ JobStorageClass.storage_light
]
