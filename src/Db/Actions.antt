-- ===== src/Db/Actions.antt =====
-- crates/erabi-db/src/repositories/job.rs: recovery actions on jobs that have ended, work that the
-- lack of storage interrupts, and the operations that make several transactions.
use erabi.Base.{
  ℕ, ◌==◌, Bool, true, false, not, ◌&&◌, ◌||◌, List, [], ◌∷◌, Option, some, none, is_some, ok, err,
  if◌then◌else◌, leb, any,
}
use erabi.Text.{Text, text, text_eq}
use erabi.Db.Tables.{
  JobState, JobFailureCode, AttemptOutcome, CrawlRunStatus, ProgressTerminalState,
  JobRepositoryError, JobLease, JobRow, JobRecord, RunRow, CheckpointEnvelope, CheckpointRow,
  Database, state_eq, is_running, has_lease,
}
use erabi.Db.Statements.{
  Answer, Tx, ◌>>=◌, ◌>>◌, pure, raise, raise_if, query, require_one, find_run, update_run,
  insert_job,
}
use erabi.Db.Jobs.{select_job, select_owned_running_job, close, always}
use erabi.Db.Checkpoints.{Checked, CheckpointRecord, find_attempt, append_in_transaction}
use erabi.Db.Recovery.{
  TerminalJobReconciliation, StaleJobRecovery, select_crawl_run_status, verdict, fail_run,
  next_state, finish_with_run, reconcile_terminal_job_in_transaction,
  recover_expired_in_transaction,
}
use erabi.Db.Consistency.{ensure_queue_invariants}
use erabi.Db.Queue.{new_row, queued_run, insert_run}

unfoldable pub is_recovery_continuation_kind : Text → Bool
is_recovery_continuation_kind kind =
    text_eq kind (text "RETRY")
    || text_eq kind (text "RETRY_FAILED_PARTS")
    || text_eq kind (text "RESUME_CHECKPOINT")
    || text_eq kind (text "RESTART_FROM_BEGINNING")

abbrev pub is_active_state : JobState → Bool
is_active_state JobState.queued = true
is_active_state JobState.running = true
is_active_state _ = false

-- A queued or running child of the job whose kind passes the test.
unfoldable pub active_child : ℕ → (Text → Bool) → List JobRow → Bool
active_child j test rows =
    any
      (λ r.
        elim r.parent_job_id [ none ↦ false | some p ↦ p == j ]
        && test r.kind
        && is_active_state r.state)
      rows

unfoldable pub validate_action_child_lineage : JobRecord → ℕ → Text → Database → Answer (Unit {0})
validate_action_child_lineage source j kind db =
    if is_active_state source.state
    then err JobRepositoryError.illegal_transition
    else if active_child j (λ k. text_eq k kind) db.jobs
    then err JobRepositoryError.action_already_active
    else if is_recovery_continuation_kind kind
        && active_child j is_recovery_continuation_kind db.jobs
    then err JobRepositoryError.action_already_active
    else ok tt

pub data ActionRunAssociation : Type 0 where
  no_run : ActionRunAssociation
  same_source_run : ActionRunAssociation
  new_independent_run : RunRow → ActionRunAssociation

-- The statuses from which a run may be queued again.
abbrev pub is_restartable : CrawlRunStatus → Bool
is_restartable CrawlRunStatus.running = false
is_restartable _ = true

unfoldable pub requeue_run : Option ℕ → Tx (Option ℕ)
requeue_run none = raise JobRepositoryError.queue_invariant
requeue_run (some k) = do
  changed ← update_run k is_restartable CrawlRunStatus.queued
  require_one JobRepositoryError.queue_invariant changed
  pure (some k)

unfoldable pub action_child_crawl_run_id : JobRecord → ActionRunAssociation → Tx (Option ℕ)
action_child_crawl_run_id source no_run = pure none
action_child_crawl_run_id source same_source_run = requeue_run source.crawl_run_id
action_child_crawl_run_id source (new_independent_run run) = do
  insert_run (queued_run run)
  pure (some run.id)

abbrev pub attempts_or : Option ℕ → ℕ → ℕ
attempts_or none n = n
attempts_or (some m) n = m

unfoldable pub child_row : ℕ → JobRecord → ℕ → Text → Option ℕ → Option ℕ → ℕ → JobRow
child_row child source j kind run_id max_attempts now =
    new_row
      (record {
        id = child;
        kind = kind;
        priority = source.priority;
        parent_job_id = some j;
        crawl_run_id = run_id;
        scheduled_at = now;
        max_attempts = attempts_or max_attempts source.max_attempts;
      })
      now

-- The child's identifier comes from `JobId::new`.
unfoldable pub enqueue_action_child :
    ℕ → ℕ → Text → ℕ → ActionRunAssociation → Option ℕ → Tx JobRecord
enqueue_action_child child j kind now association max_attempts = do
  source ← query (select_job j)
  query (validate_action_child_lineage source j kind)
  run_id ← action_child_crawl_run_id source association
  insert_job (child_row child source j kind run_id max_attempts now)
  query (select_job child)

-- A checkpoint of the attempt that the lease runs.
unfoldable pub has_checkpoint_for_current_attempt : ℕ → JobLease → Database → Bool
has_checkpoint_for_current_attempt j lease db =
    any
      (λ (c : CheckpointRow). c.job_id == j && elim c.attempt_id [
        | none ↦ false
        | some k ↦ elim (find_attempt k db.attempts) [
          | none ↦ false
          | some a ↦
              a.job_id == j
              && a.lease_id == lease.id
              && a.lease_generation == lease.generation
              && is_running a.outcome
        ]
      ])
      db.checkpoints

unfoldable pub interrupt : ℕ → JobLease → ℕ → JobRecord → Bool → Tx JobState
interrupt j lease now job resumable = do
  let state = next_state resumable job
  close j lease now AttemptOutcome.failed (some JobFailureCode.storage_pressure) always state
      (some now) (some JobFailureCode.storage_pressure)
  fail_run state job now
  pure state

unfoldable pub interrupt_unless :
    ℕ
    → JobLease
    → ℕ
    → JobRecord
    → Option TerminalJobReconciliation
    → Tx (Option TerminalJobReconciliation × JobState)
interrupt_unless j lease now job (some r) = pure (some r, r.state)
interrupt_unless j lease now job none = do
  resumable ← query (λ db. ok (has_checkpoint_for_current_attempt j lease db))
  state ← interrupt j lease now job resumable
  pure (none, state)

-- The transaction of `requeue_after_storage_pressure`.
unfoldable pub requeue_in_transaction :
    ℕ → JobLease → ℕ → Tx (Option TerminalJobReconciliation × JobState)
requeue_in_transaction j lease now = do
  job ← query (select_owned_running_job j lease now)
  settled ← finish_with_run j job.crawl_run_id now
  interrupt_unless j lease now job settled

abbrev pub names_other_run : ℕ → Option ℕ → Bool
names_other_run run_id none = true
names_other_run run_id (some k) = not (k == run_id)

abbrev pub must_settle : Option TerminalJobReconciliation → Tx TerminalJobReconciliation
must_settle none = raise JobRepositoryError.queue_invariant
must_settle (some r) = pure r

unfoldable pub reconcile_run_status :
    ℕ → JobLease → ℕ → ℕ → CrawlRunStatus → Tx TerminalJobReconciliation
reconcile_run_status j lease run_id now status = do
  job ← query (select_job j)
  raise_if (names_other_run run_id job.crawl_run_id) JobRepositoryError.queue_invariant
  raise_if (state_eq job.state JobState.running && not (has_lease lease job.lease))
      JobRepositoryError.lease_lost
  settled ← reconcile_terminal_job_in_transaction j status now
  must_settle settled

-- The transaction of `reconcile_terminal_crawl_run`.
unfoldable pub reconcile_terminal_crawl_run : ℕ → JobLease → ℕ → ℕ → Tx TerminalJobReconciliation
reconcile_terminal_crawl_run j lease run_id now db = elim (select_crawl_run_status run_id db) [
  | none ↦ err JobRepositoryError.queue_invariant
  | some status ↦ reconcile_run_status j lease run_id now status db
]

-- The jobs of ended runs with the runs' statuses, in the order of the jobs' identifiers.
unfoldable pub insert_ended :
    ℕ × CrawlRunStatus → List (ℕ × CrawlRunStatus) → List (ℕ × CrawlRunStatus)
insert_ended (k, s) [] = (k, s) ∷ []
insert_ended (k, s) ((i, t) ∷ rows) =
    let rest = insert_ended (k, s) rows in if leb k i then (k, s) ∷ (i, t) ∷ rows else (i, t) ∷ rest

abbrev pub ended_status : Option ℕ → List RunRow → Option CrawlRunStatus
ended_status none runs = none
ended_status (some k) runs = elim (find_run k runs) [
  | none ↦ none
  | some run ↦ if is_some (verdict run.status) then some run.status else none
]

abbrev pub add_ended :
    ℕ → Option CrawlRunStatus → List (ℕ × CrawlRunStatus) → List (ℕ × CrawlRunStatus)
add_ended j none rows = rows
add_ended j (some status) rows = insert_ended (j, status) rows

unfoldable pub ended_jobs : List JobRow → List RunRow → List (ℕ × CrawlRunStatus)
ended_jobs [] runs = []
ended_jobs (r ∷ rows) runs =
    add_ended r.id (ended_status r.crawl_run_id runs) (ended_jobs rows runs)

abbrev pub Repairs : Type 0
Repairs = List (ℕ × ProgressTerminalState)

abbrev pub note_repair : ℕ → Option TerminalJobReconciliation → Repairs → Repairs
note_repair j none repairs = repairs
note_repair j (some r) repairs = (j, r.progress) ∷ repairs

unfoldable pub reconcile_each : ℕ → List (ℕ × CrawlRunStatus) → Tx Repairs
reconcile_each now [] = pure []
reconcile_each now ((j, status) ∷ rows) = do
  settled ← reconcile_terminal_job_in_transaction j status now
  repairs ← reconcile_each now rows
  pure (note_repair j settled repairs)

unfoldable pub reconcile_in_transaction : ℕ → Tx Repairs
reconcile_in_transaction now db = reconcile_each now (ended_jobs db.jobs db.runs) db

unfoldable pub recover_in_transaction : ℕ → Tx StaleJobRecovery
recover_in_transaction now = do query ensure_queue_invariants; recover_expired_in_transaction now

unfoldable pub append_checkpoint :
    ℕ → ℕ → ℕ → JobLease → (ℕ → Checked CheckpointEnvelope) → ℕ → Tx CheckpointRecord
append_checkpoint id j attempt_id lease encode created_at db =
    elim (append_in_transaction id j attempt_id lease encode created_at db) [
      | err e ↦ err (JobRepositoryError.checkpoint e)
      | ok (r, db') ↦ ok (r, db')
    ]
