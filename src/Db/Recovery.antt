-- ===== src/Db/Recovery.antt =====
-- crates/erabi-db/src/repositories/job.rs: what expired leases and finished runs make of the jobs.
use erabi.Base.{
  ℕ, ◌==◌, Bool, true, false, ◌&&◌, ◌||◌, List, [], ◌∷◌, Option, some, none, is_some, ok, err,
  if◌then◌else◌, ltb, leb, any, u32_max, saturating_add,
}
use erabi.Db.Tables.{
  JobState, JobFailureCode, AttemptOutcome, CrawlRunStatus, ProgressTerminalState,
  JobRepositoryError, JobLease, JobRow, JobRecord, CheckpointRow, Database, state_eq,
}
use erabi.Db.Statements.{
  Answer, Tx, ◌>>=◌, ◌>>◌, pure, raise, query, require_one, find_run, update_run,
}
use erabi.Db.Jobs.{select_job, close, always}
use erabi.Db.Progress.{append_terminal}
use erabi.Db.Checkpoints.{
  CheckpointEnvelopeDisposition, resume_candidate, restart_required, invalid, assess_one_stale_job,
}

pub record TerminalJobReconciliation : Type 0 where
  pub state : JobState
  pub progress : ProgressTerminalState

pub record StaleJobRecovery : Type 0 where
  pub requeued : ℕ  -- u32
  pub failed : ℕ
  pub resume_candidates : ℕ
  pub restart_required : ℕ
  pub invalid_checkpoints : ℕ

abbrev pub default_recovery : StaleJobRecovery
default_recovery = record {
  requeued = 0;
  failed = 0;
  resume_candidates = 0;
  restart_required = 0;
  invalid_checkpoints = 0;
}

unfoldable pub select_crawl_run_status : ℕ → Database → Option CrawlRunStatus
select_crawl_run_status k db = elim (find_run k db.runs) [ none ↦ none | some r ↦ some r.status ]

-- The statuses from which an execution may still fail.
abbrev pub may_fail : CrawlRunStatus → Bool
may_fail CrawlRunStatus.queued = true
may_fail CrawlRunStatus.running = true
may_fail CrawlRunStatus.failed = true
may_fail _ = false

abbrev pub is_open : CrawlRunStatus → Bool
is_open CrawlRunStatus.queued = true
is_open CrawlRunStatus.running = true
is_open _ = false

-- The run is failed (`transition_execution_status_in_transaction` with `Failed`) and the job's
-- stream closed; a job of no run has nothing to fail.
unfoldable pub finalize_crawl_failure_in_transaction : JobRecord → ℕ → Tx (Unit {0})
finalize_crawl_failure_in_transaction job now db = elim job.crawl_run_id [
  | none ↦ err JobRepositoryError.queue_invariant
  | some k ↦
      (do
        changed ← update_run k may_fail CrawlRunStatus.failed
        require_one JobRepositoryError.queue_invariant changed
        append_terminal job.id ProgressTerminalState.failed now)
        db
]

unfoldable pub cancel_related_run : Option ℕ → Tx (Unit {0})
cancel_related_run none db = ok (tt, db)
cancel_related_run (some k) db = (do _ ← update_run k is_open CrawlRunStatus.cancelled; pure tt) db

-- What a finished run makes of its job: the job's state, its attempt's outcome, and why.
pub record Verdict : Type 0 where
  pub state : JobState
  pub outcome : AttemptOutcome
  pub failure : Option JobFailureCode
  pub progress : ProgressTerminalState

unfoldable pub verdict : CrawlRunStatus → Option Verdict
verdict CrawlRunStatus.succeeded = some (record {
  state = JobState.succeeded;
  outcome = AttemptOutcome.succeeded;
  failure = none;
  progress = ProgressTerminalState.succeeded;
})
verdict CrawlRunStatus.partial_result = some (record {
  state = JobState.succeeded;
  outcome = AttemptOutcome.succeeded;
  failure = none;
  progress = ProgressTerminalState.succeeded;
})
verdict CrawlRunStatus.failed = some (record {
  state = JobState.failed;
  outcome = AttemptOutcome.failed;
  failure = some JobFailureCode.handler_failed;
  progress = ProgressTerminalState.failed;
})
verdict CrawlRunStatus.cancelled = some (record {
  state = JobState.cancelled;
  outcome = AttemptOutcome.failed;
  failure = some JobFailureCode.cancelled;
  progress = ProgressTerminalState.cancelled;
})
verdict CrawlRunStatus.queued = none
verdict CrawlRunStatus.running = none

unfoldable pub settle_running : ℕ → Verdict → ℕ → Option JobLease → Tx TerminalJobReconciliation
settle_running j v now none = raise JobRepositoryError.queue_invariant
settle_running j v now (some lease) = do
  close j lease now v.outcome v.failure always v.state none v.failure
  pure (record { state = v.state; progress = v.progress })

-- A job that is not running must have ended as the run did.
unfoldable pub settle : ℕ → Verdict → ℕ → JobRecord → Tx TerminalJobReconciliation
settle j v now job =
    if state_eq job.state JobState.running
    then settle_running j v now job.lease
    else if state_eq job.state v.state
    then pure (record { state = v.state; progress = v.progress })
    else raise JobRepositoryError.queue_invariant

unfoldable pub reconcile_with : ℕ → ℕ → Option Verdict → Tx (Option TerminalJobReconciliation)
reconcile_with j now none = pure none
reconcile_with j now (some v) = do job ← query (select_job j); r ← settle j v now job; pure (some r)

unfoldable pub reconcile_terminal_job_in_transaction :
    ℕ → CrawlRunStatus → ℕ → Tx (Option TerminalJobReconciliation)
reconcile_terminal_job_in_transaction j status now = reconcile_with j now (verdict status)

unfoldable pub reconcile_status :
    ℕ → ℕ → Option CrawlRunStatus → Tx (Option TerminalJobReconciliation)
reconcile_status j now none = pure none
reconcile_status j now (some status) = reconcile_terminal_job_in_transaction j status now

unfoldable pub finish_after_terminal_crawl_run : ℕ → ℕ → ℕ → Tx (Option TerminalJobReconciliation)
finish_after_terminal_crawl_run j run_id now db =
    reconcile_status j now (select_crawl_run_status run_id db) db

-- `job.crawl_run_id` with `finish_after_terminal_crawl_run`.
unfoldable pub finish_with_run : ℕ → Option ℕ → ℕ → Tx (Option TerminalJobReconciliation)
finish_with_run j none now = pure none
finish_with_run j (some run_id) now = finish_after_terminal_crawl_run j run_id now

-- `SELECT id FROM jobs WHERE …`, in the order of the identifiers.
unfoldable pub insert_id : ℕ → List ℕ → List ℕ
insert_id k [] = k ∷ []
insert_id k (i ∷ ids) = let rest = insert_id k ids in if leb k i then k ∷ i ∷ ids else i ∷ rest

unfoldable pub ids_where : (JobRow → Bool) → List JobRow → List ℕ
ids_where test [] = []
ids_where test (r ∷ rows) =
    let rest = ids_where test rows in if test r then insert_id r.id rest else rest

unfoldable pub is_expired : ℕ → JobRow → Bool
is_expired now r =
    state_eq r.state JobState.running
    && elim r.lease_expires_at [ none ↦ false | some at ↦ leb at now ]

unfoldable pub has_any_checkpoint : ℕ → Database → Bool
has_any_checkpoint j db = any (λ (c : CheckpointRow). c.job_id == j) db.checkpoints

unfoldable pub dispose : JobRecord → Database → Answer (Option CheckpointEnvelopeDisposition)
dispose job db =
    if is_some job.crawl_run_id || has_any_checkpoint job.id db
    then elim (assess_one_stale_job job.id job.crawl_run_id db) [
      | err e ↦ err (JobRepositoryError.checkpoint e)
      | ok d ↦ ok (some d)
    ]
    else ok none

abbrev pub allows_recovery : Option CheckpointEnvelopeDisposition → Bool
allows_recovery none = true
allows_recovery (some resume_candidate) = true
allows_recovery (some restart_required) = false
allows_recovery (some invalid) = false

abbrev pub plus_one : ℕ → ℕ
plus_one n = saturating_add u32_max n 1

abbrev pub count_disposition :
    Option CheckpointEnvelopeDisposition → StaleJobRecovery → StaleJobRecovery
count_disposition none s = s
count_disposition (some resume_candidate) s = record s {
  resume_candidates = plus_one s.resume_candidates;
}
count_disposition (some restart_required) s = record s {
  restart_required = plus_one s.restart_required;
}
count_disposition (some invalid) s = record s {
  invalid_checkpoints = plus_one s.invalid_checkpoints;
}

abbrev pub count_state : JobState → StaleJobRecovery → StaleJobRecovery
count_state JobState.queued s = record s { requeued = plus_one s.requeued }
count_state _ s = record s { failed = plus_one s.failed }

unfoldable pub next_state : Bool → JobRecord → JobState
next_state recoverable job =
    if recoverable && ltb job.current_attempt job.max_attempts
    then JobState.queued
    else JobState.failed

abbrev pub lease_expired_by : ℕ → JobRow → Bool
lease_expired_by now r = elim r.lease_expires_at [ none ↦ false | some at ↦ leb at now ]

abbrev pub fail_run : JobState → JobRecord → ℕ → Tx (Unit {0})
fail_run state job now =
    if state_eq state JobState.failed && is_some job.crawl_run_id
    then finalize_crawl_failure_in_transaction job now
    else pure tt

-- The second half of the loop's body: the attempt is over, and its job waits again or has failed.
unfoldable pub expire :
    ℕ
    → JobLease
    → ℕ
    → JobRecord
    → Option CheckpointEnvelopeDisposition
    → StaleJobRecovery
    → Tx StaleJobRecovery
expire j lease now job disposition counts = do
  let state = next_state (allows_recovery disposition) job
  close j lease now AttemptOutcome.lease_expired (some JobFailureCode.lease_expired)
      (lease_expired_by now) state (some now) (some JobFailureCode.lease_expired)
  fail_run state job now
  pure (count_state state (count_disposition disposition counts))

-- What is left to do for a job that its run has not settled.
unfoldable pub after_settling :
    ℕ
    → JobLease
    → ℕ
    → JobRecord
    → StaleJobRecovery
    → Option TerminalJobReconciliation
    → Tx StaleJobRecovery
after_settling j lease now job counts (some _) = pure counts
after_settling j lease now job counts none = do
  disposition ← query (dispose job)
  expire j lease now job disposition counts

-- The loop's body for a job and its lease.
unfoldable pub recover_leased :
    ℕ → ℕ → JobRecord → StaleJobRecovery → JobLease → Tx StaleJobRecovery
recover_leased j now job counts lease = if ltb now lease.expires_at then pure counts else do
  settled ← finish_with_run j job.crawl_run_id now
  after_settling j lease now job counts settled

unfoldable pub recover_read :
    ℕ → ℕ → StaleJobRecovery → JobRecord → Option JobLease → Tx StaleJobRecovery
recover_read now j counts job none = raise JobRepositoryError.queue_invariant
recover_read now j counts job (some lease) = recover_leased j now job counts lease

unfoldable pub recover_job : ℕ → ℕ → StaleJobRecovery → Tx StaleJobRecovery
recover_job now j counts = do job ← query (select_job j); recover_read now j counts job job.lease

unfoldable pub recover_all : ℕ → List ℕ → StaleJobRecovery → Tx StaleJobRecovery
recover_all now [] counts = pure counts
recover_all now (j ∷ ids) counts = do next ← recover_job now j counts; recover_all now ids next

unfoldable pub recover_expired_in_transaction : ℕ → Tx StaleJobRecovery
recover_expired_in_transaction now db =
    recover_all now (ids_where (is_expired now) db.jobs) default_recovery db
