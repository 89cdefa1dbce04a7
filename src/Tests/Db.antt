-- ===== src/Tests/Db.antt =====
-- The queue of crates/erabi-db/src/repositories/job.rs at concrete inputs: two jobs and a worker whose
-- lease expires, after which another worker attempts the first job again and ends it.
use erabi.Base.{
  ℕ, ◌≤◌, ◌≡◌, refl, true, false, [], ◌∷◌, Option, some, none, is_some, ok, err, is_ok, arith, pos,
  length,
}
use erabi.Text.{Text, text, text_eq, len}
use erabi.Db.Tables.{
  JobState, JobFailureCode, AttemptOutcome, CrawlRunStatus, CrawlRunType, ProgressTerminalState,
  JobRepositoryError, CheckpointRepositoryError, lease_eq, JobLease, JobRow, JobRecord, JobAttempt,
  NewJob, RunRow, CheckpointEnvelope, Database,
}
use erabi.Db.Statements.{
  find, find_run, put, check_job, legal_transition, update_job, attempts_of, insert_attempt,
  change_all, count_all, update_attempts, insert_job,
}
use erabi.Db.Checkpoints.{Checked, find_attempt}
use erabi.Db.Jobs.{
  valid_worker_id, lease_queued_job, is_due, select_job, job_from_row, row_lease, lease_of,
  is_job_kind, leased, started, close, finish_attempt_in_transaction, is_active, finished, holds,
  released, select_owned_running_job,
}
use erabi.Db.Recovery.{
  StaleJobRecovery, default_recovery, verdict, recover_expired_in_transaction, recover_all,
  recover_job, recover_read, recover_leased, after_settling, expire, next_state, dispose,
  has_any_checkpoint, finish_with_run, insert_id, ids_where, is_expired,
}
use erabi.Db.Consistency.{
  ensure_queue_invariants, bad_lease, bad_current, bad_idle, last_attempt, bad_count, bad_attempt,
}
use erabi.Db.Queue.{
  enqueue, new_row, acquire_next_with_storage_admission, lease_next, select_eligible_job,
  first_where, is_eligible, precedes, int_lt, heartbeat, succeed, fail_with_disposition,
  fail_terminal, fail_terminal_production, cancel,
}
use erabi.Db.Actions.{requeue_in_transaction, append_checkpoint, recover_in_transaction}
use erabi.Db.Calls.{
  latest_checkpoint_for_lineage, reconcile_terminal_crawl_runs, recover_stale_jobs,
  recover_and_rebuild_at,
}
use erabi.Db.System.{empty, Step, Steps, none_yet, then_one, enqueues, acquires, succeeds}
use erabi.Db.System.Invariants.{Steps-ensure_queue_invariants}
use erabi.Db.System.Ownership.{Steps-is_active_state, Steps-generation, Steps-max_attempts}
use erabi.Db.System.Lineage.{Steps-latest_checkpoint_for_lineage}
use erabi.Db.System.Restart.{reconcile_terminal_crawl_runs-differs}
use erabi.Db.System.Selection.{Chosen, acquire-precedes}

abbrev first_job : NewJob
first_job = record {
  id = 1;
  kind = text "PROBE";
  priority = pos 5;
  parent_job_id = none;
  crawl_run_id = none;
  scheduled_at = 10;
  max_attempts = 2;
}

abbrev second_job : NewJob
second_job = record first_job { id = 2; priority = pos 1; parent_job_id = some 1 }

abbrev queued_row : NewJob → JobRow
queued_row job = record {
  id = job.id;
  kind = job.kind;
  priority = job.priority;
  state = JobState.queued;
  parent_job_id = job.parent_job_id;
  crawl_run_id = job.crawl_run_id;
  scheduled_at = job.scheduled_at;
  current_attempt = 0;
  max_attempts = job.max_attempts;
  lease_id = none;
  lease_owner = none;
  lease_generation = 0;
  lease_acquired_at = none;
  lease_expires_at = none;
  heartbeat_at = none;
  failure_code = none;
  created_at = 10;
  updated_at = 10;
}

abbrev filed : Database
filed = record empty { jobs = queued_row first_job ∷ [] }

abbrev both_filed : Database
both_filed = record empty { jobs = queued_row second_job ∷ queued_row first_job ∷ [] }

abbrev lease_row : ℕ → ℕ → Text → ℕ → ℕ → JobRow → JobRow
lease_row lease_id n worker now expires r = record r {
  state = JobState.running;
  current_attempt = n;
  lease_id = some lease_id;
  lease_owner = some worker;
  lease_generation = n;
  lease_acquired_at = some now;
  lease_expires_at = some expires;
  heartbeat_at = some now;
  failure_code = none;
  updated_at = now;
}

abbrev first_attempt : JobAttempt
first_attempt = record {
  id = 21;
  job_id = 1;
  attempt_number = 1;
  lease_id = 11;
  lease_generation = 1;
  worker_id = text "one";
  started_at = 20;
  finished_at = none;
  outcome = AttemptOutcome.running;
  failure_code = none;
}

abbrev second_attempt : JobAttempt
second_attempt = record first_attempt {
  id = 22;
  attempt_number = 2;
  lease_id = 12;
  lease_generation = 2;
  worker_id = text "two";
  started_at = 60;
}

abbrev first_lease : JobLease
first_lease = record {
  id = 11;
  owner = text "one";
  generation = 1;
  acquired_at = 20;
  expires_at = 50;
  heartbeat_at = 20;
}

abbrev second_lease : JobLease
second_lease = record {
  id = 12;
  owner = text "two";
  generation = 2;
  acquired_at = 60;
  expires_at = 90;
  heartbeat_at = 60;
}

-- The job's row while the first worker has it.
abbrev first_running : JobRow
first_running = lease_row 11 1 (text "one") 20 50 (queued_row first_job)

-- The recovery schedules the job at once.
abbrev second_running : JobRow
second_running = record (lease_row 12 2 (text "two") 60 90 (queued_row first_job)) {
  scheduled_at = 60;
}

abbrev taken : Database
taken = record both_filed {
  jobs = queued_row second_job ∷ first_running ∷ [];
  attempts = first_attempt ∷ [];
}

abbrev expired_attempt : JobAttempt
expired_attempt = record first_attempt {
  finished_at = some 60;
  outcome = AttemptOutcome.lease_expired;
  failure_code = some JobFailureCode.lease_expired;
}

abbrev taken_again : Database
taken_again = record both_filed {
  jobs = queued_row second_job ∷ second_running ∷ [];
  attempts = second_attempt ∷ expired_attempt ∷ [];
}

abbrev ended_row : JobRow
ended_row = record second_running {
  state = JobState.succeeded;
  lease_id = none;
  lease_owner = none;
  lease_acquired_at = none;
  lease_expires_at = none;
  heartbeat_at = none;
  updated_at = 70;
}

abbrev ended : Database
ended = record both_filed {
  jobs = queued_row second_job ∷ ended_row ∷ [];
  attempts =
      record second_attempt { finished_at = some 70; outcome = AttemptOutcome.succeeded }
      ∷ expired_attempt
      ∷ [];
}

abbrev third_job : NewJob
third_job = record second_job { id = 3 }

abbrev all_filed : Database
all_filed = record ended { jobs = queued_row third_job ∷ ended.jobs }

abbrev job_of : JobRow → Option JobLease → JobRecord
job_of r lease = record {
  id = r.id;
  kind = r.kind;
  priority = r.priority;
  state = r.state;
  parent_job_id = r.parent_job_id;
  crawl_run_id = r.crawl_run_id;
  scheduled_at = r.scheduled_at;
  current_attempt = r.current_attempt;
  max_attempts = r.max_attempts;
  lease_generation = r.lease_generation;
  lease = lease;
  failure_code = r.failure_code;
  created_at = r.created_at;
  updated_at = r.updated_at;
}

files_first : enqueue first_job 10 empty ≡ ok (tt, filed)
unfolding enqueue new_row insert_job check_job find
files_first = refl

files_second : enqueue second_job 10 filed ≡ ok (tt, both_filed)
unfolding enqueue new_row insert_job check_job find
files_second = refl

takes :
    acquire_next_with_storage_admission 11 21 (text "one") 20 (pos 30) true both_filed
    ≡ ok (
      some (record { job = job_of first_running (some first_lease); attempt = first_attempt }),
      taken,
    )
unfolding acquire_next_with_storage_admission valid_worker_id ensure_queue_invariants bad_lease
    bad_current bad_idle last_attempt bad_count bad_attempt recover_expired_in_transaction
    recover_all recover_job recover_read recover_leased after_settling expire next_state dispose
    has_any_checkpoint finish_with_run insert_id ids_where is_expired lease_next select_eligible_job
    first_where is_eligible precedes int_lt lease_queued_job is_due select_job job_from_row
    row_lease lease_of is_job_kind leased started close finish_attempt_in_transaction is_active
    finished holds released find put check_job legal_transition update_job attempts_of
    insert_attempt change_all count_all update_attempts find_attempt text_eq len
takes = refl

takes_again :
    acquire_next_with_storage_admission 12 22 (text "two") 60 (pos 30) true taken
    ≡ ok (
      some (record { job = job_of second_running (some second_lease); attempt = second_attempt }),
      taken_again,
    )
unfolding acquire_next_with_storage_admission valid_worker_id ensure_queue_invariants bad_lease
    bad_current bad_idle last_attempt bad_count bad_attempt recover_expired_in_transaction
    recover_all recover_job recover_read recover_leased after_settling expire next_state dispose
    has_any_checkpoint finish_with_run insert_id ids_where is_expired lease_next select_eligible_job
    first_where is_eligible precedes int_lt lease_queued_job is_due select_job job_from_row
    row_lease lease_of is_job_kind leased started close finish_attempt_in_transaction is_active
    finished holds released find put check_job legal_transition update_job attempts_of
    insert_attempt change_all count_all update_attempts find_attempt text_eq len
takes_again = refl

ends : succeed 1 second_lease 70 taken_again ≡ ok (tt, ended)
unfolding succeed select_owned_running_job select_job job_from_row row_lease lease_of is_job_kind
    lease_eq close finish_attempt_in_transaction is_active finished holds released find put
    check_job legal_transition update_job change_all count_all update_attempts text_eq len
ends = refl

files_third : enqueue third_job 10 ended ≡ ok (tt, all_filed)
unfolding enqueue new_row insert_job check_job find
files_third = refl

retaking : Step taken taken_again
retaking =
    acquires 12 22 (text "two") 60 (pos 30) true
      (some (record { job = job_of second_running (some second_lease); attempt = second_attempt }))
      takes_again

to_taken : Steps empty taken
to_taken =
    then_one
      (then_one (then_one none_yet (enqueues first_job 10 tt files_first))
        (enqueues second_job 10 tt files_second))
      (acquires 11 21 (text "one") 20 (pos 30) true
        (some (record { job = job_of first_running (some first_lease); attempt = first_attempt }))
        takes)

to_taken_again : Steps empty taken_again
to_taken_again = then_one to_taken retaking

to_end : Steps taken_again ended
to_end = then_one none_yet (succeeds 1 second_lease 70 tt ends)

Steps-ensure_queue_invariants_example : ensure_queue_invariants taken_again ≡ ok tt
Steps-ensure_queue_invariants_example = Steps-ensure_queue_invariants to_taken_again

in_taken_again : find 1 taken_again.jobs ≡ some second_running
unfolding find
in_taken_again = refl

in_ended : find 1 ended.jobs ≡ some ended_row
unfolding find
in_ended = refl

Steps-is_active_state_example :
    (find 1 all_filed.jobs ≡ some ended_row)
    × (attempts_of 1 all_filed.attempts ≡ attempts_of 1 ended.attempts)
Steps-is_active_state_example =
    Steps-is_active_state 1 ended_row (then_one none_yet (enqueues third_job 10 tt files_third))
      in_ended refl

abbrev no_envelope : ℕ → Checked CheckpointEnvelope
no_envelope n = err CheckpointRepositoryError.invalid_envelope

abbrev more_taken : Database
more_taken = record taken_again { jobs = queued_row third_job ∷ taken_again.jobs }

files_more : enqueue third_job 10 taken_again ≡ ok (tt, more_taken)
unfolding enqueue new_row insert_job check_job find
files_more = refl

Steps-generation_example :
    (is_ok (heartbeat 1 first_lease 45 (pos 30) more_taken) ≡ false)
    × (is_ok (succeed 1 first_lease 45 more_taken) ≡ false)
    × (is_ok
          (fail_with_disposition 1 first_lease 45 JobFailureCode.handler_failed 50 false more_taken)
        ≡ false)
    × (is_ok (fail_terminal 1 first_lease 45 JobFailureCode.handler_failed more_taken) ≡ false)
    × (is_ok (fail_terminal_production 1 first_lease 45 JobFailureCode.handler_failed more_taken)
        ≡ false)
    × (is_ok (cancel 1 first_lease 45 more_taken) ≡ false)
    × (is_ok (requeue_in_transaction 1 first_lease 45 more_taken) ≡ false)
    × (is_ok (append_checkpoint 31 1 21 first_lease no_envelope 45 more_taken) ≡ false)
Steps-generation_example =
    Steps-generation 1 second_running first_lease 31 21 45 (pos 30) JobFailureCode.handler_failed 50
      false no_envelope to_taken_again (then_one none_yet (enqueues third_job 10 tt files_more))
      in_taken_again (omega arith)

Steps-max_attempts_example :
    (length (attempts_of 1 taken_again.attempts) ≡ 2)
    × (second_running.lease_generation ≡ second_running.current_attempt)
    × (2 ≤ 2)
Steps-max_attempts_example = Steps-max_attempts 1 second_running to_taken_again in_taken_again

Steps-latest_checkpoint_for_lineage_example :
    is_some (latest_checkpoint_for_lineage 2 taken_again) ≡ true
Steps-latest_checkpoint_for_lineage_example = Steps-latest_checkpoint_for_lineage 2 to_taken_again

acquire-precedes_example :
    (counts : StaleJobRecovery) × (c : Database) × (recover_expired_in_transaction 60 taken
      ≡ ok (counts, c))
    × Chosen 12
        (text "two")
        60
        true
        c
        (some
          (record { job = job_of second_running (some second_lease); attempt = second_attempt }))
        taken_again
acquire-precedes_example =
    acquire-precedes 12 22 (text "two") 60 (pos 30) true
      (some (record { job = job_of second_running (some second_lease); attempt = second_attempt }))
      taken_again to_taken takes_again

-- A job that failed, and its run after a child of the job has brought it to its end.
abbrev failed_row : JobRow
failed_row = record ended_row {
  state = JobState.failed;
  crawl_run_id = some 7;
  current_attempt = 1;
  lease_generation = 1;
}

abbrev good_run : RunRow
good_run = record {
  id = 7;
  run_type = CrawlRunType.production_run;
  status = CrawlRunStatus.succeeded;
  snapshot_hash = text "a";
  compatibility_hash = text "b";
}

abbrev split_ends : Database
split_ends = record empty {
  jobs = failed_row ∷ [];
  attempts = expired_attempt ∷ [];
  runs = good_run ∷ [];
}

in_split_ends : find 1 split_ends.jobs ≡ some failed_row
unfolding find
in_split_ends = refl

run_in_split_ends : find_run 7 split_ends.runs ≡ some good_run
unfolding find_run
run_in_split_ends = refl

good_verdict :
    verdict good_run.status
    ≡ some (record {
      state = JobState.succeeded;
      outcome = AttemptOutcome.succeeded;
      failure = none;
      progress = ProgressTerminalState.succeeded;
    })
unfolding verdict
good_verdict = refl

nothing_expired : recover_in_transaction 100 split_ends ≡ ok (default_recovery, split_ends)
unfolding recover_in_transaction ensure_queue_invariants bad_lease bad_current bad_idle last_attempt
    bad_count bad_attempt recover_expired_in_transaction recover_all ids_where is_expired find
    attempts_of text_eq
nothing_expired = refl

reconcile_terminal_crawl_runs-differs_example :
    (e : JobRepositoryError) × (reconcile_terminal_crawl_runs 100 split_ends ≡ (err e, split_ends))
    × (recover_stale_jobs 100 split_ends ≡ (err e, split_ends))
    × (recover_and_rebuild_at 100 split_ends ≡ (err e, split_ends))
reconcile_terminal_crawl_runs-differs_example =
    reconcile_terminal_crawl_runs-differs 1 7 failed_row good_run
      (record {
        state = JobState.succeeded;
        outcome = AttemptOutcome.succeeded;
        failure = none;
        progress = ProgressTerminalState.succeeded;
      })
      refl refl good_verdict refl 100 split_ends split_ends default_recovery in_split_ends
      run_in_split_ends nothing_expired
