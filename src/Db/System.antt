-- ===== src/Db/System.antt =====
-- The queue of crates/erabi-db/src/repositories/job.rs under any sequence of transactions of its
-- workers, of its users, and of the repositories that write the other tables.
pub mod Promises
pub mod Invariants
pub mod Ownership
pub mod Lineage
pub mod Restart
pub mod Order
pub mod Selection
use erabi.Base.{ℕ, ◌≡◌, Bool, List, [], Option, ok, ℤ}
use erabi.Text.{Text}
use erabi.Db.Tables.{
  JobState, JobFailureCode, ProgressTerminalState, JobLease, JobRecord, AcquiredJob, NewJob, RunRow,
  CheckpointEnvelope, Database,
}
use erabi.Db.Checkpoints.{Checked, CheckpointRecord}
use erabi.Db.Progress.{append_terminal_progress_if_missing_in_transaction}
use erabi.Db.Recovery.{TerminalJobReconciliation, StaleJobRecovery}
use erabi.Db.Queue.{
  enqueue, RunConfiguration, create_quick_scrape_run_with_root_job,
  create_production_run_with_root_job, acquire_next_with_storage_admission, heartbeat, succeed,
  fail_with_disposition, fail_terminal, fail_terminal_production, cancel, cancel_queued,
  reprioritize, remove_if_safe,
}
use erabi.Db.Actions.{
  ActionRunAssociation, enqueue_action_child, requeue_in_transaction, reconcile_terminal_crawl_run,
  Repairs, reconcile_in_transaction, recover_in_transaction, append_checkpoint,
}

abbrev pub empty : Database
empty = record { jobs = []; attempts = []; runs = []; checkpoints = []; progress = [] }

-- One committed transaction. The other repositories write neither jobs nor attempts.
pub data Step : Database → Database → Type 0 where
  enqueues :
      {a b : Database} (job : NewJob) (now : ℕ) (u : Unit {0})
      → enqueue job now a ≡ ok (u, b)
      → Step a b
  scrapes :
      {a b : Database} (c : RunConfiguration) (run : RunRow) (job : NewJob) (now : ℕ) (u : Unit {0})
      → create_quick_scrape_run_with_root_job c run job now a ≡ ok (u, b)
      → Step a b
  produces :
      {a b : Database} (c : RunConfiguration) (run : RunRow) (job : NewJob) (now : ℕ) (u : Unit {0})
      → create_production_run_with_root_job c run job now a ≡ ok (u, b)
      → Step a b
  acquires :
      {a b : Database} (lease_id attempt_id : ℕ) (worker : Text) (now : ℕ) (duration : ℤ)
      (allow : Bool) (o : Option AcquiredJob)
      → acquire_next_with_storage_admission lease_id attempt_id worker now duration allow a
        ≡ ok (o, b)
      → Step a b
  beats :
      {a b : Database} (j : ℕ) (l : JobLease) (now : ℕ) (duration : ℤ) (next : JobLease)
      → heartbeat j l now duration a ≡ ok (next, b)
      → Step a b
  succeeds :
      {a b : Database} (j : ℕ) (l : JobLease) (now : ℕ) (u : Unit {0})
      → succeed j l now a ≡ ok (u, b)
      → Step a b
  fails :
      {a b : Database} (j : ℕ) (l : JobLease) (now : ℕ) (failure : JobFailureCode) (retry_at : ℕ)
      (terminal : Bool) (s : JobState)
      → fail_with_disposition j l now failure retry_at terminal a ≡ ok (s, b)
      → Step a b
  fails_for_good :
      {a b : Database} (j : ℕ) (l : JobLease) (now : ℕ) (failure : JobFailureCode) (u : Unit {0})
      → fail_terminal j l now failure a ≡ ok (u, b)
      → Step a b
  fails_production :
      {a b : Database} (j : ℕ) (l : JobLease) (now : ℕ) (failure : JobFailureCode) (u : Unit {0})
      → fail_terminal_production j l now failure a ≡ ok (u, b)
      → Step a b
  cancels :
      {a b : Database} (j : ℕ) (l : JobLease) (now : ℕ) (u : Unit {0})
      → cancel j l now a ≡ ok (u, b)
      → Step a b
  cancels_queued :
      {a b : Database} (j now : ℕ) (s : JobState) → cancel_queued j now a ≡ ok (s, b) → Step a b
  reprioritizes :
      {a b : Database} (j : ℕ) (priority : ℤ) (scheduled_at now : ℕ) (job : JobRecord)
      → reprioritize j priority scheduled_at now a ≡ ok (job, b)
      → Step a b
  removes : {a b : Database} (j : ℕ) (u : Unit {0}) → remove_if_safe j a ≡ ok (u, b) → Step a b
  acts :
      {a b : Database} (child j : ℕ) (kind : Text) (now : ℕ) (association : ActionRunAssociation)
      (max_attempts : Option ℕ) (job : JobRecord)
      → enqueue_action_child child j kind now association max_attempts a ≡ ok (job, b)
      → Step a b
  interrupts :
      {a b : Database} (j : ℕ) (l : JobLease) (now : ℕ)
      (x : Option TerminalJobReconciliation × JobState)
      → requeue_in_transaction j l now a ≡ ok (x, b)
      → Step a b
  recovers :
      {a b : Database} (now : ℕ) (counts : StaleJobRecovery)
      → recover_in_transaction now a ≡ ok (counts, b)
      → Step a b
  reconciles :
      {a b : Database} (now : ℕ) (repairs : Repairs)
      → reconcile_in_transaction now a ≡ ok (repairs, b)
      → Step a b
  reconciles_one :
      {a b : Database} (j : ℕ) (l : JobLease) (run_id now : ℕ) (t : TerminalJobReconciliation)
      → reconcile_terminal_crawl_run j l run_id now a ≡ ok (t, b)
      → Step a b
  repairs :
      {a b : Database} (j : ℕ) (t : ProgressTerminalState) (now : ℕ) (u : Unit {0})
      → append_terminal_progress_if_missing_in_transaction j t now a ≡ ok (u, b)
      → Step a b
  checkpoints :
      {a b : Database} (id j attempt_id : ℕ) (l : JobLease)
      (encode : ℕ → Checked CheckpointEnvelope) (created_at : ℕ) (r : CheckpointRecord)
      → append_checkpoint id j attempt_id l encode created_at a ≡ ok (r, b)
      → Step a b
  others : {a b : Database} → b.jobs ≡ a.jobs → b.attempts ≡ a.attempts → Step a b

-- Any number of transactions.
pub data Steps (a : Database) : Database → Type 0 where
  none_yet : Steps a a
  then_one : {b c : Database} → Steps a b → Step b c → Steps a c
