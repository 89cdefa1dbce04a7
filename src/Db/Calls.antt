-- ===== src/Db/Calls.antt =====
-- crates/erabi-db/src/repositories/job.rs: the calls that make several transactions or reads, and the
-- start of the process in crates/erabi-jobs/src/lib.rs.
use erabi.Base.{
  ℕ, zero, suc, Bool, false, ◌&&◌, List, [], ◌∷◌, Option, some, none, ok, err, ltb, length,
}
use erabi.Db.Tables.{JobState, JobRepositoryError, JobLease, JobRow, Database, state_eq}
use erabi.Db.Statements.{Answer, Tx}
use erabi.Db.Jobs.{select_job}
use erabi.Db.Progress.{append_terminal_progress_if_missing_in_transaction}
use erabi.Db.Checkpoints.{CheckpointRecord, latest_checkpoint}
use erabi.Db.Recovery.{StaleJobRecovery, ids_where}
use erabi.Db.Consistency.{ensure_queue_invariants}
use erabi.Db.Actions.{
  Repairs, reconcile_in_transaction, recover_in_transaction, requeue_in_transaction,
}

-- A call's answer, with the database as its transactions leave it.
abbrev pub Call : Type 0 → Type 0
Call A = Database → Answer A × Database

-- Commit, or roll back.
unfoldable pub transact : {A : Type 0} → Tx A → Call A
transact m db = elim (m db) [ err e ↦ (err e, db) | ok (a, db') ↦ (ok a, db') ]

-- Each repair is a transaction of its own.
unfoldable pub repair_each : ℕ → Repairs → Call (Unit {0})
repair_each now [] db = (ok tt, db)
repair_each now ((j, terminal) ∷ repairs) db =
    elim (append_terminal_progress_if_missing_in_transaction j terminal now db) [
      | err e ↦ (err e, db)
      | ok (_, db') ↦ repair_each now repairs db'
    ]

unfoldable pub reconcile_terminal_crawl_runs : ℕ → Call (Unit {0})
reconcile_terminal_crawl_runs now db = elim (reconcile_in_transaction now db) [
  | err e ↦ (err e, db)
  | ok (repairs, db') ↦ repair_each now repairs db'
]

abbrev pub answer_with : {A B : Type 0} → A → Answer B × Database → Answer A × Database
answer_with a (err e, db) = (err e, db)
answer_with a (ok _, db) = (ok a, db)

unfoldable pub recover_stale_jobs : ℕ → Call StaleJobRecovery
recover_stale_jobs now db = elim (recover_in_transaction now db) [
  | err e ↦ (err e, db)
  | ok (recovery, db') ↦ answer_with recovery (reconcile_terminal_crawl_runs now db')
]

unfoldable pub requeue_after_storage_pressure : ℕ → JobLease → ℕ → Call JobState
requeue_after_storage_pressure j lease now db = elim (requeue_in_transaction j lease now db) [
  | err e ↦ (err e, db)
  | ok ((none, state), db') ↦ (ok state, db')
  | ok ((some r, _), db') ↦
      answer_with r.state
        (transact (append_terminal_progress_if_missing_in_transaction j r.progress now) db')
]

abbrev pub is_live : ℕ → JobRow → Bool
is_live now r =
    state_eq r.state JobState.running
    && elim r.lease_expires_at [ none ↦ false | some at ↦ ltb now at ]

-- The identifiers of the jobs whose lease is current, in order.
unfoldable pub rebuild_concurrency_state : ℕ → Database → Answer (List ℕ)
rebuild_concurrency_state now db = elim (ensure_queue_invariants db) [
  | err e ↦ err e
  | ok _ ↦ ok (ids_where (is_live now) db.jobs)
]

abbrev pub rebuild_after :
    ℕ → Answer StaleJobRecovery × Database → Answer (StaleJobRecovery × List ℕ) × Database
rebuild_after now (err e, db) = (err e, db)
rebuild_after now (ok recovery, db) = elim (rebuild_concurrency_state now db) [
  | err e ↦ (err e, db)
  | ok running ↦ (ok (recovery, running), db)
]

-- `recover_and_rebuild_at` of crates/erabi-jobs/src/lib.rs, with which the process starts.
unfoldable pub recover_and_rebuild_at : ℕ → Call (StaleJobRecovery × List ℕ)
recover_and_rebuild_at now db = rebuild_after now (recover_stale_jobs now db)

-- The chain of parents that `latest_checkpoint_for_lineage` walks, with fuel: `none` if it runs
-- out, and an error if a job is missing or malformed.
unfoldable pub lineage : ℕ → ℕ → Database → Option (Answer (List ℕ))
lineage zero j db = none
lineage (suc fuel) j db = elim (select_job j db) [
  | err e ↦ some (err e)
  | ok job ↦ elim job.parent_job_id [
    | none ↦ some (ok (j ∷ []))
    | some p ↦ elim (lineage fuel p db) [
      | none ↦ none
      | some (err e) ↦ some (err e)
      | some (ok ids) ↦ some (ok (j ∷ ids))
    ]
  ]
]

unfoldable pub first_checkpoint : List ℕ → Database → Answer (Option CheckpointRecord)
first_checkpoint [] db = ok none
first_checkpoint (j ∷ ids) db = elim (latest_checkpoint j db) [
  | err e ↦ err (JobRepositoryError.checkpoint e)
  | ok none ↦ first_checkpoint ids db
  | ok (some r) ↦ ok (some r)
]

unfoldable pub latest_checkpoint_for_lineage :
    ℕ → Database → Option (Answer (Option CheckpointRecord))
latest_checkpoint_for_lineage j db = elim (lineage (suc (length db.jobs)) j db) [
  | none ↦ none
  | some (err e) ↦ some (err e)
  | some (ok ids) ↦ some (first_checkpoint ids db)
]
