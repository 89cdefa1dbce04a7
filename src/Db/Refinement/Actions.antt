-- ===== src/Db/Refinement/Actions.antt =====
-- The recovery actions of crates/erabi-db/src/repositories/job.rs, its checkpoints, and its
-- reconciliations, as moves of the jobs.
use erabi.Base.{
  ℕ, ◌≡◌, refl, ap, ◌∙◌, inl, inr, Bool, not, ◌&&◌, List, [], ◌∷◌, Option, some, none, ok, arith,
  Option-cases,
}
use erabi.Text.{Text}
use erabi.Db.Tables.{
  JobState, JobFailureCode, AttemptOutcome, CrawlRunStatus, ProgressTerminalState,
  JobRepositoryError, JobLease, JobRow, JobRecord, NewJob, CheckpointEnvelope, Database, state_eq,
  has_lease,
}
use erabi.Db.Statements.{find, insert_job, update_run}
use erabi.Db.Statements.Inversion.{bind-ok, query-ok, raise_if-ok}
use erabi.Db.Jobs.{select_job, select_owned_running_job, close, always}
use erabi.Db.Jobs.Reading.{Reads, select_owned-ok}
use erabi.Db.Progress.{append_terminal_progress_if_missing_in_transaction, append_terminal}
use erabi.Db.Checkpoints.{Checked, CheckpointRecord, append_in_transaction}
use erabi.Db.Recovery.{
  TerminalJobReconciliation, StaleJobRecovery, select_crawl_run_status, finish_with_run, next_state,
  fail_run, reconcile_terminal_job_in_transaction,
}
use erabi.Db.Consistency.{ensure_queue_invariants}
use erabi.Db.Queue.{insert_run, queued_run, new_row}
use erabi.Db.Actions.{
  ActionRunAssociation, no_run, same_source_run, new_independent_run, requeue_run,
  action_child_crawl_run_id, attempts_or, child_row, validate_action_child_lineage,
  enqueue_action_child, has_checkpoint_for_current_attempt, interrupt, interrupt_unless,
  requeue_in_transaction, names_other_run, must_settle, reconcile_run_status,
  reconcile_terminal_crawl_run, Repairs, reconcile_each, reconcile_in_transaction,
  recover_in_transaction, append_checkpoint,
}
use erabi.Db.Refinement.{Refines, Refines-refl, Refines-same, Refines-trans}
use erabi.Db.Refinement.Leases.{close-Refines}
use erabi.Db.Refinement.Recovery.{
  finish_with_run-Refines, finish_with_run-none, fail_run-Refines, next_state-MayEnd, MayEnd-found,
  recover_expired-Refines, reconcile_terminal_job-Refines,
}
use erabi.Db.Refinement.Operations.{insert_job-Refines, insert_run-Refines}

requeue_run-Refines :
    (o : Option ℕ) (a : Database) (run_id : Option ℕ) (b : Database)
    → requeue_run o a ≡ ok (run_id, b)
    → Refines a b
unfolding requeue_run update_run
requeue_run-Refines none a run_id b h = cc
requeue_run-Refines (some k) a run_id b h = Refines-same a b (ground (arith, h)) (ground (arith, h))

action_child_crawl_run_id-Refines :
    (source : JobRecord) (association : ActionRunAssociation) (a : Database) (run_id : Option ℕ)
    (b : Database)
    → action_child_crawl_run_id source association a ≡ ok (run_id, b)
    → Refines a b
unfolding action_child_crawl_run_id
action_child_crawl_run_id-Refines source no_run a run_id b h =
    let same : b ≡ a = ground (arith, h) in rw same (Refines-refl a)
action_child_crawl_run_id-Refines source same_source_run a run_id b h =
    requeue_run-Refines source.crawl_run_id a run_id b h
action_child_crawl_run_id-Refines source (new_independent_run run) a run_id b h =
    let (u, c, inserted, h1) = bind-ok (insert_run (queued_run run) a) _ run_id b h in
    let same : b ≡ c = ground (arith, h1) in
    rw same (insert_run-Refines (queued_run run) a u c inserted)

pub enqueue_action_child-Refines :
    (child j : ℕ) (kind : Text) (now : ℕ) (association : ActionRunAssociation)
    (max_attempts : Option ℕ) (a : Database) (job : JobRecord) (b : Database)
    → enqueue_action_child child j kind now association max_attempts a ≡ ok (job, b)
    → Refines a b
unfolding enqueue_action_child child_row
enqueue_action_child-Refines child j kind now association max_attempts a job b h =
    let (source, _, h1) = query-ok (select_job j a) a _ job b h in
    let (_, _, h2) = query-ok (validate_action_child_lineage source j kind a) a _ job b h1 in
    let (run_id, c, associated, h3) =
      bind-ok (action_child_crawl_run_id source association a) _ job b h2 in
    let new_job : NewJob = record {
      id = child;
      kind = kind;
      priority = source.priority;
      parent_job_id = some j;
      crawl_run_id = run_id;
      scheduled_at = now;
      max_attempts = attempts_or max_attempts source.max_attempts;
    } in
    let (u, d, inserted, h4) = bind-ok (insert_job (new_row new_job now) c) _ job b h3 in
    let same : b ≡ d = ground (arith, h4) in
    rw same (
      Refines-trans (action_child_crawl_run_id-Refines source association a run_id c associated)
        (insert_job-Refines new_job now c u d inserted))

interrupt-Refines :
    (j : ℕ) (l : JobLease) (now : ℕ) (job : JobRecord) (resumable : Bool) (a : Database)
    (r : JobRow) (s : JobState) (b : Database)
    → find j a.jobs ≡ some r
    → Reads r job
    → interrupt j l now job resumable a ≡ ok (s, b)
    → Refines a b
unfolding interrupt
interrupt-Refines j l now job resumable a r s b found reads h =
    let state = next_state resumable job in
    let why = some JobFailureCode.storage_pressure in
    let (u, c, closed, h1) =
      bind-ok (close j l now AttemptOutcome.failed why always state (some now) why a) _ s b h in
    let (v, d, failed, h2) = bind-ok (fail_run state job now c) _ s b h1 in
    let same : b ≡ d = ground (arith, h2) in
    rw same (
      Refines-trans
        (close-Refines j l now AttemptOutcome.failed why always state (some now) why a u c closed
          refl (MayEnd-found j state a r found (next_state-MayEnd resumable job r reads)))
        (fail_run-Refines state job now c v d failed))

interrupt_unless-Refines :
    (j : ℕ) (l : JobLease) (now : ℕ) (job : JobRecord) (o : Option TerminalJobReconciliation)
    (a : Database) (r : JobRow) (x : Option TerminalJobReconciliation × JobState) (b : Database)
    → (o ≡ none → find j a.jobs ≡ some r)
    → Reads r job
    → interrupt_unless j l now job o a ≡ ok (x, b)
    → Refines a b
unfolding interrupt_unless
interrupt_unless-Refines j l now job (some t) a r x b found reads h =
    let same : b ≡ a = ground (arith, h) in rw same (Refines-refl a)
interrupt_unless-Refines j l now job none a r x b found reads h =
    let resumable = has_checkpoint_for_current_attempt j l a in
    let (s, c, interrupted, h1) = bind-ok (interrupt j l now job resumable a) _ x b h in
    let same : b ≡ c = ground (arith, h1) in
    rw same (interrupt-Refines j l now job resumable a r s c (found refl) reads interrupted)

pub requeue_in_transaction-Refines :
    (j : ℕ) (l : JobLease) (now : ℕ) (a : Database)
    (x : Option TerminalJobReconciliation × JobState) (b : Database)
    → requeue_in_transaction j l now a ≡ ok (x, b)
    → Refines a b
unfolding requeue_in_transaction
requeue_in_transaction-Refines j l now a x b h =
    let (job, owned, h1) = query-ok (select_owned_running_job j l now a) a _ x b h in
    let (r, found, reads, _) = select_owned-ok j l now a job owned in
    let (o, c, settled, h2) = bind-ok (finish_with_run j job.crawl_run_id now a) _ x b h1 in
    Refines-trans (finish_with_run-Refines j job.crawl_run_id now a o c settled) (
      interrupt_unless-Refines j l now job o c r x b
        (λ e.
          rw (finish_with_run-none j job.crawl_run_id now a c (settled ∙ ap (λ y. ok (y, c)) e))
            found)
        reads h2)

must_settle-same :
    (o : Option TerminalJobReconciliation) (a : Database) (t : TerminalJobReconciliation)
    (b : Database)
    → must_settle o a ≡ ok (t, b)
    → b ≡ a
must_settle-same none a t b h = cc
must_settle-same (some r) a t b h = ground (arith, h)

reconcile_run_status-Refines :
    (j : ℕ) (l : JobLease) (run_id now : ℕ) (s : CrawlRunStatus) (a : Database)
    (t : TerminalJobReconciliation) (b : Database)
    → reconcile_run_status j l run_id now s a ≡ ok (t, b)
    → Refines a b
unfolding reconcile_run_status
reconcile_run_status-Refines j l run_id now s a t b h =
    let (job, _, h1) = query-ok (select_job j a) a _ t b h in
    let (_, h2) =
      raise_if-ok (names_other_run run_id job.crawl_run_id) JobRepositoryError.queue_invariant a _ t
        b h1 in
    let (_, h3) =
      raise_if-ok (state_eq job.state JobState.running && not (has_lease l job.lease))
        JobRepositoryError.lease_lost a _ t b h2 in
    let (o, c, settled, h4) = bind-ok (reconcile_terminal_job_in_transaction j s now a) _ t b h3 in
    rw (must_settle-same o c t b h4) (reconcile_terminal_job-Refines j s now a o c settled)

pub reconcile_terminal_crawl_run-Refines :
    (j : ℕ) (l : JobLease) (run_id now : ℕ) (a : Database) (t : TerminalJobReconciliation)
    (b : Database)
    → reconcile_terminal_crawl_run j l run_id now a ≡ ok (t, b)
    → Refines a b
unfolding reconcile_terminal_crawl_run
reconcile_terminal_crawl_run-Refines j l run_id now a t b h =
    elim (Option-cases (select_crawl_run_status run_id a)) [
      | inl e ↦ absurd (ground (arith, h, e))
      | inr (s, e) ↦ reconcile_run_status-Refines j l run_id now s a t b (ground (arith, h, e))
    ]

reconcile_each-Refines :
    (now : ℕ) (rows : List (ℕ × CrawlRunStatus)) (a : Database) (repairs : Repairs) (b : Database)
    → reconcile_each now rows a ≡ ok (repairs, b)
    → Refines a b
unfolding reconcile_each
reconcile_each-Refines now [] a repairs b h =
    let same : b ≡ a = ground (arith, h) in rw same (Refines-refl a)
reconcile_each-Refines now ((j, s) ∷ rows) a repairs b h =
    let (o, c, settled, h1) =
      bind-ok (reconcile_terminal_job_in_transaction j s now a) _ repairs b h in
    let (others, d, rest, h2) = bind-ok (reconcile_each now rows c) _ repairs b h1 in
    let same : b ≡ d = ground (arith, h2) in
    rw same (
      Refines-trans (reconcile_terminal_job-Refines j s now a o c settled)
        (reconcile_each-Refines now rows c others d rest))

pub reconcile_in_transaction-Refines :
    (now : ℕ) (a : Database) (repairs : Repairs) (b : Database)
    → reconcile_in_transaction now a ≡ ok (repairs, b)
    → Refines a b
unfolding reconcile_in_transaction
reconcile_in_transaction-Refines now a repairs b h = reconcile_each-Refines now _ a repairs b h

pub recover_in_transaction-Refines :
    (now : ℕ) (a : Database) (counts : StaleJobRecovery) (b : Database)
    → recover_in_transaction now a ≡ ok (counts, b)
    → Refines a b
unfolding recover_in_transaction
recover_in_transaction-Refines now a counts b h =
    let (_, _, h1) = query-ok (ensure_queue_invariants a) a _ counts b h in
    recover_expired-Refines now a counts b h1

pub append_terminal-Refines :
    (j : ℕ) (t : ProgressTerminalState) (now : ℕ) (a : Database) (u : Unit {0}) (b : Database)
    → append_terminal_progress_if_missing_in_transaction j t now a ≡ ok (u, b)
    → Refines a b
unfolding append_terminal_progress_if_missing_in_transaction append_terminal
append_terminal-Refines j t now a u b h = Refines-same a b (ground (arith, h)) (ground (arith, h))

pub append_checkpoint-Refines :
    (id j attempt_id : ℕ) (l : JobLease) (encode : ℕ → Checked CheckpointEnvelope) (created_at : ℕ)
    (a : Database) (r : CheckpointRecord) (b : Database)
    → append_checkpoint id j attempt_id l encode created_at a ≡ ok (r, b)
    → Refines a b
unfolding append_checkpoint append_in_transaction
append_checkpoint-Refines id j attempt_id l encode created_at a r b h =
    Refines-same a b (ground (arith, h)) (ground (arith, h))
