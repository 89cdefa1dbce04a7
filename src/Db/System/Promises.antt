-- ===== src/Db/System/Promises.antt =====
-- The refinement: each transaction of crates/erabi-db/src/repositories/job.rs keeps what the queue
-- promises of every job.
use erabi.Base.{ℕ, refl}
use erabi.Db.Tables.{Database}
use erabi.Db.Statements.{find, attempts_of}
use erabi.Db.Statements.WellFormed.{IsTable}
use erabi.Db.Queue.{enqueue}
use erabi.Db.System.{
  empty, Step, enqueues, scrapes, produces, acquires, beats, succeeds, fails, fails_for_good,
  fails_production, cancels, cancels_queued, reprioritizes, removes, acts, interrupts, recovers,
  reconciles, reconciles_one, repairs, checkpoints, others, Steps, none_yet, then_one,
}
use erabi.Db.Lifecycle.Consistent.{Holds, Run-Holds}
use erabi.Db.Refinement.{Refines, Refines-refl, Refines-same, Refines-trans}
use erabi.Db.Refinement.Operations.{
  insert_job-Refines, create_quick_scrape-Refines, create_production-Refines, acquire-Refines,
  heartbeat-Refines,
}
use erabi.Db.Refinement.Endings.{
  succeed-Refines, fail_with_disposition-Refines, fail_terminal-Refines,
  fail_terminal_production-Refines, cancel-Refines, cancel_queued-Refines, reprioritize-Refines,
  remove_if_safe-Refines,
}
use erabi.Db.Refinement.Actions.{
  enqueue_action_child-Refines, requeue_in_transaction-Refines,
  reconcile_terminal_crawl_run-Refines, reconcile_in_transaction-Refines,
  recover_in_transaction-Refines, append_terminal-Refines, append_checkpoint-Refines,
}

pub Step-Refines : {a b : Database} → Step a b → Refines a b
Step-Refines {a} {b} (enqueues job now u h) = insert_job-Refines job now a u b (unfold enqueue in h)
Step-Refines {a} {b} (scrapes c run job now u h) = create_quick_scrape-Refines c run job now a u b h
Step-Refines {a} {b} (produces c run job now u h) = create_production-Refines c run job now a u b h
Step-Refines {a} {b} (acquires lease_id attempt_id worker now duration allow o h) =
    acquire-Refines lease_id attempt_id worker now duration allow a o b h
Step-Refines {a} {b} (beats j l now duration next h) = heartbeat-Refines j l now duration a next b h
Step-Refines {a} {b} (succeeds j l now u h) = succeed-Refines j l now a u b h
Step-Refines {a} {b} (fails j l now failure retry_at terminal s h) =
    fail_with_disposition-Refines j l now failure retry_at terminal a s b h
Step-Refines {a} {b} (fails_for_good j l now failure u h) =
    fail_terminal-Refines j l now failure a u b h
Step-Refines {a} {b} (fails_production j l now failure u h) =
    fail_terminal_production-Refines j l now failure a u b h
Step-Refines {a} {b} (cancels j l now u h) = cancel-Refines j l now a u b h
Step-Refines {a} {b} (cancels_queued j now s h) = cancel_queued-Refines j now a s b h
Step-Refines {a} {b} (reprioritizes j priority scheduled_at now job h) =
    reprioritize-Refines j priority scheduled_at now a job b h
Step-Refines {a} {b} (removes j u h) = remove_if_safe-Refines j a u b h
Step-Refines {a} {b} (acts child j kind now association max_attempts job h) =
    enqueue_action_child-Refines child j kind now association max_attempts a job b h
Step-Refines {a} {b} (interrupts j l now x h) = requeue_in_transaction-Refines j l now a x b h
Step-Refines {a} {b} (recovers now counts h) = recover_in_transaction-Refines now a counts b h
Step-Refines {a} {b} (reconciles now fixes h) = reconcile_in_transaction-Refines now a fixes b h
Step-Refines {a} {b} (reconciles_one j l run_id now t h) =
    reconcile_terminal_crawl_run-Refines j l run_id now a t b h
Step-Refines {a} {b} (repairs j t now u h) = append_terminal-Refines j t now a u b h
Step-Refines {a} {b} (checkpoints id j attempt_id l encode created_at r h) =
    append_checkpoint-Refines id j attempt_id l encode created_at a r b h
Step-Refines {a} {b} (others j t) = Refines-same a b j t

pub Steps-Refines : {a b : Database} → Steps a b → Refines a b
Steps-Refines {a} none_yet = Refines-refl a
Steps-Refines (then_one s st) = Refines-trans (Steps-Refines s) (Step-Refines st)

pub Steps-IsTable : {a : Database} → Steps empty a → IsTable a.jobs
Steps-IsTable s = (Steps-Refines s).table tt

pub Steps-Holds :
    {a : Database} → Steps empty a → (i : ℕ) → Holds (find i a.jobs) (attempts_of i a.attempts)
unfolding find attempts_of
Steps-Holds s i = Run-Holds ((Steps-Refines s).at i) refl
