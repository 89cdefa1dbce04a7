-- ===== src/Db/Refinement/Operations.antt =====
-- Every operation of crates/erabi-db/src/repositories/job.rs as moves of the jobs.
use erabi.Base.{
  ℕ, ◌+◌, ◌==◌, ◌≡◌, refl, inl, inr, Bool, true, false, not, ◌||◌, List, ◌∷◌, Option, some, none,
  is_some, ok, err, arith, if◌then◌else◌, ltb, ℤ, i64_max, Bool-cases, Option-cases, ==→eq,
}
use erabi.Text.{Text}
use erabi.Db.Tables.{
  JobRepositoryError, JobLease, JobRow, JobAttempt, AcquiredJob, NewJob, RunRow, Database,
}
use erabi.Db.Statements.{find, update_job, insert_job, attempts_of, check_job}
use erabi.Db.Statements.Rows.{insert_job-ok}
use erabi.Db.Statements.WellFormed.{insert_job-IsTable}
use erabi.Db.Statements.Inversion.{bind-ok, query-ok, raise_if-ok, query_last-ok}
use erabi.Db.Jobs.{valid_worker_id, lease_queued_job, holds}
use erabi.Db.Recovery.{recover_expired_in_transaction}
use erabi.Db.Consistency.{ensure_queue_invariants}
use erabi.Db.Queue.{
  new_row, insert_run, queued_run, insert_run_with_job, RunConfiguration,
  create_quick_scrape_run_with_root_job, create_production_run_with_root_job, is_quick_scrape,
  is_production_run, select_eligible_job, positive, lease_next, acquire_next_with_storage_admission,
  may_beat, beaten, heartbeat, ownership_error,
}
use erabi.Db.Lifecycle.{Move, holds-Names, Run, stay, move}
use erabi.Db.Refinement.{Refines, Refines-refl, Refines-same, Refines-trans, Refines-update}
use erabi.Db.Refinement.Admission.{lease_queued_job-Refines}
use erabi.Db.Refinement.Recovery.{recover_expired-Refines}

insert_at :
    (job : NewJob) (now : ℕ) (a : Database)
    → find job.id a.jobs ≡ none
    → check_job (new_row job now) ≡ true
    → (i : ℕ)
    → Run
        (find i a.jobs)
        (attempts_of i a.attempts)
        (find i (new_row job now ∷ a.jobs))
        (attempts_of i a.attempts)
unfolding find new_row
insert_at job now a missing good i = elim (Bool-cases (job.id == i)) [
  | inl here ↦
      rw (here, ← ==→eq job.id i here, missing)
        (move none _ _ _ stay (unfold new_row in Move.create job now _ good))
  | inr away ↦ rw away stay
]

pub insert_job-Refines :
    (job : NewJob) (now : ℕ) (a : Database) (u : Unit {0}) (b : Database)
    → insert_job (new_row job now) a ≡ ok (u, b)
    → Refines a b
unfolding new_row
insert_job-Refines job now a u b h =
    let (missing, good, done) = insert_job-ok (new_row job now) a u b h in
    record {
      at = rw done (insert_at job now a missing good);
      table = insert_job-IsTable (new_row job now) a u b h;
    }

pub insert_run-Refines :
    (run : RunRow) (a : Database) (u : Unit {0}) (b : Database)
    → insert_run run a ≡ ok (u, b)
    → Refines a b
unfolding insert_run
insert_run-Refines run a u b h = Refines-same a b (ground (arith, h)) (ground (arith, h))

insert_run_with_job-Refines :
    (run : RunRow) (job : NewJob) (now : ℕ) (a : Database) (u : Unit {0}) (b : Database)
    → insert_run_with_job run job now a ≡ ok (u, b)
    → Refines a b
unfolding insert_run_with_job
insert_run_with_job-Refines run job now a u b h =
    let (v, c, first, h1) = bind-ok (insert_run (queued_run run) a) _ u b h in
    let child = record job { parent_job_id = none; crawl_run_id = some run.id } in
    Refines-trans (insert_run-Refines (queued_run run) a v c first)
      (insert_job-Refines child now c u b h1)

pub create_quick_scrape-Refines :
    (configuration : RunConfiguration) (run : RunRow) (job : NewJob) (now : ℕ) (a : Database)
    (u : Unit {0}) (b : Database)
    → create_quick_scrape_run_with_root_job configuration run job now a ≡ ok (u, b)
    → Refines a b
unfolding create_quick_scrape_run_with_root_job
create_quick_scrape-Refines configuration run job now a u b h =
    let (_, h1) =
      raise_if-ok
        (not (is_quick_scrape configuration)
          || is_some job.parent_job_id
          || is_some job.crawl_run_id)
        JobRepositoryError.queue_invariant a _ u b h in
    insert_run_with_job-Refines run job now a u b h1

pub create_production-Refines :
    (configuration : RunConfiguration) (run : RunRow) (job : NewJob) (now : ℕ) (a : Database)
    (u : Unit {0}) (b : Database)
    → create_production_run_with_root_job configuration run job now a ≡ ok (u, b)
    → Refines a b
unfolding create_production_run_with_root_job
create_production-Refines configuration run job now a u b h =
    let (_, h1) =
      raise_if-ok
        (is_quick_scrape configuration
          || not (is_production_run run.run_type)
          || is_some job.parent_job_id
          || is_some job.crawl_run_id)
        JobRepositoryError.queue_invariant a _ u b h in
    insert_run_with_job-Refines run job now a u b h1

lease_next-Refines :
    (lease_id attempt_id : ℕ) (worker : Text) (now duration : ℕ) (allow : Bool) (a : Database)
    (o : Option AcquiredJob) (b : Database)
    → lease_next lease_id attempt_id worker now duration allow a ≡ ok (o, b)
    → Refines a b
unfolding lease_next
lease_next-Refines lease_id attempt_id worker now duration allow a o b h =
    elim (Option-cases (select_eligible_job now allow a)) [
      | inl e ↦ let same : b ≡ a = ground (arith, h, e) in rw same (Refines-refl a)
      | inr (r, e) ↦
          let (taken, c, one, h1) =
            bind-ok (lease_queued_job lease_id attempt_id r.id worker now duration allow a)
              (λ p. ok (some p.0, p.1)) o b (ground (arith, h, e)) in
          let same : b ≡ c = ground (arith, h1) in
          rw same (
            lease_queued_job-Refines lease_id attempt_id r.id worker now duration allow a taken c
              one)
    ]

pub acquire-Refines :
    (lease_id attempt_id : ℕ) (worker : Text) (now : ℕ) (duration : ℤ) (allow : Bool) (a : Database)
    (o : Option AcquiredJob) (b : Database)
    → acquire_next_with_storage_admission lease_id attempt_id worker now duration allow a
      ≡ ok (o, b)
    → Refines a b
unfolding acquire_next_with_storage_admission
acquire-Refines lease_id attempt_id worker now duration allow a o b h =
    let (_, h1) =
      raise_if-ok (not (valid_worker_id worker)) JobRepositoryError.queue_invariant a _ o b h in
    let (seconds, _, h2) = query-ok (positive duration) a _ o b h1 in
    let (_, _, h3) = query-ok (ensure_queue_invariants a) a _ o b h2 in
    let (all, c, recovered, h4) = bind-ok (recover_expired_in_transaction now a) _ o b h3 in
    Refines-trans (recover_expired-Refines now a all c recovered)
      (lease_next-Refines lease_id attempt_id worker now seconds allow c o b h4)

heartbeat-row :
    (l : JobLease) (now expires : ℕ) (r : JobRow) (rows : List JobAttempt)
    → may_beat l now r ≡ true
    → Move (some r) rows (some (beaten now expires r)) rows
unfolding may_beat
heartbeat-row l now expires r rows h = elim (Option-cases r.lease_expires_at) [
  | inl never ↦ absurd (ground (arith, h, never))
  | inr (at, e) ↦
      Move.beat r rows l now expires at (holds-Names l r (ground (arith, h))) e
        (ground (arith, h, e))
]

pub heartbeat-Refines :
    (j : ℕ) (l : JobLease) (now : ℕ) (duration : ℤ) (a : Database) (next : JobLease) (b : Database)
    → heartbeat j l now duration a ≡ ok (next, b)
    → Refines a b
unfolding heartbeat
heartbeat-Refines j l now duration a next b h =
    let (seconds, _, h1) = query-ok (positive duration) a _ next b h in
    let (_, h2) =
      raise_if-ok (ltb i64_max (now + seconds)) JobRepositoryError.queue_invariant a _ next b h1 in
    let (_, h3) =
      raise_if-ok (ltb i64_max l.generation) JobRepositoryError.queue_invariant a _ next b h2 in
    let (n, c, updated, h4) =
      bind-ok (update_job false j (may_beat l now) (beaten now (now + seconds)) a) _ next b h3 in
    let (_, same) =
      query_last-ok
        (λ db.
          if n == 1
          then ok (record l { heartbeat_at = now; expires_at = now + seconds })
          else err (ownership_error j db))
        c next b h4 in
    rw same (
      Refines-update false j (may_beat l now) (beaten now (now + seconds)) a n c updated
        (λ r. unfold beaten in refl) (λ r. unfold beaten in refl)
        (λ r rows _ p. heartbeat-row l now (now + seconds) r rows p))
