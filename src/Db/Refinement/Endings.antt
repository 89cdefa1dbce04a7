-- ===== src/Db/Refinement/Endings.antt =====
-- The operations of crates/erabi-db/src/repositories/job.rs that end, cancel, reorder or remove a
-- job, as moves of the job.
use erabi.Base.{
  ℕ, ◌==◌, ◌≡◌, refl, inl, inr, Bool, true, false, not, [], Option, some, none, ok, err, arith,
  if◌then◌else◌, ℤ, Bool-cases, ==→eq, any, is_ok→eq,
}
use erabi.Db.Tables.{
  JobState, JobFailureCode, AttemptOutcome, JobRepositoryError, JobLease, JobRow, JobRecord,
  JobAttempt, Database, state_eq,
}
use erabi.Db.Statements.{
  ◌>>◌, pure, require_one, find, update_job, attempts_of, update_run, delete, is_referenced,
}
use erabi.Db.Statements.Rows.{find-delete_other, find-delete_self, attempts_of-none}
use erabi.Db.Statements.WellFormed.{delete-IsTable, is_parent}
use erabi.Db.Statements.Inversion.{bind-ok, query-ok, require_one-ok, query_last-ok}
use erabi.Db.Jobs.{select_job, select_owned_running_job, close, always}
use erabi.Db.Jobs.Reading.{select_job-ok, select_owned-ok}
use erabi.Db.Recovery.{cancel_related_run, next_state}
use erabi.Db.Queue.{
  succeed, fail_with_disposition, retry_schedule, fail_terminal, ensure_production,
  fail_terminal_production, CancelledAs, as_succeeded, as_failed, as_cancelled, cancelled_as,
  cancel_job, cancel, is_queued, cancelled_row, cancel_if_queued, cancel_queued, reprioritized,
  reprioritize, reprioritize_error, remove_if_safe,
}
use erabi.Db.Lifecycle.{Move, Run, stay, move}
use erabi.Db.Refinement.{Refines, Refines-refl, Refines-same, Refines-trans, Refines-update}
use erabi.Db.Refinement.Leases.{close-Refines}
use erabi.Db.Refinement.Recovery.{finalize-same, next_state-MayEnd, MayEnd-found}

module _ (j : ℕ) (l : JobLease) (now : ℕ) where
  pub succeed-Refines :
      (a : Database) (u : Unit {0}) (b : Database) → succeed j l now a ≡ ok (u, b) → Refines a b
  unfolding succeed
  succeed-Refines a u b h =
      let (job, _, h1) = query-ok (select_owned_running_job j l now a) a _ u b h in
      close-Refines j l now AttemptOutcome.succeeded none always JobState.succeeded none none a u b
        h1 refl (λ r _. record { stops = refl; retries = λ k. cc k })

  pub fail_with_disposition-Refines :
      (failure : JobFailureCode) (retry_at : ℕ) (terminal : Bool) (a : Database) (s : JobState)
      (b : Database)
      → fail_with_disposition j l now failure retry_at terminal a ≡ ok (s, b)
      → Refines a b
  unfolding fail_with_disposition
  fail_with_disposition-Refines failure retry_at terminal a s b h =
      let (job, owned, h1) = query-ok (select_owned_running_job j l now a) a _ s b h in
      let (r, found, reads, _) = select_owned-ok j l now a job owned in
      let state = next_state (not terminal) job in
      let schedule = some (retry_schedule state retry_at job) in
      let (u, c, closed, h2) =
        bind-ok
          (close j l now AttemptOutcome.failed (some failure) always state schedule (some failure)
            a)
          _ s b h1 in
      let same : b ≡ c = ground (arith, h2) in
      rw same (
        close-Refines j l now AttemptOutcome.failed (some failure) always state schedule
          (some failure) a u c closed refl
          (MayEnd-found j state a r found (next_state-MayEnd (not terminal) job r reads)))

  pub fail_terminal-Refines :
      (failure : JobFailureCode) (a : Database) (u : Unit {0}) (b : Database)
      → fail_terminal j l now failure a ≡ ok (u, b)
      → Refines a b
  unfolding fail_terminal
  fail_terminal-Refines failure a u b h =
      let (s, c, failed, h1) = bind-ok (fail_with_disposition j l now failure now true a) _ u b h in
      let same : b ≡ c = ground (arith, h1) in
      rw same (fail_with_disposition-Refines failure now true a s c failed)

  pub fail_terminal_production-Refines :
      (failure : JobFailureCode) (a : Database) (u : Unit {0}) (b : Database)
      → fail_terminal_production j l now failure a ≡ ok (u, b)
      → Refines a b
  unfolding fail_terminal_production
  fail_terminal_production-Refines failure a u b h =
      let (job, _, h1) = query-ok (select_owned_running_job j l now a) a _ u b h in
      let (_, _, h2) = query-ok (ensure_production job a) a _ u b h1 in
      let (v, c, closed, h3) =
        bind-ok
          (close j l now AttemptOutcome.failed (some failure) always JobState.failed
            (some job.scheduled_at) (some failure) a)
          _ u b h2 in
      let (jobs, attempts) = finalize-same job now c u b h3 in
      Refines-trans
        (close-Refines j l now AttemptOutcome.failed (some failure) always JobState.failed
          (some job.scheduled_at) (some failure) a v c closed refl
          (λ r _. record { stops = refl; retries = λ k. cc k }))
        (Refines-same c b jobs attempts)

cancel_related_run-same :
    (o : Option ℕ) (a : Database) (u : Unit {0}) (b : Database)
    → cancel_related_run o a ≡ ok (u, b)
    → Refines a b
unfolding cancel_related_run update_run
cancel_related_run-same none a u b h =
    let same : b ≡ a = ground (arith, h) in rw same (Refines-refl a)
cancel_related_run-same (some k) a u b h = Refines-same a b (ground (arith, h)) (ground (arith, h))

cancel_job-Refines :
    (j : ℕ) (l : JobLease) (now : ℕ) (job : JobRecord) (how : CancelledAs) (a : Database)
    (u : Unit {0}) (b : Database)
    → cancel_job j l now job how a ≡ ok (u, b)
    → Refines a b
unfolding cancel_job
cancel_job-Refines j l now job as_succeeded a u b h =
    close-Refines j l now AttemptOutcome.succeeded none always JobState.succeeded none none a u b h
      refl (λ r _. record { stops = refl; retries = λ k. cc k })
cancel_job-Refines j l now job as_failed a u b h =
    close-Refines j l now AttemptOutcome.failed (some JobFailureCode.handler_failed) always
      JobState.failed none (some JobFailureCode.handler_failed) a u b h refl
      (λ r _. record { stops = refl; retries = λ k. cc k })
cancel_job-Refines j l now job as_cancelled a u b h =
    let (v, c, closed, h1) =
      bind-ok
        (close j l now AttemptOutcome.failed (some JobFailureCode.cancelled) always
          JobState.cancelled none (some JobFailureCode.cancelled) a)
        _ u b h in
    Refines-trans
      (close-Refines j l now AttemptOutcome.failed (some JobFailureCode.cancelled) always
        JobState.cancelled none (some JobFailureCode.cancelled) a v c closed refl
        (λ r _. record { stops = refl; retries = λ k. cc k }))
      (cancel_related_run-same job.crawl_run_id c u b h1)

pub cancel-Refines :
    (j : ℕ) (l : JobLease) (now : ℕ) (a : Database) (u : Unit {0}) (b : Database)
    → cancel j l now a ≡ ok (u, b)
    → Refines a b
unfolding cancel
cancel-Refines j l now a u b h =
    let (job, _, h1) = query-ok (select_owned_running_job j l now a) a _ u b h in
    cancel_job-Refines j l now job (cancelled_as job a) a u b h1

pub cancel_queued-Refines :
    (j now : ℕ) (a : Database) (s : JobState) (b : Database)
    → cancel_queued j now a ≡ ok (s, b)
    → Refines a b
unfolding cancel_queued cancel_if_queued
cancel_queued-Refines j now a s b h =
    let (job, _, h1) = query-ok (select_job j a) a (λ p. cancel_if_queued j now p.0 p.1) s b h in
    elim (Bool-cases (state_eq job.state JobState.queued)) [
      | inr n ↦ let same : b ≡ a = ground (arith, h1, n) in rw same (Refines-refl a)
      | inl y ↦
          let (n, c, updated, h2) =
            bind-ok (update_job true j is_queued (cancelled_row now) a)
              (λ p.
                (do
                  require_one JobRepositoryError.illegal_transition p.0
                  cancel_related_run job.crawl_run_id
                  pure JobState.cancelled)
                  p.1)
              s b (ground (arith, h1, y)) in
          let (_, h3) = require_one-ok JobRepositoryError.illegal_transition n c _ s b h2 in
          let (v, d, related, h4) = bind-ok (cancel_related_run job.crawl_run_id c) _ s b h3 in
          let same : b ≡ d = ground (arith, h4) in
          rw same (
            Refines-trans
              (Refines-update true j is_queued (cancelled_row now) a n c updated
                (λ r. unfold cancelled_row in refl) (λ r. unfold cancelled_row in refl)
                (λ r rows _ q. Move.withdraw r rows now q))
              (cancel_related_run-same job.crawl_run_id c v d related))
    ]

pub reprioritize-Refines :
    (j : ℕ) (priority : ℤ) (scheduled_at now : ℕ) (a : Database) (job : JobRecord) (b : Database)
    → reprioritize j priority scheduled_at now a ≡ ok (job, b)
    → Refines a b
unfolding reprioritize
reprioritize-Refines j priority scheduled_at now a job b h =
    let (n, c, updated, h1) =
      bind-ok (update_job false j is_queued (reprioritized priority scheduled_at now) a) _ job b
        h in
    let (_, same) =
      query_last-ok (λ db. if n == 1 then select_job j db else err (reprioritize_error j db)) c job
        b h1 in
    rw same (
      Refines-update false j is_queued (reprioritized priority scheduled_at now) a n c updated
        (λ r. unfold reprioritized in refl) (λ r. unfold reprioritized in refl)
        (λ r rows _ q. Move.reorder r rows priority scheduled_at now q))

remove_at :
    (j : ℕ) (a : Database) (r : JobRow)
    → find j a.jobs ≡ some r
    → state_eq r.state JobState.queued ≡ true
    → attempts_of j a.attempts ≡ []
    → (i : ℕ)
    → Run
        (find i a.jobs)
        (attempts_of i a.attempts)
        (find i (delete j a.jobs))
        (attempts_of i a.attempts)
remove_at j a r found q nothing i = elim (Bool-cases (j == i)) [
  | inl here ↦
      rw (← ==→eq j i here, found, nothing, find-delete_self j a.jobs)
        (move _ _ _ _ stay (Move.remove r q))
  | inr away ↦ rw (find-delete_other i j a.jobs away) stay
]

read_job :
    (j : ℕ) (a : Database) (u : Unit {0}) (b : Database)
    → remove_if_safe j a ≡ ok (u, b)
    → (job : JobRecord) × (select_job j a ≡ ok job)
unfolding remove_if_safe
read_job j a u b h = is_ok→eq (select_job j a) (ground (arith, h))

pub remove_if_safe-Refines :
    (j : ℕ) (a : Database) (u : Unit {0}) (b : Database)
    → remove_if_safe j a ≡ ok (u, b)
    → Refines a b
unfolding remove_if_safe is_referenced
remove_if_safe-Refines j a u b h =
    let (job, read) = read_job j a u b h in
    let (r, found, reads) = select_job-ok j a job read in
    let q : state_eq job.state JobState.queued ≡ true = ground (arith, h, read) in
    let nothing : any (λ (x : JobAttempt). x.job_id == j) a.attempts ≡ false =
      ground (arith, h, read) in
    let done : b ≡ record a { jobs = delete j a.jobs } = ground (arith, h, read) in
    let childless : any (is_parent j) a.jobs ≡ false = ground (arith, h, read) in
    record {
      at =
          rw done
            (remove_at j a r found (rw (← reads.state) q) (attempts_of-none j a.attempts nothing));
      table = λ t. rw done (delete-IsTable j a.jobs childless t);
    }
