-- ===== src/Db/Refinement/Recovery.antt =====
-- What expired leases and ended runs make of the jobs in crates/erabi-db/src/repositories/job.rs, as
-- moves of the jobs.
use erabi.Base.{
  ℕ, ◌<◌, ◌≡◌, refl, ap, ◌∙◌, inl, inr, Bool, true, false, ◌&&◌, List, [], ◌∷◌, Option, some, none,
  is_some, ok, arith, ltb, Bool-cases, Option-cases,
}
use erabi.Db.Tables.{
  JobState, JobFailureCode, AttemptOutcome, CrawlRunStatus, JobLease, JobRow, JobRecord, Database,
  state_eq, is_running,
}
use erabi.Db.Statements.{find, update_run}
use erabi.Db.Statements.Inversion.{bind-ok, query-ok}
use erabi.Db.Jobs.{select_job, close, always}
use erabi.Db.Jobs.Reading.{Reads, select_job-ok}
use erabi.Db.Progress.{append_terminal}
use erabi.Db.Checkpoints.{CheckpointEnvelopeDisposition}
use erabi.Db.Recovery.{
  TerminalJobReconciliation, StaleJobRecovery, Verdict, verdict, settle_running, settle,
  reconcile_with, reconcile_terminal_job_in_transaction, reconcile_status,
  finish_after_terminal_crawl_run, finish_with_run, finalize_crawl_failure_in_transaction, dispose,
  allows_recovery, next_state, lease_expired_by, fail_run, expire, after_settling, recover_leased,
  recover_read, recover_job, recover_all, recover_expired_in_transaction, select_crawl_run_status,
}
use erabi.Db.Lifecycle.{MayEnd}
use erabi.Db.Refinement.{Refines, Refines-refl, Refines-same, Refines-trans}
use erabi.Db.Refinement.Leases.{close-Refines}

-- What a finished run makes of a job is an end.
pub record Ends (v : Verdict) : Type 0 where
  pub finished : is_running v.outcome ≡ false
  pub stops : state_eq v.state JobState.running ≡ false
  pub final : state_eq v.state JobState.queued ≡ false

pub verdict-Ends : (s : CrawlRunStatus) (v : Verdict) → verdict s ≡ some v → Ends v
unfolding verdict
verdict-Ends CrawlRunStatus.queued v h = cc
verdict-Ends CrawlRunStatus.running v h = cc
verdict-Ends CrawlRunStatus.succeeded v h = ground (arith, h)
verdict-Ends CrawlRunStatus.partial_result v h = ground (arith, h)
verdict-Ends CrawlRunStatus.failed v h = ground (arith, h)
verdict-Ends CrawlRunStatus.cancelled v h = ground (arith, h)

Ends-MayEnd : (v : Verdict) (r : JobRow) → Ends v → MayEnd v.state r
Ends-MayEnd v r e = record { stops = e.stops; retries = λ h. cc (h, e.final) }

settle_running-Refines :
    (j : ℕ) (v : Verdict) (now : ℕ) (o : Option JobLease) (a : Database)
    (t : TerminalJobReconciliation) (b : Database)
    → Ends v
    → settle_running j v now o a ≡ ok (t, b)
    → Refines a b
unfolding settle_running
settle_running-Refines j v now none a t b e h = cc
settle_running-Refines j v now (some l) a t b e h =
    let (u, c, closed, h1) =
      bind-ok (close j l now v.outcome v.failure always v.state none v.failure a) _ t b h in
    let same : b ≡ c = ground (arith, h1) in
    rw same (
      close-Refines j l now v.outcome v.failure always v.state none v.failure a u c closed
        e.finished (λ r _. Ends-MayEnd v r e))

settle-Refines :
    (j : ℕ) (v : Verdict) (now : ℕ) (job : JobRecord) (a : Database) (t : TerminalJobReconciliation)
    (b : Database)
    → Ends v
    → settle j v now job a ≡ ok (t, b)
    → Refines a b
unfolding settle
settle-Refines j v now job a t b e h = elim (Bool-cases (state_eq job.state JobState.running)) [
  | inl y ↦ settle_running-Refines j v now job.lease a t b e (ground (arith, h, y))
  | inr n ↦ let same : b ≡ a = ground (arith, h, n) in rw same (Refines-refl a)
]

reconcile_with-Refines :
    (j now : ℕ) (o : Option Verdict) (a : Database) (t : Option TerminalJobReconciliation)
    (b : Database)
    → ((v : Verdict) → o ≡ some v → Ends v)
    → reconcile_with j now o a ≡ ok (t, b)
    → Refines a b
unfolding reconcile_with
reconcile_with-Refines j now none a t b e h =
    let same : b ≡ a = ground (arith, h) in rw same (Refines-refl a)
reconcile_with-Refines j now (some v) a t b e h =
    let (job, read, h1) = query-ok (select_job j a) a _ t b h in
    let (r, c, settled, h2) = bind-ok (settle j v now job a) _ t b h1 in
    let same : b ≡ c = ground (arith, h2) in
    rw same (settle-Refines j v now job a r c (e v refl) settled)

pub reconcile_terminal_job-Refines :
    (j : ℕ) (s : CrawlRunStatus) (now : ℕ) (a : Database) (t : Option TerminalJobReconciliation)
    (b : Database)
    → reconcile_terminal_job_in_transaction j s now a ≡ ok (t, b)
    → Refines a b
unfolding reconcile_terminal_job_in_transaction
reconcile_terminal_job-Refines j s now a t b h =
    reconcile_with-Refines j now (verdict s) a t b (verdict-Ends s) h

reconcile_status-Refines :
    (j now : ℕ) (o : Option CrawlRunStatus) (a : Database) (t : Option TerminalJobReconciliation)
    (b : Database)
    → reconcile_status j now o a ≡ ok (t, b)
    → Refines a b
unfolding reconcile_status
reconcile_status-Refines j now none a t b h =
    let same : b ≡ a = ground (arith, h) in rw same (Refines-refl a)
reconcile_status-Refines j now (some s) a t b h = reconcile_terminal_job-Refines j s now a t b h

pub finish_with_run-Refines :
    (j : ℕ) (o : Option ℕ) (now : ℕ) (a : Database) (t : Option TerminalJobReconciliation)
    (b : Database)
    → finish_with_run j o now a ≡ ok (t, b)
    → Refines a b
unfolding finish_with_run finish_after_terminal_crawl_run
finish_with_run-Refines j none now a t b h =
    let same : b ≡ a = ground (arith, h) in rw same (Refines-refl a)
finish_with_run-Refines j (some k) now a t b h =
    reconcile_status-Refines j now (select_crawl_run_status k a) a t b h

-- Where no run has settled the job, nothing has changed.
reconcile_with-none :
    (j now : ℕ) (o : Option Verdict) (a b : Database)
    → reconcile_with j now o a ≡ ok (none, b)
    → b ≡ a
unfolding reconcile_with
reconcile_with-none j now none a b h = ground (arith, h)
reconcile_with-none j now (some v) a b h =
    let (job, read, h1) = query-ok (select_job j a) a _ none b h in
    let (r, c, settled, h2) = bind-ok (settle j v now job a) _ none b h1 in
    absurd (ground (arith, h2))

pub finish_with_run-none :
    (j : ℕ) (o : Option ℕ) (now : ℕ) (a b : Database)
    → finish_with_run j o now a ≡ ok (none, b)
    → b ≡ a
unfolding finish_with_run finish_after_terminal_crawl_run reconcile_status
    reconcile_terminal_job_in_transaction
finish_with_run-none j none now a b h = ground (arith, h)
finish_with_run-none j (some k) now a b h = elim (Option-cases (select_crawl_run_status k a)) [
  | inl e ↦ ground (arith, h, e)
  | inr (s, e) ↦ reconcile_with-none j now (verdict s) a b (ground (arith, h, e))
]

-- Failing a run touches no job and no attempt.
pub finalize-same :
    (job : JobRecord) (now : ℕ) (a : Database) (u : Unit {0}) (b : Database)
    → finalize_crawl_failure_in_transaction job now a ≡ ok (u, b)
    → (b.jobs ≡ a.jobs) × (b.attempts ≡ a.attempts)
unfolding finalize_crawl_failure_in_transaction update_run append_terminal
finalize-same job now a u b h = (ground (arith, h), ground (arith, h))

pub fail_run-Refines :
    (s : JobState) (job : JobRecord) (now : ℕ) (a : Database) (u : Unit {0}) (b : Database)
    → fail_run s job now a ≡ ok (u, b)
    → Refines a b
fail_run-Refines s job now a u b h =
    elim (Bool-cases (state_eq s JobState.failed && is_some job.crawl_run_id)) [
      | inl y ↦
          let (j, t) = finalize-same job now a u b (ground (arith, h, y)) in Refines-same a b j t
      | inr n ↦ let same : b ≡ a = ground (arith, h, n) in rw same (Refines-refl a)
    ]

attempts_left :
    (recoverable : Bool) (job : JobRecord) (r : JobRow)
    → Reads r job
    → (recoverable && ltb job.current_attempt job.max_attempts) ≡ true
    → r.current_attempt < r.max_attempts
attempts_left recoverable job r reads h = ground (arith, h, reads.current, reads.max)

pub next_state-MayEnd :
    (recoverable : Bool) (job : JobRecord) (r : JobRow)
    → Reads r job
    → MayEnd (next_state recoverable job) r
unfolding next_state
next_state-MayEnd recoverable job r reads =
    elim (Bool-cases (recoverable && ltb job.current_attempt job.max_attempts)) [
      | inl y ↦
          rw y (record { stops = refl; retries = λ _. attempts_left recoverable job r reads y })
      | inr n ↦ rw n (record { stops = refl; retries = λ h. cc h })
    ]

-- Only the row that was read is found again.
pub MayEnd-found :
    (j : ℕ) (s : JobState) (a : Database) (r : JobRow)
    → find j a.jobs ≡ some r
    → MayEnd s r
    → (t : JobRow) → find j a.jobs ≡ some t
    → MayEnd s t
MayEnd-found j s a r found m t again = let e : r ≡ t = cc (found, again) in rw (← e) m

expire-Refines :
    (j : ℕ) (l : JobLease) (now : ℕ) (job : JobRecord) (d : Option CheckpointEnvelopeDisposition)
    (counts : StaleJobRecovery) (a : Database) (r : JobRow) (next : StaleJobRecovery) (b : Database)
    → find j a.jobs ≡ some r
    → Reads r job
    → expire j l now job d counts a ≡ ok (next, b)
    → Refines a b
unfolding expire
expire-Refines j l now job d counts a r next b found reads h =
    let s = next_state (allows_recovery d) job in
    let (u, c, closed, h1) =
      bind-ok
        (close j l now AttemptOutcome.lease_expired (some JobFailureCode.lease_expired)
          (lease_expired_by now) s (some now) (some JobFailureCode.lease_expired) a)
        _ next b h in
    let (v, e, failed, h2) = bind-ok (fail_run s job now c) _ next b h1 in
    let same : b ≡ e = ground (arith, h2) in
    rw same (
      Refines-trans
        (close-Refines j l now AttemptOutcome.lease_expired (some JobFailureCode.lease_expired)
          (lease_expired_by now) s (some now) (some JobFailureCode.lease_expired) a u c closed refl
          (MayEnd-found j s a r found (next_state-MayEnd (allows_recovery d) job r reads)))
        (fail_run-Refines s job now c v e failed))

after_settling-Refines :
    (j : ℕ) (l : JobLease) (now : ℕ) (job : JobRecord) (counts : StaleJobRecovery)
    (o : Option TerminalJobReconciliation) (a : Database) (r : JobRow) (next : StaleJobRecovery)
    (b : Database)
    → (o ≡ none → find j a.jobs ≡ some r)
    → Reads r job
    → after_settling j l now job counts o a ≡ ok (next, b)
    → Refines a b
unfolding after_settling
after_settling-Refines j l now job counts (some t) a r next b found reads h =
    let same : b ≡ a = ground (arith, h) in rw same (Refines-refl a)
after_settling-Refines j l now job counts none a r next b found reads h =
    let (d, _, h1) = query-ok (dispose job a) a _ next b h in
    expire-Refines j l now job d counts a r next b (found refl) reads h1

recover_leased-Refines :
    (j now : ℕ) (job : JobRecord) (counts : StaleJobRecovery) (l : JobLease) (a : Database)
    (r : JobRow) (next : StaleJobRecovery) (b : Database)
    → find j a.jobs ≡ some r
    → Reads r job
    → recover_leased j now job counts l a ≡ ok (next, b)
    → Refines a b
unfolding recover_leased
recover_leased-Refines j now job counts l a r next b found reads h =
    elim (Bool-cases (ltb now l.expires_at)) [
      | inl y ↦ let same : b ≡ a = ground (arith, h, y) in rw same (Refines-refl a)
      | inr n ↦
          let (o, c, settled, h1) =
            bind-ok (finish_with_run j job.crawl_run_id now a)
              (λ p. after_settling j l now job counts p.0 p.1) next b (ground (arith, h, n)) in
          Refines-trans (finish_with_run-Refines j job.crawl_run_id now a o c settled) (
            after_settling-Refines j l now job counts o c r next b
              (λ e.
                rw
                  (finish_with_run-none j job.crawl_run_id now a c
                    (settled ∙ ap (λ x. ok (x, c)) e))
                  found)
              reads h1)
    ]

recover_read-Refines :
    (j now : ℕ) (counts : StaleJobRecovery) (job : JobRecord) (o : Option JobLease) (a : Database)
    (r : JobRow) (next : StaleJobRecovery) (b : Database)
    → find j a.jobs ≡ some r
    → Reads r job
    → recover_read now j counts job o a ≡ ok (next, b)
    → Refines a b
unfolding recover_read
recover_read-Refines j now counts job none a r next b found reads h = cc
recover_read-Refines j now counts job (some l) a r next b found reads h =
    recover_leased-Refines j now job counts l a r next b found reads h

recover_job-Refines :
    (now j : ℕ) (counts : StaleJobRecovery) (a : Database) (next : StaleJobRecovery) (b : Database)
    → recover_job now j counts a ≡ ok (next, b)
    → Refines a b
unfolding recover_job
recover_job-Refines now j counts a next b h =
    let (job, read, h1) = query-ok (select_job j a) a _ next b h in
    let (r, found, reads) = select_job-ok j a job read in
    recover_read-Refines j now counts job job.lease a r next b found reads h1

recover_all-Refines :
    (now : ℕ) (ids : List ℕ) (counts : StaleJobRecovery) (a : Database) (all : StaleJobRecovery)
    (b : Database)
    → recover_all now ids counts a ≡ ok (all, b)
    → Refines a b
unfolding recover_all
recover_all-Refines now [] counts a all b h =
    let same : b ≡ a = ground (arith, h) in rw same (Refines-refl a)
recover_all-Refines now (j ∷ ids) counts a all b h =
    let (next, c, one, h1) = bind-ok (recover_job now j counts a) _ all b h in
    Refines-trans (recover_job-Refines now j counts a next c one)
      (recover_all-Refines now ids next c all b h1)

pub recover_expired-Refines :
    (now : ℕ) (a : Database) (all : StaleJobRecovery) (b : Database)
    → recover_expired_in_transaction now a ≡ ok (all, b)
    → Refines a b
unfolding recover_expired_in_transaction
recover_expired-Refines now a all b h = recover_all-Refines now _ _ a all b h
