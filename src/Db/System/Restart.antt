-- ===== src/Db/System/Restart.antt =====
-- What crates/erabi-db/src/repositories/job.rs does at the start of the process about jobs that ended
-- otherwise than their runs.
use erabi.Base.{
  ℕ, ◌==◌, ◌≡◌, refl, sym, ap, ◌∙◌, subst, ◌⊎◌, inl, inr, false, List, [], ◌∷◌, Option, some, none,
  ok, err, arith, leb, Bool-cases, ==→eq,
}
use erabi.Db.Tables.{
  JobRepositoryError, JobState, CrawlRunStatus, JobRow, RunRow, Database, state_eq,
}
use erabi.Db.Statements.{find, find_run}
use erabi.Db.Statements.Inversion.{Answer-cases, bind-ok, query-ok}
use erabi.Db.Jobs.{select_job}
use erabi.Db.Jobs.Reading.{select_job-ok}
use erabi.Db.Recovery.{
  Verdict, verdict, settle, reconcile_with, TerminalJobReconciliation, StaleJobRecovery,
  reconcile_terminal_job_in_transaction,
}
use erabi.Db.Actions.{
  is_active_state, Repairs, ended_status, ended_jobs, add_ended, insert_ended, reconcile_each,
  reconcile_in_transaction, recover_in_transaction,
}
use erabi.Db.Calls.{
  reconcile_terminal_crawl_runs, recover_stale_jobs, rebuild_after, recover_and_rebuild_at,
}
use erabi.Db.Lifecycle.History.{HasEnded, Run-HasEnded}
use erabi.Db.Refinement.Recovery.{reconcile_terminal_job-Refines}

-- The pair is in the list.
abbrev Listed : ℕ → CrawlRunStatus → List (ℕ × CrawlRunStatus) → Type 0
Listed j s [] = ⊥
Listed j s ((i, t) ∷ rows) = ((i ≡ j) × (t ≡ s)) ⊎ Listed j s rows

insert_ended-first :
    (j : ℕ) (s : CrawlRunStatus) (rows : List (ℕ × CrawlRunStatus))
    → Listed j s (insert_ended (j, s) rows)
unfolding insert_ended
insert_ended-first j s [] = inl (refl, refl)
insert_ended-first j s ((i, t) ∷ rows) = elim (Bool-cases (leb j i)) [
  | inl y ↦ rw y (inl (refl, refl))
  | inr n ↦ rw n (inr (insert_ended-first j s rows))
]

insert_ended-Listed :
    (j : ℕ) (s : CrawlRunStatus) (k : ℕ) (u : CrawlRunStatus) (rows : List (ℕ × CrawlRunStatus))
    → Listed j s rows
    → Listed j s (insert_ended (k, u) rows)
unfolding insert_ended
insert_ended-Listed j s k u [] h = absurd h
insert_ended-Listed j s k u ((i, t) ∷ rows) (inl here) = elim (Bool-cases (leb k i)) [
  | inl y ↦ rw y (inr (inl here))
  | inr n ↦ rw n (inl here)
]
insert_ended-Listed j s k u ((i, t) ∷ rows) (inr later) = elim (Bool-cases (leb k i)) [
  | inl y ↦ rw y (inr (inr later))
  | inr n ↦ rw n (inr (insert_ended-Listed j s k u rows later))
]

add_ended-Listed :
    (j : ℕ) (s : CrawlRunStatus) (k : ℕ) (o : Option CrawlRunStatus)
    (rows : List (ℕ × CrawlRunStatus))
    → Listed j s rows
    → Listed j s (add_ended k o rows)
add_ended-Listed j s k none rows h = h
add_ended-Listed j s k (some u) rows h = insert_ended-Listed j s k u rows h

ended_jobs-Listed :
    (j : ℕ) (r : JobRow) (s : CrawlRunStatus) (rows : List JobRow) (runs : List RunRow)
    → find j rows ≡ some r
    → ended_status r.crawl_run_id runs ≡ some s
    → Listed j s (ended_jobs rows runs)
unfolding find ended_jobs
ended_jobs-Listed j r s [] runs found ended = cc
ended_jobs-Listed j r s (t ∷ rows) runs found ended = elim (Bool-cases (t.id == j)) [
  | inl y ↦
      let same : t ≡ r = ground (arith, found, y) in
      let its : ended_status t.crawl_run_id runs ≡ some s =
        ap (λ x. ended_status x.crawl_run_id runs) same ∙ ended in
      let behind = ended_jobs rows runs in
      let first : Listed j s (add_ended j (ended_status t.crawl_run_id runs) behind) =
        subst (λ o. Listed j s (add_ended j o behind)) (sym its) (insert_ended-first j s behind) in
      subst (λ i. Listed j s (add_ended i (ended_status t.crawl_run_id runs) behind))
        (sym (==→eq t.id j y)) first
  | inr n ↦
      add_ended-Listed j s t.id (ended_status t.crawl_run_id runs) (ended_jobs rows runs)
        (ended_jobs-Listed j r s rows runs (ground (arith, found, n)) ended)
]

-- An error of one step is the error of the whole.
module _ (now : ℕ) where
  reconcile_terminal_crawl_runs-err :
      (a : Database) (e : JobRepositoryError)
      → reconcile_in_transaction now a ≡ err e
      → reconcile_terminal_crawl_runs now a ≡ (err e, a)
  unfolding reconcile_terminal_crawl_runs
  reconcile_terminal_crawl_runs-err a e failed = ground (arith, failed)

  recover_stale_jobs-err :
      (before a : Database) (counts : StaleJobRecovery) (e : JobRepositoryError)
      → recover_in_transaction now before ≡ ok (counts, a)
      → reconcile_terminal_crawl_runs now a ≡ (err e, a)
      → recover_stale_jobs now before ≡ (err e, a)
  unfolding recover_stale_jobs
  recover_stale_jobs-err before a counts e recovered failed = ground (arith, recovered, failed)

  recover_and_rebuild_at-err :
      (before a : Database) (e : JobRepositoryError)
      → recover_stale_jobs now before ≡ (err e, a)
      → recover_and_rebuild_at now before ≡ (err e, a)
  unfolding recover_and_rebuild_at
  recover_and_rebuild_at-err before a e stale = ap (rebuild_after now) stale

-- A job that has ended in a state that the run's status does not give it.
module _ (j k : ℕ) (r : JobRow) (run : RunRow) (v : Verdict)
    (ended : is_active_state r.state ≡ false) (its_run : r.crawl_run_id ≡ some k)
    (decided : verdict run.status ≡ some v) (differs : state_eq r.state v.state ≡ false) where
  not_running : (s : JobState) → is_active_state s ≡ false → state_eq s JobState.running ≡ false
  not_running JobState.running h = cc
  not_running JobState.queued h = refl
  not_running JobState.succeeded h = refl
  not_running JobState.failed h = refl
  not_running JobState.cancelled h = refl

  settle-differs :
      (now : ℕ) (a : Database)
      → find j a.jobs ≡ some r
      → (t : Option TerminalJobReconciliation) (b : Database)
      → reconcile_with j now (some v) a ≡ ok (t, b)
      → ⊥
  unfolding reconcile_with settle
  settle-differs now a found t b h =
      let (job, read, h1) = query-ok (select_job j a) a _ t b h in
      let (s, found', reads) = select_job-ok j a job read in
      let same : s ≡ r = ground (arith, found, found') in
      let state : job.state ≡ r.state = reads.state ∙ ap (λ x. x.state) same in
      ground (arith, h1, state, differs, not_running r.state ended)

  reconcile-differs :
      (now : ℕ) (a : Database)
      → find j a.jobs ≡ some r
      → (t : Option TerminalJobReconciliation) (b : Database)
      → reconcile_terminal_job_in_transaction j run.status now a ≡ ok (t, b)
      → ⊥
  unfolding reconcile_terminal_job_in_transaction
  reconcile-differs now a found t b h =
      settle-differs now a found t b (subst (λ o. reconcile_with j now o a ≡ ok (t, b)) decided h)

  each-differs :
      (now : ℕ) (rows : List (ℕ × CrawlRunStatus)) (a : Database)
      → find j a.jobs ≡ some r
      → Listed j run.status rows
      → (all : Repairs) (b : Database) → reconcile_each now rows a ≡ ok (all, b)
      → ⊥
  unfolding reconcile_each
  each-differs now [] a found listed all b h = listed
  each-differs now ((i, u) ∷ rows) a found listed all b h =
      let (t, c, first, h1) = bind-ok (reconcile_terminal_job_in_transaction i u now a) _ all b h in
      elim listed [
        | inl (i_j, u_s) ↦ reconcile-differs now a found t c (
            subst (λ x. reconcile_terminal_job_in_transaction x run.status now a ≡ ok (t, c)) i_j
              (subst (λ x. reconcile_terminal_job_in_transaction i x now a ≡ ok (t, c)) u_s first))
        | inr later ↦
            let (repairs, d, rest, _) = bind-ok (reconcile_each now rows c) _ all b h1 in
            let kept =
              (Run-HasEnded ((reconcile_terminal_job-Refines i u now a t c first).at j)
                (subst HasEnded (sym found) ended)).0 in
            each-differs now rows c (kept ∙ found) later repairs d rest
      ]

  ended_status-run :
      (a : Database)
      → find_run k a.runs ≡ some run
      → ended_status r.crawl_run_id a.runs ≡ some run.status
  ended_status-run a there =
      let with_run : ended_status (some k) a.runs ≡ some run.status =
        ground (arith, there, decided) in
      subst (λ o. ended_status o a.runs ≡ some run.status) (sym its_run) with_run

  reconcile_in_transaction-differs :
      (now : ℕ) (a : Database)
      → find j a.jobs ≡ some r
      → find_run k a.runs ≡ some run
      → (e : JobRepositoryError) × (reconcile_in_transaction now a ≡ err e)
  unfolding reconcile_in_transaction
  reconcile_in_transaction-differs now a found there =
      elim (Answer-cases (reconcile_in_transaction now a)) [
        | inl failed ↦ failed
        | inr ((all, b), h) ↦ absurd (
            each-differs now (ended_jobs a.jobs a.runs) a found
              (ended_jobs-Listed j r run.status a.jobs a.runs found (ended_status-run a there)) all
              b h)
      ]

  -- Where a job has ended in another state than its ended run asks for (the run of a failed job was
  -- given to a child that succeeded), the reconciliation of the finished runs is an error that
  -- changes nothing, for this and for every other job; and the start of the process is that error
  -- too, whatever was recovered before, so no lease is counted as running.
  pub reconcile_terminal_crawl_runs-differs :
      (now : ℕ) (before a : Database) (counts : StaleJobRecovery)
      → find j a.jobs ≡ some r
      → find_run k a.runs ≡ some run
      → recover_in_transaction now before ≡ ok (counts, a)
      → (e : JobRepositoryError) × (reconcile_terminal_crawl_runs now a ≡ (err e, a))
        × (recover_stale_jobs now before ≡ (err e, a))
        × (recover_and_rebuild_at now before ≡ (err e, a))
  reconcile_terminal_crawl_runs-differs now before a counts found there recovered =
      let (e, failed) = reconcile_in_transaction-differs now a found there in
      let runs = reconcile_terminal_crawl_runs-err now a e failed in
      let stale = recover_stale_jobs-err now before a counts e recovered runs in
      (e, runs, stale, recover_and_rebuild_at-err now before a e stale)
