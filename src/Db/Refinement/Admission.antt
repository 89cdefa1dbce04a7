-- ===== src/Db/Refinement/Admission.antt =====
-- Leasing a queued job in crates/erabi-db/src/repositories/job.rs, as a move of the job.
use erabi.Base.{
  ℕ, ◌+◌, ◌≤◌, ◌<◌, ◌==◌, ◌≡◌, refl, sym, ap, ◌∙◌, inl, inr, Bool, true, false, not, ◌||◌, List,
  ◌∷◌, some, ok, arith, ltb, leb, is_some, u32_max, u64_max, i64_max, saturating_add,
}
use erabi.Text.{Text}
use erabi.Db.Tables.{
  JobState, JobRepositoryError, JobRow, JobRecord, JobAttempt, AcquiredJob, Database, state_eq,
}
use erabi.Db.Statements.{find, put, update_job, insert_attempt, attempts_of}
use erabi.Db.Statements.Rows.{find-id, update_job-ok, insert_attempt-ok}
use erabi.Db.Statements.Inversion.{bind-ok, query-ok, raise_if-ok, require_one-ok}
use erabi.Db.Jobs.{select_job, leased, started, is_blocked, is_due, lease_queued_job}
use erabi.Db.Jobs.Reading.{Reads, select_job-ok}
use erabi.Db.Lifecycle.{Move}
use erabi.Db.Refinement.{Refines, Refines-replace}

-- What was leased: a due job with attempts left, under the next number and generation.
pub record Leased (lease_id attempt_id j : ℕ) (worker : Text) (now duration : ℕ) (allow : Bool)
    (a b : Database) (attempt : JobAttempt) (r : JobRow) : Type 0 where
  pub found : find j a.jobs ≡ some r
  pub queued : state_eq r.state JobState.queued ≡ true
  pub due : r.scheduled_at ≤ now
  pub left : r.current_attempt < r.max_attempts
  pub within : r.max_attempts ≤ u32_max
  pub admitted : allow ≡ false → is_some r.crawl_run_id ≡ false
  pub started_lem :
      attempt
      ≡ started attempt_id j (r.current_attempt + 1) lease_id (r.lease_generation + 1) worker now
  pub done : b ≡ record a {
    jobs =
        put j
          (leased lease_id worker
            (r.lease_generation + 1)
            (r.current_attempt + 1)
            now
            (now + duration)
            r)
          a.jobs;
    attempts = attempt ∷ a.attempts;
  }

saturates : (cap n limit : ℕ) → n < limit → limit ≤ cap → saturating_add cap n 1 ≡ n + 1
saturates cap n limit h k = omega arith

fits :
    (n : ℕ) → ltb i64_max (saturating_add u64_max n 1) ≡ false → saturating_add u64_max n 1 ≡ n + 1
fits n h = ground arith

leased-id :
    (lease_id : ℕ) (worker : Text) (generation number now expires : ℕ) (r : JobRow)
    → (leased lease_id worker generation number now expires r).id ≡ r.id
unfolding leased
leased-id lease_id worker generation number now expires r = refl

leased-parent :
    (lease_id : ℕ) (worker : Text) (generation number now expires : ℕ) (r : JobRow)
    → (leased lease_id worker generation number now expires r).parent_job_id ≡ r.parent_job_id
unfolding leased
leased-parent lease_id worker generation number now expires r = refl

attempts_of-cons :
    (j : ℕ) (x : JobAttempt) (rows : List JobAttempt)
    → x.job_id ≡ j
    → attempts_of j (x ∷ rows) ≡ x ∷ attempts_of j rows
unfolding attempts_of
attempts_of-cons j x rows h = ground (arith, h)

attempts_of-cons_other :
    (i j : ℕ) (x : JobAttempt) (rows : List JobAttempt)
    → x.job_id ≡ j
    → (j == i) ≡ false
    → attempts_of i (x ∷ rows) ≡ attempts_of i rows
unfolding attempts_of
attempts_of-cons_other i j x rows h k = ground (arith, h, k)

is_legal :
    (job : JobRecord) (now : ℕ)
    → (not (state_eq job.state JobState.queued)
        || ltb now job.scheduled_at
        || leb job.max_attempts job.current_attempt)
      ≡ false
    → (state_eq job.state JobState.queued ≡ true)
      × (job.scheduled_at ≤ now)
      × (job.current_attempt < job.max_attempts)
is_legal job now h = ground (arith, h)

numbers :
    (job : JobRecord) (r : JobRow)
    → Reads r job
    → job.current_attempt < job.max_attempts
    → saturating_add u32_max job.current_attempt 1 ≡ r.current_attempt + 1
numbers job r reads h = omega (arith, reads.current, reads.max, reads.within)

is_open :
    (allow : Bool) (job : JobRecord) (r : JobRow)
    → Reads r job
    → is_blocked allow job ≡ false
    → allow ≡ false
    → is_some r.crawl_run_id ≡ false
is_open allow job r reads h k = ground (arith, reads.run, h, k)

-- Both statements, with the numbers that they turn out to have.
both_done :
    (a b c d : Database) (j lease_id now expires generation number g k : ℕ) (worker : Text)
    (row r : JobRow) (attempt taken : JobAttempt)
    → row ≡ r
    → generation ≡ g
    → number ≡ k
    → c
      ≡ record a { jobs = put j (leased lease_id worker generation number now expires row) a.jobs }
    → d ≡ record c { attempts = attempt ∷ c.attempts }
    → b ≡ d
    → taken ≡ attempt
    → b ≡ record a {
      jobs = put j (leased lease_id worker g k now expires r) a.jobs;
      attempts = taken ∷ a.attempts;
    }
both_done a b c d j lease_id now expires generation number g k worker row r attempt taken e f n
      updated inserted same made =
    rw (same, inserted, updated, made, e, f, n)

pub lease_queued_job-ok :
    (lease_id attempt_id j : ℕ) (worker : Text) (now duration : ℕ) (allow : Bool) (a : Database)
    (taken : AcquiredJob) (b : Database)
    → lease_queued_job lease_id attempt_id j worker now duration allow a ≡ ok (taken, b)
    → (r : JobRow) × Leased lease_id attempt_id j worker now duration allow a b taken.attempt r
unfolding lease_queued_job
lease_queued_job-ok lease_id attempt_id j worker now duration allow a taken b h =
    let (job, read, h1) = query-ok (select_job j a) a _ taken b h in
    let (r, found, reads) = select_job-ok j a job read in
    let (legal, h2) =
      raise_if-ok
        (not (state_eq job.state JobState.queued)
          || ltb now job.scheduled_at
          || leb job.max_attempts job.current_attempt)
        JobRepositoryError.illegal_transition a _ taken b h1 in
    let (open_run, h3) =
      raise_if-ok (is_blocked allow job) JobRepositoryError.storage_admission_blocked a _ taken b
        h2 in
    let (_, h4) =
      raise_if-ok (ltb i64_max (now + duration)) JobRepositoryError.queue_invariant a _ taken b
        h3 in
    let generation = saturating_add u64_max job.lease_generation 1 in
    let number = saturating_add u32_max job.current_attempt 1 in
    let (small, h5) =
      raise_if-ok (ltb i64_max generation) JobRepositoryError.queue_invariant a _ taken b h4 in
    let change = leased lease_id worker generation number now (now + duration) in
    let (n, c, updated, h6) =
      bind-ok (update_job true j (is_due now job.current_attempt) change a) _ taken b h5 in
    let (one, h7) = require_one-ok JobRepositoryError.illegal_transition n c _ taken b h6 in
    let attempt = started attempt_id j number lease_id generation worker now in
    let (_, d, inserted, h8) = bind-ok (insert_attempt attempt c) _ taken b h7 in
    let (again, _, h9) = query-ok (select_job j d) d _ taken b h8 in
    let made : taken.attempt ≡ attempt = ground (arith, h9) in
    let same : b ≡ d = ground (arith, h9) in
    elim (update_job-ok true j (is_due now job.current_attempt) change a n c updated) [
      | inl (zero_rows, _) ↦ absurd (omega (arith, one, zero_rows))
      | inr (row, _, found_row, _, _, done) ↦
          let e : row ≡ r = cc (found, found_row) in
          let g : generation ≡ r.lease_generation + 1 =
            fits job.lease_generation small ∙ ap (λ x. x + 1) reads.generation in
          let k : number ≡ r.current_attempt + 1 = numbers job r reads (is_legal job now legal).2 in
          let t : taken.attempt
              ≡ started attempt_id j (r.current_attempt + 1) lease_id (r.lease_generation + 1)
                  worker now =
            rw (← g) (rw (← k) made) in
          (
            r,
            record {
              found = found;
              queued = rw (← reads.state) (is_legal job now legal).0;
              due = rw (← reads.scheduled) (is_legal job now legal).1;
              left = rw (← reads.current, ← reads.max) (is_legal job now legal).2;
              within = reads.within;
              admitted = is_open allow job r reads open_run;
              started_lem = t;
              done =
                  both_done a b c d j lease_id now (now + duration) generation number
                    (r.lease_generation + 1) (r.current_attempt + 1) worker row r attempt
                    taken.attempt e g k done (insert_attempt-ok attempt c _ d inserted) same made;
            },
          )
    ]

pub lease_queued_job-Refines :
    (lease_id attempt_id j : ℕ) (worker : Text) (now duration : ℕ) (allow : Bool) (a : Database)
    (taken : AcquiredJob) (b : Database)
    → lease_queued_job lease_id attempt_id j worker now duration allow a ≡ ok (taken, b)
    → Refines a b
unfolding started
lease_queued_job-Refines lease_id attempt_id j worker now duration allow a taken b h =
    let (r, l) = lease_queued_job-ok lease_id attempt_id j worker now duration allow a taken b h in
    let id = find-id j r a.jobs l.found in
    let owner : taken.attempt.job_id ≡ j = ap (λ x. x.job_id) l.started_lem in
    Refines-replace a b j r _ l.found (leased-id lease_id worker _ _ now (now + duration) r ∙ id)
      (leased-parent lease_id worker _ _ now (now + duration) r) (ap (λ x. x.jobs) l.done)
      (λ i away.
        ap (λ x. attempts_of i x.attempts) l.done
        ∙ attempts_of-cons_other i j taken.attempt a.attempts owner away)
      (rw
        (
          ap (λ x. attempts_of j x.attempts) l.done,
          attempts_of-cons j taken.attempt a.attempts owner,
          l.started_lem
              ∙ ap
                  (λ x.
                    started attempt_id x (r.current_attempt + 1) lease_id (r.lease_generation + 1)
                      worker now)
                  (sym id),
        )
        (Move.lease r (attempts_of j a.attempts) attempt_id lease_id worker now (now + duration)
          l.queued l.left l.within))
