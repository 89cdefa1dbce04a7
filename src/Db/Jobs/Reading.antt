-- ===== src/Db/Jobs/Reading.antt =====
-- What a job that crates/erabi-db/src/repositories/job.rs has read tells about its row.
use erabi.Base.{
  ℕ, ◌≤◌, ◌≡◌, true, false, Option, some, none, ok, arith, leb, u32_max, Option-cases, inl, inr,
}
use erabi.Text.Search.{text_eq_iff}
use erabi.Db.Tables.{JobState, JobLease, JobRow, JobRecord, Database, state_eq, has_lease, lease_eq}
use erabi.Db.Statements.{find}
use erabi.Db.Jobs.{row_lease, job_from_row, select_job, select_owned_running_job}

pub record Reads (r : JobRow) (job : JobRecord) : Type 0 where
  pub id : job.id ≡ r.id
  pub state : job.state ≡ r.state
  pub parent : job.parent_job_id ≡ r.parent_job_id
  pub run : job.crawl_run_id ≡ r.crawl_run_id
  pub scheduled : job.scheduled_at ≡ r.scheduled_at
  pub current : job.current_attempt ≡ r.current_attempt
  pub max : job.max_attempts ≡ r.max_attempts
  pub within : r.max_attempts ≤ u32_max
  pub generation : job.lease_generation ≡ r.lease_generation
  pub lease : row_lease r ≡ ok job.lease

pub job_from_row-ok : (r : JobRow) (job : JobRecord) → job_from_row r ≡ ok job → Reads r job
unfolding job_from_row
job_from_row-ok r job h = ground (arith, h)

pub select_job-ok :
    (j : ℕ) (db : Database) (job : JobRecord)
    → select_job j db ≡ ok job
    → (r : JobRow) × (find j db.jobs ≡ some r) × Reads r job
unfolding select_job
select_job-ok j db job h = elim (Option-cases (find j db.jobs)) [
  | inl missing ↦ absurd (ground (arith, h, missing))
  | inr (r, found) ↦ (r, found, job_from_row-ok r job (ground (arith, h, found)))
]

-- A job that its worker still owns.
pub record Owns (l : JobLease) (now : ℕ) (r : JobRow) : Type 0 where
  pub running : state_eq r.state JobState.running ≡ true
  pub lease : row_lease r ≡ ok (some l)
  pub live : leb l.expires_at now ≡ false

lease_eq-eq : (a b : JobLease) → lease_eq a b ≡ true → a ≡ b
unfolding lease_eq
lease_eq-eq a b h = ground (arith, text_eq_iff a.owner b.owner)

has_lease-eq : (l : JobLease) (o : Option JobLease) → has_lease l o ≡ true → o ≡ some l
has_lease-eq l none h = cc
has_lease-eq l (some held) h = ground (arith, lease_eq-eq held l h)

pub select_owned-ok :
    (j : ℕ) (l : JobLease) (now : ℕ) (db : Database) (job : JobRecord)
    → select_owned_running_job j l now db ≡ ok job
    → (r : JobRow) × (find j db.jobs ≡ some r) × Reads r job × Owns l now r
unfolding select_owned_running_job
select_owned-ok j l now db job h =
    let read : select_job j db ≡ ok job = ground (arith, h) in
    let (r, found, reads) = select_job-ok j db job read in
    let e = reads.state in
    (
      r,
      found,
      reads,
      record {
        running = ground (arith, h, read, e);
        lease = ground (arith, h, read, reads.lease, has_lease-eq l job.lease);
        live = ground (arith, h, read);
      },
    )
