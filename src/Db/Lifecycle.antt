-- ===== src/Db/Lifecycle.antt =====
-- What the queue of crates/erabi-db/src/repositories/job.rs promises of one job: the moves of its
-- row and of its attempts, whatever the other tables hold.
pub mod Consistent
pub mod History
use erabi.Base.{
  ℕ, ◌+◌, ◌≤◌, ◌<◌, ◌≡◌, Bool, true, false, not, ◌&&◌, List, [], ◌∷◌, Option, some, none, u32_max, arith,
}
use erabi.Text.{Text}
use erabi.Text.Search.{text_eq_iff}
use erabi.Db.Tables.{
  JobState, JobFailureCode, AttemptOutcome, JobLease, JobRow, JobAttempt, NewJob, state_eq,
  is_running, same_text,
}
use erabi.Db.Statements.{check_job, change_all}
use erabi.Db.Jobs.{is_active, finished, holds, released, leased, started}
use erabi.Db.Queue.{new_row, beaten, cancelled_row, reprioritized}
use erabi.Base.{ℤ}

-- The lease is the one that the job runs under: its identifier, its owner and its generation.
pub record Names (l : JobLease) (r : JobRow) : Type 0 where
  pub running : state_eq r.state JobState.running ≡ true
  pub id : r.lease_id ≡ some l.id
  pub owner : r.lease_owner ≡ some l.owner
  pub generation : r.lease_generation ≡ l.generation

same_text-some : (t : Text) (o : Option Text) → same_text t o ≡ true → o ≡ some t
same_text-some t none h = cc
same_text-some t (some u) h = ground (arith, text_eq_iff u t)

pub holds-Names : (l : JobLease) (r : JobRow) → holds l r ≡ true → Names l r
unfolding holds
holds-Names l r h = ground (arith, same_text-some l.owner r.lease_owner)

-- A state that a job may be released into: it waits again only where attempts are left.
pub record MayEnd (state : JobState) (r : JobRow) : Type 0 where
  pub stops : state_eq state JobState.running ≡ false
  pub retries : state_eq state JobState.queued ≡ true → r.current_attempt < r.max_attempts

-- The moves of one job.
pub data Move : Option JobRow → List JobAttempt → Option JobRow → List JobAttempt → Type 0 where
  create :
      (job : NewJob) (now : ℕ) (rows : List JobAttempt)
      → check_job (new_row job now) ≡ true
      → Move none rows (some (new_row job now)) rows
  lease :
      (r : JobRow) (rows : List JobAttempt) (attempt_id lease_id : ℕ) (worker : Text)
      (now expires : ℕ)
      → state_eq r.state JobState.queued ≡ true
      → r.current_attempt < r.max_attempts
      → r.max_attempts ≤ u32_max
      → Move
          (some r)
          rows
          (some
            (leased lease_id worker (r.lease_generation + 1) (r.current_attempt + 1) now expires r))
          (started attempt_id r.id
              (r.current_attempt + 1)
              lease_id
              (r.lease_generation + 1)
              worker
              now
            ∷ rows)
  beat :
      (r : JobRow) (rows : List JobAttempt) (l : JobLease) (now expires at : ℕ)
      → Names l r
      → r.lease_expires_at ≡ some at
      → now < at
      → Move (some r) rows (some (beaten now expires r)) rows
  close :
      (r : JobRow) (rows : List JobAttempt) (lease : JobLease) (now : ℕ) (outcome : AttemptOutcome)
      (why : Option JobFailureCode) (state : JobState) (schedule : Option ℕ)
      (failure : Option JobFailureCode)
      → Names lease r
      → is_running outcome ≡ false
      → MayEnd state r
      → Move
          (some r)
          rows
          (some (released state schedule failure now r))
          (change_all (is_active r.id lease) (finished now outcome why) rows)
  withdraw :
      (r : JobRow) (rows : List JobAttempt) (now : ℕ)
      → state_eq r.state JobState.queued ≡ true
      → Move (some r) rows (some (cancelled_row now r)) rows
  reorder :
      (r : JobRow) (rows : List JobAttempt) (priority : ℤ) (scheduled_at now : ℕ)
      → state_eq r.state JobState.queued ≡ true
      → Move (some r) rows (some (reprioritized priority scheduled_at now r)) rows
  remove : (r : JobRow) → state_eq r.state JobState.queued ≡ true → Move (some r) [] none []

-- Any number of moves.
pub data Run (o : Option JobRow) (rows : List JobAttempt)
    : Option JobRow → List JobAttempt → Type 0 where
  stay : Run o rows o rows
  move :
      (p : Option JobRow) (behind : List JobAttempt) (q : Option JobRow) (after : List JobAttempt)
      → Run o rows p behind
      → Move p behind q after
      → Run o rows q after
