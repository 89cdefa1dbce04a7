-- ===== src/Db/Consistency.antt =====
-- crates/erabi-db/src/repositories/job.rs: what every acquisition and recovery checks first.
use erabi.Base.{
  ℕ, ◌==◌, Bool, true, false, not, ◌&&◌, ◌||◌, List, [], ◌∷◌, Option, some, none, is_none, is_some,
  ok, err, if◌then◌else◌, ltb, any, max,
}
use erabi.Text.{Text, text_eq}
use erabi.Db.Tables.{
  JobState, JobRepositoryError, JobRow, JobAttempt, Database, state_eq, is_running,
}
use erabi.Db.Statements.{Answer, find, attempts_of}
use erabi.Db.Checkpoints.{}

-- The five queries of `ensure_queue_invariants`, each of which must find no row.
unfoldable pub bad_lease : JobRow → Bool
bad_lease r =
    (state_eq r.state JobState.running
      && (r.current_attempt == 0
          || is_none r.lease_id
          || is_none r.lease_owner
          || r.lease_generation == 0
          || is_none r.lease_acquired_at
          || is_none r.lease_expires_at
          || is_none r.heartbeat_at))
    || (not (state_eq r.state JobState.running)
        && (is_some r.lease_id
            || is_some r.lease_owner
            || is_some r.lease_acquired_at
            || is_some r.lease_expires_at
            || is_some r.heartbeat_at))

-- The attempts that the LEFT JOIN of the second query pairs with a job.
abbrev pub is_current : JobRow → JobAttempt → Bool
is_current r a = a.attempt_number == r.current_attempt && is_running a.outcome

-- A column that is null differs from nothing.
abbrev pub differs_id : ℕ → Option ℕ → Bool
differs_id n none = false
differs_id n (some m) = not (m == n)

abbrev pub differs_text : Text → Option Text → Bool
differs_text t none = false
differs_text t (some u) = not (text_eq u t)

abbrev pub mismatch : JobRow → JobAttempt → Bool
mismatch r a =
    differs_id a.lease_id r.lease_id
    || not (a.lease_generation == r.lease_generation)
    || differs_text a.worker_id r.lease_owner

unfoldable pub bad_current : JobRow → List JobAttempt → Bool
bad_current r rows =
    state_eq r.state JobState.running
    && (not (any (is_current r) rows) || any (λ a. is_current r a && mismatch r a) rows)

unfoldable pub bad_idle : JobRow → List JobAttempt → Bool
bad_idle r rows = not (state_eq r.state JobState.running) && any (λ a. is_running a.outcome) rows

-- `COALESCE(MAX(attempt_number), 0)`.
unfoldable pub last_attempt : List JobAttempt → ℕ
last_attempt [] = 0
last_attempt (a ∷ rows) = max a.attempt_number (last_attempt rows)

unfoldable pub bad_count : JobRow → List JobAttempt → Bool
bad_count r rows = not (r.current_attempt == last_attempt rows)

unfoldable pub bad_attempt : List JobRow → JobAttempt → Bool
bad_attempt jobs a = elim (find a.job_id jobs) [
  | none ↦ true
  | some r ↦ ltb r.max_attempts a.attempt_number
]

unfoldable pub ensure_queue_invariants : Database → Answer (Unit {0})
ensure_queue_invariants db =
    if any bad_lease db.jobs
      || any (λ r. bad_current r (attempts_of r.id db.attempts)) db.jobs
      || any (λ r. bad_idle r (attempts_of r.id db.attempts)) db.jobs
      || any (λ r. bad_count r (attempts_of r.id db.attempts)) db.jobs
      || any (bad_attempt db.jobs) db.attempts
    then err JobRepositoryError.queue_invariant
    else ok tt
