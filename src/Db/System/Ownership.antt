-- ===== src/Db/System/Ownership.antt =====
-- Who may write to a job of crates/erabi-db/src/repositories/job.rs, over any number of transactions.
use erabi.Base.{
  ℕ, ◌+◌, ◌-◌, ◌≤◌, ◌<◌, ◌==◌, ◌≡◌, refl, sym, ap, ◌∙◌, subst, inl, inr, Bool, true, false, [], ◌∷◌,
  List, some, ok, err, is_ok, arith, if◌then◌else◌, ltb, ℤ, i64_max, Option-cases, length,
}
use erabi.Db.Tables.{
  JobFailureCode, JobRepositoryError, JobLease, JobRow, JobRecord, JobAttempt, CheckpointEnvelope,
  Database,
}
use erabi.Db.Statements.{Answer, find, attempts_of, update_job}
use erabi.Db.Statements.Rows.{update_job-ok}
use erabi.Db.Statements.Inversion.{bind-ok, query-ok, raise_if-ok, query_last-ok}
use erabi.Db.Jobs.{lease_of, row_lease, select_owned_running_job, holds}
use erabi.Db.Jobs.Reading.{select_owned-ok}
use erabi.Db.Checkpoints.{Checked, ensure_owned_attempt, append_in_transaction}
use erabi.Db.Queue.{
  positive, may_beat, beaten, ownership_error, heartbeat, succeed, fail_with_disposition,
  fail_terminal, fail_terminal_production, cancel,
}
use erabi.Db.Actions.{is_active_state, requeue_in_transaction, append_checkpoint}
use erabi.Db.Lifecycle.Consistent.{Holds, IsConsistent, Numbered}
use erabi.Db.Lifecycle.History.{HasEnded, Run-HasEnded, IsAbove, Run-IsAbove}
use erabi.Db.System.{empty, Steps}
use erabi.Db.System.Promises.{Steps-Refines, Steps-Holds}

-- A job that has succeeded, failed or been cancelled is never written to again: through any number
-- of transactions its row and its attempts stay exactly what they were.
pub Steps-is_active_state :
    {a b : Database} (j : ℕ) (r : JobRow)
    → Steps a b
    → find j a.jobs ≡ some r
    → is_active_state r.state ≡ false
    → (find j b.jobs ≡ some r) × (attempts_of j b.attempts ≡ attempts_of j a.attempts)
Steps-is_active_state j r s found ended =
    let (row, rows) = Run-HasEnded ((Steps-Refines s).at j) (subst HasEnded (sym found) ended) in
    (row ∙ found, rows)

-- The lease is older than the one that the job has or had last.
record IsOld (j : ℕ) (l : JobLease) (db : Database) : Type 0 where
  above : IsAbove l.generation (find j db.jobs)

old_row :
    (j : ℕ) (l : JobLease) (db : Database) (r : JobRow)
    → IsOld j l db
    → find j db.jobs ≡ some r
    → l.generation < r.lease_generation
old_row j l db r old found = subst (IsAbove l.generation) found old.above

row_lease-generation :
    (r : JobRow) (l : JobLease) → row_lease r ≡ ok (some l) → l.generation ≡ r.lease_generation
unfolding row_lease lease_of
row_lease-generation r l h = ground (arith, h)

refused : {A : Type 0} (x : Answer A) → ((value : A) → x ≡ ok value → ⊥) → is_ok x ≡ false
refused (err e) h = refl
refused (ok value) h = absurd (h value refl)

old-select_owned :
    (j : ℕ) (l : JobLease) (now : ℕ) (db : Database) (job : JobRecord)
    → IsOld j l db
    → select_owned_running_job j l now db ≡ ok job
    → ⊥
old-select_owned j l now db job old h =
    let (r, found, _, owns) = select_owned-ok j l now db job h in
    omega (arith, old_row j l db r old found, row_lease-generation r l owns.lease)

old-holds :
    (j : ℕ) (l : JobLease) (db : Database) (r : JobRow)
    → IsOld j l db
    → find j db.jobs ≡ some r
    → holds l r ≡ false
unfolding holds
old-holds j l db r old found = ground (arith, old_row j l db r old found)

old-succeed :
    (j : ℕ) (l : JobLease) (now : ℕ) (db : Database)
    → IsOld j l db
    → is_ok (succeed j l now db) ≡ false
unfolding succeed
old-succeed j l now db old = refused _ (λ (u, b) h.
    let (job, owned, _) = query-ok (select_owned_running_job j l now db) db _ u b h in
    old-select_owned j l now db job old owned)

old-fail_with_disposition :
    (j : ℕ) (l : JobLease) (now : ℕ) (failure : JobFailureCode) (retry_at : ℕ) (terminal : Bool)
    (db : Database)
    → IsOld j l db
    → is_ok (fail_with_disposition j l now failure retry_at terminal db) ≡ false
unfolding fail_with_disposition
old-fail_with_disposition j l now failure retry_at terminal db old = refused _ (λ (s, b) h.
    let (job, owned, _) = query-ok (select_owned_running_job j l now db) db _ s b h in
    old-select_owned j l now db job old owned)

old-fail_terminal :
    (j : ℕ) (l : JobLease) (now : ℕ) (failure : JobFailureCode) (db : Database)
    → IsOld j l db
    → is_ok (fail_terminal j l now failure db) ≡ false
unfolding fail_terminal
old-fail_terminal j l now failure db old = refused _ (λ (u, b) h.
    let (s, c, failed, _) = bind-ok (fail_with_disposition j l now failure now true db) _ u b h in
    absurd (cc (ap is_ok failed, old-fail_with_disposition j l now failure now true db old)))

old-fail_terminal_production :
    (j : ℕ) (l : JobLease) (now : ℕ) (failure : JobFailureCode) (db : Database)
    → IsOld j l db
    → is_ok (fail_terminal_production j l now failure db) ≡ false
unfolding fail_terminal_production
old-fail_terminal_production j l now failure db old = refused _ (λ (u, b) h.
    let (job, owned, _) = query-ok (select_owned_running_job j l now db) db _ u b h in
    old-select_owned j l now db job old owned)

old-cancel :
    (j : ℕ) (l : JobLease) (now : ℕ) (db : Database)
    → IsOld j l db
    → is_ok (cancel j l now db) ≡ false
unfolding cancel
old-cancel j l now db old = refused _ (λ (u, b) h.
    let (job, owned, _) = query-ok (select_owned_running_job j l now db) db _ u b h in
    old-select_owned j l now db job old owned)

old-requeue :
    (j : ℕ) (l : JobLease) (now : ℕ) (db : Database)
    → IsOld j l db
    → is_ok (requeue_in_transaction j l now db) ≡ false
unfolding requeue_in_transaction
old-requeue j l now db old = refused _ (λ (x, b) h.
    let (job, owned, _) = query-ok (select_owned_running_job j l now db) db _ x b h in
    old-select_owned j l now db job old owned)

old-append_checkpoint :
    (id j attempt_id : ℕ) (l : JobLease) (encode : ℕ → Checked CheckpointEnvelope) (now : ℕ)
    (db : Database)
    → IsOld j l db
    → is_ok (append_checkpoint id j attempt_id l encode now db) ≡ false
unfolding append_checkpoint append_in_transaction ensure_owned_attempt
old-append_checkpoint id j attempt_id l encode now db old = elim (Option-cases (find j db.jobs)) [
  | inl missing ↦ ground (arith, missing)
  | inr (r, found) ↦ ground (arith, found, old_row j l db r old found)
]

old-update_job :
    (j : ℕ) (l : JobLease) (now expires : ℕ) (db : Database) (n : ℕ) (b : Database)
    → IsOld j l db
    → update_job false j (may_beat l now) (beaten now expires) db ≡ ok (n, b)
    → n ≡ 0
unfolding may_beat
old-update_job j l now expires db n b old h =
    elim (update_job-ok false j (may_beat l now) (beaten now expires) db n b h) [
      | inl (zeroed, _) ↦ zeroed
      | inr (r, _, found, passes, _, _) ↦
          absurd (ground (arith, old-holds j l db r old found, passes))
    ]

old-heartbeat :
    (j : ℕ) (l : JobLease) (now : ℕ) (duration : ℤ) (db : Database)
    → IsOld j l db
    → is_ok (heartbeat j l now duration db) ≡ false
unfolding heartbeat
old-heartbeat j l now duration db old = refused _ (λ (next, b) h.
    let (seconds, _, h1) = query-ok (positive duration) db _ next b h in
    let (_, h2) =
      raise_if-ok (ltb i64_max (now + seconds)) JobRepositoryError.queue_invariant db _ next b h1 in
    let (_, h3) =
      raise_if-ok (ltb i64_max l.generation) JobRepositoryError.queue_invariant db _ next b h2 in
    let (n, c, updated, h4) =
      bind-ok (update_job false j (may_beat l now) (beaten now (now + seconds)) db) _ next b h3 in
    let (good, _) =
      query_last-ok
        (λ db.
          if n == 1
          then ok (record l { heartbeat_at = now; expires_at = now + seconds })
          else err (ownership_error j db))
        c next b h4 in
    absurd (ground (arith, good, old-update_job j l now (now + seconds) db n c old updated)))

-- A worker whose lease was followed by a later one can no longer write: from any reachable database
-- in which the job's lease generation is above that of the worker's lease, no later database, after
-- whatever transactions, takes a heartbeat, a success, a failure of any of the three kinds, a
-- cancellation, an interruption or a checkpoint under the old lease.
pub Steps-generation :
    {a b : Database} (j : ℕ) (r : JobRow) (l : JobLease) (id attempt_id now : ℕ) (duration : ℤ)
    (failure : JobFailureCode) (retry_at : ℕ) (terminal : Bool)
    (encode : ℕ → Checked CheckpointEnvelope)
    → Steps empty a
    → Steps a b
    → find j a.jobs ≡ some r
    → l.generation < r.lease_generation
    → (is_ok (heartbeat j l now duration b) ≡ false)
      × (is_ok (succeed j l now b) ≡ false)
      × (is_ok (fail_with_disposition j l now failure retry_at terminal b) ≡ false)
      × (is_ok (fail_terminal j l now failure b) ≡ false)
      × (is_ok (fail_terminal_production j l now failure b) ≡ false)
      × (is_ok (cancel j l now b) ≡ false)
      × (is_ok (requeue_in_transaction j l now b) ≡ false)
      × (is_ok (append_checkpoint id j attempt_id l encode now b) ≡ false)
Steps-generation {a} {b} j r l id attempt_id now duration failure retry_at terminal encode s t found
      older =
    let old : IsOld j l b = record {
      above =
          Run-IsAbove l.generation ((Steps-Refines t).at j) (Steps-Holds s j)
            (subst (IsAbove l.generation) (sym found) older);
    } in
    (
      old-heartbeat j l now duration b old,
      old-succeed j l now b old,
      old-fail_with_disposition j l now failure retry_at terminal b old,
      old-fail_terminal j l now failure b old,
      old-fail_terminal_production j l now failure b old,
      old-cancel j l now b old,
      old-requeue j l now b old,
      old-append_checkpoint id j attempt_id l encode now b old,
    )

Numbered-length : (n : ℕ) (rows : List JobAttempt) → Numbered n rows → length rows ≡ n
Numbered-length n [] h = sym h
Numbered-length n (x ∷ rows) h = omega (arith, Numbered-length (n - 1) rows h.2, h.1)

-- In every reachable database a job has been attempted as often as its row says, that is once per
-- generation of its lease, and never more often than it may be.
pub Steps-max_attempts :
    {db : Database} (j : ℕ) (r : JobRow)
    → Steps empty db
    → find j db.jobs ≡ some r
    → (length (attempts_of j db.attempts) ≡ r.current_attempt)
      × (r.lease_generation ≡ r.current_attempt)
      × (r.current_attempt ≤ r.max_attempts)
Steps-max_attempts {db} j r s found =
    let c : IsConsistent r (attempts_of j db.attempts) =
      subst (λ o. Holds o (attempts_of j db.attempts)) found (Steps-Holds s j) in
    (
      Numbered-length r.current_attempt (attempts_of j db.attempts) c.numbered,
      c.generation,
      c.bounded,
    )
