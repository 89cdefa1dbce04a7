-- ===== src/Db/Refinement.antt =====
-- How a transaction of crates/erabi-db/src/repositories/job.rs on the tables looks to each job: a
-- run of the job's moves.
pub mod Leases
pub mod Admission
pub mod Recovery
pub mod Operations
pub mod Endings
pub mod Actions
use erabi.Base.{
  ℕ, ◌==◌, ◌≡◌, refl, sym, Bool, true, false, List, [], ◌∷◌, Option, some, none, ok, arith, inl,
  inr, if◌then◌else◌, Bool-cases, ==→eq, ==_refl, ◌⊎◌, ap, ◌∙◌,
}
use erabi.Db.Tables.{JobRow, JobAttempt, Database}
use erabi.Db.Statements.{Tx, find, put, attempts_of, update_job, require_one, check_job, ◌>>=◌}
use erabi.Db.Statements.Rows.{find-put, find-id, update_job-ok}
use erabi.Db.Statements.WellFormed.{IsTable, put-IsTable}
use erabi.Db.Lifecycle.{Move, Run, stay, move}

-- Every job's row and attempts go through a run of moves, and the table of jobs keeps its shape.
pub record Refines (a b : Database) : Type 0 where
  pub at :
      (i : ℕ)
      → Run (find i a.jobs) (attempts_of i a.attempts) (find i b.jobs) (attempts_of i b.attempts)
  pub table : IsTable a.jobs → IsTable b.jobs

pub Run-trans :
    {o : Option JobRow} {rows : List JobAttempt} {p : Option JobRow} {behind : List JobAttempt}
    {q : Option JobRow} {after : List JobAttempt}
    → Run o rows p behind
    → Run p behind q after
    → Run o rows q after
Run-trans r stay = r
Run-trans r (move p behind q after s m) = move p behind q after (Run-trans r s) m

pub Refines-trans : {a b c : Database} → Refines a b → Refines b c → Refines a c
Refines-trans r s = record {
  at = λ i. Run-trans (r.at i) (s.at i);
  table = λ t. s.table (r.table t);
}

pub Refines-refl : (db : Database) → Refines db db
Refines-refl db = record { at = λ i. stay; table = λ t. t }

-- Both tables as they were.
pub Refines-same : (a b : Database) → b.jobs ≡ a.jobs → b.attempts ≡ a.attempts → Refines a b
Refines-same a b j t = record { at = λ i. rw (j, t) stay; table = λ w. rw j w }

replace_at :
    (a b : Database) (k : ℕ) (r s : JobRow)
    → find k a.jobs ≡ some r
    → s.id ≡ k
    → b.jobs ≡ put k s a.jobs
    → ((i : ℕ) → (k == i) ≡ false → attempts_of i b.attempts ≡ attempts_of i a.attempts)
    → Move (some r) (attempts_of k a.attempts) (some s) (attempts_of k b.attempts)
    → (i : ℕ)
    → Run (find i a.jobs) (attempts_of i a.attempts) (find i b.jobs) (attempts_of i b.attempts)
replace_at a b k r s found id jobs others m i = elim (Bool-cases (k == i)) [
  | inl here ↦
      rw (← ==→eq k i here, jobs, find-put k k r s a.jobs found id, found, ==_refl k)
        (move _ _ _ _ stay m)
  | inr away ↦ rw (jobs, find-put i k r s a.jobs found id, away, others i away) stay
]

-- One job makes one move; its row is replaced, and the attempts of the others are as they were.
pub Refines-replace :
    (a b : Database) (k : ℕ) (r s : JobRow)
    → find k a.jobs ≡ some r
    → s.id ≡ k
    → s.parent_job_id ≡ r.parent_job_id
    → b.jobs ≡ put k s a.jobs
    → ((i : ℕ) → (k == i) ≡ false → attempts_of i b.attempts ≡ attempts_of i a.attempts)
    → Move (some r) (attempts_of k a.attempts) (some s) (attempts_of k b.attempts)
    → Refines a b
Refines-replace a b k r s found id parent jobs others m = record {
  at = replace_at a b k r s found id jobs others m;
  table = λ t. rw jobs (put-IsTable k r s a.jobs found id parent t);
}

-- An update of one row that is a move of its job.
pub Refines-update :
    (moves : Bool) (k : ℕ) (test : JobRow → Bool) (change : JobRow → JobRow) (a : Database) (n : ℕ)
    (b : Database)
    → update_job moves k test change a ≡ ok (n, b)
    → ((r : JobRow) → (change r).id ≡ r.id)
    → ((r : JobRow) → (change r).parent_job_id ≡ r.parent_job_id)
    → ((r : JobRow) (rows : List JobAttempt)
        → find k a.jobs ≡ some r
        → test r ≡ true
        → Move (some r) rows (some (change r)) rows)
    → Refines a b
Refines-update moves k test change a n b h keep parent m =
    elim (update_job-ok moves k test change a n b h) [
      | inl (_, same) ↦ rw same (Refines-refl a)
      | inr (r, _, found, passes, _, done) ↦
          Refines-replace a b k r (change r) found (keep r ∙ find-id k r a.jobs found) (parent r)
            (ap (λ d. d.jobs) done) (λ i _. ap (λ d. attempts_of i d.attempts) done)
            (rw (ap (λ d. d.attempts) done) (m r (attempts_of k a.attempts) found passes))
    ]
