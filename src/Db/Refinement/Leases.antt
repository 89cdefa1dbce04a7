-- ===== src/Db/Refinement/Leases.antt =====
-- Taking, renewing and giving up the lease of a job in crates/erabi-db/src/repositories/job.rs, as
-- moves of the job.
use erabi.Base.{
  ℕ, ◌==◌, ◌≡◌, refl, sym, ap, ◌∙◌, inl, inr, Bool, true, false, ◌&&◌, List, [], ◌∷◌, Option, some,
  ok, arith, &&-true,
}
use erabi.Db.Tables.{
  JobState, JobFailureCode, AttemptOutcome, JobRepositoryError, JobLease, JobRow, JobAttempt,
  Database, is_running,
}
use erabi.Db.Statements.{find, put, update_job, update_attempts, attempts_of, change_all}
use erabi.Db.Statements.Rows.{find-id, update_job-ok, attempts_of-change_all}
use erabi.Db.Statements.Inversion.{bind-ok, require_last-ok}
use erabi.Db.Jobs.{is_active, finished, finish_attempt_in_transaction, holds, released, close}
use erabi.Db.Lifecycle.{holds-Names, MayEnd, Move}
use erabi.Db.Refinement.{Refines, Refines-replace}

finish-ok :
    (j : ℕ) (l : JobLease) (now : ℕ) (outcome : AttemptOutcome) (why : Option JobFailureCode)
    (a : Database) (u : Unit {0}) (b : Database)
    → finish_attempt_in_transaction j l now outcome why a ≡ ok (u, b)
    → b ≡ record a { attempts = change_all (is_active j l) (finished now outcome why) a.attempts }
unfolding finish_attempt_in_transaction update_attempts
finish-ok j l now outcome why a u b h = ground (arith, h)

abbrev with_row : ℕ → JobRow → Database → Database
with_row k s x = record x { jobs = put k s x.jobs }

-- What a closed job and attempt were, and are.
pub close-ok :
    (j : ℕ) (l : JobLease) (now : ℕ) (outcome : AttemptOutcome) (why : Option JobFailureCode)
    (also : JobRow → Bool) (state : JobState) (schedule : Option ℕ)
    (failure : Option JobFailureCode) (a : Database) (u : Unit {0}) (b : Database)
    → close j l now outcome why also state schedule failure a ≡ ok (u, b)
    → (r : JobRow) × (find j a.jobs ≡ some r)
      × (holds l r ≡ true)
      × (b ≡ record a {
        jobs = put j (released state schedule failure now r) a.jobs;
        attempts = change_all (is_active j l) (finished now outcome why) a.attempts;
      })
unfolding close
close-ok j l now outcome why also state schedule failure a u b h =
    let (_, c, first, h1) = bind-ok (finish_attempt_in_transaction j l now outcome why a) _ u b h in
    let change = released state schedule failure now in
    let (n, d, second, h2) =
      bind-ok (update_job true j (λ r. holds l r && also r) change c) _ u b h1 in
    let (one, same) = require_last-ok JobRepositoryError.lease_lost n d u b h2 in
    elim (update_job-ok true j _ (released state schedule failure now) c n d second) [
      | inl (zero_rows, _) ↦ absurd (omega (arith, one, zero_rows))
      | inr (r, _, found, passes, _, done) ↦
          let e = finish-ok j l now outcome why a _ c first in
          (
            r,
            sym (ap (λ x. find j x.jobs) e) ∙ found,
            (&&-true _ _ passes).0,
            same ∙ done ∙ ap (with_row j (released state schedule failure now r)) e,
          )
    ]

attempts_of-other :
    (i j : ℕ) (l : JobLease) (f : JobAttempt → JobAttempt) (rows : List JobAttempt)
    → (j == i) ≡ false
    → change_all (is_active j l) f (attempts_of i rows) ≡ attempts_of i rows
unfolding attempts_of change_all is_active
attempts_of-other i j l f [] h = refl
attempts_of-other i j l f (x ∷ rows) h = ground (arith, attempts_of-other i j l f rows h)

pub close-Refines :
    (j : ℕ) (l : JobLease) (now : ℕ) (outcome : AttemptOutcome) (why : Option JobFailureCode)
    (also : JobRow → Bool) (state : JobState) (schedule : Option ℕ)
    (failure : Option JobFailureCode) (a : Database) (u : Unit {0}) (b : Database)
    → close j l now outcome why also state schedule failure a ≡ ok (u, b)
    → is_running outcome ≡ false
    → ((r : JobRow) → find j a.jobs ≡ some r → MayEnd state r)
    → Refines a b
unfolding released finished
close-Refines j l now outcome why also state schedule failure a u b h o may =
    let (r, found, held, done) = close-ok j l now outcome why also state schedule failure a u b h in
    let f = finished now outcome why in
    let over = λ (i : ℕ).
      ap (λ x. attempts_of i x.attempts) done
      ∙ attempts_of-change_all i (is_active j l) f a.attempts (λ x. refl) in
    let id = find-id j r a.jobs found in
    Refines-replace a b j r (released state schedule failure now r) found id refl
      (ap (λ x. x.jobs) done) (λ i away. over i ∙ attempts_of-other i j l f a.attempts away)
      (rw (over j) (
        rw (← id) (
          Move.close r (attempts_of r.id a.attempts) l now outcome why state schedule failure (holds-Names l r held) o
            (may r found))))
