-- ===== src/Db/Lifecycle/Consistent.antt =====
-- The invariant of one job of crates/erabi-db/src/repositories/job.rs, and that every move keeps it.
use erabi.Base.{
  ℕ, ◌+◌, ◌-◌, ◌≤◌, ◌<◌, ◌≡◌, refl, sym, ◌∙◌, Bool, true, false, List, [], ◌∷◌, Option, some, none,
  arith, All,
}
use erabi.Base.{ℤ}
use erabi.Text.{Text}
use erabi.Text.Search.{text_eq_iff}
use erabi.Db.Tables.{
  JobState, JobFailureCode, AttemptOutcome, JobLease, JobRow, JobAttempt, NewJob, state_eq,
  is_running, same_text,
}
use erabi.Db.Statements.{check_job, change_all}
use erabi.Db.Jobs.{is_active, finished, holds, released, leased, started}
use erabi.Db.Consistency.{bad_lease}
use erabi.Db.Queue.{new_row, beaten, cancelled_row, reprioritized}
use erabi.Db.Lifecycle.{
  Names, MayEnd, Move, create, lease, beat, close, withdraw, reorder, remove, Run, stay, move,
}

-- The attempts are numbered from 1 without a gap, the last one first.
abbrev pub Numbered : ℕ → List JobAttempt → Type 0
Numbered n [] = n ≡ 0
Numbered n (a ∷ rows) = (a.attempt_number ≡ n) × (0 < n) × Numbered (n - 1) rows

abbrev pub IsFinished : JobAttempt → Type 0
IsFinished a = is_running a.outcome ≡ false

-- The attempt that runs the job's lease.
pub record Runs (r : JobRow) (a : JobAttempt) : Type 0 where
  pub job : a.job_id ≡ r.id
  pub lease : r.lease_id ≡ some a.lease_id
  pub owner : r.lease_owner ≡ some a.worker_id
  pub generation : a.lease_generation ≡ r.lease_generation
  pub outcome : is_running a.outcome ≡ true

abbrev pub Live : JobRow → List JobAttempt → Type 0
Live r [] = ⊥
Live r (a ∷ rows) = Runs r a × All IsFinished rows

pub record IsConsistent (r : JobRow) (rows : List JobAttempt) : Type 0 where
  pub lease : bad_lease r ≡ false
  pub generation : r.lease_generation ≡ r.current_attempt
  pub bounded : r.current_attempt ≤ r.max_attempts
  pub waits : state_eq r.state JobState.queued ≡ true → r.current_attempt < r.max_attempts
  pub numbered : Numbered r.current_attempt rows
  pub runs : state_eq r.state JobState.running ≡ true → Live r rows
  pub rests : state_eq r.state JobState.running ≡ false → All IsFinished rows

-- A job that is not there has no attempts.
abbrev pub Holds : Option JobRow → List JobAttempt → Type 0
Holds none rows = rows ≡ []
Holds (some r) rows = IsConsistent r rows

change_all-finished :
    (j : ℕ) (l : JobLease) (f : JobAttempt → JobAttempt) (rows : List JobAttempt)
    → All IsFinished rows
    → change_all (is_active j l) f rows ≡ rows
unfolding change_all is_active
change_all-finished j l f [] h = refl
change_all-finished j l f (a ∷ rows) h = ground (arith, change_all-finished j l f rows h.1, h.0)

finished-Numbered :
    (test : JobAttempt → Bool) (now : ℕ) (outcome : AttemptOutcome) (why : Option JobFailureCode)
    (n : ℕ) (rows : List JobAttempt)
    → Numbered n rows
    → Numbered n (change_all test (finished now outcome why) rows)
unfolding change_all finished
finished-Numbered test now outcome why n [] h = h
finished-Numbered test now outcome why n (a ∷ rows) h =
    ground (arith, finished-Numbered test now outcome why (n - 1) rows h.2)

Runs-is_active :
    (r : JobRow) (l : JobLease) (a : JobAttempt) → Names l r → Runs r a → is_active r.id l a ≡ true
unfolding is_active
Runs-is_active r l a n u = ground (arith, text_eq_iff a.worker_id l.owner)

close-Finished :
    (r : JobRow) (l : JobLease) (now : ℕ) (outcome : AttemptOutcome) (why : Option JobFailureCode)
    (rows : List JobAttempt)
    → Names l r
    → is_running outcome ≡ false
    → Live r rows
    → All IsFinished (change_all (is_active r.id l) (finished now outcome why) rows)
unfolding change_all finished
close-Finished r l now outcome why [] n o h = absurd h
close-Finished r l now outcome why (a ∷ rows) n o h =
    rw (change_all-finished r.id l (finished now outcome why) rows h.1, Runs-is_active r l a n h.0)
      (o, h.1)

create-Holds :
    (job : NewJob) (now : ℕ)
    → check_job (new_row job now) ≡ true
    → IsConsistent (new_row job now) []
unfolding new_row check_job bad_lease
create-Holds job now h = ground arith

queued_rests :
    (s : JobState) → state_eq s JobState.queued ≡ true → state_eq s JobState.running ≡ false
queued_rests JobState.running h = cc
queued_rests JobState.queued h = refl
queued_rests JobState.succeeded h = refl
queued_rests JobState.failed h = refl
queued_rests JobState.cancelled h = refl

Numbered-pred : (n : ℕ) (rows : List JobAttempt) → Numbered n rows → Numbered (n + 1 - 1) rows
Numbered-pred n rows h = let e : n + 1 - 1 ≡ n = omega arith in rw e h

lease-Holds :
    (r : JobRow) (rows : List JobAttempt) (attempt_id lease_id : ℕ) (worker : Text)
    (now expires : ℕ)
    → state_eq r.state JobState.queued ≡ true
    → r.current_attempt < r.max_attempts
    → IsConsistent r rows
    → IsConsistent
        (leased lease_id worker (r.lease_generation + 1) (r.current_attempt + 1) now expires r)
        (started attempt_id r.id
            (r.current_attempt + 1)
            lease_id
            (r.lease_generation + 1)
            worker
            now
          ∷ rows)
unfolding leased started bad_lease
lease-Holds r rows attempt_id lease_id worker now expires q b c = record {
  lease = ground arith;
  generation = ground arith;
  bounded = ground arith;
  waits = λ h. cc;
  numbered = (refl, omega arith, Numbered-pred r.current_attempt rows c.numbered);
  runs = λ _. (
    record { job = refl; lease = refl; owner = refl; generation = refl; outcome = refl },
    c.rests (queued_rests r.state q),
  );
  rests = λ h. cc;
}

Live-same :
    (r s : JobRow) (rows : List JobAttempt)
    → s.id ≡ r.id
    → s.lease_id ≡ r.lease_id
    → s.lease_owner ≡ r.lease_owner
    → s.lease_generation ≡ r.lease_generation
    → Live r rows
    → Live s rows
Live-same r s [] i l o g h = absurd h
Live-same r s (a ∷ rows) i l o g h = (
  record {
    job = h.0.job ∙ sym i;
    lease = l ∙ h.0.lease;
    owner = o ∙ h.0.owner;
    generation = h.0.generation ∙ sym g;
    outcome = h.0.outcome;
  },
  h.1,
)

beat-Holds :
    (r : JobRow) (rows : List JobAttempt) (now expires : ℕ)
    → state_eq r.state JobState.running ≡ true
    → IsConsistent r rows
    → IsConsistent (beaten now expires r) rows
unfolding beaten bad_lease
beat-Holds r rows now expires q c = record {
  lease = ground arith;
  generation = c.generation;
  bounded = c.bounded;
  waits = c.waits;
  numbered = c.numbered;
  runs = λ h. Live-same r (beaten now expires r) rows refl refl refl refl (c.runs h);
  rests = c.rests;
}

close-Holds :
    (r : JobRow) (rows : List JobAttempt) (l : JobLease) (now : ℕ) (outcome : AttemptOutcome)
    (why : Option JobFailureCode) (state : JobState) (schedule : Option ℕ)
    (failure : Option JobFailureCode)
    → Names l r
    → is_running outcome ≡ false
    → MayEnd state r
    → IsConsistent r rows
    → IsConsistent
        (released state schedule failure now r)
        (change_all (is_active r.id l) (finished now outcome why) rows)
unfolding released bad_lease
close-Holds r rows l now outcome why state schedule failure n o m c =
    record {
      lease = ground (arith, m.stops);
      generation = c.generation;
      bounded = c.bounded;
      waits = m.retries;
      numbered =
          finished-Numbered (is_active r.id l) now outcome why r.current_attempt rows c.numbered;
      runs = λ y. absurd (cc);
      rests = λ _. close-Finished r l now outcome why rows n o (c.runs n.running);
    }

withdraw-Holds :
    (r : JobRow) (rows : List JobAttempt) (now : ℕ)
    → state_eq r.state JobState.queued ≡ true
    → IsConsistent r rows
    → IsConsistent (cancelled_row now r) rows
unfolding cancelled_row bad_lease
withdraw-Holds r rows now q c = record {
  lease = ground (arith, c.lease, queued_rests r.state q);
  generation = c.generation;
  bounded = c.bounded;
  waits = λ h. absurd (cc);
  numbered = c.numbered;
  runs = λ h. absurd (cc);
  rests = λ _. c.rests (queued_rests r.state q);
}

reorder-Holds :
    (r : JobRow) (rows : List JobAttempt) (priority : ℤ) (scheduled_at now : ℕ)
    → state_eq r.state JobState.queued ≡ true
    → IsConsistent r rows
    → IsConsistent (reprioritized priority scheduled_at now r) rows
unfolding reprioritized bad_lease
reorder-Holds r rows priority scheduled_at now q c = record {
  lease = c.lease;
  generation = c.generation;
  bounded = c.bounded;
  waits = c.waits;
  numbered = c.numbered;
  runs = λ h. absurd (ground (arith, queued_rests r.state q, h));
  rests = c.rests;
}

pub Move-Holds :
    {o : Option JobRow} {rows : List JobAttempt} {p : Option JobRow} {behind : List JobAttempt}
    → Move o rows p behind
    → Holds o rows
    → Holds p behind
Move-Holds (create job now rows h) c = rw c (create-Holds job now h)
Move-Holds (lease r rows attempt_id lease_id worker now expires q b m) c =
    lease-Holds r rows attempt_id lease_id worker now expires q b c
Move-Holds (beat r rows l now expires at n e lt) c = beat-Holds r rows now expires n.running c
Move-Holds (close r rows l now outcome why state schedule failure h o m) c =
    close-Holds r rows l now outcome why state schedule failure h o m c
Move-Holds (withdraw r rows now q) c = withdraw-Holds r rows now q c
Move-Holds (reorder r rows priority scheduled_at now q) c =
    reorder-Holds r rows priority scheduled_at now q c
Move-Holds (remove r q) c = refl

pub Run-Holds :
    {o : Option JobRow} {rows : List JobAttempt} {p : Option JobRow} {behind : List JobAttempt}
    → Run o rows p behind
    → Holds o rows
    → Holds p behind
Run-Holds stay c = c
Run-Holds (move p behind q after r m) c = Move-Holds m (Run-Holds r c)
