-- ===== src/Db/System/Invariants.antt =====
-- `ensure_queue_invariants` of crates/erabi-db/src/repositories/job.rs in every database that the
-- transactions can make.
use erabi.Base.{
  ℕ, ◌-◌, ◌≤◌, ◌==◌, ◌≡◌, refl, sym, ap, ◌∙◌, inl, inr, Bool, false, ◌&&◌, List, [], ◌∷◌, Option,
  some, none, ok, arith, ltb, any, All, Bool-cases, ==→eq, ==_refl, subst,
}
use erabi.Text.Search.{text_eq_iff}
use erabi.Db.Tables.{JobState, JobRow, JobAttempt, Database, state_eq, is_running}
use erabi.Db.Statements.{find, attempts_of}
use erabi.Db.Statements.Rows.{find-id}
use erabi.Db.Statements.WellFormed.{IsTable}
use erabi.Db.Consistency.{
  bad_lease, is_current, mismatch, bad_current, bad_idle, last_attempt, bad_count, bad_attempt,
  ensure_queue_invariants,
}
use erabi.Db.Lifecycle.Consistent.{Numbered, IsFinished, IsConsistent, Holds}
use erabi.Db.System.{empty, Steps}
use erabi.Db.System.Promises.{Steps-IsTable, Steps-Holds}

any-false {ℓ} :
    {A : Type ℓ} (test : A → Bool) (xs : List A)
    → All (λ x. test x ≡ false) xs
    → any test xs ≡ false
any-false test [] h = refl
any-false test (x ∷ xs) h = rw (h.0, any-false test xs h.1)

-- A row further down has another key.
pub differs :
    (i k : ℕ) (s : JobRow) (rows : List JobRow)
    → find i rows ≡ none
    → find k rows ≡ some s
    → (i == k) ≡ false
differs i k s rows missing found = elim (Bool-cases (i == k)) [
  | inr n ↦ n
  | inl y ↦
      let e : find i rows ≡ find k rows = ap (λ x. find x rows) (==→eq i k y) in
      absurd (cc (e, missing, found))
]

-- What holds of the row under every key holds of every row.
everywhere :
    (P : JobRow → Type 0) (rows : List JobRow)
    → IsTable rows
    → ((k : ℕ) (r : JobRow) → find k rows ≡ some r → P r)
    → All P rows
unfolding find
everywhere P [] t h = tt
everywhere P (r ∷ rows) t h = (
  h r.id r (rw ==_refl refl),
  everywhere P rows t.2 (λ k s found. h k s (rw (differs r.id k s rows t.0 found) found)),
)

last_attempt-Numbered : (n : ℕ) (rows : List JobAttempt) → Numbered n rows → last_attempt rows ≡ n
unfolding last_attempt
last_attempt-Numbered n [] h = omega (arith, h)
last_attempt-Numbered n (a ∷ rows) h =
    omega (arith, last_attempt-Numbered (n - 1) rows h.2, h.0, h.1)

finished-any :
    (rows : List JobAttempt) → All IsFinished rows → any (λ a. is_running a.outcome) rows ≡ false
finished-any rows h = any-false (λ (a : JobAttempt). is_running a.outcome) rows h

finished-is_current :
    (r : JobRow) (rows : List JobAttempt)
    → All IsFinished rows
    → any (λ a. is_current r a && mismatch r a) rows ≡ false
finished-is_current r [] h = refl
finished-is_current r (a ∷ rows) h = ground (arith, finished-is_current r rows h.1, h.0)

bad_current-false :
    (r : JobRow) (rows : List JobAttempt) → IsConsistent r rows → bad_current r rows ≡ false
unfolding bad_current
bad_current-false r [] c = elim (Bool-cases (state_eq r.state JobState.running)) [
  | inl y ↦ absurd (c.runs y)
  | inr n ↦ rw n refl
]
bad_current-false r (a ∷ rows) c = elim (Bool-cases (state_eq r.state JobState.running)) [
  | inr n ↦ rw n refl
  | inl y ↦
      let (u, past) = c.runs y in
      ground (
        arith,
        y,
        c.numbered.0,
        u.lease,
        u.owner,
        u.generation,
        u.outcome,
        text_eq_iff a.worker_id a.worker_id,
        finished-is_current r rows past,
      )
]

bad_idle-false :
    (r : JobRow) (rows : List JobAttempt) → IsConsistent r rows → bad_idle r rows ≡ false
unfolding bad_idle
bad_idle-false r rows c = elim (Bool-cases (state_eq r.state JobState.running)) [
  | inl y ↦ rw y refl
  | inr n ↦ rw (n, finished-any rows (c.rests n)) refl
]

bad_count-false :
    (r : JobRow) (rows : List JobAttempt) → IsConsistent r rows → bad_count r rows ≡ false
unfolding bad_count
bad_count-false r rows c =
    rw (last_attempt-Numbered r.current_attempt rows c.numbered, ==_refl) refl

-- No attempt has a number above the last one.
Numbered-le :
    (n limit : ℕ) (rows : List JobAttempt)
    → Numbered n rows
    → n ≤ limit
    → All (λ a. ltb limit a.attempt_number ≡ false) rows
Numbered-le n limit [] h k = tt
Numbered-le n limit (a ∷ rows) h k =
    (ground (arith, h.0, k), Numbered-le (n - 1) limit rows h.2 (omega (arith, k)))

attempts_of-job_id : (i : ℕ) (rows : List JobAttempt) → All (λ a. a.job_id ≡ i) (attempts_of i rows)
unfolding attempts_of
attempts_of-job_id i [] = tt
attempts_of-job_id i (a ∷ rows) = elim (Bool-cases (a.job_id == i)) [
  | inl y ↦ rw y (==→eq a.job_id i y, attempts_of-job_id i rows)
  | inr n ↦ rw n (attempts_of-job_id i rows)
]

sound_one :
    (jobs : List JobRow) (i : ℕ) (r : JobRow) (a : JobAttempt)
    → find i jobs ≡ some r
    → a.job_id ≡ i
    → ltb r.max_attempts a.attempt_number ≡ false
    → bad_attempt jobs a ≡ false
unfolding bad_attempt
sound_one jobs i r a found e small =
    let mine : find a.job_id jobs ≡ some r = ap (λ x. find x jobs) e ∙ found in
    ground (arith, mine, small)

sound_attempts :
    (jobs : List JobRow) (i : ℕ) (r : JobRow) (rows : List JobAttempt)
    → find i jobs ≡ some r
    → All (λ a. a.job_id ≡ i) rows
    → All (λ a. ltb r.max_attempts a.attempt_number ≡ false) rows
    → All (λ a. bad_attempt jobs a ≡ false) rows
sound_attempts jobs i r [] found mine small = tt
sound_attempts jobs i r (a ∷ rows) found mine small =
    (sound_one jobs i r a found mine.0 small.0, sound_attempts jobs i r rows found mine.1 small.1)

sound_case :
    (jobs : List JobRow) (i : ℕ) (o : Option JobRow) (rows : List JobAttempt)
    → find i jobs ≡ o
    → All (λ a. a.job_id ≡ i) rows
    → Holds o rows
    → All (λ a. bad_attempt jobs a ≡ false) rows
sound_case jobs i none rows e mine h = rw h tt
sound_case jobs i (some r) rows e mine h =
    sound_attempts jobs i r rows e mine
      (Numbered-le r.current_attempt r.max_attempts rows h.numbered h.bounded)

-- The attempts of every job are sound.
sound_of :
    (db : Database) (i : ℕ)
    → Holds (find i db.jobs) (attempts_of i db.attempts)
    → All (λ a. bad_attempt db.jobs a ≡ false) (attempts_of i db.attempts)
sound_of db i h =
    sound_case db.jobs i (find i db.jobs) (attempts_of i db.attempts) refl
      (attempts_of-job_id i db.attempts) h

All-first :
    (P : JobAttempt → Type 0) (a : JobAttempt) (rows : List JobAttempt)
    → All P (attempts_of a.job_id (a ∷ rows))
    → P a
unfolding attempts_of
All-first P a rows h = (rw ==_refl at h).0

All-rest :
    (P : JobAttempt → Type 0) (i : ℕ) (a : JobAttempt) (rows : List JobAttempt)
    → All P (attempts_of i (a ∷ rows))
    → All P (attempts_of i rows)
unfolding attempts_of
All-rest P i a rows h = elim (Bool-cases (a.job_id == i)) [
  | inl y ↦ (rw y at h).1
  | inr n ↦ rw n at h
]

everywhere_attempt :
    (P : JobAttempt → Type 0) (rows : List JobAttempt)
    → ((i : ℕ) → All P (attempts_of i rows))
    → All P rows
everywhere_attempt P [] h = tt
everywhere_attempt P (a ∷ rows) h =
    (All-first P a rows (h a.job_id), everywhere_attempt P rows (λ i. All-rest P i a rows (h i)))

row-Holds :
    (db : Database) (k : ℕ) (r : JobRow)
    → find k db.jobs ≡ some r
    → Holds (find k db.jobs) (attempts_of k db.attempts)
    → IsConsistent r (attempts_of r.id db.attempts)
row-Holds db k r found h =
    let held : IsConsistent r (attempts_of k db.attempts) =
      subst (λ o. Holds o (attempts_of k db.attempts)) found h in
    subst (λ i. IsConsistent r (attempts_of i db.attempts)) (sym (find-id k r db.jobs found)) held

All-map :
    (db : Database) (P : JobRow → Type 0)
    → ((r : JobRow) → IsConsistent r (attempts_of r.id db.attempts) → P r)
    → (rows : List JobRow) → All (λ r. IsConsistent r (attempts_of r.id db.attempts)) rows
    → All P rows
All-map db P f [] h = tt
All-map db P f (r ∷ rows) h = (f r h.0, All-map db P f rows h.1)

-- The check that every acquisition and recovery starts with never finds the queue inconsistent,
-- whatever transactions were committed since the database was empty: jobs that run have their lease
-- and one running attempt that agrees with it, others have neither, and the attempts of each job
-- are counted and within its limit.
pub Steps-ensure_queue_invariants :
    {db : Database} → Steps empty db → ensure_queue_invariants db ≡ ok tt
unfolding ensure_queue_invariants
Steps-ensure_queue_invariants {db} s =
    let table = Steps-IsTable s in
    let holds = Steps-Holds s in
    let rows = λ (r : JobRow). attempts_of r.id db.attempts in
    let all =
      everywhere (λ r. IsConsistent r (attempts_of r.id db.attempts)) db.jobs table
        (λ k r found. row-Holds db k r found (holds k)) in
    rw
      (
        any-false bad_lease db.jobs (All-map db _ (λ r c. c.lease) db.jobs all),
        any-false (λ r. bad_current r (rows r)) db.jobs
            (All-map db _ (λ r c. bad_current-false r (rows r) c) db.jobs all),
        any-false (λ r. bad_idle r (rows r)) db.jobs
            (All-map db _ (λ r c. bad_idle-false r (rows r) c) db.jobs all),
        any-false (λ r. bad_count r (rows r)) db.jobs
            (All-map db _ (λ r c. bad_count-false r (rows r) c) db.jobs all),
        any-false (bad_attempt db.jobs) db.attempts (
            everywhere_attempt (λ a. bad_attempt db.jobs a ≡ false) db.attempts
              (λ i. sound_of db i (holds i))),
      )
      refl
