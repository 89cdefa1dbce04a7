-- ===== src/Db/Statements/Rows.antt =====
-- What the statements of crates/erabi-db/src/repositories/job.rs find behind one another: the rows
-- under a key after an update, an insertion or a deletion, and the attempts of one job.
use erabi.Base.{
  ℕ, ◌==◌, ◌≡◌, refl, ◌⊎◌, inl, inr, Bool, true, false, List, [], ◌∷◌, some, none, ok, arith,
  if◌then◌else◌, any, Bool-cases, Option-cases,
}
use erabi.Db.Tables.{JobRow, JobAttempt, Database}
use erabi.Db.Statements.{
  find, put, delete, update_job, insert_job, insert_attempt, attempts_of, change_all, check_job,
}

pub find-id : (k : ℕ) (r : JobRow) (rows : List JobRow) → find k rows ≡ some r → r.id ≡ k
unfolding find
find-id k r [] h = absurd (ground (arith, h))
find-id k r (s ∷ rows) h = ground (arith, find-id k r rows, h)

pub find-put :
    (i k : ℕ) (r s : JobRow) (rows : List JobRow)
    → find k rows ≡ some r
    → s.id ≡ k
    → find i (put k s rows) ≡ (if k == i then some s else find i rows)
unfolding find put
find-put i k r s [] h e = absurd (ground (arith, h))
find-put i k r s (t ∷ rows) h e = ground (arith, find-put i k r s rows, h)

pub find-delete_other :
    (i k : ℕ) (rows : List JobRow) → (k == i) ≡ false → find i (delete k rows) ≡ find i rows
unfolding find delete
find-delete_other i k [] h = refl
find-delete_other i k (t ∷ rows) h = ground (arith, find-delete_other i k rows h)

pub find-delete_self : (k : ℕ) (rows : List JobRow) → find k (delete k rows) ≡ none
unfolding find delete
find-delete_self k [] = refl
find-delete_self k (t ∷ rows) = ground (arith, find-delete_self k rows)

pub attempts_of-none :
    (k : ℕ) (rows : List JobAttempt)
    → any (λ a. a.job_id == k) rows ≡ false
    → attempts_of k rows ≡ []
unfolding attempts_of
attempts_of-none k [] h = refl
attempts_of-none k (a ∷ rows) h = ground (arith, attempts_of-none k rows, h)

pub attempts_of-change_all :
    (i : ℕ) (test : JobAttempt → Bool) (change : JobAttempt → JobAttempt) (rows : List JobAttempt)
    → ((a : JobAttempt) → (change a).job_id ≡ a.job_id)
    → attempts_of i (change_all test change rows) ≡ change_all test change (attempts_of i rows)
unfolding attempts_of change_all
attempts_of-change_all i test change [] keep = refl
attempts_of-change_all i test change (a ∷ rows) keep =
    ground (arith, attempts_of-change_all i test change rows keep, keep a)

-- What an update of a job's row did.
pub update_job-ok :
    (moves : Bool) (k : ℕ) (test : JobRow → Bool) (change : JobRow → JobRow) (db : Database) (n : ℕ)
    (db' : Database)
    → update_job moves k test change db ≡ ok (n, db')
    → ((n ≡ 0) × (db' ≡ db))
      ⊎ ((r : JobRow) × (n ≡ 1)
          × (find k db.jobs ≡ some r)
          × (test r ≡ true)
          × (check_job (change r) ≡ true)
          × (db' ≡ record db { jobs = put k (change r) db.jobs }))
unfolding update_job
update_job-ok moves k test change db n db' h = elim (Option-cases (find k db.jobs)) [
  | inl missing ↦ inl (ground (arith, h, missing))
  | inr (r, found) ↦ elim (Bool-cases (test r)) [
    | inl y ↦ elim (Bool-cases (check_job (change r))) [
      | inl good ↦ inr (r, ground (arith, h, found, y), found, y, good, ground (arith, h, found, y))
      | inr bad ↦ absurd (ground (arith, h, found, y, bad))
    ]
    | inr n ↦ inl (ground (arith, h, found, n))
  ]
]

pub insert_attempt-ok :
    (a : JobAttempt) (db : Database) (u : Unit {0}) (db' : Database)
    → insert_attempt a db ≡ ok (u, db')
    → db' ≡ record db { attempts = a ∷ db.attempts }
unfolding insert_attempt
insert_attempt-ok a db u db' h = ground (arith, h)

pub insert_job-ok :
    (r : JobRow) (db : Database) (u : Unit {0}) (db' : Database)
    → insert_job r db ≡ ok (u, db')
    → (find r.id db.jobs ≡ none) × (check_job r ≡ true) × (db' ≡ record db { jobs = r ∷ db.jobs })
unfolding insert_job
insert_job-ok r db u db' h = ground (arith, h)
