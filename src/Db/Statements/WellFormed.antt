-- ===== src/Db/Statements/WellFormed.antt =====
-- The shape of the table `jobs` of migrations/0004_jobs.sql: its primary key, and the foreign key of
-- a job's parent, which stands in the table before the job.
use erabi.Base.{
  ℕ, ◌==◌, ◌≡◌, refl, inl, inr, Bool, true, false, List, [], ◌∷◌, Option, some, none, is_some, ok,
  arith, any, Bool-cases, ||-false, ==→eq, ap, sym, ◌∙◌,
}
use erabi.Db.Tables.{JobRow, Database}
use erabi.Db.Statements.{find, put, delete, insert_job, refers_to_job}

abbrev pub ParentIn : Option ℕ → List JobRow → Type 0
ParentIn none rows = Unit
ParentIn (some p) rows = is_some (find p rows) ≡ true

-- The last inserted row comes first.
abbrev pub IsTable : List JobRow → Type 0
IsTable [] = Unit
IsTable (r ∷ rows) = (find r.id rows ≡ none) × ParentIn r.parent_job_id rows × IsTable rows

find-put-none :
    (i k : ℕ) (s : JobRow) (rows : List JobRow)
    → s.id ≡ k
    → find i rows ≡ none
    → find i (put k s rows) ≡ none
unfolding find put
find-put-none i k s [] e h = refl
find-put-none i k s (t ∷ rows) e h = ground (arith, find-put-none i k s rows, e, h)

find-put_some :
    (i k : ℕ) (s : JobRow) (rows : List JobRow)
    → s.id ≡ k
    → is_some (find i rows) ≡ true
    → is_some (find i (put k s rows)) ≡ true
unfolding find put
find-put_some i k s [] e h = h
find-put_some i k s (t ∷ rows) e h = ground (arith, find-put_some i k s rows, e, h)

ParentIn-put :
    (o : Option ℕ) (k : ℕ) (s : JobRow) (rows : List JobRow)
    → s.id ≡ k
    → ParentIn o rows
    → ParentIn o (put k s rows)
ParentIn-put none k s rows e h = tt
ParentIn-put (some p) k s rows e h = find-put_some p k s rows e h

pub put-IsTable :
    (k : ℕ) (r s : JobRow) (rows : List JobRow)
    → find k rows ≡ some r
    → s.id ≡ k
    → s.parent_job_id ≡ r.parent_job_id
    → IsTable rows
    → IsTable (put k s rows)
unfolding find put
put-IsTable k r s [] found e p h = tt
put-IsTable k r s (t ∷ rows) found e p h = elim (Bool-cases (t.id == k)) [
  | inl y ↦
      let same : t ≡ r = ground (arith, found, y) in
      let id : s.id ≡ t.id = e ∙ sym (==→eq t.id k y) in
      let parent : s.parent_job_id ≡ t.parent_job_id = p ∙ sym (ap (λ x. x.parent_job_id) same) in
      rw (y, id, parent) h
  | inr n ↦ rw n (
    find-put-none t.id k s rows e h.0,
    ParentIn-put t.parent_job_id k s rows e h.1,
    put-IsTable k r s rows (ground (arith, found, n)) e p h.2,
  )
]

find-delete-none :
    (i k : ℕ) (rows : List JobRow) → find i rows ≡ none → find i (delete k rows) ≡ none
unfolding find delete
find-delete-none i k [] h = refl
find-delete-none i k (t ∷ rows) h = ground (arith, find-delete-none i k rows, h)

find-delete_some :
    (i k : ℕ) (rows : List JobRow)
    → (i == k) ≡ false
    → is_some (find i rows) ≡ true
    → is_some (find i (delete k rows)) ≡ true
unfolding find delete
find-delete_some i k [] n h = h
find-delete_some i k (t ∷ rows) n h = ground (arith, find-delete_some i k rows, n, h)

abbrev pub is_parent : ℕ → JobRow → Bool
is_parent k r = elim r.parent_job_id [ none ↦ false | some p ↦ p == k ]

ParentIn-delete :
    (o : Option ℕ) (k : ℕ) (rows : List JobRow)
    → elim o [ none ↦ false | some p ↦ p == k ] ≡ false
    → ParentIn o rows
    → ParentIn o (delete k rows)
ParentIn-delete none k rows n h = tt
ParentIn-delete (some p) k rows n h = find-delete_some p k rows n h

pub delete-IsTable :
    (k : ℕ) (rows : List JobRow)
    → any (is_parent k) rows ≡ false
    → IsTable rows
    → IsTable (delete k rows)
unfolding delete
delete-IsTable k [] n h = tt
delete-IsTable k (t ∷ rows) n h =
    let (mine, others) = ||-false (is_parent k t) (any (is_parent k) rows) n in
    let rest = delete-IsTable k rows others h.2 in
    elim (Bool-cases (t.id == k)) [
      | inl y ↦ rw y rest
      | inr away ↦
          rw away (
            find-delete-none t.id k rows h.0,
            ParentIn-delete t.parent_job_id k rows mine h.1,
            rest,
          )
    ]

refers_to_job-ParentIn :
    (o : Option ℕ) (db : Database) → refers_to_job o db ≡ true → ParentIn o db.jobs
refers_to_job-ParentIn none db h = tt
refers_to_job-ParentIn (some p) db h = h

pub insert_job-IsTable :
    (r : JobRow) (a : Database) (u : Unit {0}) (b : Database)
    → insert_job r a ≡ ok (u, b)
    → IsTable a.jobs
    → IsTable b.jobs
unfolding insert_job
insert_job-IsTable r a u b h t =
    let missing : find r.id a.jobs ≡ none = ground (arith, h) in
    let refers : refers_to_job r.parent_job_id a ≡ true = ground (arith, h) in
    let done : b.jobs ≡ r ∷ a.jobs = ground (arith, h) in
    rw done (missing, refers_to_job-ParentIn r.parent_job_id a refers, t)
