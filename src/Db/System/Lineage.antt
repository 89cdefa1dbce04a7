-- ===== src/Db/System/Lineage.antt =====
-- The walk up a job's parents in crates/erabi-db/src/repositories/job.rs, which ends in every database
-- that the transactions can make.
use erabi.Base.{
  ℕ, zero, suc, ◌≤◌, ◌<◌, ◌==◌, ◌≡◌, sym, ap, ◌∙◌, subst, inl, inr, true, false, List, [], ◌∷◌,
  some, none, is_some, arith, if◌then◌else◌, length, Bool-cases, Option-cases,
}
use erabi.Db.Tables.{JobRow, Database}
use erabi.Db.Statements.{find}
use erabi.Db.Statements.WellFormed.{IsTable, ParentIn}
use erabi.Db.Statements.Inversion.{Answer-cases}
use erabi.Db.Jobs.{select_job}
use erabi.Db.Jobs.Reading.{select_job-ok}
use erabi.Db.Calls.{lineage, latest_checkpoint_for_lineage}
use erabi.Db.System.{empty, Steps}
use erabi.Db.System.Promises.{Steps-IsTable}

-- How many rows were there when the job was inserted, itself counted.
unfoldable rank : ℕ → List JobRow → ℕ
rank j [] = 0
rank j (r ∷ rows) = let rest = rank j rows in if r.id == j then suc (length rows) else rest

rank-le : (j : ℕ) (rows : List JobRow) → rank j rows ≤ length rows
unfolding rank
rank-le j [] = omega arith
rank-le j (r ∷ rows) = ground (arith, rank-le j rows)

-- A row that is further down is not the first one.
not_first :
    (p : ℕ) (t : JobRow) (rows : List JobRow)
    → find t.id rows ≡ none
    → is_some (find p rows) ≡ true
    → (t.id == p) ≡ false
not_first p t rows fresh there = elim (Bool-cases (t.id == p)) [
  | inr n ↦ n
  | inl y ↦ ground (arith, fresh, there, y)
]

parent_there :
    (j p : ℕ) (r : JobRow) (rows : List JobRow)
    → IsTable rows
    → find j rows ≡ some r
    → r.parent_job_id ≡ some p
    → is_some (find p rows) ≡ true
unfolding find
parent_there j p r [] t found parent = cc
parent_there j p r (s ∷ rows) t found parent = elim (Bool-cases (s.id == j)) [
  | inl y ↦
      let same : s ≡ r = ground (arith, found, y) in
      let mine : s.parent_job_id ≡ some p = ap (λ x. x.parent_job_id) same ∙ parent in
      let there : is_some (find p rows) ≡ true = subst (λ o. ParentIn o rows) mine t.1 in
      rw (not_first p s rows t.0 there) there
  | inr n ↦
      let there = parent_there j p r rows t.2 (ground (arith, found, n)) parent in
      rw (not_first p s rows t.0 there) there
]

-- A parent was inserted before its child.
rank-parent :
    (j p : ℕ) (r : JobRow) (rows : List JobRow)
    → IsTable rows
    → find j rows ≡ some r
    → r.parent_job_id ≡ some p
    → rank p rows < rank j rows
unfolding find rank
rank-parent j p r [] t found parent = cc
rank-parent j p r (s ∷ rows) t found parent = elim (Bool-cases (s.id == j)) [
  | inl y ↦
      let same : s ≡ r = ground (arith, found, y) in
      let mine : s.parent_job_id ≡ some p = ap (λ x. x.parent_job_id) same ∙ parent in
      let there : is_some (find p rows) ≡ true = subst (λ o. ParentIn o rows) mine t.1 in
      rw (not_first p s rows t.0 there, y) (omega (arith, rank-le p rows))
  | inr n ↦
      let deeper : find j rows ≡ some r = ground (arith, found, n) in
      let there = parent_there j p r rows t.2 deeper parent in
      rw (not_first p s rows t.0 there, n) (rank-parent j p r rows t.2 deeper parent)
]

lineage-is_some :
    (fuel j : ℕ) (db : Database)
    → IsTable db.jobs
    → rank j db.jobs < fuel
    → is_some (lineage fuel j db) ≡ true
unfolding lineage
lineage-is_some zero j db t enough = absurd (omega (arith, enough))
lineage-is_some (suc fuel) j db t enough = elim (Answer-cases (select_job j db)) [
  | inl (e, bad) ↦ ground (arith, bad)
  | inr (job, good) ↦
      let (r, found, reads) = select_job-ok j db job good in
      elim (Option-cases job.parent_job_id) [
        | inl root ↦ ground (arith, good, root)
        | inr (p, parent) ↦
            let up = rank-parent j p r db.jobs t found (sym reads.parent ∙ parent) in
            ground (arith, good, parent, lineage-is_some fuel p db t (omega (arith, up, enough)))
      ]
]

-- The loop over the parents of a job ends, whatever the job: a reachable database never has a job
-- among its own ancestors, so as many rounds as there are jobs, and one more, are enough.
pub Steps-latest_checkpoint_for_lineage :
    {db : Database} (j : ℕ) → Steps empty db → is_some (latest_checkpoint_for_lineage j db) ≡ true
unfolding latest_checkpoint_for_lineage
Steps-latest_checkpoint_for_lineage {db} j s = ground (
  arith,
  lineage-is_some (suc (length db.jobs)) j db (Steps-IsTable s) (omega (arith, rank-le j db.jobs)),
)
