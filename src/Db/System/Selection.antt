-- ===== src/Db/System/Selection.antt =====
-- Which job crates/erabi-db/src/repositories/job.rs gives to the next worker.
use erabi.Base.{
  ℕ, ◌+◌, ◌<◌, ◌≡◌, refl, sym, ◌∙◌, inl, inr, Bool, true, false, not, ◌&&◌, List, [], ◌∷◌, Option,
  some, none, ok, arith, ℤ, All, Bool-cases, Option-cases, ==_refl, subst,
}
use erabi.Text.{Text}
use erabi.Db.Tables.{JobRepositoryError, JobRow, AcquiredJob, Database}
use erabi.Db.Statements.{find, put}
use erabi.Db.Statements.WellFormed.{IsTable}
use erabi.Db.Statements.Inversion.{bind-ok, query-ok, raise_if-ok}
use erabi.Db.Jobs.{valid_worker_id, leased, lease_queued_job}
use erabi.Db.Recovery.{StaleJobRecovery, recover_expired_in_transaction}
use erabi.Db.Consistency.{ensure_queue_invariants}
use erabi.Db.Queue.{
  precedes, is_eligible, first_where, select_eligible_job, positive, lease_next,
  acquire_next_with_storage_admission,
}
use erabi.Db.Refinement.Admission.{lease_queued_job-ok}
use erabi.Db.Refinement.Recovery.{recover_expired-Refines}
use erabi.Db.System.{empty, Steps}
use erabi.Db.System.Order.{
  precedes_irrefl, precedes_asym, precedes_trans, Eligible, Before, precedes_iff, is_eligible_iff,
}
use erabi.Db.System.Promises.{Steps-IsTable}
use erabi.Db.System.Invariants.{differs}

module _ (test : JobRow → Bool) where
  first_where-none :
      (rows : List JobRow) → first_where test rows ≡ none → All (λ s. test s ≡ false) rows
  unfolding first_where
  first_where-none [] h = tt
  first_where-none (r ∷ rows) h = elim (Bool-cases (test r)) [
    | inl y ↦ absurd (ground (arith, h, y))
    | inr n ↦ (n, first_where-none rows (ground (arith, h, n)))
  ]

  -- No row that passes the test comes before this one.
  abbrev pub IsFirst : JobRow → List JobRow → Type 0
  IsFirst r rows = All (λ s. (test s && precedes s r) ≡ false) rows

  none-IsFirst : (r : JobRow) (rows : List JobRow) → All (λ s. test s ≡ false) rows → IsFirst r rows
  none-IsFirst r [] h = tt
  none-IsFirst r (s ∷ rows) h = (rw h.0 refl, none-IsFirst r rows h.1)

  later-IsFirst :
      (r s : JobRow) (rows : List JobRow) → precedes s r ≡ false → IsFirst s rows → IsFirst r rows
  later-IsFirst r s [] p h = tt
  later-IsFirst r s (t ∷ rows) p h =
      (ground (arith, h.0, p, precedes_trans t s r), later-IsFirst r s rows p h.1)

  abbrev Best : List JobRow → JobRow → Type 0
  Best rows r = (test r ≡ true) × IsFirst r rows

  first_where-IsFirst :
      (rows : List JobRow) (r : JobRow) → first_where test rows ≡ some r → Best rows r
  unfolding first_where
  first_where-IsFirst [] r h = cc
  first_where-IsFirst (t ∷ rows) r h = elim (Bool-cases (test t)) [
    | inr n ↦
        let (passes, least) = first_where-IsFirst rows r (ground (arith, h, n)) in
        (passes, (rw n refl, least))
    | inl y ↦ elim (Option-cases (first_where test rows)) [
      | inl nothing ↦
          let same : r ≡ t = ground (arith, h, y, nothing) in
          subst (Best (t ∷ rows)) (sym same) (
            y,
            (
              ground (arith, precedes_irrefl t),
              none-IsFirst t rows (first_where-none rows nothing),
            ),
          )
      | inr (s, best) ↦
          let (passes, least) = first_where-IsFirst rows s best in
          elim (Bool-cases (precedes s t)) [
            | inl before ↦
                let same : r ≡ s = ground (arith, h, y, best, before) in
                subst (Best (t ∷ rows)) (sym same)
                  (passes, (ground (arith, precedes_asym s t before), least))
            | inr after ↦
                let same : r ≡ t = ground (arith, h, y, best, after) in
                subst (Best (t ∷ rows)) (sym same)
                  (y, (ground (arith, precedes_irrefl t), later-IsFirst t s rows after least))
          ]
    ]
  ]

  first_where-find :
      (rows : List JobRow) (r : JobRow)
      → IsTable rows
      → first_where test rows ≡ some r
      → find r.id rows ≡ some r
  unfolding first_where find
  first_where-find [] r t h = cc
  first_where-find (s ∷ rows) r t h =
      let here = λ (x : JobRow). find x.id (s ∷ rows) ≡ some x in
      elim (Option-cases (first_where test rows)) [
        | inl nothing ↦
            let same : r ≡ s = ground (arith, h, nothing) in subst here (sym same) (rw ==_refl refl)
        | inr (u, best) ↦ elim (Bool-cases (test s && not (precedes u s))) [
          | inl y ↦
              let same : r ≡ s = ground (arith, h, best, y) in
              subst here (sym same) (rw ==_refl refl)
          | inr n ↦
              let same : r ≡ u = ground (arith, h, best, n) in
              let deeper = first_where-find rows u t.2 best in
              subst here (sym same) (rw (differs s.id u.id u rows t.0 deeper) deeper)
        ]
      ]

-- What an acquisition may make of the database `c` that the recovery leaves.
abbrev pub Chosen : ℕ → Text → ℕ → Bool → Database → Option AcquiredJob → Database → Type 0
Chosen lease_id worker now allow c none b =
    (b ≡ c) × All (λ s. ¬ (Eligible now allow s)) c.jobs
Chosen lease_id worker now allow c (some acquired) b =
    (r : JobRow) × (expires : ℕ) × (find r.id c.jobs ≡ some r)
    × Eligible now allow r
    × All (λ s. ¬ (Eligible now allow s × Before s r)) c.jobs
    × (r.current_attempt < r.max_attempts)
    × (b ≡ record c {
      jobs =
          put r.id
            (leased lease_id worker (r.lease_generation + 1) (r.current_attempt + 1) now expires r)
            c.jobs;
      attempts = acquired.attempt ∷ c.attempts;
    })

none-Eligible :
    (now : ℕ) (allow : Bool) (rows : List JobRow)
    → All (λ s. is_eligible now allow s ≡ false) rows
    → All (λ s. ¬ (Eligible now allow s)) rows
none-Eligible now allow [] h = tt
none-Eligible now allow (s ∷ rows) h =
    ((λ e. cc ((is_eligible_iff now allow s).1 e, h.0)), none-Eligible now allow rows h.1)

IsFirst-Before :
    (now : ℕ) (allow : Bool) (r : JobRow) (rows : List JobRow)
    → IsFirst (is_eligible now allow) r rows
    → All (λ s. ¬ (Eligible now allow s × Before s r)) rows
IsFirst-Before now allow r [] h = tt
IsFirst-Before now allow r (s ∷ rows) h = (
  (λ e. ground (arith, (is_eligible_iff now allow s).1 e.0, (precedes_iff s r).1 e.1, h.0)),
  IsFirst-Before now allow r rows h.1,
)

lease_next-Chosen :
    (lease_id attempt_id : ℕ) (worker : Text) (now duration : ℕ) (allow : Bool) (c : Database)
    (o : Option AcquiredJob) (b : Database)
    → IsTable c.jobs
    → lease_next lease_id attempt_id worker now duration allow c ≡ ok (o, b)
    → Chosen lease_id worker now allow c o b
unfolding lease_next select_eligible_job
lease_next-Chosen lease_id attempt_id worker now duration allow c o b t h =
    elim (Option-cases (first_where (is_eligible now allow) c.jobs)) [
      | inl nothing ↦
          let none_taken : o ≡ none = ground (arith, h, nothing) in
          let same : b ≡ c = ground (arith, h, nothing) in
          subst (λ x. Chosen lease_id worker now allow c x b) (sym none_taken)
            (same, none-Eligible now allow c.jobs (first_where-none (is_eligible now allow) c.jobs nothing))
      | inr (r, best) ↦
          let (taken, d, one, h1) =
            bind-ok (lease_queued_job lease_id attempt_id r.id worker now duration allow c)
              (λ p. ok (some p.0, p.1)) o b (ground (arith, h, best)) in
          let same : b ≡ d = ground (arith, h1) in
          let some_taken : o ≡ some taken = ground (arith, h1) in
          let (s, l) =
            lease_queued_job-ok lease_id attempt_id r.id worker now duration allow c taken d one in
          let found = first_where-find (is_eligible now allow) c.jobs r t best in
          let row : s ≡ r = ground (arith, found, l.found) in
          let (eligible, least) = first_where-IsFirst (is_eligible now allow) c.jobs r best in
          subst (λ x. Chosen lease_id worker now allow c x b) (sym some_taken)
            (
              r,
              now + duration,
              found,
              (is_eligible_iff now allow r).0 eligible,
              IsFirst-Before now allow r c.jobs least,
              subst (λ (x : JobRow). x.current_attempt < x.max_attempts) row l.left,
              same
                  ∙ subst
                      (λ (x : JobRow). d ≡ record c {
                        jobs =
                            put r.id
                              (leased lease_id worker (x.lease_generation + 1)
                                (x.current_attempt + 1) now (now + duration) x)
                              c.jobs;
                        attempts = taken.attempt ∷ c.attempts;
                      })
                      row l.done,
            )
    ]

-- An acquisition first recovers the expired leases. It then leases, under the next generation and
-- attempt number, a job that waits, is due, has attempts left and, where heavy work is not admitted,
-- has no run, and before which no such job comes by higher priority, then earlier schedule, earlier
-- creation and lower identifier; it leases none only where there is no such job.
pub acquire-precedes :
    {a : Database} (lease_id attempt_id : ℕ) (worker : Text) (now : ℕ) (duration : ℤ) (allow : Bool)
    (o : Option AcquiredJob) (b : Database)
    → Steps empty a
    → acquire_next_with_storage_admission lease_id attempt_id worker now duration allow a
      ≡ ok (o, b)
    → (counts : StaleJobRecovery) × (c : Database) × (recover_expired_in_transaction now a
        ≡ ok (counts, c))
      × Chosen lease_id worker now allow c o b
unfolding acquire_next_with_storage_admission
acquire-precedes {a} lease_id attempt_id worker now duration allow o b s h =
    let (_, h1) =
      raise_if-ok (not (valid_worker_id worker)) JobRepositoryError.queue_invariant a _ o b h in
    let (seconds, _, h2) = query-ok (positive duration) a _ o b h1 in
    let (_, _, h3) = query-ok (ensure_queue_invariants a) a _ o b h2 in
    let (counts, c, recovered, h4) = bind-ok (recover_expired_in_transaction now a) _ o b h3 in
    let table = (recover_expired-Refines now a counts c recovered).table (Steps-IsTable s) in
    (
      counts,
      c,
      recovered,
      lease_next-Chosen lease_id attempt_id worker now seconds allow c o b table h4,
    )
