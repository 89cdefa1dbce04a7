-- ===== src/Db/Statements/Inversion.antt =====
-- What a transaction of crates/erabi-db/src/repositories/job.rs that has succeeded went through.
-- Each lemma takes the answer of the transaction's first part, and what is done with it.
use erabi.Base.{ℕ, ◌==◌, ◌≡◌, refl, ◌⊎◌, inl, inr, Bool, true, false, not, ok, err, arith}
use erabi.Db.Tables.{JobRepositoryError, Database}
use erabi.Db.Statements.{Answer, pure, raise_if, query, require_one}

pub Answer-cases :
    {A : Type 0} (x : Answer A) → ((e : JobRepositoryError) × (x ≡ err e)) ⊎ ((a : A) × (x ≡ ok a))
Answer-cases (err e) = inl (e, refl)
Answer-cases (ok a) = inr (a, refl)

module _ {A B : Type 0} where
  pub bind-ok :
      (first : Answer (A × Database)) (f : A × Database → Answer (B × Database)) (b : B)
      (db' : Database)
      → elim first [ err e ↦ err e | ok p ↦ f p ] ≡ ok (b, db')
      → (a : A) × (middle : Database) × (first ≡ ok (a, middle)) × (f (a, middle) ≡ ok (b, db'))
  bind-ok (err e) f b db' h = cc
  bind-ok (ok (a, middle)) f b db' h = (a, middle, refl, h)

  pub query-ok :
      (answer : Answer A) (db : Database) (f : A × Database → Answer (B × Database)) (b : B)
      (db' : Database)
      → elim (let first : Answer (A × Database) = elim answer [
        | err e ↦ err e
        | ok a ↦ ok (a, db)
      ] in
          first) [ err e ↦ err e | ok p ↦ f p ]
        ≡ ok (b, db')
      → (a : A) × (answer ≡ ok a) × (f (a, db) ≡ ok (b, db'))
  query-ok (err e) db f b db' h = cc
  query-ok (ok a) db f b db' h = (a, refl, h)

module _ {B : Type 0} where
  pub raise_if-ok :
      (bad : Bool) (e : JobRepositoryError) (db : Database)
      (f : Unit {0} × Database → Answer (B × Database)) (b : B) (db' : Database)
      → elim (raise_if bad e db) [ err x ↦ err x | ok p ↦ f p ] ≡ ok (b, db')
      → (bad ≡ false) × (f (tt, db) ≡ ok (b, db'))
  raise_if-ok true e db f b db' h = cc
  raise_if-ok false e db f b db' h = (refl, h)

  pub require_one-ok :
      (e : JobRepositoryError) (n : ℕ) (db : Database)
      (f : Unit {0} × Database → Answer (B × Database)) (b : B) (db' : Database)
      → elim (require_one e n db) [ err x ↦ err x | ok p ↦ f p ] ≡ ok (b, db')
      → (n ≡ 1) × (f (tt, db) ≡ ok (b, db'))
  require_one-ok e n db f b db' h =
      let (one, rest) = raise_if-ok (not (n == 1)) e db f b db' h in (ground (arith, one), rest)

-- The same where the query or the test stands last.
pub query_last-ok :
    {A : Type 0} (f : Database → Answer A) (db : Database) (a : A) (db' : Database)
    → query f db ≡ ok (a, db')
    → (f db ≡ ok a) × (db' ≡ db)
query_last-ok f db a db' h = ground (arith, h)

pub require_last-ok :
    (e : JobRepositoryError) (n : ℕ) (db : Database) (u : Unit {0}) (db' : Database)
    → require_one e n db ≡ ok (u, db')
    → (n ≡ 1) × (db' ≡ db)
require_last-ok e n db u db' h = ground (arith, h)

pub pure-ok :
    {A : Type 0} (x : A) (db : Database) (a : A) (db' : Database)
    → pure x db ≡ ok (a, db')
    → (a ≡ x) × (db' ≡ db)
pure-ok x db a db' h = ground (arith, h)
