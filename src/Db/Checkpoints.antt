-- ===== src/Db/Checkpoints.antt =====
-- crates/erabi-db/src/repositories/checkpoint.rs: the append-only checkpoints of a job, and what
-- they say about an attempt whose lease has expired.
use erabi.Base.{
  ℕ, ◌+◌, ◌==◌, Bool, true, false, not, ◌&&◌, ◌||◌, List, [], ◌∷◌, Option, some, none, Result, ok,
  err, if◌then◌else◌, ltb, leb, any, max, all, u64_max, i64_max,
}
use erabi.Text.{Text, text_eq, len}
use erabi.Db.Tables.{
  JobState, CheckpointRepositoryError, JobLease, JobRow, JobAttempt, RunRow, CheckpointIdentity,
  CheckpointEnvelope, CheckpointRow, Database, state_eq, is_running, same_id, same_text,
}
use erabi.Db.Statements.{find, find_run}

pub data CheckpointEnvelopeDisposition : Type 0 where
  resume_candidate restart_required invalid : CheckpointEnvelopeDisposition

-- A row that `record_from_row` accepts.
pub record CheckpointRecord : Type 0 where
  pub id : ℕ
  pub job_id : ℕ
  pub attempt_id : ℕ
  pub checkpoint : CheckpointEnvelope
  pub created_at : ℕ

abbrev pub Checked : Type 0 → Type 0
Checked A = Result A CheckpointRepositoryError

unfoldable pub find_attempt : ℕ → List JobAttempt → Option JobAttempt
find_attempt k [] = none
find_attempt k (a ∷ rows) = if a.id == k then some a else find_attempt k rows

-- `record_from_row`: the attempt is that of the LEFT JOIN.
unfoldable pub record_from_row : List JobAttempt → CheckpointRow → Checked CheckpointRecord
record_from_row attempts c = elim c.attempt_id [
  | none ↦ err CheckpointRepositoryError.invalid_envelope
  | some k ↦ elim (find_attempt k attempts) [
    | none ↦ err CheckpointRepositoryError.invalid_envelope
    | some a ↦
        if not (a.job_id == c.job_id)
        then err CheckpointRepositoryError.invalid_envelope
        else elim c.decoded [
          | err e ↦ err e
          | ok envelope ↦ ok (record {
            id = c.id;
            job_id = c.job_id;
            attempt_id = k;
            checkpoint = envelope;
            created_at = c.created_at;
          })
        ]
  ]
]

-- The records of one job, in the table's order; the first row that is refused gives the error.
unfoldable pub read_records :
    ℕ → List JobAttempt → List CheckpointRow → Checked (List CheckpointRecord)
read_records j attempts [] = ok []
read_records j attempts (c ∷ rows) =
    let rest = read_records j attempts rows in
    if c.job_id == j
    then elim (record_from_row attempts c) [
      | err e ↦ err e
      | ok r ↦ elim rest [ err e ↦ err e | ok rs ↦ ok (r ∷ rs) ]
    ]
    else rest

-- The order of texts.
unfoldable pub text_lt : Text → Text → Bool
text_lt s [] = false
text_lt [] (d ∷ t) = true
text_lt (c ∷ s) (d ∷ t) = ltb c d || (c == d && text_lt s t)

-- The order by which `records_from_connection` sorts.
unfoldable pub record_lt : CheckpointRecord → CheckpointRecord → Bool
record_lt a b =
    ltb a.checkpoint.sequence b.checkpoint.sequence
    || (a.checkpoint.sequence == b.checkpoint.sequence
        && (ltb a.created_at b.created_at
            || (a.created_at == b.created_at && text_lt a.checkpoint.payload b.checkpoint.payload)))

-- A stable sort, by insertion.
unfoldable pub insert_record : CheckpointRecord → List CheckpointRecord → List CheckpointRecord
insert_record a [] = a ∷ []
insert_record a (b ∷ rs) =
    let rest = insert_record a rs in if record_lt b a then b ∷ rest else a ∷ b ∷ rs

unfoldable pub sort_records : List CheckpointRecord → List CheckpointRecord
sort_records [] = []
sort_records (a ∷ rs) = insert_record a (sort_records rs)

unfoldable pub records_from_connection : ℕ → Database → Checked (List CheckpointRecord)
records_from_connection j db = elim (read_records j db.attempts db.checkpoints) [
  | err e ↦ err e
  | ok rs ↦ ok (sort_records rs)
]

-- `records.last()`.
unfoldable pub last : List CheckpointRecord → Option CheckpointRecord
last [] = none
last (a ∷ []) = some a
last (a ∷ b ∷ rs) = last (b ∷ rs)

-- `CheckpointRepository::latest`.
unfoldable pub latest_checkpoint : ℕ → Database → Checked (Option CheckpointRecord)
latest_checkpoint j db = elim (records_from_connection j db) [
  | err e ↦ err e
  | ok rs ↦ ok (last rs)
]

abbrev pub runs_lease : JobRow → JobAttempt → Bool
runs_lease r a =
    a.job_id == r.id
    && a.attempt_number == r.current_attempt
    && is_running a.outcome
    && same_id a.lease_id r.lease_id
    && a.lease_generation == r.lease_generation
    && same_text a.worker_id r.lease_owner

unfoldable pub active_checkpoint_lineage_is_valid : ℕ → ℕ → Database → Bool
active_checkpoint_lineage_is_valid j attempt_id db = elim (find j db.jobs) [
  | none ↦ false
  | some r ↦ elim (find_attempt attempt_id db.attempts) [
    | none ↦ false
    | some a ↦ state_eq r.state JobState.running && runs_lease r a
  ]
]

unfoldable pub valid_hash : Text → Bool
valid_hash s =
    len s == 64
    && all
        (λ c.
          (leb b'0' c && leb c b'9') || (leb b'a' c && leb c b'f') || (leb b'A' c && leb c b'F'))
        s

-- The derived `==` of identities.
abbrev pub identity_eq : CheckpointIdentity → CheckpointIdentity → Bool
identity_eq a b =
    a.snapshot_id == b.snapshot_id
    && text_eq a.snapshot_hash b.snapshot_hash
    && text_eq a.compatibility_hash b.compatibility_hash

-- The rows that count as evidence of a damaged checkpoint, and no failure of the recovery.
abbrev pub is_evidence : CheckpointRepositoryError → Bool
is_evidence CheckpointRepositoryError.unsupported_format_version = true
is_evidence CheckpointRepositoryError.malformed = true
is_evidence CheckpointRepositoryError.invalid_envelope = true
is_evidence CheckpointRepositoryError.payload_too_large = true
is_evidence _ = false

-- A run's identifier is within the bound that `CheckpointIdentity::new` sets.
unfoldable pub compare_identity : CheckpointRecord → RunRow → CheckpointEnvelopeDisposition
compare_identity latest run =
    if not (valid_hash run.snapshot_hash) || not (valid_hash run.compatibility_hash)
    then invalid
    else if identity_eq latest.checkpoint.identity (record {
      snapshot_id = run.id;
      snapshot_hash = run.snapshot_hash;
      compatibility_hash = run.compatibility_hash;
    })
    then resume_candidate
    else restart_required

unfoldable pub assess_latest :
    ℕ → Option ℕ → CheckpointRecord → Database → CheckpointEnvelopeDisposition
assess_latest j run_id latest db =
    if not (active_checkpoint_lineage_is_valid j latest.attempt_id db)
    then invalid
    else elim run_id [
      | none ↦ restart_required
      | some k ↦ elim (find_run k db.runs) [
        | none ↦ invalid
        | some run ↦ compare_identity latest run
      ]
    ]

unfoldable pub assess_one_stale_job :
    ℕ → Option ℕ → Database → Checked CheckpointEnvelopeDisposition
assess_one_stale_job j run_id db = elim (records_from_connection j db) [
  | err e ↦ if is_evidence e then ok invalid else err e
  | ok rs ↦ elim (last rs) [
    | none ↦ ok restart_required
    | some latest ↦ ok (assess_latest j run_id latest db)
  ]
]

-- The attempt that a checkpoint may be written under, `ensure_owned_attempt`.
abbrev pub is_owned : ℕ → ℕ → JobLease → JobAttempt → Bool
is_owned j attempt_id lease a =
    a.id == attempt_id
    && a.job_id == j
    && a.lease_id == lease.id
    && a.lease_generation == lease.generation
    && text_eq a.worker_id lease.owner
    && is_running a.outcome

unfoldable pub ensure_owned_attempt : ℕ → ℕ → JobLease → ℕ → Database → Checked (Unit {0})
ensure_owned_attempt j attempt_id lease now db = elim (find j db.jobs) [
  | none ↦ err CheckpointRepositoryError.not_found
  | some r ↦
      if not (state_eq r.state JobState.running)
        || not (same_id lease.id r.lease_id)
        || not (same_text lease.owner r.lease_owner)
        || not (r.lease_generation == lease.generation)
        || ltb i64_max lease.generation
        || elim r.lease_expires_at [ none ↦ true | some at ↦ leb at now ]
      then err CheckpointRepositoryError.lease_lost
      else if any (is_owned j attempt_id lease) db.attempts
      then ok tt
      else err CheckpointRepositoryError.lease_lost
]

-- The greatest sequence of a job's checkpoints, each of which must decode.
unfoldable pub greatest_sequence : ℕ → List CheckpointRow → Checked (Option ℕ)
greatest_sequence j [] = ok none
greatest_sequence j (c ∷ rows) =
    let rest = greatest_sequence j rows in
    if c.job_id == j
    then elim c.decoded [
      | err e ↦ err e
      | ok envelope ↦ elim rest [
        | err e ↦ err e
        | ok none ↦ ok (some envelope.sequence)
        | ok (some n) ↦ ok (some (max envelope.sequence n))
      ]
    ]
    else rest

unfoldable pub next_checkpoint_sequence : ℕ → Database → Checked ℕ
next_checkpoint_sequence j db = elim (greatest_sequence j db.checkpoints) [
  | err e ↦ err e
  | ok none ↦ ok 1
  | ok (some n) ↦
      if leb u64_max n then err CheckpointRepositoryError.invalid_envelope else ok (n + 1)
]

-- `append_in_transaction`: `encode` is `CheckpointEnvelope::encode` of the envelope with the
-- sequence that it is given.
unfoldable pub append_in_transaction :
    ℕ
    → ℕ
    → ℕ
    → JobLease
    → (ℕ → Checked CheckpointEnvelope)
    → ℕ
    → Database
    → Checked (CheckpointRecord × Database)
append_in_transaction id j attempt_id lease encode created_at db =
    elim (ensure_owned_attempt j attempt_id lease created_at db) [
      | err e ↦ err e
      | ok _ ↦ elim (next_checkpoint_sequence j db) [
        | err e ↦ err e
        | ok sequence ↦ elim (encode sequence) [
          | err e ↦ err e
          | ok envelope ↦
              if any (λ (c : CheckpointRow). c.id == id) db.checkpoints
              then err CheckpointRepositoryError.database
              else ok (
                record {
                  id = id;
                  job_id = j;
                  attempt_id = attempt_id;
                  checkpoint = envelope;
                  created_at = created_at;
                },
                record db {
                  checkpoints =
                      record {
                        id = id;
                        job_id = j;
                        attempt_id = some attempt_id;
                        decoded = ok envelope;
                        created_at = created_at;
                      }
                      ∷ db.checkpoints;
                },
              )
        ]
      ]
    ]
