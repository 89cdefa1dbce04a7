-- ===== src/Db/Progress.antt =====
-- crates/erabi-db/src/repositories/progress.rs: appending the terminal event of a job's stream; and
-- what job.rs does to repair a stream that lacks it.
use erabi.Base.{
  ℕ, ◌+◌, ◌==◌, Bool, true, false, List, [], ◌∷◌, Option, some, none, is_none, is_some, ok, err,
  if◌then◌else◌, ltb, leb, max, i64_max,
}
use erabi.Db.Tables.{ProgressTerminalState, JobRepositoryError, ProgressRow}
use erabi.Db.Statements.{Tx, find}

pub data ProgressRepositoryError : Type 0 where
  job_not_found terminal_stream_closed progress_invariant : ProgressRepositoryError

-- The events of one job.
unfoldable pub events_of : ℕ → List ProgressRow → List ProgressRow
events_of j [] = []
events_of j (p ∷ rows) = let rest = events_of j rows in if p.job_id == j then p ∷ rest else rest

-- `MAX(sequence)`, or 0 of no rows.
unfoldable pub last_sequence : List ProgressRow → ℕ
last_sequence [] = 0
last_sequence (p ∷ rows) = max p.sequence (last_sequence rows)

-- `ORDER BY sequence DESC LIMIT 1`.
unfoldable pub latest : List ProgressRow → Option ProgressRow
latest [] = none
latest (p ∷ rows) = elim (latest rows) [
  | none ↦ some p
  | some q ↦ if ltb p.sequence q.sequence then some q else some p
]

abbrev pub is_terminal : ProgressRow → Bool
is_terminal p = is_some p.terminal

unfoldable pub stream_closed : List ProgressRow → Bool
stream_closed rows = elim (latest rows) [ none ↦ false | some p ↦ is_terminal p ]

-- `append_in_transaction` for `NewProgressEvent::terminal`, which names no attempt. Its callers map
-- every error to an inconsistent queue.
unfoldable pub append_terminal : ℕ → ProgressTerminalState → ℕ → Tx (Unit {0})
append_terminal j terminal now db =
    if is_none (find j db.jobs)
    then err JobRepositoryError.queue_invariant
    else if stream_closed (events_of j db.progress)
    then err JobRepositoryError.queue_invariant
    else if leb i64_max (last_sequence (events_of j db.progress))
    then err JobRepositoryError.queue_invariant
    else ok (
      tt,
      record db {
        progress =
            record {
              job_id = j;
              sequence = last_sequence (events_of j db.progress) + 1;
              terminal = some terminal;
              created_at = now;
            }
            ∷ db.progress;
      },
    )

abbrev pub terminal_eq : ProgressTerminalState → ProgressTerminalState → Bool
terminal_eq ProgressTerminalState.succeeded ProgressTerminalState.succeeded = true
terminal_eq ProgressTerminalState.failed ProgressTerminalState.failed = true
terminal_eq ProgressTerminalState.cancelled ProgressTerminalState.cancelled = true
terminal_eq _ _ = false

-- How many terminal events there are, all of the expected state; `none` where one is of another.
unfoldable pub count_terminals : ProgressTerminalState → List ProgressRow → Option ℕ
count_terminals expected [] = some 0
count_terminals expected (p ∷ rows) = elim p.terminal [
  | none ↦ count_terminals expected rows
  | some t ↦
      if terminal_eq t expected
      then elim (count_terminals expected rows) [ none ↦ none | some n ↦ some (n + 1) ]
      else none
]

unfoldable pub append_terminal_progress_if_missing_in_transaction :
    ℕ → ProgressTerminalState → ℕ → Tx (Unit {0})
append_terminal_progress_if_missing_in_transaction j terminal now db =
    elim (count_terminals terminal (events_of j db.progress)) [
      | none ↦ err JobRepositoryError.queue_invariant
      | some n ↦
          if ltb 1 n
          then err JobRepositoryError.queue_invariant
          else if n == 1
          then ok (tt, db)
          else append_terminal j terminal now db
    ]
