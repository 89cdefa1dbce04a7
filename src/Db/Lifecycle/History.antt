-- ===== src/Db/Lifecycle/History.antt =====
-- What a job of crates/erabi-db/src/repositories/job.rs keeps for good: the end it has come to, and
-- the generations of its leases.
use erabi.Base.{ℕ, ◌<◌, ◌≡◌, refl, sym, subst, true, false, List, Option, some, none, arith}
use erabi.Db.Tables.{JobState, JobRow, JobAttempt, state_eq}
use erabi.Db.Jobs.{released, leased}
use erabi.Db.Queue.{beaten, cancelled_row, reprioritized}
use erabi.Db.Actions.{is_active_state}
use erabi.Db.Lifecycle.{
  Move, create, lease, beat, close, withdraw, reorder, remove, Run, stay, move,
}
use erabi.Db.Lifecycle.Consistent.{Holds, Run-Holds}

-- The job is there, and has ended.
abbrev pub HasEnded : Option JobRow → Type 0
HasEnded none = ⊥
HasEnded (some r) = is_active_state r.state ≡ false

queued_active : (s : JobState) → state_eq s JobState.queued ≡ true → is_active_state s ≡ false → ⊥
queued_active JobState.queued q e = cc
queued_active JobState.running q e = cc
queued_active JobState.succeeded q e = cc
queued_active JobState.failed q e = cc
queued_active JobState.cancelled q e = cc

running_active : (s : JobState) → state_eq s JobState.running ≡ true → is_active_state s ≡ false → ⊥
running_active JobState.queued q e = cc
running_active JobState.running q e = cc
running_active JobState.succeeded q e = cc
running_active JobState.failed q e = cc
running_active JobState.cancelled q e = cc

Move-HasEnded :
    {o : Option JobRow} {rows : List JobAttempt} {p : Option JobRow} {behind : List JobAttempt}
    → Move o rows p behind
    → HasEnded o
    → ⊥
Move-HasEnded (create job now rows h) e = e
Move-HasEnded (lease r rows attempt_id lease_id worker now expires q b m) e =
    queued_active r.state q e
Move-HasEnded (beat r rows l now expires at n u lt) e = running_active r.state n.running e
Move-HasEnded (close r rows l now outcome why state schedule failure n o m) e =
    running_active r.state n.running e
Move-HasEnded (withdraw r rows now q) e = queued_active r.state q e
Move-HasEnded (reorder r rows priority scheduled_at now q) e = queued_active r.state q e
Move-HasEnded (remove r q) e = queued_active r.state q e

-- A job that has ended makes no further move.
pub Run-HasEnded :
    {o : Option JobRow} {rows : List JobAttempt} {p : Option JobRow} {behind : List JobAttempt}
    → Run o rows p behind
    → HasEnded o
    → (p ≡ o) × (behind ≡ rows)
Run-HasEnded stay e = (refl, refl)
Run-HasEnded (move p behind q after r m) e =
    let (same, _) = Run-HasEnded r e in absurd (Move-HasEnded m (subst HasEnded (sym same) e))

-- A lease after the generation `g` was taken.
abbrev pub IsAbove : ℕ → Option JobRow → Type 0
IsAbove g none = ⊥
IsAbove g (some r) = g < r.lease_generation

Move-IsAbove :
    {o : Option JobRow} {rows : List JobAttempt} {p : Option JobRow} {behind : List JobAttempt}
    (g : ℕ)
    → Move o rows p behind
    → Holds o rows
    → IsAbove g o
    → IsAbove g p
unfolding leased beaten released cancelled_row reprioritized
Move-IsAbove g (create job now rows h) c e = absurd e
Move-IsAbove g (lease r rows attempt_id lease_id worker now expires q b m) c e = omega (arith, e)
Move-IsAbove g (beat r rows l now expires at n u lt) c e = e
Move-IsAbove g (close r rows l now outcome why state schedule failure h o m) c e = e
Move-IsAbove g (withdraw r rows now q) c e = e
Move-IsAbove g (reorder r rows priority scheduled_at now q) c e = e
Move-IsAbove g (remove r q) c e = omega (arith, e, c.numbered, c.generation)

-- The generations of a job's leases never go back: a job with a past is not removed.
pub Run-IsAbove :
    {o : Option JobRow} {rows : List JobAttempt} {p : Option JobRow} {behind : List JobAttempt}
    (g : ℕ)
    → Run o rows p behind
    → Holds o rows
    → IsAbove g o
    → IsAbove g p
Run-IsAbove g stay c e = e
Run-IsAbove g (move p behind q after r m) c e =
    Move-IsAbove g m (Run-Holds r c) (Run-IsAbove g r c e)
