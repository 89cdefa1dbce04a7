-- ===== src/Tests/Pacing.antt =====
-- The admission path of crates/erabi-crawler/src/pacing.rs at concrete inputs: an origin with one
-- registration for two requests at a time and two waiting tasks.
use erabi.Base.{◌+◌, ◌≤◌, ◌<◌, ◌≡◌, refl, ◌↔◌, [], ◌∷◌, ok, err, arith}
use erabi.Pacing.{
  secs, OriginPacingState, default_state, rate_limited, honored, record_outcome, clock_overflow,
  last_instant, effective_concurrency, least, normalize_expired_safety, latest_deadline,
  bounded_backoff, release_waiter, add_registration, register_waiter,
}
use erabi.Pacing.Admission.{acquired, attempt, iterate}
use erabi.Pacing.Admission.Attempt.{HasRoom, AllPast, attempt-acquired_iff, attempt-overflow}
use erabi.Pacing.Admission.System.{
  System, start, tick, enter, register, Reach, here, next, Admits, admit,
}
use erabi.Pacing.Admission.System.Accounts.{IsAccounted, Reach-IsAccounted}
use erabi.Pacing.Admission.System.Spacing.{
  admissions_spaced, rate_limit_holds, next_backoff, honored_delay,
}

abbrev registered : OriginPacingState
registered = record default_state { registrations = (1, 2) ∷ []; waiting_admissions = 2 }

abbrev waiting : System
waiting = record { state = registered; now = 5; permits = 0; waiters = 2; lost = 0 }

attempt_now : (attempt registered 100 5).1 ≡ ok acquired
unfolding attempt effective_concurrency least normalize_expired_safety latest_deadline
    release_waiter
attempt_now = refl

first_admission : Admits waiting 100
unfolding iterate attempt effective_concurrency least normalize_expired_safety latest_deadline
    release_waiter
first_admission = record { waiting = omega arith; granted = refl }

abbrev between : System
between = admit waiting 100

clock_moves : Reach between (record between { now = 105 })
clock_moves = next here (tick between 105 (ground arith))

second_admission : Admits (record between { now = 105 }) 100
unfolding iterate attempt effective_concurrency least normalize_expired_safety latest_deadline
    release_waiter
second_admission = record { waiting = ground arith; granted = refl }

admissions_spaced_example : 5 + 100 ≤ 105
admissions_spaced_example = admissions_spaced first_admission clock_moves second_admission

abbrev limited : System
limited = record waiting {
  state = (record_outcome registered (rate_limited (honored (secs 3))) 5).0;
}

limited_recorded : (record_outcome registered (rate_limited (honored (secs 3))) 5).1 ≡ ok tt
unfolding record_outcome normalize_expired_safety bounded_backoff
limited_recorded = refl

abbrev much_later : System
much_later = record limited { now = secs 4 }

long_wait : Reach limited much_later
long_wait = next here (tick limited (secs 4) (ground arith))

admitted_later : Admits much_later 100
unfolding iterate attempt effective_concurrency least normalize_expired_safety latest_deadline
    release_waiter record_outcome bounded_backoff
admitted_later = record { waiting = ground arith; granted = refl }

rate_limit_holds_example :
    (5 + next_backoff registered ≤ secs 4) × (5 + honored_delay (honored (secs 3)) ≤ secs 4)
rate_limit_holds_example =
    rate_limit_holds waiting (honored (secs 3)) limited_recorded long_wait admitted_later

abbrev joined : System
joined = record (start 0) { state = add_registration default_state 1 2 }

abbrev entered : System
entered = record joined { state = register_waiter joined.state; waiters = 1 }

a_task_waits : Reach (start 0) entered
a_task_waits =
    next (next here (register (start 0) 1 2 (ground arith))) (enter joined (ground arith))

Reach-IsAccounted_example : IsAccounted entered
Reach-IsAccounted_example = Reach-IsAccounted 0 a_task_waits

attempt-acquired_iff_example :
    ((attempt registered 100 5).1 ≡ ok acquired)
    ↔ (HasRoom registered × AllPast 5 registered × (5 + 100 ≤ last_instant))
attempt-acquired_iff_example = attempt-acquired_iff registered 100 5

no_next_instant : (attempt registered 1 last_instant).1 ≡ err clock_overflow
unfolding attempt effective_concurrency least normalize_expired_safety latest_deadline
no_next_instant = refl

attempt-overflow_example :
    ((attempt registered 1 last_instant).0.in_flight ≡ 0 + 1) × (last_instant < last_instant + 1)
attempt-overflow_example = attempt-overflow registered 1 last_instant (ground arith) no_next_instant
