-- ===== src/Pacing/Admission.antt =====
-- The admission path of crates/erabi-crawler/src/pacing.rs, one iteration of its wait at a time, and
-- the admission that crates/erabi-crawler/src/robots.rs hands to it.
pub mod Origins
pub mod System
pub mod Attempt
use erabi.Base.{
  ℕ, zero, ◌+◌, Bool, true, false, not, ◌&&◌, ◌||◌, Option, none, some, Result, ok, err, ◌>>=◌,
  ◌>>◌, reject, ltb, leb, ◌==◌, if◌then◌else◌, is_none_or, checked_add, saturating_add, max,
  u32_max,
}
use erabi.Text.{text_eq}
use erabi.Pacing.{
  Duration, Instant, OriginKey, PacingOutcome, AdmissionError, robots_origin_mismatch,
  robots_disallowed, cancelled, registration_released, clock_overflow, last_instant,
  OriginPacingState, effective_concurrency, normalize_expired_safety, latest_deadline,
  release_waiter, record_outcome,
}

pub data RobotsAdmissionDecision : Type 0 where
  allowed disallowed overridden : RobotsAdmissionDecision

pub data RobotsPolicyEvidence : Type 0 where
  network_policy cache not_found access_denied : RobotsPolicyEvidence

pub record RobotsAdmission : Type 0 where
  pub origin : OriginKey
  pub decision : RobotsAdmissionDecision
  pub crawl_delay : Option Duration
  pub evidence : RobotsPolicyEvidence

abbrev pub origin_eq : OriginKey → OriginKey → Bool
origin_eq a b = text_eq a.scheme b.scheme && text_eq a.host b.host && a.port == b.port

abbrev pub is_disallowed : RobotsAdmissionDecision → Bool
is_disallowed disallowed = true
is_disallowed _ = false

-- The guards of `acquire`; the result is the delay that the wait starts with.
unfoldable pub acquire_guard : OriginKey → RobotsAdmission → Result (Option Duration) AdmissionError
acquire_guard origin robots = do
  reject (not (origin_eq robots.origin origin)) robots_origin_mismatch
  reject (is_disallowed robots.decision) robots_disallowed
  ok robots.crawl_delay

unfoldable pub effective_delay : Duration → Option Duration → Duration
effective_delay request_delay none = max request_delay 0
effective_delay request_delay (some robots_delay) = max request_delay robots_delay

pub data AdmissionAttempt : Type 0 where
  acquired : AdmissionAttempt
  wait_until : Instant → AdmissionAttempt
  wait_for_permit : AdmissionAttempt

abbrev pub Attempt : Type 0
Attempt = OriginPacingState × Result AdmissionAttempt AdmissionError

-- What an attempt that may not proceed waits for.
abbrev pub waiting_on : Option Instant → Instant → AdmissionAttempt
waiting_on none now = wait_for_permit
waiting_on (some deadline) now = if ltb now deadline then wait_until deadline else wait_for_permit

-- The slot is taken before the deadline is computed, and stays taken where that overflows.
abbrev pub take_slot : OriginPacingState → Duration → Instant → Attempt
take_slot s delay now =
    let t = record s { in_flight = saturating_add u32_max s.in_flight 1 } in
    elim (checked_add last_instant now delay) [
      | none ↦ (t, err clock_overflow)
      | some next ↦ (record t { next_request_at = some next }, ok acquired)
    ]

abbrev pub inspect : OriginPacingState → Option ℕ → Option Instant → Duration → Instant → Attempt
inspect s none not_before delay now = (s, err registration_released)
inspect s (some concurrency) not_before delay now =
    if ltb s.in_flight concurrency && is_none_or (λ d. leb d now) not_before
    then take_slot s delay now
    else (s, ok (waiting_on not_before now))

-- The block that computes `attempt` under the origin's lock.
unfoldable pub attempt : OriginPacingState → Duration → Instant → Attempt
attempt s delay now =
    let t = normalize_expired_safety s now in
    inspect t (effective_concurrency t) (latest_deadline t) delay now

-- How an iteration of the wait ends: with a permit, with an error, or with another wait.
pub data Iteration : Type 0 where
  admitted : Iteration
  refused : AdmissionError → Iteration
  waits : AdmissionAttempt → Iteration

abbrev pub conclude : Attempt → OriginPacingState × Iteration
conclude (s, ok acquired) = (release_waiter s, admitted)
conclude (s, ok (wait_until deadline)) = (s, waits (wait_until deadline))
conclude (s, ok wait_for_permit) = (s, waits wait_for_permit)
conclude (s, err e) = (release_waiter s, refused e)

-- One round of the loop in `acquire_with_delay_inner`; the waiter's guard is dropped when it ends.
unfoldable pub iterate :
    OriginPacingState → Bool → Duration → Instant → OriginPacingState × Iteration
iterate s true delay now = (release_waiter s, refused cancelled)
iterate s false delay now = conclude (attempt s delay now)

-- A permit's evidence is recorded once.
unfoldable pub record_permit_outcome :
    Bool
    → OriginPacingState
    → PacingOutcome
    → Instant
    → Bool × OriginPacingState × Result (Unit {0}) AdmissionError
record_permit_outcome true s outcome now = (true, s, ok tt)
record_permit_outcome false s outcome now =
    let (t, result) = record_outcome s outcome now in (true, t, result)
