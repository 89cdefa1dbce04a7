-- ===== src/Pacing/Admission/System.antt =====
-- One origin of crates/erabi-crawler/src/pacing.rs under every interleaving of its tasks: each lock
-- acquisition is one step, and the clock only moves forward.
pub mod Accounts
pub mod Held
pub mod Spacing
use erabi.Base.{ℕ, ◌+◌, ◌-◌, ◌≤◌, ◌<◌, ◌≡◌, Bool, false, Option, none, some, u32_max}
use erabi.Pacing.{
  Duration, Instant, PacingOutcome, AdmissionError, clock_overflow, OriginPacingState,
  default_state, normalize_expired_safety, add_registration, release_registration, register_waiter,
  release, record_outcome,
}
use erabi.Pacing.Admission.{Iteration, admitted, refused, waits, iterate}

-- The origin's state, the clock, the live permits and waiting tasks, and the requests counted in
-- flight for which no permit exists.
pub record System : Type 0 where
  pub state : OriginPacingState
  pub now : Instant
  pub permits : ℕ
  pub waiters : ℕ
  pub lost : ℕ

abbrev pub start : Instant → System
start now = record { state = default_state; now = now; permits = 0; waiters = 0; lost = 0 }

abbrev pub lost_by : AdmissionError → ℕ
lost_by clock_overflow = 1
lost_by _ = 0

-- What an iteration of one waiting task makes of the system.
abbrev pub after : System → OriginPacingState × Iteration → System
after s (t, admitted) = record s { state = t; permits = s.permits + 1; waiters = s.waiters - 1 }
after s (t, refused e) = record s { state = t; waiters = s.waiters - 1; lost = s.lost + lost_by e }
after s (t, waits _) = record s { state = t }

pub data Step : System → System → Type 0 where
  tick : (s : System) (t : Instant) → s.now ≤ t → Step s (record s { now = t })
  register :
      (s : System) (id concurrency : ℕ)
      → concurrency ≤ u32_max
      → Step s (record s { state = add_registration s.state id concurrency })
  unregister : (s : System) (id : ℕ) → Step s (record s { state = release_registration s.state id })
  enter :
      (s : System)
      → s.waiters < u32_max
      → Step s (record s { state = register_waiter s.state; waiters = s.waiters + 1 })
  wait :
      (s : System) (cancelled : Bool) (delay : Duration)
      → 0 < s.waiters
      → Step s (after s (iterate s.state cancelled delay s.now))
  record_evidence :
      (s : System) (outcome : PacingOutcome)
      → 0 < s.permits
      → Step s (record s { state = (record_outcome s.state outcome s.now).0 })
  finish :
      (s : System)
      → 0 < s.permits
      → Step s (record s { state = release s.state; permits = s.permits - 1 })
  inspect_for_retirement :
      (s : System) → Step s (record s { state = normalize_expired_safety s.state s.now })

pub data Reach (s : System) : System → Type 0 where
  here : Reach s s
  next : {t u : System} → Reach s t → Step t u → Reach s u

-- A waiting task gets a permit in this state.
pub record Admits (s : System) (delay : Duration) : Type 0 where
  pub waiting : 0 < s.waiters
  pub granted : (iterate s.state false delay s.now).1 ≡ admitted

abbrev pub admit : System → Duration → System
admit s delay = after s (iterate s.state false delay s.now)
