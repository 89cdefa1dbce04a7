-- ===== src/Pacing.antt =====
-- crates/erabi-crawler/src/pacing.rs: the limits, the origin of a URL, the timing of a rate limit,
-- and the state of one origin. Durations and monotonic instants are counted in nanoseconds.
pub mod Admission
pub mod Backoff
pub mod Registry
use erabi.Base.{
  ℕ, ◌+◌, ◌-◌, ◌*◌, ◌^◌, Bool, true, false, not, ◌&&◌, ◌||◌, List, [], ◌∷◌, Option, none, some,
  Result, ok, err, ◌>>=◌, ◌>>◌, reject, ok_or, ltb, leb, ◌==◌, if◌then◌else◌, is_none, is_empty,
  checked_add, saturating_add, min, max, u8_max, u32_max,
}
use erabi.Text.{Text, text, text_eq, to_ascii_lowercase}
use erabi.Url.{Url}

abbrev pub Duration : Type 0
Duration = ℕ

abbrev pub Instant : Type 0
Instant = ℕ

abbrev pub secs : ℕ → Duration
secs n = n * 1000000000

abbrev pub millis : ℕ → Duration
millis n = n * 1000000

abbrev pub max_pacing_delay : Duration
max_pacing_delay = secs 300

abbrev pub rate_limit_backoff_base : Duration
rate_limit_backoff_base = secs 1

abbrev pub max_rate_limit_backoff : Duration
max_rate_limit_backoff = secs 60

-- The last instant that the standard library represents: seconds are an `i64`.
abbrev pub last_instant : Instant
last_instant = 9223372036854775807999999999

pub record OriginKey : Type 0 where
  pub scheme : Text
  pub host : Text
  pub port : ℕ

pub data OriginKeyError : Type 0 where
  unsupported_scheme missing_host missing_effective_port : OriginKeyError

abbrev pub is_http : Text → Bool
is_http s = text_eq s (text "http") || text_eq s (text "https")

unfoldable pub from_url : Url → Result OriginKey OriginKeyError
from_url url = do
  reject (not (is_http url.scheme)) unsupported_scheme
  host ← ok_or url.host_str missing_host
  port ← ok_or url.port_or_known_default missing_effective_port
  reject (port == 0) missing_effective_port
  ok (record {
    scheme = to_ascii_lowercase url.scheme;
    host = to_ascii_lowercase host;
    port = port;
  })

pub data RetryAfterTiming : Type 0 where
  absent : RetryAfterTiming
  honored : Duration → RetryAfterTiming
  clamped : Duration → RetryAfterTiming
  invalid : RetryAfterTiming

unfoldable pub from_duration : Duration → RetryAfterTiming
from_duration d = if ltb max_pacing_delay d then clamped max_pacing_delay else honored d

unfoldable pub from_provider_millis : Option ℕ → RetryAfterTiming
from_provider_millis none = absent
from_provider_millis (some milliseconds) = from_duration (millis milliseconds)

abbrev pub delay : RetryAfterTiming → Option Duration
delay (honored d) = some d
delay (clamped d) = some d
delay absent = none
delay invalid = none

pub data PacingOutcome : Type 0 where
  success failed : PacingOutcome
  rate_limited : RetryAfterTiming → PacingOutcome

pub data AdmissionError : Type 0 where
  robots_disallowed cancelled invalid_concurrency request_delay_too_large : AdmissionError
  robots_origin_mismatch registration_released origin_capacity_exhausted : AdmissionError
  registration_id_exhausted clock_overflow : AdmissionError

pub record ResolvedPacingConfiguration : Type 0 where
  pub concurrency : ℕ  -- u32
  pub request_delay : Duration

-- The two settings of a run's snapshot that `from_snapshot` reads.
unfoldable pub from_snapshot : ℕ → ℕ → Result ResolvedPacingConfiguration AdmissionError
from_snapshot concurrency request_delay_ms = do
  reject (concurrency == 0) invalid_concurrency
  reject (ltb max_pacing_delay (millis request_delay_ms)) request_delay_too_large
  ok (record { concurrency = concurrency; request_delay = millis request_delay_ms })

-- `registrations` is a map; the code reads its size and the least of its values only.
pub record OriginPacingState : Type 0 where
  pub in_flight : ℕ  -- u32
  pub registrations : List (ℕ × ℕ)
  pub waiting_admissions : ℕ  -- u32
  pub next_request_at : Option Instant
  pub backoff_until : Option Instant
  pub retry_after_until : Option Instant
  pub consecutive_rate_limits : ℕ  -- u8

abbrev pub default_state : OriginPacingState
default_state = record {
  in_flight = 0;
  registrations = [];
  waiting_admissions = 0;
  next_request_at = none;
  backoff_until = none;
  retry_after_until = none;
  consecutive_rate_limits = 0;
}

abbrev pub lower : ℕ → Option ℕ → Option ℕ
lower c none = some c
lower c (some m) = some (min c m)

unfoldable pub least : List (ℕ × ℕ) → Option ℕ
least [] = none
least ((_, c) ∷ rs) = lower c (least rs)

unfoldable pub effective_concurrency : OriginPacingState → Option ℕ
effective_concurrency s = least s.registrations

abbrev pub expire : Instant → Option Instant → Option Instant
expire now none = none
expire now (some deadline) = if leb deadline now then none else some deadline

unfoldable pub normalize_expired_safety : OriginPacingState → Instant → OriginPacingState
normalize_expired_safety s now = record s {
  next_request_at = expire now s.next_request_at;
  backoff_until = expire now s.backoff_until;
  retry_after_until = expire now s.retry_after_until;
}

-- The test of a state that has been normalized.
unfoldable pub is_idle : OriginPacingState → Bool
is_idle s =
    is_empty s.registrations
    && s.in_flight == 0
    && s.waiting_admissions == 0
    && is_none s.next_request_at
    && is_none s.backoff_until
    && is_none s.retry_after_until

-- The call normalizes the state that it tests.
unfoldable pub is_safe_to_retire : OriginPacingState → Instant → OriginPacingState × Bool
unfolding normalize_expired_safety is_idle
is_safe_to_retire s now = let t = normalize_expired_safety s now in (t, is_idle t)

remove_registration : ℕ → List (ℕ × ℕ) → List (ℕ × ℕ)
remove_registration id [] = []
remove_registration id ((j, c) ∷ rs) =
    let rest = remove_registration id rs in if j == id then rest else (j, c) ∷ rest

unfoldable pub add_registration : OriginPacingState → ℕ → ℕ → OriginPacingState
unfolding remove_registration
add_registration s id concurrency = record s {
  registrations = (id, concurrency) ∷ remove_registration id s.registrations;
}

unfoldable pub release_registration : OriginPacingState → ℕ → OriginPacingState
unfolding remove_registration
release_registration s id = record s { registrations = remove_registration id s.registrations }

unfoldable pub register_waiter : OriginPacingState → OriginPacingState
register_waiter s = record s { waiting_admissions = saturating_add u32_max s.waiting_admissions 1 }

unfoldable pub release_waiter : OriginPacingState → OriginPacingState
release_waiter s = record s { waiting_admissions = s.waiting_admissions - 1 }

unfoldable pub release : OriginPacingState → OriginPacingState
release s = record s { in_flight = s.in_flight - 1 }

abbrev pub later_deadline : Option Instant → Instant → Instant
later_deadline none candidate = candidate
later_deadline (some current) candidate = max current candidate

abbrev pub latest : Option Instant → Option Instant → Option Instant
latest none b = b
latest (some a) b = some (later_deadline b a)

unfoldable pub latest_deadline : OriginPacingState → Option Instant
latest_deadline s = latest s.next_request_at (latest s.backoff_until s.retry_after_until)

-- Neither the shift by at most 6 nor the product of at most 64 seconds can overflow.
unfoldable pub bounded_backoff : ℕ → Duration
bounded_backoff n = min (rate_limit_backoff_base * 2 ^ min (n - 1) 6) max_rate_limit_backoff

-- The rest of the rate-limited branch, once `backoff_until` is set.
abbrev pub record_retry_after :
    OriginPacingState
    → Option Duration
    → Instant
    → OriginPacingState × Result (Unit {0}) AdmissionError
record_retry_after s none now = (s, ok tt)
record_retry_after s (some d) now = elim (checked_add last_instant now d) [
  | none ↦ (s, err clock_overflow)
  | some until ↦
      (record s { retry_after_until = some (later_deadline s.retry_after_until until) }, ok tt)
]

abbrev pub record_rate_limit :
    OriginPacingState
    → RetryAfterTiming
    → Instant
    → OriginPacingState × Result (Unit {0}) AdmissionError
record_rate_limit s retry_after now =
    let count = saturating_add u8_max s.consecutive_rate_limits 1 in
    let t = record s { consecutive_rate_limits = count } in
    elim (checked_add last_instant now (bounded_backoff count)) [
      | none ↦ (t, err clock_overflow)
      | some until ↦
          record_retry_after
            (record t { backoff_until = some (later_deadline s.backoff_until until) })
            (delay retry_after) now
    ]

abbrev pub apply_outcome :
    OriginPacingState
    → PacingOutcome
    → Instant
    → OriginPacingState × Result (Unit {0}) AdmissionError
apply_outcome s success now = (record s { consecutive_rate_limits = 0 }, ok tt)
apply_outcome s failed now = (s, ok tt)
apply_outcome s (rate_limited retry_after) now = record_rate_limit s retry_after now

-- An overflow leaves what was written before it.
unfoldable pub record_outcome :
    OriginPacingState
    → PacingOutcome
    → Instant
    → OriginPacingState × Result (Unit {0}) AdmissionError
unfolding normalize_expired_safety
record_outcome s outcome now = apply_outcome (normalize_expired_safety s now) outcome now
