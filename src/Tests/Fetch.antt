-- ===== src/Tests/Fetch.antt =====
-- The robots fetch of crates/erabi-crawler/src/robots.rs at concrete responses.
use erabi.Base.{◌+◌, ◌≤◌, ◌≡◌, refl, ◌↔◌, inr, true, some, [], ◌∷◌, ok, err}
use erabi.Text.{text}
use erabi.Pacing.{
  secs, release_registration, default_state, absent, honored, record_outcome,
  normalize_expired_safety, bounded_backoff, release, robots_disallowed, effective_concurrency,
  least, latest_deadline,
}
use erabi.Pacing.Admission.{acquired, attempt, acquire_guard, not_found, access_denied}
use erabi.Robots.{allow_all, deny_all}
use erabi.Robots.Fetch.{
  max_robots_response_bytes, RobotsHttpResponse, policy, unavailable, rate_limited_response, Shared,
  admission_of, read_chunks, read_bounded_body, on_status, on_response, fetch_admitted,
}
use erabi.Robots.Fetch.Responses.{IsPolicyOf, on_response-policy_iff}
use erabi.Robots.Fetch.Policies.{pause, acquire_guard_denied, fetch_admitted-rate_limited}
use erabi.Tests.Robots.{whole_seconds, origin, page}

abbrev denied : RobotsHttpResponse
denied = record { status = 403; body = []; retry_after = absent }

abbrev absent_file : RobotsHttpResponse
absent_file = record { status = 404; body = []; retry_after = absent }

abbrev limited : RobotsHttpResponse
limited = record { status = 429; body = []; retry_after = honored (secs 30) }

abbrev shared : Shared
shared = record {
  pacing = record default_state { registrations = (1, 1) ∷ []; in_flight = 1 };
  entries = [];
}

body_read : read_bounded_body (some 3) (ok (1 ∷ 2 ∷ []) ∷ ok (3 ∷ []) ∷ []) ≡ ok (1 ∷ 2 ∷ 3 ∷ [])
unfolding read_bounded_body read_chunks
body_read = refl

on_response-policy_iff_example :
    on_response whole_seconds (ok denied) ≡ policy deny_all access_denied
    ↔ (0 ≤ max_robots_response_bytes) × IsPolicyOf whole_seconds denied deny_all access_denied
on_response-policy_iff_example = on_response-policy_iff whole_seconds denied deny_all access_denied

denial_given : on_response whole_seconds (ok denied) ≡ policy deny_all access_denied
unfolding on_response on_status
denial_given = refl

absence_given : on_response whole_seconds (ok absent_file) ≡ policy allow_all not_found
unfolding on_response on_status
absence_given = refl

acquire_guard_denied_example :
    acquire_guard origin (admission_of origin page (text "erabi") true (deny_all, access_denied))
    ≡ err robots_disallowed
acquire_guard_denied_example =
    acquire_guard_denied whole_seconds denied deny_all access_denied origin page (text "erabi") true
      (inr refl) denial_given

limited_refused :
    (fetch_admitted whole_seconds shared origin 2 5 6 (ok limited)).1
    ≡ err (unavailable rate_limited_response)
unfolding fetch_admitted on_response on_status record_outcome bounded_backoff
    normalize_expired_safety
limited_refused = refl

admitted_later :
    (attempt (fetch_admitted whole_seconds shared origin 2 5 6 (ok limited)).0.pacing 0 (secs 40)).1
    ≡ ok acquired
unfolding fetch_admitted on_response on_status record_outcome bounded_backoff
    normalize_expired_safety release release_registration attempt effective_concurrency least
    latest_deadline
admitted_later = refl

fetch_admitted-rate_limited_example : 5 + pause (honored (secs 30)) ≤ secs 40
fetch_admitted-rate_limited_example =
    fetch_admitted-rate_limited whole_seconds shared origin 2 5 6 limited 0 (secs 40) refl
      limited_refused admitted_later
