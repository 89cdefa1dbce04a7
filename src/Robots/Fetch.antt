-- ===== src/Robots/Fetch.antt =====
-- `fetch_document` and `evaluate_inner` of crates/erabi-crawler/src/robots.rs. The HTTP transport is
-- a function of the target and the user agent; the wait for admission, which
-- `erabi.Pacing.Admission` models, gives its outcome as a value.
pub mod Responses
pub mod Outcomes
pub mod Policies
use erabi.Base.{
  ℕ, ◌+◌, ◌-◌, ◌++◌, is_some_and, Bool, true, false, not, ◌&&◌, ◌||◌, List, [], ◌∷◌, Option, none,
  some, Result, ok, err, ◌>>=◌, ◌>>◌, reject, map_err, ltb, leb, ◌==◌, if◌then◌else◌, length,
  checked_add,
}
use erabi.Text.{Text, text}
use erabi.Text.Utf8.{from_utf8}
use erabi.Url.{Url}
use erabi.Pacing.{
  Duration, secs, Instant, last_instant, OriginKey, OriginKeyError, from_url, RetryAfterTiming,
  PacingOutcome, success, failed, rate_limited, AdmissionError, clock_overflow, OriginPacingState,
  record_outcome, release, release_registration,
}
use erabi.Pacing.Admission.{
  RobotsAdmission, RobotsPolicyEvidence, network_policy, cache, not_found, access_denied,
}
use erabi.Network.{
  NetworkTargetPolicy, NetworkTargetError, ValidatedNetworkTarget, validate_url,
  validate_and_resolve,
}
use erabi.Robots.{
  RobotsDocument, allow_all, deny_all, RobotsInvalidPolicy, response_too_large, invalid_encoding,
}
use erabi.Robots.Parse.{Float, parse_robots_document}
use erabi.Robots.Cache.{Entries, RobotsPolicy, get, insert}
use erabi.Robots.Evaluate.{evaluate, decide}

abbrev pub max_robots_response_bytes : ℕ
max_robots_response_bytes = 524288

abbrev pub robots_cache_ttl : Duration
robots_cache_ttl = secs 600

pub data RobotsUnavailable : Type 0 where
  timeout transport redirect server_failure rate_limited_response other_status : RobotsUnavailable

pub data RobotsPolicyError : Type 0 where
  origin : OriginKeyError → RobotsPolicyError
  network_target : NetworkTargetError → RobotsPolicyError
  admission : AdmissionError → RobotsPolicyError
  unavailable : RobotsUnavailable → RobotsPolicyError
  unavailable_with_pacing : RobotsUnavailable → AdmissionError → RobotsPolicyError
  invalid : RobotsInvalidPolicy → RobotsPolicyError

pub record RobotsHttpResponse : Type 0 where
  pub status : ℕ  -- u16
  pub body : List ℕ  -- bytes
  pub retry_after : RetryAfterTiming

pub data RobotsTransportError : Type 0 where
  transport_timeout transport_unavailable body_too_large : RobotsTransportError

-- An error of the HTTP client, with the answer of its `is_timeout`.
abbrev pub client_error : Bool → RobotsTransportError
client_error true = transport_timeout
client_error false = transport_unavailable

-- What the response yields, one after the other: chunks, or an error of the client.
abbrev pub Chunk : Type 0
Chunk = Result (List ℕ) Bool

abbrev pub too_long : List ℕ → List ℕ → Bool
too_long body chunk = ltb (max_robots_response_bytes - length body) (length chunk)

-- The loop of `read_bounded_body`.
unfoldable pub read_chunks : List ℕ → List Chunk → Result (List ℕ) RobotsTransportError
read_chunks body [] = ok body
read_chunks body (err is_timeout ∷ chunks) = err (client_error is_timeout)
read_chunks body (ok chunk ∷ chunks) =
    let rest = read_chunks (body ++ chunk) chunks in
    if too_long body chunk then err body_too_large else rest

unfoldable pub read_bounded_body : Option ℕ → List Chunk → Result (List ℕ) RobotsTransportError
read_bounded_body content_length chunks =
    if is_some_and (λ n. ltb max_robots_response_bytes n) content_length
    then err body_too_large
    else read_chunks [] chunks

abbrev pub transport_error : RobotsTransportError → RobotsPolicyError
transport_error transport_timeout = unavailable timeout
transport_error transport_unavailable = unavailable transport
transport_error body_too_large = invalid response_too_large

unfoldable pub robots_url : Url → Url
robots_url target = record target { path = text "/robots.txt"; query = none; fragment = none }

-- What the `match response.status` does: it gives a policy, or returns an error, in the last case
-- after an outcome has been recorded.
pub data StatusAction : Type 0 where
  policy : RobotsDocument → RobotsPolicyEvidence → StatusAction
  return_error : RobotsPolicyError → StatusAction
  record_failure : PacingOutcome → RobotsUnavailable → StatusAction

-- What the permit's origin and the service share with other callers.
pub record Shared : Type 0 where
  pub pacing : OriginPacingState
  pub entries : Entries

abbrev pub failure_error : RobotsUnavailable → Result (Unit {0}) AdmissionError → RobotsPolicyError
failure_error failure (ok _) = unavailable failure
failure_error failure (err pacing) = unavailable_with_pacing failure pacing

-- The policy is cached from the instant that the clock shows then.
abbrev pub keep :
    Entries
    → OriginKey
    → RobotsDocument
    → RobotsPolicyEvidence
    → Instant
    → Entries × Result RobotsPolicy RobotsPolicyError
keep m o document evidence now = elim (checked_add last_instant now robots_cache_ttl) [
  | none ↦ (m, err (admission clock_overflow))
  | some expires_at ↦ (insert m o document evidence now expires_at, ok (document, evidence))
]

abbrev pub after_success :
    Entries
    → OriginKey
    → RobotsDocument
    → RobotsPolicyEvidence
    → Instant
    → OriginPacingState × Result (Unit {0}) AdmissionError
    → Shared × Result RobotsPolicy RobotsPolicyError
after_success m o document evidence now (s, err e) =
    (record { pacing = s; entries = m }, err (admission e))
after_success m o document evidence now (s, ok _) =
    let (kept, result) = keep m o document evidence now in
    (record { pacing = s; entries = kept }, result)

abbrev pub perform :
    Shared
    → OriginKey
    → Instant
    → Instant
    → StatusAction
    → Shared × Result RobotsPolicy RobotsPolicyError
perform s o now later (policy document evidence) =
    after_success s.entries o document evidence later (record_outcome s.pacing success now)
perform s o now later (return_error e) = (s, err e)
perform s o now later (record_failure outcome failure) =
    let (t, recorded) = record_outcome s.pacing outcome now in
    (record s { pacing = t }, err (failure_error failure recorded))

-- The fetch's registration is dropped.
abbrev pub drop_registration : ℕ → Shared → Shared
drop_registration id s = record s { pacing = release_registration s.pacing id }

-- On every path the permit is dropped, and the registration behind it.
abbrev pub drop_guards :
    ℕ
    → Shared × Result RobotsPolicy RobotsPolicyError
    → Shared × Result RobotsPolicy RobotsPolicyError
drop_guards id (s, result) = (drop_registration id (record s { pacing = release s.pacing }), result)

module _ (f : Float) where
  abbrev pub parsed : Option Text → StatusAction
  parsed none = return_error (invalid invalid_encoding)
  parsed (some body) = elim (parse_robots_document f body) [
    | ok document ↦ policy document network_policy
    | err e ↦ return_error (invalid e)
  ]

  unfoldable pub on_status : RobotsHttpResponse → StatusAction
  on_status r =
      if leb 200 r.status && leb r.status 299
      then parsed (from_utf8 r.body)
      else if r.status == 401 || r.status == 403
      then policy deny_all access_denied
      else if r.status == 404
      then policy allow_all not_found
      else if leb 300 r.status && leb r.status 399
      then return_error (unavailable redirect)
      else if r.status == 429
      then record_failure (rate_limited r.retry_after) rate_limited_response
      else if leb 500 r.status && leb r.status 599
      then record_failure failed server_failure
      else record_failure failed other_status

  unfoldable pub on_response : Result RobotsHttpResponse RobotsTransportError → StatusAction
  on_response (err e) = return_error (transport_error e)
  on_response (ok r) =
      if ltb max_robots_response_bytes (length r.body)
      then return_error (invalid response_too_large)
      else on_status r

  -- From the permit on, under the registration `id`: `now` is when the outcome is recorded, `later`
  -- when the policy is cached.
  unfoldable pub fetch_admitted :
      Shared
      → OriginKey
      → ℕ
      → Instant
      → Instant
      → Result RobotsHttpResponse RobotsTransportError
      → Shared × Result RobotsPolicy RobotsPolicyError
  fetch_admitted s o id now later response =
      drop_guards id (perform s o now later (on_response response))

  -- From the registration on; the wait for admission fails, or gives a permit.
  abbrev pub fetch_registered :
      Shared
      → OriginKey
      → ℕ
      → Instant
      → Instant
      → Result (Unit {0}) AdmissionError
      → Result RobotsHttpResponse RobotsTransportError
      → Shared × Result RobotsPolicy RobotsPolicyError
  fetch_registered s o id now later (err e) response = (drop_registration id s, err (admission e))
  fetch_registered s o id now later (ok _) response = fetch_admitted s o id now later response

  -- From the target on; the registration fails, or gives an identifier.
  abbrev pub fetch_target :
      Shared
      → OriginKey
      → Instant
      → Instant
      → Result ℕ AdmissionError
      → Result (Unit {0}) AdmissionError
      → (ValidatedNetworkTarget → Result RobotsHttpResponse RobotsTransportError)
      → Result ValidatedNetworkTarget NetworkTargetError
      → Shared × Result RobotsPolicy RobotsPolicyError
  fetch_target s o now later registered admitted fetch (err e) = (s, err (network_target e))
  fetch_target s o now later (err e) admitted fetch (ok target) = (s, err (admission e))
  fetch_target s o now later (ok id) admitted fetch (ok target) =
      fetch_registered s o id now later admitted (fetch target)

  -- The state is that in which the registration and the wait for admission left the origin.
  unfoldable pub fetch_document :
      NetworkTargetPolicy
      → (ValidatedNetworkTarget → Text → Result RobotsHttpResponse RobotsTransportError)
      → Url
      → Text
      → OriginKey
      → Result ℕ AdmissionError
      → Result (Unit {0}) AdmissionError
      → Shared
      → Instant
      → Instant
      → Shared × Result RobotsPolicy RobotsPolicyError
  fetch_document p fetch url user_agent o registered admitted s now later =
      fetch_target s o now later registered admitted (λ target. fetch target user_agent)
        (validate_and_resolve p (robots_url url))

-- The admission that `evaluate_inner` makes of a policy.
unfoldable pub admission_of : OriginKey → Url → Text → Bool → RobotsPolicy → RobotsAdmission
admission_of o target user_agent override (document, evidence) =
    let evaluated = evaluate document target user_agent in
    record {
      origin = o;
      decision = decide document override evaluated;
      crawl_delay = evaluated.crawl_delay;
      evidence = evidence;
    }

-- The guards of `evaluate_inner`, and what it makes of the policy that it obtains for the origin.
unfoldable pub evaluate_inner :
    Url
    → Text
    → Bool
    → (OriginKey → Result RobotsPolicy RobotsPolicyError)
    → Result RobotsAdmission RobotsPolicyError
evaluate_inner target user_agent override obtain = do
  map_err network_target (validate_url target)
  o ← map_err origin (from_url target)
  found ← obtain o
  ok (admission_of o target user_agent override found)
