-- ===== src/Robots/Fetch/Responses.antt =====
-- How crates/erabi-crawler/src/robots.rs reads a response: which statuses give a policy, and which.
use erabi.Base.{
  ℕ, ◌≤◌, ◌≡◌, ◌⊎◌, inl, inr, ◌↔◌, ◌++◌, ◌-◌, List, [], ◌∷◌, Option, some, ok, err, arith,
  Bool-cases, length, length-append, ltb, is_some_and,
}
use erabi.Text.{Text}
use erabi.Text.Utf8.{from_utf8}
use erabi.Pacing.Admission.{RobotsPolicyEvidence, network_policy, not_found, access_denied}
use erabi.Robots.{RobotsDocument, allow_all, deny_all}
use erabi.Robots.Parse.{Float, parse_robots_document}
use erabi.Robots.Fetch.{
  Chunk, max_robots_response_bytes, RobotsHttpResponse, policy, parsed, on_status, on_response,
  read_chunks, read_bounded_body,
}

read_chunks_step :
    (body chunk : List ℕ) (chunks : List Chunk) (result : List ℕ)
    → read_chunks body (ok chunk ∷ chunks) ≡ ok result
    → (length chunk ≤ max_robots_response_bytes - length body)
      × (read_chunks (body ++ chunk) chunks ≡ ok result)
unfolding read_chunks
read_chunks_step body chunk chunks result h = ground (arith, h)

read_chunks-le :
    (body : List ℕ) (chunks : List Chunk) (result : List ℕ)
    → length body ≤ max_robots_response_bytes
    → read_chunks body chunks ≡ ok result
    → length result ≤ max_robots_response_bytes
unfolding read_chunks
read_chunks-le body [] result le h = ground (arith, le, h)
read_chunks-le body (err t ∷ chunks) result le h = absurd (ground (arith, h))
read_chunks-le body (ok chunk ∷ chunks) result le h =
    let (fits, rest) = read_chunks_step body chunk chunks result h in
    read_chunks-le (body ++ chunk) chunks result (omega (arith, fits, le, length-append body chunk))
      rest

-- A body that is read is never larger than the limit, whatever length was announced and however
-- the response was cut in chunks.
pub read_bounded_body-le :
    (content_length : Option ℕ) (chunks : List Chunk) (body : List ℕ)
    → read_bounded_body content_length chunks ≡ ok body
    → length body ≤ max_robots_response_bytes
unfolding read_bounded_body
read_bounded_body-le content_length chunks body h =
    elim (Bool-cases (is_some_and (λ n. ltb max_robots_response_bytes n) content_length)) [
      | inl y ↦ absurd (ground (arith, y, h))
      | inr n ↦ read_chunks-le [] chunks body (omega arith) (ground (arith, n, h))
    ]

module _ (f : Float) where
  -- A policy and its evidence fit the response: a success whose body is UTF-8 and parses to the
  -- policy, a denied access with the policy that refuses all, or an absence with the one that
  -- allows all.
  abbrev pub IsPolicyOf : RobotsHttpResponse → RobotsDocument → RobotsPolicyEvidence → Type 0
  IsPolicyOf r d e =
      ((200 ≤ r.status)
        × (r.status ≤ 299)
        × (e ≡ network_policy)
        × (body : Text) × (from_utf8 r.body ≡ some body)
        × (parse_robots_document f body ≡ ok d))
      ⊎ ((r.status ≡ 401 ⊎ r.status ≡ 403) × (e ≡ access_denied) × (d ≡ deny_all))
      ⊎ ((r.status ≡ 404) × (e ≡ not_found) × (d ≡ allow_all))

  parsed_iff :
      (o : Option Text) (d : RobotsDocument) (e : RobotsPolicyEvidence)
      → parsed f o ≡ policy d e ↔ (
          (e ≡ network_policy)
          × (body : Text) × (o ≡ some body)
          × (parse_robots_document f body ≡ ok d))
  parsed_iff o d e = ground arith

  -- A response gives a policy exactly where its body is within the limit and the policy fits it: no
  -- other status does.
  pub on_response-policy_iff :
      (r : RobotsHttpResponse) (d : RobotsDocument) (e : RobotsPolicyEvidence)
      → on_response f (ok r) ≡ policy d e
        ↔ (length r.body ≤ max_robots_response_bytes) × IsPolicyOf r d e
  unfolding on_response on_status
  on_response-policy_iff r d e = ground (arith, parsed_iff (from_utf8 r.body) d e)
