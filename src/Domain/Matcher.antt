-- ===== src/Domain/Matcher.antt =====
-- crates/erabi-domain/src/url_matcher.rs: the matchers of a page type, and how specific they are.
use erabi.Base.{
  ℕ, Bool, true, false, not, ◌&&◌, ◌||◌, List, [], ◌∷◌, ◌++◌, Option, some, none, is_none, Result,
  ok, err, if◌then◌else◌, ◌==◌, ltb, leb, any, all, filter, length, is_empty, u32_max, min,
}
use erabi.Domain.Errors.{ProductError, with_code, conflict}
use erabi.Text.{
  Text, text_eq, to_ascii_lowercase, starts_with, ends_with, split, trim, is_whitespace, len,
}
use erabi.Url.{Url}

-- What the code calls of other packages: the text and the decoded query of a URL, the host and the
-- port that `url::Url::parse` reads of `https://{host}/`, `regex::escape`, and the test that
-- `regex::Regex::new` makes of an expression.
pub record MatchLibrary : Type 0 where
  pub as_str : Url → Text
  pub query_pairs : Url → List (Text × Text)
  pub parse_https : Text → Option (Option Text × Option ℕ)
  pub escape : Text → Text
  pub compile : Text → Option (Text → Bool)

pub data UrlMatcherKind : Type 0 where
  exact_url exact_host_path_template path_prefix_or_glob regex : UrlMatcherKind

abbrev pub rank : UrlMatcherKind → ℕ
rank UrlMatcherKind.exact_url = 4
rank UrlMatcherKind.exact_host_path_template = 3
rank UrlMatcherKind.path_prefix_or_glob = 2
rank UrlMatcherKind.regex = 1

-- `Reverse` turns the order of the wildcards around.
pub record SpecificityKey : Type 0 where
  pub matcher_kind_rank : ℕ  -- u8
  pub literal_path_segments : ℕ  -- u32
  pub explicit_query_constraints : ℕ
  pub literal_characters : ℕ
  pub inverse_wildcards : ℕ

-- A matcher is its definition; a query is the list of its keys and values.
pub data UrlMatcher : Type 0 where
  exact_url : Url → UrlMatcher
  exact_host_path_template : Text → Text → List (Text × Text) → UrlMatcher
  path_prefix path_glob : Option Text → Text → UrlMatcher
  regex : Text → UrlMatcher

abbrev pub kind : UrlMatcher → UrlMatcherKind
kind (UrlMatcher.exact_url _) = UrlMatcherKind.exact_url
kind (UrlMatcher.exact_host_path_template _ _ _) = UrlMatcherKind.exact_host_path_template
kind (path_prefix _ _) = UrlMatcherKind.path_prefix_or_glob
kind (path_glob _ _) = UrlMatcherKind.path_prefix_or_glob
kind (UrlMatcher.regex _) = UrlMatcherKind.regex

-- `usize` into `u32`, or the last one.
abbrev pub count : ℕ → ℕ
count n = min n u32_max

abbrev pub is_wildcard : ℕ → Bool
is_wildcard c = c == b'*' || c == b'{' || c == b'('

abbrev pub is_ascii_alphanumeric : ℕ → Bool
is_ascii_alphanumeric c =
    (leb b'0' c && leb c b'9') || (leb b'A' c && leb c b'Z') || (leb b'a' c && leb c b'z')

abbrev pub segments : Text → List Text
segments path = filter (λ part. not (is_empty part)) (split b'/' path)

abbrev pub matcher_path : UrlMatcher → Text
matcher_path (UrlMatcher.exact_url url) = url.path
matcher_path (UrlMatcher.exact_host_path_template _ path_template _) = path_template
matcher_path (path_prefix _ prefix) = prefix
matcher_path (path_glob _ pattern) = pattern
matcher_path (UrlMatcher.regex pattern) = pattern

unfoldable pub eq_ignore_ascii_case : Text → Text → Bool
eq_ignore_ascii_case s t = text_eq (to_ascii_lowercase s) (to_ascii_lowercase t)

abbrev pub has_host : Text → Url → Bool
has_host expected url = elim url.host_str [
  | none ↦ false
  | some actual ↦ eq_ignore_ascii_case actual expected
]

abbrev pub may_have_host : Option Text → Url → Bool
may_have_host none url = true
may_have_host (some expected) url = has_host expected url

abbrev pub is_capture : Text → Bool
is_capture part = starts_with (b'{' ∷ []) part && ends_with (b'}' ∷ []) part

-- `zip` and `all`, for lists of one length.
unfoldable pub parts_match : List Text → List Text → Bool
parts_match [] [] = true
parts_match (left ∷ expected) (right ∷ actual) =
    (is_capture left || text_eq left right) && parts_match expected actual
parts_match _ _ = false

unfoldable pub template_matches : Text → Text → Bool
template_matches template actual = parts_match (segments template) (segments actual)

-- `str::replace` of the two characters `\*`.
unfoldable pub replace_stars : Text → Text
replace_stars [] = []
replace_stars (c ∷ []) = c ∷ []
replace_stars (c ∷ d ∷ s) =
    let behind = replace_stars s in
    let rest = replace_stars (d ∷ s) in
    if c == 0x5c && d == b'*' then b'.' ∷ b'*' ∷ behind else c ∷ rest

abbrev pub valid_path_prefix : Text → Bool
valid_path_prefix path =
    not (is_empty path)
    && starts_with (b'/' ∷ []) path
    && not (any (λ c. c == b'*' || c == b'{' || c == b'}') path)

abbrev pub valid_path_glob : Text → Bool
valid_path_glob path = not (is_empty path) && starts_with (b'/' ∷ []) path

abbrev pub valid_query : List (Text × Text) → Bool
valid_query query =
    all (λ (p : Text × Text). not (is_empty p.0) && not (any is_whitespace p.0)) query

-- A segment without its first and its last character.
abbrev pub but_last : Text → Text
but_last [] = []
but_last (c ∷ []) = []
but_last (c ∷ d ∷ s) = c ∷ but_last (d ∷ s)

abbrev pub inner : Text → Text
inner [] = []
inner (c ∷ s) = but_last s

unfoldable pub valid_segment : Text → Bool
valid_segment segment =
    if starts_with (b'{' ∷ []) segment || ends_with (b'}' ∷ []) segment
    then ltb 2 (len segment)
      && is_capture segment
      && not (any (λ c. c == b'{' || c == b'}' || c == b'/' || c == b'*') (inner segment))
    else not (any (λ c. c == b'{' || c == b'}' || c == b'*') segment)

abbrev pub behind_first : List Text → List Text
behind_first [] = []
behind_first (_ ∷ parts) = parts

unfoldable pub valid_path_template : Text → Bool
valid_path_template path =
    not (is_empty path)
    && starts_with (b'/' ∷ []) path
    && all valid_segment (behind_first (split b'/' path))

unfoldable pub specificity_with : ℕ → UrlMatcher → SpecificityKey
specificity_with constraints matcher = record {
  matcher_kind_rank = rank (kind matcher);
  literal_path_segments =
      count
        (length (filter (λ part. not (any is_wildcard part)) (segments (matcher_path matcher))));
  explicit_query_constraints = constraints;
  literal_characters = count (length (filter is_ascii_alphanumeric (matcher_path matcher)));
  inverse_wildcards = count (length (filter is_wildcard (matcher_path matcher)));
}

module _ (lib : MatchLibrary) where
  abbrev pub query_constraints : UrlMatcher → ℕ
  query_constraints (UrlMatcher.exact_url url) = count (length (lib.query_pairs url))
  query_constraints (UrlMatcher.exact_host_path_template _ _ query) = count (length query)
  query_constraints _ = 0

  unfoldable pub specificity : UrlMatcher → SpecificityKey
  specificity matcher = specificity_with (query_constraints matcher) matcher

  unfoldable pub pattern : UrlMatcher → Text
  pattern (UrlMatcher.exact_url url) = lib.as_str url
  pattern (UrlMatcher.exact_host_path_template host path_template _) = host ++ path_template
  pattern (path_prefix _ prefix) = prefix
  pattern (path_glob _ glob) = glob
  pattern (UrlMatcher.regex expression) = expression

  abbrev pub is_match : Text → Text → Bool
  is_match expression s = elim (lib.compile expression) [ none ↦ false | some test ↦ test s ]

  unfoldable pub glob_matches : Text → Text → Bool
  glob_matches glob actual =
      is_match ((b'^' ∷ replace_stars (lib.escape glob)) ++ (b'$' ∷ [])) actual

  -- Two URLs are equal where their texts are.
  unfoldable pub matches : UrlMatcher → Url → Bool
  matches (UrlMatcher.exact_url expected) url = text_eq (lib.as_str expected) (lib.as_str url)
  matches (UrlMatcher.exact_host_path_template host path_template query) url =
      has_host host url
      && template_matches path_template url.path
      && all
          (λ (p : Text × Text).
            any (λ (q : Text × Text). text_eq q.0 p.0 && text_eq q.1 p.1) (lib.query_pairs url))
          query
  matches (path_prefix host prefix) url = may_have_host host url && starts_with prefix url.path
  matches (path_glob host glob) url = may_have_host host url && glob_matches glob url.path
  matches (UrlMatcher.regex expression) url = is_match expression (lib.as_str url)

  unfoldable pub valid_host : Text → Bool
  valid_host host =
      if is_empty (trim host) || any is_whitespace host
      then false
      else elim (lib.parse_https host) [
        | none ↦ false
        | some (none, port) ↦ false
        | some (some value, port) ↦ is_none port && eq_ignore_ascii_case value host
      ]

  abbrev pub valid_optional_host : Option Text → Bool
  valid_optional_host none = true
  valid_optional_host (some host) = valid_host host

  abbrev pub is_valid : UrlMatcher → Bool
  is_valid (UrlMatcher.exact_url _) = true
  is_valid (UrlMatcher.exact_host_path_template host path_template query) =
      valid_host host && valid_path_template path_template && valid_query query
  is_valid (path_prefix host prefix) = valid_optional_host host && valid_path_prefix prefix
  is_valid (path_glob host glob) = valid_optional_host host && valid_path_glob glob
  is_valid (UrlMatcher.regex expression) = not (is_none (lib.compile expression))

  abbrev pub invalid_message : UrlMatcher → ProductError
  invalid_message (UrlMatcher.exact_url _) = with_code conflict ""
  invalid_message (UrlMatcher.exact_host_path_template _ _ _) =
      with_code conflict "invalid exact host/path template matcher"
  invalid_message (path_prefix _ _) = with_code conflict "invalid URL path prefix matcher"
  invalid_message (path_glob _ _) = with_code conflict "invalid URL path glob matcher"
  invalid_message (UrlMatcher.regex _) = with_code conflict "invalid URL matcher regex"

  unfoldable pub validate_definition : UrlMatcher → Result (Unit {0}) ProductError
  validate_definition matcher = if is_valid matcher then ok tt else err (invalid_message matcher)
