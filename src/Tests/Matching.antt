-- ===== src/Tests/Matching.antt =====
-- The page type of a URL in crates/erabi-domain/src/matching.rs at concrete inputs: a prefix and a
-- template of one priority.
use erabi.Base.{none, some, [], ◌∷◌, pos}
use erabi.Text.{text}
use erabi.Url.{Url}
use erabi.Domain.Matcher.{MatchLibrary, UrlMatcher, UrlMatcherKind, specificity}
use erabi.Domain.Matching.{PageType, PageTypeCandidate}

abbrev no_expressions : MatchLibrary
no_expressions = record {
  as_str = λ url. url.path;
  query_pairs = λ _. [];
  parse_https = λ host. some (some host, none);
  escape = λ s. s;
  compile = λ _. none;
}

abbrev product : Url
product = record {
  scheme = text "https";
  username = [];
  password = none;
  host = none;
  host_str = some (text "a.org");
  port_or_known_default = some 443;
  path = text "/p/7";
  query = none;
  fragment = none;
}

abbrev listing : PageType
listing = record {
  id = 1;
  name = text "listing";
  priority = pos 0;
  matchers = UrlMatcher.path_prefix none (text "/p") ∷ [];
}

abbrev detail : PageType
detail = record {
  id = 2;
  name = text "detail";
  priority = pos 0;
  matchers = UrlMatcher.exact_host_path_template (text "A.org") (text "/p/{id}") [] ∷ [];
}

abbrev chosen : PageTypeCandidate
chosen = record {
  page_type_id = 2;
  page_type_name = text "detail";
  priority = pos 0;
  matcher_kind = UrlMatcherKind.exact_host_path_template;
  specificity = record {
    matcher_kind_rank = 3;
    literal_path_segments = 1;
    explicit_query_constraints = 0;
    literal_characters = 3;
    inverse_wildcards = 1;
  };
  matched_patterns = text "A.org/p/{id}" ∷ [];
}
