-- ===== src/Domain/Scope.antt =====
-- crates/erabi-domain/src/domain_scope.rs: the hosts that a crawl may visit.
pub mod Hosts
pub mod Decision
pub mod Rules
use erabi.Base.{
  ℕ, Bool, true, false, not, ◌&&◌, ◌||◌, List, [], ◌∷◌, ◌++◌, Option, some, none, is_none, is_some,
  Result, ok, err, ok_or, ◌>>=◌, ◌>>◌, reject, if◌then◌else◌, ◌==◌, any, filter, is_empty,
}
use erabi.Domain.Errors.{
  ProductError, with_code, invalid_url, invalid_domain_scope, invalid_domain_scope_rule,
  registrable_domain_unavailable,
}
use erabi.Text.{Text, text, text_eq, trim, to_ascii_lowercase, is_whitespace}
use erabi.Url.{Url}

abbrev pub domain_scope_policy_version : ℕ
domain_scope_policy_version = 1

-- What the code calls of other packages: whether `str::parse` reads an `IpAddr`, the host and the
-- port that `url::Url::parse` reads of `https://{host}/`, and `psl::domain`.
pub record HostLibrary : Type 0 where
  pub is_ip : Text → Bool
  pub parse_https : Text → Option (Option Text × Option ℕ)
  pub psl_domain : Text → Option Text

pub data DomainScopeHostRule : Type 0 where
  exact subdomains : Text → DomainScopeHostRule

-- A set of hosts or of rules is the list of its members in their order.
pub data DomainScopeKind : Type 0 where
  seed_domains_only : DomainScopeKind
  same_registrable_domain : List Text → DomainScopeKind
  explicit_allowlist : List Text → DomainScopeKind
  custom : List DomainScopeHostRule → List DomainScopeHostRule → DomainScopeKind

pub record DomainScopePolicy : Type 0 where
  pub version : ℕ
  pub policy : DomainScopeKind

-- The fields of a seed that the classification reads.
pub record Seed : Type 0 where
  pub canonical_url : Url
  pub enabled : Bool

-- `RegistrableDomain` and `ExplicitAllowlist` have other names here, since a function and a policy
-- have theirs.
pub data DomainScopeRationale : Type 0 where
  seed_host registrable_domain_root explicit_subdomain unselected_subdomain : DomainScopeRationale
  in_allowlist outside_seed_domains outside_allowlist explicit_block : DomainScopeRationale
  custom_allow outside_custom_allow : DomainScopeRationale

pub data DomainScopeClassification : Type 0 where
  in_scope external blocked : Text → DomainScopeRationale → DomainScopeClassification

abbrev pub invalid_scope_rule : ProductError
invalid_scope_rule = with_code invalid_domain_scope_rule "Domain Scope host is invalid"

abbrev pub contains_host : Text → List Text → Bool
contains_host host hosts = any (λ h. text_eq h host) hosts

-- `str::strip_suffix`: what stands before the suffix.
unfoldable pub strip_suffix : Text → Text → Option Text
strip_suffix suffix [] = if text_eq suffix [] then some [] else none
strip_suffix suffix (c ∷ s) =
    let rest = strip_suffix suffix s in
    if text_eq suffix (c ∷ s)
    then some []
    else elim rest [ none ↦ none | some before ↦ some (c ∷ before) ]

unfoldable pub ends_with_dot : Text → Bool
ends_with_dot [] = false
ends_with_dot (c ∷ []) = c == b'.'
ends_with_dot (c ∷ d ∷ s) = ends_with_dot (d ∷ s)

unfoldable pub host_is_within_root : Text → Text → Bool
host_is_within_root candidate root =
    text_eq candidate root
    || elim (strip_suffix root candidate) [ none ↦ false | some rest ↦ ends_with_dot rest ]

unfoldable pub rule_matches : DomainScopeHostRule → Text → Bool
rule_matches (exact host) candidate = text_eq candidate host
rule_matches (subdomains host) candidate =
    text_eq candidate host
    || elim (strip_suffix host candidate) [ none ↦ false | some rest ↦ ends_with_dot rest ]

abbrev pub rule_host : DomainScopeHostRule → Text
rule_host (exact host) = host
rule_host (subdomains host) = host

abbrev pub enabled_seeds : List Seed → List Seed
enabled_seeds seeds = filter (λ s. s.enabled) seeds

unfoldable pub validate_crawl_url : Url → Result (Unit {0}) ProductError
validate_crawl_url url =
    reject
      (not (text_eq url.scheme (text "http") || text_eq url.scheme (text "https"))
        || is_none url.host_str
        || not (is_empty url.username)
        || is_some url.password
        || is_some url.fragment)
      (with_code invalid_url "the URL is not a valid HTTP(S) crawl target")

unfoldable pub normalized_url_host : Url → Result Text ProductError
normalized_url_host url = elim url.host_str [
  | none ↦ err (with_code invalid_domain_scope "the URL host is missing")
  | some host ↦ ok (to_ascii_lowercase host)
]

unfoldable pub seed_url_host : Seed → Result Text ProductError
seed_url_host seed = do
  validate_crawl_url seed.canonical_url
  normalized_url_host seed.canonical_url

-- `collect` into a result: the first error, or every value.
unfoldable pub collect_hosts :
    {A : Type 0} → (A → Result Text ProductError) → List A → Result (List Text) ProductError
collect_hosts read [] = ok []
collect_hosts read (x ∷ xs) = do host ← read x; hosts ← collect_hosts read xs; ok (host ∷ hosts)

abbrev pub other_host : Option Text → Text → Bool
other_host none host = true
other_host (some parsed) host = not (text_eq parsed host)

-- The branches of the decision, once its inputs are known.
unfoldable pub decide_seeds : List Text → Text → DomainScopeClassification
decide_seeds seeds host =
    if contains_host host seeds then in_scope host seed_host else external host outside_seed_domains

unfoldable pub decide_registrable :
    List Text → List Text → List Text → Text → Text → DomainScopeClassification
decide_registrable explicit seeds roots root host =
    if contains_host host explicit && any (host_is_within_root host) roots
    then in_scope host explicit_subdomain
    else if contains_host root roots && text_eq host root
    then in_scope host registrable_domain_root
    else if contains_host host seeds
    then in_scope host seed_host
    else external host unselected_subdomain

unfoldable pub decide_allowlist : List Text → Text → DomainScopeClassification
decide_allowlist hosts host =
    if contains_host host hosts then in_scope host in_allowlist else external host outside_allowlist

unfoldable pub decide_custom :
    List DomainScopeHostRule → List DomainScopeHostRule → Text → DomainScopeClassification
decide_custom allow block host =
    if any (λ rule. rule_matches rule host) block
    then blocked host explicit_block
    else if any (λ rule. rule_matches rule host) allow
    then in_scope host custom_allow
    else external host outside_custom_allow

module _ (lib : HostLibrary) where
  unfoldable pub validate_normalized_host : Text → Result (Unit {0}) ProductError
  validate_normalized_host host =
      if is_empty host || any is_whitespace host || any (λ c. c == b'/') host
      then err invalid_scope_rule
      else if lib.is_ip host
      then ok tt
      else elim (lib.parse_https host) [
        | none ↦ err invalid_scope_rule
        | some (parsed, port) ↦
            if is_none parsed || is_some port || other_host parsed host
            then err invalid_scope_rule
            else ok tt
      ]

  unfoldable pub normalize_rule_host : Text → Result Text ProductError
  normalize_rule_host host = do
    let host = to_ascii_lowercase (trim host)
    validate_normalized_host host
    ok host

  unfoldable pub new_exact : Text → Result DomainScopeHostRule ProductError
  new_exact host = do host ← normalize_rule_host host; ok (exact host)

  unfoldable pub new_subdomains : Text → Result DomainScopeHostRule ProductError
  new_subdomains host = do host ← normalize_rule_host host; ok (subdomains host)

  unfoldable pub validate_rule : DomainScopeHostRule → Result (Unit {0}) ProductError
  validate_rule rule = do
    normalized ← normalize_rule_host (rule_host rule)
    reject (not (text_eq normalized (rule_host rule)))
        (with_code invalid_domain_scope_rule "Domain Scope hosts must be normalized")

  -- The first error of a check on each member.
  unfoldable pub check_all :
      {A : Type 0} → (A → Result (Unit {0}) ProductError) → List A → Result (Unit {0}) ProductError
  check_all check [] = ok tt
  check_all check (x ∷ xs) = do check x; check_all check xs

  unfoldable pub validate_kind : DomainScopeKind → Result (Unit {0}) ProductError
  validate_kind seed_domains_only = ok tt
  validate_kind (same_registrable_domain explicit) = check_all validate_normalized_host explicit
  validate_kind (explicit_allowlist hosts) = do
    reject (is_empty hosts)
        (with_code invalid_domain_scope "Domain Scope allowlist must not be empty")
    check_all validate_normalized_host hosts
  validate_kind (custom allow block) = do
    reject (is_empty allow)
        (with_code invalid_domain_scope "custom Domain Scope allow rules must not be empty")
    check_all validate_rule (allow ++ block)

  unfoldable pub validate : DomainScopePolicy → Result (Unit {0}) ProductError
  validate policy = do
    reject (not (policy.version == domain_scope_policy_version))
        (with_code invalid_domain_scope "unsupported Domain Scope policy version")
    validate_kind policy.policy

  unfoldable pub registrable_domain : Text → Result Text ProductError
  registrable_domain host =
      if lib.is_ip host || not (any (λ c. c == b'.') host)
      then ok host
      else ok_or (lib.psl_domain host) (
          with_code registrable_domain_unavailable
            "registrable-domain data is unavailable for this host")

  abbrev pub require_seeds : List Text → Result (Unit {0}) ProductError
  require_seeds hosts =
      reject (is_empty hosts)
        (with_code invalid_domain_scope "Domain Scope requires an enabled seed")

  unfoldable pub classify_host :
      DomainScopeKind → List Text → Text → Result DomainScopeClassification ProductError
  classify_host seed_domains_only seeds host = do require_seeds seeds; ok (decide_seeds seeds host)
  classify_host (same_registrable_domain explicit) seeds host = do
    require_seeds seeds
    roots ← collect_hosts registrable_domain seeds
    root ← registrable_domain host
    ok (decide_registrable explicit seeds roots root host)
  classify_host (explicit_allowlist hosts) seeds host = ok (decide_allowlist hosts host)
  classify_host (custom allow block) seeds host = ok (decide_custom allow block host)

  unfoldable pub classify :
      DomainScopePolicy → Url → List Seed → Result DomainScopeClassification ProductError
  classify policy candidate seeds = do
    validate policy
    validate_crawl_url candidate
    host ← normalized_url_host candidate
    hosts ← collect_hosts seed_url_host (enabled_seeds seeds)
    classify_host policy.policy hosts host
