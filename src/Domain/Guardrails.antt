-- ===== src/Domain/Guardrails.antt =====
-- crates/erabi-domain/src/guardrails.rs: the safety baseline of a crawler version. A page type's
-- identifier is a UUID, here its 128-bit number; its text form is injective, so the set of texts
-- that the code keeps is the set of numbers.
pub mod Caps
use erabi.Base.{
  ℕ, ◌*◌, Bool, true, false, not, ◌&&◌, ◌||◌, List, [], ◌∷◌, Option, none, some, Result, ok, err,
  ◌>>=◌, ◌>>◌, reject, ltb, ◌==◌, if◌then◌else◌, any, find, is_some_and,
}
use erabi.Domain.Errors.{
  ProductError, with_code, invalid_crawl_guardrails, invalid_page_type_budget,
}

abbrev pub guardrail_policy_version : ℕ
guardrail_policy_version = 1

pub data DeferredPageTypeHealth : Type 0 where
  deferred_extraction_health : (version : ℕ) → DeferredPageTypeHealth

pub record PageTypeDiscoveryGuardrails : Type 0 where
  pub page_type_id : ℕ
  pub page_budget : Option ℕ
  pub health_threshold : Option DeferredPageTypeHealth

pub record CrawlerVersionGuardrails : Type 0 where
  pub version : ℕ
  pub max_pages : ℕ
  pub max_depth : ℕ
  pub max_duration_seconds : ℕ
  pub max_downloaded_bytes : ℕ
  pub max_concurrent_requests_per_domain : ℕ
  pub min_request_delay_ms : ℕ
  pub page_types : List PageTypeDiscoveryGuardrails

unfoldable pub default_guardrails : CrawlerVersionGuardrails
default_guardrails = record {
  version = guardrail_policy_version;
  max_pages = 1000;
  max_depth = 16;
  max_duration_seconds = 3600;
  max_downloaded_bytes = 100 * 1024 * 1024;
  max_concurrent_requests_per_domain = 1;
  min_request_delay_ms = 100;
  page_types = [];
}

pub record ResolvedOperationalLimits : Type 0 where
  pub max_pages : ℕ
  pub max_depth : ℕ
  pub max_duration_seconds : ℕ
  pub max_downloaded_bytes : ℕ
  pub concurrency : ℕ
  pub request_delay_ms : ℕ

-- The first test of `validate`.
unfoldable pub baseline_invalid : CrawlerVersionGuardrails → Bool
baseline_invalid g =
    not (g.version == guardrail_policy_version)
    || g.max_pages == 0
    || g.max_depth == 0
    || g.max_duration_seconds == 0
    || g.max_downloaded_bytes == 0
    || g.max_concurrent_requests_per_domain == 0

abbrev pub unsupported_health : Option DeferredPageTypeHealth → Bool
unsupported_health none = false
unsupported_health (some (deferred_extraction_health version)) = not (version == 1)

abbrev is_zero_budget : Option ℕ → Bool
is_zero_budget = is_some_and (λ n. n == 0)

-- The loop of `validate`; `seen` is the set of identifiers inserted so far.
unfoldable pub validate_page_types :
    List ℕ → List PageTypeDiscoveryGuardrails → Result (Unit {0}) ProductError
validate_page_types seen [] = ok tt
validate_page_types seen (p ∷ ps) = do
  reject (any (λ id. id == p.page_type_id) seen || is_zero_budget p.page_budget)
      (with_code invalid_page_type_budget "PageType budgets must be positive and unique")
  reject (unsupported_health p.health_threshold)
      (with_code invalid_page_type_budget "the PageType health contract version is unsupported")
  validate_page_types (p.page_type_id ∷ seen) ps

unfoldable pub validate : CrawlerVersionGuardrails → Result (Unit {0}) ProductError
validate g = do
  reject (baseline_invalid g)
      (with_code invalid_crawl_guardrails "mandatory crawler guardrails must be valid and positive")
  validate_page_types [] g.page_types

unfoldable pub exceeds_baseline : CrawlerVersionGuardrails → ResolvedOperationalLimits → Bool
exceeds_baseline g limits =
    ltb g.max_pages limits.max_pages
    || ltb g.max_depth limits.max_depth
    || ltb g.max_duration_seconds limits.max_duration_seconds
    || ltb g.max_downloaded_bytes limits.max_downloaded_bytes
    || ltb g.max_concurrent_requests_per_domain limits.concurrency
    || ltb limits.request_delay_ms g.min_request_delay_ms

unfoldable pub validate_effective_operational_limits :
    CrawlerVersionGuardrails → ResolvedOperationalLimits → Result (Unit {0}) ProductError
validate_effective_operational_limits g limits = do
  validate g
  reject (exceeds_baseline g limits) (
      with_code invalid_crawl_guardrails
        "resolved operational limits exceed the crawler safety baseline")

unfoldable pub page_type : CrawlerVersionGuardrails → ℕ → Option PageTypeDiscoveryGuardrails
page_type g page_type_id = find (λ b. b.page_type_id == page_type_id) g.page_types
