-- ===== src/Domain/Budget.antt =====
-- crates/erabi-domain/src/budget.rs: whether one more page or link may be scheduled.
pub mod Decision
use erabi.Base.{
  ℕ, Bool, ◌||◌, Option, none, some, Result, ok, err, ◌>>=◌, ◌>>◌, reject, ok_or, map_err, leb, ltb,
  ◌==◌, if◌then◌else◌, is_some_and, checked_add, u32_max, u64_max,
}
use erabi.Domain.Errors.{
  ErrorCode, ProductError, with_code, budget_overflow, invalid_crawl_guardrails,
}
use erabi.Domain.Guardrails.{CrawlerVersionGuardrails, PageTypeDiscoveryGuardrails}
use erabi.Domain.Guardrails
use erabi.Domain.Transition.{TransitionBudget}

pub record DiscoveryBudgetCandidate : Type 0 where
  pub pages_already_scheduled : ℕ  -- u64
  pub current_depth : ℕ  -- u32
  pub elapsed_duration_seconds : ℕ  -- u64
  pub downloaded_bytes : ℕ  -- u64
  pub page_type_pages : ℕ  -- u64
  pub transition_links_on_source_page : ℕ  -- u32
  pub transition_total_links : ℕ  -- u64
  pub prospective_download_bytes : ℕ  -- u64

pub data DiscoveryBudgetExclusion : Type 0 where
  max_pages max_duration max_depth max_downloaded_bytes : DiscoveryBudgetExclusion
  page_type_page_budget transition_per_page_link_limit : DiscoveryBudgetExclusion
  transition_total_budget : DiscoveryBudgetExclusion

pub data DiscoveryBudgetDecision : Type 0 where
  allowed : DiscoveryBudgetDecision
  excluded : DiscoveryBudgetExclusion → DiscoveryBudgetDecision

pub data DiscoveryBudgetError : Type 0 where
  invalid_guardrails invalid_transition_budget overflow : DiscoveryBudgetError

pub record DiscoveryBudgetEvaluator : Type 0 where
  pub guardrails : CrawlerVersionGuardrails
  pub page_type : Option PageTypeDiscoveryGuardrails
  pub transition : Option TransitionBudget

abbrev pub Decision : Type 0
Decision = Result DiscoveryBudgetDecision DiscoveryBudgetError

abbrev pub page_budget : Option PageTypeDiscoveryGuardrails → Option ℕ
page_budget none = none
page_budget (some p) = p.page_budget

abbrev pub depth_contribution : Option TransitionBudget → ℕ
depth_contribution none = 0
depth_contribution (some t) = t.depth_contribution

abbrev pub malformed_transition : TransitionBudget → Bool
malformed_transition t =
    t.max_links_per_source_page == 0 || is_some_and (λ n. n == 0) t.total_budget

abbrev pub scheduled : DiscoveryBudgetCandidate → Decision
scheduled c = do _ ← ok_or (checked_add u64_max c.pages_already_scheduled 1) overflow; ok allowed

-- The block `if let Some(transition)` and what follows it.
unfoldable pub within_transition : Option TransitionBudget → DiscoveryBudgetCandidate → Decision
within_transition none c = scheduled c
within_transition (some t) c =
    if leb t.max_links_per_source_page c.transition_links_on_source_page
    then ok (excluded transition_per_page_link_limit)
    else if is_some_and (λ n. leb n c.transition_total_links) t.total_budget
    then ok (excluded transition_total_budget)
    else do
      _ ← ok_or (checked_add u32_max c.transition_links_on_source_page 1) overflow
      _ ← ok_or (checked_add u64_max c.transition_total_links 1) overflow
      scheduled c

-- The tests from the download budget on.
unfoldable pub within_bytes : DiscoveryBudgetEvaluator → DiscoveryBudgetCandidate → Decision
within_bytes e c = do
  bytes ← ok_or (checked_add u64_max c.downloaded_bytes c.prospective_download_bytes) overflow
  if ltb e.guardrails.max_downloaded_bytes bytes
      then ok (excluded max_downloaded_bytes)
      else if is_some_and (λ n. leb n c.page_type_pages) (page_budget e.page_type)
      then ok (excluded page_type_page_budget)
      else within_transition e.transition c

-- The tests from the page cap on.
unfoldable pub within_caps : DiscoveryBudgetEvaluator → DiscoveryBudgetCandidate → Decision
within_caps e c =
    if leb e.guardrails.max_pages c.pages_already_scheduled
    then ok (excluded max_pages)
    else if leb e.guardrails.max_duration_seconds c.elapsed_duration_seconds
    then ok (excluded max_duration)
    else do
      depth ← ok_or (checked_add u32_max c.current_depth (depth_contribution e.transition)) overflow
      if ltb e.guardrails.max_depth depth then ok (excluded max_depth) else within_bytes e c

unfoldable pub evaluate : DiscoveryBudgetEvaluator → DiscoveryBudgetCandidate → Decision
evaluate e c = do
  map_err (λ _. invalid_guardrails) (Guardrails.validate e.guardrails)
  reject (is_some_and (λ n. n == 0) (page_budget e.page_type)) invalid_guardrails
  reject (is_some_and malformed_transition e.transition) invalid_transition_budget
  within_caps e c

-- `From<DiscoveryBudgetError> for ProductError`.
unfoldable pub product_error : DiscoveryBudgetError → ProductError
product_error overflow =
    with_code budget_overflow "budget arithmetic exceeded its safe integer range"
product_error invalid_guardrails =
    with_code invalid_crawl_guardrails "crawler guardrails are invalid"
product_error invalid_transition_budget =
    with_code ErrorCode.invalid_transition_budget "transition budget is invalid"
