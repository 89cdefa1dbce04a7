-- ===== src/Domain/Budget/Decision.antt =====
-- When crates/erabi-domain/src/budget.rs lets a page or link be scheduled, and when it overflows.
use erabi.Base.{
  ℕ, ◌+◌, ◌≤◌, ◌<◌, ◌≡◌, ◌≢◌, ◌↔◌, false, Option, none, some, ok, arith, is_some_and, ltb, u32_max,
  u64_max,
}
use erabi.Domain.Guardrails.Caps.{IsValid, validate_iff}
use erabi.Domain.Transition.{TransitionBudget}
use erabi.Domain.Budget.{
  DiscoveryBudgetCandidate, DiscoveryBudgetExclusion, DiscoveryBudgetEvaluator, allowed, excluded,
  max_pages, max_duration, max_depth, max_downloaded_bytes, page_type_page_budget,
  transition_per_page_link_limit, transition_total_budget, page_budget, depth_contribution,
  malformed_transition, within_transition, within_bytes, within_caps, evaluate,
}

-- A number below an optional limit.
abbrev pub IsBelow : ℕ → Option ℕ → Type 0
IsBelow n none = Unit
IsBelow n (some limit) = n < limit

abbrev pub FitsTransition : Option TransitionBudget → DiscoveryBudgetCandidate → Type 0
FitsTransition none c = Unit
FitsTransition (some t) c =
    (c.transition_links_on_source_page < t.max_links_per_source_page)
    × IsBelow c.transition_total_links t.total_budget
    × (c.transition_total_links < u64_max)

-- The configuration that `evaluate` accepts, with the values that its machine integers can take.
pub record IsConfigured (e : DiscoveryBudgetEvaluator) : Type 0 where
  pub valid : IsValid e.guardrails
  pub budget : page_budget e.page_type ≢ some 0
  pub transition : is_some_and malformed_transition e.transition ≡ false

pub record IsMachine (e : DiscoveryBudgetEvaluator) : Type 0 where
  pub pages : e.guardrails.max_pages ≤ u64_max
  pub depth : e.guardrails.max_depth ≤ u32_max
  pub bytes : e.guardrails.max_downloaded_bytes ≤ u64_max
  pub links : is_some_and (λ t. ltb u32_max t.max_links_per_source_page) e.transition ≡ false

-- The candidate stays inside every cap.
pub record Fits (e : DiscoveryBudgetEvaluator) (c : DiscoveryBudgetCandidate) : Type 0 where
  pub pages : c.pages_already_scheduled < e.guardrails.max_pages
  pub duration : c.elapsed_duration_seconds < e.guardrails.max_duration_seconds
  pub depth : c.current_depth + depth_contribution e.transition ≤ e.guardrails.max_depth
  pub bytes : c.downloaded_bytes + c.prospective_download_bytes ≤ e.guardrails.max_downloaded_bytes
  pub page_type : IsBelow c.page_type_pages (page_budget e.page_type)
  pub transition : FitsTransition e.transition c

within_transition_iff :
    (t : Option TransitionBudget) (c : DiscoveryBudgetCandidate)
    → is_some_and (λ b. ltb u32_max b.max_links_per_source_page) t ≡ false
    → c.pages_already_scheduled < u64_max
    → (within_transition t c ≡ ok allowed) ↔ FitsTransition t c
unfolding within_transition
within_transition_iff none c m p = ground arith
within_transition_iff (some t) c m p = ground arith

within_bytes_iff :
    (e : DiscoveryBudgetEvaluator) (c : DiscoveryBudgetCandidate)
    → IsMachine e
    → c.pages_already_scheduled < u64_max
    → (within_bytes e c ≡ ok allowed) ↔ (
        (c.downloaded_bytes + c.prospective_download_bytes ≤ e.guardrails.max_downloaded_bytes)
        × IsBelow c.page_type_pages (page_budget e.page_type)
        × FitsTransition e.transition c)
unfolding within_bytes
within_bytes_iff e c m p = ground (arith, within_transition_iff e.transition c m.links p)

within_caps_iff :
    (e : DiscoveryBudgetEvaluator) (c : DiscoveryBudgetCandidate)
    → IsMachine e
    → (within_caps e c ≡ ok allowed) ↔ Fits e c
unfolding within_caps
within_caps_iff e c m = ground (arith, within_bytes_iff e c m)

-- Over machine integers a candidate is allowed exactly if the configuration is valid and every cap
-- (pages, duration, depth, bytes, page type, and the transition's two) leaves room for it.
pub evaluate-allowed_iff :
    (e : DiscoveryBudgetEvaluator) (c : DiscoveryBudgetCandidate)
    → IsMachine e
    → (evaluate e c ≡ ok allowed) ↔ (IsConfigured e × Fits e c)
unfolding evaluate
evaluate-allowed_iff e c m = ground (arith, validate_iff e.guardrails, within_caps_iff e c m)

abbrev pub IsReached : ℕ → Option ℕ → Type 0
IsReached n none = ⊥
IsReached n (some limit) = limit ≤ n

abbrev pub HitsTransition :
    DiscoveryBudgetExclusion → Option TransitionBudget → DiscoveryBudgetCandidate → Type 0
HitsTransition transition_per_page_link_limit (some t) c =
    t.max_links_per_source_page ≤ c.transition_links_on_source_page
HitsTransition transition_total_budget (some t) c =
    (c.transition_links_on_source_page < t.max_links_per_source_page)
    × IsReached c.transition_total_links t.total_budget
HitsTransition _ _ c = ⊥

module _ (e : DiscoveryBudgetEvaluator) (c : DiscoveryBudgetCandidate) where
  -- The cap that an exclusion names is reached, and every cap tested before it is not.
  abbrev pub HitsBytes : DiscoveryBudgetExclusion → Type 0
  HitsBytes max_downloaded_bytes =
      e.guardrails.max_downloaded_bytes < c.downloaded_bytes + c.prospective_download_bytes
  HitsBytes page_type_page_budget =
      (c.downloaded_bytes + c.prospective_download_bytes ≤ e.guardrails.max_downloaded_bytes)
      × IsReached c.page_type_pages (page_budget e.page_type)
  HitsBytes x =
      (c.downloaded_bytes + c.prospective_download_bytes ≤ e.guardrails.max_downloaded_bytes)
      × IsBelow c.page_type_pages (page_budget e.page_type)
      × HitsTransition x e.transition c

  abbrev pub Hits : DiscoveryBudgetExclusion → Type 0
  Hits max_pages = e.guardrails.max_pages ≤ c.pages_already_scheduled
  Hits max_duration =
      (c.pages_already_scheduled < e.guardrails.max_pages)
      × (e.guardrails.max_duration_seconds ≤ c.elapsed_duration_seconds)
  Hits max_depth =
      (c.pages_already_scheduled < e.guardrails.max_pages)
      × (c.elapsed_duration_seconds < e.guardrails.max_duration_seconds)
      × (e.guardrails.max_depth < c.current_depth + depth_contribution e.transition)
  Hits x =
      (c.pages_already_scheduled < e.guardrails.max_pages)
      × (c.elapsed_duration_seconds < e.guardrails.max_duration_seconds)
      × (c.current_depth + depth_contribution e.transition ≤ e.guardrails.max_depth)
      × HitsBytes x

within_transition-excluded :
    (t : Option TransitionBudget) (c : DiscoveryBudgetCandidate) (x : DiscoveryBudgetExclusion)
    → within_transition t c ≡ ok (excluded x)
    → HitsTransition x t c
unfolding within_transition
within_transition-excluded none c x h = ground arith
within_transition-excluded (some t) c x h = ground arith

within_bytes-excluded :
    (e : DiscoveryBudgetEvaluator) (c : DiscoveryBudgetCandidate) (x : DiscoveryBudgetExclusion)
    → within_bytes e c ≡ ok (excluded x)
    → HitsBytes e c x
unfolding within_bytes
within_bytes-excluded e c x h = ground (arith, within_transition-excluded e.transition c x)

within_caps-excluded :
    (e : DiscoveryBudgetEvaluator) (c : DiscoveryBudgetCandidate) (x : DiscoveryBudgetExclusion)
    → within_caps e c ≡ ok (excluded x)
    → Hits e c x
unfolding within_caps
within_caps-excluded e c x h = ground (arith, within_bytes-excluded e c x)

-- An exclusion is only ever given over a valid configuration, and names the first cap, in the
-- order pages, duration, depth, bytes, page type, links per page, links in total, that leaves no
-- room for the candidate.
pub evaluate-excluded :
    (e : DiscoveryBudgetEvaluator) (c : DiscoveryBudgetCandidate) (x : DiscoveryBudgetExclusion)
    → evaluate e c ≡ ok (excluded x)
    → IsConfigured e × Hits e c x
unfolding evaluate
evaluate-excluded e c x h = ground (arith, validate_iff e.guardrails, within_caps-excluded e c x)
