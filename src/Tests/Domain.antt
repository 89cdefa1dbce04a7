-- ===== src/Tests/Domain.antt =====
-- The checks of crates/erabi-domain/src/guardrails.rs, budget.rs and transition.rs at concrete
-- inputs.
use erabi.Base.{◌≡◌, refl, ◌↔◌, true, none, some, [], ◌∷◌, ok, arith, All, pos}
use erabi.Text.{text}
use erabi.Domain.Guardrails.{
  PageTypeDiscoveryGuardrails, CrawlerVersionGuardrails, validate, validate_page_types,
  baseline_invalid,
}
use erabi.Domain.Guardrails.Caps.{IsValid, validate_iff}
use erabi.Domain.Transition.{DiscoveryTransition, TransitionGraph, new}
use erabi.Domain.Transition.Graph.{IsOwned, new_iff}
use erabi.Domain.Transition.Graph
use erabi.Domain.Budget.{
  DiscoveryBudgetCandidate, DiscoveryBudgetEvaluator, max_depth, allowed, excluded, evaluate,
  within_caps,
}
use erabi.Domain.Budget.Decision.{
  IsMachine, IsConfigured, Fits, Hits, evaluate-allowed_iff, evaluate-excluded,
}

abbrev product_pages : PageTypeDiscoveryGuardrails
product_pages = record { page_type_id = 7; page_budget = some 50; health_threshold = none }

abbrev guardrails : CrawlerVersionGuardrails
guardrails = record {
  version = 1;
  max_pages = 1000;
  max_depth = 16;
  max_duration_seconds = 3600;
  max_downloaded_bytes = 100000;
  max_concurrent_requests_per_domain = 1;
  min_request_delay_ms = 100;
  page_types = product_pages ∷ [];
}

validate_iff_example : (validate guardrails ≡ ok tt) ↔ IsValid guardrails
validate_iff_example = validate_iff guardrails

abbrev evaluator : DiscoveryBudgetEvaluator
evaluator = record { guardrails = guardrails; page_type = some product_pages; transition = none }

abbrev candidate : DiscoveryBudgetCandidate
candidate = record {
  pages_already_scheduled = 3;
  current_depth = 17;
  elapsed_duration_seconds = 10;
  downloaded_bytes = 2000;
  page_type_pages = 4;
  transition_links_on_source_page = 0;
  transition_total_links = 0;
  prospective_download_bytes = 500;
}

evaluator-IsMachine : IsMachine evaluator
evaluator-IsMachine = record {
  pages = omega arith;
  depth = omega arith;
  bytes = omega arith;
  links = refl;
}

evaluate-allowed_iff_example :
    (evaluate evaluator candidate ≡ ok allowed)
    ↔ (IsConfigured evaluator × Fits evaluator candidate)
evaluate-allowed_iff_example = evaluate-allowed_iff evaluator candidate evaluator-IsMachine

too_deep : evaluate evaluator candidate ≡ ok (excluded max_depth)
unfolding evaluate within_caps validate baseline_invalid validate_page_types
too_deep = refl

evaluate-excluded_example : IsConfigured evaluator × Hits evaluator candidate max_depth
evaluate-excluded_example = evaluate-excluded evaluator candidate max_depth too_deep

abbrev transition : DiscoveryTransition
transition = record {
  id = 1;
  source_page_type_id = 7;
  target_page_type_id = 7;
  name = text "next page";
  enabled = true;
  link_selector = text "a.next";
  url_constraints = none;
  priority = pos 0;
  budget = record { max_links_per_source_page = 1; total_budget = none; depth_contribution = 0 };
  deduplicate = true;
  latest_test_evidence_id = none;
}

abbrev graph : TransitionGraph
graph = record { transitions = transition ∷ [] }

new_iff_example : (new (7 ∷ []) (transition ∷ []) ≡ ok graph) ↔ (
    All (IsOwned (7 ∷ [])) (transition ∷ [])
    × Graph.IsDistinct (transition ∷ [])
    × (graph.transitions ≡ transition ∷ []))
new_iff_example = new_iff (7 ∷ []) (transition ∷ []) graph
