-- ===== src/Robots/Evaluate.antt =====
-- `RobotsDocument::evaluate` of crates/erabi-crawler/src/robots.rs, and the decision of
-- `evaluate_inner` that follows it.
pub mod Best
pub mod Rules
pub mod Delays
use erabi.Base.{
  ℕ, Bool, true, false, not, ◌&&◌, ◌||◌, List, [], ◌∷◌, ◌++◌, Option, none, some, max, ltb, ◌==◌,
  if◌then◌else◌, is_none_or,
}
use erabi.Text.{Text}
use erabi.Url.{Url}
use erabi.Pacing.{Duration}
use erabi.Pacing.Admission.{RobotsAdmissionDecision, allowed, disallowed, overridden}
use erabi.Robots.{RobotsRule, RobotsGroup, RobotsDocument}
use erabi.Robots.Match.{rule_matches}
use erabi.Robots.Select.{select_groups}

pub record RobotsRuleEvaluation : Type 0 where
  pub allowed : Bool
  pub crawl_delay : Option Duration

unfoldable pub request_path_for_robots : Url → Text
request_path_for_robots target = elim target.query [
  | none ↦ target.path
  | some query ↦ target.path ++ (b'?' ∷ query)
]

abbrev pub BestRule : Type 0
BestRule = Option (ℕ × Bool)

-- The `match best_rule` for a rule that matches.
abbrev pub prefer : BestRule → RobotsRule → BestRule
prefer none rule = some (rule.specificity, rule.allow)
prefer (some (specificity, allow)) rule =
    if ltb rule.specificity specificity || (specificity == rule.specificity && allow)
    then some (specificity, allow)
    else some (rule.specificity, rule.allow)

abbrev pub consider : Text → BestRule → RobotsRule → BestRule
consider path best rule = if rule_matches rule path then prefer best rule else best

unfoldable pub best_of_rules : Text → BestRule → List RobotsRule → BestRule
best_of_rules path best [] = best
best_of_rules path best (r ∷ rs) = best_of_rules path (consider path best r) rs

abbrev pub slower : Option Duration → Duration → Option Duration
slower none delay = some delay
slower (some current) delay = some (max current delay)

unfoldable pub slowest : Option Duration → List Duration → Option Duration
slowest current [] = current
slowest current (d ∷ ds) = slowest (slower current d) ds

-- The loop over the selected groups.
unfoldable pub over_groups :
    Text → BestRule → Option Duration → List RobotsGroup → BestRule × Option Duration
over_groups path best delay [] = (best, delay)
over_groups path best delay (g ∷ gs) =
    over_groups path (best_of_rules path best g.rules) (slowest delay g.crawl_delays) gs

abbrev pub conclude : BestRule × Option Duration → RobotsRuleEvaluation
conclude (best, delay) = record { allowed = is_none_or (λ b. b.1) best; crawl_delay = delay }

unfoldable pub evaluate : RobotsDocument → Url → Text → RobotsRuleEvaluation
evaluate document target user_agent =
    if document.allow_all
    then record { allowed = true; crawl_delay = none }
    else if document.deny_all
    then record { allowed = false; crawl_delay = none }
    else conclude (
        over_groups (request_path_for_robots target) none none
          (select_groups document.groups user_agent))

abbrev pub permits_disallow_override : RobotsDocument → Bool
permits_disallow_override d = not d.allow_all && not d.deny_all

-- The decision of `evaluate_inner`; the second argument tells whether the run's snapshot overrides.
unfoldable pub decide : RobotsDocument → Bool → RobotsRuleEvaluation → RobotsAdmissionDecision
decide document override evaluated =
    if evaluated.allowed
    then allowed
    else if permits_disallow_override document && override
    then overridden
    else disallowed
