-- ===== src/Domain/Transition.antt =====
-- crates/erabi-domain/src/transition.rs: discovery transitions, and the graph that they span.
pub mod Graph
use erabi.Base.{
  ℕ, ℤ, Bool, true, not, ◌||◌, List, [], ◌∷◌, Option, some, Result, ok, ◌>>=◌, ◌>>◌, reject, ltb,
  ◌==◌, any, length, is_empty, is_some_and,
}
use erabi.Domain.Errors.{
  ProductError, with_code, invalid_discovery_transition, invalid_transition_budget,
}
use erabi.Text.{Text, trim, is_control}

pub record TransitionBudget : Type 0 where
  pub max_links_per_source_page : ℕ
  pub total_budget : Option ℕ
  pub depth_contribution : ℕ

pub record DiscoveryTransition : Type 0 where
  pub id : ℕ
  pub source_page_type_id : ℕ
  pub target_page_type_id : ℕ
  pub name : Text
  pub enabled : Bool
  pub link_selector : Text
  pub url_constraints : Option Text
  pub priority : ℤ  -- i32
  pub budget : TransitionBudget
  pub deduplicate : Bool
  pub latest_test_evidence_id : Option ℕ

unfoldable pub bad_constraints : Text → Bool
bad_constraints c = is_empty (trim c) || ltb 2048 (length c) || any is_control c

unfoldable pub validate : DiscoveryTransition → Result (Unit {0}) ProductError
unfolding bad_constraints
validate t = do
  reject (is_empty (trim t.name) || ltb 256 (length t.name)) (
      with_code invalid_discovery_transition
        "transition name must be non-empty and at most 256 characters")
  reject (is_empty (trim t.link_selector) || ltb 1024 (length t.link_selector)) (
      with_code invalid_discovery_transition
        "transition link selector must be non-empty and bounded")
  reject (is_some_and bad_constraints t.url_constraints)
      (with_code invalid_discovery_transition "transition URL constraints are invalid")
  reject (t.budget.max_links_per_source_page == 0)
      (with_code invalid_transition_budget "transition link budget must be positive")
  reject (is_some_and (λ n. n == 0) t.budget.total_budget) (
      with_code invalid_transition_budget
        "transition total budget must be positive when configured")

abbrev pub member : ℕ → List ℕ → Bool
member x = any (λ y. y == x)

-- The loop of `TransitionGraph::new`; `seen` is the set of identifiers inserted so far.
unfoldable pub check_transitions :
    List ℕ → List ℕ → List DiscoveryTransition → Result (Unit {0}) ProductError
check_transitions page_type_ids seen [] = ok tt
check_transitions page_type_ids seen (t ∷ ts) = do
  validate t
  reject (member t.id seen) (with_code invalid_discovery_transition "transition IDs must be unique")
  reject (not (member t.source_page_type_id page_type_ids)) (
      with_code invalid_discovery_transition
        "transition source PageType is not owned by the version")
  reject (not (member t.target_page_type_id page_type_ids)) (
      with_code invalid_discovery_transition
        "transition target PageType is not owned by the version")
  check_transitions page_type_ids (t.id ∷ seen) ts

pub record TransitionGraph : Type 0 where
  pub transitions : List DiscoveryTransition

unfoldable pub new : List ℕ → List DiscoveryTransition → Result TransitionGraph ProductError
new page_type_ids transitions = do
  check_transitions page_type_ids [] transitions
  ok (record { transitions = transitions })
