-- ===== src/Robots/Select.antt =====
-- `select_groups` and `user_agent_matches` of crates/erabi-crawler/src/robots.rs.
pub mod Groups
use erabi.Base.{
  ℕ, Bool, true, false, not, ◌&&◌, ◌||◌, List, [], ◌∷◌, Option, none, some, max, ltb, ◌==◌,
  if◌then◌else◌, any, filter, is_some_and,
}
use erabi.Text.{Text, text, text_eq, len, strip_prefix, to_ascii_lowercase, is_ascii_whitespace}
use erabi.Robots.{RobotsGroup}

abbrev pub is_star : Text → Bool
is_star agent = text_eq agent (text "*")

abbrev pub ends_token : Text → Bool
ends_token [] = false
ends_token (c ∷ _) = c == b'/' || is_ascii_whitespace c

unfoldable pub user_agent_matches : Text → Text → Bool
user_agent_matches active selector =
    text_eq active selector || is_some_and ends_token (strip_prefix selector active)

abbrev pub largest : ℕ → Option ℕ → ℕ
largest n none = n
largest n (some m) = max n m

-- The greatest length of a selector that names the agent, if one does.
unfoldable pub agents_specificity : Text → List Text → Option ℕ
agents_specificity active [] = none
agents_specificity active (agent ∷ agents) =
    let rest = agents_specificity active agents in
    if not (is_star agent) && user_agent_matches active agent
    then some (largest (len agent) rest)
    else rest

abbrev pub specificity : Text → RobotsGroup → Option ℕ
specificity active g = agents_specificity active g.user_agents

-- `highest_specificity` after the loop.
unfoldable pub highest : Text → List RobotsGroup → ℕ
highest active [] = 0
highest active (g ∷ gs) = largest (highest active gs) (specificity active g)

abbrev pub has_specificity : Text → ℕ → RobotsGroup → Bool
has_specificity active n g = is_some_and (λ m. m == n) (specificity active g)

abbrev pub names_all : RobotsGroup → Bool
names_all g = any is_star g.user_agents

unfoldable pub select_groups : List RobotsGroup → Text → List RobotsGroup
select_groups groups user_agent =
    let active = to_ascii_lowercase user_agent in
    let best = highest active groups in
    if ltb 0 best then filter (has_specificity active best) groups else filter names_all groups
