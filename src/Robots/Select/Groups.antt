-- ===== src/Robots/Select/Groups.antt =====
-- Which groups `select_groups` of crates/erabi-crawler/src/robots.rs picks for a user agent.
use erabi.Base.{ℕ}
use erabi.Text.{Text}
use erabi.Robots.{RobotsGroup}
use erabi.Robots.Select.{largest, specificity}

-- The length of the longest selector of the group that names the agent, 0 if none does.
abbrev pub rank : Text → RobotsGroup → ℕ
rank active g = largest 0 (specificity active g)
