-- ===== src/Robots.antt =====
-- crates/erabi-crawler/src/robots.rs: the parsed policy, its evaluation for a request, and the
-- admission that follows. Texts are lists of code points (`erabi.Text`).
pub mod Match
pub mod Select
pub mod Evaluate
pub mod Parse
pub mod Cache
pub mod Fetch
pub mod Flight
use erabi.Base.{ℕ, Bool, true, false, List, []}
use erabi.Text.{Text}
use erabi.Pacing.{Duration}

pub record RobotsRule : Type 0 where
  pub pattern : Text
  pub allow : Bool
  pub specificity : ℕ
  pub end_anchored : Bool

pub record RobotsGroup : Type 0 where
  pub user_agents : List Text
  pub rules : List RobotsRule
  pub crawl_delays : List Duration

abbrev pub default_group : RobotsGroup
default_group = record { user_agents = []; rules = []; crawl_delays = [] }

pub record RobotsDocument : Type 0 where
  pub groups : List RobotsGroup
  pub allow_all : Bool
  pub deny_all : Bool

abbrev pub allow_all : RobotsDocument
allow_all = record { groups = []; allow_all = true; deny_all = false }

abbrev pub deny_all : RobotsDocument
deny_all = record { groups = []; allow_all = false; deny_all = true }

pub data RobotsInvalidPolicy : Type 0 where
  response_too_large invalid_encoding malformed_directive invalid_crawl_delay : RobotsInvalidPolicy
