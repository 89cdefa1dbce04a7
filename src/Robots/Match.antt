-- ===== src/Robots/Match.antt =====
-- `rule_matches` of crates/erabi-crawler/src/robots.rs.
pub mod Greedy
pub mod Glob
use erabi.Base.{
  Bool, true, false, not, ◌||◌, List, [], ◌∷◌, Option, none, some, if◌then◌else◌, is_empty,
}
use erabi.Text.{Text, split, strip_prefix, after_first, contains, ends_with}
use erabi.Robots.{RobotsRule}

-- The loop over the parts behind the first; the last part is searched, or held to the end.
unfoldable pub match_parts : Bool → List Text → Text → Bool
match_parts end_anchored [] remaining = not end_anchored || is_empty remaining
match_parts end_anchored (part ∷ []) remaining =
    if end_anchored then ends_with part remaining else contains part remaining
match_parts end_anchored (part ∷ next ∷ parts) remaining = elim (after_first part remaining) [
  | none ↦ false
  | some rest ↦ match_parts end_anchored (next ∷ parts) rest
]

abbrev pub match_first : Bool → List Text → Text → Bool
match_first end_anchored [] path = false
match_first end_anchored (first ∷ parts) path = elim (strip_prefix first path) [
  | none ↦ false
  | some remaining ↦ match_parts end_anchored parts remaining
]

unfoldable pub rule_matches : RobotsRule → Text → Bool
rule_matches rule request_path =
    match_first rule.end_anchored (split b'*' rule.pattern) request_path
