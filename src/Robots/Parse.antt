-- ===== src/Robots/Parse.antt =====
-- `parse_robots_document` and `parse_crawl_delay` of crates/erabi-crawler/src/robots.rs.
pub mod Steps
pub mod Groups
use erabi.Base.{
  ℕ, ◌+◌, Bool, true, false, not, ◌&&◌, ◌||◌, List, [], ◌∷◌, ◌++◌, Option, none, some, Result, ok,
  err, ◌>>=◌, ◌>>◌, reject, ok_or, min, ◌==◌, if◌then◌else◌, any, filter, length, is_empty,
}
use erabi.Text.{
  Text, text, text_eq, is_control, trim, trim_start_char, lines, split_once, to_ascii_lowercase,
  len_utf8,
}
use erabi.Pacing.{Duration, max_pacing_delay}
use erabi.Robots.{
  RobotsRule, RobotsGroup, default_group, RobotsDocument, RobotsInvalidPolicy, malformed_directive,
  invalid_crawl_delay,
}

-- What the program uses of `f64`: parsing, two tests, and the conversion to a duration.
pub record Float : Type 1 where
  pub F64 : Type 0
  pub parse : Text → Option F64
  pub is_finite : F64 → Bool
  pub is_sign_negative : F64 → Bool
  pub try_from_secs_f64 : F64 → Option Duration

-- The text without its last character, if that is the given one.
unfoldable pub strip_suffix_char : ℕ → Text → Option Text
strip_suffix_char k [] = none
strip_suffix_char k (c ∷ []) = if c == k then some [] else none
strip_suffix_char k (c ∷ d ∷ s) = elim (strip_suffix_char k (d ∷ s)) [
  | none ↦ none
  | some t ↦ some (c ∷ t)
]

-- The bytes of a pattern other than the star.
unfoldable pub bytes_but_star : Text → ℕ
bytes_but_star [] = 0
bytes_but_star (c ∷ s) = if c == b'*' then bytes_but_star s else len_utf8 c + bytes_but_star s

abbrev pub end_anchor : Text → Text × Bool
end_anchor value = elim (strip_suffix_char b'$' value) [
  | none ↦ (value, false)
  | some pattern ↦ (pattern, true)
]

abbrev pub make_rule : Bool → Text × Bool → RobotsRule
make_rule allow (pattern, end_anchored) = record {
  pattern = pattern;
  allow = allow;
  specificity = bytes_but_star pattern;
  end_anchored = end_anchored;
}

-- The variables of the loop.
pub record Parser : Type 0 where
  pub groups : List RobotsGroup
  pub current : Option RobotsGroup
  pub group_has_policy_directive : Bool

abbrev pub start : Parser
start = record { groups = []; current = none; group_has_policy_directive = false }

abbrev pub Parsed : Type 0
Parsed = Result Parser RobotsInvalidPolicy

-- `current.take()`, and the push of a group that names an agent.
abbrev pub with_group : List RobotsGroup → Option RobotsGroup → List RobotsGroup
with_group groups none = groups
with_group groups (some g) = if is_empty g.user_agents then groups else groups ++ g ∷ []

abbrev pub close_group : Parser → Parser
close_group s = record s {
  groups = with_group s.groups s.current;
  current = none;
  group_has_policy_directive = false;
}

abbrev pub or_default : Option RobotsGroup → RobotsGroup
or_default none = default_group
or_default (some g) = g

abbrev pub push_agent : Parser → Text → Parser
push_agent s value =
    let g = or_default s.current in
    record s {
      current = some (record g { user_agents = g.user_agents ++ to_ascii_lowercase value ∷ [] });
    }

-- A line that names an agent behind rules begins a new group.
abbrev pub reopen : Parser → Parser
reopen s = if s.group_has_policy_directive then close_group s else s

unfoldable pub on_user_agent : Parser → Text → Parsed
on_user_agent s value = do
  reject (is_empty value || any is_control value) malformed_directive
  ok (push_agent (reopen s) value)

abbrev pub push_rule : Parser → RobotsGroup → RobotsRule → Parser
push_rule s g rule = record s {
  current = some (record g { rules = g.rules ++ rule ∷ [] });
  group_has_policy_directive = true;
}

-- A pattern that is only an anchor makes no rule.
abbrev pub keep_rule : Parser → RobotsGroup → Bool → Text × Bool → Parser
keep_rule s g allow anchored =
    if is_empty anchored.0
    then record s { group_has_policy_directive = true }
    else push_rule s g (make_rule allow anchored)

abbrev pub add_rule : Parser → RobotsGroup → Bool → Text → Parsed
add_rule s g allow value =
    if is_empty value then ok (record s { group_has_policy_directive = true }) else do
      reject (any is_control value) malformed_directive
      ok (keep_rule s g allow (end_anchor value))

unfoldable pub on_rule : Parser → Option RobotsGroup → Bool → Text → Parsed
on_rule s none allow value = err malformed_directive
on_rule s (some g) allow value = add_rule s g allow value

-- A line without its comment and the white space around it.
unfoldable pub strip_comment : Text → Text
strip_comment raw = elim (split_once b'#' raw) [ none ↦ trim raw | some (before, _) ↦ trim before ]

module _ (f : Float) where
  open f use {F64, parse, is_finite, is_sign_negative, try_from_secs_f64}

  abbrev pub check_seconds : F64 → Result Duration RobotsInvalidPolicy
  check_seconds seconds = do
    reject (not (is_finite seconds) || is_sign_negative seconds) invalid_crawl_delay
    duration ← ok_or (try_from_secs_f64 seconds) invalid_crawl_delay
    ok (min duration max_pacing_delay)

  unfoldable pub parse_crawl_delay : Text → Result Duration RobotsInvalidPolicy
  parse_crawl_delay value = do
    seconds ← ok_or (parse value) invalid_crawl_delay
    check_seconds seconds

  unfoldable pub on_crawl_delay : Parser → Option RobotsGroup → Text → Parsed
  on_crawl_delay s none value = err malformed_directive
  on_crawl_delay s (some g) value = do
    delay ← parse_crawl_delay value
    ok (record s {
      current = some (record g { crawl_delays = g.crawl_delays ++ delay ∷ [] });
      group_has_policy_directive = true;
    })

  -- The `match` on a directive's name.
  unfoldable pub directive : Parser → Text → Text → Parsed
  directive s name value =
      if text_eq name (text "user-agent")
      then on_user_agent s value
      else if text_eq name (text "allow")
      then on_rule s s.current true value
      else if text_eq name (text "disallow")
      then on_rule s s.current false value
      else if text_eq name (text "crawl-delay")
      then on_crawl_delay s s.current value
      else ok s

  abbrev pub named_line : Parser → Option (Text × Text) → Parsed
  named_line s none = ok s
  named_line s (some (name, value)) = directive s (to_ascii_lowercase (trim name)) (trim value)

  unfoldable pub on_line : Parser → Text → Parsed
  on_line s raw =
      let line = strip_comment raw in
      if is_empty line then ok (close_group s) else named_line s (split_once b':' line)

  unfoldable pub parse_lines : Parser → List Text → Parsed
  parse_lines s [] = ok s
  parse_lines s (raw ∷ raws) = on_line s raw >>= λ t. parse_lines t raws

  unfoldable pub parse_robots_document : Text → Result RobotsDocument RobotsInvalidPolicy
  parse_robots_document body = do
    s ← parse_lines start (lines (trim_start_char 0xfeff body))
    ok (record { groups = with_group s.groups s.current; allow_all = false; deny_all = false })
