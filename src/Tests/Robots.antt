-- ===== src/Tests/Robots.antt =====
-- The robots policies of crates/erabi-crawler/src/robots.rs at concrete inputs.
use erabi.Base.{ℕ, ◌≡◌, ◌↔◌, true, false, none, some, List, [], ◌∷◌, ◌++◌, arith, All, length}
use erabi.Text.{Text, text}
use erabi.Url.{Url}
use erabi.Pacing.{secs, OriginKey}
use erabi.Pacing.Admission.{network_policy}
use erabi.Robots.{RobotsRule, RobotsGroup, RobotsDocument}
use erabi.Robots.Match.{rule_matches}
use erabi.Robots.Match.Glob.{Glob, rule_matches_iff}
use erabi.Robots.Select.{select_groups}
use erabi.Robots.Evaluate.{request_path_for_robots, evaluate}
use erabi.Robots.Evaluate.Rules.{IsHarmless, rules_of, evaluate-allows_iff}
use erabi.Robots.Parse.{Float}
use erabi.Robots.Flight.{Flights, none_flies, with_guard, enter, enters, starts, steps}
use erabi.Robots.Flight.Leaders.{count, exactly_one_leads}
use erabi.Robots.Cache.{get, insert}
use erabi.Robots.Cache.Bounds.{get-insert}

abbrev no_private : RobotsRule
no_private = record {
  pattern = text "/private/*.html";
  allow = false;
  specificity = 14;
  end_anchored = true;
}

rule_matches_iff_example :
    (rule_matches no_private (text "/private/a.html") ≡ true)
    ↔ Glob true (text "/private/*.html") (text "/private/a.html")
rule_matches_iff_example = rule_matches_iff no_private (text "/private/a.html")

abbrev everyone : RobotsGroup
everyone = record {
  user_agents = text "*" ∷ [];
  rules = no_private ∷ [];
  crawl_delays = secs 2 ∷ secs 5 ∷ [];
}

abbrev ours : RobotsGroup
ours = record { user_agents = text "erabi" ∷ []; rules = []; crawl_delays = secs 1 ∷ [] }

abbrev groups : List RobotsGroup
groups = everyone ∷ ours ∷ []

abbrev parsed : RobotsDocument
parsed = record { groups = groups; allow_all = false; deny_all = false }

abbrev pub page : Url
page = record {
  scheme = text "https";
  username = [];
  password = none;
  host = none;
  host_str = some (text "example.com");
  port_or_known_default = some 443;
  path = text "/private/a.html";
  query = none;
  fragment = none;
}

evaluate-allows_iff_example :
    ((evaluate parsed page (text "other")).allowed ≡ true)
    ↔ All
        (IsHarmless (request_path_for_robots page) (rules_of (select_groups groups (text "other"))))
        (rules_of (select_groups groups (text "other")))
evaluate-allows_iff_example = evaluate-allows_iff groups page (text "other")

-- A reading of whole seconds, for the tests.
abbrev pub whole_seconds : Float
whole_seconds = record {
  F64 = ℕ;
  parse = λ t. some (length t);
  is_finite = λ _. true;
  is_sign_negative = λ _. false;
  try_from_secs_f64 = λ n. some (secs n);
}

abbrev body : Text
body =
    text "User-agent: Erabi # us" ++ (10 ∷ text "Disallow: /a*") ++ (10 ∷ text "Crawl-delay: 123")

abbrev small : RobotsDocument
small = record {
  groups =
      record {
        user_agents = text "erabi" ∷ [];
        rules =
            record { pattern = text "/a*"; allow = false; specificity = 2; end_anchored = false }
            ∷ [];
        crawl_delays = secs 3 ∷ [];
      }
      ∷ [];
  allow_all = false;
  deny_all = false;
}

abbrev pub origin : OriginKey
origin = record { scheme = text "https"; host = text "example.com"; port = 443 }

answered :
    (get (insert [] origin parsed network_policy 5 605) origin 600).1
    ≡ some (parsed, network_policy)
answered = get-insert [] origin parsed network_policy 5 605 600 (omega arith)

abbrev one_flies : Flights
one_flies = with_guard [] origin (enter [] origin)

exactly_one_leads_example :
    count origin (with_guard one_flies.guards origin (enter one_flies.in_flight origin)).guards ≡ 1
exactly_one_leads_example = exactly_one_leads origin (steps starts (enters none_flies origin))
