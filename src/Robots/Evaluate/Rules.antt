-- ===== src/Robots/Evaluate/Rules.antt =====
-- Which rule decides in `RobotsDocument::evaluate` of crates/erabi-crawler/src/robots.rs.
use erabi.Base.{
  ℕ, ◌≤◌, ◌≡◌, refl, ◌↔◌, ◌⊎◌, inl, inr, true, false, List, [], ◌∷◌, ◌++◌, none, some, arith, All,
  Any, is_none_or,
}
use erabi.Text.{Text}
use erabi.Url.{Url}
use erabi.Robots.{RobotsRule, RobotsGroup}
use erabi.Robots.Match.{rule_matches}
use erabi.Robots.Select.{select_groups}
use erabi.Robots.Evaluate.{BestRule, over_groups, evaluate, request_path_for_robots}
use erabi.Robots.Evaluate.Best.{
  All-imp, Any-imp, All-Any, IsWitness, IsBelow, IsBest, onto, onto_groups, over_groups-IsBest,
}

-- The rules of all groups, in their order.
abbrev pub rules_of : List RobotsGroup → List RobotsRule
rules_of [] = []
rules_of (g ∷ gs) = g.rules ++ rules_of gs

module _ (P : RobotsRule → Type 0) where
  All-append : (xs ys : List RobotsRule) → All P xs → All P ys → All P (xs ++ ys)
  All-append [] ys h k = k
  All-append (x ∷ xs) ys h k = (h.0, All-append xs ys h.1 k)

  All-onto : (rs seen : List RobotsRule) → All P (onto rs seen) → All P rs × All P seen
  All-onto [] seen h = (tt, h)
  All-onto (r ∷ rs) seen h =
      let (later, earlier) = All-onto rs (r ∷ seen) h in ((earlier.0, later), earlier.1)

  All-onto_groups :
      (gs : List RobotsGroup) (seen : List RobotsRule)
      → All P (onto_groups gs seen)
      → All P (rules_of gs) × All P seen
  All-onto_groups [] seen h = (tt, h)
  All-onto_groups (g ∷ gs) seen h =
      let (later, earlier) = All-onto_groups gs (onto g.rules seen) h in
      let (here, before) = All-onto g.rules seen earlier in
      (All-append g.rules (rules_of gs) here later, before)

  Any-append : (xs ys : List RobotsRule) → Any P xs ⊎ Any P ys → Any P (xs ++ ys)
  Any-append [] ys (inl h) = absurd h
  Any-append [] ys (inr h) = h
  Any-append (x ∷ xs) ys (inl (inl h)) = inl h
  Any-append (x ∷ xs) ys (inl (inr h)) = inr (Any-append xs ys (inl h))
  Any-append (x ∷ xs) ys (inr h) = inr (Any-append xs ys (inr h))

  Any-onto : (rs seen : List RobotsRule) → Any P (onto rs seen) → Any P rs ⊎ Any P seen
  Any-onto [] seen h = inr h
  Any-onto (r ∷ rs) seen h = elim (Any-onto rs (r ∷ seen) h) [
    | inl later ↦ inl (inr later)
    | inr (inl here) ↦ inl (inl here)
    | inr (inr before) ↦ inr before
  ]

  Any-onto_groups :
      (gs : List RobotsGroup) (seen : List RobotsRule)
      → Any P (onto_groups gs seen)
      → Any P (rules_of gs) ⊎ Any P seen
  Any-onto_groups [] seen h = inr h
  Any-onto_groups (g ∷ gs) seen h = elim (Any-onto_groups gs (onto g.rules seen) h) [
    | inl later ↦ inl (Any-append g.rules (rules_of gs) (inr later))
    | inr earlier ↦ elim (Any-onto g.rules seen earlier) [
      | inl here ↦ inl (Any-append g.rules (rules_of gs) (inl here))
      | inr before ↦ inr before
    ]
  ]

IsBest-rules_of :
    (path : Text) (gs : List RobotsGroup) (best : BestRule)
    → IsBest path (onto_groups gs []) best
    → IsBest path (rules_of gs) best
IsBest-rules_of path gs none h = (All-onto_groups (λ r. rule_matches r path ≡ false) gs [] h).0
IsBest-rules_of path gs (some (n, v)) h = (
  elim (Any-onto_groups (IsWitness path n v) gs [] h.0) [ inl k ↦ k | inr k ↦ absurd k ],
  (All-onto_groups (IsBelow path n v) gs [] h.1).0,
)

-- An allowing rule that matches and is at least as specific.
abbrev pub Outweighs : Text → ℕ → RobotsRule → Type 0
Outweighs path n q = (rule_matches q path ≡ true) × (q.allow ≡ true) × (n ≤ q.specificity)

-- The rule does not match, or allows, or is outweighed by an allowing rule.
abbrev pub IsHarmless : Text → List RobotsRule → RobotsRule → Type 0
IsHarmless path rules r =
    (rule_matches r path ≡ false) ⊎ (r.allow ≡ true) ⊎ Any (Outweighs path r.specificity) rules

module _ (path : Text) (rules : List RobotsRule) where
  below-IsHarmless :
      (n : ℕ)
      → Any (IsWitness path n true) rules
      → (r : RobotsRule) → IsBelow path n true r
      → IsHarmless path rules r
  below-IsHarmless n w r (inl e) = inl e
  below-IsHarmless n w r (inr l) =
      inr (inr (Any-imp (λ q k. (k.0, k.1, omega (arith, k.2))) rules w))

  no_outweighing :
      (n m : ℕ) → All (IsBelow path n false) rules → n ≤ m → Any (Outweighs path m) rules → ⊥
  no_outweighing n m below l w = let (q, b, o) = All-Any rules below w in ground arith

  forbidden : (n : ℕ) → IsBest path rules (some (n, false)) → All (IsHarmless path rules) rules → ⊥
  forbidden n h harmless =
      let (r, k, w) = All-Any rules harmless h.0 in
      elim k [
        | inl unmatched ↦ ground arith
        | inr (inl allows) ↦ ground arith
        | inr (inr outweighed) ↦ no_outweighing n r.specificity h.1 (omega (arith, w.2)) outweighed
      ]

  verdict_iff :
      (best : BestRule)
      → IsBest path rules best
      → (is_none_or (λ b. b.1) best ≡ true) ↔ All (IsHarmless path rules) rules
  verdict_iff none h = (λ _. All-imp (λ r e. inl e) rules h, λ _. refl)
  verdict_iff (some (n, true)) h = (λ _. All-imp (below-IsHarmless n h.0) rules h.1, λ _. refl)
  verdict_iff (some (n, false)) h = (λ e. cc, λ k. absurd (forbidden n h k))

-- A parsed policy allows a request exactly if every matching rule of the selected groups that
-- forbids it is outweighed by a matching rule that allows it and is at least as specific, in
-- whatever order the rules stand.
pub evaluate-allows_iff :
    (gs : List RobotsGroup) (target : Url) (agent : Text)
    → let rules = rules_of (select_groups gs agent) in
      ((evaluate (record { groups = gs; allow_all = false; deny_all = false }) target agent).allowed
        ≡ true)
      ↔ All (IsHarmless (request_path_for_robots target) rules) rules
unfolding evaluate
evaluate-allows_iff gs target agent =
    let path = request_path_for_robots target in
    let selected = select_groups gs agent in
    verdict_iff path (rules_of selected) (over_groups path none none selected).0 (
      IsBest-rules_of path selected (over_groups path none none selected).0
        (over_groups-IsBest path [] none none selected tt))
