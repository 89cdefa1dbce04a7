-- ===== src/Robots/Evaluate/Delays.antt =====
-- The crawl delay of `RobotsDocument::evaluate` in crates/erabi-crawler/src/robots.rs, and the
-- decisions that `evaluate_inner` takes on its result.
use erabi.Base.{
  ◌≤◌, ◌≡◌, refl, sym, ◌∙◌, ◌↔◌, max, ◌⊎◌, inl, inr, Bool, true, false, List, [], ◌∷◌, ◌++◌, Option,
  none, some, arith, All, Any,
}
use erabi.Text.{Text}
use erabi.Url.{Url}
use erabi.Pacing.{Duration}
use erabi.Pacing.Admission.{overridden}
use erabi.Robots.{RobotsGroup, RobotsDocument}
use erabi.Robots.Select.{select_groups}
use erabi.Robots.Evaluate.{
  BestRule, best_of_rules, slower, slowest, over_groups, evaluate, request_path_for_robots, decide,
  RobotsRuleEvaluation,
}

abbrev pub delays_of : List RobotsGroup → List Duration
delays_of [] = []
delays_of (g ∷ gs) = g.crawl_delays ++ delays_of gs

-- The greatest of a list of delays, none for an empty list.
abbrev pub IsGreatest : List Duration → Option Duration → Type 0
IsGreatest ds none = ds ≡ []
IsGreatest ds (some d) = Any (λ e. e ≡ d) ds × All (λ e. e ≤ d) ds

slowest-append :
    (d : Option Duration) (xs ys : List Duration) → slowest d (xs ++ ys) ≡ slowest (slowest d xs) ys
unfolding slowest
slowest-append d [] ys = refl
slowest-append d (x ∷ xs) ys = slowest-append (slower d x) xs ys

over_groups-slowest :
    (path : Text) (best : BestRule) (d : Option Duration) (gs : List RobotsGroup)
    → (over_groups path best d gs).1 ≡ slowest d (delays_of gs)
unfolding over_groups slowest
over_groups-slowest path best d [] = refl
over_groups-slowest path best d (g ∷ gs) =
    over_groups-slowest path (best_of_rules path best g.rules) (slowest d g.crawl_delays) gs
    ∙ sym (slowest-append d g.crawl_delays (delays_of gs))

-- What a list of delays makes of a delay to start from: the greatest of them all.
abbrev Tops : Duration → List Duration → Duration → Type 0
Tops c ds m = (c ≤ m) × All (λ e. e ≤ m) ds × ((c ≡ m) ⊎ Any (λ e. e ≡ m) ds)

Tops-cons : (c d m : Duration) (ds : List Duration) → Tops (max c d) ds m → Tops c (d ∷ ds) m
Tops-cons c d m ds (l, k, inl e) = (omega arith, (omega arith, k), ground arith)
Tops-cons c d m ds (l, k, inr a) = (omega arith, (omega arith, k), inr (inr a))

slowest-some :
    (c : Duration) (ds : List Duration)
    → (m : Duration) × (slowest (some c) ds ≡ some m) × Tops c ds m
unfolding slowest
slowest-some c [] = (c, refl, (omega arith, tt, inl refl))
slowest-some c (d ∷ ds) = let (m, e, t) = slowest-some (max c d) ds in (m, e, Tops-cons c d m ds t)

slowest-IsGreatest : (ds : List Duration) → IsGreatest ds (slowest none ds)
unfolding slowest
slowest-IsGreatest [] = refl
slowest-IsGreatest (d ∷ ds) =
    let (m, e, l, k, a) = flat d ds in rw e (elim a [ inl q ↦ inl q | inr q ↦ inr q ], (l, k))
  where
    flat :
        (d : Duration) (ds : List Duration)
        → (m : Duration) × (slowest (some d) ds ≡ some m)
          × (d ≤ m)
          × All (λ e. e ≤ m) ds
          × ((d ≡ m) ⊎ Any (λ e. e ≡ m) ds)
    flat d ds = let (m, e, t) = slowest-some d ds in (m, e, t.0, t.1, t.2)

-- The crawl delay that a parsed policy imposes is the greatest one of the selected groups, and none
-- if they state none.
pub evaluate-crawl_delay :
    (gs : List RobotsGroup) (target : Url) (agent : Text)
    → IsGreatest
        (delays_of (select_groups gs agent))
        (evaluate
          (record { groups = gs; allow_all = false; deny_all = false })
          target
          agent).crawl_delay
unfolding evaluate
evaluate-crawl_delay gs target agent =
    let selected = select_groups gs agent in
    rw (over_groups-slowest (request_path_for_robots target) none none selected)
      (slowest-IsGreatest (delays_of selected))

-- An override of the run admits a request only where a parsed policy forbids it: it never changes an
-- allowed request, nor the refusal that stands for a denied robots file, nor any request without
-- an override.
pub decide-overridden_iff :
    (d : RobotsDocument) (override : Bool) (e : RobotsRuleEvaluation)
    → (decide d override e ≡ overridden)
      ↔ ((e.allowed ≡ false) × (override ≡ true) × (d.allow_all ≡ false) × (d.deny_all ≡ false))
unfolding decide
decide-overridden_iff d override e = ground arith
