-- ===== src/Robots/Evaluate/Best.antt =====
-- What the loop knows of the rules that it has seen in `RobotsDocument::evaluate` of crates/erabi-crawler/src/robots.rs.
use erabi.Base.{
  ℕ, ◌≤◌, ◌<◌, ◌≡◌, refl, ◌⊎◌, inl, inr, Bool, true, false, List, [], ◌∷◌, ◌&&◌, ◌||◌, Option, none,
  some, arith, All, Any, Bool-cases, ltb, ◌==◌,
}
use erabi.Text.{Text}
use erabi.Pacing.{Duration}
use erabi.Robots.{RobotsRule, RobotsGroup}
use erabi.Robots.Match.{rule_matches}
use erabi.Robots.Evaluate.{BestRule, prefer, consider, best_of_rules, over_groups, slowest}

pub All-imp {ℓ κ} :
    {A : Type ℓ} {P Q : A → Type κ} (f : (a : A) → P a → Q a) (xs : List A) → All P xs → All Q xs
All-imp f [] h = tt
All-imp f (x ∷ xs) h = (f x h.0, All-imp f xs h.1)

pub Any-imp {ℓ} :
    {A : Type ℓ} {P Q : A → Type 0} (f : (a : A) → P a → Q a) (xs : List A) → Any P xs → Any Q xs
Any-imp f [] h = h
Any-imp f (x ∷ xs) (inl h) = inl (f x h)
Any-imp f (x ∷ xs) (inr h) = inr (Any-imp f xs h)

-- One of the items has both properties.
pub All-Any {ℓ κ} :
    {A : Type ℓ} {P : A → Type κ} {Q : A → Type 0} (xs : List A)
    → All P xs
    → Any Q xs
    → (a : A) × P a × Q a
All-Any [] h k = absurd k
All-Any (x ∷ xs) h (inl k) = (x, h.0, k)
All-Any (x ∷ xs) h (inr k) = All-Any xs h.1 k

module _ (path : Text) where
  -- A matching rule of this specificity and verdict.
  abbrev pub IsWitness : ℕ → Bool → RobotsRule → Type 0
  IsWitness n verdict r = (rule_matches r path ≡ true) × (r.allow ≡ verdict) × (r.specificity ≡ n)

  abbrev pub IsBelow : ℕ → Bool → RobotsRule → Type 0
  IsBelow n true r = (rule_matches r path ≡ false) ⊎ (r.specificity ≤ n)
  IsBelow n false r =
      (rule_matches r path ≡ false)
      ⊎ (r.specificity < n)
      ⊎ ((r.specificity ≡ n) × (r.allow ≡ false))

  -- What the loop knows of the rules that it has seen.
  abbrev pub IsBest : List RobotsRule → BestRule → Type 0
  IsBest seen none = All (λ r. rule_matches r path ≡ false) seen
  IsBest seen (some (n, verdict)) = Any (IsWitness n verdict) seen × All (IsBelow n verdict) seen

  IsBest-skip :
      (seen : List RobotsRule) (best : BestRule) (r : RobotsRule)
      → rule_matches r path ≡ false
      → IsBest seen best
      → IsBest (r ∷ seen) best
  IsBest-skip seen none r e h = (e, h)
  IsBest-skip seen (some (n, true)) r e h = (inr h.0, (inl e, h.1))
  IsBest-skip seen (some (n, false)) r e h = (inr h.0, (inl e, h.1))

  IsBelow-unmatched :
      (n : ℕ) (v : Bool) (r : RobotsRule) → rule_matches r path ≡ false → IsBelow n v r
  IsBelow-unmatched n true r e = inl e
  IsBelow-unmatched n false r e = inl e

  IsBelow-self : (v : Bool) (r : RobotsRule) → r.allow ≡ v → IsBelow r.specificity v r
  IsBelow-self true r e = inr (omega arith)
  IsBelow-self false r e = inr (inr (refl, e))

  -- A rule takes the place of a less specific one, or of a forbidding one that is not more specific.
  abbrev Replaces : ℕ → Bool → ℕ → Type 0
  Replaces n true m = n < m
  Replaces n false m = n ≤ m

  IsBelow-replace :
      (n : ℕ) (a : Bool) (m : ℕ) (v : Bool)
      → Replaces n a m
      → (r : RobotsRule) → IsBelow n a r
      → IsBelow m v r
  IsBelow-replace n true m true l r h = ground arith
  IsBelow-replace n true m false l r h = ground arith
  IsBelow-replace n false m true l r h = ground arith
  IsBelow-replace n false m false l r h = ground arith

  replace-IsBest :
      (seen : List RobotsRule) (n : ℕ) (a : Bool) (r : RobotsRule)
      → rule_matches r path ≡ true
      → Replaces n a r.specificity
      → IsBest seen (some (n, a))
      → IsBest (r ∷ seen) (some (r.specificity, r.allow))
  replace-IsBest seen n a r e l h = (
    inl (e, refl, refl),
    (IsBelow-self r.allow r refl, All-imp (IsBelow-replace n a r.specificity r.allow l) seen h.1),
  )

  prefer-IsBest :
      (seen : List RobotsRule) (best : BestRule) (r : RobotsRule)
      → rule_matches r path ≡ true
      → IsBest seen best
      → IsBest (r ∷ seen) (prefer best r)
  prefer-IsBest seen none r e h = (
    inl (e, refl, refl),
    (IsBelow-self r.allow r refl, All-imp (IsBelow-unmatched r.specificity r.allow) seen h),
  )
  prefer-IsBest seen (some (n, true)) r e h =
      elim (Bool-cases (ltb r.specificity n || (n == r.specificity && true))) [
        | inl y ↦ rw y (inr h.0, (inr (ground arith), h.1))
        | inr z ↦ rw z (replace-IsBest seen n true r e (ground arith) h)
      ]
  prefer-IsBest seen (some (n, false)) r e h =
      elim (Bool-cases (ltb r.specificity n || (n == r.specificity && false))) [
        | inl y ↦ rw y (inr h.0, (inr (inl (ground arith)), h.1))
        | inr z ↦ rw z (replace-IsBest seen n false r e (ground arith) h)
      ]

  consider-IsBest :
      (seen : List RobotsRule) (best : BestRule) (r : RobotsRule)
      → IsBest seen best
      → IsBest (r ∷ seen) (consider path best r)
  consider-IsBest seen best r h = elim (Bool-cases (rule_matches r path)) [
    | inl y ↦ rw y (prefer-IsBest seen best r y h)
    | inr n ↦ rw n (IsBest-skip seen best r n h)
  ]

-- The rules in the order in which the loop has seen them, the last one first.
abbrev pub onto : List RobotsRule → List RobotsRule → List RobotsRule
onto [] seen = seen
onto (r ∷ rs) seen = onto rs (r ∷ seen)

abbrev pub onto_groups : List RobotsGroup → List RobotsRule → List RobotsRule
onto_groups [] seen = seen
onto_groups (g ∷ gs) seen = onto_groups gs (onto g.rules seen)

best_of_rules-IsBest :
    (path : Text) (seen : List RobotsRule) (best : BestRule) (rs : List RobotsRule)
    → IsBest path seen best
    → IsBest path (onto rs seen) (best_of_rules path best rs)
unfolding best_of_rules
best_of_rules-IsBest path seen best [] h = h
best_of_rules-IsBest path seen best (r ∷ rs) h =
    best_of_rules-IsBest path (r ∷ seen) (consider path best r) rs
      (consider-IsBest path seen best r h)

pub over_groups-IsBest :
    (path : Text) (seen : List RobotsRule) (best : BestRule) (d : Option Duration)
    (gs : List RobotsGroup)
    → IsBest path seen best
    → IsBest path (onto_groups gs seen) (over_groups path best d gs).0
unfolding over_groups
over_groups-IsBest path seen best d [] h = h
over_groups-IsBest path seen best d (g ∷ gs) h =
    over_groups-IsBest path (onto g.rules seen) (best_of_rules path best g.rules)
      (slowest d g.crawl_delays) gs (best_of_rules-IsBest path seen best g.rules h)
