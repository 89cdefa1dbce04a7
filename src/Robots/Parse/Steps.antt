-- ===== src/Robots/Parse/Steps.antt =====
-- About the handlers of the directives in crates/erabi-crawler/src/robots.rs, and the groups that
-- they build.
use erabi.Base.{
  ◌≤◌, ◌≡◌, refl, ◌≢◌, inl, inr, Bool, true, false, List, [], ◌∷◌, ◌++◌, Option, none, some, Result,
  ok, err, arith, All, Bool-cases, is_empty, reject, ◌>>=◌, ◌>>◌,
}
use erabi.Text.{Text, to_ascii_lowercase}
use erabi.Pacing.{Duration, max_pacing_delay}
use erabi.Robots.{RobotsRule, RobotsGroup, RobotsInvalidPolicy}
use erabi.Robots.Parse.{
  Float, bytes_but_star, end_anchor, make_rule, Parser, with_group, close_group, or_default,
  push_agent, reopen, keep_rule, push_rule, add_rule, on_user_agent, on_rule, parse_crawl_delay,
  on_crawl_delay, directive,
}

-- A rule has a pattern, and its specificity counts the bytes of that other than stars.
pub record IsRule (r : RobotsRule) : Type 0 where
  pub pattern : r.pattern ≢ []
  pub counted : r.specificity ≡ bytes_but_star r.pattern

-- A group names an agent, its rules are as above, and its delays are at most five minutes.
pub record IsGroup (g : RobotsGroup) : Type 0 where
  pub agents : g.user_agents ≢ []
  pub rules : All IsRule g.rules
  pub delays : All (λ d. d ≤ max_pacing_delay) g.crawl_delays

abbrev pub IsCurrent : Option RobotsGroup → Type 0
IsCurrent none = Unit
IsCurrent (some g) = IsGroup g

pub record IsParser (s : Parser) : Type 0 where
  pub groups : All IsGroup s.groups
  pub current : IsCurrent s.current

All-snoc {ℓ κ} :
    {A : Type ℓ} (P : A → Type κ) (xs : List A) (a : A) → All P xs → P a → All P (xs ++ a ∷ [])
All-snoc P [] a h p = (p, tt)
All-snoc P (x ∷ xs) a h p = (h.0, All-snoc P xs a h.1 p)

snoc-ne-nil {ℓ} : {A : Type ℓ} (xs : List A) (a : A) → xs ++ a ∷ [] ≢ []
snoc-ne-nil [] a h = cc
snoc-ne-nil (x ∷ xs) a h = cc

pub with_group-All :
    (gs : List RobotsGroup) (c : Option RobotsGroup)
    → All IsGroup gs
    → IsCurrent c
    → All IsGroup (with_group gs c)
with_group-All gs none h k = h
with_group-All gs (some g) h k = elim (Bool-cases (is_empty g.user_agents)) [
  | inl y ↦ rw y h
  | inr n ↦ rw n (All-snoc IsGroup gs g h k)
]

pub close_group-IsParser : (s : Parser) → IsParser s → IsParser (close_group s)
close_group-IsParser s h = record {
  groups = with_group-All s.groups s.current h.groups h.current;
  current = tt;
}

agent-IsGroup :
    (c : Option RobotsGroup) (v : Text)
    → IsCurrent c
    → let g = or_default c in IsGroup (record g { user_agents = g.user_agents ++ v ∷ [] })
agent-IsGroup none v h = record { agents = snoc-ne-nil [] v; rules = tt; delays = tt }
agent-IsGroup (some g) v h = record {
  agents = snoc-ne-nil g.user_agents v;
  rules = h.rules;
  delays = h.delays;
}

push_agent-IsParser : (s : Parser) (v : Text) → IsParser s → IsParser (push_agent s v)
push_agent-IsParser s v h = record {
  groups = h.groups;
  current = agent-IsGroup s.current (to_ascii_lowercase v) h.current;
}

-- A step that succeeds gives a parser as above.
abbrev pub Ensures : Result Parser RobotsInvalidPolicy → Type 0
Ensures (ok t) = IsParser t
Ensures (err e) = Unit

Ensures-reject :
    (b : Bool) (e : RobotsInvalidPolicy) (k : Result Parser RobotsInvalidPolicy)
    → Ensures k
    → Ensures (reject b e >> k)
Ensures-reject true e k h = tt
Ensures-reject false e k h = h

pub Ensures-bind :
    (m : Result Parser RobotsInvalidPolicy) (k : Parser → Result Parser RobotsInvalidPolicy)
    → Ensures m
    → ((t : Parser) → IsParser t → Ensures (k t))
    → Ensures (m >>= k)
Ensures-bind (ok t) k h f = f t h
Ensures-bind (err e) k h f = tt

reopen-IsParser : (s : Parser) → IsParser s → IsParser (reopen s)
reopen-IsParser s h = elim (Bool-cases s.group_has_policy_directive) [
  | inl y ↦ rw (y, reopen) (close_group-IsParser s h)
  | inr n ↦ simp (n, reopen) h
]

on_user_agent-Ensures : (s : Parser) (v : Text) → IsParser s → Ensures (on_user_agent s v)
unfolding on_user_agent
on_user_agent-Ensures s v h =
    Ensures-reject _ _ (ok (push_agent (reopen s) v))
      (push_agent-IsParser (reopen s) v (reopen-IsParser s h))

mark-IsParser :
    (s : Parser) → IsParser s → IsParser (record s { group_has_policy_directive = true })
mark-IsParser s h = record { groups = h.groups; current = h.current }

make_rule-IsRule : (allow : Bool) (p : Text × Bool) → p.0 ≢ [] → IsRule (make_rule allow p)
make_rule-IsRule allow (pattern, anchored) n = record { pattern = n; counted = refl }

push_rule-IsParser :
    (s : Parser) (g : RobotsGroup) (r : RobotsRule)
    → IsParser s
    → IsGroup g
    → IsRule r
    → IsParser (push_rule s g r)
push_rule-IsParser s g r h k q = record {
  groups = h.groups;
  current = record {
    agents = k.agents;
    rules = All-snoc IsRule g.rules r k.rules q;
    delays = k.delays;
  };
}

ne_nil : (t : Text) → is_empty t ≡ false → t ≢ []
ne_nil [] h e = cc
ne_nil (c ∷ t) h e = cc

keep_rule-IsParser :
    (s : Parser) (g : RobotsGroup) (allow : Bool) (p : Text × Bool)
    → IsParser s
    → IsGroup g
    → IsParser (keep_rule s g allow p)
keep_rule-IsParser s g allow p h k = elim (Bool-cases (is_empty p.0)) [
  | inl y ↦ rw (y, keep_rule) (mark-IsParser s h)
  | inr n ↦
      rw (n, keep_rule)
        (push_rule-IsParser s g (make_rule allow p) h k (make_rule-IsRule allow p (ne_nil p.0 n)))
]

add_rule-Ensures :
    (s : Parser) (g : RobotsGroup) (allow : Bool) (v : Text)
    → IsParser s
    → IsGroup g
    → Ensures (add_rule s g allow v)
add_rule-Ensures s g allow v h k = elim (Bool-cases (is_empty v)) [
  | inl y ↦ rw y (mark-IsParser s h)
  | inr n ↦ rw n (
      Ensures-reject _ _ (ok (keep_rule s g allow (end_anchor v)))
        (keep_rule-IsParser s g allow (end_anchor v) h k))
]

on_rule-Ensures :
    (s : Parser) (c : Option RobotsGroup) (allow : Bool) (v : Text)
    → IsParser s
    → IsCurrent c
    → Ensures (on_rule s c allow v)
unfolding on_rule
on_rule-Ensures s none allow v h k = tt
on_rule-Ensures s (some g) allow v h k = add_rule-Ensures s g allow v h k

module _ (f : Float) where
  parse_crawl_delay-le :
      (v : Text) (d : Duration) → parse_crawl_delay f v ≡ ok d → d ≤ max_pacing_delay
  unfolding parse_crawl_delay
  parse_crawl_delay-le v d e = ground arith

  on_crawl_delay-Ensures :
      (s : Parser) (c : Option RobotsGroup) (v : Text)
      → IsParser s
      → IsCurrent c
      → Ensures (on_crawl_delay f s c v)
  unfolding on_crawl_delay
  on_crawl_delay-Ensures s none v h k = tt
  on_crawl_delay-Ensures s (some g) v h k = pushed (parse_crawl_delay f v) (parse_crawl_delay-le v)
    where
      pushed :
          (r : Result Duration RobotsInvalidPolicy)
          → ((d : Duration) → r ≡ ok d → d ≤ max_pacing_delay)
          → Ensures (
              r >>= λ delay. ok (record s {
                current = some (record g { crawl_delays = g.crawl_delays ++ delay ∷ [] });
                group_has_policy_directive = true;
              }))
      pushed (err e) l = tt
      pushed (ok d) l = record {
        groups = h.groups;
        current = record {
          agents = k.agents;
          rules = k.rules;
          delays = All-snoc (λ x. x ≤ max_pacing_delay) g.crawl_delays d k.delays (l d refl);
        };
      }

  pub directive-Ensures : (s : Parser) (n v : Text) → IsParser s → Ensures (directive f s n v)
  unfolding directive
  directive-Ensures s n v h = ground (
    arith,
    on_user_agent-Ensures s v h,
    on_rule-Ensures s s.current true v h h.current,
    on_rule-Ensures s s.current false v h h.current,
    on_crawl_delay-Ensures s s.current v h h.current,
  )
