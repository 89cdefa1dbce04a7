-- ===== src/Robots/Match/Glob.antt =====
-- About `rule_matches` of crates/erabi-crawler/src/robots.rs and the pattern language of robots
-- files: a star stands for any text, every other character for itself, and the pattern has to
-- cover a prefix of the request path, or the whole path if it is anchored at its end.
use erabi.Base.{
  ℕ, ◌≡◌, refl, ap, subst, ◌∙◌, ◌≢◌, ◌↔◌, inl, inr, Bool, true, List, [], ◌∷◌, ◌++◌, arith,
  Bool-cases, Option-cases, ◌==◌, ==→eq,
}
use erabi.Text.{Text, split, strip_prefix}
use erabi.Robots.{RobotsRule}
use erabi.Robots.Match.{match_first, rule_matches}
use erabi.Robots.Match.Greedy.{
  IsRest, Occurs, strip_prefix_iff, strip_prefix-append, match_parts_sound, match_parts_complete,
  Occurs-append,
}

pub data Glob (end_anchored : Bool) : Text → Text → Type 0 where
  stop : {s : Text} → IsRest end_anchored s → Glob end_anchored [] s
  skip : {c : ℕ} {p s : Text} → c ≡ b'*' → Glob end_anchored p s → Glob end_anchored (c ∷ p) s
  take :
      {c d : ℕ} {p s : Text}
      → c ≡ b'*'
      → Glob end_anchored (c ∷ p) s
      → Glob end_anchored (c ∷ p) (d ∷ s)
  literal :
      {c d : ℕ} {p s : Text}
      → c ≢ b'*'
      → c ≡ d
      → Glob end_anchored p s
      → Glob end_anchored (c ∷ p) (d ∷ s)

-- The first part is a prefix, and the others occur behind it.
abbrev Fits : Bool → List Text → Text → Type 0
Fits e [] s = ⊥
Fits e (f ∷ ps) s = (r : Text) × (s ≡ f ++ r) × Occurs e ps r

match_first_iff : (e : Bool) (ps : List Text) (s : Text) → (match_first e ps s ≡ true) ↔ Fits e ps s
match_first_iff e [] s = (λ h. cc, λ h. absurd h)
match_first_iff e (f ∷ ps) s = (
  λ h. elim (Option-cases (strip_prefix f s)) [
    | inl n ↦ absurd (ground (arith, n, h))
    | inr (r, k) ↦
        (r, (strip_prefix_iff f s r).0 k, match_parts_sound e ps r (ground (arith, k, h)))
  ],
  λ (r, same, rest).
      rw same (rw (strip_prefix-append f r, match_first) (match_parts_complete e ps r rest)),
)

split-star : (c : ℕ) (p : Text) → c ≡ b'*' → split b'*' (c ∷ p) ≡ [] ∷ split b'*' p
unfolding split
split-star c p e = ground arith

split-literal :
    (c : ℕ) (p f : Text) (ps : List Text)
    → c ≢ b'*'
    → split b'*' p ≡ f ∷ ps
    → split b'*' (c ∷ p) ≡ (c ∷ f) ∷ ps
unfolding split
split-literal c p f ps n e = ground arith

split-nil : split b'*' [] ≡ [] ∷ []
unfolding split
split-nil = refl

split-cons : (p : Text) → (f : Text) × (ps : List Text) × (split b'*' p ≡ f ∷ ps)
split-cons [] = ([], [], split-nil)
split-cons (c ∷ p) = elim (Bool-cases (c == b'*')) [
  | inl y ↦ ([], split b'*' p, split-star c p (==→eq c b'*' y))
  | inr n ↦ let (f, ps, e) = split-cons p in (c ∷ f, ps, split-literal c p f ps (ground arith) e)
]

-- Behind a star the parts may start anywhere.
Fits-star : (e : Bool) (qs : List Text) (u v : Text) → Fits e qs v → Fits e ([] ∷ qs) (u ++ v)
Fits-star e [] u v h = absurd h
Fits-star e (f ∷ ps) u v (r, same, rest) = (u ++ v, refl, (u, r, ap (λ t. u ++ t) same, rest))

Fits-later :
    (e : Bool) (qs : List Text) (d : ℕ) (s : Text)
    → qs ≢ []
    → Fits e ([] ∷ qs) s
    → Fits e ([] ∷ qs) (d ∷ s)
Fits-later e [] d s n h = absurd (n refl)
Fits-later e (q ∷ qs) d s n (r, same, rest) =
    (d ∷ s, refl, rw same (Occurs-append e q qs (d ∷ []) r rest))

Fits-from :
    (e : Bool) (qs : List Text) (s : Text)
    → qs ≢ []
    → Fits e ([] ∷ qs) s
    → (u : Text) × (v : Text) × (s ≡ u ++ v) × Fits e qs v
Fits-from e [] s n h = absurd (n refl)
Fits-from e (f ∷ ps) s n (r, same, (u, v, cut, rest)) = (u, f ++ v, same ∙ cut, (v, refl, rest))

split-ne-nil : (p : Text) → split b'*' p ≢ []
split-ne-nil p h = let (f, ps, e) = split-cons p in cc

Fits-literal :
    (e : Bool) (c d : ℕ) (p s : Text)
    → c ≢ b'*'
    → c ≡ d
    → Fits e (split b'*' p) s
    → Fits e (split b'*' (c ∷ p)) (d ∷ s)
Fits-literal e c d p s n same h =
    let (f, ps, k) = split-cons p in
    let (r, cut, rest) = subst (λ qs. Fits e qs s) k h in
    rw (split-literal c p f ps n k) (r, cc, rest)

-- A pattern that fits a text has parts that fit it.
Glob-Fits : (e : Bool) {p s : Text} → Glob e p s → Fits e (split b'*' p) s
Glob-Fits e (stop {s} r) = rw split-nil (s, refl, r)
Glob-Fits e (skip {c} {p} {s} k g) =
    rw (split-star c p k) (Fits-star e (split b'*' p) [] s (Glob-Fits e g))
Glob-Fits e (take {c} {d} {p} {s} k g) = rw (split-star c p k) (
    Fits-later e (split b'*' p) d s (split-ne-nil p)
      (subst (λ qs. Fits e qs s) (split-star c p k) (Glob-Fits e g)))
Glob-Fits e (literal {c} {d} {p} {s} n k g) = Fits-literal e c d p s n k (Glob-Fits e g)

Glob-star : (e : Bool) (c : ℕ) (p u v : Text) → c ≡ b'*' → Glob e p v → Glob e (c ∷ p) (u ++ v)
Glob-star e c p [] v k g = skip k g
Glob-star e c p (d ∷ u) v k g = take k (Glob-star e c p u v k g)

Fits-Glob : (e : Bool) (p s : Text) → Fits e (split b'*' p) s → Glob e p s
Fits-Glob e [] s h =
    let (r, same, rest) = subst (λ qs. Fits e qs s) split-nil h in stop (rw same rest)
Fits-Glob e (c ∷ p) s h = elim (Bool-cases (c == b'*')) [
  | inl y ↦
      let k = ==→eq c b'*' y in
      let (u, v, same, rest) =
        Fits-from e (split b'*' p) s (split-ne-nil p)
          (subst (λ qs. Fits e qs s) (split-star c p k) h) in
      rw same (Glob-star e c p u v k (Fits-Glob e p v rest))
  | inr n ↦
      let other : c ≢ b'*' = ground arith in
      let (f, ps, k) = split-cons p in
      let (r, same, rest) = subst (λ qs. Fits e qs s) (split-literal c p f ps other k) h in
      rw same (literal other refl (Fits-Glob e p (f ++ r) (rw k (r, refl, rest))))
]

-- A rule matches a request path exactly if its pattern does by the meaning of robots patterns, so
-- the greedy search over the parts between stars neither misses a match nor makes one up.
pub rule_matches_iff :
    (rule : RobotsRule) (path : Text)
    → (rule_matches rule path ≡ true) ↔ Glob rule.end_anchored rule.pattern path
unfolding rule_matches
rule_matches_iff rule path =
    let parts = split b'*' rule.pattern in
    (
      λ h.
          Fits-Glob rule.end_anchored rule.pattern path
            ((match_first_iff rule.end_anchored parts path).0 h),
      λ g. (match_first_iff rule.end_anchored parts path).1 (Glob-Fits rule.end_anchored g),
    )
