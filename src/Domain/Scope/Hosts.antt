-- ===== src/Domain/Scope/Hosts.antt =====
-- The tests on hosts of crates/erabi-domain/src/domain_scope.rs.
use erabi.Base.{
  ℕ, ◌≡◌, refl, sym, ap, ◌∙◌, ◌↔◌, ◌⊎◌, inl, inr, Bool, true, false, List, [], ◌∷◌, ◌++◌, some,
  arith, any, length, length-append, Bool-cases, Option-cases, ==→eq, All, Any, Result, ok, err,
  ◌>>◌,
}
use erabi.Domain.Errors.{ProductError}
use erabi.Text.{Text, text_eq}
use erabi.Text.Search.{text_eq_iff}
use erabi.Domain.Scope.{
  strip_suffix, ends_with_dot, host_is_within_root, DomainScopeHostRule, exact, subdomains,
  rule_matches, contains_host,
}

-- The host is the root, or ends with a dot and the root.
abbrev pub Within : Text → Text → Type 0
Within host root = (host ≡ root) ⊎ ((labels : Text) × (host ≡ labels ++ (b'.' ∷ root)))

-- What a rule is about.
abbrev pub Covers : DomainScopeHostRule → Text → Type 0
Covers (exact host) candidate = candidate ≡ host
Covers (subdomains host) candidate = Within candidate host

strip_suffix-ok : (x s r : Text) → strip_suffix x s ≡ some r → s ≡ r ++ x
unfolding strip_suffix
strip_suffix-ok x [] r h = ground (arith, h, text_eq_iff x [])
strip_suffix-ok x (c ∷ s) r h = elim (Bool-cases (text_eq x (c ∷ s))) [
  | inl y ↦ ground (arith, h, y, (text_eq_iff x (c ∷ s)).0 y)
  | inr n ↦ elim (Option-cases (strip_suffix x s)) [
    | inl nothing ↦ absurd (ground (arith, h, n, nothing))
    | inr (before, rest) ↦
        let same : r ≡ c ∷ before = ground (arith, h, n, rest) in
        rw (same, strip_suffix-ok x s before rest) refl
  ]
]

-- A text is no longer text followed by itself.
not_longer : (x r : Text) (c : ℕ) → text_eq x (c ∷ (r ++ x)) ≡ false
not_longer x r c = elim (Bool-cases (text_eq x (c ∷ (r ++ x)))) [
  | inr n ↦ n
  | inl y ↦
      let same : x ≡ c ∷ (r ++ x) = (text_eq_iff x (c ∷ (r ++ x))).0 y in
      let lengths : length x ≡ length (c ∷ (r ++ x)) = ap length same in
      absurd (omega (arith, lengths, length-append r x))
]

strip_suffix-append : (x r : Text) → strip_suffix x (r ++ x) ≡ some r
unfolding strip_suffix text_eq
strip_suffix-append [] [] = refl
strip_suffix-append (c ∷ x) [] = rw ((text_eq_iff (c ∷ x) (c ∷ x)).1 refl) refl
strip_suffix-append x (c ∷ r) = rw (not_longer x r c, strip_suffix-append x r) refl

ends_with_dot-ok :
    (r : Text) → ends_with_dot r ≡ true → (labels : Text) × (r ≡ labels ++ (b'.' ∷ []))
unfolding ends_with_dot
ends_with_dot-ok [] h = cc
ends_with_dot-ok (c ∷ []) h = ([], ap (λ x. x ∷ []) (==→eq c b'.' h))
ends_with_dot-ok (c ∷ d ∷ r) h =
    let (labels, e) = ends_with_dot-ok (d ∷ r) h in (c ∷ labels, ap (λ x. c ∷ x) e)

ends_with_dot-append : (labels : Text) → ends_with_dot (labels ++ (b'.' ∷ [])) ≡ true
unfolding ends_with_dot
ends_with_dot-append [] = refl
ends_with_dot-append (c ∷ []) = refl
ends_with_dot-append (c ∷ d ∷ labels) = ends_with_dot-append (d ∷ labels)

append_dot : (labels root : Text) → (labels ++ (b'.' ∷ [])) ++ root ≡ labels ++ (b'.' ∷ root)
append_dot [] root = refl
append_dot (c ∷ labels) root = ap (λ x. c ∷ x) (append_dot labels root)

-- A host is within a root exactly if it is the root or some labels, a dot, and the root: a host
-- that only ends with the same letters is not.
pub host_is_within_root_iff :
    (host root : Text) → (host_is_within_root host root ≡ true) ↔ Within host root
unfolding host_is_within_root
host_is_within_root_iff host root = (
  λ h. elim (Bool-cases (text_eq host root)) [
    | inl y ↦ inl ((text_eq_iff host root).0 y)
    | inr n ↦ elim (Option-cases (strip_suffix root host)) [
      | inl nothing ↦ absurd (ground (arith, h, n, nothing))
      | inr (rest, stripped) ↦
          let dot : ends_with_dot rest ≡ true = ground (arith, h, n, stripped) in
          let (labels, e) = ends_with_dot-ok rest dot in
          inr (
            labels,
            strip_suffix-ok root host rest stripped
                ∙ ap (λ x. x ++ root) e
                ∙ append_dot labels root,
          )
    ]
  ],
  λ w. elim w [
    | inl same ↦ ground (arith, (text_eq_iff host root).1 same)
    | inr (labels, e) ↦
        let split : host ≡ (labels ++ (b'.' ∷ [])) ++ root = e ∙ sym (append_dot labels root) in
        let stripped : strip_suffix root host ≡ some (labels ++ (b'.' ∷ [])) =
          ap (λ x. strip_suffix root x) split ∙ strip_suffix-append root (labels ++ (b'.' ∷ [])) in
        ground (arith, stripped, ends_with_dot-append labels)
  ],
)

pub rule_matches_iff_Covers :
    (rule : DomainScopeHostRule) (host : Text) → (rule_matches rule host ≡ true) ↔ Covers rule host
unfolding rule_matches
rule_matches_iff_Covers (exact h) host = text_eq_iff host h
rule_matches_iff_Covers (subdomains h) host =
    unfold host_is_within_root in host_is_within_root_iff host h

module _ {A : Type 0} (test : A → Bool) (P : A → Type 0)
    (decides : (x : A) → (test x ≡ true) ↔ P x) where
  pub any_iff : (xs : List A) → (any test xs ≡ true) ↔ Any P xs
  any_iff [] = (λ h. absurd (cc), λ h. absurd h)
  any_iff (x ∷ xs) = (
    λ h. elim (Bool-cases (test x)) [
      | inl y ↦ inl ((decides x).0 y)
      | inr n ↦ inr ((any_iff xs).0 (ground (arith, h, n)))
    ],
    λ s. elim s [ inl p ↦ rw ((decides x).1 p) refl | inr ps ↦ ground (arith, (any_iff xs).1 ps) ],
  )

  pub any-false_iff : (xs : List A) → (any test xs ≡ false) ↔ All (λ x. ¬ (P x)) xs
  any-false_iff [] = (λ h. tt, λ h. refl)
  any-false_iff (x ∷ xs) = (
    λ h. (
      λ p. absurd (ground (arith, h, (decides x).1 p)),
      (any-false_iff xs).0 (ground (arith, h)),
    ),
    λ all. elim (Bool-cases (test x)) [
      | inl y ↦ absurd (all.0 ((decides x).0 y))
      | inr n ↦ rw n ((any-false_iff xs).1 all.1)
    ],
  )

pub contains_host_iff :
    (host : Text) (hosts : List Text)
    → (contains_host host hosts ≡ true) ↔ Any (λ h. h ≡ host) hosts
contains_host_iff host hosts =
    any_iff (λ h. text_eq h host) (λ h. h ≡ host) (λ h. text_eq_iff h host) hosts

-- What a check that passed leaves.
pub check-ok :
    {B : Type 0} (first : Result (Unit {0}) ProductError) (rest : Result B ProductError) {b : B}
    → (first >> rest) ≡ ok b
    → (first ≡ ok tt) × (rest ≡ ok b)
check-ok (err e) rest h = cc
check-ok (ok u) rest h = (refl, h)
