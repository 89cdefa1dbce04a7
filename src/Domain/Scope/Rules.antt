-- ===== src/Domain/Scope/Rules.antt =====
-- The host rules of crates/erabi-domain/src/domain_scope.rs.
use mathlib.Core.List.{reverse, reverse-cons, reverse-reverse}
use erabi.Base.{ℕ, ◌≡◌, refl, Bool, true, false, [], ◌∷◌, ◌++◌, ok, >>=-eq-ok, arith, any}
use erabi.Text.{
  Text, trim, trim_start, trim_end, to_ascii_lowercase, ascii_lowercase, is_whitespace,
}
use erabi.Text.Search.{text_eq_iff}
use erabi.Domain.Scope.{
  HostLibrary, DomainScopeHostRule, exact, subdomains, validate_normalized_host,
  normalize_rule_host, new_exact, new_subdomains, validate_rule, rule_host, rule_matches,
}
use erabi.Domain.Scope.Hosts.{check-ok}

any-append :
    (p : ℕ → Bool) (s t : Text) → any p s ≡ false → any p t ≡ false → any p (s ++ t) ≡ false
any-append p [] t h k = k
any-append p (c ∷ s) t h k = ground (arith, h, any-append p s t, k)

any-reverse : (p : ℕ → Bool) (s : Text) → any p s ≡ false → any p (reverse s) ≡ false
any-reverse p [] h = refl
any-reverse p (c ∷ s) h =
    rw (reverse-cons c s)
      (any-append p (reverse s) (c ∷ []) (any-reverse p s (ground (arith, h))) (ground (arith, h)))

trim_start-any : (s : Text) → any is_whitespace s ≡ false → trim_start s ≡ s
unfolding trim_start
trim_start-any [] h = refl
trim_start-any (c ∷ s) h = ground (arith, h)

trim-any : (s : Text) → any is_whitespace s ≡ false → trim s ≡ s
unfolding trim trim_end
trim-any s h =
    rw (trim_start-any s h, trim_start-any (reverse s) (any-reverse is_whitespace s h))
      (reverse-reverse s)

to_ascii_lowercase_twice :
    (s : Text) → to_ascii_lowercase (to_ascii_lowercase s) ≡ to_ascii_lowercase s
unfolding to_ascii_lowercase ascii_lowercase
to_ascii_lowercase_twice [] = refl
to_ascii_lowercase_twice (c ∷ s) = ground (arith, to_ascii_lowercase_twice s)

module _ (lib : HostLibrary) where
  validate_normalized_host-any :
      (host : Text) → validate_normalized_host lib host ≡ ok tt → any is_whitespace host ≡ false
  unfolding validate_normalized_host
  validate_normalized_host-any host h = ground (arith, h)

  -- A host that was normalized is normalized.
  normalize_rule_host_twice :
      (host name : Text)
      → normalize_rule_host lib host ≡ ok name
      → normalize_rule_host lib name ≡ ok name
  unfolding normalize_rule_host
  normalize_rule_host_twice host name h =
      let low = to_ascii_lowercase (trim host) in
      let (valid, h1) = check-ok (validate_normalized_host lib low) (ok low) h in
      let same : name ≡ low = ground (arith, h1) in
      let again : to_ascii_lowercase (trim low) ≡ low =
        rw (trim-any low (validate_normalized_host-any low valid))
          (to_ascii_lowercase_twice (trim host)) in
      rw (same, again, valid) refl

  validate_rule-ok :
      (rule : DomainScopeHostRule)
      → normalize_rule_host lib (rule_host rule) ≡ ok (rule_host rule)
      → validate_rule lib rule ≡ ok tt
  unfolding validate_rule
  validate_rule-ok rule h = rw (h, (text_eq_iff (rule_host rule) (rule_host rule)).1 refl) refl

  -- A rule that a constructor made passes the validation of the policy that it is put into, and
  -- covers its own host.
  pub new_subdomains-validate_rule :
      (host : Text) (one all : DomainScopeHostRule)
      → new_exact lib host ≡ ok one
      → new_subdomains lib host ≡ ok all
      → (validate_rule lib one ≡ ok tt)
        × (validate_rule lib all ≡ ok tt)
        × (rule_matches one (rule_host all) ≡ true)
        × (rule_matches all (rule_host one) ≡ true)
  unfolding new_exact new_subdomains rule_matches
  new_subdomains-validate_rule host one all h k =
      let (name, made, h1) = >>=-eq-ok (normalize_rule_host lib host) _ h in
      let first : one ≡ exact name = ground (arith, h1) in
      let second : all ≡ subdomains name = ground (arith, k, made) in
      let again = normalize_rule_host_twice host name made in
      let same = (text_eq_iff name name).1 refl in
      rw (first, second)
        (
          validate_rule-ok (exact name) again,
          validate_rule-ok (subdomains name) again,
          same,
          rw same refl,
        )
