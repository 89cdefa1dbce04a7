-- ===== src/Domain/Scope/Decision.antt =====
-- What the classification of crates/erabi-domain/src/domain_scope.rs lets into a crawl.
use erabi.Base.{
  ◌≡◌, refl, sym, ap, ◌∙◌, subst, ◌↔◌, ◌⊎◌, inl, inr, Bool, true, false, ◌&&◌, List, [], ◌∷◌,
  Result, ok, >>=-eq-ok, arith, any, Bool-cases, All, Any,
}
use erabi.Domain.Errors.{ProductError}
use erabi.Text.{Text, text_eq}
use erabi.Text.Search.{text_eq_iff}
use erabi.Url.{Url}
use erabi.Domain.Scope.{
  HostLibrary, DomainScopeHostRule, DomainScopeKind, seed_domains_only, same_registrable_domain,
  explicit_allowlist, custom, DomainScopePolicy, Seed, DomainScopeClassification, in_scope,
  external, blocked, contains_host, host_is_within_root, rule_matches, enabled_seeds,
  validate_crawl_url, normalized_url_host, seed_url_host, collect_hosts, decide_seeds,
  decide_registrable, decide_allowlist, decide_custom, validate, registrable_domain, require_seeds,
  classify_host, classify,
}
use erabi.Domain.Scope.Hosts.{
  Within, Covers, host_is_within_root_iff, rule_matches_iff_Covers, any_iff, any-false_iff,
  contains_host_iff, check-ok,
}

abbrev pub is_in_scope : DomainScopeClassification → Bool
is_in_scope (in_scope _ _) = true
is_in_scope (external _ _) = false
is_in_scope (blocked _ _) = false

-- What a policy lets in, given the hosts of the enabled seeds.
abbrev pub Includes : HostLibrary → DomainScopeKind → List Text → Text → Type 0
Includes lib seed_domains_only seeds host = Any (λ h. h ≡ host) seeds
Includes lib (same_registrable_domain explicit) seeds host =
    (Any (λ h. h ≡ host) explicit
      × Any (λ s. (root : Text) × (registrable_domain lib s ≡ ok root) × Within host root) seeds)
    ⊎ ((registrable_domain lib host ≡ ok host)
        × Any (λ s. registrable_domain lib s ≡ ok host) seeds)
    ⊎ Any (λ h. h ≡ host) seeds
Includes lib (explicit_allowlist hosts) seeds host = Any (λ h. h ≡ host) hosts
Includes lib (custom allow block) seeds host =
    All (λ rule. ¬ (Covers rule host)) block × Any (λ rule. Covers rule host) allow

decide_seeds_iff :
    (seeds : List Text) (host : Text)
    → (is_in_scope (decide_seeds seeds host) ≡ true) ↔ Any (λ h. h ≡ host) seeds
unfolding decide_seeds
decide_seeds_iff seeds host = ground (arith, contains_host_iff host seeds)

decide_allowlist_iff :
    (hosts : List Text) (host : Text)
    → (is_in_scope (decide_allowlist hosts host) ≡ true) ↔ Any (λ h. h ≡ host) hosts
unfolding decide_allowlist
decide_allowlist_iff hosts host = ground (arith, contains_host_iff host hosts)

decide_custom_iff :
    (allow block : List DomainScopeHostRule) (host : Text)
    → (is_in_scope (decide_custom allow block host) ≡ true)
      ↔ (All (λ rule. ¬ (Covers rule host)) block × Any (λ rule. Covers rule host) allow)
unfolding decide_custom
decide_custom_iff allow block host =
    let test = λ (rule : DomainScopeHostRule). rule_matches rule host in
    let decides = λ (rule : DomainScopeHostRule). rule_matches_iff_Covers rule host in
    let stops = any-false_iff test (λ rule. Covers rule host) decides block in
    let lets = any_iff test (λ rule. Covers rule host) decides allow in
    (
      λ h. elim (Bool-cases (any test block)) [
        | inl y ↦ absurd (ground (arith, h, y))
        | inr n ↦ (stops.0 n, lets.0 (ground (arith, h, n)))
      ],
      λ (p, q). rw (stops.1 p, lets.1 q) refl,
    )

Any-map :
    {A : Type 0} (P Q : A → Type 0) (xs : List A) → ((x : A) → P x → Q x) → Any P xs → Any Q xs
Any-map P Q [] f h = absurd h
Any-map P Q (x ∷ xs) f (inl p) = inl (f x p)
Any-map P Q (x ∷ xs) f (inr ps) = inr (Any-map P Q xs f ps)

-- What holds of a collected value holds of what was read of an item.
collect_hosts_iff :
    {A : Type 0} (read : A → Result Text ProductError) (Q : Text → Type 0) (xs : List A)
    (hosts : List Text)
    → collect_hosts read xs ≡ ok hosts
    → Any Q hosts ↔ Any (λ x. (host : Text) × (read x ≡ ok host) × Q host) xs
unfolding collect_hosts
collect_hosts_iff read Q [] hosts h =
    let same : hosts ≡ [] = ground (arith, h) in (λ q. absurd (subst (Any Q) same q), λ q. absurd q)
collect_hosts_iff read Q (x ∷ xs) hosts h =
    let (host, first, h1) = >>=-eq-ok (read x) _ h in
    let (rest, others, h2) = >>=-eq-ok (collect_hosts read xs) _ h1 in
    let same : hosts ≡ host ∷ rest = ground (arith, h2) in
    let below = collect_hosts_iff read Q xs rest others in
    (
      λ q. elim (subst (Any Q) same q) [
        | inl here ↦ inl (host, first, here)
        | inr later ↦ inr (below.0 later)
      ],
      λ q. subst (Any Q) (sym same) (elim q [
        | inl (y, read_y, holds) ↦
            let e : y ≡ host = ground (arith, first, read_y) in inl (subst Q e holds)
        | inr later ↦ inr (below.1 later)
      ]),
    )

module _ (lib : HostLibrary) where
  own_root_iff :
      (seeds roots : List Text) (root host : Text)
      → collect_hosts (registrable_domain lib) seeds ≡ ok roots
      → registrable_domain lib host ≡ ok root
      → ((contains_host root roots && text_eq host root) ≡ true) ↔ (
          (registrable_domain lib host ≡ ok host)
          × Any (λ s. registrable_domain lib s ≡ ok host) seeds)
  own_root_iff seeds roots root host collected own =
      let among =
        collect_hosts_iff (registrable_domain lib) (λ h. h ≡ root) seeds roots collected in
      (
        λ h.
            let here : text_eq host root ≡ true = ground (arith, h) in
            let there : contains_host root roots ≡ true = ground (arith, h) in
            let same : host ≡ root = (text_eq_iff host root).0 here in
            (
              own ∙ ap ok (sym same),
              Any-map _ _ seeds (λ s (y, read_y, e). read_y ∙ ap ok (e ∙ sym same))
                  (among.0 ((contains_host_iff root roots).0 there)),
            ),
        λ (mine, theirs).
            let same : host ≡ root = ground (arith, own, mine) in
            let there =
              (contains_host_iff root roots).1
                (among.1 (Any-map _ _ seeds (λ s r. (host, r, same)) theirs)) in
            rw (there, (text_eq_iff host root).1 same) refl,
      )

  decide_registrable_iff :
      (explicit seeds roots : List Text) (root host : Text)
      → collect_hosts (registrable_domain lib) seeds ≡ ok roots
      → registrable_domain lib host ≡ ok root
      → (is_in_scope (decide_registrable explicit seeds roots root host) ≡ true)
        ↔ Includes lib (same_registrable_domain explicit) seeds host
  unfolding decide_registrable
  decide_registrable_iff explicit seeds roots root host collected own =
      let within =
        any_iff (host_is_within_root host) (λ r. Within host r)
          (λ r. host_is_within_root_iff host r) roots in
      let among =
        collect_hosts_iff (registrable_domain lib) (λ r. Within host r) seeds roots collected in
      ground (
        arith,
        contains_host_iff host explicit,
        within,
        among,
        own_root_iff seeds roots root host collected own,
        contains_host_iff host seeds,
      )

  classify_host_iff :
      (kind : DomainScopeKind) (seeds : List Text) (host : Text) (c : DomainScopeClassification)
      → classify_host lib kind seeds host ≡ ok c
      → (is_in_scope c ≡ true) ↔ Includes lib kind seeds host
  unfolding classify_host
  classify_host_iff seed_domains_only seeds host c h =
      let (_, h1) = check-ok (require_seeds lib seeds) _ h in
      let same : c ≡ decide_seeds seeds host = ground (arith, h1) in
      rw same (decide_seeds_iff seeds host)
  classify_host_iff (same_registrable_domain explicit) seeds host c h =
      let (_, h1) = check-ok (require_seeds lib seeds) _ h in
      let (roots, collected, h2) = >>=-eq-ok (collect_hosts (registrable_domain lib) seeds) _ h1 in
      let (root, own, h3) = >>=-eq-ok (registrable_domain lib host) _ h2 in
      let same : c ≡ decide_registrable explicit seeds roots root host = ground (arith, h3) in
      rw same (decide_registrable_iff explicit seeds roots root host collected own)
  classify_host_iff (explicit_allowlist hosts) seeds host c h =
      let same : c ≡ decide_allowlist hosts host = ground (arith, h) in
      rw same (decide_allowlist_iff hosts host)
  classify_host_iff (custom allow block) seeds host c h =
      let same : c ≡ decide_custom allow block host = ground (arith, h) in
      rw same (decide_custom_iff allow block host)

  -- A classification is made only under a valid policy, for a URL that may be crawled, with the
  -- hosts of all enabled seeds known. It says that the URL is in scope exactly if its host is a
  -- seed's; is a selected host within a seed's registrable domain, or such a domain itself; is on
  -- the allowlist; or, for custom rules, is covered by a rule that allows it and by none that blocks
  -- it, whatever the order of the rules.
  pub classify-is_in_scope_iff :
      (policy : DomainScopePolicy) (candidate : Url) (seeds : List Seed)
      (c : DomainScopeClassification)
      → classify lib policy candidate seeds ≡ ok c
      → (host : Text) × (hosts : List Text) × (validate lib policy ≡ ok tt)
        × (validate_crawl_url candidate ≡ ok tt)
        × (normalized_url_host candidate ≡ ok host)
        × (collect_hosts seed_url_host (enabled_seeds seeds) ≡ ok hosts)
        × ((is_in_scope c ≡ true) ↔ Includes lib policy.policy hosts host)
  unfolding classify
  classify-is_in_scope_iff policy candidate seeds c h =
      let (valid, h1) = check-ok (validate lib policy) _ h in
      let (crawlable, h2) = check-ok (validate_crawl_url candidate) _ h1 in
      let (host, named, h3) = >>=-eq-ok (normalized_url_host candidate) _ h2 in
      let (hosts, collected, h4) =
        >>=-eq-ok (collect_hosts seed_url_host (enabled_seeds seeds)) _ h3 in
      (
        host,
        hosts,
        valid,
        crawlable,
        named,
        collected,
        classify_host_iff policy.policy hosts host c h4,
      )
