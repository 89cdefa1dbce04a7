-- ===== src/Tests/Scope.antt =====
-- The scope of crates/erabi-domain/src/domain_scope.rs at concrete inputs.
use erabi.Base.{◌≡◌, refl, ◌↔◌, true, false, none, some, List, [], ◌∷◌, ok}
use erabi.Domain.Scope.{
  HostLibrary, exact, subdomains, rule_matches, new_exact, same_registrable_domain,
  DomainScopePolicy, Seed, in_scope, explicit_subdomain, validate, validate_kind, check_all,
  validate_normalized_host, validate_crawl_url, normalized_url_host, seed_url_host, enabled_seeds,
  collect_hosts, classify_host, decide_registrable, registrable_domain, host_is_within_root,
  strip_suffix, ends_with_dot, classify, new_subdomains, normalize_rule_host, validate_rule,
}
use erabi.Domain.Scope.Decision.{is_in_scope, Includes, classify-is_in_scope_iff}
use erabi.Domain.Scope.Rules.{new_subdomains-validate_rule}
use erabi.Text.{
  Text, text, text_eq, to_ascii_lowercase, ascii_lowercase, is_whitespace, trim, trim_start,
  trim_end,
}
use erabi.Url.{Url}

-- Every host parses as itself, and has one registrable domain.
abbrev hosts_library : HostLibrary
hosts_library = record {
  is_ip = λ _. false;
  parse_https = λ host. some (some host, none);
  psl_domain = λ host. some (text "example.org");
}

abbrev page : Url
page = record {
  scheme = text "https";
  username = [];
  password = none;
  host = none;
  host_str = some (text "Shop.Example.org");
  port_or_known_default = some 443;
  path = text "/";
  query = none;
  fragment = none;
}

abbrev home : Seed
home = record {
  canonical_url = record page { host_str = some (text "example.org") };
  enabled = true;
}

abbrev shop_too : DomainScopePolicy
shop_too = record { version = 1; policy = same_registrable_domain (text "shop.example.org" ∷ []) }

classified :
    classify hosts_library shop_too page (home ∷ [])
    ≡ ok (in_scope (text "shop.example.org") explicit_subdomain)
unfolding classify validate validate_kind check_all validate_normalized_host validate_crawl_url
    normalized_url_host seed_url_host collect_hosts classify_host decide_registrable
    registrable_domain host_is_within_root strip_suffix ends_with_dot to_ascii_lowercase
    ascii_lowercase is_whitespace text_eq
classified = refl

classify-is_in_scope_iff_example :
    (host : Text) × (hosts : List Text) × (validate hosts_library shop_too ≡ ok tt)
    × (validate_crawl_url page ≡ ok tt)
    × (normalized_url_host page ≡ ok host)
    × (collect_hosts seed_url_host (enabled_seeds (home ∷ [])) ≡ ok hosts)
    × ((is_in_scope (in_scope (text "shop.example.org") explicit_subdomain) ≡ true)
        ↔ Includes hosts_library shop_too.policy hosts host)
classify-is_in_scope_iff_example =
    classify-is_in_scope_iff hosts_library shop_too page (home ∷ [])
      (in_scope (text "shop.example.org") explicit_subdomain) classified

made_one : new_exact hosts_library (text " Example.org ") ≡ ok (exact (text "example.org"))
unfolding new_exact normalize_rule_host validate_normalized_host to_ascii_lowercase ascii_lowercase
    is_whitespace trim trim_start trim_end text_eq
made_one = refl

made_all :
    new_subdomains hosts_library (text " Example.org ") ≡ ok (subdomains (text "example.org"))
unfolding new_subdomains normalize_rule_host validate_normalized_host to_ascii_lowercase
    ascii_lowercase is_whitespace trim trim_start trim_end text_eq
made_all = refl

new_subdomains-validate_rule_example :
    (validate_rule hosts_library (exact (text "example.org")) ≡ ok tt)
    × (validate_rule hosts_library (subdomains (text "example.org")) ≡ ok tt)
    × (rule_matches (exact (text "example.org")) (text "example.org") ≡ true)
    × (rule_matches (subdomains (text "example.org")) (text "example.org") ≡ true)
new_subdomains-validate_rule_example =
    new_subdomains-validate_rule hosts_library (text " Example.org ") (exact (text "example.org"))
      (subdomains (text "example.org")) made_one made_all
