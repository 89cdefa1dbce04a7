-- ===== src/Domain/Guardrails/Caps.antt =====
-- About the checks of crates/erabi-domain/src/guardrails.rs.
use erabi.Base.{
  ℕ, ◌≤◌, ◌<◌, ◌≡◌, refl, ◌≢◌, ◌↔◌, false, List, [], ◌∷◌, some, ok, arith, All, any, find, ◌==◌,
}
use erabi.Domain.Guardrails.{
  PageTypeDiscoveryGuardrails, CrawlerVersionGuardrails, ResolvedOperationalLimits,
  unsupported_health, validate_page_types, validate, baseline_invalid, exceeds_baseline,
  validate_effective_operational_limits, page_type,
}

abbrev pub IsDistinct : List PageTypeDiscoveryGuardrails → Type 0
IsDistinct [] = Unit
IsDistinct (p ∷ ps) = All (λ q. p.page_type_id ≢ q.page_type_id) ps × IsDistinct ps

pub record IsValidBudget (p : PageTypeDiscoveryGuardrails) : Type 0 where
  pub positive : p.page_budget ≢ some 0
  pub supported : unsupported_health p.health_threshold ≡ false

pub record IsPositive (g : CrawlerVersionGuardrails) : Type 0 where
  pub current : g.version ≡ 1
  pub pages : 0 < g.max_pages
  pub depth : 0 < g.max_depth
  pub duration : 0 < g.max_duration_seconds
  pub bytes : 0 < g.max_downloaded_bytes
  pub concurrent : 0 < g.max_concurrent_requests_per_domain

pub record IsValid (g : CrawlerVersionGuardrails) : Type 0 where
  pub positive : IsPositive g
  pub budgets : All IsValidBudget g.page_types
  pub distinct : IsDistinct g.page_types

any-eq_false : (x : ℕ) (seen : List ℕ) → (any (λ j. j == x) seen ≡ false) ↔ All (λ j. j ≢ x) seen
any-eq_false x [] = (λ _. tt, λ _. refl)
any-eq_false x (j ∷ js) = ground (arith, any-eq_false x js)

-- No identifier of the list was seen before.
abbrev IsFresh : List ℕ → List PageTypeDiscoveryGuardrails → Type 0
IsFresh seen ps = All (λ p. All (λ j. j ≢ p.page_type_id) seen) ps

IsFresh-cons :
    (x : ℕ) (seen : List ℕ) (ps : List PageTypeDiscoveryGuardrails)
    → IsFresh (x ∷ seen) ps ↔ (All (λ p. x ≢ p.page_type_id) ps × IsFresh seen ps)
IsFresh-cons x seen [] = (λ _. (tt, tt), λ _. tt)
IsFresh-cons x seen (p ∷ ps) = ground (arith, IsFresh-cons x seen ps)

head_ok :
    (p : PageTypeDiscoveryGuardrails) (seen : List ℕ) (ps : List PageTypeDiscoveryGuardrails)
    → (validate_page_types seen (p ∷ ps) ≡ ok tt) ↔ (
        All (λ j. j ≢ p.page_type_id) seen
        × IsValidBudget p
        × (validate_page_types (p.page_type_id ∷ seen) ps ≡ ok tt))
unfolding validate_page_types
head_ok p seen ps = ground (arith, any-eq_false p.page_type_id seen)

page_types_ok :
    (seen : List ℕ) (ps : List PageTypeDiscoveryGuardrails)
    → (validate_page_types seen ps ≡ ok tt)
      ↔ (All IsValidBudget ps × IsDistinct ps × IsFresh seen ps)
page_types_ok seen [] = unfold validate_page_types in (λ _. (tt, tt, tt), λ _. refl)
page_types_ok seen (p ∷ ps) = ground (
  arith,
  head_ok p seen ps,
  page_types_ok (p.page_type_id ∷ seen) ps,
  IsFresh-cons p.page_type_id seen ps,
)

-- No list is checked against an empty set in vain.
IsFresh-nil : (ps : List PageTypeDiscoveryGuardrails) → IsFresh [] ps
IsFresh-nil [] = tt
IsFresh-nil (p ∷ ps) = (tt, IsFresh-nil ps)

baseline_ok : (g : CrawlerVersionGuardrails) → (baseline_invalid g ≡ false) ↔ IsPositive g
unfolding baseline_invalid
baseline_ok g = (λ h. ground arith, λ h. ground arith)

-- `validate` accepts exactly the guardrails whose version is current, whose five mandatory caps
-- are positive, and whose page-type budgets are positive, of a supported health version, and
-- listed under pairwise distinct identifiers.
pub validate_iff : (g : CrawlerVersionGuardrails) → (validate g ≡ ok tt) ↔ IsValid g
unfolding validate
validate_iff g =
    ground (arith, baseline_ok g, page_types_ok [] g.page_types, IsFresh-nil g.page_types)

-- The resolved limits stay within the baseline of the version.
pub record IsWithin (g : CrawlerVersionGuardrails) (l : ResolvedOperationalLimits) : Type 0 where
  pub pages : l.max_pages ≤ g.max_pages
  pub depth : l.max_depth ≤ g.max_depth
  pub duration : l.max_duration_seconds ≤ g.max_duration_seconds
  pub bytes : l.max_downloaded_bytes ≤ g.max_downloaded_bytes
  pub concurrent : l.concurrency ≤ g.max_concurrent_requests_per_domain
  pub delay : g.min_request_delay_ms ≤ l.request_delay_ms

exceeds_iff :
    (g : CrawlerVersionGuardrails) (l : ResolvedOperationalLimits)
    → (exceeds_baseline g l ≡ false) ↔ IsWithin g l
unfolding exceeds_baseline
exceeds_iff g l = (λ h. ground arith, λ h. ground arith)

-- The operational check accepts exactly the limits that widen no cap and shorten no delay of a
-- valid baseline.
pub limits_iff :
    (g : CrawlerVersionGuardrails) (l : ResolvedOperationalLimits)
    → (validate_effective_operational_limits g l ≡ ok tt) ↔ (IsValid g × IsWithin g l)
unfolding validate_effective_operational_limits
limits_iff g l = ground (arith, validate_iff g, exceeds_iff g l)

find_self :
    (p : PageTypeDiscoveryGuardrails) (ps : List PageTypeDiscoveryGuardrails)
    → All (λ q. find (λ b. b.page_type_id == q.page_type_id) ps ≡ some q) ps
    → All (λ q. p.page_type_id ≢ q.page_type_id) ps
    → (rest : List PageTypeDiscoveryGuardrails)
    → All (λ q. find (λ b. b.page_type_id == q.page_type_id) ps ≡ some q) rest
    → All (λ q. p.page_type_id ≢ q.page_type_id) rest
    → All (λ q. find (λ b. b.page_type_id == q.page_type_id) (p ∷ ps) ≡ some q) rest
find_self p ps hs ds [] h d = tt
find_self p ps hs ds (q ∷ rest) h d = (ground arith, find_self p ps hs ds rest h.1 d.1)

find_all :
    (ps : List PageTypeDiscoveryGuardrails)
    → IsDistinct ps
    → All (λ q. find (λ b. b.page_type_id == q.page_type_id) ps ≡ some q) ps
find_all [] d = tt
find_all (p ∷ ps) d = let ih = find_all ps d.1 in (ground arith, find_self p ps ih d.0 ps ih d.0)

-- Under guardrails that pass `validate`, the lookup by identifier finds each configured page type
-- itself, never another entry.
pub page_type-validate :
    (g : CrawlerVersionGuardrails)
    → validate g ≡ ok tt
    → All (λ p. page_type g p.page_type_id ≡ some p) g.page_types
unfolding page_type
page_type-validate g h = find_all g.page_types ((validate_iff g).0 h).distinct
