-- ===== src/Domain/Transition/Graph.antt =====
-- What crates/erabi-domain/src/transition.rs establishes of a graph that it builds.
use erabi.Base.{
  ℕ, ◌≤◌, ◌<◌, ◌≡◌, refl, ◌≢◌, ◌↔◌, true, false, List, [], ◌∷◌, some, ok, arith, All, Any, length,
  is_some_and,
}
use erabi.Domain.Transition.{
  DiscoveryTransition, bad_constraints, validate, member, check_transitions, TransitionGraph, new,
}
use erabi.Text.{trim}

pub record IsValid (t : DiscoveryTransition) : Type 0 where
  pub named : trim t.name ≢ []
  pub name_bounded : length t.name ≤ 256
  pub selects : trim t.link_selector ≢ []
  pub selector_bounded : length t.link_selector ≤ 1024
  pub constrained : is_some_and bad_constraints t.url_constraints ≡ false
  pub links : 0 < t.budget.max_links_per_source_page
  pub total : t.budget.total_budget ≢ some 0

abbrev pub IsListed : ℕ → List ℕ → Type 0
IsListed x = Any (λ y. y ≡ x)

abbrev pub IsDistinct : List DiscoveryTransition → Type 0
IsDistinct [] = Unit
IsDistinct (t ∷ ts) = All (λ u. t.id ≢ u.id) ts × IsDistinct ts

pub record IsOwned (page_type_ids : List ℕ) (t : DiscoveryTransition) : Type 0 where
  pub valid : IsValid t
  pub source : IsListed t.source_page_type_id page_type_ids
  pub target : IsListed t.target_page_type_id page_type_ids

validate_iff : (t : DiscoveryTransition) → (validate t ≡ ok tt) ↔ IsValid t
unfolding validate
validate_iff t = (λ h. ground arith, λ h. ground arith)

member_iff : (x : ℕ) (ids : List ℕ) → (member x ids ≡ true) ↔ IsListed x ids
member_iff x [] = (λ h. cc, λ h. absurd h)
member_iff x (y ∷ ys) = ground (arith, member_iff x ys)

not_member_iff : (x : ℕ) (ids : List ℕ) → (member x ids ≡ false) ↔ All (λ y. y ≢ x) ids
not_member_iff x [] = (λ _. tt, λ _. refl)
not_member_iff x (y ∷ ys) = ground (arith, not_member_iff x ys)

abbrev IsFresh : List ℕ → List DiscoveryTransition → Type 0
IsFresh seen ts = All (λ t. All (λ j. j ≢ t.id) seen) ts

IsFresh-cons :
    (x : ℕ) (seen : List ℕ) (ts : List DiscoveryTransition)
    → IsFresh (x ∷ seen) ts ↔ (All (λ t. x ≢ t.id) ts × IsFresh seen ts)
IsFresh-cons x seen [] = (λ _. (tt, tt), λ _. tt)
IsFresh-cons x seen (t ∷ ts) = ground (arith, IsFresh-cons x seen ts)

IsFresh-nil : (ts : List DiscoveryTransition) → IsFresh [] ts
IsFresh-nil [] = tt
IsFresh-nil (t ∷ ts) = (tt, IsFresh-nil ts)

head_ok :
    (ids seen : List ℕ) (t : DiscoveryTransition) (ts : List DiscoveryTransition)
    → (check_transitions ids seen (t ∷ ts) ≡ ok tt) ↔ (
        IsOwned ids t × All (λ j. j ≢ t.id) seen × (check_transitions ids (t.id ∷ seen) ts ≡ ok tt))
unfolding check_transitions
head_ok ids seen t ts = ground (
  arith,
  validate_iff t,
  not_member_iff t.id seen,
  member_iff t.source_page_type_id ids,
  member_iff t.target_page_type_id ids,
)

check_iff :
    (ids seen : List ℕ) (ts : List DiscoveryTransition)
    → (check_transitions ids seen ts ≡ ok tt)
      ↔ (All (IsOwned ids) ts × IsDistinct ts × IsFresh seen ts)
check_iff ids seen [] = unfold check_transitions in (λ _. (tt, tt, tt), λ _. refl)
check_iff ids seen (t ∷ ts) =
    ground (arith, head_ok ids seen t ts, check_iff ids (t.id ∷ seen) ts, IsFresh-cons t.id seen ts)

-- A graph is built exactly if every transition is valid by itself, joins two page types of the
-- version, and no two share an identifier; it then holds the given transitions, in their order.
-- Cycles and self-edges are no obstacle.
pub new_iff :
    (ids : List ℕ) (ts : List DiscoveryTransition) (g : TransitionGraph)
    → (new ids ts ≡ ok g) ↔ (All (IsOwned ids) ts × IsDistinct ts × (g.transitions ≡ ts))
unfolding new
new_iff ids ts g = ground (arith, check_iff ids [] ts, IsFresh-nil ts)
