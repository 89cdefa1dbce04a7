-- ===== src/Robots/Match/Greedy.antt =====
-- About the greedy search of `rule_matches` in crates/erabi-crawler/src/robots.rs for the parts of a
-- pattern.
use erabi.Base.{
  ◌≡◌, refl, sym, ap, ◌∙◌, ◌↔◌, ◌⊎◌, inl, inr, Bool, true, false, not, ◌||◌, List, [], ◌∷◌, ◌++◌,
  some, arith, Option-cases, is_empty, ◌≤◌, length, length-append, ||-true,
}
use mathlib.Core.List.{append_assoc, append-nil}
use erabi.Text.{Text, strip_prefix, after_first, contains, ends_with, starts_with, text_eq}
use erabi.Text.Search.{text_eq_iff}
use erabi.Robots.Match.{match_parts}

-- What may stand behind the last part of a pattern that ends in no star.
abbrev pub IsRest : Bool → Text → Type 0
IsRest end_anchored s = (end_anchored ≡ false) ⊎ (s ≡ [])

-- The parts occur in this order, each behind the one before, and the rest is allowed.
abbrev pub Occurs : Bool → List Text → Text → Type 0
Occurs end_anchored [] s = IsRest end_anchored s
Occurs end_anchored (p ∷ ps) s =
    (u : Text) × (v : Text) × (s ≡ u ++ (p ++ v)) × Occurs end_anchored ps v

pub strip_prefix_iff : (p s r : Text) → (strip_prefix p s ≡ some r) ↔ (s ≡ p ++ r)
unfolding strip_prefix
strip_prefix_iff [] s r = (λ h. cc, λ h. cc)
strip_prefix_iff (a ∷ p) [] r = (λ h. cc, λ h. cc)
strip_prefix_iff (a ∷ p) (c ∷ s) r = ground (arith, strip_prefix_iff p s r)

pub strip_prefix-append : (p r : Text) → strip_prefix p (p ++ r) ≡ some r
strip_prefix-append p r = (strip_prefix_iff p (p ++ r) r).1 refl

-- A found place is an occurrence.
after_first_sound : (p s r : Text) → after_first p s ≡ some r → (u : Text) × (s ≡ u ++ (p ++ r))
unfolding after_first
after_first_sound p [] r h = ([], (strip_prefix_iff p [] r).0 h)
after_first_sound p (c ∷ s) r h = elim (Option-cases (strip_prefix p (c ∷ s))) [
  | inl e ↦
      let (u, q) = after_first_sound p s r (ground (arith, e, h)) in (c ∷ u, ap (λ t. c ∷ t) q)
  | inr (t, e) ↦ ([], (strip_prefix_iff p (c ∷ s) r).0 (ground (arith, e, h)))
]

-- Of two ways to cut a text, the one that cuts earlier leaves more.
suffix_of_earlier :
    (x y t v : Text) → x ++ t ≡ y ++ v → length x ≤ length y → (w : Text) × (t ≡ w ++ v)
suffix_of_earlier [] y t v e l = (y, e)
suffix_of_earlier (a ∷ x) [] t v e l = absurd (omega arith)
suffix_of_earlier (a ∷ x) (b ∷ y) t v e l = suffix_of_earlier x y t v (cc) (omega arith)

-- Wherever the part occurs, the search finds a place that leaves no less.
after_first_complete :
    (p u v s : Text)
    → s ≡ u ++ (p ++ v)
    → (r : Text) × (w : Text) × (after_first p s ≡ some r) × (r ≡ w ++ v)
unfolding after_first
after_first_complete p [] v [] e = (v, [], (strip_prefix_iff p [] v).1 e, refl)
after_first_complete p [] v (c ∷ s) e =
    let k = (strip_prefix_iff p (c ∷ s) v).1 e in (v, [], rw (k, after_first) refl, refl)
after_first_complete p (a ∷ u) v [] e = absurd (cc)
after_first_complete p (a ∷ u) v (c ∷ s) e = elim (Option-cases (strip_prefix p (c ∷ s))) [
  | inl n ↦ let (r, w, f, q) = after_first_complete p u v s (cc) in (r, w, rw (n, after_first) f, q)
  | inr (t, k) ↦
      let same : p ++ t ≡ ((a ∷ u) ++ p) ++ v =
        sym ((strip_prefix_iff p (c ∷ s) t).0 k) ∙ e ∙ sym (append_assoc (a ∷ u) p v) in
      let (w, q) =
        suffix_of_earlier p ((a ∷ u) ++ p) t v same (omega (arith, length-append (a ∷ u) p)) in
      (t, w, rw (k, after_first) refl, q)
]

pub Occurs-append :
    (end_anchored : Bool) (p : Text) (ps : List Text) (w v : Text)
    → Occurs end_anchored (p ∷ ps) v
    → Occurs end_anchored (p ∷ ps) (w ++ v)
Occurs-append end_anchored p ps w v (u, t, e, rest) =
    (w ++ u, t, ap (λ x. w ++ x) e ∙ sym (append_assoc w u (p ++ t)), rest)

starts_with_sound : (p s : Text) → starts_with p s ≡ true → (v : Text) × (s ≡ p ++ v)
unfolding starts_with
starts_with_sound [] s h = (s, refl)
starts_with_sound (a ∷ p) [] h = absurd (cc)
starts_with_sound (a ∷ p) (c ∷ s) h =
    let (v, q) = starts_with_sound p s (ground arith) in (v, ground arith)

starts_with-append : (p v : Text) → starts_with p (p ++ v) ≡ true
unfolding starts_with
starts_with-append [] v = refl
starts_with-append (a ∷ p) v = ground (arith, starts_with-append p v)

contains_sound : (p s : Text) → contains p s ≡ true → (u : Text) × (v : Text) × (s ≡ u ++ (p ++ v))
unfolding contains
contains_sound p [] h = let (v, q) = starts_with_sound p [] h in ([], v, q)
contains_sound p (c ∷ s) h = elim (||-true (starts_with p (c ∷ s)) (contains p s) h) [
  | inl k ↦ let (v, q) = starts_with_sound p (c ∷ s) k in ([], v, q)
  | inr k ↦ let (u, v, q) = contains_sound p s k in (c ∷ u, v, ap (λ t. c ∷ t) q)
]

contains_complete : (p u v : Text) → contains p (u ++ (p ++ v)) ≡ true
unfolding contains
contains_complete p [] v = contains_at_start p (p ++ v) (starts_with-append p v)
  where
    contains_at_start : (p s : Text) → starts_with p s ≡ true → contains p s ≡ true
    contains_at_start p [] h = h
    contains_at_start p (c ∷ s) h = ground arith
contains_complete p (c ∷ u) v = ground (arith, contains_complete p u v)

ends_with_sound : (p s : Text) → ends_with p s ≡ true → (u : Text) × (s ≡ u ++ p)
unfolding ends_with
ends_with_sound p [] h = ([], sym ((text_eq_iff p []).0 h))
ends_with_sound p (c ∷ s) h = elim (||-true (text_eq p (c ∷ s)) (ends_with p s) h) [
  | inl k ↦ ([], sym ((text_eq_iff p (c ∷ s)).0 k))
  | inr k ↦ let (u, q) = ends_with_sound p s k in (c ∷ u, ap (λ t. c ∷ t) q)
]

ends_with_self : (p : Text) → ends_with p p ≡ true
unfolding ends_with
ends_with_self [] = (text_eq_iff [] []).1 refl
ends_with_self (c ∷ p) = ground (arith, text_eq_iff (c ∷ p) (c ∷ p))

ends_with_complete : (p u : Text) → ends_with p (u ++ p) ≡ true
unfolding ends_with
ends_with_complete p [] = ends_with_self p
ends_with_complete p (c ∷ u) = ground (arith, ends_with_complete p u)

last_sound : (e : Bool) (p s : Text) → match_parts e (p ∷ []) s ≡ true → Occurs e (p ∷ []) s
unfolding match_parts
last_sound true p s h =
    let (u, q) = ends_with_sound p s h in
    (u, [], q ∙ ap (λ t. u ++ t) (sym (append-nil p)), inr refl)
last_sound false p s h = let (u, v, q) = contains_sound p s h in (u, v, q, inl refl)

last_complete : (e : Bool) (p s : Text) → Occurs e (p ∷ []) s → match_parts e (p ∷ []) s ≡ true
unfolding match_parts
last_complete true p s (u, v, q, inl n) = absurd (cc)
last_complete true p s (u, v, q, inr n) =
    let same : s ≡ u ++ p = q ∙ ap (λ t. u ++ (p ++ t)) n ∙ ap (λ t. u ++ t) (append-nil p) in
    rw same (ends_with_complete p u)
last_complete false p s (u, v, q, r) = rw q (contains_complete p u v)

IsRest-iff : (e : Bool) (s : Text) → ((not e || is_empty s) ≡ true) ↔ IsRest e s
IsRest-iff true [] = (λ _. inr refl, λ _. refl)
IsRest-iff true (c ∷ s) = ground arith
IsRest-iff false s = (λ _. inl refl, λ _. refl)

-- A text that the greedy loop accepts holds the parts one behind the other.
pub match_parts_sound :
    (e : Bool) (ps : List Text) (s : Text) → match_parts e ps s ≡ true → Occurs e ps s
unfolding match_parts
match_parts_sound e [] s h = (IsRest-iff e s).0 h
match_parts_sound e (p ∷ []) s h = last_sound e p s h
match_parts_sound e (p ∷ q ∷ ps) s h = elim (Option-cases (after_first p s)) [
  | inl n ↦ absurd (ground (arith, n, h))
  | inr (r, k) ↦
      let (u, same) = after_first_sound p s r k in
      (u, r, same, match_parts_sound e (q ∷ ps) r (ground (arith, k, h)))
]

-- The greedy loop accepts every text that holds the parts one behind the other.
pub match_parts_complete :
    (e : Bool) (ps : List Text) (s : Text) → Occurs e ps s → match_parts e ps s ≡ true
unfolding match_parts
match_parts_complete e [] s h = (IsRest-iff e s).1 h
match_parts_complete e (p ∷ []) s h = last_complete e p s h
match_parts_complete e (p ∷ q ∷ ps) s (u, v, same, rest) =
    let (r, w, k, longer) = after_first_complete p u v s same in
    rw (k, match_parts)
      (match_parts_complete e (q ∷ ps) r (rw longer (Occurs-append e q ps w v rest)))
