-- ===== src/Domain/Matching.antt =====
-- crates/erabi-domain/src/matching.rs: which page type a URL has.
pub mod Resolution
use erabi.Base.{
  ℕ, suc, zero, Bool, true, false, not, ◌&&◌, ◌||◌, List, [], ◌∷◌, ◌++◌, Option, some, none,
  if◌then◌else◌, ◌==◌, ltb, any, find, filter, length, ℤ, pos, negsuc,
}
use erabi.Text.{Text, text_eq}
use erabi.Url.{Url}
use erabi.Domain.Matcher.{
  MatchLibrary, UrlMatcherKind, UrlMatcher, SpecificityKey, kind, specificity, pattern, matches,
}

-- crates/erabi-domain/src/page_type.rs.
pub record PageType : Type 0 where
  pub id : ℕ
  pub name : Text
  pub priority : ℤ  -- i32
  pub matchers : List UrlMatcher

pub record PageTypeCandidate : Type 0 where
  pub page_type_id : ℕ
  pub page_type_name : Text
  pub priority : ℤ
  pub matcher_kind : UrlMatcherKind
  pub specificity : SpecificityKey
  pub matched_patterns : List Text

pub data PageTypeMatchDecision : Type 0 where
  matched : PageTypeCandidate → PageTypeMatchDecision
  ambiguous : List PageTypeCandidate → PageTypeMatchDecision
  unmatched : PageTypeMatchDecision

-- The derived order of `SpecificityKey`.
unfoldable pub key_lt : SpecificityKey → SpecificityKey → Bool
key_lt a b =
    ltb a.matcher_kind_rank b.matcher_kind_rank
    || (a.matcher_kind_rank == b.matcher_kind_rank
        && (ltb a.literal_path_segments b.literal_path_segments
            || (a.literal_path_segments == b.literal_path_segments
                && (ltb a.explicit_query_constraints b.explicit_query_constraints
                    || (a.explicit_query_constraints == b.explicit_query_constraints
                        && (ltb a.literal_characters b.literal_characters
                            || (a.literal_characters == b.literal_characters
                                && ltb b.inverse_wildcards a.inverse_wildcards)))))))

unfoldable pub key_eq : SpecificityKey → SpecificityKey → Bool
key_eq a b =
    a.matcher_kind_rank == b.matcher_kind_rank
    && a.literal_path_segments == b.literal_path_segments
    && a.explicit_query_constraints == b.explicit_query_constraints
    && a.literal_characters == b.literal_characters
    && a.inverse_wildcards == b.inverse_wildcards

unfoldable pub priority_lt : ℤ → ℤ → Bool
priority_lt (negsuc a) (negsuc b) = ltb b a
priority_lt (negsuc a) (pos b) = true
priority_lt (pos a) (negsuc b) = false
priority_lt (pos a) (pos b) = ltb a b

unfoldable pub priority_eq : ℤ → ℤ → Bool
priority_eq (negsuc a) (negsuc b) = a == b
priority_eq (negsuc a) (pos b) = false
priority_eq (pos a) (negsuc b) = false
priority_eq (pos a) (pos b) = a == b

abbrev pub Rank : Type 0
Rank = ℤ × SpecificityKey

unfoldable pub rank_lt : Rank → Rank → Bool
rank_lt a b = priority_lt a.0 b.0 || (priority_eq a.0 b.0 && key_lt a.1 b.1)

unfoldable pub rank_eq : Rank → Rank → Bool
rank_eq a b = priority_eq a.0 b.0 && key_eq a.1 b.1

abbrev pub rank_of : PageTypeCandidate → Rank
rank_of c = (c.priority, c.specificity)

-- The derived order of `str` and of lists of them.
unfoldable pub text_lt : Text → Text → Bool
text_lt _ [] = false
text_lt [] (_ ∷ _) = true
text_lt (c ∷ s) (d ∷ t) = ltb c d || (c == d && text_lt s t)

unfoldable pub texts_lt : List Text → List Text → Bool
texts_lt _ [] = false
texts_lt [] (_ ∷ _) = true
texts_lt (s ∷ ss) (t ∷ ts) = text_lt s t || (text_eq s t && texts_lt ss ts)

-- `sort` and `dedup` of the patterns.
unfoldable pub insert_pattern : Text → List Text → List Text
insert_pattern s [] = s ∷ []
insert_pattern s (t ∷ ts) =
    let rest = insert_pattern s ts in
    if text_eq s t then t ∷ ts else if text_lt s t then s ∷ t ∷ ts else t ∷ rest

unfoldable pub sort_patterns : List Text → List Text
sort_patterns [] = []
sort_patterns (s ∷ ss) = insert_pattern s (sort_patterns ss)

unfoldable pub candidate_lt : PageTypeCandidate → PageTypeCandidate → Bool
candidate_lt a b =
    text_lt a.page_type_name b.page_type_name
    || (text_eq a.page_type_name b.page_type_name && texts_lt a.matched_patterns b.matched_patterns)

-- The stable `sort_by`.
unfoldable pub insert_candidate :
    PageTypeCandidate → List PageTypeCandidate → List PageTypeCandidate
insert_candidate a [] = a ∷ []
insert_candidate a (b ∷ bs) =
    let rest = insert_candidate a bs in if candidate_lt b a then b ∷ rest else a ∷ b ∷ bs

unfoldable pub sort_candidates : List PageTypeCandidate → List PageTypeCandidate
sort_candidates [] = []
sort_candidates (a ∷ bs) = insert_candidate a (sort_candidates bs)

abbrev pub max_key : SpecificityKey → Option SpecificityKey → SpecificityKey
max_key k none = k
max_key k (some best) = if key_lt best k then k else best

abbrev pub max_rank : Rank → Option Rank → Rank
max_rank r none = r
max_rank r (some best) = if rank_lt best r then r else best

unfoldable pub best_rank : List PageTypeCandidate → Option Rank
best_rank [] = none
best_rank (c ∷ cs) = some (max_rank (rank_of c) (best_rank cs))

-- The decision on the candidates that share the best rank, in their order.
abbrev pub decision : List PageTypeCandidate → PageTypeMatchDecision
decision [] = ambiguous []
decision (c ∷ []) = matched c
decision (c ∷ d ∷ cs) = ambiguous (c ∷ d ∷ cs)

unfoldable pub decide : List PageTypeCandidate → PageTypeMatchDecision
decide candidates = elim (best_rank candidates) [
  | none ↦ unmatched
  | some best ↦ decision (sort_candidates (filter (λ c. rank_eq (rank_of c) best) candidates))
]

module _ (lib : MatchLibrary) where
  -- The greatest specificity of the matchers that match.
  unfoldable pub best_specificity : Url → List UrlMatcher → Option SpecificityKey
  best_specificity url [] = none
  best_specificity url (m ∷ ms) =
      let rest = best_specificity url ms in
      if matches lib m url then some (max_key (specificity lib m) rest) else rest

  abbrev pub is_best : Url → SpecificityKey → UrlMatcher → Bool
  is_best url best m = matches lib m url && key_eq (specificity lib m) best

  unfoldable pub patterns_of : Url → SpecificityKey → List UrlMatcher → List Text
  patterns_of url best [] = []
  patterns_of url best (m ∷ ms) =
      let rest = patterns_of url best ms in
      if is_best url best m then pattern lib m ∷ rest else rest

  abbrev pub kind_or_regex : Option UrlMatcher → UrlMatcherKind
  kind_or_regex none = UrlMatcherKind.regex
  kind_or_regex (some m) = kind m

  unfoldable pub candidate_of : Url → PageType → Option PageTypeCandidate
  candidate_of url page_type = elim (best_specificity url page_type.matchers) [
    | none ↦ none
    | some best ↦ some (record {
      page_type_id = page_type.id;
      page_type_name = page_type.name;
      priority = page_type.priority;
      matcher_kind = kind_or_regex (find (is_best url best) page_type.matchers);
      specificity = best;
      matched_patterns = sort_patterns (patterns_of url best page_type.matchers);
    })
  ]

  abbrev pub with_candidate :
      Option PageTypeCandidate → List PageTypeCandidate → List PageTypeCandidate
  with_candidate none cs = cs
  with_candidate (some c) cs = c ∷ cs

  unfoldable pub candidates_of : Url → List PageType → List PageTypeCandidate
  candidates_of url [] = []
  candidates_of url (p ∷ ps) = with_candidate (candidate_of url p) (candidates_of url ps)

  unfoldable pub resolve_page_type : Url → List PageType → PageTypeMatchDecision
  resolve_page_type url page_types = decide (candidates_of url page_types)
