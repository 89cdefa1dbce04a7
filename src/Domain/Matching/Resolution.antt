-- ===== src/Domain/Matching/Resolution.antt =====
-- What the decision of crates/erabi-domain/src/matching.rs tells about the page types.
use erabi.Base.{◌≡◌, Bool, false, not, ◌&&◌, ◌||◌, List, All}
use erabi.Url.{Url}
use erabi.Domain.Matching.{PageTypeCandidate, Rank, rank_lt, rank_of}

-- Two priorities are equal, or one is below the other, and then the other is not below it.
record Compares (lt_ab lt_ba eq : Bool) : Type 0 where
  apart : (lt_ab && lt_ba) ≡ false
  total : (lt_ab || lt_ba) ≡ not eq

-- No candidate ranks above the rank.
abbrev IsAbove : Rank → List PageTypeCandidate → Type 0
IsAbove b cs = All (λ x. rank_lt b (rank_of x) ≡ false) cs
