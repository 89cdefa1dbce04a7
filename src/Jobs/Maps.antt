-- ===== src/Jobs/Maps.antt =====
-- The hash maps and sets of crates/erabi-jobs, whose order the code never reads: a map from job
-- identifiers to tokens, with a token as its number, and a set of numbers.
use erabi.Base.{
  ℕ, ◌≡◌, refl, ◌≢◌, Bool, true, false, ◌||◌, List, [], ◌∷◌, ◌++◌, Option, none, some, arith, ◌==◌,
  if◌then◌else◌,
}

abbrev pub Active : Type 0
Active = List (ℕ × ℕ)

unfoldable pub contains : ℕ → List ℕ → Bool
contains x [] = false
contains x (y ∷ ys) = y == x || contains x ys

unfoldable pub get : ℕ → Active → Option ℕ
get k [] = none
get k ((j, t) ∷ m) = if j == k then some t else get k m

unfoldable pub remove : ℕ → Active → Active
remove k [] = []
remove k ((j, t) ∷ m) = let rest = remove k m in if j == k then rest else (j, t) ∷ rest

abbrev pub insert : ℕ → ℕ → Active → Active
insert k t m = (k, t) ∷ remove k m

unfoldable pub values : Active → List ℕ
values [] = []
values ((_, t) ∷ m) = t ∷ values m

unfoldable pub discard : ℕ → List ℕ → List ℕ
discard x [] = []
discard x (y ∷ ys) = let rest = discard x ys in if y == x then rest else y ∷ rest

pub get-remove :
    (j k t : ℕ) (m : Active) → get j (remove k m) ≡ some t → (k ≢ j) × (get j m ≡ some t)
unfolding get remove
get-remove j k t [] h = absurd (ground (arith, h))
get-remove j k t ((i, u) ∷ m) h = ground (arith, get-remove j k t m, h)

pub contains-values : (j t : ℕ) (m : Active) → get j m ≡ some t → contains t (values m) ≡ true
unfolding get contains values
contains-values j t [] h = absurd (ground (arith, h))
contains-values j t ((i, u) ∷ m) h = ground (arith, contains-values j t m, h)

pub contains-append :
    (x : ℕ) (xs ys : List ℕ) → contains x (xs ++ ys) ≡ (contains x xs || contains x ys)
unfolding contains
contains-append x [] ys = refl
contains-append x (z ∷ xs) ys = ground (arith, contains-append x xs ys)

pub contains-discard :
    (x y : ℕ) (xs : List ℕ) → contains x (discard y xs) ≡ true → contains x xs ≡ true
unfolding contains discard
contains-discard x y [] h = h
contains-discard x y (z ∷ xs) h = ground (arith, contains-discard x y xs, h)
