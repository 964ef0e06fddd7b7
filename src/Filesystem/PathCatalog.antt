-- ===== src/Filesystem/PathCatalog.antt =====
-- How close two names are: src/filesystem/services/path-catalog.ts. The similarity is one less the
-- edit distance by the greater of the lengths; the distance is modelled, the fraction is not.
pub mod Scripts
pub mod Rows
mod Tests
use o_pi.Common.{
  ℕ, zero, suc, ◌+◌, min, max, Text, Bool, true, false, List, [], ◌∷◌, length, Option, none, some,
  if◌then◌else◌, ◌==◌,
}

-- `row[0] ?? 0` of the part of a row that is left.
abbrev pub first_or_zero : List ℕ → ℕ
first_or_zero [] = 0
first_or_zero (n ∷ ns) = n

abbrev pub tail : List ℕ → List ℕ
tail [] = []
tail (n ∷ ns) = ns

abbrev pub cost : ℕ → ℕ → ℕ
cost a b = if a == b then 0 else 1

-- `Math.min(deletion + 1, insertion + 1, substitution + …)`
abbrev pub cheapest : ℕ → ℕ → ℕ → ℕ
cheapest deletion insertion substitution = min (min (deletion + 1) (insertion + 1)) substitution

-- The inner loop: the character of the left text, what is left of the right one, the row before from
-- here on, and the last entry of this row.
unfoldable pub fill_row : ℕ → Text → List ℕ → ℕ → List ℕ
fill_row a [] previous insertion = []
fill_row a (b ∷ right) previous insertion =
    let entry =
      cheapest (first_or_zero (tail previous)) insertion (first_or_zero previous + cost a b) in
    entry ∷ fill_row a right (tail previous) entry

-- The outer loop, with the index of the character.
unfoldable pub fill_rows : ℕ → Text → Text → List ℕ → List ℕ
unfolding fill_row
fill_rows index [] right previous = previous
fill_rows index (a ∷ left) right previous =
    fill_rows (suc index) left right (index ∷ fill_row a right previous index)

-- `Array.from({ length: right.length + 1 }, (_, index) => index)`
unfoldable pub first_row : ℕ → Text → List ℕ
first_row index [] = index ∷ []
first_row index (b ∷ right) = index ∷ first_row (suc index) right

-- `row[index]`
unfoldable pub entry_at : List ℕ → ℕ → Option ℕ
entry_at [] i = none
entry_at (n ∷ ns) zero = some n
entry_at (n ∷ ns) (suc i) = entry_at ns i

abbrev or_longer : Option ℕ → Text → Text → ℕ
or_longer none left right = max (length left) (length right)
or_longer (some n) left right = n

unfoldable pub edit_distance : Text → Text → ℕ
unfolding fill_rows first_row entry_at
edit_distance left right =
    or_longer (entry_at (fill_rows 1 left right (first_row 0 right)) (length right)) left right
