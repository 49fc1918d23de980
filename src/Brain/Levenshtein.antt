-- ===== src/Brain/Levenshtein.antt =====
-- The edit distance of two error messages (modules/brain/src/pattern_matcher.cpp,
-- `PatternMatcher::levenshtein_distance`). A row is the list of the cells 0 to `len2` of `prev` or
-- `curr`; every cell of `curr` is written before the rows are swapped, so a round needs only the
-- row before it. The cells are plain numbers: they stay below 2 ^ 31 for texts shorter than that.
pub mod Script
pub mod Least
pub mod Metric
use nazg.Base.{ℕ, suc, ◌+◌, List, [], ◌∷◌, Bytes, length, ◌==◌, if◌then◌else◌, min}

abbrev pub cost : ℕ → ℕ → ℕ
cost c d = if c == d then 0 else 1

abbrev pub min_cell : ℕ → ℕ → ℕ → ℕ → ℕ → ℕ
min_cell c d up left diagonal = min (min (up + 1) (left + 1)) (diagonal + cost c d)

-- The cells `curr[j]` for `j` from 1: `left` is `curr[j - 1]`, the row begins with `prev[j - 1]`
-- and the text with `s2[j - 1]`.
unfoldable pub next_cells : ℕ → ℕ → List ℕ → Bytes → List ℕ
next_cells c left (diagonal ∷ up ∷ prev) (d ∷ s2) =
    let cell : ℕ = min_cell c d up left diagonal in cell ∷ next_cells c cell (up ∷ prev) s2
next_cells c left prev s2 = []

-- The round of the outer loop for `s1[i - 1]`.
abbrev pub next_row : ℕ → ℕ → List ℕ → Bytes → List ℕ
next_row i c prev s2 = i ∷ next_cells c i prev s2

unfoldable pub last_row : ℕ → Bytes → List ℕ → Bytes → List ℕ
unfolding next_cells
last_row i [] prev s2 = prev
last_row i (c ∷ s1) prev s2 = last_row (i + 1) s1 (next_row i c prev s2) s2

-- The row of the cells `j`, from a number on.
abbrev pub first_row : ℕ → Bytes → List ℕ
first_row j [] = j ∷ []
first_row j (d ∷ s2) = j ∷ first_row (j + 1) s2

abbrev pub last_cell : List ℕ → ℕ
last_cell [] = 0
last_cell (cell ∷ []) = cell
last_cell (cell ∷ next ∷ row) = last_cell (next ∷ row)

unfoldable pub levenshtein_distance : Bytes → Bytes → ℕ
unfolding last_row
levenshtein_distance s1 s2 = last_cell (last_row 1 s1 (first_row 0 s2) s2)
