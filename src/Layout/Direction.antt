-- ===== src/Layout/Direction.antt =====
-- modules/tui/src/managers/layout.cpp: `get_pane_in_direction`, the choice of the pane to move to.
pub mod Within
pub mod Nearest
use nazg.Base.{
  ℕ, ◌≡◌, ◌+◌, ◌-◌, ◌/◌, ◌^◌, ◌≤◌, ◌<◌, ◌⊎◌, ◌≢◌, inl, inr, refl, none, some, Bool, true, false,
  not, Option, List, [], ◌∷◌, ◌&&◌, arith, ltb, ◌==◌, if◌then◌else◌, map, contains, All, All-append,
  Bool-cases,
}
use nazg.Layout.{SplitDirection, horizontal, vertical, Node, null, node, get_all_panes}
use nazg.Layout.Areas.{
  Rect, calculate_positions, left_area, right_area, HasRatios, map-calculate_positions, scale-le,
}

abbrev pub int_max : ℕ
int_max = 2 ^ 31 - 1

-- The dummy area in which panes are compared.
abbrev pub dummy_area : Rect
dummy_area = record { x = 0; y = 0; width = 100; height = 100 }

abbrev pub center_x : Rect → ℕ
center_x r = r.x + r.width / 2

abbrev pub center_y : Rect → ℕ
center_y r = r.y + r.height / 2

abbrev pub abs_diff : ℕ → ℕ → ℕ
abs_diff a b = (a - b) + (b - a)

-- `correct_direction` and `distance` of the switch, for the pane's rectangle `r` as seen from `c`.
-- The distance is read only where the direction is correct.
abbrev pub is_toward : ℕ → Rect → Rect → Bool
is_toward direction c r =
    if direction == b'h'
    then ltb (center_x r) (center_x c)
    else if direction == b'l'
    then ltb (center_x c) (center_x r)
    else if direction == b'k'
    then ltb (center_y r) (center_y c)
    else if direction == b'j'
    then ltb (center_y c) (center_y r)
    else false

unfoldable pub distance : ℕ → Rect → Rect → ℕ
distance direction c r =
    if direction == b'h'
    then (center_x c - center_x r) + abs_diff (center_y r) (center_y c)
    else if direction == b'l'
    then (center_x r - center_x c) + abs_diff (center_y r) (center_y c)
    else if direction == b'k'
    then (center_y c - center_y r) + abs_diff (center_x r) (center_x c)
    else if direction == b'j'
    then (center_y r - center_y c) + abs_diff (center_x r) (center_x c)
    else 0

module _ (current direction : ℕ) (c : Rect) where
  abbrev pub is_candidate : ℕ × Rect → Bool
  is_candidate (pane, r) = not (pane == current) && is_toward direction c r

  abbrev pub is_better : ℕ → ℕ × Rect → Bool
  is_better best_distance e = is_candidate e && ltb (distance direction c e.1) best_distance

  -- The loop over the positions, with the variables `best` and `best_distance`.
  pub scan : List (ℕ × Rect) → Option ℕ → ℕ → Option ℕ
  scan [] best best_distance = best
  scan ((pane, r) ∷ rest) best best_distance =
      scan rest (if is_better best_distance (pane, r) then some pane else best)
        (if is_better best_distance (pane, r) then distance direction c r else best_distance)

abbrev pub find_rect : ℕ → List (ℕ × Rect) → Option Rect
find_rect current [] = none
find_rect current ((pane, r) ∷ rest) = if pane == current then some r else find_rect current rest

unfoldable pub get_pane_in_direction : Node → ℕ → ℕ → Option ℕ
unfolding scan
get_pane_in_direction root current direction =
    elim (find_rect current (calculate_positions root dummy_area)) [
      | none ↦ none
      | some c ↦ scan current direction c (calculate_positions root dummy_area) none int_max
    ]
