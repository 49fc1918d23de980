-- ===== src/Layout/Examples.antt =====
-- Layouts of two and three panes: tests and instances.
use nazg.Base.{◌≡◌, refl, none, some, arith, if◌then◌else◌}
use nazg.Layout.{Node, null, node, leaf, horizontal, vertical, Stale, split_pane, IsProper}
use nazg.Layout.Areas.{Rect, calculate_positions, count_at, is_inside, calculate_positions_tile}

abbrev pair : Node
pair = node none horizontal (leaf 1) (leaf 2) 50

-- Pane 1 on the left of the panes 2 and 3, which stand one above the other.
abbrev three : Node
three = node none horizontal (leaf 1) (node none vertical (leaf 2) (leaf 3) 50) 50

abbrev pair_proper : IsProper pair
pair_proper = ((refl, refl), (refl, refl))

abbrev three_proper : IsProper three
three_proper = ((refl, refl), ((refl, refl), (refl, refl)))

abbrev unread : Stale
unread = record { right = null; split_ratio = 50 }

abbrev screen : Rect
screen = record { x = 0; y = 0; width = 80; height = 24 }

split_pair : split_pane pair 2 3 vertical ≡ some three
unfolding split_pane
split_pair = refl

calculate_positions_tile_example :
    count_at 40 20 (calculate_positions three screen) ≡ (if is_inside 40 20 screen then 1 else 0)
calculate_positions_tile_example =
    calculate_positions_tile three screen 40 20 three_proper
      (omega arith, tt, (omega arith, tt, tt))

abbrev left_half : Rect
left_half = record { x = 0; y = 0; width = 50; height = 100 }
