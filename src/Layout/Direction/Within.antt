-- ===== src/Layout/Direction/Within.antt =====
-- The positions of `calculate_positions` within their area, and so the distances of panes in the dummy
-- area of `get_pane_in_direction` (modules/tui/src/managers/layout.cpp).
use nazg.Base.{ℕ, ◌≡◌, ◌+◌, ◌≤◌, none, some, List, [], ◌∷◌, arith, All, All-append}
use nazg.Layout.{SplitDirection, horizontal, vertical, Node, null, node}
use nazg.Layout.Areas.{Rect, calculate_positions, left_area, right_area, HasRatios, scale-le}
use nazg.Layout.Direction.{dummy_area, distance, find_rect}

-- The rectangle lies within the area.
abbrev pub IsWithin : Rect → Rect → Type 0
IsWithin a r = (r.x + r.width ≤ a.x + a.width) × (r.y + r.height ≤ a.y + a.height)

parts-IsWithin :
    (d : SplitDirection) (a : Rect) (q : ℕ)
    → q ≤ 100
    → IsWithin a (left_area d a q) × IsWithin a (right_area d a q)
parts-IsWithin horizontal a q h = ground (arith, scale-le a.width q h)
parts-IsWithin vertical a q h = ground (arith, scale-le a.height q h)

All-IsWithin :
    (a b : Rect) (ps : List (ℕ × Rect))
    → IsWithin b a
    → All (λ e. IsWithin a e.1) ps
    → All (λ e. IsWithin b e.1) ps
All-IsWithin a b [] h w = tt
All-IsWithin a b (e ∷ ps) h w = (omega arith, All-IsWithin a b ps h w.1)

pub calculate_positions-IsWithin :
    (t : Node) (a : Rect) → HasRatios t → All (λ e. IsWithin a e.1) (calculate_positions t a)
unfolding calculate_positions
calculate_positions-IsWithin null a h = tt
calculate_positions-IsWithin (node (some p) d l r q) a h = omega arith
calculate_positions-IsWithin (node none d l r q) a h =
    All-append (λ e. IsWithin a e.1) (calculate_positions l (left_area d a q))
      (calculate_positions r (right_area d a q))
      (All-IsWithin (left_area d a q) a (calculate_positions l (left_area d a q)) parts.0
        (calculate_positions-IsWithin l (left_area d a q) h.1))
      (All-IsWithin (right_area d a q) a (calculate_positions r (right_area d a q)) parts.1
        (calculate_positions-IsWithin r (right_area d a q) h.2))
  where
    parts : IsWithin a (left_area d a q) × IsWithin a (right_area d a q)
    parts = parts-IsWithin d a q h.0

pub distance-le :
    (direction : ℕ) (c r : Rect)
    → IsWithin dummy_area c
    → IsWithin dummy_area r
    → distance direction c r ≤ 200
unfolding distance
distance-le direction c r hc hr = ground arith

pub find_rect-IsWithin :
    (current : ℕ) (c : Rect) (ps : List (ℕ × Rect))
    → All (λ e. IsWithin dummy_area e.1) ps
    → find_rect current ps ≡ some c
    → IsWithin dummy_area c
find_rect-IsWithin current c [] w e = cc
find_rect-IsWithin current c ((p, r) ∷ ps) w e = ground (arith, find_rect-IsWithin current c ps w.1)
