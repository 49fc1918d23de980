-- ===== src/Layout/Areas.antt =====
-- modules/tui/src/managers/layout.cpp: `calculate_positions` and `get_pane_at_position`, on areas
-- whose position and size are not negative.
use mathlib.Core.List.{map-append}
use nazg.Base.{
  ℕ, ◌≡◌, ◌+◌, ◌-◌, ◌*◌, ◌/◌, ◌≤◌, refl, none, some, Bool, true, false, Option, List, [], ◌∷◌, ◌++◌,
  ◌&&◌, arith, ltb, leb, if◌then◌else◌, map, ap₂, ◌∙◌, ◌⊎◌, inl, inr, ◌<◌, contains, Bool-cases,
  ==_refl,
}
use nazg.Layout.{SplitDirection, horizontal, vertical, Node, null, node, get_all_panes, IsProper}

pub record Rect : Type 0 where
  pub x : ℕ
  pub y : ℕ
  pub width : ℕ
  pub height : ℕ

-- `static_cast<int>(size * split_ratio)`
abbrev pub scale : ℕ → ℕ → ℕ
scale size ratio = size * ratio / 100

-- The two parts of a split area, the left or top one first.
abbrev pub left_area : SplitDirection → Rect → ℕ → Rect
left_area horizontal a q = let split_x = a.x + scale a.width q in record a { width = split_x - a.x }
left_area vertical a q = let split_y = a.y + scale a.height q in record a { height = split_y - a.y }

abbrev pub right_area : SplitDirection → Rect → ℕ → Rect
right_area horizontal a q =
    let split_x = a.x + scale a.width q in
    record a { x = split_x; width = a.width - (split_x - a.x) }
right_area vertical a q =
    let split_y = a.y + scale a.height q in
    record a { y = split_y; height = a.height - (split_y - a.y) }

unfoldable pub calculate_positions : Node → Rect → List (ℕ × Rect)
calculate_positions null area = []
calculate_positions (node (some pane) d l r q) area = (pane, area) ∷ []
calculate_positions (node none d l r q) area =
    calculate_positions l (left_area d area q) ++ calculate_positions r (right_area d area q)

abbrev pub is_inside : ℕ → ℕ → Rect → Bool
is_inside px py a = leb a.x px && ltb px (a.x + a.width) && leb a.y py && ltb py (a.y + a.height)

abbrev pub first_at : ℕ → ℕ → List (ℕ × Rect) → Option ℕ
first_at px py [] = none
first_at px py ((pane, a) ∷ rest) = if is_inside px py a then some pane else first_at px py rest

pub get_pane_at_position : Node → ℕ → ℕ → Rect → Option ℕ
unfolding calculate_positions
get_pane_at_position root px py area = first_at px py (calculate_positions root area)

-- No split ratio is above 1.
abbrev pub HasRatios : Node → Type 0
HasRatios null = Unit
HasRatios (node (some pane) d l r q) = Unit
HasRatios (node none d l r q) = (q ≤ 100) × HasRatios l × HasRatios r

-- How many of the rectangles hold the point.
abbrev pub count_at : ℕ → ℕ → List (ℕ × Rect) → ℕ
count_at px py [] = 0
count_at px py ((pane, a) ∷ rest) = (if is_inside px py a then 1 else 0) + count_at px py rest

count_at-append :
    (px py : ℕ) (xs ys : List (ℕ × Rect))
    → count_at px py (xs ++ ys) ≡ count_at px py xs + count_at px py ys
count_at-append px py [] ys = omega arith
count_at-append px py ((p, a) ∷ xs) ys = omega (arith, count_at-append px py xs ys)

pub scale-le : (n q : ℕ) → q ≤ 100 → scale n q ≤ n
scale-le n q h = grind arith

is_inside_split :
    (px py : ℕ) (d : SplitDirection) (a : Rect) (q : ℕ)
    → q ≤ 100
    → (if is_inside px py (left_area d a q) then 1 else 0)
        + (if is_inside px py (right_area d a q) then 1 else 0)
      ≡ (if is_inside px py a then 1 else 0)
is_inside_split px py horizontal a q h = ground (arith, scale-le a.width q h)
is_inside_split px py vertical a q h = ground (arith, scale-le a.height q h)

-- The panes of a proper layout whose ratios are at most 1 tile the area: each point of it lies in
-- exactly one of their rectangles, and a point outside of it lies in none.
pub calculate_positions_tile :
    (t : Node) (a : Rect) (px py : ℕ)
    → IsProper t
    → HasRatios t
    → count_at px py (calculate_positions t a) ≡ (if is_inside px py a then 1 else 0)
unfolding calculate_positions
calculate_positions_tile null a px py v h = absurd v
calculate_positions_tile (node (some p) d l r q) a px py v h = omega arith
calculate_positions_tile (node none d l r q) a px py v h = omega (
  arith,
  count_at-append px py (calculate_positions l (left_area d a q))
      (calculate_positions r (right_area d a q)),
  calculate_positions_tile l (left_area d a q) px py v.0 h.1,
  calculate_positions_tile r (right_area d a q) px py v.1 h.2,
  is_inside_split px py d a q h.0,
)

-- The panes come in the order of `get_all_panes`.
pub map-calculate_positions :
    (t : Node) (a : Rect) → map (λ e. e.0) (calculate_positions t a) ≡ get_all_panes t
unfolding calculate_positions
map-calculate_positions null a = refl
map-calculate_positions (node (some p) d l r q) a = refl
map-calculate_positions (node none d l r q) a =
    map-append (λ e. e.0) (calculate_positions l (left_area d a q))
      (calculate_positions r (right_area d a q))
    ∙ ap₂ ◌++◌ (map-calculate_positions l (left_area d a q))
        (map-calculate_positions r (right_area d a q))

first_at-count_at :
    (px py : ℕ) (xs : List (ℕ × Rect))
    → ((first_at px py xs ≡ none) × (count_at px py xs ≡ 0))
      ⊎ ((p : ℕ) × (first_at px py xs ≡ some p)
          × (0 < count_at px py xs)
          × (contains p (map (λ e. e.0) xs) ≡ true))
first_at-count_at px py [] = inl (refl, refl)
first_at-count_at px py ((p, a) ∷ xs) = elim (Bool-cases (is_inside px py a)) [
  | inl here ↦ inr (p, rw here, rw here (omega arith), rw (==_refl p))
  | inr away ↦ later away (first_at-count_at px py xs)
]
  where
    later :
        is_inside px py a ≡ false
        → ((first_at px py xs ≡ none) × (count_at px py xs ≡ 0))
          ⊎ ((p' : ℕ) × (first_at px py xs ≡ some p')
              × (0 < count_at px py xs)
              × (contains p' (map (λ e. e.0) xs) ≡ true))
        → ((first_at px py ((p, a) ∷ xs) ≡ none) × (count_at px py ((p, a) ∷ xs) ≡ 0))
          ⊎ ((p' : ℕ) × (first_at px py ((p, a) ∷ xs) ≡ some p')
              × (0 < count_at px py ((p, a) ∷ xs))
              × (contains p' (map (λ e. e.0) ((p, a) ∷ xs)) ≡ true))
    later away (inl (e, c)) = inl (rw away e, rw away (omega arith))
    later away (inr (p', e, c, m)) = inr (p', rw away e, rw away (omega arith), ground arith)

-- In a proper layout whose ratios are at most 1, a pane of the layout is found at each point of
-- the area, and none at a point outside of it.
pub get_pane_at_position_lem :
    (t : Node) (a : Rect) (px py : ℕ)
    → IsProper t
    → HasRatios t
    → ((is_inside px py a ≡ false) × (get_pane_at_position t px py a ≡ none))
      ⊎ ((p : ℕ) × (is_inside px py a ≡ true)
          × (get_pane_at_position t px py a ≡ some p)
          × (contains p (get_all_panes t) ≡ true))
unfolding get_pane_at_position
get_pane_at_position_lem t a px py v h = elim (first_at-count_at px py (calculate_positions t a)) [
  | inl (e, c) ↦ inl (ground (arith, calculate_positions_tile t a px py v h), e)
  | inr (p, e, c, m) ↦ inr (
    p,
    ground (arith, calculate_positions_tile t a px py v h),
    e,
    rw (map-calculate_positions t a) at m,
  )
]
