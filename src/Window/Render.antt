-- ===== src/Window/Render.antt =====
-- modules/tui/src/window.cpp: the sizes that `render` and `render_node` give to the panes. The
-- elements of the drawing are left out. The ratio is clamped to 5 up to 95 hundredths, and the
-- sizes are not negative.
pub mod Sizes
use nazg.Base.{
  ℕ, ◌+◌, ◌-◌, max, min, Bool, true, false, Option, none, some, List, [], ◌∷◌, ◌++◌, ◌&&◌, ◌||◌,
  ltb, leb, length, ◌==◌, if◌then◌else◌,
}
use nazg.Layout.{Node, null, node, horizontal, vertical}
use nazg.Layout.Areas.{scale}
use nazg.Window.{Window}

-- A pane with the width and the height that `resize` gets.
pub record Resize : Type 0 where
  pub pane : ℕ
  pub width : ℕ
  pub height : ℕ

abbrev pub separator_size : ℕ → ℕ
separator_size clamped = if ltb 1 clamped then 1 else 0

-- Both parts of the usable size, with the correction for rounding.
abbrev pub adjusted : ℕ → ℕ → ℕ → ℕ × ℕ
adjusted usable left right =
    if left + right == usable
    then (left, right)
    else let right' = (right + usable) - (left + right) in
      if ltb right' 1 then (max 1 (usable - 1), 1) else (left, right')

abbrev pub split_usable : ℕ → ℕ → ℕ × ℕ
split_usable usable ratio =
    let left = max 1 (scale usable ratio) in adjusted usable left (max 1 (usable - left))

-- The sizes of the two children along a split.
unfoldable pub split_sizes : ℕ → ℕ → ℕ × ℕ
split_sizes clamped ratio =
    split_usable (max 1 (clamped - separator_size clamped)) (max 5 (min 95 ratio))

abbrev pub is_missing : Node → Bool
is_missing null = true
is_missing (node p d l r q) = false

unfoldable pub render_node : Node → ℕ → ℕ → List Resize
unfolding split_sizes
render_node null width height = []
render_node (node (some pane) d l r q) width height =
    record { pane = pane; width = max 1 width; height = max 1 height } ∷ []
render_node (node none horizontal l r q) width height =
    let sizes = split_sizes (max 1 width) q in
    let left = render_node l sizes.0 (max 1 height) in
    let right = render_node r sizes.1 (max 1 height) in
    if is_missing l || is_missing r then [] else left ++ right
render_node (node none vertical l r q) width height =
    let sizes = split_sizes (max 1 height) q in
    let top = render_node l (max 1 width) sizes.0 in
    let bottom = render_node r (max 1 width) sizes.1 in
    if is_missing l || is_missing r then [] else top ++ bottom

abbrev render_zoomed : Window → Option ℕ → ℕ → ℕ → List Resize
render_zoomed w none width height = render_node w.layout (max 1 width) (max 1 height)
render_zoomed w (some target) width height =
    record { pane = target; width = max 1 width; height = max 1 height } ∷ []

unfoldable pub render : Window → ℕ → ℕ → List Resize
unfolding render_node
render w width height =
    if leb (length w.panes) 0 || is_missing w.layout
    then []
    else if w.zoomed
    then render_zoomed w w.zoom_target width height
    else render_node w.layout (max 1 width) (max 1 height)
