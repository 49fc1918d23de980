-- ===== src/Window/Render/Sizes.antt =====
-- modules/tui/src/window.cpp: the sizes and the panes of a drawing.
use nazg.Base.{
  ℕ, ◌≡◌, ◌≤◌, ◌+◌, refl, ap₂, subst, ◌-◌, ◌⊎◌, leb, true, false, none, some, List, [], ◌∷◌, ◌++◌,
  map, All, All-append, arith, length, contains, max, min, Bool-cases, inl, inr, length-contains,
  ◌∙◌,
}
use nazg.Layout.{Node, null, node, horizontal, vertical, get_all_panes, IsProper}
use nazg.Layout.Areas.{scale}
use nazg.Window.{Window}
use nazg.Window.Invariant.{IsValid, IsZoom-some}
use nazg.Window.Render.{
  Resize, split_sizes, render_node, render, split_usable, separator_size, is_missing,
}

scale-lt : (size q : ℕ) → 2 ≤ size → q ≤ 95 → scale size q + 1 ≤ size
scale-lt size q h k = grind arith

-- The larger part of a usable size is less than the size.
split_usable_lem :
    (usable q : ℕ)
    → 2 ≤ usable
    → q ≤ 95
    → (1 ≤ (split_usable usable q).0)
      × (1 ≤ (split_usable usable q).1)
      × ((split_usable usable q).0 + (split_usable usable q).1 ≡ usable)
split_usable_lem usable q h k = ground (arith, scale-lt usable q h k)

clamped_ratio : (ratio : ℕ) → max 5 (min 95 ratio) ≤ 95
clamped_ratio ratio = omega arith

-- A split of a size of 3 or more gives at least 1 to both children, and all of the size to them
-- and the separator.
pub split_sizes_fit :
    (size ratio : ℕ)
    → 3 ≤ size
    → (1 ≤ (split_sizes size ratio).0)
      × (1 ≤ (split_sizes size ratio).1)
      × ((split_sizes size ratio).0 + 1 + (split_sizes size ratio).1 ≡ size)
unfolding split_sizes
split_sizes_fit size ratio h =
    let fits =
      split_usable_lem (size - 1) (max 5 (min 95 ratio)) (omega arith) (clamped_ratio ratio) in
    subst
      (λ u.
        (1 ≤ (split_usable u (max 5 (min 95 ratio))).0)
        × (1 ≤ (split_usable u (max 5 (min 95 ratio))).1)
        × ((split_usable u (max 5 (min 95 ratio))).0 + 1 + (split_usable u (max 5 (min 95 ratio))).1
            ≡ size))
      usable (fits.0, fits.1, omega (arith, fits.2))
  where
    usable : size - 1 ≡ max 1 (size - separator_size size)
    usable = ground arith

map-append {ℓ κ} :
    {A : Type ℓ} {B : Type κ} (f : A → B) (xs ys : List A) → map f (xs ++ ys) ≡ map f xs ++ map f ys
map-append f [] ys = refl
map-append f (x ∷ xs) ys = rw (map-append f xs ys)

abbrev pub HasRoom : Resize → Type 0
HasRoom s = (1 ≤ s.width) × (1 ≤ s.height)

not_missing : (t : Node) → IsProper t → is_missing t ≡ false
not_missing null v = absurd v
not_missing (node p d l r q) v = refl

-- Two lists of drawn panes, joined.
both :
    {ps qs : List ℕ} (xs ys : List Resize)
    → (map (λ s. s.pane) xs ≡ ps) × All HasRoom xs
    → (map (λ s. s.pane) ys ≡ qs) × All HasRoom ys
    → (map (λ s. s.pane) (xs ++ ys) ≡ ps ++ qs) × All HasRoom (xs ++ ys)
both xs ys (e, h) (e', h') =
    (map-append (λ s. s.pane) xs ys ∙ ap₂ (λ us vs. us ++ vs) e e', All-append HasRoom xs ys h h')

render_node_lem :
    (t : Node) (width height : ℕ)
    → IsProper t
    → (map (λ s. s.pane) (render_node t width height) ≡ get_all_panes t)
      × All HasRoom (render_node t width height)
unfolding render_node
render_node_lem null width height v = absurd v
render_node_lem (node (some pane) d l r q) width height v = (refl, ((omega arith, omega arith), tt))
render_node_lem (node none horizontal l r q) width height v =
    let sizes = split_sizes (max 1 width) q in
    let left = render_node_lem l sizes.0 (max 1 height) v.0 in
    let right = render_node_lem r sizes.1 (max 1 height) v.1 in
    rw (not_missing l v.0, not_missing r v.1, render_node)
      (both (render_node l sizes.0 (max 1 height)) (render_node r sizes.1 (max 1 height)) left
        right)
render_node_lem (node none vertical l r q) width height v =
    let sizes = split_sizes (max 1 height) q in
    let top = render_node_lem l (max 1 width) sizes.0 v.0 in
    let bottom = render_node_lem r (max 1 width) sizes.1 v.1 in
    rw (not_missing l v.0, not_missing r v.1, render_node)
      (both (render_node l (max 1 width) sizes.0) (render_node r (max 1 width) sizes.1) top bottom)

-- Of a valid window, a zoomed one draws its active pane alone, over the whole size, and any other
-- draws exactly the panes of its layout in their order, each with at least one row and one column.
pub render-Draws :
    (w : Window) (width height : ℕ)
    → IsValid w
    → ((w.zoomed ≡ true)
        × (p : ℕ) × (w.active_pane ≡ some p)
        × (render w width height
            ≡ record { pane = p; width = max 1 width; height = max 1 height } ∷ []))
      ⊎ ((w.zoomed ≡ false)
          × (map (λ s. s.pane) (render w width height) ≡ get_all_panes w.layout)
          × All HasRoom (render w width height))
unfolding render
render-Draws w width height v = elim (Bool-cases w.zoomed) [
  | inl z ↦ inl (zoomed z v.active)
  | inr z ↦ inr (z, (flat z).0, (flat z).1)
]
  where
    filled : leb (length w.panes) 0 ≡ false
    filled = some_pane v.active
      where
        some_pane :
            (p : ℕ) × (w.active_pane ≡ some p) × (contains p w.panes ≡ true)
            → leb (length w.panes) 0 ≡ false
        some_pane (p, _, here) = ground (arith, length-contains p w.panes here)

    flat :
        w.zoomed ≡ false
        → (map (λ s. s.pane) (render w width height) ≡ get_all_panes w.layout)
          × All HasRoom (render w width height)
    flat z =
        rw (filled, not_missing w.layout v.held.proper, z, render)
          (render_node_lem w.layout (max 1 width) (max 1 height) v.held.proper)

    zoomed :
        w.zoomed ≡ true
        → (p : ℕ) × (w.active_pane ≡ some p) × (contains p w.panes ≡ true)
        → (w.zoomed ≡ true)
          × (p : ℕ) × (w.active_pane ≡ some p)
          × (render w width height
              ≡ record { pane = p; width = max 1 width; height = max 1 height } ∷ [])
    zoomed z (p, e, here) = (
      z,
      p,
      e,
      rw
          (
            filled,
            not_missing w.layout v.held.proper,
            z,
            IsZoom-some w.zoomed w.zoom_target w.active_pane v.zoom z ∙ e,
            render,
          )
          refl,
    )
