-- ===== src/Layout.antt =====
-- modules/tui/src/managers/layout.cpp and its header: the binary tree of panes.
-- A `Pane*` is a number, a `unique_ptr<Node>` is a `Node` with `null` for the empty pointer, and a
-- `Node*` into the tree is the path that leads to it from the root.
-- The only ratio that the program ever stores is 0.5f. Ratios are counted in hundredths, so that
-- it is 50, and sizes are not negative; for sizes below 2^24 the float product is exact.
pub mod Panes
pub mod Remove
pub mod Survivors
pub mod Snapshot
pub mod Areas
pub mod Direction
mod Examples
use nazg.Base.{
  ℕ, ◌≡◌, Bool, true, false, Option, none, some, List, [], ◌∷◌, ◌++◌, ◌==◌, if◌then◌else◌,
}
use mathlib.Core.Option

pub data SplitDirection : Type 0 where
  horizontal vertical : SplitDirection

-- Fields: pane (none is nullptr), split_dir, left, right, split_ratio.
pub data Node : Type 0 where
  null : Node
  node : Option ℕ → SplitDirection → Node → Node → ℕ → Node

-- A node as `make_unique<Node>()` leaves it, with its pane set.
abbrev pub leaf : ℕ → Node
leaf pane = node (some pane) horizontal null null 50

pub data Side : Type 0 where
  to_left to_right : Side

abbrev pub NodePath : Type 0
NodePath = List Side

-- `node->is_leaf() && node->pane == target`, false at a null pointer.
abbrev pub is_leaf_of : Node → ℕ → Bool
is_leaf_of null target = false
is_leaf_of (node (some pane) d l r q) target = pane == target
is_leaf_of (node none d l r q) target = false

-- The first path found, with its last step put in front.
abbrev pub first_path : Option NodePath → Option NodePath → Option NodePath
first_path (some path) other = some (to_left ∷ path)
first_path none (some path) = some (to_right ∷ path)
first_path none none = none

pub find_node : Node → ℕ → Option NodePath
find_node null target = none
find_node (node p d l r q) target =
    if is_leaf_of (node p d l r q) target
    then some []
    else first_path (find_node l target) (find_node r target)

-- A write through the pointer that a path stands for.
pub update_at : NodePath → (Node → Option Node) → Node → Option Node
update_at [] f t = f t
update_at (s ∷ path) f null = none
update_at (to_left ∷ path) f (node p d l r q) =
    Option.map (λ l'. node p d l' r q) (update_at path f l)
update_at (to_right ∷ path) f (node p d l r q) =
    Option.map (λ r'. node p d l r' q) (update_at path f r)

-- The leaf becomes a split of the old pane, on the left, and the new one.
abbrev pub split_leaf : ℕ → SplitDirection → Node → Option Node
split_leaf new_pane dir null = none
split_leaf new_pane dir (node none d l r q) = none
split_leaf new_pane dir (node (some old) d l r q) =
    some (node none dir (leaf old) (leaf new_pane) 50)

-- `none` is the result false, with the tree left alone.
unfoldable pub split_pane : Node → ℕ → ℕ → SplitDirection → Option Node
unfolding find_node update_at
split_pane root target new_pane dir = elim (find_node root target) [
  | none ↦ none
  | some path ↦ update_at path (split_leaf new_pane dir) root
]

-- The lambda `find_parent` of `remove_pane`.
pub find_parent : Node → ℕ → Option NodePath
find_parent null target = none
find_parent (node (some p) d l r q) target = none
find_parent (node none d l r q) target =
    if is_leaf_of l target
    then some []
    else if is_leaf_of r target
    then some []
    else first_path (find_parent l target) (find_parent r target)

-- What the memory of a node that has just been freed reads as.
pub record Stale : Type 0 where
  pub right : Node
  pub split_ratio : ℕ

-- `*parent = std::move(*promote_ptr); promote_ptr.reset();` The fields are moved in the order of
-- their declaration. `promote_ptr` is one of the two child pointers of `parent`, so that the move of
-- this child frees the promoted node, the fields behind it are read from freed memory, and the last
-- `reset` frees what the move has just put there.
abbrev pub promote_right : Stale → Node → Option Node
promote_right stale null = none
promote_right stale (node p d l r q) = some (node p d l null stale.split_ratio)

abbrev pub promote_left : Stale → Node → Option Node
promote_left stale null = none
promote_left stale (node p d l r q) = some (node p d null stale.right stale.split_ratio)

abbrev pub promote : Stale → ℕ → Node → Option Node
promote stale pane null = none
promote stale pane (node p d l r q) =
    if is_leaf_of l pane then promote_right stale r else promote_left stale l

abbrev pub remove_child : Stale → ℕ → Node → Option NodePath → Option Node
remove_child stale pane root none = none
remove_child stale pane root (some path) = update_at path (promote stale pane) root

-- `none` is the result false; `some null` is the empty layout.
unfoldable pub remove_pane : Stale → Node → ℕ → Option Node
unfolding find_parent update_at
remove_pane stale null pane = none
remove_pane stale (node p d l r q) pane =
    if is_leaf_of (node p d l r q) pane
    then some null
    else remove_child stale pane (node p d l r q) (find_parent (node p d l r q) pane)

-- `get_all_panes`: the panes from left to right.
abbrev pub get_all_panes : Node → List ℕ
get_all_panes null = []
get_all_panes (node (some pane) d l r q) = pane ∷ []
get_all_panes (node none d l r q) = get_all_panes l ++ get_all_panes r

-- A leaf has no children, and a split has two.
abbrev pub IsProper : Node → Type 0
IsProper null = ⊥
IsProper (node (some pane) d l r q) = (l ≡ null) × (r ≡ null)
IsProper (node none d l r q) = IsProper l × IsProper r
