-- ===== src/Layout/Panes.antt =====
-- modules/tui/src/managers/layout.cpp: which panes a split leaves, and in which order.
use nazg.Base.{
  ℕ, ◌≡◌, ◌⊎◌, refl, none, some, true, false, ◌∷◌, arith, contains, contains-append, insert_after,
  insert_after-append_left, insert_after-append_right, Bool-cases, inl, inr, [],
}
use nazg.Layout.{
  SplitDirection, Node, to_left, to_right, null, node, leaf, NodePath, find_node, update_at,
  split_leaf, split_pane, get_all_panes, IsProper,
}

find_node_absent :
    (t : Node) (p : ℕ) → IsProper t → contains p (get_all_panes t) ≡ false → find_node t p ≡ none
unfolding find_node
find_node_absent null p v h = refl
find_node_absent (node (some x) d l r q) p v h = rw (v.0, v.1) (ground arith)
find_node_absent (node none d l r q) p v h = ground (
  arith,
  contains-append p (get_all_panes l) (get_all_panes r),
  find_node_absent l p v.0,
  find_node_absent r p v.1,
)

-- The split of a pane that is there, made at the node that `find_node` finds.
abbrev Splits : Node → ℕ → ℕ → SplitDirection → Type 0
Splits t p n dir =
    (path : NodePath) × (u : Node) × (find_node t p ≡ some path)
    × (update_at path (split_leaf n dir) t ≡ some u)
    × IsProper u
    × (get_all_panes u ≡ insert_after p n (get_all_panes t))

split_found :
    (t : Node) (p n : ℕ) (dir : SplitDirection)
    → IsProper t
    → contains p (get_all_panes t) ≡ true
    → Splits t p n dir
unfolding find_node update_at
split_found null p n dir v h = absurd v
split_found (node (some x) d l r q) p n dir v h = (
  [],
  node none dir (leaf x) (leaf n) 50,
  ground arith,
  refl,
  ((refl, refl), (refl, refl)),
  ground arith,
)
split_found (node none d l r q) p n dir v h = elim (Bool-cases (contains p (get_all_panes l))) [
  | inl here ↦ go_left here (split_found l p n dir v.0 here)
  | inr gone ↦ go_right gone (
      split_found r p n dir v.1
        (ground (arith, contains-append p (get_all_panes l) (get_all_panes r))))
]
  where
    go_left :
        contains p (get_all_panes l) ≡ true → Splits l p n dir → Splits (node none d l r q) p n dir
    go_left here (path, u, found, changed, proper, panes) = (
      to_left ∷ path,
      node none d u r q,
      rw found,
      rw changed,
      (proper, v.1),
      rw (panes, insert_after-append_left p n (get_all_panes l) (get_all_panes r) here),
    )

    go_right :
        contains p (get_all_panes l) ≡ false → Splits r p n dir → Splits (node none d l r q) p n dir
    go_right gone (path, u, found, changed, proper, panes) = (
      to_right ∷ path,
      node none d l u q,
      rw (find_node_absent l p v.0 gone, found),
      rw changed,
      (v.0, proper),
      rw (panes, insert_after-append_right p n (get_all_panes l) (get_all_panes r) gone),
    )

-- What `split_pane` returns on a proper layout. A pane that is not there is refused. Otherwise the
-- new pane comes directly behind the split one, all other panes keep their places, and the
-- layout stays proper.
abbrev pub SplitOutcome : Node → ℕ → ℕ → SplitDirection → Type 0
SplitOutcome t p n dir =
    ((contains p (get_all_panes t) ≡ false) × (split_pane t p n dir ≡ none))
    ⊎ ((u : Node) × (contains p (get_all_panes t) ≡ true)
        × (split_pane t p n dir ≡ some u)
        × IsProper u
        × (get_all_panes u ≡ insert_after p n (get_all_panes t)))

-- A split of a pane of a proper layout puts the new pane directly behind it and keeps the layout
-- proper; the split of any other pane is refused.
pub split_pane-SplitOutcome :
    (t : Node) (p n : ℕ) (dir : SplitDirection) → IsProper t → SplitOutcome t p n dir
unfolding split_pane
split_pane-SplitOutcome t p n dir v = elim (Bool-cases (contains p (get_all_panes t))) [
  | inl here ↦ inr (found here (split_found t p n dir v here))
  | inr gone ↦ inl (gone, rw (find_node_absent t p v gone, split_pane))
]
  where
    found :
        contains p (get_all_panes t) ≡ true
        → Splits t p n dir
        → (u : Node) × (contains p (get_all_panes t) ≡ true)
          × (split_pane t p n dir ≡ some u)
          × IsProper u
          × (get_all_panes u ≡ insert_after p n (get_all_panes t))
    found here (path, u, at, changed, proper, panes) =
        (u, here, rw (at, split_pane) changed, proper, panes)
