-- ===== src/Layout/Survivors.antt =====
-- modules/tui/src/managers/layout.cpp: the panes that are left when `remove_pane` has returned.
use nazg.Base.{
  ℕ, ◌≡◌, refl, none, some, true, false, ◌∷◌, [], List, ◌++◌, arith, contains, append-nil,
  contains-append, IsDistinct, contains-IsDistinct, IsDistinct-append_left, IsDistinct-append_right,
  erase, erase-append_left, erase-append_right,
}
use nazg.Layout.{
  SplitDirection, Node, Side, to_right, null, node, remove_pane, Stale, is_leaf_of, get_all_panes,
  IsProper,
}
use nazg.Layout.Remove.{
  Beside, leaf_left, leaf_right, in_left, in_right, replaced, Removes, Beside-Removes,
  Beside-contains, is_leaf_of-contains, Beside-not_leaf, find_parent_absent, is_leaf_of_absent,
}

pub remove_pane-replaced :
    (stale : Stale) {p : ℕ} {c : Side} {s t : Node} (b : Beside p c s t)
    → IsProper t
    → IsDistinct (get_all_panes t)
    → remove_pane stale t p ≡ some (replaced stale b)
unfolding remove_pane
remove_pane-replaced stale {p} {t = null} b v u = absurd v
remove_pane-replaced stale {p} {t = node x d l r q} b v u = go (Beside-Removes stale b v u)
  where
    go : Removes stale b → remove_pane stale (node x d l r q) p ≡ some (replaced stale b)
    go (path, found, changed) = rw (Beside-not_leaf b, remove_pane, found) changed

-- A pane that the layout does not hold is refused.
pub remove_pane_absent :
    (stale : Stale) (t : Node) (p : ℕ)
    → contains p (get_all_panes t) ≡ false
    → remove_pane stale t p ≡ none
unfolding remove_pane
remove_pane_absent stale null p h = refl
remove_pane_absent stale (node x d l r q) p h =
    rw (is_leaf_of_absent (node x d l r q) p h, find_parent_absent (node x d l r q) p h)

lacks_left :
    (p : ℕ) (xs ys : List ℕ) → IsDistinct (xs ++ ys) → contains p ys ≡ true → contains p xs ≡ false
lacks_left p xs ys u h = ground (arith, contains-IsDistinct p xs ys u)

get_all_panes-is_leaf_of : (t : Node) (p : ℕ) → is_leaf_of t p ≡ true → get_all_panes t ≡ p ∷ []
get_all_panes-is_leaf_of null p h = cc
get_all_panes-is_leaf_of (node (some x) d l r q) p h = ground arith
get_all_panes-is_leaf_of (node none d l r q) p h = cc

-- A leaf `x` and the pane `p` beside it.
module _ (stale : Stale) {p x : ℕ} {d : SplitDirection} {l r : Node} {q : ℕ} where
  replaced-IsProper :
      {c : Side} {t : Node} (b : Beside p c (node (some x) d l r q) t)
      → IsProper t
      → (c ≡ to_right → stale.right ≡ null)
      → IsProper (replaced stale b)
  replaced-IsProper (leaf_left h) v e = (v.1.0, refl)
  replaced-IsProper (leaf_right h) v e = (refl, e refl)
  replaced-IsProper (in_left b) v e = (replaced-IsProper b v.0 e, v.1)
  replaced-IsProper (in_right b) v e = (v.0, replaced-IsProper b v.1 e)

  get_all_panes-replaced :
      {c : Side} {t : Node} (b : Beside p c (node (some x) d l r q) t)
      → IsProper t
      → IsDistinct (get_all_panes t)
      → get_all_panes (replaced stale b) ≡ erase p (get_all_panes t)
  get_all_panes-replaced (leaf_left {l = a} h) v u =
      rw (get_all_panes-is_leaf_of a p h) (ground arith)
  get_all_panes-replaced (leaf_right {r = a} h) v u =
      let e = get_all_panes-is_leaf_of a p h in rw e (ground (arith, rw e at u))
  get_all_panes-replaced (in_left {l = a} {r = a'} b) v u = rw (
    get_all_panes-replaced b v.0 (IsDistinct-append_left (get_all_panes a) (get_all_panes a') u),
    erase-append_left p (get_all_panes a) (get_all_panes a') (Beside-contains b),
  )
  get_all_panes-replaced (in_right {l = a} {r = a'} b) v u = rw (
    get_all_panes-replaced b v.1 (IsDistinct-append_right (get_all_panes a) (get_all_panes a') u),
    erase-append_right p (get_all_panes a) (get_all_panes a')
        (lacks_left p (get_all_panes a) (get_all_panes a') u (Beside-contains b)),
  )

-- The panes of the sibling are panes of the tree.
pub Beside-sibling :
    {p : ℕ} {c : Side} {s t : Node} (b : Beside p c s t) (x : ℕ)
    → contains x (get_all_panes s) ≡ true
    → contains x (get_all_panes t) ≡ true
Beside-sibling (leaf_left {l = a} {s = s} h) x m =
    ground (arith, contains-append x (get_all_panes a) (get_all_panes s))
Beside-sibling (leaf_right {s = s} {r = a} h) x m =
    ground (arith, contains-append x (get_all_panes s) (get_all_panes a))
Beside-sibling (in_left {l = a} {r = a'} b) x m =
    ground (arith, contains-append x (get_all_panes a) (get_all_panes a'), Beside-sibling b x m)
Beside-sibling (in_right {l = a} {r = a'} b) x m =
    ground (arith, contains-append x (get_all_panes a) (get_all_panes a'), Beside-sibling b x m)

-- The pane itself is none of them.
pub Beside-sibling_lacks :
    {p : ℕ} {c : Side} {s t : Node}
    → Beside p c s t
    → IsDistinct (get_all_panes t)
    → contains p (get_all_panes s) ≡ false
Beside-sibling_lacks {p} (leaf_left {l = a} {s = s} h) u =
    contains-IsDistinct p (get_all_panes a) (get_all_panes s) u (is_leaf_of-contains a p h)
Beside-sibling_lacks {p} (leaf_right {s = s} {r = a} h) u =
    lacks_left p (get_all_panes s) (get_all_panes a) u (is_leaf_of-contains a p h)
Beside-sibling_lacks (in_left {l = a} {r = a'} b) u =
    Beside-sibling_lacks b (IsDistinct-append_left (get_all_panes a) (get_all_panes a') u)
Beside-sibling_lacks (in_right {l = a} {r = a'} b) u =
    Beside-sibling_lacks b (IsDistinct-append_right (get_all_panes a) (get_all_panes a') u)

-- A split and the pane `p` beside it.
module _ (stale : Stale) {p : ℕ} {d : SplitDirection} {l r : Node} {q : ℕ} where
  replaced_not_proper :
      {c : Side} {t : Node} (b : Beside p c (node none d l r q) t)
      → (c ≡ to_right → stale.right ≡ null)
      → ¬ IsProper (replaced stale b)
  replaced_not_proper (leaf_left h) e v = v.1
  replaced_not_proper (leaf_right h) e v = v.0
  replaced_not_proper (in_left b) e v = replaced_not_proper b e v.0
  replaced_not_proper (in_right b) e v = replaced_not_proper b e v.1

  -- The panes of the sibling's right half are gone.
  replaced_lost :
      {c : Side} {t : Node} (b : Beside p c (node none d l r q) t) (x : ℕ)
      → IsDistinct (get_all_panes t)
      → (c ≡ to_right → stale.right ≡ null)
      → contains x (get_all_panes r) ≡ true
      → contains x (get_all_panes (replaced stale b)) ≡ false
  replaced_lost (leaf_left {l = a} h) x u e m = rw append-nil (
      lacks_left x (get_all_panes l) (get_all_panes r)
        (IsDistinct-append_right (get_all_panes a) (get_all_panes l ++ get_all_panes r) u) m)
  replaced_lost (leaf_right h) x u e m = rw (e refl)
  replaced_lost (in_left {l = a} {r = a'} b) x u e m = ground (
    arith,
    contains-append x (get_all_panes (replaced stale b)) (get_all_panes a'),
    replaced_lost b x (IsDistinct-append_left (get_all_panes a) (get_all_panes a') u) e m,
    contains-IsDistinct x (get_all_panes a) (get_all_panes a') u,
    Beside-sibling b x,
    contains-append x (get_all_panes l) (get_all_panes r),
  )
  replaced_lost (in_right {l = a} {r = a'} b) x u e m = ground (
    arith,
    contains-append x (get_all_panes a) (get_all_panes (replaced stale b)),
    replaced_lost b x (IsDistinct-append_right (get_all_panes a) (get_all_panes a') u) e m,
    lacks_left x (get_all_panes a) (get_all_panes a') u,
    Beside-sibling b x,
    contains-append x (get_all_panes l) (get_all_panes r),
  )

-- Closing a pane beside a single pane, in a proper layout of different panes, succeeds and removes
-- it and nothing else: the layout stays proper and the other panes keep their order, if the pane is
-- the left half, or the freed node reads as having no right child.
pub remove_pane-Beside_leaf :
    (stale : Stale) {p x : ℕ} {c : Side} {d : SplitDirection} {l r t : Node} {q : ℕ}
    → Beside p c (node (some x) d l r q) t
    → IsProper t
    → IsDistinct (get_all_panes t)
    → (c ≡ to_right → stale.right ≡ null)
    → (u : Node) × (remove_pane stale t p ≡ some u)
      × IsProper u
      × (get_all_panes u ≡ erase p (get_all_panes t))
remove_pane-Beside_leaf stale b v u e = (
  replaced stale b,
  remove_pane-replaced stale b v u,
  replaced-IsProper stale b v e,
  get_all_panes-replaced stale b v u,
)

-- Closing a pane beside a split, in a proper layout of different panes, succeeds, loses every pane
-- `x` of the right half of this split and leaves the layout improper, if the pane is the left half,
-- or the freed node reads as having no right child.
pub remove_pane-Beside_split :
    (stale : Stale) {p : ℕ} {c : Side} {d : SplitDirection} {l r t : Node} {q : ℕ} (x : ℕ)
    → Beside p c (node none d l r q) t
    → IsProper t
    → IsDistinct (get_all_panes t)
    → (c ≡ to_right → stale.right ≡ null)
    → contains x (get_all_panes r) ≡ true
    → (u : Node) × (remove_pane stale t p ≡ some u)
      × (¬ IsProper u)
      × (contains x (get_all_panes u) ≡ false)
remove_pane-Beside_split stale x b v u e m = (
  replaced stale b,
  remove_pane-replaced stale b v u,
  replaced_not_proper stale b e,
  replaced_lost stale b x u e m,
)
