-- ===== src/Layout/Remove.antt =====
-- modules/tui/src/managers/layout.cpp: what `remove_pane` leaves of a proper layout.
use nazg.Base.{
  ℕ, ◌≡◌, refl, none, some, true, false, [], ◌∷◌, arith, contains, contains-append,
  contains-IsDistinct, IsDistinct-append_left, IsDistinct-append_right, IsDistinct,
}
use nazg.Layout.{
  SplitDirection, Node, Side, to_left, to_right, null, node, NodePath, find_parent, update_at,
  promote, promote_left, promote_right, Stale, is_leaf_of, get_all_panes, IsProper,
}

-- `Beside p s t`: in the tree `t` the leaf of pane `p` has the subtree `s` for its sibling, with
-- the leaf on the left or on the right.
pub data Beside (p : ℕ) : Side → Node → Node → Type 0 where
  leaf_left :
      {d : SplitDirection} {q : ℕ} {l s : Node}
      → is_leaf_of l p ≡ true
      → Beside p to_left s (node none d l s q)
  leaf_right :
      {d : SplitDirection} {q : ℕ} {s r : Node}
      → is_leaf_of r p ≡ true
      → Beside p to_right s (node none d s r q)
  in_left :
      {d : SplitDirection} {q : ℕ} {c : Side} {s l r : Node}
      → Beside p c s l
      → Beside p c s (node none d l r q)
  in_right :
      {d : SplitDirection} {q : ℕ} {c : Side} {s l r : Node}
      → Beside p c s r
      → Beside p c s (node none d l r q)

-- The sibling as the two moves leave it in the parent's place.
abbrev pub promoted : Stale → Side → Node → Node
promoted stale c null = null
promoted stale to_left (node p d l r q) = node p d l null stale.split_ratio
promoted stale to_right (node p d l r q) = node p d null stale.right stale.split_ratio

-- The tree with the parent replaced.
abbrev pub replaced : Stale → {p : ℕ} {c : Side} {s t : Node} → Beside p c s t → Node
replaced stale {s = s} (leaf_left h) = promoted stale to_left s
replaced stale {s = s} (leaf_right h) = promoted stale to_right s
replaced stale (in_left {d = d} {q = q} {r = r} b) = node none d (replaced stale b) r q
replaced stale (in_right {d = d} {q = q} {l = l} b) = node none d l (replaced stale b) q

pub is_leaf_of-contains :
    (t : Node) (p : ℕ) → is_leaf_of t p ≡ true → contains p (get_all_panes t) ≡ true
is_leaf_of-contains null p h = cc
is_leaf_of-contains (node (some x) d l r q) p h = ground arith
is_leaf_of-contains (node none d l r q) p h = cc

pub Beside-contains :
    {p : ℕ} {c : Side} {s t : Node} → Beside p c s t → contains p (get_all_panes t) ≡ true
Beside-contains {p} (leaf_left {l = l} {s = s} h) =
    ground (arith, is_leaf_of-contains l p h, contains-append p (get_all_panes l) (get_all_panes s))
Beside-contains {p} (leaf_right {s = s} {r = r} h) =
    ground (arith, is_leaf_of-contains r p h, contains-append p (get_all_panes s) (get_all_panes r))
Beside-contains {p} (in_left {l = l} {r = r} b) =
    ground (arith, Beside-contains b, contains-append p (get_all_panes l) (get_all_panes r))
Beside-contains {p} (in_right {l = l} {r = r} b) =
    ground (arith, Beside-contains b, contains-append p (get_all_panes l) (get_all_panes r))

pub Beside-not_leaf : {p : ℕ} {c : Side} {s t : Node} → Beside p c s t → is_leaf_of t p ≡ false
Beside-not_leaf (leaf_left h) = refl
Beside-not_leaf (leaf_right h) = refl
Beside-not_leaf (in_left b) = refl
Beside-not_leaf (in_right b) = refl

pub is_leaf_of_absent :
    (t : Node) (p : ℕ) → contains p (get_all_panes t) ≡ false → is_leaf_of t p ≡ false
is_leaf_of_absent t p h = ground (arith, is_leaf_of-contains t p)

pub find_parent_absent :
    (t : Node) (p : ℕ) → contains p (get_all_panes t) ≡ false → find_parent t p ≡ none
unfolding find_parent
find_parent_absent null p h = refl
find_parent_absent (node (some x) d l r q) p h = refl
find_parent_absent (node none d l r q) p h = ground (
  arith,
  contains-append p (get_all_panes l) (get_all_panes r),
  is_leaf_of_absent l p,
  is_leaf_of_absent r p,
  find_parent_absent l p,
  find_parent_absent r p,
)

promote_left_side :
    (stale : Stale) (s : Node)
    → IsProper s
    → promote_right stale s ≡ some (promoted stale to_left s)
promote_left_side stale null v = absurd v
promote_left_side stale (node p d l r q) v = refl

promote_right_side :
    (stale : Stale) (s : Node)
    → IsProper s
    → promote_left stale s ≡ some (promoted stale to_right s)
promote_right_side stale null v = absurd v
promote_right_side stale (node p d l r q) v = refl

-- The parent that `find_parent` finds, and the tree after the write through it.
abbrev pub Removes : Stale → {p : ℕ} {c : Side} {s t : Node} → Beside p c s t → Type 0
Removes stale {p} {t = t} b =
    (path : NodePath) × (find_parent t p ≡ some path)
    × (update_at path (promote stale p) t ≡ some (replaced stale b))

pub Beside-Removes :
    (stale : Stale) {p : ℕ} {c : Side} {s t : Node} (b : Beside p c s t)
    → IsProper t
    → IsDistinct (get_all_panes t)
    → Removes stale b
unfolding find_parent update_at
Beside-Removes stale (leaf_left {s = s} h) v u = ([], rw h, rw h (promote_left_side stale s v.1))
Beside-Removes stale {p} (leaf_right {s = s} {r = r} h) v u =
    ([], rw (away, h), rw away (promote_right_side stale s v.0))
  where
    away : is_leaf_of s p ≡ false
    away = ground (
      arith,
      is_leaf_of-contains s p,
      is_leaf_of-contains r p h,
      contains-IsDistinct p (get_all_panes s) (get_all_panes r) u,
    )
Beside-Removes stale {p} (in_left {d = d} {q = q} {l = l} {r = r} b) v u =
    lift (Beside-Removes stale b v.0 (IsDistinct-append_left (get_all_panes l) (get_all_panes r) u))
  where
    right_lacks : contains p (get_all_panes r) ≡ false
    right_lacks = contains-IsDistinct p (get_all_panes l) (get_all_panes r) u (Beside-contains b)

    lift : Removes stale b → Removes stale (in_left {d = d} {q = q} {r = r} b)
    lift (path, found, changed) = (
      to_left ∷ path,
      rw (Beside-not_leaf b, is_leaf_of_absent r p right_lacks, found),
      rw changed,
    )
Beside-Removes stale {p} (in_right {d = d} {q = q} {l = l} {r = r} b) v u =
    lift
      (Beside-Removes stale b v.1 (IsDistinct-append_right (get_all_panes l) (get_all_panes r) u))
  where
    left_lacks : contains p (get_all_panes l) ≡ false
    left_lacks =
        ground
          (arith, contains-IsDistinct p (get_all_panes l) (get_all_panes r) u, Beside-contains b)

    lift : Removes stale b → Removes stale (in_right {d = d} {q = q} {l = l} b)
    lift (path, found, changed) = (
      to_right ∷ path,
      rw (
        is_leaf_of_absent l p left_lacks,
        Beside-not_leaf b,
        find_parent_absent l p left_lacks,
        found,
      ),
      rw changed,
    )
