-- ===== src/Layout/Snapshot.antt =====
-- modules/tui/src/managers/layout.cpp: `snapshot` and `restore_from_snapshot`, which keep the shape
-- of the tree and number its leaves from left to right.
use mathlib.Core.Bool.{◌||◌}
use nazg.Base.{
  ℕ, ◌≡◌, ◌+◌, refl, ap, sym, append-nil, ◌≢◌, none, some, Bool, true, false, Option, List, [], ◌∷◌,
  ◌++◌, arith, append_assoc, length, length-append, get_elem?, ◌==◌, if◌then◌else◌, zero, suc,
}
use nazg.Layout.{SplitDirection, horizontal, Node, null, node, get_all_panes, IsProper}

-- `Layout::Snapshot::Node`: is_leaf, split_dir, split_ratio, leaf_index, left, right.
pub data SnapNode : Type 0 where
  none_node : SnapNode
  snap : Bool → SplitDirection → ℕ → ℕ → SnapNode → SnapNode → SnapNode

pub record Snapshot : Type 0 where
  pub root : SnapNode
  pub leaf_count : ℕ

-- The lambda `clone`: the copy and the leaf counter behind it.
pub clone : Node → ℕ → SnapNode × ℕ
clone null counter = (none_node, counter)
clone (node (some pane) d l r q) counter =
    (snap true horizontal 50 counter none_node none_node, counter + 1)
clone (node none d l r q) counter =
    let (l', counter_l) = clone l counter in
    let (r', counter_r) = clone r counter_l in (snap false d q 0 l' r', counter_r)

unfoldable pub snapshot : Node → Snapshot
unfolding clone
snapshot root = record { root = (clone root 0).0; leaf_count = (clone root 0).1 }

abbrev leaf_at : Option ℕ → Node
leaf_at none = null
leaf_at (some pane) = node (some pane) horizontal null null 50

abbrev is_null : Node → Bool
is_null null = true
is_null (node p d l r q) = false

-- The lambda `build`; `null` is its failure.
pub build : List ℕ → SnapNode → Node
build leaves none_node = null
build leaves (snap true d q i l r) = leaf_at (get_elem? leaves i)
build leaves (snap false d q i l r) =
    if is_null (build leaves l) || is_null (build leaves r)
    then null
    else node none d (build leaves l) (build leaves r) q

abbrev is_empty : List ℕ → Bool
is_empty [] = true
is_empty (x ∷ xs) = false

abbrev is_absent : SnapNode → Bool
is_absent none_node = true
is_absent (snap f d q i l r) = false

-- The result, and the root that the layout has behind the call.
unfoldable pub restore_from_snapshot : Node → Snapshot → List ℕ → Bool × Node
unfolding build
restore_from_snapshot root saved leaves =
    if is_absent saved.root
    then (is_empty leaves, null)
    else if saved.leaf_count == length leaves
    then if is_null (build leaves saved.root)
      then (false, root)
      else (true, build leaves saved.root)
    else (false, root)

clone_count : (t : Node) (k : ℕ) → IsProper t → (clone t k).1 ≡ k + length (get_all_panes t)
unfolding clone
clone_count null k v = absurd v
clone_count (node (some p) d l r q) k v = refl
clone_count (node none d l r q) k v = omega (
  arith,
  clone_count l k v.0,
  clone_count r (clone l k).1 v.1,
  length-append (get_all_panes l) (get_all_panes r),
)

clone-present : (t : Node) (k : ℕ) → IsProper t → is_absent (clone t k).0 ≡ false
unfolding clone
clone-present null k v = absurd v
clone-present (node (some p) d l r q) k v = refl
clone-present (node none d l r q) k v = refl

get_elem?-append : (xs ys : List ℕ) (y : ℕ) → get_elem? (xs ++ y ∷ ys) (length xs) ≡ some y
get_elem?-append [] ys y = refl
get_elem?-append (x ∷ xs) ys y = get_elem?-append xs ys y

-- A list as long as a sum falls into two parts.
split_length :
    (xs : List ℕ) (m n : ℕ)
    → length xs ≡ m + n
    → (ys zs : List ℕ) × (xs ≡ ys ++ zs) × (length ys ≡ m) × (length zs ≡ n)
split_length xs zero n h = ([], xs, refl, refl, omega (arith, h))
split_length [] (suc m) n h = absurd (omega arith)
split_length (x ∷ xs) (suc m) n h = cons (split_length xs m n (omega arith))
  where
    cons :
        (ys zs : List ℕ) × (xs ≡ ys ++ zs) × (length ys ≡ m) × (length zs ≡ n)
        → (ys zs : List ℕ) × ((x ∷ xs) ≡ ys ++ zs) × (length ys ≡ suc m) × (length zs ≡ n)
    cons (ys, zs, e, a, b) = (x ∷ ys, zs, ap (◌∷◌ x) e, ap suc a, b)

-- The tree built from a copy over the given panes: proper, with these panes, and of the same shape.
record Rebuilds (t u : Node) (k : ℕ) (panes : List ℕ) : Type 0 where
  proper : IsProper u
  same_panes : get_all_panes u ≡ panes
  same_shape : clone u k ≡ clone t k

IsProper-not_null : (t : Node) → IsProper t → is_null t ≡ false
IsProper-not_null null v = absurd v
IsProper-not_null (node p d l r q) v = refl

Rebuilds-join :
    {l r u w : Node} (d : SplitDirection) (q k : ℕ) {ys zs : List ℕ}
    → Rebuilds l u k ys
    → Rebuilds r w (clone l k).1 zs
    → Rebuilds
        (node none d l r q)
        (if is_null u || is_null w then null else node none d u w q)
        k
        (ys ++ zs)
unfolding clone
Rebuilds-join {u = u} {w = w} d q k a b =
    rw (IsProper-not_null u a.proper, IsProper-not_null w b.proper)
      (record {
        proper = (a.proper, b.proper);
        same_panes = rw (a.same_panes, b.same_panes);
        same_shape = rw (a.same_shape, b.same_shape);
      })

build-clone :
    (t : Node) (leaves before panes behind : List ℕ) (k : ℕ)
    → IsProper t
    → length before ≡ k
    → length panes ≡ length (get_all_panes t)
    → leaves ≡ before ++ (panes ++ behind)
    → Rebuilds t (build leaves (clone t k).0) k panes
unfolding build clone
build-clone null leaves before panes behind k v a b e = absurd v
build-clone (node (some p) d l r q) leaves before [] behind k v a b e = absurd (omega arith)
build-clone (node (some p) d l r q) leaves before (x ∷ y ∷ zs) behind k v a b e =
    absurd (omega arith)
build-clone (node (some p) d l r q) leaves before (x ∷ []) behind k v a b e =
    rw (e, ← a, get_elem?-append before behind x)
      (record { proper = (refl, refl); same_panes = refl; same_shape = refl })
build-clone (node none d l r q) leaves before panes behind k v a b e =
    halves
      (split_length panes (length (get_all_panes l)) (length (get_all_panes r))
        (omega (arith, b, length-append (get_all_panes l) (get_all_panes r))))
      (λ ys zs. build-clone l leaves before ys (zs ++ behind) k v.0 a)
      (λ ys zs. build-clone r leaves (before ++ ys) zs behind (clone l k).1 v.1)
  where
    halves :
        (ys zs : List ℕ) × (panes ≡ ys ++ zs)
          × (length ys ≡ length (get_all_panes l))
          × (length zs ≡ length (get_all_panes r))
        → ((ys zs : List ℕ)
            → length ys ≡ length (get_all_panes l)
            → leaves ≡ before ++ (ys ++ (zs ++ behind))
            → Rebuilds l (build leaves (clone l k).0) k ys)
        → ((ys zs : List ℕ)
            → length (before ++ ys) ≡ (clone l k).1
            → length zs ≡ length (get_all_panes r)
            → leaves ≡ (before ++ ys) ++ (zs ++ behind)
            → Rebuilds r (build leaves (clone r (clone l k).1).0) (clone l k).1 zs)
        → Rebuilds (node none d l r q) (build leaves (clone (node none d l r q) k).0) k panes
    halves (ys, zs, parts, m, n) left right = rw parts (
        Rebuilds-join d q k (left ys zs m (rw (e, parts, append_assoc))) (
          right ys zs (omega (arith, a, m, length-append before ys, clone_count l k v.0)) n
            (simp (e, parts, append_assoc))))

-- The snapshot of a proper layout is restored over any panes of the right number: the call
-- succeeds, the layout is proper and holds these panes in their order, and a snapshot of it is the
-- first one again.
pub restore-snapshot :
    (root t : Node) (leaves : List ℕ)
    → IsProper t
    → length leaves ≡ length (get_all_panes t)
    → (u : Node) × (restore_from_snapshot root (snapshot t) leaves ≡ (true, u))
      × IsProper u
      × (get_all_panes u ≡ leaves)
      × (snapshot u ≡ snapshot t)
unfolding restore_from_snapshot snapshot
restore-snapshot root t leaves v h =
    result (build-clone t leaves [] leaves [] 0 v refl h (sym (append-nil leaves)))
  where
    result :
        Rebuilds t (build leaves (clone t 0).0) 0 leaves
        → (u : Node) × (restore_from_snapshot root (snapshot t) leaves ≡ (true, u))
          × IsProper u
          × (get_all_panes u ≡ leaves)
          × (snapshot u ≡ snapshot t)
    result b = (
      build leaves (clone t 0).0,
      ground (
        arith,
        clone-present t 0 v,
        clone_count t 0 v,
        IsProper-not_null (build leaves (clone t 0).0) b.proper,
      ),
      b.proper,
      b.same_panes,
      rw b.same_shape,
    )

-- Restoring the snapshot of a proper layout over any other number of panes fails and leaves the
-- layout as it was.
pub restore_wrong_count :
    (root t : Node) (leaves : List ℕ)
    → IsProper t
    → length leaves ≢ length (get_all_panes t)
    → restore_from_snapshot root (snapshot t) leaves ≡ (false, root)
unfolding restore_from_snapshot snapshot
restore_wrong_count root t leaves v h = ground (arith, clone-present t 0 v, clone_count t 0 v)

pub leaf_count-snapshot :
    (t : Node) → IsProper t → (snapshot t).leaf_count ≡ length (get_all_panes t)
unfolding snapshot
leaf_count-snapshot t v = omega (arith, clone_count t 0 v)
