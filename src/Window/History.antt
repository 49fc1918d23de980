-- ===== src/Window/History.antt =====
-- modules/tui/src/window.cpp: the windows that sequences of calls lead to.
use nazg.Base.{
  ℕ, ◌≡◌, ◌<◌, refl, subst, sym, inl, inr, true, false, some, List, contains, length, Bool-cases,
  Option-cases, arith, ◌==◌,
}
use nazg.Layout.{Node, node, to_left, SplitDirection, Stale}
use nazg.Layout.Remove.{Beside}
use nazg.Window.{
  Window, init, split_active, close_active, navigate, toggle_zoom, save_layout, restore_layout,
  input_pane,
}
use nazg.Window.Invariant.{IsValid, init-IsValid}
use nazg.Window.Split.{split_active-SplitsActive}
use nazg.Window.Moves.{navigate-Navigates, toggle_zoom_twice, save_layout_lem}
use nazg.Window.Restore.{Makes, restore_layout-Restores}
use nazg.Window.Close.{close_active-Closes}

-- `make_panes k` are the panes that one run of the loop in `restore_layout` makes, for as many as asked
-- for: a restore may have any `k`, and so panes of its own.
module _ (make_panes : ℕ → ℕ → List ℕ) where
  -- One call. A split gets a new pane, and a close is one of a left half beside a single pane; what is
  -- read of the node that it frees is any.
  pub data Call (w w' : Window) : Type 0 where
    splits :
        (n : ℕ) (dir : SplitDirection)
        → contains n w.panes ≡ false
        → w' ≡ (split_active w dir n).1
        → Call w w'
    closes :
        (stale : Stale) (p : ℕ) {x : ℕ} {d : SplitDirection} {l r : Node} {q : ℕ}
        → w.active_pane ≡ some p
        → 1 < length w.panes
        → Beside p to_left (node (some x) d l r q) w.layout
        → w' ≡ (close_active stale w).1
        → Call w w'
    navigates : (direction : ℕ) → w' ≡ (navigate w direction).1 → Call w w'
    zooms : w' ≡ (toggle_zoom w).1 → Call w w'
    saves : w' ≡ (save_layout w).1 → Call w w'
    restores : (k : ℕ) → w' ≡ (restore_layout (make_panes k) w).1 → Call w w'

  -- The windows reached from a new one.
  pub data Reached : Window → Type 0 where
    starts : (p : ℕ) → Reached (init p)
    then_calls : {w w' : Window} → Reached w → Call w w' → Reached w'

  navigate-IsValid : (w : Window) (direction : ℕ) → IsValid w → IsValid (navigate w direction).1
  navigate-IsValid w direction v = moved v.active
    where
      moved :
          (p : ℕ) × (w.active_pane ≡ some p) × (contains p w.panes ≡ true)
          → IsValid (navigate w direction).1
      moved (p, e, _) = elim (navigate-Navigates w p direction v e) [
        | inl (_, same) ↦ subst (λ r. IsValid r.1) (sym same) v
        | inr (q, _, moves) ↦ moves.5
      ]

  restore_layout-IsValid :
      (w : Window) (k : ℕ)
      → Makes (make_panes k)
      → IsValid w
      → IsValid (restore_layout (make_panes k) w).1
  unfolding restore_layout
  restore_layout-IsValid w k makes v = elim (Option-cases w.saved_layout) [
    | inl nothing ↦ rw (nothing, restore_layout) v
    | inr (s, e) ↦ elim (Bool-cases (s.saved.leaf_count == 0)) [
      | inl empty ↦ rw (e, empty, restore_layout) v
      | inr filled ↦ (restore_layout-Restores (make_panes k) w s makes v e (ground arith)).1
    ]
  ]

  Call-IsValid :
      (w w' : Window) → ((k : ℕ) → Makes (make_panes k)) → IsValid w → Call w w' → IsValid w'
  Call-IsValid w w' makes v (splits n dir new e) = subst IsValid (sym e) (split v.active)
    where
      split :
          (p : ℕ) × (w.active_pane ≡ some p) × (contains p w.panes ≡ true)
          → IsValid (split_active w dir n).1
      split (p, a, _) = (split_active-SplitsActive w p n dir v a new).1
  Call-IsValid w w' makes v (closes stale p a many b e) =
      subst IsValid (sym e) (close_active-Closes stale w p v a many (λ h. absurd (cc h)) b).1
  Call-IsValid w w' makes v (navigates direction e) =
      subst IsValid (sym e) (navigate-IsValid w direction v)
  Call-IsValid w w' makes v (zooms e) = subst IsValid (sym e) (zoom v.active)
    where
      zoom :
          (p : ℕ) × (w.active_pane ≡ some p) × (contains p w.panes ≡ true)
          → IsValid (toggle_zoom w).1
      zoom (p, a, _) = (toggle_zoom_twice w p v a).0
  Call-IsValid w w' makes v (saves e) = subst IsValid (sym e) (save_layout_lem w v).1
  Call-IsValid w w' makes v (restores k e) =
      subst IsValid (sym e) (restore_layout-IsValid w k (makes k) v)

  Reached-IsValid : (w : Window) → ((k : ℕ) → Makes (make_panes k)) → Reached w → IsValid w
  Reached-IsValid w makes (starts p) = init-IsValid p
  Reached-IsValid w makes (then_calls {w = v} r c) =
      Call-IsValid v w makes (Reached-IsValid v makes r) c

-- Every window that is reached from a new one by splits with new panes, closes of a left half beside
-- a single pane, moves, zooms, saves and restores, in any order and number, is valid, and sends its
-- input to its active pane, if the panes made for each restore are all different and as many as asked
-- for. What a close reads of the node that it frees may be anything, another thing at each close.
pub Reached-sends_input :
    (make_panes : ℕ → ℕ → List ℕ) (w : Window)
    → ((k : ℕ) → Makes (make_panes k))
    → Reached make_panes w
    → IsValid w × (input_pane w ≡ w.active_pane)
unfolding input_pane
Reached-sends_input make_panes w makes r = (valid, sends valid.active)
  where
    valid : IsValid w
    valid = Reached-IsValid make_panes w makes r

    sends :
        (p : ℕ) × (w.active_pane ≡ some p) × (contains p w.panes ≡ true)
        → input_pane w ≡ w.active_pane
    sends (p, e, here) = rw (e, input_pane, here) refl
