-- ===== src/Window/Moves.antt =====
-- modules/tui/src/window.cpp: `navigate`, `toggle_zoom` and `save_layout` on valid windows.
use nazg.Base.{
  ℕ, ◌≡◌, ◌≢◌, ◌⊎◌, ◌<◌, inl, inr, refl, sym, subst, ◌∙◌, Bool, true, false, none, some, arith,
  contains, length, Bool-cases, Option-cases, length-contains,
}
use nazg.Layout.{Node, null, get_all_panes, IsProper}
use nazg.Layout.Snapshot.{snapshot, leaf_count-snapshot}
use nazg.Layout.Direction.{get_pane_in_direction}
use nazg.Layout.Direction.Nearest.{get_pane_in_direction-contains}
use nazg.Window.{
  Window, SavedLayout, navigate, navigate_from, toggle_zoom, unzoom, save_layout, set_active_locked,
  is_null, active_index,
}
use nazg.Window.Invariant.{IsValid, IsZoom-none, IsZoom-some, set_active_locked-IsValid}

navigate-navigate_from :
    (w : Window) (p direction : ℕ)
    → w.active_pane ≡ some p
    → navigate w direction ≡ navigate_from w p direction
unfolding navigate
navigate-navigate_from w p direction e = simp (e, navigate)

navigate_from-none :
    (w : Window) (p direction : ℕ)
    → get_pane_in_direction w.layout p direction ≡ none
    → navigate_from w p direction ≡ (false, w)
navigate_from-none w p direction e = simp (e, navigate_from)

navigate_from-some :
    (w : Window) (p direction q : ℕ)
    → get_pane_in_direction w.layout p direction ≡ some q
    → navigate_from w p direction ≡ (true, set_active_locked w (some q))
navigate_from-some w p direction q e = simp (e, navigate_from)

-- The pane `q` is another one of the window than `p`, and it has become the active one.
abbrev pub MovedTo : Window → ℕ → ℕ → Bool × Window → Type 0
MovedTo w p q result =
    (q ≢ p)
    × (contains q w.panes ≡ true)
    × (result.0 ≡ true)
    × (result.1.active_pane ≡ some q)
    × (result.1.layout ≡ w.layout)
    × IsValid result.1

-- What `navigate` does from the pane `p`: either the layout has no pane in this direction and
-- nothing changes, or that pane becomes the active one.
abbrev pub Navigates : Window → ℕ → ℕ → Bool × Window → Type 0
Navigates w p direction result =
    ((get_pane_in_direction w.layout p direction ≡ none) × (result ≡ (false, w)))
    ⊎ ((q : ℕ) × (get_pane_in_direction w.layout p direction ≡ some q) × MovedTo w p q result)

set_active_locked-MovedTo :
    (w : Window) (p q : ℕ)
    → IsValid w
    → (contains q (get_all_panes w.layout) ≡ true) × (q ≢ p)
    → MovedTo w p q (true, set_active_locked w (some q))
unfolding set_active_locked
set_active_locked-MovedTo w p q v (m, ne) = (
  ne,
  v.held.same q ∙ m,
  refl,
  refl,
  refl,
  set_active_locked-IsValid w q v.held (v.held.same q ∙ m)
      (IsZoom-none w.zoomed w.zoom_target w.active_pane v.zoom) v.flags v.saved,
)

-- `navigate` on a valid window moves to the pane that the layout finds, which is another pane of
-- the window, and keeps the window valid; where there is none it changes nothing.
pub navigate-Navigates :
    (w : Window) (p direction : ℕ)
    → IsValid w
    → w.active_pane ≡ some p
    → Navigates w p direction (navigate w direction)
navigate-Navigates w p direction v e =
    subst (Navigates w p direction) (sym (navigate-navigate_from w p direction e))
      (elim (Option-cases (get_pane_in_direction w.layout p direction)) [
        | inl missing ↦ inl (missing, navigate_from-none w p direction missing)
        | inr (q, found) ↦ inr (
          q,
          found,
          subst (MovedTo w p q) (sym (navigate_from-some w p direction q found)) (
              set_active_locked-MovedTo w p q v
                (get_pane_in_direction-contains w.layout p direction q found)),
        )
      ])

abbrev zoom_in : Window → ℕ → Window
zoom_in w p = record w { zoomed = true; zoom_target = some p }

toggle_zoom-zoomed :
    (w : Window) (p : ℕ)
    → w.active_pane ≡ some p
    → w.zoomed ≡ true
    → toggle_zoom w ≡ (true, unzoom w)
unfolding toggle_zoom
toggle_zoom-zoomed w p e z = simp (e, z, toggle_zoom)

toggle_zoom-flat :
    (w : Window) (p : ℕ)
    → w.active_pane ≡ some p
    → w.zoomed ≡ false
    → toggle_zoom w ≡ (true, zoom_in w p)
unfolding toggle_zoom
toggle_zoom-flat w p e z = simp (e, z, toggle_zoom)

-- `toggle_zoom` on a valid window keeps it valid, and a second call undoes the first.
pub toggle_zoom_twice :
    (w : Window) (p : ℕ)
    → IsValid w
    → w.active_pane ≡ some p
    → IsValid (toggle_zoom w).1 × (toggle_zoom (toggle_zoom w).1 ≡ (true, w))
toggle_zoom_twice w p v e = elim (Bool-cases w.zoomed) [
  | inl z ↦ rw (toggle_zoom-zoomed w p e z) (zoomed z)
  | inr z ↦ rw (toggle_zoom-flat w p e z) (flat z)
]
  where
    target : w.zoomed ≡ true → w.zoom_target ≡ some p
    target z = IsZoom-some w.zoomed w.zoom_target w.active_pane v.zoom z ∙ e

    zoomed : w.zoomed ≡ true → IsValid (unzoom w) × (toggle_zoom (unzoom w) ≡ (true, w))
    zoomed z = (
      record { held = v.held; active = v.active; zoom = refl; flags = v.flags; saved = v.saved },
      toggle_zoom-flat (unzoom w) p e refl ∙ λ i.
          (true, record w { zoomed = sym z i; zoom_target = sym (target z) i }),
    )

    flat : w.zoomed ≡ false → IsValid (zoom_in w p) × (toggle_zoom (zoom_in w p) ≡ (true, w))
    flat z = (
      record { held = v.held; active = v.active; zoom = sym e; flags = v.flags; saved = v.saved },
      toggle_zoom-zoomed (zoom_in w p) p e refl ∙ λ i. (
        true,
        record w {
          zoomed = sym z i;
          zoom_target = sym (IsZoom-none w.zoomed w.zoom_target w.active_pane v.zoom z) i;
        },
      ),
    )

is_null-IsProper : (t : Node) → IsProper t → is_null t ≡ false
is_null-IsProper null v = absurd v
is_null-IsProper (Node.node p d l r q) v = refl

abbrev pub saved_of : Window → SavedLayout
saved_of w = record {
  saved = snapshot w.layout;
  active_leaf_index = active_index w.active_pane (get_all_panes w.layout);
}

-- `save_layout` on a valid window succeeds. It saves the snapshot of the layout and the index of
-- the active pane, changes nothing else and keeps the window valid.
pub save_layout_lem :
    (w : Window)
    → IsValid w
    → (save_layout w ≡ (true, record w { saved_layout = some (saved_of w) }))
      × IsValid (save_layout w).1
unfolding save_layout
save_layout_lem w v = (saves, rw saves valid)
  where
    filled : (p : ℕ) × (w.active_pane ≡ some p) × (contains p w.panes ≡ true) → 0 < length w.panes
    filled (p, _, m) = length-contains p w.panes m

    saves : save_layout w ≡ (true, record w { saved_layout = some (saved_of w) })
    saves = ground (
      arith,
      is_null-IsProper w.layout v.held.proper,
      leaf_count-snapshot w.layout v.held.proper,
      filled v.active,
      v.held.count,
    )

    valid : IsValid (record w { saved_layout = some (saved_of w) })
    valid = record {
      held = v.held;
      active = v.active;
      zoom = v.zoom;
      flags = v.flags;
      saved = (w.layout, v.held.proper, refl);
    }
