-- ===== src/Window/Split.antt =====
-- modules/tui/src/window.cpp: `split_active` on a valid window.
use nazg.Base.{
  ℕ, ◌≡◌, inl, inr, refl, sym, subst, ==_refl, true, false, Option, none, some, List, [], ◌∷◌, ◌++◌,
  arith, contains, contains-append, insert_after, length-append, length-insert_after,
  contains-insert_after, insert_after-IsDistinct, IsDistinct-concat, Bool-cases,
}
use nazg.Layout.{Node, SplitDirection, split_pane, get_all_panes, IsProper}
use nazg.Layout.Panes.{split_pane-SplitOutcome}
use nazg.Window.{Window, split_active, split_unzoomed, unzoom, set_active_locked}
use nazg.Window.Invariant.{
  HasPanes, IsValid, IsSaved, IsZoom-none, active_here, set_active_locked-IsValid,
}

HasPanes-split :
    (panes : List ℕ) (t u : Node) (p n : ℕ)
    → HasPanes panes t
    → contains p panes ≡ true
    → contains n panes ≡ false
    → IsProper u
    → get_all_panes u ≡ insert_after p n (get_all_panes t)
    → HasPanes (panes ++ n ∷ []) u
HasPanes-split panes t u p n held here new proper e = record {
  proper = proper;
  unique = IsDistinct-concat panes n held.unique new;
  distinct =
      rw e
        (insert_after-IsDistinct p n (get_all_panes t) (ground (arith, held.same n)) held.distinct);
  same = λ q. rw e (
      ground (
        arith,
        contains-append q panes (n ∷ []),
        contains-insert_after q p n (get_all_panes t),
        held.same q,
        held.same p,
      ));
  count = rw e (
      ground (
        arith,
        length-append panes (n ∷ []),
        length-insert_after p n (get_all_panes t),
        held.same p,
        held.count,
      ));
}

-- What `split_active` does: it returns the new pane, which is the active one then and comes
-- directly behind the pane `p` that was split, and leaves the window valid and not zoomed.
abbrev pub SplitsActive : Window → ℕ → ℕ → Option ℕ × Window → Type 0
SplitsActive w p n result =
    (result.0 ≡ some n)
    × IsValid result.1
    × (result.1.active_pane ≡ some n)
    × (result.1.zoomed ≡ false)
    × (get_all_panes result.1.layout ≡ insert_after p n (get_all_panes w.layout))

-- The window with a new pane in its vector and the given layout.
abbrev with_pane : Window → ℕ → Node → Window
with_pane w n u = record w { panes = w.panes ++ n ∷ []; layout = u }

split_unzoomed-some :
    (w : Window) (p n : ℕ) (dir : SplitDirection) (u : Node)
    → split_pane w.layout p n dir ≡ some u
    → split_unzoomed w p dir n ≡ (some n, set_active_locked (with_pane w n u) (some n))
split_unzoomed-some w p n dir u e = rw (e, split_unzoomed)

split_unzoomed_lem :
    (w : Window) (p n : ℕ) (dir : SplitDirection)
    → HasPanes w.panes w.layout
    → contains p w.panes ≡ true
    → contains n w.panes ≡ false
    → w.zoomed ≡ false
    → w.zoom_target ≡ none
    → ((q : ℕ) → w.is_active q ≡ true → w.active_pane ≡ some q)
    → IsSaved w.saved_layout
    → SplitsActive w p n (split_unzoomed w p dir n)
split_unzoomed_lem w p n dir held here new flat target flags saved =
    elim (split_pane-SplitOutcome w.layout p n dir held.proper) [
      | inl (gone, _) ↦ absurd (ground (arith, held.same p))
      | inr (u, _, e, proper, panes) ↦
          subst (SplitsActive w p n) (sym (split_unzoomed-some w p n dir u e)) (
            refl,
            set_active_locked-IsValid (with_pane w n u) n
                (HasPanes-split w.panes w.layout u p n held here new proper panes)
                (ground (arith, contains-append n w.panes (n ∷ []), ==_refl n)) (λ z. target) flags
                saved,
            unfold set_active_locked in refl,
            unfold set_active_locked in flat,
            unfold set_active_locked in panes,
          )
    ]

split_active_zoomed :
    (w : Window) (p n : ℕ) (dir : SplitDirection)
    → w.active_pane ≡ some p
    → w.zoomed ≡ true
    → split_active w dir n ≡ split_unzoomed (unzoom w) p dir n
unfolding split_active
split_active_zoomed w p n dir e z = simp (e, z, split_active)

split_active_flat :
    (w : Window) (p n : ℕ) (dir : SplitDirection)
    → w.active_pane ≡ some p
    → w.zoomed ≡ false
    → split_active w dir n ≡ split_unzoomed w p dir n
unfolding split_active
split_active_flat w p n dir e z = simp (e, z, split_active)

-- `split_active` on a valid window, with a new pane, always succeeds: it ends the zoom, puts the
-- new pane directly behind the active one, makes it the active one and leaves the window valid.
pub split_active-SplitsActive :
    (w : Window) (p n : ℕ) (dir : SplitDirection)
    → IsValid w
    → w.active_pane ≡ some p
    → contains n w.panes ≡ false
    → SplitsActive w p n (split_active w dir n)
split_active-SplitsActive w p n dir v e new = elim (Bool-cases w.zoomed) [
  | inl z ↦
      subst (SplitsActive w p n) (sym (split_active_zoomed w p n dir e z))
        (split_unzoomed_lem (unzoom w) p n dir v.held here new refl refl v.flags v.saved)
  | inr z ↦ subst (SplitsActive w p n) (sym (split_active_flat w p n dir e z)) (
      split_unzoomed_lem w p n dir v.held here new z
        (IsZoom-none w.zoomed w.zoom_target w.active_pane v.zoom z) v.flags v.saved)
]
  where
    here : contains p w.panes ≡ true
    here = active_here w p v e
