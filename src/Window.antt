-- ===== src/Window.antt =====
-- modules/tui/src/window.cpp: the panes of a window, the active one, zoom and the saved layout.
-- A pane is a number; `is_active` holds the flag `Pane::active_` of each pane, and `reaped` the panes
-- handed to `PaneReaper`. New panes are arguments, since `make_shared` chooses their address.
-- Every method runs under the window's mutex, so that each is one step. Logging is left out.
pub mod Invariant
pub mod Split
pub mod Moves
pub mod Restore
pub mod Close
mod Render
mod History
mod Examples
use mathlib.Core.Bool.{◌||◌}
use nazg.Base.{
  ℕ, Bool, true, false, Option, none, some, List, [], ◌∷◌, ◌++◌, ◌&&◌, ◌==◌, ltb, leb, length,
  erase, contains, get_elem?, if◌then◌else◌, ◌+◌,
}
use nazg.Layout.{Node, null, leaf, SplitDirection, split_pane, remove_pane, Stale, get_all_panes}
use nazg.Layout.Snapshot.{Snapshot, snapshot, restore_from_snapshot}
use nazg.Layout.Direction.{get_pane_in_direction}

pub record SavedLayout : Type 0 where
  pub saved : Snapshot
  pub active_leaf_index : ℕ

pub record Window : Type 0 where
  pub panes : List ℕ
  pub active_pane : Option ℕ
  pub layout : Node
  pub zoomed : Bool
  pub zoom_target : Option ℕ
  pub saved_layout : Option SavedLayout
  pub is_active : ℕ → Bool
  pub reaped : List ℕ

-- `pane->set_active(value)`, which is done only to a pane that is not null.
abbrev pub set_flag : Option ℕ → Bool → (ℕ → Bool) → ℕ → Bool
set_flag none value flags p = flags p
set_flag (some pane) value flags p = if pane == p then value else flags p

abbrev pub zoom_behind : Bool → Option ℕ → Option ℕ → Option ℕ
zoom_behind zoomed none target = target
zoom_behind zoomed (some pane) target = if zoomed then some pane else target

pub set_active_locked : Window → Option ℕ → Window
set_active_locked w pane = record w {
  active_pane = pane;
  is_active = set_flag pane true (set_flag w.active_pane false w.is_active);
  zoom_target = zoom_behind w.zoomed pane w.zoom_target;
}

-- The constructor, with its first pane. It does not set this pane's flag.
pub init : ℕ → Window
init pane = record {
  panes = pane ∷ [];
  active_pane = some pane;
  layout = leaf pane;
  zoomed = false;
  zoom_target = none;
  saved_layout = none;
  is_active = λ p. false;
  reaped = [];
}

abbrev pub remove_all : ℕ → List ℕ → List ℕ
remove_all pane [] = []
remove_all pane (p ∷ ps) = if p == pane then remove_all pane ps else p ∷ remove_all pane ps

abbrev unzoom : Window → Window
unzoom w = record w { zoomed = false; zoom_target = none }

-- `split_active` with the window unzoomed; `pane` is the active pane.
abbrev split_unzoomed : Window → ℕ → SplitDirection → ℕ → Option ℕ × Window
split_unzoomed w pane dir new_pane = elim (split_pane w.layout pane new_pane dir) [
  | none ↦ (none, record w { panes = remove_all new_pane (w.panes ++ new_pane ∷ []) })
  | some layout ↦ (
    some new_pane,
    set_active_locked (record w { panes = w.panes ++ new_pane ∷ []; layout = layout })
        (some new_pane),
  )
]

pub split_active : Window → SplitDirection → ℕ → Option ℕ × Window
unfolding set_active_locked
split_active w dir new_pane = elim w.active_pane [
  | none ↦ (none, w)
  | some pane ↦ split_unzoomed (if w.zoomed then unzoom w else w) pane dir new_pane
]

abbrev pub head? : List ℕ → Option ℕ
head? [] = none
head? (p ∷ ps) = some p

-- `close_active` behind its guard and the zoom reset; `pane` is the active pane.
abbrev close_pane : Stale → Window → ℕ → Bool × Window
close_pane stale w pane = elim (remove_pane stale w.layout pane) [
  | none ↦ (false, w)
  | some layout ↦ (
    true,
    set_active_locked
        (record w {
          layout = layout;
          panes = erase pane w.panes;
          reaped = if contains pane w.panes then w.reaped ++ pane ∷ [] else w.reaped;
        })
        (head? (get_all_panes layout)),
  )
]

abbrev is_zoom_target : Window → ℕ → Bool
is_zoom_target w pane = elim w.zoom_target [ none ↦ false | some target ↦ pane == target ]

pub close_active : Stale → Window → Bool × Window
unfolding set_active_locked
close_active stale w = elim w.active_pane [
  | none ↦ (false, w)
  | some pane ↦
      if leb (length w.panes) 1
      then (false, w)
      else close_pane stale (if w.zoomed && is_zoom_target w pane then unzoom w else w) pane
]

abbrev navigate_from : Window → ℕ → ℕ → Bool × Window
navigate_from w pane direction = elim (get_pane_in_direction w.layout pane direction) [
  | none ↦ (false, w)
  | some next ↦ (true, set_active_locked w (some next))
]

pub navigate : Window → ℕ → Bool × Window
unfolding set_active_locked
navigate w direction = elim w.active_pane [
  | none ↦ (false, w)
  | some pane ↦ navigate_from w pane direction
]

pub toggle_zoom : Window → Bool × Window
toggle_zoom w = elim w.active_pane [
  | none ↦ (false, w)
  | some pane ↦
      if w.zoomed
      then (true, unzoom w)
      else (true, record w { zoomed = true; zoom_target = some pane })
]

-- The position of a pane among the leaves, 0 where it is not there.
abbrev pub position_from : ℕ → ℕ → List ℕ → ℕ
position_from i pane [] = 0
position_from i pane (p ∷ ps) = if p == pane then i else position_from (i + 1) pane ps

abbrev pub active_index : Option ℕ → List ℕ → ℕ
active_index none leaves = 0
active_index (some pane) leaves = position_from 0 pane leaves

abbrev is_null : Node → Bool
is_null null = true
is_null (Node.node p d l r q) = false

pub save_layout : Window → Bool × Window
save_layout w =
    if is_null w.layout || leb (length w.panes) 0
    then (false, w)
    else if (snapshot w.layout).leaf_count == 0
    then (false, w)
    else (
      true,
      record w {
        saved_layout = some (record {
          saved = snapshot w.layout;
          active_leaf_index = active_index w.active_pane (get_all_panes w.layout);
        });
      },
    )

-- `restore_layout` over the new panes: `active_index >= leaf_ptrs.size()` falls back to 0.
abbrev chosen_leaf : ℕ → List ℕ → Option ℕ
chosen_leaf i leaves = if leb (length leaves) i then get_elem? leaves 0 else get_elem? leaves i

abbrev restore_over : Window → SavedLayout → List ℕ → Bool × Window
restore_over w s new_panes =
    if (restore_from_snapshot null s.saved new_panes).0
    then if leb (length new_panes) 0 then (false, w) else (
      true,
      set_active_locked
          (record w {
            panes = new_panes;
            layout = (restore_from_snapshot null s.saved new_panes).1;
            zoomed = false;
            zoom_target = none;
            reaped = w.reaped ++ w.panes;
          })
          (chosen_leaf s.active_leaf_index new_panes),
    )
    else (false, w)

-- `make_panes n` are the n panes that the loop creates.
pub restore_layout : (ℕ → List ℕ) → Window → Bool × Window
unfolding set_active_locked
restore_layout make_panes w = elim w.saved_layout [
  | none ↦ (false, w)
  | some s ↦
      if s.saved.leaf_count == 0
      then (false, w)
      else restore_over w s (make_panes s.saved.leaf_count)
]

-- `send_input`: the pane that gets the input, if the active pane is one of the window's.
pub input_pane : Window → Option ℕ
input_pane w = elim w.active_pane [
  | none ↦ none
  | some pane ↦ if contains pane w.panes then some pane else none
]
