-- ===== src/Window/Invariant.antt =====
-- modules/tui/src/window.cpp: what holds of a window between two calls of its methods.
use nazg.Base.{
  ℕ, ◌≡◌, refl, Bool, true, false, Option, none, some, List, arith, ==_iff, contains, IsDistinct,
  length,
}
use nazg.Layout.{Node, get_all_panes, IsProper}
use nazg.Layout.Snapshot.{snapshot}
use nazg.Window.{Window, SavedLayout, init, set_active_locked, set_flag, zoom_behind}

-- The layout and the vector `panes_` hold the same panes, each once.
pub record HasPanes (panes : List ℕ) (layout : Node) : Type 0 where
  pub proper : IsProper layout
  pub unique : IsDistinct panes
  pub distinct : IsDistinct (get_all_panes layout)
  pub same : (p : ℕ) → contains p panes ≡ contains p (get_all_panes layout)
  pub count : length panes ≡ length (get_all_panes layout)

-- Zoomed on the active pane, or not zoomed and without a target.
abbrev pub IsZoom : Bool → Option ℕ → Option ℕ → Type 0
IsZoom true target active = target ≡ active
IsZoom false target active = target ≡ none

-- What is saved is the snapshot of a proper layout.
abbrev pub IsSaved : Option SavedLayout → Type 0
IsSaved none = Unit
IsSaved (some s) = (t : Node) × IsProper t × (s.saved ≡ snapshot t)

pub record IsValid (w : Window) : Type 0 where
  pub held : HasPanes w.panes w.layout
  pub active : (p : ℕ) × (w.active_pane ≡ some p) × (contains p w.panes ≡ true)
  pub zoom : IsZoom w.zoomed w.zoom_target w.active_pane
  pub flags : (p : ℕ) → w.is_active p ≡ true → w.active_pane ≡ some p
  pub saved : IsSaved w.saved_layout

pub init-IsValid : (p : ℕ) → IsValid (init p)
unfolding init
init-IsValid p = record {
  held = record {
    proper = (refl, refl);
    unique = (refl, tt);
    distinct = (refl, tt);
    same = λ q. refl;
    count = refl;
  };
  active = (p, refl, ground (arith, ==_iff p p));
  zoom = refl;
  flags = λ q h. cc;
  saved = tt;
}

IsZoom-follows :
    (zoomed : Bool) (target : Option ℕ) (p : ℕ)
    → (zoomed ≡ false → target ≡ none)
    → IsZoom zoomed (zoom_behind zoomed (some p) target) (some p)
IsZoom-follows true target p h = refl
IsZoom-follows false target p h = h refl

flag_moves :
    (active : Option ℕ) (flags : ℕ → Bool) (p q : ℕ)
    → (flags q ≡ true → active ≡ some q)
    → set_flag (some p) true (set_flag active false flags) q ≡ true
    → some p ≡ some q
flag_moves none flags p q h e = ground arith
flag_moves (some x) flags p q h e = ground arith

-- Making a pane of the window active keeps it valid.
pub set_active_locked-IsValid :
    (w : Window) (p : ℕ)
    → HasPanes w.panes w.layout
    → contains p w.panes ≡ true
    → (w.zoomed ≡ false → w.zoom_target ≡ none)
    → ((q : ℕ) → w.is_active q ≡ true → w.active_pane ≡ some q)
    → IsSaved w.saved_layout
    → IsValid (set_active_locked w (some p))
unfolding set_active_locked
set_active_locked-IsValid w p held here zoom flags saved = record {
  held = held;
  active = (p, refl, here);
  zoom = IsZoom-follows w.zoomed w.zoom_target p zoom;
  flags = λ q h. flag_moves w.active_pane w.is_active p q (flags q) h;
  saved = saved;
}

pub IsZoom-none :
    (zoomed : Bool) (target active : Option ℕ)
    → IsZoom zoomed target active
    → zoomed ≡ false
    → target ≡ none
IsZoom-none true target active h e = cc
IsZoom-none false target active h e = h

-- The active pane of a valid window is one of its panes.
pub active_here :
    (w : Window) (p : ℕ) → IsValid w → w.active_pane ≡ some p → contains p w.panes ≡ true
active_here w p v e = same v.active
  where
    same :
        (q : ℕ) × (w.active_pane ≡ some q) × (contains q w.panes ≡ true) → contains p w.panes ≡ true
    same (q, e', m) = ground arith

pub IsZoom-some :
    (zoomed : Bool) (target active : Option ℕ)
    → IsZoom zoomed target active
    → zoomed ≡ true
    → target ≡ active
IsZoom-some true target active h e = h
IsZoom-some false target active h e = cc
