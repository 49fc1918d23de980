-- ===== src/Window/Close.antt =====
-- modules/tui/src/window.cpp: `close_active` on a valid window, beside a single pane and beside a
-- split.
use nazg.Base.{
  ℕ, ◌≡◌, ◌<◌, refl, sym, subst, ◌∙◌, ap, Bool, true, false, none, some, List, [], ◌∷◌, ◌++◌, arith,
  ◌==◌, leb, contains, length, erase, Bool-cases, inl, inr, contains-append, ==_iff, ==_refl,
  contains-erase, contains-erase_ne, erase-IsDistinct, length-erase,
}
use nazg.Layout.{
  Node, null, node, Side, to_left, to_right, SplitDirection, Stale, remove_pane, get_all_panes,
  IsProper,
}
use nazg.Layout.Remove.{Beside}
use nazg.Layout.Survivors.{
  remove_pane-Beside_leaf, remove_pane-Beside_split, Beside-sibling, Beside-sibling_lacks,
}
use nazg.Window.{Window, close_active, close_pane, unzoom, is_zoom_target, set_active_locked, head?}
use nazg.Window.Invariant.{
  HasPanes, IsValid, IsSaved, IsZoom-none, IsZoom-some, active_here, set_active_locked-IsValid,
}

close_active-zoomed :
    (stale : Stale) (w : Window) (p : ℕ)
    → w.active_pane ≡ some p
    → leb (length w.panes) 1 ≡ false
    → w.zoomed ≡ true
    → w.zoom_target ≡ some p
    → close_active stale w ≡ close_pane stale (unzoom w) p
unfolding close_active
close_active-zoomed stale w p e many z t =
    let test : is_zoom_target w p ≡ true = ground arith in
    simp (e, many, z, test, is_zoom_target, close_active)

close_active-flat :
    (stale : Stale) (w : Window) (p : ℕ)
    → w.active_pane ≡ some p
    → leb (length w.panes) 1 ≡ false
    → w.zoomed ≡ false
    → close_active stale w ≡ close_pane stale w p
unfolding close_active
close_active-flat stale w p e many z = simp (e, many, z, close_active)

-- The window without the pane, over the layout `u`.
abbrev closed : Window → ℕ → Node → Window
closed w p u = record w { layout = u; panes = erase p w.panes; reaped = w.reaped ++ p ∷ [] }

close_pane-closed :
    (stale : Stale) (w : Window) (p : ℕ) (u : Node)
    → remove_pane stale w.layout p ≡ some u
    → contains p w.panes ≡ true
    → close_pane stale w p ≡ (true, set_active_locked (closed w p u) (head? (get_all_panes u)))
close_pane-closed stale w p u e m = simp (e, m, close_pane)

-- The pane `p` is closed: it leaves the vector and the layout for the reaper, the others stay in
-- order, the first of them is active and the window is valid.
abbrev pub Closes : Window → ℕ → Bool × Window → Type 0
Closes w p result =
    (result.0 ≡ true)
    × IsValid result.1
    × (result.1.panes ≡ erase p w.panes)
    × (get_all_panes result.1.layout ≡ erase p (get_all_panes w.layout))
    × (result.1.reaped ≡ w.reaped ++ p ∷ [])
    × (result.1.active_pane ≡ head? (erase p (get_all_panes w.layout)))

HasPanes-erase :
    (panes : List ℕ) (t u : Node) (p : ℕ)
    → HasPanes panes t
    → contains p panes ≡ true
    → IsProper u
    → get_all_panes u ≡ erase p (get_all_panes t)
    → HasPanes (erase p panes) u
HasPanes-erase panes t u p held here proper e = record {
  proper = proper;
  unique = erase-IsDistinct p panes held.unique;
  distinct = rw e (erase-IsDistinct p (get_all_panes t) held.distinct);
  same = λ q. rw e (
      ground (
        arith,
        contains-erase q p panes held.unique,
        contains-erase q p (get_all_panes t) held.distinct,
        held.same q,
      ));
  count = rw e (
      ground (
        arith,
        length-erase p panes here,
        length-erase p (get_all_panes t),
        held.same p,
        held.count,
      ));
}

head?-contains :
    (xs : List ℕ) → 0 < length xs → (p : ℕ) × (head? xs ≡ some p) × (contains p xs ≡ true)
head?-contains [] h = absurd (omega arith)
head?-contains (x ∷ xs) h = (x, refl, rw (==_refl x))

close_pane_lem :
    (stale : Stale) (w : Window) (p : ℕ) (u : Node)
    → HasPanes w.panes w.layout
    → contains p w.panes ≡ true
    → 1 < length w.panes
    → (w.zoomed ≡ false → w.zoom_target ≡ none)
    → ((q : ℕ) → w.is_active q ≡ true → w.active_pane ≡ some q)
    → IsSaved w.saved_layout
    → remove_pane stale w.layout p ≡ some u
    → IsProper u
    → get_all_panes u ≡ erase p (get_all_panes w.layout)
    → Closes w p (close_pane stale w p)
close_pane_lem stale w p u held here many zoom flags saved e proper panes =
    finish
      (head?-contains (get_all_panes u) (omega (arith, kept.count, length-erase p w.panes here)))
  where
    kept : HasPanes (erase p w.panes) u
    kept = HasPanes-erase w.panes w.layout u p held here proper panes

    finish :
        (q : ℕ) × (head? (get_all_panes u) ≡ some q) × (contains q (get_all_panes u) ≡ true)
        → Closes w p (close_pane stale w p)
    finish (q, first, m) =
        subst (Closes w p)
          (sym (
            close_pane-closed stale w p u e here
            ∙ ap {B = Bool × Window} (λ o. (true, set_active_locked (closed w p u) o)) first))
          (
            refl,
            set_active_locked-IsValid (closed w p u) q kept (kept.same q ∙ m) zoom flags saved,
            unfold set_active_locked in refl,
            unfold set_active_locked in panes,
            unfold set_active_locked in refl,
            unfold set_active_locked in (sym first ∙ ap head? panes),
          )

-- Closing the active pane of a valid window of several panes beside a single pane succeeds: the
-- pane leaves the window's vector and its layout, which keep the others in order, and is handed to
-- the reaper, the first pane of the layout becomes the active one, and the window stays valid, if the
-- pane is the left half, or the freed node reads as having no right child.
pub close_active-Closes :
    (stale : Stale) (w : Window) (p : ℕ) {x : ℕ} {c : Side} {d : SplitDirection} {l r : Node}
    {q : ℕ}
    → IsValid w
    → w.active_pane ≡ some p
    → 1 < length w.panes
    → (c ≡ to_right → stale.right ≡ null)
    → Beside p c (node (some x) d l r q) w.layout
    → Closes w p (close_active stale w)
close_active-Closes stale w p v e many unread b =
    finish (remove_pane-Beside_leaf stale b v.held.proper v.held.distinct unread)
  where
    here : contains p w.panes ≡ true
    here = active_here w p v e

    finish :
        (u : Node) × (remove_pane stale w.layout p ≡ some u)
          × IsProper u
          × (get_all_panes u ≡ erase p (get_all_panes w.layout))
        → Closes w p (close_active stale w)
    finish (u, removed, proper, panes) = elim (Bool-cases w.zoomed) [
      | inl z ↦
          subst (Closes w p)
            (sym (
              close_active-zoomed stale w p e (ground arith) z
                (IsZoom-some w.zoomed w.zoom_target w.active_pane v.zoom z ∙ e)))
            (close_pane_lem stale (unzoom w) p u v.held here many (λ h. refl) v.flags v.saved
              removed proper panes)
      | inr z ↦ subst (Closes w p) (sym (close_active-flat stale w p e (ground arith) z)) (
          close_pane_lem stale w p u v.held here many
            (IsZoom-none w.zoomed w.zoom_target w.active_pane v.zoom) v.flags v.saved removed proper
            panes)
    ]

-- The window lists the pane `x` that its layout does not hold any more.
abbrev pub Loses : Window → ℕ → ℕ → Bool × Window → Type 0
Loses w p x result =
    (result.0 ≡ true)
    × (contains x result.1.panes ≡ true)
    × (contains x (get_all_panes result.1.layout) ≡ false)
    × (result.1.reaped ≡ w.reaped ++ p ∷ [])

close_pane-Loses :
    (stale : Stale) (w : Window) (p x : ℕ) (u : Node)
    → contains p w.panes ≡ true
    → contains x w.panes ≡ true
    → (p == x) ≡ false
    → remove_pane stale w.layout p ≡ some u
    → contains x (get_all_panes u) ≡ false
    → Loses w p x (close_pane stale w p)
close_pane-Loses stale w p x u here other ne e lost =
    subst (Loses w p x) (sym (close_pane-closed stale w p u e here)) (
      refl,
      unfold set_active_locked in (contains-erase_ne x p w.panes ne ∙ other),
      unfold set_active_locked in lost,
      unfold set_active_locked in refl,
    )

-- Closing the active pane of a valid window of several panes, where it is the left half beside a
-- split, succeeds, but every pane `x` of the right half of this split, which stays in the window's
-- vector, is gone from the layout, and only the closed pane is handed to the reaper, whatever is
-- read of the freed node.
pub close_active-Loses :
    (stale : Stale) (w : Window) (p : ℕ) {d : SplitDirection} {l r : Node} {q : ℕ} (x : ℕ)
    → IsValid w
    → w.active_pane ≡ some p
    → 1 < length w.panes
    → Beside p to_left (node none d l r q) w.layout
    → contains x (get_all_panes r) ≡ true
    → Loses w p x (close_active stale w)
close_active-Loses stale w p {l = l} {r = r} x v e many b m =
    finish (remove_pane-Beside_split stale x b v.held.proper v.held.distinct (λ h. absurd (cc h)) m)
  where
    here : contains p w.panes ≡ true
    here = active_here w p v e

    other : contains x w.panes ≡ true
    other =
        v.held.same x
        ∙ Beside-sibling b x (ground (arith, contains-append x (get_all_panes l) (get_all_panes r)))

    ne : (p == x) ≡ false
    ne = ground (
      arith,
      Beside-sibling_lacks b v.held.distinct,
      contains-append x (get_all_panes l) (get_all_panes r),
      ==_iff p x,
    )

    finish :
        (u : Node) × (remove_pane stale w.layout p ≡ some u)
          × (¬ IsProper u)
          × (contains x (get_all_panes u) ≡ false)
        → Loses w p x (close_active stale w)
    finish (u, removed, _, lost) = elim (Bool-cases w.zoomed) [
      | inl z ↦
          subst (Loses w p x)
            (sym (
              close_active-zoomed stale w p e (ground arith) z
                (IsZoom-some w.zoomed w.zoom_target w.active_pane v.zoom z ∙ e)))
            (close_pane-Loses stale (unzoom w) p x u here other ne removed lost)
      | inr z ↦
          subst (Loses w p x) (sym (close_active-flat stale w p e (ground arith) z))
            (close_pane-Loses stale w p x u here other ne removed lost)
    ]
