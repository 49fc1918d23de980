-- ===== src/Window/Restore.antt =====
-- modules/tui/src/window.cpp: `restore_layout` on a valid window with a saved layout.
use nazg.Base.{
  ℕ, ◌≡◌, ◌<◌, inl, inr, refl, sym, subst, ◌∙◌, Bool, true, false, none, some, List, [], ◌∷◌, ◌++◌,
  arith, ◌==◌, leb, contains, length, IsDistinct, get_elem?, Bool-cases, ==_refl, ap, zero, suc,
  ◌||◌,
}
use nazg.Layout.{Node, null, get_all_panes, IsProper}
use nazg.Layout.Snapshot.{snapshot, restore_from_snapshot, restore-snapshot, leaf_count-snapshot}
use nazg.Window.{Window, SavedLayout, restore_layout, restore_over, chosen_leaf, set_active_locked}
use nazg.Window.Invariant.{IsValid, IsSaved, set_active_locked-IsValid}

get_elem?-contains :
    (xs : List ℕ) (i : ℕ)
    → i < length xs
    → (p : ℕ) × (get_elem? xs i ≡ some p) × (contains p xs ≡ true)
get_elem?-contains [] i h = absurd (omega arith)
get_elem?-contains (x ∷ xs) zero h = (x, refl, rw (==_refl x))
get_elem?-contains (x ∷ xs) (suc i) h = later (get_elem?-contains xs i (omega arith))
  where
    later :
        (p : ℕ) × (get_elem? xs i ≡ some p) × (contains p xs ≡ true)
        → (p : ℕ) × (get_elem? xs i ≡ some p) × ((x == p || contains p xs) ≡ true)
    later (p, e, m) = (p, e, ground arith)

chosen_leaf_lem :
    (i : ℕ) (leaves : List ℕ)
    → 0 < length leaves
    → (p : ℕ) × (chosen_leaf i leaves ≡ some p) × (contains p leaves ≡ true)
chosen_leaf_lem i leaves h = elim (Bool-cases (leb (length leaves) i)) [
  | inl far ↦ rw far (get_elem?-contains leaves 0 h)
  | inr near ↦ rw near (get_elem?-contains leaves i (ground arith))
]

-- The panes that the loop of `restore_layout` makes: as many as asked for, all different.
pub record Makes (make_panes : ℕ → List ℕ) : Type 0 where
  pub amount : (n : ℕ) → length (make_panes n) ≡ n
  pub distinct : (n : ℕ) → IsDistinct (make_panes n)

-- `restore_layout` over a saved layout `s`.
abbrev pub Restores : Window → SavedLayout → List ℕ → Bool × Window → Type 0
Restores w s new_panes result =
    (result.0 ≡ true)
    × IsValid result.1
    × (result.1.panes ≡ new_panes)
    × (get_all_panes result.1.layout ≡ new_panes)
    × (snapshot result.1.layout ≡ s.saved)
    × (result.1.zoomed ≡ false)
    × (result.1.reaped ≡ w.reaped ++ w.panes)
    × (result.1.active_pane ≡ chosen_leaf s.active_leaf_index new_panes)

abbrev restored : Window → List ℕ → Node → Window
restored w new_panes u = record w {
  panes = new_panes;
  layout = u;
  zoomed = false;
  zoom_target = none;
  reaped = w.reaped ++ w.panes;
}

restore_over-restored :
    (w : Window) (s : SavedLayout) (new_panes : List ℕ) (u : Node)
    → restore_from_snapshot null s.saved new_panes ≡ (true, u)
    → 0 < length new_panes
    → restore_over w s new_panes ≡ (
      true,
      set_active_locked (restored w new_panes u) (chosen_leaf s.active_leaf_index new_panes),
    )
restore_over-restored w s new_panes u e h =
    let some_pane : leb (length new_panes) 0 ≡ false = ground arith in
    simp (e, some_pane, restore_over)

Restores-restored :
    (w : Window) (s : SavedLayout) (new_panes : List ℕ) (u : Node) (p : ℕ)
    → IsValid w
    → IsProper u
    → get_all_panes u ≡ new_panes
    → snapshot u ≡ s.saved
    → IsDistinct new_panes
    → chosen_leaf s.active_leaf_index new_panes ≡ some p
    → contains p new_panes ≡ true
    → Restores w s new_panes (true, set_active_locked (restored w new_panes u) (some p))
unfolding set_active_locked
Restores-restored w s new_panes u p v proper panes shape distinct e m = (
  refl,
  set_active_locked-IsValid (restored w new_panes u) p
      (record {
        proper = proper;
        unique = distinct;
        distinct = rw panes distinct;
        same = λ q. rw panes refl;
        count = rw panes refl;
      })
      m (λ z. refl) v.flags v.saved,
  refl,
  panes,
  shape,
  refl,
  refl,
  sym e,
)

restore_over_lem :
    (w : Window) (s : SavedLayout) (t : Node) (new_panes : List ℕ)
    → IsValid w
    → IsProper t
    → s.saved ≡ snapshot t
    → 0 < length new_panes
    → length new_panes ≡ s.saved.leaf_count
    → IsDistinct new_panes
    → Restores w s new_panes (restore_over w s new_panes)
restore_over_lem w s t new_panes v proper e some_pane enough distinct =
    build (restore-snapshot null t new_panes proper counted)
      (chosen_leaf_lem s.active_leaf_index new_panes some_pane)
  where
    counted : length new_panes ≡ length (get_all_panes t)
    counted = enough ∙ ap (λ x. x.leaf_count) e ∙ leaf_count-snapshot t proper

    build :
        (u : Node) × (restore_from_snapshot null (snapshot t) new_panes ≡ (true, u))
          × IsProper u
          × (get_all_panes u ≡ new_panes)
          × (snapshot u ≡ snapshot t)
        → (p : ℕ) × (chosen_leaf s.active_leaf_index new_panes ≡ some p)
          × (contains p new_panes ≡ true)
        → Restores w s new_panes (restore_over w s new_panes)
    build (u, made, u_proper, panes, shape) (p, chosen, m) =
        subst (Restores w s new_panes)
          (sym (
            restore_over-restored w s new_panes u (rw e made) some_pane
            ∙ ap {B = Bool × Window} (λ o. (true, set_active_locked (restored w new_panes u) o))
                chosen))
          (Restores-restored w s new_panes u p v u_proper panes (shape ∙ sym e) distinct chosen m)

restore_layout-restore_over :
    (make_panes : ℕ → List ℕ) (w : Window) (s : SavedLayout)
    → w.saved_layout ≡ some s
    → (s.saved.leaf_count == 0) ≡ false
    → restore_layout make_panes w ≡ restore_over w s (make_panes s.saved.leaf_count)
unfolding restore_layout
restore_layout-restore_over make_panes w s e h = simp (e, h, restore_layout)

-- `restore_layout` on a valid window with a saved layout that is not empty succeeds, if the panes
-- made for it are all different and as many as asked for: the window is valid and not zoomed,
-- holds exactly these panes, has the saved shape, and its old panes are handed to the reaper. The
-- active pane is the one at the saved index, or the first.
pub restore_layout-Restores :
    (make_panes : ℕ → List ℕ) (w : Window) (s : SavedLayout)
    → Makes make_panes
    → IsValid w
    → w.saved_layout ≡ some s
    → 0 < s.saved.leaf_count
    → Restores w s (make_panes s.saved.leaf_count) (restore_layout make_panes w)
restore_layout-Restores make_panes w s makes v e h =
    rw (restore_layout-restore_over make_panes w s e (ground arith))
      (over (subst IsSaved e v.saved))
  where
    over :
        (t : Node) × IsProper t × (s.saved ≡ snapshot t)
        → Restores w s
            (make_panes s.saved.leaf_count)
            (restore_over w s (make_panes s.saved.leaf_count))
    over (t, proper, shape) =
        restore_over_lem w s t (make_panes s.saved.leaf_count) v proper shape
          (rw (makes.amount s.saved.leaf_count) h) (makes.amount s.saved.leaf_count)
          (makes.distinct s.saved.leaf_count)
