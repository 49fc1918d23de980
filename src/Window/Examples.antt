-- ===== src/Window/Examples.antt =====
-- Windows of one, two and three panes: tests and instances.
use nazg.Base.{
  ◌⊎◌, max, map, All, ℕ, ◌≡◌, refl, true, false, none, some, List, [], ◌∷◌, ◌+◌, ◌*◌, suc, zero,
  ◌<◌, contains, length, IsDistinct, arith,
}
use nazg.Layout.{get_all_panes, Stale, node, leaf, horizontal, vertical, split_pane, remove_pane}
use nazg.Layout.Areas.{calculate_positions}
use nazg.Layout.Direction.{get_pane_in_direction, distance}
use nazg.Layout.Remove.{leaf_left}
use nazg.Layout.Snapshot.{snapshot, restore_from_snapshot}
use nazg.Window.{
  Window, SavedLayout, init, split_active, close_active, navigate, save_layout, restore_layout,
  input_pane,
}
use nazg.Window.Invariant.{IsValid, init-IsValid}
use nazg.Window.Split.{SplitsActive, split_active-SplitsActive}
use nazg.Window.Restore.{Makes, Restores, restore_layout-Restores}
use nazg.Window.Render.{render}
use nazg.Window.Render.Sizes.{HasRoom, render-Draws}
use nazg.Window.Close.{Loses, close_active-Loses}
use nazg.Window.History.{
  starts, then_calls, splits, closes, navigates, saves, restores, Reached-sends_input,
}

-- A freed node that reads as garbage.
abbrev unread : Stale
unread = record { right = leaf 9; split_ratio = 7 }

abbrev one : Window
one = init 1

-- `one` split: pane 2 on the right of pane 1.
abbrev two : Window
two = record {
  panes = 1 ∷ 2 ∷ [];
  active_pane = some 2;
  layout = node none horizontal (leaf 1) (leaf 2) 50;
  zoomed = false;
  zoom_target = none;
  saved_layout = none;
  is_active = λ p. false;
  reaped = [];
}

two-IsValid : IsValid two
two-IsValid = record {
  held = record {
    proper = ((refl, refl), (refl, refl));
    unique = (refl, (refl, tt));
    distinct = (refl, (refl, tt));
    same = λ q. refl;
    count = refl;
  };
  active = (2, refl, refl);
  zoom = refl;
  flags = λ q h. cc;
  saved = tt;
}

-- Pane 1 on the left of the panes 2 and 3; pane 1 is active.
abbrev three : Window
three = record two {
  panes = 1 ∷ 2 ∷ 3 ∷ [];
  active_pane = some 1;
  layout = node none horizontal (leaf 1) (node none vertical (leaf 2) (leaf 3) 50) 50;
}

three-IsValid : IsValid three
three-IsValid = record {
  held = record {
    proper = ((refl, refl), ((refl, refl), (refl, refl)));
    unique = (refl, (refl, (refl, tt)));
    distinct = (refl, (refl, (refl, tt)));
    same = λ q. refl;
    count = refl;
  };
  active = (1, refl, refl);
  zoom = refl;
  flags = λ q h. cc;
  saved = tt;
}

-- Three panes with their layout saved.
abbrev saved_three : SavedLayout
saved_three = record { saved = snapshot three.layout; active_leaf_index = 0 }

abbrev restorable : Window
restorable = record two { saved_layout = some saved_three }

restorable-IsValid : IsValid restorable
restorable-IsValid = record {
  held = two-IsValid.held;
  active = two-IsValid.active;
  zoom = refl;
  flags = λ q h. cc;
  saved = (three.layout, ((refl, refl), ((refl, refl), (refl, refl))), refl);
}

-- `count` numbers from `first` on.
abbrev upwards : ℕ → ℕ → List ℕ
upwards first zero = []
upwards first (suc count) = first ∷ upwards (first + 1) count

length-upwards : (first count : ℕ) → length (upwards first count) ≡ count
length-upwards first zero = refl
length-upwards first (suc count) = omega (arith, length-upwards (first + 1) count)

upwards-below : (p first count : ℕ) → p < first → contains p (upwards first count) ≡ false
upwards-below p first zero h = refl
upwards-below p first (suc count) h = ground (arith, upwards-below p (first + 1) count)

upwards-IsDistinct : (first count : ℕ) → IsDistinct (upwards first count)
upwards-IsDistinct first zero = tt
upwards-IsDistinct first (suc count) =
    (upwards-below first (first + 1) count (omega arith), upwards-IsDistinct (first + 1) count)

make_panes_Makes : Makes (upwards 10)
make_panes_Makes = record { amount = length-upwards 10; distinct = upwards-IsDistinct 10 }

split_active-SplitsActive_example : SplitsActive one 1 2 (split_active one horizontal 2)
unfolding init
split_active-SplitsActive_example =
    split_active-SplitsActive one 1 2 horizontal (init-IsValid 1) refl refl

restore_layout-Restores_example :
    Restores restorable saved_three (10 ∷ 11 ∷ 12 ∷ []) (restore_layout (upwards 10) restorable)
unfolding snapshot
restore_layout-Restores_example =
    restore_layout-Restores (upwards 10) restorable saved_three make_panes_Makes restorable-IsValid
      refl (omega arith)

close_active-Loses_example : Loses three 1 3 (close_active unread three)
close_active-Loses_example =
    close_active-Loses unread three 1 3 three-IsValid refl (omega arith) (leaf_left refl) refl

-- The windows after one call more each: a split, a saving, a move to the left, a close and two restores
-- with panes of their own.
abbrev split_one : Window
split_one = (split_active one horizontal 2).1

abbrev saved_one : Window
saved_one = (save_layout split_one).1

abbrev moved_one : Window
moved_one = (navigate saved_one b'h').1

abbrev closed_one : Window
closed_one = (close_active unread moved_one).1

abbrev panes_of_restore : ℕ → ℕ → List ℕ
panes_of_restore k = upwards (10 * (k + 1))

abbrev restored_one : Window
restored_one = (restore_layout (panes_of_restore 0) closed_one).1

abbrev restored_again : Window
restored_again = (restore_layout (panes_of_restore 1) restored_one).1

-- The second restore has replaced the panes of the first.
panes_of_restored_again :
    (restored_one.panes ≡ 10 ∷ 11 ∷ []) × (restored_again.panes ≡ 20 ∷ 21 ∷ [])
unfolding init split_active save_layout navigate close_active restore_layout split_pane snapshot
    get_pane_in_direction calculate_positions distance remove_pane restore_from_snapshot
panes_of_restored_again = (refl, refl)

Reached-sends_input_example :
    IsValid restored_again × (input_pane restored_again ≡ restored_again.active_pane)
unfolding init split_active save_layout navigate split_pane snapshot get_pane_in_direction
    calculate_positions distance
Reached-sends_input_example =
    Reached-sends_input panes_of_restore restored_again
      (λ k. record {
        amount = length-upwards (10 * (k + 1));
        distinct = upwards-IsDistinct (10 * (k + 1));
      })
      (then_calls
        (then_calls
          (then_calls
            (then_calls
              (then_calls (then_calls (starts 1) (splits 2 horizontal refl refl)) (saves refl))
              (navigates b'h' refl))
            (closes unread 1 refl (omega arith) (leaf_left refl) refl))
          (restores 0 refl))
        (restores 1 refl))

render-Draws_example :
    ((three.zoomed ≡ true)
      × (p : ℕ) × (three.active_pane ≡ some p)
      × (render three 80 24 ≡ record { pane = p; width = max 1 80; height = max 1 24 } ∷ []))
    ⊎ ((three.zoomed ≡ false)
        × (map (λ s. s.pane) (render three 80 24) ≡ get_all_panes three.layout)
        × All HasRoom (render three 80 24))
render-Draws_example = render-Draws three 80 24 three-IsValid
