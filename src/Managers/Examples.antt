-- ===== src/Managers/Examples.antt =====
-- modules/tui/src/managers: runs, and the theorems at concrete inputs.
use nazg.Base.{some, ◌≡◌, refl, true, false, List, [], ◌∷◌, codes}
use nazg.Managers.Modes.{
  visual, prefix, ModeManager, initial, enter, exit_to_previous, activate_prefix, deactivate_prefix,
}
use nazg.Managers.Modes.Reachable.{
  enters, activates, Reachable, starts, goes, IsConsistent, Reachable-IsConsistent,
}
use nazg.Managers.Reaper.{PaneReaper, reaping, new_reaper, enqueue, shutdown, worker_loop}
use nazg.Managers.Reaper.Drain
use nazg.Managers.Reaper.Drain.{
  enqueues, shuts_down, works, IsOrderly, Reachable-IsOrderly, IsDrained, worker_loop-IsDrained,
}
use nazg.Managers.Menus.{
  MenuManager, Menu, saved, unloaded, built, loaded, restored, resumed, load, back, forward,
}
use nazg.Managers.Menus.History.{
  Command, load_menu, go_back, go_forward, run_all, visit_all, history, loadable, run_all-visit_all,
}

-- The prefix key in the mode `visual`.
abbrev in_visual : ModeManager
in_visual = (enter visual initial).0

abbrev in_prefix : ModeManager
in_prefix = activate_prefix 500 1000 in_visual

in_visual-Reachable : Reachable in_visual
in_visual-Reachable = goes initial in_visual starts (enters visual initial)

in_prefix-Reachable : Reachable in_prefix
in_prefix-Reachable = goes in_visual in_prefix in_visual-Reachable (activates 500 1000 in_visual)

deactivate_prefix-in_prefix : (deactivate_prefix in_prefix).current_mode ≡ visual
deactivate_prefix-in_prefix = refl

-- Once the prefix has ended, the previous mode is `prefix` itself, to which the manager goes back
-- without activating it.
exit_to_previous-in_prefix :
    ((exit_to_previous (deactivate_prefix in_prefix)).0.current_mode ≡ prefix)
    × ((exit_to_previous (deactivate_prefix in_prefix)).0.prefix_active ≡ false)
exit_to_previous-in_prefix = (refl, refl)

Reachable-IsConsistent_example : IsConsistent in_prefix
Reachable-IsConsistent_example = Reachable-IsConsistent in_prefix in_prefix-Reachable

abbrev menus : Menu
menus = record {
  preserve_state = λ menu. true;
  save_state = λ menu events. (codes "row", codes "3") ∷ [];
}

abbrev two_menus : MenuManager
two_menus = record {
  factories = (codes "git", true) ∷ (codes "main", true) ∷ (codes "old", false) ∷ [];
  stack = [];
  forward_stack = [];
  has_context = true;
  modes = initial;
  made = 0;
  events = [];
}

abbrev tour : List Command
tour =
    load_menu (codes "main")
    ∷ load_menu (codes "git")
    ∷ go_back
    ∷ go_forward
    ∷ load_menu (codes "x")
    ∷ []

history-tour :
    (history (run_all menus tour two_menus).0
      ≡ record { past = codes "git" ∷ codes "main" ∷ []; future = [] })
    × ((run_all menus tour two_menus).1 ≡ true ∷ true ∷ true ∷ true ∷ false ∷ [])
unfolding load back forward
history-tour = (refl, refl)

events-back :
    (run_all menus
      (load_menu (codes "main") ∷ load_menu (codes "git") ∷ go_back ∷ [])
      two_menus).0.events
    ≡ built 0
      ∷ loaded 0
      ∷ saved 0
      ∷ unloaded 0
      ∷ built 1
      ∷ loaded 1
      ∷ saved 1
      ∷ unloaded 1
      ∷ restored 0
      ∷ resumed 0
      ∷ []
unfolding load back
events-back = refl

-- A menu whose factory fails is not loaded, but the current menu was unloaded, and is not resumed.
events-failed :
    ((run_all menus (load_menu (codes "main") ∷ load_menu (codes "old") ∷ []) two_menus).0.events
      ≡ built 0 ∷ loaded 0 ∷ saved 0 ∷ unloaded 0 ∷ [])
    × (history (run_all menus (load_menu (codes "main") ∷ load_menu (codes "old") ∷ []) two_menus).0
        ≡ record { past = codes "main" ∷ []; future = [] })
unfolding load
events-failed = (refl, refl)

run_all-visit_all_example :
    (history (run_all menus tour two_menus).0, (run_all menus tour two_menus).1)
    ≡ visit_all (loadable two_menus) tour (history two_menus)
run_all-visit_all_example = run_all-visit_all menus tour two_menus

-- Two panes are accepted, the worker takes the first, and the reaper is shut down.
abbrev one_queued : PaneReaper
one_queued = enqueue (some 4) new_reaper

abbrev one_held : PaneReaper
one_held = record one_queued { queue = []; worker = reaping 4 }

abbrev shut : PaneReaper
shut = shutdown (enqueue (some 9) one_held)

shut-Reachable : Drain.Reachable shut
shut-Reachable =
    Drain.goes (enqueue (some 9) one_held) shut
      (Drain.goes one_held (enqueue (some 9) one_held)
        (Drain.goes one_queued one_held
          (Drain.goes new_reaper one_queued Drain.starts (enqueues (some 4) new_reaper))
          (works one_queued one_held refl))
        (enqueues (some 9) one_held))
      (shuts_down (enqueue (some 9) one_held))

destroyed-shut : (worker_loop 4 shut).destroyed ≡ 4 ∷ 9 ∷ []
destroyed-shut = refl

Reachable-IsOrderly_example : IsOrderly shut
Reachable-IsOrderly_example = Reachable-IsOrderly shut shut-Reachable

worker_loop-IsDrained_example :
    IsDrained shut (worker_loop 4 shut) × (enqueue (some 5) shut ≡ shut) × (shutdown shut ≡ shut)
worker_loop-IsDrained_example = worker_loop-IsDrained shut (some 5) shut-Reachable refl
