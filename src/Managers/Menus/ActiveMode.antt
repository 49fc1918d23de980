-- ===== src/Managers/Menus/ActiveMode.antt =====
-- modules/tui/src/managers/menu_manager.cpp: the mode behind a navigation.
use nazg.Base.{◌≡◌, refl, ◌∙◌, true, List, [], ◌∷◌, Bytes, arith}
use nazg.Managers.Modes.{Mode, normal}
use nazg.Managers.Modes.Reachable.{same_mode_iff}
use nazg.Managers.Menus.{
  MenuStackEntry, MenuManager, Menu, load, back, forward, clear_stack, back_from, forward_to,
  leave_menu, push_menu, update_mode_for_active_menu, resume_menu, mode_for,
}
use nazg.Managers.Menus.History.{
  Command, load_menu, go_back, go_forward, clear, run, leave_menu-IsLeft, load-IsVisit,
}

-- The mode is `normal` if a menu is there, and `insert` if none is.
abbrev pub IsActiveMode : MenuManager → Type 0
IsActiveMode s = s.modes.current_mode ≡ mode_for s.stack

update-IsActiveMode :
    (s : MenuManager) → s.has_context ≡ true → IsActiveMode (update_mode_for_active_menu s)
update-IsActiveMode s c = ground (arith, same_mode_iff s.modes.current_mode (mode_for s.stack))

push_menu-IsActiveMode :
    (id : Bytes) (s : MenuManager) → s.has_context ≡ true → IsActiveMode (push_menu id s).0
push_menu-IsActiveMode id s c = ground (arith, same_mode_iff s.modes.current_mode normal)

load-IsActiveMode :
    (menus : Menu) (id : Bytes) (s : MenuManager)
    → s.has_context ≡ true
    → (load menus id s).1 ≡ true
    → IsActiveMode (load menus id s).0
unfolding load
load-IsActiveMode menus id s c works =
    let left = leave_menu-IsLeft menus s.stack s refl in
    ground (arith, push_menu-IsActiveMode id (leave_menu menus s.stack s), left.context)

back_from-IsActiveMode :
    (menus : Menu) (entries : List MenuStackEntry) (s : MenuManager)
    → s.has_context ≡ true
    → (back_from menus entries s).1 ≡ true
    → IsActiveMode (back_from menus entries s).0
back_from-IsActiveMode menus [] s c works = absurd (cc works)
back_from-IsActiveMode menus (entry ∷ []) s c works = absurd (cc works)
back_from-IsActiveMode menus (entry ∷ below ∷ entries) s c works =
    let left = leave_menu-IsLeft menus s.stack s refl in
    update-IsActiveMode
      (resume_menu menus below (record (leave_menu menus s.stack s) {
        stack = below ∷ entries;
        forward_stack = entry.menu_id ∷ s.forward_stack;
      }))
      (ground (arith, left.context))

forward_to-IsActiveMode :
    (menus : Menu) (later : List Bytes) (s : MenuManager)
    → s.has_context ≡ true
    → (forward_to menus later s).1 ≡ true
    → IsActiveMode (forward_to menus later s).0
forward_to-IsActiveMode menus [] s c works = absurd (cc works)
forward_to-IsActiveMode menus (id ∷ later) s c works =
    let before = record s { forward_stack = later } in
    let again = record (load menus id before).0 { forward_stack = later } in
    rw (works, forward_to)
      (update-IsActiveMode again ((load-IsVisit menus id before).keeps_context ∙ c))

-- Once the context is set, a command that reports success leaves the mode `normal` if there is a
-- menu on the stack, and `insert` if there is none.
pub run-IsActiveMode :
    (menus : Menu) (command : Command) (s : MenuManager)
    → s.has_context ≡ true
    → (run menus command s).1 ≡ true
    → IsActiveMode (run menus command s).0
unfolding back forward clear_stack
run-IsActiveMode menus (load_menu id) s c works = load-IsActiveMode menus id s c works
run-IsActiveMode menus go_back s c works = back_from-IsActiveMode menus s.stack s c works
run-IsActiveMode menus go_forward s c works =
    forward_to-IsActiveMode menus s.forward_stack s c works
run-IsActiveMode menus clear s c works =
    ground (arith, same_mode_iff s.modes.current_mode Mode.insert)
