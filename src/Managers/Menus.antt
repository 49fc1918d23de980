-- ===== src/Managers/Menus.antt =====
-- modules/tui/src/managers/menu_manager.cpp: the registered menus and the navigation between them.
-- Both stacks have their top first. A menu is the number that it was made as. What menus do when they
-- are called, and what their factories return, are parameters; that they were called is an event.
-- They do not call the manager back. Logging is left out.
pub mod History
pub mod ActiveMode
use nazg.Base.{
  ℕ, zero, suc, ◌+◌, Bool, true, false, Option, none, some, List, [], ◌∷◌, ◌++◌, ◌&&◌, Bytes, not,
  if◌then◌else◌,
}
use nazg.Base.Dict.{Dict, lookup, insert, keys}
use nazg.Base.Members.{is_there}
use nazg.Managers.Modes.{ModeManager, Mode, normal, enter}

pub data MenuEvent : Type 0 where
  saved unloaded built loaded restored resumed : ℕ → MenuEvent

pub record MenuStackEntry : Type 0 where
  pub menu : ℕ
  pub saved_state : Dict Bytes
  pub menu_id : Bytes

pub record MenuManager : Type 0 where
  pub factories : Dict Bool
  pub stack : List MenuStackEntry
  pub forward_stack : List Bytes
  pub has_context : Bool
  pub modes : ModeManager
  pub made : ℕ
  pub events : List MenuEvent

-- What a menu answers: whether it preserves its state, and the state after the events so far.
pub record Menu : Type 0 where
  pub preserve_state : ℕ → Bool
  pub save_state : ℕ → List MenuEvent → Dict Bytes

-- A factory is whether it makes a menu.
abbrev pub register_menu : Bytes → Bool → MenuManager → MenuManager
register_menu id factory s = record s { factories = insert id factory s.factories }

abbrev pub is_registered : Bytes → MenuManager → Bool
is_registered id s = is_there (lookup id s.factories)

abbrev pub list_registered : MenuManager → List Bytes
list_registered s = keys s.factories

abbrev pub set_context : MenuManager → MenuManager
set_context s = record s { has_context = true }

abbrev pub mode_for : List MenuStackEntry → Mode
mode_for [] = Mode.insert
mode_for (entry ∷ entries) = normal

abbrev pub update_mode_for_active_menu : MenuManager → MenuManager
update_mode_for_active_menu s =
    if s.has_context then record s { modes = (enter (mode_for s.stack) s.modes).0 } else s

abbrev with_event : MenuEvent → MenuManager → MenuManager
with_event e s = record s { events = s.events ++ e ∷ [] }

-- The current menu saves its state, if it preserves it, and is unloaded.
abbrev pub leave_menu : Menu → List MenuStackEntry → MenuManager → MenuManager
leave_menu menus [] s = s
leave_menu menus (entry ∷ entries) s =
    if menus.preserve_state entry.menu
    then record s {
      stack = record entry { saved_state = menus.save_state entry.menu s.events } ∷ entries;
      events = s.events ++ saved entry.menu ∷ unloaded entry.menu ∷ [];
    }
    else with_event (unloaded entry.menu) s

-- Once the factory has made the menu.
abbrev pub push_menu : Bytes → MenuManager → MenuManager × Bool
push_menu id s = if not s.has_context then (record s { made = s.made + 1 }, false) else (
  update_mode_for_active_menu (record s {
    stack = record { menu = s.made; saved_state = []; menu_id = id } ∷ s.stack;
    forward_stack = [];
    made = s.made + 1;
    events = s.events ++ built s.made ∷ loaded s.made ∷ [];
  }),
  true,
)

unfoldable pub load : Menu → Bytes → MenuManager → MenuManager × Bool
load menus id s = elim (lookup id s.factories) [
  | none ↦ (s, false)
  | some makes ↦
      let left = leave_menu menus s.stack s in if makes then push_menu id left else (left, false)
]

-- The menu below is told to restore the state that was saved for it, if there is any, and to resume.
abbrev pub resume_menu : Menu → MenuStackEntry → MenuManager → MenuManager
resume_menu menus entry s = with_event (resumed entry.menu) (
    if menus.preserve_state entry.menu && has_entries entry.saved_state
    then with_event (restored entry.menu) s
    else s)
  where
    has_entries : Dict Bytes → Bool
    has_entries [] = false
    has_entries (e ∷ m) = true

abbrev back_from : Menu → List MenuStackEntry → MenuManager → MenuManager × Bool
back_from menus [] s = (s, false)
back_from menus (entry ∷ []) s = (s, false)
back_from menus (entry ∷ below ∷ entries) s = (
  update_mode_for_active_menu (
      resume_menu menus below (record (leave_menu menus s.stack s) {
        stack = below ∷ entries;
        forward_stack = entry.menu_id ∷ s.forward_stack;
      })),
  true,
)

unfoldable pub back : Menu → MenuManager → MenuManager × Bool
back menus s = back_from menus s.stack s

-- The forward stack that `load` clears is put back, without the entry that was taken from it.
abbrev forward_to : Menu → List Bytes → MenuManager → MenuManager × Bool
forward_to menus [] s = (s, false)
forward_to menus (id ∷ ids) s =
    let (t, result) = load menus id (record s { forward_stack = ids }) in
    let again = record t { forward_stack = ids } in
    (if result then update_mode_for_active_menu again else again, result)

unfoldable pub forward : Menu → MenuManager → MenuManager × Bool
forward menus s = forward_to menus s.forward_stack s

-- From the bottom of the stack up.
abbrev unload_all : List MenuStackEntry → List MenuEvent → List MenuEvent
unload_all [] events = events
unload_all (entry ∷ entries) events = unload_all entries events ++ unloaded entry.menu ∷ []

unfoldable pub clear_stack : MenuManager → MenuManager
clear_stack s =
    update_mode_for_active_menu
      (record s { stack = []; forward_stack = []; events = unload_all s.stack s.events })
