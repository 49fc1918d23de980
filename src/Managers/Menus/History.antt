-- ===== src/Managers/Menus/History.antt =====
-- modules/tui/src/managers/menu_manager.cpp: navigation is that of a history of two lists.
use nazg.Base.{
  ◌≡◌, refl, ap, ap₂, ◌∙◌, Bool, true, false, Option, none, some, List, [], ◌∷◌, ◌&&◌, Bytes,
  if◌then◌else◌, arith,
}
use nazg.Base.Dict.{lookup}
use nazg.Managers.Menus.{
  MenuStackEntry, MenuManager, Menu, load, back, forward, clear_stack, back_from, forward_to,
  leave_menu,
}

-- The menus that `back` goes through, the current one first, and those that `forward` does.
pub record History : Type 0 where
  pub past : List Bytes
  pub future : List Bytes

pub data Command : Type 0 where
  load_menu : Bytes → Command
  go_back go_forward clear : Command

abbrev visit_back : History → List Bytes → History × Bool
visit_back h (id ∷ below ∷ ids) = (record { past = below ∷ ids; future = id ∷ h.future }, true)
visit_back h ids = (h, false)

abbrev visit_forward : (Bytes → Bool) → History → List Bytes → History × Bool
visit_forward can_load h [] = (h, false)
visit_forward can_load h (id ∷ later) =
    if can_load id
    then (record { past = id ∷ h.past; future = later }, true)
    else (record h { future = later }, false)

-- A history with what its last command reports. `can_load` are the menus that can be loaded.
abbrev pub visit_one : (Bytes → Bool) → Command → History → History × Bool
visit_one can_load (load_menu id) h =
    if can_load id then (record { past = id ∷ h.past; future = [] }, true) else (h, false)
visit_one can_load go_back h = visit_back h h.past
visit_one can_load go_forward h = visit_forward can_load h h.future
visit_one can_load clear h = (record { past = []; future = [] }, true)

abbrev pub run : Menu → Command → MenuManager → MenuManager × Bool
run menus (load_menu id) s = load menus id s
run menus go_back s = back menus s
run menus go_forward s = forward menus s
run menus clear s = (clear_stack s, true)

abbrev pub ids : List MenuStackEntry → List Bytes
ids [] = []
ids (entry ∷ entries) = entry.menu_id ∷ ids entries

abbrev pub history : MenuManager → History
history s = record { past = ids s.stack; future = s.forward_stack }

abbrev is_made : Option Bool → Bool
is_made none = false
is_made (some makes) = makes

-- The menus that are registered with a factory that makes them, once the context is set.
abbrev pub loadable : MenuManager → Bytes → Bool
loadable s id = is_made (lookup id s.factories) && s.has_context

-- What a command leaves, seen as a step of the history.
pub record IsVisit (can_load : Bytes → Bool) (command : Command) (s : MenuManager)
    (done : MenuManager × Bool) : Type 0 where
  pub visits : (history done.0, done.1) ≡ visit_one can_load command (history s)
  pub keeps_factories : done.0.factories ≡ s.factories
  pub keeps_context : done.0.has_context ≡ s.has_context

-- What leaving a menu does not change.
pub record IsLeft (s t : MenuManager) : Type 0 where
  pub past : ids t.stack ≡ ids s.stack
  pub later : t.forward_stack ≡ s.forward_stack
  pub factories : t.factories ≡ s.factories
  pub context : t.has_context ≡ s.has_context

pub leave_menu-IsLeft :
    (menus : Menu) (entries : List MenuStackEntry) (s : MenuManager)
    → s.stack ≡ entries
    → IsLeft s (leave_menu menus entries s)
leave_menu-IsLeft menus [] s e = record {
  past = refl;
  later = refl;
  factories = refl;
  context = refl;
}
leave_menu-IsLeft menus (entry ∷ entries) s e = record {
  past = ground (arith, e);
  later = ground arith;
  factories = ground arith;
  context = ground arith;
}

pub load-IsVisit :
    (menus : Menu) (id : Bytes) (s : MenuManager)
    → IsVisit (loadable s) (load_menu id) s (load menus id s)
unfolding load
load-IsVisit menus id s =
    let left = leave_menu-IsLeft menus s.stack s refl in
    record {
      visits = ground (arith, left.past, left.later, left.context);
      keeps_factories = ground (arith, left.factories);
      keeps_context = ground (arith, left.context);
    }

back_from-IsVisit :
    (menus : Menu) (entries : List MenuStackEntry) (s : MenuManager)
    → s.stack ≡ entries
    → IsVisit (loadable s) go_back s (back_from menus entries s)
back_from-IsVisit menus [] s e = record {
  visits = ground (arith, e);
  keeps_factories = refl;
  keeps_context = refl;
}
back_from-IsVisit menus (entry ∷ []) s e = record {
  visits = ground (arith, e);
  keeps_factories = refl;
  keeps_context = refl;
}
back_from-IsVisit menus (entry ∷ below ∷ entries) s e =
    let left = leave_menu-IsLeft menus s.stack s refl in
    record {
      visits = ground (arith, e);
      keeps_factories = ground (arith, left.factories);
      keeps_context = ground (arith, left.context);
    }

forward_to-IsVisit :
    (menus : Menu) (later : List Bytes) (s : MenuManager)
    → s.forward_stack ≡ later
    → IsVisit (loadable s) go_forward s (forward_to menus later s)
forward_to-IsVisit menus [] s e = record {
  visits = ground (arith, e);
  keeps_factories = refl;
  keeps_context = refl;
}
forward_to-IsVisit menus (id ∷ later) s e =
    let loaded = load-IsVisit menus id (record s { forward_stack = later }) in
    record {
      visits = ground (arith, e, loaded.visits);
      keeps_factories = ground (arith, loaded.keeps_factories);
      keeps_context = ground (arith, loaded.keeps_context);
    }

run-IsVisit :
    (menus : Menu) (command : Command) (s : MenuManager)
    → IsVisit (loadable s) command s (run menus command s)
unfolding back forward clear_stack
run-IsVisit menus (load_menu id) s = load-IsVisit menus id s
run-IsVisit menus go_back s = back_from-IsVisit menus s.stack s refl
run-IsVisit menus go_forward s = forward_to-IsVisit menus s.forward_stack s refl
run-IsVisit menus clear s = record {
  visits = ground arith;
  keeps_factories = ground arith;
  keeps_context = ground arith;
}

-- Commands one after the other, with what each of them reports.
abbrev pub run_all : Menu → List Command → MenuManager → MenuManager × List Bool
run_all menus [] s = (s, [])
run_all menus (command ∷ commands) s =
    let (t, reported) = run menus command s in
    let (u, reports) = run_all menus commands t in (u, reported ∷ reports)

abbrev pub visit_all : (Bytes → Bool) → List Command → History → History × List Bool
visit_all can_load [] h = (h, [])
visit_all can_load (command ∷ commands) h =
    let (i, reported) = visit_one can_load command h in
    let (j, reports) = visit_all can_load commands i in (j, reported ∷ reports)

-- Whatever the menus do and answer, any sequence of commands goes through the same histories, with
-- the same reports, as two lists of menus under the abstract commands: to load a menu puts it on the
-- past and forgets the future, if it can be loaded; to go back, or forward, moves a menu from one to
-- the other; a menu to go forward to that cannot be loaded is forgotten.
pub run_all-visit_all :
    (menus : Menu) (commands : List Command) (s : MenuManager)
    → (history (run_all menus commands s).0, (run_all menus commands s).1)
      ≡ visit_all (loadable s) commands (history s)
run_all-visit_all menus [] s = refl
run_all-visit_all menus (command ∷ commands) s =
    let done = run-IsVisit menus command s in
    let t = (run menus command s).0 in
    let same_menus =
      ap₂ (λ m c. λ id. is_made (lookup id m) && c) done.keeps_factories done.keeps_context in
    ap₂ (λ r reported. (r.0, reported ∷ r.1))
      (run_all-visit_all menus commands t
        ∙ ap₂ (λ l h. visit_all l commands h) same_menus (ap (λ r. r.0) done.visits))
      (ap (λ r. r.1) done.visits)
