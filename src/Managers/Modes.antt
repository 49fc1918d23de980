-- ===== src/Managers/Modes.antt =====
-- modules/tui/src/managers/mode_manager.cpp: the modes of the terminal interface and the timeout of
-- the prefix key. The clock is a parameter, in milliseconds. The callback is told of each change: a
-- change is a pair of the old mode and the new one. It does not call the manager back.
pub mod Reachable
use nazg.Base.{
  ℕ, zero, suc, ◌+◌, ◌-◌, Bool, true, false, Option, none, some, List, [], ◌∷◌, ◌++◌, leb, not,
  if◌then◌else◌,
}

pub data Mode : Type 0 where
  normal insert visual command prefix : Mode

abbrev pub same_mode : Mode → Mode → Bool
same_mode normal normal = true
same_mode insert insert = true
same_mode visual visual = true
same_mode command command = true
same_mode prefix prefix = true
same_mode _ _ = false

-- The manager, with the changes that the callback was told of.
pub record ModeManager : Type 0 where
  pub current_mode : Mode
  pub previous_mode : Mode
  pub prefix_active : Bool
  pub prefix_time : ℕ
  pub prefix_timeout_ms : ℕ
  pub changes : List (Mode × Mode)

abbrev pub initial : ModeManager
initial = record {
  current_mode = insert;
  previous_mode = insert;
  prefix_active = false;
  prefix_time = 0;
  prefix_timeout_ms = 1000;
  changes = [];
}

-- An operation returns the manager and whether it reports a change.
abbrev pub enter : Mode → ModeManager → ModeManager × Bool
enter mode s = if same_mode s.current_mode mode then (s, false) else (
  record s {
    previous_mode = s.current_mode;
    current_mode = mode;
    prefix_active = if same_mode mode prefix then s.prefix_active else false;
    changes = s.changes ++ (s.current_mode, mode) ∷ [];
  },
  true,
)

abbrev pub exit_to_previous : ModeManager → ModeManager × Bool
exit_to_previous s =
    if same_mode s.current_mode s.previous_mode then (s, false) else enter s.previous_mode s

abbrev pub activate_prefix : ℕ → ℕ → ModeManager → ModeManager
activate_prefix now timeout_ms s =
    (enter prefix
      (record s { prefix_active = true; prefix_timeout_ms = timeout_ms; prefix_time = now })).0

abbrev pub deactivate_prefix : ModeManager → ModeManager
deactivate_prefix s =
    let off = record s { prefix_active = false } in
    if same_mode s.current_mode prefix then (exit_to_previous off).0 else off

abbrev pub check_prefix_timeout : ℕ → ModeManager → ModeManager × Bool
check_prefix_timeout now s =
    if not s.prefix_active
    then (s, false)
    else if leb s.prefix_timeout_ms (now - s.prefix_time)
    then (deactivate_prefix s, true)
    else (s, false)
