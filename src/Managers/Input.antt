-- ===== src/Managers/Input.antt =====
-- modules/tui/src/tui.cpp: `handle_input`, which hands the events of the terminal to the prefix key, the
-- command bar, the menus, the commands and the active window. What the command bar, a command and a
-- menu do is a parameter; `sent` is the input that the active window was given. Status messages and
-- logging are left out. A mouse event is not modelled.
pub mod Keystrokes
mod Typing
use nazg.Base.{
  ℕ, Bool, true, false, Option, none, some, List, [], ◌∷◌, ◌++◌, ◌&&◌, ◌||◌, not, Bytes, codes,
  ◌=ᵇ◌, ◌==◌, if◌then◌else◌,
}
use nazg.Managers.Modes.{
  Mode, normal, insert, visual, command, prefix, ModeManager, activate_prefix, deactivate_prefix,
  check_prefix_timeout, same_mode,
}
use nazg.Managers.Keys.{
  Key, arrow_left, arrow_right, arrow_up, arrow_down, backspace, delete, home, end, page_up,
  page_down, tab, return_key, escape, f7, KeyEvent, character, special, custom, KeyManager,
  find_command,
}

pub record TuiApp : Type 0 where
  pub modes : ModeManager
  pub keys : KeyManager
  pub bar_active : Bool
  pub saw_escape : Bool
  pub has_window : Bool
  pub sent : List Bytes
  pub quits : Bool

-- A menu handles an event or leaves it to the bindings; there may be none.
pub record Handlers : Type 0 where
  pub bar : KeyEvent → TuiApp → TuiApp × Bool
  pub execute : Bytes → TuiApp → TuiApp
  pub menu : KeyEvent → TuiApp → TuiApp × Bool

abbrev starts_with_2 : Bytes → Bool
starts_with_2 [] = false
starts_with_2 (c ∷ s) = c == 2

-- The two tests for Ctrl-B, which read the same bytes.
abbrev pub is_prefix_key : KeyEvent → Bool
is_prefix_key (character ch) = starts_with_2 ch
is_prefix_key (special key input) = starts_with_2 input
is_prefix_key custom = false

abbrev pub is_escape : KeyEvent → Bool
is_escape (special escape input) = true
is_escape event = false

abbrev pub is_character : Bytes → KeyEvent → Bool
is_character s (character ch) = ch =ᵇ s
is_character s event = false

abbrev is_custom : KeyEvent → Bool
is_custom custom = true
is_custom event = false

abbrev pub start_prefix : ℕ → TuiApp → TuiApp
start_prefix now s = record s { modes = activate_prefix now 1000 s.modes }

abbrev pub send_input : Bytes → TuiApp → TuiApp
send_input input s = if s.has_window then record s { sent = s.sent ++ input ∷ [] } else s

-- Both ways to leave look the same to the model: a flag is set and the loop of the screen ends.
abbrev pub quit : TuiApp → TuiApp
quit s = record s { quits = true }

abbrev special_input : Key → Option Bytes
special_input arrow_up = some (27 ∷ codes "[A")
special_input arrow_down = some (27 ∷ codes "[B")
special_input arrow_left = some (27 ∷ codes "[D")
special_input arrow_right = some (27 ∷ codes "[C")
special_input backspace = some (127 ∷ [])
special_input delete = some (27 ∷ codes "[3~")
special_input home = some (27 ∷ codes "[H")
special_input end = some (27 ∷ codes "[F")
special_input page_up = some (27 ∷ codes "[5~")
special_input page_down = some (27 ∷ codes "[6~")
special_input tab = some (9 ∷ [])
special_input return_key = some (13 ∷ [])
special_input key = none

abbrev is_f7 : Key → Bool
is_f7 f7 = true
is_f7 key = false

abbrev insert_event : KeyEvent → TuiApp → TuiApp × Bool
insert_event (character ch) s = if ch =ᵇ (4 ∷ []) then (quit s, true) else (send_input ch s, true)
insert_event (special key input) s = elim (special_input key) [
  | some sequence ↦ (send_input sequence s, true)
  | none ↦ if is_f7 key then (quit s, true) else (s, false)
]
insert_event custom s = (s, false)

abbrev pub handle_insert_input : KeyEvent → TuiApp → TuiApp × Bool
handle_insert_input event s = if s.has_window then insert_event event s else (s, false)

-- `raw.empty()` or one zero byte.
abbrev pub is_filler : KeyEvent → Bool
is_filler (character ch) = ch =ᵇ [] || ch =ᵇ (0 ∷ [])
is_filler (special key input) = input =ᵇ [] || input =ᵇ (0 ∷ [])
is_filler custom = true

abbrev pub end_prefix : TuiApp → TuiApp
end_prefix s = record s { modes = deactivate_prefix s.modes }

unfoldable pub handle_prefix_input : Handlers → KeyEvent → TuiApp → TuiApp × Bool
handle_prefix_input handlers event s =
    let plain = record s { saw_escape = false } in
    if is_custom event then (plain, false) else elim (find_command event prefix true plain.keys) [
      | some cmd ↦ (handlers.execute cmd (end_prefix plain), true)
      | none ↦ (end_prefix plain, is_filler event)
    ]

abbrev normal_command : Handlers → KeyEvent → TuiApp → TuiApp × Bool
normal_command handlers event s = elim (find_command event normal false s.keys) [
  | some cmd ↦ (handlers.execute cmd s, true)
  | none ↦ (s, false)
]

abbrev handle_normal_input : Handlers → KeyEvent → TuiApp → TuiApp × Bool
handle_normal_input handlers event s =
    let (t, handled) = handlers.menu event s in
    if handled then (t, true) else normal_command handlers event t

-- The branches on the current mode.
abbrev pub handle_in_mode : Mode → Handlers → KeyEvent → TuiApp → TuiApp × Bool
handle_in_mode prefix handlers event s = handle_prefix_input handlers event s
handle_in_mode insert handlers event s = handle_insert_input event s
handle_in_mode normal handlers event s = handle_normal_input handlers event s
handle_in_mode mode handlers event s = (s, false)

-- From the test for `:` on.
abbrev pub handle_plain : Mode → Handlers → KeyEvent → TuiApp → TuiApp × Bool
handle_plain mode handlers event s =
    if is_character (codes ":") event
    then (record s { bar_active = true }, true)
    else handle_in_mode mode handlers event s

-- The escape that was kept back goes to the window in the mode `insert`.
abbrev pub release_escape : Mode → TuiApp → TuiApp
release_escape mode s =
    let plain = record s { saw_escape = false } in
    if same_mode mode insert then send_input (27 ∷ []) plain else plain

-- From the current mode on.
abbrev pub handle_keys : ℕ → Mode → Handlers → KeyEvent → TuiApp → TuiApp × Bool
handle_keys now mode handlers event s =
    if is_prefix_key event
    then (start_prefix now s, true)
    else if is_escape event
    then (record s { saw_escape = true }, true)
    else if s.saw_escape
    then (if is_character (codes "b") event
        then (start_prefix now (record s { saw_escape = false }), true)
        else handle_plain mode handlers event (release_escape mode s))
    else handle_plain mode handlers event s

unfoldable pub handle_input : ℕ → Handlers → KeyEvent → TuiApp → TuiApp × Bool
handle_input now handlers event app =
    let s = record app { modes = (check_prefix_timeout now app.modes).0 } in
    if is_custom event
    then (s, false)
    else if s.bar_active
    then handlers.bar event s
    else handle_keys now s.modes.current_mode handlers event s
