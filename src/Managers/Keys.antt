-- ===== src/Managers/Keys.antt =====
-- modules/tui/src/managers/key_manager.cpp: key bindings. The map from a mode and a flag to bindings is
-- a function, empty where the map has no entry. An event of FTXUI is what its library says of it: a
-- character with its bytes, or a special key with the bytes of its sequence. Help texts are left out.
use nazg.Base.{
  ◌+◌, ◌-◌, Bool, true, false, Option, none, some, List, [], ◌∷◌, ◌++◌, ◌&&◌, not, Bytes, codes,
  ◌=ᵇ◌, ◌==◌, ltb, to_lower, if◌then◌else◌,
}
use nazg.Base.Dict.{Dict, lookup, insert}
use nazg.Base.Members.{is_there}
use nazg.Managers.Modes.{Mode, normal, prefix, same_mode}

pub data Key : Type 0 where
  arrow_left arrow_right arrow_up arrow_down backspace delete home end page_up page_down : Key
  tab tab_reverse return_key escape f1 f2 f3 f4 f5 f6 f7 f8 f9 f10 f11 f12 other : Key

pub data KeyEvent : Type 0 where
  character : Bytes → KeyEvent
  special : Key → Bytes → KeyEvent
  custom : KeyEvent

pub record KeyBinding : Type 0 where
  pub key : Bytes
  pub command : Bytes
  pub mode : Mode
  pub is_prefix : Bool

abbrev pub KeyManager : Type 0
KeyManager = Mode → Bool → Dict KeyBinding

abbrev pub same_flag : Bool → Bool → Bool
same_flag true b = b
same_flag false b = not b

-- The manager with other bindings for a mode and a flag.
abbrev pub with_bindings : Mode → Bool → Dict KeyBinding → KeyManager → KeyManager
with_bindings mode is_prefix bindings keys =
    λ m p. if same_mode mode m && same_flag is_prefix p then bindings else keys m p

abbrev pub bind : KeyBinding → KeyManager → KeyManager
bind binding keys =
    with_bindings binding.mode binding.is_prefix
      (insert binding.key binding (keys binding.mode binding.is_prefix)) keys

abbrev erase_key : Bytes → Dict KeyBinding → Dict KeyBinding
erase_key key [] = []
erase_key key ((k, binding) ∷ m) =
    if k =ᵇ key then erase_key key m else (k, binding) ∷ erase_key key m

abbrev pub unbind : Bytes → Mode → Bool → KeyManager → KeyManager × Bool
unbind key mode is_prefix keys = (
  with_bindings mode is_prefix (erase_key key (keys mode is_prefix)) keys,
  is_there (lookup key (keys mode is_prefix)),
)

abbrev command_of : Option KeyBinding → Option Bytes
command_of none = none
command_of (some binding) = some binding.command

abbrev pub lookup_by_key : Bytes → Mode → Bool → KeyManager → Option Bytes
lookup_by_key key mode is_prefix keys = command_of (lookup key (keys mode is_prefix))

abbrev special_name : Key → Bytes
special_name arrow_left = codes "ArrowLeft"
special_name arrow_right = codes "ArrowRight"
special_name arrow_up = codes "ArrowUp"
special_name arrow_down = codes "ArrowDown"
special_name backspace = codes "Backspace"
special_name delete = codes "Delete"
special_name home = codes "Home"
special_name end = codes "End"
special_name page_up = codes "PageUp"
special_name page_down = codes "PageDown"
special_name tab = codes "Tab"
special_name tab_reverse = codes "Shift-Tab"
special_name return_key = codes "Return"
special_name escape = codes "Escape"
special_name f1 = codes "F1"
special_name f2 = codes "F2"
special_name f3 = codes "F3"
special_name f4 = codes "F4"
special_name f5 = codes "F5"
special_name f6 = codes "F6"
special_name f7 = codes "F7"
special_name f8 = codes "F8"
special_name f9 = codes "F9"
special_name f10 = codes "F10"
special_name f11 = codes "F11"
special_name f12 = codes "F12"
special_name other = []

abbrev character_name : Bytes → Bytes
character_name [] = []
character_name (code ∷ ch) =
    if code == 2
    then codes "Ctrl-B"
    else if code == 3
    then codes "Ctrl-C"
    else if code == 4
    then codes "Ctrl-D"
    else if ltb code 32
    then codes "Ctrl-" ++ ((b'A' + code - 1) ∷ [])
    else code ∷ ch

unfoldable pub event_to_key_string : KeyEvent → Bytes
event_to_key_string (character ch) = character_name ch
event_to_key_string (special key input) = special_name key
event_to_key_string custom = []

-- The second try, with the small letter of a character that starts with a capital one.
abbrev lookup_lower : KeyEvent → Mode → Bool → KeyManager → Option Bytes
lookup_lower (character (c ∷ ch)) mode is_prefix keys =
    if not (to_lower c == c) then lookup_by_key (to_lower c ∷ []) mode is_prefix keys else none
lookup_lower event mode is_prefix keys = none

abbrev or_else : Option Bytes → Option Bytes → Option Bytes
or_else none second = second
or_else (some command) second = some command

abbrev found_by_name : Bytes → Mode → Bool → KeyManager → Option Bytes
found_by_name [] mode is_prefix keys = none
found_by_name (c ∷ name) mode is_prefix keys = lookup_by_key (c ∷ name) mode is_prefix keys

unfoldable pub find_command : KeyEvent → Mode → Bool → KeyManager → Option Bytes
unfolding event_to_key_string
find_command event mode is_prefix keys =
    or_else (found_by_name (event_to_key_string event) mode is_prefix keys)
      (lookup_lower event mode is_prefix keys)

abbrev pub no_bindings : KeyManager
no_bindings = λ mode is_prefix. []

abbrev prefix_binding : Bytes → Bytes → KeyBinding
prefix_binding key command = record {
  key = key;
  command = command;
  mode = prefix;
  is_prefix = true;
}

abbrev normal_binding : Bytes → Bytes → KeyBinding
normal_binding key command = record {
  key = key;
  command = command;
  mode = normal;
  is_prefix = false;
}

abbrev bind_all : List KeyBinding → KeyManager → KeyManager
bind_all [] keys = keys
bind_all (binding ∷ bindings) keys = bind_all bindings (bind binding keys)

abbrev pub load_defaults : KeyManager → KeyManager
load_defaults = bind_all (
    prefix_binding (codes "c") (codes "new-window")
    ∷ prefix_binding (codes "|") (codes "split-vertical")
    ∷ prefix_binding (codes "_") (codes "split-horizontal")
    ∷ prefix_binding (codes "x") (codes "kill-pane")
    ∷ prefix_binding (codes "d") (codes "kill-pane")
    ∷ prefix_binding (codes "X") (codes "kill-window")
    ∷ prefix_binding (codes "&") (codes "kill-window")
    ∷ prefix_binding (codes "h") (codes "navigate-left")
    ∷ prefix_binding (codes "j") (codes "navigate-down")
    ∷ prefix_binding (codes "k") (codes "navigate-up")
    ∷ prefix_binding (codes "l") (codes "navigate-right")
    ∷ prefix_binding (codes "n") (codes "next-window")
    ∷ prefix_binding (codes "p") (codes "previous-window")
    ∷ prefix_binding (codes "o") (codes "last-window")
    ∷ prefix_binding (codes "+") (codes "toggle-zoom")
    ∷ prefix_binding (codes "z") (codes "toggle-zoom")
    ∷ prefix_binding (codes "q") (codes "quit")
    ∷ prefix_binding (codes "?") (codes "help")
    ∷ prefix_binding (codes "Ctrl-S") (codes "save-layout")
    ∷ prefix_binding (codes "Ctrl-R") (codes "restore-layout")
    ∷ prefix_binding (codes ":") (codes "command-mode")
    ∷ prefix_binding (codes "[") (codes "copy-mode")
    ∷ prefix_binding (codes "r") (codes "rename-window")
    ∷ prefix_binding (codes "ArrowLeft") (codes "navigate-left")
    ∷ prefix_binding (codes "ArrowRight") (codes "navigate-right")
    ∷ prefix_binding (codes "ArrowUp") (codes "navigate-up")
    ∷ prefix_binding (codes "ArrowDown") (codes "navigate-down")
    ∷ normal_binding (codes "i") (codes "enter-insert-mode")
    ∷ normal_binding (codes "v") (codes "enter-visual-mode")
    ∷ normal_binding (codes ":") (codes "enter-command-mode")
    ∷ normal_binding (codes "Escape") (codes "enter-normal-mode")
    ∷ normal_binding (codes "F7") (codes "quit")
    ∷ normal_binding (codes "Ctrl-D") (codes "quit")
    ∷ [])

abbrev pub clear_bindings : KeyManager → KeyManager
clear_bindings keys = no_bindings
