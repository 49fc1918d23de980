-- ===== src/Managers/Input/Typing.antt =====
-- modules/tui/src/tui.cpp: runs of `handle_input`, and the theorems at concrete inputs.
use nazg.Base.{◌≡◌, refl, true, false, some, [], ◌∷◌, ◌++◌, codes}
use nazg.Managers.Modes.{Mode, initial, check_prefix_timeout}
use nazg.Managers.Modes.Reachable.{starts}
use nazg.Managers.Keys.{
  character, special, escape, other, find_command, event_to_key_string, load_defaults, no_bindings,
}
use nazg.Managers.Input.{TuiApp, Handlers, handle_input}
use nazg.Managers.Input.Keystrokes.{after_prefix, handle_input-sent, handle_input-prefix}

abbrev app : TuiApp
app = record {
  modes = initial;
  keys = load_defaults no_bindings;
  bar_active = false;
  saw_escape = false;
  has_window = true;
  sent = [];
  quits = false;
}

-- A command is seen as input that is sent.
abbrev handlers : Handlers
handlers = record {
  bar = λ event s. (s, true);
  execute = λ cmd s. record s { sent = s.sent ++ cmd ∷ [] };
  menu = λ event s. (s, false);
}

-- In the mode `insert`, a colon opens the command bar and does not reach the window.
handle_input-colon :
    handle_input 0 handlers (character (codes ":")) app ≡ (record app { bar_active = true }, true)
unfolding handle_input
handle_input-colon = refl

-- An escape is kept back until the next key.
handle_input-escape : (handle_input 0 handlers (special escape (27 ∷ [])) app).0.sent ≡ []
unfolding handle_input
handle_input-escape = refl

capital_letter :
    find_command (character (codes "C")) Mode.prefix true app.keys ≡ some (codes "new-window")
unfolding find_command event_to_key_string
capital_letter = refl

handle_input-sent_example : handle_input 5 handlers (character (codes "a")) app ≡ (
  record app {
    modes = (check_prefix_timeout 5 app.modes).0;
    saw_escape = false;
    sent = [] ++ [] ++ codes "a" ∷ [];
  },
  true,
)
handle_input-sent_example =
    handle_input-sent 5 handlers (codes "a") app refl refl refl refl refl refl refl

handle_input-prefix_example :
    handle_input 700 handlers
      (character (codes "c"))
      (handle_input 100 handlers (special other (2 ∷ [])) app).0
    ≡ (
      handlers.execute (codes "new-window") (record app {
        modes = after_prefix 100 (check_prefix_timeout 100 app.modes).0;
        saw_escape = false;
      }),
      true,
    )
unfolding find_command event_to_key_string
handle_input-prefix_example =
    handle_input-prefix 100 700 handlers (special other (2 ∷ [])) (codes "c") (codes "new-window")
      app starts refl refl refl refl refl refl refl
