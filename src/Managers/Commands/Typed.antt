-- ===== src/Managers/Commands/Typed.antt =====
-- A line typed into the command bar is executed as `execute_line` executes it.
use nazg.Base.{
  ℕ, ◌≡◌, refl, sym, subst, true, false, List, [], ◌∷◌, ◌++◌, append_assoc, append-nil, Bytes, All,
  arith,
}
use nazg.Base.Words.{words}
use nazg.Managers.Commands.{Commands, execute_words, execute_line}
use nazg.Managers.Commands.Bar.{
  BarEvent, character, return_key, CommandBar, BarContext, BarStep, activate, deactivate,
  is_printable, execute_typed, handle_bar_event, handle_bar_events,
}

-- The key presses that type a line, and Return.
abbrev pub typing : Bytes → List BarEvent
typing [] = return_key ∷ []
typing (c ∷ s) = character (c ∷ []) ∷ typing s

abbrev pub AllPrintable : Bytes → Type 0
AllPrintable = All (λ (c : ℕ). is_printable (c ∷ []) ≡ true)

module _ {C : Type 0} (commands : Commands C) where
  -- The bar is closed and empty, and the context is the one that the line leaves.
  abbrev Executes : Bytes → BarContext C → CommandBar × BarContext C → Type 0
  Executes s env done =
      (done.0 ≡ record { active = false; buffer = [] })
      × (done.1.context ≡ (execute_line commands env.context s).1)

  execute_typed-Executes :
      (ws : List Bytes) (bar : CommandBar) (env : BarContext C)
      → ((execute_typed commands bar env ws).bar ≡ record { active = false; buffer = [] })
        × ((execute_typed commands bar env ws).env.context
            ≡ (execute_words commands env.context ws).1)
  unfolding deactivate
  execute_typed-Executes [] bar env = (refl, refl)
  execute_typed-Executes (name ∷ args) bar env = (refl, refl)

  typed_character :
      (c : ℕ) (before : Bytes) (env : BarContext C)
      → is_printable (c ∷ []) ≡ true
      → handle_bar_event commands
          (character (c ∷ []))
          (record { active = true; buffer = before })
          env
        ≡ record {
          handled = true;
          bar = record { active = true; buffer = before ++ c ∷ [] };
          env = env;
        }
  unfolding handle_bar_event
  typed_character c before env h = ground (arith, h)

  typed_return :
      (before : Bytes) (env : BarContext C)
      → Executes before env
          (handle_bar_events commands (typing []) (record { active = true; buffer = before }) env)
  unfolding handle_bar_event execute_line
  typed_return before env =
      execute_typed-Executes (words before) (record { active = true; buffer = before }) env

  typed :
      (s before : Bytes) (env : BarContext C)
      → AllPrintable s
      → Executes
          (before ++ s)
          env
          (handle_bar_events commands (typing s) (record { active = true; buffer = before }) env)
  typed [] before env h = rw (append-nil before) (typed_return before env)
  typed (c ∷ s) before env h =
      subst
        (λ (step : BarStep C).
          Executes (before ++ c ∷ s) env (handle_bar_events commands (typing s) step.bar step.env))
        (sym (typed_character c before env h.0))
        (subst
          (λ line. Executes line env (
            handle_bar_events commands (typing s)
              (record { active = true; buffer = before ++ c ∷ [] }) env))
          (append_assoc before (c ∷ []) s) (typed s (before ++ c ∷ []) env h.1))

  -- Typing a line of printable characters into the opened command bar, and Return, leaves the context
  -- that `execute_line` leaves for the line, and closes and clears the bar, whatever stood in it.
  pub handle_bar_events-execute_line :
      (s : Bytes) (bar : CommandBar) (env : BarContext C)
      → AllPrintable s
      → ((handle_bar_events commands (typing s) (activate bar) env).0
          ≡ record { active = false; buffer = [] })
        × ((handle_bar_events commands (typing s) (activate bar) env).1.context
            ≡ (execute_line commands env.context s).1)
  unfolding activate
  handle_bar_events-execute_line s bar env h = typed s [] env h
