-- ===== src/Managers/Commands/Examples.antt =====
-- The claim about the command bar at a concrete input: a command that counts its arguments.
use nazg.Base.{ℕ, ◌+◌, ◌≡◌, refl, true, false, some, [], ◌∷◌, codes, length}
use nazg.Base.Words.{words}
use nazg.Managers.Commands.{Commands, execute_line, register_function}
use nazg.Managers.Commands.Bar.{CommandBar, BarContext, activate, handle_bar_events}
use nazg.Managers.Commands.Typed.{typing, handle_bar_events-execute_line}

abbrev commands : Commands ℕ
commands =
    (
      codes "count",
      record {
        name = codes "count";
        description = codes "Counts";
        usage = codes "count";
        func = some (λ ctx args. (some true, ctx + length args));
      },
    )
    ∷ []

registered :
    register_function
      (codes "count")
      (codes "Counts")
      (some (λ ctx args. (some true, ctx + length args)))
      []
    ≡ (true, commands)
unfolding register_function
registered = refl

abbrev closed : CommandBar
closed = record { active = false; buffer = codes "old" }

abbrev env : BarContext ℕ
env = record { context = 5; status = [] }

counted : (execute_line commands 5 (codes "  count a b")).1 ≡ 7
unfolding execute_line words
counted = refl

handle_bar_events-execute_line_example :
    ((handle_bar_events commands (typing (codes "  count a b")) (activate closed) env).0
      ≡ record { active = false; buffer = [] })
    × ((handle_bar_events commands (typing (codes "  count a b")) (activate closed) env).1.context
        ≡ (execute_line commands 5 (codes "  count a b")).1)
handle_bar_events-execute_line_example =
    handle_bar_events-execute_line commands (codes "  count a b") closed env
      (refl, (refl, (refl, (refl, (refl, (refl, (refl, (refl, (refl, (refl, (refl, tt)))))))))))
