-- ===== src/Managers/Commands.antt =====
-- modules/tui/src/managers/command_manager.cpp: the commands of the interface by name. A command's
-- function takes the context and its arguments and gives a result, `none` if it throws, and the
-- context that it leaves. `C` is the type of contexts.
pub mod Bar
pub mod Typed
mod Examples
use nazg.Base.{
  ℕ, Bool, true, false, Option, none, some, List, [], ◌∷◌, ◌++◌, ◌||◌, not, Bytes, codes, ◌=ᵇ◌,
  is_empty, if◌then◌else◌,
}
use nazg.Base.Dict.{Dict, insert, lookup}
use nazg.Base.Members.{is_there}
use nazg.Base.Words.{words}

abbrev pub CommandFunc : Type 0 → Type 0
CommandFunc C = C → List Bytes → Option Bool × C

-- `func` is none for an empty `std::function`.
pub record Command (C : Type 0) : Type 0 where
  pub name : Bytes
  pub description : Bytes
  pub usage : Bytes
  pub func : Option (CommandFunc C)

-- `commands_`
abbrev pub Commands : Type 0 → Type 0
Commands C = Dict (Command C)

module _ {C : Type 0} where
  pub register_command : Command C → Commands C → Bool × Commands C
  register_command cmd commands =
      if is_empty cmd.name || not (is_there cmd.func)
      then (false, commands)
      else (true, insert cmd.name cmd commands)

  -- The other `register_command`, by a name, a description and a function.
  pub register_function : Bytes → Bytes → Option (CommandFunc C) → Commands C → Bool × Commands C
  unfolding register_command
  register_function name description func =
      register_command
        (record { name = name; description = description; usage = name; func = func })

  abbrev pub erase_command : Bytes → Commands C → Commands C
  erase_command name [] = []
  erase_command name ((key, cmd) ∷ commands) =
      if key =ᵇ name then commands else (key, cmd) ∷ erase_command name commands

  pub unregister_command : Bytes → Commands C → Bool × Commands C
  unregister_command name commands = (is_there (lookup name commands), erase_command name commands)

  pub has_command : Bytes → Commands C → Bool
  has_command name commands = is_there (lookup name commands)

  pub get_command : Bytes → Commands C → Option (Command C)
  get_command name commands = lookup name commands

  -- A function that throws, and an empty one, which throws when it is called, fail.
  abbrev pub call : Option (CommandFunc C) → C → List Bytes → Bool × C
  call none ctx args = (false, ctx)
  call (some func) ctx args =
      let (result, ctx') = func ctx args in (elim result [ none ↦ false | some b ↦ b ], ctx')

  unfoldable pub execute_command : Commands C → C → Bytes → List Bytes → Bool × C
  execute_command commands ctx name args = elim (lookup name commands) [
    | none ↦ (false, ctx)
    | some cmd ↦ call cmd.func ctx args
  ]

  -- On what `parse_cmdline` gives: the first word, empty if there is none, and the others.
  abbrev pub execute_words : Commands C → C → List Bytes → Bool × C
  execute_words commands ctx [] = (false, ctx)
  execute_words commands ctx (name ∷ args) = execute_command commands ctx name args

  unfoldable pub execute_line : Commands C → C → Bytes → Bool × C
  unfolding execute_command
  execute_line commands ctx cmdline = execute_words commands ctx (words cmdline)

  abbrev pub help_entries : Commands C → Bytes
  help_entries [] = []
  help_entries ((name, cmd) ∷ commands) =
      codes "  "
      ++ (cmd.usage
          ++ (10 ∷ (codes "    " ++ (cmd.description ++ (10 ∷ 10 ∷ help_entries commands)))))

  pub help_text : Commands C → Bytes
  help_text commands = codes "=== Available Commands ===" ++ (10 ∷ 10 ∷ help_entries commands)
