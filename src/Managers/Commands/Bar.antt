-- ===== src/Managers/Commands/Bar.antt =====
-- modules/tui/src/command_bar.cpp: the line in which commands are typed. The context that the commands
-- change and the status message are threaded through; the log is left out.
use nazg.Base.{
  Bool, true, false, List, [], ◌∷◌, ◌++◌, ◌&&◌, not, Bytes, codes, leb, drop_last, if◌then◌else◌,
}
use nazg.Base.Words.{words}
use nazg.Managers.Commands.{Commands, execute_command}

-- What the code distinguishes of an event.
pub data BarEvent : Type 0 where
  escape_key backspace_key return_key : BarEvent
  character : Bytes → BarEvent
  other_event : BarEvent

pub record CommandBar : Type 0 where
  pub active : Bool
  pub buffer : Bytes

pub record BarContext (C : Type 0) : Type 0 where
  pub context : C
  pub status : Bytes

-- The bar and the context behind an event, and whether it was taken.
pub record BarStep (C : Type 0) : Type 0 where
  pub handled : Bool
  pub bar : CommandBar
  pub env : BarContext C

unfoldable pub activate : CommandBar → CommandBar
activate bar = record { active = true; buffer = [] }

unfoldable pub deactivate : CommandBar → CommandBar
deactivate bar = record { active = false; buffer = [] }

-- `isprint(ch[0])`
abbrev pub is_printable : Bytes → Bool
is_printable [] = false
is_printable (c ∷ s) = leb 32 c && leb c 126

module _ {C : Type 0} (commands : Commands C) where
  abbrev pub with_status : Bool → Bytes → C → BarContext C
  with_status success name ctx = record {
    context = ctx;
    status = (if success then codes "Command: " else codes "Command failed: ") ++ name;
  }

  abbrev pub execute_typed : CommandBar → BarContext C → List Bytes → BarStep C
  execute_typed bar env [] = record {
    handled = true;
    bar = deactivate bar;
    env = record env { status = codes "No command entered" };
  }
  execute_typed bar env (name ∷ args) =
      let (success, ctx) = execute_command commands env.context name args in
      record { handled = true; bar = deactivate bar; env = with_status success name ctx }

  unfoldable pub execute_buffer : CommandBar → BarContext C → BarStep C
  unfolding deactivate
  execute_buffer bar env = execute_typed bar env (words bar.buffer)

  abbrev pub on_event : BarEvent → CommandBar → BarContext C → BarStep C
  on_event escape_key bar env = record {
    handled = true;
    bar = deactivate bar;
    env = record env { status = codes "Command cancelled" };
  }
  on_event backspace_key bar env = record {
    handled = true;
    bar = record bar { buffer = drop_last bar.buffer };
    env = env;
  }
  on_event return_key bar env = execute_buffer bar env
  on_event (character ch) bar env =
      if is_printable ch
      then record { handled = true; bar = record bar { buffer = bar.buffer ++ ch }; env = env }
      else record { handled = false; bar = bar; env = env }
  on_event other_event bar env = record { handled = false; bar = bar; env = env }

  unfoldable pub handle_bar_event : BarEvent → CommandBar → BarContext C → BarStep C
  unfolding execute_buffer deactivate
  handle_bar_event event bar env =
      if not bar.active
      then record { handled = false; bar = bar; env = env }
      else on_event event bar env

  -- Events one behind the other.
  abbrev pub handle_bar_events :
      List BarEvent → CommandBar → BarContext C → CommandBar × BarContext C
  handle_bar_events [] bar env = (bar, env)
  handle_bar_events (event ∷ events) bar env =
      let step = handle_bar_event event bar env in handle_bar_events events step.bar step.env
