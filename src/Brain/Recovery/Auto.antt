-- ===== src/Brain/Recovery/Auto.antt =====
-- modules/brain/src/recovery.cpp: `auto_recover`, which tries the suggestions in their order until
-- one works, and `verify_recovery`.
pub mod Eligible
pub mod Asking
pub mod Unsure
pub mod Untouched
use nazg.Base.{
  map, ℕ, ◌*◌, Bool, true, false, Option, none, some, List, [], ◌∷◌, ◌++◌, ◌&&◌, ◌||◌, not, Bytes,
  leb, is_empty, if◌then◌else◌,
}
use nazg.Task.{Runner, execute_shell}
use nazg.Workspace.Restore.Run.{Files}
use nazg.Brain.Similarity.{Ratio}
use nazg.Brain.Recovery.{Numbers, RecoveryAction, Sources, ◌>>=◌}
use nazg.Brain.Recovery.Machine.{
  Devices, Machine, RecoveryResult, new_recovery_result, no_suggestions, no_action, running,
  log_calls,
}
use nazg.Brain.Recovery.Execute.{execute_recovery}
use nazg.Brain.Recovery.Suggest.{suggest_recovery, is_none}

-- `a >= b`
abbrev pub at_least : Ratio → Ratio → Bool
at_least a b = leb (b.numerator * a.denominator) (a.numerator * b.denominator)

abbrev pub is_eligible : Ratio → RecoveryAction → Bool
is_eligible threshold action =
    at_least action.confidence_score threshold && not action.requires_confirmation

-- The loop with what follows it, from the result and the machine of the last try.
unfoldable pub try_actions :
    Numbers
    → Devices
    → ℕ
    → ℕ
    → Ratio
    → List RecoveryAction
    → RecoveryResult
    → Machine
    → Option (RecoveryResult × Machine)
try_actions nums devices project_id failure_id threshold [] result m =
    some (record result { errors = result.errors ++ no_action ∷ [] }, m)
try_actions nums devices project_id failure_id threshold (action ∷ actions) result m =
    elim (is_eligible threshold action) [
      | false ↦ try_actions nums devices project_id failure_id threshold actions result m
      | true ↦ execute_recovery nums devices project_id failure_id action false m >>= λ done.
          elim done.0.success [
            | true ↦ some done
            | false ↦ try_actions nums devices project_id failure_id threshold actions done.0 done.1
          ]
    ]

unfoldable pub auto_recover :
    Numbers → Sources → Devices → ℕ → ℕ → Ratio → Machine → Option (RecoveryResult × Machine)
unfolding try_actions
auto_recover nums sources devices project_id failure_id threshold m =
    suggest_recovery nums sources failure_id 5 >>= λ suggestions.
    if is_none suggestions
    then some (record new_recovery_result { errors = no_suggestions ∷ [] }, m)
    else try_actions nums devices project_id failure_id threshold suggestions new_recovery_result m

-- Whether the command works now, with the machine behind it.
abbrev pub verify_by : Devices → (Files → Runner) → Bytes → Machine → Bool × Machine
verify_by devices runner command m =
    let (run, lines) = execute_shell (runner m.project) devices.timeout_ms command [] in
    (
      run.success,
      record { project = devices.leaves command m.project; calls = m.calls ++ map running lines },
    )

pub verify_recovery : Devices → Bytes → Machine → Bool × Machine
verify_recovery devices [] m = (true, m)
verify_recovery devices (c ∷ command) m = elim devices.executor [
  | none ↦ (true, m)
  | some runner ↦ verify_by devices runner (c ∷ command) m
]
