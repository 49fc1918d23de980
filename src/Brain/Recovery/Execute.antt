-- ===== src/Brain/Recovery/Execute.antt =====
-- modules/brain/src/recovery.cpp: `execute_recovery` and the way of each kind of action.
pub mod Report
pub mod RestoreFiles
use nazg.Base.{
  ℕ, ◌+◌, Bool, true, false, Option, none, some, List, [], ◌∷◌, ◌++◌, ◌&&◌, not, Bytes, codes, ltb,
  map, is_empty, if◌then◌else◌,
}
use nazg.Base.Dict.{lookup}
use nazg.Base.Int.{ℤ}
use nazg.Task.{Runner, execute_shell}
use nazg.Workspace.Restore.{RestoreOptions, RestoreError}
use nazg.Workspace.Restore.Run.{World, Files, StoreCall, Restored, restore}
use nazg.Brain.Recovery.Machine.{
  Devices, Machine, Outcome, OutputLog, RecoveryCall, RecoveryError, RecoveryResult, Taken,
  begin_recovery_execution, build_failed, command_failed, complete_recovery_execution, failed,
  full_log, log_calls, new_recovery_result, no_action, no_changes_made, no_command, no_executor,
  no_log, no_snapshot_id, no_suggestions, no_workspace_manager, output, partial_log,
  ran_clean_build, ran_command, restore_error, restored_all, restored_files, restoring, running,
  unsupported, update_recovery_action_stats, would_execute,
}
use nazg.Brain.Recovery.{
  Numbers, ActionType, restore_files, restore_snapshot, clean_build, custom_command, RecoveryAction,
  ◌>>=◌,
}

-- `opts.restore_type` is set, `dry_run` is false; the paths stay empty.
abbrev pub restore_options : Bytes → RestoreOptions
restore_options restore_type = record {
  restore_type = restore_type;
  include_paths = [];
  exclude_paths = [];
  dry_run = false;
}

-- What a partial restore leaves.
abbrev pub partial_outcome : ℕ → Machine → Restored → Outcome
partial_outcome snapshot_id m done = record {
  worked = done.result.success;
  result = record new_recovery_result {
    actions_taken = restored_files done.result.files_restored snapshot_id ∷ [];
    output_log = partial_log done.result.files_restored done.result.files_skipped;
    errors = map restore_error done.result.errors;
  };
  machine = record { project = done.project; calls = m.calls ++ map restoring done.calls };
}

unfoldable pub execute_restore_files :
    Numbers → Devices → RecoveryAction → ℕ → Machine → Option Outcome
execute_restore_files nums devices action project_id m = elim devices.workspace_mgr [
  | none ↦ some (failed no_workspace_manager m)
  | some mgr ↦ elim (lookup (codes "snapshot_id") action.params) [
    | none ↦ some (failed no_snapshot_id m)
    | some text ↦ nums.stoll text >>= λ snapshot_id. some (
        partial_outcome snapshot_id m (
          restore (mgr m.project) project_id snapshot_id (restore_options (codes "partial"))
            m.project))
  ]
]

-- What a full restore leaves.
abbrev pub full_outcome : ℕ → Machine → Restored → Outcome
full_outcome snapshot_id m done = record {
  worked = done.result.success;
  result = record new_recovery_result {
    actions_taken = restored_all snapshot_id ∷ [];
    output_log = full_log done.result.files_restored;
    errors = map restore_error done.result.errors;
  };
  machine = record { project = done.project; calls = m.calls ++ map restoring done.calls };
}

unfoldable pub execute_restore_snapshot :
    Numbers → Devices → RecoveryAction → ℕ → Machine → Option Outcome
execute_restore_snapshot nums devices action project_id m = elim devices.workspace_mgr [
  | none ↦ some (failed no_workspace_manager m)
  | some mgr ↦ elim (lookup (codes "snapshot_id") action.params) [
    | none ↦ some (failed no_snapshot_id m)
    | some text ↦ nums.stoll text >>= λ snapshot_id. some (
        full_outcome snapshot_id m (
          restore (mgr m.project) project_id snapshot_id (restore_options (codes "full"))
            m.project))
  ]
]

-- The last part of `execute_clean_build` and `execute_custom_command`: the shell line.
abbrev pub run_shell :
    Devices → (Files → Runner) → Bytes → Taken → (ℤ → RecoveryError) → Machine → Outcome
run_shell devices runner command taken error m =
    let (run, lines) = execute_shell (runner m.project) devices.timeout_ms command [] in
    record {
      worked = run.success;
      result = record new_recovery_result {
        actions_taken = taken ∷ [];
        output_log = output run.stdout_output;
        errors = if not run.success then error run.exit_code ∷ [] else [];
      };
      machine = record {
        project = devices.leaves command m.project;
        calls = m.calls ++ map running lines;
      };
    }

abbrev pub clean_build_line : Bytes
clean_build_line = codes "rm -rf build && cmake -S . -B build && cmake --build build"

unfoldable pub execute_clean_build : Devices → Machine → Outcome
execute_clean_build devices m = elim devices.executor [
  | none ↦ failed no_executor m
  | some runner ↦ run_shell devices runner clean_build_line ran_clean_build build_failed m
]

abbrev pub run_custom : Devices → (Files → Runner) → Machine → Bytes → Outcome
run_custom devices runner m [] = failed no_command m
run_custom devices runner m (c ∷ command) =
    run_shell devices runner (c ∷ command) (ran_command (c ∷ command)) command_failed m

unfoldable pub execute_custom_command : Devices → RecoveryAction → Machine → Outcome
execute_custom_command devices action m = elim devices.executor [
  | none ↦ failed no_executor m
  | some runner ↦ elim (lookup (codes "command") action.params) [
    | none ↦ failed no_command m
    | some command ↦ run_custom devices runner m command
  ]
]

-- The `switch` over the kinds of action.
abbrev pub execute_type :
    Numbers → Devices → ℕ → RecoveryAction → Machine → ActionType → Option Outcome
execute_type nums devices project_id action m restore_files =
    execute_restore_files nums devices action project_id m
execute_type nums devices project_id action m restore_snapshot =
    execute_restore_snapshot nums devices action project_id m
execute_type nums devices project_id action m clean_build = some (execute_clean_build devices m)
execute_type nums devices project_id action m custom_command =
    some (execute_custom_command devices action m)
execute_type nums devices project_id action m other = some (failed (unsupported other) m)

-- The calls of the store behind the `switch`.
abbrev pub recovery_closing : Devices → RecoveryAction → ℕ → RecoveryResult → List RecoveryCall
recovery_closing devices action history_id result =
    (if devices.has_store && ltb 0 history_id
      then complete_recovery_execution history_id result.success result.output_log
          result.verification_passed result.execution_time_ms
        ∷ []
      else [])
    ++ (if ltb 0 action.id && devices.has_store
        then update_recovery_action_stats action.id result.success result.execution_time_ms ∷ []
        else [])

abbrev pub history_of : Devices → ℕ
history_of devices = if devices.has_store then devices.begins else 0

abbrev pub opening_calls : Devices → ℕ → ℕ → RecoveryAction → List RecoveryCall
opening_calls devices project_id failure_id action =
    if devices.has_store
    then begin_recovery_execution project_id failure_id action.id action.requires_confirmation ∷ []
    else []

abbrev pub finish_recovery : Devices → RecoveryAction → Outcome → RecoveryResult × Machine
finish_recovery devices action outcome =
    let result : RecoveryResult = record outcome.result {
      success = outcome.worked;
      execution_time_ms = devices.elapsed action;
    } in
    (
      result,
      log_calls (recovery_closing devices action (history_of devices) result) outcome.machine,
    )

abbrev pub dry_result : RecoveryAction → RecoveryResult
dry_result action = record new_recovery_result {
  success = true;
  output_log = would_execute action.description;
  actions_taken = no_changes_made ∷ [];
}

unfoldable pub execute_recovery :
    Numbers → Devices → ℕ → ℕ → RecoveryAction → Bool → Machine → Option (RecoveryResult × Machine)
unfolding execute_restore_files execute_restore_snapshot execute_clean_build execute_custom_command
execute_recovery nums devices project_id failure_id action dry_run m =
    if dry_run
    then some (dry_result action, m)
    else (execute_type nums devices project_id action
          (log_calls (opening_calls devices project_id failure_id action) m) action.type
        >>= λ outcome. some (finish_recovery devices action outcome))
