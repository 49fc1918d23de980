-- ===== src/Brain/Recovery/Machine.antt =====
-- What a recovery of modules/brain/src/recovery.cpp works on and leaves. What the code writes into its
-- log texts is a constructor with the numbers it names. The workspace manager and the executor, if
-- they are set, are those of modules/workspace and modules/task: what they answer may depend on the
-- files of the project.
use nazg.Base.{ℕ, Bool, false, Option, List, [], ◌∷◌, ◌++◌, Bytes}
use nazg.Base.Int.{ℤ}
use nazg.Task.{Runner}
use nazg.Workspace.Restore.{RestoreError}
use nazg.Workspace.Restore.Run.{World, Files, StoreCall}
use nazg.Brain.Recovery.{ActionType, RecoveryAction}

pub data Taken : Type 0 where
  no_changes_made ran_clean_build : Taken
  restored_files : ℕ → ℕ → Taken
  restored_all : ℕ → Taken
  ran_command : Bytes → Taken

pub data OutputLog : Type 0 where
  no_log : OutputLog
  would_execute output : Bytes → OutputLog
  partial_log : ℕ → ℕ → OutputLog
  full_log : ℕ → OutputLog

pub data RecoveryError : Type 0 where
  unsupported : ActionType → RecoveryError
  no_workspace_manager no_snapshot_id no_executor no_command : RecoveryError
  restore_error : RestoreError → RecoveryError
  build_failed command_failed : ℤ → RecoveryError
  no_suggestions no_action : RecoveryError

pub record RecoveryResult : Type 0 where
  pub success : Bool
  pub verification_passed : Bool
  pub output_log : OutputLog
  pub execution_time_ms : ℕ
  pub actions_taken : List Taken
  pub errors : List RecoveryError

-- `RecoveryResult result;`
abbrev pub new_recovery_result : RecoveryResult
new_recovery_result = record {
  success = false;
  verification_passed = false;
  output_log = no_log;
  execution_time_ms = 0;
  actions_taken = [];
  errors = [];
}

-- The calls that change the store or the files: those of the store and of the workspace's store that
-- write, and those of the shell. What the code reads of the store, as `suggest_recovery` does, is an
-- answer in `Sources` and no call here.
pub data RecoveryCall : Type 0 where
  begin_recovery_execution : ℕ → ℕ → ℕ → Bool → RecoveryCall
  complete_recovery_execution : ℕ → Bool → OutputLog → Bool → ℕ → RecoveryCall
  update_recovery_action_stats : ℕ → Bool → ℕ → RecoveryCall
  restoring : StoreCall → RecoveryCall
  running : Bytes → RecoveryCall

-- The files of the project and the calls so far that change them or the store.
pub record Machine : Type 0 where
  pub project : Files
  pub calls : List RecoveryCall

-- `begins` is the record that `begin_recovery_execution` opens, 0 when it fails; `leaves` the files
-- that a shell line leaves; `elapsed` the time that an action takes.
pub record Devices : Type 0 where
  pub has_store : Bool
  pub begins : ℕ
  pub workspace_mgr : Option (Files → World)
  pub executor : Option (Files → Runner)
  pub timeout_ms : ℤ
  pub leaves : Bytes → Files → Files
  pub elapsed : RecoveryAction → ℕ

abbrev pub log_calls : List RecoveryCall → Machine → Machine
log_calls calls m = record m { calls = m.calls ++ calls }

-- What an action of one kind leaves: whether it worked, the result so far and the machine.
pub record Outcome : Type 0 where
  pub worked : Bool
  pub result : RecoveryResult
  pub machine : Machine

abbrev pub failed : RecoveryError → Machine → Outcome
failed error m = record {
  worked = false;
  result = record new_recovery_result { errors = error ∷ [] };
  machine = m;
}
