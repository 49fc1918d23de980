-- ===== src/Brain/Recovery/Execute/RestoreFiles.antt =====
-- A recovery by restoring files asks for a partial restore without naming a path, which
-- `Manager::restore` refuses.
use nazg.Base.{ℕ, ◌≡◌, refl, false, Option, none, some, Bytes, codes, arith}
use nazg.Base.Dict.{lookup}
use nazg.Workspace.Restore.Run.{World, Files, restore}
use nazg.Workspace.Restore.Outcome.{accepted, restore-refused}
use nazg.Brain.Recovery.{Numbers, RecoveryAction, create_restore_files_action}
use nazg.Brain.Recovery.Machine.{
  Devices, Machine, RecoveryResult, Outcome, failed, no_workspace_manager, log_calls,
}
use nazg.Brain.Recovery.Execute.{
  restore_options, partial_outcome, opening_calls, finish_recovery, execute_restore_files,
  execute_recovery,
}

partial-refused :
    (world : World) (project_id id : ℕ)
    → accepted world project_id id (restore_options (codes "partial")) ≡ none
partial-refused world project_id id = ground arith

module _ (nums : Numbers) (devices : Devices) (project_id : ℕ) where
  execute_restore_files-fails :
      (action : RecoveryAction) (id : ℕ) (text : Bytes) (m : Machine)
      → lookup (codes "snapshot_id") action.params ≡ some text
      → nums.stoll text ≡ some id
      → (outcome : Outcome) × (execute_restore_files nums devices action project_id m
          ≡ some outcome)
        × (outcome.worked ≡ false)
        × (outcome.machine.project ≡ m.project)
  unfolding execute_restore_files
  execute_restore_files-fails action id text m there read = from_manager devices.workspace_mgr refl
    where
      from_manager :
          (mgr : Option (Files → World))
          → devices.workspace_mgr ≡ mgr
          → (outcome : Outcome) × (execute_restore_files nums devices action project_id m
              ≡ some outcome)
            × (outcome.worked ≡ false)
            × (outcome.machine.project ≡ m.project)
      from_manager none e = (failed no_workspace_manager m, ground (arith, e), refl, refl)
      from_manager (some mgr) e =
          let refused =
            restore-refused (mgr m.project) project_id id (restore_options (codes "partial"))
              m.project (partial-refused (mgr m.project) project_id id) in
          (
            partial_outcome id m (
                restore (mgr m.project) project_id id (restore_options (codes "partial"))
                  m.project),
            ground (arith, e, there, read),
            refused.2,
            refused.0,
          )

  -- The suggestion to restore files from a snapshot never works: for every snapshot whose number
  -- is read as it was written, and whatever the workspace manager, the store and the files are,
  -- executing it returns a failure and leaves the files of the project as they were.
  pub create_restore_files_action-fails :
      (failure_id id : ℕ) (reason : Bytes) (m : Machine)
      → nums.stoll (nums.to_string id) ≡ some id
      → (result : RecoveryResult) × (m' : Machine) × (execute_recovery nums devices project_id
            failure_id
            (create_restore_files_action nums id reason)
            false
            m
          ≡ some (result, m'))
        × (result.success ≡ false)
        × (m'.project ≡ m.project)
  unfolding execute_recovery
  create_restore_files_action-fails failure_id id reason m read =
      let action : RecoveryAction = create_restore_files_action nums id reason in
      let start : Machine = log_calls (opening_calls devices project_id failure_id action) m in
      let (outcome, e, fails, same) =
        execute_restore_files-fails action id (nums.to_string id) start refl read in
      let done = finish_recovery devices action outcome in
      (done.0, done.1, ground (arith, e), fails, same)
