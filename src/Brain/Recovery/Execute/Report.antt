-- ===== src/Brain/Recovery/Execute/Report.antt =====
-- What `execute_recovery` reports to the store.
use nazg.Base.{
  ℕ, ◌≡◌, refl, sym, false, Option, none, some, List, [], ◌∷◌, ◌++◌, map, Bytes, codes, arith,
  append-nil, All,
}
use nazg.Base.Int.{ℤ}
use nazg.Base.Dict.{lookup}
use nazg.Task.{Runner, execute_shell}
use nazg.Workspace.Restore.Run.{World, Files, StoreCall, Restored, restore}
use nazg.Brain.Recovery.{
  Numbers, RecoveryAction, ActionType, restore_files, restore_snapshot, modify_config,
  downgrade_dependency, restore_environment, clean_build, custom_command, ◌>>=◌,
}
use nazg.Brain.Recovery.Machine.{
  Devices, Machine, RecoveryResult, RecoveryCall, restoring, running, Outcome, RecoveryError, Taken,
  failed, log_calls,
}
use nazg.Brain.Recovery.Execute.{
  partial_outcome, full_outcome, run_shell, run_custom, clean_build_line, execute_type,
  execute_restore_files, execute_restore_snapshot, execute_clean_build, execute_custom_command,
  execute_recovery, opening_calls, recovery_closing, history_of, finish_recovery, restore_options,
}

-- A call of the workspace's store or of the shell, and none of the recovery's own.
abbrev pub IsDeviceCall : RecoveryCall → Type 0
IsDeviceCall (restoring call) = Unit
IsDeviceCall (running line) = Unit
IsDeviceCall call = ⊥

-- Calls that were added to those of a machine, all of them by the devices.
abbrev pub Adds : List RecoveryCall → List RecoveryCall → Type 0
Adds before behind =
    (added : List RecoveryCall) × (behind ≡ before ++ added) × All IsDeviceCall added

Adds-none : (calls : List RecoveryCall) → Adds calls calls
Adds-none calls = ([], sym (append-nil calls), tt)

All-restoring : (calls : List StoreCall) → All IsDeviceCall (map restoring calls)
All-restoring [] = tt
All-restoring (call ∷ calls) = (tt, All-restoring calls)

All-running : (lines : List Bytes) → All IsDeviceCall (map running lines)
All-running [] = tt
All-running (line ∷ lines) = (tt, All-running lines)

abbrev OutcomeAdds : Machine → Option Outcome → Type 0
OutcomeAdds m none = Unit
OutcomeAdds m (some outcome) = Adds m.calls outcome.machine.calls

module _ (nums : Numbers) (devices : Devices) (project_id : ℕ) (action : RecoveryAction)
    (m : Machine) where
  restoring-Adds :
      (mode : Bytes) (outcome : ℕ → Machine → Restored → Outcome)
      → ((id : ℕ) (done : Restored)
          → (outcome id m done).machine.calls ≡ m.calls ++ map restoring done.calls)
      → (mgr : Option (Files → World)) (text : Option Bytes)
      → OutcomeAdds m (elim mgr [
        | none ↦ some (failed RecoveryError.no_workspace_manager m)
        | some mgr ↦ elim text [
          | none ↦ some (failed RecoveryError.no_snapshot_id m)
          | some text ↦ nums.stoll text >>= λ id. some (
              outcome id m (restore (mgr m.project) project_id id (restore_options mode) m.project))
        ]
      ])
  restoring-Adds mode outcome h none text = Adds-none m.calls
  restoring-Adds mode outcome h (some mgr) none = Adds-none m.calls
  restoring-Adds mode outcome h (some mgr) (some text) = read (nums.stoll text)
    where
      read :
          (o : Option ℕ)
          → OutcomeAdds m (
              o >>= λ id. some (
                outcome id m
                  (restore (mgr m.project) project_id id (restore_options mode) m.project)))
      read none = tt
      read (some id) =
          let done = restore (mgr m.project) project_id id (restore_options mode) m.project in
          (map restoring done.calls, h id done, All-restoring done.calls)

  run_shell-Adds :
      (runner : Files → Runner) (line : Bytes) (taken : Taken) (error : ℤ → RecoveryError)
      → Adds m.calls (run_shell devices runner line taken error m).machine.calls
  run_shell-Adds runner line taken error =
      let lines = (execute_shell (runner m.project) devices.timeout_ms line []).1 in
      (map running lines, refl, All-running lines)

  building-Adds :
      (o : Option (Files → Runner))
      → Adds m.calls
          (elim o as (λ x. Outcome) [
            | none ↦ failed RecoveryError.no_executor m
            | some runner ↦
                run_shell devices runner clean_build_line Taken.ran_clean_build
                  RecoveryError.build_failed m
          ]).machine.calls
  building-Adds none = Adds-none m.calls
  building-Adds (some runner) =
      run_shell-Adds runner clean_build_line Taken.ran_clean_build RecoveryError.build_failed

  run_custom-Adds :
      (runner : Files → Runner) (line : Bytes)
      → Adds m.calls (run_custom devices runner m line).machine.calls
  run_custom-Adds runner [] = Adds-none m.calls
  run_custom-Adds runner (c ∷ line) =
      run_shell-Adds runner (c ∷ line) (Taken.ran_command (c ∷ line)) RecoveryError.command_failed

  custom-Adds :
      (o : Option (Files → Runner)) (line : Option Bytes)
      → Adds m.calls
          (elim o as (λ x. Outcome) [
            | none ↦ failed RecoveryError.no_executor m
            | some runner ↦ elim line as (λ x. Outcome) [
              | none ↦ failed RecoveryError.no_command m
              | some line ↦ run_custom devices runner m line
            ]
          ]).machine.calls
  custom-Adds none line = Adds-none m.calls
  custom-Adds (some runner) none = Adds-none m.calls
  custom-Adds (some runner) (some line) = run_custom-Adds runner line

  execute_type-Adds :
      (type : ActionType) → OutcomeAdds m (execute_type nums devices project_id action m type)
  unfolding execute_restore_files execute_restore_snapshot execute_clean_build
      execute_custom_command
  execute_type-Adds restore_files =
      restoring-Adds (codes "partial") partial_outcome (λ id done. refl) devices.workspace_mgr
        (lookup (codes "snapshot_id") action.params)
  execute_type-Adds restore_snapshot =
      restoring-Adds (codes "full") full_outcome (λ id done. refl) devices.workspace_mgr
        (lookup (codes "snapshot_id") action.params)
  execute_type-Adds clean_build = building-Adds devices.executor
  execute_type-Adds custom_command =
      custom-Adds devices.executor (lookup (codes "command") action.params)
  execute_type-Adds modify_config = Adds-none m.calls
  execute_type-Adds downgrade_dependency = Adds-none m.calls
  execute_type-Adds restore_environment = Adds-none m.calls

-- An executed action is reported once. The calls that `execute_recovery` makes, when it returns, are
-- the opening of its record, if there is a store, then calls of the workspace's store and of the shell
-- only, then the close of the record and the statistics of the action, where these are due; they
-- tell the success and the time that are returned.
pub execute_recovery-reports :
    (nums : Numbers) (devices : Devices) (project_id failure_id : ℕ) (action : RecoveryAction)
    (m : Machine) (result : RecoveryResult) (m' : Machine)
    → execute_recovery nums devices project_id failure_id action false m ≡ some (result, m')
    → (added : List RecoveryCall) × All IsDeviceCall added
      × (m'.calls
          ≡ ((m.calls ++ opening_calls devices project_id failure_id action) ++ added)
            ++ recovery_closing devices action (history_of devices) result)
unfolding execute_recovery
execute_recovery-reports nums devices project_id failure_id action m result m' h =
    from_outcome
      (execute_type nums devices project_id action
        (log_calls (opening_calls devices project_id failure_id action) m) action.type)
      refl
      (execute_type-Adds nums devices project_id action
        (log_calls (opening_calls devices project_id failure_id action) m) action.type)
  where
    from_outcome :
        (o : Option Outcome)
        → execute_type nums devices project_id action
            (log_calls (opening_calls devices project_id failure_id action) m)
            action.type
          ≡ o
        → OutcomeAdds (log_calls (opening_calls devices project_id failure_id action) m) o
        → (added : List RecoveryCall) × All IsDeviceCall added
          × (m'.calls
              ≡ ((m.calls ++ opening_calls devices project_id failure_id action) ++ added)
                ++ recovery_closing devices action (history_of devices) result)
    from_outcome none e a = absurd (ground (arith, h, e))
    from_outcome (some outcome) e (added, calls, all) =
        let same : some (finish_recovery devices action outcome) ≡ some (result, m') =
          ground (arith, h, e) in
        (added, all, ground (arith, same, calls))
