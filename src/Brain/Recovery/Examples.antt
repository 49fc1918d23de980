-- ===== src/Brain/Recovery/Examples.antt =====
-- The claims about recovery at concrete inputs: a build that fails, a shell that always succeeds and a
-- workspace with one snapshot.
use mathlib.Core.List.Memᴰ.{Memᴰ}
use nazg.Base.{
  ℕ, zero, suc, ◌≡◌, refl, true, false, none, some, List, [], ◌∷◌, ◌++◌, Bytes, codes, arith, All,
  length,
}
use nazg.Base.Int.{pos}
use nazg.Base.Find.{occurs}
use nazg.Shell.{with_workdir}
use nazg.Brain.Recovery.Params.{json_to_params}
use nazg.Task.{Runner, execute_shell}
use nazg.Workspace.{WorkspaceSnapshot, FileType}
use nazg.Workspace.Restore.Run.{World}
use nazg.Brain.Similarity.{Ratio, ratio}
use nazg.Brain.Recovery.{
  Numbers, parse_action, RecoveryAction, Failure, KnownPattern, Sources, ActionRow,
  create_clean_build_action, create_restore_files_action,
}
use nazg.Brain.Recovery.Suggest.{suggest_recovery}
use nazg.Brain.Recovery.Machine.{
  Devices, Machine, RecoveryResult, RecoveryCall, output, no_log, ran_clean_build, no_action,
  begin_recovery_execution, running, complete_recovery_execution, update_recovery_action_stats,
}
use nazg.Brain.Recovery.Execute.{execute_recovery, opening_calls, recovery_closing, history_of}
use nazg.Brain.Recovery.Execute.Report.{IsDeviceCall, execute_recovery-reports}
use nazg.Brain.Recovery.Execute.RestoreFiles.{create_restore_files_action-fails}
use nazg.Brain.Recovery.Auto.{auto_recover}
use nazg.Brain.Recovery.Auto.Eligible.{TriesFirst, eligible, auto_recover-TriesFirst}
use nazg.Brain.Recovery.Auto.Untouched.{auto_recover-unchanged}

-- Numbers in unary.
abbrev tally : ℕ → Bytes
tally zero = []
tally (suc n) = 49 ∷ tally n

abbrev unary : Numbers
unary = record {
  to_string = tally;
  stoll = λ s. some (length s);
  stoi = λ s. some (length s);
  stod = λ s. some (ratio (length s) 10);
}

abbrev failed_build : Failure
failed_build = record {
  error_signature = codes "abc";
  error_message = codes "ld: undefined reference to f";
  failure_type = codes "build";
  before_snapshot_id = [];
  resolved = codes "0";
  resolution_type = [];
  resolution_snapshot_id = [];
}

-- A clean build that nobody needs to confirm, 0.9 sure.
abbrev sure_row : ActionRow
sure_row = record {
  id = tally 4;
  action_type = codes "clean_build";
  action_description = codes "Clean";
  action_params_json = codes "{}";
  success_count = tally 9;
  failure_count = tally 1;
  avg_execution_time_ms = tally 5;
  confidence_score = tally 9;
  requires_user_confirmation = codes "0";
}

abbrev one_pattern : KnownPattern
one_pattern = record { id = 1; occurrence_count = 3; failure_ids = [] }

abbrev sources_with : List ActionRow → Sources
sources_with rows = record {
  has_store = true;
  has_matcher = true;
  get_failure = λ id. some failed_build;
  matching_patterns = λ failure. one_pattern ∷ [];
  get_pattern = λ id. some one_pattern;
  similar_failures = λ failure. [];
  actions_for_pattern = λ id. rows;
  sort = λ actions. actions;
}

abbrev working_runner : Runner
working_runner = record {
  run_command_capture = λ line. record { exit_code = pos 0; output = codes "done" };
  run_command_with_timeout = λ line limit. record { exit_code = pos 0; output = codes "done" };
  duration = λ line. 7;
}

abbrev devices : Devices
devices = record {
  has_store = true;
  begins = 8;
  workspace_mgr = none;
  executor = some (λ files. working_runner);
  timeout_ms = pos 0;
  leaves = λ line files. files;
  elapsed = λ action. 7;
}

abbrev machine : Machine
machine = record { project = λ path. none; calls = [] }

abbrev threshold : Ratio
threshold = ratio 8 10

abbrev built : RecoveryResult
built = record {
  success = true;
  verification_passed = false;
  output_log = output (codes "done");
  execution_time_ms = 7;
  actions_taken = ran_clean_build ∷ [];
  errors = [];
}

abbrev built_machine : Machine
built_machine = record {
  project = λ path. none;
  calls =
      begin_recovery_execution 1 2 4 false
      ∷ running (codes "rm -rf build && cmake -S . -B build && cmake --build build 2>&1")
      ∷ complete_recovery_execution 8 true (output (codes "done")) false 7
      ∷ update_recovery_action_stats 4 true 7
      ∷ [];
}

auto_recover-sure :
    auto_recover unary (sources_with (sure_row ∷ [])) devices 1 2 threshold machine
    ≡ some (built, built_machine)
unfolding auto_recover suggest_recovery parse_action json_to_params execute_recovery execute_shell
    occurs with_workdir
auto_recover-sure = refl

auto_recover-TriesFirst_example :
    (suggestions : List RecoveryAction) × (suggest_recovery unary (sources_with (sure_row ∷ [])) 2 5
      ≡ some suggestions)
    × TriesFirst unary devices 1 2 (eligible threshold suggestions) machine built_machine true
auto_recover-TriesFirst_example =
    auto_recover-TriesFirst unary devices 1 2 threshold (sources_with (sure_row ∷ [])) machine built
      built_machine auto_recover-sure

abbrev nothing_done : RecoveryResult
nothing_done = record {
  success = false;
  verification_passed = false;
  output_log = no_log;
  execution_time_ms = 0;
  actions_taken = [];
  errors = no_action ∷ [];
}

auto_recover-unsure :
    auto_recover unary (sources_with []) devices 1 2 threshold machine
    ≡ some (nothing_done, machine)
unfolding auto_recover suggest_recovery parse_action json_to_params occurs
auto_recover-unsure = refl

auto_recover-unchanged_example : (nothing_done.success ≡ false) × (machine ≡ machine)
auto_recover-unchanged_example =
    auto_recover-unchanged unary devices 1 2 (sources_with []) threshold machine nothing_done
      machine (λ (actions : List RecoveryAction) (a : RecoveryAction) (m : Memᴰ a actions). m)
      (λ (id : ℕ). refl) (omega arith) auto_recover-unsure

abbrev clean_action : RecoveryAction
clean_action = record (create_clean_build_action []) { id = 4 }

execute_recovery-clean :
    execute_recovery unary devices 1 2 clean_action false machine ≡ some (built, built_machine)
unfolding execute_recovery execute_shell with_workdir
execute_recovery-clean = refl

execute_recovery-reports_example :
    (added : List RecoveryCall) × All IsDeviceCall added
    × (built_machine.calls
        ≡ ((machine.calls ++ opening_calls devices 1 2 clean_action) ++ added)
          ++ recovery_closing devices clean_action (history_of devices) built)
execute_recovery-reports_example =
    execute_recovery-reports unary devices 1 2 clean_action machine built built_machine
      execute_recovery-clean

-- A snapshot of the project, with one file.
abbrev one_file : WorkspaceSnapshot
one_file = record {
  id = 3;
  project_id = 1;
  deps_manifest_hash = [];
  env_snapshot = [];
  system_info = [];
  files = record { path = codes "a.c"; type = FileType.source; hash = codes "12"; size = 8 } ∷ [];
}

abbrev workspace : World
workspace = record {
  has_store = true;
  has_project = λ id. true;
  snapshot = λ id. some one_file;
  has_data = λ id. true;
  current = one_file;
  begins = 2;
  source = λ id path. some (codes "int main;");
  prepares = λ path. true;
  copies = λ path. true;
  leaves = λ path. none;
}

abbrev with_manager : Devices
with_manager = record devices { workspace_mgr = some (λ files. workspace) }

create_restore_files_action-fails_example :
    (result : RecoveryResult) × (m' : Machine) × (execute_recovery unary with_manager 1 2
        (create_restore_files_action unary 3 (codes "again"))
        false
        machine
      ≡ some (result, m'))
    × (result.success ≡ false)
    × (m'.project ≡ machine.project)
create_restore_files_action-fails_example =
    create_restore_files_action-fails unary with_manager 1 2 3 (codes "again") machine refl
