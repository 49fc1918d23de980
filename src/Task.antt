-- ===== src/Task.antt =====
-- modules/task/src/executor.cpp and builder.cpp. Running a command is a parameter: a `Runner` says
-- what each shell line returns, without and with a time limit, and how long a run took.
-- `execute` and `build` return their result and the shell lines that they ran. Recording a build in
-- the store and logging are left out.
pub mod Builds
mod Examples
use nazg.Base.{
  ℕ, Bool, true, false, List, [], ◌∷◌, ◌++◌, ◌&&◌, Bytes, codes, ◌=ᵇ◌, ◌==◌, length, if◌then◌else◌,
}
use nazg.Base.Int.{ℤ, pos, is_zero, is_positive}
use nazg.Shell.{with_workdir}
use nazg.Planner.{Action, skip, build, test, clean, unknown, Plan}

pub record CommandResult : Type 0 where
  pub exit_code : ℤ
  pub output : Bytes

pub record Runner : Type 0 where
  pub run_command_capture : Bytes → CommandResult
  pub run_command_with_timeout : Bytes → ℤ → CommandResult
  pub duration : Bytes → ℕ

pub record ExecutionResult : Type 0 where
  pub exit_code : ℤ
  pub duration_ms : ℕ
  pub stdout_output : Bytes
  pub stderr_output : Bytes
  pub success : Bool
  pub error_message : Bytes

-- `ExecutionResult result;`
abbrev pub new_result : ExecutionResult
new_result = record {
  exit_code = pos 0;
  duration_ms = 0;
  stdout_output = [];
  stderr_output = [];
  success = false;
  error_message = [];
}

-- The command and its arguments, each behind a space.
abbrev pub join_args : List Bytes → Bytes
join_args [] = []
join_args (arg ∷ args) = b' ' ∷ (arg ++ join_args args)

-- The rest of `execute` and `execute_shell`, from the full command on.
abbrev run_full : Runner → ℤ → Bytes → ExecutionResult × List Bytes
run_full r timeout_ms full_cmd =
    let cr =
      if is_positive timeout_ms
      then r.run_command_with_timeout full_cmd timeout_ms
      else r.run_command_capture full_cmd in
    (
      record new_result {
        exit_code = cr.exit_code;
        stdout_output = cr.output;
        duration_ms = r.duration full_cmd;
        success = is_zero cr.exit_code;
      },
      full_cmd ∷ [],
    )

pub execute : Runner → ℤ → Bytes → List Bytes → Bytes → ExecutionResult × List Bytes
execute r timeout_ms command args working_dir =
    run_full r timeout_ms (with_workdir ((command ++ join_args args) ++ codes " 2>&1") working_dir)

unfoldable pub execute_shell : Runner → ℤ → Bytes → Bytes → ExecutionResult × List Bytes
execute_shell r timeout_ms command working_dir =
    run_full r timeout_ms (with_workdir (command ++ codes " 2>&1") working_dir)

-- `plan.command == "/bin/sh" && plan.args.size() == 2 && plan.args[0] == "-c"`, with `plan.args[1]`.
abbrev pub run_plan : Runner → ℤ → Plan → List Bytes → ExecutionResult × List Bytes
run_plan r timeout_ms plan (first ∷ second ∷ []) =
    if plan.command =ᵇ codes "/bin/sh" && first =ᵇ codes "-c"
    then execute_shell r timeout_ms second plan.working_dir
    else execute r timeout_ms plan.command (first ∷ second ∷ []) plan.working_dir
run_plan r timeout_ms plan args = execute r timeout_ms plan.command args plan.working_dir

abbrev build_by : Runner → ℤ → Plan → Action → ExecutionResult × List Bytes
build_by r timeout_ms plan skip = (record new_result { success = true; exit_code = pos 0 }, [])
build_by r timeout_ms plan unknown =
    (record new_result { success = false; error_message = plan.reason }, [])
build_by r timeout_ms plan _ = run_plan r timeout_ms plan plan.args

-- `Builder::build`, with the time limit of its executor.
pub build_plan : Runner → ℤ → Plan → ExecutionResult × List Bytes
unfolding execute execute_shell
build_plan r timeout_ms plan = build_by r timeout_ms plan plan.action
