-- ===== src/Task/Examples.antt =====
-- A runner whose commands succeed and print nothing: instances.
use nazg.Base.{true, false, [], ◌∷◌, codes}
use nazg.Base.Int.{pos}
use nazg.Planner.{Plan, ProjectInfo, SnapshotResult, build}
use nazg.Task.{Runner}

abbrev quiet : Runner
quiet = record {
  run_command_capture = λ line. record { exit_code = pos 0; output = [] };
  run_command_with_timeout = λ line timeout. record { exit_code = pos 0; output = [] };
  duration = λ line. 0;
}

abbrev make_plan : Plan
make_plan = record {
  action = build;
  reason = [];
  command = codes "make";
  args = codes "-j4" ∷ [];
  working_dir = codes "/work";
  test_framework = [];
  run_after_build = false;
}

abbrev make_project : ProjectInfo
make_project = record {
  root_path = codes "/work";
  build_system = codes "make";
  test_framework = [];
  has_tests = false;
}

abbrev first_tree : SnapshotResult
first_tree = record { tree_hash = codes "b"; previous_hash = []; changed = true }
