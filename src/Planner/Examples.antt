-- ===== src/Planner/Examples.antt =====
-- A CMake project, changed and unchanged: tests and instances.
use nazg.Base.{◌≡◌, refl, true, false, codes}
use nazg.Planner.{build, ProjectInfo, SnapshotResult, decide, generate_build_plan}
use nazg.Planner.Table.{Decides, decide-Decides}

abbrev project : ProjectInfo
project = record {
  root_path = codes "/work";
  build_system = codes "cmake";
  test_framework = codes "unittest";
  has_tests = true;
}

abbrev changed_tree : SnapshotResult
changed_tree = record { tree_hash = codes "b"; previous_hash = codes "a"; changed = true }

abbrev same_tree : SnapshotResult
same_tree = record { tree_hash = codes "a"; previous_hash = codes "a"; changed = false }

decide_builds : (decide true project changed_tree).0.action ≡ build
unfolding decide generate_build_plan
decide_builds = refl

decide-Decides_example : Decides project changed_tree (decide true project changed_tree).0
decide-Decides_example = decide-Decides true project changed_tree
