-- ===== src/Planner.antt =====
-- modules/brain/src/planner.cpp, with the records of brain/types.hpp, detector.hpp and snapshot.hpp
-- as far as the planner reads them. Texts are lists of bytes. `decide` returns the plan and the
-- events that it hands to the store; with no store there are none. Logging is left out.
pub mod Table
mod Examples
use nazg.Base.{
  ℕ, Bool, true, false, List, [], ◌∷◌, ◌++◌, ◌&&◌, ◌||◌, not, Bytes, codes, is_empty, ◌=ᵇ◌, take,
  if◌then◌else◌,
}

pub data Action : Type 0 where
  skip build test clean unknown : Action

pub record Plan : Type 0 where
  pub action : Action
  pub reason : Bytes
  pub command : Bytes
  pub args : List Bytes
  pub working_dir : Bytes
  pub test_framework : Bytes
  pub run_after_build : Bool

pub record ProjectInfo : Type 0 where
  pub root_path : Bytes
  pub build_system : Bytes
  pub test_framework : Bytes
  pub has_tests : Bool

pub record SnapshotResult : Type 0 where
  pub tree_hash : Bytes
  pub previous_hash : Bytes
  pub changed : Bool

-- The level, the message and the details that `add_event` gets.
pub record Event : Type 0 where
  pub level : Bytes
  pub message : Bytes
  pub details : Bytes

-- `Plan plan;`
abbrev pub new_plan : Plan
new_plan = record {
  action = unknown;
  reason = [];
  command = [];
  args = [];
  working_dir = [];
  test_framework = [];
  run_after_build = false;
}

pub generate_build_plan : ProjectInfo → Plan
generate_build_plan info =
    let plan = record new_plan { action = build; working_dir = info.root_path } in
    if info.build_system =ᵇ codes "cmake"
    then record plan {
      command = codes "/bin/sh";
      args = codes "-c" ∷ codes "cmake -B build -S . && cmake --build build -j4" ∷ [];
    }
    else if info.build_system =ᵇ codes "make"
    then record plan { command = codes "make"; args = codes "-j4" ∷ [] }
    else if info.build_system =ᵇ codes "cargo"
    then record plan { command = codes "cargo"; args = codes "build" ∷ codes "--release" ∷ [] }
    else if info.build_system =ᵇ codes "npm"
    then record plan { command = codes "npm"; args = codes "run" ∷ codes "build" ∷ [] }
    else record plan {
      action = unknown;
      reason = codes "Unknown build system: " ++ info.build_system;
    }

pub generate_test_plan : ProjectInfo → Plan
generate_test_plan info =
    let framework = info.test_framework in
    let plan = record new_plan {
      action = test;
      working_dir = info.root_path;
      test_framework = framework;
    } in
    if framework =ᵇ codes "gtest" || framework =ᵇ codes "ctest"
    then record plan {
      command = codes "ctest";
      args = codes "--output-on-failure" ∷ codes "--test-dir" ∷ codes "build" ∷ [];
    }
    else if framework =ᵇ codes "pytest"
    then record plan { command = codes "pytest"; args = codes "-v" ∷ codes "--tb=short" ∷ [] }
    else if framework =ᵇ codes "cargo"
    then record plan {
      command = codes "cargo";
      args = codes "test" ∷ codes "--" ∷ codes "--nocapture" ∷ [];
    }
    else if framework =ᵇ codes "jest"
    then record plan {
      command = codes "npm";
      args = codes "test" ∷ codes "--" ∷ codes "--verbose" ∷ [];
    }
    else if framework =ᵇ codes "vitest"
    then record plan { command = codes "npm"; args = codes "run" ∷ codes "test" ∷ [] }
    else if framework =ᵇ codes "go"
    then record plan { command = codes "go"; args = codes "test" ∷ codes "-v" ∷ codes "./..." ∷ [] }
    else if framework =ᵇ codes "catch2"
    then record plan { command = codes "./build/tests"; args = [] }
    else record plan { action = unknown; reason = codes "Unknown test framework: " ++ framework }

-- `store_->add_event(project_id, level, "planner", message, details)`, if there is a store.
abbrev add_event : Bool → Bytes → Bytes → Bytes → List Event
add_event store level message details =
    if store then record { level = level; message = message; details = details } ∷ [] else []

-- The snapshot has not changed since a previous one.
abbrev pub is_unchanged : SnapshotResult → Bool
is_unchanged snapshot = not snapshot.changed && not (is_empty snapshot.previous_hash)

-- The four ends of `decide`, in the order of the source.
abbrev decide_unchanged : Bool → ProjectInfo → SnapshotResult → Plan × List Event
decide_unchanged store info snapshot =
    if info.has_tests
    then (
      record (generate_test_plan info) {
        reason = codes "No changes detected, but tests are available";
      },
      add_event store (codes "info") (codes "Decision: TEST (no changes)")
          (codes "No changes detected, but tests are available"),
    )
    else (
      record new_plan {
        action = skip;
        reason =
            codes "No changes detected (tree hash: " ++ (take 8 snapshot.tree_hash ++ codes ")");
      },
      add_event store (codes "info") (codes "Decision: SKIP (no changes)") [],
    )

abbrev build_reason : SnapshotResult → Bytes
build_reason snapshot =
    if snapshot.changed
    then codes "Files changed (previous: "
      ++ (take 8 snapshot.previous_hash
          ++ (codes ", current: " ++ (take 8 snapshot.tree_hash ++ codes ")")))
    else codes "First build"

abbrev decide_build : Bool → ProjectInfo → SnapshotResult → Plan × List Event
decide_build store info snapshot = (
  record (generate_build_plan info) {
    reason = build_reason snapshot;
    run_after_build = info.has_tests;
  },
  add_event store (codes "info") (codes "Decision: BUILD") (build_reason snapshot),
)

abbrev test_reason : SnapshotResult → Bytes
test_reason snapshot =
    if snapshot.changed then codes "Files changed, running tests" else codes "First test run"

abbrev decide_test : Bool → ProjectInfo → SnapshotResult → Plan × List Event
decide_test store info snapshot = (
  record (generate_test_plan info) { reason = test_reason snapshot },
  add_event store (codes "info") (codes "Decision: TEST") (test_reason snapshot),
)

abbrev decide_unknown : Bool → Plan × List Event
decide_unknown store = (
  record new_plan { action = unknown; reason = codes "No build system or tests detected" },
  add_event store (codes "warn") (codes "Decision: UNKNOWN")
      (codes "No build system or tests detected"),
)

pub decide : Bool → ProjectInfo → SnapshotResult → Plan × List Event
decide store info snapshot =
    if is_unchanged snapshot
    then decide_unchanged store info snapshot
    else if not (info.build_system =ᵇ codes "unknown")
    then decide_build store info snapshot
    else if info.has_tests
    then decide_test store info snapshot
    else decide_unknown store
