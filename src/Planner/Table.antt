-- ===== src/Planner/Table.antt =====
-- modules/brain/src/planner.cpp: which decision is made when, and what the plan holds.
use nazg.Base.{
  map, ◌≡◌, ◌≢◌, ◌⊎◌, ◌↔◌, refl, Bool, true, false, [], ◌∷◌, ◌||◌, arith, Bytes, codes, ◌=ᵇ◌,
  =ᵇ_iff,
}
use nazg.Planner.{
  skip, build, test, clean, unknown, Plan, ProjectInfo, SnapshotResult, generate_build_plan,
  generate_test_plan, decide, is_unchanged,
}

-- The build systems and test frameworks for which there is a command.
abbrev pub has_build_command : ProjectInfo → Bool
has_build_command info =
    info.build_system =ᵇ codes "cmake"
    || info.build_system =ᵇ codes "make"
    || info.build_system =ᵇ codes "cargo"
    || info.build_system =ᵇ codes "npm"

abbrev pub has_test_command : ProjectInfo → Bool
has_test_command info =
    info.test_framework =ᵇ codes "gtest"
    || info.test_framework =ᵇ codes "ctest"
    || info.test_framework =ᵇ codes "pytest"
    || info.test_framework =ᵇ codes "cargo"
    || info.test_framework =ᵇ codes "jest"
    || info.test_framework =ᵇ codes "vitest"
    || info.test_framework =ᵇ codes "go"
    || info.test_framework =ᵇ codes "catch2"

-- The plan can be run: it has a command and runs in the project's directory.
abbrev pub IsRunnable : ProjectInfo → Plan → Type 0
IsRunnable info plan = (plan.command ≢ []) × (plan.working_dir ≡ info.root_path)

generate_build_plan-known :
    (info : ProjectInfo)
    → has_build_command info ≡ true
    → ((generate_build_plan info).action ≡ build) × IsRunnable info (generate_build_plan info)
unfolding generate_build_plan
generate_build_plan-known info h = ground arith

generate_build_plan-unknown :
    (info : ProjectInfo)
    → has_build_command info ≡ false
    → ((generate_build_plan info).action ≡ unknown) × ((generate_build_plan info).command ≡ [])
unfolding generate_build_plan
generate_build_plan-unknown info h = ground arith

generate_test_plan-known :
    (info : ProjectInfo)
    → has_test_command info ≡ true
    → ((generate_test_plan info).action ≡ test) × IsRunnable info (generate_test_plan info)
unfolding generate_test_plan
generate_test_plan-known info h = ground arith

generate_test_plan-unknown :
    (info : ProjectInfo)
    → has_test_command info ≡ false
    → ((generate_test_plan info).action ≡ unknown) × ((generate_test_plan info).command ≡ [])
unfolding generate_test_plan
generate_test_plan-unknown info h = ground arith

differs : (s t u : Bytes) → (t =ᵇ u) ≡ false → (s =ᵇ t) ≡ true → (s =ᵇ u) ≡ false
differs s t u h e = rw ((=ᵇ_iff s t).0 e) h

-- A build system with a command is not the detector's "unknown".
has_build_command-known :
    (info : ProjectInfo)
    → has_build_command info ≡ true
    → (info.build_system =ᵇ codes "unknown") ≡ false
has_build_command-known info h =
    let s = info.build_system in
    let u = codes "unknown" in
    ground (
      arith,
      differs s (codes "cmake") u refl,
      differs s (codes "make") u refl,
      differs s (codes "cargo") u refl,
      differs s (codes "npm") u refl,
    )

-- What the two command tables give, together.
abbrev CommandFacts : ProjectInfo → Type 0
CommandFacts info =
    (has_build_command info ≡ true → (info.build_system =ᵇ codes "unknown") ≡ false)
    × (has_build_command info ≡ true
        → ((generate_build_plan info).action ≡ build) × IsRunnable info (generate_build_plan info))
    × (has_build_command info ≡ false
        → ((generate_build_plan info).action ≡ unknown) × ((generate_build_plan info).command ≡ []))
    × (has_test_command info ≡ true
        → ((generate_test_plan info).action ≡ test) × IsRunnable info (generate_test_plan info))
    × (has_test_command info ≡ false
        → ((generate_test_plan info).action ≡ unknown) × ((generate_test_plan info).command ≡ []))

command_facts : (info : ProjectInfo) → CommandFacts info
command_facts info = (
  has_build_command-known info,
  generate_build_plan-known info,
  generate_build_plan-unknown info,
  generate_test_plan-known info,
  generate_test_plan-unknown info,
)

-- When `decide` answers with which action.
pub record Decides (info : ProjectInfo) (snapshot : SnapshotResult) (plan : Plan) : Type 0 where
  pub builds :
      (plan.action ≡ build) ↔ ((is_unchanged snapshot ≡ false) × (has_build_command info ≡ true))
  pub tests : (plan.action ≡ test) ↔ (
      (info.has_tests ≡ true)
      × (has_test_command info ≡ true)
      × ((is_unchanged snapshot ≡ true) ⊎ ((info.build_system =ᵇ codes "unknown") ≡ true)))
  pub skips : (plan.action ≡ skip) ↔ ((is_unchanged snapshot ≡ true) × (info.has_tests ≡ false))
  pub never_cleans : plan.action ≢ clean
  pub runnable : (plan.action ≡ build) ⊎ (plan.action ≡ test) → IsRunnable info plan
  pub idle : (plan.action ≡ skip) ⊎ (plan.action ≡ unknown) → plan.command ≡ []

-- `decide` builds exactly if the snapshot has changed, or is the first, and the build system has a
-- command; it tests exactly if there are tests with a command and either the snapshot is unchanged
-- or there is no build system; it skips exactly if the snapshot is unchanged and there are no
-- tests, and it never cleans. A plan that builds or tests has a command and the directory of the
-- project; one that skips or is unknown has no command.
pub decide-Decides :
    (store : Bool) (info : ProjectInfo) (snapshot : SnapshotResult)
    → Decides info snapshot (decide store info snapshot).0
unfolding decide
decide-Decides store info snapshot =
    let (known, builds, builds_not, tests, tests_not) = command_facts info in
    record {
      builds = (ground arith, ground arith);
      tests = (ground arith, ground arith);
      skips = (ground arith, ground arith);
      never_cleans = ground arith;
      runnable = ground arith;
      idle = ground arith;
    }

-- With an unchanged snapshot and tests whose framework has no command, `decide` answers that the
-- action is unknown, but gives the reason of a test run and reports the decision to test as an
-- event.
pub decide_reports_test :
    (info : ProjectInfo) (snapshot : SnapshotResult)
    → is_unchanged snapshot ≡ true
    → info.has_tests ≡ true
    → has_test_command info ≡ false
    → let (plan, events) = decide true info snapshot in
      (plan.action ≡ unknown)
      × (plan.reason ≡ codes "No changes detected, but tests are available")
      × (map (λ e. e.message) events ≡ codes "Decision: TEST (no changes)" ∷ [])
unfolding decide
decide_reports_test info snapshot u t h = ground (arith, generate_test_plan-unknown info h)
