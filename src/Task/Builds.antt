-- ===== src/Task/Builds.antt =====
-- modules/task/src/builder.cpp: what is run for a plan, and for what modules/brain/src/planner.cpp
-- decides.
use nazg.Base.{
  ◌≡◌, ◌⊎◌, inl, inr, refl, Bool, true, false, List, [], ◌∷◌, Bytes, codes, Bool-cases, subst, ◌&&◌,
  ◌=ᵇ◌,
}
use nazg.Base.Int.{ℤ, is_zero}
use nazg.Planner.{
  Action, skip, build, test, clean, unknown, Plan, ProjectInfo, SnapshotResult, decide,
  is_unchanged,
}
use nazg.Planner.Table.{Decides, decide-Decides, has_build_command}
use nazg.Task.{Runner, ExecutionResult, build_plan, run_plan, build_by, execute, execute_shell}

-- A result of a run of one shell line, which succeeds exactly if its exit code is 0.
abbrev pub RanOne : ExecutionResult × List Bytes → Type 0
RanOne result =
    ((line : Bytes) × (result.1 ≡ line ∷ [])) × (result.0.success ≡ is_zero result.0.exit_code)

execute-RanOne :
    (r : Runner) (timeout_ms : ℤ) (command : Bytes) (args : List Bytes) (dir : Bytes)
    → RanOne (execute r timeout_ms command args dir)
unfolding execute
execute-RanOne r timeout_ms command args dir = ((_, refl), refl)

execute_shell-RanOne :
    (r : Runner) (timeout_ms : ℤ) (command dir : Bytes)
    → RanOne (execute_shell r timeout_ms command dir)
unfolding execute_shell
execute_shell-RanOne r timeout_ms command dir = ((_, refl), refl)

run_plan-RanOne :
    (r : Runner) (timeout_ms : ℤ) (plan : Plan) (args : List Bytes)
    → RanOne (run_plan r timeout_ms plan args)
run_plan-RanOne r timeout_ms plan [] = execute-RanOne r timeout_ms plan.command [] plan.working_dir
run_plan-RanOne r timeout_ms plan (a ∷ []) =
    execute-RanOne r timeout_ms plan.command (a ∷ []) plan.working_dir
run_plan-RanOne r timeout_ms plan (a ∷ b ∷ []) =
    elim (Bool-cases (plan.command =ᵇ codes "/bin/sh" && a =ᵇ codes "-c")) [
      | inl shell ↦ rw shell (execute_shell-RanOne r timeout_ms b plan.working_dir)
      | inr direct ↦
          rw direct (execute-RanOne r timeout_ms plan.command (a ∷ b ∷ []) plan.working_dir)
    ]
run_plan-RanOne r timeout_ms plan (a ∷ b ∷ c ∷ rest) =
    execute-RanOne r timeout_ms plan.command (a ∷ b ∷ c ∷ rest) plan.working_dir

-- What a build of a plan does for each action.
abbrev pub BuildsBy : Plan → Action → ExecutionResult × List Bytes → Type 0
BuildsBy plan skip result = (result.0.success ≡ true) × (result.1 ≡ [])
BuildsBy plan unknown result =
    (result.0.success ≡ false) × (result.0.error_message ≡ plan.reason) × (result.1 ≡ [])
BuildsBy plan _ result = RanOne result

build_by-BuildsBy :
    (r : Runner) (timeout_ms : ℤ) (plan : Plan) (a : Action)
    → BuildsBy plan a (build_by r timeout_ms plan a)
build_by-BuildsBy r timeout_ms plan skip = (refl, refl)
build_by-BuildsBy r timeout_ms plan unknown = (refl, refl, refl)
build_by-BuildsBy r timeout_ms plan build = run_plan-RanOne r timeout_ms plan plan.args
build_by-BuildsBy r timeout_ms plan test = run_plan-RanOne r timeout_ms plan plan.args
build_by-BuildsBy r timeout_ms plan clean = run_plan-RanOne r timeout_ms plan plan.args

-- A skipped plan succeeds and an unknown one fails with the plan's reason, and neither runs
-- anything; any other plan runs one shell line, and succeeds exactly if this returns 0.
pub build_plan-BuildsBy :
    (r : Runner) (timeout_ms : ℤ) (plan : Plan)
    → BuildsBy plan plan.action (build_plan r timeout_ms plan)
unfolding build_plan
build_plan-BuildsBy r timeout_ms plan = build_by-BuildsBy r timeout_ms plan plan.action

runs_one :
    (plan : Plan) (a : Action) (result : ExecutionResult × List Bytes)
    → BuildsBy plan a result
    → ((a ≡ build) ⊎ (a ≡ test) → RanOne result) × ((a ≡ skip) ⊎ (a ≡ unknown) → result.1 ≡ [])
runs_one plan skip result b = (λ h. elim h [ inl e ↦ cc | inr e ↦ cc ], λ h. b.1)
runs_one plan unknown result b = (λ h. elim h [ inl e ↦ cc | inr e ↦ cc ], λ h. b.2)
runs_one plan build result b = (λ h. b, λ h. elim h [ inl e ↦ cc | inr e ↦ cc ])
runs_one plan test result b = (λ h. b, λ h. elim h [ inl e ↦ cc | inr e ↦ cc ])
runs_one plan clean result b =
    (λ h. elim h [ inl e ↦ cc | inr e ↦ cc ], λ h. elim h [ inl e ↦ cc | inr e ↦ cc ])

-- From the project to the process: what `decide` answers is built by running one shell line if the
-- project has changed and its build system has a command, and by running nothing if it has not
-- changed and has no tests.
pub build_plan-decide :
    (r : Runner) (timeout_ms : ℤ) (store : Bool) (info : ProjectInfo) (snapshot : SnapshotResult)
    → let result = build_plan r timeout_ms (decide store info snapshot).0 in
      ((is_unchanged snapshot ≡ false) × (has_build_command info ≡ true) → RanOne result)
      × ((is_unchanged snapshot ≡ true) × (info.has_tests ≡ false)
          → (result.0.success ≡ true) × (result.1 ≡ []))
build_plan-decide r timeout_ms store info snapshot = (
  λ h. (runs_one plan plan.action result built).0 (inl (decided.builds.1 h)),
  λ h. subst (λ a. BuildsBy plan a result) (decided.skips.1 h) built,
)
  where
    plan : Plan
    plan = (decide store info snapshot).0

    result : ExecutionResult × List Bytes
    result = build_plan r timeout_ms plan

    decided : Decides info snapshot plan
    decided = decide-Decides store info snapshot

    built : BuildsBy plan plan.action result
    built = build_plan-BuildsBy r timeout_ms plan
