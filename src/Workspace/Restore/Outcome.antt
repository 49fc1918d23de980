-- ===== src/Workspace/Restore/Outcome.antt =====
-- modules/workspace/src/manager.cpp: what `restore` leaves in the project, and what it reports.
use nazg.Base.{
  ℕ, ◌≡◌, refl, sym, ap, ◌∙◌, inl, inr, Bool, true, false, Option-cases, Option, none, some, List,
  [], ◌∷◌, ◌&&◌, ◌||◌, not, Bytes, =ᵇ_refl, ◌==◌, if◌then◌else◌, arith,
}
use nazg.Base.Members.{contains_bytes}
use nazg.Workspace.{WorkspaceSnapshot}
use nazg.Workspace.Diff.{map_files}
use nazg.Workspace.Restore.{
  RestoreOptions, RestoreResult, RestoreMode, chosen, refused, choose_mode, candidates_of,
  sort_paths,
}
use nazg.Workspace.Restore.Run.{World, Files, Restored, run_restore, restore, no_restore}
use nazg.Workspace.Restore.Selection.{all_pass, sort_paths-all_pass, contains_bytes-sort_paths}
use nazg.Workspace.Restore.Smart.{selects, candidates_of-selects, selects-is_there}
use nazg.Workspace.Restore.Loop.{
  works, copied, is_known, restore_paths_in-project, restore_paths_in-dry_run,
  restore_paths_in-no_errors,
}

all_pass_of :
    (test : Bytes → Bool) (paths : List Bytes)
    → ((p : Bytes) → contains_bytes p paths ≡ true → test p ≡ true)
    → all_pass test paths ≡ true
all_pass_of test [] f = refl
all_pass_of test (path ∷ paths) f =
    both _ _ (f path (first (contains_bytes path paths) (=ᵇ_refl path)))
      (all_pass_of test paths (λ p h. f p (second _ _ h)))
  where
    both : (a b : Bool) → a ≡ true → b ≡ true → (a && b) ≡ true
    both a b h k = ground arith

    first : {a : Bool} (b : Bool) → a ≡ true → (a || b) ≡ true
    first b h = ground arith

    second : (a b : Bool) → b ≡ true → (a || b) ≡ true
    second a b h = ground arith

-- The snapshot and the mode of a restore that passes the guards.
abbrev pub accepted : World → ℕ → ℕ → RestoreOptions → Option (WorkspaceSnapshot × RestoreMode)
accepted world project_id id opts =
    if not (world.has_store && world.has_project project_id)
    then none
    else elim (world.snapshot id) [
      | none ↦ none
      | some snapshot ↦
          if not (snapshot.project_id == project_id && world.has_data id)
          then none
          else elim (choose_mode opts) [ refused e ↦ none | chosen mode ↦ some (snapshot, mode) ]
    ]

module _ (world : World) (project_id id : ℕ) (opts : RestoreOptions) where
  abbrev paths_of_mode : WorkspaceSnapshot → RestoreMode → List Bytes
  paths_of_mode snapshot mode = (candidates_of opts world.current snapshot mode).restore_paths

  known_paths :
      (snapshot : WorkspaceSnapshot) (mode : RestoreMode)
      → all_pass
          (is_known world id (map_files snapshot.files []))
          (sort_paths (paths_of_mode snapshot mode))
        ≡ true
  known_paths snapshot mode =
      sort_paths-all_pass (is_known world id (map_files snapshot.files []))
        (paths_of_mode snapshot mode)
      ∙ all_pass_of (is_known world id (map_files snapshot.files [])) (paths_of_mode snapshot mode)
          (λ p h.
            selects-is_there opts world.current snapshot mode p
              (sym (candidates_of-selects opts world.current snapshot mode p) ∙ h))

  abbrev ran : WorkspaceSnapshot → RestoreMode → Files → Restored
  ran snapshot mode project =
      run_restore world project_id opts snapshot id mode
        (candidates_of opts world.current snapshot mode) project

  -- A restore that passes the guards is its run.
  restore-accepted :
      (snapshot : WorkspaceSnapshot) (mode : RestoreMode) (project : Files)
      → accepted world project_id id opts ≡ some (snapshot, mode)
      → restore world project_id id opts project ≡ ran snapshot mode project
  unfolding restore
  restore-accepted snapshot mode project h = ground arith

  pub restore-refused :
      (project : Files)
      → accepted world project_id id opts ≡ none
      → ((restore world project_id id opts project).project ≡ project)
        × ((restore world project_id id opts project).calls ≡ [])
        × ((restore world project_id id opts project).result.success ≡ false)
  unfolding restore
  restore-refused project h = (ground arith, ground arith, ground arith)

  module _ (snapshot : WorkspaceSnapshot) (mode : RestoreMode) (project : Files) where
    ran-project :
        (p : Bytes)
        → opts.dry_run ≡ false
        → (ran snapshot mode project).project p ≡ (
            if selects opts world.current snapshot mode p
            then copied world id project p
            else project p)
    unfolding run_restore
    ran-project p h =
        let c = candidates_of opts world.current snapshot mode in
        let m = map_files snapshot.files [] in
        let start : RestoreResult × Files =
          (record no_restore { files_skipped = c.filtered_out }, project) in
        ground (
          arith,
          candidates_of-selects opts world.current snapshot mode p,
          contains_bytes-sort_paths p c.restore_paths,
          restore_paths_in-project world id m (sort_paths c.restore_paths) p start
              (known_paths snapshot mode),
        )

    ran-success :
        (ran snapshot mode project).result.success
        ≡ all_pass (works world id opts.dry_run) (paths_of_mode snapshot mode)
    unfolding run_restore
    ran-success =
        let c = candidates_of opts world.current snapshot mode in
        let m = map_files snapshot.files [] in
        let start : RestoreResult × Files =
          (record no_restore { files_skipped = c.filtered_out }, project) in
        ground (
          arith,
          restore_paths_in-no_errors world id m opts.dry_run (sort_paths c.restore_paths) start
              (known_paths snapshot mode),
          sort_paths-all_pass (works world id opts.dry_run) c.restore_paths,
        )

    ran-dry_run :
        opts.dry_run ≡ true
        → ((ran snapshot mode project).project ≡ project) × ((ran snapshot mode project).calls ≡ [])
    unfolding run_restore
    ran-dry_run h =
        let c = candidates_of opts world.current snapshot mode in
        let m = map_files snapshot.files [] in
        let start : RestoreResult × Files =
          (record no_restore { files_skipped = c.filtered_out }, project) in
        (
          ground (arith, restore_paths_in-dry_run world id m (sort_paths c.restore_paths) start),
          ground arith,
        )

-- A restore that is no dry run leaves each path of the project as it was if it does not pass the
-- guards. If it does, each path that it is to copy has the snapshot's content, or what a failed copy
-- left; or it is as it was if the snapshot's file is missing or its directory cannot be prepared.
-- Every other path is as it was.
pub restore-copied :
    (world : World) (project_id id : ℕ) (opts : RestoreOptions) (project : Files) (p : Bytes)
    → opts.dry_run ≡ false
    → (restore world project_id id opts project).project p
      ≡ (elim (accepted world project_id id opts) [
        | none ↦ project p
        | some (snapshot, mode) ↦
            if selects opts world.current snapshot mode p
            then copied world id project p
            else project p
      ])
restore-copied world project_id id opts project p h =
    elim (Option-cases (accepted world project_id id opts)) [
      | inl e ↦ rw e (ap (λ f. f p) (restore-refused world project_id id opts project e).0)
      | inr ((snapshot, mode), e) ↦ rw e (
          ap (λ r. r.project p) (restore-accepted world project_id id opts snapshot mode project e)
          ∙ ran-project world project_id id opts snapshot mode project p h)
    ]

-- A restore reports success exactly when it passes the guards and every path that it selects works:
-- the snapshot's file is there and, unless it is a dry run, its directory can be prepared and it is
-- copied.
pub restore-all_pass :
    (world : World) (project_id id : ℕ) (opts : RestoreOptions) (project : Files)
    → (restore world project_id id opts project).result.success
      ≡ (elim (accepted world project_id id opts) [
        | none ↦ false
        | some (snapshot, mode) ↦
            all_pass
              (works world id opts.dry_run)
              (candidates_of opts world.current snapshot mode).restore_paths
      ])
restore-all_pass world project_id id opts project =
    elim (Option-cases (accepted world project_id id opts)) [
      | inl e ↦ rw e (restore-refused world project_id id opts project e).2
      | inr ((snapshot, mode), e) ↦ rw e (
          ap (λ r. r.result.success)
            (restore-accepted world project_id id opts snapshot mode project e)
          ∙ ran-success world project_id id opts snapshot mode project)
    ]

-- A dry run changes no file of the project and asks the store for nothing.
pub restore_dry_run :
    (world : World) (project_id id : ℕ) (opts : RestoreOptions) (project : Files)
    → opts.dry_run ≡ true
    → ((restore world project_id id opts project).project ≡ project)
      × ((restore world project_id id opts project).calls ≡ [])
restore_dry_run world project_id id opts project h =
    elim (Option-cases (accepted world project_id id opts)) [
      | inl e ↦
          let (same, quiet, fails) = restore-refused world project_id id opts project e in
          (same, quiet)
      | inr ((snapshot, mode), e) ↦
          let r = restore-accepted world project_id id opts snapshot mode project e in
          let (same, quiet) = ran-dry_run world project_id id opts snapshot mode project h in
          (ap (λ r. r.project) r ∙ same, ap (λ r. r.calls) r ∙ quiet)
    ]
