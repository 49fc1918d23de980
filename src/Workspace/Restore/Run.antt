-- ===== src/Workspace/Restore/Run.antt =====
-- modules/workspace/src/manager.cpp: the guards of `restore`, its loop over the sorted paths and its
-- calls of the store. The paths name different files: no path of a snapshot leads through another.
use nazg.Base.{
  ℕ, ◌+◌, Bool, true, false, Option, none, some, List, [], ◌∷◌, ◌++◌, ◌&&◌, Bytes, ◌=ᵇ◌, ◌==◌, ltb,
  not, if◌then◌else◌,
}
use nazg.Base.Dict.{Dict, lookup}
use nazg.Base.Members.{is_there}
use nazg.Workspace.{WorkspaceFile, WorkspaceSnapshot}
use nazg.Workspace.Diff.{map_files}
use nazg.Workspace.Restore.{
  RestoreOptions, RestoreError, missing_file, directory_failed, copy_failed, no_store, no_project,
  no_snapshot, other_project, no_data, RestoreResult, Candidates, RestoreMode, chosen, refused,
  choose_mode, candidates_of, sort_paths, has_paths,
}

-- The contents of the project's files.
abbrev pub Files : Type 0
Files = Bytes → Option Bytes

-- What the store and the file system answer. `current` is the scan of the project that `diff_current`
-- makes, `begins` the record that `begin_workspace_restore` opens, 0 when it fails.
pub record World : Type 0 where
  pub has_store : Bool
  pub has_project : ℕ → Bool
  pub snapshot : ℕ → Option WorkspaceSnapshot
  pub has_data : ℕ → Bool
  pub current : WorkspaceSnapshot
  pub begins : ℕ
  pub source : ℕ → Files
  pub prepares : Bytes → Bool
  pub copies : Bytes → Bool
  pub leaves : Files

pub data StoreCall : Type 0 where
  begin_restore : ℕ → ℕ → RestoreMode → StoreCall
  finish_restore : ℕ → Bool → ℕ → StoreCall
  update_restore_count : ℕ → StoreCall

pub record Restored : Type 0 where
  pub result : RestoreResult
  pub project : Files
  pub calls : List StoreCall

abbrev pub write_file : Bytes → Option Bytes → Files → Files
write_file path content project = λ p. if path =ᵇ p then content else project p

abbrev skip : RestoreResult → RestoreResult
skip result = record result { files_skipped = result.files_skipped + 1 }

abbrev fail : RestoreError → RestoreResult → RestoreResult
fail error result = record result {
  files_skipped = result.files_skipped + 1;
  errors = result.errors ++ error ∷ [];
}

-- The loop's body.
abbrev pub restore_path :
    World → ℕ → Bool → Dict WorkspaceFile → Bytes → RestoreResult × Files → RestoreResult × Files
restore_path world id dry_run file_lookup path (result, project) =
    if not (is_there (lookup path file_lookup))
    then (skip result, project)
    else if not (is_there (world.source id path))
    then (fail (missing_file path) result, project)
    else if dry_run
    then (
      record result {
        files_restored = result.files_restored + 1;
        files_skipped = result.files_skipped + 1;
      },
      project,
    )
    else if not (world.prepares path)
    then (fail (directory_failed path) result, project)
    else if not (world.copies path)
    then (fail (copy_failed path) result, write_file path (world.leaves path) project)
    else (
      record result { files_restored = result.files_restored + 1 },
      write_file path (world.source id path) project,
    )

abbrev pub restore_paths_in :
    World
    → ℕ
    → Bool
    → Dict WorkspaceFile
    → List Bytes
    → RestoreResult × Files
    → RestoreResult × Files
restore_paths_in world id dry_run file_lookup [] done = done
restore_paths_in world id dry_run file_lookup (path ∷ paths) done =
    restore_paths_in world id dry_run file_lookup paths
      (restore_path world id dry_run file_lookup path done)

abbrev pub no_errors : List RestoreError → Bool
no_errors [] = true
no_errors (error ∷ errors) = false

abbrev pub no_restore : RestoreResult
no_restore = record { success = false; files_restored = 0; files_skipped = 0; errors = [] }

abbrev failed_with : RestoreError → Files → Restored
failed_with error project = record {
  result = record no_restore { errors = error ∷ [] };
  project = project;
  calls = [];
}

-- The calls behind the loop.
abbrev closing_calls : World → ℕ → RestoreResult → List StoreCall
closing_calls world id result =
    (if ltb 0 world.begins
      then finish_restore world.begins (no_errors result.errors) result.files_restored ∷ []
      else [])
    ++ (if no_errors result.errors then update_restore_count id ∷ [] else [])

abbrev with_outcome : World → ℕ → ℕ → Bool → RestoreMode → RestoreResult × Files → Restored
with_outcome world project_id id dry_run mode (result, project) = record {
  result = record result { success = no_errors result.errors };
  project = project;
  calls = if dry_run then [] else begin_restore project_id id mode ∷ closing_calls world id result;
}

-- From the candidates on.
unfoldable pub run_restore :
    World → ℕ → RestoreOptions → WorkspaceSnapshot → ℕ → RestoreMode → Candidates → Files → Restored
run_restore world project_id opts snapshot id mode candidates project =
    if not (has_paths candidates.restore_paths) && (candidates.filtered_out == 0)
    then record { result = record no_restore { success = true }; project = project; calls = [] }
    else with_outcome world project_id id opts.dry_run mode (
        restore_paths_in world id opts.dry_run (map_files snapshot.files [])
          (sort_paths candidates.restore_paths)
          (record no_restore { files_skipped = candidates.filtered_out }, project))

abbrev pub restore_snapshot : World → ℕ → ℕ → RestoreOptions → WorkspaceSnapshot → Files → Restored
restore_snapshot world project_id id opts snapshot project =
    if not (snapshot.project_id == project_id)
    then failed_with other_project project
    else if not (world.has_data id)
    then failed_with no_data project
    else elim (choose_mode opts) [
      | refused error ↦ failed_with error project
      | chosen mode ↦
          run_restore world project_id opts snapshot id mode
            (candidates_of opts world.current snapshot mode) project
    ]

unfoldable pub restore : World → ℕ → ℕ → RestoreOptions → Files → Restored
restore world project_id id opts project =
    if not world.has_store
    then failed_with no_store project
    else if not (world.has_project project_id)
    then failed_with no_project project
    else elim (world.snapshot id) [
      | none ↦ failed_with no_snapshot project
      | some snapshot ↦ restore_snapshot world project_id id opts snapshot project
    ]
