-- ===== src/Workspace/Restore.antt =====
-- modules/workspace/src/manager.cpp: `restore`, and which paths of the snapshot it selects. An
-- error message is a constructor with the path that it names. Durations and logging are left out.
pub mod Selection
pub mod Wanted
pub mod Smart
pub mod Run
pub mod Loop
pub mod Outcome
use nazg.Base.{
  ℕ, ◌+◌, Bool, true, false, Option, none, some, List, [], ◌∷◌, ◌++◌, ◌&&◌, ◌||◌, not, Bytes, codes,
  ◌=ᵇ◌, ◌==◌, ltb, length, is_empty, drop, take, map, to_lower, if◌then◌else◌,
}
use Prim.Native.Nat.{Ordering}
use nazg.Base.Dict.{compare_bytes, Dict, lookup}
use nazg.Base.Members.{contains_bytes, is_there}
use nazg.Workspace.{WorkspaceFile, WorkspaceSnapshot}
use nazg.Workspace.Diff.{
  FileChange, ChangeType, added, modified, deleted, SnapshotDiff, compute_snapshot_diff, map_files,
}

pub record RestoreOptions : Type 0 where
  pub restore_type : Bytes
  pub include_paths : List Bytes
  pub exclude_paths : List Bytes
  pub dry_run : Bool

pub data RestoreError : Type 0 where
  partial_needs_paths : RestoreError
  unknown_mode : Bytes → RestoreError
  missing_file directory_failed copy_failed : Bytes → RestoreError
  no_store no_project no_snapshot other_project no_data : RestoreError

pub record RestoreResult : Type 0 where
  pub success : Bool
  pub files_restored : ℕ
  pub files_skipped : ℕ
  pub errors : List RestoreError

abbrev pub starts_with_slash : Bytes → Bool
starts_with_slash [] = false
starts_with_slash (c ∷ s) = c == b'/'

-- `path == pat`, or a path below `pat`.
abbrev pub is_under : Bytes → Bytes → Bool
is_under path pat =
    path =ᵇ pat
    || (ltb (length pat) (length path)
        && take (length pat) path =ᵇ pat
        && starts_with_slash (drop (length pat) path))

abbrev pub matches_any : Bytes → List Bytes → Bool
matches_any path [] = false
matches_any path (pat ∷ patterns) =
    (not (is_empty pat) && is_under path pat) || matches_any path patterns

abbrev pub has_paths : List Bytes → Bool
has_paths [] = false
has_paths (path ∷ paths) = true

abbrev pub matches_prefix : Bytes → List Bytes → Bool
matches_prefix path patterns = not (has_paths patterns) || matches_any path patterns

abbrev pub should_include : RestoreOptions → Bytes → Bool
should_include opts path =
    if has_paths opts.include_paths && not (matches_prefix path opts.include_paths)
    then false
    else not (matches_any path opts.exclude_paths)

-- `restore_paths`, whose members are those of `restore_set`, and `filtered_out`.
pub record Candidates : Type 0 where
  pub restore_paths : List Bytes
  pub filtered_out : ℕ

abbrev pub add_candidate : RestoreOptions → Bytes → Candidates → Candidates
add_candidate opts path candidates =
    if not (should_include opts path)
    then record candidates { filtered_out = candidates.filtered_out + 1 }
    else if contains_bytes path candidates.restore_paths
    then candidates
    else record candidates { restore_paths = candidates.restore_paths ++ path ∷ [] }

abbrev pub add_files : RestoreOptions → List WorkspaceFile → Candidates → Candidates
add_files opts [] candidates = candidates
add_files opts (file ∷ files) candidates =
    add_files opts files (add_candidate opts file.path candidates)

abbrev pub is_added : ChangeType → Bool
is_added added = true
is_added modified = false
is_added deleted = false

abbrev pub is_modified : ChangeType → Bool
is_modified added = false
is_modified modified = true
is_modified deleted = false

abbrev pub is_requested : RestoreOptions → Bytes → Bool
is_requested opts path = has_paths opts.include_paths && matches_prefix path opts.include_paths

-- `consider_changes`, with `include_all` false for the source files, which have a loop of their own.
abbrev pub is_considered : RestoreOptions → Bool → FileChange → Bool
is_considered opts include_all change =
    (include_all && (is_added change.change_type || is_modified change.change_type))
    || is_added change.change_type
    || is_requested opts change.path

abbrev pub consider_changes :
    RestoreOptions → Dict WorkspaceFile → Bool → List FileChange → Candidates → Candidates
consider_changes opts file_lookup include_all [] candidates = candidates
consider_changes opts file_lookup include_all (change ∷ changes) candidates =
    consider_changes opts file_lookup include_all changes (
      if is_there (lookup change.path file_lookup) && is_considered opts include_all change
      then add_candidate opts change.path candidates
      else candidates)

abbrev pub smart_candidates :
    RestoreOptions → Dict WorkspaceFile → SnapshotDiff → Candidates → Candidates
smart_candidates opts file_lookup diff candidates =
    consider_changes opts file_lookup false diff.source_changes (
      consider_changes opts file_lookup true diff.other_changes (
        consider_changes opts file_lookup true diff.config_changes (
          consider_changes opts file_lookup true diff.dep_changes
            (consider_changes opts file_lookup true diff.build_changes candidates))))

pub data RestoreMode : Type 0 where
  full partial smart : RestoreMode

-- The mode, or the error that ends the restore.
pub data ChosenMode : Type 0 where
  chosen : RestoreMode → ChosenMode
  refused : RestoreError → ChosenMode

abbrev mode_named : RestoreOptions → Bytes → ChosenMode
mode_named opts mode =
    if mode =ᵇ codes "full"
    then (if has_paths opts.include_paths then chosen partial else chosen full)
    else if mode =ᵇ codes "partial"
    then (if has_paths opts.include_paths then chosen partial else refused partial_needs_paths)
    else if mode =ᵇ codes "smart"
    then chosen smart
    else refused (unknown_mode mode)

abbrev pub choose_mode : RestoreOptions → ChosenMode
choose_mode opts =
    mode_named opts
      (if is_empty opts.restore_type then codes "full" else map to_lower opts.restore_type)

abbrev pub no_candidates : Candidates
no_candidates = record { restore_paths = []; filtered_out = 0 }

-- `current` is the state of the project, which `diff_current` scans.
abbrev pub candidates_of :
    RestoreOptions → WorkspaceSnapshot → WorkspaceSnapshot → RestoreMode → Candidates
candidates_of opts current snapshot smart =
    smart_candidates opts (map_files snapshot.files []) (compute_snapshot_diff current snapshot)
      no_candidates
candidates_of opts current snapshot _ = add_files opts snapshot.files no_candidates

-- `std::sort`
abbrev pub insert_path : Bytes → List Bytes → List Bytes
insert_path path [] = path ∷ []
insert_path path (p ∷ paths) = elim (compare_bytes path p) [
  | Ordering.gt ↦ p ∷ insert_path path paths
  | _ ↦ path ∷ p ∷ paths
]

abbrev pub sort_paths : List Bytes → List Bytes
sort_paths [] = []
sort_paths (path ∷ paths) = insert_path path (sort_paths paths)
