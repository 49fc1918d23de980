-- ===== src/Workspace/Restore/Smart.antt =====
-- modules/workspace/src/manager.cpp: the paths that `restore` selects in each mode, by the files of
-- the project and of the snapshot.
use nazg.Base.{◌≡◌, ◌∙◌, Bool, true, false, [], ◌&&◌, ◌||◌, Bytes, arith}
use nazg.Base.Dict.{lookup}
use nazg.Base.Members.{contains_bytes, is_there}
use nazg.Workspace.{WorkspaceSnapshot}
use nazg.Workspace.Diff.{compute_snapshot_diff, map_files}
use nazg.Workspace.Diff.Reported.{last_file}
use nazg.Workspace.Restore.{
  RestoreOptions, should_include, RestoreMode, full, partial, smart, candidates_of, no_candidates,
}
use nazg.Workspace.Restore.Selection.{
  lookup-map_files, smart_candidates-contains, add_files-contains,
}
use nazg.Workspace.Restore.Wanted.{
  is_wanted, is_wanted-is_there, has_file-last_file, in_a_list-is_wanted,
}

-- Whether a restore is to copy a path.
abbrev pub selects :
    RestoreOptions → WorkspaceSnapshot → WorkspaceSnapshot → RestoreMode → Bytes → Bool
selects opts current snapshot smart p =
    should_include opts p
    && is_wanted opts p (last_file p current.files) (last_file p snapshot.files)
selects opts current snapshot _ p = should_include opts p && is_there (last_file p snapshot.files)

-- `restore` selects exactly the paths that pass the filters and, in the modes `full` and `partial`,
-- stand in the snapshot; in the mode `smart`, those of the snapshot's files that the project lacks,
-- or that it has with another hash and that are no source files or were asked for; a missing source
-- file is selected, and one that differs is not, unless it was asked for.
pub candidates_of-selects :
    (opts : RestoreOptions) (current snapshot : WorkspaceSnapshot) (mode : RestoreMode) (p : Bytes)
    → contains_bytes p (candidates_of opts current snapshot mode).restore_paths
      ≡ selects opts current snapshot mode p
candidates_of-selects opts current snapshot full p = ground (
  arith,
  add_files-contains opts p snapshot.files no_candidates,
  has_file-last_file p snapshot.files,
)
candidates_of-selects opts current snapshot partial p = ground (
  arith,
  add_files-contains opts p snapshot.files no_candidates,
  has_file-last_file p snapshot.files,
)
candidates_of-selects opts current snapshot smart p =
    smart_candidates-contains opts p (map_files snapshot.files [])
      (compute_snapshot_diff current snapshot)
    ∙ regroup _ _ _ _ _ (lookup-map_files p snapshot.files []) (has_file-last_file p snapshot.files)
        (in_a_list-is_wanted opts p current snapshot)
  where
    regroup :
        (a known has last included : Bool) {w : Bool}
        → known ≡ (has || false)
        → has ≡ last
        → (a && last) ≡ w
        → (a && known && included) ≡ (included && w)
    regroup a known has last included f g h = ground arith

-- A path that is selected has a file in the snapshot.
pub selects-is_there :
    (opts : RestoreOptions) (current snapshot : WorkspaceSnapshot) (mode : RestoreMode) (p : Bytes)
    → selects opts current snapshot mode p ≡ true
    → is_there (lookup p (map_files snapshot.files [])) ≡ true
selects-is_there opts current snapshot full p h =
    ground (arith, lookup-map_files p snapshot.files [], has_file-last_file p snapshot.files)
selects-is_there opts current snapshot partial p h =
    ground (arith, lookup-map_files p snapshot.files [], has_file-last_file p snapshot.files)
selects-is_there opts current snapshot smart p h = ground (
  arith,
  lookup-map_files p snapshot.files [],
  has_file-last_file p snapshot.files,
  is_wanted-is_there opts p (last_file p current.files) (last_file p snapshot.files),
)
