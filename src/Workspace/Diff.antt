-- ===== src/Workspace/Diff.antt =====
-- modules/workspace/src/manager.cpp: `compute_snapshot_diff` and its helpers.
pub mod Reported
pub mod Changes
pub mod Values
use nazg.Base.{
  ℕ, zero, suc, Bool, true, false, Option, none, some, List, [], ◌∷◌, ◌++◌, Bytes, codes, ◌=ᵇ◌,
  is_empty, cut_at, not, ◌&&◌, length, if◌then◌else◌,
}
use nazg.Base.Int.{ℤ, pos, minus}
use nazg.Base.Dict.{Dict, lookup, insert, keys}
use nazg.Workspace.{
  WorkspaceFile, WorkspaceSnapshot, FileType, source, build, dependency, config, unknown,
}

pub data ChangeType : Type 0 where
  added modified deleted : ChangeType

pub record FileChange : Type 0 where
  pub path : Bytes
  pub change_type : ChangeType
  pub old_hash : Bytes
  pub new_hash : Bytes
  pub size_diff : ℤ

-- The analysis fields stay empty.
pub record SnapshotDiff : Type 0 where
  pub snapshot_a_id : ℕ
  pub snapshot_b_id : ℕ
  pub source_changes : List FileChange
  pub build_changes : List FileChange
  pub dep_changes : List FileChange
  pub config_changes : List FileChange
  pub other_changes : List FileChange
  pub dep_upgrades : Dict Bytes
  pub env_changes : Dict Bytes
  pub system_info_changes : Dict Bytes

abbrev pub push_change_for_type : FileType → FileChange → SnapshotDiff → SnapshotDiff
push_change_for_type source change diff = record diff {
  source_changes = diff.source_changes ++ change ∷ [];
}
push_change_for_type build change diff = record diff {
  build_changes = diff.build_changes ++ change ∷ [];
}
push_change_for_type dependency change diff = record diff {
  dep_changes = diff.dep_changes ++ change ∷ [];
}
push_change_for_type config change diff = record diff {
  config_changes = diff.config_changes ++ change ∷ [];
}
push_change_for_type unknown change diff = record diff {
  other_changes = diff.other_changes ++ change ∷ [];
}

abbrev pub modified_change : Bytes → WorkspaceFile → WorkspaceFile → FileChange
modified_change path old_file new_file = record {
  path = path;
  change_type = modified;
  old_hash = old_file.hash;
  new_hash = new_file.hash;
  size_diff = minus new_file.size old_file.size;
}

abbrev pub added_change : Bytes → WorkspaceFile → FileChange
added_change path new_file = record {
  path = path;
  change_type = added;
  old_hash = [];
  new_hash = new_file.hash;
  size_diff = pos new_file.size;
}

abbrev pub deleted_change : Bytes → WorkspaceFile → FileChange
deleted_change path old_file = record {
  path = path;
  change_type = deleted;
  old_hash = old_file.hash;
  new_hash = [];
  size_diff = minus 0 old_file.size;
}

-- The body of the loop over the paths.
abbrev pub compare_files :
    Bytes → Option WorkspaceFile → Option WorkspaceFile → SnapshotDiff → SnapshotDiff
compare_files path none none diff = diff
compare_files path none (some new_file) diff =
    push_change_for_type new_file.type (added_change path new_file) diff
compare_files path (some old_file) none diff =
    push_change_for_type old_file.type (deleted_change path old_file) diff
compare_files path (some old_file) (some new_file) diff =
    if old_file.hash =ᵇ new_file.hash
    then diff
    else push_change_for_type new_file.type (modified_change path old_file new_file) diff

abbrev pub compare_paths :
    Dict WorkspaceFile → Dict WorkspaceFile → List Bytes → SnapshotDiff → SnapshotDiff
compare_paths from_map to_map [] diff = diff
compare_paths from_map to_map (path ∷ paths) diff =
    compare_paths from_map to_map paths
      (compare_files path (lookup path from_map) (lookup path to_map) diff)

-- `map[file.path] = &file` for each file.
abbrev pub map_files : List WorkspaceFile → Dict WorkspaceFile → Dict WorkspaceFile
map_files [] m = m
map_files (file ∷ files) m = map_files files (insert file.path file m)

abbrev pub add_paths : List WorkspaceFile → Dict Bool → Dict Bool
add_paths [] paths = paths
add_paths (file ∷ files) paths = add_paths files (insert file.path true paths)

abbrev pub add_keys : Dict Bytes → Dict Bool → Dict Bool
add_keys [] ks = ks
add_keys ((key, value) ∷ m) ks = add_keys m (insert key true ks)

abbrev pub value_or_missing : Option Bytes → Bytes
value_or_missing none = codes "(missing)"
value_or_missing (some value) = value

abbrev pub compare_keys : Dict Bytes → Dict Bytes → List Bytes → Dict Bytes → Dict Bytes
compare_keys old new [] changes = changes
compare_keys old new (key ∷ ks) changes =
    let old_val = value_or_missing (lookup key old) in
    let new_val = value_or_missing (lookup key new) in
    compare_keys old new ks (
      if old_val =ᵇ new_val
      then changes
      else insert key (old_val ++ codes " -> " ++ new_val) changes)

-- The loops over `env_keys`, `sys_keys` and `manifest_keys`, which differ in their maps only.
unfoldable pub compare_values : Dict Bytes → Dict Bytes → Dict Bytes
compare_values old new = compare_keys old new (keys (add_keys new (add_keys old []))) []

-- One entry of the combined hashes; one without a `:`, or with nothing behind it, does not count.
abbrev add_manifest : Option (Bytes × Bytes) → Dict Bytes → Dict Bytes
add_manifest none result = result
add_manifest (some (key, value)) result = if is_empty value then result else insert key value result

-- The loop, on fuel for each byte; the entry is cut off at the next `;`.
abbrev manifest_entries : ℕ → Bytes → Dict Bytes → Dict Bytes
manifest_entries zero combined result = result
manifest_entries (suc fuel) [] result = result
manifest_entries (suc fuel) (c ∷ combined) result = elim (cut_at b';' (c ∷ combined)) [
  | none ↦ add_manifest (cut_at b':' (c ∷ combined)) result
  | some (entry, rest) ↦ manifest_entries fuel rest (add_manifest (cut_at b':' entry) result)
]

unfoldable pub parse_manifest_hashes : Bytes → Dict Bytes
parse_manifest_hashes combined = manifest_entries (length combined) combined []

abbrev pub empty_diff : ℕ → ℕ → SnapshotDiff
empty_diff a b = record {
  snapshot_a_id = a;
  snapshot_b_id = b;
  source_changes = [];
  build_changes = [];
  dep_changes = [];
  config_changes = [];
  other_changes = [];
  dep_upgrades = [];
  env_changes = [];
  system_info_changes = [];
}

abbrev pub paths_of : WorkspaceSnapshot → WorkspaceSnapshot → List Bytes
paths_of from_ to = keys (add_paths to.files (add_paths from_.files []))

unfoldable pub compute_snapshot_diff : WorkspaceSnapshot → WorkspaceSnapshot → SnapshotDiff
unfolding compare_values parse_manifest_hashes
compute_snapshot_diff from_ to =
    record (compare_paths (map_files from_.files []) (map_files to.files []) (paths_of from_ to)
      (empty_diff from_.id to.id)) {
        env_changes = compare_values from_.env_snapshot to.env_snapshot;
        system_info_changes = compare_values from_.system_info to.system_info;
        dep_upgrades =
            compare_values (parse_manifest_hashes from_.deps_manifest_hash)
              (parse_manifest_hashes to.deps_manifest_hash);
      }
