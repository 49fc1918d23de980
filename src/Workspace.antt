-- ===== src/Workspace.antt =====
-- modules/workspace/src/manager.cpp and its headers: the snapshots of a project's files. Texts are
-- lists of bytes, sizes are not negative, and an `unordered_map` or `unordered_set` is a map in the
-- order of its keys, whose order no result depends on but for the order of the reported changes.
-- The store and the file system are parameters.
pub mod Diff
pub mod Prune
pub mod Restore
mod Examples
use nazg.Base.{ℕ, List, Bytes, Bool, ◌∷◌, []}
use nazg.Base.Dict.{Dict}

pub data FileType : Type 0 where
  source build dependency config unknown : FileType

pub record WorkspaceFile : Type 0 where
  pub path : Bytes
  pub type : FileType
  pub hash : Bytes
  pub size : ℕ

-- The fields that `compute_snapshot_diff` and `restore` read.
pub record WorkspaceSnapshot : Type 0 where
  pub id : ℕ
  pub project_id : ℕ
  pub deps_manifest_hash : Bytes
  pub env_snapshot : Dict Bytes
  pub system_info : Dict Bytes
  pub files : List WorkspaceFile
