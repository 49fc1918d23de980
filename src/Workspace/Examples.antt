-- ===== src/Workspace/Examples.antt =====
-- modules/workspace/src/manager.cpp: runs, and the theorems at concrete inputs.
use nazg.Base.{
  ℕ, ◌≡◌, ◌↔◌, refl, true, false, none, some, [], ◌∷◌, Bytes, codes, ◌=ᵇ◌, ◌==◌, drop,
  if◌then◌else◌,
}
use mathlib.Core.List.Memᴰ.{Memᴰ}
use nazg.Base.Int.{pos}
use nazg.Base.Members.{contains_bytes}
use nazg.Workspace.{FileType, source, build, WorkspaceFile, WorkspaceSnapshot}
use nazg.Workspace.Diff.{
  modified_change, compare_values, parse_manifest_hashes, compute_snapshot_diff,
}
use nazg.Workspace.Diff.Reported.{changes_in, last_file, IsChange}
use nazg.Workspace.Diff.Changes.{compute_snapshot_diff-IsChange}
use nazg.Workspace.Prune.{PruneOptions, SnapshotStore, prune_old_snapshots}
use nazg.Workspace.Prune.Kept.{Prunes, prune_old_snapshots-Prunes}
use nazg.Workspace.Restore.{RestoreOptions, smart, candidates_of}
use nazg.Workspace.Restore.Run.{
  World, Files, begin_restore, finish_restore, update_restore_count, restore, run_restore,
}
use nazg.Workspace.Restore.Selection.{all_pass}
use nazg.Workspace.Restore.Smart.{selects, candidates_of-selects}
use nazg.Workspace.Restore.Loop.{copied, works}
use nazg.Workspace.Restore.Outcome.{accepted, restore-copied, restore-all_pass}

abbrev file : Bytes → FileType → Bytes → ℕ → WorkspaceFile
file path type hash size = record { path = path; type = type; hash = hash; size = size }

abbrev current : WorkspaceSnapshot
current = record {
  id = 0;
  project_id = 7;
  deps_manifest_hash = codes "npm:aa;pip:bb";
  env_snapshot = (codes "PATH", codes "/bin") ∷ [];
  system_info = [];
  files =
      file (codes "src/a.c") source (codes "11") 10
      ∷ file (codes "Makefile") build (codes "22") 20
      ∷ [];
}

abbrev stored : WorkspaceSnapshot
stored = record {
  id = 4;
  project_id = 7;
  deps_manifest_hash = codes "npm:ab;pip:bb";
  env_snapshot = (codes "PATH", codes "/bin") ∷ [];
  system_info = [];
  files =
      file (codes "src/a.c") source (codes "12") 8
      ∷ file (codes "Makefile") build (codes "23") 25
      ∷ file (codes "src/b.c") source (codes "31") 5
      ∷ [];
}

parse_manifest_hashes-text :
    parse_manifest_hashes (codes "npm:aa;pip:;x;cargo:c:d")
    ≡ (codes "cargo", codes "c:d") ∷ (codes "npm", codes "aa") ∷ []
unfolding parse_manifest_hashes
parse_manifest_hashes-text = refl

dep_upgrades-stored :
    (compute_snapshot_diff current stored).dep_upgrades ≡ (codes "npm", codes "aa -> ab") ∷ []
unfolding compute_snapshot_diff compare_values parse_manifest_hashes
dep_upgrades-stored = refl

compute_snapshot_diff-IsChange_example :
    Memᴰ
      (modified_change
        (codes "Makefile")
        (file (codes "Makefile") build (codes "22") 20)
        (file (codes "Makefile") build (codes "23") 25))
      (changes_in build (compute_snapshot_diff current stored))
    ↔ IsChange
        (codes "Makefile")
        (last_file (codes "Makefile") current.files)
        (last_file (codes "Makefile") stored.files)
        build
        (modified_change
          (codes "Makefile")
          (file (codes "Makefile") build (codes "22") 20)
          (file (codes "Makefile") build (codes "23") 25))
compute_snapshot_diff-IsChange_example = compute_snapshot_diff-IsChange current stored build (
    modified_change (codes "Makefile") (file (codes "Makefile") build (codes "22") 20)
      (file (codes "Makefile") build (codes "23") 25))

abbrev store : SnapshotStore
store = record {
  snapshots =
      record { id = 9; timestamp = 200000 }
      ∷ record { id = 5; timestamp = 100000 }
      ∷ record { id = 3; timestamp = 90000 }
      ∷ [];
  is_tagged = λ id. id == 5;
  deletes = λ id. true;
}

abbrev keep_tagged : PruneOptions
keep_tagged = record { dry_run = false; untagged_only = true }

prune_old_snapshots-store : (prune_old_snapshots store (pos 1) keep_tagged).1 ≡ 3 ∷ []
unfolding prune_old_snapshots
prune_old_snapshots-store = refl

prune_old_snapshots-Prunes_example :
    Prunes store keep_tagged
      (drop 1 store.snapshots)
      (prune_old_snapshots store (pos 1) keep_tagged)
prune_old_snapshots-Prunes_example = prune_old_snapshots-Prunes store 1 keep_tagged

abbrev smartly : RestoreOptions
smartly = record {
  restore_type = codes "Smart";
  include_paths = [];
  exclude_paths = [];
  dry_run = false;
}

abbrev dry_run : RestoreOptions
dry_run = record smartly { dry_run = true }

abbrev snapshot_files : Files
snapshot_files path =
    if path =ᵇ codes "Makefile" then some (codes "all:") else some (codes "int b;")

abbrev project : Files
project path = if path =ᵇ codes "src/b.c" then none else some (codes "old")

abbrev world : World
world = record {
  has_store = true;
  has_project = λ id. true;
  snapshot = λ id. some stored;
  has_data = λ id. true;
  current = current;
  begins = 2;
  source = λ id. snapshot_files;
  prepares = λ path. true;
  copies = λ path. true;
  leaves = λ path. none;
}

-- A smart restore copies the build file and the missing source file, and no changed source file.
restore-smartly :
    (let done = restore world 7 4 smartly project in
      (done.result.files_restored ≡ 2)
      × (done.project (codes "Makefile") ≡ some (codes "all:"))
      × (done.project (codes "src/b.c") ≡ some (codes "int b;"))
      × (done.project (codes "src/a.c") ≡ some (codes "old"))
      × (done.calls
          ≡ begin_restore 7 4 smart ∷ finish_restore 2 true 2 ∷ update_restore_count 4 ∷ []))
unfolding restore run_restore compute_snapshot_diff compare_values
restore-smartly = (refl, refl, refl, refl, refl)

-- A dry run counts each file as restored and as skipped.
restore-counts :
    (let done = restore world 7 4 dry_run project in
      (done.result.files_restored ≡ 2) × (done.result.files_skipped ≡ 2))
unfolding restore run_restore compute_snapshot_diff compare_values
restore-counts = (refl, refl)

candidates_of-selects_example :
    contains_bytes (codes "src/b.c") (candidates_of smartly current stored smart).restore_paths
    ≡ selects smartly current stored smart (codes "src/b.c")
candidates_of-selects_example = candidates_of-selects smartly current stored smart (codes "src/b.c")

restore-copied_example :
    (restore world 7 4 smartly project).project (codes "Makefile")
    ≡ (elim (accepted world 7 4 smartly) [
      | none ↦ project (codes "Makefile")
      | some (snapshot, mode) ↦
          if selects smartly world.current snapshot mode (codes "Makefile")
          then copied world 4 project (codes "Makefile")
          else project (codes "Makefile")
    ])
restore-copied_example = restore-copied world 7 4 smartly project (codes "Makefile") refl

restore-all_pass_example :
    (restore world 7 4 smartly project).result.success ≡ (elim (accepted world 7 4 smartly) [
      | none ↦ false
      | some (snapshot, mode) ↦
          all_pass
            (works world 4 false)
            (candidates_of smartly world.current snapshot mode).restore_paths
    ])
restore-all_pass_example = restore-all_pass world 7 4 smartly project
