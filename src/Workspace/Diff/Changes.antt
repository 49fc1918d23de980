-- ===== src/Workspace/Diff/Changes.antt =====
-- modules/workspace/src/manager.cpp, `compute_snapshot_diff`: which file changes are reported, and
-- under which type.
use nazg.Base.{
  ℕ, ◌≡◌, ◌↔◌, ◌⊎◌, inl, inr, refl, sym, ap, subst, true, Option, none, some, List, [], ◌||◌, Bytes,
  arith,
}
use mathlib.Core.List.Memᴰ.{Memᴰ}
use nazg.Base.Dict.{Dict, lookup}
use nazg.Base.Members.{contains_bytes→mem, is_there, lookup-keys}
use nazg.Workspace.{
  WorkspaceFile, WorkspaceSnapshot, FileType, source, build, dependency, config, unknown,
}
use nazg.Workspace.Diff.{
  FileChange, SnapshotDiff, compare_paths, map_files, add_paths, paths_of, compute_snapshot_diff,
  empty_diff,
}
use nazg.Workspace.Diff.Reported.{
  changes_in, last_file, IsChange, map_files-last_file, add_paths-last_file, IsFrom,
  mem-compare_paths,
}

-- A change is of the path that it is reported for, and this has a file.
IsChange-path :
    (path : Bytes) (old new : Option WorkspaceFile) (k : FileType) (c : FileChange)
    → IsChange path old new k c
    → (c.path ≡ path) × ((is_there new || is_there old) ≡ true)
IsChange-path path none none k c h = absurd h
IsChange-path path none (some t) k c (_, e) = (ap (λ (x : FileChange). x.path) e, refl)
IsChange-path path (some f) none k c (_, e) = (ap (λ (x : FileChange). x.path) e, refl)
IsChange-path path (some f) (some t) k c (_, _, e) = (ap (λ (x : FileChange). x.path) e, refl)

map_files-empty :
    (path : Bytes) (files : List WorkspaceFile)
    → lookup path (map_files files []) ≡ last_file path files
map_files-empty path files = ground (arith, map_files-last_file path files [])

is_there-paths :
    (path : Bytes) (from_ to : WorkspaceSnapshot)
    → (is_there (last_file path to.files) || is_there (last_file path from_.files)) ≡ true
    → Memᴰ path (paths_of from_ to)
is_there-paths path from_ to h = contains_bytes→mem path (paths_of from_ to) (
    ground (
      arith,
      lookup-keys path (add_paths to.files (add_paths from_.files [])),
      add_paths-last_file path to.files (add_paths from_.files []),
      add_paths-last_file path from_.files [],
    ))

none_in : (k : FileType) (c : FileChange) (a b : ℕ) → Memᴰ c (changes_in k (empty_diff a b)) → ⊥
none_in source c a b m = elim m [ ]
none_in build c a b m = elim m [ ]
none_in dependency c a b m = elim m [ ]
none_in config c a b m = elim m [ ]
none_in unknown c a b m = elim m [ ]

same_changes :
    (from_ to : WorkspaceSnapshot) (k : FileType)
    → changes_in k (compute_snapshot_diff from_ to)
      ≡ changes_in k (
          compare_paths
            (map_files from_.files [])
            (map_files to.files [])
            (paths_of from_ to)
            (empty_diff from_.id to.id))
unfolding compute_snapshot_diff
same_changes from_ to source = refl
same_changes from_ to build = refl
same_changes from_ to dependency = refl
same_changes from_ to config = refl
same_changes from_ to unknown = refl

-- Under each file type, the diff of two snapshots reports exactly the changes of the paths whose
-- file was added, was deleted or has another hash; under the type of the new file, or of the
-- deleted one. Of two files with one path in a snapshot the last one counts.
pub compute_snapshot_diff-IsChange :
    (from_ to : WorkspaceSnapshot) (k : FileType) (c : FileChange)
    → Memᴰ c (changes_in k (compute_snapshot_diff from_ to))
      ↔ IsChange c.path (last_file c.path from_.files) (last_file c.path to.files) k c
unfolding compute_snapshot_diff
compute_snapshot_diff-IsChange from_ to k c = (found, reported)
  where
    from_map : Dict WorkspaceFile
    from_map = map_files from_.files []

    to_map : Dict WorkspaceFile
    to_map = map_files to.files []

    compared : SnapshotDiff
    compared = compare_paths from_map to_map (paths_of from_ to) (empty_diff from_.id to.id)

    paths : Memᴰ c (changes_in k compared) ↔ (
        Memᴰ c (changes_in k (empty_diff from_.id to.id))
        ⊎ IsFrom from_map to_map (paths_of from_ to) k c)
    paths = mem-compare_paths from_map to_map (paths_of from_ to) k c (empty_diff from_.id to.id)

    at_files :
        (path : Bytes)
        → IsChange path (lookup path from_map) (lookup path to_map) k c
        → IsChange path (last_file path from_.files) (last_file path to.files) k c
    at_files path h =
        subst (λ o. IsChange path o (last_file path to.files) k c)
          (map_files-empty path from_.files)
          (subst (λ o. IsChange path (lookup path from_map) o k c) (map_files-empty path to.files)
            h)

    at_maps :
        (path : Bytes)
        → IsChange path (last_file path from_.files) (last_file path to.files) k c
        → IsChange path (lookup path from_map) (lookup path to_map) k c
    at_maps path h =
        subst (λ o. IsChange path o (lookup path to_map) k c)
          (sym (map_files-empty path from_.files))
          (subst (λ o. IsChange path (last_file path from_.files) o k c)
            (sym (map_files-empty path to.files)) h)

    found :
        Memᴰ c (changes_in k (compute_snapshot_diff from_ to))
        → IsChange c.path (last_file c.path from_.files) (last_file c.path to.files) k c
    found m = elim (paths.0 (subst (Memᴰ c) (same_changes from_ to k) m)) [
      | inl h ↦ absurd (none_in k c from_.id to.id h)
      | inr (path, _, h) ↦
          subst (λ p. IsChange p (last_file p from_.files) (last_file p to.files) k c)
            (sym (IsChange-path path (lookup path from_map) (lookup path to_map) k c h).0)
            (at_files path h)
    ]

    reported :
        IsChange c.path (last_file c.path from_.files) (last_file c.path to.files) k c
        → Memᴰ c (changes_in k (compute_snapshot_diff from_ to))
    reported h = subst (Memᴰ c) (sym (same_changes from_ to k)) (
        paths.1 (
          inr (
            c.path,
            is_there-paths c.path from_ to
                (IsChange-path c.path (last_file c.path from_.files) (last_file c.path to.files) k c
                  h).1,
            at_maps c.path h,
          )))
