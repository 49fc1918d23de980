-- ===== src/Workspace/Prune.antt =====
-- modules/workspace/src/manager.cpp: `prune_old_snapshots` and `prune_older_than`. The store is a
-- parameter: the snapshots that it lists, newest first and 1000 at most, which of them are tagged, and
-- which deletions succeed.
-- Both return their result with the snapshots that they asked the store to delete. Logging is left
-- out.
pub mod Kept
use nazg.Base.{
  ℕ, zero, suc, ◌+◌, ◌-◌, ◌*◌, Bool, true, false, List, [], ◌∷◌, ◌++◌, ◌&&◌, ltb, leb, length, drop,
  not, if◌then◌else◌,
}
use nazg.Base.Int.{ℤ, pos, negsuc}

pub record PruneOptions : Type 0 where
  pub dry_run : Bool
  pub untagged_only : Bool

pub record PruneResult : Type 0 where
  pub total_candidates : ℕ
  pub deleted : ℕ
  pub skipped_tagged : ℕ
  pub deleted_ids : List ℕ
  pub skipped_tagged_ids : List ℕ

-- What `prune` reads of a snapshot.
pub record Stored : Type 0 where
  pub id : ℕ
  pub timestamp : ℕ

-- What the store answers for a project.
pub record SnapshotStore : Type 0 where
  pub snapshots : List Stored
  pub is_tagged : ℕ → Bool
  pub deletes : ℕ → Bool

abbrev pub no_result : PruneResult
no_result = record {
  total_candidates = 0;
  deleted = 0;
  skipped_tagged = 0;
  deleted_ids = [];
  skipped_tagged_ids = [];
}

-- The result so far and the deletions asked for.
abbrev pub Progress : Type 0
Progress = PruneResult × List ℕ

-- The body of both loops, for one candidate.
abbrev pub prune_one : SnapshotStore → PruneOptions → ℕ → Progress → Progress
prune_one store opts id (result, calls) =
    if store.is_tagged id && opts.untagged_only
    then (
      record result {
        skipped_tagged = result.skipped_tagged + 1;
        skipped_tagged_ids = result.skipped_tagged_ids ++ id ∷ [];
      },
      calls,
    )
    else if opts.dry_run
    then (record result { deleted_ids = result.deleted_ids ++ id ∷ [] }, calls)
    else if store.deletes id
    then (record result { deleted_ids = result.deleted_ids ++ id ∷ [] }, calls ++ id ∷ [])
    else (result, calls ++ id ∷ [])

abbrev pub prune_all : SnapshotStore → PruneOptions → List Stored → Progress → Progress
prune_all store opts [] progress = progress
prune_all store opts (snap ∷ snaps) progress =
    prune_all store opts snaps (prune_one store opts snap.id progress)

-- `result.deleted = result.deleted_ids.size()`
abbrev pub with_deleted : Progress → Progress
with_deleted (result, calls) = (record result { deleted = length result.deleted_ids }, calls)

unfoldable pub prune_old_snapshots : SnapshotStore → ℤ → PruneOptions → Progress
prune_old_snapshots store (negsuc n) opts = (no_result, [])
prune_old_snapshots store (pos keep_count) opts =
    if leb (length store.snapshots) keep_count
    then (no_result, [])
    else with_deleted (
        prune_all store opts (drop keep_count store.snapshots)
          (record no_result { total_candidates = length store.snapshots - keep_count }, []))

abbrev pub prune_older : SnapshotStore → ℕ → PruneOptions → List Stored → Progress → Progress
prune_older store cutoff opts [] progress = progress
prune_older store cutoff opts (snap ∷ snaps) (result, calls) = prune_older store cutoff opts snaps (
    if not (ltb snap.timestamp cutoff)
    then (result, calls)
    else prune_one store opts snap.id
        (record result { total_candidates = result.total_candidates + 1 }, calls))

-- `now` is the clock in seconds, and not before the cutoff.
unfoldable pub prune_older_than : SnapshotStore → ℕ → ℤ → PruneOptions → Progress
prune_older_than store now (negsuc n) opts = (no_result, [])
prune_older_than store now (pos zero) opts = (no_result, [])
prune_older_than store now (pos (suc days)) opts =
    with_deleted
      (prune_older store (now - 3600 * (24 * suc days)) opts store.snapshots (no_result, []))
