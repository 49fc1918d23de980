-- ===== src/Workspace/Prune/Kept.antt =====
-- modules/workspace/src/manager.cpp: which snapshots the two prunings delete, skip and keep.
use nazg.Base.{
  ℕ, zero, suc, ◌+◌, ◌-◌, ◌*◌, ◌≡◌, ◌≤◌, refl, sym, leb→le, Bool, List, [], ◌∷◌, ◌++◌, ◌&&◌, ◌||◌,
  ltb, leb, length, drop, not, if◌then◌else◌, arith, append_assoc, append-nil, Bool-cases, inl, inr,
}
use nazg.Base.Int.{pos}
use nazg.Workspace.Prune.{
  PruneOptions, Stored, SnapshotStore, no_result, Progress, prune_one, prune_all, with_deleted,
  prune_old_snapshots, prune_older, prune_older_than,
}

-- The ids that pass a test, in order.
abbrev pub ids_where : (ℕ → Bool) → List Stored → List ℕ
ids_where p [] = []
ids_where p (snap ∷ snaps) = if p snap.id then snap.id ∷ ids_where p snaps else ids_where p snaps

abbrev pub is_skipped : SnapshotStore → PruneOptions → ℕ → Bool
is_skipped store opts id = store.is_tagged id && opts.untagged_only

abbrev pub is_deleted : SnapshotStore → PruneOptions → ℕ → Bool
is_deleted store opts id = not (is_skipped store opts id) && (opts.dry_run || store.deletes id)

abbrev pub is_asked : SnapshotStore → PruneOptions → ℕ → Bool
is_asked store opts id = not (is_skipped store opts id) && not opts.dry_run

-- The result of pruning exactly the candidates.
pub record Prunes (store : SnapshotStore) (opts : PruneOptions) (candidates : List Stored)
    (done : Progress) : Type 0 where
  pub deletes : done.0.deleted_ids ≡ ids_where (is_deleted store opts) candidates
  pub skips : done.0.skipped_tagged_ids ≡ ids_where (is_skipped store opts) candidates
  pub asks : done.1 ≡ ids_where (is_asked store opts) candidates
  pub counts_deleted : done.0.deleted ≡ length done.0.deleted_ids
  pub counts_skipped : done.0.skipped_tagged ≡ length done.0.skipped_tagged_ids
  pub counts_all : done.0.total_candidates ≡ length candidates

-- What is added to the progress by candidates.
record Adds (store : SnapshotStore) (opts : PruneOptions) (candidates : List Stored)
    (before after : Progress) : Type 0 where
  deletes :
      after.0.deleted_ids ≡ before.0.deleted_ids ++ ids_where (is_deleted store opts) candidates
  skips :
      after.0.skipped_tagged_ids
      ≡ before.0.skipped_tagged_ids ++ ids_where (is_skipped store opts) candidates
  asks : after.1 ≡ before.1 ++ ids_where (is_asked store opts) candidates
  counts :
      after.0.skipped_tagged
      ≡ before.0.skipped_tagged + length (ids_where (is_skipped store opts) candidates)

prune_all-Adds :
    (store : SnapshotStore) (opts : PruneOptions) (snaps : List Stored) (before : Progress)
    → Adds store opts snaps before (prune_all store opts snaps before)
prune_all-Adds store opts [] before = record {
  deletes = sym (append-nil _);
  skips = sym (append-nil _);
  asks = sym (append-nil _);
  counts = omega arith;
}
prune_all-Adds store opts (snap ∷ snaps) before =
    let ih = prune_all-Adds store opts snaps (prune_one store opts snap.id before) in
    record {
      deletes = ground (
        arith,
        ih.deletes,
        append_assoc before.0.deleted_ids (snap.id ∷ []) (ids_where (is_deleted store opts) snaps),
      );
      skips = ground (
        arith,
        ih.skips,
        append_assoc before.0.skipped_tagged_ids (snap.id ∷ [])
            (ids_where (is_skipped store opts) snaps),
      );
      asks = ground (
        arith,
        ih.asks,
        append_assoc before.1 (snap.id ∷ []) (ids_where (is_asked store opts) snaps),
      );
      counts = ground (arith, ih.counts);
    }

prune_all-total :
    (store : SnapshotStore) (opts : PruneOptions) (snaps : List Stored) (before : Progress)
    → (prune_all store opts snaps before).0.total_candidates ≡ before.0.total_candidates
prune_all-total store opts [] before = refl
prune_all-total store opts (snap ∷ snaps) before =
    ground (arith, prune_all-total store opts snaps (prune_one store opts snap.id before))

-- The snapshots that are older than the cutoff.
abbrev pub older : ℕ → List Stored → List Stored
older cutoff [] = []
older cutoff (snap ∷ snaps) =
    if ltb snap.timestamp cutoff then snap ∷ older cutoff snaps else older cutoff snaps

prune_older-prune_all :
    (store : SnapshotStore) (cutoff : ℕ) (opts : PruneOptions) (snaps : List Stored)
    (before : Progress)
    → prune_older store cutoff opts snaps before
      ≡ prune_all store opts (older cutoff snaps) (
        record before.0 {
          total_candidates = before.0.total_candidates + length (older cutoff snaps);
        },
        before.1,
      )
prune_older-prune_all store cutoff opts [] before = ground arith
prune_older-prune_all store cutoff opts (snap ∷ snaps) before = ground (
  arith,
  prune_older-prune_all store cutoff opts snaps before,
  prune_older-prune_all store cutoff opts snaps (
      prune_one store opts snap.id
        (record before.0 { total_candidates = before.0.total_candidates + 1 }, before.1)),
)

prune_older-none :
    (store : SnapshotStore) (cutoff : ℕ) (opts : PruneOptions) (snaps : List Stored)
    → prune_older store cutoff opts snaps (no_result, [])
      ≡ prune_all store opts
          (older cutoff snaps)
          (record no_result { total_candidates = length (older cutoff snaps) }, [])
prune_older-none store cutoff opts snaps =
    ground (arith, prune_older-prune_all store cutoff opts snaps (no_result, []))

Adds-Prunes :
    (store : SnapshotStore) (opts : PruneOptions) (candidates : List Stored)
    → Prunes store opts candidates (
        with_deleted (
          prune_all store opts candidates
            (record no_result { total_candidates = length candidates }, [])))
Adds-Prunes store opts candidates =
    let start : Progress = (record no_result { total_candidates = length candidates }, []) in
    let a = prune_all-Adds store opts candidates start in
    record {
      deletes = a.deletes;
      skips = a.skips;
      asks = a.asks;
      counts_deleted = refl;
      counts_skipped = ground (arith, a.counts, a.skips);
      counts_all = prune_all-total store opts candidates start;
    }

length-drop : (n : ℕ) (snaps : List Stored) → length (drop n snaps) ≡ length snaps - n
length-drop zero snaps = omega arith
length-drop (suc n) [] = omega arith
length-drop (suc n) (s ∷ snaps) = omega (arith, length-drop n snaps)

drop_all : (n : ℕ) (snaps : List Stored) → length snaps ≤ n → drop n snaps ≡ []
drop_all zero [] h = refl
drop_all zero (s ∷ snaps) h = absurd (omega arith)
drop_all (suc n) [] h = refl
drop_all (suc n) (s ∷ snaps) h = drop_all n snaps (omega arith)

-- `prune_old_snapshots` keeps the newest `keep_count` snapshots. Of the others it skips the tagged
-- ones if it is told to, asks the store to delete each one left unless it is a dry run, and reports
-- exactly those that the store deleted, or would be asked for in a dry run, with their numbers.
pub prune_old_snapshots-Prunes :
    (store : SnapshotStore) (keep_count : ℕ) (opts : PruneOptions)
    → Prunes store opts
        (drop keep_count store.snapshots)
        (prune_old_snapshots store (pos keep_count) opts)
unfolding prune_old_snapshots
prune_old_snapshots-Prunes store keep_count opts =
    elim (Bool-cases (leb (length store.snapshots) keep_count)) [
      | inl few ↦
          rw (few, drop_all keep_count store.snapshots (leb→le _ _ few), prune_old_snapshots)
            (Adds-Prunes store opts [])
      | inr many ↦
          rw (many, sym (length-drop keep_count store.snapshots), prune_old_snapshots)
            (Adds-Prunes store opts (drop keep_count store.snapshots))
    ]

-- `prune_older_than` does the same with the snapshots that are older than so many days, if it is
-- given a positive number of days.
pub prune_older_than-Prunes :
    (store : SnapshotStore) (now days : ℕ) (opts : PruneOptions)
    → Prunes store opts
        (older (now - 86400 * suc days) store.snapshots)
        (prune_older_than store now (pos (suc days)) opts)
unfolding prune_older_than
prune_older_than-Prunes store now days opts =
    let cutoff = now - 86400 * suc days in
    rw (same_cutoff, prune_older-none store cutoff opts store.snapshots, prune_older_than)
      (Adds-Prunes store opts (older cutoff store.snapshots))
  where
    same_cutoff : now - 3600 * (24 * suc days) ≡ now - 86400 * suc days
    same_cutoff = omega arith
