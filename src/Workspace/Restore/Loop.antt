-- ===== src/Workspace/Restore/Loop.antt =====
-- modules/workspace/src/manager.cpp: what the loop of `restore` does with its paths.
use nazg.Base.{
  ℕ, ◌≡◌, refl, ◌∙◌, Bool, true, false, Option, List, [], ◌∷◌, ◌++◌, ◌&&◌, ◌||◌, not, Bytes, ◌=ᵇ◌,
  =ᵇ_iff, if◌then◌else◌, arith,
}
use nazg.Base.Dict.{Dict, lookup}
use nazg.Base.Members.{contains_bytes, is_there}
use nazg.Workspace.{WorkspaceFile}
use nazg.Workspace.Restore.{RestoreError, RestoreResult}
use nazg.Workspace.Restore.Run.{World, Files, restore_path, restore_paths_in, no_errors}
use nazg.Workspace.Restore.Selection.{all_pass}

-- Whether a path can be restored.
abbrev pub works : World → ℕ → Bool → Bytes → Bool
works world id dry_run path =
    is_there (world.source id path) && (dry_run || (world.prepares path && world.copies path))

-- The file of a selected path after a restore that is no dry run.
abbrev pub copied : World → ℕ → Files → Files
copied world id project path =
    if not (is_there (world.source id path) && world.prepares path)
    then project path
    else if world.copies path
    then world.source id path
    else world.leaves path

module _ (world : World) (id : ℕ) (m : Dict WorkspaceFile) where
  abbrev pub is_known : Bytes → Bool
  is_known path = is_there (lookup path m)

  restore_path-project :
      (path p : Bytes) (done : RestoreResult × Files)
      → is_known path ≡ true
      → (restore_path world id false m path done).1 p
        ≡ (if path =ᵇ p then copied world id done.1 p else done.1 p)
  restore_path-project path p done h = ground (arith, =ᵇ_iff path p)

  restore_path-copied :
      (path p : Bytes) (done : RestoreResult × Files)
      → is_known path ≡ true
      → copied world id (restore_path world id false m path done).1 p ≡ copied world id done.1 p
  restore_path-copied path p done h =
      ground (arith, =ᵇ_iff path p, restore_path-project path p done h)

  pub restore_paths_in-project :
      (paths : List Bytes) (p : Bytes) (done : RestoreResult × Files)
      → all_pass is_known paths ≡ true
      → (restore_paths_in world id false m paths done).1 p
        ≡ (if contains_bytes p paths then copied world id done.1 p else done.1 p)
  restore_paths_in-project [] p done h = refl
  restore_paths_in-project (path ∷ paths) p done h =
      restore_paths_in-project paths p (restore_path world id false m path done) (right _ _ h)
      ∙ chain (contains_bytes p paths) (path =ᵇ p) _ _ _ _
          (restore_path-copied path p done (left _ _ h))
          (restore_path-project path p done (left _ _ h))
    where
      left : (a b : Bool) → (a && b) ≡ true → a ≡ true
      left a b e = ground arith

      right : (a b : Bool) → (a && b) ≡ true → b ≡ true
      right a b e = ground arith

      chain :
          (here now : Bool) (x y y' z : Option Bytes)
          → y ≡ y'
          → x ≡ (if now then y' else z)
          → (if here then y else x) ≡ (if now || here then y' else z)
      chain here now e f = ground arith

  pub restore_paths_in-dry_run :
      (paths : List Bytes) (done : RestoreResult × Files)
      → (restore_paths_in world id true m paths done).1 ≡ done.1
  restore_paths_in-dry_run [] done = refl
  restore_paths_in-dry_run (path ∷ paths) done =
      restore_paths_in-dry_run paths (restore_path world id true m path done) ∙ ground arith

  no_errors-append :
      (errors : List RestoreError) (e : RestoreError) → no_errors (errors ++ e ∷ []) ≡ false
  no_errors-append [] e = refl
  no_errors-append (x ∷ errors) e = refl

  restore_path-no_errors :
      (dry_run : Bool) (path : Bytes) (done : RestoreResult × Files)
      → is_known path ≡ true
      → no_errors (restore_path world id dry_run m path done).0.errors
        ≡ (no_errors done.0.errors && works world id dry_run path)
  restore_path-no_errors dry_run path done h = ground (arith, no_errors-append done.0.errors)

  pub restore_paths_in-no_errors :
      (dry_run : Bool) (paths : List Bytes) (done : RestoreResult × Files)
      → all_pass is_known paths ≡ true
      → no_errors (restore_paths_in world id dry_run m paths done).0.errors
        ≡ (no_errors done.0.errors && all_pass (works world id dry_run) paths)
  restore_paths_in-no_errors dry_run [] done h = ground arith
  restore_paths_in-no_errors dry_run (path ∷ paths) done h = ground (
    arith,
    restore_paths_in-no_errors dry_run paths (restore_path world id dry_run m path done),
    restore_path-no_errors dry_run path done,
  )
