-- ===== src/Workspace/Restore/Selection.antt =====
-- modules/workspace/src/manager.cpp: which paths `restore` selects, and their order.
use nazg.Base.{
  ◌≡◌, refl, ap, ◌∙◌, Bool, true, false, List, [], ◌∷◌, ◌&&◌, ◌||◌, Bytes, ◌=ᵇ◌, =ᵇ_iff,
  if◌then◌else◌, arith,
}
use nazg.Base.Dict.{Dict, insert, lookup, lookup-insert}
use nazg.Base.Members.{contains_bytes, contains_bytes-append, is_there}
use nazg.Workspace.{WorkspaceFile}
use nazg.Workspace.Diff.{FileChange, SnapshotDiff, map_files}
use nazg.Workspace.Restore.{
  RestoreOptions, should_include, Candidates, add_candidate, add_files, is_considered,
  consider_changes, smart_candidates, no_candidates, insert_path, sort_paths,
}

-- Every path of a list passes a test.
abbrev pub all_pass : (Bytes → Bool) → List Bytes → Bool
all_pass test [] = true
all_pass test (path ∷ paths) = test path && all_pass test paths

insert_path-all_pass :
    (test : Bytes → Bool) (path : Bytes) (paths : List Bytes)
    → all_pass test (insert_path path paths) ≡ (test path && all_pass test paths)
insert_path-all_pass test path [] = refl
insert_path-all_pass test path (p ∷ paths) = ground (arith, insert_path-all_pass test path paths)

pub sort_paths-all_pass :
    (test : Bytes → Bool) (paths : List Bytes)
    → all_pass test (sort_paths paths) ≡ all_pass test paths
sort_paths-all_pass test [] = refl
sort_paths-all_pass test (path ∷ paths) =
    ground
      (arith, sort_paths-all_pass test paths, insert_path-all_pass test path (sort_paths paths))

contains_bytes-insert_path :
    (p path : Bytes) (paths : List Bytes)
    → contains_bytes p (insert_path path paths) ≡ (path =ᵇ p || contains_bytes p paths)
contains_bytes-insert_path p path [] = refl
contains_bytes-insert_path p path (q ∷ paths) =
    ground (arith, contains_bytes-insert_path p path paths)

pub contains_bytes-sort_paths :
    (p : Bytes) (paths : List Bytes) → contains_bytes p (sort_paths paths) ≡ contains_bytes p paths
contains_bytes-sort_paths p [] = refl
contains_bytes-sort_paths p (path ∷ paths) =
    ground (
      arith,
      contains_bytes-sort_paths p paths,
      contains_bytes-insert_path p path (sort_paths paths),
    )

abbrev pub has_file : Bytes → List WorkspaceFile → Bool
has_file path [] = false
has_file path (file ∷ files) = file.path =ᵇ path || has_file path files

pub lookup-map_files :
    (path : Bytes) (files : List WorkspaceFile) (m : Dict WorkspaceFile)
    → is_there (lookup path (map_files files m)) ≡ (has_file path files || is_there (lookup path m))
lookup-map_files path [] m = refl
lookup-map_files path (file ∷ files) m = ground (
  arith,
  lookup-map_files path files m,
  lookup-map_files path files (insert file.path file m),
  lookup-insert file.path path file m,
)

one_more :
    (c e b known there more included : Bool)
    → (e ≡ true → known ≡ there)
    → ((c || ((e && b) && known && included)) || (more && there && included))
      ≡ (c || (((e && b) || more) && there && included))
one_more c e b known there more included h = ground arith

module _ (opts : RestoreOptions) where
  add_candidate-contains :
      (p path : Bytes) (c : Candidates)
      → contains_bytes p (add_candidate opts path c).restore_paths
        ≡ (contains_bytes p c.restore_paths || (path =ᵇ p && should_include opts p))
  add_candidate-contains p path c =
      ground (arith, =ᵇ_iff path p, contains_bytes-append p c.restore_paths (path ∷ []))

  pub add_files-contains :
      (p : Bytes) (files : List WorkspaceFile) (c : Candidates)
      → contains_bytes p (add_files opts files c).restore_paths
        ≡ (contains_bytes p c.restore_paths || (has_file p files && should_include opts p))
  add_files-contains p [] c = ground arith
  add_files-contains p (file ∷ files) c = ground (
    arith,
    add_files-contains p files (add_candidate opts file.path c),
    add_candidate-contains p file.path c,
  )

  -- Whether a path is considered for one of the changes.
  abbrev pub considers : Bytes → Bool → List FileChange → Bool
  considers p include_all [] = false
  considers p include_all (change ∷ changes) =
      (change.path =ᵇ p && is_considered opts include_all change) || considers p include_all changes

  added_if-contains :
      (p q : Bytes) (known b : Bool) (c : Candidates)
      → contains_bytes p (if known && b then add_candidate opts q c else c).restore_paths
        ≡ (contains_bytes p c.restore_paths || ((q =ᵇ p && b) && known && should_include opts p))
  added_if-contains p q true true c = ground (arith, add_candidate-contains p q c)
  added_if-contains p q true false c = ground arith
  added_if-contains p q false b c = ground arith

  consider_changes-contains :
      (p : Bytes) (m : Dict WorkspaceFile) (include_all : Bool) (changes : List FileChange)
      (c : Candidates)
      → contains_bytes p (consider_changes opts m include_all changes c).restore_paths ≡ (
          contains_bytes p c.restore_paths
          || (considers p include_all changes && is_there (lookup p m) && should_include opts p))
  consider_changes-contains p m include_all [] c = ground arith
  consider_changes-contains p m include_all (change ∷ changes) c =
      let known = is_there (lookup change.path m) in
      let b = is_considered opts include_all change in
      consider_changes-contains p m include_all changes
        (if known && b then add_candidate opts change.path c else c)
      ∙ ap
          (λ r.
            r
            || (considers p include_all changes && is_there (lookup p m) && should_include opts p))
          (added_if-contains p change.path known b c)
      ∙ one_more (contains_bytes p c.restore_paths) (change.path =ᵇ p) b known
          (is_there (lookup p m)) (considers p include_all changes) (should_include opts p)
          (λ h. ap (λ q. is_there (lookup q m)) ((=ᵇ_iff change.path p).0 h))

  abbrev pub in_a_list : Bytes → SnapshotDiff → Bool
  in_a_list p diff =
      considers p true diff.build_changes
      || considers p true diff.dep_changes
      || considers p true diff.config_changes
      || considers p true diff.other_changes
      || considers p false diff.source_changes

  pub smart_candidates-contains :
      (p : Bytes) (m : Dict WorkspaceFile) (diff : SnapshotDiff)
      → contains_bytes p (smart_candidates opts m diff no_candidates).restore_paths
        ≡ (in_a_list p diff && is_there (lookup p m) && should_include opts p)
  smart_candidates-contains p m diff =
      let c1 = consider_changes opts m true diff.build_changes no_candidates in
      let c2 = consider_changes opts m true diff.dep_changes c1 in
      let c3 = consider_changes opts m true diff.config_changes c2 in
      let c4 = consider_changes opts m true diff.other_changes c3 in
      ground (
        arith,
        consider_changes-contains p m true diff.build_changes no_candidates,
        consider_changes-contains p m true diff.dep_changes c1,
        consider_changes-contains p m true diff.config_changes c2,
        consider_changes-contains p m true diff.other_changes c3,
        consider_changes-contains p m false diff.source_changes c4,
      )
