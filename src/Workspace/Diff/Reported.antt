-- ===== src/Workspace/Diff/Reported.antt =====
-- modules/workspace/src/manager.cpp: the changes that the loop of `compute_snapshot_diff` reports.
use nazg.Base.{
  ◌≡◌, ◌≢◌, ◌↔◌, ◌⊎◌, inl, inr, refl, sym, subst, Bool, true, false, Option, none, some, List, [],
  ◌∷◌, ◌++◌, ◌||◌, Bytes, ◌=ᵇ◌, =ᵇ_iff, arith, Bool-cases, if◌then◌else◌,
}
use mathlib.Core.List.Memᴰ.{Memᴰ, head, tail}
use nazg.Base.Dict.{Dict, lookup, insert, lookup-insert}
use nazg.Base.Members.{is_there, mem-append, mem_left, mem_right, mem-single}
use nazg.Workspace.{WorkspaceFile, FileType, source, build, dependency, config, unknown}
use nazg.Workspace.Diff.{
  FileChange, SnapshotDiff, push_change_for_type, modified_change, added_change, deleted_change,
  compare_files, compare_paths, map_files, add_paths,
}

-- The changes that a diff reports for files of a type.
abbrev pub changes_in : FileType → SnapshotDiff → List FileChange
changes_in source diff = diff.source_changes
changes_in build diff = diff.build_changes
changes_in dependency diff = diff.dep_changes
changes_in config diff = diff.config_changes
changes_in unknown diff = diff.other_changes

-- The file of a path in a list: the last one, if a path stands there twice.
abbrev pub last_file : Bytes → List WorkspaceFile → Option WorkspaceFile
last_file path [] = none
last_file path (file ∷ files) = elim (last_file path files) [
  | some later ↦ some later
  | none ↦ if file.path =ᵇ path then some file else none
]

-- The change to report for a path, whose file was `old` and is `new`, and the type to report it
-- under.
abbrev pub IsChange :
    Bytes → Option WorkspaceFile → Option WorkspaceFile → FileType → FileChange → Type 0
IsChange path none none k c = ⊥
IsChange path none (some t) k c = (k ≡ t.type) × (c ≡ added_change path t)
IsChange path (some f) none k c = (k ≡ f.type) × (c ≡ deleted_change path f)
IsChange path (some f) (some t) k c =
    (f.hash ≢ t.hash) × (k ≡ t.type) × (c ≡ modified_change path f t)

abbrev same_type : FileType → FileType → Bool
same_type source source = true
same_type build build = true
same_type dependency dependency = true
same_type config config = true
same_type unknown unknown = true
same_type k t = false

same_type→≡ : (k t : FileType) → same_type k t ≡ true → k ≡ t
same_type→≡ k t h = ground arith

same_type_refl : (k : FileType) → same_type k k ≡ true
same_type_refl k = ground arith

changes_in-push :
    (k t : FileType) (c : FileChange) (diff : SnapshotDiff)
    → changes_in k (push_change_for_type t c diff)
      ≡ (if same_type k t then changes_in k diff ++ c ∷ [] else changes_in k diff)
changes_in-push k t c diff = ground arith

pub map_files-last_file :
    (path : Bytes) (files : List WorkspaceFile) (m : Dict WorkspaceFile)
    → lookup path (map_files files m)
      ≡ elim (last_file path files) [ some later ↦ some later | none ↦ lookup path m ]
map_files-last_file path [] m = refl
map_files-last_file path (file ∷ files) m = ground (
  arith,
  map_files-last_file path files (insert file.path file m),
  lookup-insert file.path path file m,
)

pub add_paths-last_file :
    (path : Bytes) (files : List WorkspaceFile) (m : Dict Bool)
    → is_there (lookup path (add_paths files m))
      ≡ (is_there (last_file path files) || is_there (lookup path m))
add_paths-last_file path [] m = refl
add_paths-last_file path (file ∷ files) m = ground (
  arith,
  add_paths-last_file path files (insert file.path true m),
  lookup-insert file.path path true m,
)

pub =ᵇ_ne : (s t : Bytes) → (s =ᵇ t) ≡ false → s ≢ t
=ᵇ_ne s t h e = ground (arith, =ᵇ_iff s t)

pub ne→=ᵇ : (s t : Bytes) → s ≢ t → (s =ᵇ t) ≡ false
ne→=ᵇ s t h = elim (Bool-cases (s =ᵇ t)) [ inl e ↦ absurd (h ((=ᵇ_iff s t).0 e)) | inr e ↦ e ]

mem-if_append {ℓ} :
    {A : Type ℓ} (x c : A) (b : Bool) (xs : List A)
    → Memᴰ x (if b then xs ++ c ∷ [] else xs)
    → Memᴰ x xs ⊎ ((b ≡ true) × (x ≡ c))
mem-if_append x c true xs m = elim (mem-append x xs (c ∷ []) m) [
  | inl before ↦ inl before
  | inr last ↦ inr (refl, mem-single x c last)
]
mem-if_append x c false xs m = inl m

if_append-mem {ℓ} :
    {A : Type ℓ} (x c : A) (b : Bool) (xs : List A)
    → Memᴰ x xs ⊎ ((b ≡ true) × (x ≡ c))
    → Memᴰ x (if b then xs ++ c ∷ [] else xs)
if_append-mem x c true xs (inl m) = mem_left x xs (c ∷ []) m
if_append-mem x c true xs (inr (_, e)) = mem_right x xs (c ∷ []) (head e)
if_append-mem x c false xs (inl m) = m
if_append-mem x c false xs (inr (h, e)) = absurd (cc h)

mem-push :
    (x c : FileChange) (k t : FileType) (diff : SnapshotDiff)
    → Memᴰ x (changes_in k (push_change_for_type t c diff))
      ↔ (Memᴰ x (changes_in k diff) ⊎ ((k ≡ t) × (x ≡ c)))
mem-push x c k t diff = (found, reported)
  where
    found :
        Memᴰ x (changes_in k (push_change_for_type t c diff))
        → Memᴰ x (changes_in k diff) ⊎ ((k ≡ t) × (x ≡ c))
    found m =
        elim (mem-if_append x c (same_type k t) (changes_in k diff)
          (subst (Memᴰ x) (changes_in-push k t c diff) m)) [
            | inl before ↦ inl before
            | inr (same, e) ↦ inr (same_type→≡ k t same, e)
          ]

    reported :
        Memᴰ x (changes_in k diff) ⊎ ((k ≡ t) × (x ≡ c))
        → Memᴰ x (changes_in k (push_change_for_type t c diff))
    reported (inl m) =
        subst (Memᴰ x) (sym (changes_in-push k t c diff))
          (if_append-mem x c (same_type k t) (changes_in k diff) (inl m))
    reported (inr (e, e')) = subst (Memᴰ x) (sym (changes_in-push k t c diff)) (
        if_append-mem x c (same_type k t) (changes_in k diff) (inr (rw (e) (same_type_refl t), e')))

-- What the loop reports for one path.
mem-compare_files :
    (path : Bytes) (old new : Option WorkspaceFile) (k : FileType) (c : FileChange)
    (diff : SnapshotDiff)
    → Memᴰ c (changes_in k (compare_files path old new diff))
      ↔ (Memᴰ c (changes_in k diff) ⊎ IsChange path old new k c)
mem-compare_files path none none k c diff = (inl, before)
  where
    before : Memᴰ c (changes_in k diff) ⊎ ⊥ → Memᴰ c (changes_in k diff)
    before (inl m) = m
    before (inr h) = absurd h
mem-compare_files path none (some t) k c diff = mem-push c (added_change path t) k t.type diff
mem-compare_files path (some f) none k c diff = mem-push c (deleted_change path f) k f.type diff
mem-compare_files path (some f) (some t) k c diff = (found, reported)
  where
    pushed :
        Memᴰ c (changes_in k (push_change_for_type t.type (modified_change path f t) diff))
        ↔ (Memᴰ c (changes_in k diff) ⊎ ((k ≡ t.type) × (c ≡ modified_change path f t)))
    pushed = mem-push c (modified_change path f t) k t.type diff

    found :
        Memᴰ c (changes_in k (compare_files path (some f) (some t) diff))
        → Memᴰ c (changes_in k diff) ⊎ IsChange path (some f) (some t) k c
    found m = elim (Bool-cases (f.hash =ᵇ t.hash)) [
      | inl same ↦ inl (
          subst
            (λ b. Memᴰ c (
              changes_in k
                (if b then diff else push_change_for_type t.type (modified_change path f t) diff)))
            same m)
      | inr ne ↦
          elim (pushed.0 (
            subst
              (λ b. Memᴰ c (
                changes_in k (
                  if b then diff else push_change_for_type t.type (modified_change path f t) diff)))
              ne m)) [ inl before ↦ inl before | inr (e, e') ↦ inr (=ᵇ_ne f.hash t.hash ne, e, e') ]
    ]

    reported :
        Memᴰ c (changes_in k diff) ⊎ IsChange path (some f) (some t) k c
        → Memᴰ c (changes_in k (compare_files path (some f) (some t) diff))
    reported (inl m) = elim (Bool-cases (f.hash =ᵇ t.hash)) [
      | inl same ↦ rw (same, changes_in) m
      | inr ne ↦ rw (ne, changes_in) (pushed.1 (inl m))
    ]
    reported (inr (ne, e, e')) = rw (ne→=ᵇ f.hash t.hash ne, changes_in) (pushed.1 (inr (e, e')))

-- A change for one of the paths.
abbrev pub IsFrom :
    Dict WorkspaceFile → Dict WorkspaceFile → List Bytes → FileType → FileChange → Type 0
IsFrom from_map to_map paths k c =
    (path : Bytes) × Memᴰ path paths × IsChange path (lookup path from_map) (lookup path to_map) k c

pub mem-compare_paths :
    (from_map to_map : Dict WorkspaceFile) (paths : List Bytes) (k : FileType) (c : FileChange)
    (diff : SnapshotDiff)
    → Memᴰ c (changes_in k (compare_paths from_map to_map paths diff))
      ↔ (Memᴰ c (changes_in k diff) ⊎ IsFrom from_map to_map paths k c)
mem-compare_paths from_map to_map [] k c diff = (inl, none_left)
  where
    none_left :
        Memᴰ c (changes_in k diff) ⊎ IsFrom from_map to_map [] k c → Memᴰ c (changes_in k diff)
    none_left (inl m) = m
    none_left (inr (path, h, _)) = elim h [ ]
mem-compare_paths from_map to_map (p ∷ paths) k c diff = (
  found (mem-compare_paths from_map to_map paths k c here).0,
  reported (mem-compare_paths from_map to_map paths k c here).1,
)
  where
    here : SnapshotDiff
    here = compare_files p (lookup p from_map) (lookup p to_map) diff

    step :
        Memᴰ c (changes_in k here)
        ↔ (Memᴰ c (changes_in k diff) ⊎ IsChange p (lookup p from_map) (lookup p to_map) k c)
    step = mem-compare_files p (lookup p from_map) (lookup p to_map) k c diff

    found :
        (Memᴰ c (changes_in k (compare_paths from_map to_map paths here))
          → Memᴰ c (changes_in k here) ⊎ IsFrom from_map to_map paths k c)
        → Memᴰ c (changes_in k (compare_paths from_map to_map paths here))
        → Memᴰ c (changes_in k diff) ⊎ IsFrom from_map to_map (p ∷ paths) k c
    found ih m = elim (ih m) [
      | inl m' ↦ elim (step.0 m') [
        | inl before ↦ inl before
        | inr change ↦ inr (p, head refl, change)
      ]
      | inr (path, h, change) ↦ inr (path, tail h, change)
    ]

    reported :
        (Memᴰ c (changes_in k here) ⊎ IsFrom from_map to_map paths k c
          → Memᴰ c (changes_in k (compare_paths from_map to_map paths here)))
        → Memᴰ c (changes_in k diff) ⊎ IsFrom from_map to_map (p ∷ paths) k c
        → Memᴰ c (changes_in k (compare_paths from_map to_map paths here))
    reported ih (inl m) = ih (inl (step.1 (inl m)))
    reported ih (inr (path, head e, change)) = ih (
        inl (
          step.1
            (inr (subst (λ q. IsChange q (lookup q from_map) (lookup q to_map) k c) e change))))
    reported ih (inr (path, tail h, change)) = ih (inr (path, h, change))
