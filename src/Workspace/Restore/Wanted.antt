-- ===== src/Workspace/Restore/Wanted.antt =====
-- modules/workspace/src/manager.cpp: the changes for which a smart `restore` copies a file.
use nazg.Base.{
  ◌≡◌, refl, sym, subst, ap, ◌∙◌, ◌⊎◌, inl, inr, Bool, true, false, Bool-cases, Option, none, some,
  List, [], ◌∷◌, ◌&&◌, ◌||◌, not, Bytes, ◌=ᵇ◌, =ᵇ_iff, arith,
}
use mathlib.Core.List.Memᴰ.{Memᴰ, head, tail}
use nazg.Base.Members.{is_there}
use nazg.Workspace.{
  FileType, source, build, dependency, config, unknown, WorkspaceFile, WorkspaceSnapshot,
}
use nazg.Workspace.Diff.{FileChange, compute_snapshot_diff, added_change, modified_change}
use nazg.Workspace.Diff.Reported.{changes_in, last_file, IsChange, ne→=ᵇ, =ᵇ_ne}
use nazg.Workspace.Diff.Changes.{compute_snapshot_diff-IsChange}
use nazg.Workspace.Restore.{RestoreOptions, is_considered, is_requested}
use nazg.Workspace.Restore.Selection.{has_file, considers, in_a_list}

abbrev is_source : FileType → Bool
is_source source = true
is_source _ = false

-- Whether a smart restore is to copy a path, whose file in the project is `now` and in the snapshot
-- `then_`: a file that is missing now, and a file with another content unless it is a source file
-- that was not asked for.
abbrev pub is_wanted : RestoreOptions → Bytes → Option WorkspaceFile → Option WorkspaceFile → Bool
is_wanted opts path now none = false
is_wanted opts path none (some file) = true
is_wanted opts path (some now) (some file) =
    not (now.hash =ᵇ file.hash) && (not (is_source file.type) || is_requested opts path)

or1 : (a b : Bool) → a ≡ true → (a || b) ≡ true
or1 a b h = ground arith

or2 : (a b : Bool) → b ≡ true → (a || b) ≡ true
or2 a b h = ground arith

pub is_wanted-is_there :
    (opts : RestoreOptions) (p : Bytes) (now file : Option WorkspaceFile)
    → is_wanted opts p now file ≡ true
    → is_there file ≡ true
is_wanted-is_there opts p now none h = h
is_wanted-is_there opts p now (some f) h = refl

pub has_file-last_file :
    (p : Bytes) (files : List WorkspaceFile) → has_file p files ≡ is_there (last_file p files)
has_file-last_file p [] = refl
has_file-last_file p (file ∷ files) = ground (arith, has_file-last_file p files)

module _ (opts : RestoreOptions) where
  considers→mem :
      (p : Bytes) (include_all : Bool) (changes : List FileChange)
      → considers opts p include_all changes ≡ true
      → (c : FileChange) × Memᴰ c changes × (c.path ≡ p) × (is_considered opts include_all c ≡ true)
  considers→mem p include_all [] h = absurd (ground arith)
  considers→mem p include_all (change ∷ changes) h =
      elim (Bool-cases (change.path =ᵇ p && is_considered opts include_all change)) [
        | inl here ↦
            let (a, b) = both _ _ here in (change, head refl, (=ᵇ_iff change.path p).0 a, b)
        | inr not_here ↦
            let (c, m, e, r) = considers→mem p include_all changes (later _ _ not_here h) in
            (c, tail m, e, r)
      ]
    where
      both : (a b : Bool) → (a && b) ≡ true → (a ≡ true) × (b ≡ true)
      both a b e = ground arith

      later : (a b : Bool) → a ≡ false → (a || b) ≡ true → b ≡ true
      later a b e f = ground arith

  mem→considers :
      (p : Bytes) (include_all : Bool) (c : FileChange) (changes : List FileChange)
      → Memᴰ c changes
      → c.path ≡ p
      → is_considered opts include_all c ≡ true
      → considers opts p include_all changes ≡ true
  mem→considers p include_all c [] m e h = elim m [ ]
  mem→considers p include_all c (change ∷ changes) (head q) e h =
      first _ _ _ ((=ᵇ_iff change.path p).1 (ap (λ d. d.path) (sym q) ∙ e))
        (subst (λ d. is_considered opts include_all d ≡ true) q h)
    where
      first : (a b r : Bool) → a ≡ true → b ≡ true → ((a && b) || r) ≡ true
      first a b r x y = ground arith
  mem→considers p include_all c (change ∷ changes) (tail m) e h =
      second _ _ (mem→considers p include_all c changes m e h)
    where
      second : (a r : Bool) → r ≡ true → (a || r) ≡ true
      second a r x = ground arith

  -- Whether a path is in the changes that are reported for a type.
  abbrev in_list : Bytes → FileType → WorkspaceSnapshot → WorkspaceSnapshot → Bool
  in_list p k current snapshot =
      considers opts p (not (is_source k)) (changes_in k (compute_snapshot_diff current snapshot))

  in_a_list-in_list :
      (p : Bytes) (current snapshot : WorkspaceSnapshot)
      → in_a_list opts p (compute_snapshot_diff current snapshot) ≡ (
          in_list p build current snapshot
          || in_list p dependency current snapshot
          || in_list p config current snapshot
          || in_list p unknown current snapshot
          || in_list p source current snapshot)
  in_a_list-in_list p current snapshot = refl

  change-is_wanted :
      (p : Bytes) (now file : Option WorkspaceFile) (k : FileType) (c : FileChange)
      → c.path ≡ p
      → IsChange p now file k c
      → (is_there file && is_considered opts (not (is_source k)) c) ≡ true
      → is_wanted opts p now file ≡ true
  change-is_wanted p none none k c e h i = absurd h
  change-is_wanted p none (some t) k c e h i = refl
  change-is_wanted p (some f) none k c e h i = absurd (cc i)
  change-is_wanted p (some f) (some t) k c e h i =
      wanted (is_source t.type) (is_requested opts p) (f.hash =ᵇ t.hash) (ne→=ᵇ f.hash t.hash h.0) (
        subst (λ d. is_considered opts (not (is_source t.type)) d ≡ true) h.2
          (subst (λ j. is_considered opts (not (is_source j)) c ≡ true) h.1 i))
    where
      wanted :
          (s r same : Bool)
          → same ≡ false
          → ((not s && true) || false || r) ≡ true
          → (not same && (not s || r)) ≡ true
      wanted s r same a b = ground arith

  is_wanted-IsChange :
      (p : Bytes) (now file : Option WorkspaceFile)
      → is_wanted opts p now file ≡ true
      → (k : FileType) × (c : FileChange) × IsChange p now file k c
        × (c.path ≡ p)
        × (is_considered opts (not (is_source k)) c ≡ true)
  is_wanted-IsChange p now none h = absurd (cc h)
  is_wanted-IsChange p none (some t) h = (
    t.type,
    added_change p t,
    (refl, refl),
    refl,
    added_true (is_source t.type) (is_requested opts p),
  )
    where
      added_true : (s r : Bool) → ((not s && true) || true || r) ≡ true
      added_true s r = ground arith
  is_wanted-IsChange p (some f) (some t) h =
      let (differs, considered) =
        modified_true (is_source t.type) (is_requested opts p) (f.hash =ᵇ t.hash) h in
      (t.type, modified_change p f t, (=ᵇ_ne f.hash t.hash differs, refl, refl), refl, considered)
    where
      modified_true :
          (s r same : Bool)
          → (not same && (not s || r)) ≡ true
          → (same ≡ false) × (((not s && true) || false || r) ≡ true)
      modified_true s r same a = ground arith

  in_list-is_wanted :
      (p : Bytes) (k : FileType) (current snapshot : WorkspaceSnapshot)
      → in_list p k current snapshot ≡ true
      → is_there (last_file p snapshot.files) ≡ true
      → is_wanted opts p (last_file p current.files) (last_file p snapshot.files) ≡ true
  in_list-is_wanted p k current snapshot h there =
      let changes = changes_in k (compute_snapshot_diff current snapshot) in
      let (c, m, e, r) = considers→mem p (not (is_source k)) changes h in
      let change = (compute_snapshot_diff-IsChange current snapshot k c).0 m in
      change-is_wanted p (last_file p current.files) (last_file p snapshot.files) k c e
        (subst (λ q. IsChange q (last_file q current.files) (last_file q snapshot.files) k c) e
          change)
        (ground (arith, there, r))

  is_wanted-in_list :
      (p : Bytes) (current snapshot : WorkspaceSnapshot)
      → is_wanted opts p (last_file p current.files) (last_file p snapshot.files) ≡ true
      → (k : FileType) × (in_list p k current snapshot ≡ true)
  is_wanted-in_list p current snapshot h =
      let (k, c, change, e, r) =
        is_wanted-IsChange p (last_file p current.files) (last_file p snapshot.files) h in
      (
        k,
        mem→considers p (not (is_source k)) c
            (changes_in k (compute_snapshot_diff current snapshot))
            ((compute_snapshot_diff-IsChange current snapshot k c).1 (
              subst (λ q. IsChange q (last_file q current.files) (last_file q snapshot.files) k c)
                (sym e) change))
            e r,
      )

  pub in_a_list-is_wanted :
      (p : Bytes) (current snapshot : WorkspaceSnapshot)
      → (in_a_list opts p (compute_snapshot_diff current snapshot)
          && is_there (last_file p snapshot.files))
        ≡ is_wanted opts p (last_file p current.files) (last_file p snapshot.files)
  in_a_list-is_wanted p current snapshot =
      same_test _ _
        (λ h.
          let there = right _ _ h in
          elim (some_list _ _ _ _ _ (left _ _ h)) [
            | inl l ↦ in_list-is_wanted p build current snapshot l there
            | inr (inl l) ↦ in_list-is_wanted p dependency current snapshot l there
            | inr (inr (inl l)) ↦ in_list-is_wanted p config current snapshot l there
            | inr (inr (inr (inl l))) ↦ in_list-is_wanted p unknown current snapshot l there
            | inr (inr (inr (inr l))) ↦ in_list-is_wanted p source current snapshot l there
          ])
        (λ h.
          let (k, l) = is_wanted-in_list p current snapshot h in
          and_true _ _ (one_list p k current snapshot l)
            (is_wanted-is_there opts p (last_file p current.files) (last_file p snapshot.files) h))
    where
      left : (a b : Bool) → (a && b) ≡ true → a ≡ true
      left a b h = ground arith

      right : (a b : Bool) → (a && b) ≡ true → b ≡ true
      right a b h = ground arith

      and_true : (a b : Bool) → a ≡ true → b ≡ true → (a && b) ≡ true
      and_true a b h k = ground arith

      same_test : (a b : Bool) → (a ≡ true → b ≡ true) → (b ≡ true → a ≡ true) → a ≡ b
      same_test a b f g = ground arith

      some_list :
          (a b c d e : Bool)
          → (a || b || c || d || e) ≡ true
          → (a ≡ true) ⊎ ((b ≡ true) ⊎ ((c ≡ true) ⊎ ((d ≡ true) ⊎ (e ≡ true))))
      some_list true b c d e h = inl refl
      some_list false true c d e h = inr (inl refl)
      some_list false false true d e h = inr (inr (inl refl))
      some_list false false false true e h = inr (inr (inr (inl refl)))
      some_list false false false false e h = inr (inr (inr (inr h)))

      one_list :
          (p : Bytes) (k : FileType) (current snapshot : WorkspaceSnapshot)
          → in_list p k current snapshot ≡ true
          → in_a_list opts p (compute_snapshot_diff current snapshot) ≡ true
      one_list p build current snapshot h = or1 _ _ (or1 _ _ (or1 _ _ (or1 _ _ h)))
      one_list p dependency current snapshot h = or1 _ _ (or1 _ _ (or1 _ _ (or2 _ _ h)))
      one_list p config current snapshot h = or1 _ _ (or1 _ _ (or2 _ _ h))
      one_list p unknown current snapshot h = or1 _ _ (or2 _ _ h)
      one_list p source current snapshot h = or2 _ _ h
