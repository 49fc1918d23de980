-- ===== src/Migrator/Twice.antt =====
-- modules/nexus/src/migrator.cpp: a migration that succeeded leaves nothing to migrate.
use nazg.Base.{
  ℕ, ◌≤◌, ◌<◌, ◌≡◌, refl, sym, subst, ap, ◌∙◌, Bool, true, false, Bool-cases, inl, inr, ltb→lt,
  List, [], ◌∷◌, ◌&&◌, ◌||◌, leb, ltb, All, arith,
}
use nazg.Migrator.{
  schema_version, Migration, Connection, sort_migrations, apply_migrations, migrate_to,
}
use nazg.Migrator.Sorted.{
  IsAscending, sort_migrations-IsAscending, RecordsVersion, schema_version-execute_script,
  sort_migrations-RecordsVersion,
}

-- Every migration is past, or beyond the target.
abbrev all_done : ℕ → ℕ → List Migration → Bool
all_done current target [] = true
all_done current target (mig ∷ migs) =
    (leb mig.version current || ltb target mig.version) && all_done current target migs

beyond-all_done :
    (v current target : ℕ) (migs : List Migration)
    → target < v
    → All (λ m. v ≤ m.version) migs
    → all_done current target migs ≡ true
beyond-all_done v current target [] h all = refl
beyond-all_done v current target (m ∷ ms) h all =
    ground (arith, beyond-all_done v current target ms h all.1)

-- Every migration that is not past is at or above the version of the database.
abbrev all_above : ℕ → ℕ → List Migration → Bool
all_above current version [] = true
all_above current version (mig ∷ migs) =
    (leb mig.version current || leb version mig.version) && all_above current version migs

All-all_above :
    (current version : ℕ) (migs : List Migration)
    → All (λ m. version ≤ m.version) migs
    → all_above current version migs ≡ true
All-all_above current version [] all = refl
All-all_above current version (m ∷ ms) all =
    ground (arith, all.0, All-all_above current version ms all.1)

all_above-same : (current : ℕ) (migs : List Migration) → all_above current current migs ≡ true
all_above-same current [] = refl
all_above-same current (m ∷ ms) = ground (arith, all_above-same current ms)

module _ {ℓ} {Database : Type ℓ} (conn : Connection Database) where
  -- What a loop that succeeds leaves.
  abbrev IsDone : ℕ → ℕ → List Migration → Database × Bool → Type 0
  IsDone target before migs (db, ok) =
      ok ≡ true
      → (all_done (schema_version conn db) target migs ≡ true) × (before ≤ schema_version conn db)

  apply_migrations-cases :
      (current target : ℕ) (mig : Migration) (migs : List Migration) (db : Database)
      (P : Database × Bool → Type 0)
      → (leb mig.version current ≡ true → P (apply_migrations conn current target migs db))
      → (leb mig.version current ≡ false → ltb target mig.version ≡ true → P (db, true))
      → P ((conn.execute_script mig.sql db).0, false)
      → (leb mig.version current ≡ false
          → (conn.execute_script mig.sql db).1 ≡ true
          → P (apply_migrations conn current target migs (conn.execute_script mig.sql db).0))
      → P (apply_migrations conn current target (mig ∷ migs) db)
  apply_migrations-cases current target mig migs db P skips breaks fails goes =
      elim (Bool-cases (leb mig.version current)) [
        | inl past ↦ subst P (sym (skipping past)) (skips past)
        | inr ahead ↦ elim (Bool-cases (ltb target mig.version)) [
          | inl beyond ↦ subst P (sym (breaking ahead beyond)) (breaks ahead beyond)
          | inr within ↦ elim (Bool-cases (conn.execute_script mig.sql db).1) [
            | inl ok ↦ subst P (sym (going ahead within ok)) (goes ahead ok)
            | inr bad ↦ subst P (sym (failing ahead within bad)) fails
          ]
        ]
      ]
    where
      run : Database × Bool
      run = apply_migrations conn current target (mig ∷ migs) db

      skipping : leb mig.version current ≡ true → run ≡ apply_migrations conn current target migs db
      skipping e = ground (arith, e)

      breaking : leb mig.version current ≡ false → ltb target mig.version ≡ true → run ≡ (db, true)
      breaking e f = ground (arith, e, f)

      failing :
          leb mig.version current ≡ false
          → ltb target mig.version ≡ false
          → (conn.execute_script mig.sql db).1 ≡ false
          → run ≡ ((conn.execute_script mig.sql db).0, false)
      failing e f g = ground (arith, e, f, g)

      going :
          leb mig.version current ≡ false
          → ltb target mig.version ≡ false
          → (conn.execute_script mig.sql db).1 ≡ true
          → run ≡ apply_migrations conn current target migs (conn.execute_script mig.sql db).0
      going e f g = ground (arith, e, f, g)

  apply_migrations-IsDone :
      (current target : ℕ) (migs : List Migration) (db : Database)
      → IsAscending migs
      → All (RecordsVersion conn) migs
      → current ≤ schema_version conn db
      → all_above current (schema_version conn db) migs ≡ true
      → IsDone target (schema_version conn db) migs (apply_migrations conn current target migs db)
  apply_migrations-IsDone current target [] db s sets le above = λ ok. (refl, omega arith)
  apply_migrations-IsDone current target (mig ∷ migs) db s sets le above =
      let next = (conn.execute_script mig.sql db).0 in
      apply_migrations-cases current target mig migs db
        (IsDone target (schema_version conn db) (mig ∷ migs))
        (λ past ok.
          let (all, grows) =
            apply_migrations-IsDone current target migs db s.1 sets.1 le (ground (arith, above))
              ok in
          (ground (arith, past, all, grows, le), grows))
        (λ ahead beyond ok. (
          ground (
            arith,
            beyond,
            beyond-all_done mig.version (schema_version conn db) target migs
                (ltb→lt target mig.version beyond) s.0,
          ),
          omega arith,
        ))
        (λ bad. absurd (cc bad))
        (λ ahead ran ok.
          let set =
            schema_version-execute_script conn mig db sets.0 ran (ground (arith, ahead, above)) in
          let (all, grows) =
            apply_migrations-IsDone current target migs next s.1 sets.1 (ground (arith, ahead, set))
              (subst (λ v. all_above current v migs ≡ true) (sym set)
                (All-all_above current mig.version migs s.0))
              ok in
          (ground (arith, all, grows, set), ground (arith, ahead, above, grows, set)))

  -- Nothing is left to do.
  apply_migrations-none :
      (current target : ℕ) (migs : List Migration) (db : Database)
      → all_done current target migs ≡ true
      → apply_migrations conn current target migs db ≡ (db, true)
  apply_migrations-none current target [] db h = refl
  apply_migrations-none current target (mig ∷ migs) db h =
      ground (arith, apply_migrations-none current target migs db)

module _ {ℓ} {Database : Type ℓ} (conn : Connection Database) (files : List Migration)
    (target : ℕ) where
  module _ (db : Database) (connected : conn.is_connected ≡ true) where
    migrate_to-past :
        leb target (schema_version conn db) ≡ true → migrate_to conn files target db ≡ (db, true)
    unfolding migrate_to
    migrate_to-past h = ground (arith, connected, h)

    migrate_to-ahead :
        leb target (schema_version conn db) ≡ false
        → migrate_to conn files target db
          ≡ apply_migrations conn (schema_version conn db) target (sort_migrations files) db
    unfolding migrate_to
    migrate_to-ahead h = ground (arith, connected, h)

    migrate_to-all_done :
        all_done (schema_version conn db) target (sort_migrations files) ≡ true
        → migrate_to conn files target db ≡ (db, true)
    migrate_to-all_done h = elim (Bool-cases (leb target (schema_version conn db))) [
      | inl past ↦ migrate_to-past past
      | inr ahead ↦
          migrate_to-ahead ahead
          ∙ apply_migrations-none conn (schema_version conn db) target (sort_migrations files) db h
    ]

  migrate_to_disconnected :
      (db : Database) → conn.is_connected ≡ false → (migrate_to conn files target db).1 ≡ false
  unfolding migrate_to
  migrate_to_disconnected db h = ground (arith, h)

-- Where every script that succeeds records the version of its migration beside those that are
-- recorded, a migration to a target that succeeded is followed by one that runs no script and
-- succeeds.
pub migrate_to_twice {ℓ} :
    {Database : Type ℓ} (conn : Connection Database) (files : List Migration) (target : ℕ)
    (db : Database)
    → All (RecordsVersion conn) files
    → (migrate_to conn files target db).1 ≡ true
    → migrate_to conn files target (migrate_to conn files target db).0
      ≡ ((migrate_to conn files target db).0, true)
migrate_to_twice conn files target db sets ok = elim (Bool-cases conn.is_connected) [
  | inr off ↦ absurd (ground (arith, ok, migrate_to_disconnected conn files target db off))
  | inl on ↦ elim (Bool-cases (leb target (schema_version conn db))) [
    | inl past ↦
        let first = migrate_to-past conn files target db on past in
        subst (λ r. migrate_to conn files target r.0 ≡ (r.0, true)) (sym first) first
    | inr ahead ↦
        let first = migrate_to-ahead conn files target db on ahead in
        let version = schema_version conn db in
        let sorted = sort_migrations files in
        let (all, grows) =
          apply_migrations-IsDone conn version target sorted db (sort_migrations-IsAscending files)
            (sort_migrations-RecordsVersion conn files sets) (omega arith)
            (all_above-same version sorted) (ap (λ r. r.1) (sym first) ∙ ok) in
        subst (λ r. migrate_to conn files target r.0 ≡ (r.0, true)) (sym first)
          (migrate_to-all_done conn files target (apply_migrations conn version target sorted db).0
            on all)
  ]
]
