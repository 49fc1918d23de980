-- ===== src/Migrator/Sorted.antt =====
-- modules/nexus/src/migrator.cpp: the migrations in the order of their versions.
use nazg.Base.{
  ℕ, ◌≤◌, ◌<◌, ◌==◌, ◌||◌, contains, ◌≡◌, sym, subst, true, false, Bool-cases, inl, inr, leb→le,
  List, [], ◌∷◌, leb, All, arith,
}
use nazg.Migrator.{
  Migration, Connection, max_version, schema_version, insert_migration, sort_migrations,
}

-- The versions do not fall.
abbrev pub IsAscending : List Migration → Type 0
IsAscending [] = Unit
IsAscending (mig ∷ migs) = All (λ m. mig.version ≤ m.version) migs × IsAscending migs

All-le :
    (a b : ℕ) (migs : List Migration)
    → a ≤ b
    → All (λ m. b ≤ m.version) migs
    → All (λ m. a ≤ m.version) migs
All-le a b [] h all = tt
All-le a b (m ∷ ms) h all = (omega (arith, h, all.0), All-le a b ms h all.1)

insert_migration-All :
    (a : ℕ) (mig : Migration) (migs : List Migration)
    → a ≤ mig.version
    → All (λ m. a ≤ m.version) migs
    → All (λ m. a ≤ m.version) (insert_migration mig migs)
insert_migration-All a mig [] h all = (h, tt)
insert_migration-All a mig (m ∷ ms) h all = ground (arith, insert_migration-All a mig ms h all.1)

insert_migration-IsAscending :
    (mig : Migration) (migs : List Migration)
    → IsAscending migs
    → IsAscending (insert_migration mig migs)
insert_migration-IsAscending mig [] s = (tt, tt)
insert_migration-IsAscending mig (m ∷ ms) s = elim (Bool-cases (leb mig.version m.version)) [
  | inl first ↦
      rw (first, insert_migration)
        ((
          (
            leb→le mig.version m.version first,
            All-le mig.version m.version ms (leb→le mig.version m.version first) s.0,
          ),
          s,
        ))
  | inr behind ↦
      rw (behind, insert_migration)
        ((
          insert_migration-All m.version mig ms (ground (arith, behind)) s.0,
          insert_migration-IsAscending mig ms s.1,
        ))
]

pub sort_migrations-IsAscending : (migs : List Migration) → IsAscending (sort_migrations migs)
sort_migrations-IsAscending [] = tt
sort_migrations-IsAscending (mig ∷ migs) =
    insert_migration-IsAscending mig (sort_migrations migs) (sort_migrations-IsAscending migs)

contains-le : (v : ℕ) (versions : List ℕ) → contains v versions ≡ true → v ≤ max_version versions
contains-le v [] h = absurd (cc h)
contains-le v (x ∷ xs) h = ground (arith, contains-le v xs)

-- The greatest version is one of the rows, unless it is 0.
contains-max_version :
    (versions : List ℕ) → 0 < max_version versions → contains (max_version versions) versions ≡ true
contains-max_version [] h = absurd (omega (arith, h))
contains-max_version (x ∷ xs) h = ground (arith, contains-max_version xs)

module _ {ℓ} {Database : Type ℓ} (conn : Connection Database) where
  -- A script of this migration that succeeds records the migration's version, and keeps the others:
  -- `INSERT OR IGNORE` at the end of every script.
  abbrev pub RecordsVersion : Migration → Type ℓ
  RecordsVersion mig =
      (db : Database)
      → (conn.execute_script mig.sql db).1 ≡ true
      → (v : ℕ)
      → contains v (conn.recorded_versions (conn.execute_script mig.sql db).0)
        ≡ (mig.version == v || contains v (conn.recorded_versions db))

  -- It leaves a database that is not beyond its version at this version.
  pub schema_version-execute_script :
      (mig : Migration) (db : Database)
      → RecordsVersion mig
      → (conn.execute_script mig.sql db).1 ≡ true
      → schema_version conn db ≤ mig.version
      → schema_version conn (conn.execute_script mig.sql db).0 ≡ mig.version
  schema_version-execute_script mig db records ok le =
      let before = conn.recorded_versions db in
      let behind = conn.recorded_versions (conn.execute_script mig.sql db).0 in
      let greatest = max_version behind in
      ground (
        arith,
        records db ok mig.version,
        records db ok greatest,
        contains-le mig.version behind,
        contains-le greatest before,
        contains-max_version behind,
      )

  insert_migration-RecordsVersion :
      (mig : Migration) (migs : List Migration)
      → RecordsVersion mig
      → All RecordsVersion migs
      → All RecordsVersion (insert_migration mig migs)
  insert_migration-RecordsVersion mig [] h all = (h, tt)
  insert_migration-RecordsVersion mig (m ∷ ms) h all =
      elim (Bool-cases (leb mig.version m.version)) [
        | inl first ↦ subst (All RecordsVersion) (sym (at_front first)) (h, all)
        | inr behind ↦
            subst (All RecordsVersion) (sym (further behind))
              (all.0, insert_migration-RecordsVersion mig ms h all.1)
      ]
    where
      at_front : leb mig.version m.version ≡ true → insert_migration mig (m ∷ ms) ≡ mig ∷ m ∷ ms
      at_front e = ground (arith, e)

      further :
          leb mig.version m.version ≡ false
          → insert_migration mig (m ∷ ms) ≡ m ∷ insert_migration mig ms
      further e = ground (arith, e)

  pub sort_migrations-RecordsVersion :
      (migs : List Migration) → All RecordsVersion migs → All RecordsVersion (sort_migrations migs)
  sort_migrations-RecordsVersion [] all = tt
  sort_migrations-RecordsVersion (mig ∷ migs) all =
      insert_migration-RecordsVersion mig (sort_migrations migs) all.0
        (sort_migrations-RecordsVersion migs all.1)
