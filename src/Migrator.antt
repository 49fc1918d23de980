-- ===== src/Migrator.antt =====
-- modules/nexus/src/migrator.cpp: the migrations of the database's schema. The database, the versions
-- in its table `schema_version` and what a script does to it are parameters, and so are the migrations
-- that are read from files. Logging is left out.
pub mod Sorted
pub mod Twice
mod Examples
use nazg.Base.{ℕ, Bool, true, false, List, [], ◌∷◌, Bytes, leb, ltb, not, max, if◌then◌else◌}

pub record Migration : Type 0 where
  pub version : ℕ
  pub sql : Bytes

-- A connection to databases of a type. `recorded_versions` are the rows of the table `schema_version`,
-- none if there is no such table.
pub record Connection {ℓ} (Database : Type ℓ) : Type ℓ where
  pub is_connected : Bool
  pub recorded_versions : Database → List ℕ
  pub execute_script : Bytes → Database → Database × Bool

-- `SELECT MAX(version)`, and 0 for no rows.
abbrev pub max_version : List ℕ → ℕ
max_version [] = 0
max_version (version ∷ versions) = max version (max_version versions)

-- The sorting of the migrations.
abbrev insert_migration : Migration → List Migration → List Migration
insert_migration mig [] = mig ∷ []
insert_migration mig (m ∷ ms) =
    if leb mig.version m.version then mig ∷ m ∷ ms else m ∷ insert_migration mig ms

abbrev pub sort_migrations : List Migration → List Migration
sort_migrations [] = []
sort_migrations (mig ∷ migs) = insert_migration mig (sort_migrations migs)

abbrev pub latest_of : List Migration → ℕ
latest_of [] = 0
latest_of (mig ∷ []) = mig.version
latest_of (mig ∷ m ∷ ms) = latest_of (m ∷ ms)

module _ {ℓ} {Database : Type ℓ} (conn : Connection Database) where
  -- The version of a connected database.
  abbrev pub schema_version : Database → ℕ
  schema_version db = max_version (conn.recorded_versions db)

  -- `get_schema_version`
  abbrev pub current_version : Database → ℕ
  current_version db = if conn.is_connected then schema_version db else 0

  -- The loop over the migrations.
  abbrev pub apply_migrations : ℕ → ℕ → List Migration → Database → Database × Bool
  apply_migrations current target [] db = (db, true)
  apply_migrations current target (mig ∷ migs) db =
      let (next, ok) = conn.execute_script mig.sql db in
      let skipped = leb mig.version current in
      let rest = apply_migrations current target migs (if skipped then db else next) in
      if skipped
      then rest
      else if ltb target mig.version
      then (db, true)
      else if not ok
      then (next, false)
      else rest

  -- `files` are the migrations in the order in which they were read.
  unfoldable pub migrate_to : List Migration → ℕ → Database → Database × Bool
  migrate_to files target db =
      if not conn.is_connected
      then (db, false)
      else if leb target (current_version db)
      then (db, true)
      else apply_migrations (current_version db) target (sort_migrations files) db

  abbrev pub latest_version : List Migration → ℕ
  latest_version files = latest_of (sort_migrations files)

  abbrev pub needs_migration : List Migration → Database → Bool
  needs_migration files db = ltb (current_version db) (latest_version files)

  abbrev pub migrate : List Migration → Database → Database × Bool
  migrate files db = migrate_to files (latest_version files) db
