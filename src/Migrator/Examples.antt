-- ===== src/Migrator/Examples.antt =====
-- modules/nexus/src/migrator.cpp: runs, and the theorem at concrete inputs.
use nazg.Base.{
  ◌=ᵇ◌, if◌then◌else◌, ℕ, ◌≡◌, refl, Bool, true, false, List, [], ◌∷◌, Bytes, codes, length, All,
  contains, ◌==◌, ==_iff, ◌||◌, arith,
}
use nazg.Migrator.{Migration, Connection, migrate_to, migrate}
use nazg.Migrator.Sorted.{RecordsVersion}
use nazg.Migrator.Twice.{migrate_to_twice}

-- A database that holds its recorded versions only; a script is as long as the version that it
-- records, unless that is there, and the script `bad` fails.
abbrev record_version : ℕ → List ℕ → List ℕ
record_version version db = if contains version db then db else version ∷ db

abbrev run_script : Bytes → List ℕ → List ℕ × Bool
run_script sql db =
    if sql =ᵇ codes "bad" then (db, false) else (record_version (length sql) db, true)

abbrev conn : Connection (List ℕ)
conn = record { is_connected = true; recorded_versions = λ db. db; execute_script = run_script }

contains-record_version :
    (version v : ℕ) (db : List ℕ)
    → contains v (record_version version db) ≡ (version == v || contains v db)
contains-record_version version v db = ground (arith, ==_iff version v)

abbrev files : List Migration
files =
    record { version = 2; sql = codes "aa" }
    ∷ record { version = 1; sql = codes "a" }
    ∷ record { version = 3; sql = codes "bad" }
    ∷ []

migrate_to-files : migrate_to conn files 2 [] ≡ (2 ∷ 1 ∷ [], true)
unfolding migrate_to
migrate_to-files = refl

-- The third script fails, behind the two that were run.
migrate-files : migrate conn files [] ≡ (2 ∷ 1 ∷ [], false)
unfolding migrate_to
migrate-files = refl

files-RecordsVersion : All (RecordsVersion conn) files
files-RecordsVersion = (
  (λ db ok v. contains-record_version 2 v db),
  ((λ db ok v. contains-record_version 1 v db), ((λ db ok. absurd (cc ok)), tt)),
)

-- From a database at version 1.
migrate_to_twice_example :
    migrate_to conn files 2 (migrate_to conn files 2 (1 ∷ [])).0
    ≡ ((migrate_to conn files 2 (1 ∷ [])).0, true)
unfolding migrate_to
migrate_to_twice_example = migrate_to_twice conn files 2 (1 ∷ []) files-RecordsVersion refl
