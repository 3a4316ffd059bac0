-- ===== src/Db/Migrate.antt =====
-- `migrate` of internal/storage/db.go: each embedded migration is applied once, in the order of the
-- names. What a migration's SQL does to the schema and its rows is a parameter.
pub mod Twice
use Prim.Native.String.{compare}
use Prim.Native.Nat.{Ordering}
use oidc_test_idp.Prelude.{
  ℕ, suc, String, ◌==◌, Bool, true, false, not, ◌&&◌, Option, none, some, List, [], ◌∷◌, ◌++◌, ltb,
  if◌then◌else◌, any,
}
use oidc_test_idp.Prelude.Text.{has_suffix}

pub record DirEntry : Type 0 where
  pub name : String
  pub is_dir : Bool

-- A name that is longer than its suffix ".sql".
unfoldable pub is_migration : DirEntry → Bool
unfolding has_suffix
is_migration e = not e.is_dir && not (e.name == ".sql") && has_suffix e.name ".sql"

unfoldable pub migration_names : List DirEntry → List String
unfolding is_migration
migration_names [] = []
migration_names (e ∷ es) =
    let rest = migration_names es in if is_migration e then e.name ∷ rest else rest

abbrev is_above : String → String → Bool
is_above s t = elim (compare s t) [ Ordering.gt ↦ true | _ ↦ false ]

unfoldable pub sorted_in : String → List String → List String
sorted_in s [] = s ∷ []
sorted_in s (t ∷ ts) = let rest = sorted_in s ts in if is_above s t then t ∷ rest else s ∷ t ∷ ts

-- `sort.Strings`
unfoldable pub sort_strings : List String → List String
unfolding sorted_in
sort_strings [] = []
sort_strings (s ∷ ss) = sorted_in s (sort_strings ss)

-- The schema with its rows, and the names in schema_migrations: none where that table is missing.
pub record Store (Schema : Type 0) : Type 0 where
  pub schema : Schema
  pub applied : Option (List String)
  pub statements : ℕ

pub data MigrationError : Type 0 where
  create_failed read_dir_failed : MigrationError
  check_failed read_failed apply_failed record_failed : String → MigrationError

pub data Outcome : Type 0 where
  migrated : Outcome
  stopped : MigrationError → Outcome

abbrev pub names_of : Option (List String) → List String
names_of none = []
names_of (some names) = names

-- `fault` says at which statements the driver fails; `run_sql` runs the text of a migration at a
-- statement: whether that succeeds, and the schema that is left, which a text of several SQL
-- statements may have changed in part before it fails; `read_dir` and `read_file` read the embedded
-- files.
module _ {Schema : Type 0} (fault : ℕ → Bool) (run_sql : ℕ → String → Schema → Bool × Schema)
    (read_dir : Option (List DirEntry)) (read_file : String → Option String) where
  abbrev pub counted : Store Schema → Store Schema
  counted s = record s { statements = suc s.statements }

  abbrev pub is_applied : String → Store Schema → Bool
  is_applied name s = any (λ a. a == name) (names_of s.applied)

  -- `CREATE TABLE IF NOT EXISTS schema_migrations`
  unfoldable pub create_table : Store Schema → Outcome × Store Schema
  create_table s =
      if fault s.statements
      then (stopped create_failed, counted s)
      else (migrated, record (counted s) { applied = some (names_of s.applied) })

  unfoldable pub record_migration : String → Store Schema → Outcome × Store Schema
  record_migration name s =
      if fault s.statements
      then (stopped (record_failed name), counted s)
      else (migrated, record (counted s) { applied = some (names_of s.applied ++ name ∷ []) })

  -- The two statements of a migration, which no transaction holds together.
  unfoldable pub apply_migration : String → String → Store Schema → Outcome × Store Schema
  unfolding record_migration
  apply_migration name text s =
      let r = run_sql s.statements text s.schema in
      if r.0
      then record_migration name (record (counted s) { schema = r.1 })
      else (stopped (apply_failed name), record (counted s) { schema = r.1 })

  unfoldable pub migrate_one : String → Store Schema → Outcome × Store Schema
  unfolding apply_migration
  migrate_one name s =
      if fault s.statements
      then (stopped (check_failed name), counted s)
      else if is_applied name s
      then (migrated, counted s)
      else elim (read_file name) [
        | none ↦ (stopped (read_failed name), counted s)
        | some text ↦ apply_migration name text (counted s)
      ]

  abbrev pub then_all :
      (Store Schema → Outcome × Store Schema) → Outcome × Store Schema → Outcome × Store Schema
  then_all next r = elim r.0 [ migrated ↦ next r.1 | stopped e ↦ (stopped e, r.1) ]

  unfoldable pub migrate_all : List String → Store Schema → Outcome × Store Schema
  migrate_all [] s = (migrated, s)
  migrate_all (name ∷ names) s = then_all (migrate_all names) (migrate_one name s)

  abbrev pub migrate_dir : Option (List DirEntry) → Store Schema → Outcome × Store Schema
  migrate_dir none s = (stopped read_dir_failed, s)
  migrate_dir (some es) s = migrate_all (sort_strings (migration_names es)) s

  unfoldable pub migrate : Store Schema → Outcome × Store Schema
  migrate s = then_all (migrate_dir read_dir) (create_table s)
