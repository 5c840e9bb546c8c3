-- ===== src/Store/Migrate.antt =====
-- internal/store/migrate.go: bringing the schema up to date, and dropping everything. The database is here
-- any list of tables by name, `schema_migrations` apart from them; what a script and a DROP TABLE do to the
-- tables is SQLite's, and a parameter.
pub mod Applied
pub mod Progress
pub mod Drop
pub mod Names
pub mod Dropped
pub mod Returns
use emarsys_mock.Base.{
  ℕ, ◌+◌, Bool, true, false, not, ◌&&◌, Option, none, some, List, [], ◌∷◌, ◌++◌, map, any, select,
  Str, lit, str_eq, has_suffix, if◌then◌else◌,
}
use emarsys_mock.Store.Exec.{Result, ok, err}
use emarsys_mock.Record.Describe.{sort_texts}

pub data MigrateError : Type 0 where
  not_created not_listed not_read not_begun no_connection keys_not_disabled no_tables : MigrateError
  no_file not_applied not_recorded not_committed not_dropped : Str → MigrateError

-- The tables by name; the names in schema_migrations, if it has been created; whether foreign keys are
-- checked; whether the one connection of the pool is taken; and which calls of the driver fail.
pub record Database (T : Type 0) : Type 0 where
  pub tables : List (Str × T)
  pub applied : Option (List Str)
  pub foreign_keys : Bool
  pub taken : Bool
  pub calls : ℕ
  pub fails : ℕ → Bool

-- The files that are embedded, each with whether it is a directory, what their scripts do, and what
-- DROP TABLE IF EXISTS does, with foreign keys checked or not: it may also write tables of SQLite's own.
pub record Migrations (T : Type 0) : Type 0 where
  pub entries : Option (List (Str × Bool))
  pub read_file : Str → Option Str
  pub run : Str → List (Str × T) → Option (List (Str × T))
  pub drop_table : Bool → Str → List (Str × T) → Option (List (Str × T))

abbrev pub Migration : Type 0 → Type 0 → Type 0
Migration T A = Database T → Result MigrateError A × Database T

abbrev pub is_pending : List Str → Str → Bool
is_pending applied name = not (any (str_eq name) applied)

abbrev is_script : Str × Bool → Bool
is_script (name, is_dir) = not is_dir && has_suffix name (lit ".sql")

module _ {T : Type 0} where
  abbrev pub asked : Database T → Database T
  asked db = record db { calls = db.calls + 1 }

  module _ {A : Type 0} where
    abbrev pub stepped :
        MigrateError → Database T → Option (A × Database T) → Result MigrateError A × Database T
    stepped e db none = (err e, asked db)
    stepped e db (some (a, db')) = (ok a, asked db')

    -- A statement; `none` is one that SQLite refuses.
    unfoldable pub step : MigrateError → (Database T → Option (A × Database T)) → Migration T A
    step e f db = if db.fails db.calls then (err e, asked db) else stepped e db (f db)

    unfoldable pub given : MigrateError → Option A → Migration T A
    given e none db = (err e, db)
    given e (some a) db = (ok a, db)

  module _ {A B : Type 0} where
    abbrev pub go_on :
        Result MigrateError A × Database T
        → (A → Migration T B)
        → Result MigrateError B × Database T
    go_on (ok a, db) f = f a db
    go_on (err e, db) f = (err e, db)

    infixl 10 ◌>>=◌ ◌>>◌
    unfoldable pub ◌>>=◌ : Migration T A → (A → Migration T B) → Migration T B
    ◌>>=◌ m f db = go_on (m db) f

    abbrev pub ◌>>◌ : Migration T A → Migration T B → Migration T B
    m >> n = m >>= λ _. n

  -- A call of the pool gets its one connection. Where that is taken, the call would wait for ever: here it
  -- is one that does not return.
  unfoldable pub free :
      {A : Type 0} → (Database T → Option (A × Database T)) → Database T → Option (A × Database T)
  free f db = if db.taken then none else f db

  abbrev pub rolled_back : Database T → Database T → Database T
  rolled_back before db = record db { tables = before.tables; applied = before.applied }

  abbrev pub settle :
      Str
      → Database T
      → Result MigrateError (Unit {0}) × Database T
      → Result MigrateError (Unit {0}) × Database T
  settle name before (err e, db) = (err e, rolled_back before db)
  settle name before (ok a, db) =
      if db.fails db.calls
      then (err (not_committed name), rolled_back before (asked db))
      else (ok a, asked db)

  -- CREATE TABLE IF NOT EXISTS schema_migrations
  abbrev pub with_migrations : Database T → Option (Unit {0} × Database T)
  with_migrations db =
      some (tt, record db { applied = some (elim db.applied [ none ↦ [] | some names ↦ names ]) })

  abbrev pub recorded : Database T → List Str
  recorded db = elim db.applied [ none ↦ [] | some names ↦ names ]

  -- SELECT name FROM schema_migrations
  abbrev pub names_applied : Database T → Option (List Str × Database T)
  names_applied db = elim db.applied [ none ↦ none | some names ↦ some (names, db) ]

  abbrev pub scripted : Migrations T → Str → Database T → Option (Unit {0} × Database T)
  scripted ms body db = elim (ms.run body db.tables) [
    | none ↦ none
    | some tables ↦ some (tt, record db { tables = tables })
  ]

  -- INSERT INTO schema_migrations: the name is unique.
  abbrev pub with_name : Str → List Str → Database T → Option (Unit {0} × Database T)
  with_name name names db =
      if any (str_eq name) names
      then none
      else some (tt, record db { applied = some (names ++ name ∷ []) })

  abbrev pub named : Str → Database T → Option (Unit {0} × Database T)
  named name db = elim db.applied [ none ↦ none | some names ↦ with_name name names db ]

  abbrev pub same : Database T → Option (Unit {0} × Database T)
  same db = some (tt, db)

  -- The body of a migration's transaction
  unfoldable pub run_script : Migrations T → Str → Str → Migration T (Unit {0})
  run_script ms name body = do
    step (not_applied name) (scripted ms body)
    step (not_recorded name) (named name)

  unfoldable pub in_tx : Str → Migration T (Unit {0}) → Migration T (Unit {0})
  in_tx name m db = settle name db (m db)

  -- One round of the loop of Migrate
  unfoldable pub apply_migration : Migrations T → Str → Migration T (Unit {0})
  apply_migration ms name = do
    body ← given (no_file name) (ms.read_file name)
    step not_begun (free same)
    in_tx name (run_script ms name body)

  unfoldable pub apply_all : Migrations T → List Str → List Str → Migration T (Unit {0})
  apply_all ms applied [] db = (ok tt, db)
  apply_all ms applied (name ∷ names) db =
      if is_pending applied name
      then (apply_migration ms name >>= λ _. apply_all ms applied names) db
      else apply_all ms applied names db

  -- migrationNames
  unfoldable pub migration_names : Migrations T → Option (List Str)
  migration_names ms = elim ms.entries [
    | none ↦ none
    | some entries ↦ some (sort_texts (map (λ (e : Str × Bool). e.0) (select is_script entries)))
  ]

  -- Migrate
  unfoldable pub migrate : Migrations T → Migration T (Unit {0})
  migrate ms = do
    step not_created (free with_migrations)
    names ← given not_listed (migration_names ms)
    applied ← step not_read (free names_applied)
    apply_all ms applied names
