-- ===== src/Store/Migrate/Drop.antt =====
-- internal/store/migrate.go: dropping everything, and starting again.
use emarsys_mock.Base.{
  Bool, true, false, not, Option, none, some, List, [], ◌∷◌, ◌++◌, map, select, Str, lit, str_eq,
  like, if◌then◌else◌,
}
use emarsys_mock.Store.Exec.{Result, ok}
use emarsys_mock.Store.Migrate.{
  MigrateError, no_connection, keys_not_disabled, no_tables, not_dropped, Database, Migrations,
  Migration, step, ◌>>=◌, ◌>>◌, free, migrate,
}

abbrev pub is_internal : Str → Bool
is_internal name = like (lit "sqlite_%") name

abbrev pub the_migrations : Option (List Str) → List Str
the_migrations none = []
the_migrations (some names) = lit "schema_migrations" ∷ []

module _ {T : Type 0} where
  -- userTables
  abbrev pub user_tables : Database T → Option (List Str × Database T)
  user_tables db = some (
    the_migrations db.applied
        ++ select (λ n. not (is_internal n)) (map (λ (x : Str × T). x.0) db.tables),
    db,
  )

  abbrev pub left_with : Str → Database T → Option (List (Str × T)) → Option (Unit {0} × Database T)
  left_with name db none = none
  left_with name db (some tables) = some (
    tt,
    record db {
      tables = tables;
      applied = if str_eq name (lit "schema_migrations") then none else db.applied;
    },
  )

  -- DROP TABLE IF EXISTS
  abbrev pub without : Migrations T → Str → Database T → Option (Unit {0} × Database T)
  without ms name db = left_with name db (ms.drop_table db.foreign_keys name db.tables)

  unfoldable pub drop_each : Migrations T → List Str → Migration T (Unit {0})
  drop_each ms [] db = (ok tt, db)
  drop_each ms (name ∷ names) db =
      (step (not_dropped name) (without ms name) >>= λ _. drop_each ms names) db

  abbrev pub keys : Bool → Database T → Option (Unit {0} × Database T)
  keys on db = some (tt, record db { foreign_keys = on })

  -- The deferred PRAGMA; its error is dropped.
  abbrev pub then_keys :
      Result MigrateError (Unit {0}) × Database T → Result MigrateError (Unit {0}) × Database T
  then_keys (r, db) = (r, (step keys_not_disabled (keys true) db).1)

  unfoldable pub drop_tables : Migrations T → Migration T (Unit {0})
  drop_tables ms = do names ← step no_tables user_tables; drop_each ms names

  unfoldable pub without_keys : Migrations T → Migration T (Unit {0})
  without_keys ms db = then_keys (drop_tables ms db)

  abbrev pub with_taken : Bool → Database T → Option (Unit {0} × Database T)
  with_taken taken db = some (tt, record db { taken = taken })

  -- The deferred conn.Close()
  abbrev pub given_back :
      Result MigrateError (Unit {0}) × Database T → Result MigrateError (Unit {0}) × Database T
  given_back (r, db) = (r, record db { taken = false })

  abbrev pub on_connection : Migrations T → Migration T (Unit {0})
  on_connection ms db = given_back ((step keys_not_disabled (keys false) >> without_keys ms) db)

  -- dropAll
  unfoldable pub drop_all : Migrations T → Migration T (Unit {0})
  drop_all ms = do step no_connection (free (with_taken true)); on_connection ms

  -- Reset
  unfoldable pub reset : Migrations T → Migration T (Unit {0})
  reset ms = do drop_all ms; migrate ms
