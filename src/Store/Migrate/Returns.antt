-- ===== src/Store/Migrate/Returns.antt =====
-- A reset returns where nothing fails, and leaves what the migrations make of an empty database.
use emarsys_mock.Base.{◌≡◌, ◌+◌, true, false, some, List, [], ◌∷◌, ◌++◌, any, Str, str_eq}
use emarsys_mock.Store.Exec.{Result, ok}
use emarsys_mock.Store.Migrate.{MigrateError, Database, Migrations, recorded}
use emarsys_mock.Store.Migrate.Progress.{run_all}
use emarsys_mock.Store.Migrate.Dropped.{user_of}

-- The names are different from these and from each other.
abbrev pub AreNew : List Str → List Str → Type 0
AreNew taken [] = Unit
AreNew taken (name ∷ names) = (any (str_eq name) taken ≡ false) × AreNew (taken ++ name ∷ []) names

module _ {T : Type 0} where
  -- Where a migration leaves the database
  abbrev advanced : Database T → List (Str × T) → List Str → Database T
  advanced db tables applied = record db {
    tables = tables;
    applied = some applied;
    calls = db.calls + 1 + 1 + 1 + 1;
  }

  -- It has returned with these migrations recorded, the tables that their scripts made of a database with
  -- no table of a user, and foreign keys checked.
  pub record Remade (ms : Migrations T) (names : List Str)
      (x : Result MigrateError (Unit {0}) × Database T) : Type 0 where
    pub returned : x.0 ≡ ok tt
    pub names_recorded : recorded x.1 ≡ names
    pub before : List (Str × T)
    pub empty : user_of before ≡ []
    pub made : run_all ms names before ≡ some x.1.tables
    pub checked : x.1.foreign_keys ≡ true
