-- ===== src/Tests/Migrate.antt =====
-- Two migrations of a database whose tables are numbers.
use emarsys_mock.Base.{
  ◌≡◌, refl, if◌then◌else◌, ℕ, ◌+◌, Bool, true, false, Option, none, some, List, [], ◌∷◌, ◌++◌,
  select, Str, lit, str_eq, has_suffix, str_leb,
}
use emarsys_mock.Store.Migrate.{Database, Migrations, recorded, migration_names, migrate}
use emarsys_mock.Store.Migrate.Drop.{is_internal}
use emarsys_mock.Store.Migrate.Progress.{Progress, pending_of, migrate-Progress}
use emarsys_mock.Record.Describe.{sort_texts}

-- "b.sql" and "a.sql", a directory, and a file of another kind.
abbrev b_sql : Str
b_sql = 98 ∷ 46 ∷ 115 ∷ 113 ∷ 108 ∷ []

abbrev a_sql : Str
a_sql = 97 ∷ 46 ∷ 115 ∷ 113 ∷ 108 ∷ []

-- With foreign keys checked nothing can be dropped; otherwise each of SQLite's own tables counts the drop.
counted : Str → List (Str × ℕ) → List (Str × ℕ)
counted name [] = []
counted name ((n, k) ∷ rest) =
    let more = counted name rest in
    if is_internal n then (n, k + 1) ∷ more else if str_eq n name then more else (n, k) ∷ more

abbrev drop_counting : Bool → Str → List (Str × ℕ) → Option (List (Str × ℕ))
drop_counting true name tables = none
drop_counting false name tables = some (counted name tables)

-- A script adds the table of its own text, with the number of the tables before it.
abbrev two : Migrations ℕ
two = record {
  entries = some ((b_sql, false) ∷ (a_sql, false) ∷ (a_sql, true) ∷ (98 ∷ [], false) ∷ []);
  read_file = λ name. some name;
  run = λ body tables. some (tables ++ (body, 7) ∷ []);
  drop_table = drop_counting;
}

-- A table of SQLite's own, one of a user, and a migration that has been run.
abbrev old : Database ℕ
old = record {
  tables = (115 ∷ 113 ∷ 108 ∷ 105 ∷ 116 ∷ 101 ∷ 95 ∷ 120 ∷ [], 1) ∷ (98 ∷ [], 2) ∷ [];
  applied = some (a_sql ∷ []);
  foreign_keys = true;
  taken = false;
  calls = 0;
  fails = λ n. false;
}

listed : migration_names two ≡ some (a_sql ∷ b_sql ∷ [])
unfolding migration_names select sort_texts has_suffix lit str_leb
listed = refl

migrate-Progress_example :
    Progress two
      (pending_of (recorded old) (a_sql ∷ b_sql ∷ []))
      old.tables
      (recorded old)
      (migrate two old)
migrate-Progress_example = migrate-Progress two (a_sql ∷ b_sql ∷ []) old listed
