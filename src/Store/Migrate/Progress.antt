-- ===== src/Store/Migrate/Progress.antt =====
-- What has been run is what is recorded, however a migration of the database ends.
use emarsys_mock.Base.{
  ◌≡◌, refl, sym, ap, ◌∙◌, inl, inr, Bool-cases, Option, none, some, List, [], ◌∷◌, ◌++◌,
  append-nil, append_assoc, select, Str,
}
use emarsys_mock.Store.Exec.{Result, ok, err}
use emarsys_mock.Store.Migrate.{
  MigrateError, not_created, not_read, Database, Migrations, asked, step, given, go_on, ◌>>=◌,
  recorded, same, apply_migration, is_pending, apply_all, migration_names, with_migrations,
  names_applied, free, migrate,
}
use emarsys_mock.Store.Migrate.Applied.{
  script, step-cases, free-some, Applied, undone, applied_now, apply_migration-Applied,
}

abbrev pub pending_of : List Str → List Str → List Str
pending_of applied names = select (is_pending applied) names

module _ {T : Type 0} where
  abbrev pub after :
      Option (List (Str × T)) → (List (Str × T) → Option (List (Str × T))) → Option (List (Str × T))
  after none f = none
  after (some tables) f = f tables

  unfoldable pub run_all : Migrations T → List Str → List (Str × T) → Option (List (Str × T))
  run_all ms [] tables = some tables
  run_all ms (name ∷ names) tables = after (script ms name tables) (run_all ms names)

  -- Of what was pending, a first part has been run and recorded, and all of it if nothing failed.
  pub record Progress (ms : Migrations T) (pending : List Str) (tables : List (Str × T))
      (names : List Str) (x : Result MigrateError (Unit {0}) × Database T) : Type 0 where
    pub done : List Str
    pub left : List Str
    pub split : pending ≡ done ++ left
    pub whole : x.0 ≡ ok tt → left ≡ []
    pub ran : run_all ms done tables ≡ some x.1.tables
    pub noted : recorded x.1 ≡ names ++ done

  Progress-none :
      (ms : Migrations T) (pending : List Str) (tables : List (Str × T)) (names : List Str)
      (x : Result MigrateError (Unit {0}) × Database T)
      → (x.0 ≡ ok tt → pending ≡ [])
      → x.1.tables ≡ tables
      → recorded x.1 ≡ names
      → Progress ms pending tables names x
  unfolding run_all
  Progress-none ms pending tables names x h t n = record {
    done = [];
    left = pending;
    split = refl;
    whole = h;
    ran = rw (t) refl;
    noted = n ∙ sym (append-nil names);
  }

  Progress-more :
      (ms : Migrations T) (name : Str) (pending : List Str) (tables middle : List (Str × T))
      (names : List Str) (x : Result MigrateError (Unit {0}) × Database T)
      → script ms name tables ≡ some middle
      → Progress ms pending middle (names ++ name ∷ []) x
      → Progress ms (name ∷ pending) tables names x
  unfolding run_all
  Progress-more ms name pending tables middle names x ran p = record {
    done = name ∷ p.done;
    left = p.left;
    split = ap (λ ns. name ∷ ns) p.split;
    whole = p.whole;
    ran = rw (ran) p.ran;
    noted = p.noted ∙ append_assoc names (name ∷ []) p.done;
  }

  apply_all-Progress :
      (ms : Migrations T) (applied names : List Str) (db : Database T)
      → Progress ms
          (pending_of applied names)
          db.tables
          (recorded db)
          (apply_all ms applied names db)
  unfolding apply_all select ◌>>=◌
  apply_all-Progress ms applied [] db =
      Progress-none ms [] db.tables (recorded db) _ (λ _. refl) refl refl
  apply_all-Progress ms applied (name ∷ names) db = elim (Bool-cases (is_pending applied name)) [
    | inl due ↦ rw (due) (
        next (apply_all-Progress ms applied names) (apply_migration ms name db)
          (apply_migration-Applied ms name db))
    | inr past ↦ rw (past) (apply_all-Progress ms applied names db)
  ]
    where
      next :
          ((db' : Database T)
            → Progress ms
                (pending_of applied names)
                db'.tables
                (recorded db')
                (apply_all ms applied names db'))
          → (x : Result MigrateError (Unit {0}) × Database T)
          → Applied ms name db.tables (recorded db) x
          → Progress ms
              (name ∷ pending_of applied names)
              db.tables
              (recorded db)
              (go_on x (λ _. apply_all ms applied names))
      next rest (err e, db') (undone t n) =
          Progress-none ms _ db.tables (recorded db) _ (λ q. cc) t n
      next rest (ok u, db') (applied_now ran noted) =
          Progress-more ms name _ db.tables db'.tables (recorded db) _ ran (rw (← noted) (rest db'))

  read_names :
      (new new' : Database T) (names applied : List Str)
      → new.applied ≡ some names
      → names_applied (asked new) ≡ some (applied, new')
      → (applied ≡ names) × (asked new ≡ new')
  read_names new new' names applied n h = of_names new.applied n h
    where
      of_names :
          (o : Option (List Str))
          → o ≡ some names
          → ◌≡◌ {A = Option (List Str × Database T)}
              (elim o [ none ↦ none | some ns ↦ some (ns, asked new) ])
              (some (applied, new'))
          → (applied ≡ names) × (asked new ≡ new')
      of_names none n h = cc
      of_names (some ns) n h = (cc, cc)

  Progress-same :
      (ms : Migrations T) (pending : List Str) {tables tables' : List (Str × T)}
      {names names' : List Str} (x : Result MigrateError (Unit {0}) × Database T)
      → tables ≡ tables'
      → names ≡ names'
      → Progress ms pending tables names x
      → Progress ms pending tables' names' x
  Progress-same ms pending x t n p = record {
    done = p.done;
    left = p.left;
    split = p.split;
    whole = p.whole;
    ran = rw (← t) p.ran;
    noted = rw (← n) p.noted;
  }

  -- However Migrate ends, what it added to the recorded migrations is a first part of those that are
  -- embedded and were not recorded, in the order of their names, and all of them if it returns; and the
  -- tables are what these scripts, run one after the other, made of the tables before.
  pub migrate-Progress :
      (ms : Migrations T) (names : List Str) (db : Database T)
      → migration_names ms ≡ some names
      → Progress ms (pending_of (recorded db) names) db.tables (recorded db) (migrate ms db)
  unfolding migrate ◌>>=◌ given
  migrate-Progress ms names db listed = elim (step-cases not_created (free with_migrations) db) [
    | inl failed ↦ rw (failed) (Progress-none ms _ db.tables (recorded db) _ (λ q. cc) refl refl)
    | inr (a, (db', (created, first))) ↦
        let did : with_migrations db ≡ some (a, db') = free-some with_migrations db db' created in
        let it : record db { applied = some (recorded db) } ≡ db' = cc in
        rw (first, ← it, listed) (from_names (record db { applied = some (recorded db) }) refl refl)
  ]
    where
      from_names :
          (new : Database T)
          → new.tables ≡ db.tables
          → new.applied ≡ some (recorded db)
          → Progress ms (pending_of (recorded db) names) db.tables (recorded db) (
              go_on
                (step not_read (free names_applied) (asked new))
                (λ applied. apply_all ms applied names))
      from_names new t n = elim (step-cases not_read (free names_applied) (asked new)) [
        | inl failed ↦
            rw (failed) (Progress-none ms _ db.tables (recorded db) _ (λ q. cc) t (rw (n) refl))
        | inr (applied, (new', (read, second))) ↦
            let (these, same) =
              read_names new new' (recorded db) applied n
                (free-some names_applied (asked new) new' read) in
            rw (second, these, ← same)
              (Progress-same ms _ _ t (rw (n) refl)
                (apply_all-Progress ms (recorded db) names (asked (asked new))))
      ]
