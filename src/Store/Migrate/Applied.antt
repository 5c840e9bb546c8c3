-- ===== src/Store/Migrate/Applied.antt =====
-- One migration: it is run and recorded, or neither.
use emarsys_mock.Base.{
  ◌≡◌, ◌⊎◌, refl, sym, ap, ◌∙◌, inl, inr, Bool-cases, Bool, true, false, Option, none, some, List,
  [], ◌∷◌, ◌++◌, any, Str, str_eq, if◌then◌else◌,
}
use emarsys_mock.Store.Exec.{Result, ok, err}
use emarsys_mock.Store.Migrate.{
  MigrateError, no_file, not_begun, not_applied, not_recorded, Database, Migrations, asked, stepped,
  step, given, go_on, ◌>>=◌, recorded, settle, scripted, named, with_name, same, free, run_script,
  in_tx, apply_migration,
}

module _ {T : Type 0} where
  -- The scripts of the named migrations, one after the other
  unfoldable pub script : Migrations T → Str → List (Str × T) → Option (List (Str × T))
  script ms name tables = elim (ms.read_file name) [ none ↦ none | some body ↦ ms.run body tables ]

  -- A statement fails and changes nothing, or has its effect.
  module _ {A : Type 0} (e : MigrateError) (f : Database T → Option (A × Database T))
      (db : Database T) where
    pub step-cases :
        (step e f db ≡ (err e, asked db))
        ⊎ ((a : A) × ((db' : Database T) × ((f db ≡ some (a, db'))
                × (step e f db ≡ (ok a, asked db')))))
    unfolding step
    step-cases = elim (Bool-cases (db.fails db.calls)) [
      | inl fails ↦ inl (rw (fails) refl)
      | inr works ↦ rw (works) (effect (f db) refl)
    ]
      where
        effect :
            (o : Option (A × Database T))
            → f db ≡ o
            → (stepped e db o ≡ (err e, asked db))
              ⊎ ((a : A) × ((db' : Database T) × ((o ≡ some (a, db'))
                      × (stepped e db o ≡ (ok a, asked db')))))
        effect none h = inl refl
        effect (some (a, db')) h = inr (a, (db', (refl, refl)))

  pub free-some :
      {A : Type 0} (f : Database T → Option (A × Database T)) (db db' : Database T) {a : A}
      → free f db ≡ some (a, db')
      → f db ≡ some (a, db')
  unfolding free
  free-some {A = A} f db db' h = works db.taken (f db) h
    where
      works :
          (taken : Bool) (o : Option (A × Database T)) {a : A}
          → (if taken then none else o) ≡ some (a, db')
          → o ≡ some (a, db')
      works true o h = cc
      works false o h = h

  -- A migration changes neither tables nor names, and fails, or it runs its script and records its name.
  pub data Applied (ms : Migrations T) (name : Str) (tables : List (Str × T)) (names : List Str)
      : Result MigrateError (Unit {0}) × Database T → Type 0 where
    undone :
        {e : MigrateError} {db : Database T}
        → db.tables ≡ tables
        → recorded db ≡ names
        → Applied ms name tables names (err e, db)
    applied_now :
        {db : Database T}
        → script ms name tables ≡ some db.tables
        → recorded db ≡ names ++ name ∷ []
        → Applied ms name tables names (ok tt, db)

  settle-err :
      (ms : Migrations T) (name : Str) (before db : Database T) (e : MigrateError)
      → Applied ms name before.tables (recorded before) (settle name before (err e, db))
  settle-err ms name before db e = undone refl refl

  settle-ok :
      (ms : Migrations T) (name : Str) (before db : Database T)
      → script ms name before.tables ≡ some db.tables
      → recorded db ≡ recorded before ++ name ∷ []
      → Applied ms name before.tables (recorded before) (settle name before (ok tt, db))
  settle-ok ms name before db ran noted = elim (Bool-cases (db.fails db.calls)) [
    | inl fails ↦ rw (fails) (undone refl refl)
    | inr works ↦ rw (works) (applied_now ran noted)
  ]

  scripted-some :
      (ms : Migrations T) (body : Str) (db db' : Database T) {a : Unit {0}}
      → scripted ms body db ≡ some (a, db')
      → (ms.run body db.tables ≡ some db'.tables) × (db'.applied ≡ db.applied)
  scripted-some ms body db db' h = of_result (ms.run body db.tables) refl h
    where
      of_result :
          (o : Option (List (Str × T))) {a : Unit {0}}
          → ms.run body db.tables ≡ o
          → ◌≡◌ {A = Option (Unit {0} × Database T)}
              (elim o [ none ↦ none | some tables ↦ some (tt, record db { tables = tables }) ])
              (some (a, db'))
          → (ms.run body db.tables ≡ some db'.tables) × (db'.applied ≡ db.applied)
      of_result none e h = cc
      of_result (some tables) e h =
          let it : record db { tables = tables } ≡ db' = cc in rw (← it) (e, refl)

  named-some :
      (name : Str) (db db' : Database T) {a : Unit {0}}
      → named name db ≡ some (a, db')
      → (db'.tables ≡ db.tables) × (recorded db' ≡ recorded db ++ name ∷ [])
  named-some name db db' h = of_names db.applied refl h
    where
      of_test :
          (names : List Str) (b : Bool) {a : Unit {0}}
          → recorded db ≡ names
          → ◌≡◌ {A = Option (Unit {0} × Database T)}
              (if b then none else some (tt, record db { applied = some (names ++ name ∷ []) }))
              (some (a, db'))
          → (db'.tables ≡ db.tables) × (recorded db' ≡ recorded db ++ name ∷ [])
      of_test names true e h = cc
      of_test names false e h =
          let it : record db { applied = some (names ++ name ∷ []) } ≡ db' = cc in
          rw (← it, e) (refl, refl)

      of_names :
          (o : Option (List Str)) {a : Unit {0}}
          → db.applied ≡ o
          → ◌≡◌ {A = Option (Unit {0} × Database T)}
              (elim o [ none ↦ none | some names ↦ with_name name names db ])
              (some (a, db'))
          → (db'.tables ≡ db.tables) × (recorded db' ≡ recorded db ++ name ∷ [])
      of_names none e h = cc
      of_names (some names) e h = of_test names (any (str_eq name) names) (rw (e) refl) h

  script-some :
      (ms : Migrations T) (name body : Str) (tables tables' : List (Str × T))
      → ms.read_file name ≡ some body
      → ms.run body tables ≡ some tables'
      → script ms name tables ≡ some tables'
  unfolding script
  script-some ms name body tables tables' file ran = rw (script, file) ran

  run_script-Applied :
      (ms : Migrations T) (name body : Str) (db : Database T)
      → ms.read_file name ≡ some body
      → Applied ms name db.tables (recorded db) (in_tx name (run_script ms name body) db)
  unfolding in_tx run_script ◌>>=◌
  run_script-Applied ms name body db file =
      elim (step-cases (not_applied name) (scripted ms body) db) [
        | inl failed ↦ rw (failed) (settle-err ms name db (asked db) _)
        | inr (a, (db', (ran, first))) ↦
            elim (step-cases (not_recorded name) (named name) (asked db')) [
              | inl failed ↦ rw (first, failed) (settle-err ms name db (asked (asked db')) _)
              | inr (b, (db'', (noted, second))) ↦
                  let (made, kept) = scripted-some ms body db db' ran in
                  let (left, added) = named-some name (asked db') db'' noted in
                  rw (first, second)
                    (settle-ok ms name db (asked db'')
                      (script-some ms name body db.tables (asked db'').tables file
                        (made ∙ ap some (sym left)))
                      (added ∙ ap (λ names. names ++ name ∷ []) (recorded-same db db' kept)))
            ]
      ]
    where
      recorded-same : (db db' : Database T) → db'.applied ≡ db.applied → recorded db' ≡ recorded db
      recorded-same db db' h = rw (h) refl

  pub apply_migration-Applied :
      (ms : Migrations T) (name : Str) (db : Database T)
      → Applied ms name db.tables (recorded db) (apply_migration ms name db)
  unfolding apply_migration ◌>>=◌ given
  apply_migration-Applied ms name db = of_file (ms.read_file name) refl
    where
      of_file :
          (o : Option Str)
          → ms.read_file name ≡ o
          → Applied ms name db.tables (recorded db) (
              go_on
                (given (no_file name) o db)
                (λ body. step not_begun (free same) >>= λ _. in_tx name (run_script ms name body)))
      of_file none e = undone refl refl
      of_file (some body) e = elim (step-cases not_begun (free same) db) [
        | inl failed ↦ rw (failed) (undone refl refl)
        | inr (a, (db', (begun, first))) ↦
            let did : same db ≡ some (a, db') = free-some same db db' begun in
            let it : db ≡ db' = cc in
            rw (first, ← it) (run_script-Applied ms name body (asked db) e)
      ]
