-- ===== src/Store/Migrate/Dropped.antt =====
-- What dropping everything leaves.
use emarsys_mock.Base.{
  ◌≡◌, ◌⊎◌, refl, sym, ap, ◌∙◌, inl, inr, Bool-cases, arith, ℕ, Bool, true, false, not, ◌||◌,
  Option, none, some, List, [], ◌∷◌, ◌++◌, map, any, any-append, select, Str, lit, str_eq,
  str_eq_iff, All, if◌then◌else◌,
}
use emarsys_mock.Store.Exec.{Result, ok}
use emarsys_mock.Store.Migrate.{
  MigrateError, no_connection, keys_not_disabled, no_tables, not_dropped, Database, Migrations,
  asked, step, free, ◌>>=◌,
}
use emarsys_mock.Store.Migrate.Drop.{
  is_internal, the_migrations, user_tables, left_with, without, drop_each, keys, then_keys,
  drop_tables, with_taken, given_back, without_keys, drop_all,
}
use emarsys_mock.Store.Migrate.Names.{
  select-ext, select-true, select-select, applied_after, internal-any, user-any, in_either,
  migrations-any, gone,
}

module _ {T : Type 0} where
  abbrev left_by : List Str → Str × T → Bool
  left_by names x = not (any (str_eq x.0) names)

  abbrev name_of : Str × T → Str
  name_of x = x.0

  abbrev pub user_of : List (Str × T) → List (Str × T)
  user_of tables = select (λ x. not (is_internal x.0)) tables

  -- What SQLite documents of DROP TABLE IF EXISTS with foreign keys unchecked: it succeeds, and of the
  -- tables that are not its own exactly the one that is named is gone.
  pub record Drops (ms : Migrations T) : Type 0 where
    pub drops :
        (name : Str) (tables : List (Str × T))
        → (left : List (Str × T)) × ((ms.drop_table false name tables ≡ some left)
            × (user_of left ≡ select (λ x. not (str_eq x.0 name)) (user_of tables)))

  abbrev pub Sound : Database T → Type 0
  Sound db = (n : ℕ) → db.fails n ≡ false

  -- It has returned with foreign keys unchecked, these tables of the user left, and these names.
  pub record Left (users : List (Str × T)) (applied : Option (List Str))
      (x : Result MigrateError (Unit {0}) × Database T) : Type 0 where
    pub returned : x.0 ≡ ok tt
    pub sound : Sound x.1
    pub unchecked : x.1.foreign_keys ≡ false
    pub users_left : user_of x.1.tables ≡ users
    pub names_left : x.1.applied ≡ applied

  pub step-returns :
      {A : Type 0} (e : MigrateError) (f : Database T → Option (A × Database T))
      (db db' : Database T) (a : A)
      → Sound db
      → f db ≡ some (a, db')
      → step e f db ≡ (ok a, asked db')
  unfolding step
  step-returns e f db db' a sound did = rw (sound, did) refl

  -- Of the tables, those of SQLite itself are not named.
  left_by-internal :
      (applied : Option (List Str)) (names : List Str) (xs : List (Str × T))
      → ((n : Str) → any (str_eq n) (map name_of xs) ≡ true → any (str_eq n) names ≡ true)
      → All
          (λ x.
            left_by (the_migrations applied ++ select (λ n. not (is_internal n)) names) x
            ≡ is_internal x.0)
          xs
  unfolding any
  left_by-internal applied names [] h = tt
  left_by-internal applied names (x ∷ xs) h = (
    here (Bool-cases (is_internal x.0)),
    left_by-internal applied names xs (λ n k. h n (later n k)),
  )
    where
      later :
          (n : Str)
          → any (str_eq n) (map name_of xs) ≡ true
          → (str_eq n x.0 || any (str_eq n) (map name_of xs)) ≡ true
      later n k = ground arith

      first : (str_eq x.0 x.0 || any (str_eq x.0) (map name_of xs)) ≡ true
      first = ground (arith, str_eq_iff x.0 x.0)

      here :
          (is_internal x.0 ≡ true) ⊎ (is_internal x.0 ≡ false)
          → left_by (the_migrations applied ++ select (λ n. not (is_internal n)) names) x
            ≡ is_internal x.0
      here (inl i) = rw (any-append, migrations-any applied x.0 i, internal-any x.0 names i, i) refl
      here (inr u) = rw (any-append, user-any x.0 names u (h x.0 first), u) (ground arith)

  -- No other table is left.
  covered :
      (names : List Str) (xs : List (Str × T))
      → All (λ x. left_by names x ≡ is_internal x.0) xs
      → select (left_by names) (user_of xs) ≡ []
  unfolding select
  covered names [] h = refl
  covered names (x ∷ xs) (e, h) = elim (Bool-cases (is_internal x.0)) [
    | inl i ↦ rw (i) (covered names xs h)
    | inr u ↦
        let gone_too : left_by names x ≡ false = e ∙ u in rw (u, gone_too) (covered names xs h)
  ]

  drop_one :
      (ms : Migrations T) (name : Str) (db : Database T) (left : List (Str × T))
      → ms.drop_table false name db.tables ≡ some left
      → db.foreign_keys ≡ false
      → without ms name db
        ≡ some (
          tt,
          record db {
            tables = left;
            applied = if str_eq name (lit "schema_migrations") then none else db.applied;
          },
        )
  drop_one ms name db left dropped unchecked =
      ap (left_with name db)
        (ap (λ (on : Bool). ms.drop_table on name db.tables) unchecked ∙ dropped)

  drop_each-Left :
      (ms : Migrations T) (names : List Str) (db : Database T)
      → Drops ms
      → Sound db
      → db.foreign_keys ≡ false
      → Left
          (select (left_by names) (user_of db.tables))
          (applied_after names db.applied)
          (drop_each ms names db)
  unfolding drop_each any ◌>>=◌
  drop_each-Left ms [] db d sound unchecked = record {
    returned = refl;
    sound = sound;
    unchecked = unchecked;
    users_left = sym (select-true _);
    names_left = refl;
  }
  drop_each-Left ms (name ∷ names) db d sound unchecked =
      let (left, (dropped, users)) = d.drops name db.tables in
      let after = record db {
        tables = left;
        applied = if str_eq name (lit "schema_migrations") then none else db.applied;
      } in
      let rest = drop_each-Left ms names (asked after) d sound unchecked in
      rw
        (step-returns (not_dropped name) (without ms name) db after tt sound
          (drop_one ms name db left dropped unchecked))
        (record {
          returned = rest.returned;
          sound = rest.sound;
          unchecked = rest.unchecked;
          users_left =
              rest.users_left
              ∙ ap (select (left_by names)) users
              ∙ select-select _ _ (user_of db.tables)
              ∙ select-ext _ _ (user_of db.tables) (λ x. ground arith);
          names_left = rest.names_left ∙ in_either name names db.applied;
        })

  Left-same :
      {users users' : List (Str × T)} {applied applied' : Option (List Str)}
      (x : Result MigrateError (Unit {0}) × Database T)
      → users ≡ users'
      → applied ≡ applied'
      → Left users applied x
      → Left users' applied' x
  Left-same x u a l = record {
    returned = l.returned;
    sound = l.sound;
    unchecked = l.unchecked;
    users_left = l.users_left ∙ u;
    names_left = l.names_left ∙ a;
  }

  drop_tables-Left :
      (ms : Migrations T) (db : Database T)
      → Drops ms
      → Sound db
      → db.foreign_keys ≡ false
      → Left [] none (drop_tables ms db)
  unfolding drop_tables ◌>>=◌
  drop_tables-Left ms db d sound unchecked =
      rw (step-returns no_tables user_tables db db _ sound refl) (
        Left-same _
          (covered _ db.tables
            (left_by-internal db.applied (map name_of db.tables) db.tables (λ n k. k)))
          (gone db.applied _) (drop_each-Left ms _ (asked db) d sound unchecked))

  -- Everything has been dropped: nothing is recorded, the connection is free and foreign keys are checked.
  pub record Emptied (x : Result MigrateError (Unit {0}) × Database T) : Type 0 where
    pub returned : x.0 ≡ ok tt
    pub sound : Sound x.1
    pub checked : x.1.foreign_keys ≡ true
    pub free : x.1.taken ≡ false
    pub users_left : user_of x.1.tables ≡ []
    pub names_left : x.1.applied ≡ none

  then_keys-Emptied :
      (x : Result MigrateError (Unit {0}) × Database T)
      → Left [] none x
      → Emptied (given_back (then_keys x))
  then_keys-Emptied (r, db) l =
      rw (step-returns keys_not_disabled (keys true) db _ tt l.sound refl) (record {
        returned = l.returned;
        sound = l.sound;
        checked = refl;
        free = refl;
        users_left = l.users_left;
        names_left = l.names_left;
      })

  pub free-returns :
      {A : Type 0} (f : Database T → Option (A × Database T)) (db : Database T)
      → db.taken ≡ false
      → free f db ≡ f db
  unfolding free
  free-returns {A = A} f db h = ap (λ (taken : Bool). if taken then none else f db) h

  pub drop_all-Emptied :
      (ms : Migrations T) (db : Database T)
      → Drops ms
      → Sound db
      → db.taken ≡ false
      → Emptied (drop_all ms db)
  unfolding drop_all without_keys ◌>>=◌
  drop_all-Emptied ms db d sound idle =
      let held = record db { taken = true } in
      let off = record (asked held) { foreign_keys = false } in
      rw
        (
          step-returns no_connection (free (with_taken true)) db held tt sound
              (free-returns (with_taken true) db idle),
          step-returns keys_not_disabled (keys false) (asked held) off tt sound refl,
        )
        (then_keys-Emptied (drop_tables ms (asked off))
          (drop_tables-Left ms (asked off) d sound refl))
