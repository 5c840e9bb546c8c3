-- ===== src/Server/Field/System.antt =====
-- The fields of the system stay.
use emarsys_mock.Base.{
  ◌≡◌, refl, sym, ◌∙◌, inl, inr, Bool-cases, arith, ◌+◌, true, false, not, Option, none, some, List,
  [], ◌∷◌, Str, ℤ, int_eq, int_eq_iff, find_first, select, if◌then◌else◌,
}
use emarsys_mock.Api.{Failure}
use emarsys_mock.Store.Tables.{Tables, FieldDef}
use emarsys_mock.Store.Exec.{
  Err, Exec, World, Result, ok, err, query, exec, map_err, lift, raise, ◌>>=◌,
}
use emarsys_mock.Store.Field.{field_row, delete_field_row, delete_field}
use emarsys_mock.Server.Field.{handle_field_delete, path_field, undeleted}

true-ne-false : true ≡ false → ⊥
true-ne-false e = cc

row-select :
    (f : FieldDef) (id : ℤ) (rows : List FieldDef)
    → int_eq f.id id ≡ false
    → find_first (λ g. int_eq g.id f.id) rows ≡ some f
    → find_first (λ g. int_eq g.id f.id) (select (λ g. not (int_eq g.id id)) rows) ≡ some f
unfolding find_first select
row-select f id [] other h = h
row-select f id (g ∷ rows) other h = elim (Bool-cases (int_eq g.id f.id)) [
  | inl e ↦
      let same : g.id ≡ f.id = (int_eq_iff g.id f.id).0 e in
      let kept : int_eq g.id id ≡ false = rw (same) other in
      let found : ◌≡◌ {A = Option FieldDef} (some g) (some f) = rw (e) at h in
      ground (arith, kept, e, found)
  | inr e ↦ let rest = row-select f id rows other (rw (e) at h) in ground (arith, e, rest)
]

delete_field_row-keeps :
    (f : FieldDef) (id : ℤ) (t t' : Tables) {a : Unit {0}}
    → int_eq f.id id ≡ false
    → field_row f.id t ≡ some f
    → delete_field_row id t ≡ some (a, t')
    → field_row f.id t' ≡ some f
unfolding field_row delete_field_row
delete_field_row-keeps f id t t' other h done =
    let rows : t'.fields.rows ≡ select (λ g. not (int_eq g.id id)) t.fields.rows = ground arith in
    rw (rows) (row-select f id t.fields.rows other h)

exec-keeps :
    (f : FieldDef) (id : ℤ) (w : World)
    → int_eq f.id id ≡ false
    → field_row f.id w.tables ≡ some f
    → field_row f.id (exec (delete_field_row id) w).1.tables ≡ some f
unfolding exec delete_field_row
exec-keeps f id w other h = elim (Bool-cases (w.driver.fails w.calls)) [
  | inl e ↦ rw (e) h
  | inr e ↦ rw (e) (delete_field_row-keeps f id w.tables _ other h refl)
]

-- What is done with the row that was found.
abbrev rest_of : ℤ → Option FieldDef → Exec Err (Unit {0})
rest_of id found = elim found [
  | none ↦ raise Err.no_field
  | some f ↦ if f.is_system then raise Err.system_field else exec (delete_field_row id)
]

rest-keeps :
    (f : FieldDef) (id : ℤ) (w : World) (found : Option FieldDef)
    → f.is_system ≡ true
    → field_row f.id w.tables ≡ some f
    → field_row id w.tables ≡ found
    → field_row f.id (rest_of id found w).1.tables ≡ some f
unfolding raise
rest-keeps f id w none system h found = h
rest-keeps f id w (some g) system h found = elim (Bool-cases g.is_system) [
  | inl e ↦ rw (e) h
  | inr e ↦ elim (Bool-cases (int_eq f.id id)) [
    | inl s ↦
        let same : f.id ≡ id = (int_eq_iff f.id id).0 s in
        let here : field_row id w.tables ≡ some f = rw (← same) h in
        let both : ◌≡◌ {A = Option FieldDef} (some f) (some g) = sym here ∙ found in
        let twin : f ≡ g = cc in
        let not_system : f.is_system ≡ false = rw (twin) e in
        absurd (true-ne-false (sym system ∙ not_system))
    | inr s ↦ rw (e) (exec-keeps f id w s h)
  ]
]

delete_field-keeps :
    (f : FieldDef) (id : ℤ) (w : World)
    → f.is_system ≡ true
    → field_row f.id w.tables ≡ some f
    → field_row f.id (delete_field id w).1.tables ≡ some f
unfolding delete_field query ◌>>=◌
delete_field-keeps f id w system h = elim (Bool-cases (w.driver.fails w.calls)) [
  | inl e ↦ rw (e) h
  | inr e ↦
      rw (e)
        (rest-keeps f id (record w { calls = w.calls + 1 }) (field_row id w.tables) system h refl)
]

-- However the deletion of a field ends, whichever field it names, every field of the system is found
-- as it was.
pub handle_field_delete-keeps :
    (f : FieldDef) (raw : Str) (w : World)
    → f.is_system ≡ true
    → field_row f.id w.tables ≡ some f
    → field_row f.id (handle_field_delete raw w).1.tables ≡ some f
unfolding handle_field_delete lift map_err ◌>>=◌
handle_field_delete-keeps f raw w system h = go (path_field raw)
  where
    go :
        (id : Result Failure ℤ)
        → field_row f.id ((lift id >>= λ i. map_err (undeleted i) (delete_field i)) w).1.tables
          ≡ some f
    go (ok id) = delete_field-keeps f id w system h
    go (err e) = h
