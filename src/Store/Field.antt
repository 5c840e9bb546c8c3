-- ===== src/Store/Field.antt =====
-- internal/store/field.go: the field catalogue.
use emarsys_mock.Base.{
  ℕ, ◌+◌, Bool, true, false, not, ◌&&◌, ◌||◌, Option, none, some, List, [], ◌∷◌, ◌++◌, map, reverse,
  Str, lit, is_empty, str_eq, ℤ, pos, negsuc, int_eq, int_lt, itoa, if◌then◌else◌, any, select,
  find_first, leb, ◌==◌, is_upper,
}
use emarsys_mock.Store.Tables.{Tables, FieldDef, Choice, ContactValue}
use emarsys_mock.Store.Exec.{
  Err, no_field, system_field, Exec, ◌>>=◌, ◌>>◌, pure, raise, query, exec,
}

abbrev pub key_field_internal_id : ℤ
key_field_internal_id = negsuc 0

abbrev pub key_field_uid : ℤ
key_field_uid = negsuc 1

-- A snapshot of the definitions. The maps byID and choices are the lists of their entries.
pub record FieldCatalog : Type 0 where
  pub by_id : List FieldDef
  pub choices : List Choice

insert_field : FieldDef → List FieldDef → List FieldDef
insert_field a [] = a ∷ []
insert_field a (b ∷ bs) =
    let rest = insert_field a bs in if int_lt b.id a.id then b ∷ rest else a ∷ b ∷ bs

sort_fields : List FieldDef → List FieldDef
sort_fields [] = []
sort_fields (a ∷ rest) = insert_field a (sort_fields rest)

-- SELECT ... FROM fields ORDER BY id
unfoldable pub fields_by_id : Tables → List FieldDef
unfolding sort_fields insert_field
fields_by_id t = sort_fields t.fields.rows

-- ORDER BY field_id, sort_id, choice_id
abbrev choice_before : Choice → Choice → Bool
choice_before a b =
    int_lt a.field_id b.field_id
    || (int_eq a.field_id b.field_id
        && (int_lt a.sort b.sort || (int_eq a.sort b.sort && int_lt a.id b.id)))

insert_choice : Choice → List Choice → List Choice
insert_choice a [] = a ∷ []
insert_choice a (b ∷ bs) =
    let rest = insert_choice a bs in if choice_before b a then b ∷ rest else a ∷ b ∷ bs

sort_choices : List Choice → List Choice
sort_choices [] = []
sort_choices (a ∷ rest) = insert_choice a (sort_choices rest)

unfoldable pub choices_in_order : Tables → List Choice
unfolding sort_choices insert_choice
choices_in_order t = sort_choices t.fields.choices

unfoldable pub load_field_catalog : Exec Err FieldCatalog
load_field_catalog = do
  fields ← query fields_by_id
  choices ← query choices_in_order
  pure (record { by_id = fields; choices = choices })

-- FieldCatalog.Get
unfoldable pub get : FieldCatalog → ℤ → Option FieldDef
get catalog id = find_first (λ f. int_eq f.id id) catalog.by_id

abbrev is_found : Option FieldDef → Bool
is_found none = false
is_found (some f) = true

-- FieldCatalog.Has
unfoldable pub has : FieldCatalog → ℤ → Bool
has catalog id =
    if int_eq id key_field_internal_id || int_eq id key_field_uid
    then true
    else is_found (get catalog id)

-- FieldCatalog.All: the rows come in id order already.
unfoldable pub all_fields : FieldCatalog → List FieldDef
all_fields catalog = catalog.by_id

-- FieldCatalog.Choices
unfoldable pub choices : FieldCatalog → ℤ → List Choice
choices catalog field = select (λ c. int_eq c.field_id field) catalog.choices

-- FieldCatalog.HasChoice
unfoldable pub has_choice : FieldCatalog → ℤ → Str → Bool
unfolding choices
has_choice catalog field value = any (λ c. str_eq (itoa c.id) value) (choices catalog field)

-- One round of the loop of slugify: what is written so far, backwards, and lastUnderscore.
pub record Slug : Type 0 where
  pub out : Str
  pub last_underscore : Bool

abbrev is_lower_or_digit : ℕ → Bool
is_lower_or_digit c = (leb 97 c && leb c 122) || (leb 48 c && leb c 57)

unfoldable pub slug_step : Slug → ℕ → Slug
slug_step s c =
    if is_lower_or_digit c
    then record { out = c ∷ s.out; last_underscore = false }
    else if is_upper c
    then record { out = (c + 32) ∷ s.out; last_underscore = false }
    else if not s.last_underscore && not (is_empty s.out)
    then record { out = 95 ∷ s.out; last_underscore = true }
    else s

unfoldable pub slug_from : Slug → Str → Slug
slug_from s [] = s
slug_from s (c ∷ rest) = slug_from (slug_step s c) rest

-- The loop that takes underscores off the end: here the front, the text being backwards.
unfoldable pub drop_underscores : Str → Str
drop_underscores [] = []
drop_underscores (c ∷ s) = let rest = drop_underscores s in if c == 95 then rest else c ∷ s

abbrev or_field : Str → Str
or_field [] = lit "field"
or_field (c ∷ s) = c ∷ s

unfoldable pub slugify : Str → Str
unfolding slug_from slug_step drop_underscores
slugify name =
    or_field (
      reverse
        (drop_underscores (slug_from (record { out = []; last_underscore = false }) name).out))

abbrev max_id : ℤ → List FieldDef → ℤ
max_id best [] = best
max_id best (f ∷ fs) = max_id (if int_lt best f.id then f.id else best) fs

abbrev next_after : ℤ → ℤ
next_after (pos n) = pos (n + 1)
next_after (negsuc ℕ.zero) = pos 0
next_after (negsuc (ℕ.suc n)) = negsuc n

-- SELECT COALESCE(MAX(id), 0) + 1 FROM fields
unfoldable pub next_field_id : Tables → ℤ
next_field_id t = elim t.fields.rows [ [] ↦ pos 1 | f ∷ fs ↦ next_after (max_id f.id fs) ]

abbrev add_field : FieldDef → Tables → Tables
add_field f t = record t { fields = record t.fields { rows = t.fields.rows ++ f ∷ [] } }

-- INSERT INTO fields: id and string_id are unique.
unfoldable pub insert_field_row : FieldDef → Tables → Option (Unit {0} × Tables)
insert_field_row f t =
    if any (λ g. int_eq g.id f.id || str_eq g.string_id f.string_id) t.fields.rows
    then none
    else some (tt, add_field f t)

abbrev or_slug : Str → Str → Str
or_slug name [] = slugify name
or_slug name (c ∷ s) = c ∷ s

unfoldable pub create_field : Str → Str → Str → Bool → Exec Err ℤ
create_field name application_type string_id indexed = do
  id ← query next_field_id
  exec (
      insert_field_row (record {
        id = id;
        string_id = or_slug name string_id;
        name = name;
        application_type = application_type;
        is_system = false;
        is_indexed = indexed;
      }))
  pure id

-- SELECT is_system FROM fields WHERE id = ?
unfoldable pub field_row : ℤ → Tables → Option FieldDef
field_row id t = find_first (λ f. int_eq f.id id) t.fields.rows

-- DELETE FROM fields WHERE id = ?: the choices and the stored values go, the history stays.
unfoldable pub delete_field_row : ℤ → Tables → Option (Unit {0} × Tables)
delete_field_row id t = some (
  tt,
  record t {
    fields = record {
      rows = select (λ f. not (int_eq f.id id)) t.fields.rows;
      choices = select (λ c. not (int_eq c.field_id id)) t.fields.choices;
    };
    contacts = record t.contacts {
      values = select (λ (v : ContactValue). not (int_eq v.field_id id)) t.contacts.values;
    };
  },
)

unfoldable pub delete_field : ℤ → Exec Err (Unit {0})
delete_field id = do
  found ← query (field_row id)
  elim found [
    | none ↦ raise no_field
    | some f ↦ if f.is_system then raise system_field else exec (delete_field_row id)
  ]

abbrev set_indexed : ℤ → Bool → FieldDef → FieldDef
set_indexed id indexed f = if int_eq f.id id then record f { is_indexed = indexed } else f

-- UPDATE fields SET is_indexed = ? WHERE id = ?: whether a row was there
unfoldable pub update_indexed : ℤ → Bool → Tables → Option (Bool × Tables)
update_indexed id indexed t = some (
  any (λ f. int_eq f.id id) t.fields.rows,
  record t { fields = record t.fields { rows = map (set_indexed id indexed) t.fields.rows } },
)

unfoldable pub set_field_indexed : ℤ → Bool → Exec Err (Unit {0})
set_field_indexed id indexed = do
  hit ← exec (update_indexed id indexed)
  if hit then pure tt else raise no_field

-- INSERT OR REPLACE INTO field_choices, whose field must exist
unfoldable pub replace_choice : Choice → Tables → Option (Unit {0} × Tables)
replace_choice c t =
    if any (λ (f : FieldDef). int_eq f.id c.field_id) t.fields.rows
    then some (
      tt,
      record t {
        fields = record t.fields {
          choices =
              select (λ d. not (int_eq d.field_id c.field_id && int_eq d.id c.id)) t.fields.choices
              ++ c ∷ [];
        };
      },
    )
    else none

unfoldable pub add_choice : ℤ → ℤ → Str → ℤ → Exec Err (Unit {0})
add_choice field choice label sort =
    exec (replace_choice (record { field_id = field; id = choice; label = label; sort = sort }))

abbrev with_defaults : FieldDef → FieldDef
with_defaults f = record f {
  string_id = or_slug f.name f.string_id;
  application_type = if is_empty f.application_type then lit "shorttext" else f.application_type;
}

abbrev overwritten : FieldDef → FieldDef → FieldDef
overwritten new f = if int_eq f.id new.id then record new { is_system = f.is_system } else f

-- INSERT INTO fields ... ON CONFLICT(id) DO UPDATE: is_system keeps its value on an update, and a
-- string_id that another field has is refused.
unfoldable pub upsert_field_row : FieldDef → Tables → Option (Unit {0} × Tables)
upsert_field_row f t =
    if any (λ g. str_eq g.string_id f.string_id && not (int_eq g.id f.id)) t.fields.rows
    then none
    else if any (λ g. int_eq g.id f.id) t.fields.rows
    then some
        (tt, record t { fields = record t.fields { rows = map (overwritten f) t.fields.rows } })
    else some (tt, add_field f t)

unfoldable pub upsert_field : FieldDef → Exec Err (Unit {0})
upsert_field f = exec (upsert_field_row (with_defaults f))
