-- ===== src/Server/Field.antt =====
-- internal/server/handler_field.go: fields over HTTP. handleFieldSubpath, which routes, is left out.
pub mod System
use emarsys_mock.Base.{
  ℕ, Bool, true, false, not, ◌||◌, Option, none, some, List, [], ◌∷◌, ◌++◌, map, Str, lit, is_empty,
  str_eq, trim_space, any, split_on, select, ℤ, pos, atoi, itoa, put, str_key, if◌then◌else◌,
}
use emarsys_mock.Api.{Failure, error, error_text, code_invalid_field_id, code_internal_error}
use emarsys_mock.Store.Tables.{FieldDef, Choice}
use emarsys_mock.Store.Exec.{
  Err, no_field, system_field, Result, ok, err, Exec, ◌>>=◌, ◌>>◌, pure, raise, lift, map_err,
}
use emarsys_mock.Store.Field.{
  FieldCatalog, load_field_catalog, all_fields, choices, has, create_field, delete_field,
}
use emarsys_mock.Server.Json.{Body, decode_json}
use emarsys_mock.Server.Common.{or_internal}

-- applicationTypes
abbrev pub application_types : List Str
application_types =
    lit "shorttext"
    ∷ lit "longtext"
    ∷ lit "largetext"
    ∷ lit "date"
    ∷ lit "url"
    ∷ lit "numeric"
    ∷ lit "interests"
    ∷ lit "singlechoice"
    ∷ lit "multichoice"
    ∷ []

pub record FieldJson : Type 0 where
  pub id : ℤ
  pub name : Str
  pub application_type : Str
  pub string_id : Str

pub record ChoiceJson : Type 0 where
  pub id : ℤ
  pub choice : Str
  pub bit_position : ℤ

abbrev field_json : FieldDef → FieldJson
field_json f = record {
  id = f.id;
  name = f.name;
  application_type = f.application_type;
  string_id = f.string_id;
}

-- GET /api/v2/field
unfoldable pub handle_field_list : Exec Failure (List FieldJson)
handle_field_list = do
  catalog ← or_internal load_field_catalog
  pure (map field_json (all_fields catalog))

pub record FieldBody : Type 0 where
  pub name : Str
  pub application_type : Str
  pub string_id : Str
  pub indexed : Bool

unfoldable pub check_field : FieldBody → Result Failure (Unit {0})
check_field b =
    if is_empty (trim_space b.name)
    then err (error_text code_invalid_field_id (lit "Field name must not be empty"))
    else if not (any (str_eq b.application_type) application_types)
    then err
        (error_text code_invalid_field_id (lit "Unknown application_type: " ++ b.application_type))
    else ok tt

-- POST /api/v2/field
unfoldable pub handle_field_create : Body FieldBody → Exec Failure ℤ
handle_field_create request = do
  body ← lift (decode_json request)
  lift (check_field body)
  or_internal (create_field body.name body.application_type body.string_id body.indexed)

abbrev invalid_id : Str → Failure
invalid_id text = error_text code_invalid_field_id (lit "Invalid field id: " ++ text)

-- pathInt of fieldId with the code of an invalid field
unfoldable pub path_field : Str → Result Failure ℤ
path_field raw = elim (atoi raw) [
  | none ↦ err (error_text code_invalid_field_id (lit "Invalid fieldId: " ++ raw))
  | some id ↦ ok id
]

abbrev pub undeleted : ℤ → Err → Failure
undeleted id no_field = invalid_id (itoa id)
undeleted id system_field =
    error_text code_invalid_field_id
      (lit "Field " ++ (itoa id ++ lit " is a system field and cannot be deleted"))
undeleted id _ = error code_internal_error

-- DELETE /api/v2/field/{fieldId}
unfoldable pub handle_field_delete : Str → Exec Failure (Unit {0})
handle_field_delete raw = do id ← lift (path_field raw); map_err (undeleted id) (delete_field id)

abbrev choice_json : Choice → ChoiceJson
choice_json c = record { id = c.id; choice = c.label; bit_position = c.id }

-- choicesJSON
unfoldable pub choices_json : FieldCatalog → ℤ → List ChoiceJson
choices_json catalog field = map choice_json (choices catalog field)

unfoldable pub known_field : FieldCatalog → Str → Result Failure ℤ
known_field catalog text = elim (atoi text) [
  | none ↦ err (invalid_id text)
  | some id ↦ if has catalog id then ok id else err (invalid_id text)
]

unfoldable pub path_choice : Str → Result Failure ℤ
path_choice raw = elim (atoi raw) [ none ↦ err (invalid_id raw) | some id ↦ ok id ]

-- fieldChoiceByID
unfoldable pub field_choice_by_id : Str → Exec Failure (List ChoiceJson)
field_choice_by_id raw = do
  id ← lift (path_choice raw)
  catalog ← or_internal load_field_catalog
  if not (has catalog id) then raise (invalid_id (itoa id)) else pure (choices_json catalog id)

abbrev with_id : Result Failure ℤ → Result Failure (List ℤ) → Result Failure (List ℤ)
with_id (err e) rest = err e
with_id (ok id) (err e) = err e
with_id (ok id) (ok ids) = ok (id ∷ ids)

unfoldable pub known_fields : FieldCatalog → List Str → Result Failure (List ℤ)
known_fields catalog [] = ok []
known_fields catalog (part ∷ parts) =
    let rest = known_fields catalog parts in with_id (known_field catalog (trim_space part)) rest

abbrev has_choices : FieldCatalog → FieldDef → Bool
has_choices catalog f = elim (choices catalog f.id) [ [] ↦ false | c ∷ cs ↦ true ]

-- The fields that the query names, or all that have choices.
unfoldable pub asked_fields : FieldCatalog → Str → Result Failure (List ℤ)
asked_fields catalog raw =
    if is_empty (trim_space raw)
    then ok (map (λ (f : FieldDef). f.id) (select (has_choices catalog) (all_fields catalog)))
    else known_fields catalog (split_on b',' raw)

abbrev choices_by_field :
    FieldCatalog → List ℤ → List (Str × List ChoiceJson) → List (Str × List ChoiceJson)
choices_by_field catalog [] out = out
choices_by_field catalog (id ∷ ids) out =
    choices_by_field catalog ids (put (itoa id) (choices_json catalog id) out)

-- GET /api/v2/field/choices
unfoldable pub handle_field_choices : Str → Exec Failure (List (Str × List ChoiceJson))
handle_field_choices raw = do
  catalog ← or_internal load_field_catalog
  ids ← lift (asked_fields catalog raw)
  pure (choices_by_field catalog ids [])
