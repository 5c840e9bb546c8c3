-- ===== src/Server/List/Rows.antt =====
-- internal/server/handler_list.go: the contacts of a list with their fields.
use emarsys_mock.Base.{
  ℕ, Option, none, some, List, [], ◌∷◌, Str, str_key, put, is_empty, trim_space, split_on, ℤ,
  itoa_ℕ, if◌then◌else◌,
}
use emarsys_mock.Api.{Failure, error, code_no_field_to_return}
use emarsys_mock.Store.Exec.{Result, ok, err, Exec, ◌>>=◌, pure, lift}
use emarsys_mock.Store.Field.{FieldCatalog, load_field_catalog}
use emarsys_mock.Store.Contact.{ContactRow, load_contacts, loaded_row}
use emarsys_mock.Store.List.{list_members}
use emarsys_mock.Server.Common.{or_internal}
use emarsys_mock.Server.ContactRead.{Row, contact_row_json}
use emarsys_mock.Server.Field.{known_fields}
use emarsys_mock.Server.List.{lookup_list, paging}

abbrev some_field : List ℤ → Result Failure (List ℤ)
some_field [] = err (error code_no_field_to_return)
some_field (f ∷ fs) = ok (f ∷ fs)

abbrev checked_fields : Result Failure (List ℤ) → Result Failure (List ℤ)
checked_fields (err e) = err e
checked_fields (ok fs) = some_field fs

-- The fields of the query parameter.
unfoldable pub shown_fields : FieldCatalog → Str → Result Failure (List ℤ)
shown_fields catalog raw =
    if is_empty (trim_space raw)
    then err (error code_no_field_to_return)
    else checked_fields (known_fields catalog (split_on b',' (trim_space raw)))

abbrev with_row : List ℤ → ℕ → Option ContactRow → List (Str × Row) → List (Str × Row)
with_row fields id none out = out
with_row fields id (some c) out = put (itoa_ℕ id) (contact_row_json c fields) out

unfoldable pub rows_by_id : List ℤ → List ContactRow → List ℕ → List (Str × Row) → List (Str × Row)
rows_by_id fields contacts [] out = out
rows_by_id fields contacts (id ∷ ids) out =
    rows_by_id fields contacts ids (with_row fields id (loaded_row id contacts) out)

-- GET /api/v2/contactlist/{listId}/contacts/data
unfoldable pub handle_contact_list_data : Str → Str → Str → Str → Exec Failure (List (Str × Row))
handle_contact_list_data raw raw_fields raw_limit raw_offset = do
  list ← lookup_list raw
  catalog ← or_internal load_field_catalog
  fields ← lift (shown_fields catalog raw_fields)
  ids ←
      or_internal
        (list_members list (paging raw_limit raw_offset).0 (paging raw_limit raw_offset).1)
  contacts ← or_internal (load_contacts ids fields)
  pure (rows_by_id fields contacts ids [])
