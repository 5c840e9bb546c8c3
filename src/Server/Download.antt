-- ===== src/Server/Download.antt =====
-- internal/server/handler_export.go: polling an export, its data, and the last change of a field.
use emarsys_mock.Base.{
  ℕ, ◌&&◌, Option, none, some, List, [], ◌∷◌, ◌++◌, Str, lit, str_key, put, ℤ, itoa, itoa_ℕ,
  if◌then◌else◌,
}
use emarsys_mock.Api.{Failure, error, error_text, code_internal_error, code_invalid_field_id}
use emarsys_mock.Store.Tables.{Export, ExportStatus, FieldChange}
use emarsys_mock.Store.Exec.{
  Err, no_export, export_not_ready, no_change, Result, ok, err, World, Exec, ◌>>=◌, ◌>>◌, pure,
  lift, map_err, fold_each,
}
use emarsys_mock.Store.Field.{FieldCatalog, load_field_catalog, has}
use emarsys_mock.Store.Contact.{find_contact_ids}
use emarsys_mock.Store.History.{last_change}
use emarsys_mock.Store.Export.{poll_export, export_payload}
use emarsys_mock.Server.Json.{Body, decode_json, FlexibleInt, FlexibleStrings}
use emarsys_mock.Server.Common.{Settings, or_internal, path_int64, local_time}
use emarsys_mock.Server.Contact.{resolve_key_field}
use emarsys_mock.Server.Csv.{slice_csv}

pub record StatusAnswer : Type 0 where
  pub id : Str
  pub created : Str
  pub status : ExportStatus
  pub type : Str
  pub file_name : Str

abbrev pub status_answer : Settings → Export → StatusAnswer
status_answer s e = record {
  id = itoa_ℕ e.id;
  created = local_time s e.created_at;
  status = e.status;
  type = e.type;
  file_name = e.file_name;
}

abbrev pub unpolled : ℤ → Err → Failure
unpolled id no_export = error_text code_internal_error (lit "Unknown export id: " ++ itoa id)
unpolled id _ = error code_internal_error

-- GET /api/v2/export/{exportId}
unfoldable pub handle_export_status : Settings → Str → Exec Failure StatusAnswer
handle_export_status s raw = do
  id ← lift (path_int64 (lit "exportId") raw)
  e ← map_err (unpolled id) (poll_export id)
  pure (status_answer s e)

abbrev pub unread : ℤ → Err → Failure
unread id no_export = error_text code_internal_error (lit "Unknown export id: " ++ itoa id)
unread id export_not_ready =
    error_text code_internal_error (lit "Export " ++ (itoa id ++ lit " is not finished yet"))
unread id _ = error code_internal_error

-- GET /api/v2/export/{exportId}/data, with the offset and the limit of the query
unfoldable pub handle_export_data : Str → Str → Str → Exec Failure Str
handle_export_data raw offset limit = do
  id ← lift (path_int64 (lit "exportId") raw)
  payload ← map_err (unread id) (export_payload id)
  pure (slice_csv payload offset limit)

pub record LastChangeBody : Type 0 where
  pub key_id : FlexibleInt
  pub key_values : FlexibleStrings
  pub field_id : FlexibleInt

pub record ChangeAnswer : Type 0 where
  pub old_value : Str
  pub current_value : Str
  pub time : Str

-- stringOrEmpty
abbrev pub string_or_empty : Option Str → Str
string_or_empty none = []
string_or_empty (some v) = v

abbrev pub change_answer : Settings → FieldChange → ChangeAnswer
change_answer s c = record {
  old_value = string_or_empty c.old_value;
  current_value = c.new_value;
  time = local_time s c.changed_at;
}

abbrev pub Changes : Type 0
Changes = List (Str × ChangeAnswer)

-- The error of no change is no error of the request.
unfoldable pub change_of : ℕ → ℤ → Exec Err (Option FieldChange)
change_of contact field w = go (last_change contact field w)
  where
    go : Result Err FieldChange × World → Result Err (Option FieldChange) × World
    go (ok c, w') = (ok (some c), w')
    go (err no_change, w') = (ok none, w')
    go (err e, w') = (err e, w')

abbrev pub with_change : Settings → Str → Changes → Option FieldChange → Changes
with_change s value result none = result
with_change s value result (some c) = put value (change_answer s c) result

unfoldable pub changed_one : Settings → ℤ → Changes → Str → List ℕ → Exec Err Changes
changed_one s field result value (id ∷ []) = do
  change ← change_of id field
  pure (with_change s value result change)
changed_one s field result value _ = pure result

-- One round of the loop of handleContactLastChange.
unfoldable pub last_change_of : Settings → ℤ → ℤ → Changes → Str → Exec Err Changes
last_change_of s key field result value = do
  found ← find_contact_ids key value
  changed_one s field result value found

abbrev pub check_change_field : FieldCatalog → FlexibleInt → Result Failure (Unit {0})
check_change_field catalog f =
    if f.set && has catalog f.value
    then ok tt
    else err (error_text code_invalid_field_id (lit "Invalid field id: " ++ f.raw))

-- POST /api/v2/contact/last_change
unfoldable pub handle_contact_last_change : Settings → Body LastChangeBody → Exec Failure Changes
handle_contact_last_change s request = do
  body ← lift (decode_json request)
  catalog ← or_internal load_field_catalog
  key ← lift (resolve_key_field body.key_id catalog)
  lift (check_change_field catalog body.field_id)
  or_internal (fold_each body.key_values.values [] (last_change_of s key body.field_id.value))
