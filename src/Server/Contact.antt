-- ===== src/Server/Contact.antt =====
-- internal/server/handler_contact.go: creating and updating contacts in batches.
pub mod Atomicity
pub mod Transaction
pub mod History
pub mod Accounting
use emarsys_mock.Base.{
  ℕ, zero, suc, Bool, true, false, not, ◌&&◌, ◌||◌, Option, none, some, List, [], ◌∷◌, ◌++◌, map,
  any, length, Str, lit, str_eq, is_empty, ℤ, pos, negsuc, int_eq, int_lt, is_nonneg, itoa, itoa_ℕ,
  lookup, put, int_key, str_key, if◌then◌else◌,
}
use emarsys_mock.Api
use emarsys_mock.Api.{
  ReplyCode, Failure, error_text, code_batch_too_large, code_missing_key_field,
  code_invalid_field_id, code_invalid_key_field_id, code_internal_error, code_multiple_contacts,
  code_contact_exists, code_no_contact_found,
}
use emarsys_mock.Store.Exec.{
  Err, Result, ok, err, Exec, ◌>>=◌, ◌>>◌, pure, raise, lift, with_tx, fold_each,
}
use emarsys_mock.Store.Field.{FieldCatalog, load_field_catalog, has}
use emarsys_mock.Store.Contact.{
  Values, find_contact_ids, apply_contact_values, create_contact, add_contacts_to_list,
  contact_list_exists,
}
use emarsys_mock.Store.Field.{key_field_internal_id, key_field_uid}
use emarsys_mock.Server.Json.{Json, Body, decode_json, FlexibleInt, is_numeric}
use emarsys_mock.Server.Common.{Settings, or_internal}
use emarsys_mock.Server.ContactValue.{
  RowError, unknown_field, bad_value, row_error_text, ParsedRow, parse_row, validate_values,
  key_value_of,
}

pub record ContactBatchBody : Type 0 where
  pub key_id : FlexibleInt
  pub contact_list_id : Option ℤ
  pub contacts : List (List (Str × Json))

-- An entry of data.ids: the number of a new contact, the text of an updated one.
pub data ReportedId : Type 0 where
  number : ℕ → ReportedId
  text : Str → ReportedId

-- data.errors holds one code and text for a key value.
pub record BatchResult : Type 0 where
  pub ids : List ReportedId
  pub errors : List (Str × (ReplyCode × Str))

abbrev pub new_batch_result : BatchResult
new_batch_result = record { ids = []; errors = [] }

-- batchResult.fail
unfoldable pub fail : Str → ReplyCode → Str → BatchResult → BatchResult
fail key_value code message b = record b { errors = put key_value (code, message) b.errors }

-- keyFieldName
unfoldable pub key_field_name : ℤ → Str
key_field_name key =
    if int_eq key key_field_internal_id
    then lit "id"
    else if int_eq key key_field_uid
    then lit "uid"
    else itoa key

-- resolveKeyField
unfoldable pub resolve_key_field : FlexibleInt → FieldCatalog → Result Failure ℤ
resolve_key_field raw catalog =
    if not raw.set || is_empty raw.raw
    then err (error_text code_missing_key_field (lit "Missing key field: key_id"))
    else if str_eq raw.raw (lit "id")
    then ok key_field_internal_id
    else if str_eq raw.raw (lit "uid")
    then ok key_field_uid
    else if not (is_numeric raw)
    then err (
        error_text code_invalid_key_field_id (
          lit "Invalid key field id: "
          ++ raw.raw
          ++ lit " (key_id must be a numeric field id, not a field name)"))
    else if not (has catalog raw.value)
    then err (error_text code_invalid_key_field_id (lit "Invalid key field id: " ++ raw.raw))
    else ok raw.value

-- What the loop over the rows carries: the result, the contacts touched, the key values seen.
pub record Batch : Type 0 where
  pub result : BatchResult
  pub touched : List ℕ
  pub seen : List Str

abbrev pub new_batch : Batch
new_batch = record { result = new_batch_result; touched = []; seen = [] }

unfoldable pub fail_row : Str → ReplyCode → Str → Batch → Batch
unfolding fail
fail_row key_value code message b = record b { result = fail key_value code message b.result }

abbrev reported : ReportedId → ℕ → Batch → Batch
reported shown id b = record b {
  result = record b.result { ids = b.result.ids ++ shown ∷ [] };
  touched = b.touched ++ id ∷ [];
}

-- The values of a new contact, the key value among them.
unfoldable pub with_key : ℤ → Str → Values → Values
with_key key key_value values =
    if is_nonneg key
    then elim (lookup key values) [ none ↦ put key key_value values | some v ↦ values ]
    else values

-- The switch of the loop, on the contacts that the key value finds.
unfoldable pub store_row : Bool → Bool → ℤ → ParsedRow → Str → Batch → List ℕ → Exec Err Batch
unfolding with_key fail_row
store_row is_update create key row key_value b [] =
    if is_update && not create
    then pure (
        fail_row key_value code_no_contact_found
          (lit "No contact found with the external id: " ++ key_value) b)
    else do
      id ← create_contact (with_key key key_value row.values) (lit "api")
      pure (reported (number id) id b)
store_row is_update create key row key_value b (id ∷ []) =
    if not is_update
    then pure (
        fail_row key_value code_contact_exists
          (lit "Contact with the external id already exists: " ++ key_value) b)
    else do apply_contact_values id row.values (lit "api"); pure (reported (text (itoa_ℕ id)) id b)
store_row is_update create key row key_value b (_ ∷ _ ∷ _) = pure (
    fail_row key_value code_multiple_contacts
      (lit "More contacts found with the external ID: " ++ key_value) b)

-- A row whose key value is new in the batch.
unfoldable pub checked_row :
    Settings
    → FieldCatalog
    → Bool
    → Bool
    → ℤ
    → ParsedRow
    → Str
    → Batch
    → Option RowError
    → Exec Err Batch
unfolding fail_row
checked_row s catalog is_update create key row key_value b (some e) =
    pure (fail_row key_value code_invalid_field_id (row_error_text s e) b)
checked_row s catalog is_update create key row key_value b none = do
  existing ← find_contact_ids key key_value
  store_row is_update create key row key_value b existing

abbrev mark_seen : Str → Batch → Batch
mark_seen key_value b = record b { seen = key_value ∷ b.seen }

unfoldable pub keyed_row :
    Settings → FieldCatalog → Bool → Bool → ℤ → ParsedRow → Batch → Option Str → Exec Err Batch
unfolding fail_row
keyed_row s catalog is_update create key row b none = pure (
    fail_row [] code_missing_key_field
      (lit "Missing value for the key field " ++ key_field_name key) b)
keyed_row s catalog is_update create key row b (some key_value) =
    if any (str_eq key_value) b.seen
    then pure (
        fail_row key_value code_multiple_contacts
          (lit "More contacts found with the external ID: "
            ++ key_value
            ++ lit " (duplicated within the batch)")
          b)
    else checked_row s catalog is_update create key row key_value (mark_seen key_value b)
        (validate_values s catalog row.values)

-- One round of the loop over the rows.
unfoldable pub process_row :
    Settings → FieldCatalog → Bool → Bool → ℤ → Batch → ParsedRow → Exec Err Batch
process_row s catalog is_update create key b row =
    keyed_row s catalog is_update create key row b (key_value_of key row)

abbrev pub row_failure : RowError → Failure
row_failure (unknown_field raw) = error_text code_invalid_field_id (lit "Invalid field id: " ++ raw)
row_failure (bad_value field value reason) = Api.error code_internal_error

abbrev pub row_then :
    Result RowError ParsedRow → Result Failure (List ParsedRow) → Result Failure (List ParsedRow)
row_then (err e) rest = err (row_failure e)
row_then (ok row) (err f) = err f
row_then (ok row) (ok rows) = ok (row ∷ rows)

-- The rows, parsed before anything is written.
unfoldable pub parse_rows :
    FieldCatalog → List (List (Str × Json)) → Result Failure (List ParsedRow)
parse_rows catalog [] = ok []
parse_rows catalog (raw ∷ raws) = row_then (parse_row catalog raw) (parse_rows catalog raws)

unfoldable pub check_list : Option ℤ → Exec Failure (Unit {0})
check_list none = pure tt
check_list (some list) = do
  exists ← or_internal (contact_list_exists list)
  if exists
      then pure tt
      else raise (error_text code_internal_error (lit "Unknown contact list id: " ++ itoa list))

-- What happens to the touched contacts at the end of the transaction.
unfoldable pub add_touched : Option ℤ → List ℕ → Exec Err (Unit {0})
add_touched none touched = pure tt
add_touched (some list) [] = pure tt
add_touched (some list) (id ∷ ids) = add_contacts_to_list list (id ∷ ids)

-- The body of the transaction.
unfoldable pub write_batch :
    Settings → FieldCatalog → Bool → Bool → ℤ → Option ℤ → List ParsedRow → Exec Err Batch
write_batch s catalog is_update create key list rows = do
  b ← fold_each rows new_batch (process_row s catalog is_update create key)
  add_touched list b.touched
  pure b

-- The checks between the decoding of the body and the reading of its rows.
unfoldable pub check_size : Settings → List (List (Str × Json)) → Result Failure (Unit {0})
check_size s [] = err (error_text code_missing_key_field (lit "No contacts given"))
check_size s (c ∷ cs) =
    if int_lt s.max_batch_contacts (pos (length (c ∷ cs)))
    then err (
        error_text code_batch_too_large
          (lit "Limit of " ++ itoa s.max_batch_contacts ++ lit " contacts exceeded"))
    else ok tt

-- Server.runContactBatch
unfoldable pub run_contact_batch :
    Settings → Bool → Bool → Body ContactBatchBody → Exec Failure BatchResult
run_contact_batch s is_update create request = do
  body ← lift (decode_json request)
  catalog ← or_internal load_field_catalog
  key ← lift (resolve_key_field body.key_id catalog)
  lift (check_size s body.contacts)
  rows ← lift (parse_rows catalog body.contacts)
  check_list body.contact_list_id
  b ← or_internal (with_tx (write_batch s catalog is_update create key body.contact_list_id rows))
  pure b.result

-- POST /api/v2/contact
unfoldable pub handle_contact_create : Settings → Body ContactBatchBody → Exec Failure BatchResult
unfolding run_contact_batch
handle_contact_create s = run_contact_batch s false false

-- PUT /api/v2/contact/?create_if_not_exists=...
unfoldable pub handle_contact_update :
    Settings → Str → Body ContactBatchBody → Exec Failure BatchResult
unfolding run_contact_batch
handle_contact_update s create =
    run_contact_batch s true (str_eq create (lit "1") || str_eq create (lit "true"))
