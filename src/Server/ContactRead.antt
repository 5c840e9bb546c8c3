-- ===== src/Server/ContactRead.antt =====
-- internal/server/handler_contact_read.go: reading, finding and deleting contacts.
pub mod Deletion
pub mod Query
use emarsys_mock.Base.{
  ℕ, Bool, true, false, not, ◌&&◌, ◌||◌, Option, none, some, List, [], ◌∷◌, ◌++◌, map, length, Str,
  lit, is_empty, trim_space, ℤ, pos, itoa, atoi, int_lt, lookup, put, str_key, if◌then◌else◌,
}
use emarsys_mock.Api.{
  ReplyCode, Failure, error, error_text, code_no_field_to_return, code_external_ids_type,
  code_external_ids_too_big, code_invalid_field_id, code_missing_key_field, code_no_contact_found,
  code_multiple_contacts, code_invalid_limit,
}
use emarsys_mock.Store.Exec.{
  Err, Result, ok, err, Exec, ◌>>=◌, ◌>>◌, pure, raise, lift, with_tx, fold_each,
}
use emarsys_mock.Store.Field.{FieldCatalog, load_field_catalog, has}
use emarsys_mock.Store.Contact.{
  Values, value_at, ContactRow, find_contact_ids, load_contacts, loaded_row, delete_contact,
}
use emarsys_mock.Server.Json.{
  Json, Body, decode_json, scalar_to_string, FlexibleInt, flexible_int, FlexibleStrings,
  flexible_strings,
}
use emarsys_mock.Server.Common.{Settings, or_internal}
use emarsys_mock.Server.Contact.{resolve_key_field, key_field_name}

abbrev pub Failures : Type 0
Failures = List (Str × (ReplyCode × Str))

abbrev pub not_found : Str → Failures → Failures
not_found value fs =
    put value (code_no_contact_found, lit "No contact found with the external id: " ++ value) fs

abbrev pub ambiguous : Str → Failures → Failures
ambiguous value fs =
    put value (code_multiple_contacts, lit "More contacts found with the external ID: " ++ value) fs

abbrev field_then :
    FieldCatalog → Str → Option ℤ → Result Failure (List ℤ) → Result Failure (List ℤ)
field_then catalog text none rest =
    err (error_text code_invalid_field_id (lit "Invalid field id: " ++ text))
field_then catalog text (some f) rest =
    if has catalog f
    then more rest
    else err (error_text code_invalid_field_id (lit "Invalid field id: " ++ text))
  where
    more : Result Failure (List ℤ) → Result Failure (List ℤ)
    more (ok fs) = ok (f ∷ fs)
    more (err e) = err e

-- resolveFieldList
unfoldable pub resolve_field_list : FieldCatalog → List Json → Result Failure (List ℤ)
resolve_field_list catalog [] = ok []
resolve_field_list catalog (item ∷ items) =
    let rest = resolve_field_list catalog items in
    field_then catalog (scalar_to_string item) (atoi (trim_space (scalar_to_string item))) rest

pub record GetDataBody : Type 0 where
  pub key_id : FlexibleInt
  pub key_values : FlexibleStrings
  pub fields : List Json

-- A contact as getdata shows it: the internal id, the uid, and the values that were asked for.
pub record Row : Type 0 where
  pub id : ℕ
  pub uid : Str
  pub values : List (Str × Str)

abbrev cells_of : Values → List ℤ → List (Str × Str)
cells_of values [] = []
cells_of values (f ∷ fs) = (itoa f, value_at f values) ∷ cells_of values fs

-- contactRowJSON
unfoldable pub contact_row_json : ContactRow → List ℤ → Row
contact_row_json c fields = record { id = c.id; uid = c.uid; values = cells_of c.values fields }

pub record GetDataResult : Type 0 where
  pub result : List Row
  pub errors : Failures

abbrev shown_row : List ℤ → Option ContactRow → GetDataResult → GetDataResult
shown_row fields none d = d
shown_row fields (some c) d = record d { result = d.result ++ contact_row_json c fields ∷ [] }

-- The switch of the loop, and what follows it.
unfoldable pub read_found : List ℤ → Str → GetDataResult → List ℕ → Exec Err GetDataResult
read_found fields value d [] = pure (record d { errors = not_found value d.errors })
read_found fields value d (id ∷ []) = do
  contacts ← load_contacts (id ∷ []) fields
  pure (shown_row fields (loaded_row id contacts) d)
read_found fields value d (_ ∷ _ ∷ _) = pure (record d { errors = ambiguous value d.errors })

unfoldable pub read_one : ℤ → List ℤ → GetDataResult → Str → Exec Err GetDataResult
read_one key fields d value = do found ← find_contact_ids key value; read_found fields value d found

abbrev check_fields : List Json → Result Failure (Unit {0})
check_fields [] = err (error code_no_field_to_return)
check_fields (f ∷ fs) = ok tt

abbrev check_values : Settings → FlexibleStrings → Result Failure (Unit {0})
check_values s values =
    if not values.set || not values.is_list
    then err (error code_external_ids_type)
    else if int_lt s.max_batch_contacts (pos (length values.values))
    then err (error code_external_ids_too_big)
    else ok tt

abbrev pub nothing_read : GetDataResult
nothing_read = record { result = []; errors = [] }

-- POST /api/v2/contact/getdata
unfoldable pub handle_contact_get_data : Settings → Body GetDataBody → Exec Failure GetDataResult
handle_contact_get_data s request = do
  body ← lift (decode_json request)
  catalog ← or_internal load_field_catalog
  key ← lift (resolve_key_field body.key_id catalog)
  lift (check_fields body.fields)
  fields ← lift (resolve_field_list catalog body.fields)
  lift (check_values s body.key_values)
  or_internal (fold_each body.key_values.values nothing_read (read_one key fields))

abbrev limit_in : Option ℤ → Result Failure ℤ
limit_in none = err (error code_invalid_limit)
limit_in (some n) =
    if int_lt n (pos 1) || int_lt (pos 10000) n then err (error code_invalid_limit) else ok n

-- queryLimit
unfoldable pub query_limit : Str → Result Failure ℤ
query_limit raw = if is_empty (trim_space raw) then ok (pos 10000) else limit_in (atoi raw)

pub record CheckIdsBody : Type 0 where
  pub key_id : FlexibleInt
  pub external_ids : FlexibleStrings
  pub key_values : FlexibleStrings
  pub key_value : FlexibleStrings
  pub get_multiple_ids : Bool

-- An entry of data.ids is the list of the contacts where several were asked for, and else the one.
pub data FoundIds : Type 0 where
  several : List ℕ → FoundIds
  single : ℕ → FoundIds

pub record CheckIdsResult : Type 0 where
  pub ids : List (Str × FoundIds)
  pub errors : Failures

abbrev pub found_ids : Bool → Str → CheckIdsResult → List ℕ → CheckIdsResult
found_ids multiple value d [] = record d { errors = not_found value d.errors }
found_ids true value d (id ∷ ids) = record d { ids = put value (several (id ∷ ids)) d.ids }
found_ids false value d (id ∷ []) = record d { ids = put value (single id) d.ids }
found_ids false value d (_ ∷ _ ∷ _) = record d { errors = ambiguous value d.errors }

unfoldable pub check_one : ℤ → Bool → CheckIdsResult → Str → Exec Err CheckIdsResult
check_one key multiple d value = do
  found ← find_contact_ids key value
  pure (found_ids multiple value d found)

abbrev first_given : List Str → List Str → List Str
first_given [] second = second
first_given (v ∷ vs) second = v ∷ vs

abbrev pub values_given : CheckIdsBody → List Str
values_given b =
    first_given b.external_ids.values (first_given b.key_values.values b.key_value.values)

abbrev pub nothing_checked : CheckIdsResult
nothing_checked = record { ids = []; errors = [] }

-- POST /api/v2/contact/checkids and /getid
unfoldable pub handle_contact_check_ids : Settings → Body CheckIdsBody → Exec Failure CheckIdsResult
handle_contact_check_ids s request = do
  body ← lift (decode_json request)
  catalog ← or_internal load_field_catalog
  key ← lift (resolve_key_field body.key_id catalog)
  if int_lt s.max_batch_contacts (pos (length (values_given body)))
      then raise (error code_external_ids_too_big)
      else or_internal
          (fold_each (values_given body) nothing_checked (check_one key body.get_multiple_ids))

-- The raw text of a JSON value comes with the value, since a key_id that is no scalar is shown raw.
abbrev pub Raw : Type 0
Raw = List (Str × (Str × Json))

abbrev pub key_in : Option (Str × Json) → FlexibleInt
key_in none = record { value = pos 0; set = false; raw = [] }
key_in (some (text, v)) = flexible_int text v

abbrev pub values_under : Option (Str × Json) → List Str
values_under none = []
values_under (some (text, v)) = (flexible_strings v).values

unfoldable pub delete_one : Unit {0} → ℕ → Exec Err (Unit {0})
delete_one _ id = delete_contact id

unfoldable pub delete_found : Failures → Str → List ℕ → Exec Err Failures
delete_found fs value [] = pure (not_found value fs)
delete_found fs value (id ∷ ids) = do fold_each (id ∷ ids) tt delete_one; pure fs

-- One round of the loop of the transaction.
unfoldable pub delete_value : ℤ → Failures → Str → Exec Err Failures
delete_value key fs value = do found ← find_contact_ids key value; delete_found fs value found

abbrev pub check_given : ℤ → List Str → Result Failure (Unit {0})
check_given key [] = err (
    error_text code_missing_key_field
      (lit "No key values given under \"" ++ key_field_name key ++ lit "\""))
check_given key (v ∷ vs) = ok tt

-- POST /api/v2/contact/delete: the answer has the errors.
unfoldable pub handle_contact_delete : Body Raw → Exec Failure Failures
handle_contact_delete request = do
  raw ← lift (decode_json request)
  catalog ← or_internal load_field_catalog
  key ← lift (resolve_key_field (key_in (lookup (lit "key_id") raw)) catalog)
  lift (check_given key (values_under (lookup (key_field_name key) raw)))
  or_internal
      (with_tx (fold_each (values_under (lookup (key_field_name key) raw)) [] (delete_value key)))
