-- ===== src/Server/ContactValue.antt =====
-- internal/server/contactvalue.go: the rows of a contact batch and the values in them.
use emarsys_mock.Base.{
  Bool, true, false, ◌&&◌, ◌||◌, Option, none, some, List, [], ◌∷◌, ◌++◌, map, Str, lit, str_eq,
  is_empty, trim_space, to_lower, split_on, ℤ, int_eq, atoi, itoa, put, int_key, if◌then◌else◌,
  is_digit, ◌==◌,
}
use emarsys_mock.Store.Exec.{Result, ok, err}
use emarsys_mock.Store.Field.{FieldCatalog, get, has, has_choice}
use emarsys_mock.Store.Contact.{Values, value_at, sort_ints}
use emarsys_mock.Store.Field.{key_field_internal_id, key_field_uid}
use emarsys_mock.Server.Json.{Json, scalar_to_string}
use emarsys_mock.Server.Common.{Settings}

-- The regular expression ^\d{4}-\d{2}-\d{2}$
unfoldable pub is_iso_date : Str → Bool
is_iso_date (a ∷ b ∷ c ∷ d ∷ m1 ∷ e ∷ f ∷ m2 ∷ g ∷ h ∷ []) =
    is_digit a
    && is_digit b
    && is_digit c
    && is_digit d
    && m1 == b'-'
    && is_digit e
    && is_digit f
    && m2 == b'-'
    && is_digit g
    && is_digit h
is_iso_date _ = false

pub record ParsedRow : Type 0 where
  pub values : Values
  pub internal_id : Str
  pub uid : Str

-- unknownFieldError and valueError
pub data RowError : Type 0 where
  unknown_field : Str → RowError
  bad_value : ℤ → Str → Str → RowError

unfoldable pub row_error_text : Settings → RowError → Str
row_error_text s (unknown_field raw) = lit "invalid field id: " ++ raw
row_error_text s (bad_value field value reason) =
    lit "Invalid value for field "
    ++ itoa field
    ++ lit ": "
    ++ s.quoted value
    ++ lit " ("
    ++ reason
    ++ lit ")"

abbrev numbered : FieldCatalog → Str → Json → ParsedRow → Option ℤ → Result RowError ParsedRow
numbered catalog key value row none = err (unknown_field key)
numbered catalog key value row (some f) =
    if has catalog f
    then ok (record row { values = put f (scalar_to_string value) row.values })
    else err (unknown_field key)

-- One round of the loop of parseRow.
unfoldable pub parse_entry : FieldCatalog → Str → Json → ParsedRow → Result RowError ParsedRow
parse_entry catalog key value row =
    if str_eq (to_lower (trim_space key)) (lit "id")
    then ok (record row { internal_id = scalar_to_string value })
    else if str_eq (to_lower (trim_space key)) (lit "uid")
    then ok (record row { uid = scalar_to_string value })
    else numbered catalog key value row (atoi (trim_space key))

unfoldable pub parse_entries :
    FieldCatalog → List (Str × Json) → ParsedRow → Result RowError ParsedRow
parse_entries catalog [] row = ok row
parse_entries catalog ((key, value) ∷ rest) row = elim (parse_entry catalog key value row) [
  | ok row' ↦ parse_entries catalog rest row'
  | err e ↦ err e
]

abbrev empty_row : ParsedRow
empty_row = record { values = []; internal_id = []; uid = [] }

-- parseRow, on the entries of the object in the order in which `range` gives them
unfoldable pub parse_row : FieldCatalog → List (Str × Json) → Result RowError ParsedRow
unfolding parse_entries parse_entry
parse_row catalog raw = parse_entries catalog raw empty_row

-- The loop over the parts of a multi-choice value.
unfoldable pub bad_part : FieldCatalog → ℤ → List Str → Option Str
bad_part catalog field [] = none
bad_part catalog field (part ∷ parts) =
    let rest = bad_part catalog field parts in
    if is_empty (trim_space part)
    then rest
    else if has_choice catalog field (trim_space part)
    then rest
    else some (trim_space part)

abbrev unless : Bool → RowError → Option RowError
unless true e = none
unless false e = some e

abbrev undefined_choice : ℤ → Str → Option Str → Option RowError
undefined_choice field value none = none
undefined_choice field value (some part) =
    some (bad_value field value (lit "contains an undefined choice: " ++ part))

-- The switch on the field's type.
unfoldable pub check_type : Settings → FieldCatalog → ℤ → Str → Str → Option RowError
unfolding bad_part
check_type s catalog field value type =
    if str_eq type (lit "date")
    then unless (is_iso_date value) (bad_value field value (lit "expected YYYY-MM-DD"))
    else if str_eq type (lit "numeric")
    then unless (s.parses_float value) (bad_value field value (lit "expected a number"))
    else if str_eq type (lit "singlechoice")
    then unless (has_choice catalog field value)
        (bad_value field value (lit "not a defined choice for this field"))
    else if str_eq type (lit "multichoice") || str_eq type (lit "interests")
    then undefined_choice field value (bad_part catalog field (split_on b',' value))
    else none

-- validateValue: `none` is a nil error.
unfoldable pub validate_value : Settings → FieldCatalog → ℤ → Str → Option RowError
validate_value s catalog field value = elim (get catalog field) [
  | none ↦ some (unknown_field (itoa field))
  | some f ↦ if is_empty value then none else check_type s catalog field value f.application_type
]

-- The loop of validateValues.
unfoldable pub first_error : Settings → FieldCatalog → Values → List ℤ → Option RowError
first_error s catalog values [] = none
first_error s catalog values (f ∷ fs) = elim (validate_value s catalog f (value_at f values)) [
  | some e ↦ some e
  | none ↦ first_error s catalog values fs
]

-- sortedKeys, the insertion sort of a map's keys
unfoldable pub sorted_keys : Values → List ℤ
sorted_keys values = sort_ints (map (λ (p : ℤ × Str). p.0) values)

-- validateValues
unfoldable pub validate_values : Settings → FieldCatalog → Values → Option RowError
validate_values s catalog values = first_error s catalog values (sorted_keys values)

abbrev nonempty : Str → Option Str
nonempty [] = none
nonempty (c ∷ s) = some (c ∷ s)

-- parsedRow.keyValueOf
unfoldable pub key_value_of : ℤ → ParsedRow → Option Str
unfolding value_at
key_value_of key row =
    if int_eq key key_field_internal_id
    then nonempty row.internal_id
    else if int_eq key key_field_uid
    then nonempty row.uid
    else nonempty (value_at key row.values)
