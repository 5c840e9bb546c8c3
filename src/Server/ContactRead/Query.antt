-- ===== src/Server/ContactRead/Query.antt =====
-- internal/server/handler_contact_read.go: querying contacts by an indexed field.
use emarsys_mock.Base.{
  ℕ, Bool, not, ◌||◌, Option, none, some, List, [], ◌∷◌, ◌++◌, length, Str, lit, is_empty, str_eq,
  str_key, lookup, to_lower, trim_space, any, select, ℤ, pos, negsuc, itoa_ℕ, atoi, if◌then◌else◌,
}
use emarsys_mock.Api.{
  Failure, error, error_text, code_missing_key_field, code_invalid_field_id,
  code_no_field_to_return, code_no_index_on_column,
}
use emarsys_mock.Store.Exec.{Err, Result, ok, err, Exec, ◌>>=◌, ◌>>◌, pure, lift}
use emarsys_mock.Store.Field.{FieldCatalog, load_field_catalog, has, get}
use emarsys_mock.Store.Contact.{
  ContactRow, load_contacts, loaded_row, value_at, query_contacts_by_field,
}
use emarsys_mock.Server.Common.{or_internal}
use emarsys_mock.Server.ContactRead.{query_limit}

-- url.Values: the keys are different.
abbrev pub Params : Type 0
Params = List (Str × List Str)

abbrev first_of : Option (List Str) → Str
first_of none = []
first_of (some []) = []
first_of (some (v ∷ vs)) = v

-- url.Values.Get
unfoldable pub param : Str → Params → Str
param key params = first_of (lookup key params)

-- queryReservedParams
abbrev reserved : List Str
reserved = lit "return" ∷ lit "limit" ∷ lit "offset" ∷ lit "excludeempty" ∷ []

unfoldable pub selectors : Params → Params
selectors params =
    select (λ (p : Str × List Str). not (any (str_eq (to_lower p.0)) reserved)) params

pub record Selector : Type 0 where
  pub raw : Str
  pub value : Str

unfoldable pub the_selector : Params → Result Failure Selector
the_selector (one ∷ []) = ok (record { raw = one.0; value = first_of (some one.1) })
the_selector ps = err (
    error_text code_missing_key_field
      (lit "Exactly one field must be given to query on, got " ++ itoa_ℕ (length ps)))

abbrev invalid : Str → Failure
invalid raw = error_text code_invalid_field_id (lit "Invalid field id: " ++ raw)

unfoldable pub field_named : FieldCatalog → Str → Result Failure ℤ
field_named catalog raw = elim (atoi raw) [
  | none ↦ err (invalid raw)
  | some f ↦ if has catalog f then ok f else err (invalid raw)
]

abbrev no_index : Str → Str → Failure
no_index name raw =
    error_text code_no_index_on_column
      (lit "No index on the column: " ++ (name ++ (lit " (field " ++ (raw ++ lit ")"))))

-- A field that the catalogue has not, as "id", has no name and no index.
unfoldable pub check_index : FieldCatalog → ℤ → Str → Result Failure (Unit {0})
check_index catalog f raw = elim (get catalog f) [
  | none ↦ err (no_index [] raw)
  | some d ↦ if d.is_indexed then ok tt else err (no_index d.name raw)
]

abbrev return_field : FieldCatalog → Str → Result Failure ℤ
return_field catalog raw =
    if is_empty (trim_space raw)
    then err (error code_no_field_to_return)
    else field_named catalog raw

abbrev nonneg_or_zero : Option ℤ → ℕ
nonneg_or_zero (some (pos n)) = n
nonneg_or_zero _ = 0

abbrev natural : ℤ → ℕ
natural (pos n) = n
natural (negsuc n) = 0

abbrev is_set : Str → Bool
is_set raw = str_eq raw (lit "true") || str_eq raw (lit "1")

pub record QueryRow : Type 0 where
  pub id : ℕ
  pub value : Str

abbrev query_row : ℤ → Option ContactRow → List QueryRow
query_row f none = []
query_row f (some c) = record { id = c.id; value = value_at f c.values } ∷ []

unfoldable pub query_rows : ℤ → List ContactRow → List ℕ → List QueryRow
query_rows f contacts [] = []
query_rows f contacts (id ∷ ids) = query_row f (loaded_row id contacts) ++ query_rows f contacts ids

unfoldable pub read_query : ℤ → Str → ℤ → Bool → ℕ → ℕ → Exec Err (List QueryRow)
read_query f value shown exclude_empty limit offset = do
  ids ← query_contacts_by_field f value exclude_empty limit offset
  contacts ← load_contacts ids (shown ∷ [])
  pure (query_rows shown contacts ids)

-- GET /api/v2/contact/query/: the rows, each with the field that is asked for
unfoldable pub handle_contact_query : Params → Exec Failure (List QueryRow)
handle_contact_query params = do
  catalog ← or_internal load_field_catalog
  by ← lift (the_selector (selectors params))
  f ← lift (field_named catalog by.raw)
  lift (check_index catalog f by.raw)
  shown ← lift (return_field catalog (param (lit "return") params))
  limit ← lift (query_limit (param (lit "limit") params))
  or_internal (
      read_query f by.value shown (is_set (param (lit "excludeempty") params)) (natural limit)
        (nonneg_or_zero (atoi (param (lit "offset") params))))
