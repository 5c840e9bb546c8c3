-- ===== src/Server/Ctl/Seed.antt =====
-- internal/server/ctl.go: loading a fixture.
use emarsys_mock.Base.{
  ℕ, ◌+◌, Bool, false, ◌&&◌, ◌||◌, Option, none, some, List, [], ◌∷◌, ◌++◌, Str, lit, is_empty, ℤ,
  pos, int_eq, itoa, lookup, put, str_key, if◌then◌else◌,
}
use emarsys_mock.Store.Tables.{Tables}
use emarsys_mock.Store.Exec.{
  Err, Result, ok, err, World, next, Exec, ◌>>=◌, ◌>>◌, pure, lift, map_err, fold_each,
}
use emarsys_mock.Store.Field.{FieldCatalog, load_field_catalog, upsert_field, add_choice}
use emarsys_mock.Store.Event.{create_event}
use emarsys_mock.Store.List.{create_contact_list}
use emarsys_mock.Store.Contact.{Values, find_contact_ids, apply_contact_values, create_contact}
use emarsys_mock.Server.Json.{Json, FlexibleInt, is_numeric}
use emarsys_mock.Server.Common.{Settings}
use emarsys_mock.Server.ContactValue.{ParsedRow, RowError, row_error_text, parse_row, key_value_of}
use emarsys_mock.Server.Ctl.{Control, CtlFailure, require_writable, body_of}

pub record SeedChoice : Type 0 where
  pub id : ℤ
  pub choice : Str

pub record SeedField : Type 0 where
  pub id : ℤ
  pub name : Str
  pub application_type : Str
  pub string_id : Str
  pub indexed : Bool
  pub choices : List SeedChoice

-- seedRequest; of an event and of a list there is but the name.
pub record SeedRequest : Type 0 where
  pub reset : Bool
  pub fields : List SeedField
  pub events : List Str
  pub contact_lists : List Str
  pub contacts : List (List (Str × Json))
  pub key_id : FlexibleInt

-- The errors of applySeed
pub data SeedError : Type 0 where
  reset_failed field_failed choice_failed store_failed : Err → SeedError
  bad_row : RowError → SeedError
  no_key : ℤ → SeedError

unfoldable pub seed_error_text : Settings → Control → SeedError → Str
seed_error_text s c (reset_failed e) = lit "reset failed: " ++ c.err_text e
seed_error_text s c (field_failed e) = lit "seed field: " ++ c.err_text e
seed_error_text s c (choice_failed e) = lit "seed choice: " ++ c.err_text e
seed_error_text s c (store_failed e) = c.err_text e
seed_error_text s c (bad_row e) = row_error_text s e
seed_error_text s c (no_key key) = lit "seed contact without a value for key field " ++ itoa key

-- How much was made of each kind
abbrev pub Summary : Type 0
Summary = List (Str × ℕ)

-- summary[kind]++
unfoldable pub count : Str → Summary → Summary
count kind m = put kind (elim (lookup kind m) [ none ↦ 1 | some n ↦ n + 1 ]) m

unfoldable pub seed_choice : ℤ → Unit {0} → SeedChoice → Exec SeedError (Unit {0})
seed_choice field done c = map_err choice_failed (add_choice field c.id c.choice c.id)

-- A field without an id or a name is left out.
unfoldable pub seed_field : Summary → SeedField → Exec SeedError Summary
seed_field summary f = if int_eq f.id (pos 0) || is_empty f.name then pure summary else (do
  map_err field_failed (
      upsert_field (record {
        id = f.id;
        string_id = f.string_id;
        name = f.name;
        application_type = f.application_type;
        is_system = false;
        is_indexed = f.indexed;
      }))
  fold_each f.choices tt (seed_choice f.id)
  pure (count (lit "fields") summary))

-- Counts what could be made; an error is dropped.
abbrev pub counted :
    {A : Type 0} → Str → Summary → Result Err A × World → Result SeedError Summary × World
counted kind summary (ok a, w) = (ok (count kind summary), w)
counted kind summary (err e, w) = (ok summary, w)

unfoldable pub seed_event : Summary → Str → Exec SeedError Summary
seed_event summary name w = counted (lit "events") summary (create_event name w)

unfoldable pub seed_list : Summary → Str → Exec SeedError Summary
seed_list summary name w = counted (lit "contact_lists") summary (create_contact_list name w)

abbrev pub settle_seed :
    {A : Type 0} → Tables → Result SeedError A × World → Result SeedError A × World
settle_seed before (err e, w) = (err e, record w { tables = before })
settle_seed before (ok a, w) =
    if w.driver.fails w.calls
    then (err (store_failed Err.failed), record w { tables = before; calls = w.calls + 1 })
    else (ok a, next w)

-- WithTx, for a body that has errors of its own
unfoldable pub with_seed_tx : {A : Type 0} → Exec SeedError A → Exec SeedError A
with_seed_tx fn w =
    if w.driver.fails w.calls
    then (err (store_failed Err.failed), next w)
    else settle_seed w.tables (fn (next w))

abbrev row_or : Result RowError ParsedRow → Result SeedError ParsedRow
row_or (ok row) = ok row
row_or (err e) = err (bad_row e)

abbrev key_or : ℤ → Option Str → Result SeedError Str
key_or key none = err (no_key key)
key_or key (some v) = ok v

-- A contact that there is gets the values; `created` counts the others.
unfoldable pub seed_found : Values → ℕ → List ℕ → Exec Err ℕ
seed_found values created (id ∷ ids) = do apply_contact_values id values (lit "seed"); pure created
seed_found values created [] = do create_contact values (lit "seed"); pure (created + 1)

unfoldable pub seed_contact : FieldCatalog → ℤ → ℕ → List (Str × Json) → Exec SeedError ℕ
seed_contact catalog key created raw = do
  row ← lift (row_or (parse_row catalog raw))
  key_value ← lift (key_or key (key_value_of key row))
  existing ← map_err store_failed (find_contact_ids key key_value)
  map_err store_failed (seed_found row.values created existing)

abbrev pub seed_key : FlexibleInt → ℤ
seed_key raw = if raw.set && is_numeric raw then raw.value else pos 3

-- seedContacts
unfoldable pub seed_contacts : FlexibleInt → List (List (Str × Json)) → Exec SeedError ℕ
seed_contacts key raws = do
  catalog ← map_err store_failed load_field_catalog
  with_seed_tx (fold_each raws 0 (seed_contact catalog (seed_key key)))

unfoldable pub seed_all_contacts : SeedRequest → Summary → Exec SeedError Summary
seed_all_contacts body summary = elim body.contacts [
  | [] ↦ pure summary
  | raw ∷ raws ↦ (do
    created ← seed_contacts body.key_id (raw ∷ raws)
    pure (put (lit "contacts") created summary))
]

-- applySeed
unfoldable pub apply_seed : Control → SeedRequest → Exec SeedError Summary
apply_seed c body = do
  if body.reset then map_err reset_failed c.reset else pure tt
  with_fields ← fold_each body.fields [] seed_field
  with_events ← fold_each body.events with_fields seed_event
  with_lists ← fold_each body.contact_lists with_events seed_list
  seed_all_contacts body with_lists

abbrev unseeded : Settings → Control → SeedError → CtlFailure
unseeded s c e = record { status = pos 400; message = seed_error_text s c e }

-- POST /_ctl/seed
unfoldable pub handle_ctl_seed :
    Settings → Control → Result Str SeedRequest → Exec CtlFailure Summary
handle_ctl_seed s c request =
    require_writable c
      (do body ← lift (body_of request); map_err (unseeded s c) (apply_seed c body))
