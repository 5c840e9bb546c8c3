-- ===== src/Server/Export.antt =====
-- internal/server/handler_export.go: starting an export. What is left is in Server.Download.
pub mod Client
use emarsys_mock.Base.{
  ℕ, Bool, true, false, not, ◌&&◌, ◌||◌, Option, none, some, List, [], ◌∷◌, ◌++◌, map, Str, lit,
  str_leb, is_empty, any, select, ◌==◌, ℤ, pos, negsuc, atoi, int_eq, int_lt, if◌then◌else◌,
}
use emarsys_mock.Api.{Failure, error, error_text, code_internal_error, code_no_field_to_return}
use emarsys_mock.Store.Tables.{Tables, Contact, FieldChange, FieldDef}
use emarsys_mock.Store.Exec.{
  Err, Result, ok, err, Exec, ◌>>=◌, ◌>>◌, pure, raise, lift, query, now_string,
}
use emarsys_mock.Store.Field.{FieldCatalog, load_field_catalog, get}
use emarsys_mock.Store.History.{field_changes}
use emarsys_mock.Store.Contact.{ContactRow, load_contacts, loaded_row, value_at}
use emarsys_mock.Store.List.{list_members}
use emarsys_mock.Store.Export.{create_export}
use emarsys_mock.Server.Json.{Json, Body, decode_json}
use emarsys_mock.Server.Common.{Settings, or_internal, local_time}
use emarsys_mock.Server.ContactRead.{resolve_field_list}
use emarsys_mock.Server.List.{lookup_list}
use emarsys_mock.Server.Csv.{is_rune, csv_lines}

pub record ExportRequest : Type 0 where
  pub distribution_method : Str
  pub origin : Str
  pub time_range : List Str
  pub contact_fields : List Json
  pub delimiter : Str
  pub add_field_names_header : ℤ
  pub language : Str
  pub with_timestamp : ℤ
  pub notification_url : Str
  pub polls_before_done : Option ℤ

-- Functions of the standard library: time.ParseInLocation on a layout and a text, in the zone of the
-- exports; a time in UTC as RFC 3339; the time a day after one in that form; a time with 24 hours
-- less a second added; json.Marshal of a request.
pub record Clockwork : Type 0 where
  pub parse_in_zone : Str → Str → Option ℕ
  pub utc : ℕ → Str
  pub a_day_after : Str → Str
  pub end_of_day : ℕ → ℕ
  pub marshal_request : ExportRequest → Str

abbrev first_time : Clockwork → List Str → Str → Option ℕ
first_time k [] raw = none
first_time k (layout ∷ layouts) raw = elim (k.parse_in_zone layout raw) [
  | some t ↦ some t
  | none ↦ first_time k layouts raw
]

abbrev bare_date : Clockwork → Bool → Option ℕ → Option ℕ
bare_date k end_of_day none = none
bare_date k end_of_day (some t) = some (if end_of_day then k.end_of_day t else t)

abbrev or_time : Option ℕ → Option ℕ → Option ℕ
or_time none second = second
or_time (some t) second = some t

-- parseRangeBound: the bare date is the last of the layouts that are tried.
unfoldable pub parse_range_bound : Clockwork → Str → Bool → Option ℕ
parse_range_bound k raw end_of_day =
    if is_empty raw
    then none
    else or_time
        (first_time k
          (lit "2006-01-02T15:04:05Z07:00"
            ∷ lit "2006-01-02 15:04:05"
            ∷ lit "2006-01-02T15:04:05"
            ∷ [])
          raw)
        (bare_date k end_of_day (k.parse_in_zone (lit "2006-01-02") raw))

-- The two ends of a window as the columns hold times.
pub record ExportWindow : Type 0 where
  pub from : Str
  pub to : Str

abbrev bound_or : Clockwork → Str → Str → Option ℕ → Result Failure Str
bound_or k message raw none = err (error_text code_internal_error (message ++ raw))
bound_or k message raw (some t) = ok (k.utc t)

abbrev start_of : Clockwork → List Str → Result Failure Str
start_of k [] = ok (lit "1970-01-01T00:00:00Z")
start_of k (raw ∷ _) =
    bound_or k (lit "Unparsable time_range start: ") raw (parse_range_bound k raw false)

abbrev end_of : Clockwork → Str → List Str → Result Failure Str
end_of k now [] = ok (k.a_day_after now)
end_of k now (_ ∷ []) = ok (k.a_day_after now)
end_of k now (_ ∷ raw ∷ _) =
    bound_or k (lit "Unparsable time_range end: ") raw (parse_range_bound k raw true)

-- exportWindow
unfoldable pub export_window : Clockwork → ExportRequest → Exec Failure ExportWindow
export_window k body = do
  now ← now_string
  from ← lift (start_of k body.time_range)
  to ← lift (end_of k now body.time_range)
  pure (record { from = from; to = to })

-- The kinds of export; the last has the list of the request's path.
pub data ExportKind : Type 0 where
  changes : ExportKind
  registrations : ExportKind
  contactlist : Str → ExportKind

abbrev pub kind_text : ExportKind → Str
kind_text changes = lit "changes"
kind_text registrations = lit "registrations"
kind_text (contactlist raw) = lit "contactlist"

-- One row of an export: the contact and the time.
pub record ExportRow : Type 0 where
  pub contact_id : ℕ
  pub timestamp : Str

abbrev has_seen : ℕ → List ExportRow → Bool
has_seen contact rows = any (λ r. r.contact_id == contact) rows

-- The loop over the changes: `seen` has the contacts of the rows so far.
unfoldable pub first_changes : List ExportRow → List FieldChange → List ExportRow
first_changes rows [] = rows
first_changes rows (c ∷ cs) =
    first_changes
      (if has_seen c.contact_id rows
        then rows
        else rows ++ record { contact_id = c.contact_id; timestamp = c.changed_at } ∷ [])
      cs

-- SELECT id, created_at FROM contacts WHERE created_at >= ? AND created_at <= ? ORDER BY id
unfoldable pub created_between : ExportWindow → Tables → List ExportRow
created_between window t =
    map (λ (c : Contact). record { contact_id = c.id; timestamp = c.created_at })
      (select (λ (c : Contact). str_leb window.from c.created_at && str_leb c.created_at window.to)
        t.contacts.rows)

abbrev pub rows_at : Str → List ℕ → List ExportRow
rows_at now ids = map (λ (id : ℕ). record { contact_id = id; timestamp = now }) ids

abbrev list_rows : Option ℤ → Exec Err (List ExportRow)
list_rows none = raise Err.failed
list_rows (some list) = do
  ids ← list_members list 1000000 0
  now ← now_string
  pure (rows_at now ids)

-- The switch of buildExportCSV
unfoldable pub export_rows : ExportKind → ExportWindow → List ℤ → Exec Err (List ExportRow)
export_rows changes window fields = do
  found ← field_changes window.from window.to fields
  pure (first_changes [] found)
export_rows registrations window fields = query (created_between window)
export_rows (contactlist raw) window fields = list_rows (atoi raw)

abbrev pub is_timed : ExportKind → ExportRequest → Bool
is_timed (contactlist raw) body = int_eq body.with_timestamp (pos 1)
is_timed _ body = true

abbrev name_of : Option FieldDef → Str
name_of none = []
name_of (some f) = f.name

abbrev stamped : Bool → Str → List Str → List Str
stamped timed stamp cells = if timed then stamp ∷ cells else cells

-- The line of names, if one is asked for.
unfoldable pub header_lines : FieldCatalog → Bool → ExportRequest → List ℤ → List (List Str)
header_lines catalog timed body fields =
    if int_eq body.add_field_names_header (pos 1)
    then stamped timed (lit "Timestamp") (map (λ f. name_of (get catalog f)) fields) ∷ []
    else []

-- A row of a contact that is not there any more is left out.
abbrev pub row_line : Settings → Bool → List ℤ → ExportRow → Option ContactRow → List (List Str)
row_line s timed fields row none = []
row_line s timed fields row (some c) =
    stamped timed (local_time s row.timestamp) (map (λ f. value_at f c.values) fields) ∷ []

unfoldable pub row_lines :
    Settings → Bool → List ℤ → List ContactRow → List ExportRow → List (List Str)
row_lines s timed fields contacts [] = []
row_lines s timed fields contacts (row ∷ rows) =
    row_line s timed fields row (loaded_row row.contact_id contacts)
    ++ row_lines s timed fields contacts rows

abbrev pub comma_of : ExportRequest → Str
comma_of body = if is_rune body.delimiter then body.delimiter else b',' ∷ []

abbrev pub written_or : Option Str → Exec Err Str
written_or none = raise Err.failed
written_or (some text) = pure text

-- buildExportCSV
unfoldable pub build_export_csv :
    Settings → ExportKind → ExportRequest → FieldCatalog → List ℤ → ExportWindow → Exec Err Str
build_export_csv s kind body catalog fields window = do
  rows ← export_rows kind window fields
  contacts ← load_contacts (map (λ (r : ExportRow). r.contact_id) rows) fields
  written_or (
      csv_lines (comma_of body) (
        header_lines catalog (is_timed kind body) body fields
        ++ row_lines s (is_timed kind body) fields contacts rows))

abbrev pub polls_of : Settings → Option ℤ → ℤ
polls_of s none = s.export_polls_before_done
polls_of s (some (pos n)) = pos n
polls_of s (some (negsuc n)) = s.export_polls_before_done

abbrev some_fields : List ℤ → Result Failure (Unit {0})
some_fields [] = err (error code_no_field_to_return)
some_fields (f ∷ fs) = ok tt

-- What startExport does before it makes the job: the file.
unfoldable pub prepare_export : Settings → Clockwork → ExportKind → ExportRequest → Exec Failure Str
prepare_export s k kind body = do
  catalog ← or_internal load_field_catalog
  fields ← lift (resolve_field_list catalog body.contact_fields)
  lift (some_fields fields)
  window ← export_window k body
  or_internal (build_export_csv s kind body catalog fields window)

-- startExport
unfoldable pub start_export :
    Settings → Clockwork → ExportKind → Body ExportRequest → Exec Failure ℕ
start_export s k kind request = do
  body ← lift (decode_json request)
  payload ← prepare_export s k kind body
  or_internal (
      create_export (kind_text kind) (k.marshal_request body) (polls_of s body.polls_before_done)
        payload)

-- POST /api/v2/contact/getchanges
unfoldable pub handle_get_changes : Settings → Clockwork → Body ExportRequest → Exec Failure ℕ
handle_get_changes s k request = start_export s k changes request

-- POST /api/v2/contact/getregistrations
unfoldable pub handle_get_registrations : Settings → Clockwork → Body ExportRequest → Exec Failure ℕ
handle_get_registrations s k request = start_export s k registrations request

-- POST /api/v2/contactlist/{listId}/export
unfoldable pub handle_contact_list_export :
    Settings → Clockwork → Str → Body ExportRequest → Exec Failure ℕ
handle_contact_list_export s k raw request = do
  lookup_list raw
  start_export s k (contactlist raw) request
