-- ===== src/Tests/Export/Client.antt =====
-- Tests of the export over HTTP.
use emarsys_mock.Base.{
  ◌≡◌, refl, arith, ℕ, zero, suc, ◌-◌, ◌≤◌, none, some, Str, [], ◌∷◌, ◌++◌, lit, pos, atoi, itoa,
  itoa_ℕ, trim_space, trim_left, is_empty, str_eq, str_leb, contains, index_of, has_prefix, any,
  all, select, find_first, replicate, take, ltb, if◌then◌else◌,
}
use emarsys_mock.Store.Tables.{in_progress, done}
use emarsys_mock.Store.Exec.{
  World, export_not_ready, ok, err, pure, raise, lift, query, exec, ◌>>=◌, map_err, now_string,
}
use emarsys_mock.Store.Field.{load_field_catalog, fields_by_id, choices_in_order, has, get}
use emarsys_mock.Store.History.{field_changes, changes_in}
use emarsys_mock.Store.Contact.{load_contacts}
use emarsys_mock.Store.Export.{insert_export, update_export, create_export}
use emarsys_mock.Store.Export.Creation.{IsFresh}
use emarsys_mock.Server.Json.{num, decoded, decode_json, scalar_to_string}
use emarsys_mock.Server.Common.{or_internal}
use emarsys_mock.Server.ContactRead.{resolve_field_list}
use emarsys_mock.Server.Csv.{slice_csv, is_rune, is_delimiter, csv_line, csv_lines}
use emarsys_mock.Server.Download.{unread, handle_export_data}
use emarsys_mock.Server.Export.{
  ExportRequest, Clockwork, changes, parse_range_bound, export_window, first_changes, export_rows,
  header_lines, row_lines, build_export_csv, prepare_export, start_export,
}
use emarsys_mock.Server.Export.Client.{statuses_read, status_times, start_export-served}
use emarsys_mock.Tests.{seeded, settings, start}

abbrev letters : Str
letters = 97 ∷ []

numbers : (i : ℕ) → i ≤ 5 → atoi (itoa_ℕ i) ≡ some (pos i)
unfolding atoi itoa_ℕ
numbers zero h = refl
numbers (suc zero) h = refl
numbers (suc (suc zero)) h = refl
numbers (suc (suc (suc zero))) h = refl
numbers (suc (suc (suc (suc zero)))) h = refl
numbers (suc (suc (suc (suc (suc zero))))) h = refl
numbers (suc (suc (suc (suc (suc (suc i)))))) h = absurd (omega arith)

abbrev clockwork : Clockwork
clockwork = record {
  parse_in_zone = λ layout raw. none;
  utc = λ t. [];
  a_day_after = λ now. now;
  end_of_day = λ t. t;
  marshal_request = λ r. [];
}

-- The changes of field 1 with a header, done after one poll.
abbrev request : ExportRequest
request = record {
  distribution_method = [];
  origin = [];
  time_range = [];
  contact_fields = num (49 ∷ []) ∷ [];
  delimiter = [];
  add_field_names_header = pos 1;
  language = [];
  with_timestamp = pos 0;
  notification_url = [];
  polls_before_done = some (pos 1);
}

export_code : Unit {0}
unfolding seeded lit atoi itoa itoa_ℕ trim_space trim_left is_empty str_eq str_leb contains index_of
    has_prefix any all select find_first pure raise lift query exec ◌>>=◌ map_err now_string
    load_field_catalog fields_by_id choices_in_order has get field_changes changes_in load_contacts
    insert_export update_export create_export decode_json scalar_to_string or_internal
    resolve_field_list is_rune is_delimiter csv_line csv_lines parse_range_bound export_window
    first_changes export_rows header_lines row_lines build_export_csv prepare_export start_export
export_code = tt

started_run : (start_export settings clockwork changes (decoded request) start).0 ≡ ok 1
unfolding export_code
started_run = refl

seeded-IsFresh : IsFresh seeded
unfolding seeded
seeded-IsFresh = record { ids = tt }

prepared_run :
    (prepare_export settings clockwork changes request start).0 ≡ ok (lit "Timestamp,f\n")
unfolding export_code
prepared_run = refl

abbrev after_start : World
after_start = (start_export settings clockwork changes (decoded request) start).1

start_export-served_example :
    (payload : Str) × ((prepare_export settings clockwork changes request start).0 ≡ ok payload)
    × (statuses_read
          (status_times settings 3 (49 ∷ []) (record start { tables = after_start.tables })).0
        ≡ take 3 (replicate 1 (some in_progress)) ++ replicate (3 - 1) (some done))
    × ((handle_export_data
          (49 ∷ [])
          []
          []
          (status_times settings 3 (49 ∷ []) (record start { tables = after_start.tables })).1).0
        ≡ (if ltb 1 3 then ok (slice_csv payload [] []) else err (unread (pos 1) export_not_ready)))
unfolding itoa_ℕ
start_export-served_example =
    start_export-served settings clockwork changes request start
      (record start { tables = after_start.tables }) 1 3 1 (49 ∷ []) [] [] seeded-IsFresh refl
      started_run refl (λ i. refl) one
  where
    one : atoi (49 ∷ []) ≡ some (pos 1)
    one = numbers 1 (omega arith)
