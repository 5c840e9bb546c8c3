-- ===== src/Store/Export.antt =====
-- internal/store/export.go: export jobs.
pub mod Polling
pub mod Creation
use emarsys_mock.Base.{
  ℕ, ◌+◌, Bool, true, false, not, ◌&&◌, ◌||◌, Option, none, some, List, [], ◌∷◌, ◌++◌, map, reverse,
  Str, lit, ℤ, pos, negsuc, int_eq, int_lt, plus_one, itoa_ℕ, if◌then◌else◌, any, find_first, take,
  is_nonneg,
}
use emarsys_mock.Store.Tables.{Tables, Export, ExportStatus, scheduled, in_progress, done}
use emarsys_mock.Store.Exec.{
  Err, no_export, export_not_ready, Exec, ◌>>=◌, ◌>>◌, pure, raise, query, exec, now_string,
}

-- INSERT INTO exports
unfoldable pub insert_export : Str → Str → Str → ℤ → Str → Tables → Option (ℕ × Tables)
insert_export type params created polls_before_done payload t =
    let id = t.exports.seq + 1 in
    let row : Export = record {
      id = id;
      type = type;
      status = scheduled;
      params = params;
      created_at = created;
      ready_at = none;
      poll_count = pos 0;
      polls_before_done = polls_before_done;
      file_name = [];
      payload = payload;
    } in
    some (id, record t { exports = record { rows = t.exports.rows ++ row ∷ []; seq = id } })

abbrev pub is_export : ℤ → Export → Bool
is_export id e = int_eq (pos e.id) id

abbrev pub changed : ℤ → (Export → Export) → Export → Export
changed id f e = if is_export id e then f e else e

-- UPDATE exports SET ... WHERE id = ?: whether there is such a row.
unfoldable pub update_export : ℤ → (Export → Export) → Tables → Option (Bool × Tables)
update_export id f t = some (
  any (is_export id) t.exports.rows,
  record t { exports = record t.exports { rows = map (changed id f) t.exports.rows } },
)

abbrev pub named : Str → Export → Export
named name e = record e { file_name = name }

-- CreateExport
unfoldable pub create_export : Str → Str → ℤ → Str → Exec Err ℕ
create_export type params polls_before_done payload = do
  created ← now_string
  id ← exec (insert_export type params created polls_before_done payload)
  exec (update_export (pos id) (named (type ++ lit "_" ++ itoa_ℕ id ++ lit ".csv")))
  pure id

-- SELECT ... FROM exports WHERE id = ?
unfoldable pub export_row : ℤ → Tables → Option Export
export_row id t = find_first (is_export id) t.exports.rows

abbrev pub export_or : Option Export → Exec Err Export
export_or none = raise no_export
export_or (some e) = pure e

-- ExportByID
unfoldable pub export_by_id : ℤ → Exec Err Export
export_by_id id = do row ← query (export_row id); export_or row

abbrev pub is_finished : ExportStatus → Bool
is_finished done = true
is_finished ExportStatus.error = true
is_finished _ = false

abbrev pub polled : Export → Export
polled e = record e { poll_count = plus_one e.poll_count; status = in_progress }

abbrev pub readied : Str → Export → Export
readied now e = record e { poll_count = plus_one e.poll_count; status = done; ready_at = some now }

-- The part of PollExport that advances the job: the row gets the values computed from what was read.
unfoldable pub advance : ℤ → Export → Exec Err Export
advance id e =
    if int_lt e.polls_before_done (plus_one e.poll_count)
    then (do
      now ← now_string
      exec (
          update_export id (λ r. record r {
            poll_count = plus_one e.poll_count;
            status = done;
            ready_at = some now;
          }))
      pure (readied now e))
    else (do
      exec (
          update_export id
            (λ r. record r { poll_count = plus_one e.poll_count; status = in_progress }))
      pure (polled e))

-- PollExport
unfoldable pub poll_export : ℤ → Exec Err Export
poll_export id = do e ← export_by_id id; if is_finished e.status then pure e else advance id e

-- SELECT ... FROM exports ORDER BY id DESC LIMIT ?: a negative limit is none.
unfoldable pub newest_exports : ℤ → Tables → List Export
newest_exports (pos limit) t = take limit (reverse t.exports.rows)
newest_exports (negsuc n) t = reverse t.exports.rows

unfoldable pub exports : ℤ → Exec Err (List Export)
exports limit = query (newest_exports limit)

abbrev pub forced : ExportStatus → Option Str → Export → Export
forced status none e = record e { status = status }
forced status (some now) e = record e { status = status; ready_at = some now }

abbrev pub store_status : ℤ → ExportStatus → Option Str → Exec Err (Unit {0})
store_status id status ready = do
  hit ← exec (update_export id (forced status ready))
  if hit then pure tt else raise no_export

-- SetExportStatus
unfoldable pub set_export_status : ℤ → ExportStatus → Exec Err (Unit {0})
set_export_status id done = do now ← now_string; store_status id done (some now)
set_export_status id status = store_status id status none

abbrev pub is_done : ExportStatus → Bool
is_done done = true
is_done _ = false

-- SELECT payload FROM exports WHERE id = ?: the error of no row is the driver's.
abbrev payload_or : Option Export → Exec Err Str
payload_or none = raise Err.failed
payload_or (some e) = pure e.payload

-- ExportPayload
unfoldable pub export_payload : ℤ → Exec Err Str
export_payload id = do
  e ← export_by_id id
  if not (is_done e.status)
      then raise export_not_ready
      else (do row ← query (export_row id); payload_or row)
