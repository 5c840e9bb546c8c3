-- ===== src/Server/Export/Client.antt =====
-- What a client sees of an export that it starts, polls and downloads.
use emarsys_mock.Base.{
  ◌≡◌, refl, ap, ◌∙◌, arith, ℕ, zero, suc, ◌-◌, Bool, true, false, Option, none, some, List, [],
  ◌∷◌, ◌++◌, map, Str, ℤ, pos, atoi, replicate, take, ltb, if◌then◌else◌,
}
use emarsys_mock.Api.{Failure}
use emarsys_mock.Store.Tables.{Tables, Export, ExportStatus, in_progress, done}
use emarsys_mock.Store.Exec.{
  Err, export_not_ready, Result, ok, err, World, ◌>>=◌, pure, lift, map_err, retyped,
}
use emarsys_mock.Store.Exec.Rules.{Reads, reads_rules, Reads-query}
use emarsys_mock.Store.Field.{FieldCatalog}
use emarsys_mock.Store.Contact.{load_contacts}
use emarsys_mock.Store.History.{field_changes}
use emarsys_mock.Store.List.{list_members}
use emarsys_mock.Store.Export.{create_export, poll_export, export_payload, export_row}
use emarsys_mock.Store.Export.Creation.{IsFresh, Made, create_export-Made}
use emarsys_mock.Store.Export.Polling.{
  Job, Going, poll_times, statuses, status_of, poll_times-export_payload,
}
use emarsys_mock.Server.Json.{decoded, decode_json}
use emarsys_mock.Server.Common.{
  Settings, or_internal, Reads-or_internal, Yields-or_internal, path_int64,
}
use emarsys_mock.Server.Contact.Atomicity.{Reads-load_field_catalog}
use emarsys_mock.Server.Csv.{slice_csv}
use emarsys_mock.Server.Download.{
  StatusAnswer, status_answer, unread, unpolled, handle_export_status, handle_export_data,
}
use emarsys_mock.Server.Export.{
  ExportRequest, Clockwork, ExportKind, ExportWindow, changes, registrations, contactlist,
  kind_text, polls_of, list_rows, written_or, export_window, export_rows, build_export_csv,
  prepare_export, start_export,
}

Reads-load_contacts : (ids : List ℕ) (fields : List ℤ) → Reads (load_contacts ids fields)
unfolding load_contacts
Reads-load_contacts [] fields = search reads_rules
Reads-load_contacts (i ∷ ids) fields = search (reads_rules, Reads-query)

Reads-list_rows : (list : Option ℤ) → Reads (list_rows list)
unfolding list_members
Reads-list_rows none = search reads_rules
Reads-list_rows (some list) = search (reads_rules, Reads-query)

Reads-export_rows :
    (kind : ExportKind) (window : ExportWindow) (fields : List ℤ)
    → Reads (export_rows kind window fields)
unfolding export_rows field_changes
Reads-export_rows changes window fields = search (reads_rules, Reads-query)
Reads-export_rows registrations window fields = search (reads_rules, Reads-query)
Reads-export_rows (contactlist raw) window fields = Reads-list_rows (atoi raw)

Reads-written_or : (text : Option Str) → Reads (written_or text)
Reads-written_or none = search reads_rules
Reads-written_or (some text) = search reads_rules

Reads-build_export_csv :
    (s : Settings) (kind : ExportKind) (body : ExportRequest) (catalog : FieldCatalog)
    (fields : List ℤ) (window : ExportWindow)
    → Reads (build_export_csv s kind body catalog fields window)
unfolding build_export_csv
Reads-build_export_csv s kind body catalog fields window =
    search (reads_rules, Reads-export_rows, Reads-load_contacts, Reads-written_or)

Reads-prepare_export :
    (s : Settings) (k : Clockwork) (kind : ExportKind) (body : ExportRequest)
    → Reads (prepare_export s k kind body)
unfolding prepare_export export_window
Reads-prepare_export s k kind body =
    search (reads_rules, Reads-or_internal, Reads-load_field_catalog, Reads-build_export_csv) depth
      14

-- A job that was started, with the file that was prepared for it.
record Started (prepared : Result Failure Str) (polls : ℤ) (id : ℕ) (t : Tables) : Type 0 where
  pub payload : Str
  pub prepared_ok : prepared ≡ ok payload
  pub made : Made polls payload id t

started :
    (s : Settings) (k : Clockwork) (kind : ExportKind) (body : ExportRequest) (w v : World)
    (r : Result Failure Str) (id : ℕ)
    → IsFresh v.tables
    → ((lift r >>= λ payload. or_internal (
          create_export
            (kind_text kind)
            (k.marshal_request body)
            (polls_of s body.polls_before_done)
            payload))
        v).0
      ≡ ok id
    → Started r
        (polls_of s body.polls_before_done)
        id
        ((lift r >>= λ payload. or_internal (
            create_export
              (kind_text kind)
              (k.marshal_request body)
              (polls_of s body.polls_before_done)
              payload))
          v).1.tables
unfolding lift ◌>>=◌
started s k kind body w v (ok payload) id fresh h = record {
  payload = payload;
  prepared_ok = refl;
  made =
      (Yields-or_internal _ (
          create_export-Made (kind_text kind) (k.marshal_request body)
            (polls_of s body.polls_before_done) payload)).at
        v id fresh h;
}
started s k kind body w v (err e) id fresh h = cc

start_export-Started :
    (s : Settings) (k : Clockwork) (kind : ExportKind) (body : ExportRequest) (w : World) (id : ℕ)
    → IsFresh w.tables
    → (start_export s k kind (decoded body) w).0 ≡ ok id
    → Started
        (prepare_export s k kind body w).0
        (polls_of s body.polls_before_done)
        id
        (start_export s k kind (decoded body) w).1.tables
unfolding start_export decode_json lift ◌>>=◌
start_export-Started s k kind body w id fresh h =
    let (r, v) = prepare_export s k kind body w in
    started s k kind body w v r id (rw ((Reads-prepare_export s k kind body).at w) fresh) h

-- The requests for the status of a job, one after the other, with their answers.
unfoldable pub status_times :
    Settings → ℕ → Str → World → List (Result Failure StatusAnswer) × World
status_times s zero raw w = ([], w)
status_times s (suc n) raw w =
    let (r, w') = handle_export_status s raw w in
    let (rs, w'') = status_times s n raw w' in (r ∷ rs, w'')

abbrev pub status_read : Result Failure StatusAnswer → Option ExportStatus
status_read (ok a) = some a.status
status_read (err e) = none

abbrev pub statuses_read : List (Result Failure StatusAnswer) → List (Option ExportStatus)
statuses_read rs = map status_read rs

module _ (s : Settings) (raw : Str) (id : ℤ) (read : atoi raw ≡ some id) where
  status-poll :
      (w : World)
      → (status_read (handle_export_status s raw w).0 ≡ status_of (poll_export id w).0)
        × ((handle_export_status s raw w).1 ≡ (poll_export id w).1)
  unfolding handle_export_status path_int64 lift ◌>>=◌ map_err pure
  status-poll w = rw (read) (go (poll_export id w))
    where
      go :
          (x : Result Err Export × World)
          → (status_read ((map_err (unpolled id) (λ _. x) >>= λ e. pure (status_answer s e)) w).0
              ≡ status_of x.0)
            × (((map_err (unpolled id) (λ _. x) >>= λ e. pure (status_answer s e)) w).1 ≡ x.1)
      go (ok e, v) = (refl, refl)
      go (err e, v) = (refl, refl)

  status_times-poll_times :
      (n : ℕ) (w : World)
      → (statuses_read (status_times s n raw w).0 ≡ statuses (poll_times n id w).0)
        × ((status_times s n raw w).1 ≡ (poll_times n id w).1)
  unfolding status_times poll_times
  status_times-poll_times zero w = (refl, refl)
  status_times-poll_times (suc n) w =
      let (here, to) = status-poll w in
      let (rest, end) = status_times-poll_times n (poll_export id w).1 in
      (rw (to, here, rest), rw (to, end))

  data-payload :
      (offset limit : Str) (w : World) (r : Result Err Str)
      → (export_payload id w).0 ≡ r
      → (handle_export_data raw offset limit w).0
        ≡ ((lift (retyped (unread id) r) >>= λ payload. pure (slice_csv payload offset limit))
            (export_payload id w).1).0
  unfolding handle_export_data path_int64 lift ◌>>=◌ map_err pure
  data-payload offset limit w r h = rw (read) (go (export_payload id w) r h)
    where
      go :
          (x : Result Err Str × World) (r : Result Err Str)
          → x.0 ≡ r
          → ((map_err (unread id) (λ _. x) >>= λ payload. pure (slice_csv payload offset limit))
              w).0
            ≡ ((lift (retyped (unread id) r) >>= λ payload. pure (slice_csv payload offset limit))
                x.1).0
      go (ok a, v) r h = rw (← h)
      go (err e, v) r h = rw (← h)

Made-Job :
    (polls : ℤ) (payload : Str) (id : ℕ) (t : Tables) (v : World) (m : Made polls payload id t)
    → v.tables.exports ≡ t.exports
    → ((n : ℕ) → v.driver.fails n ≡ false)
    → Job (pos id) m.job v
unfolding export_row
Made-Job polls payload id t v m kept sound = record { row = rw (kept) m.row; sound = sound }

Made-Going :
    (room : ℕ) (payload : Str) (id : ℕ) (t : Tables) (m : Made (pos room) payload id t)
    → Going room m.job
Made-Going room payload id t m = record {
  polls = 0;
  count = m.unpolled;
  goal = m.goal ∙ ap pos (omega arith);
  going = rw (m.waiting) refl;
}

-- When a request starts an export, the file of the export has been prepared, and a client that asks n
-- times for the status of the job reads "in progress" as often as there are polls before it is done and
-- "done" from then on; the data is refused as not finished until a status has read "done", and after that
-- is the slice of the prepared file that is asked for. This is if no job had an id that was not given yet,
-- the jobs are as the start left them when the client begins, the database does not fail from there on,
-- and the path's text is read as the id that the start answered.
pub start_export-served :
    (s : Settings) (k : Clockwork) (kind : ExportKind) (body : ExportRequest) (w v : World)
    (id n room : ℕ) (raw offset limit : Str)
    → IsFresh w.tables
    → polls_of s body.polls_before_done ≡ pos room
    → (start_export s k kind (decoded body) w).0 ≡ ok id
    → v.tables.exports ≡ (start_export s k kind (decoded body) w).1.tables.exports
    → ((i : ℕ) → v.driver.fails i ≡ false)
    → atoi raw ≡ some (pos id)
    → (payload : Str) × ((prepare_export s k kind body w).0 ≡ ok payload)
      × (statuses_read (status_times s n raw v).0
          ≡ take n (replicate room (some in_progress)) ++ replicate (n - room) (some done))
      × ((handle_export_data raw offset limit (status_times s n raw v).1).0 ≡ (
          if ltb room n
          then ok (slice_csv payload offset limit)
          else err (unread (pos id) export_not_ready)))
unfolding lift ◌>>=◌ pure
start_export-served s k kind body w v id n room raw offset limit fresh polls ran kept sound read =
    let st = rw (polls) at (start_export-Started s k kind body w id fresh ran) in
    let m = st.made in
    let job = Made-Job (pos room) st.payload id _ v m kept sound in
    let (answers, content) =
      poll_times-export_payload n room (pos id) m.job v job (Made-Going room st.payload id _ m) in
    let (same, end) = status_times-poll_times s raw (pos id) read n v in
    (
      st.payload,
      st.prepared_ok,
      same ∙ answers,
      rw (end) (
          data-payload s raw (pos id) read offset limit (poll_times n (pos id) v).1 _
            (content ∙ rw (m.content))
          ∙ answer (ltb room n) st.payload (export_payload (pos id) (poll_times n (pos id) v).1).1),
    )
  where
    answer :
        (there : Bool) (payload : Str) (u : World)
        → ((lift (retyped (unread (pos id)) (if there then ok payload else err export_not_ready))
              >>= λ p. pure (slice_csv p offset limit))
            u).0
          ≡ (if there
              then ok (slice_csv payload offset limit)
              else err (unread (pos id) export_not_ready))
    answer true payload u = refl
    answer false payload u = refl
