-- ===== src/Tests/Logging.antt =====
-- Two entries of the request log, and a handler that writes its answer in pieces.
use emarsys_mock.Base.{
  ◌≡◌, ◌⊎◌, refl, ◌+◌, ◌≤◌, Bool, true, false, none, some, List, [], ◌∷◌, ◌++◌, select, any,
  has_prefix, is_empty, Str, lit, take, length, pos,
}
use emarsys_mock.Store.RequestLog.{
  LogEntry, LogFilter, request_log_entries, append_request_log, insert_entry,
}
use emarsys_mock.Store.RequestLog.Bounds.{append_all, no_log, append_all-bounds}
use emarsys_mock.Httpx.Logging.{
  Act, write_header, write, auth_user, new_recorder, status_or, run_acts, act, LogOptions, Served,
  drain_body, log_entry, logging,
}
use emarsys_mock.Httpx.Logging.Recorded.{written, first_status, run_acts-recorded}

abbrev entry : Str → LogEntry
entry path = record {
  id = 0;
  ts = 50 ∷ [];
  method = lit "GET";
  path = path;
  query = [];
  auth_user = [];
  http_status = pos 200;
  reply_code = none;
  request_body = [];
  response_body = [];
  duration_ms = pos 1;
}

abbrev entries : List (Bool × LogEntry)
entries =
    (false, entry (lit "/api/v2/field"))
    ∷ (true, entry (lit "/lost"))
    ∷ (false, entry (lit "/api/v2/event"))
    ∷ []

append_all-bounds_example :
    (length (append_all (pos 1) entries no_log).rows ≤ 1 + 127)
    × ((1 ≤ length (append_all (pos 1) entries no_log).rows)
        ⊎ (length (append_all (pos 1) entries no_log).rows
            ≡ (append_all (pos 1) entries no_log).seq))
append_all-bounds_example = append_all-bounds 0 entries

abbrev acts : List Act
acts = auth_user (lit "u") ∷ write (lit "abc") ∷ write_header (pos 500) ∷ write (lit "def") ∷ []

run_acts-recorded_example :
    ((run_acts acts (new_recorder 4)).body ≡ take 4 (written acts))
    × (status_or (run_acts acts (new_recorder 4)).status (pos 200) ≡ first_status acts)
run_acts-recorded_example = run_acts-recorded 4 acts

abbrev options : LogOptions
unfolding lit
options = record { max = pos 5; max_body_bytes = pos 4; skip_prefixes = lit "/_ui" ∷ [] }

abbrev served : Str → Served
served path = record {
  started = 50 ∷ [];
  method = lit "GET";
  path = path;
  raw_query = [];
  body = some (lit "hello");
  acts = acts;
  duration_ms = pos 1;
}

abbrev any_entry : LogFilter
any_entry = record { since_id = pos 0; path = []; method = []; status = pos 0; limit = pos 0 }

abbrev bodies : List LogEntry → List (Str × Str)
bodies [] = []
bodies (e ∷ es) = (e.request_body, e.response_body) ∷ bodies es

abbrev served_bodies : Str → List (Str × Str)
served_bodies path =
    bodies (request_log_entries any_entry (logging false false options (served path) no_log).1)

short_bodies :
    served_bodies (lit "/api")
    ≡ (lit "hell" ++ (226 ∷ 128 ∷ 166 ∷ lit "(truncated)"), lit "abcd") ∷ []
unfolding request_log_entries logging log_entry drain_body run_acts act append_request_log
    insert_entry lit select any has_prefix is_empty
short_bodies = refl

skipped_path : served_bodies (lit "/_ui/polling") ≡ []
unfolding request_log_entries logging run_acts act append_request_log insert_entry lit select any
    has_prefix is_empty
skipped_path = refl
