-- ===== src/Httpx/Logging.antt =====
-- internal/httpx/log.go: what is recorded of a request and its answer.
pub mod Recorded
use emarsys_mock.Base.{
  ℕ, ◌+◌, ◌-◌, Bool, true, false, not, ◌&&◌, Option, none, some, List, [], ◌∷◌, ◌++◌, Str, lit,
  has_prefix, any, take, length, ltb, leb, ℤ, pos, int_eq, if◌then◌else◌,
}
use emarsys_mock.Store.Exec.{Err, Result, ok}
use emarsys_mock.Store.RequestLog.{LogEntry, RequestLog, append_request_log}

-- A handler's calls of its writer: a status, bytes of the body, the reply code of an envelope, and the
-- name of the user.
pub data Act : Type 0 where
  write_header : ℤ → Act
  write : Str → Act
  reply_code : ℤ → Act
  auth_user : Str → Act

-- recorder; a status of 0 is none yet
pub record Recorder : Type 0 where
  pub status : ℤ
  pub reply_code : Option ℤ
  pub auth_user : Str
  pub body : Str
  pub limit : ℕ

abbrev pub new_recorder : ℕ → Recorder
new_recorder limit = record {
  status = pos 0;
  reply_code = none;
  auth_user = [];
  body = [];
  limit = limit;
}

abbrev pub status_or : ℤ → ℤ → ℤ
status_or status other = if int_eq status (pos 0) then other else status

-- How many bytes of `p` there is room for.
abbrev room_for : Recorder → Str → ℕ
room_for rec p =
    if ltb (length p) (rec.limit - length rec.body) then length p else rec.limit - length rec.body

-- The methods of the recorder
unfoldable pub act : Act → Recorder → Recorder
act (write_header status) rec = record rec { status = status_or rec.status status }
act (write p) rec = record rec {
  status = status_or rec.status (pos 200);
  body = if ltb (length rec.body) rec.limit then rec.body ++ take (room_for rec p) p else rec.body;
}
act (reply_code code) rec = record rec { reply_code = some code }
act (auth_user user) rec = record rec { auth_user = user }

unfoldable pub run_acts : List Act → Recorder → Recorder
run_acts [] rec = rec
run_acts (a ∷ acts) rec = run_acts acts (act a rec)

-- What goes on to the writer behind the recorder.
abbrev pub passed_on : List Act → List Act
passed_on [] = []
passed_on (write_header status ∷ acts) = write_header status ∷ passed_on acts
passed_on (write p ∷ acts) = write p ∷ passed_on acts
passed_on (reply_code code ∷ acts) = passed_on acts
passed_on (auth_user user ∷ acts) = passed_on acts

pub record LogOptions : Type 0 where
  pub max : ℤ
  pub max_body_bytes : ℤ
  pub skip_prefixes : List Str

abbrev pub body_limit : ℤ → ℕ
body_limit (pos (ℕ.suc n)) = ℕ.suc n
body_limit _ = 65536

-- The ellipsis of "…(truncated)", in UTF-8
abbrev truncated_note : Str
truncated_note = 226 ∷ 128 ∷ 166 ∷ lit "(truncated)"

-- drainBody: a body that there is not, or that could not be read, is "".
unfoldable pub drain_body : Option Str → ℕ → Str
drain_body none limit = []
drain_body (some raw) limit =
    if ltb limit (length raw) then take limit raw ++ truncated_note else raw

-- A request with its body, as far as it could be read, and the handler's calls for it; `started` and
-- `duration` are what the clock says.
pub record Served : Type 0 where
  pub started : Str
  pub method : Str
  pub path : Str
  pub raw_query : Str
  pub body : Option Str
  pub acts : List Act
  pub duration_ms : ℤ

abbrev pub is_skipped : LogOptions → Served → Bool
is_skipped o r = any (has_prefix r.path) o.skip_prefixes

unfoldable pub log_entry : LogOptions → Served → LogEntry
log_entry o r =
    let rec = run_acts r.acts (new_recorder (body_limit o.max_body_bytes)) in
    record {
      id = 0;
      ts = r.started;
      method = r.method;
      path = r.path;
      query = r.raw_query;
      auth_user = rec.auth_user;
      http_status = status_or rec.status (pos 200);
      reply_code = rec.reply_code;
      request_body = drain_body r.body (body_limit o.max_body_bytes);
      response_body = rec.body;
      duration_ms = r.duration_ms;
    }

-- Logging: what the client is sent, and the log after it; an error of the log is dropped.
unfoldable pub logging : Bool → Bool → LogOptions → Served → RequestLog → List Act × RequestLog
logging insert_fails trim_fails o r log = if is_skipped o r then (passed_on r.acts, log) else (
  passed_on r.acts,
  (append_request_log insert_fails trim_fails (log_entry o r) o.max log).1,
)
