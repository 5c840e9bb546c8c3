-- ===== src/Store/RequestLog.antt =====
-- internal/store/requestlog.go: the log of requests. The table is a component of its own, since the rest
-- of the store does not use it.
pub mod Bounds
use emarsys_mock.Base.{
  ℕ, zero, suc, ◌+◌, ◌-◌, ◌%◌, Bool, true, false, not, ◌&&◌, ◌||◌, Option, none, some, List, [],
  ◌∷◌, ◌++◌, Str, is_empty, str_eq, select, take, ltb, leb, ◌==◌, like, ℤ, pos, negsuc, int_eq,
  int_lt, is_positive, if◌then◌else◌,
}
use emarsys_mock.Store.Exec.{Err, Result, ok, err}

-- A row; its time is the text of the column.
pub record LogEntry : Type 0 where
  pub id : ℕ
  pub ts : Str
  pub method : Str
  pub path : Str
  pub query : Str
  pub auth_user : Str
  pub http_status : ℤ
  pub reply_code : Option ℤ
  pub request_body : Str
  pub response_body : Str
  pub duration_ms : ℤ

-- The rows in the order of their ids, and the last id that was given.
pub record RequestLog : Type 0 where
  pub rows : List LogEntry
  pub seq : ℕ

unfoldable pub insert_entry : LogEntry → RequestLog → RequestLog
insert_entry e log = record {
  rows = log.rows ++ record e { id = log.seq + 1 } ∷ [];
  seq = log.seq + 1;
}

abbrev is_after : ℤ → LogEntry → Bool
is_after bound e = int_lt bound (pos e.id)

abbrev pub minus : ℕ → ℤ → ℤ
minus id (pos max) = if leb max id then pos (id - max) else negsuc (max - id - 1)
minus id (negsuc n) = pos (id + suc n)

-- DELETE FROM request_log WHERE id <= ?
unfoldable pub trim : ℤ → RequestLog → RequestLog
trim bound log = record log { rows = select (is_after bound) log.rows }

abbrev trimmed : Bool → ℤ → RequestLog → Result Err (Unit {0}) × RequestLog
trimmed true bound log = (err Err.failed, log)
trimmed false bound log = (ok tt, trim bound log)

-- AppendRequestLog; the first two arguments say whether the INSERT and the DELETE fail.
unfoldable pub append_request_log :
    Bool → Bool → LogEntry → ℤ → RequestLog → Result Err (Unit {0}) × RequestLog
append_request_log insert_fails trim_fails e max log =
    if insert_fails
    then (err Err.failed, log)
    else if not (is_positive max) || not ((log.seq + 1) % 128 == 0)
    then (ok tt, insert_entry e log)
    else trimmed trim_fails (minus (log.seq + 1) max) (insert_entry e log)

-- A limit, a status and a text of 0 or nothing do not narrow the query.
pub record LogFilter : Type 0 where
  pub since_id : ℤ
  pub path : Str
  pub method : Str
  pub status : ℤ
  pub limit : ℤ

abbrev pub passes : LogFilter → LogEntry → Bool
passes f e =
    int_lt f.since_id (pos e.id)
    && (is_empty f.path || like (b'%' ∷ (f.path ++ b'%' ∷ [])) e.path)
    && (is_empty f.method || str_eq e.method f.method)
    && (int_eq f.status (pos 0) || int_eq e.http_status f.status)

abbrev pub limit_or_default : ℤ → ℕ
limit_or_default (pos zero) = 200
limit_or_default (pos (suc n)) = suc n
limit_or_default (negsuc n) = 200

-- RequestLogEntries
unfoldable pub request_log_entries : LogFilter → RequestLog → List LogEntry
request_log_entries f log = take (limit_or_default f.limit) (select (passes f) log.rows)
