-- ===== src/Server/Ctl.antt =====
-- internal/server/ctl.go: the guard of the control plane, and its handlers but for the seeding.
pub mod Seed
pub mod Routes
pub mod Guarded
pub mod Audited
pub mod Forced
pub mod Undone
use emarsys_mock.Base.{
  ℕ, ◌-◌, Bool, true, false, not, ◌&&◌, Option, none, some, List, [], ◌∷◌, ◌++◌, Str, lit, is_empty,
  str_eq, any, is_lower, to_upper, drop, length, has_prefix, ℤ, pos, atoi, is_positive,
  if◌then◌else◌,
}
use emarsys_mock.Store.Tables.{
  Tables, EventTrigger, FaultRule, ExportStatus, scheduled, in_progress, done,
}
use emarsys_mock.Store.Exec.{
  Err, no_fault_rule, no_export, Result, ok, err, World, Exec, ◌>>=◌, ◌>>◌, pure, raise, lift,
  map_err, query,
}
use emarsys_mock.Store.Event.{triggers}
use emarsys_mock.Store.Fault.{fault_rules, create_fault_rule, delete_fault_rule}
use emarsys_mock.Store.Export.{set_export_status}
use emarsys_mock.Store.RequestLog.{LogEntry, LogFilter, RequestLog, request_log_entries}
use emarsys_mock.Server.Common.{Settings}

-- The settings, the text of an error, DB.Reset (which runs the SQL of the migrations), the part of
-- net.SplitHostPort that is the host, and whether net.ParseIP finds an address of this machine.
pub record Control : Type 0 where
  pub ctl_token : Str
  pub read_only : Bool
  pub export_timezone : Str
  pub rate_limit_per_minute : ℤ
  pub webhook_configured : Bool
  pub err_text : Err → Str
  pub reset : Exec Err (Unit {0})
  pub host_of : Str → Option Str
  pub is_loopback_ip : Str → Bool

-- ctlFail
pub record CtlFailure : Type 0 where
  pub status : ℤ
  pub message : Str

-- What the guard reads of a request; a header that there is not is "".
pub record CtlRequest : Type 0 where
  pub ctl_header : Str
  pub authorization : Str
  pub query_token : Str
  pub cookie : Option Str
  pub remote_addr : Str

abbrev pub trim_prefix : Str → Str → Str
trim_prefix s prefix = if has_prefix s prefix then drop (length prefix) s else s

abbrev pub candidates : CtlRequest → List Str
candidates r =
    r.ctl_header
    ∷ trim_prefix r.authorization (lit "Bearer ")
    ∷ r.query_token
    ∷ elim r.cookie [ none ↦ [] | some value ↦ value ∷ [] ]

abbrev pub is_token : Control → Str → Bool
is_token c candidate = not (is_empty candidate) && str_eq candidate c.ctl_token

-- hasCtlToken
unfoldable pub has_ctl_token : Control → CtlRequest → Bool
has_ctl_token c r = any (is_token c) (candidates r)

-- isLoopback
unfoldable pub is_loopback : Control → CtlRequest → Bool
is_loopback c r =
    c.is_loopback_ip (elim (c.host_of r.remote_addr) [ none ↦ r.remote_addr | some host ↦ host ])

-- ctlAuth
unfoldable pub ctl_auth :
    {A : Type 0} → Control → CtlRequest → Exec CtlFailure A → Exec CtlFailure A
ctl_auth c r next =
    if not (is_empty c.ctl_token)
    then (if has_ctl_token c r
        then next
        else raise (record { status = pos 401; message = lit "control plane token required" }))
    else if is_loopback c r
    then next
    else raise (record {
      status = pos 403;
      message = lit "control plane is restricted to localhost; set CTL_TOKEN to open it up";
    })

-- requireWritable, before the rest of a handler
unfoldable pub require_writable : {A : Type 0} → Control → Exec CtlFailure A → Exec CtlFailure A
require_writable c rest =
    if c.read_only
    then raise (record { status = pos 403; message = lit "instance is running in read-only mode" })
    else rest

abbrev pub failing : Control → Err → CtlFailure
failing c e = record { status = pos 500; message = c.err_text e }

abbrev invalid : Str → CtlFailure
invalid message = record { status = pos 400; message = message }

-- A body that json.Decoder reads, or the text of its error
abbrev pub body_of : {A : Type 0} → Result Str A → Result CtlFailure A
body_of (ok body) = ok body
body_of (err e) = err (invalid (lit "invalid JSON: " ++ e))

pub record Health : Type 0 where
  pub read_only : Bool
  pub fields : ℕ
  pub contacts : ℕ
  pub export_timezone : Str
  pub rate_limit_per_minute : ℤ
  pub export_polls_before_done : ℤ
  pub webhook_configured : Bool

-- An error leaves a count at 0.
abbrev or_zero : Exec Err ℕ → Exec CtlFailure ℕ
or_zero m w = let (r, w') = m w in (elim r [ ok n ↦ ok n | err e ↦ ok 0 ], w')

-- GET /_ctl/health
unfoldable pub handle_ctl_health : Settings → Control → Exec CtlFailure Health
handle_ctl_health s c = do
  fields ← or_zero (query λ t. length t.fields.rows)
  contacts ← or_zero (query λ t. length t.contacts.rows)
  pure (record {
    read_only = c.read_only;
    fields = fields;
    contacts = contacts;
    export_timezone = c.export_timezone;
    rate_limit_per_minute = c.rate_limit_per_minute;
    export_polls_before_done = s.export_polls_before_done;
    webhook_configured = c.webhook_configured;
  })

abbrev reset_failure : Control → Err → CtlFailure
reset_failure c e = record { status = pos 500; message = lit "reset failed: " ++ c.err_text e }

-- POST /_ctl/reset
unfoldable pub handle_ctl_reset : Control → Exec CtlFailure (Unit {0})
handle_ctl_reset c = require_writable c (map_err (reset_failure c) c.reset)

pub record RequestParams : Type 0 where
  pub path : Str
  pub method : Str
  pub since : Str
  pub status : Str
  pub limit : Str

abbrev number_or_zero : Option ℤ → ℤ
number_or_zero none = pos 0
number_or_zero (some n) = n

unfoldable pub request_filter : RequestParams → LogFilter
request_filter p = record {
  since_id = number_or_zero (atoi p.since);
  path = p.path;
  method = to_upper p.method;
  status = number_or_zero (atoi p.status);
  limit = number_or_zero (atoi p.limit);
}

-- GET /_ctl/requests
unfoldable pub handle_ctl_requests :
    Control → RequestLog → RequestParams → Exec CtlFailure (List LogEntry)
handle_ctl_requests c log p =
    map_err (failing c) (query λ t. request_log_entries (request_filter p) log)

abbrev positive_or : ℤ → Option ℤ → ℤ
positive_or default none = default
positive_or default (some n) = if is_positive n then n else default

-- GET /_ctl/events/triggers, with the event_id and the limit of the query
unfoldable pub handle_ctl_triggers :
    Control → Str → Str → Exec CtlFailure (List (Str × EventTrigger))
handle_ctl_triggers c event limit =
    map_err (failing c)
      (triggers (number_or_zero (atoi event)) (positive_or (pos 200) (atoi limit)))

-- GET /_ctl/faults, with the parameter `enabled` of the query
unfoldable pub handle_ctl_fault_list : Control → Str → Exec CtlFailure (List FaultRule)
handle_ctl_fault_list c enabled = map_err (failing c) (fault_rules (str_eq enabled (lit "1")))

-- POST /_ctl/faults
unfoldable pub handle_ctl_fault_create : Control → Result Str FaultRule → Exec CtlFailure FaultRule
handle_ctl_fault_create c request =
    require_writable c
      (do rule ← lift (body_of request); map_err (failing c) (create_fault_rule rule))

abbrev path_id : Str → Option ℤ → Result CtlFailure ℤ
path_id message none = err (invalid message)
path_id message (some id) = ok id

abbrev undeleted_rule : Control → Err → CtlFailure
undeleted_rule c no_fault_rule = record { status = pos 404; message = lit "no such fault rule" }
undeleted_rule c e = failing c e

-- DELETE /_ctl/faults/{faultId}
unfoldable pub handle_ctl_fault_delete : Control → Str → Exec CtlFailure ℤ
handle_ctl_fault_delete c raw = require_writable c (do
  id ← lift (path_id (lit "invalid fault id") (atoi raw))
  map_err (undeleted_rule c) (delete_fault_rule id)
  pure id)

abbrev pub export_status : Str → Result CtlFailure ExportStatus
export_status s =
    if str_eq s (lit "scheduled")
    then ok scheduled
    else if str_eq s (lit "in progress")
    then ok in_progress
    else if str_eq s (lit "done")
    then ok done
    else if str_eq s (lit "error")
    then ok ExportStatus.error
    else err
        (invalid (lit "status must be one of \"scheduled\", \"in progress\", \"done\", \"error\""))

abbrev unforced : Control → Err → CtlFailure
unforced c no_export = record { status = pos 404; message = lit "no such export" }
unforced c e = failing c e

-- POST /_ctl/exports/{exportId}/status, with the status of the body
unfoldable pub handle_ctl_export_status :
    Control → Str → Result Str Str → Exec CtlFailure (ExportStatus × ℤ)
handle_ctl_export_status c raw request = require_writable c (do
  id ← lift (path_id (lit "invalid export id") (atoi raw))
  text ← lift (body_of request)
  status ← lift (export_status text)
  map_err (unforced c) (set_export_status id status)
  pure (status, id))
