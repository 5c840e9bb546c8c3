-- ===== src/Tests/Ctl.antt =====
-- The control plane: a fixture with a field and a contact, a job that is forced, and requests with and
-- without the token.
use emarsys_mock.Base.{
  ◌≡◌, ◌⊎◌, refl, true, false, Option, none, some, [], ◌∷◌, lit, pos, atoi, find_first, str_eq,
  if◌then◌else◌,
}
use emarsys_mock.Store.Tables.{Tables, Export, done, scheduled}
use emarsys_mock.Store.Exec.{export_not_ready, ok, err, World, exec}
use emarsys_mock.Store.Exec.Rules.{Keeps, Keeps-exec}
use emarsys_mock.Store.RequestLog.Bounds.{no_log}
use emarsys_mock.Store.Contact.Audit.{IsAudited}
use emarsys_mock.Store.Export.{is_done, export_row}
use emarsys_mock.Store.Export.Polling.{Job}
use emarsys_mock.Server.Json.{str}
use emarsys_mock.Server.Csv.{slice_csv}
use emarsys_mock.Server.Download.{handle_export_data, unread}
use emarsys_mock.Server.Ctl.{Control, CtlRequest, handle_ctl_export_status, export_status}
use emarsys_mock.Server.Ctl.Seed.{SeedRequest}
use emarsys_mock.Server.Ctl.Routes.{seed, control_plane}
use emarsys_mock.Server.Ctl.Guarded.{Permitted, control_plane-guarded}
use emarsys_mock.Server.Ctl.Audited.{control_plane-IsAudited}
use emarsys_mock.Server.Ctl.Forced.{handle_ctl_export_status-handle_export_data}
use emarsys_mock.Tests.Contact.{seeded-IsAudited}
use emarsys_mock.Tests.{seeded, settings, start}

abbrev control : Control
control = record {
  ctl_token = lit "secret";
  read_only = false;
  export_timezone = lit "Europe/Vienna";
  rate_limit_per_minute = pos 1000;
  webhook_configured = false;
  err_text = λ e. [];
  reset = exec (λ t. some (tt, seeded));
  host_of = λ addr. some addr;
  is_loopback_ip = λ host. str_eq host (lit "::1");
}

abbrev request : CtlRequest
request = record {
  ctl_header = [];
  authorization = lit "Bearer secret";
  query_token = [];
  cookie = none;
  remote_addr = lit "::1";
}

-- A contact with a value for field 3, the key of a fixture that names none.
abbrev fixture : SeedRequest
fixture = record {
  reset = true;
  fields =
      record {
        id = pos 40;
        name = lit "Shoe size";
        application_type = [];
        string_id = [];
        indexed = false;
        choices = record { id = pos 1; choice = lit "small" } ∷ [];
      }
      ∷ [];
  events = lit "signup" ∷ [];
  contact_lists = lit "all" ∷ [];
  contacts = ((51 ∷ [], str (lit "a@b.example")) ∷ []) ∷ [];
  key_id = record { set = false; raw = []; value = pos 0 };
}

control_plane-guarded_example :
    ((control_plane settings control no_log request (seed (ok fixture)) start).1.tables
      ≡ start.tables)
    ⊎ ((control.read_only ≡ false) × Permitted control request)
control_plane-guarded_example =
    control_plane-guarded settings control no_log request (seed (ok fixture)) start

reset-IsAudited : Keeps IsAudited control.reset
reset-IsAudited = Keeps-exec _ (λ t a t' did p. same t' did)
  where
    same :
        {a : Unit {0}} (t' : Tables)
        → ◌≡◌ {A = Option (Unit {0} × Tables)} (some (tt, seeded)) (some (a, t'))
        → IsAudited t'
    same t' did = let e : seeded ≡ t' = cc in rw (← e) seeded-IsAudited

control_plane-IsAudited_example :
    IsAudited (control_plane settings control no_log request (seed (ok fixture)) start).1.tables
control_plane-IsAudited_example =
    control_plane-IsAudited settings control no_log request (seed (ok fixture)) start
      reset-IsAudited seeded-IsAudited

abbrev job : Export
unfolding lit
job = record {
  id = 7;
  type = lit "changes";
  status = scheduled;
  params = [];
  created_at = [];
  ready_at = none;
  poll_count = pos 0;
  polls_before_done = pos 5;
  file_name = [];
  payload = 97 ∷ 10 ∷ 98 ∷ 10 ∷ [];
}

abbrev with_job : World
with_job = record start { tables = record seeded { exports = record { rows = job ∷ []; seq = 7 } } }

job-Job : Job (pos 7) job with_job
unfolding export_row find_first job
job-Job = record { row = refl; sound = λ n. refl }

number : atoi (55 ∷ []) ≡ some (pos 7)
unfolding atoi
number = refl

known : export_status (lit "done") ≡ ok done
unfolding str_eq lit
known = refl

handle_ctl_export_status-handle_export_data_example :
    let (answer, w') = handle_ctl_export_status control (55 ∷ []) (ok (lit "done")) with_job in
    (answer ≡ ok (done, pos 7))
    × ((handle_export_data (55 ∷ []) (49 ∷ []) [] w').0 ≡ (
        if is_done done
        then ok (slice_csv job.payload (49 ∷ []) [])
        else err (unread (pos 7) export_not_ready)))
handle_ctl_export_status-handle_export_data_example =
    handle_ctl_export_status-handle_export_data control (55 ∷ []) (lit "done") (49 ∷ []) [] (pos 7)
      done job with_job refl number known job-Job
