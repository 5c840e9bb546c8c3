-- ===== src/Server/Ctl/Routes.antt =====
-- internal/server/server.go: the routes of the control plane.
use emarsys_mock.Base.{Str, List, ℤ}
use emarsys_mock.Store.Tables.{EventTrigger, FaultRule, ExportStatus}
use emarsys_mock.Store.Exec.{Result, Exec, ◌>>=◌, ◌>>◌, pure}
use emarsys_mock.Store.RequestLog.{LogEntry, RequestLog}
use emarsys_mock.Server.Common.{Settings}
use emarsys_mock.Server.Ctl.{
  Control, CtlFailure, CtlRequest, RequestParams, ctl_auth, handle_ctl_reset, handle_ctl_requests,
  handle_ctl_triggers, handle_ctl_fault_list, handle_ctl_fault_create, handle_ctl_fault_delete,
  handle_ctl_export_status,
}
use emarsys_mock.Server.Ctl.Seed.{SeedRequest, Summary, handle_ctl_seed}

-- A request to one of the routes, with what its handler reads
pub data CtlCall : Type 0 where
  reset : CtlCall
  seed : Result Str SeedRequest → CtlCall
  requests : RequestParams → CtlCall
  event_triggers : Str → Str → CtlCall
  fault_list : Str → CtlCall
  fault_create : Result Str FaultRule → CtlCall
  fault_delete : Str → CtlCall
  export_force : Str → Result Str Str → CtlCall

pub data CtlAnswer : Type 0 where
  was_reset : CtlAnswer
  seeded : Summary → CtlAnswer
  requests_are : List LogEntry → CtlAnswer
  triggers_are : List (Str × EventTrigger) → CtlAnswer
  faults_are : List FaultRule → CtlAnswer
  fault_is : FaultRule → CtlAnswer
  deleted_fault : ℤ → CtlAnswer
  forced_export : ExportStatus → ℤ → CtlAnswer

unfoldable pub dispatch : Settings → Control → RequestLog → CtlCall → Exec CtlFailure CtlAnswer
dispatch s c log reset = do handle_ctl_reset c; pure was_reset
dispatch s c log (seed request) = do summary ← handle_ctl_seed s c request; pure (seeded summary)
dispatch s c log (requests p) = do es ← handle_ctl_requests c log p; pure (requests_are es)
dispatch s c log (event_triggers event limit) = do
  ts ← handle_ctl_triggers c event limit
  pure (triggers_are ts)
dispatch s c log (fault_list enabled) = do
  rs ← handle_ctl_fault_list c enabled
  pure (faults_are rs)
dispatch s c log (fault_create request) = do
  r ← handle_ctl_fault_create c request
  pure (fault_is r)
dispatch s c log (fault_delete raw) = do id ← handle_ctl_fault_delete c raw; pure (deleted_fault id)
dispatch s c log (export_force raw request) = do
  (status, id) ← handle_ctl_export_status c raw request
  pure (forced_export status id)

-- registerControlPlane: all of it is behind the guard.
unfoldable pub control_plane :
    Settings → Control → RequestLog → CtlRequest → CtlCall → Exec CtlFailure CtlAnswer
control_plane s c log r call = ctl_auth c r (dispatch s c log call)
