-- ===== src/Tests/Export.antt =====
-- Tests of the export jobs.
pub mod Client
use emarsys_mock.Base.{◌≡◌, refl, none, some, [], ◌∷◌, pos, find_first}
use emarsys_mock.Store.Tables.{Export, scheduled, in_progress, done}
use emarsys_mock.Store.Exec.{World, ok}
use emarsys_mock.Store.Export.{export_row, export_payload}
use emarsys_mock.Store.Export.Polling.{Job, Going, statuses, poll_times, poll_times-export_payload}
use emarsys_mock.Tests.{seeded, start}

-- A job that is done at its third poll.
abbrev job : Export
job = record {
  id = 1;
  type = [];
  status = scheduled;
  params = [];
  created_at = [];
  ready_at = none;
  poll_count = pos 0;
  polls_before_done = pos 2;
  file_name = [];
  payload = 97 ∷ [];
}

abbrev with_job : World
with_job = record start { tables = record seeded { exports = record { rows = job ∷ []; seq = 1 } } }

with_job-Job : Job (pos 1) job with_job
unfolding export_row find_first
with_job-Job = record { row = refl; sound = λ n. refl }

job-Going : Going 2 job
job-Going = record { polls = 0; count = refl; goal = refl; going = refl }

poll_times-export_payload_example :
    let (rs, w) = poll_times 3 (pos 1) with_job in
    (statuses rs ≡ some in_progress ∷ some in_progress ∷ some done ∷ [])
    × ((export_payload (pos 1) w).0 ≡ ok (97 ∷ []))
poll_times-export_payload_example =
    poll_times-export_payload 3 2 (pos 1) job with_job with_job-Job job-Going
