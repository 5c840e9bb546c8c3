-- ===== src/Server/Event/Trigger.antt =====
-- The webhook posts the triggers that are stored.
use emarsys_mock.Base.{ℕ, Bool, true, false, some, List, Str, str_key}
use emarsys_mock.Store.Tables.{Tables, Event, EventTrigger}
use emarsys_mock.Store.Exec.Yields.{Yields}
use emarsys_mock.Store.Event.{NewTrigger}
use emarsys_mock.Server.Event.Told.{Announced, Grown}
use emarsys_mock.Webhook.{Sender}
use emarsys_mock.Server.Json.{Json}
use emarsys_mock.Server.Common.{Settings}
use emarsys_mock.Server.Event.{TriggerContact, Triggered}

module _ (s : Sender) (before : List EventTrigger) where
  -- The tables after RecordTrigger, which says whether the row is new
  abbrev Recorded : List Str → NewTrigger → Bool → Tables → Type 0
  Recorded posts n true = Grown s before posts n
  Recorded posts n false = Announced s before posts

-- What has been told by a loop
abbrev Posted : Settings → List EventTrigger → Triggered → Tables → Type 0
Posted s before d = Announced s.webhook before d.posts

-- What is stored for an entry of the request.
abbrev new_trigger : Event → Str → Str → ℕ → TriggerContact → NewTrigger
new_trigger e external_id payload contact entry = record {
  event_id = e.id;
  contact_id = some contact;
  external_id = external_id;
  payload = payload;
  event_time = entry.event_time;
  trigger_id = entry.trigger_id;
}
