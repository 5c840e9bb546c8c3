-- ===== src/Tests/Event.antt =====
-- Tests of the external events.
use emarsys_mock.Base.{
  ◌≡◌, refl, true, false, none, some, List, [], ◌∷◌, Str, lit, pos, any, select, find_first, atoi,
  itoa, itoa_ℕ, trim_space, trim_left, is_empty, str_eq, lookup, put,
}
use emarsys_mock.Store.Exec.{
  World, ok, pure, raise, lift, query, exec, ◌>>=◌, fold_each, map_err, now_string,
}
use emarsys_mock.Store.Field.{load_field_catalog, fields_by_id, choices_in_order, get, has}
use emarsys_mock.Store.Contact.{find_contact_ids, find_by_number}
use emarsys_mock.Store.Contact.Statements.{ids_by_value, ids_by_id, ids_by_uid, sort_ids}
use emarsys_mock.Store.Event.{
  event_row, event, NewTrigger, stored, null_if_empty, trigger_row, insert_trigger, store_trigger,
  record_trigger,
}
use emarsys_mock.Store.Event.Triggers.{record_trigger-twice}
use emarsys_mock.Webhook.{send}
use emarsys_mock.Server.Json.{Json, str, Body, decoded, decode_json, is_numeric, scalar_to_string}
use emarsys_mock.Server.Common.{path_int64, or_internal}
use emarsys_mock.Server.Contact.{resolve_key_field, key_field_name}
use emarsys_mock.Server.Event.{
  lookup_event, parse_trigger_contact, merge_trigger_payload, Triggered, announce, trigger_found,
  trigger_one, TriggerBody, handle_event_trigger,
}
use emarsys_mock.Tests.{seeded, start}

-- Event 1, and contact 1 with the text "a" in field 3.
abbrev with_event : World
unfolding seeded
with_event = record start {
  tables = record seeded {
    contacts = record seeded.contacts {
      rows = record { id = 1; uid = []; created_at = []; updated_at = [] } ∷ [];
      seq = 1;
      values = record { contact_id = 1; field_id = pos 3; value = 97 ∷ []; updated_at = [] } ∷ [];
    };
    events = record seeded.events {
      rows = record { id = 1; name = []; created = [] } ∷ [];
      seq = 1;
    };
  };
}

abbrev trigger : NewTrigger
trigger = record {
  event_id = 1;
  contact_id = some 1;
  external_id = 97 ∷ [];
  payload = [];
  event_time = [];
  trigger_id = 120 ∷ [];
}

event_code : Unit {0}
unfolding seeded with_event lit any select find_first atoi itoa itoa_ℕ trim_space trim_left is_empty
    str_eq lookup put pure raise lift query exec ◌>>=◌ fold_each map_err now_string
    load_field_catalog fields_by_id choices_in_order get has find_contact_ids find_by_number
    ids_by_value ids_by_id ids_by_uid sort_ids event_row event null_if_empty trigger_row stored
    insert_trigger store_trigger record_trigger decode_json is_numeric scalar_to_string path_int64
    or_internal resolve_key_field key_field_name lookup_event parse_trigger_contact
    merge_trigger_payload send announce trigger_found trigger_one handle_event_trigger
event_code = tt

trigger_run : (record_trigger trigger with_event).0 ≡ ok (1, true)
unfolding event_code
trigger_run = refl

trigger_given : is_empty trigger.trigger_id ≡ false
unfolding is_empty
trigger_given = refl

steady :
    (record_trigger trigger with_event).1.driver.fails (record_trigger trigger with_event).1.calls
    ≡ false
unfolding event_code
steady = refl

record_trigger-twice_example :
    let w = (record_trigger trigger with_event).1 in
    ((record_trigger trigger w).0 ≡ ok (1, false))
    × ((record_trigger trigger w).1.tables ≡ w.tables)
record_trigger-twice_example =
    record_trigger-twice trigger with_event (1, true) trigger_given trigger_run steady

abbrev one_contact : List (Str × Json)
unfolding lit
one_contact = (lit "external_id", str (97 ∷ [])) ∷ (lit "trigger_id", str (120 ∷ [])) ∷ []

-- The same trigger twice.
abbrev request : Body TriggerBody
request = decoded (record {
  key_id = record { value = pos 3; set = true; raw = 51 ∷ [] };
  contacts = one_contact ∷ one_contact ∷ [];
  payload = none;
})

-- It is posted once.
abbrev posted : Triggered
posted = record { failures = []; posts = (97 ∷ []) ∷ [] }
