-- ===== src/Server/Event.antt =====
-- internal/server/handler_event.go: external events over HTTP.
pub mod Trigger
pub mod Told
use emarsys_mock.Base.{
  ℕ, ◌+◌, Bool, true, false, not, ◌&&◌, Option, none, some, List, [], ◌∷◌, ◌++◌, map, Str, lit,
  is_empty, trim_space, ℤ, pos, negsuc, itoa, atoi, int_lt, lookup, put, str_key, if◌then◌else◌,
  length,
}
use emarsys_mock.Api.{
  ReplyCode, Failure, error, error_text, code_missing_key_field, code_internal_error,
  code_batch_too_large, code_no_contact_found, code_multiple_contacts,
}
use emarsys_mock.Store.Tables.{Event}
use emarsys_mock.Store.Exec.{
  Err, no_event, event_exists, Result, ok, err, Exec, ◌>>=◌, ◌>>◌, pure, raise, lift, fold_each,
  map_err, now_string,
}
use emarsys_mock.Store.Field.{load_field_catalog}
use emarsys_mock.Store.Contact.{find_contact_ids}
use emarsys_mock.Store.Event.{
  events, event, create_event, rename_event, delete_event, NewTrigger, record_trigger,
}
use emarsys_mock.Webhook.{send}
use emarsys_mock.Server.Json.{
  Json, null, obj, Fields, end, field, Body, decode_json, scalar_to_string, FlexibleInt,
}
use emarsys_mock.Server.Common.{Settings, or_internal, path_int64, local_time}
use emarsys_mock.Server.Contact.{resolve_key_field, key_field_name}

-- unknownEvent, and the other errors of an event's operations
abbrev pub event_failure : ℤ → Err → Failure
event_failure id no_event =
    error_text code_internal_error (lit "Unknown external event id: " ++ itoa id)
event_failure id _ = error code_internal_error

-- lookupEvent
unfoldable pub lookup_event : Str → Exec Failure Event
lookup_event raw = do
  id ← lift (path_int64 (lit "eventId") raw)
  map_err (event_failure id) (event id)

abbrev shown : Settings → Event → Event
shown s e = record e { created = local_time s e.created }

-- GET /api/v2/event
unfoldable pub handle_event_list : Settings → Exec Failure (List Event)
handle_event_list s = do es ← or_internal events; pure (map (shown s) es)

-- GET /api/v2/event/{eventId}
unfoldable pub handle_event_get : Settings → Str → Exec Failure Event
handle_event_get s raw = do e ← lookup_event raw; pure (shown s e)

abbrev pub no_name : Failure
unfolding error_text
no_name = error_text code_missing_key_field (lit "Event name must not be empty")

abbrev create_failure : Str → Err → Failure
create_failure name event_exists =
    error_text code_internal_error (lit "An event named " ++ name ++ lit " already exists")
create_failure name _ = error code_internal_error

-- POST /api/v2/event; the body has the name alone.
unfoldable pub handle_event_create : Body Str → Exec Failure Event
handle_event_create request = do
  name ← lift (decode_json request)
  if is_empty (trim_space name)
      then raise no_name
      else map_err (create_failure name) (create_event name)

-- POST /api/v2/event/{eventId}
unfoldable pub handle_event_rename : Str → Body Str → Exec Failure (ℤ × Str)
handle_event_rename raw request = do
  id ← lift (path_int64 (lit "eventId") raw)
  name ← lift (decode_json request)
  if is_empty (trim_space name)
      then raise no_name
      else map_err (event_failure id) (rename_event id name)

-- POST /api/v2/event/{eventId}/delete
unfoldable pub handle_event_delete : Str → Exec Failure (Unit {0})
handle_event_delete raw = do
  id ← lift (path_int64 (lit "eventId") raw)
  map_err (event_failure id) (delete_event id)

-- GET /api/v2/event/{eventId}/usages: the three lists are empty.
unfoldable pub handle_event_usages : Str → Exec Failure (Unit {0})
handle_event_usages raw = do lookup_event raw; pure tt

-- triggerContact; the two raw messages may be missing.
pub record TriggerContact : Type 0 where
  pub external_id : Option Json
  pub event_time : Str
  pub trigger_id : Str
  pub attachment : Option Json

-- scalarToString of a raw message that may be missing
abbrev text_of : Option Json → Str
text_of none = []
text_of (some v) = scalar_to_string v

abbrev first_nonempty : Str → Str → Str
first_nonempty [] second = second
first_nonempty (c ∷ s) second = c ∷ s

-- parseTriggerContact
unfoldable pub parse_trigger_contact : List (Str × Json) → ℤ → TriggerContact × Str
parse_trigger_contact raw key =
    let entry : TriggerContact = record {
      external_id = lookup (lit "external_id") raw;
      event_time = text_of (lookup (lit "event_time") raw);
      trigger_id = text_of (lookup (lit "trigger_id") raw);
      attachment = lookup (lit "attachment") raw;
    } in
    (entry, first_nonempty (text_of entry.external_id) (text_of (lookup (key_field_name key) raw)))

abbrev put_fields : Fields → List (Str × Json) → List (Str × Json)
put_fields end merged = merged
put_fields (field k v rest) merged = put_fields rest (put k v merged)

-- One round of the loop of mergeTriggerPayload.
abbrev merge_source : Option Json → List (Str × Json) → List (Str × Json)
merge_source none merged = merged
merge_source (some null) merged = merged
merge_source (some (obj fields)) merged = put_fields fields merged
merge_source (some source) merged = put (lit "attachment") source merged

-- mergeTriggerPayload
unfoldable pub merge_trigger_payload : Settings → Option Json → Option Json → Str
merge_trigger_payload s batch attachment =
    s.marshal (merge_source attachment (merge_source batch []))

-- What the loop over the contacts carries: the failures, and the posts of the webhook.
pub record Triggered : Type 0 where
  pub failures : List (Str × (ReplyCode × Str))
  pub posts : List Str

abbrev pub failed_with : Str → ReplyCode → Str → Triggered → Triggered
failed_with key code message d = record d { failures = put key (code, message) d.failures }

-- webhook.Send, for a trigger that is new
unfoldable pub announce :
    Settings → Event → Str → ℕ → Str → Str → TriggerContact → Triggered → Bool → Exec Err Triggered
announce s e key contact external_id payload entry d false = pure d
announce s e key contact external_id payload entry d true = do
  now ← now_string
  pure (record d {
    posts =
        send s.webhook
          (record {
            event_id = e.id;
            event_name = e.name;
            contact_id = some contact;
            external_id = external_id;
            key_id = key;
            payload = payload;
            event_time = entry.event_time;
            trigger_id = entry.trigger_id;
            received_at = now;
          })
          d.posts;
  })

-- The part of the loop behind FindContactIDs.
unfoldable pub trigger_found :
    Settings
    → Event
    → ℤ
    → Option Json
    → TriggerContact
    → Str
    → Triggered
    → List ℕ
    → Exec Err Triggered
trigger_found s e key batch entry external_id d [] = pure (
    failed_with external_id code_no_contact_found
      (lit "No contact found with the external id: " ++ external_id) d)
trigger_found s e key batch entry external_id d (contact ∷ []) = do
  recorded ← record_trigger (record {
    event_id = e.id;
    contact_id = some contact;
    external_id = external_id;
    payload = merge_trigger_payload s batch entry.attachment;
    event_time = entry.event_time;
    trigger_id = entry.trigger_id;
  })
  announce s e (key_field_name key) contact external_id
      (merge_trigger_payload s batch entry.attachment) entry d recorded.1
trigger_found s e key batch entry external_id d (_ ∷ _ ∷ _) = pure (
    failed_with external_id code_multiple_contacts
      (lit "More contacts found with the external ID: " ++ external_id) d)

-- One round of the loop over the contacts.
unfoldable pub trigger_one :
    Settings → Event → ℤ → Option Json → Triggered → List (Str × Json) → Exec Err Triggered
trigger_one s e key batch d raw =
    let (entry, external_id) = parse_trigger_contact raw key in
    if is_empty external_id
    then pure (
        failed_with [] code_missing_key_field
          (lit "Missing external_id for the key field " ++ key_field_name key) d)
    else (do
      found ← find_contact_ids key external_id
      trigger_found s e key batch entry external_id d found)

pub record TriggerBody : Type 0 where
  pub key_id : FlexibleInt
  pub contacts : List (List (Str × Json))
  pub payload : Option Json

abbrev check_contacts : Settings → List (List (Str × Json)) → Result Failure (Unit {0})
check_contacts s [] = err (error_text code_missing_key_field (lit "No contacts given"))
check_contacts s (c ∷ cs) =
    if int_lt s.max_batch_contacts (pos (length (c ∷ cs)))
    then err (
        error_text code_batch_too_large
          (lit "Limit of " ++ itoa s.max_batch_contacts ++ lit " contacts exceeded"))
    else ok tt

abbrev pub nothing_triggered : Triggered
nothing_triggered = record { failures = []; posts = [] }

-- POST /api/v2/event/{eventId}/trigger: the answer has the failures. What was posted before a
-- database call that fails is not shown.
unfoldable pub handle_event_trigger : Settings → Str → Body TriggerBody → Exec Failure Triggered
handle_event_trigger s raw request = do
  e ← lookup_event raw
  body ← lift (decode_json request)
  catalog ← or_internal load_field_catalog
  key ← lift (resolve_key_field body.key_id catalog)
  lift (check_contacts s body.contacts)
  or_internal (fold_each body.contacts nothing_triggered (trigger_one s e key body.payload))
