-- ===== src/Store/Event.antt =====
-- internal/store/event.go: external events and their triggers.
pub mod Triggers
use emarsys_mock.Base.{
  ℕ, ◌+◌, Bool, true, false, not, ◌&&◌, ◌||◌, Option, none, some, List, [], ◌∷◌, ◌++◌, map, reverse,
  Str, str_eq, is_empty, ℤ, pos, negsuc, int_eq, if◌then◌else◌, select, any, find_first, take, ◌==◌,
}
use emarsys_mock.Store.Tables.{Tables, Event, EventTrigger}
use emarsys_mock.Store.Exec.{
  Err, no_event, event_exists, Exec, ◌>>=◌, ◌>>◌, pure, raise, query, exec, now_string, map_err,
}

unfoldable pub events : Exec Err (List Event)
events = query (λ t. t.events.rows)

abbrev is_event : ℤ → Event → Bool
is_event id e = int_eq (pos e.id) id

unfoldable pub event_row : ℤ → Tables → Option Event
event_row id t = find_first (is_event id) t.events.rows

abbrev pub event_or : Option Event → Exec Err Event
event_or none = raise no_event
event_or (some e) = pure e

-- DB.Event
unfoldable pub event : ℤ → Exec Err Event
event id = do row ← query (event_row id); event_or row

abbrev has_name : Str → Event → Bool
has_name name e = str_eq e.name name

-- INSERT INTO events: the name is unique.
unfoldable pub insert_event : Str → Str → Tables → Option (ℕ × Tables)
insert_event name now t =
    let id = t.events.seq + 1 in
    let row : Event = record { id = id; name = name; created = now } in
    if any (has_name name) t.events.rows
    then none
    else some
        (id, record t { events = record t.events { rows = t.events.rows ++ row ∷ []; seq = id } })

-- Any error of the statement counts as a name that is taken.
abbrev pub taken : Err → Err
taken e = event_exists

-- CreateEvent; the record that it returns has no created_at.
unfoldable pub create_event : Str → Exec Err Event
create_event name = do
  now ← now_string
  id ← map_err taken (exec (insert_event name now))
  pure (record { id = id; name = name; created = [] })

abbrev renamed : ℤ → Str → Event → Event
renamed id name e = if is_event id e then record e { name = name } else e

-- UPDATE events SET name: a name that another event has violates the constraint.
unfoldable pub rename_event_row : ℤ → Str → Tables → Option (Bool × Tables)
rename_event_row id name t =
    let hit = any (is_event id) t.events.rows in
    if hit && any (λ e. has_name name e && not (is_event id e)) t.events.rows
    then none
    else some
        (hit, record t { events = record t.events { rows = map (renamed id name) t.events.rows } })

unfoldable pub rename_event : ℤ → Str → Exec Err (ℤ × Str)
rename_event id name = do
  hit ← map_err taken (exec (rename_event_row id name))
  if hit then pure (id, name) else raise no_event

-- DELETE FROM events, with the triggers that refer to it
unfoldable pub delete_event_row : ℤ → Tables → Option (Bool × Tables)
delete_event_row id t = some (
  any (is_event id) t.events.rows,
  record t {
    events = record t.events {
      rows = select (λ e. not (is_event id e)) t.events.rows;
      triggers = select (λ r. not (int_eq (pos r.event_id) id)) t.events.triggers;
    };
  },
)

unfoldable pub delete_event : ℤ → Exec Err (Unit {0})
delete_event id = do hit ← exec (delete_event_row id); if hit then pure tt else raise no_event

-- The trigger that RecordTrigger is given: an EventTrigger without the fields that the database fills.
pub record NewTrigger : Type 0 where
  pub event_id : ℕ
  pub contact_id : Option ℕ
  pub external_id : Str
  pub payload : Str
  pub event_time : Str
  pub trigger_id : Str

-- nullIfEmpty
unfoldable pub null_if_empty : Str → Option Str
null_if_empty s = if is_empty s then none else some s

abbrev pub holds_id : Str → Option Str → Bool
holds_id id none = false
holds_id id (some other) = str_eq other id

-- WHERE event_id = ? AND trigger_id = ?
abbrev pub repeats : ℕ → Str → EventTrigger → Bool
repeats event id r = r.event_id == event && holds_id id r.trigger_id

unfoldable pub trigger_row : ℕ → Str → Tables → Option EventTrigger
trigger_row event id t = find_first (repeats event id) t.events.triggers

unfoldable pub stored : NewTrigger → ℕ → Str → EventTrigger
unfolding null_if_empty
stored n id now = record {
  id = id;
  event_id = n.event_id;
  contact_id = n.contact_id;
  external_id = n.external_id;
  payload = n.payload;
  event_time = null_if_empty n.event_time;
  trigger_id = null_if_empty n.trigger_id;
  received_at = now;
}

-- INSERT INTO event_triggers: the event must exist, and a trigger id is unique within it.
unfoldable pub insert_trigger : NewTrigger → Str → Tables → Option (ℕ × Tables)
insert_trigger n now t =
    let id = t.events.trigger_seq + 1 in
    if not (any (λ e. e.id == n.event_id) t.events.rows)
    then none
    else if not (is_empty n.trigger_id) && any (repeats n.event_id n.trigger_id) t.events.triggers
    then none
    else some (
      id,
      record t {
        events = record t.events {
          triggers = t.events.triggers ++ stored n id now ∷ [];
          trigger_seq = id;
        };
      },
    )

-- The id of the row, and whether it is new.
unfoldable pub store_trigger : NewTrigger → Exec Err (ℕ × Bool)
store_trigger n = do now ← now_string; id ← exec (insert_trigger n now); pure (id, true)

abbrev pub existing_or : NewTrigger → Option EventTrigger → Exec Err (ℕ × Bool)
existing_or n (some r) = pure (r.id, false)
existing_or n none = store_trigger n

-- RecordTrigger
unfoldable pub record_trigger : NewTrigger → Exec Err (ℕ × Bool)
record_trigger n =
    if is_empty n.trigger_id
    then store_trigger n
    else (do existing ← query (trigger_row n.event_id n.trigger_id); existing_or n existing)

abbrev name_of : ℕ → List Event → Option Str
name_of id [] = none
name_of id (e ∷ es) = let rest = name_of id es in if e.id == id then some e.name else rest

abbrev with_name : EventTrigger → Option Str → List (Str × EventTrigger) → List (Str × EventTrigger)
with_name r none rest = rest
with_name r (some name) rest = (name, r) ∷ rest

-- The triggers with the names of their events.
abbrev joined : List Event → List EventTrigger → List (Str × EventTrigger)
joined es [] = []
joined es (r ∷ rs) = with_name r (name_of r.event_id es) (joined es rs)

abbrev at_most : {A : Type 0} → ℤ → List A → List A
at_most (pos n) xs = take n xs
at_most (negsuc n) xs = xs

-- SELECT ... FROM event_triggers t JOIN events e ... ORDER BY t.id DESC LIMIT ?
unfoldable pub triggers_of : ℤ → ℤ → Tables → List (Str × EventTrigger)
triggers_of event limit t = at_most limit (
    reverse (
      joined t.events.rows
        (select (λ r. int_eq event (pos 0) || int_eq (pos r.event_id) event) t.events.triggers)))

-- Triggers
unfoldable pub triggers : ℤ → ℤ → Exec Err (List (Str × EventTrigger))
triggers event limit = query (triggers_of event limit)
