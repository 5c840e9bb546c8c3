-- ===== src/Store/Event/Triggers.antt =====
-- A trigger id makes recording a trigger idempotent.
use emarsys_mock.Base.{
  ◌≡◌, refl, ap, arith, ℕ, ◌+◌, Bool, true, false, Option, none, some, [], ◌∷◌, ◌++◌, Str,
  str_eq_refl, is_empty, find_first-append, ==_refl,
}
use emarsys_mock.Store.Tables.{Tables, EventTrigger}
use emarsys_mock.Store.Exec.{World, ok, ◌>>=◌, pure, query}
use emarsys_mock.Store.Exec.Rules.{Reads-now_string}
use emarsys_mock.Store.Exec.Yields.{
  Yields, Yields-pure, Yields-of-Reads, Yields-query, Yields-exec, Yields-bind,
}
use emarsys_mock.Store.Event.{
  NewTrigger, null_if_empty, repeats, trigger_row, stored, insert_trigger, store_trigger,
  existing_or, record_trigger,
}

-- The trigger of an event with a trigger id is there, under an id.
pub record Recorded (n : NewTrigger) (id : ℕ) (t : Tables) : Type 0 where
  pub row : EventTrigger
  pub found : trigger_row n.event_id n.trigger_id t ≡ some row
  pub same : row.id ≡ id

repeats-stored :
    (n : NewTrigger) (id : ℕ) (now : Str)
    → is_empty n.trigger_id ≡ false
    → repeats n.event_id n.trigger_id (stored n id now) ≡ true
unfolding null_if_empty stored
repeats-stored n id now given = rw (given, ==_refl n.event_id, str_eq_refl n.trigger_id)

insert_trigger-Recorded :
    (n : NewTrigger) (now : Str) (t t' : Tables) (id : ℕ)
    → is_empty n.trigger_id ≡ false
    → trigger_row n.event_id n.trigger_id t ≡ none
    → insert_trigger n now t ≡ some (id, t')
    → Recorded n id t'
unfolding insert_trigger trigger_row stored
insert_trigger-Recorded n now t t' id given absent h =
    let new : EventTrigger = stored n (t.events.trigger_seq + 1) now in
    let ids : t.events.trigger_seq + 1 ≡ id = ground arith in
    let rows : t'.events.triggers ≡ t.events.triggers ++ new ∷ [] = ground arith in
    record {
      row = new;
      found = rw (rows) (
          find_first-append (repeats n.event_id n.trigger_id) t.events.triggers new absent
            (repeats-stored n (t.events.trigger_seq + 1) now given));
      same = ids;
    }

record_trigger-Recorded :
    (n : NewTrigger)
    → is_empty n.trigger_id ≡ false
    → Yields (λ _. Unit {0}) (record_trigger n) (λ r t. Recorded n r.0 t)
unfolding record_trigger store_trigger
record_trigger-Recorded n given =
    rw (given) (Yields-bind _ _ (Yields-query (trigger_row n.event_id n.trigger_id)) existing)
  where
    existing :
        (o : Option EventTrigger)
        → Yields
            (λ t. Unit {0} × (trigger_row n.event_id n.trigger_id t ≡ o))
            (existing_or n o)
            (λ r t. Recorded n r.0 t)
    existing (some row) = Yields-pure _ (λ t h. record { row = row; found = h.1; same = refl })
    existing none = Yields-bind _ _ (Yields-of-Reads Reads-now_string) λ now.
        Yields-bind _ _
          (Yields-exec (insert_trigger n now) {Q = λ id t. Recorded n id t}
            λ t id t' p h. insert_trigger-Recorded n now t t' id given p.1 h)
          λ id. Yields-pure _ (λ t h. h)

record_trigger-again :
    (n : NewTrigger) (id : ℕ) (w : World)
    → is_empty n.trigger_id ≡ false
    → Recorded n id w.tables
    → w.driver.fails w.calls ≡ false
    → ((record_trigger n w).0 ≡ ok (id, false)) × ((record_trigger n w).1.tables ≡ w.tables)
unfolding record_trigger query pure ◌>>=◌
record_trigger-again n id w given h sound =
    rw (given, sound, h.found) (ap (λ (i : ℕ). ok (i, false)) h.same, refl)

-- Recording a trigger with a trigger id a second time, after a first time that returned: unless the
-- database fails, the call returns the id of the first and that the trigger is not new, whether the
-- first was new or not, and it writes nothing.
pub record_trigger-twice :
    (n : NewTrigger) (w : World) (r : ℕ × Bool)
    → is_empty n.trigger_id ≡ false
    → (record_trigger n w).0 ≡ ok r
    → let w' = (record_trigger n w).1 in
      w'.driver.fails w'.calls ≡ false
      → ((record_trigger n w').0 ≡ ok (r.0, false)) × ((record_trigger n w').1.tables ≡ w'.tables)
record_trigger-twice n w r given first sound =
    record_trigger-again n r.0 (record_trigger n w).1 given
      ((record_trigger-Recorded n given).at w r tt first) sound
