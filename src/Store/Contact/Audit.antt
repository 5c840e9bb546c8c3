-- ===== src/Store/Contact/Audit.antt =====
-- The change history accounts for every stored value.
pub mod Deleted
use emarsys_mock.Base.{
  ◌≡◌, refl, inl, inr, Bool-cases, ℕ, not, select, All-select, ◌+◌, ◌≤◌, ◌==◌, true, false, Option,
  none, some, List, [], ◌∷◌, ◌++◌, Str, ℤ, int_eq_iff, if◌then◌else◌, arith, ap, ◌∙◌, All,
  All-append,
}
use emarsys_mock.Store.Tables.{Tables, FieldChange, ContactValue}
use emarsys_mock.Store.Exec.Rules.{Keeps, Keeps-exec, Reads-now_string, Reads-new_uid}
use emarsys_mock.Store.Exec.Yields.{
  Yields, Yields-pure, Yields-of-Reads, Yields-if, Yields-query, Yields-exec, Yields-bind,
  Yields-fold_each,
}
use emarsys_mock.Store.Contact.{
  Values, value_at, sorted_field_ids, holds_already, write_value, apply_contact_values,
  create_contact, delete_contact,
}
use emarsys_mock.Store.History.{is_change_of, later, latest_from, latest_change}
use emarsys_mock.Store.Contact.Cells.{cells, is_cell, cells-upsert_value}
use emarsys_mock.Store.Contact.Statements.{
  cell, current_value, upsert_value, insert_change, touch_contact, insert_contact,
  delete_contact_row,
}

-- The new value of the latest change of a field of a contact.
abbrev pub new_value_of : Option FieldChange → Option Str
new_value_of none = none
new_value_of (some h) = some h.new_value

-- Every stored value is the new value of the latest change that was recorded for its cell, and no
-- change has an id that is still to be given.
pub record IsAudited (t : Tables) : Type 0 where
  pub ids_given : All (λ h. h.id ≤ t.contacts.history_seq) t.contacts.history
  pub accounted :
      (c : ℕ) (g : ℤ) (v : Str) → cells t c g ≡ some v → new_value_of (latest_change c g t) ≡ some v

latest_from-append :
    (c : ℕ) (g : ℤ) (best : Option FieldChange) (hs : List FieldChange) (h : FieldChange)
    → latest_from c g best (hs ++ h ∷ []) ≡ later c g (latest_from c g best hs) h
unfolding latest_from
latest_from-append c g best [] h = refl
latest_from-append c g best (x ∷ hs) h = latest_from-append c g (later c g best x) hs h

abbrev IdBelow : ℕ → Option FieldChange → Type 0
IdBelow n none = Unit
IdBelow n (some h) = h.id ≤ n

IdBelow-later :
    (n c : ℕ) (g : ℤ) (best : Option FieldChange) (h : FieldChange)
    → IdBelow n best
    → h.id ≤ n
    → IdBelow n (later c g best h)
IdBelow-later n c g none h p q = ground arith
IdBelow-later n c g (some b) h p q = ground arith

IdBelow-latest_from :
    (n c : ℕ) (g : ℤ) (best : Option FieldChange) (hs : List FieldChange)
    → IdBelow n best
    → All (λ h. h.id ≤ n) hs
    → IdBelow n (latest_from c g best hs)
unfolding latest_from
IdBelow-latest_from n c g best [] p q = p
IdBelow-latest_from n c g best (h ∷ hs) p (q, qs) =
    IdBelow-latest_from n c g (later c g best h) hs (IdBelow-later n c g best h p q) qs

-- A change with a new id is the latest of its cell, and of no other.
later_new :
    (n c : ℕ) (g : ℤ) (best : Option FieldChange) (h : FieldChange)
    → IdBelow n best
    → h.id ≡ n + 1
    → later c g best h ≡ (if is_change_of c g h then some h else best)
later_new n c g none h p q = ground arith
later_new n c g (some b) h p q = ground arith

All-le-suc : (n : ℕ) (hs : List FieldChange) → All (λ h. h.id ≤ n) hs → All (λ h. h.id ≤ n + 1) hs
All-le-suc n [] p = tt
All-le-suc n (h ∷ hs) (p, ps) = (omega arith, All-le-suc n hs ps)

abbrev change_row : ℕ → ℕ → ℤ → Option Str → Str → Str → Str → FieldChange
change_row id contact f old new now source = record {
  id = id;
  contact_id = contact;
  field_id = f;
  old_value = old;
  new_value = new;
  changed_at = now;
  source = source;
}

module _ (contact : ℕ) (f : ℤ) (old : Option Str) (new now source : Str) (t t' : Tables)
    {a : Unit {0}} (did : insert_change contact f old new now source t ≡ some (a, t')) where
  abbrev row : FieldChange
  row = change_row (t.contacts.history_seq + 1) contact f old new now source

  insert_change-effect :
      (t'.contacts.history ≡ t.contacts.history ++ row ∷ [])
      × (t'.contacts.history_seq ≡ t.contacts.history_seq + 1)
      × (t'.contacts.values ≡ t.contacts.values)
  unfolding insert_change
  insert_change-effect = ground arith

  latest_change-insert_change :
      (c : ℕ) (g : ℤ)
      → All (λ h. h.id ≤ t.contacts.history_seq) t.contacts.history
      → latest_change c g t' ≡ (if is_change_of c g row then some row else latest_change c g t)
  unfolding latest_change
  latest_change-insert_change c g given = rw (insert_change-effect.0) (
      latest_from-append c g none t.contacts.history row
      ∙ later_new t.contacts.history_seq c g (latest_from c g none t.contacts.history) row
          (IdBelow-latest_from t.contacts.history_seq c g none t.contacts.history tt given) refl)

-- Audited, but for one cell, whose new value is not recorded yet.
record IsAuditedBut (contact : ℕ) (f : ℤ) (v : Str) (t : Tables) : Type 0 where
  ids_given : All (λ h. h.id ≤ t.contacts.history_seq) t.contacts.history
  written : cells t contact f ≡ some v
  accounted :
      (c : ℕ) (g : ℤ) (u : Str)
      → is_cell contact f c g ≡ false
      → cells t c g ≡ some u
      → new_value_of (latest_change c g t) ≡ some u

upsert_value-keeps_history :
    (contact : ℕ) (f : ℤ) (v now : Str) (t t' : Tables) {a : Unit {0}}
    → upsert_value contact f v now t ≡ some (a, t')
    → (t'.contacts.history ≡ t.contacts.history)
      × (t'.contacts.history_seq ≡ t.contacts.history_seq)
unfolding upsert_value
upsert_value-keeps_history contact f v now t t' h = ground arith

upsert_value-IsAuditedBut :
    (contact : ℕ) (f : ℤ) (v now : Str) (t t' : Tables) {a : Unit {0}}
    → upsert_value contact f v now t ≡ some (a, t')
    → IsAudited t
    → IsAuditedBut contact f v t'
unfolding latest_change
upsert_value-IsAuditedBut contact f v now t t' did h =
    let same = upsert_value-keeps_history contact f v now t t' did in
    record {
      ids_given = rw (same.0, same.1) h.ids_given;
      written =
          ground (arith, cells-upsert_value contact f v now t t' contact f did, int_eq_iff f f);
      accounted = λ c g u other now_there.
          rw same.0
            (h.accounted c g u (ground (arith, cells-upsert_value contact f v now t t' c g did)));
    }

insert_change-IsAudited :
    (contact : ℕ) (f : ℤ) (old : Option Str) (v now source : Str) (t t' : Tables) {a : Unit {0}}
    → insert_change contact f old v now source t ≡ some (a, t')
    → IsAuditedBut contact f v t
    → IsAudited t'
insert_change-IsAudited contact f old v now source t t' did h =
    let e = insert_change-effect contact f old v now source t t' did in
    record {
      ids_given =
          rw (e.0, e.1)
            (All-append (λ k. k.id ≤ t.contacts.history_seq + 1) t.contacts.history _
              (All-le-suc t.contacts.history_seq t.contacts.history h.ids_given) (omega arith, tt));
      accounted = λ c g u there. ground (
        arith,
        latest_change-insert_change contact f old v now source t t' did c g h.ids_given,
        h.accounted c g u,
        h.written,
        ap (cell c g) e.2,
        int_eq_iff f g,
      );
    }

write_value-IsAudited :
    (contact : ℕ) (values : Values) (source now : Str) (s : Unit {0}) (f : ℤ)
    → Yields IsAudited (write_value contact values source now s f) (λ _. IsAudited)
unfolding write_value
write_value-IsAudited contact values source now s f =
    let v = value_at f values in
    Yields-bind _ _ (Yields-query (current_value contact f)) λ old.
      Yields-if (holds_already old v) _ _ (λ _. Yields-pure tt (λ t h. h.0))
        λ _.
          Yields-bind _ _ {Q = λ _. IsAuditedBut contact f v}
            (Yields-exec (upsert_value contact f v now)
              (λ t a t' h did. upsert_value-IsAuditedBut contact f v now t t' did h.0))
            (λ _.
              Yields-exec _
                (λ t a t' h did. insert_change-IsAudited contact f old v now source t t' did h))

touch_contact-IsAudited :
    (contact : ℕ) (now : Str) (t t' : Tables) {a : Unit {0}}
    → touch_contact contact now t ≡ some (a, t')
    → IsAudited t
    → IsAudited t'
unfolding touch_contact latest_change
touch_contact-IsAudited contact now t t' did h =
    let values : t'.contacts.values ≡ t.contacts.values = ground arith in
    let history : t'.contacts.history ≡ t.contacts.history = ground arith in
    let seq : t'.contacts.history_seq ≡ t.contacts.history_seq = ground arith in
    record {
      ids_given = rw (history, seq) h.ids_given;
      accounted = λ c g v there. rw history (h.accounted c g v (rw values at there));
    }

-- When apply_contact_values returns, the history accounts for every value again.
pub apply_contact_values-IsAudited :
    (contact : ℕ) (values : Values) (source : Str)
    → Yields IsAudited (apply_contact_values contact values source) (λ _. IsAudited)
unfolding apply_contact_values
apply_contact_values-IsAudited contact [] source = Yields-pure tt (λ t h. h)
apply_contact_values-IsAudited contact (v ∷ vs) source =
    Yields-bind _ _ (Yields-of-Reads Reads-now_string) λ now.
      Yields-bind _ _
        (Yields-fold_each (write_value contact (v ∷ vs) source now) (λ _ _. IsAudited)
          (λ f fs s. write_value-IsAudited contact (v ∷ vs) source now s f)
          (sorted_field_ids (v ∷ vs)) tt)
        λ _. Yields-exec _ (λ t a t' h did. touch_contact-IsAudited contact now t t' did h)

insert_contact-IsAudited :
    (uid now : Str) (t : Tables) (id : ℕ) (t' : Tables)
    → insert_contact uid now t ≡ some (id, t')
    → IsAudited t
    → IsAudited t'
unfolding insert_contact latest_change
insert_contact-IsAudited uid now t id t' did h =
    let values : t'.contacts.values ≡ t.contacts.values = ground arith in
    let history : t'.contacts.history ≡ t.contacts.history = ground arith in
    let seq : t'.contacts.history_seq ≡ t.contacts.history_seq = ground arith in
    record {
      ids_given = rw (history, seq) h.ids_given;
      accounted = λ c g v there. rw history (h.accounted c g v (rw values at there));
    }

pub create_contact-IsAudited :
    (values : Values) (source : Str)
    → Yields IsAudited (create_contact values source) (λ _. IsAudited)
unfolding create_contact
create_contact-IsAudited values source = Yields-bind _ _ (Yields-of-Reads Reads-new_uid) λ uid.
    Yields-bind _ _ (Yields-of-Reads Reads-now_string) λ now.
      Yields-bind _ _
        (Yields-exec (insert_contact uid now)
          (λ t id t' h did. insert_contact-IsAudited uid now t id t' did h))
        λ id.
          Yields-bind _ _ (apply_contact_values-IsAudited id values source)
            λ _. Yields-pure id (λ t h. h)

-- Only the contact tables matter.
pub IsAudited-contacts : (t t' : Tables) → t'.contacts ≡ t.contacts → IsAudited t → IsAudited t'
unfolding latest_change
IsAudited-contacts t t' same h = record {
  ids_given = rw same h.ids_given;
  accounted = λ c g v there. rw same (h.accounted c g v (rw same at there));
}
