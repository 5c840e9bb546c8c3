-- ===== src/Store/Contact/Audit/Deleted.antt =====
-- A deletion keeps the history complete.
use emarsys_mock.Base.{
  ◌≡◌, refl, inl, inr, Bool-cases, ℕ, not, select, All-select, ◌≤◌, ◌==◌, true, false, Option, none,
  some, List, [], ◌∷◌, ℤ, if◌then◌else◌, arith,
}
use emarsys_mock.Store.Tables.{Tables, FieldChange, ContactValue}
use emarsys_mock.Store.Exec.Rules.{Keeps, Keeps-exec}
use emarsys_mock.Store.Contact.{delete_contact}
use emarsys_mock.Store.History.{later, latest_from, latest_change}
use emarsys_mock.Store.Contact.Cells.{cells}
use emarsys_mock.Store.Contact.Statements.{cell, delete_contact_row}
-- The new value of the latest change of a field of a contact.
use emarsys_mock.Store.Contact.Audit.{IsAudited}

cell-without :
    (id c : ℕ) (g : ℤ) (vs : List ContactValue)
    → cell c g (select (λ v. not (v.contact_id == id)) vs) ≡ (if c == id then none else cell c g vs)
unfolding cell select
cell-without id c g [] = ground arith
cell-without id c g (v ∷ vs) = ground (arith, cell-without id c g vs)

latest_from-without :
    (id c : ℕ) (g : ℤ) (best : Option FieldChange) (hs : List FieldChange)
    → (c == id) ≡ false
    → latest_from c g best (select (λ h. not (h.contact_id == id)) hs) ≡ latest_from c g best hs
unfolding latest_from select
latest_from-without id c g best [] e = refl
latest_from-without id c g best (h ∷ hs) e = elim (Bool-cases (h.contact_id == id)) [
  | inl same ↦ rw (same, later_other id c g best h e same) (latest_from-without id c g best hs e)
  | inr other ↦ rw other (latest_from-without id c g (later c g best h) hs e)
]
  where
    later_other :
        (id c : ℕ) (g : ℤ) (best : Option FieldChange) (h : FieldChange)
        → (c == id) ≡ false
        → (h.contact_id == id) ≡ true
        → later c g best h ≡ best
    later_other id c g none h e same = ground arith
    later_other id c g (some b) h e same = ground arith

delete_contact_row-IsAudited :
    (id : ℕ) (t t' : Tables) {a : Unit {0}}
    → delete_contact_row id t ≡ some (a, t')
    → IsAudited t
    → IsAudited t'
unfolding delete_contact_row latest_change
delete_contact_row-IsAudited id t t' did h =
    let values : t'.contacts.values ≡ select (λ v. not (v.contact_id == id)) t.contacts.values =
      ground arith in
    let history : t'.contacts.history ≡ select (λ k. not (k.contact_id == id)) t.contacts.history =
      ground arith in
    let seq : t'.contacts.history_seq ≡ t.contacts.history_seq = ground arith in
    record {
      ids_given =
          rw (history, seq)
            (All-select (λ k. k.id ≤ t.contacts.history_seq) (λ k. not (k.contact_id == id))
              t.contacts.history h.ids_given);
      accounted = λ c g v there.
          let there' : cell c g (select (λ v. not (v.contact_id == id)) t.contacts.values)
              ≡ some v =
            rw values at there in
          let here = cell-without id c g t.contacts.values in
          let other : (c == id) ≡ false = ground arith in
          let kept : cells t c g ≡ some v = ground arith in
          rw (history, latest_from-without id c g none t.contacts.history other)
            (h.accounted c g v kept);
    }

pub delete_contact-IsAudited : (id : ℕ) → Keeps IsAudited (delete_contact id)
unfolding delete_contact
delete_contact-IsAudited id =
    Keeps-exec _ (λ t a t' did h. delete_contact_row-IsAudited id t t' did h)
