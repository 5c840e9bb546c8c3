-- ===== src/Store/Untouched.antt =====
-- Operations on the other tables keep what the change history says of the contacts.
use emarsys_mock.Base.{◌≡◌, arith, Option, some, Str, ℤ}
use emarsys_mock.Store.Tables.{
  Tables, FieldDef, Choice, FaultRule, Export, ExportStatus, scheduled, in_progress, done, other,
}
use emarsys_mock.Store.Exec.{exec}
use emarsys_mock.Store.Exec.Rules.{Keeps, Keeps-exec, keeps_rules, reads_rules}
use emarsys_mock.Store.Field.{upsert_field_row, upsert_field, replace_choice, add_choice}
use emarsys_mock.Store.Event.{insert_event, create_event}
use emarsys_mock.Store.List.{insert_list, create_contact_list}
use emarsys_mock.Store.Fault.{
  insert_fault_rule, create_fault_rule, delete_rule_row, delete_fault_rule,
}
use emarsys_mock.Store.Export.{update_export, set_export_status}
use emarsys_mock.Store.Contact.Audit.{IsAudited, IsAudited-contacts}

-- A statement on other tables.
abbrev SameContacts : {A : Type 0} → (Tables → Option (A × Tables)) → Type 0
SameContacts {A} f =
    (t : Tables) (a : A) (t' : Tables) → f t ≡ some (a, t') → t'.contacts ≡ t.contacts

module _ {A : Type 0} (f : Tables → Option (A × Tables)) where
  Keeps-statement : SameContacts f → Keeps IsAudited (exec f)
  Keeps-statement h = Keeps-exec f (λ t a t' did p. IsAudited-contacts t t' (h t a t' did) p)

upsert_field_row-contacts : (f : FieldDef) → SameContacts (upsert_field_row f)
unfolding upsert_field_row
upsert_field_row-contacts f t a t' h = ground arith

replace_choice-contacts : (c : Choice) → SameContacts (replace_choice c)
unfolding replace_choice
replace_choice-contacts c t a t' h = ground arith

insert_event-contacts : (name now : Str) → SameContacts (insert_event name now)
unfolding insert_event
insert_event-contacts name now t a t' h = ground arith

insert_list-contacts : (name now : Str) → SameContacts (insert_list name now)
unfolding insert_list
insert_list-contacts name now t a t' h = ground arith

insert_fault_rule-contacts : (r : FaultRule) (now : Str) → SameContacts (insert_fault_rule r now)
unfolding insert_fault_rule
insert_fault_rule-contacts r now t a t' h = ground arith

delete_rule_row-contacts : (id : ℤ) → SameContacts (delete_rule_row id)
unfolding delete_rule_row
delete_rule_row-contacts id t a t' h = ground arith

update_export-contacts : (id : ℤ) (f : Export → Export) → SameContacts (update_export id f)
unfolding update_export
update_export-contacts id f t a t' h = ground arith

ruleset statements = (
  upsert_field_row-contacts, replace_choice-contacts, insert_event-contacts, insert_list-contacts,
  insert_fault_rule-contacts, delete_rule_row-contacts, update_export-contacts, Keeps-statement,
)

pub Keeps-upsert_field : (f : FieldDef) → Keeps IsAudited (upsert_field f)
unfolding upsert_field
Keeps-upsert_field f = search (statements)

pub Keeps-add_choice :
    (field choice : ℤ) (label : Str) (sort : ℤ)
    → Keeps IsAudited (add_choice field choice label sort)
unfolding add_choice
Keeps-add_choice field choice label sort = search (statements)

pub Keeps-create_event : (name : Str) → Keeps IsAudited (create_event name)
unfolding create_event
Keeps-create_event name = search (keeps_rules, reads_rules, statements) depth 8

pub Keeps-create_contact_list : (name : Str) → Keeps IsAudited (create_contact_list name)
unfolding create_contact_list
Keeps-create_contact_list name = search (keeps_rules, reads_rules, statements) depth 8

pub Keeps-create_fault_rule : (r : FaultRule) → Keeps IsAudited (create_fault_rule r)
unfolding create_fault_rule
Keeps-create_fault_rule r = search (keeps_rules, reads_rules, statements) depth 8

pub Keeps-delete_fault_rule : (id : ℤ) → Keeps IsAudited (delete_fault_rule id)
unfolding delete_fault_rule
Keeps-delete_fault_rule id = search (keeps_rules, reads_rules, statements) depth 8

pub Keeps-set_export_status :
    (id : ℤ) (status : ExportStatus) → Keeps IsAudited (set_export_status id status)
unfolding set_export_status
Keeps-set_export_status id done = search (keeps_rules, reads_rules, statements) depth 8
Keeps-set_export_status id scheduled = search (keeps_rules, reads_rules, statements) depth 8
Keeps-set_export_status id in_progress = search (keeps_rules, reads_rules, statements) depth 8
Keeps-set_export_status id ExportStatus.error =
    search (keeps_rules, reads_rules, statements) depth 8
Keeps-set_export_status id (other text) = search (keeps_rules, reads_rules, statements) depth 8
