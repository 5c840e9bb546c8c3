-- ===== src/Server/Contact/History.antt =====
-- After a contact batch the history accounts for every stored value.
use emarsys_mock.Base.{
  ◌≡◌, ℕ, Bool, Option, none, some, List, [], ◌∷◌, Str, ℤ, pos, negsuc, str_key, arith,
}
use emarsys_mock.Store.Tables.{Tables}
use emarsys_mock.Store.Exec.{World}
use emarsys_mock.Store.Exec.Rules.{Keeps, reads_rules, Reads-now_string, keeps_rules}
use emarsys_mock.Store.Exec.Yields.{
  Yields, Yields-pure, Yields-of-Reads, Yields-bind, Yields-fold_each, Yields-exec,
  Keeps-with_tx_Yields,
}
use emarsys_mock.Store.Field.{FieldCatalog}
use emarsys_mock.Store.Contact.{add_contacts_to_list, add_member}
use emarsys_mock.Store.Contact.Statements.{insert_member}
use emarsys_mock.Store.Contact.Audit.{
  IsAudited, IsAudited-contacts, apply_contact_values-IsAudited, create_contact-IsAudited,
}
use emarsys_mock.Server.Json.{Body}
use emarsys_mock.Server.Common.{Settings, Reads-or_internal, Keeps-or_internal}
use emarsys_mock.Server.ContactValue.{ParsedRow}
use emarsys_mock.Server.Contact.{
  ContactBatchBody, new_batch, process_row, add_touched, write_batch, run_contact_batch,
}
use emarsys_mock.Server.Contact.Atomicity.{Reads-load_field_catalog, Reads-check_list}
use emarsys_mock.Server.Contact.Transaction.{process_row-Yields}

insert_member-contacts :
    (list : ℤ) (contact : ℕ) (now : Str) (t : Tables) (fresh : Bool) (t' : Tables)
    → insert_member list contact now t ≡ some (fresh, t')
    → t'.contacts ≡ t.contacts
unfolding insert_member
insert_member-contacts (pos list) contact now t fresh t' h = ground arith
insert_member-contacts (negsuc list) contact now t fresh t' h = cc

add_member-IsAudited :
    (list : ℤ) (now : Str) (s : Unit {0}) (contact : ℕ)
    → Yields IsAudited (add_member list now s contact) (λ _. IsAudited)
unfolding add_member
add_member-IsAudited list now s contact =
    Yields-bind _ _
      (Yields-exec (insert_member list contact now) λ t fresh t' h did.
        IsAudited-contacts t t' (insert_member-contacts list contact now t fresh t' did) h)
      λ _. Yields-pure tt (λ t h. h)

add_touched-IsAudited :
    (list : Option ℤ) (touched : List ℕ)
    → Yields IsAudited (add_touched list touched) (λ _. IsAudited)
unfolding add_touched add_contacts_to_list
add_touched-IsAudited none touched = Yields-pure tt (λ t h. h)
add_touched-IsAudited (some list) [] = Yields-pure tt (λ t h. h)
add_touched-IsAudited (some list) (id ∷ ids) =
    Yields-bind _ _ (Yields-of-Reads Reads-now_string) λ now.
      Yields-fold_each (add_member list now) (λ _ _. IsAudited)
        (λ contact rest s. add_member-IsAudited list now s contact) (id ∷ ids) tt

write_batch-IsAudited :
    (s : Settings) (catalog : FieldCatalog) (is_update create : Bool) (key : ℤ) (list : Option ℤ)
    (rows : List ParsedRow)
    → Yields IsAudited (write_batch s catalog is_update create key list rows) (λ _. IsAudited)
unfolding write_batch
write_batch-IsAudited s catalog is_update create key list rows =
    Yields-bind _ _
      (Yields-fold_each (process_row s catalog is_update create key) (λ _ _. IsAudited)
        (λ row rest b.
          process_row-Yields create_contact-IsAudited apply_contact_values-IsAudited s catalog
            is_update create key b row)
        rows new_batch)
      λ b. Yields-bind _ _ (add_touched-IsAudited list b.touched) λ _. Yields-pure b (λ t h. h)

Keeps-run_contact_batch :
    (s : Settings) (is_update create : Bool) (request : Body ContactBatchBody)
    → Keeps IsAudited (run_contact_batch s is_update create request)
unfolding run_contact_batch
Keeps-run_contact_batch s is_update create request =
    search
      (
        keeps_rules, Keeps-or_internal, Keeps-with_tx_Yields, write_batch-IsAudited, reads_rules,
        Reads-or_internal, Reads-load_field_catalog, Reads-check_list,
      )
      depth 14

-- However a contact batch ends, with an answer or with a failure: if before it the change history
-- accounted for every stored value (the latest change of its cell has the value), then it does so after.
pub run_contact_batch-IsAudited :
    (s : Settings) (is_update create : Bool) (request : Body ContactBatchBody) (w : World)
    → IsAudited w.tables
    → IsAudited (run_contact_batch s is_update create request w).1.tables
run_contact_batch-IsAudited s is_update create request w h =
    (Keeps-run_contact_batch s is_update create request).at w h
