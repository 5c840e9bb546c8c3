-- ===== src/Server/ContactRead/Deletion.antt =====
-- A deletion is all or nothing.
use emarsys_mock.Base.{◌≡◌, Str, ℤ, List, [], ◌∷◌, ℕ, str_key}
use emarsys_mock.Api.{Failure}
use emarsys_mock.Store.Exec.{World, err}
use emarsys_mock.Store.Exec.Rules.{Atomic, Keeps, reads_rules, atomic_rules, keeps_rules}
use emarsys_mock.Store.Contact.Audit.{IsAudited}
use emarsys_mock.Store.Contact.Audit.Deleted.{delete_contact-IsAudited}
use emarsys_mock.Server.Json.{Body}
use emarsys_mock.Server.Common.{Reads-or_internal, Atomic-or_internal, Keeps-or_internal}
use emarsys_mock.Server.Contact.Atomicity.{Reads-load_field_catalog, Reads-find_contact_ids}
use emarsys_mock.Server.ContactRead.{
  Raw, Failures, delete_one, delete_found, delete_value, handle_contact_delete,
}

Atomic-handle_contact_delete : (request : Body Raw) → Atomic (handle_contact_delete request)
unfolding handle_contact_delete
Atomic-handle_contact_delete request =
    search
      (atomic_rules, Atomic-or_internal, reads_rules, Reads-or_internal, Reads-load_field_catalog)
      depth 14

Keeps-delete_one : (u : Unit {0}) (id : ℕ) → Keeps IsAudited (delete_one u id)
unfolding delete_one
Keeps-delete_one u id = delete_contact-IsAudited id

Keeps-delete_found :
    (fs : Failures) (value : Str) (found : List ℕ) → Keeps IsAudited (delete_found fs value found)
unfolding delete_found
Keeps-delete_found fs value [] = search (keeps_rules, reads_rules)
Keeps-delete_found fs value (id ∷ ids) = search (keeps_rules, reads_rules, Keeps-delete_one)

Keeps-delete_value :
    (key : ℤ) (fs : Failures) (value : Str) → Keeps IsAudited (delete_value key fs value)
unfolding delete_value
Keeps-delete_value key fs value =
    search (keeps_rules, reads_rules, Reads-find_contact_ids, Keeps-delete_found)

Keeps-handle_contact_delete : (request : Body Raw) → Keeps IsAudited (handle_contact_delete request)
unfolding handle_contact_delete
Keeps-handle_contact_delete request =
    search
      (
        keeps_rules, Keeps-or_internal, reads_rules, Reads-or_internal, Reads-load_field_catalog,
        Keeps-delete_value,
      )
      depth 14

-- A deletion of contacts that is answered with a failure, whichever check or database call failed,
-- leaves every table as it was.
pub handle_contact_delete-undone :
    (request : Body Raw) (w : World) (f : Failure)
    → (handle_contact_delete request w).0 ≡ err f
    → (handle_contact_delete request w).1.tables ≡ w.tables
handle_contact_delete-undone request w f h = (Atomic-handle_contact_delete request).at w f h

-- However a deletion of contacts ends, if the change history accounted for every stored value before
-- it, then it does so after.
pub handle_contact_delete-IsAudited :
    (request : Body Raw) (w : World)
    → IsAudited w.tables
    → IsAudited (handle_contact_delete request w).1.tables
handle_contact_delete-IsAudited request w h = (Keeps-handle_contact_delete request).at w h
