-- ===== src/Tests/Contact/Deletion.antt =====
-- Tests of the deletion of contacts.
use emarsys_mock.Base.{◌≡◌, refl, false, [], ◌∷◌, lit, ◌==◌}
use emarsys_mock.Store.Exec.{World, err}
use emarsys_mock.Store.Contact.{delete_contact}
use emarsys_mock.Store.Contact.Statements.{delete_contact_row}
use emarsys_mock.Store.Contact.Audit.{IsAudited}
use emarsys_mock.Server.Json.{str, num, decoded, flexible_int, flexible_strings}
use emarsys_mock.Server.Contact.{run_contact_batch}
use emarsys_mock.Server.Contact.History.{run_contact_batch-IsAudited}
use emarsys_mock.Server.ContactRead.{
  Raw, delete_one, delete_found, delete_value, handle_contact_delete,
}
use emarsys_mock.Server.ContactRead.Deletion.{
  handle_contact_delete-undone, handle_contact_delete-IsAudited,
}
use emarsys_mock.Tests.{settings, calm, start}
use emarsys_mock.Tests.Contact.{two_rows, contact_code, internal_error, seeded-IsAudited}

-- {"key_id": 3, "3": "a"}
abbrev by_a : Raw
unfolding lit
by_a = (lit "key_id", (51 ∷ [], num (51 ∷ []))) ∷ (51 ∷ [], (34 ∷ 97 ∷ 34 ∷ [], str (97 ∷ []))) ∷ []

-- The world that the batch of two rows leaves, with the contact "a".
abbrev stored : World
stored = (run_contact_batch settings false false (decoded two_rows) start).1

-- The contact is deleted, but the transaction cannot be committed.
abbrev breaking : World
breaking = record stored { driver = record calm { fails = λ n. n == 21 } }

deletion_code : Unit {0}
unfolding contact_code flexible_int flexible_strings delete_contact delete_contact_row delete_one
    delete_found delete_value handle_contact_delete
deletion_code = tt

breaking_run : (handle_contact_delete (decoded by_a) breaking).0 ≡ err internal_error
unfolding deletion_code
breaking_run = refl

handle_contact_delete-undone_example :
    (handle_contact_delete (decoded by_a) breaking).1.tables ≡ stored.tables
handle_contact_delete-undone_example =
    handle_contact_delete-undone (decoded by_a) breaking internal_error breaking_run

handle_contact_delete-IsAudited_example :
    IsAudited (handle_contact_delete (decoded by_a) stored).1.tables
handle_contact_delete-IsAudited_example =
    handle_contact_delete-IsAudited (decoded by_a) stored
      (run_contact_batch-IsAudited settings false false (decoded two_rows) start seeded-IsAudited)
