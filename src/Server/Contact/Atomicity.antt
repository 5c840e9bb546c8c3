-- ===== src/Server/Contact/Atomicity.antt =====
-- A contact batch is all or nothing: what its steps read, and what a failure leaves.
use emarsys_mock.Base.{◌≡◌, Bool, Option, none, some, Str, ℤ, str_key}
use emarsys_mock.Api.{Failure}
use emarsys_mock.Store.Exec.{World, err}
use emarsys_mock.Store.Exec.Rules.{Atomic, Reads, atomic_rules, reads_rules}
use emarsys_mock.Store.Field.{load_field_catalog}
use emarsys_mock.Store.Contact.{contact_list_exists, find_by_number, find_contact_ids}
use emarsys_mock.Server.Json.{Body}
use emarsys_mock.Server.Common.{Settings, Reads-or_internal, Atomic-or_internal}
use emarsys_mock.Server.Contact.{ContactBatchBody, check_list, run_contact_batch}

ruleset handler_reads = (reads_rules, Reads-or_internal)

pub Reads-load_field_catalog : Reads load_field_catalog
unfolding load_field_catalog
Reads-load_field_catalog = search reads_rules

Reads-contact_list_exists : (list : ℤ) → Reads (contact_list_exists list)
unfolding contact_list_exists
Reads-contact_list_exists list = search reads_rules

pub Reads-check_list : (list : Option ℤ) → Reads (check_list list)
unfolding check_list
Reads-check_list none = search reads_rules
Reads-check_list (some list) = search (handler_reads, Reads-contact_list_exists)

Reads-find_by_number : (id : Option ℤ) → Reads (find_by_number id)
unfolding find_by_number
Reads-find_by_number none = search reads_rules
Reads-find_by_number (some id) = search reads_rules

pub Reads-find_contact_ids : (key : ℤ) (value : Str) → Reads (find_contact_ids key value)
unfolding find_contact_ids
Reads-find_contact_ids key value = search (reads_rules, Reads-find_by_number)

Atomic-run_contact_batch :
    (s : Settings) (is_update create : Bool) (request : Body ContactBatchBody)
    → Atomic (run_contact_batch s is_update create request)
unfolding run_contact_batch
Atomic-run_contact_batch s is_update create request =
    search
      (atomic_rules, Atomic-or_internal, handler_reads, Reads-load_field_catalog, Reads-check_list)
      depth 14

-- A contact batch that is answered with a failure, whichever of its checks or database calls failed,
-- leaves every table as it was.
pub run_contact_batch-undone :
    (s : Settings) (is_update create : Bool) (request : Body ContactBatchBody) (w : World)
    (f : Failure)
    → (run_contact_batch s is_update create request w).0 ≡ err f
    → (run_contact_batch s is_update create request w).1.tables ≡ w.tables
run_contact_batch-undone s is_update create request w f h =
    (Atomic-run_contact_batch s is_update create request).at w f h
