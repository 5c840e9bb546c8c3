-- ===== src/Tests/Contact.antt =====
-- Tests of the contact store and of the contact batch.
pub mod Deletion
pub mod Search
pub mod Seed
use emarsys_mock.Base.{
  ◌≡◌, refl, ◌↔◌, ◌≤◌, true, false, none, [], ◌∷◌, lit, pos, length, lookup, put, int_key, str_key,
  if◌then◌else◌, trim_space, trim_left, to_lower, str_eq, is_empty, atoi, itoa, itoa_ℕ, any,
  find_first, select, split_on, ◌==◌,
}
use emarsys_mock.Store.Exec.{
  World, ok, err, pure, raise, lift, query, exec, ◌>>=◌, fold_each, with_tx, map_err, now_string,
  new_uid,
}
use emarsys_mock.Store.Field.{
  load_field_catalog, fields_by_id, choices_in_order, has, get, has_choice,
}
use emarsys_mock.Store.Contact.Statements.{
  ids_by_value, ids_by_id, ids_by_uid, cell, current_value, has_contact, has_field, insert_contact,
  upsert_cell, upsert_value, insert_change, touch_contact, sort_ids,
}
use emarsys_mock.Store.Contact.{
  Values, value_at, find_contact_ids, find_by_number, apply_contact_values, create_contact,
  write_value, sorted_field_ids, sort_ints,
}
use emarsys_mock.Store.Contact.Cells.{cells, or_else, cells-apply_contact_values}
use emarsys_mock.Server.Json.{
  str, num, FlexibleInt, decoded, decode_json, scalar_to_string, is_numeric,
}
use emarsys_mock.Server.Common.{or_internal}
use emarsys_mock.Api.{Failure, error, error_text, code_internal_error, code_invalid_field_id}
use emarsys_mock.Server.ContactValue.{
  parse_row, validate_values, validate_value, first_error, check_type, sorted_keys, key_value_of,
  row_error_text,
}
use emarsys_mock.Server.Contact.{
  ContactBatchBody, BatchResult, number, resolve_key_field, check_size, parse_rows, check_list,
  write_batch, process_row, keyed_row, checked_row, store_row, fail_row, add_touched,
  key_field_name, run_contact_batch,
}
use emarsys_mock.Server.Contact.Accounting.{run_contact_batch-accounts}
use emarsys_mock.Server.Contact.Atomicity.{run_contact_batch-undone}
use emarsys_mock.Server.Contact.History.{run_contact_batch-IsAudited}
use emarsys_mock.Store.Contact.Audit.{IsAudited}
use emarsys_mock.Tests.{settings, calm, seeded, start}

abbrev by_mail : FlexibleInt
by_mail = record { value = pos 3; set = true; raw = 51 ∷ [] }

-- Two rows; the second has a choice that field 31 does not have.
abbrev two_rows : ContactBatchBody
two_rows = record {
  key_id = by_mail;
  contact_list_id = none;
  contacts =
      ((51 ∷ [], str (97 ∷ [])) ∷ (51 ∷ 49 ∷ [], num (49 ∷ [])) ∷ [])
      ∷ ((51 ∷ [], str (98 ∷ [])) ∷ (51 ∷ 49 ∷ [], num (57 ∷ [])) ∷ [])
      ∷ [];
}

-- What a run of a batch computes through.
contact_code : Unit {0}
unfolding lit trim_space trim_left to_lower str_eq is_empty atoi itoa itoa_ℕ any find_first select
    split_on lookup put ◌>>=◌ pure raise lift query exec fold_each with_tx map_err now_string
    new_uid load_field_catalog fields_by_id choices_in_order has get has_choice ids_by_value
    ids_by_id ids_by_uid cell current_value has_contact has_field insert_contact upsert_cell
    upsert_value insert_change touch_contact sort_ids value_at find_contact_ids find_by_number
    apply_contact_values create_contact write_value sorted_field_ids sort_ints decode_json
    scalar_to_string is_numeric or_internal parse_row validate_values validate_value first_error
    check_type sorted_keys key_value_of row_error_text resolve_key_field check_size parse_rows
    check_list write_batch process_row keyed_row checked_row store_row fail_row add_touched
    key_field_name run_contact_batch
contact_code = tt

abbrev two_rows_result : BatchResult
two_rows_result = record {
  ids = number 1 ∷ [];
  errors =
      (
        98 ∷ [],
        (
          code_invalid_field_id,
          lit "Invalid value for field 31: 9 (not a defined choice for this field)",
        ),
      )
      ∷ [];
}

-- The first row is stored, the second is reported, and the answer is OK.
two_rows_run :
    (run_contact_batch settings false false (decoded two_rows) start).0 ≡ ok two_rows_result
unfolding contact_code
two_rows_run = refl

run_contact_batch-accounts_example :
    (length two_rows_result.ids ≤ 2)
    × ((two_rows_result.errors ≡ []) ↔ (length two_rows_result.ids ≡ 2))
run_contact_batch-accounts_example =
    run_contact_batch-accounts settings false false two_rows start two_rows_result two_rows_run

-- The database fails at the second row.
abbrev unsteady : World
unsteady = record start { driver = record calm { fails = λ n. n == 14 } }

abbrev internal_error : Failure
internal_error = error code_internal_error

unsteady_run :
    (run_contact_batch settings false false (decoded two_rows) unsteady).0 ≡ err internal_error
unfolding contact_code error_text error
unsteady_run = refl

run_contact_batch-undone_example :
    (run_contact_batch settings false false (decoded two_rows) unsteady).1.tables ≡ seeded
run_contact_batch-undone_example =
    run_contact_batch-undone settings false false (decoded two_rows) unsteady internal_error
      unsteady_run

pub seeded-IsAudited : IsAudited seeded
unfolding cell seeded
seeded-IsAudited = record { ids_given = tt; accounted = λ c g v h. cc }

run_contact_batch-IsAudited_example :
    IsAudited (run_contact_batch settings false false (decoded two_rows) start).1.tables
run_contact_batch-IsAudited_example =
    run_contact_batch-IsAudited settings false false (decoded two_rows) start seeded-IsAudited

-- The world in which contact 1 has been stored.
abbrev with_contact : World
with_contact = (create_contact ((pos 3, 97 ∷ []) ∷ []) [] start).1

abbrev changes : Values
changes = (pos 1, 98 ∷ []) ∷ (pos 31, 49 ∷ []) ∷ []

changes_run : (apply_contact_values 1 changes [] with_contact).0 ≡ ok tt
unfolding contact_code
changes_run = refl

cells-apply_contact_values_example :
    cells (apply_contact_values 1 changes [] with_contact).1.tables 1 (pos 31) ≡ (
      if 1 == 1
      then or_else (lookup (pos 31) changes) (cells with_contact.tables 1 (pos 31))
      else cells with_contact.tables 1 (pos 31))
cells-apply_contact_values_example =
    cells-apply_contact_values 1 changes [] with_contact 1 (pos 31) changes_run
