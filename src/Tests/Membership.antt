-- ===== src/Tests/Membership.antt =====
-- Tests of the contact lists.
use emarsys_mock.Base.{
  ◌≡◌, refl, ℕ, [], ◌∷◌, lit, pos, any, select, find_first, atoi, itoa, itoa_ℕ, trim_space,
  trim_left, is_empty, str_eq, lookup, put,
}
use emarsys_mock.Api.{Failure, error, error_text, code_internal_error}
use emarsys_mock.Store.Tables.{Contact, ListMember}
use emarsys_mock.Store.Exec.{
  World, ok, err, pure, raise, lift, query, exec, ◌>>=◌, fold_each, with_tx, map_err, now_string,
}
use emarsys_mock.Store.Contact.Statements.{insert_member, has_contact, has_list}
use emarsys_mock.Store.List.{
  list_row, contact_list, delete_member, delete_members, remove_one, remove_from_list, clear_list,
  add_one, add_to_list_counting,
}
use emarsys_mock.Store.List.Members.{IsKeyed, holds}
use emarsys_mock.Store.List.Counting.{members}
use emarsys_mock.Server.Json.{malformed, decode_json}
use emarsys_mock.Server.Common.{path_int64, or_internal}
use emarsys_mock.Server.List.{replace, remove, lookup_list, change_members, change_list_membership}
use emarsys_mock.Server.List.Membership.{
  Changed, change_members-Changes, change_list_membership-undone,
}
use emarsys_mock.Tests.{seeded, settings, start}

abbrev contact : ℕ → Contact
contact id = record { id = id; uid = id ∷ []; created_at = []; updated_at = [] }

abbrev on_one : ℕ → ListMember
on_one contact = record { list_id = 1; contact_id = contact; added_at = [] }

-- List 1 has the contacts 1 and 2 of three.
abbrev with_list : World
unfolding seeded
with_list = record start {
  tables = record seeded {
    contacts = record seeded.contacts { rows = contact 1 ∷ contact 2 ∷ contact 3 ∷ []; seq = 3 };
    lists = record {
      rows = record { id = 1; name = []; created = [] } ∷ [];
      seq = 1;
      members = on_one 1 ∷ on_one 2 ∷ [];
    };
  };
}

list_code : Unit {0}
unfolding seeded with_list lit any select find_first atoi itoa itoa_ℕ trim_space trim_left is_empty
    str_eq lookup put pure raise lift query exec ◌>>=◌ fold_each with_tx map_err now_string
    insert_member has_contact has_list list_row contact_list delete_member delete_members remove_one
    remove_from_list clear_list add_one add_to_list_counting holds decode_json path_int64
    or_internal lookup_list change_members change_list_membership error_text error
list_code = tt

with_list-IsKeyed : IsKeyed (members with_list.tables)
unfolding list_code
with_list-IsKeyed = (refl, (refl, tt))

-- A replacement by 2, 3 and 3 puts two contacts on the list.
replace_run : (with_tx (change_members replace (pos 1) (2 ∷ 3 ∷ 3 ∷ [])) with_list).0 ≡ ok 2
unfolding list_code
replace_run = refl

change_members-Changes_example :
    Changed replace
      (pos 1)
      (2 ∷ 3 ∷ 3 ∷ [])
      (members with_list.tables)
      2
      (with_tx (change_members replace (pos 1) (2 ∷ 3 ∷ 3 ∷ [])) with_list).1.tables
change_members-Changes_example =
    change_members-Changes replace (pos 1) (2 ∷ 3 ∷ 3 ∷ []) with_list 2 with_list-IsKeyed
      replace_run

abbrev bad_body : Failure
bad_body = error_text code_internal_error (lit "Invalid JSON in request body: ")

undone_run :
    (change_list_membership settings remove (49 ∷ []) (malformed []) with_list).0 ≡ err bad_body
unfolding list_code
undone_run = refl

change_list_membership-undone_example :
    (change_list_membership settings remove (49 ∷ []) (malformed []) with_list).1.tables
    ≡ with_list.tables
change_list_membership-undone_example =
    change_list_membership-undone settings remove (49 ∷ []) (malformed []) with_list bad_body
      undone_run
