-- ===== src/Server/List.antt =====
-- internal/server/handler_list.go: contact lists over HTTP.
pub mod Membership
pub mod Rows
use emarsys_mock.Base.{
  ℕ, zero, suc, ◌+◌, Bool, true, false, not, ◌&&◌, Option, none, some, List, [], ◌∷◌, ◌++◌, map,
  Str, lit, is_empty, trim_space, ℤ, pos, negsuc, itoa, atoi, int_lt, is_nonneg, is_positive,
  lookup, put, str_key, if◌then◌else◌, length,
}
use emarsys_mock.Api.{
  ReplyCode, Failure, error, error_text, code_missing_key_field, code_internal_error,
  code_external_ids_too_big, code_no_contact_found, code_multiple_contacts,
}
use emarsys_mock.Store.Tables.{ContactList}
use emarsys_mock.Store.Exec.{
  Err, no_list, Result, ok, err, Exec, ◌>>=◌, ◌>>◌, pure, raise, lift, with_tx, fold_each, map_err,
}
use emarsys_mock.Store.Field.{FieldCatalog, load_field_catalog}
use emarsys_mock.Store.Contact.{find_contact_ids}
use emarsys_mock.Store.List.{
  contact_lists, contact_list, create_contact_list, rename_contact_list, delete_contact_list,
  list_members, list_member_count, remove_from_list, clear_list, add_to_list_counting,
}
use emarsys_mock.Server.Json.{Body, decode_json, FlexibleInt, FlexibleStrings}
use emarsys_mock.Server.Common.{Settings, or_internal, path_int64}
use emarsys_mock.Server.Contact.{resolve_key_field}

-- An entry of data.errors: a key value with its code and text.
abbrev pub Failures : Type 0
Failures = List (Str × (ReplyCode × Str))

pub record ListMembershipBody : Type 0 where
  pub key_id : FlexibleInt
  pub external_ids : FlexibleStrings

abbrev pub unknown_list : ℤ → Err → Failure
unknown_list id no_list =
    error_text code_internal_error (lit "Unknown contact list id: " ++ itoa id)
unknown_list id _ = error code_internal_error

-- lookupList
unfoldable pub lookup_list : Str → Exec Failure ℤ
lookup_list raw = do
  id ← lift (path_int64 (lit "listId") raw)
  map_err (unknown_list id) (contact_list id)
  pure id

-- The contacts that key values found, and the values that did not find one.
pub record Resolved : Type 0 where
  pub ids : List ℕ
  pub failures : Failures

abbrev pub resolved : Str → Resolved → List ℕ → Resolved
resolved value r [] = record r {
  failures =
      put value (code_no_contact_found, lit "No contact found with the external id: " ++ value)
        r.failures;
}
resolved value r (id ∷ []) = record r { ids = r.ids ++ id ∷ [] }
resolved value r (_ ∷ _ ∷ _) = record r {
  failures =
      put value (code_multiple_contacts, lit "More contacts found with the external ID: " ++ value)
        r.failures;
}

-- One round of the loop of resolveExternalIDs.
unfoldable pub resolve_one : ℤ → Resolved → Str → Exec Err Resolved
resolve_one key r value = do found ← find_contact_ids key value; pure (resolved value r found)

abbrev pub nothing_resolved : Resolved
nothing_resolved = record { ids = []; failures = [] }

-- resolveExternalIDs
unfoldable pub resolve_external_ids : Settings → FlexibleInt → List Str → Exec Failure Resolved
resolve_external_ids s key_id values = do
  catalog ← or_internal load_field_catalog
  key ← lift (resolve_key_field key_id catalog)
  if int_lt s.max_batch_contacts (pos (length values))
      then raise (error code_external_ids_too_big)
      else or_internal (fold_each values nothing_resolved (resolve_one key))

pub data Mode : Type 0 where
  add remove replace : Mode

-- The body of the transaction of changeListMembership.
unfoldable pub change_members : Mode → ℤ → List ℕ → Exec Err ℕ
change_members remove list ids = remove_from_list list ids
change_members replace list ids = do clear_list list; add_to_list_counting list ids
change_members add list ids = add_to_list_counting list ids

-- The answer: inserted_contacts, or deleted_contacts of `remove`, and errors.
pub record MembershipResult : Type 0 where
  pub changed : ℕ
  pub errors : Failures

-- changeListMembership
unfoldable pub change_list_membership :
    Settings → Mode → Str → Body ListMembershipBody → Exec Failure MembershipResult
change_list_membership s mode raw request = do
  list ← lookup_list raw
  body ← lift (decode_json request)
  r ← resolve_external_ids s body.key_id body.external_ids.values
  n ← or_internal (with_tx (change_members mode list r.ids))
  pure (record { changed = n; errors = r.failures })

pub record ListCreateBody : Type 0 where
  pub name : Str
  pub key_id : FlexibleInt
  pub external_ids : FlexibleStrings

pub record ListCreated : Type 0 where
  pub id : ℕ
  pub errors : Failures

-- The part of handleContactListCreate that fills the new list.
unfoldable pub populate : Settings → ListCreateBody → ℕ → List Str → Exec Failure Failures
populate s body list [] = pure []
populate s body list (v ∷ vs) = do
  r ← resolve_external_ids s body.key_id (v ∷ vs)
  or_internal (with_tx (add_to_list_counting (pos list) r.ids))
  pure r.failures

abbrev pub no_name : Failure
unfolding error_text
no_name = error_text code_missing_key_field (lit "Contact list name must not be empty")

-- POST /api/v2/contactlist
unfoldable pub handle_contact_list_create :
    Settings → Body ListCreateBody → Exec Failure ListCreated
handle_contact_list_create s request = do
  body ← lift (decode_json request)
  if is_empty (trim_space body.name) then raise no_name else (do
    list ← or_internal (create_contact_list body.name)
    failures ← populate s body list body.external_ids.values
    pure (record { id = list; errors = failures }))

-- GET /api/v2/contactlist
unfoldable pub handle_contact_list_list : Exec Failure (List (ℕ × Str))
handle_contact_list_list = do
  lists ← or_internal contact_lists
  pure (map (λ (l : ContactList). (l.id, l.name)) lists)

abbrev limit_of : Option ℤ → ℕ
limit_of none = 10000
limit_of (some (pos zero)) = 10000
limit_of (some (pos (suc n))) = suc n
limit_of (some (negsuc n)) = 10000

abbrev offset_of : Option ℤ → ℕ
offset_of none = 0
offset_of (some (pos n)) = n
offset_of (some (negsuc n)) = 0

-- paging: the limit and the offset of the query parameters; an empty one is no number
unfoldable pub paging : Str → Str → ℕ × ℕ
paging limit offset = (limit_of (atoi limit), offset_of (atoi offset))

-- GET /api/v2/contactlist/{listId}/
unfoldable pub handle_contact_list_members : Str → Str → Str → Exec Failure (List ℕ)
handle_contact_list_members raw limit offset = do
  list ← lookup_list raw
  let (n, k) = paging limit offset in or_internal (list_members list n k)

-- GET /api/v2/contactlist/{listId}/count
unfoldable pub handle_contact_list_count : Str → Exec Failure ℕ
handle_contact_list_count raw = do list ← lookup_list raw; or_internal (list_member_count list)

-- POST /api/v2/contactlist/{listId}/rename; the body has the name alone.
unfoldable pub handle_contact_list_rename : Str → Body Str → Exec Failure (ℤ × Str)
handle_contact_list_rename raw request = do
  list ← lookup_list raw
  name ← lift (decode_json request)
  if is_empty (trim_space name)
      then raise no_name
      else (do or_internal (rename_contact_list list name); pure (list, name))

-- POST /api/v2/contactlist/{listId}/deletelist
unfoldable pub handle_contact_list_delete : Str → Exec Failure (Unit {0})
handle_contact_list_delete raw = do list ← lookup_list raw; or_internal (delete_contact_list list)
