-- ===== src/Store/Contact.antt =====
-- internal/store/contact.go: contacts, their field values and the change history.
pub mod Statements
pub mod Cells
pub mod Audit
pub mod Search
use emarsys_mock.Base.{
  ℕ, Bool, true, false, Option, none, some, List, [], ◌∷◌, map, Str, str_eq, is_empty, trim_space,
  ℤ, pos, negsuc, int_eq, int_lt, atoi, lookup, int_key, if◌then◌else◌, find_first, length, leb,
  ◌==◌,
}
use emarsys_mock.Store.Exec.{
  Err, no_contact, Exec, ◌>>=◌, ◌>>◌, pure, raise, query, exec, now_string, new_uid, fold_each,
}
use emarsys_mock.Store.Contact.Statements.{
  ids_by_id, ids_by_uid, ids_by_value, current_value, insert_contact, upsert_value, insert_change,
  touch_contact, delete_contact_row, contacts_in, values_in, ids_by_field, insert_member,
  count_lists, count_contacts_in, contact_by_id, LoadedValue,
}
use emarsys_mock.Store.Field.{key_field_internal_id, key_field_uid}
use emarsys_mock.Store.Tables.{Contact}

-- Go's map from field ids to values.
abbrev pub Values : Type 0
Values = List (ℤ × Str)

-- values[fieldID], the empty string if it is not there
unfoldable pub value_at : ℤ → Values → Str
value_at f values = elim (lookup f values) [ none ↦ [] | some v ↦ v ]

-- sort.Ints, by insertion
unfoldable pub insert_int : ℤ → List ℤ → List ℤ
insert_int a [] = a ∷ []
insert_int a (b ∷ bs) = let rest = insert_int a bs in if int_lt b a then b ∷ rest else a ∷ b ∷ bs

unfoldable pub sort_ints : List ℤ → List ℤ
unfolding insert_int
sort_ints [] = []
sort_ints (a ∷ as') = insert_int a (sort_ints as')

unfoldable pub sorted_field_ids : Values → List ℤ
unfolding sort_ints
sorted_field_ids values = sort_ints (map (λ (p : ℤ × Str). p.0) values)

-- The contact of an internal id; a text that is no number finds none.
unfoldable pub find_by_number : Option ℤ → Exec Err (List ℕ)
find_by_number none = pure []
find_by_number (some id) = query (ids_by_id id)

unfoldable pub find_contact_ids : ℤ → Str → Exec Err (List ℕ)
find_contact_ids key value =
    if int_eq key key_field_internal_id
    then find_by_number (atoi value)
    else if int_eq key key_field_uid
    then query (ids_by_uid value)
    else query (ids_by_value key value)

-- oldValue.Valid && oldValue.String == newValue
abbrev pub holds_already : Option Str → Str → Bool
holds_already none new = false
holds_already (some old) new = str_eq old new

-- One round of the loop of ApplyContactValues.
unfoldable pub write_value : ℕ → Values → Str → Str → Unit {0} → ℤ → Exec Err (Unit {0})
write_value contact values source now _ f = do
  old ← query (current_value contact f)
  if holds_already old (value_at f values) then pure tt else do
    exec (upsert_value contact f (value_at f values) now)
    exec (insert_change contact f old (value_at f values) now source)

unfoldable pub apply_contact_values : ℕ → Values → Str → Exec Err (Unit {0})
apply_contact_values contact [] source = pure tt
apply_contact_values contact (v ∷ vs) source = do
  now ← now_string
  fold_each (sorted_field_ids (v ∷ vs)) tt (write_value contact (v ∷ vs) source now)
  exec (touch_contact contact now)

unfoldable pub create_contact : Values → Str → Exec Err ℕ
create_contact values source = do
  uid ← new_uid
  now ← now_string
  id ← exec (insert_contact uid now)
  apply_contact_values id values source
  pure id

unfoldable pub delete_contact : ℕ → Exec Err (Unit {0})
delete_contact id = exec (delete_contact_row id)

pub record ContactRow : Type 0 where
  pub id : ℕ
  pub uid : Str
  pub values : Values

abbrev values_of : ℕ → List LoadedValue → Values
values_of id [] = []
values_of id (v ∷ vs) =
    let rest = values_of id vs in if v.contact_id == id then (v.field_id, v.value) ∷ rest else rest

abbrev contact_row : List LoadedValue → Contact → ContactRow
contact_row loaded c = record { id = c.id; uid = c.uid; values = values_of c.id loaded }

-- The map from contact ids to rows, as the list of its rows.
unfoldable pub load_contacts : List ℕ → List ℤ → Exec Err (List ContactRow)
load_contacts [] fields = pure []
load_contacts (i ∷ is) fields = do
  contacts ← query (contacts_in (i ∷ is))
  loaded ← query (values_in (i ∷ is) fields)
  pure (map (contact_row loaded) contacts)

-- contacts[id]
unfoldable pub loaded_row : ℕ → List ContactRow → Option ContactRow
loaded_row id rows = find_first (λ r. r.id == id) rows

unfoldable pub query_contacts_by_field : ℤ → Str → Bool → ℕ → ℕ → Exec Err (List ℕ)
query_contacts_by_field f value exclude_empty limit offset =
    query (ids_by_field f value exclude_empty limit offset)

-- One round of the loop of AddContactsToList.
unfoldable pub add_member : ℤ → Str → Unit {0} → ℕ → Exec Err (Unit {0})
add_member list now _ contact = do exec (insert_member list contact now); pure tt

unfoldable pub add_contacts_to_list : ℤ → List ℕ → Exec Err (Unit {0})
unfolding add_member
add_contacts_to_list list contacts = do
  now ← now_string
  fold_each contacts tt (add_member list now)

unfoldable pub contact_list_exists : ℤ → Exec Err Bool
contact_list_exists list = do n ← query (count_lists list); pure (leb 1 n)

unfoldable pub count_contacts : Exec Err ℕ
count_contacts = query count_contacts_in

pub record ContactSummary : Type 0 where
  pub id : ℕ
  pub uid : Str
  pub created_at : Str
  pub updated_at : Str
  pub values : Values

abbrev pub row_values : Option ContactRow → Values
row_values none = []
row_values (some r) = r.values

abbrev pub summary : Contact → Values → ContactSummary
summary c values = record {
  id = c.id;
  uid = c.uid;
  created_at = c.created_at;
  updated_at = c.updated_at;
  values = values;
}

unfoldable pub contact : ℤ → Exec Err ContactSummary
contact id = do
  found ← query (contact_by_id id)
  elim found [
    | none ↦ raise no_contact
    | some c ↦ (do
      loaded ← load_contacts (c.id ∷ []) []
      pure (summary c (row_values (loaded_row c.id loaded))))
  ]
