-- ===== src/Store/List.antt =====
-- internal/store/list.go: contact lists and who is on them.
pub mod Members
pub mod Counting
use emarsys_mock.Base.{
  ℕ, ◌+◌, Bool, true, false, not, ◌&&◌, Option, none, some, List, [], ◌∷◌, ◌++◌, map, Str, ℤ, pos,
  negsuc, int_eq, if◌then◌else◌, select, any, find_first, length, take, drop, ◌==◌,
}
use emarsys_mock.Store.Tables.{Tables, ContactList, ListMember}
use emarsys_mock.Store.Exec.{
  Err, no_list, Exec, ◌>>=◌, ◌>>◌, pure, raise, query, exec, now_string, fold_each,
}
use emarsys_mock.Store.Contact.Statements.{sort_ids, insert_member, is_member}

unfoldable pub contact_lists : Exec Err (List ContactList)
contact_lists = query (λ t. t.lists.rows)

abbrev is_list : ℤ → ContactList → Bool
is_list id l = int_eq (pos l.id) id

unfoldable pub list_row : ℤ → Tables → Option ContactList
list_row id t = find_first (is_list id) t.lists.rows

abbrev pub list_or : Option ContactList → Exec Err ContactList
list_or none = raise no_list
list_or (some l) = pure l

-- ContactList
unfoldable pub contact_list : ℤ → Exec Err ContactList
contact_list id = do row ← query (list_row id); list_or row

-- INSERT INTO contact_lists
unfoldable pub insert_list : Str → Str → Tables → Option (ℕ × Tables)
insert_list name now t =
    let id = t.lists.seq + 1 in
    let row : ContactList = record { id = id; name = name; created = now } in
    some (id, record t { lists = record t.lists { rows = t.lists.rows ++ row ∷ []; seq = id } })

unfoldable pub create_contact_list : Str → Exec Err ℕ
create_contact_list name = do now ← now_string; exec (insert_list name now)

abbrev renamed : ℤ → Str → ContactList → ContactList
renamed id name l = if is_list id l then record l { name = name } else l

-- UPDATE contact_lists SET name
unfoldable pub rename_row : ℤ → Str → Tables → Option (Bool × Tables)
rename_row id name t = some (
  any (is_list id) t.lists.rows,
  record t { lists = record t.lists { rows = map (renamed id name) t.lists.rows } },
)

unfoldable pub rename_contact_list : ℤ → Str → Exec Err (Unit {0})
rename_contact_list id name = do
  hit ← exec (rename_row id name)
  if hit then pure tt else raise no_list

-- DELETE FROM contact_lists, with the rows of contact_list_members that refer to it
unfoldable pub delete_list_row : ℤ → Tables → Option (Bool × Tables)
delete_list_row id t = some (
  any (is_list id) t.lists.rows,
  record t {
    lists = record t.lists {
      rows = select (λ l. not (is_list id l)) t.lists.rows;
      members = select (λ m. not (int_eq (pos m.list_id) id)) t.lists.members;
    };
  },
)

unfoldable pub delete_contact_list : ℤ → Exec Err (Unit {0})
delete_contact_list id = do hit ← exec (delete_list_row id); if hit then pure tt else raise no_list

abbrev pub on_list : ℤ → ListMember → Bool
on_list list m = int_eq (pos m.list_id) list

-- SELECT contact_id FROM contact_list_members WHERE list_id = ? ORDER BY contact_id LIMIT ? OFFSET ?
unfoldable pub members_of : ℤ → ℕ → ℕ → Tables → List ℕ
members_of list limit offset t = take limit (
    drop offset
      (sort_ids (map (λ (m : ListMember). m.contact_id) (select (on_list list) t.lists.members))))

unfoldable pub list_members : ℤ → ℕ → ℕ → Exec Err (List ℕ)
list_members list limit offset = query (members_of list limit offset)

-- SELECT COUNT(*) FROM contact_list_members WHERE list_id = ?
unfoldable pub count_members : ℤ → Tables → ℕ
count_members list t = length (select (on_list list) t.lists.members)

unfoldable pub list_member_count : ℤ → Exec Err ℕ
list_member_count list = query (count_members list)

abbrev pub is_row : ℤ → ℕ → ListMember → Bool
is_row list contact m = on_list list m && m.contact_id == contact

-- DELETE FROM contact_list_members WHERE list_id = ? AND contact_id = ?
unfoldable pub delete_member : ℤ → ℕ → Tables → Option (Bool × Tables)
delete_member list contact t = some (
  any (is_row list contact) t.lists.members,
  record t {
    lists = record t.lists { members = select (λ m. not (is_row list contact m)) t.lists.members };
  },
)

-- One more if a row was written.
abbrev pub count_if : ℕ → Bool → ℕ
count_if n true = n + 1
count_if n false = n

unfoldable pub remove_one : ℤ → ℕ → ℕ → Exec Err ℕ
remove_one list removed contact = do
  hit ← exec (delete_member list contact)
  pure (count_if removed hit)

-- RemoveFromList
unfoldable pub remove_from_list : ℤ → List ℕ → Exec Err ℕ
remove_from_list list contacts = fold_each contacts 0 (remove_one list)

-- DELETE FROM contact_list_members WHERE list_id = ?
unfoldable pub delete_members : ℤ → Tables → Option (Unit {0} × Tables)
delete_members list t = some (
  tt,
  record t {
    lists = record t.lists { members = select (λ m. not (on_list list m)) t.lists.members };
  },
)

-- ClearList
unfoldable pub clear_list : ℤ → Exec Err (Unit {0})
clear_list list = exec (delete_members list)

unfoldable pub add_one : ℤ → Str → ℕ → ℕ → Exec Err ℕ
add_one list now inserted contact = do
  hit ← exec (insert_member list contact now)
  pure (count_if inserted hit)

-- AddToListCounting
unfoldable pub add_to_list_counting : ℤ → List ℕ → Exec Err ℕ
add_to_list_counting list contacts = do now ← now_string; fold_each contacts 0 (add_one list now)
