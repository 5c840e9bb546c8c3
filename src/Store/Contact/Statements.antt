-- ===== src/Store/Contact/Statements.antt =====
-- The SQL of internal/store/contact.go, one function a statement. The foreign keys of
-- migrations/0001_init.sql are on: an INSERT checks them, and a DELETE cascades.
use emarsys_mock.Base.{
  ℕ, ◌+◌, Bool, true, false, not, ◌&&◌, Option, none, some, List, [], ◌∷◌, ◌++◌, map, Str, str_eq,
  is_empty, ℤ, pos, negsuc, int_eq, if◌then◌else◌, select, any, find_first, length, take, drop,
  ◌==◌, ltb,
}
use emarsys_mock.Store.Tables.{Tables, Contact, ContactValue, FieldDef, ContactList, ListMember}

-- ORDER BY on contact ids
unfoldable pub insert_id : ℕ → List ℕ → List ℕ
insert_id a [] = a ∷ []
insert_id a (b ∷ bs) = let rest = insert_id a bs in if ltb b a then b ∷ rest else a ∷ b ∷ bs

unfoldable pub sort_ids : List ℕ → List ℕ
unfolding insert_id
sort_ids [] = []
sort_ids (a ∷ rest) = insert_id a (sort_ids rest)

-- SELECT id FROM contacts WHERE id = ?
unfoldable pub ids_by_id : ℤ → Tables → List ℕ
ids_by_id id t = map (λ (c : Contact). c.id) (select (λ c. int_eq (pos c.id) id) t.contacts.rows)

-- SELECT id FROM contacts WHERE uid = ?
unfoldable pub ids_by_uid : Str → Tables → List ℕ
ids_by_uid uid t = map (λ (c : Contact). c.id) (select (λ c. str_eq c.uid uid) t.contacts.rows)

abbrev pub holds_value : ℤ → Str → ContactValue → Bool
holds_value f value v = int_eq v.field_id f && str_eq v.value value

-- SELECT contact_id FROM contact_values WHERE field_id = ? AND value = ? ORDER BY contact_id
unfoldable pub ids_by_value : ℤ → Str → Tables → List ℕ
unfolding sort_ids
ids_by_value f value t =
    sort_ids
      (map (λ (v : ContactValue). v.contact_id) (select (holds_value f value) t.contacts.values))

abbrev pub at_cell : ℕ → ℤ → ContactValue → Bool
at_cell contact f v = v.contact_id == contact && int_eq v.field_id f

unfoldable pub cell : ℕ → ℤ → List ContactValue → Option Str
cell contact f [] = none
cell contact f (v ∷ vs) =
    let rest = cell contact f vs in if at_cell contact f v then some v.value else rest

-- SELECT value FROM contact_values WHERE contact_id = ? AND field_id = ?
unfoldable pub current_value : ℕ → ℤ → Tables → Option Str
current_value contact f t = cell contact f t.contacts.values

unfoldable pub has_contact : ℕ → Tables → Bool
has_contact id t = any (λ c. c.id == id) t.contacts.rows

unfoldable pub has_field : ℤ → Tables → Bool
has_field f t = any (λ (d : FieldDef). int_eq d.id f) t.fields.rows

unfoldable pub has_list : ℕ → Tables → Bool
has_list id t = any (λ (l : ContactList). l.id == id) t.lists.rows

-- INSERT INTO contacts: uid is unique, and the id is one more than any given before.
unfoldable pub insert_contact : Str → Str → Tables → Option (ℕ × Tables)
insert_contact uid now t =
    if any (λ c. str_eq c.uid uid) t.contacts.rows
    then none
    else some (
      t.contacts.seq + 1,
      record t {
        contacts = record t.contacts {
          rows =
              t.contacts.rows
              ++ record { id = t.contacts.seq + 1; uid = uid; created_at = now; updated_at = now }
                ∷ [];
          seq = t.contacts.seq + 1;
        };
      },
    )

-- The rows after the upsert of one cell.
unfoldable pub upsert_cell : ContactValue → List ContactValue → List ContactValue
upsert_cell new [] = new ∷ []
upsert_cell new (v ∷ vs) =
    let rest = upsert_cell new vs in
    if at_cell new.contact_id new.field_id v then new ∷ vs else v ∷ rest

-- INSERT INTO contact_values ... ON CONFLICT(contact_id, field_id) DO UPDATE
unfoldable pub upsert_value : ℕ → ℤ → Str → Str → Tables → Option (Unit {0} × Tables)
upsert_value contact f value now t =
    if has_contact contact t && has_field f t
    then some (
      tt,
      record t {
        contacts = record t.contacts {
          values =
              upsert_cell
                (record { contact_id = contact; field_id = f; value = value; updated_at = now })
                t.contacts.values;
        };
      },
    )
    else none

-- INSERT INTO contact_field_history
unfoldable pub insert_change :
    ℕ → ℤ → Option Str → Str → Str → Str → Tables → Option (Unit {0} × Tables)
insert_change contact f old new now source t =
    if has_contact contact t
    then some (
      tt,
      record t {
        contacts = record t.contacts {
          history =
              t.contacts.history
              ++ record {
                id = t.contacts.history_seq + 1;
                contact_id = contact;
                field_id = f;
                old_value = old;
                new_value = new;
                changed_at = now;
                source = source;
              }
                ∷ [];
          history_seq = t.contacts.history_seq + 1;
        };
      },
    )
    else none

abbrev touched : ℕ → Str → Contact → Contact
touched id now c = if c.id == id then record c { updated_at = now } else c

-- UPDATE contacts SET updated_at = ? WHERE id = ?
unfoldable pub touch_contact : ℕ → Str → Tables → Option (Unit {0} × Tables)
touch_contact id now t =
    some (
      tt,
      record t { contacts = record t.contacts { rows = map (touched id now) t.contacts.rows } },
    )

-- DELETE FROM contacts WHERE id = ?, with the rows that refer to it
unfoldable pub delete_contact_row : ℕ → Tables → Option (Unit {0} × Tables)
delete_contact_row id t = some (
  tt,
  record t {
    contacts = record t.contacts {
      rows = select (λ c. not (c.id == id)) t.contacts.rows;
      values = select (λ v. not (v.contact_id == id)) t.contacts.values;
      history = select (λ h. not (h.contact_id == id)) t.contacts.history;
    };
    lists = record t.lists { members = select (λ m. not (m.contact_id == id)) t.lists.members };
    segments = record t.segments {
      members = select (λ m. not (m.contact_id == id)) t.segments.members;
    };
  },
)

abbrev pub is_among : List ℕ → ℕ → Bool
is_among ids id = any (λ i. i == id) ids

-- SELECT id, uid FROM contacts WHERE id IN (...)
unfoldable pub contacts_in : List ℕ → Tables → List Contact
contacts_in ids t = select (λ c. is_among ids c.id) t.contacts.rows

pub record LoadedValue : Type 0 where
  pub contact_id : ℕ
  pub field_id : ℤ
  pub value : Str

abbrev wanted : List ℤ → ℤ → Bool
wanted [] f = true
wanted (g ∷ gs) f = any (λ h. int_eq h f) (g ∷ gs)

abbrev loaded : ContactValue → LoadedValue
loaded v = record { contact_id = v.contact_id; field_id = v.field_id; value = v.value }

-- SELECT contact_id, field_id, value FROM contact_values WHERE contact_id IN (...) AND field_id IN
-- (...), the last test only if there are field ids
unfoldable pub values_in : List ℕ → List ℤ → Tables → List LoadedValue
values_in ids fields t =
    map loaded
      (select (λ v. is_among ids v.contact_id && wanted fields v.field_id) t.contacts.values)

-- The SELECT of QueryContactsByField.
unfoldable pub ids_by_field : ℤ → Str → Bool → ℕ → ℕ → Tables → List ℕ
unfolding sort_ids
ids_by_field f value exclude_empty limit offset t = take limit (
    drop offset (
      sort_ids (
        map (λ (v : ContactValue). v.contact_id)
          (select (λ v. holds_value f value v && not (exclude_empty && is_empty v.value))
            t.contacts.values))))

abbrev pub is_member : ℕ → ℕ → List ListMember → Bool
is_member list contact members = any (λ m. m.list_id == list && m.contact_id == contact) members

-- INSERT OR IGNORE INTO contact_list_members: whether a row went in. A missing list or contact is
-- an error all the same.
unfoldable pub insert_member : ℤ → ℕ → Str → Tables → Option (Bool × Tables)
insert_member (negsuc _) contact now t = none
insert_member (pos list) contact now t =
    if is_member list contact t.lists.members
    then some (false, t)
    else if has_list list t && has_contact contact t
    then some (
      true,
      record t {
        lists = record t.lists {
          members =
              t.lists.members
              ++ record { list_id = list; contact_id = contact; added_at = now } ∷ [];
        };
      },
    )
    else none

-- SELECT COUNT(*) FROM contact_lists WHERE id = ?
unfoldable pub count_lists : ℤ → Tables → ℕ
count_lists list t = length (select (λ (l : ContactList). int_eq (pos l.id) list) t.lists.rows)

-- SELECT COUNT(*) FROM contacts
unfoldable pub count_contacts_in : Tables → ℕ
count_contacts_in t = length t.contacts.rows

-- SELECT id, uid, created_at, updated_at FROM contacts WHERE id = ?
unfoldable pub contact_by_id : ℤ → Tables → Option Contact
contact_by_id id t = find_first (λ c. int_eq (pos c.id) id) t.contacts.rows
