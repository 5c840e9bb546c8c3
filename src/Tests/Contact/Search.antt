-- ===== src/Tests/Contact/Search.antt =====
-- A search for a part of a value.
use emarsys_mock.Base.{
  ◌≡◌, ◌≢◌, refl, ◌≤◌, none, [], ◌∷◌, any, select, find_first, length, is_empty, trim_space,
  trim_left, like, some_end, atoi, pos, lookup, put, int_key, All,
}
use emarsys_mock.Store.Tables.{Contact}
use emarsys_mock.Store.Exec.{World, ok, query, pure, ◌>>=◌}
use emarsys_mock.Store.Contact.{ContactSummary, load_contacts, loaded_row}
use emarsys_mock.Store.Contact.Statements.{contacts_in, values_in}
use emarsys_mock.Store.Contact.Search.{search_limit, search_rows, with_columns, search_contacts}
use emarsys_mock.Store.Contact.Search.Columns.{search_contacts-columns}
use emarsys_mock.Tests.{seeded, start}

abbrev ann : Contact
ann = record { id = 4; uid = 117 ∷ []; created_at = []; updated_at = [] }

abbrev bob : Contact
bob = record { id = 5; uid = 118 ∷ []; created_at = []; updated_at = [] }

-- The values "Ann" and "Bob" of field 1
abbrev two : World
two = record start {
  tables = record seeded {
    contacts = record {
      rows = ann ∷ bob ∷ [];
      seq = 5;
      values =
          record { contact_id = 4; field_id = pos 1; value = 65 ∷ 110 ∷ 110 ∷ []; updated_at = [] }
          ∷ record { contact_id = 5; field_id = pos 1; value = 66 ∷ 111 ∷ 98 ∷ []; updated_at = [] }
          ∷ [];
      history = [];
      history_seq = 0;
    };
  };
}

abbrev found : ContactSummary
found = record {
  id = 4;
  uid = 117 ∷ [];
  created_at = [];
  updated_at = [];
  values = (pos 1, 65 ∷ 110 ∷ 110 ∷ []) ∷ (pos 3, []) ∷ [];
}

run : (search_contacts (110 ∷ 78 ∷ 32 ∷ []) (pos 1 ∷ pos 3 ∷ []) (pos 0) two).0 ≡ ok (found ∷ [])
unfolding search_contacts ◌>>=◌ query load_contacts search_rows is_empty trim_space atoi select any
    like pure with_columns lookup loaded_row find_first contacts_in values_in put some_end trim_left
run = refl

search_contacts-columns_example :
    (length (found ∷ []) ≤ search_limit (pos 0))
    × All
        (λ (c : ContactSummary). All (λ f. lookup f c.values ≢ none) (pos 1 ∷ pos 3 ∷ []))
        (found ∷ [])
search_contacts-columns_example =
    search_contacts-columns (110 ∷ 78 ∷ 32 ∷ []) (pos 1 ∷ pos 3 ∷ []) (pos 0) two (found ∷ []) run
