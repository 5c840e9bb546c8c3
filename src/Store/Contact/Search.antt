-- ===== src/Store/Contact/Search.antt =====
-- internal/store/contact.go: SearchContacts.
pub mod Columns
use emarsys_mock.Base.{
  ℕ, zero, suc, Bool, ◌&&◌, Option, none, some, List, [], ◌∷◌, ◌++◌, map, reverse, any, select,
  find_first, take, Str, is_empty, trim_space, like, ℤ, pos, negsuc, int_eq, atoi, lookup, put,
  int_key, ◌==◌, if◌then◌else◌,
}
use emarsys_mock.Store.Tables.{Tables, Contact, ContactValue}
use emarsys_mock.Store.Exec.{Err, Exec, ◌>>=◌, pure, query}
use emarsys_mock.Store.Contact.{
  Values, ContactRow, ContactSummary, load_contacts, loaded_row, row_values, summary,
}

abbrev pub search_limit : ℤ → ℕ
search_limit (pos zero) = 100
search_limit (pos (suc n)) = suc n
search_limit (negsuc n) = 100

-- EXISTS (SELECT 1 FROM contact_values v WHERE v.contact_id = c.id AND v.value LIKE '%text%')
abbrev holds_like : Str → Tables → Contact → Bool
holds_like text t c =
    any (λ (v : ContactValue). v.contact_id == c.id && like (b'%' ∷ (text ++ b'%' ∷ [])) v.value)
      t.contacts.values

abbrev one_or_none : Option Contact → List Contact
one_or_none none = []
one_or_none (some c) = c ∷ []

abbrev by_id_or : Str → ℕ → Tables → Option ℤ → List Contact
by_id_or text limit t (some id) =
    one_or_none (find_first (λ (c : Contact). int_eq (pos c.id) id) t.contacts.rows)
by_id_or text limit t none = take limit (reverse (select (holds_like text t) t.contacts.rows))

-- The SELECT of the text's kind, newest first
unfoldable pub search_rows : Str → ℕ → Tables → List Contact
search_rows text limit t =
    if is_empty text
    then take limit (reverse t.contacts.rows)
    else by_id_or text limit t (atoi text)

-- Absent values are "".
abbrev pub with_column : ℤ → Values → Values
with_column field values = elim (lookup field values) [
  | none ↦ put field [] values
  | some v ↦ values
]

unfoldable pub with_columns : List ℤ → Values → Values
with_columns [] values = values
with_columns (field ∷ fields) values = with_columns fields (with_column field values)

abbrev pub shown : List ℤ → List ContactRow → Contact → ContactSummary
shown fields loaded c = summary c (with_columns fields (row_values (loaded_row c.id loaded)))

-- SearchContacts
unfoldable pub search_contacts : Str → List ℤ → ℤ → Exec Err (List ContactSummary)
search_contacts text fields limit = do
  found ← query (search_rows (trim_space text) (search_limit limit))
  loaded ← load_contacts (map (λ (c : Contact). c.id) found) fields
  pure (map (shown fields loaded) found)
