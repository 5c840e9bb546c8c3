-- ===== src/Store/History.antt =====
-- internal/store/history.go: reading the change log of contact fields.
use emarsys_mock.Base.{
  ℕ, Bool, ◌&&◌, ◌||◌, not, Option, none, some, List, [], ◌∷◌, Str, ℤ, int_eq, if◌then◌else◌, ltb,
  ◌==◌, any, select, take, str_leb, str_eq,
}
use emarsys_mock.Store.Tables.{Tables, FieldChange}
use emarsys_mock.Store.Exec.{Err, no_change, Exec, ◌>>=◌, pure, raise, query}

abbrev pub is_change_of : ℕ → ℤ → FieldChange → Bool
is_change_of contact f h = h.contact_id == contact && int_eq h.field_id f

-- Keeps the later of two changes, by id.
abbrev pub later : ℕ → ℤ → Option FieldChange → FieldChange → Option FieldChange
later contact f none h = if is_change_of contact f h then some h else none
later contact f (some b) h = if is_change_of contact f h && ltb b.id h.id then some h else some b

unfoldable pub latest_from : ℕ → ℤ → Option FieldChange → List FieldChange → Option FieldChange
latest_from contact f best [] = best
latest_from contact f best (h ∷ hs) = latest_from contact f (later contact f best h) hs

-- SELECT ... WHERE contact_id = ? AND field_id = ? ORDER BY id DESC LIMIT 1
unfoldable pub latest_change : ℕ → ℤ → Tables → Option FieldChange
unfolding latest_from
latest_change contact f t = latest_from contact f none t.contacts.history

unfoldable pub last_change : ℕ → ℤ → Exec Err FieldChange
last_change contact f = do
  found ← query (latest_change contact f)
  elim found [ none ↦ raise no_change | some c ↦ pure c ]

-- ORDER BY changed_at, id
abbrev before : FieldChange → FieldChange → Bool
before a b =
    (str_leb a.changed_at b.changed_at && not (str_eq a.changed_at b.changed_at))
    || (str_eq a.changed_at b.changed_at && ltb a.id b.id)

insert_change_by_time : FieldChange → List FieldChange → List FieldChange
insert_change_by_time a [] = a ∷ []
insert_change_by_time a (b ∷ bs) =
    let rest = insert_change_by_time a bs in if before b a then b ∷ rest else a ∷ b ∷ bs

sort_by_time : List FieldChange → List FieldChange
sort_by_time [] = []
sort_by_time (a ∷ rest) = insert_change_by_time a (sort_by_time rest)

abbrev in_window : Str → Str → List ℤ → FieldChange → Bool
in_window from to [] h = str_leb from h.changed_at && str_leb h.changed_at to
in_window from to (f ∷ fs) h =
    str_leb from h.changed_at && str_leb h.changed_at to && any (λ g. int_eq g h.field_id) (f ∷ fs)

-- The bounds are formatted as the column is, so the order is that of the texts.
unfoldable pub changes_in : Str → Str → List ℤ → Tables → List FieldChange
unfolding sort_by_time insert_change_by_time
changes_in from to fields t = sort_by_time (select (in_window from to fields) t.contacts.history)

unfoldable pub field_changes : Str → Str → List ℤ → Exec Err (List FieldChange)
field_changes from to fields = query (changes_in from to fields)

insert_newest : FieldChange → List FieldChange → List FieldChange
insert_newest a [] = a ∷ []
insert_newest a (b ∷ bs) =
    let rest = insert_newest a bs in if ltb a.id b.id then b ∷ rest else a ∷ b ∷ bs

newest_first : List FieldChange → List FieldChange
newest_first [] = []
newest_first (a ∷ rest) = insert_newest a (newest_first rest)

-- SELECT ... WHERE contact_id = ? ORDER BY id DESC LIMIT ?
unfoldable pub history_of : ℕ → ℕ → Tables → List FieldChange
unfolding newest_first insert_newest
history_of contact limit t =
    take limit (newest_first (select (λ h. h.contact_id == contact) t.contacts.history))

unfoldable pub contact_history : ℕ → ℕ → Exec Err (List FieldChange)
contact_history contact limit = query (history_of contact limit)
