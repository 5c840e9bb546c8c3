-- ===== src/Store/Contact/Search/Columns.antt =====
-- What the pages of the dashboard can rely on.
use emarsys_mock.Base.{
  ◌≡◌, ◌≢◌, refl, inl, inr, Bool-cases, arith, ℕ, zero, suc, ◌≤◌, Option, none, some, List, [], ◌∷◌,
  map, length, reverse, take, Str, is_empty, trim_space, ℤ, pos, negsuc, int_eq_iff, atoi, lookup,
  put, lookup-put, int_key, All,
}
use emarsys_mock.Store.Tables.{Tables, Contact}
use emarsys_mock.Store.Exec.{World, ok}
use emarsys_mock.Store.Exec.Yields.{
  Yields, Yields-pure, Yields-query, Yields-bind, Yields-anything, Yields-weaken, Yields-premise,
}
use emarsys_mock.Store.Contact.{Values, ContactRow, ContactSummary}
use emarsys_mock.Store.Contact.Search.{
  search_limit, one_or_none, by_id_or, search_rows, with_column, with_columns, shown,
  search_contacts,
}

with_column-keeps :
    (f g : ℤ) (values : Values) → lookup f values ≢ none → lookup f (with_column g values) ≢ none
with_column-keeps f g values h = of_found (lookup g values)
  where
    of_found :
        (o : Option Str) → lookup f (elim o [ none ↦ put g [] values | some v ↦ values ]) ≢ none
    of_found none e = ground (arith, lookup-put g f [] values, h, e)
    of_found (some v) e = h e

with_column-has : (f : ℤ) (values : Values) → lookup f (with_column f values) ≢ none
with_column-has f values = of_found (lookup f values) refl
  where
    of_found :
        (o : Option Str)
        → lookup f values ≡ o
        → lookup f (elim o [ none ↦ put f [] values | some v ↦ values ]) ≢ none
    of_found none q e = ground (arith, lookup-put f f [] values, int_eq_iff f f, e)
    of_found (some v) q e = ground (arith, q, e)

with_columns-keeps :
    (f : ℤ) (fields : List ℤ) (values : Values)
    → lookup f values ≢ none
    → lookup f (with_columns fields values) ≢ none
unfolding with_columns
with_columns-keeps f [] values h = h
with_columns-keeps f (g ∷ fields) values h =
    with_columns-keeps f fields _ (with_column-keeps f g values h)

with_columns-has :
    (fields : List ℤ) (values : Values)
    → All (λ f. lookup f (with_columns fields values) ≢ none) fields
unfolding with_columns
with_columns-has [] values = tt
with_columns-has (f ∷ fields) values = (
  with_columns-keeps f fields _ (with_column-has f values),
  with_columns-has fields (with_column f values),
)

length-take-le : {A : Type 0} (n : ℕ) (xs : List A) → length (take n xs) ≤ n
length-take-le zero xs = omega arith
length-take-le (suc n) [] = omega arith
length-take-le (suc n) (x ∷ xs) = omega (arith, length-take-le n xs)

search_limit-positive : (limit : ℤ) → 1 ≤ search_limit limit
search_limit-positive (pos zero) = omega arith
search_limit-positive (pos (suc n)) = omega arith
search_limit-positive (negsuc n) = omega arith

length-search_rows :
    (text : Str) (limit : ℕ) (t : Tables) → 1 ≤ limit → length (search_rows text limit t) ≤ limit
unfolding search_rows
length-search_rows text limit t h = elim (Bool-cases (is_empty text)) [
  | inl e ↦ rw (e) (length-take-le limit (reverse t.contacts.rows))
  | inr e ↦ rw (e) (of_number (atoi text))
]
  where
    of_one : (o : Option Contact) → length (one_or_none o) ≤ limit
    of_one none = omega arith
    of_one (some c) = omega (arith, h)

    of_number : (o : Option ℤ) → length (by_id_or text limit t o) ≤ limit
    of_number none = length-take-le limit _
    of_number (some id) = of_one _

-- The page has room for the rows, and each has every column.
abbrev Fits : List ℤ → ℤ → List ContactSummary → Type 0
Fits fields limit rows =
    (length rows ≤ search_limit limit)
    × All (λ (c : ContactSummary). All (λ f. lookup f c.values ≢ none) fields) rows

All-shown :
    (fields : List ℤ) (loaded : List ContactRow) (found : List Contact)
    → All
        (λ (c : ContactSummary). All (λ f. lookup f c.values ≢ none) fields)
        (map (shown fields loaded) found)
All-shown fields loaded [] = tt
All-shown fields loaded (c ∷ found) = (with_columns-has fields _, All-shown fields loaded found)

length-map : {A B : Type 0} (f : A → B) (xs : List A) → length (map f xs) ≡ length xs
length-map f [] = refl
length-map f (x ∷ xs) = omega (arith, length-map f xs)

abbrev Anything : Tables → Type 0
Anything t = Unit {0}

search_contacts-Fits :
    (text : Str) (fields : List ℤ) (limit : ℤ)
    → Yields Anything (search_contacts text fields limit) (λ rows _. Fits fields limit rows)
unfolding search_contacts
search_contacts-Fits text fields limit =
    Yields-bind _ _ (Yields-weaken (Yields-query _) small) λ found. Yields-premise λ few.
      Yields-bind _ _ (Yields-anything _)
        λ loaded. Yields-pure _ (λ t _. (rw (length-map) few, All-shown fields loaded found))
  where
    small :
        (found : List Contact) (t : Tables)
        → (Anything t) × (search_rows (trim_space text) (search_limit limit) t ≡ found)
        → length found ≤ search_limit limit
    small found t (_, e) = rw (← e) (length-search_rows _ _ t (search_limit-positive limit))

-- A search of contacts that returns has at most as many rows as the limit, or as 100 where the limit is
-- not positive, and each row has a value for every field that was asked for.
pub search_contacts-columns :
    (text : Str) (fields : List ℤ) (limit : ℤ) (w : World) (rows : List ContactSummary)
    → (search_contacts text fields limit w).0 ≡ ok rows
    → (length rows ≤ search_limit limit)
      × All (λ (c : ContactSummary). All (λ f. lookup f c.values ≢ none) fields) rows
search_contacts-columns text fields limit w rows h =
    (search_contacts-Fits text fields limit).at w rows tt h
