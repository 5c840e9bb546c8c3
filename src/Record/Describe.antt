-- ===== src/Record/Describe.antt =====
-- internal/record/shape.go: shapes as text, and the fields that came back as several types.
use emarsys_mock.Base.{
  ℕ, Bool, not, ◌&&◌, List, [], ◌∷◌, ◌++◌, Str, lit, str_eq, str_leb, length, ltb, itoa_ℕ, select,
  if◌then◌else◌,
}
use emarsys_mock.Record.Shape.{
  Shape, shape, ShapeFields, no_fields, shape_field, Elem, no_elem, elem_of, kinds_of,
}

insert_text : Str → List Str → List Str
insert_text s [] = s ∷ []
insert_text s (t ∷ ts) = let rest = insert_text s ts in if str_leb s t then s ∷ t ∷ ts else t ∷ rest

-- sort.Strings
unfoldable pub sort_texts : List Str → List Str
unfolding insert_text
sort_texts [] = []
sort_texts (s ∷ ts) = insert_text s (sort_texts ts)

insert_entry : Str × Str → List (Str × Str) → List (Str × Str)
insert_entry e [] = e ∷ []
insert_entry e (f ∷ fs) =
    let rest = insert_entry e fs in if str_leb e.0 f.0 then e ∷ f ∷ fs else f ∷ rest

-- The entries of a map in the order of its keys.
unfoldable pub sort_entries : List (Str × Str) → List (Str × Str)
unfolding insert_entry
sort_entries [] = []
sort_entries (e ∷ es) = insert_entry e (sort_entries es)

-- strings.Join(parts, " | ")
unfoldable pub join_kinds : List Str → Str
join_kinds [] = []
join_kinds (k ∷ []) = k
join_kinds (k ∷ l ∷ ks) = k ++ (lit " | " ++ join_kinds (l ∷ ks))

-- Whether a description says "optional".
abbrev pub is_optional : ℕ → ℕ → Bool
is_optional parent seen = ltb 0 parent && ltb seen parent

abbrev optional_note : ℕ → ℕ → Str
optional_note parent seen =
    if is_optional parent seen
    then lit "  (optional, " ++ (itoa_ℕ seen ++ (lit "/" ++ (itoa_ℕ parent ++ lit ")")))
    else []

abbrev newline : Str
newline = 10 ∷ []

unfoldable pub field_lines : Str → List (Str × Str) → Str
field_lines indent [] = []
field_lines indent ((key, text) ∷ rest) =
    newline ++ (indent ++ (lit "  " ++ (key ++ (lit ": " ++ (text ++ field_lines indent rest)))))

-- Describe: the texts of the fields come first, and are put in order after.
unfoldable mutual
  pub describe : Shape → Str → ℕ → Str
  describe (shape kinds fs e n) indent parent =
      join_kinds (sort_texts kinds)
      ++ (optional_note parent n
          ++ (field_lines indent (sort_entries (describe_fields fs (indent ++ lit "  ") n))
              ++ describe_elem e indent))

  pub describe_fields : ShapeFields → Str → ℕ → List (Str × Str)
  describe_fields no_fields indent parent = []
  describe_fields (shape_field k s fs) indent parent =
      (k, describe s indent parent) ∷ describe_fields fs indent parent

  pub describe_elem : Elem → Str → Str
  describe_elem no_elem indent = []
  describe_elem (elem_of s) indent =
      newline ++ (indent ++ (lit "  []: " ++ describe s (indent ++ lit "  ") 0))

-- scalarKindCount
unfoldable pub scalar_kind_count : Shape → ℕ
scalar_kind_count s = length (select (λ k. not (str_eq k (lit "null"))) (kinds_of s))

abbrev entry_of : Str → Shape → List (Str × Str)
entry_of path s =
    if ltb 1 (scalar_kind_count s) then (path, join_kinds (sort_texts (kinds_of s))) ∷ [] else []

-- walkShape with the visit of mixedTypeFields: the places, with their kinds, that have several types.
-- The lines are sorted after, so the order of the walk does not show.
unfoldable mutual
  pub mixed_in : Shape → Str → List (Str × Str)
  mixed_in (shape kinds fs e n) path =
      entry_of path (shape kinds fs e n) ++ (mixed_fields fs path ++ mixed_elem e path)

  pub mixed_fields : ShapeFields → Str → List (Str × Str)
  mixed_fields no_fields path = []
  mixed_fields (shape_field k s fs) path =
      mixed_in s (path ++ (lit "." ++ k)) ++ mixed_fields fs path

  pub mixed_elem : Elem → Str → List (Str × Str)
  mixed_elem no_elem path = []
  mixed_elem (elem_of s) path = mixed_in s (path ++ lit "[]")
