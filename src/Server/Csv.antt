-- ===== src/Server/Csv.antt =====
-- encoding/csv's Writer, as internal/server/handler_export.go uses it, and sliceCSV.
use emarsys_mock.Base.{
  ℕ, Bool, false, not, ◌&&◌, ◌||◌, Option, none, some, List, [], ◌∷◌, ◌++◌, Str, is_space, str_eq,
  contains, split_on, reverse, take, drop, length, any, all, ltb, leb, ◌==◌, ℤ, pos, atoi,
  is_positive, if◌then◌else◌,
}

abbrev pub newline : ℕ
newline = 10

-- A byte that goes on with a rune that has begun.
abbrev is_continuation : ℕ → Bool
is_continuation c = leb 128 c && leb c 191

-- Whether a text is one rune: []rune(s) has length 1, where s is UTF-8.
unfoldable pub is_rune : Str → Bool
is_rune [] = false
is_rune (c ∷ s) = all is_continuation s

-- Comma is given as the bytes of its rune. It may not be NUL, '"', '\r', '\n' or U+FFFD.
unfoldable pub is_delimiter : Str → Bool
is_delimiter comma = not (
    any (str_eq comma)
      ((0 ∷ []) ∷ (b'"' ∷ []) ∷ (13 ∷ []) ∷ (newline ∷ []) ∷ (239 ∷ 191 ∷ 189 ∷ []) ∷ []))

abbrev pub is_special : ℕ → Bool
is_special c = c == b'"' || c == 13 || c == newline

abbrev starts_with_space : Str → Bool
starts_with_space [] = false
starts_with_space (c ∷ s) = is_space c

-- Writer.fieldNeedsQuotes
unfoldable pub needs_quotes : Str → Str → Bool
needs_quotes comma [] = false
needs_quotes comma (c ∷ s) =
    str_eq (c ∷ s) (92 ∷ b'.' ∷ [])
    || any is_special (c ∷ s)
    || contains (c ∷ s) comma
    || starts_with_space (c ∷ s)

-- A quotation mark is doubled.
unfoldable pub escaped : Str → Str
escaped [] = []
escaped (c ∷ s) = let rest = escaped s in if c == b'"' then b'"' ∷ b'"' ∷ rest else c ∷ rest

unfoldable pub csv_field : Str → Str → Str
unfolding needs_quotes escaped
csv_field comma s = if needs_quotes comma s then b'"' ∷ (escaped s ++ b'"' ∷ []) else s

unfoldable pub csv_fields : Str → List Str → Str
unfolding csv_field
csv_fields comma [] = []
csv_fields comma (s ∷ []) = csv_field comma s
csv_fields comma (s ∷ t ∷ rest) = csv_field comma s ++ (comma ++ csv_fields comma (t ∷ rest))

-- Writer.Write: `none` for a delimiter that is not valid.
unfoldable pub csv_line : Str → List Str → Option Str
unfolding csv_fields is_delimiter
csv_line comma fields =
    if is_delimiter comma then some (csv_fields comma fields ++ newline ∷ []) else none

abbrev pub joined_line : Option Str → Option Str → Option Str
joined_line none rest = none
joined_line (some line) none = none
joined_line (some line) (some rest) = some (line ++ rest)

-- Records written one after the other.
unfoldable pub csv_lines : Str → List (List Str) → Option Str
unfolding csv_line
csv_lines comma [] = some []
csv_lines comma (fields ∷ rest) = joined_line (csv_line comma fields) (csv_lines comma rest)

-- strings.TrimRight(s, "\n"), from the end
drop_newlines : Str → Str
drop_newlines [] = []
drop_newlines (c ∷ s) = let rest = drop_newlines s in if c == newline then rest else c ∷ s

unfoldable pub trim_newlines : Str → Str
unfolding drop_newlines
trim_newlines s = reverse (drop_newlines (reverse s))

-- strings.Join(lines, "\n")
unfoldable pub join_lines : List Str → Str
join_lines [] = []
join_lines (l ∷ []) = l
join_lines (l ∷ m ∷ rest) = l ++ newline ∷ join_lines (m ∷ rest)

-- Whether a bound was read and is more than zero.
abbrev pub is_given : Option ℤ → Bool
is_given none = false
is_given (some n) = is_positive n

abbrev pub offset_of : Option ℤ → ℕ → ℕ
offset_of (some (pos n)) lines = if ltb lines n then lines else n
offset_of _ lines = 0

abbrev pub limited : Option ℤ → List Str → List Str
limited (some (pos n)) lines = if ltb 0 n && ltb n (length lines) then take n lines else lines
limited _ lines = lines

unfoldable pub slice_lines : Option ℤ → Option ℤ → List Str → List Str
slice_lines offset limit lines = limited limit (drop (offset_of offset (length lines)) lines)

-- sliceCSV: strings.Split never gives an empty list, so the test for one is left out.
unfoldable pub slice_csv : Str → Str → Str → Str
unfolding slice_lines trim_newlines join_lines
slice_csv payload raw_offset raw_limit =
    if not (is_given (atoi raw_offset)) && not (is_given (atoi raw_limit))
    then payload
    else join_lines
        (slice_lines (atoi raw_offset) (atoi raw_limit) (split_on newline (trim_newlines payload)))
      ++ newline ∷ []
