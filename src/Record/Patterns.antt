-- ===== src/Record/Patterns.antt =====
-- The regular expressions of internal/record/redact.go and shape.go.
use emarsys_mock.Base.{
  ℕ, zero, suc, ◌-◌, Bool, true, false, ◌&&◌, ◌||◌, Option, none, some, [], ◌∷◌, ◌++◌, Str, lit,
  length, leb, ◌==◌, is_digit, all, if◌then◌else◌,
}

abbrev pub is_letter : ℕ → Bool
is_letter c = (leb 65 c && leb c 90) || (leb 97 c && leb c 122)

-- \w
abbrev pub is_word : ℕ → Bool
is_word c = is_letter c || is_digit c || c == b'_'

-- [\w.+-], [\w-] and [\w.-]
abbrev pub is_local : ℕ → Bool
is_local c = is_word c || c == b'.' || c == b'+' || c == b'-'

abbrev pub is_label : ℕ → Bool
is_label c = is_word c || c == b'-'

abbrev pub is_domain : ℕ → Bool
is_domain c = is_word c || c == b'.' || c == b'-'

-- The longest beginning of bytes of a class, and the rest.
unfoldable pub run_of : (ℕ → Bool) → Str → Str
run_of p [] = []
run_of p (c ∷ s) = let rest = run_of p s in if p c then c ∷ rest else []

unfoldable pub after_run : (ℕ → Bool) → Str → Str
after_run p [] = []
after_run p (c ∷ s) = let rest = after_run p s in if p c then rest else c ∷ s

abbrev nonempty : Str → Option Str
nonempty [] = none
nonempty (c ∷ s) = some (c ∷ s)

abbrev with_front : Str → Option Str → Option Str
with_front front none = none
with_front front (some s) = some (front ++ s)

-- [\w.-]+ at the beginning
abbrev domain_at : Str → Option Str
domain_at s = nonempty (run_of is_domain s)

abbrev after_label : Str → Str → Option Str
after_label [] rest = none
after_label (l ∷ label) [] = none
after_label (l ∷ label) (c ∷ rest) =
    if c == b'.' then with_front ((l ∷ label) ++ b'.' ∷ []) (domain_at rest) else none

-- [\w-]+\.[\w.-]+ at the beginning
abbrev host_at : Str → Option Str
host_at s = after_label (run_of is_label s) (after_run is_label s)

abbrev after_local : Str → Str → Option Str
after_local [] rest = none
after_local (l ∷ name) [] = none
after_local (l ∷ name) (c ∷ rest) =
    if c == b'@' then with_front ((l ∷ name) ++ b'@' ∷ []) (host_at rest) else none

-- emailPattern at the beginning of a text: each run is the longest one, and what follows it is not of
-- its class, so a shorter one would not be followed by what the pattern wants.
unfoldable pub email_at : Str → Option Str
unfolding run_of after_run
email_at s = after_local (run_of is_local s) (after_run is_local s)

abbrev found : Option Str → Bool
found none = false
found (some m) = true

-- emailPattern.MatchString
unfoldable pub has_email : Str → Bool
has_email [] = false
has_email (c ∷ s) = found (email_at (c ∷ s)) || has_email s

-- What stands for the text from here on: an address is replaced, or the byte stays.
abbrev replaced : (Str → Str) → Option Str → ℕ → (ℕ → Str) → Str
replaced f none c rest = c ∷ rest 0
replaced f (some m) c rest = f m ++ rest (length m - 1)

-- emailPattern.ReplaceAllStringFunc, from the left; `skip` bytes belong to an address already replaced.
unfoldable pub replace_emails : (Str → Str) → ℕ → Str → Str
replace_emails f skip [] = []
replace_emails f (suc skip) (c ∷ s) = replace_emails f skip s
replace_emails f zero (c ∷ s) = replaced f (email_at (c ∷ s)) c (λ n. replace_emails f n s)

-- Whether one byte is what a byte of a pattern stands for: 0 any digit, T one of "T" and the space.
abbrev stands : ℕ → ℕ → Bool
stands p c = if p == b'0' then is_digit c else if p == b'T' then c == b'T' || c == 32 else p == c

-- Whether a text begins as a pattern says.
unfoldable pub fits : Str → Str → Bool
fits [] s = true
fits (p ∷ pattern) [] = false
fits (p ∷ pattern) (c ∷ s) = stands p c && fits pattern s

-- isoDateTime and isoDate
unfoldable pub is_date_time : Str → Bool
unfolding fits lit
is_date_time s = fits (lit "0000-00-00T00:00:00") s

unfoldable pub is_date : Str → Bool
unfolding fits lit
is_date s = length s == 10 && fits (lit "0000-00-00") s

-- allDigits and numericSegment
unfoldable pub all_digits : Str → Bool
all_digits [] = false
all_digits (c ∷ s) = all is_digit (c ∷ s)

-- schemeToken: ^[A-Za-z][A-Za-z-]{1,30}$
unfoldable pub is_scheme : Str → Bool
is_scheme [] = false
is_scheme (c ∷ s) =
    is_letter c && all (λ b. is_letter b || b == b'-') s && leb 1 (length s) && leb (length s) 30
