-- ===== src/Auth/Wsse.antt =====
-- internal/auth/wsse.go: the X-WSSE header.
use emarsys_mock.Base.{
  ℕ, zero, suc, ◌+◌, ◌-◌, Bool, not, ◌&&◌, ◌||◌, Option, none, some, List, [], ◌∷◌, ◌++◌, Str, lit,
  str_eq, is_empty, to_lower, trim_space, equal_fold, length, take, drop, ltb, leb, ◌==◌,
  if◌then◌else◌,
}
use emarsys_mock.Store.Exec.{Result, ok, err}
use emarsys_mock.Auth.{Crypto, AuthError, malformed_header, digest_mismatch, stale_created}

pub record Token : Type 0 where
  pub username : Str
  pub password_digest : Str
  pub nonce : Str
  pub created : Str

-- The regexp's \w and \s
abbrev is_word : ℕ → Bool
is_word c = (leb 48 c && leb c 57) || (leb 65 c && leb c 90) || (leb 97 c && leb c 122) || c == 95

abbrev is_blank : ℕ → Bool
is_blank c = c == 9 || c == 10 || c == 12 || c == 13 || c == 32

-- The longest prefix whose bytes pass a test, and the rest.
span : (ℕ → Bool) → Str → Str × Str
span p [] = ([], [])
span p (c ∷ s) = let (a, b) = span p s in if p c then (c ∷ a, b) else ([], c ∷ s)

-- A text in quotes, with what is behind it.
quoted : Str → Option (Str × Str)
unfolding span
quoted [] = none
quoted (c ∷ s) =
    let (v, rest) = span (λ d. not (d == 34)) s in if c == 34 then closed v rest else none
  where
    closed : Str → Str → Option (Str × Str)
    closed v [] = none
    closed v (q ∷ rest) = some (v, rest)

-- What follows the key: blanks, "=", blanks and the value.
value_after : Str → Option (Str × Str)
unfolding span quoted
value_after s = after_equals (span is_blank s).1
  where
    after_equals : Str → Option (Str × Str)
    after_equals [] = none
    after_equals (c ∷ rest) = if c == 61 then quoted (span is_blank rest).1 else none

-- A match of (\w+)\s*=\s*"([^"]*)" at the start of a text: the key, the value and the text behind it.
pair_at : Str → Option (Str × (Str × Str))
unfolding span value_after
pair_at s =
    let (key, rest) = span is_word s in
    if is_empty key then none else with_key key (value_after rest)
  where
    with_key : Str → Option (Str × Str) → Option (Str × (Str × Str))
    with_key key none = none
    with_key key (some (v, behind)) = some (key, (v, behind))

-- FindAllStringSubmatch: the matches from left to right; `skip` bytes belong to the last one.
unfoldable pub pairs_from : ℕ → Str → List (Str × Str)
unfolding pair_at
pairs_from skip [] = []
pairs_from (suc skip) (c ∷ s) = pairs_from skip s
pairs_from zero (c ∷ s) = elim (pair_at (c ∷ s)) [
  | none ↦ pairs_from 0 s
  | some (key, (v, behind)) ↦ (key, v) ∷ pairs_from (length s - length behind) s
]

-- The switch of ParseToken; a key that is given twice counts as its last value.
unfoldable pub with_pair : Token → Str → Str → Token
with_pair t key value =
    if str_eq (to_lower key) (lit "username")
    then record t { username = value }
    else if str_eq (to_lower key) (lit "passworddigest")
    then record t { password_digest = value }
    else if str_eq (to_lower key) (lit "nonce")
    then record t { nonce = value }
    else if str_eq (to_lower key) (lit "created")
    then record t { created = value }
    else t

unfoldable pub with_pairs : Token → List (Str × Str) → Token
with_pairs t [] = t
with_pairs t ((key, value) ∷ rest) = with_pairs (with_pair t key value) rest

-- cutPrefixFold, and the text itself where the prefix is not there
unfoldable pub cut_prefix_fold : Str → Str → Option Str
cut_prefix_fold s prefix =
    if leb (length prefix) (length s) && equal_fold (take (length prefix) s) prefix
    then some (drop (length prefix) s)
    else none

abbrev without_scheme : Str → Str
without_scheme s = elim (cut_prefix_fold s (lit "UsernameToken")) [
  | none ↦ s
  | some after ↦ trim_space after
]

abbrev complete : Token → Result AuthError Token
complete t =
    if is_empty t.username || is_empty t.password_digest || is_empty t.nonce || is_empty t.created
    then err malformed_header
    else ok t

-- ParseToken
unfoldable pub parse_token : Str → Result AuthError Token
parse_token [] = err malformed_header
parse_token (c ∷ s) = complete (
    with_pairs (record { username = []; password_digest = []; nonce = []; created = [] })
      (pairs_from 0 (without_scheme (trim_space (c ∷ s)))))

-- Digest
unfoldable pub digest : Crypto → Str → Str → Str → Str
digest k nonce created secret = k.base64 (k.hex (k.sha1 (nonce ++ created ++ secret)))

unfoldable pub created_layouts : List Str
created_layouts =
    lit "2006-01-02T15:04:05.999999999Z07:00"
    ∷ lit "2006-01-02T15:04:05Z07:00"
    ∷ lit "2006-01-02T15:04:05Z"
    ∷ lit "2006-01-02T15:04:05-07:00"
    ∷ lit "2006-01-02T15:04:05"
    ∷ []

abbrev first_layout : Crypto → Str → List Str → Option ℕ
first_layout k v [] = none
first_layout k v (layout ∷ layouts) = elim (k.parse_time layout v) [
  | some t ↦ some t
  | none ↦ first_layout k v layouts
]

-- parseCreated
unfoldable pub parse_created : Crypto → Str → Option ℕ
parse_created k v = first_layout k v created_layouts

-- The distance of two times.
abbrev pub distance : ℕ → ℕ → ℕ
distance a b = (a - b) + (b - a)

abbrev checked : Crypto → Token → Str → ℕ → ℕ → Option ℕ → Result AuthError (Unit {0})
checked k t secret now skew none = err stale_created
checked k t secret now skew (some created) =
    if ltb 0 skew && ltb skew (distance now created)
    then err stale_created
    else if not (str_eq (digest k t.nonce t.created secret) t.password_digest)
    then err digest_mismatch
    else ok tt

-- Token.Verify
unfoldable pub verify : Crypto → Token → Str → ℕ → ℕ → Result AuthError (Unit {0})
verify k t secret now skew = checked k t secret now skew (parse_created k t.created)
