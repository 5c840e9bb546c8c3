-- ===== src/Record/Redact.antt =====
-- internal/record/redact.go: pseudonyms in the place of values.
use emarsys_mock.Base.{
  ℕ, suc, ◌-◌, Bool, true, false, not, ◌&&◌, ◌||◌, Option, none, some, List, [], ◌∷◌, ◌++◌, map,
  Str, lit, str_eq, str_key, put, to_lower, is_space, any, take, drop, length, replicate, leb, ltb,
  ◌==◌, is_digit, itoa_ℕ, index_of, if◌then◌else◌,
}
use emarsys_mock.Server.Json.{
  Json, null, str, num, bool, arr, obj, Items, nil, cons, Fields, end, field,
}
use emarsys_mock.Record.Patterns.{
  has_email, replace_emails, is_date_time, is_date, all_digits, is_scheme,
}

pub data Mode : Type 0 where
  shapes raw : Mode

-- A redactor, with what it takes from the standard library: HMAC-SHA-256 with a key, hexadecimal
-- digits, json.Unmarshal and json.Marshal of a value, and %d in the wholesale note.
pub record Redactor : Type 0 where
  pub mode : Mode
  pub key : Str
  pub hmac : Str → Str → Str
  pub hex : Str → Str
  pub unmarshal : Str → Option Json
  pub marshal : Json → Str

-- tag
unfoldable pub tag : Redactor → Str → Str
tag r value = take 8 (r.hex (r.hmac r.key value))

abbrev pub address : Redactor → Str → Str
address r value = lit "user-" ++ (tag r value ++ lit "@example.com")

-- scrubAddresses
unfoldable pub scrub_addresses : Redactor → Str → Str
scrub_addresses r value = replace_emails (address r) 0 value

abbrev pub no_digit : ℕ → ℕ
no_digit c = if is_digit c then b'0' else c

abbrev pub is_short : Str → Bool
is_short s = leb (length s) 24 && not (any (λ c. c == 32 || c == b'@') s)

-- pseudonym
unfoldable pub pseudonym : Redactor → Str → Str
pseudonym r [] = []
pseudonym r (c ∷ s) =
    if has_email (c ∷ s)
    then address r (c ∷ s)
    else if is_date_time (c ∷ s)
    then map no_digit (take 19 (c ∷ s)) ++ drop 19 (c ∷ s)
    else if is_date (c ∷ s)
    then lit "1990-01-01"
    else if all_digits (c ∷ s)
    then replicate (length (c ∷ s)) b'0'
    else if is_short (c ∷ s)
    then lit "tok-" ++ tag r (c ∷ s)
    else lit "str-" ++ (tag r (c ∷ s) ++ (lit "-len" ++ itoa_ℕ (length (c ∷ s))))

-- contactKeyedMaps
abbrev pub contact_keyed_maps : List Str
contact_keyed_maps = lit "errors" ∷ lit "ids" ∷ lit "result" ∷ []

-- structuralKeys
abbrev pub structural_keys : List Str
structural_keys =
    lit "replycode"
    ∷ lit "replytext"
    ∷ lit "status"
    ∷ lit "type"
    ∷ lit "application_type"
    ∷ lit "string_id"
    ∷ lit "key_id"
    ∷ lit "keyid"
    ∷ lit "grant_type"
    ∷ lit "token_type"
    ∷ lit "expires_in"
    ∷ lit "distribution_method"
    ∷ lit "delimiter"
    ∷ lit "add_field_names_header"
    ∷ lit "error"
    ∷ lit "error_description"
    ∷ lit "file_name"
    ∷ []

abbrev pub is_in : Str → List Str → Bool
is_in key keys = any (str_eq (to_lower key)) keys

unfoldable pub is_contact_keyed : Str → Bool
is_contact_keyed key = is_in key contact_keyed_maps

unfoldable pub is_structural : Str → Bool
is_structural key = is_in key structural_keys

-- The string case of value
unfoldable pub redact_string : Redactor → Str → Str → ℕ → Str
redact_string r s key budget =
    if is_structural key
    then scrub_addresses r s
    else if ltb 0 budget && all_digits key
    then scrub_addresses r s
    else pseudonym r s

-- The budget of the values in an object: a number that is not positive stands for every such one.
unfoldable pub child_budget : Str → ℕ → ℕ
child_budget key budget = if is_contact_keyed key then 2 else budget - 1

unfoldable pub out_key : Redactor → Bool → Str → Str
out_key r personal k = if personal || has_email k then pseudonym r k else k

-- out[key] = v
unfoldable pub put_field : Str → Json → Fields → Fields
put_field k v end = field k v end
put_field k v (field j w fs) =
    let rest = put_field k v fs in if str_eq j k then field j v fs else field j w rest

-- value: the map of an object is gone through in the order of its fields, and a pseudonym that two keys
-- share keeps the last value.
unfoldable mutual
  pub redact : Redactor → Json → Str → ℕ → Json
  redact r null key budget = null
  redact r (num n) key budget = num n
  redact r (bool b) key budget = bool b
  redact r (str s) key budget = str (redact_string r s key budget)
  redact r (arr xs) key budget = arr (redact_items r xs (key ++ lit "[]") budget)
  redact r (obj fs) key budget =
      obj (redact_fields r fs (is_contact_keyed key) (child_budget key budget) end)

  pub redact_items : Redactor → Items → Str → ℕ → Items
  redact_items r nil key budget = nil
  redact_items r (cons x xs) key budget =
      cons (redact r x key budget) (redact_items r xs key budget)

  pub redact_fields : Redactor → Fields → Bool → ℕ → Fields → Fields
  redact_fields r end personal budget out = out
  redact_fields r (field k v fs) personal budget out =
      redact_fields r fs personal budget
        (put_field (out_key r personal k) (redact r v k budget) out)

abbrev before_semicolon : Str → Option ℕ → Str
before_semicolon [] i = lit "unknown content type"
before_semicolon (c ∷ s) (some (suc i)) = take (suc i) (c ∷ s)
before_semicolon (c ∷ s) _ = c ∷ s

-- firstToken
unfoldable pub first_token : Str → Str
first_token content_type = before_semicolon content_type (index_of content_type (b';' ∷ []))

abbrev redacted_or : Redactor → Str → Str → Option Json → Str
redacted_or r content_type body none = r.marshal (
    str (
      lit "<non-JSON body redacted: "
      ++ (itoa_ℕ (length body) ++ (lit " bytes, " ++ (first_token content_type ++ lit ">")))))
redacted_or r content_type body (some v) = r.marshal (redact r v [] 0)

abbrev kept_or_quoted : Redactor → Str → Option Json → Str
kept_or_quoted r body none = r.marshal (str body)
kept_or_quoted r body (some v) = body

-- Body: `none` is no message. json.Marshal of a value that came from JSON does not fail.
unfoldable pub redact_body : Redactor → Str → Str → Option Str
redact_body r content_type [] = none
redact_body r content_type (c ∷ body) = elim r.mode [
  | raw ↦ some (kept_or_quoted r (c ∷ body) (r.unmarshal (c ∷ body)))
  | shapes ↦ some (redacted_or r content_type (c ∷ body) (r.unmarshal (c ∷ body)))
]

-- headerAllowlist and credentialHeaders
abbrev pub header_allowlist : List Str
header_allowlist =
    lit "content-type"
    ∷ lit "content-length"
    ∷ lit "date"
    ∷ lit "retry-after"
    ∷ lit "x-ratelimit-limit"
    ∷ lit "x-ratelimit-remaining"
    ∷ lit "x-ratelimit-reset"
    ∷ lit "x-request-id"
    ∷ lit "location"
    ∷ []

abbrev pub credential_headers : List Str
credential_headers =
    lit "x-wsse" ∷ lit "authorization" ∷ lit "cookie" ∷ lit "set-cookie" ∷ lit "x-api-key" ∷ []

abbrev field_step : Bool → ℕ → List Str → Bool → List Str
field_step true c fields next_is_space = fields
field_step false c fields true = (c ∷ []) ∷ fields
field_step false c [] false = (c ∷ []) ∷ []
field_step false c (f ∷ fields) false = (c ∷ f) ∷ fields

abbrev ends_here : Str → Bool
ends_here [] = true
ends_here (c ∷ s) = is_space c

-- strings.Fields
unfoldable pub fields_of : Str → List Str
fields_of [] = []
fields_of (c ∷ s) = field_step (is_space c) c (fields_of s) (ends_here s)

abbrev scheme_of : List Str → Str
scheme_of (scheme ∷ _ ∷ _) = if is_scheme scheme then scheme else lit "present"
scheme_of _ = lit "present"

-- credentialScheme
unfoldable pub credential_scheme : List Str → Str
unfolding fields_of
credential_scheme [] = lit "present"
credential_scheme (v ∷ vs) = scheme_of (fields_of v)

-- strings.Join(values, ", ")
unfoldable pub join_values : List Str → Str
join_values [] = []
join_values (v ∷ []) = v
join_values (v ∷ u ∷ vs) = v ++ (lit ", " ++ join_values (u ∷ vs))

unfoldable pub add_header : Str × List Str → List (Str × Str) → List (Str × Str)
add_header (name, values) out =
    if is_in name credential_headers
    then put name (lit "<redacted: " ++ (credential_scheme values ++ lit ">")) out
    else if is_in name header_allowlist
    then put name (join_values values) out
    else out

-- Headers
unfoldable pub redact_headers : List (Str × List Str) → List (Str × Str)
redact_headers [] = []
redact_headers (h ∷ hs) = add_header h (redact_headers hs)
