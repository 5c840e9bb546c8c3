-- ===== src/Server/Json.antt =====
-- internal/server/json.go: request bodies and the flexible scalars in them.
use emarsys_mock.Base.{
  Bool, true, false, not, ◌&&◌, Option, none, some, List, [], ◌∷◌, ◌++◌, Str, lit, is_empty, ℤ, pos,
  atoi, trim_space,
}
use emarsys_mock.Api.{
  Failure, error_text, error_status, code_internal_error, code_missing_key_field,
}
use emarsys_mock.Store.Exec.{Result, ok, err}

-- A parsed JSON value; a number keeps its literal form.
mutual
  pub data Json : Type 0 where
    null : Json
    str : Str → Json
    num : Str → Json
    bool : Bool → Json
    arr : Items → Json
    obj : Fields → Json

  pub data Items : Type 0 where
    nil : Items
    cons : Json → Items → Items

  pub data Fields : Type 0 where
    end : Fields
    field : Str → Json → Fields → Fields

-- What io.ReadAll and json.Unmarshal make of a request's body, for a handler that wants a `B`.
pub data Body (B : Type 0) : Type 0 where
  unreadable : Str → Body B
  empty : Body B
  malformed : Str → Body B
  decoded : B → Body B

unfoldable pub decode_json : {B : Type 0} → Body B → Result Failure B
decode_json (unreadable e) =
    err (error_status (pos 413) code_internal_error (lit "Request body could not be read: " ++ e))
decode_json empty = err (error_text code_missing_key_field (lit "Empty request body"))
decode_json (malformed e) =
    err (error_text code_internal_error (lit "Invalid JSON in request body: " ++ e))
decode_json (decoded b) = ok b

-- scalarToString
unfoldable pub scalar_to_string : Json → Str
scalar_to_string null = []
scalar_to_string (str s) = s
scalar_to_string (num n) = n
scalar_to_string (bool true) = lit "true"
scalar_to_string (bool false) = lit "false"
scalar_to_string (arr xs) = []
scalar_to_string (obj fs) = []

pub record FlexibleInt : Type 0 where
  pub value : ℤ
  pub set : Bool
  pub raw : Str

abbrev or_zero : Option ℤ → ℤ
or_zero none = pos 0
or_zero (some i) = i

-- flexibleInt.UnmarshalJSON. `text` is the raw message with the quotes taken off its ends. A string
-- that is a number gets there by way of json.Number and any other by way of the string itself; both
-- ways leave the integer that Atoi reads in it, or 0.
unfoldable pub flexible_int : Str → Json → FlexibleInt
flexible_int text null = record { value = pos 0; set = false; raw = [] }
flexible_int text (str s) = record { value = or_zero (atoi (trim_space s)); set = true; raw = s }
flexible_int text (num n) = record { value = or_zero (atoi n); set = true; raw = n }
flexible_int text _ = record { value = pos 0; set = true; raw = text }

abbrev is_some : {A : Type 0} → Option A → Bool
is_some none = false
is_some (some a) = true

-- flexibleInt.IsNumeric
unfoldable pub is_numeric : FlexibleInt → Bool
is_numeric f = f.set && not (is_empty f.raw) && is_some (atoi (trim_space f.raw))

pub record FlexibleStrings : Type 0 where
  pub values : List Str
  pub set : Bool
  pub is_list : Bool

abbrev strings : Items → List Str
strings nil = []
strings (cons x xs) = scalar_to_string x ∷ strings xs

-- flexibleStrings.UnmarshalJSON. The test for null comes too late: null is a nil slice for
-- json.Unmarshal, so it counts as a list that is empty.
unfoldable pub flexible_strings : Json → FlexibleStrings
flexible_strings null = record { values = []; set = true; is_list = true }
flexible_strings (arr xs) = record { values = strings xs; set = true; is_list = true }
flexible_strings x = record { values = scalar_to_string x ∷ []; set = true; is_list = false }
