-- ===== src/Api.antt =====
-- internal/api: reply codes and the response envelope.
use emarsys_mock.Base.{ℤ, pos, Str, lit, Option, none, some, List, [], ◌∷◌, lookup, int_key}
use emarsys_mock.Store.Exec.{Result, ok, err}

abbrev pub ReplyCode : Type 0
ReplyCode = ℤ

abbrev pub code_ok : ReplyCode
code_ok = pos 0

abbrev pub code_unauthorized : ReplyCode
code_unauthorized = pos 1

abbrev pub code_batch_too_large : ReplyCode
code_batch_too_large = pos 1000

abbrev pub code_external_ids_too_big : ReplyCode
code_external_ids_too_big = pos 2002

abbrev pub code_external_ids_type : ReplyCode
code_external_ids_type = pos 2003

abbrev pub code_invalid_key_field_id : ReplyCode
code_invalid_key_field_id = pos 2004

abbrev pub code_missing_key_field : ReplyCode
code_missing_key_field = pos 2005

abbrev pub code_invalid_field_id : ReplyCode
code_invalid_field_id = pos 2006

abbrev pub code_no_contact_found : ReplyCode
code_no_contact_found = pos 2008

abbrev pub code_contact_exists : ReplyCode
code_contact_exists = pos 2009

abbrev pub code_multiple_contacts : ReplyCode
code_multiple_contacts = pos 2010

abbrev pub code_internal_error : ReplyCode
code_internal_error = pos 2011

abbrev pub code_no_field_to_return : ReplyCode
code_no_field_to_return = pos 2014

abbrev pub code_no_index_on_column : ReplyCode
code_no_index_on_column = pos 2015

abbrev pub code_invalid_limit : ReplyCode
code_invalid_limit = pos 2016

pub record CodeSpec : Type 0 where
  pub text : Str
  pub status : ℤ

abbrev spec : Str → ℤ → CodeSpec
spec text status = record { text = text; status = status }

unfoldable pub codes : List (ReplyCode × CodeSpec)
codes =
    (code_ok, spec (lit "OK") (pos 200))
    ∷ (code_unauthorized, spec (lit "Unauthorized") (pos 401))
    ∷ (code_batch_too_large, spec (lit "Limit of 1000 contacts exceeded") (pos 400))
    ∷ (code_external_ids_too_big, spec (lit "The list of the external ids is too big") (pos 400))
    ∷ (code_external_ids_type, spec (lit "Invalid data type for the external id list") (pos 400))
    ∷ (code_invalid_key_field_id, spec (lit "Invalid key field id") (pos 400))
    ∷ (code_missing_key_field, spec (lit "Missing or invalid key field") (pos 400))
    ∷ (code_invalid_field_id, spec (lit "Invalid field id") (pos 400))
    ∷ (code_no_contact_found, spec (lit "No contact found with the external id") (pos 400))
    ∷ (code_contact_exists, spec (lit "Contact with the external id already exists") (pos 400))
    ∷ (code_multiple_contacts, spec (lit "More contacts found with the external ID") (pos 400))
    ∷ (code_internal_error, spec (lit "Internal error") (pos 500))
    ∷ (code_no_field_to_return, spec (lit "No field specified to return") (pos 400))
    ∷ (code_no_index_on_column, spec (lit "No index on the column") (pos 400))
    ∷ (code_invalid_limit, spec (lit "Invalid limit, it must be between 1 and 10000") (pos 400))
    ∷ []

-- ReplyCode.Text
unfoldable pub text : ReplyCode → Str
text c = elim (lookup c codes) [ none ↦ lit "Unknown error" | some s ↦ s.text ]

-- ReplyCode.Status
unfoldable pub status : ReplyCode → ℤ
status c = elim (lookup c codes) [ none ↦ pos 400 | some s ↦ s.status ]

-- A failure that a handler answers: the HTTP status, the reply code and the reply text.
pub record Failure : Type 0 where
  pub status : ℤ
  pub code : ReplyCode
  pub text : Str

unfoldable pub error_status : ℤ → ReplyCode → Str → Failure
error_status s c t = record { status = s; code = c; text = t }

unfoldable pub error_text : ReplyCode → Str → Failure
unfolding error_status status codes
error_text c t = error_status (status c) c t

unfoldable pub error : ReplyCode → Failure
unfolding error_text text codes
error c = error_text c (text c)

-- What goes over the wire; on a failure the data is the empty string, here `none`.
pub record Envelope (D : Type 0) : Type 0 where
  pub status : ℤ
  pub reply_code : ReplyCode
  pub reply_text : Str
  pub payload : Option D

-- `ok` is what OK writes, `err` what Error, ErrorText and ErrorStatus write.
unfoldable pub envelope : {D : Type 0} → Result Failure D → Envelope D
envelope (ok d) = record {
  status = pos 200;
  reply_code = code_ok;
  reply_text = lit "OK";
  payload = some d;
}
envelope (err f) = record {
  status = f.status;
  reply_code = f.code;
  reply_text = f.text;
  payload = none;
}
