-- ===== src/Httpx/LimitBody.antt =====
-- internal/httpx/middleware.go: the limit of a request's size.
use emarsys_mock.Base.{
  ◌≡◌, inl, inr, arith, Bool, true, false, ◌&&◌, ◌||◌, Option, none, some, Str, lit, ℤ, pos,
  Bool-cases, int_lt, is_positive, if◌then◌else◌, leb, length, has_prefix,
}
use emarsys_mock.Api.{Failure, error_status, code_internal_error}

-- isContactPath
unfoldable pub is_contact_path : Str → Bool
is_contact_path path =
    leb (length (lit "/api/v2/contact")) (length path)
    && (has_prefix path (lit "/api/v2/contact") || has_prefix path (lit "/api/v3/contacts"))

-- The request passes with a body that is cut off at a limit, or as it is, or is refused.
pub data Admission : Type 0 where
  admitted : Option ℤ → Admission
  too_large : Failure → Admission

unfoldable pub limit_for : ℤ → ℤ → Str → ℤ
limit_for general contact path =
    if is_contact_path path && is_positive contact && int_lt contact general
    then contact
    else general

-- LimitBody; the length is -1 where the request does not say it.
unfoldable pub limit_body : ℤ → ℤ → Str → ℤ → Admission
limit_body general contact path content_length =
    let limit = limit_for general contact path in
    if is_positive limit
    then if int_lt limit content_length
      then too_large (error_status (pos 413) code_internal_error (lit "Request entity too large"))
      else admitted (some limit)
    else admitted none

int_lt_irrefl : (a : ℤ) → int_lt a a ≡ false
int_lt_irrefl a = ground arith

int_lt_asym : (a b : ℤ) → int_lt a b ≡ true → int_lt b a ≡ false
int_lt_asym a b h = ground arith

limit_for-bounds :
    (general contact : ℤ) (path : Str)
    → is_positive general ≡ true
    → (is_positive (limit_for general contact path) ≡ true)
      × (int_lt general (limit_for general contact path) ≡ false)
      × (is_contact_path path ≡ true
          → is_positive contact ≡ true
          → int_lt contact (limit_for general contact path) ≡ false)
unfolding limit_for
limit_for-bounds general contact path limited =
    ground (arith, int_lt_irrefl general, int_lt_irrefl contact, int_lt_asym contact general)

-- Where there is a general limit, every request that passes has a declared length within it and a
-- body that is cut off at one that is no greater; on the contact paths the same holds of the
-- contact limit, where there is one.
pub limit_body-bounds :
    (general contact : ℤ) (path : Str) (content_length : ℤ) (cut : Option ℤ)
    → is_positive general ≡ true
    → limit_body general contact path content_length ≡ admitted cut
    → (limit : ℤ) × (cut ≡ some limit)
      × (int_lt limit content_length ≡ false)
      × (int_lt general limit ≡ false)
      × (is_contact_path path ≡ true → is_positive contact ≡ true → int_lt contact limit ≡ false)
unfolding limit_body
limit_body-bounds general contact path content_length cut limited h =
    let limit = limit_for general contact path in
    let (positive, le, le') = limit_for-bounds general contact path limited in
    elim (Bool-cases (int_lt limit content_length)) [
      | inl e ↦ let no : too_large _ ≡ admitted cut = rw (positive, e) at h in cc
      | inr e ↦
          let same : admitted (some limit) ≡ admitted cut = rw (positive, e) at h in
          (limit, cc, e, le, le')
    ]
