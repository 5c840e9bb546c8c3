-- ===== src/Auth/Jwt.antt =====
-- internal/auth/jwt.go: the tokens that the mock issues.
pub mod RoundTrip
pub mod Utf8
use emarsys_mock.Base.{
  ℕ, Bool, true, false, not, ◌&&◌, Option, none, some, List, [], ◌∷◌, ◌++◌, Str, lit, str_eq,
  split_on, ℤ, pos, int_lt, is_positive, if◌then◌else◌,
}
use emarsys_mock.Store.Exec.{Result, ok, err}
use emarsys_mock.Auth.{Crypto, Claims, AuthError, malformed_jwt, bad_signature, token_expired}

-- jwtHeader
unfoldable pub jwt_header : Crypto → Str
jwt_header k = k.base64_url (lit "{\"alg\":\"HS256\",\"typ\":\"JWT\"}")

unfoldable pub signing_text : Crypto → Str → Str → Str
signing_text k header payload = header ++ b'.' ∷ payload

unfoldable pub signature : Crypto → Str → Str → Str
signature k signing key = k.base64_url (k.hmac key signing)

-- SignJWT
unfoldable pub sign_jwt : Crypto → Claims → Str → Str
unfolding signing_text signature
sign_jwt k claims key =
    let signing = signing_text k (jwt_header k) (k.base64_url (k.marshal claims)) in
    signing ++ b'.' ∷ signature k signing key

abbrev pub is_expired : Claims → ℤ → Bool
is_expired claims now = is_positive claims.expires && not (int_lt now claims.expires)

abbrev pub fresh_claims : ℤ → Option Claims → Result AuthError Claims
fresh_claims now none = err malformed_jwt
fresh_claims now (some claims) = if is_expired claims now then err token_expired else ok claims

abbrev pub claims_of : Crypto → ℤ → Option Str → Result AuthError Claims
claims_of k now none = err malformed_jwt
claims_of k now (some payload) = fresh_claims now (k.unmarshal payload)

unfoldable pub parse_parts : Crypto → Str → ℤ → List Str → Result AuthError Claims
unfolding signing_text signature
parse_parts k key now (header ∷ payload ∷ mac ∷ []) =
    if not (str_eq (signature k (signing_text k header payload) key) mac)
    then err bad_signature
    else claims_of k now (k.decode_base64_url payload)
parse_parts k key now _ = err malformed_jwt

-- ParseJWT, at a time in seconds
unfoldable pub parse_jwt : Crypto → Str → Str → ℤ → Result AuthError Claims
parse_jwt k token key now = parse_parts k key now (split_on b'.' token)
