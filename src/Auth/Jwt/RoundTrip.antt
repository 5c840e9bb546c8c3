-- ===== src/Auth/Jwt/RoundTrip.antt =====
-- A token that was signed reads back.
use emarsys_mock.Base.{
  ◌≡◌, ap, ◌∙◌, ◌<◌, true, not, some, List, [], ◌∷◌, ◌++◌, append_assoc, Str, str_eq_refl, split_on,
  split_on-whole, split_on-first, all, ◌==◌, ltb, lit, refl, ℤ, pos, negsuc, if◌then◌else◌,
}
use emarsys_mock.Store.Exec.{ok, err}
use emarsys_mock.Auth.{Crypto, Claims, token_expired}
use emarsys_mock.Auth.Jwt.Utf8.{is_utf8}
use emarsys_mock.Auth.Jwt.{
  jwt_header, signing_text, signature, sign_jwt, is_expired, parse_parts, parse_jwt,
}

abbrev pub IsBytes : Str → Type 0
IsBytes s = all (λ b. ltb b 256) s ≡ true

-- Valid UTF-8, and the numbers of an int64: what encoding/json writes and reads back as it is.
abbrev pub IsUtf8 : Str → Type 0
IsUtf8 s = is_utf8 s ≡ true

abbrev pub IsInt64 : ℤ → Type 0
IsInt64 (pos n) = n < 9223372036854775808
IsInt64 (negsuc n) = n < 9223372036854775808

pub record IsClaims (c : Claims) : Type 0 where
  pub subject : IsUtf8 c.subject
  pub client_id : IsUtf8 c.client_id
  pub issuer : IsUtf8 c.issuer
  pub issued_at : IsInt64 c.issued_at
  pub expires : IsInt64 c.expires

-- What base64.RawURLEncoding and encoding/json document: decoding undoes the encoding of bytes, and of
-- claims whose texts are valid UTF-8; the alphabet of base64 has no full stop; JSON and a MAC are bytes.
pub record Documented (k : Crypto) : Type 0 where
  pub decodes : (s : Str) → IsBytes s → k.decode_base64_url (k.base64_url s) ≡ some s
  pub no_stop : (s : Str) → IsBytes s → all (λ b. not (b == b'.')) (k.base64_url s) ≡ true
  pub unmarshals : (c : Claims) → IsClaims c → k.unmarshal (k.marshal c) ≡ some c
  pub marshal_bytes : (c : Claims) → IsClaims c → IsBytes (k.marshal c)
  pub hmac_bytes : (key s : Str) → IsBytes (k.hmac key s)

header-IsBytes : IsBytes (lit "{\"alg\":\"HS256\",\"typ\":\"JWT\"}")
unfolding lit all
header-IsBytes = refl

split_on-jwt :
    (k : Crypto) (claims : Claims) (key : Str)
    → Documented k
    → IsClaims claims
    → split_on b'.' (sign_jwt k claims key)
      ≡ jwt_header k
        ∷ k.base64_url (k.marshal claims)
        ∷ signature k (signing_text k (jwt_header k) (k.base64_url (k.marshal claims))) key
        ∷ []
unfolding sign_jwt signing_text signature jwt_header
split_on-jwt k claims key d c =
    let h : Str = jwt_header k in
    let p : Str = k.base64_url (k.marshal claims) in
    let m : Str = signature k (signing_text k h p) key in
    let shape : (h ++ b'.' ∷ p) ++ b'.' ∷ m ≡ h ++ b'.' ∷ (p ++ b'.' ∷ m) = rw (append_assoc) in
    ap (split_on b'.') shape
    ∙ split_on-first b'.' h (p ++ b'.' ∷ m) (d.no_stop _ header-IsBytes)
    ∙ ap (λ (rest : List Str). h ∷ rest)
        (split_on-first b'.' p m (d.no_stop _ (d.marshal_bytes claims c))
          ∙ ap (λ (rest : List Str). p ∷ rest)
              (split_on-whole b'.' m (d.no_stop _ (d.hmac_bytes _ _))))

-- A token that was signed with a key is read back with the same key as the claims that it was signed
-- for, up to the time at which they expire; from then on it is refused as expired. This is for claims
-- whose texts are valid UTF-8 and whose times are those of an int64.
pub parse_jwt-sign_jwt :
    (k : Crypto) (claims : Claims) (key : Str) (now : ℤ)
    → Documented k
    → IsClaims claims
    → parse_jwt k (sign_jwt k claims key) key now
      ≡ (if is_expired claims now then err token_expired else ok claims)
unfolding parse_jwt parse_parts
parse_jwt-sign_jwt k claims key now d c = rw (
  split_on-jwt k claims key d c,
  str_eq_refl,
  d.decodes _ (d.marshal_bytes claims c),
  d.unmarshals claims c,
)
