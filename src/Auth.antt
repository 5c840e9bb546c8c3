-- ===== src/Auth.antt =====
-- internal/auth: who may call the API.
pub mod Wsse
pub mod Jwt
pub mod Middleware
pub mod TokenHandler
use emarsys_mock.Base.{ℕ, Bool, Option, List, Str, ℤ}

pub record Claims : Type 0 where
  pub subject : Str
  pub client_id : Str
  pub issuer : Str
  pub issued_at : ℤ
  pub expires : ℤ

-- What the package takes from Go's library: time.Parse on a layout (in nanoseconds), SHA-1, HMAC-SHA-256
-- with its key, hexadecimal digits, base64 in its two forms, and JSON of the claims.
pub record Crypto : Type 0 where
  pub parse_time : Str → Str → Option ℕ
  pub sha1 : Str → Str
  pub hmac : Str → Str → Str
  pub hex : Str → Str
  pub base64 : Str → Str
  pub base64_url : Str → Str
  pub decode_base64_url : Str → Option Str
  pub marshal : Claims → Str
  pub unmarshal : Str → Option Claims

-- The errors of authentication; the last is any other error of the directory.
pub data AuthError : Type 0 where
  malformed_header digest_mismatch stale_created unknown_principal nonce_used : AuthError
  malformed_jwt bad_signature token_expired directory_failed : AuthError

-- In nanoseconds; a skew that is not positive, which accepts any time, is 0.
pub record Options : Type 0 where
  pub skew : ℕ
  pub reject_nonce_reuse : Bool
  pub signing_key : Str
  pub token_ttl : ℤ
