-- ===== src/Auth/TokenHandler.antt =====
-- internal/auth/oauth.go: the client-credentials grant.
pub mod Bearer
use emarsys_mock.Base.{
  ℕ, suc, zero, ◌+◌, ◌*◌, ◌/◌, Bool, true, false, not, ◌&&◌, ◌||◌, Option, none, some, Str, lit,
  str_eq, is_empty, ℤ, pos, negsuc, if◌then◌else◌,
}
use emarsys_mock.Store.Tables.{ApiUser}
use emarsys_mock.Store.Exec.{Err, Result, ok, err, Exec, ◌>>=◌, ◌>>◌, pure, raise, lift, map_err}
use emarsys_mock.Store.ApiUser.{api_user_by_client_id}
use emarsys_mock.Auth.{Crypto, Claims, Options}
use emarsys_mock.Auth.Jwt.{sign_jwt}

-- A request with its Basic credentials, if they are given, and the form's fields, empty where missing.
pub record TokenRequest : Type 0 where
  pub is_post : Bool
  pub basic : Option (Str × Str)
  pub form_client_id : Str
  pub form_client_secret : Str
  pub grant_type : Str

pub record TokenAnswer : Type 0 where
  pub access_token : Str
  pub expires_in : ℕ

-- What is answered in place of a token; the second is the answer of writeOAuthError.
pub data TokenError : Type 0 where
  method_not_allowed : TokenError
  oauth_error : ℤ → Str → Str → TokenError

abbrev pub client_failed : TokenError
client_failed = oauth_error (pos 401) (lit "invalid_client") (lit "client authentication failed")

unfoldable pub credentials : TokenRequest → Str × Str
credentials r = elim r.basic [ none ↦ (r.form_client_id, r.form_client_secret) | some pair ↦ pair ]

unfoldable pub check_request : TokenRequest → Result TokenError (Unit {0})
unfolding credentials
check_request r =
    if not r.is_post
    then err method_not_allowed
    else if is_empty (credentials r).0 || is_empty (credentials r).1
    then err (oauth_error (pos 401) (lit "invalid_client") (lit "client credentials missing"))
    else if not (is_empty r.grant_type) && not (str_eq r.grant_type (lit "client_credentials"))
    then err (
        oauth_error (pos 400) (lit "unsupported_grant_type")
          (lit "only client_credentials is supported"))
    else ok tt

-- The time to live in nanoseconds: an hour where none is set.
abbrev pub ttl_of : ℤ → ℕ
ttl_of (pos (suc n)) = suc n
ttl_of _ = 3600 * 1000000000

unfoldable pub claims_for : Options → ℕ → ApiUser → Claims
claims_for o now user = record {
  subject = user.username;
  client_id = user.client_id;
  issuer = lit "emarsys-mock";
  issued_at = pos (now / 1000000000);
  expires = pos ((now + ttl_of o.token_ttl) / 1000000000);
}

unfoldable pub token_for : Crypto → Options → ℕ → ApiUser → TokenAnswer
token_for k o now user = record {
  access_token = sign_jwt k (claims_for o now user) o.signing_key;
  expires_in = ttl_of o.token_ttl / 1000000000;
}

abbrev pub any_failed : Err → TokenError
any_failed e = client_failed

-- TokenHandler, at a time in nanoseconds
unfoldable pub token_handler : Crypto → Options → ℕ → TokenRequest → Exec TokenError TokenAnswer
token_handler k o now r = do
  lift (check_request r)
  user ← map_err any_failed (api_user_by_client_id (credentials r).0)
  if not (str_eq user.client_secret (credentials r).1)
      then raise client_failed
      else pure (token_for k o now user)
