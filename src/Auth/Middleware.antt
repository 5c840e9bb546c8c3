-- ===== src/Auth/Middleware.antt =====
-- internal/auth/middleware.go and internal/server/directory.go: who a request comes from, and
-- whether that user may call the path.
pub mod Replay
pub mod Permission
use emarsys_mock.Base.{
  ℕ, ◌/◌, Bool, true, false, not, ◌&&◌, ◌||◌, Option, none, some, List, [], ◌∷◌, ◌++◌, Str, lit,
  str_eq, is_empty, has_prefix, has_suffix, length, take, drop, ◌-◌, ℤ, pos, negsuc, ◌+◌,
  is_positive, if◌then◌else◌,
}
use emarsys_mock.Api.{Failure, error_status, code_unauthorized}
use emarsys_mock.Store.Tables.{ApiUser}
use emarsys_mock.Store.Exec.{
  Err, Result, ok, err, Exec, World, ◌>>=◌, ◌>>◌, pure, raise, lift, map_err,
}
use emarsys_mock.Store.ApiUser.{api_user_by_username, api_user_by_client_id, remember_nonce}
use emarsys_mock.Auth.{
  Crypto, Claims, Options, AuthError, malformed_header, stale_created, unknown_principal,
  nonce_used, token_expired, directory_failed,
}
use emarsys_mock.Auth.Wsse.{Token, parse_token, verify}
use emarsys_mock.Auth.Jwt.{parse_jwt, sign_jwt}

-- Principal.Allows, on the principal's permissions
unfoldable pub allows : List Str → Str → Bool
allows [] path = false
allows (pattern ∷ patterns) path =
    let rest = allows patterns path in
    if str_eq pattern (lit "*")
    then true
    else if has_suffix pattern (lit "*")
    then if has_prefix path (take (length pattern - 1) pattern) then true else rest
    else if str_eq pattern path
    then true
    else rest

abbrev pub unknown : Err → AuthError
unknown e = unknown_principal

abbrev unrecorded : Err → AuthError
unrecorded e = directory_failed

-- The check of a nonce, which is made where reuse is rejected.
unfoldable pub check_nonce : Options → Str → Exec AuthError (Unit {0})
check_nonce o nonce =
    if o.reject_nonce_reuse
    then (do
      fresh ← map_err unrecorded (remember_nonce nonce)
      if fresh then pure tt else raise nonce_used)
    else pure tt

-- authenticateWSSE, at a time in nanoseconds
unfoldable pub authenticate_wsse : Crypto → Options → ℕ → Str → Exec AuthError ApiUser
authenticate_wsse k o now header = do
  token ← lift (parse_token header)
  user ← map_err unknown (api_user_by_username token.username)
  lift (verify k token user.secret now o.skew)
  check_nonce o token.nonce
  pure user

abbrev pub seconds : ℕ → ℤ
seconds now = pos (now / 1000000000)

-- authenticateBearer
unfoldable pub authenticate_bearer : Crypto → Options → ℕ → Str → Exec AuthError ApiUser
authenticate_bearer k o now raw = do
  claims ← lift (parse_jwt k raw o.signing_key (seconds now))
  map_err unknown (api_user_by_client_id claims.client_id)

-- The headers of a request, empty where they are missing, and its path.
pub record Call : Type 0 where
  pub wsse : Str
  pub authorization : Str
  pub path : Str

-- authenticate
unfoldable pub authenticate : Crypto → Options → ℕ → Call → Exec AuthError ApiUser
authenticate k o now c =
    if not (is_empty c.wsse)
    then authenticate_wsse k o now c.wsse
    else if has_prefix c.authorization (lit "Bearer ")
    then authenticate_bearer k o now (drop (length (lit "Bearer ")) c.authorization)
    else raise malformed_header

-- unauthorizedText
unfoldable pub unauthorized_text : AuthError → Str
unauthorized_text stale_created =
    lit "Wrong credentials: the Created timestamp is outside the accepted window"
unauthorized_text token_expired = lit "Wrong credentials: the access token has expired"
unauthorized_text malformed_header =
    lit "Wrong credentials: missing or malformed authentication header"
unauthorized_text _ = lit "Wrong credentials"

abbrev pub refused : AuthError → Failure
refused e = error_status (pos 401) code_unauthorized (unauthorized_text e)

-- Authenticator.Middleware: the user that the handler behind it sees, or the answer
unfoldable pub middleware : Crypto → Options → ℕ → Call → Exec Failure ApiUser
middleware k o now c = do
  user ← map_err refused (authenticate k o now c)
  if not (allows user.permissions c.path)
      then raise (
          error_status (pos 403) code_unauthorized
            (lit "The API user has no permission for this endpoint"))
      else pure user
