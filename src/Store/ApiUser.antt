-- ===== src/Store/ApiUser.antt =====
-- internal/store/apiuser.go: the credentials that the mock accepts, and the nonces seen. A row has its
-- permissions as the list that permissions_json holds.
use emarsys_mock.Base.{
  Bool, true, false, Option, none, some, [], ◌∷◌, ◌++◌, Str, str_eq, any, find_first, if◌then◌else◌,
}
use emarsys_mock.Store.Tables.{Tables, ApiUser}
use emarsys_mock.Store.Exec.{Err, no_api_user, Exec, ◌>>=◌, pure, raise, query, exec}

abbrev pub user_or : Option ApiUser → Exec Err ApiUser
user_or none = raise no_api_user
user_or (some u) = pure u

-- apiUserWhere
unfoldable pub api_user_where : (ApiUser → Bool) → Exec Err ApiUser
api_user_where p = do row ← query (λ t. find_first p t.users.rows); user_or row

unfoldable pub api_user_by_username : Str → Exec Err ApiUser
unfolding api_user_where
api_user_by_username username = api_user_where (λ u. str_eq u.username username)

unfoldable pub api_user_by_client_id : Str → Exec Err ApiUser
unfolding api_user_where
api_user_by_client_id client_id = api_user_where (λ u. str_eq u.client_id client_id)

abbrev pub is_seen : Str → Tables → Bool
is_seen nonce t = any (str_eq nonce) t.users.nonces

-- INSERT OR IGNORE INTO wsse_nonces: whether a row went in
unfoldable pub insert_nonce : Str → Tables → Option (Bool × Tables)
insert_nonce nonce t =
    if is_seen nonce t
    then some (false, t)
    else some (true, record t { users = record t.users { nonces = t.users.nonces ++ nonce ∷ [] } })

-- RememberNonce
unfoldable pub remember_nonce : Str → Exec Err Bool
remember_nonce nonce = exec (insert_nonce nonce)
