-- ===== src/Tests/Auth/Token.antt =====
-- Tests of the token handler.
use emarsys_mock.Base.{
  ◌≡◌, refl, arith, ◌+◌, ◌/◌, All, true, some, [], ◌∷◌, lit, str_eq, is_empty, find_first, ltb,
  if◌then◌else◌,
}
use emarsys_mock.Store.Tables.{ApiUser}
use emarsys_mock.Store.Exec.{World, ok, err, pure, raise, lift, query, ◌>>=◌, map_err}
use emarsys_mock.Store.ApiUser.{api_user_where, api_user_by_client_id}
use emarsys_mock.Auth.{token_expired}
use emarsys_mock.Auth.Jwt.Utf8.{is_utf8}
use emarsys_mock.Auth.Middleware.{authenticate}
use emarsys_mock.Auth.TokenHandler.{
  TokenRequest, credentials, check_request, ttl_of, token_for, token_handler,
}
use emarsys_mock.Auth.TokenHandler.Bearer.{IsNamed, bearer, second, token_handler-authenticate}
use emarsys_mock.Tests.{seeded, start}
use emarsys_mock.Tests.Auth.{toy, toy-Documented, user, strict}

-- A client "c" with the secret "d".
abbrev client : ApiUser
client = record user { client_id = 99 ∷ []; client_secret = 100 ∷ [] }

abbrev with_client : World
unfolding seeded
with_client = record start {
  tables = record seeded { users = record { rows = client ∷ []; nonces = [] } };
}

abbrev asking : TokenRequest
asking = record {
  is_post = true;
  basic = some (99 ∷ [], 100 ∷ []);
  form_client_id = [];
  form_client_secret = [];
  grant_type = [];
}

token_run :
    (token_handler toy strict second asking with_client).0 ≡ ok (token_for toy strict second client)
unfolding seeded with_client lit str_eq is_empty find_first pure raise lift query ◌>>=◌ map_err
    api_user_where api_user_by_client_id credentials check_request token_handler
token_run = refl

kept :
    with_client.tables.users.rows
    ≡ (token_handler toy strict second asking with_client).1.tables.users.rows
unfolding seeded with_client lit str_eq is_empty find_first pure raise lift query ◌>>=◌ map_err
    api_user_where api_user_by_client_id credentials check_request token_handler
kept = refl

named : All IsNamed with_client.tables.users.rows
unfolding with_client is_utf8
named = ((refl, refl), tt)

-- Two hours later.
token_handler-authenticate_example :
    (u : ApiUser) × ((u.client_id ≡ (credentials asking).0)
      × ((u.client_secret ≡ (credentials asking).1)
          × ((authenticate toy strict 7201000000000
                (bearer (token_for toy strict second client).access_token [])
                with_client).0
              ≡ (if ltb (7201000000000 / second) ((second + ttl_of strict.token_ttl) / second)
                  then ok u
                  else err token_expired))))
unfolding with_client
token_handler-authenticate_example =
    token_handler-authenticate toy strict second 7201000000000 asking with_client with_client
      (token_for toy strict second client) [] toy-Documented named (omega arith) (omega arith)
      token_run kept refl
