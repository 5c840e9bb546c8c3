-- ===== src/Auth/TokenHandler/Bearer.antt =====
-- A token that was issued is accepted as a bearer token.
use emarsys_mock.Base.{
  ◌≡◌, refl, ap, ◌∙◌, inl, inr, Bool-cases, arith, ℕ, ◌+◌, ◌/◌, ◌≤◌, ◌<◌, All, Bool, true, false,
  not, Option, none, some, List, [], ◌∷◌, ◌++◌, Str, lit, str_eq, str_eq_iff, find_first, is_empty,
  pos, zero, suc, ◌&&◌, is_positive, ltb, if◌then◌else◌, has_prefix-append, drop-append,
}
use emarsys_mock.Store.Tables.{Tables, ApiUser}
use emarsys_mock.Store.Exec.{World, Result, ok, err, lift, query, map_err, pure, ◌>>=◌}
use emarsys_mock.Store.Exec.Yields.{
  Yields, Yields-pure, Yields-raise, Yields-if, Yields-bind, Yields-map_err, Yields-query,
  Yields-lift, Yields-weaken,
}
use emarsys_mock.Store.ApiUser.{user_or, api_user_where, api_user_by_client_id}
use emarsys_mock.Auth.{Crypto, Claims, Options, AuthError, token_expired}
use emarsys_mock.Auth.Jwt.{sign_jwt, is_expired}
use emarsys_mock.Auth.Jwt.Utf8.{is_utf8}
use emarsys_mock.Auth.Jwt.RoundTrip.{Documented, IsUtf8, IsClaims, parse_jwt-sign_jwt}
use emarsys_mock.Auth.Middleware.{Call, unknown, authenticate, authenticate_bearer}
use emarsys_mock.Auth.TokenHandler.{
  TokenRequest, TokenAnswer, credentials, check_request, ttl_of, claims_for, token_for,
  token_handler,
}

abbrev has_client : Str → ApiUser → Bool
has_client client_id u = str_eq u.client_id client_id

find_first-holds :
    {A : Type 0} (p : A → Bool) (xs : List A) (x : A) → find_first p xs ≡ some x → p x ≡ true
unfolding find_first
find_first-holds p [] x h = cc
find_first-holds p (y ∷ ys) x h = elim (Bool-cases (p y)) [
  | inl e ↦ let done : ◌≡◌ (some y) (some x) = rw (e) at h in let same : y ≡ x = cc in rw (← same) e
  | inr e ↦ find_first-holds p ys x (rw (e) at h)
]

-- The user whose token an answer has.
pub record Issued (k : Crypto) (o : Options) (now : ℕ) (r : TokenRequest) (a : TokenAnswer)
    (t : Tables) : Type 0 where
  pub user : ApiUser
  pub is_client : user.client_id ≡ (credentials r).0
  pub has_secret : user.client_secret ≡ (credentials r).1
  pub found : find_first (has_client user.client_id) t.users.rows ≡ some user
  pub answer : a ≡ token_for k o now user

Yields-user_or :
    (client_id : Str) (row : Option ApiUser)
    → Yields
        (λ t. find_first (has_client client_id) t.users.rows ≡ row)
        (user_or row)
        (λ user t. find_first (has_client client_id) t.users.rows ≡ some user)
Yields-user_or client_id none = Yields-raise _
Yields-user_or client_id (some u) = Yields-pure u (λ t h. h)

Yields-by_client_id :
    (client_id : Str)
    → Yields
        (λ _. Unit {0})
        (api_user_by_client_id client_id)
        (λ user t. find_first (has_client client_id) t.users.rows ≡ some user)
unfolding api_user_by_client_id api_user_where
Yields-by_client_id client_id =
    Yields-bind _ _ (Yields-weaken (Yields-query _) (λ row t h. h.1))
      λ row. Yields-user_or client_id row

issued :
    (k : Crypto) (o : Options) (now : ℕ) (r : TokenRequest) (user : ApiUser) (t : Tables)
    → str_eq user.client_secret (credentials r).1 ≡ true
    → find_first (has_client (credentials r).0) t.users.rows ≡ some user
    → Issued k o now r (token_for k o now user) t
issued k o now r user t secret found =
    let same : user.client_id ≡ (credentials r).0 =
      (str_eq_iff user.client_id (credentials r).0).0 (find_first-holds _ _ user found) in
    record {
      user = user;
      is_client = same;
      has_secret = (str_eq_iff user.client_secret (credentials r).1).0 secret;
      found = ap (λ c. find_first (has_client c) t.users.rows) same ∙ found;
      answer = refl;
    }

token_handler-Issued :
    (k : Crypto) (o : Options) (now : ℕ) (r : TokenRequest)
    → Yields (λ _. Unit {0}) (token_handler k o now r) (Issued k o now r)
unfolding token_handler
token_handler-Issued k o now r =
    Yields-bind _ _ (Yields-weaken (Yields-lift (check_request r)) (λ _ t h. tt)) λ _.
      Yields-bind _ _ (Yields-map_err _ _ (Yields-by_client_id (credentials r).0)) λ user.
        Yields-if (not (str_eq user.client_secret (credentials r).1)) _ _ (λ _. Yields-raise _)
          λ e. Yields-pure _ (λ t h. issued k o now r user t (ground arith) h)

-- The names of a user are valid UTF-8.
abbrev pub IsNamed : ApiUser → Type 0
IsNamed u = IsUtf8 u.username × IsUtf8 u.client_id

find_first-All :
    {A : Type 0} (P : A → Type 0) (p : A → Bool) (xs : List A) (x : A)
    → All P xs
    → find_first p xs ≡ some x
    → P x
unfolding find_first
find_first-All P p [] x h e = cc
find_first-All P p (y ∷ ys) x (h, hs) e = elim (Bool-cases (p y)) [
  | inl f ↦ let done : ◌≡◌ (some y) (some x) = rw (f) at e in let same : y ≡ x = cc in rw (← same) h
  | inr f ↦ find_first-All P p ys x hs (rw (f) at e)
]

issuer-IsUtf8 : IsUtf8 (lit "emarsys-mock")
unfolding lit is_utf8
issuer-IsUtf8 = refl

claims_for-IsClaims :
    (o : Options) (now : ℕ) (user : ApiUser)
    → IsNamed user
    → (now + ttl_of o.token_ttl) / 1000000000 < 9223372036854775808
    → IsClaims (claims_for o now user)
unfolding claims_for
claims_for-IsClaims o now user (username, client_id) small = record {
  subject = username;
  client_id = client_id;
  issuer = issuer-IsUtf8;
  issued_at = omega arith;
  expires = small;
}

-- A request with a token.
abbrev pub bearer : Str → Str → Call
bearer token path = record { wsse = []; authorization = lit "Bearer " ++ token; path = path }

abbrev pub second : ℕ
second = 1000000000

expires-positive : (now ttl : ℕ) → second ≤ now → 1 ≤ (now + ttl) / second
expires-positive now ttl h = omega arith

is_expired-claims_for :
    (o : Options) (now later : ℕ) (user : ApiUser)
    → second ≤ now
    → is_expired (claims_for o now user) (pos (later / second))
      ≡ not (ltb (later / second) ((now + ttl_of o.token_ttl) / second))
unfolding claims_for
is_expired-claims_for o now later user h =
    go ((now + ttl_of o.token_ttl) / second) (expires-positive now _ h)
  where
    go :
        (e : ℕ)
        → 1 ≤ e
        → (is_positive (pos e) && not (ltb (later / second) e)) ≡ not (ltb (later / second) e)
    go zero h = absurd (omega arith)
    go (suc e) h = refl

authenticate-bearer :
    (k : Crypto) (o : Options) (later : ℕ) (token path : Str) (v : World)
    → authenticate k o later (bearer token path) v ≡ authenticate_bearer k o later token v
unfolding authenticate is_empty
authenticate-bearer k o later token path v =
    rw (has_prefix-append (lit "Bearer ") token, drop-append (lit "Bearer ") token)

by_client_id :
    (client_id : Str) (user : ApiUser) (v : World)
    → v.driver.fails v.calls ≡ false
    → find_first (has_client client_id) v.tables.users.rows ≡ some user
    → (map_err unknown (api_user_by_client_id client_id) v).0 ≡ ok user
unfolding api_user_by_client_id api_user_where query ◌>>=◌ map_err lift pure
by_client_id client_id user v up found = rw (up, found)

authenticate-Issued :
    (k : Crypto) (o : Options) (now later : ℕ) (user : ApiUser) (path : Str) (v : World)
    → Documented k
    → IsNamed user
    → (now + ttl_of o.token_ttl) / second < 9223372036854775808
    → second ≤ now
    → v.driver.fails v.calls ≡ false
    → find_first (has_client user.client_id) v.tables.users.rows ≡ some user
    → (authenticate k o later (bearer (token_for k o now user).access_token path) v).0 ≡ (
        if ltb (later / second) ((now + ttl_of o.token_ttl) / second)
        then ok user
        else err token_expired)
unfolding authenticate_bearer token_for ◌>>=◌ lift claims_for
authenticate-Issued k o now later user path v d named small started up found =
    let sign : Str = sign_jwt k (claims_for o now user) o.signing_key in
    ap (λ (p : Result AuthError ApiUser × World). p.0) (authenticate-bearer k o later sign path v)
    ∙ rw
        (
          parse_jwt-sign_jwt k (claims_for o now user) o.signing_key (pos (later / second)) d
              (claims_for-IsClaims o now user named small),
          is_expired-claims_for o now later user started,
        )
        (read (ltb (later / second) ((now + ttl_of o.token_ttl) / second)))
  where
    read :
        (fresh : Bool)
        → ((lift (if not fresh then err token_expired else ok (claims_for o now user))
              >>= λ (c : Claims). map_err unknown (api_user_by_client_id c.client_id))
            v).0
          ≡ (if fresh then ok user else err token_expired)
    read true = by_client_id user.client_id user v up found
    read false = refl

-- When the token handler issues a token, some user has the client id and the secret of the request; up
-- to the second in which the time to live is over, a request with the token alone comes from that user,
-- whatever its path, and from then on it is refused as expired. This is if the clock is past the first
-- second of 1970 and the token expires within the seconds of an int64, base64 and JSON decode what they
-- encoded, the names of the users are valid UTF-8, the users in the database are what the token handler
-- left, and the call that reads them does not fail.
pub token_handler-authenticate :
    (k : Crypto) (o : Options) (now later : ℕ) (r : TokenRequest) (w v : World) (a : TokenAnswer)
    (path : Str)
    → Documented k
    → All IsNamed v.tables.users.rows
    → (now + ttl_of o.token_ttl) / second < 9223372036854775808
    → second ≤ now
    → (token_handler k o now r w).0 ≡ ok a
    → v.tables.users.rows ≡ (token_handler k o now r w).1.tables.users.rows
    → v.driver.fails v.calls ≡ false
    → (user : ApiUser) × ((user.client_id ≡ (credentials r).0)
        × ((user.client_secret ≡ (credentials r).1)
            × ((authenticate k o later (bearer a.access_token path) v).0 ≡ (
                if ltb (later / second) ((now + ttl_of o.token_ttl) / second)
                then ok user
                else err token_expired))))
token_handler-authenticate k o now later r w v a path d named small started done kept up =
    let i = (token_handler-Issued k o now r).at w a tt done in
    let found : find_first (has_client i.user.client_id) v.tables.users.rows ≡ some i.user =
      rw (kept) i.found in
    (
      i.user,
      (
        i.is_client,
        (
          i.has_secret,
          ap (λ (b : TokenAnswer). (authenticate k o later (bearer b.access_token path) v).0)
                i.answer
              ∙ authenticate-Issued k o now later i.user path v d
                  (find_first-All IsNamed _ _ i.user named found) small started up found,
        ),
      ),
    )
