-- ===== src/Tests/Auth.antt =====
-- Tests of the authentication, with a stand-in for the library's functions.
pub mod Token
use emarsys_mock.Base.{
  ◌≡◌, ◌↔◌, refl, ap, arith, ℕ, zero, suc, ◌+◌, ◌-◌, ◌%◌, ◌∙◌, replicate, ltb, true, false, not,
  Option, none, some, List, [], ◌∷◌, ◌++◌, map, Str, lit, str_eq, is_empty, take, drop, drop-append,
  take-append, length, ℤ, pos, negsuc, all, ◌==◌, any, find_first, has_prefix, has_suffix,
  trim_space, trim_left, to_lower, equal_fold,
}
use emarsys_mock.Store.Tables.{ApiUser}
use emarsys_mock.Store.Exec.{World, ok, err, pure, raise, lift, query, exec, ◌>>=◌, map_err}
use emarsys_mock.Store.ApiUser.{api_user_where, api_user_by_username, insert_nonce, remember_nonce}
use emarsys_mock.Auth.{Crypto, Claims, Options, token_expired}
use emarsys_mock.Auth.Wsse.{
  pairs_from, with_pair, with_pairs, cut_prefix_fold, parse_token, digest, created_layouts,
  parse_created, verify,
}
use emarsys_mock.Auth.Jwt.{sign_jwt, parse_jwt}
use emarsys_mock.Auth.Jwt.Utf8.{is_utf8}
use emarsys_mock.Auth.Jwt.RoundTrip.{Documented, IsBytes, IsClaims, parse_jwt-sign_jwt}
use emarsys_mock.Auth.Middleware.{
  Call, allows, check_nonce, authenticate_wsse, authenticate, middleware,
}
use emarsys_mock.Auth.Middleware.Replay.{middleware-once}
use emarsys_mock.Auth.Middleware.Permission.{SomeOpens, allows-iff-SomeOpens}
use emarsys_mock.Tests.{seeded, start}

abbrev sign_of : ℤ → ℕ
sign_of (pos n) = 0
sign_of (negsuc n) = 1

abbrev size_of : ℤ → ℕ
size_of (pos n) = n
size_of (negsuc n) = n

abbrev signed : ℕ → ℕ → ℤ
signed zero n = pos n
signed (suc s) n = negsuc n

abbrev packed : Claims → Str
packed c =
    sign_of c.issued_at
    ∷ size_of c.issued_at
    ∷ sign_of c.expires
    ∷ size_of c.expires
    ∷ length c.subject
    ∷ length c.client_id
    ∷ (c.subject ++ (c.client_id ++ c.issuer))

abbrev unpacked : Str → Option Claims
unpacked (a ∷ i ∷ b ∷ e ∷ n ∷ m ∷ s) = some (record {
  subject = take n s;
  client_id = take m (drop n s);
  issuer = drop m (drop n s);
  issued_at = signed a i;
  expires = signed b e;
})
unpacked _ = none

-- Numbers as bytes: so many ones, and a zero.
in_bytes : List ℕ → Str
in_bytes [] = []
in_bytes (n ∷ ns) = replicate n 1 ++ 0 ∷ in_bytes ns

from_bytes : ℕ → Str → List ℕ
from_bytes n [] = []
from_bytes n (zero ∷ s) = n ∷ from_bytes 0 s
from_bytes n (suc c ∷ s) = from_bytes (n + 1) s

from_bytes-ones :
    (k n : ℕ) (s : Str) → from_bytes k (replicate n 1 ++ 0 ∷ s) ≡ (k + n) ∷ from_bytes 0 s
unfolding from_bytes
from_bytes-ones k zero s = ap (λ (m : ℕ). m ∷ from_bytes 0 s) (omega arith)
from_bytes-ones k (suc n) s =
    from_bytes-ones (k + 1) n s ∙ ap (λ (m : ℕ). m ∷ from_bytes 0 s) (omega arith)

from_bytes-in_bytes : (ns : List ℕ) → from_bytes 0 (in_bytes ns) ≡ ns
unfolding in_bytes from_bytes
from_bytes-in_bytes [] = refl
from_bytes-in_bytes (n ∷ ns) =
    from_bytes-ones 0 n (in_bytes ns)
    ∙ rw (from_bytes-in_bytes ns) (ap (λ (m : ℕ). m ∷ ns) (omega arith))

IsBytes-ones : (n : ℕ) (s : Str) → IsBytes s → IsBytes (replicate n 1 ++ 0 ∷ s)
unfolding all
IsBytes-ones zero s h = h
IsBytes-ones (suc n) s h = IsBytes-ones n s h

IsBytes-in_bytes : (ns : List ℕ) → IsBytes (in_bytes ns)
unfolding in_bytes all
IsBytes-in_bytes [] = refl
IsBytes-in_bytes (n ∷ ns) = IsBytes-ones n (in_bytes ns) (IsBytes-in_bytes ns)

abbrev toy : Crypto
toy = record {
  parse_time = λ layout v. some 5;
  sha1 = λ s. s;
  hmac = λ key s. map (λ b. b % 256) s;
  hex = λ s. s;
  base64 = λ s. s;
  base64_url = λ s. map (λ b. b + 47) s;
  decode_base64_url = λ s. some (map (λ b. b - 47) s);
  marshal = λ c. in_bytes (packed c);
  unmarshal = λ s. unpacked (from_bytes 0 s);
}

unshifted : (s : Str) → map (λ b. b - 47) (map (λ b. b + 47) s) ≡ s
unshifted [] = refl
unshifted (b ∷ s) = let same : b + 47 - 47 ≡ b = omega arith in rw (same, unshifted s)

no_stop_shifted : (s : Str) → all (λ b. not (b == b'.')) (map (λ b. b + 47) s) ≡ true
unfolding all
no_stop_shifted [] = refl
no_stop_shifted (b ∷ s) =
    let other : (b + 47 == b'.') ≡ false = ground arith in rw (other, no_stop_shifted s)

signed-size : (z : ℤ) → signed (sign_of z) (size_of z) ≡ z
signed-size (pos n) = refl
signed-size (negsuc n) = refl

unpacked-packed : (c : Claims) → unpacked (packed c) ≡ some c
unpacked-packed c = rw (
  take-append c.subject (c.client_id ++ c.issuer),
  drop-append c.subject (c.client_id ++ c.issuer),
  take-append c.client_id c.issuer,
  drop-append c.client_id c.issuer,
  signed-size c.issued_at,
  signed-size c.expires,
)

IsBytes-rest : (s : Str) → IsBytes (map (λ b. b % 256) s)
unfolding all
IsBytes-rest [] = refl
IsBytes-rest (b ∷ s) =
    let small : ltb (b % 256) 256 ≡ true = ground arith in rw (small, IsBytes-rest s) refl

toy-Documented : Documented toy
toy-Documented = record {
  decodes = λ s h. ap some (unshifted s);
  no_stop = λ s h. no_stop_shifted s;
  unmarshals = λ c h. ap unpacked (from_bytes-in_bytes (packed c)) ∙ unpacked-packed c;
  marshal_bytes = λ c h. IsBytes-in_bytes (packed c);
  hmac_bytes = λ key s. IsBytes-rest s;
}

abbrev claims : Claims
claims = record {
  subject = 97 ∷ [];
  client_id = 98 ∷ [];
  issuer = [];
  issued_at = pos 1;
  expires = pos 10;
}

claims-IsClaims : IsClaims claims
unfolding is_utf8
claims-IsClaims = record {
  subject = refl;
  client_id = refl;
  issuer = refl;
  issued_at = omega arith;
  expires = omega arith;
}

parse_jwt-sign_jwt_example :
    parse_jwt toy (sign_jwt toy claims (1 ∷ [])) (1 ∷ []) (pos 10) ≡ err token_expired
parse_jwt-sign_jwt_example =
    parse_jwt-sign_jwt toy claims (1 ∷ []) (pos 10) toy-Documented claims-IsClaims

-- User "a" with secret "s", who may call every path.
abbrev user : ApiUser
user = record {
  id = 1;
  username = 97 ∷ [];
  secret = 115 ∷ [];
  client_id = [];
  client_secret = [];
  permissions = (b'*' ∷ []) ∷ [];
}

abbrev with_user : World
unfolding seeded
with_user = record start {
  tables = record seeded { users = record { rows = user ∷ []; nonces = [] } };
}

abbrev strict : Options
strict = record { skew = 3; reject_nonce_reuse = true; signing_key = []; token_ttl = pos 0 }

abbrev call : Str → Call
unfolding lit
call path = record {
  wsse = lit "UsernameToken Username=\"a\", PasswordDigest=\"ncs\", Nonce=\"n\", Created=\"c\"";
  authorization = [];
  path = path;
}

auth_code : Unit {0}
unfolding seeded with_user call lit str_eq is_empty any find_first has_prefix has_suffix trim_space
    trim_left to_lower equal_fold pure raise lift query exec ◌>>=◌ map_err api_user_where
    api_user_by_username insert_nonce remember_nonce pairs_from with_pair with_pairs cut_prefix_fold
    parse_token digest created_layouts parse_created verify allows check_nonce authenticate_wsse
    authenticate middleware
auth_code = tt

passed_run : (middleware toy strict 6 (call []) with_user).0 ≡ ok user
unfolding auth_code
passed_run = refl

call_given : is_empty (call []).wsse ≡ false
unfolding is_empty call lit
call_given = refl

same_header : (call (97 ∷ [])).wsse ≡ (call []).wsse
unfolding call
same_header = refl

middleware-once_example : ¬ (
    (middleware toy strict 7 (call (97 ∷ [])) (middleware toy strict 6 (call []) with_user).1).0
    ≡ ok user)
middleware-once_example =
    middleware-once toy strict 6 7 (call []) (call (97 ∷ [])) with_user
      (middleware toy strict 6 (call []) with_user).1 user user refl call_given same_header
      passed_run refl

-- "/a*" and "/b" on "/ac"
abbrev permissions : List Str
permissions = (47 ∷ 97 ∷ b'*' ∷ []) ∷ (47 ∷ 98 ∷ []) ∷ []

allows-iff-SomeOpens_example :
    (allows permissions (47 ∷ 97 ∷ 99 ∷ []) ≡ true) ↔ SomeOpens (47 ∷ 97 ∷ 99 ∷ []) permissions
allows-iff-SomeOpens_example = allows-iff-SomeOpens permissions (47 ∷ 97 ∷ 99 ∷ [])
