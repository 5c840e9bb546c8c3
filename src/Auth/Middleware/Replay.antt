-- ===== src/Auth/Middleware/Replay.antt =====
-- Where reuse is rejected, a WSSE header is accepted once.
use emarsys_mock.Base.{
  ◌≡◌, sym, ◌∙◌, inl, inr, Bool-cases, arith, ℕ, Bool, true, false, not, Option, none, some, List,
  [], ◌∷◌, ◌++◌, Str, str_eq, str_eq_refl, is_empty, any,
}
use emarsys_mock.Store.Tables.{Tables, ApiUser}
use emarsys_mock.Store.Exec.{Result, ok, World}
use emarsys_mock.Store.Exec.Rules.{Reads, Reads-lift, Reads-map_err, reads_rules}
use emarsys_mock.Store.Exec.Yields.{
  Yields, Yields-given, Yields-pure, Yields-raise, Yields-of-Reads, Yields-strengthen, Yields-if,
  Yields-exec, Yields-bind, Yields-map_err, Yields-lift,
}
use emarsys_mock.Store.ApiUser.{
  is_seen, insert_nonce, remember_nonce, user_or, api_user_where, api_user_by_username,
}
use emarsys_mock.Auth.{Crypto, Options, AuthError}
use emarsys_mock.Auth.Wsse.{Token, parse_token, verify}
use emarsys_mock.Auth.Middleware.{
  check_nonce, authenticate_wsse, authenticate, Call, middleware, allows,
}

any-last : (nonce : Str) (xs : List Str) → any (str_eq nonce) (xs ++ nonce ∷ []) ≡ true
unfolding any
any-last nonce [] = rw (str_eq_refl nonce)
any-last nonce (x ∷ xs) = ground (arith, any-last nonce xs)

insert_nonce-seen :
    (nonce : Str) (t t' : Tables) (hit : Bool)
    → insert_nonce nonce t ≡ some (hit, t')
    → is_seen nonce t' ≡ true
unfolding insert_nonce
insert_nonce-seen nonce t t' hit h = elim (Bool-cases (is_seen nonce t)) [
  | inl e ↦
      let done : ◌≡◌ {A = Option (Bool × Tables)} (some (false, t)) (some (hit, t')) =
        rw (e) at h in
      let same : t ≡ t' = ground arith in rw (← same) e
  | inr e ↦
      let done = rw (e) at h in
      let rows : t'.users.nonces ≡ t.users.nonces ++ nonce ∷ [] = ground arith in
      rw (rows) (any-last nonce t.users.nonces)
]

insert_nonce-again :
    (nonce : Str) (t t' : Tables) (hit : Bool)
    → is_seen nonce t ≡ true
    → insert_nonce nonce t ≡ some (hit, t')
    → hit ≡ false
unfolding insert_nonce
insert_nonce-again nonce t t' hit seen h =
    let done : ◌≡◌ {A = Option (Bool × Tables)} (some (false, t)) (some (hit, t')) =
      rw (seen) at h in
    ground arith

true-ne-false : true ≡ false → ⊥
true-ne-false e = cc

-- The nonce of a header is among those that were seen.
pub record Used (header : Str) (t : Tables) : Type 0 where
  pub token : Token
  pub parsed : parse_token header ≡ ok token
  pub seen : is_seen token.nonce t ≡ true

module _ (o : Options) (rejects : o.reject_nonce_reuse ≡ true) where
  check_nonce-seen :
      (nonce : Str) → Yields (λ _. Unit {0}) (check_nonce o nonce) (λ _ t. is_seen nonce t ≡ true)
  unfolding check_nonce remember_nonce
  check_nonce-seen nonce = rw (rejects) (
      Yields-bind _ _
        (Yields-map_err _ _ (
          Yields-exec (insert_nonce nonce) {Q = λ _ t. is_seen nonce t ≡ true}
            λ t hit t' p h. insert_nonce-seen nonce t t' hit h))
        λ fresh. Yields-if fresh _ _ (λ _. Yields-pure _ (λ t h. h)) (λ _. Yields-raise _))

  check_nonce-used :
      (nonce : Str) → Yields (λ t. is_seen nonce t ≡ true) (check_nonce o nonce) (λ _ _. ⊥)
  unfolding check_nonce remember_nonce
  check_nonce-used nonce = rw (rejects) (
      Yields-bind _ _
        (Yields-map_err _ _ (
          Yields-exec (insert_nonce nonce) {Q = λ hit _. hit ≡ false}
            λ t hit t' p h. insert_nonce-again nonce t t' hit p h))
        λ fresh.
          Yields-if fresh _ _ (λ e. Yields-pure _ (λ t f. absurd (true-ne-false (sym e ∙ f))))
            (λ _. Yields-raise _))

  Reads-user_or : (row : Option ApiUser) → Reads (user_or row)
  Reads-user_or none = search reads_rules
  Reads-user_or (some u) = search reads_rules

  Reads-api_user_by_username : (username : Str) → Reads (api_user_by_username username)
  unfolding api_user_by_username api_user_where
  Reads-api_user_by_username username = search (reads_rules, Reads-user_or)

  authenticate_wsse-Used :
      (k : Crypto) (now : ℕ) (header : Str)
      → Yields (λ _. Unit {0}) (authenticate_wsse k o now header) (λ _. Used header)
  unfolding authenticate_wsse
  authenticate_wsse-Used k now header = Yields-bind _ _ (Yields-lift (parse_token header)) λ token.
      Yields-bind _ _
        (Yields-of-Reads (Reads-map_err _ _ (Reads-api_user_by_username token.username)))
        λ user.
          Yields-bind _ _ (Yields-of-Reads (Reads-lift (verify k token user.secret now o.skew)))
            λ _. Yields-given λ parsed.
              Yields-bind _ _ (check_nonce-seen token.nonce)
                λ _. Yields-pure _ (λ t h. record { token = token; parsed = parsed; seen = h })

  same_token :
      (header : Str) (t : Tables) (token : Token)
      → Used header t
      → parse_token header ≡ ok token
      → is_seen token.nonce t ≡ true
  same_token header t token u parsed =
      let same : ◌≡◌ {A = Result AuthError Token} (ok u.token) (ok token) = sym u.parsed ∙ parsed in
      let same' : u.token ≡ token = cc in rw (← same') u.seen

  authenticate_wsse-never :
      (k : Crypto) (now : ℕ) (header : Str)
      → Yields (Used header) (authenticate_wsse k o now header) (λ _ _. ⊥)
  unfolding authenticate_wsse
  authenticate_wsse-never k now header = Yields-bind _ _ (Yields-lift (parse_token header)) λ token.
      Yields-bind _ _
        (Yields-of-Reads (Reads-map_err _ _ (Reads-api_user_by_username token.username)))
        λ user.
          Yields-bind _ _ (Yields-of-Reads (Reads-lift (verify k token user.secret now o.skew)))
            λ _.
              Yields-strengthen
                (Yields-bind _ _ (check_nonce-used token.nonce) λ _. Yields-pure _ (λ t no. no))
                (λ t h. same_token header t token h.0 h.1)

  module _ (k : Crypto) (now : ℕ) (c : Call) (given : is_empty c.wsse ≡ false) where
    middleware-Used : Yields (λ _. Unit {0}) (middleware k o now c) (λ _. Used c.wsse)
    unfolding middleware authenticate
    middleware-Used = rw (given) (
        Yields-bind _ _ (Yields-map_err _ _ (authenticate_wsse-Used k now c.wsse)) λ user.
          Yields-if (not (allows user.permissions c.path)) _ _ (λ _. Yields-raise _)
            (λ _. Yields-pure _ (λ t h. h)))

    middleware-never : Yields (Used c.wsse) (middleware k o now c) (λ _ _. ⊥)
    unfolding middleware authenticate
    middleware-never = rw (given) (
        Yields-bind _ _ (Yields-map_err _ _ (authenticate_wsse-never k now c.wsse)) λ user.
          Yields-if (not (allows user.permissions c.path)) _ _ (λ _. Yields-raise _)
            (λ _. Yields-pure _ (λ t no. no)))

-- Where nonce reuse is rejected, a request whose X-WSSE header let it pass keeps every later request
-- with that header from passing, whatever its path and time, while the credentials and the nonces in
-- the database are what the first one left.
pub middleware-once :
    (k : Crypto) (o : Options) (now later : ℕ) (c d : Call) (w v : World) (user other : ApiUser)
    → o.reject_nonce_reuse ≡ true
    → is_empty c.wsse ≡ false
    → d.wsse ≡ c.wsse
    → (middleware k o now c w).0 ≡ ok user
    → v.tables.users ≡ (middleware k o now c w).1.tables.users
    → ¬ ((middleware k o later d v).0 ≡ ok other)
middleware-once k o now later c d w v user other rejects given same passed kept again =
    let u = (middleware-Used o rejects k now c given).at w user tt passed in
    let given' : is_empty d.wsse ≡ false = rw (same) given in
    let u' : Used d.wsse v.tables = record {
      token = u.token;
      parsed = rw (same) u.parsed;
      seen = rw (kept) u.seen;
    } in
    (middleware-never o rejects k later d given').at v other u' again
