-- ===== src/Record/Proxy/Answers.antt =====
-- What the account and a client get of each other through the proxy.
pub mod Headers
use emarsys_mock.Base.{
  ◌≡◌, ◌⊎◌, refl, sym, ap, ◌∙◌, inl, inr, Bool-cases, arith, ℕ, ◌-◌, zero, suc, ◌≤◌, Bool, true,
  false, Option, none, some, List, [], ◌∷◌, ◌++◌, Str, lit, take, length, length-append, pos,
  lookup, has_suffix, has_suffix_sound, has_suffix-append, to_lower, str_key, if◌then◌else◌,
}
use emarsys_mock.Store.Exec.{Result, ok, err}
use emarsys_mock.Record.Proxy.{
  Request, Response, Recorded, Outbound, Proxy, Network, Values, or_no_values, without_slash,
  outbound, passed_on, plain_error, forwarded, serve,
}
use emarsys_mock.Record.Proxy.Answers.Headers.{
  values_of, IsHeldBack, copy_headers-values_of, outbound_headers-values_of,
  outbound_headers-held_back,
}

take-whole : (n : ℕ) (s : Str) → length s ≤ n → take n s ≡ s
take-whole zero [] h = refl
take-whole zero (c ∷ s) h = absurd (omega arith)
take-whole (suc n) [] h = refl
take-whole (suc n) (c ∷ s) h = ap (λ (t : Str). c ∷ t) (take-whole n s (omega arith))

take-append : (x y : Str) → take (length x) (x ++ y) ≡ x
take-append [] [] = refl
take-append [] (c ∷ y) = refl
take-append (c ∷ x) y = ap (λ (t : Str). c ∷ t) (take-append x y)

-- A path without the slash that it ends in, if it does.
abbrev pub Trimmed : Str → Str → Type 0
Trimmed path base =
    (path ≡ base ++ lit "/") ⊎ ((path ≡ base) × ((q : Str) → ¬ (path ≡ q ++ lit "/")))

take-slash : (path x : Str) → path ≡ x ++ lit "/" → path ≡ take (length path - 1) path ++ lit "/"
unfolding lit
take-slash path x is =
    let n : length (x ++ lit "/") - 1 ≡ length x = omega (arith, length-append x (lit "/")) in
    rw (is, n, take-append x (lit "/")) refl

without_slash-Trimmed : (path : Str) → Trimmed path (without_slash path)
without_slash-Trimmed path = elim (Bool-cases (has_suffix path (lit "/"))) [
  | inl e ↦ let (x, is) = has_suffix_sound path (lit "/") e in inl (rw (e) (take-slash path x is))
  | inr e ↦ inr (rw (e) refl, λ q is. has_none q is e)
]
  where
    has_none : (q : Str) → path ≡ q ++ lit "/" → has_suffix path (lit "/") ≡ false → ⊥
    has_none q is e =
        let ends : has_suffix path (lit "/") ≡ true =
          ap (λ (s : Str). has_suffix s (lit "/")) is ∙ has_suffix-append q (lit "/") in
        cc

-- The request that the account should get for a client's.
pub record Forwards (p : Proxy) (r : Request) (body : Str) (o : Outbound) : Type 0 where
  pub method : o.method ≡ r.method
  pub base : Str
  pub trimmed : Trimmed p.upstream_path base
  pub path : o.path ≡ base ++ r.path
  pub raw_query : o.raw_query ≡ r.raw_query
  pub kept :
      (name : Str)
      → ¬ IsHeldBack name
      → or_no_values (lookup name o.headers) ≡ values_of name r.headers
  pub held_back : (name : Str) → IsHeldBack name → lookup name o.headers ≡ none
  pub whole : length body ≤ p.max_body → o.body ≡ body

-- What the client should get, by what the account does with its request.
pub data Answered (p : Proxy) (n : Network) (o : Outbound) : Response → Type 0 where
  not_built :
      n.builds o ≡ false
      → Answered p n o (plain_error (pos 500) (lit "could not build upstream request"))
  unreachable :
      (e : Str)
      → n.builds o ≡ true
      → n.answers o ≡ err e
      → Answered p n o (plain_error (pos 502) (lit "upstream request failed: " ++ e))
  answered :
      (a : Response) (e : Option Str) (got : Response)
      → n.builds o ≡ true
      → n.answers o ≡ ok (a, e)
      → got.status ≡ a.status
      → ((name : Str) → or_no_values (lookup name got.headers) ≡ values_of name a.headers)
      → (length a.body ≤ p.max_body → got.body ≡ a.body)
      → Answered p n o got

outbound-Forwards : (p : Proxy) (r : Request) (body : Str) → Forwards p r body (outbound p r body)
unfolding outbound
outbound-Forwards p r body = record {
  method = refl;
  base = without_slash p.upstream_path;
  trimmed = without_slash-Trimmed p.upstream_path;
  path = refl;
  raw_query = refl;
  kept = λ name h. outbound_headers-values_of name r.headers h;
  held_back = λ name h. outbound_headers-held_back name r.headers h;
  whole = λ h. take-whole p.max_body body h;
}

passed_on-Answered :
    (p : Proxy) (n : Network) (o : Outbound) (got : Result Str (Response × Option Str))
    → n.builds o ≡ true
    → n.answers o ≡ got
    → Answered p n o (passed_on p got)
unfolding passed_on
passed_on-Answered p n o (err e) built is = unreachable e built is
passed_on-Answered p n o (ok (a, e)) built is =
    answered a e _ built is refl (λ name. copy_headers-values_of name a.headers)
      (λ h. take-whole p.max_body a.body h)

serve-given :
    (p : Proxy) (n : Network) (r : Request) (body : Str) (file : List Recorded)
    → r.body ≡ some body
    → serve p n r file ≡ forwarded p n r body file
unfolding serve
serve-given p n r body file given = of_body r.body given
  where
    of_body :
        (o : Option Str)
        → o ≡ some body
        → elim o as (λ x. Response × List Recorded) [
          | none ↦ (plain_error (pos 400) (lit "could not read request body"), file)
          | some body ↦ forwarded p n r body file
        ]
          ≡ forwarded p n r body file
    of_body none h = cc
    of_body (some b) h = let same : b ≡ body = cc in rw (same) refl

forwarded-Answered :
    (p : Proxy) (n : Network) (r : Request) (body : Str) (file : List Recorded)
    → Answered p n (outbound p r body) (forwarded p n r body file).0
forwarded-Answered p n r body file = elim (Bool-cases (n.builds (outbound p r body))) [
  | inl e ↦ rw (e) (passed_on-Answered p n (outbound p r body) _ e refl)
  | inr e ↦ rw (e) (not_built e)
]

-- For a request whose body can be read, the account is asked for the method, the path below that of the
-- proxy's upstream, the query and, within the limit, the body of the client's request, with the values of
-- all its headers but Host and Content-Length, which it does not get; and the client gets the status, the
-- header values and, within the limit, the body of the account's answer to that, an error with status 502
-- if the call fails, or an error with status 500 if no request can be built.
pub serve-answers :
    (p : Proxy) (n : Network) (r : Request) (body : Str) (file : List Recorded)
    → r.body ≡ some body
    → (o : Outbound) × (Forwards p r body o × Answered p n o (serve p n r file).0)
serve-answers p n r body file given = (
  outbound p r body,
  (
    outbound-Forwards p r body,
    rw (serve-given p n r body file given) (forwarded-Answered p n r body file),
  ),
)
