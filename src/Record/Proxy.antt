-- ===== src/Record/Proxy.antt =====
-- internal/record/proxy.go: forwarding a request and recording what went past. What the network and the
-- file do is given: the answer of the account, and whether the line is written.
pub mod Answers
use emarsys_mock.Base.{
  ◌≡◌, refl, sym, ap, ◌∙◌, inl, inr, Bool-cases, arith, ℕ, zero, suc, ◌-◌, ◌≤◌, Bool, true, false,
  not, ◌&&◌, ◌||◌, Option, none, some, List, [], ◌∷◌, ◌++◌, map, select, Str, lit, str_key,
  equal_fold, has_suffix, take, length, ℤ, pos, if◌then◌else◌, lookup, put, to_lower, str_eq,
}
use emarsys_mock.Store.Exec.{Result, ok, err}
use emarsys_mock.Record.Redact.{Redactor, redact_headers, redact_body, join_values}

-- A header or a query: names with their values, no name twice.
abbrev pub Values : Type 0
Values = List (Str × List Str)

pub record Request : Type 0 where
  pub method : Str
  pub path : Str
  pub raw_query : Str
  pub query : Values
  pub headers : Values
  pub body : Option Str

-- What goes to the account.
pub record Outbound : Type 0 where
  pub method : Str
  pub path : Str
  pub raw_query : Str
  pub headers : Values
  pub body : Str

-- What a client gets, or the proxy from the account.
pub record Response : Type 0 where
  pub status : ℤ
  pub headers : Values
  pub body : Str

-- A recorded exchange, without its times.
pub record Recorded : Type 0 where
  pub method : Str
  pub path : Str
  pub query : List (Str × Str)
  pub request_headers : List (Str × Str)
  pub request_body : Option Str
  pub status : ℤ
  pub response_headers : List (Str × Str)
  pub response_body : Option Str
  pub error : Str

-- Proxy, with the path of its upstream.
pub record Proxy : Type 0 where
  pub upstream_path : Str
  pub max_body : ℕ
  pub redactor : Redactor

-- io.ReadAll of an io.LimitReader
abbrev pub limited : ℕ → Str → Str
limited max body = take max body

abbrev pub is_forwarded : Str → Bool
is_forwarded name = not (equal_fold name (lit "Host") || equal_fold name (lit "Content-Length"))

abbrev pub without_slash : Str → Str
without_slash path = if has_suffix path (lit "/") then take (length path - 1) path else path

abbrev pub or_no_values : Option (List Str) → List Str
or_no_values none = []
or_no_values (some vs) = vs

-- Header.Add, on canonical names
abbrev pub add_value : Str → Values → Str → Values
add_value name headers v = put name (or_no_values (lookup name headers) ++ v ∷ []) headers

unfoldable pub add_values : Str → List Str → Values → Values
add_values name [] headers = headers
add_values name (v ∷ vs) headers = add_values name vs (add_value name headers v)

-- The loop that copies the headers that pass `p`, in the order of the map.
unfoldable pub copy_headers : (Str → Bool) → Values → Values → Values
unfolding add_values
copy_headers p [] headers = headers
copy_headers p ((name, vs) ∷ rest) headers =
    copy_headers p rest (if p name then add_values name vs headers else headers)

-- The request that is sent on.
unfoldable pub outbound : Proxy → Request → Str → Outbound
outbound p r body = record {
  method = r.method;
  path = without_slash p.upstream_path ++ r.path;
  raw_query = r.raw_query;
  headers = copy_headers is_forwarded r.headers [];
  body = limited p.max_body body;
}

-- strings.Join(list, ",")
unfoldable pub join_with_comma : List Str → Str
join_with_comma [] = []
join_with_comma (v ∷ []) = v
join_with_comma (v ∷ u ∷ vs) = v ++ b',' ∷ join_with_comma (u ∷ vs)

-- flattenQuery
unfoldable pub flatten_query : Values → List (Str × Str)
flatten_query values = map (λ (q : Str × List Str). (q.0, join_with_comma q.1)) values

abbrev first_value : Option (List Str) → Str
first_value none = []
first_value (some []) = []
first_value (some (v ∷ vs)) = v

-- Header.Get("Content-Type"), on canonical names
unfoldable pub content_type : Values → Str
content_type headers = first_value (lookup (lit "Content-Type") headers)

-- The account's answer to a request, with an error where its body could not be read to the end, or the
-- error of the call; whether http.NewRequest takes a request; whether a line of the file is written.
pub record Network : Type 0 where
  pub builds : Outbound → Bool
  pub answers : Outbound → Result Str (Response × Option Str)
  pub writes : Recorded → Bool

-- http.Error
abbrev pub plain_error : ℤ → Str → Response
plain_error status text = record {
  status = status;
  headers =
      (lit "Content-Type", lit "text/plain; charset=utf-8" ∷ [])
      ∷ (lit "X-Content-Type-Options", lit "nosniff" ∷ [])
      ∷ [];
  body = text ++ 10 ∷ [];
}

-- What is recorded of a request before its answer is there.
unfoldable pub begun : Proxy → Request → Str → Recorded
begun p r body = record {
  method = r.method;
  path = r.path;
  query = flatten_query r.query;
  request_headers = redact_headers r.headers;
  request_body = redact_body p.redactor (content_type r.headers) (limited p.max_body body);
  status = pos 0;
  response_headers = [];
  response_body = none;
  error = [];
}

abbrev read_error : Option Str → Str
read_error none = []
read_error (some e) = lit "could not read upstream response: " ++ e

-- record: the lines of the file, whether or not this one was written
unfoldable pub record_line : Network → Recorded → List Recorded → List Recorded
record_line n line file = if n.writes line then file ++ line ∷ [] else file

unfoldable pub finished : Proxy → Request → Str → Result Str (Response × Option Str) → Recorded
finished p r body (err e) = record (begun p r body) { error = e }
finished p r body (ok (a, e)) = record (begun p r body) {
  error = read_error e;
  status = a.status;
  response_headers = redact_headers a.headers;
  response_body = redact_body p.redactor (content_type a.headers) (limited p.max_body a.body);
}

-- What the client gets.
unfoldable pub passed_on : Proxy → Result Str (Response × Option Str) → Response
passed_on p (err e) = plain_error (pos 502) (lit "upstream request failed: " ++ e)
passed_on p (ok (a, e)) = record {
  status = a.status;
  headers = copy_headers (λ name. true) a.headers [];
  body = limited p.max_body a.body;
}

abbrev pub forwarded : Proxy → Network → Request → Str → List Recorded → Response × List Recorded
forwarded p n r body file =
    if n.builds (outbound p r body)
    then (
      passed_on p (n.answers (outbound p r body)),
      record_line n (finished p r body (n.answers (outbound p r body))) file,
    )
    else (plain_error (pos 500) (lit "could not build upstream request"), file)

-- ServeHTTP: the answer, and the file after it
unfoldable pub serve : Proxy → Network → Request → List Recorded → Response × List Recorded
serve p n r file = elim r.body [
  | none ↦ (plain_error (pos 400) (lit "could not read request body"), file)
  | some body ↦ forwarded p n r body file
]
