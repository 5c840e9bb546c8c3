-- ===== src/Tests/Record.antt =====
-- Tests of the recording.
use emarsys_mock.Base.{
  ◌≡◌, ◌↔◌, refl, ◌<◌, true, false, none, some, List, [], ◌∷◌, Str, lit, str_eq, str_key, map,
  select, split_on, All, Lacks, pos, length, all, any, to_lower,
}
use emarsys_mock.Store.Exec.{ok}
use emarsys_mock.Server.Json.{Json, null, str, num, arr, obj, nil, cons, end, field}
use emarsys_mock.Record.Patterns.{email_at, has_email, is_date_time, is_date, all_digits}
use emarsys_mock.Record.Redact.{
  Redactor, shapes, redact, put_field, pseudonym, is_contact_keyed, out_key, child_budget,
}
use emarsys_mock.Record.Shape.{new_shape, seen, observe}
use emarsys_mock.Record.Shape.Kept.{has_key, is_plain, observe-redact}
use emarsys_mock.Record.Shape.Optional.{
  observe_all, IsMap, different, count_with, field_seen, observe_all-optional,
}
use emarsys_mock.Record.Describe.{is_optional}
use emarsys_mock.Record.Summary.{Exchange, Decoding, Endpoint, path_template, summarize}
use emarsys_mock.Record.Summary.Counts.{total_calls, summarize-total_calls}
use emarsys_mock.Record.Summary.Counts.Each.{is_for, count_for, counted}
use emarsys_mock.Record.Summary.Template.{AllAlike, path_template-iff-AllAlike}
use emarsys_mock.Record.Proxy.{Request, Response, Proxy, Network, Outbound, serve}
use emarsys_mock.Record.Proxy.Answers.{Forwards, Answered, serve-answers}

abbrev redactor : Redactor
redactor = record {
  mode = shapes;
  key = [];
  hmac = λ key s. s;
  hex = λ s. s;
  unmarshal = λ s. none;
  marshal = λ v. [];
}

-- {"a": [1, "x"], "b": null}
abbrev payload : Json
payload = obj (
    field (97 ∷ []) (arr (cons (num (49 ∷ [])) (cons (str (120 ∷ [])) nil)))
      (field (98 ∷ []) null end))

payload-plain : is_plain payload [] ≡ true
unfolding is_plain has_email email_at has_key str_eq lit is_contact_keyed to_lower any
payload-plain = refl

observe-redact_example :
    observe (λ n. true) (redact redactor payload [] 0) new_shape
    ≡ observe (λ n. true) payload new_shape
observe-redact_example = observe-redact (λ n. true) redactor payload new_shape payload-plain

-- Two contacts that share their digits' number, as the keys of one object.
abbrev by_number : Json
by_number = obj (field (49 ∷ []) null (field (50 ∷ []) (num []) end))

-- In data.errors the two have the same pseudonym, and one is lost.
collapses : redact redactor by_number (lit "errors") 0 ≡ obj (field (48 ∷ []) (num []) end)
unfolding redact has_email email_at str_eq lit is_contact_keyed child_budget out_key pseudonym
    put_field to_lower any all is_date_time is_date all_digits
collapses = refl

-- A text that begins as a time keeps what comes after it.
keeps_name :
    pseudonym redactor (lit "2024-01-01T10:00:00 Jane Doe") ≡ lit "0000-00-00T00:00:00 Jane Doe"
unfolding has_email email_at lit pseudonym any all is_date_time
keeps_name = refl

abbrev samples : List Json
samples = payload ∷ obj end ∷ []

samples-IsMap : IsMap payload × IsMap (obj end) × Unit {0}
unfolding different has_key str_eq
samples-IsMap = (refl, refl, tt)

observe_all-optional_example :
    (is_optional
        (seen (observe_all (λ n. true) samples new_shape))
        (field_seen (λ n. true) (97 ∷ []) (observe_all (λ n. true) samples new_shape))
      ≡ true)
    ↔ (count_with (97 ∷ []) samples < length samples)
observe_all-optional_example =
    observe_all-optional (λ n. true) (97 ∷ []) samples (samples-IsMap.0, (samples-IsMap.1, tt))

abbrev decoding : Decoding
decoding = record { unmarshal = λ s. none; is_integer = λ n. true }

abbrev call : Exchange
call = record {
  method = lit "GET";
  path = lit "/contact/7";
  status = pos 200;
  request_body = [];
  response_body = [];
}

abbrev calls : List Exchange
calls = call ∷ record call { method = lit "PUT" } ∷ record call { path = lit "/contact/8" } ∷ []

calls-spaceless : All (λ (e : Exchange). Lacks b' ' e.method) calls
unfolding all lit
calls-spaceless = (refl, (refl, (refl, tt)))

summarize-total_calls_example :
    (total_calls (summarize decoding calls) ≡ length calls)
    × ((method template : Str)
        → map
            (λ (p : Endpoint). p.calls)
            (select (is_for method template) (summarize decoding calls))
          ≡ counted (count_for method template calls))
summarize-total_calls_example = summarize-total_calls decoding calls calls-spaceless

abbrev answer : Response
answer = record { status = pos 200; headers = (lit "Etag", (49 ∷ []) ∷ []) ∷ []; body = 98 ∷ [] }

abbrev proxy : Proxy
proxy = record { upstream_path = lit "/api/"; max_body = 10; redactor = redactor }

-- The file cannot be written.
abbrev network : Network
network = record { builds = λ o. true; answers = λ o. ok (answer, none); writes = λ line. false }

abbrev request : Request
request = record {
  method = lit "GET";
  path = lit "/a";
  raw_query = [];
  query = [];
  headers = (lit "X-Wsse", (120 ∷ []) ∷ (121 ∷ []) ∷ []) ∷ (lit "Host", (104 ∷ []) ∷ []) ∷ [];
  body = some (97 ∷ []);
}

serve-answers_example :
    (o : Outbound) × (Forwards proxy request (97 ∷ []) o
      × Answered proxy network o (serve proxy network request []).0)
serve-answers_example = serve-answers proxy network request (97 ∷ []) [] refl

path_template-iff-AllAlike_example :
    (path_template (lit "/contact/7") ≡ path_template (lit "/contact/8"))
    ↔ AllAlike (split_on b'/' (lit "/contact/7")) (split_on b'/' (lit "/contact/8"))
path_template-iff-AllAlike_example =
    path_template-iff-AllAlike (lit "/contact/7") (lit "/contact/8")
