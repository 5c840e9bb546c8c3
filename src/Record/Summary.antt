-- ===== src/Record/Summary.antt =====
-- internal/record/shape.go: the calls of a recording, endpoint by endpoint.
pub mod Counts
pub mod Template
use emarsys_mock.Base.{
  ℕ, ◌+◌, Bool, true, false, not, ◌&&◌, ◌||◌, Option, none, some, List, [], ◌∷◌, ◌++◌, map, Str,
  lit, str_eq, str_leb, str_key, int_key, lookup, put, is_empty, length, ltb, any, split_on, itoa,
  itoa_ℕ, int_lt, ℤ, pos, if◌then◌else◌,
}
use emarsys_mock.Server.Json.{Json}
use emarsys_mock.Record.Patterns.{all_digits}
use emarsys_mock.Record.Shape.{Shape, new_shape, observe, seen}
use emarsys_mock.Record.Describe.{describe, mixed_in, sort_texts}

-- What a summary reads of a recorded exchange.
pub record Exchange : Type 0 where
  pub method : Str
  pub path : Str
  pub status : ℤ
  pub request_body : Str
  pub response_body : Str

pub record Endpoint : Type 0 where
  pub method : Str
  pub template : Str
  pub calls : ℕ
  pub statuses : List (ℤ × ℕ)
  pub request : Shape
  pub response : Shape
  pub examples : List Str

-- strings.Join(segments, "/")
unfoldable pub join_path : List Str → Str
join_path [] = []
join_path (s ∷ []) = s
join_path (s ∷ t ∷ rest) = s ++ b'/' ∷ join_path (t ∷ rest)

abbrev pub template_segment : Str → Str
template_segment s = if all_digits s then lit "{id}" else s

-- PathTemplate
unfoldable pub path_template : Str → Str
unfolding join_path
path_template path = join_path (map template_segment (split_on b'/' path))

-- json.Unmarshal and whether a number's text is an integer
pub record Decoding : Type 0 where
  pub unmarshal : Str → Option Json
  pub is_integer : Str → Bool

abbrev observed_or : Decoding → Shape → Option Json → Shape
observed_or d s none = s
observed_or d s (some v) = observe d.is_integer v s

-- observeJSON
unfoldable pub observe_json : Decoding → Shape → Str → Shape
observe_json d s body = if is_empty body then s else observed_or d s (d.unmarshal body)

abbrev pub endpoint_key : Exchange → Str
endpoint_key e = e.method ++ b' ' ∷ path_template e.path

abbrev pub new_endpoint : Exchange → Endpoint
new_endpoint e = record {
  method = e.method;
  template = path_template e.path;
  calls = 0;
  statuses = [];
  request = new_shape;
  response = new_shape;
  examples = [];
}

abbrev count_in : Option ℕ → ℕ
count_in none = 0
count_in (some n) = n

abbrev with_example : Str → List Str → List Str
with_example path examples =
    if ltb (length examples) 3 && not (any (str_eq path) examples)
    then examples ++ path ∷ []
    else examples

-- One call more of an endpoint.
unfoldable pub with_call : Decoding → Exchange → Endpoint → Endpoint
with_call d e p = record p {
  calls = p.calls + 1;
  statuses = put e.status (count_in (lookup e.status p.statuses) + 1) p.statuses;
  request = observe_json d p.request e.request_body;
  response = observe_json d p.response e.response_body;
  examples = with_example e.path p.examples;
}

abbrev pub endpoint_or : Exchange → Option Endpoint → Endpoint
endpoint_or e none = new_endpoint e
endpoint_or e (some p) = p

-- The loop of Summarize over the map byKey.
unfoldable pub group_calls :
    Decoding → List (Str × Endpoint) → List Exchange → List (Str × Endpoint)
group_calls d groups [] = groups
group_calls d groups (e ∷ es) =
    group_calls d
      (put (endpoint_key e) (with_call d e (endpoint_or e (lookup (endpoint_key e) groups))) groups)
      es

abbrev pub endpoint_before : Endpoint → Endpoint → Bool
endpoint_before a b =
    if not (str_eq a.template b.template)
    then str_leb a.template b.template
    else str_leb a.method b.method

insert_endpoint : Endpoint → List Endpoint → List Endpoint
insert_endpoint a [] = a ∷ []
insert_endpoint a (b ∷ bs) =
    let rest = insert_endpoint a bs in if endpoint_before a b then a ∷ b ∷ bs else b ∷ rest

unfoldable pub sort_endpoints : List Endpoint → List Endpoint
unfolding insert_endpoint
sort_endpoints [] = []
sort_endpoints (a ∷ rest) = insert_endpoint a (sort_endpoints rest)

-- Summarize
unfoldable pub summarize : Decoding → List Exchange → List Endpoint
unfolding group_calls sort_endpoints
summarize d es = sort_endpoints (map (λ (g : Str × Endpoint). g.1) (group_calls d [] es))

insert_status : ℤ × ℕ → List (ℤ × ℕ) → List (ℤ × ℕ)
insert_status s [] = s ∷ []
insert_status s (t ∷ ts) =
    let rest = insert_status s ts in if int_lt s.0 t.0 then s ∷ t ∷ ts else t ∷ rest

sort_statuses : List (ℤ × ℕ) → List (ℤ × ℕ)
sort_statuses [] = []
sort_statuses (s ∷ ts) = insert_status s (sort_statuses ts)

-- The multiplication sign, in UTF-8
abbrev times_sign : Str
times_sign = 195 ∷ 151 ∷ []

abbrev status_text : ℤ × ℕ → Str
status_text s = itoa s.0 ++ (times_sign ++ itoa_ℕ s.1)

unfoldable pub join_commas : List Str → Str
join_commas [] = []
join_commas (s ∷ []) = s
join_commas (s ∷ t ∷ rest) = s ++ (lit ", " ++ join_commas (t ∷ rest))

-- formatStatuses
unfoldable pub format_statuses : List (ℤ × ℕ) → Str
unfolding insert_status sort_statuses join_commas
format_statuses statuses = join_commas (map status_text (sort_statuses statuses))

abbrev mixed_line : Endpoint → Str × Str → Str
mixed_line p (path, kinds) =
    p.method ++ (lit " " ++ (p.template ++ (lit "  " ++ (path ++ (lit ": " ++ kinds)))))

lines_of_all : List Endpoint → List Str
lines_of_all [] = []
lines_of_all (p ∷ ps) = map (mixed_line p) (mixed_in p.response (lit "response")) ++ lines_of_all ps

-- mixedTypeFields
unfoldable pub mixed_type_fields : List Endpoint → List Str
unfolding lines_of_all
mixed_type_fields ps = sort_texts (lines_of_all ps)
