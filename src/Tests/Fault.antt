-- ===== src/Tests/Fault.antt =====
-- Tests of the fault rules.
use emarsys_mock.Base.{
  ◌≡◌, refl, ◌↔◌, true, some, List, [], ◌∷◌, Str, lit, pos, str_eq, is_empty, has_prefix,
  has_suffix, split_on, index_of, contains, equal_fold, to_lower, select,
}
use emarsys_mock.Store.Tables.{FaultRule}
use emarsys_mock.Store.Exec.{World}
use emarsys_mock.Store.Fault.{certain}
use emarsys_mock.Server.Fault.{
  Request, pass, fire, match_rest, match_parts, match_pattern, rule_matches,
}
use emarsys_mock.Server.Fault.Glob.{Glob, match_pattern-iff-Glob}
use emarsys_mock.Server.Fault.Budget.{serve_all, serve_all-budget, Has, Hit}
use emarsys_mock.Tests.{seeded, start}

fault_code : Unit {0}
unfolding lit str_eq is_empty has_prefix has_suffix split_on index_of contains equal_fold to_lower
    select match_rest match_parts match_pattern rule_matches
fault_code = tt

-- "a*c*" on "abcd"
abbrev pattern : Str
pattern = 97 ∷ b'*' ∷ 99 ∷ b'*' ∷ []

abbrev word : Str
word = 97 ∷ 98 ∷ 99 ∷ 100 ∷ []

pattern_run : match_pattern pattern word ≡ true
unfolding fault_code
pattern_run = refl

match_pattern-iff-Glob_example : (match_pattern pattern word ≡ true) ↔ Glob pattern word
match_pattern-iff-Glob_example = match_pattern-iff-Glob pattern word

-- A rule that fires twice.
abbrev twice : FaultRule
twice = record {
  id = 1;
  enabled = true;
  match_method = [];
  match_path_pattern = [];
  match_body_contains = [];
  http_status = pos 503;
  reply_code = pos 2011;
  reply_text = [];
  probability = certain;
  remaining_hits = some (pos 2);
  retry_after = some (pos 60);
  created_at = [];
}

abbrev with_rule : World
with_rule = record start {
  tables = record seeded { faults = record { rows = twice ∷ []; seq = 1 } };
}

abbrev request : Request
unfolding lit
request = record { method = lit "GET"; path = lit "/api/v2/field"; body = [] }

with_rule-Has : Has twice with_rule
with_rule-Has = record { only = refl; sound = λ n. refl }

request-Hit : Hit twice request
unfolding fault_code
request-Hit = record { is_api = refl; matches = refl }

abbrev requests : List Request
requests = request ∷ request ∷ request ∷ []

serve_all-budget_example : serve_all requests with_rule ≡ fire twice ∷ fire twice ∷ pass ∷ []
serve_all-budget_example =
    serve_all-budget 1 twice requests with_rule refl refl refl with_rule-Has
      (request-Hit, (request-Hit, (request-Hit, tt)))
