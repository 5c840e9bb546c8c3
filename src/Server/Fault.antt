-- ===== src/Server/Fault.antt =====
-- internal/server/fault.go: the middleware that injects failures.
pub mod Glob
pub mod Budget
use emarsys_mock.Base.{
  ℕ, ◌+◌, Bool, true, false, not, ◌&&◌, ◌||◌, Option, none, some, List, [], ◌∷◌, Str, lit, is_empty,
  str_eq, has_prefix, has_suffix, split_on, index_of, contains, equal_fold, drop, length, ℤ,
  if◌then◌else◌, ltb, leb,
}
use emarsys_mock.Api.{Failure, error_status}
use emarsys_mock.Store.Tables.{FaultRule}
use emarsys_mock.Store.Exec.{Err, Result, ok, err, Exec, World, ◌>>=◌, pure, raise, random_float}
use emarsys_mock.Store.Fault.{fault_rules, consume_fault_hit, certain}

-- The loop of matchPattern over the parts behind the first, and the test of the last.
unfoldable pub match_rest : Str → List Str → Bool
match_rest rest [] = true
match_rest rest (last ∷ []) = has_suffix rest last
match_rest rest (part ∷ next ∷ parts) = elim (index_of rest part) [
  | none ↦ false
  | some i ↦ match_rest (drop (i + length part) rest) (next ∷ parts)
]

unfoldable pub match_parts : Str → Str → List Str → Bool
match_parts pattern path [] = false
match_parts pattern path (only ∷ []) = str_eq pattern path
match_parts pattern path (first ∷ next ∷ parts) =
    if has_prefix path first then match_rest (drop (length first) path) (next ∷ parts) else false

-- matchPattern
unfoldable pub match_pattern : Str → Str → Bool
match_pattern pattern path = match_parts pattern path (split_on b'*' pattern)

pub record Request : Type 0 where
  pub method : Str
  pub path : Str
  pub body : Str

-- ruleMatches
unfoldable pub rule_matches : FaultRule → Request → Bool
rule_matches rule r =
    if not (is_empty rule.match_method) && not (equal_fold rule.match_method r.method)
    then false
    else if not (is_empty rule.match_path_pattern)
        && not (match_pattern rule.match_path_pattern r.path)
    then false
    else if not (is_empty rule.match_body_contains)
        && not (contains r.body rule.match_body_contains)
    then false
    else true

-- What the middleware does with a request: pass it on, or answer with a rule's failure and its
-- Retry-After header.
pub data Verdict : Type 0 where
  pass : Verdict
  inject : Failure → Option ℤ → Verdict

abbrev pub fire : FaultRule → Verdict
fire rule = inject (error_status rule.http_status rule.reply_code rule.reply_text) rule.retry_after

-- A hit that cannot be recorded is logged, and the rule fires all the same.
unfoldable pub fire_rule : FaultRule → Exec Err Verdict
fire_rule rule w = let (r, w') = consume_fault_hit rule.id w in (ok (fire rule), w')

-- rule.Probability < 1 && rand.Float64() >= rule.Probability
unfoldable pub skips : FaultRule → Exec Err Bool
skips rule =
    if ltb rule.probability certain
    then (do x ← random_float; pure (leb rule.probability x))
    else pure false

-- The loop over the rules.
unfoldable pub first_rule : Request → List FaultRule → Exec Err Verdict
first_rule r [] = pure pass
first_rule r (rule ∷ rules) =
    let rest = first_rule r rules in
    if not (rule_matches rule r)
    then rest
    else (do skipped ← skips rule; if skipped then rest else fire_rule rule)

-- An error of the loop is logged, and the request passes.
abbrev pub verdict : Result Err Verdict × World → Verdict × World
verdict (ok v, w) = (v, w)
verdict (err e, w) = (pass, w)

-- Rules that cannot be read are logged, and the request passes.
abbrev pub judge : Request → Result Err (List FaultRule) × World → Verdict × World
judge r (err e, w) = (pass, w)
judge r (ok rules, w) = verdict (first_rule r rules w)

-- faultMiddleware
unfoldable pub fault_middleware : Request → World → Verdict × World
fault_middleware r w =
    if has_prefix r.path (lit "/api/") then judge r (fault_rules true w) else (pass, w)
