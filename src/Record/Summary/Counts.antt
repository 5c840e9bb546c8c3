-- ===== src/Record/Summary/Counts.antt =====
-- Every exchange is counted once, for its method and the template of its path.
pub mod Each
pub mod Grouped
pub mod Loop
pub mod Sorted
use emarsys_mock.Base.{
  ◌≡◌, refl, sym, ap, ◌∙◌, inl, inr, Bool-cases, arith, ℕ, ◌+◌, Option, none, some, List, [], ◌∷◌,
  map, select, All, Lacks, Str, str_eq, str_eq_iff, str_key, lookup, put, lookup-put, length,
  if◌then◌else◌,
}
use emarsys_mock.Record.Summary.Counts.Each.{is_for, count_for, counted}
use emarsys_mock.Record.Summary.Counts.Loop.{calls-group_calls}
use emarsys_mock.Record.Summary.Counts.Sorted.{calls-sort_endpoints}
use emarsys_mock.Record.Summary.{
  Exchange, Endpoint, Decoding, endpoint_key, endpoint_or, with_call, group_calls, insert_endpoint,
  sort_endpoints, summarize,
}

abbrev calls_of : Option Endpoint → ℕ
calls_of none = 0
calls_of (some p) = p.calls

calls-with_call :
    (d : Decoding) (e : Exchange) (o : Option Endpoint)
    → (with_call d e (endpoint_or e o)).calls ≡ calls_of o + 1
unfolding with_call
calls-with_call d e none = refl
calls-with_call d e (some p) = refl

total_of : List (Str × Endpoint) → ℕ
total_of [] = 0
total_of ((k, p) ∷ m) = p.calls + total_of m

-- The calls of all endpoints.
unfoldable pub total_calls : List Endpoint → ℕ
total_calls [] = 0
total_calls (p ∷ ps) = p.calls + total_calls ps

total_of-put :
    (k : Str) (p : Endpoint) (m : List (Str × Endpoint))
    → total_of (put k p m) + calls_of (lookup k m) ≡ total_of m + p.calls
unfolding total_of put lookup
total_of-put k p [] = omega arith
total_of-put k p ((j, q) ∷ m) = ground (arith, total_of-put k p m)

total_of-group_calls :
    (d : Decoding) (groups : List (Str × Endpoint)) (es : List Exchange)
    → total_of (group_calls d groups es) ≡ total_of groups + length es
unfolding group_calls
total_of-group_calls d groups [] = omega arith
total_of-group_calls d groups (e ∷ es) =
    let old = lookup (endpoint_key e) groups in
    let new = with_call d e (endpoint_or e old) in
    omega (
      arith,
      total_of-group_calls d (put (endpoint_key e) new groups) es,
      total_of-put (endpoint_key e) new groups,
      calls-with_call d e old,
    )

total_calls-map :
    (m : List (Str × Endpoint)) → total_calls (map (λ (g : Str × Endpoint). g.1) m) ≡ total_of m
unfolding total_calls total_of
total_calls-map [] = refl
total_calls-map ((k, p) ∷ m) = omega (arith, total_calls-map m)

total_calls-insert_endpoint :
    (p : Endpoint) (ps : List Endpoint)
    → total_calls (insert_endpoint p ps) ≡ p.calls + total_calls ps
unfolding total_calls insert_endpoint
total_calls-insert_endpoint p [] = refl
total_calls-insert_endpoint p (q ∷ ps) = ground (arith, total_calls-insert_endpoint p ps)

total_calls-sort_endpoints : (ps : List Endpoint) → total_calls (sort_endpoints ps) ≡ total_calls ps
unfolding total_calls sort_endpoints
total_calls-sort_endpoints [] = refl
total_calls-sort_endpoints (p ∷ ps) =
    total_calls-insert_endpoint p (sort_endpoints ps) ∙ omega (arith, total_calls-sort_endpoints ps)

-- A summary has as many calls as there are exchanges, and for each method and template it has one
-- endpoint, with as many calls as there are exchanges with these, or none if there is no such exchange.
-- This is if no method has a space, as HTTP requires of it.
pub summarize-total_calls :
    (d : Decoding) (es : List Exchange)
    → All (λ (e : Exchange). Lacks b' ' e.method) es
    → (total_calls (summarize d es) ≡ length es)
      × ((method template : Str)
          → map (λ (p : Endpoint). p.calls) (select (is_for method template) (summarize d es))
            ≡ counted (count_for method template es))
unfolding summarize total_of
summarize-total_calls d es spaceless = (
  total_calls-sort_endpoints (map (λ (g : Str × Endpoint). g.1) (group_calls d [] es))
      ∙ total_calls-map (group_calls d [] es)
      ∙ total_of-group_calls d [] es
      ∙ omega arith,
  λ method template.
      calls-sort_endpoints method template (count_for method template es) _
        (calls-group_calls d es method template spaceless),
)
