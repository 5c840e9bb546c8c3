-- ===== src/Record/Summary/Counts/Loop.antt =====
-- What all exchanges make of the groups.
use emarsys_mock.Base.{
  ◌≡◌, refl, ap, ◌∙◌, inl, inr, Bool-cases, arith, ℕ, zero, suc, ◌+◌, List, [], ◌∷◌, map, select,
  All, Lacks, Str, str_key,
}
use emarsys_mock.Record.Summary.{Exchange, Endpoint, Decoding, group_calls}
use emarsys_mock.Record.Summary.Counts.Each.{
  is_for, asks_for, count_for, counted, calls_for, endpoints, IsKeyed, bumped, grouped,
}
use emarsys_mock.Record.Summary.Counts.Grouped.{grouped-IsKeyed, calls-grouped}

-- Bumped so many times
bumps : ℕ → List ℕ → List ℕ
bumps zero ns = ns
bumps (suc n) ns = bumps n (bumped ns)

bumps-suc : (n : ℕ) (ns : List ℕ) → bumps n (bumped ns) ≡ bumps (1 + n) ns
unfolding bumps
bumps-suc n ns = let same : suc n ≡ 1 + n = omega arith in rw (← same) refl

bumps-zero : (n : ℕ) (ns : List ℕ) → bumps n ns ≡ bumps (0 + n) ns
bumps-zero n ns = let same : n ≡ 0 + n = omega arith in ap (λ (k : ℕ). bumps k ns) same

bumps-one : (n k : ℕ) → bumps n (k ∷ []) ≡ (k + n) ∷ []
unfolding bumps
bumps-one zero k = ap (λ (m : ℕ). m ∷ []) (omega arith)
bumps-one (suc n) k = bumps-one n (k + 1) ∙ ap (λ (m : ℕ). m ∷ []) (omega arith)

bumps-counted : (n : ℕ) → bumps n [] ≡ counted n
unfolding bumps
bumps-counted zero = refl
bumps-counted (suc n) = bumps-one n 1 ∙ ap (λ (m : ℕ). m ∷ []) (omega arith)

calls-group_calls_from :
    (d : Decoding) (es : List Exchange) (method template : Str) (groups : List (Str × Endpoint))
    → All (λ (e : Exchange). Lacks b' ' e.method) es
    → All IsKeyed groups
    → calls_for method template (endpoints (group_calls d groups es))
      ≡ bumps (count_for method template es) (calls_for method template (endpoints groups))
unfolding group_calls count_for bumps
calls-group_calls_from d [] method template groups _ g = refl
calls-group_calls_from d (e ∷ es) method template groups (h, hs) g =
    calls-group_calls_from d es method template (grouped d e groups) hs
      (grouped-IsKeyed d e h groups g)
    ∙ elim (Bool-cases (asks_for method template e)) [
      | inl asks ↦
          rw (calls-grouped d e h method template groups g, asks)
            (bumps-suc (count_for method template es)
              (calls_for method template (endpoints groups)))
      | inr nay ↦
          rw (calls-grouped d e h method template groups g, nay)
            (bumps-zero (count_for method template es)
              (calls_for method template (endpoints groups)))
    ]

pub calls-group_calls :
    (d : Decoding) (es : List Exchange) (method template : Str)
    → All (λ (e : Exchange). Lacks b' ' e.method) es
    → map
        (λ (p : Endpoint). p.calls)
        (select (is_for method template) (map (λ (g : Str × Endpoint). g.1) (group_calls d [] es)))
      ≡ counted (count_for method template es)
unfolding select
calls-group_calls d es method template h =
    calls-group_calls_from d es method template [] h tt
    ∙ bumps-counted (count_for method template es)
