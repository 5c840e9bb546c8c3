-- ===== src/Record/Summary/Counts/Grouped.antt =====
-- What one exchange changes in the groups.
use emarsys_mock.Base.{
  ◌≡◌, refl, sym, ap, ◌∙◌, inl, inr, Bool-cases, ℕ, ◌+◌, Bool, true, false, Option, List, [], ◌∷◌,
  select, All, Lacks, Str, str_eq, str_eq_iff, str_key, lookup, put, if◌then◌else◌,
}
use emarsys_mock.Record.Summary.{
  Exchange, Endpoint, Decoding, path_template, endpoint_key, endpoint_or, new_endpoint, with_call,
}
use emarsys_mock.Record.Summary.Counts.Each.{
  is_for, asks_for, calls_for, endpoints, IsKeyed, bumped, grouped, and-true, is_for-with_call,
  same_key,
}

module _ (d : Decoding) (e : Exchange) where
  grouped-hit :
      (j : Str) (q : Endpoint) (rest : List (Str × Endpoint))
      → str_eq j (endpoint_key e) ≡ true
      → grouped d e ((j, q) ∷ rest) ≡ (endpoint_key e, with_call d e q) ∷ rest
  unfolding lookup put
  grouped-hit j q rest hit = rw (hit) refl

  put-miss :
      (new : Endpoint) (j : Str) (q : Endpoint) (rest : List (Str × Endpoint))
      → str_eq j (endpoint_key e) ≡ false
      → put (endpoint_key e) new ((j, q) ∷ rest) ≡ (j, q) ∷ put (endpoint_key e) new rest
  unfolding put
  put-miss new j q rest miss = rw (miss) refl

  lookup-miss :
      (j : Str) (q : Endpoint) (rest : List (Str × Endpoint))
      → str_eq j (endpoint_key e) ≡ false
      → lookup (endpoint_key e) ((j, q) ∷ rest) ≡ lookup (endpoint_key e) rest
  unfolding lookup
  lookup-miss j q rest miss = rw (miss) refl

  grouped-miss :
      (j : Str) (q : Endpoint) (rest : List (Str × Endpoint))
      → str_eq j (endpoint_key e) ≡ false
      → grouped d e ((j, q) ∷ rest) ≡ (j, q) ∷ grouped d e rest
  grouped-miss j q rest miss =
      put-miss (with_call d e (endpoint_or e (lookup (endpoint_key e) ((j, q) ∷ rest)))) j q rest
        miss
      ∙ ap
          (λ (o : Option Endpoint).
            (j, q) ∷ put (endpoint_key e) (with_call d e (endpoint_or e o)) rest)
          (lookup-miss j q rest miss)

module _ (d : Decoding) (e : Exchange) (h : Lacks b' ' e.method) where
  pub grouped-IsKeyed :
      (groups : List (Str × Endpoint)) → All IsKeyed groups → All IsKeyed (grouped d e groups)
  grouped-IsKeyed [] _ = unfold lookup in unfold put in unfold with_call in ((h, refl), tt)
  grouped-IsKeyed ((j, q) ∷ rest) (g, gs) = elim (Bool-cases (str_eq j (endpoint_key e))) [
    | inl hit ↦ rw (grouped-hit d e j q rest hit) (kept ((str_eq_iff j (endpoint_key e)).0 hit), gs)
    | inr miss ↦ rw (grouped-miss d e j q rest miss) (g, grouped-IsKeyed rest gs)
  ]
    where
      kept : j ≡ endpoint_key e → IsKeyed (endpoint_key e, with_call d e q)
      kept same = let (m, (t, c)) = is_for-with_call d e q in rw (m, t) (g.0, sym same ∙ g.1)

  module _ (method template : Str) where
    calls-with_call :
        (q : Endpoint) (rest : List Endpoint) (b : Bool)
        → is_for method template q ≡ b
        → calls_for method template (with_call d e q ∷ rest) ≡ (
            if b
            then (q.calls + 1) ∷ calls_for method template rest
            else calls_for method template rest)
    unfolding select with_call
    calls-with_call q rest true is = rw (is) refl
    calls-with_call q rest false is = rw (is) refl

    calls-cons :
        (q : Endpoint) (rest : List Endpoint) (b : Bool)
        → is_for method template q ≡ b
        → calls_for method template (q ∷ rest)
          ≡ (if b then q.calls ∷ calls_for method template rest else calls_for method template rest)
    unfolding select
    calls-cons q rest true is = rw (is) refl
    calls-cons q rest false is = rw (is) refl

    calls-first :
        (b : Bool)
        → asks_for method template e ≡ b
        → calls_for method template (with_call d e (new_endpoint e) ∷ [])
          ≡ (if b then 1 ∷ [] else [])
    unfolding select
    calls-first true is = calls-with_call (new_endpoint e) [] true is
    calls-first false is = calls-with_call (new_endpoint e) [] false is

    calls-none :
        calls_for method template (endpoints (grouped d e []))
        ≡ (if asks_for method template e then 1 ∷ [] else [])
    unfolding lookup put
    calls-none = calls-first (asks_for method template e) refl

    pub calls-grouped :
        (groups : List (Str × Endpoint))
        → All IsKeyed groups
        → calls_for method template (endpoints (grouped d e groups)) ≡ (
            if asks_for method template e
            then bumped (calls_for method template (endpoints groups))
            else calls_for method template (endpoints groups))
    unfolding select
    calls-grouped [] _ = calls-none
    calls-grouped ((j, q) ∷ rest) (g, gs) = elim (Bool-cases (str_eq j (endpoint_key e))) [
      | inl hit ↦ rw (grouped-hit d e j q rest hit) (
          same_one (same_key e (j, q) h g ((str_eq_iff j (endpoint_key e)).0 hit))
            (is_for method template q) refl)
      | inr miss ↦
          rw (grouped-miss d e j q rest miss)
            (another (calls-grouped rest gs) miss (is_for method template q) refl)
    ]
      where
        same_one :
            (q.method ≡ e.method) × (q.template ≡ path_template e.path)
            → (b : Bool) → is_for method template q ≡ b
            → calls_for method template (with_call d e q ∷ endpoints rest) ≡ (
                if asks_for method template e
                then bumped (calls_for method template (q ∷ endpoints rest))
                else calls_for method template (q ∷ endpoints rest))
        same_one (m, t) b is =
            let asks : asks_for method template e ≡ b = rw (← m, ← t) is in
            rw (calls-with_call q (endpoints rest) b is, calls-cons q (endpoints rest) b is, asks)
              (either b)
          where
            either :
                (b : Bool)
                → (if b
                    then (q.calls + 1) ∷ calls_for method template (endpoints rest)
                    else calls_for method template (endpoints rest))
                  ≡ (if b
                      then bumped (
                          if b
                          then q.calls ∷ calls_for method template (endpoints rest)
                          else calls_for method template (endpoints rest))
                      else (if b
                          then q.calls ∷ calls_for method template (endpoints rest)
                          else calls_for method template (endpoints rest)))
            either true = refl
            either false = refl

        not_asked :
            is_for method template q ≡ true
            → str_eq j (endpoint_key e) ≡ false
            → asks_for method template e ≡ false
        not_asked is miss = elim (Bool-cases (asks_for method template e)) [
          | inr nay ↦ nay
          | inl asks ↦
              let (qm, qt) = and-true (str_eq q.method method) (str_eq q.template template) is in
              let (em, et) =
                and-true (str_eq e.method method) (str_eq (path_template e.path) template) asks in
              let m : q.method ≡ e.method = (str_eq_iff _ _).0 qm ∙ sym ((str_eq_iff _ _).0 em) in
              let t : q.template ≡ path_template e.path =
                (str_eq_iff _ _).0 qt ∙ sym ((str_eq_iff _ _).0 et) in
              let key : j ≡ endpoint_key e = g.1 ∙ rw (m, t) refl in
              let hit : str_eq j (endpoint_key e) ≡ true = (str_eq_iff _ _).1 key in cc
        ]

        another :
            calls_for method template (endpoints (grouped d e rest)) ≡ (
              if asks_for method template e
              then bumped (calls_for method template (endpoints rest))
              else calls_for method template (endpoints rest))
            → str_eq j (endpoint_key e) ≡ false
            → (b : Bool) → is_for method template q ≡ b
            → calls_for method template (q ∷ endpoints (grouped d e rest)) ≡ (
                if asks_for method template e
                then bumped (calls_for method template (q ∷ endpoints rest))
                else calls_for method template (q ∷ endpoints rest))
        another more miss true is =
            let nay : asks_for method template e ≡ false = not_asked is miss in
            let kept : calls_for method template (endpoints (grouped d e rest))
                ≡ calls_for method template (endpoints rest) =
              more ∙ rw (nay) refl in
            rw
              (
                calls-cons q (endpoints (grouped d e rest)) true is,
                calls-cons q (endpoints rest) true is,
                nay,
              )
              (ap (λ (ns : List ℕ). q.calls ∷ ns) kept)
        another more miss false is =
            rw
              (
                calls-cons q (endpoints (grouped d e rest)) false is,
                calls-cons q (endpoints rest) false is,
              )
              more
