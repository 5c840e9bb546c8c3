-- ===== src/Record/Summary/Counts/Sorted.antt =====
-- The endpoint of one method and template stays when the endpoints are put in order.
use emarsys_mock.Base.{
  ◌≡◌, refl, ap, ◌∙◌, inl, inr, Bool-cases, arith, ℕ, zero, suc, ◌≤◌, Bool, true, false, List, [],
  ◌∷◌, map, select, Str, length,
}
use emarsys_mock.Record.Summary.{Endpoint, insert_endpoint, sort_endpoints, endpoint_before}
use emarsys_mock.Record.Summary.Counts.Each.{is_for, counted}

-- An endpoint that is put in order stays one of those selected, or stays out.
select-insert_out :
    (f : Endpoint → Bool) (a : Endpoint) (bs : List Endpoint)
    → f a ≡ false
    → select f (insert_endpoint a bs) ≡ select f bs
unfolding select insert_endpoint
select-insert_out f a [] h = rw (h) refl
select-insert_out f a (b ∷ bs) h = elim (Bool-cases (endpoint_before a b)) [
  | inl e ↦ rw (e, h) refl
  | inr e ↦ rw (e, select-insert_out f a bs h) refl
]

select-insert_in :
    (f : Endpoint → Bool) (a : Endpoint) (bs : List Endpoint)
    → f a ≡ true
    → select f bs ≡ []
    → select f (insert_endpoint a bs) ≡ a ∷ []
unfolding select insert_endpoint
select-insert_in f a [] h none_left = rw (h) refl
select-insert_in f a (b ∷ bs) h none_left = elim (Bool-cases (f b)) [
  | inl e ↦
      let some_left : ◌≡◌ {A = List Endpoint} (b ∷ select f bs) [] = rw (e) at none_left in
      absurd (cc)
  | inr e ↦
      let none_right : select f bs ≡ [] = rw (e) at none_left in
      elim (Bool-cases (endpoint_before a b)) [
        | inl before ↦ rw (before, h, e, none_right) refl
        | inr after ↦ rw (after, e) (select-insert_in f a bs h none_right)
      ]
]

no_more : (xs : List Endpoint) → length xs ≤ 0 → xs ≡ []
no_more [] h = refl
no_more (x ∷ xs) h = absurd (omega arith)

select-sort_endpoints :
    (f : Endpoint → Bool) (ps : List Endpoint)
    → length (select f ps) ≤ 1
    → select f (sort_endpoints ps) ≡ select f ps
unfolding select sort_endpoints
select-sort_endpoints f [] h = refl
select-sort_endpoints f (a ∷ rest) h = elim (Bool-cases (f a)) [
  | inl e ↦
      let small : length (a ∷ select f rest) ≤ 1 = rw (e) at h in
      let none_left : select f rest ≡ [] = no_more (select f rest) (omega arith) in
      let sorted : select f (sort_endpoints rest) ≡ [] =
        select-sort_endpoints f rest (rw (none_left) (omega arith)) ∙ none_left in
      rw (e, none_left) (select-insert_in f a (sort_endpoints rest) e sorted)
  | inr e ↦
      rw (e)
        (select-insert_out f a (sort_endpoints rest) e ∙ select-sort_endpoints f rest (rw (e) at h))
]

length-calls : (ps : List Endpoint) → length (map (λ (p : Endpoint). p.calls) ps) ≡ length ps
length-calls [] = refl
length-calls (p ∷ ps) = omega (arith, length-calls ps)

length-counted : (n : ℕ) → length (counted n) ≤ 1
length-counted zero = omega arith
length-counted (suc n) = omega arith

pub calls-sort_endpoints :
    (method template : Str) (n : ℕ) (ps : List Endpoint)
    → map (λ (p : Endpoint). p.calls) (select (is_for method template) ps) ≡ counted n
    → map (λ (p : Endpoint). p.calls) (select (is_for method template) (sort_endpoints ps))
      ≡ counted n
calls-sort_endpoints method template n ps h =
    let kept = select (is_for method template) ps in
    let size : length kept ≤ 1 = omega (arith, length-calls kept, length-counted n, ap length h) in
    ap (map (λ (p : Endpoint). p.calls)) (select-sort_endpoints (is_for method template) ps size)
    ∙ h
