-- ===== src/Tests/Httpx.antt =====
-- Tests of the middleware.
use emarsys_mock.Base.{
  ◌≡◌, refl, arith, true, false, none, some, List, [], ◌∷◌, map, Str, lit, ℤ, pos, select, lookup,
  str_key, int_lt, is_positive, has_prefix,
}
use emarsys_mock.Httpx.RateLimit.{RateLimiter}
use emarsys_mock.Httpx.RateLimit.Callers.{Call, run, made_by, run-select}
use emarsys_mock.Httpx.RateLimit.Minute.{by_one, run-minute}
use emarsys_mock.Httpx.LimitBody.{
  admitted, is_contact_path, limit_for, limit_body, limit_body-bounds,
}

abbrev limiter : RateLimiter
limiter = record { limit = pos 2; windows = [] }

abbrev alice : Str
alice = 97 ∷ []

abbrev bob : Str
bob = 98 ∷ []

-- Two callers in turn.
abbrev calls : List Call
calls =
    (alice, 10)
    ∷ (bob, 11)
    ∷ (alice, 12)
    ∷ (alice, 13)
    ∷ (bob, 60000000011)
    ∷ (alice, 60000000011)
    ∷ []

run-select_example :
    select (made_by alice) (run limiter calls) ≡ run limiter (select (made_by alice) calls)
run-select_example =
    run-select alice 0 limiter calls tt
      (omega arith, (omega arith, (omega arith, (omega arith, (omega arith, (omega arith, tt))))))

limiter-idle : lookup alice limiter.windows ≡ none
unfolding lookup
limiter-idle = refl

run-minute_example :
    map (λ x. x.1.allowed) (run limiter (by_one alice (10 ∷ 11 ∷ 60000000010 ∷ [])))
    ≡ true ∷ true ∷ false ∷ []
run-minute_example =
    run-minute alice 2 10 (11 ∷ 60000000010 ∷ []) limiter refl (rw (limiter-idle) refl)
      (omega arith, (omega arith, tt))

abbrev contact_path : Str
unfolding lit
contact_path = lit "/api/v2/contact/"

limited_run : limit_body (pos 100) (pos 80) contact_path (pos 80) ≡ admitted (some (pos 80))
unfolding lit has_prefix is_contact_path limit_for limit_body
limited_run = refl

limit_body-bounds_example :
    (limit : ℤ) × (some (pos 80) ≡ some limit)
    × (int_lt limit (pos 80) ≡ false)
    × (int_lt (pos 100) limit ≡ false)
    × (is_contact_path contact_path ≡ true
        → is_positive (pos 80) ≡ true
        → int_lt (pos 80) limit ≡ false)
limit_body-bounds_example =
    limit_body-bounds (pos 100) (pos 80) contact_path (pos 80) (some (pos 80)) refl limited_run
