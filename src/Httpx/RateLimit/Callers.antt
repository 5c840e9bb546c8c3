-- ===== src/Httpx/RateLimit/Callers.antt =====
-- Callers do not share their windows.
use emarsys_mock.Base.{
  ◌≡◌, refl, sym, ◌∙◌, inl, inr, ◌≤◌, ℕ, Bool, false, List, [], ◌∷◌, Str, Bool-cases, select,
  lookup, str_key, str_eq, str_eq_iff, IsMap,
}
use emarsys_mock.Httpx.RateLimit.{RateLimiter, Allowance, allow}
use emarsys_mock.Httpx.RateLimit.Windows.{live, live-later, allow-IsMap, allow-own, allow-others}

-- Requests, each with its caller and the time of it; and what they are told.
abbrev pub Call : Type 0
Call = Str × ℕ

unfoldable pub run : RateLimiter → List Call → List (Str × Allowance)
run rl [] = []
run rl ((key, now) ∷ calls) = let (a, rl') = allow key now rl in (key, a) ∷ run rl' calls

-- The clock does not go back.
abbrev pub InOrder : ℕ → List Call → Type 0
InOrder t [] = Unit
InOrder t ((key, now) ∷ calls) = (t ≤ now) × InOrder now calls

abbrev pub made_by : {A : Type 0} → Str → Str × A → Bool
made_by key c = str_eq c.0 key

-- Two limiters that a caller cannot tell apart from a time on.
record Agree (key : Str) (t : ℕ) (r s : RateLimiter) : Type 0 where
  pub same_limit : r.limit ≡ s.limit
  pub same_live : live t (lookup key r.windows) ≡ live t (lookup key s.windows)

allow-limit : (key : Str) (now : ℕ) (rl : RateLimiter) → (allow key now rl).1.limit ≡ rl.limit
unfolding allow
allow-limit key now rl = refl

allow-Agree-own :
    (key : Str) (t now : ℕ) (r s : RateLimiter)
    → t ≤ now
    → Agree key t r s
    → ((allow key now r).0 ≡ (allow key now s).0)
      × Agree key now (allow key now r).1 (allow key now s).1
allow-Agree-own key t now r s le h =
    let (told, kept) = allow-own key now r in
    let (told', kept') = allow-own key now s in
    let same = live-later t now (lookup key r.windows) (lookup key s.windows) le h.same_live in
    (
      rw (told, told', same, h.same_limit),
      record {
        same_limit = allow-limit key now r ∙ h.same_limit ∙ sym (allow-limit key now s);
        same_live = rw (kept, kept', same);
      },
    )

allow-Agree-other :
    (key other : Str) (t now : ℕ) (r s : RateLimiter)
    → t ≤ now
    → IsMap r.windows
    → str_eq other key ≡ false
    → Agree key t r s
    → Agree key now (allow other now r).1 s
allow-Agree-other key other t now r s le is_map apart h = record {
  same_limit = allow-limit other now r ∙ h.same_limit;
  same_live = allow-others other key now r is_map apart ∙ live-later t now _ _ le h.same_live;
}

run-select-from :
    (key : Str) (t : ℕ) (r s : RateLimiter) (calls : List Call)
    → IsMap r.windows
    → InOrder t calls
    → Agree key t r s
    → select (made_by key) (run r calls) ≡ run s (select (made_by key) calls)
unfolding run select
run-select-from key t r s [] is_map order h = refl
run-select-from key t r s ((k, now) ∷ calls) is_map (le, order) h =
    elim (Bool-cases (str_eq k key)) [
      | inl e ↦
          let same : key ≡ k = sym ((str_eq_iff k key).0 e) in
          let (told, h') = allow-Agree-own key t now r s le h in
          let h'' : Agree key now (allow k now r).1 (allow k now s).1 = rw (← same) h' in
          let told' : (allow k now r).0 ≡ (allow k now s).0 = rw (← same) told in
          rw (
            e,
            told',
            run-select-from key now (allow k now r).1 (allow k now s).1 calls
                (allow-IsMap k now r is_map) order h'',
          )
      | inr e ↦
          let h' = allow-Agree-other key k t now r s le is_map e h in
          rw (
            e,
            run-select-from key now (allow k now r).1 s calls (allow-IsMap k now r is_map) order h',
          )
    ]

-- Callers do not touch each other: what a limiter tells one of them in a sequence of calls of all
-- is what it tells that one when nobody else calls, if the clock does not go back from `t` on and
-- no caller has two windows, as in a new limiter.
pub run-select :
    (key : Str) (t : ℕ) (rl : RateLimiter) (calls : List Call)
    → IsMap rl.windows
    → InOrder t calls
    → select (made_by key) (run rl calls) ≡ run rl (select (made_by key) calls)
run-select key t rl calls is_map order =
    run-select-from key t rl rl calls is_map order (record { same_limit = refl; same_live = refl })
