-- ===== src/Httpx/RateLimit/Minute.antt =====
-- One caller's minute.
use emarsys_mock.Base.{
  ◌≡◌, refl, ◌∙◌, ◌≤◌, arith, ℕ, zero, suc, ◌+◌, true, false, none, some, List, [], ◌∷◌, ◌++◌, map,
  Str, ℤ, pos, ap, ◌-◌, lookup, str_key, take, drop, leb,
}
use emarsys_mock.Httpx.RateLimit.{
  Window, RateLimiter, is_over, fresh, minute, Allowance, allow, allowance, counted,
}
use emarsys_mock.Httpx.RateLimit.Windows.{live, or_fresh, allow-own}
use emarsys_mock.Httpx.RateLimit.Callers.{Call, run}

-- The allowances of one caller's requests, at the given times.
abbrev pub by_one : Str → List ℕ → List Call
by_one key times = map (λ now. (key, now)) times

-- The times are within a window.
abbrev pub Within : ℕ → List ℕ → Type 0
Within end [] = Unit
Within end (now ∷ times) = (now ≤ end) × Within end times

-- What n requests are told in a window that has counted some.
abbrev numbered : Str → ℤ → ℕ → ℕ → List ℕ → List (Str × Allowance)
numbered key limit end count [] = []
numbered key limit end count (now ∷ times) =
    (key, allowance limit (record { count = count + 1; reset_at = end }))
    ∷ numbered key limit end (count + 1) times

live-within :
    (count end now : ℕ)
    → now ≤ end
    → live now (some (record { count = count; reset_at = end }))
      ≡ some (record { count = count; reset_at = end })
unfolding is_over
live-within count end now le = ground arith

run-from :
    (key : Str) (rl : RateLimiter) (count end : ℕ) (times : List ℕ)
    → lookup key rl.windows ≡ some (record { count = count; reset_at = end })
    → Within end times
    → run rl (by_one key times) ≡ numbered key rl.limit end count times
unfolding run allow
run-from key rl count end [] here within = refl
run-from key rl count end (now ∷ times) here (le, within) =
    let w : Window = record { count = count; reset_at = end } in
    let counts : or_fresh now (live now (lookup key rl.windows)) ≡ w =
      rw (here, live-within count end now le) refl in
    let (told, kept) = allow-own key now rl in
    let here' : lookup key (allow key now rl).1.windows ≡ some (counted w) =
      kept ∙ ap (λ v. some (counted v)) counts in
    let rest = run-from key (allow key now rl).1 (count + 1) end times here' within in
    rw (told, counts, rest)

numbered-allowed :
    (key : Str) (limit end count room : ℕ) (times : List ℕ)
    → limit - count ≡ room
    → map (λ x. x.1.allowed) (numbered key (pos limit) end count times)
      ≡ map (λ x. true) (take room times) ++ map (λ x. false) (drop room times)
numbered-allowed key limit end count zero [] e = refl
numbered-allowed key limit end count (suc room) [] e = refl
numbered-allowed key limit end count zero (now ∷ times) e =
    let full : leb (count + 1) limit ≡ false = ground arith in
    rw (full, numbered-allowed key limit end (count + 1) zero times (omega arith))
numbered-allowed key limit end count (suc room) (now ∷ times) e =
    let fits : leb (count + 1) limit ≡ true = ground arith in
    rw (fits, numbered-allowed key limit end (count + 1) room times (omega arith))

-- A minute begins with a call of a caller that has no window, or one that is over. Of the caller's
-- calls up to its end the first `limit` pass, whatever their times, and no other.
pub run-minute :
    (key : Str) (limit now : ℕ) (times : List ℕ) (rl : RateLimiter)
    → rl.limit ≡ pos limit
    → live now (lookup key rl.windows) ≡ none
    → Within (now + minute) times
    → map (λ x. x.1.allowed) (run rl (by_one key (now ∷ times)))
      ≡ map (λ x. true) (take limit (now ∷ times)) ++ map (λ x. false) (drop limit (now ∷ times))
unfolding run allow
run-minute key limit now times rl limited over within =
    let (told, kept) = allow-own key now rl in
    let here : lookup key (allow key now rl).1.windows ≡ some (counted (fresh now)) =
      kept ∙ ap (λ o. some (counted (or_fresh now o))) over in
    let rest = run-from key (allow key now rl).1 1 (now + minute) times here within in
    let all : run rl (by_one key (now ∷ times))
        ≡ numbered key (pos limit) (now + minute) 0 (now ∷ times) =
      rw (told, over, rest, limited) in
    ap (map (λ x. x.1.allowed)) all
    ∙ numbered-allowed key limit (now + minute) 0 limit (now ∷ times) (omega arith)
