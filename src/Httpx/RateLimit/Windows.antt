-- ===== src/Httpx/RateLimit/Windows.antt =====
-- The map of windows: what a request does to the caller's window, and to the others'.
use emarsys_mock.Base.{
  ◌≡◌, refl, inl, inr, ◌≤◌, arith, ℕ, false, not, Option, none, some, Str, ltb, length, lookup, put,
  str_key, str_eq, str_eq_refl, IsMap, put-IsMap, keep, lookup-put, lookup-select, select-IsMap,
  Bool-cases,
}
use emarsys_mock.Httpx.RateLimit.{
  Window, Windows, RateLimiter, is_over, sweep, fresh, roll_over, current, counted, allowance,
  allow,
}

-- The window of an entry that counts at a time.
abbrev pub live : ℕ → Option Window → Option Window
live now o = keep (λ w. not (is_over now w)) o

abbrev pub or_fresh : ℕ → Option Window → Window
or_fresh now none = fresh now
or_fresh now (some w) = w

pub live-later :
    (t u : ℕ) (o o' : Option Window) → t ≤ u → live t o ≡ live t o' → live u o ≡ live u o'
unfolding is_over
live-later t u none none le h = refl
live-later t u none (some v) le h = ground arith
live-later t u (some w) none le h = ground arith
live-later t u (some w) (some v) le h = ground arith

roll_over-IsMap : (key : Str) (now : ℕ) (ws : Windows) → IsMap ws → IsMap (roll_over key now ws)
unfolding roll_over sweep
roll_over-IsMap key now ws h = ground (
  arith,
  put-IsMap key (fresh now) ws h,
  select-IsMap (λ w. not (is_over now w)) (put key (fresh now) ws) (put-IsMap key (fresh now) ws h),
)

current-IsMap :
    (key : Str) (now : ℕ) (ws : Windows) (o : Option Window)
    → IsMap ws
    → IsMap (current key now ws o).1
current-IsMap key now ws none h = roll_over-IsMap key now ws h
current-IsMap key now ws (some w) h = ground (arith, roll_over-IsMap key now ws h)

pub allow-IsMap :
    (key : Str) (now : ℕ) (rl : RateLimiter) → IsMap rl.windows → IsMap (allow key now rl).1.windows
unfolding allow
allow-IsMap key now rl h =
    put-IsMap key _ _ (current-IsMap key now rl.windows (lookup key rl.windows) h)

current-live :
    (key : Str) (now : ℕ) (ws : Windows) (o : Option Window)
    → (current key now ws o).0 ≡ or_fresh now (live now o)
current-live key now ws none = refl
current-live key now ws (some w) = ground arith

-- What the caller is told depends on its own live window alone, which counts the request.
pub allow-own :
    (key : Str) (now : ℕ) (rl : RateLimiter)
    → let w = counted (or_fresh now (live now (lookup key rl.windows))) in
      ((allow key now rl).0 ≡ allowance rl.limit w)
      × (lookup key (allow key now rl).1.windows ≡ some w)
unfolding allow
allow-own key now rl =
    rw
      (
        current-live key now rl.windows (lookup key rl.windows),
        lookup-put key key (counted (or_fresh now (live now (lookup key rl.windows))))
            (current key now rl.windows (lookup key rl.windows)).1,
        str_eq_refl key,
      )
      (refl, refl)

live-live : (now : ℕ) (o : Option Window) → live now (live now o) ≡ live now o
live-live now none = refl
live-live now (some w) = ground arith

roll_over-others :
    (key j : Str) (now : ℕ) (ws : Windows)
    → IsMap ws
    → str_eq key j ≡ false
    → live now (lookup j (roll_over key now ws)) ≡ live now (lookup j ws)
unfolding roll_over sweep
roll_over-others key j now ws h other =
    let grown : Windows = put key (fresh now) ws in
    elim (Bool-cases (ltb 1024 (length grown))) [
      | inl e ↦ rw (
        e,
        lookup-select (λ w. not (is_over now w)) j grown (put-IsMap key (fresh now) ws h),
        lookup-put key j (fresh now) ws,
        other,
        live-live now (lookup j ws),
      )
      | inr e ↦ rw (e, lookup-put key j (fresh now) ws, other)
    ]

current-others :
    (key j : Str) (now : ℕ) (ws : Windows) (o : Option Window)
    → IsMap ws
    → str_eq key j ≡ false
    → live now (lookup j (current key now ws o).1) ≡ live now (lookup j ws)
current-others key j now ws none h other = roll_over-others key j now ws h other
current-others key j now ws (some w) h other = ground (arith, roll_over-others key j now ws h other)

-- The sweep included, the live windows of the other callers stay as they are.
pub allow-others :
    (key j : Str) (now : ℕ) (rl : RateLimiter)
    → IsMap rl.windows
    → str_eq key j ≡ false
    → live now (lookup j (allow key now rl).1.windows) ≡ live now (lookup j rl.windows)
unfolding allow
allow-others key j now rl h other =
    let (w, ws) = current key now rl.windows (lookup key rl.windows) in
    rw (lookup-put key j (counted w) ws, other)
      (current-others key j now rl.windows (lookup key rl.windows) h other)
