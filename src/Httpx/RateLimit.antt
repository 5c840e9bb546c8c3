-- ===== src/Httpx/RateLimit.antt =====
-- internal/httpx/ratelimit.go: a fixed number of requests per minute and caller. Times are
-- nanoseconds since the epoch; the lock makes each `allow` one step.
pub mod Windows
pub mod Callers
pub mod Minute
use emarsys_mock.Base.{
  ℕ, suc, ◌+◌, ◌-◌, ◌*◌, ◌/◌, Bool, true, false, not, ◌||◌, Option, none, some, List, [], ◌∷◌, ◌++◌,
  Str, lit, ℤ, pos, negsuc, itoa, itoa_ℕ, if◌then◌else◌, ltb, leb, length, select, lookup, put,
  str_key, is_positive,
}
use emarsys_mock.Api.{Failure, error_status, code_internal_error}

-- A window's requests so far, and its end.
pub record Window : Type 0 where
  pub count : ℕ
  pub reset_at : ℕ

abbrev pub Windows : Type 0
Windows = List (Str × Window)

pub record RateLimiter : Type 0 where
  pub limit : ℤ
  pub windows : Windows

-- NewRateLimiter
unfoldable pub new_rate_limiter : ℤ → RateLimiter
new_rate_limiter limit = record { limit = limit; windows = [] }

abbrev pub second : ℕ
second = 1000000000

abbrev pub minute : ℕ
minute = 60 * second

-- now.After(w.resetAt)
unfoldable pub is_over : ℕ → Window → Bool
is_over now w = ltb w.reset_at now

-- The loop that deletes the windows that are over.
unfoldable pub sweep : ℕ → Windows → Windows
sweep now ws = select (λ e. not (is_over now e.1)) ws

abbrev pub fresh : ℕ → Window
fresh now = record { count = 0; reset_at = now + minute }

-- rl.windows[key] = w, with the sweep of a map that has grown.
unfoldable pub roll_over : Str → ℕ → Windows → Windows
roll_over key now ws =
    let grown = put key (fresh now) ws in if ltb 1024 (length grown) then sweep now grown else grown

-- The caller's window, and the map with it.
abbrev pub current : Str → ℕ → Windows → Option Window → Window × Windows
current key now ws none = (fresh now, roll_over key now ws)
current key now ws (some w) = if is_over now w then (fresh now, roll_over key now ws) else (w, ws)

-- limit - count, or 0
abbrev pub left_of : ℤ → ℕ → ℕ
left_of (pos limit) count = limit - count
left_of (negsuc n) count = 0

-- count <= limit
abbrev pub fits : ℤ → ℕ → Bool
fits (pos limit) count = leb count limit
fits (negsuc n) count = false

pub record Allowance : Type 0 where
  pub allowed : Bool
  pub remaining : ℕ
  pub reset_at : ℕ

abbrev pub counted : Window → Window
counted w = record w { count = w.count + 1 }

abbrev pub allowance : ℤ → Window → Allowance
allowance limit w = record {
  allowed = fits limit w.count;
  remaining = left_of limit w.count;
  reset_at = w.reset_at;
}

-- RateLimiter.Allow at a time
unfoldable pub allow : Str → ℕ → RateLimiter → Allowance × RateLimiter
allow key now rl =
    let (w, ws) = current key now rl.windows (lookup key rl.windows) in
    (allowance rl.limit (counted w), record rl { windows = put key (counted w) ws })

-- The headers that say where the caller stands; the last is in seconds.
pub record Headers : Type 0 where
  pub limit : ℤ
  pub remaining : ℕ
  pub reset : ℕ

-- What the middleware does: pass the request on, with the headers or without, or refuse it with a
-- Retry-After header.
pub data Reply : Type 0 where
  passed : Option Headers → Reply
  refused : Headers → ℕ → Failure → Reply

-- int(time.Until(resetAt).Seconds()), at least 1
unfoldable pub retry_after : ℕ → ℕ → ℕ
retry_after reset_at now = let s = (reset_at - now) / second in if ltb s 1 then 1 else s

abbrev limit_text : ℤ → Str
limit_text limit = lit "Rate limit exceeded: " ++ itoa limit ++ lit " requests per minute"

abbrev pub replied : ℤ → ℕ → Allowance → Reply
replied limit later a =
    let headers : Headers = record {
      limit = limit;
      remaining = a.remaining;
      reset = a.reset_at / second;
    } in
    if not a.allowed
    then refused headers (retry_after a.reset_at later)
        (error_status (pos 429) code_internal_error (limit_text limit))
    else passed (some headers)

-- RateLimiter.Middleware: `applies` is the test of the path, `now` and `later` the clock's readings.
unfoldable pub middleware : Bool → Str → ℕ → ℕ → RateLimiter → Reply × RateLimiter
middleware applies key now later rl =
    if not (is_positive rl.limit) || not applies
    then (passed none, rl)
    else (let (a, rl') = allow key now rl in (replied rl.limit later a, rl'))
