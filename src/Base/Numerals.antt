-- ===== src/Base/Numerals.antt =====
-- Package strconv: Atoi, ParseInt and Itoa on 64-bit integers.
use Prim.Native.Nat.{ℕ, zero, suc, ◌+◌, ◌-◌, ◌*◌, ◌/◌, ◌%◌, ◌^◌}
use mathlib.Core.Bool.{Bool, ◌&&◌}
use mathlib.Core.Option.{Option, none, some}
use mathlib.Core.List.{[], ◌∷◌, ◌++◌}
use emarsys_mock.Base.Tests.{ltb, leb, ◌==◌, if◌then◌else◌}
use emarsys_mock.Base.Int.{ℤ, pos, negsuc}
use emarsys_mock.Base.Text.{Str}

abbrev pub is_digit : ℕ → Bool
is_digit c = leb 48 c && leb c 57

digits : ℕ → Str → Option ℕ
digits n [] = some n
digits n (c ∷ s) = let rest = digits (n * 10 + (c - 48)) s in if is_digit c then rest else none

-- One digit at least.
magnitude : Str → Option ℕ
magnitude [] = none
magnitude (c ∷ s) = digits 0 (c ∷ s)

abbrev int_limit : ℕ
int_limit = 2 ^ 63

abbrev in_range : Option ℕ → Option ℤ
in_range none = none
in_range (some n) = if ltb n int_limit then some (pos n) else none

abbrev negate : Option ℕ → Option ℤ
negate none = none
negate (some zero) = some (pos 0)
negate (some (suc n)) = if ltb n int_limit then some (negsuc n) else none

-- strconv.Atoi(s), and strconv.ParseInt(s, 10, 64): an optional sign and digits, in range
unfoldable pub atoi : Str → Option ℤ
unfolding digits magnitude
atoi [] = none
atoi (c ∷ s) =
    if c == b'-'
    then negate (magnitude s)
    else if c == b'+'
    then in_range (magnitude s)
    else in_range (magnitude (c ∷ s))

decimal : ℕ → ℕ → Str
decimal zero n = []
decimal (suc fuel) n =
    let front = decimal fuel (n / 10) in
    if ltb n 10 then (n + 48) ∷ [] else front ++ (n % 10 + 48) ∷ []

-- Decimal digits of a number: one round for each digit, and a number has at most as many as itself + 1.
unfoldable pub itoa_ℕ : ℕ → Str
unfolding decimal
itoa_ℕ n = decimal (suc n) n

-- strconv.Itoa(a)
unfoldable pub itoa : ℤ → Str
unfolding itoa_ℕ
itoa (pos n) = itoa_ℕ n
itoa (negsuc n) = b'-' ∷ itoa_ℕ (suc n)
