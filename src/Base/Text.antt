-- ===== src/Base/Text.antt =====
-- A Go string is its bytes: a list of numbers. A literal of the source is `lit "..."`.
use Prim.Native.Nat.{ℕ, zero, suc, ◌+◌, ◌-◌, ◌≤◌}
use Prim.Native.Char.{code}
use Prim.Native.String.{String}
use mathlib.Core.Path.{◌≡◌, refl}
use mathlib.Core.Logic.{◌↔◌}
use mathlib.Core.Bool.{Bool, true, false, ◌&&◌, ◌||◌}
use mathlib.Core.Option.{Option, none, some}
use mathlib.Core.List.{List, [], ◌∷◌, ◌++◌, reverse}
use native.Mathlib.Omega.{arith}
use emarsys_mock.Base.Tests.{leb, ◌==◌, if◌then◌else◌}
use emarsys_mock.Base.Lists.{take, length, drop}

abbrev pub Str : Type 0
Str = List ℕ

-- The bytes of an ASCII literal.
unfoldable pub lit : String → Str
lit String.[] = []
lit (String.◌∷◌ c s) = code c ∷ lit s

-- a == b
unfoldable pub str_eq : Str → Str → Bool
str_eq [] [] = true
str_eq [] (y ∷ ys) = false
str_eq (x ∷ xs) [] = false
str_eq (x ∷ xs) (y ∷ ys) = x == y && str_eq xs ys

pub str_eq_iff : (a b : Str) → (str_eq a b ≡ true) ↔ (a ≡ b)
unfolding str_eq
str_eq_iff [] [] = ground arith
str_eq_iff [] (y ∷ ys) = ground arith
str_eq_iff (x ∷ xs) [] = ground arith
str_eq_iff (x ∷ xs) (y ∷ ys) = ground (arith, str_eq_iff xs ys)

pub str_eq_refl : (a : Str) → str_eq a a ≡ true
str_eq_refl a = (str_eq_iff a a).1 refl

-- a <= b, byte by byte
unfoldable pub str_leb : Str → Str → Bool
str_leb [] ys = true
str_leb (x ∷ xs) [] = false
str_leb (x ∷ xs) (y ∷ ys) = let rest = str_leb xs ys in if x == y then rest else leb x y

-- a == ""
unfoldable pub is_empty : Str → Bool
is_empty [] = true
is_empty (x ∷ xs) = false

-- The white space of package strings and unicode, below code point 128.
abbrev pub is_space : ℕ → Bool
is_space c = (leb 9 c && leb c 13) || c == 32

-- strings.TrimLeftFunc(s, unicode.IsSpace)
unfoldable pub trim_left : Str → Str
trim_left [] = []
trim_left (c ∷ s) = let rest = trim_left s in if is_space c then rest else c ∷ s

-- strings.TrimSpace(s)
unfoldable pub trim_space : Str → Str
unfolding trim_left
trim_space s = reverse (trim_left (reverse (trim_left s)))

abbrev pub is_upper : ℕ → Bool
is_upper c = leb 65 c && leb c 90

abbrev pub lower : ℕ → ℕ
lower c = if is_upper c then c + 32 else c

-- strings.ToLower(s), on ASCII
unfoldable pub to_lower : Str → Str
to_lower [] = []
to_lower (c ∷ s) = lower c ∷ to_lower s

abbrev pub is_lower : ℕ → Bool
is_lower c = leb 97 c && leb c 122

abbrev pub upper : ℕ → ℕ
upper c = if is_lower c then c - 32 else c

-- strings.ToUpper(s), on ASCII
unfoldable pub to_upper : Str → Str
to_upper [] = []
to_upper (c ∷ s) = upper c ∷ to_upper s

-- strings.HasPrefix(s, prefix)
unfoldable pub has_prefix : Str → Str → Bool
has_prefix s [] = true
has_prefix [] (p ∷ ps) = false
has_prefix (c ∷ s) (p ∷ ps) = c == p && has_prefix s ps

-- strings.HasSuffix(s, suffix)
unfoldable pub has_suffix : Str → Str → Bool
unfolding str_eq
has_suffix s suffix =
    leb (length suffix) (length s) && str_eq (drop (length s - length suffix) s) suffix

abbrev pub split_step : Bool → ℕ → List Str → List Str
split_step true c parts = [] ∷ parts
split_step false c [] = (c ∷ []) ∷ []
split_step false c (part ∷ parts) = (c ∷ part) ∷ parts

-- strings.Split(s, sep) for a separator of one byte: never empty
unfoldable pub split_on : ℕ → Str → List Str
split_on sep [] = [] ∷ []
split_on sep (c ∷ s) = split_step (c == sep) c (split_on sep s)

abbrev pub one_more : Option ℕ → Option ℕ
one_more none = none
one_more (some i) = some (suc i)

-- strings.Index(s, sub): the first place, `none` for -1
unfoldable pub index_of : Str → Str → Option ℕ
index_of [] sub = if has_prefix [] sub then some 0 else none
index_of (c ∷ s) sub =
    let rest = index_of s sub in if has_prefix (c ∷ s) sub then some 0 else one_more rest

-- strings.Contains(s, sub)
unfoldable pub contains : Str → Str → Bool
unfolding index_of
contains s sub = elim (index_of s sub) [ none ↦ false | some i ↦ true ]

-- strings.EqualFold(a, b), on ASCII
unfoldable pub equal_fold : Str → Str → Bool
equal_fold a b = str_eq (to_lower a) (to_lower b)

-- What a prefix test says of the text.
pub has_prefix_iff : (s p : Str) → has_prefix s p ≡ true → s ≡ p ++ drop (length p) s
unfolding has_prefix
has_prefix_iff s [] h = refl
has_prefix_iff [] (p ∷ ps) h = ground arith
has_prefix_iff (c ∷ s) (p ∷ ps) h = ground (arith, has_prefix_iff s ps)

pub has_prefix-append : (p s : Str) → has_prefix (p ++ s) p ≡ true
unfolding has_prefix
has_prefix-append [] s = refl
has_prefix-append (c ∷ p) s = ground (arith, has_prefix-append p s)

pub drop-append : (p s : Str) → drop (length p) (p ++ s) ≡ s
drop-append [] s = refl
drop-append (c ∷ p) s = drop-append p s

pub drop-append-le : (n : ℕ) (u y : Str) → n ≤ length u → drop n (u ++ y) ≡ drop n u ++ y
drop-append-le zero u y h = refl
drop-append-le (suc n) [] y h = absurd (omega arith)
drop-append-le (suc n) (c ∷ u) y h = drop-append-le n u y (omega arith)

pub take-append : (p s : Str) → take (length p) (p ++ s) ≡ p
take-append [] s = refl
take-append (c ∷ p) s = rw (take-append p s)
