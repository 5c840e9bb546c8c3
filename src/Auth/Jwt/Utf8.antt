-- ===== src/Auth/Jwt/Utf8.antt =====
-- Valid UTF-8, as unicode/utf8 documents it: no encoding that is too long, no surrogate, and nothing
-- above U+10FFFF.
use emarsys_mock.Base.{
  ℕ, zero, suc, Bool, true, false, ◌&&◌, [], ◌∷◌, Str, ltb, leb, ◌==◌, if◌then◌else◌,
}

abbrev between : ℕ → ℕ → ℕ → Bool
between low high c = leb low c && leb c high

-- How many bytes follow a first byte, and the bounds of the next one
abbrev follows : ℕ → ℕ × (ℕ × ℕ)
follows c =
    if ltb c 128
    then (0, (128, 191))
    else if between 194 223 c
    then (1, (128, 191))
    else if c == 224
    then (2, (160, 191))
    else if c == 237
    then (2, (128, 159))
    else if between 225 239 c
    then (2, (128, 191))
    else if c == 240
    then (3, (144, 191))
    else if between 241 243 c
    then (3, (128, 191))
    else if c == 244
    then (3, (128, 143))
    else (1, (1, 0))

-- The first number is of the bytes that are still to come.
unfoldable pub is_utf8_from : ℕ → ℕ → ℕ → Str → Bool
is_utf8_from zero low high [] = true
is_utf8_from (suc n) low high [] = false
is_utf8_from zero low high (c ∷ s) =
    let (n, (low', high')) = follows c in is_utf8_from n low' high' s
is_utf8_from (suc n) low high (c ∷ s) = between low high c && is_utf8_from n 128 191 s

unfoldable pub is_utf8 : Str → Bool
unfolding is_utf8_from
is_utf8 s = is_utf8_from 0 128 191 s
