-- ===== src/Base/Split.antt =====
-- Splitting a text at a byte, and joining the parts again.
use Prim.Native.Nat.{ℕ}
use mathlib.Core.Path.{◌≡◌, refl}
use mathlib.Core.Bool.{Bool, true, false, not}
use mathlib.Core.List.{List, [], ◌∷◌, ◌++◌}
use native.Mathlib.Omega.{arith}
use emarsys_mock.Base.Tests.{◌==◌, ==_refl}
use emarsys_mock.Base.Lists.{all, All}
use emarsys_mock.Base.Text.{Str, split_on, split_step}

pub split_on-whole :
    (sep : ℕ) (s : Str) → all (λ b. not (b == sep)) s ≡ true → split_on sep s ≡ s ∷ []
unfolding split_on all
split_on-whole sep [] h = refl
split_on-whole sep (c ∷ s) h =
    let other : (c == sep) ≡ false = ground arith in
    let rest : all (λ b. not (b == sep)) s ≡ true = ground arith in
    rw (other, split_on-whole sep s rest)

pub split_on-first :
    (sep : ℕ) (a s : Str)
    → all (λ b. not (b == sep)) a ≡ true
    → split_on sep (a ++ sep ∷ s) ≡ a ∷ split_on sep s
unfolding split_on all
split_on-first sep [] s h = rw (==_refl sep)
split_on-first sep (c ∷ a) s h =
    let other : (c == sep) ≡ false = ground arith in
    let rest : all (λ b. not (b == sep)) a ≡ true = ground arith in
    rw (other, split_on-first sep a s rest)

-- A text without the byte.
abbrev pub Lacks : ℕ → Str → Type 0
Lacks sep s = all (λ b. not (b == sep)) s ≡ true

split_step-Lacks :
    (sep c : ℕ) (b : Bool) (parts : List Str)
    → b ≡ (c == sep)
    → All (Lacks sep) parts
    → All (Lacks sep) (split_step b c parts)
unfolding all
split_step-Lacks sep c true parts e h = (refl, h)
split_step-Lacks sep c false [] e h = (ground arith, tt)
split_step-Lacks sep c false (p ∷ parts) e (h, hs) = (ground arith, hs)

-- No part has the byte at which the text was split.
pub split_on-Lacks : (sep : ℕ) (s : Str) → All (Lacks sep) (split_on sep s)
unfolding split_on all
split_on-Lacks sep [] = (refl, tt)
split_on-Lacks sep (c ∷ s) =
    split_step-Lacks sep c (c == sep) (split_on sep s) refl (split_on-Lacks sep s)
