-- ===== src/Base/Like.antt =====
-- SQLite's LIKE, on ASCII: '%' stands for any text and '_' for one byte; the case of letters is ignored.
use Prim.Native.Nat.{ℕ}
use mathlib.Core.Bool.{Bool, false, ◌&&◌, ◌||◌}
use mathlib.Core.List.{[], ◌∷◌}
use emarsys_mock.Base.Tests.{◌==◌, if◌then◌else◌}
use emarsys_mock.Base.Text.{Str, lower, is_empty}

-- Whether a test holds of some end of a text.
unfoldable pub some_end : (Str → Bool) → Str → Bool
some_end f [] = f []
some_end f (c ∷ s) = f (c ∷ s) || some_end f s

abbrev one_like : ℕ → Str → (Str → Bool) → Bool
one_like p [] rest = false
one_like p (c ∷ s) rest = (p == b'_' || lower p == lower c) && rest s

-- text LIKE pattern
unfoldable pub like : Str → Str → Bool
unfolding is_empty some_end
like [] s = is_empty s
like (p ∷ pattern) s = if p == b'%' then some_end (like pattern) s else one_like p s (like pattern)
