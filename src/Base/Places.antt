-- ===== src/Base/Places.antt =====
-- Finding a text in another: the first place, and what stands around it.
use Prim.Native.Nat.{ℕ, suc, ◌+◌, ◌-◌}
use mathlib.Core.Path.{◌≡◌, refl, ap, sym, ◌∙◌}
use mathlib.Core.Logic.{inl, inr}
use mathlib.Core.Bool.{true}
use mathlib.Core.Option.{Option, none, some}
use mathlib.Core.List.{[], ◌∷◌, ◌++◌, append_assoc}
use native.Mathlib.Omega.{arith}
use emarsys_mock.Base.Tests.{Bool-cases}
use emarsys_mock.Base.Lists.{length, length-append, drop, take, take-append-drop}
use emarsys_mock.Base.Text.{
  Str, has_suffix, str_eq_iff, str_eq_refl, drop-append, has_prefix, has_prefix_iff,
  has_prefix-append, drop-append-le, index_of, one_more,
}

found_here : (s p : Str) (i : ℕ) → has_prefix s p ≡ true → i ≡ 0 → s ≡ p ++ drop (i + length p) s
found_here s p i h z = let k : i + length p ≡ length p = omega arith in rw k (has_prefix_iff s p h)

one_more-eq-some :
    (o : Option ℕ) (i : ℕ) → one_more o ≡ some i → (j : ℕ) × (o ≡ some j) × (i ≡ suc j)
one_more-eq-some none i h = cc
one_more-eq-some (some j) i h = (j, refl, ground arith)

drop-suc_add : (j n c : ℕ) (s : Str) → drop (suc j + n) (c ∷ s) ≡ drop (j + n) s
drop-suc_add j n c s = let k : suc j + n ≡ suc (j + n) = omega arith in rw k

-- A place that is found splits the text there.
pub index_of-some :
    (s p : Str) (i : ℕ)
    → index_of s p ≡ some i
    → (x : Str) × (s ≡ x ++ (p ++ drop (i + length p) s))
unfolding index_of
index_of-some [] p i h = elim (Bool-cases (has_prefix [] p)) [
  | inl e ↦ ([], found_here [] p i e (ground arith))
  | inr e ↦ absurd (ground arith)
]
index_of-some (c ∷ s) p i h = elim (Bool-cases (has_prefix (c ∷ s) p)) [
  | inl e ↦ ([], found_here (c ∷ s) p i e (ground arith))
  | inr e ↦
      let (j, at_j, next) = one_more-eq-some (index_of s p) i (ground arith) in
      let (x, split) = index_of-some s p j at_j in
      (c ∷ x, rw next (rw drop-suc_add (ap (λ (t : Str). c ∷ t) split)))
]

-- What follows a first occurrence of `p` ends like what follows any other.
first_rest : (s p x y : Str) → s ≡ x ++ (p ++ y) → drop (length p) s ≡ drop (length p) (x ++ p) ++ y
first_rest s p x y e =
    rw (e, ← append_assoc) (drop-append-le (length p) (x ++ p) y (omega (arith, length-append x p)))

index_of-prefix : (s p : Str) → has_prefix s p ≡ true → index_of s p ≡ some 0
unfolding index_of
index_of-prefix [] p h = rw h
index_of-prefix (c ∷ s) p h = rw h

abbrev FirstPlace : Str → Str → Str → Type 0
FirstPlace s p y = (i : ℕ) × (z : Str) × (index_of s p ≡ some i) × (drop (i + length p) s ≡ z ++ y)

first_at_once : (s p x y : Str) → s ≡ x ++ (p ++ y) → has_prefix s p ≡ true → FirstPlace s p y
first_at_once s p x y e h =
    let k : 0 + length p ≡ length p = omega arith in
    (0, drop (length p) (x ++ p), index_of-prefix s p h, rw k (first_rest s p x y e))

tail-eq : (c a : ℕ) (s t : Str) → ◌≡◌ {A = Str} (c ∷ s) (a ∷ t) → s ≡ t
tail-eq c a s t e = ground arith

-- A text that holds `p` has a first place for it, and what follows that place ends like the text.
pub index_of-first :
    (s p x y : Str)
    → s ≡ x ++ (p ++ y)
    → (i : ℕ) × (z : Str) × (index_of s p ≡ some i) × (drop (i + length p) s ≡ z ++ y)
unfolding index_of
index_of-first s p [] y e = first_at_once s p [] y e (rw e (has_prefix-append p y))
index_of-first [] p (a ∷ x) y e = cc
index_of-first (c ∷ s) p (a ∷ x) y e = elim (Bool-cases (has_prefix (c ∷ s) p)) [
  | inl h ↦ first_at_once (c ∷ s) p (a ∷ x) y e h
  | inr h ↦
      let (i, z, at_i, rest) = index_of-first s p x y (tail-eq c a s (x ++ (p ++ y)) e) in
      (suc i, z, rw (h, at_i), rw drop-suc_add rest)
]

pub has_suffix_sound : (s p : Str) → has_suffix s p ≡ true → (x : Str) × (s ≡ x ++ p)
unfolding has_suffix
has_suffix_sound s p h =
    let n = length s - length p in
    let at_end : drop n s ≡ p = (str_eq_iff (drop n s) p).0 (ground arith) in
    (take n s, sym (take-append-drop n s) ∙ ap (λ (t : Str). take n s ++ t) at_end)

pub has_suffix-append : (x p : Str) → has_suffix (x ++ p) p ≡ true
unfolding has_suffix
has_suffix-append x p =
    let n : length (x ++ p) - length p ≡ length x = omega (arith, length-append x p) in
    rw (n, drop-append, str_eq_refl) (ground (arith, length-append x p))
